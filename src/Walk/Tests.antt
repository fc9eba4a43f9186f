-- ===== src/Walk/Tests.antt =====
-- A disk with one song and one draft.
use filecache.Base.{
  ◌||◌, ◌==◌, if◌then◌else◌, ℕ, ◌≡◌, refl, true, false, some, none, Bool, Option, [], ◌∷◌, codes,
  inl, Bytes,
}
use filecache.Base.Map
use filecache.Base.Map.{ℕ_key, bytes_key, bytes_eq}
use filecache.ObjectId.{
  id_before, end_position, find_last, find_first, scan_id, get_value_for_char,
  get_object_id_from_path, get_type_name_from_path,
}
use filecache.Os.{Attribute}
use filecache.Os.Tests.{quiet_os}
use filecache.Config
use filecache.Config.{config_entries, configure, read_entry}
use filecache.Sequence.{read_sequence_number}
use filecache.BlockSize.{get_filesystem_file_size}
use filecache.Cache
use filecache.Object
use filecache.CacheSet.Objects.{insert_with_id}
use filecache.Cache.{FileCache}
use filecache.CacheSet.State.{
  FileCacheSet, is_type_dir_type, sum_of_cache_sizes, sum_from, sum_of_lo_watermarks,
}
use filecache.CacheSet.Types.{define_type}
use filecache.CacheSet.Cleanup.{cleanup_at_startup}
use filecache.Bus.{Service, get_or}
use filecache.Bus.Balance.{IsBalanced}
use filecache.Bus.Runs.Tests.{start, no_music, music_name, new_path}
use filecache.Walk.{
  leave_dir, insert_valid, insert_found, get_written, get_size, with_attribute, Disk, Walk, Mode,
  process_files, occurs, process_entry, process_mode, if_continue, check_for_special_file,
  create_type_if_needed, is_top_level_directory,
}
use filecache.Walk.Tree.{Listing, Listings, walk_dir_tree, file_tree_walk, process_all}
use filecache.Walk.Started.{AllDotless}
use filecache.Walk.App.{
  Framework, open_app, close_app, handle_idle_timeout_cb, create_default_cachedir, make_app,
  make_set, read_config,
}
use filecache.Walk.Opened.{make_app-IsBalanced}
use filecache.Walk.Inside.{process_all_inside, process_files_sibling}
use filecache.Walk.Found.{process_files_unfinished}

-- The attributes of a file, by whether it is written.
abbrev pub attributes : ℕ → Attribute → Option ℕ
attributes written Attribute.filename = none
attributes written Attribute.size = some 4096
attributes written Attribute.cost = some 1
attributes written Attribute.lifetime = some 60
attributes written Attribute.written = some written
attributes written Attribute.dir_type = some 0

abbrev pub disk : ℕ → Disk
disk written = record {
  os = quiet_os;
  fstat = λ p. some (Mode.regular, 4096);
  getxattr = λ p a. attributes written a;
  get_name = λ p. some (codes "new.mp3");
  config = λ name. some (config_entries no_music);
  address = λ name. 1;
}

abbrev pub walking : Walk
walking = record { set = start.set; types = music_name ∷ []; dir_type_dir = [] }

abbrev after_draft : Bool × Walk
after_draft = get_or (false, walking) (process_files (disk 0) new_path walking)

process_files_unfinished_example : after_draft.1.set.id_map ≡ []
unfolding process_files get_object_id_from_path id_before end_position find_last
process_files_unfinished_example =
    process_files_unfinished (disk 0) new_path 4096 walking after_draft.1 after_draft.0 refl
      (inl refl) refl

abbrev fresh : FileCacheSet
fresh = make_set quiet_os (codes "/var/cache") none (some 1)

abbrev listing : Listing
listing = Listing.lists (codes "/var/cache/music/Type.defaults" ∷ []) Listings.empty

abbrev app : Service
app = record { set = record fresh { cache_set = (music_name, no_music) ∷ [] }; subscribers = [] }

app_made : make_app quiet_os (disk 1) listing fresh ≡ some app
unfolding make_app make_set read_config walk_dir_tree file_tree_walk process_all process_files
    get_object_id_from_path id_before end_position find_last scan_id get_value_for_char
    get_type_name_from_path find_first process_entry process_mode if_continue check_for_special_file
    occurs create_type_if_needed define_type configure Config.read_config Config.read_entries
    read_entry config_entries Map.find Map.insert Map.place cleanup_at_startup sum_of_cache_sizes
    sum_from is_top_level_directory Cache.make sum_of_lo_watermarks get_filesystem_file_size
    read_sequence_number
app_made = refl

make_app-IsBalanced_example : IsBalanced app
unfolding make_set AllDotless read_config get_type_name_from_path
make_app-IsBalanced_example =
    make_app-IsBalanced quiet_os (disk 1) listing fresh app refl refl ((refl, tt), tt) app_made

-- A framework without errors.
abbrev working : Framework
working = record {
  base_open = 0;
  service_open = 0;
  attach = 0;
  alloc = true;
  register_methods = 0;
  add_category = 0;
  set_description = true;
  service_close = 0;
  base_close = 7;
  no_mem = 12;
  internal = 1;
  accumulate = λ err next. if err == 0 then next else err;
}

opened : (open_app working ≡ 0) × (open_app (record working { set_description = false }) ≡ 1)
unfolding open_app
opened = (refl, refl)

closed : close_app working ≡ 7
unfolding close_app
closed = refl

no_app : handle_idle_timeout_cb none ≡ false
unfolding handle_idle_timeout_cb
no_app = refl

made_dir : create_default_cachedir (λ p. false) ≡ some (codes "/media/internal/downloads")
unfolding create_default_cachedir
made_dir = refl

-- A directory object with a file in it.
abbrev backup : Bytes
backup = codes "/var/cache/music/A/AAAAwAAI"

abbrev backup_disk : Disk
backup_disk = record (disk 1) {
  fstat = λ p. if bytes_eq p backup then some (Mode.directory, 4096) else some (Mode.regular, 10);
}

abbrev at_backup : Walk
at_backup = record {
  set = record start.set { cache_set = (music_name, record no_music { dir_type = true }) ∷ [] };
  types = music_name ∷ [];
  dir_type_dir = [];
}

abbrev after_backup : Bool × Walk
after_backup = get_or (false, at_backup) (process_files backup_disk backup at_backup)

abbrev song_path : Bytes
song_path = codes "/var/cache/music/A/AAAAwAAI/AAAAwAAM"

song_read : get_object_id_from_path song_path ≡ some 2251799826268172
unfolding get_object_id_from_path id_before end_position find_last scan_id get_value_for_char
song_read = refl

process_all_inside_example :
    process_all backup_disk (song_path ∷ []) after_backup.1 ≡ some (true, after_backup.1)
unfolding process_files get_object_id_from_path id_before end_position find_last scan_id
    get_value_for_char get_type_name_from_path find_first is_type_dir_type Map.find
    is_top_level_directory
process_all_inside_example =
    process_all_inside backup_disk backup (song_path ∷ []) at_backup after_backup.1 after_backup.0
      12582920 4096 refl refl refl refl refl refl refl refl refl
      (record { begins = refl; obj_id = 2251799826268172; read = song_read }, tt)

-- A second directory object beside it.
abbrev second : Bytes
second = codes "/var/cache/music/A/AAAAwAAM"

abbrev two_disk : Disk
two_disk = record (disk 1) {
  fstat = λ p.
      if bytes_eq p backup || bytes_eq p second
      then some (Mode.directory, 4096)
      else some (Mode.regular, 10);
}

abbrev in_backup : Walk
in_backup = record at_backup { dir_type_dir = backup }

abbrev after_second : Bool × Walk
after_second = get_or (false, in_backup) (process_files two_disk second in_backup)

abbrev lost_song : Bytes
lost_song = codes "/var/cache/music/A/AAAAwAAI/song.mp3"

process_files_sibling_example :
    process_files two_disk lost_song after_second.1 ≡ some (true, leave_dir after_second.1)
unfolding process_files process_entry process_mode insert_valid insert_found get_written get_size
    if_continue with_attribute insert_with_id Object.make Object.initialize get_object_id_from_path
    id_before end_position find_last scan_id get_value_for_char get_type_name_from_path find_first
    is_type_dir_type Map.find Map.put is_top_level_directory occurs
process_files_sibling_example =
    process_files_sibling two_disk second lost_song in_backup after_second.1 after_second.0 12582924
      4096 10 refl refl refl refl refl refl refl refl refl refl refl refl refl refl refl refl refl
