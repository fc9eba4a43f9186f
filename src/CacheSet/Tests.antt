-- ===== src/CacheSet/Tests.antt =====
-- A set with one type of two songs, one of which is being written.
use filecache.Base.{
  if◌then◌else◌, ℕ, ◌+◌, ◌≤◌, ◌≡◌, refl, true, false, some, none, [], ◌∷◌, arith, codes, Bytes,
}
use filecache.Base.Word.{minus_one}
use filecache.Base.Map
use filecache.Base.Map.{ℕ_key, bytes_key}
use filecache.Os.{Os}
use filecache.ObjectId.{
  build_pathname, append_file, append_chars, get_char_n_from_object_id, get_file_extension,
}
use filecache.Sequence.{get_next_cached_object_id, advance}
use filecache.Os.Tests.{quiet_os}
use filecache.BlockSize.{get_filesystem_file_size}
use filecache.Object
use filecache.Object.{
  CacheObject, Message, get_pathname, subscribe_open, create_object, set_size_attribute,
  set_written_attribute, close_writer, stat_size, sync_file,
}
use filecache.Cache
use filecache.Cache.{FileCache, remove_first, contains}
use filecache.Cache.Tests.{music, draft, song}
use filecache.Config.{CacheParamValues, describe}
use filecache.CacheSet.State.{
  FileCacheSet, get_file_cache_for_type, get_type_for_object_id, cached_object_size,
  cached_object_filename, check_for_size, avail_space, sum_of_cache_sizes, sum_from,
  expire_cache_object, remove_object_from_id_map, unsubscribe_cache_object, subscribe_cache_object,
}
use filecache.CacheSet.Cleanup.{
  select_from, candidates, add_candidate, candidate_cost, clean_candidate, cleanup, cleanup_loop,
  cleanup_all_types, cleaning_fuel, clean_loop, cleaning_start,
}
use filecache.CacheSet.Objects.{
  Request, insert_new, insert_with_id, insert_cache_object, make_room, has_room, resize_in,
}
use filecache.CacheSet.Types.{define_type}
use filecache.CacheSet.Cleans.{CleansSet, cleanup-CleansSet}
use filecache.CacheSet.Ends.{cleanup_loop_fuel}
use filecache.CacheSet.Rounds.{Done, cleanup_all_types-Done}
use filecache.CacheSet.Space.{
  total_size, total_lo, insert_with_id_space, define_type-total_lo, check_for_size_huge,
}
use filecache.CacheSet.Filed.{insert_with_id-found, unsubscribe_cache_object-stale}
use filecache.CacheSet.Subscribed.{subscribe_cache_object-cleanup}
use filecache.CacheSet.Room.{resize_in-defined, insert_cache_object_inserted}

abbrev music_name : Bytes
music_name = codes "music"

abbrev library : FileCacheSet
library = record {
  total_cache_space = 65536;
  base_dir_name = codes "/var/cache";
  sequence = record { number = 8; saved = some 1 };
  cache_set = (music_name, music) ∷ [];
  id_map = (5, music_name) ∷ (6, music_name) ∷ [];
}

abbrev request : Request
request = record { filename = codes "new.mp3"; size = 4096; cost = 1; lifetime = 60 }

-- A system that cannot read the size of a file.
abbrev blind_os : Os
blind_os = record quiet_os { stat = λ p. none }

abbrev values : CacheParamValues
values = record { lo_watermark = 4096; hi_watermark = 20000; size = 4096; cost = 1; lifetime = 60 }

abbrev added : CacheObject
added = record {
  id = 12582920;
  size = 4096;
  cost = 1;
  lifetime = 60;
  subscription_count = 0;
  filename = codes "new.mp3";
  written = false;
  expired = false;
  dir_type = false;
  creation_time = 1000;
  last_access_time = 1000;
}

abbrev library_with_added : FileCacheSet
library_with_added = record {
  total_cache_space = 65536;
  base_dir_name = codes "/var/cache";
  sequence = record { number = 9; saved = some 1 };
  cache_set =
      (
        music_name,
        record music {
          num_objects = 3;
          cache_size = 24576;
          cached_objects = (5, draft) ∷ (6, song) ∷ (12582920, added) ∷ [];
          cache_list = 12582920 ∷ 5 ∷ 6 ∷ [];
        },
      )
      ∷ [];
  id_map = (5, music_name) ∷ (6, music_name) ∷ (12582920, music_name) ∷ [];
}

size_cleaned : (cleanup_all_types quiet_os library 4096).0 ≡ 8192
unfolding Map.erase Map.put remove_object_from_id_map remove_first Cache.expire_found
    cleanup_all_types clean_loop select_from cleaning_start candidates add_candidate candidate_cost
    clean_candidate expire_cache_object cached_object_size Map.find Map.insert Map.place
    Cache.get_cleanup_candidate Cache.back Cache.get_cache_cost Object.get_cache_cost
    get_filesystem_file_size Cache.expire Object.expire Cache.get_object_size get_pathname
    build_pathname append_file append_chars get_char_n_from_object_id get_file_extension
size_cleaned = refl

inserted :
    insert_cache_object quiet_os (3 ∷ []) library music_name request
    ≡ some (12582920, Message.inserted, library_with_added)
unfolding insert_cache_object make_room has_room insert_new get_next_cached_object_id advance
    insert_with_id Cache.insert Map.find Map.insert Map.place Map.put get_filesystem_file_size
    describe check_for_size avail_space sum_of_cache_sizes sum_from Object.initialize create_object
    set_size_attribute set_written_attribute Object.make get_pathname build_pathname append_file
    append_chars get_char_n_from_object_id get_file_extension
inserted = refl

cleanup-CleansSet_example : CleansSet library (cleanup quiet_os library music_name 30000)
cleanup-CleansSet_example = cleanup-CleansSet quiet_os library music_name 30000

resize_in-defined_example :
    (size : ℕ) × (s' : FileCacheSet) × (resize_in quiet_os library music_name music 5 30000
      ≡ some (size, s'))
unfolding Map.find
resize_in-defined_example =
    resize_in-defined quiet_os library music_name music 5 draft 30000 refl refl refl

insert_cache_object_inserted_example :
    (s' : FileCacheSet) × (c' : FileCache) × (s' ≡ (
      if check_for_size library music (get_filesystem_file_size 4096)
      then library
      else cleanup quiet_os library music_name (get_filesystem_file_size 4096)))
    × CleansSet library s'
    × (get_file_cache_for_type s' music_name ≡ some c')
    × (check_for_size s' c' (get_filesystem_file_size 4096) ≡ true)
    × (insert_new quiet_os (3 ∷ []) s' music_name request
        ≡ some (12582920, Message.inserted, library_with_added))
unfolding Map.find
insert_cache_object_inserted_example =
    insert_cache_object_inserted quiet_os (3 ∷ []) library music_name music request 12582920
      Message.inserted library_with_added refl inserted (omega arith)

insert_with_id-found_example :
    let s' = (insert_with_id quiet_os library music_name 7 request false true).2 in
    (get_type_for_object_id s' 7 ≡ music_name)
    × (cached_object_size s' 7 ≡ 4096)
    × (cached_object_filename s' 7 ≡ codes "new.mp3")
unfolding Map.find insert_with_id Object.initialize create_object set_size_attribute
    set_written_attribute Object.make get_pathname build_pathname append_file append_chars
    get_char_n_from_object_id get_file_extension
insert_with_id-found_example =
    insert_with_id-found quiet_os library music_name music 7 request false true refl refl refl refl
      (omega arith) refl

cleanup_loop_fuel_example :
    cleanup_loop quiet_os 4 library music_name 30000
    ≡ cleanup_loop quiet_os 3 library music_name 30000
unfolding Map.find
cleanup_loop_fuel_example = cleanup_loop_fuel quiet_os 3 library music_name 30000 (omega arith)

cleanup_all_types-Done_example :
    let needed_size = get_filesystem_file_size 4096 in
    let l = clean_loop quiet_os (1 + cleaning_fuel library) needed_size (cleaning_start library) in
    (cleanup_all_types quiet_os library 4096 ≡ (l.cleaned_size, l.set))
    × Done quiet_os needed_size l
unfolding get_filesystem_file_size
cleanup_all_types-Done_example = cleanup_all_types-Done quiet_os library 4096 1 (omega arith)

insert_with_id_space_example :
    let s' = (insert_with_id quiet_os library music_name 7 request false true).2 in
    total_size s' ≤ s'.total_cache_space
unfolding Map.find check_for_size get_filesystem_file_size avail_space sum_of_cache_sizes
insert_with_id_space_example =
    insert_with_id_space quiet_os library music_name music 7 request false true refl (omega arith)
      (omega arith) (omega arith) (omega arith) refl

define_type-total_lo_example :
    total_lo (define_type quiet_os 2 library (codes "books") none (some values) false).set ≤ 65536
unfolding get_filesystem_file_size
define_type-total_lo_example =
    define_type-total_lo quiet_os 2 library (codes "books") none values false (omega arith)
      (omega arith) (omega arith)

check_for_size_huge_example :
    check_for_size library music (get_filesystem_file_size 2147483000) ≡ true
check_for_size_huge_example =
    check_for_size_huge library music 2147483000 (omega arith) (omega arith) (omega arith)
      (omega arith)

unsubscribe_cache_object-stale_example :
    let s' = unsubscribe_cache_object blind_os library music_name 5 in
    (expire_cache_object blind_os s' 5 ≡ (true, s'))
    × (cached_object_size s' 5 ≡ minus_one)
    × (c' : FileCache) × (get_file_cache_for_type s' music_name ≡ some c')
    × (c'.cache_list ≡ 5 ∷ remove_first 5 music.cache_list)
unfolding Map.find contains Object.unsubscribe close_writer stat_size get_pathname build_pathname
    append_file append_chars get_char_n_from_object_id get_file_extension
unsubscribe_cache_object-stale_example =
    unsubscribe_cache_object-stale blind_os library music_name music 5 draft refl refl refl refl
      refl (refl, (refl, tt))

subscribe_cache_object-cleanup_example :
    (c' : FileCache) × (o' : CacheObject) × (get_file_cache_for_type
        (cleanup quiet_os (subscribe_cache_object quiet_os library none 6).2 music_name 30000)
        music_name
      ≡ some c')
    × (Map.find 6 c'.cached_objects ≡ some o')
    × (o'.subscription_count ≡ 1)
unfolding Map.find subscribe_cache_object Cache.subscribe Object.subscribe subscribe_open
    get_pathname build_pathname append_file append_chars get_char_n_from_object_id
    get_file_extension
subscribe_cache_object-cleanup_example =
    subscribe_cache_object-cleanup quiet_os quiet_os library none music_name music 6 song music_name
      30000 refl refl refl refl (omega arith) refl
