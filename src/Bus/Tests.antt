-- ===== src/Bus/Tests.antt =====
-- Calls of the service: copies, a resize, a deletion.
use filecache.Base.{
  ℕ, ◌∷◌, ◌++◌, inr, arith, ◌+◌, ◌*◌, ◌≡◌, refl, true, false, none, some, Bool, [], codes, Bytes,
  if◌then◌else◌, ◌==◌,
}
use filecache.Base.Word.{word_mod, widen}
use filecache.Base.Map.{ℕ_key, bytes_key, bytes_eq}
use filecache.ObjectId.{
  get_object_id_from_path, get_type_name_from_path, id_before, end_position, scan_id,
  get_value_for_char, get_file_extension, get_file_basename, find_last, find_first,
}
use filecache.Os.Tests.{quiet_os}
use filecache.Base.Map
use filecache.Bus.{FcErr, Reply, Payload, Service, get_or, with_set}
use filecache.Bus.Copy.{
  CopyOs, Result, copy_destination, name_at, name_checked, name_in, unique_name, new_file_name,
}
use filecache.Bus.Copier.{ready, caller_id}
use filecache.Bus.Copied.{Placed, copy_destination_free, copy_destination_last}
use filecache.ObjectId.{slash, build_pathname, append_file, append_chars, get_char_n_from_object_id}
use filecache.BlockSize.{get_filesystem_file_size}
use filecache.Object
use filecache.Object.{is_there, set_size_attribute, get_pathname}
use filecache.Cache
use filecache.CacheSet.State
use filecache.CacheSet.State.{
  FileCacheSet, cached_object_size, type_exists, sum_from, check_for_size, avail_space,
  sum_of_cache_sizes,
}
use filecache.CacheSet.Types as SetTypes
use filecache.CacheSet.Objects as SetObjects
use filecache.CacheSet.Objects.{resize_in, resize_in_room, make_room, has_room}
use filecache.Bus.Types
use filecache.Bus.Balance.{held}
use filecache.Bus.Slashed.{slashed_type_unreachable}
use filecache.Bus.Deleted.{delete_type-held}
use filecache.Bus.Objects.{
  cleaner_callback, timer_callback, resize_cache_object, subscribe_cache_object, touch_cache_object,
  expire_cache_object,
}
use filecache.Bus.Answers.{resize_cache_object_wraps}
use filecache.Bus.Runs.Tests.{no_fields, stocked, start, start-IsBalanced, music_name, new_path}

-- A directory in which the names given are taken.
abbrev folder : (Bytes → Bool) → CopyOs
folder taken = record {
  default_download_dir = codes "/downloads";
  is_path_allowed = λ p. true;
  exists = λ p. some (taken p);
  create_directories = λ p. true;
  is_directory = λ p. some true;
  join = λ dir name. name;
}

-- One name is taken, and the directory is there.
abbrev one_taken : CopyOs
one_taken =
    folder (λ p. if bytes_eq p (codes "a.mp3") then true else bytes_eq p (codes "/downloads"))

copied :
    copy_destination one_taken (codes "/downloads") (codes "a.mp3")
    ≡ Result.done (codes "/downloads/a-(1).mp3")
unfolding copy_destination name_at name_checked name_in unique_name new_file_name get_file_extension
    get_file_basename find_last
copied = refl

copy_destination_free_example :
    (one_taken.is_path_allowed (codes "/downloads") ≡ true)
    × (one_taken.is_directory (codes "/downloads") ≡ some true)
    × Placed one_taken (codes "/downloads") (codes "a.mp3") (codes "/downloads/a-(1).mp3")
copy_destination_free_example =
    copy_destination_free one_taken (codes "/downloads") (codes "a.mp3")
      (codes "/downloads/a-(1).mp3") copied

-- Every name is taken.
abbrev full : CopyOs
full = folder (λ p. true)

copy_destination_last_example :
    copy_destination full (codes "/downloads") (codes "a.mp3") ≡ Result.fail FcErr.argument_error
copy_destination_last_example =
    copy_destination_last full (codes "/downloads") (codes "a.mp3") true refl refl refl
      (λ j b. refl) refl

abbrev song_call : Payload
song_call = record no_fields { path_name = some (codes "/var/cache/music/A/AAAAwAAI.mp3") }

abbrev larger : ℕ × FileCacheSet
larger =
    get_or (0, (stocked 1 (new_path ∷ [])).set)
      (SetObjects.resize quiet_os (stocked 1 (new_path ∷ [])).set 12582920 8192)

larger_song : (larger.0 ≡ 8192) × (cached_object_size larger.1 12582920 ≡ 8192)
unfolding SetObjects.resize resize_in resize_in_room make_room has_room check_for_size avail_space
    sum_of_cache_sizes sum_from get_filesystem_file_size Map.find Map.put Cache.resize_found
    Cache.store_resized Object.resize set_size_attribute get_pathname build_pathname append_file
    append_chars get_char_n_from_object_id get_file_extension find_last cached_object_size
    Cache.get_object_size
larger_song = (refl, refl)

resize_cache_object_wraps_example :
    resize_cache_object quiet_os
      (stocked 1 (new_path ∷ []))
      (record song_call { new_size = some (8192 + 3 * word_mod) })
    ≡ some (
      if larger.0 == 8192 then Reply.new_size (widen 8192) else Reply.failure FcErr.resize_error,
      with_set (stocked 1 (new_path ∷ [])) larger.1,
    )
unfolding SetObjects.resize resize_in resize_in_room make_room has_room check_for_size avail_space
    sum_of_cache_sizes sum_from get_filesystem_file_size Map.find Map.put Cache.resize_found
    Cache.store_resized Object.resize set_size_attribute get_pathname build_pathname append_file
    append_chars get_char_n_from_object_id get_file_extension find_last get_object_id_from_path
    id_before end_position scan_id get_value_for_char get_type_name_from_path find_first
resize_cache_object_wraps_example =
    resize_cache_object_wraps quiet_os (stocked 1 (new_path ∷ [])) song_call 8192 3 12582920
      larger.0 larger.1 (omega arith) refl refl refl refl

copy_failed : ready (codes "/downloads/a.mp3") false ≡ Reply.failure FcErr.copy_object_error
unfolding ready
copy_failed = refl

-- The id of an application ends at its blank.
app_caller : caller_id (some (codes "com.app 1001")) none ≡ codes "com.app"
unfolding caller_id find_first
app_caller = refl

-- An object of a type with a slash in its name.
abbrev slashed_service : Service
slashed_service = record start { set = record start.set { id_map = (5, codes "music/live") ∷ [] } }

abbrev slashed_path : Bytes
slashed_path =
    build_pathname (λ d. is_there (quiet_os.mkdir d)) 5 (codes "/var/cache")
      (codes "music" ++ slash ∷ codes "live") (codes "a.mp3") false

abbrev slashed_call : Payload
slashed_call = record no_fields { path_name = some slashed_path; new_size = some 8192 }

slashed_type_unreachable_example :
    (subscribe_cache_object quiet_os slashed_service slashed_call
      ≡ some (Reply.failure FcErr.exists_error, slashed_service))
    × (touch_cache_object quiet_os slashed_service slashed_call
        ≡ some (Reply.failure FcErr.exists_error, slashed_service))
    × (resize_cache_object quiet_os slashed_service slashed_call
        ≡ some (Reply.failure FcErr.exists_error, slashed_service))
    × (expire_cache_object quiet_os slashed_service slashed_call
        ≡ some (Reply.success, slashed_service))
unfolding Map.find
slashed_type_unreachable_example =
    slashed_type_unreachable (λ d. is_there (quiet_os.mkdir d)) quiet_os slashed_service
      slashed_call 5 8192 (codes "music") (codes "live") (codes "a.mp3") (λ e. ground (arith, e))
      (omega arith) (inr (refl, refl)) refl refl refl refl

-- An insertion without a subscription.
abbrev new_song_call : Payload
new_song_call = record no_fields { type_name = some music_name; file_name = some (codes "new.mp3") }

abbrev new_path_call : Payload
new_path_call = record no_fields { path_name = some new_path }

abbrev deletion : Payload
deletion = record no_fields { type_name = some music_name }

deleted_call : (Types.delete_type quiet_os start deletion).0 ≡ Reply.freed_space 0
unfolding Types.delete_type SetTypes.delete_type Cache.is_cleanable Cache.has_subscribed Map.find
deleted_call = refl

delete_type-held_example :
    (type_exists (Types.delete_type quiet_os start deletion).1.set music_name ≡ false)
    × ((i : ℕ) → held (codes "/var/cache") music_name i [] ≡ 0)
delete_type-held_example =
    delete_type-held quiet_os start deletion 0 start-IsBalanced (omega arith) deleted_call

-- The cleaner runs once, the worker again and again.
one_shot :
    ((cleaner_callback quiet_os start).0 ≡ false)
    × ((timer_callback quiet_os (λ p. none) start).0 ≡ true)
unfolding cleaner_callback timer_callback
one_shot = (refl, refl)
