-- ===== src/Bus/Runs/Tests.antt =====
-- A run from a set with a type that has no object yet: an object is inserted with a subscription.
use filecache.Base.{
  Bool, Bool-cases, inl, inr, ℕ, ◌<◌, ◌≡◌, refl, true, false, some, none, [], ◌∷◌, List, arith,
  codes, Bytes,
}
use filecache.Base.Map
use filecache.Base.Map.{ℕ_key, bytes_key}
use filecache.Os.Tests.{quiet_os}
use filecache.CacheSet.State
use filecache.CacheSet.Counts.{DistinctAt, count_in}
use filecache.CacheSet.State.{
  get_file_cache_for_type, FileCacheSet, type_exists, is_type_dir_type, sum_of_lo_watermarks,
  sum_from, check_for_size, avail_space, sum_of_cache_sizes,
}
use filecache.CacheSet.Types as SetTypes
use filecache.CacheSet.Types.{describe_type}
use filecache.CacheSet.Objects as SetObjects
use filecache.CacheSet.Objects.{make_room, has_room, insert_new, insert_with_id}
use filecache.Sequence.{get_next_cached_object_id, advance}
use filecache.Config.{configure, write_config, config_entries, make_params, describe}
use filecache.BlockSize.{get_filesystem_file_size}
use filecache.Object
use filecache.Object.{
  CacheObject, sync_file, create_object, set_size_attribute, set_written_attribute, get_pathname,
  subscribe_open,
}
use filecache.Cache
use filecache.Cache.{FileCache}
use filecache.ObjectId.{
  build_pathname, append_file, append_chars, get_char_n_from_object_id, get_file_extension,
  find_last, find_first, get_object_id_from_path, get_value_for_char, get_type_name_from_path,
  id_before, end_position, scan_id,
}
use filecache.Bus.Types
use filecache.Bus.Objects
use filecache.Bus.Objects.{remove_at, insert_invalid, insert_answer, insert_reply}
use filecache.Bus.{Payload, Service}
use filecache.Bus.Expires.{run-expire_cache_object, expired_reply, expired_object}
use filecache.Bus.Balance.{Label, IsBalanced, held}
use filecache.Bus.Refines.{SpecRun, run-SpecRun}
use filecache.Bus.Runs.{Event, run, handle, run-IsBalanced, run-subscribed, run-goes_on}

abbrev pub music_name : Bytes
music_name = codes "music"

abbrev pub no_music : FileCache
no_music = record {
  address = 1;
  cache_type = music_name;
  num_objects = 0;
  cache_size = 0;
  lo_watermark = 8192;
  hi_watermark = 24576;
  default_size = 4096;
  default_lifetime = 60;
  default_cost = 1;
  dir_type = false;
  cached_objects = [];
  cache_list = [];
}

abbrev pub start : Service
start = record {
  set = record {
    total_cache_space = 65536;
    base_dir_name = codes "/var/cache";
    sequence = record { number = 8; saved = some 1 };
    cache_set = (music_name, no_music) ∷ [];
    id_map = [];
  };
  subscribers = [];
}

pub start-IsBalanced : IsBalanced start
unfolding held Map.find
start-IsBalanced = record {
  plain = refl;
  distinct = record { keys = (refl, tt); objects = objects };
  named = tt;
  counts = counts;
}
  where
    objects : (name : Bytes) → DistinctAt name (get_file_cache_for_type start.set name)
    objects name = elim (Bool-cases (bytes_key.beq music_name name)) [
      | inl b ↦
          let same = (bytes_key.beq_iff music_name name).0 b in
          rw (b) (
            record { distinct = tt; keyed = λ i o e. ground arith },
            same,
            rw (← same) (record { no_dot = refl; no_slash = refl }),
          )
      | inr b ↦ rw (b) tt
    ]

    counts : (name : Bytes) (i : ℕ) → count_in start.set name i ≡ 0
    counts name i = elim (Bool-cases (bytes_key.beq music_name name)) [
      | inl b ↦ rw (b) refl
      | inr b ↦ rw (b) refl
    ]

abbrev pub no_fields : Payload
no_fields = record {
  type_name = none;
  file_name = none;
  path_name = none;
  destination = none;
  lo_watermark = none;
  hi_watermark = none;
  size = none;
  cost = none;
  lifetime = none;
  new_size = none;
  dir_type = none;
  subscribe = none;
}

-- The insertion, with a subscription or without.
abbrev inserting : Bool → List Event
inserting subscribe =
    Event.insert_cache_object quiet_os (3 ∷ []) (record no_fields {
      type_name = some music_name;
      file_name = some (codes "new.mp3");
      subscribe = some subscribe;
    })
    ∷ []

abbrev new_song : ℕ → CacheObject
new_song count = record {
  id = 12582920;
  size = 4096;
  cost = 1;
  lifetime = 60;
  subscription_count = count;
  filename = codes "new.mp3";
  written = false;
  expired = false;
  dir_type = false;
  creation_time = 1000;
  last_access_time = 1000;
}

abbrev one_song : ℕ → FileCache
one_song count = record no_music {
  num_objects = 1;
  cache_size = 8192;
  cached_objects = (12582920, new_song count) ∷ [];
  cache_list = 12582920 ∷ [];
}

abbrev pub new_path : Bytes
new_path = codes "/var/cache/music/A/AAAAwAAI.mp3"

abbrev pub stocked : ℕ → List Bytes → Service
stocked count subscribers = record {
  set = record {
    total_cache_space = 65536;
    base_dir_name = codes "/var/cache";
    sequence = record { number = 9; saved = some 1 };
    cache_set = (music_name, one_song count) ∷ [];
    id_map = (12582920, music_name) ∷ [];
  };
  subscribers = subscribers;
}

subscribed_run : run (inserting true) start ≡ some (stocked 1 (new_path ∷ []))
unfolding run handle Objects.insert_cache_object insert_invalid insert_answer insert_reply
    type_exists is_type_dir_type Map.find Map.insert Map.place Map.put Types.define_type
    SetTypes.define_type configure get_filesystem_file_size make_params sum_of_lo_watermarks
    sum_from write_config config_entries sync_file describe_type describe
    SetObjects.insert_cache_object make_room has_room insert_new get_next_cached_object_id advance
    insert_with_id Cache.insert check_for_size avail_space sum_of_cache_sizes Object.initialize
    create_object set_size_attribute set_written_attribute Object.make get_pathname build_pathname
    append_file append_chars get_char_n_from_object_id get_file_extension find_last
    State.subscribe_cache_object Cache.subscribe Object.subscribe subscribe_open Cache.update_object
    Cache.contains Cache.remove_first get_object_id_from_path get_value_for_char
    get_type_name_from_path find_first Cache.make
subscribed_run = refl

unsubscribed_run : run (inserting false) start ≡ some (stocked 0 [])
unfolding run handle Objects.insert_cache_object insert_invalid insert_answer insert_reply
    type_exists is_type_dir_type Map.find Map.insert Map.place Map.put Types.define_type
    SetTypes.define_type configure get_filesystem_file_size make_params sum_of_lo_watermarks
    sum_from write_config config_entries sync_file describe_type describe
    SetObjects.insert_cache_object make_room has_room insert_new get_next_cached_object_id advance
    insert_with_id Cache.insert check_for_size avail_space sum_of_cache_sizes Object.initialize
    create_object set_size_attribute set_written_attribute Object.make get_pathname build_pathname
    append_file append_chars get_char_n_from_object_id get_file_extension find_last
    State.subscribe_cache_object Cache.subscribe Object.subscribe subscribe_open Cache.update_object
    Cache.contains Cache.remove_first get_object_id_from_path get_value_for_char
    get_type_name_from_path find_first Cache.make
unsubscribed_run = refl

pub stocked-IsBalanced : IsBalanced (stocked 1 (new_path ∷ []))
stocked-IsBalanced =
    run-IsBalanced (inserting true) start (stocked 1 (new_path ∷ [])) start-IsBalanced (omega arith)
      (tt, tt) subscribed_run

run-IsBalanced_example : IsBalanced (stocked 1 (new_path ∷ []))
run-IsBalanced_example =
    run-IsBalanced (inserting true) start (stocked 1 (new_path ∷ [])) start-IsBalanced (omega arith)
      (tt, tt) subscribed_run

run-SpecRun_example :
    SpecRun (Label.opening ∷ []) (count_in start.set) (count_in (stocked 1 (new_path ∷ [])).set)
run-SpecRun_example =
    run-SpecRun (inserting true) start (stocked 1 (new_path ∷ [])) start-IsBalanced (omega arith)
      (tt, tt) subscribed_run

run-subscribed_example :
    (i : ℕ) × (c : FileCache) × (o : CacheObject) × (get_object_id_from_path new_path ≡ some i)
    × (get_file_cache_for_type
          (stocked 1 (new_path ∷ [])).set
          (get_type_name_from_path (codes "/var/cache") new_path)
        ≡ some c)
    × (Map.find i c.cached_objects ≡ some o)
    × (0 < o.subscription_count)
unfolding remove_at
run-subscribed_example =
    run-subscribed (inserting true) start (stocked 1 (new_path ∷ [])) 0 new_path [] start-IsBalanced
      (omega arith) (tt, tt) subscribed_run refl

run-goes_on_example :
    ((next : Service) × (handle (Event.cancel_subscription quiet_os 0) (stocked 1 (new_path ∷ []))
        ≡ some next))
    × ((next : Service) × (handle (Event.worker quiet_os (λ p. none)) (stocked 1 (new_path ∷ []))
          ≡ some next))
run-goes_on_example =
    run-goes_on (inserting true) start (stocked 1 (new_path ∷ [])) quiet_os (λ p. none) 0
      start-IsBalanced (omega arith) (tt, tt) subscribed_run

abbrev expiring : Payload
expiring = record no_fields { path_name = some new_path }

run-expire_cache_object_example :
    (svc'' : Service) × (c'' : FileCache) × (Objects.expire_cache_object quiet_os
        (stocked 0 [])
        expiring
      ≡ some (expired_reply (held (codes "/var/cache") music_name 12582920 []), svc''))
    × (get_file_cache_for_type svc''.set music_name ≡ some c'')
    × (Map.find 12582920 c''.cached_objects
        ≡ expired_object (held (codes "/var/cache") music_name 12582920 []) (new_song 0))
unfolding held Map.find get_object_id_from_path id_before end_position find_last scan_id
    get_value_for_char get_type_name_from_path find_first
run-expire_cache_object_example =
    run-expire_cache_object (inserting false) start (stocked 0 []) quiet_os expiring music_name
      (one_song 0) 12582920 (new_song 0) start-IsBalanced (omega arith) (tt, tt) unsubscribed_run
      refl refl refl refl refl refl refl refl refl
