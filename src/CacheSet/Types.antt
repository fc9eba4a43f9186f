-- ===== src/CacheSet/Types.antt =====
-- The types of the set: `DefineType`, `ChangeType`, `DeleteType` and `DescribeType` of
-- src/FileCacheSet.cpp. The file of a type's configuration is passed in and returned.
use filecache.Base.{
  ℕ, Bool, true, false, Option, none, some, List, [], ◌∷◌, map, reverse, if◌then◌else◌, Bytes,
}
use filecache.Base.Word.{minus_one, sub32}
use filecache.Base.Map
use filecache.Base.Map.{bytes_key}
use filecache.Os.{Os}
use filecache.Object.{Message}
use filecache.Cache
use filecache.Cache.{FileCache}
use filecache.Config.{CacheParamValues, Entries, configure, describe, make_params}
use filecache.CacheSet.State.{
  FileCacheSet, get_file_cache_for_type, with_cache, sum_of_lo_watermarks, expire_cache_object,
}

-- The space that the low watermarks leave.
abbrev pub avail_for_type : FileCacheSet → ℕ
avail_for_type s = sub32 s.total_cache_space (sum_of_lo_watermarks s)

pub record Defined : Type 0 where
  pub done : Bool
  pub msg : Message
  pub set : FileCacheSet
  pub file : Option Entries

-- `address` is the pointer that `new` returns.
unfoldable pub define_type :
    Os → ℕ → FileCacheSet → Bytes → Option Entries → Option CacheParamValues → Bool → Defined
define_type os address s type_name file params dir_type =
    let new_type = Cache.make address type_name in
    let (done, c, file') =
      configure os s.base_dir_name (avail_for_type s) file new_type params dir_type in
    let defined = record s { cache_set = Map.insert type_name c s.cache_set } in
    elim (get_file_cache_for_type s type_name) [
      | some _ ↦ record { done = false; msg = Message.type_exists; set = s; file = file }
      | none ↦
          if done
          then record { done = true; msg = Message.type_created; set = defined; file = file' }
          else record { done = false; msg = Message.failed_to_configure; set = s; file = none }
    ]

-- The call of `Configure` leaves `dirType` to its default, false.
unfoldable pub change_type : Os → FileCacheSet → Bytes → Option Entries → CacheParamValues → Defined
change_type os s type_name file params = elim (get_file_cache_for_type s type_name) [
  | none ↦ record { done = false; msg = Message.no_type; set = s; file = file }
  | some c ↦
      let (done, c', file') =
        configure os s.base_dir_name (avail_for_type s) file c (some params) false in
      record {
        done = done;
        msg = Message.type_configured;
        set = with_cache s type_name c';
        file = file';
      }
]

unfoldable pub expire_each : Os → List ℕ → FileCacheSet → FileCacheSet
expire_each os [] s = s
expire_each os (i ∷ is) s = expire_each os is (expire_cache_object os s i).1

-- The size that the type had, -1 if it is not deleted.
unfoldable pub delete_type : Os → FileCacheSet → Bytes → ℕ × Message × FileCacheSet
delete_type os s type_name = elim (get_file_cache_for_type s type_name) [
  | none ↦ (minus_one, Message.no_type, s)
  | some c ↦
      let ids = reverse (map (λ e. e.0) c.cached_objects) in
      let s' = expire_each os ids s in
      let erased = record s' { cache_set = Map.erase type_name s'.cache_set } in
      if Cache.is_cleanable c
      then (c.cache_size, Message.type_deleted, erased)
      else (minus_one, Message.has_subscribed_objects, s)
]

-- The default parameters for a type that does not exist.
unfoldable pub describe_type : FileCacheSet → Bytes → CacheParamValues
describe_type s type_name = elim (get_file_cache_for_type s type_name) [
  | none ↦ make_params 0 0 0 0 1
  | some c ↦ describe c
]
