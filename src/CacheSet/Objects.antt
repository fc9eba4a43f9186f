-- ===== src/CacheSet/Objects.antt =====
-- `InsertCacheObject`, `Resize` and `CleanupDirTypes` of src/FileCacheSet.cpp, with `Resize` and
-- `CleanupDirType` of src/FileCache.cpp.
use filecache.Base.{
  ℕ, Bool, true, false, Option, none, some, List, [], ◌∷◌, map, reverse, ◌==◌, if◌then◌else◌, Bytes,
}
use filecache.Base.Word.{sub32}
use filecache.Base.Map
use filecache.Base.Map.{Map, ℕ_key, bytes_key}
use filecache.BlockSize.{get_filesystem_file_size}
use filecache.ObjectId.{is_empty}
use filecache.Os.{Os}
use filecache.Object
use filecache.Object.{CacheObject, Message}
use filecache.Cache
use filecache.Cache.{FileCache}
use filecache.Config.{CacheParamValues, describe}
use filecache.Sequence.{get_next_cached_object_id}
use filecache.CacheSet.State.{
  FileCacheSet, get_file_cache_for_type, get_type_for_object_id, with_cache, check_for_size,
  cached_object_size, expire_cache_object,
}
use filecache.CacheSet.Cleanup.{cleanup}

-- What a caller says of a new object.
pub record Request : Type 0 where
  pub filename : Bytes
  pub size : ℕ
  pub cost : ℕ
  pub lifetime : ℕ

-- The insertion of an object under a known id: the id, or 0; the message; the set.
unfoldable pub insert_with_id :
    Os → FileCacheSet → Bytes → ℕ → Request → Bool → Bool → ℕ × Message × FileCacheSet
insert_with_id os s type_name obj_id r written is_new = elim (get_file_cache_for_type s type_name) [
  | none ↦ (0, Message.no_type, s)
  | some c ↦
      let o = Object.make os obj_id r.filename r.size r.cost r.lifetime written c.dir_type in
      let s' = record s {
        cache_set = Map.put type_name (Cache.insert c o).1 s.cache_set;
        id_map = Map.insert obj_id type_name s.id_map;
      } in
      if Object.initialize os (Cache.place_of s.base_dir_name c) o is_new
      then (obj_id, Message.inserted, s')
      else (0, Message.failed_to_initialize, s)
]

-- Zeros give way to the defaults of the type.
abbrev pub with_defaults : CacheParamValues → Request → Request
with_defaults p r = record r {
  size = if r.size == 0 then p.size else r.size;
  cost = if r.cost == 0 then p.cost else r.cost;
  lifetime = if r.lifetime == 0 then p.lifetime else r.lifetime;
}

-- `none`: the random numbers given have run out.
unfoldable pub insert_new :
    Os → List ℕ → FileCacheSet → Bytes → Request → Option (ℕ × Message × FileCacheSet)
insert_new os rand_vals s type_name r =
    elim (get_next_cached_object_id os s.base_dir_name rand_vals s.sequence) [
      | none ↦ none
      | some (obj_id, rest, q) ↦
          some (insert_with_id os (record s { sequence = q }) type_name obj_id r false true)
    ]

-- The set after `Cleanup` has been asked for space that is not there.
unfoldable pub make_room : Os → FileCacheSet → Bytes → FileCache → ℕ → FileCacheSet
make_room os s type_name c size =
    let cleaned = cleanup os s type_name size in if check_for_size s c size then s else cleaned

-- Whether there is space in the cache of a type.
unfoldable pub has_room : FileCacheSet → Bytes → ℕ → Bool
has_room s type_name size = elim (get_file_cache_for_type s type_name) [
  | none ↦ false
  | some c ↦ check_for_size s c size
]

unfoldable pub insert_cache_object :
    Os → List ℕ → FileCacheSet → Bytes → Request → Option (ℕ × Message × FileCacheSet)
insert_cache_object os rand_vals s type_name r = elim (get_file_cache_for_type s type_name) [
  | none ↦ some (0, Message.no_type, s)
  | some c ↦
      let r' = with_defaults (describe c) r in
      let fs_size = get_filesystem_file_size r'.size in
      let s' = make_room os s type_name c fs_size in
      let inserted = insert_new os rand_vals s' type_name r' in
      if has_room s' type_name fs_size then inserted else some (0, Message.no_space, s')
]

-- The end of `CFileCache::Resize`. `none`: the object was deleted to make room, and the source
-- calls a method of the deleted object.
unfoldable pub resize_in_room : Os → FileCacheSet → Bytes → ℕ → ℕ → Option (ℕ × FileCacheSet)
resize_in_room os s type_name obj_id new_size = elim (get_file_cache_for_type s type_name) [
  | none ↦ none
  | some c ↦ elim (Map.find obj_id c.cached_objects) [
    | none ↦ none
    | some o ↦
        let (size, c') = Cache.resize_found os s.base_dir_name c obj_id o new_size in
        some (size, with_cache s type_name c')
  ]
]

-- `CFileCache::Resize`
unfoldable pub resize_in : Os → FileCacheSet → Bytes → FileCache → ℕ → ℕ → Option (ℕ × FileCacheSet)
resize_in os s type_name c obj_id new_size = elim (Map.find obj_id c.cached_objects) [
  | none ↦ some (0, s)
  | some o ↦
      let needed = sub32 (get_filesystem_file_size new_size) (get_filesystem_file_size o.size) in
      let s' = make_room os s type_name c needed in
      let resized = resize_in_room os s' type_name obj_id new_size in
      if has_room s' type_name needed then resized else some (0, s')
]

unfoldable pub resize : Os → FileCacheSet → ℕ → ℕ → Option (ℕ × FileCacheSet)
resize os s obj_id new_size =
    let type_name = get_type_for_object_id s obj_id in
    let unchanged : Option (ℕ × FileCacheSet) = some (cached_object_size s obj_id, s) in
    if is_empty type_name then unchanged else elim (get_file_cache_for_type s type_name) [
      | none ↦ unchanged
      | some c ↦ resize_in os s type_name c obj_id new_size
    ]

unfoldable pub unsubscribed_ids : Map ℕ CacheObject → List ℕ
unsubscribed_ids [] = []
unsubscribed_ids ((i, o) ∷ m) =
    if o.subscription_count == 0 then i ∷ unsubscribed_ids m else unsubscribed_ids m

-- A round of `CleanupDirType`: an object that is expired already is not in the id map.
unfoldable pub clean_dir_object : Os → Bytes → ℕ → FileCacheSet → FileCacheSet
clean_dir_object os type_name obj_id s = elim (get_file_cache_for_type s type_name) [
  | none ↦ s
  | some c ↦ elim (Map.find obj_id c.cached_objects) [
    | none ↦ s
    | some o ↦
        if o.expired
        then with_cache s type_name (Cache.expire os s.base_dir_name c obj_id).1
        else (expire_cache_object os s obj_id).1
  ]
]

unfoldable pub clean_dir_objects : Os → Bytes → List ℕ → FileCacheSet → FileCacheSet
clean_dir_objects os type_name [] s = s
clean_dir_objects os type_name (i ∷ is) s =
    clean_dir_objects os type_name is (clean_dir_object os type_name i s)

unfoldable pub cleanup_dir_type : Os → Bytes → FileCacheSet → FileCacheSet
cleanup_dir_type os type_name s = elim (get_file_cache_for_type s type_name) [
  | none ↦ s
  | some c ↦
      let ids = reverse (unsubscribed_ids c.cached_objects) in
      if c.dir_type then clean_dir_objects os type_name ids s else s
]

unfoldable pub each_type : Os → List Bytes → FileCacheSet → FileCacheSet
each_type os [] s = s
each_type os (name ∷ names) s = each_type os names (cleanup_dir_type os name s)

unfoldable pub cleanup_dir_types : Os → FileCacheSet → FileCacheSet
cleanup_dir_types os s = each_type os (map (λ e. e.0) s.cache_set) s
