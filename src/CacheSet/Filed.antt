-- ===== src/CacheSet/Filed.antt =====
-- How the set of caches (src/FileCacheSet.cpp) finds its objects after an insertion and after the
-- end of a subscription, and what it knows of a type that was changed.
use filecache.Base.{
  ℕ, ◌≡◌, ◌<◌, refl, inl, inr, Bool, true, false, Option, none, some, arith, List, [], ◌∷◌,
  Bool-cases, Bytes,
}
use filecache.Base.Word.{minus_one}
use filecache.Base.Map
use filecache.Base.Map.{Map, ℕ_key, bytes_key}
use filecache.ObjectId.{is_empty}
use filecache.Os.{Os}
use filecache.Object
use filecache.Object.{CacheObject, Message}
use filecache.Cache
use filecache.Cache.{FileCache, contains, remove_first}
use filecache.Config.{CacheParamValues, Entries, configure}
use filecache.CacheSet.State.{
  FileCacheSet, get_file_cache_for_type, get_type_for_object_id, with_cache, cached_object_size,
  cached_object_filename, expire_cache_object, unsubscribe_cache_object, remove_object_from_id_map,
}
use filecache.CacheSet.Objects.{Request, insert_with_id}
use filecache.CacheSet.Types.{change_type, avail_for_type}

Answers : FileCacheSet → ℕ → Bytes → CacheObject → Type 0
Answers s obj_id name o =
    (get_type_for_object_id s obj_id ≡ name)
    × (cached_object_size s obj_id ≡ o.size)
    × (cached_object_filename s obj_id ≡ o.filename)

answers :
    (s : FileCacheSet) (name : Bytes) (c : FileCache) (obj_id : ℕ) (o : CacheObject)
    → Map.find obj_id s.id_map ≡ some name
    → is_empty name ≡ false
    → get_file_cache_for_type s name ≡ some c
    → Map.find obj_id c.cached_objects ≡ some o
    → Answers s obj_id name o
unfolding Answers cached_object_size cached_object_filename Cache.get_object_size
    Cache.get_object_filename
answers s name c obj_id o f n e g =
    let same : get_type_for_object_id s obj_id ≡ name = rw (f, get_type_for_object_id) refl in
    let named : is_empty (get_type_for_object_id s obj_id) ≡ false = rw (same) n in
    let found : get_file_cache_for_type s (get_type_for_object_id s obj_id) ≡ some c =
      rw (same) e in
    (
      same,
      rw (named, found, Cache.get_object_size, g) refl,
      rw (named, found, Cache.get_object_filename, g) refl,
    )

-- An id that is not in the map is said to be expired.
absent :
    (os : Os) (s : FileCacheSet) (obj_id : ℕ)
    → Map.find obj_id s.id_map ≡ none
    → (expire_cache_object os s obj_id ≡ (true, s)) × (cached_object_size s obj_id ≡ minus_one)
unfolding expire_cache_object cached_object_size
absent os s obj_id f =
    let no_type : get_type_for_object_id s obj_id ≡ [] = rw (f, get_type_for_object_id) refl in
    let nameless : is_empty (get_type_for_object_id s obj_id) ≡ true = rw (no_type) refl in
    (rw (nameless) refl, rw (nameless) refl)

unsubscribed :
    (os : Os) (s : FileCacheSet) (name : Bytes) (c : FileCache) (obj_id : ℕ)
    → get_file_cache_for_type s name ≡ some c
    → is_empty name ≡ false
    → (Cache.unsubscribe os s.base_dir_name c obj_id).0 ≡ true
    → unsubscribe_cache_object os s name obj_id
      ≡ remove_object_from_id_map
          (with_cache s name (Cache.unsubscribe os s.base_dir_name c obj_id).1)
          obj_id
unfolding unsubscribe_cache_object
unsubscribed os s name c obj_id e n u = rw (n, e, unsubscribe_cache_object, u) refl

store_resized-list :
    (c : FileCache) (obj_id size : ℕ) (o : CacheObject)
    → (Cache.store_resized c obj_id size o).cache_list ≡ c.cache_list
unfolding Cache.store_resized
store_resized-list c obj_id size o = ground arith

update_object-front :
    (obj_id : ℕ) (l : List ℕ)
    → contains obj_id l ≡ true
    → Cache.update_object obj_id l ≡ obj_id ∷ remove_first obj_id l
unfolding Cache.update_object
update_object-front obj_id l h = rw (h) refl

unsubscribe-list :
    (os : Os) (base : Bytes) (c : FileCache) (obj_id : ℕ) (o : CacheObject)
    → Map.find obj_id c.cached_objects ≡ some o
    → (Object.unsubscribe os (Cache.place_of base c) o).0 ≡ true
    → contains obj_id c.cache_list ≡ true
    → ((Cache.unsubscribe os base c obj_id).0 ≡ true)
      × ((Cache.unsubscribe os base c obj_id).1.cache_list
          ≡ obj_id ∷ remove_first obj_id c.cache_list)
unfolding Cache.unsubscribe
unsubscribe-list os base c obj_id o f u l = (
  rw (f, Cache.unsubscribe) u,
  rw (f, Cache.unsubscribe)
      (rw (store_resized-list c obj_id o.size (Object.unsubscribe os (Cache.place_of base c) o).1)
        (update_object-front obj_id c.cache_list l)),
)

-- Where the insertion under an id gives that positive id, for a type with a name and an id that
-- neither the id map nor the cache of the type has: the new set answers for the id with the
-- type, the size and the file name of the request.
pub insert_with_id-found :
    (os : Os) (s : FileCacheSet) (name : Bytes) (c : FileCache) (obj_id : ℕ) (r : Request)
    (written is_new : Bool)
    → get_file_cache_for_type s name ≡ some c
    → is_empty name ≡ false
    → Map.find obj_id s.id_map ≡ none
    → Map.find obj_id c.cached_objects ≡ none
    → 0 < obj_id
    → (insert_with_id os s name obj_id r written is_new).0 ≡ obj_id
    → let s' = (insert_with_id os s name obj_id r written is_new).2 in
      (get_type_for_object_id s' obj_id ≡ name)
      × (cached_object_size s' obj_id ≡ r.size)
      × (cached_object_filename s' obj_id ≡ r.filename)
unfolding insert_with_id Object.make Cache.insert Answers
insert_with_id-found os s name c obj_id r written is_new e n f g z h =
    let o = Object.make os obj_id r.filename r.size r.cost r.lifetime written c.dir_type in
    let place = Cache.place_of s.base_dir_name c in
    elim (Bool-cases (Object.initialize os place o is_new)) [
      | inl b ↦
          rw (e, insert_with_id, b)
            (answers _ name (Cache.insert c o).1 obj_id o (Map.find-insert obj_id name s.id_map f) n
              (Map.find-put_self name (Cache.insert c o).1 c s.cache_set e)
              (Map.find-insert obj_id o c.cached_objects g))
      | inr b ↦
          let refused : (insert_with_id os s name obj_id r written is_new).0 ≡ 0 =
            rw (e, insert_with_id, b) refl in
          absurd (omega arith)
    ]

-- Where the end of a subscription takes the id of a listed object of a named type out of the id
-- map, whose keys are distinct: expiring the id by the set is then said to succeed and changes
-- nothing, the set gives -1 for its size, and the id is at the front of the list of its type.
pub unsubscribe_cache_object-stale :
    (os : Os) (s : FileCacheSet) (name : Bytes) (c : FileCache) (obj_id : ℕ) (o : CacheObject)
    → get_file_cache_for_type s name ≡ some c
    → is_empty name ≡ false
    → Map.find obj_id c.cached_objects ≡ some o
    → (Object.unsubscribe os (Cache.place_of s.base_dir_name c) o).0 ≡ true
    → contains obj_id c.cache_list ≡ true
    → Map.IsDistinct s.id_map
    → let s' = unsubscribe_cache_object os s name obj_id in
      (expire_cache_object os s' obj_id ≡ (true, s'))
      × (cached_object_size s' obj_id ≡ minus_one)
      × (c' : FileCache) × (get_file_cache_for_type s' name ≡ some c')
      × (c'.cache_list ≡ obj_id ∷ remove_first obj_id c.cache_list)
unfolding remove_object_from_id_map
unsubscribe_cache_object-stale os s name c obj_id o e n f u l d =
    let (removed, moved) = unsubscribe-list os s.base_dir_name c obj_id o f u l in
    let c' = (Cache.unsubscribe os s.base_dir_name c obj_id).1 in
    let (skipped, no_size) =
      absent os (remove_object_from_id_map (with_cache s name c') obj_id) obj_id
        (Map.find-erase_self obj_id s.id_map d) in
    rw (unsubscribed os s name c obj_id e n removed)
      (skipped, no_size, c', Map.find-put_self name c' c s.cache_set e, moved)

configure-dir_type :
    (os : Os) (base : Bytes) (avail : ℕ) (c : FileCache) (file : Option Entries)
    (p : CacheParamValues)
    → (configure os base avail file c (some p) false).0 ≡ true
    → (configure os base avail file c (some p) false).1.dir_type ≡ false
unfolding configure
configure-dir_type os base avail c file p h = ground arith

-- After a `ChangeType` of an existing type that succeeds, the cache of the type is not a
-- directory type, whatever it was before.
change_type-dir_type :
    (os : Os) (s : FileCacheSet) (name : Bytes) (c : FileCache) (file : Option Entries)
    (p : CacheParamValues)
    → get_file_cache_for_type s name ≡ some c
    → (change_type os s name file p).done ≡ true
    → (c' : FileCache) × (get_file_cache_for_type (change_type os s name file p).set name ≡ some c')
      × (c'.dir_type ≡ false)
unfolding change_type
change_type-dir_type os s name c file p e h =
    let c' = (configure os s.base_dir_name (avail_for_type s) file c (some p) false).1 in
    rw (e, change_type)
      (
        c',
        Map.find-put_self name c' c s.cache_set e,
        configure-dir_type os s.base_dir_name (avail_for_type s) c file p
            (rw (e, change_type) at h),
      )
