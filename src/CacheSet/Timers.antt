-- ===== src/CacheSet/Timers.antt =====
-- What the timers run on the set of caches: `CleanupOrphans` and `CleanupDirTypes` of
-- src/FileCacheSet.cpp clean up, and nothing else.
use filecache.Base.{
  ℕ, is_none, ◌∙◌, ◌≡◌, refl, inl, inr, List, [], ◌∷◌, reverse, map, Bool-cases, Option-cases,
  Bytes,
}
use filecache.Base.Map
use filecache.Base.Map.{Map, bytes_key, ℕ_key}
use filecache.Os.{Os}
use filecache.Cache
use filecache.Cache.{FileCache}
use filecache.Cache.Cleans.{Cleans, expire-Cleans, Cleans-refl, Cleans-trans}
use filecache.CacheSet.State.{FileCacheSet, get_file_cache_for_type, map_values, cleanup_orphans}
use filecache.CacheSet.Objects.{
  clean_dir_object, clean_dir_objects, cleanup_dir_type, each_type, cleanup_dir_types,
  unsubscribed_ids,
}
use filecache.CacheSet.Cleans.{
  CleansAt, CleansSet, CleansSet-refl, CleansSet-trans, with_cache-CleansSet,
  expire_cache_object-CleansSet,
}

expire_all-Cleans :
    (os : Os) (base : Bytes) (is : List ℕ) (c : FileCache)
    → Cleans c (Cache.expire_all os base is c)
unfolding Cache.expire_all
expire_all-Cleans os base [] c = Cleans-refl c
expire_all-Cleans os base (i ∷ is) c =
    Cleans-trans (expire-Cleans os base c i)
      (expire_all-Cleans os base is (Cache.expire os base c i).1)

cleanup_orphaned_objects-Cleans :
    (os : Os) (base : Bytes) (c : FileCache) → Cleans c (Cache.cleanup_orphaned_objects os base c)
unfolding Cache.cleanup_orphaned_objects
cleanup_orphaned_objects-Cleans os base c =
    expire_all-Cleans os base (reverse (Cache.expired_ids c.cached_objects)) c

map_values-CleansAt :
    (f : FileCache → FileCache) (name : Bytes) (m : Map Bytes FileCache)
    → ((c : FileCache) → Cleans c (f c))
    → CleansAt (Map.find name m) (Map.find name (map_values f m))
unfolding map_values Map.find
map_values-CleansAt f name [] h = tt
map_values-CleansAt f name ((key, c) ∷ m) h = elim (Bool-cases (bytes_key.beq key name)) [
  | inl b ↦ rw (b) (h c)
  | inr b ↦ rw (b) (map_values-CleansAt f name m h)
]

find-map_values :
    (f : FileCache → FileCache) (name : Bytes) (m : Map Bytes FileCache)
    → is_none (Map.find name (map_values f m)) ≡ is_none (Map.find name m)
unfolding map_values Map.find
find-map_values f name [] = refl
find-map_values f name ((key, c) ∷ m) = elim (Bool-cases (bytes_key.beq key name)) [
  | inl b ↦ rw (b) refl
  | inr b ↦ rw (b) (find-map_values f name m)
]

map_values-IsDistinct :
    (f : FileCache → FileCache) (m : Map Bytes FileCache)
    → Map.IsDistinct m
    → Map.IsDistinct (map_values f m)
unfolding map_values
map_values-IsDistinct f [] d = d
map_values-IsDistinct f ((key, c) ∷ m) d =
    (find-map_values f key m ∙ d.0, map_values-IsDistinct f m d.1)

pub cleanup_orphans-CleansSet : (os : Os) (s : FileCacheSet) → CleansSet s (cleanup_orphans os s)
unfolding cleanup_orphans
cleanup_orphans-CleansSet os s = record {
  caches = λ name.
      map_values-CleansAt (Cache.cleanup_orphaned_objects os s.base_dir_name) name s.cache_set
        (cleanup_orphaned_objects-Cleans os s.base_dir_name);
  total_cache_space = refl;
  base_dir_name = refl;
  keys = map_values-IsDistinct (Cache.cleanup_orphaned_objects os s.base_dir_name) s.cache_set;
  sequence = refl;
  ids = λ d. (d, λ i. inr refl);
}

clean_dir_object-CleansSet :
    (os : Os) (name : Bytes) (i : ℕ) (s : FileCacheSet) → CleansSet s (clean_dir_object os name i s)
unfolding clean_dir_object
clean_dir_object-CleansSet os name i s = elim (Option-cases (get_file_cache_for_type s name)) [
  | inl e ↦ rw (e, clean_dir_object) (CleansSet-refl s)
  | inr (c, e) ↦ elim (Option-cases (Map.find i c.cached_objects)) [
    | inl f ↦ rw (e, clean_dir_object, f) (CleansSet-refl s)
    | inr (o, f) ↦ elim (Bool-cases o.expired) [
      | inl x ↦
          rw (e, clean_dir_object, f, x)
            (with_cache-CleansSet s name c _ e (expire-Cleans os s.base_dir_name c i))
      | inr x ↦ rw (e, clean_dir_object, f, x) (expire_cache_object-CleansSet os s i)
    ]
  ]
]

clean_dir_objects-CleansSet :
    (os : Os) (name : Bytes) (is : List ℕ) (s : FileCacheSet)
    → CleansSet s (clean_dir_objects os name is s)
unfolding clean_dir_objects
clean_dir_objects-CleansSet os name [] s = CleansSet-refl s
clean_dir_objects-CleansSet os name (i ∷ is) s =
    CleansSet-trans (clean_dir_object-CleansSet os name i s)
      (clean_dir_objects-CleansSet os name is (clean_dir_object os name i s))

cleanup_dir_type-CleansSet :
    (os : Os) (name : Bytes) (s : FileCacheSet) → CleansSet s (cleanup_dir_type os name s)
unfolding cleanup_dir_type
cleanup_dir_type-CleansSet os name s = elim (Option-cases (get_file_cache_for_type s name)) [
  | inl e ↦ rw (e, cleanup_dir_type) (CleansSet-refl s)
  | inr (c, e) ↦ elim (Bool-cases c.dir_type) [
    | inl d ↦
        rw (e, cleanup_dir_type, d)
          (clean_dir_objects-CleansSet os name (reverse (unsubscribed_ids c.cached_objects)) s)
    | inr d ↦ rw (e, cleanup_dir_type, d) (CleansSet-refl s)
  ]
]

each_type-CleansSet :
    (os : Os) (names : List Bytes) (s : FileCacheSet) → CleansSet s (each_type os names s)
unfolding each_type
each_type-CleansSet os [] s = CleansSet-refl s
each_type-CleansSet os (name ∷ names) s =
    CleansSet-trans (cleanup_dir_type-CleansSet os name s)
      (each_type-CleansSet os names (cleanup_dir_type os name s))

pub cleanup_dir_types-CleansSet :
    (os : Os) (s : FileCacheSet) → CleansSet s (cleanup_dir_types os s)
unfolding cleanup_dir_types
cleanup_dir_types-CleansSet os s = each_type-CleansSet os (map (λ e. e.0) s.cache_set) s
