-- ===== src/Cache/Accounting.antt =====
-- The counters of a cache against the objects that it holds.
use filecache.Base.{
  ℕ, ◌%◌, ◌≡◌, refl, inl, inr, Option, none, some, List, [], ◌∷◌, arith, reverse, Option-cases,
  Bytes, length,
}
use filecache.Base.Word.{word_mod}
use filecache.Base.Map
use filecache.Base.Map.{Map, ℕ_key}
use filecache.BlockSize.{get_filesystem_file_size}
use filecache.Os.{Os}
use filecache.Object
use filecache.Object.{CacheObject, Message}
use filecache.Object.Lifecycle.{expire_cases}
use filecache.Cache.{
  FileCache, make, insert, expire, expire_found, subscribe, store_resized, unsubscribe, touch,
  resize_found, place_of, cleanup_orphaned_objects, expire_all, expired_ids,
}

abbrev pub space : CacheObject → ℕ
space o = get_filesystem_file_size o.size

-- The counters are the number of the objects and the sum of their spaces on disk, as 32-bit sums.
pub record IsAccounted (c : FileCache) : Type 0 where
  pub count : c.num_objects ≡ length c.cached_objects % word_mod
  pub size : c.cache_size ≡ Map.total space c.cached_objects % word_mod

make-IsAccounted : (address : ℕ) (cache_type : Bytes) → IsAccounted (make address cache_type)
unfolding make
make-IsAccounted address cache_type = record { count = refl; size = refl }

-- `Insert` of an object under an id that the cache does not have keeps the counters: the number
-- of the objects, and the sum of their spaces on disk, as 32-bit numbers.
insert-IsAccounted :
    (c : FileCache) (o : CacheObject)
    → Map.find o.id c.cached_objects ≡ none
    → IsAccounted c
    → IsAccounted (insert c o).1
unfolding insert Map.insert
insert-IsAccounted c o h a =
    ground (
      arith,
      Map.length-place o.id o c.cached_objects,
      Map.total-place space o.id o c.cached_objects,
    )

expire_found-IsAccounted :
    (os : Os) (base : Bytes) (c : FileCache) (obj_id : ℕ) (o : CacheObject)
    → Map.find obj_id c.cached_objects ≡ some o
    → IsAccounted c
    → IsAccounted (expire_found os base c obj_id o).1
unfolding expire_found
expire_found-IsAccounted os base c obj_id o e a =
    let o' = (Object.expire os (place_of base c) o).1 in
    ground (
      arith,
      expire_cases os (place_of base c) o,
      Map.length-put obj_id o' c.cached_objects,
      Map.total-put space obj_id o' o c.cached_objects e,
      Map.length-erase obj_id o c.cached_objects e,
      Map.total-erase space obj_id o c.cached_objects e,
    )

-- `Expire` of any id keeps the counters right, whether the object is missing, subscribed, gone,
-- or left behind since its file could not be removed.
pub expire-IsAccounted :
    (os : Os) (base : Bytes) (c : FileCache) (obj_id : ℕ)
    → IsAccounted c
    → IsAccounted (expire os base c obj_id).1
unfolding expire
expire-IsAccounted os base c obj_id a = elim (Option-cases (Map.find obj_id c.cached_objects)) [
  | inl e ↦ rw (e, expire) a
  | inr (o, e) ↦ rw (e, expire) (expire_found-IsAccounted os base c obj_id o e a)
]

store_resized-IsAccounted :
    (c : FileCache) (obj_id : ℕ) (o o' : CacheObject)
    → Map.find obj_id c.cached_objects ≡ some o
    → IsAccounted c
    → IsAccounted (store_resized c obj_id o.size o')
unfolding store_resized
store_resized-IsAccounted c obj_id o o' e a = record {
  count = ground (arith, Map.length-put obj_id o' c.cached_objects);
  size = ground (arith, Map.total-put space obj_id o' o c.cached_objects e);
}

-- `UnSubscribe` of any id keeps the counters right, also where the object takes the size of its
-- file, or expires.
pub unsubscribe-IsAccounted :
    (os : Os) (base : Bytes) (c : FileCache) (obj_id : ℕ)
    → IsAccounted c
    → IsAccounted (unsubscribe os base c obj_id).1
unfolding unsubscribe
unsubscribe-IsAccounted os base c obj_id a =
    elim (Option-cases (Map.find obj_id c.cached_objects)) [
      | inl e ↦ rw (e, unsubscribe) a
      | inr (o, e) ↦
          rw (e, unsubscribe)
            (let s =
                store_resized-IsAccounted c obj_id o (Object.unsubscribe os (place_of base c) o).1 e
                  a in
              record { count = s.count; size = s.size })
    ]

-- The end of `Resize` of an object of the cache keeps the counters right, for any new size.
pub resize_found-IsAccounted :
    (os : Os) (base : Bytes) (c : FileCache) (obj_id : ℕ) (o : CacheObject) (new_size : ℕ)
    → Map.find obj_id c.cached_objects ≡ some o
    → IsAccounted c
    → IsAccounted (resize_found os base c obj_id o new_size).1
unfolding resize_found
resize_found-IsAccounted os base c obj_id o new_size e a =
    let s =
      store_resized-IsAccounted c obj_id o (Object.resize os (place_of base c) o new_size).1 e a in
    record { count = s.count; size = s.size }

-- An object that keeps its size may change otherwise.
put-IsAccounted :
    (c : FileCache) (obj_id : ℕ) (o o' : CacheObject) (list : List ℕ)
    → Map.find obj_id c.cached_objects ≡ some o
    → o'.size ≡ o.size
    → IsAccounted c
    → IsAccounted
        (record c { cached_objects = Map.put obj_id o' c.cached_objects; cache_list = list })
put-IsAccounted c obj_id o o' list e same a = record {
  count = ground (arith, Map.length-put obj_id o' c.cached_objects);
  size = ground (arith, Map.total-put space obj_id o' o c.cached_objects e);
}

subscribe-size :
    (os : Os) (pl : Object.Place) (o : CacheObject) (msg : Option Message)
    → (Object.subscribe os pl o msg).2.size ≡ o.size
unfolding Object.subscribe Object.subscribe_open
subscribe-size os pl o msg = ground arith

-- `Subscribe` keeps the counters right.
subscribe-IsAccounted :
    (os : Os) (base : Bytes) (c : FileCache) (msg : Option Message) (obj_id : ℕ)
    → IsAccounted c
    → IsAccounted (subscribe os base c msg obj_id).2
unfolding subscribe
subscribe-IsAccounted os base c msg obj_id a =
    elim (Option-cases (Map.find obj_id c.cached_objects)) [
      | inl e ↦ rw (e, subscribe) a
      | inr (o, e) ↦
          rw (e, subscribe)
            (put-IsAccounted c obj_id o _ _ e (subscribe-size os (place_of base c) o msg) a)
    ]

-- `Touch` keeps the counters right.
touch-IsAccounted :
    (os : Os) (c : FileCache) (obj_id : ℕ) → IsAccounted c → IsAccounted (touch os c obj_id).1
unfolding touch
touch-IsAccounted os c obj_id a = elim (Option-cases (Map.find obj_id c.cached_objects)) [
  | inl e ↦ rw (e, touch) a
  | inr (o, e) ↦ rw (e, touch) (put-IsAccounted c obj_id o _ _ e refl a)
]

expire_all-IsAccounted :
    (os : Os) (base : Bytes) (is : List ℕ) (c : FileCache)
    → IsAccounted c
    → IsAccounted (expire_all os base is c)
unfolding expire_all
expire_all-IsAccounted os base [] c a = a
expire_all-IsAccounted os base (i ∷ is) c a =
    expire_all-IsAccounted os base is (expire os base c i).1 (expire-IsAccounted os base c i a)

cleanup_orphaned_objects-IsAccounted :
    (os : Os) (base : Bytes) (c : FileCache)
    → IsAccounted c
    → IsAccounted (cleanup_orphaned_objects os base c)
unfolding cleanup_orphaned_objects
cleanup_orphaned_objects-IsAccounted os base c a =
    expire_all-IsAccounted os base (reverse (expired_ids c.cached_objects)) c a
