-- ===== src/CacheSet/Subscribed.antt =====
-- `SubscribeCacheObject` (src/FileCacheSet.cpp) and the cleanups that follow it.
use filecache.Base.{ℕ, ◌+◌, ◌<◌, ◌≡◌, refl, ap, false, Option, some, arith, Bytes}
use filecache.Base.Word.{sign_bit}
use filecache.Base.Map
use filecache.Base.Map.{ℕ_key, bytes_key}
use filecache.ObjectId.{is_empty}
use filecache.Os.{Os}
use filecache.Object
use filecache.Object.{CacheObject, Message}
use filecache.Object.Lifecycle.{subscribe_granted}
use filecache.Cache
use filecache.Cache.{FileCache}
use filecache.CacheSet.State.{
  FileCacheSet, get_file_cache_for_type, get_type_for_object_id, with_cache, subscribe_cache_object,
}
use filecache.CacheSet.Cleanup.{cleanup}
use filecache.CacheSet.Cleans.{cleanup-CleansSet}
use filecache.CacheSet.Room.{found-CleansSet}

-- The cache passes the call on to the object that it finds.
pub subscribe-found :
    (os : Os) (base : Bytes) (c : FileCache) (msg : Option Message) (obj_id : ℕ) (o : CacheObject)
    → Map.find obj_id c.cached_objects ≡ some o
    → let (pathname, msg', o') = Object.subscribe os (Cache.place_of base c) o msg in
      ((Cache.subscribe os base c msg obj_id).0 ≡ pathname)
      × (Map.find obj_id (Cache.subscribe os base c msg obj_id).2.cached_objects ≡ some o')
unfolding Cache.subscribe
subscribe-found os base c msg obj_id o f = (
  rw (f, Cache.subscribe) refl,
  rw (f, Cache.subscribe) (Map.find-put_self obj_id _ o c.cached_objects f),
)

pub subscribe_cache_object-found :
    (os : Os) (s : FileCacheSet) (msg : Option Message) (name : Bytes) (c : FileCache) (obj_id : ℕ)
    → Map.find obj_id s.id_map ≡ some name
    → is_empty name ≡ false
    → get_file_cache_for_type s name ≡ some c
    → let (pathname, msg', c') = Cache.subscribe os s.base_dir_name c msg obj_id in
      subscribe_cache_object os s msg obj_id ≡ (pathname, msg', with_cache s name c')
unfolding subscribe_cache_object
subscribe_cache_object-found os s msg name c obj_id f n e =
    let same : get_type_for_object_id s obj_id ≡ name = rw (f, get_type_for_object_id) refl in
    let named : is_empty (get_type_for_object_id s obj_id) ≡ false = rw (same) n in
    let found : get_file_cache_for_type s (get_type_for_object_id s obj_id) ≡ some c =
      rw (same) e in
    let (pathname, msg', c') = Cache.subscribe os s.base_dir_name c msg obj_id in
    rw (named, subscribe_cache_object, found)
      (ap (λ type_name. (pathname, msg', with_cache s type_name c')) same)

-- Where `SubscribeCacheObject` gives a path name for an object that the id map and the cache of
-- its named type have, and its subscription count with one more is below 2^31: after a cleanup
-- of any type for any size, the cache still holds the object, and its count is one more than
-- before the subscription.
pub subscribe_cache_object-cleanup :
    (os os' : Os) (s : FileCacheSet) (msg : Option Message) (name : Bytes) (c : FileCache)
    (obj_id : ℕ) (o : CacheObject) (other : Bytes) (size : ℕ)
    → Map.find obj_id s.id_map ≡ some name
    → is_empty name ≡ false
    → get_file_cache_for_type s name ≡ some c
    → Map.find obj_id c.cached_objects ≡ some o
    → o.subscription_count + 1 < sign_bit
    → is_empty (subscribe_cache_object os s msg obj_id).0 ≡ false
    → (c' : FileCache) × (o' : CacheObject) × (get_file_cache_for_type
          (cleanup os' (subscribe_cache_object os s msg obj_id).2 other size)
          name
        ≡ some c')
      × (Map.find obj_id c'.cached_objects ≡ some o')
      × (o'.subscription_count ≡ o.subscription_count + 1)
subscribe_cache_object-cleanup os os' s msg name c obj_id o other size f n e g b h =
    let place = Cache.place_of s.base_dir_name c in
    let taken = (Object.subscribe os place o msg).2 in
    let c' = (Cache.subscribe os s.base_dir_name c msg obj_id).2 in
    let s' = with_cache s name c' in
    let (path, there) = subscribe-found os s.base_dir_name c msg obj_id o g in
    let called = subscribe_cache_object-found os s msg name c obj_id f n e in
    let granted : is_empty (Object.subscribe os place o msg).0 ≡ false = rw (called, path) at h in
    let counted = subscribe_granted os place o msg granted in
    let stored = Map.find-put_self name c' c s.cache_set e in
    let (c'', e'', cleans) =
      found-CleansSet s' (cleanup os' s' other size) name c' (cleanup-CleansSet os' s' other size)
        stored in
    let (o'', f'', same) = cleans.pinned obj_id taken there (ground (arith, counted)) in
    rw (called) (c'', o'', e'', f'', ground (arith, counted, same.count))
