-- ===== src/Bus/Expires.antt =====
-- What `ExpireCacheObject` of src/CategoryHandler.cpp does after a run of the service.
use filecache.Base.{
  ℕ, ◌+◌, ◌<◌, ◌≡◌, refl, ap, ◌∙◌, inl, inr, true, false, Option, none, some, List, arith, ◌==◌,
  if◌then◌else◌, Bool-cases, Bytes, length, All, [],
}
use filecache.Base.Word.{sign_bit, lt32}
use filecache.Base.Map
use filecache.Base.Map.{ℕ_key, bytes_key, bytes_eq, bytes_eq_iff}
use filecache.ObjectId.{is_empty, get_object_id_from_path, get_type_name_from_path}
use filecache.Os.{Os}
use filecache.Object
use filecache.Object.{CacheObject, get_pathname}
use filecache.Object.Lifecycle.{expire_cases}
use filecache.Cache
use filecache.Cache.{FileCache, expire_found, place_of}
use filecache.CacheSet.State
use filecache.CacheSet.State.{
  FileCacheSet, get_file_cache_for_type, get_type_for_object_id, with_cache,
  remove_object_from_id_map,
}
use filecache.CacheSet.Counts.{DistinctAt}
use filecache.Bus.{FcErr, Payload, Reply, Service, get_or, with_set}
use filecache.Bus.Objects
use filecache.Bus.Accepted.{on_path-same}
use filecache.Bus.Balance.{IsBalanced, held}
use filecache.Bus.Runs.{Event, IsPlainEvent, run, run-IsBalanced, run-counted}

-- The system can remove the file or the directory of the object.
abbrev pub IsRemovable : Os → Bytes → FileCache → CacheObject → Type 0
IsRemovable os base c o =
    let path = get_pathname os (place_of base c) o false in
    (if o.dir_type then os.remove_all path else os.unlink path) ≡ true

-- What the cache has under the id of an object after it was to expire.
abbrev pub expired_object : ℕ → CacheObject → Option CacheObject
expired_object holders o = if holders == 0 then none else some (record o { expired = true })

expire_found-outcome :
    (os : Os) (base : Bytes) (c : FileCache) (i : ℕ) (o : CacheObject)
    → Map.IsDistinct c.cached_objects
    → Map.find i c.cached_objects ≡ some o
    → o.subscription_count < sign_bit
    → is_empty o.filename ≡ false
    → IsRemovable os base c o
    → ((expire_found os base c i o).0 ≡ (o.subscription_count == 0))
      × (Map.find i (expire_found os base c i o).1.cached_objects
          ≡ expired_object o.subscription_count o)
unfolding expire_found
expire_found-outcome os base c i o d e small named removable =
    let (marked, gone) = expire_cases os (place_of base c) o in
    elim (Bool-cases (o.subscription_count == 0)) [
      | inl z ↦
          let free : lt32 0 o.subscription_count ≡ false = ground arith in
          let done : (Object.expire os (place_of base c) o).0 ≡ true =
            gone ∙ rw (free, named, removable) refl in
          rw (z, done) (refl, Map.find-erase_self i c.cached_objects d)
      | inr z ↦
          let busy : lt32 0 o.subscription_count ≡ true = ground arith in
          let kept : (Object.expire os (place_of base c) o).0 ≡ false = gone ∙ rw (busy) refl in
          rw (z, kept) (refl, Map.find-put_self i _ o c.cached_objects e ∙ ap (λ x. some x) marked)
    ]

set_expires :
    (os : Os) (s : FileCacheSet) (c : FileCache) (i : ℕ) (o : CacheObject)
    → let name = get_type_for_object_id s i in
      is_empty name ≡ false
      → get_file_cache_for_type s name ≡ some c
      → Map.find i c.cached_objects ≡ some o
      → let (gone, c') = expire_found os s.base_dir_name c i o in
        State.expire_cache_object os s i
        ≡ (gone, with_cache (remove_object_from_id_map s i) name c')
unfolding State.expire_cache_object Cache.expire
set_expires os s c i o named there found = rw (named, there, Cache.expire, found) refl

-- The reply to a call for an object with so many subscriptions.
abbrev pub expired_reply : ℕ → Reply
expired_reply holders = if holders == 0 then Reply.success else Reply.failure FcErr.in_use_error

-- After every run of calls, ends of subscriptions and timers that comes to its end, under the
-- conditions under which it keeps the counts in balance with the subscriptions,
-- `ExpireCacheObject` of a path name that the positive id and the named type of an object with a
-- file name that is not empty can be read from, where the id map has this type for the id and the
-- system can remove the file: if no subscription of the service stands for the object, the call
-- succeeds and the object is gone from its cache; if one does, the reply is that the object is in
-- use, and it stays in its cache, marked as expired.
pub run-expire_cache_object :
    (es : List Event) (svc svc' : Service) (os : Os) (p : Payload) (name : Bytes) (c : FileCache)
    (i : ℕ) (o : CacheObject)
    → IsBalanced svc
    → length svc.subscribers + length es < sign_bit
    → All IsPlainEvent es
    → run es svc ≡ some svc'
    → get_object_id_from_path (get_or [] p.path_name) ≡ some i
    → (i == 0) ≡ false
    → get_type_name_from_path svc'.set.base_dir_name (get_or [] p.path_name) ≡ name
    → get_type_for_object_id svc'.set i ≡ name
    → is_empty name ≡ false
    → get_file_cache_for_type svc'.set name ≡ some c
    → Map.find i c.cached_objects ≡ some o
    → is_empty o.filename ≡ false
    → IsRemovable os svc'.set.base_dir_name c o
    → let holders = held svc'.set.base_dir_name name i svc'.subscribers in
      (svc'' : Service) × (c'' : FileCache) × (Objects.expire_cache_object os svc' p
        ≡ some (expired_reply holders, svc''))
      × (get_file_cache_for_type svc''.set name ≡ some c'')
      × (Map.find i c''.cached_objects ≡ expired_object holders o)
unfolding Objects.expire_cache_object State.remove_object_from_id_map
run-expire_cache_object es svc svc' os p name c i o b few plain e read positive typed mapped named
      there found filed removable =
    let base = svc'.set.base_dir_name in
    let (counted, small) = run-counted es svc svc' name c i o b few plain e there found in
    let b' = run-IsBalanced es svc svc' b few plain e in
    let (tidy, kind, plain_name) : DistinctAt name (some c) =
      rw (there) at (b'.distinct.objects name) in
    let (done, left) =
      expire_found-outcome os base c i o tidy.distinct found small filed removable in
    let same : bytes_eq name name ≡ true = (bytes_eq_iff name name).1 refl in
    let (gone, c') = expire_found os base c i o in
    let set = with_cache (remove_object_from_id_map svc'.set i) name c' in
    let expires : State.expire_cache_object os svc'.set i ≡ (gone, set) =
      rw (mapped) at
        (set_expires os svc'.set c i o (rw (mapped) named) (rw (mapped) there) found) in
    let answer : Objects.expire_cache_object os svc' p
        ≡ some
            (if gone then Reply.success else Reply.failure FcErr.in_use_error, with_set svc' set) =
      on_path-same svc'.set (get_or [] p.path_name) failed _ answer_to i read positive
        (rw (typed, mapped) same)
      ∙ rw (expires) refl in
    (
      with_set svc' set,
      c',
      rw (← counted, ← done) answer,
      Map.find-put_self name c' c svc'.set.cache_set there,
      rw (← counted) left,
    )
  where
    failed : Reply × Service
    failed = (Reply.failure FcErr.exists_error, svc')

    answer_to : ℕ → Option (Reply × Service)
    answer_to obj_id =
        let (expired, s) = State.expire_cache_object os svc'.set obj_id in
        some (if expired then Reply.success else Reply.failure FcErr.in_use_error, with_set svc' s)
