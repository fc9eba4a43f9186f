-- ===== src/CacheSet/Counts/Moved.antt =====
-- The methods of src/FileCacheSet.cpp that change a subscription count: `SubscribeCacheObject` and
-- `UnSubscribeCacheObject`.
use filecache.Base.{
  ℕ, ◌-◌, ◌<◌, ◌≡◌, refl, inl, inr, true, false, Option, some, arith, Bool-cases, Option-cases,
  Bytes,
}
use filecache.Base.Word.{sign_bit, add32, sub32}
use filecache.Base.Map
use filecache.Base.Map.{Map, ℕ_key, bytes_key}
use filecache.ObjectId.{is_empty}
use filecache.Os.{Os}
use filecache.Object
use filecache.Object.{CacheObject, Message, Place, close_writer, get_pathname}
use filecache.Object.Invariant.{close_writer-Closed}
use filecache.Object.Lifecycle.{subscribe_granted}
use filecache.Cache
use filecache.Cache.{FileCache}
use filecache.Cache.Counts.{put-SameCounts, SameCounts-objects}
use filecache.CacheSet.State.{
  FileCacheSet, get_file_cache_for_type, get_type_for_object_id, with_cache, subscribe_cache_object,
  unsubscribe_cache_object, remove_object_from_id_map,
}
use filecache.CacheSet.Counts.{
  SetCounts, SetCounts-refl, SetsCount, with_cache-SetCounts, with_cache-SetsCount, count_in,
}
use filecache.CacheSet.Counts.Kept.{store_resized-objects, store_resized-cache_type}

-- A subscription that is refused is not counted.
subscribe_refused :
    (os : Os) (pl : Place) (o : CacheObject) (msg : Option Message)
    → is_empty (Object.subscribe os pl o msg).0 ≡ true
    → (Object.subscribe os pl o msg).2.subscription_count ≡ o.subscription_count
unfolding Object.subscribe Object.subscribe_open
subscribe_refused os pl o msg h = ground arith

subscribe-id :
    (os : Os) (pl : Place) (o : CacheObject) (msg : Option Message)
    → (Object.subscribe os pl o msg).2.id ≡ o.id
unfolding Object.subscribe Object.subscribe_open
subscribe-id os pl o msg = ground arith

-- A subscription that is granted gives the path name and leaves the message.
subscribe_path :
    (os : Os) (pl : Place) (o : CacheObject) (msg : Option Message)
    → is_empty (Object.subscribe os pl o msg).0 ≡ false
    → ((Object.subscribe os pl o msg).0 ≡ get_pathname os pl o false)
      × ((Object.subscribe os pl o msg).1 ≡ msg)
unfolding Object.subscribe Object.subscribe_open
subscribe_path os pl o msg h = (ground arith, ground arith)

-- The object that is subscribed to, and what it gives.
pub record Granted (os : Os) (s : FileCacheSet) (msg : Option Message) (i : ℕ) (pathname : Bytes)
    (msg' : Option Message) (s' : FileCacheSet) : Type 0 where
  pub named : is_empty (get_type_for_object_id s i) ≡ false
  pub counted :
      SetsCount s s'
        (get_type_for_object_id s i)
        i
        (add32 (count_in s (get_type_for_object_id s i) i) 1)
  pub cache : FileCache
  pub object : CacheObject
  pub typed : get_file_cache_for_type s (get_type_for_object_id s i) ≡ some cache
  pub found : Map.find i cache.cached_objects ≡ some object
  pub path : pathname ≡ get_pathname os (Cache.place_of s.base_dir_name cache) object false
  pub silent : msg' ≡ msg

-- What `SubscribeCacheObject` does to the counts, by the path name that it gives.
pub data Subscribes (os : Os) (s : FileCacheSet) (msg : Option Message) (i : ℕ) (pathname : Bytes)
    (msg' : Option Message) (s' : FileCacheSet) : Type 0 where
  refused : is_empty pathname ≡ true → SetCounts s s' → Subscribes os s msg i pathname msg' s'
  granted :
      is_empty pathname ≡ false
      → Granted os s msg i pathname msg' s'
      → Subscribes os s msg i pathname msg' s'

subscribe_object-Subscribes :
    (os : Os) (s : FileCacheSet) (msg : Option Message) (i : ℕ) (c : FileCache) (o : CacheObject)
    → let name = get_type_for_object_id s i in
      let (pathname, msg', o') = Object.subscribe os (Cache.place_of s.base_dir_name c) o msg in
      (c' : FileCache)
      → is_empty name ≡ false
      → get_file_cache_for_type s name ≡ some c
      → Map.find i c.cached_objects ≡ some o
      → c'.cached_objects ≡ Map.put i o' c.cached_objects
      → c'.cache_type ≡ c.cache_type
      → Subscribes os s msg i pathname msg' (with_cache s name c')
subscribe_object-Subscribes os s msg i c o c' n e f p t =
    let place = Cache.place_of s.base_dir_name c in
    let name = get_type_for_object_id s i in
    let o' = (Object.subscribe os place o msg).2 in
    let id = subscribe-id os place o msg in
    elim (Bool-cases (is_empty (Object.subscribe os place o msg).0)) [
      | inl b ↦ refused b (
          with_cache-SetCounts s name c c' e
            (put-SameCounts c c' i o o' f id (subscribe_refused os place o msg b) p t))
      | inr b ↦
          let counted : o'.subscription_count ≡ add32 (count_in s name i) 1 =
            rw (e, f) (subscribe_granted os place o msg b) in
          let (path, silent) = subscribe_path os place o msg b in
          granted b (record {
            named = n;
            counted = rw (← counted) (with_cache-SetsCount s name c c' i o o' e f id p t);
            cache = c;
            object = o;
            typed = e;
            found = f;
            path = path;
            silent = silent;
          })
    ]

refused_here :
    {os : Os} {s : FileCacheSet} {msg msg' : Option Message} {i : ℕ} {pathname : Bytes}
    → is_empty pathname ≡ true
    → Subscribes os s msg i pathname msg' s
refused_here {os} {s} h = refused h (SetCounts-refl s)

subscribe_in-Subscribes :
    (os : Os) (s : FileCacheSet) (msg : Option Message) (i : ℕ) (c : FileCache)
    → is_empty (get_type_for_object_id s i) ≡ false
    → get_file_cache_for_type s (get_type_for_object_id s i) ≡ some c
    → Subscribes os s msg i
        (Cache.subscribe os s.base_dir_name c msg i).0
        (Cache.subscribe os s.base_dir_name c msg i).1
        (with_cache s (get_type_for_object_id s i) (Cache.subscribe os s.base_dir_name c msg i).2)
unfolding Cache.subscribe
subscribe_in-Subscribes os s msg i c n e = elim (Option-cases (Map.find i c.cached_objects)) [
  | inl f ↦
      rw (f, Cache.subscribe)
        (refused refl (
          with_cache-SetCounts s (get_type_for_object_id s i) c c e
            (SameCounts-objects c c refl refl)))
  | inr (o, f) ↦
      rw (f, Cache.subscribe) (subscribe_object-Subscribes os s msg i c o _ n e f refl refl)
]

pub subscribe_cache_object-Subscribes :
    (os : Os) (s : FileCacheSet) (msg : Option Message) (i : ℕ)
    → let r = subscribe_cache_object os s msg i in Subscribes os s msg i r.0 r.1 r.2
unfolding subscribe_cache_object
subscribe_cache_object-Subscribes os s msg i =
    let name = get_type_for_object_id s i in
    elim (Bool-cases (is_empty name)) [
      | inl b ↦ rw (b) (refused_here refl)
      | inr b ↦ elim (Option-cases (get_file_cache_for_type s name)) [
        | inl e ↦ rw (b, e) (refused_here refl)
        | inr (c, e) ↦ rw (b, e) (subscribe_in-Subscribes os s msg i c b e)
      ]
    ]

released_count :
    (os : Os) (pl : Place) (o : CacheObject)
    → ((Object.unsubscribe os pl o).1.id ≡ o.id)
      × ((Object.unsubscribe os pl o).1.subscription_count ≡ sub32 o.subscription_count 1)
unfolding Object.unsubscribe
released_count os pl o =
    let released = record o { subscription_count = sub32 o.subscription_count 1 } in
    let closed = close_writer-Closed os (get_pathname os pl o false) released in
    (ground arith, ground arith)

-- An object with a count is there.
pub counted_there :
    (s : FileCacheSet) (name : Bytes) (i : ℕ)
    → 0 < count_in s name i
    → (c : FileCache) × (o : CacheObject) × (get_file_cache_for_type s name ≡ some c)
      × (Map.find i c.cached_objects ≡ some o)
counted_there s name i h = elim (Option-cases (get_file_cache_for_type s name)) [
  | inl e ↦ let zero_count : count_in s name i ≡ 0 = rw (e) refl in ground arith
  | inr (c, e) ↦ elim (Option-cases (Map.find i c.cached_objects)) [
    | inl f ↦ let zero_count : count_in s name i ≡ 0 = rw (e, f) refl in ground arith
    | inr (o, f) ↦ (c, o, e, f)
  ]
]

-- The id map has no part in the counts.
unmapped-SetsCount :
    (s s' : FileCacheSet) (name : Bytes) (i n : ℕ)
    → SetsCount s s' name i n
    → SetsCount s (remove_object_from_id_map s' i) name i n
unfolding remove_object_from_id_map
unmapped-SetsCount s s' name i n h = record {
  base = h.base;
  distinct = λ d. record { keys = (h.distinct d).keys; objects = (h.distinct d).objects };
  at = h.at;
}

unsubscribe-objects :
    (os : Os) (base : Bytes) (c : FileCache) (i : ℕ) (o : CacheObject)
    → Map.find i c.cached_objects ≡ some o
    → ((Cache.unsubscribe os base c i).1.cached_objects
        ≡ Map.put i (Object.unsubscribe os (Cache.place_of base c) o).1 c.cached_objects)
      × ((Cache.unsubscribe os base c i).1.cache_type ≡ c.cache_type)
unfolding Cache.unsubscribe
unsubscribe-objects os base c i o f = (
  rw (f, Cache.unsubscribe) (store_resized-objects c i o.size _),
  rw (f, Cache.unsubscribe) (store_resized-cache_type c i o.size _),
)

unsubscribe_in-SetsCount :
    (os : Os) (s : FileCacheSet) (name : Bytes) (i n : ℕ) (c : FileCache)
    → is_empty name ≡ false
    → get_file_cache_for_type s name ≡ some c
    → SetsCount s (with_cache s name (Cache.unsubscribe os s.base_dir_name c i).1) name i n
    → SetsCount s (unsubscribe_cache_object os s name i) name i n
unfolding unsubscribe_cache_object
unsubscribe_in-SetsCount os s name i n c named e stored =
    elim (Bool-cases (Cache.unsubscribe os s.base_dir_name c i).0) [
      | inl r ↦ rw (named, e, r) (unmapped-SetsCount s _ name i n stored)
      | inr r ↦ rw (named, e, r) stored
    ]

-- `UnSubscribeCacheObject` takes one from a count that is positive.
pub unsubscribe_cache_object-SetsCount :
    (os : Os) (s : FileCacheSet) (name : Bytes) (i : ℕ)
    → is_empty name ≡ false
    → 0 < count_in s name i
    → count_in s name i < sign_bit
    → SetsCount s (unsubscribe_cache_object os s name i) name i (count_in s name i - 1)
unsubscribe_cache_object-SetsCount os s name i n h b =
    let (c, o, e, f) = counted_there s name i h in
    let c' = (Cache.unsubscribe os s.base_dir_name c i).1 in
    let o' = (Object.unsubscribe os (Cache.place_of s.base_dir_name c) o).1 in
    let here : count_in s name i ≡ o.subscription_count = rw (e, f) refl in
    let (id, released) = released_count os (Cache.place_of s.base_dir_name c) o in
    let (objects, kind) = unsubscribe-objects os s.base_dir_name c i o f in
    let less : o'.subscription_count ≡ count_in s name i - 1 = ground arith in
    let stored : SetsCount s (with_cache s name c') name i (count_in s name i - 1) =
      rw (← less) (with_cache-SetsCount s name c c' i o o' e f id objects kind) in
    unsubscribe_in-SetsCount os s name i _ c n e stored
