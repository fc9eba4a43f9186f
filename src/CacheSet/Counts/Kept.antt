-- ===== src/CacheSet/Counts/Kept.antt =====
-- The methods of src/FileCacheSet.cpp that leave every subscription count.
use filecache.Base.{
  ℕ, ◌≡◌, refl, inl, inr, false, Option, none, some, arith, Bool-cases, Option-cases, Bytes, Bool,
}
use filecache.Base.Word.{sub32}
use filecache.Base.Map
use filecache.Base.Map.{Map, ℕ_key, bytes_key}
use filecache.BlockSize.{get_filesystem_file_size}
use filecache.ObjectId.{is_empty}
use filecache.Os.{Os}
use filecache.Object
use filecache.Object.{CacheObject, Message}
use filecache.Cache
use filecache.Cache.{FileCache}
use filecache.Cache.Counts.{SameCounts, SameCounts-objects, put-SameCounts}
use filecache.Config.{CacheParamValues, Entries, configure}
use filecache.CacheSet.State
use filecache.CacheSet.State.{
  FileCacheSet, get_file_cache_for_type, get_type_for_object_id, with_cache, expire_cache_object,
}
use filecache.CacheSet.Objects.{make_room, has_room, resize, resize_in, resize_in_room}
use filecache.CacheSet.Types.{change_type, avail_for_type}
use filecache.CacheSet.Room.{make_room-CleansSet}
use filecache.CacheSet.Counts.{
  SetCounts, SetCounts-refl, SetCounts-trans, CleansSet-SetCounts, with_cache-SetCounts,
}

touch-SameCounts : (os : Os) (c : FileCache) (i : ℕ) → SameCounts c (Cache.touch os c i).1
unfolding Cache.touch
touch-SameCounts os c i = elim (Option-cases (Map.find i c.cached_objects)) [
  | inl e ↦ rw (e, Cache.touch) (SameCounts-objects c c refl refl)
  | inr (o, e) ↦ rw (e, Cache.touch) (put-SameCounts c _ i o _ e refl refl refl refl)
]

pub touch-SetCounts : (os : Os) (s : FileCacheSet) (i : ℕ) → SetCounts s (State.touch os s i).1
unfolding State.touch
touch-SetCounts os s i =
    let name = get_type_for_object_id s i in
    elim (Bool-cases (is_empty name)) [
      | inl b ↦ rw (b) (SetCounts-refl s)
      | inr b ↦ elim (Option-cases (get_file_cache_for_type s name)) [
        | inl e ↦ rw (b, e) (SetCounts-refl s)
        | inr (c, e) ↦ rw (b, e) (with_cache-SetCounts s name c _ e (touch-SameCounts os c i))
      ]
    ]

resize-count :
    (os : Os) (pl : Object.Place) (o : CacheObject) (new_size : ℕ)
    → ((Object.resize os pl o new_size).1.id ≡ o.id)
      × ((Object.resize os pl o new_size).1.subscription_count ≡ o.subscription_count)
unfolding Object.resize
resize-count os pl o new_size = (ground arith, ground arith)

pub store_resized-objects :
    (c : FileCache) (i size : ℕ) (o : CacheObject)
    → (Cache.store_resized c i size o).cached_objects ≡ Map.put i o c.cached_objects
unfolding Cache.store_resized
store_resized-objects c i size o = ground arith

pub store_resized-cache_type :
    (c : FileCache) (i size : ℕ) (o : CacheObject)
    → (Cache.store_resized c i size o).cache_type ≡ c.cache_type
unfolding Cache.store_resized
store_resized-cache_type c i size o = ground arith

resize_found-SameCounts :
    (os : Os) (base : Bytes) (c : FileCache) (i : ℕ) (o : CacheObject) (new_size : ℕ)
    → Map.find i c.cached_objects ≡ some o
    → SameCounts c (Cache.resize_found os base c i o new_size).1
unfolding Cache.resize_found
resize_found-SameCounts os base c i o new_size e =
    let o' = (Object.resize os (Cache.place_of base c) o new_size).1 in
    let (id, count) = resize-count os (Cache.place_of base c) o new_size in
    put-SameCounts c _ i o o' e id count (store_resized-objects c i o.size o')
      (store_resized-cache_type c i o.size o')

-- A result with a set, if there is one.
abbrev pub Kept {ℓ} : {A : Type ℓ} → FileCacheSet → Option (A × FileCacheSet) → Type 0
Kept s none = Unit
Kept s (some r) = SetCounts s r.1

Kept-trans {ℓ} :
    {A : Type ℓ} {s t : FileCacheSet} (r : Option (A × FileCacheSet))
    → SetCounts s t
    → Kept t r
    → Kept s r
Kept-trans none h k = tt
Kept-trans (some r) h k = SetCounts-trans h k

resize_in_room-Kept :
    (os : Os) (s : FileCacheSet) (name : Bytes) (i new_size : ℕ)
    → Kept s (resize_in_room os s name i new_size)
unfolding resize_in_room
resize_in_room-Kept os s name i new_size = elim (Option-cases (get_file_cache_for_type s name)) [
  | inl e ↦ rw (e, resize_in_room) tt
  | inr (c, e) ↦ elim (Option-cases (Map.find i c.cached_objects)) [
    | inl f ↦ rw (e, resize_in_room, f) tt
    | inr (o, f) ↦
        rw (e, resize_in_room, f)
          (with_cache-SetCounts s name c _ e
            (resize_found-SameCounts os s.base_dir_name c i o new_size f))
  ]
]

resize_in-Kept :
    (os : Os) (s : FileCacheSet) (name : Bytes) (c : FileCache) (i new_size : ℕ)
    → Kept s (resize_in os s name c i new_size)
unfolding resize_in
resize_in-Kept os s name c i new_size = elim (Option-cases (Map.find i c.cached_objects)) [
  | inl f ↦ rw (f, resize_in) (SetCounts-refl s)
  | inr (o, f) ↦
      let needed = sub32 (get_filesystem_file_size new_size) (get_filesystem_file_size o.size) in
      let room = CleansSet-SetCounts (make_room-CleansSet os s name c needed) in
      elim (Bool-cases (has_room (make_room os s name c needed) name needed)) [
        | inl b ↦
            rw (f, resize_in, b) (Kept-trans _ room (resize_in_room-Kept os _ name i new_size))
        | inr b ↦ rw (f, resize_in, b) room
      ]
]

pub resize-Kept : (os : Os) (s : FileCacheSet) (i new_size : ℕ) → Kept s (resize os s i new_size)
unfolding resize
resize-Kept os s i new_size =
    let name = get_type_for_object_id s i in
    elim (Bool-cases (is_empty name)) [
      | inl b ↦ rw (b) (SetCounts-refl s)
      | inr b ↦ elim (Option-cases (get_file_cache_for_type s name)) [
        | inl e ↦ rw (b, e) (SetCounts-refl s)
        | inr (c, e) ↦ rw (b, e) (resize_in-Kept os s name c i new_size)
      ]
    ]

-- The configuration of a cache leaves its objects.
configure-SameCounts :
    (os : Os) (base : Bytes) (avail : ℕ) (file : Option Entries) (c : FileCache)
    (p : CacheParamValues) (dir_type : Bool)
    → SameCounts c (configure os base avail file c (some p) dir_type).1
unfolding configure
configure-SameCounts os base avail file c p dir_type =
    SameCounts-objects c _ (ground arith) (ground arith)

pub change_type-SetCounts :
    (os : Os) (s : FileCacheSet) (name : Bytes) (file : Option Entries) (p : CacheParamValues)
    → SetCounts s (change_type os s name file p).set
unfolding change_type
change_type-SetCounts os s name file p = elim (Option-cases (get_file_cache_for_type s name)) [
  | inl e ↦ rw (e, change_type) (SetCounts-refl s)
  | inr (c, e) ↦
      rw (e, change_type)
        (with_cache-SetCounts s name c _ e
          (configure-SameCounts os s.base_dir_name (avail_for_type s) file c p false))
]
