-- ===== src/CacheSet/Room.antt =====
-- What runs after room was made: `InsertCacheObject` (src/FileCacheSet.cpp) and `Resize`
-- (src/FileCache.cpp).
use filecache.Base.{
  ℕ, ◌≡◌, ◌<◌, refl, ◌∙◌, sym, inl, inr, true, Option, none, some, arith, if◌then◌else◌, List,
  Bool-cases, Bytes,
}
use filecache.Base.Word.{sub32}
use filecache.Base.Map
use filecache.Base.Map.{Map, ℕ_key, bytes_key}
use filecache.BlockSize.{get_filesystem_file_size}
use filecache.Os.{Os}
use filecache.Object.{CacheObject, Message}
use filecache.Cache
use filecache.Cache.{FileCache, contains, remove_first}
use filecache.Cache.Cleans.{is_pinned, Cleans}
use filecache.Config.{describe}
use filecache.CacheSet.State.{FileCacheSet, get_file_cache_for_type, with_cache, check_for_size}
use filecache.CacheSet.Cleanup.{cleanup}
use filecache.CacheSet.Objects.{
  Request, insert_new, insert_cache_object, with_defaults, make_room, has_room, resize_in,
  resize_in_room,
}
use filecache.CacheSet.Cleans.{CleansAt, CleansSet, CleansSet-refl, cleanup-CleansSet}

-- A cache that was there before the cleanup is there after it.
found-CleansAt :
    (c : FileCache) (o' : Option FileCache)
    → CleansAt (some c) o'
    → (c' : FileCache) × (o' ≡ some c') × Cleans c c'
found-CleansAt c none h = absurd h
found-CleansAt c (some c') h = (c', refl, h)

pub found-CleansSet :
    (s s' : FileCacheSet) (name : Bytes) (c : FileCache)
    → CleansSet s s'
    → get_file_cache_for_type s name ≡ some c
    → (c' : FileCache) × (get_file_cache_for_type s' name ≡ some c') × Cleans c c'
found-CleansSet s s' name c h e =
    found-CleansAt c (get_file_cache_for_type s' name) (rw (← e) (h.caches name))

pub make_room-CleansSet :
    (os : Os) (s : FileCacheSet) (name : Bytes) (c : FileCache) (size : ℕ)
    → CleansSet s (make_room os s name c size)
unfolding make_room
make_room-CleansSet os s name c size = elim (Bool-cases (check_for_size s c size)) [
  | inl b ↦ rw (b, make_room) (CleansSet-refl s)
  | inr b ↦ rw (b, make_room) (cleanup-CleansSet os s name size)
]

resize_in_room-defined :
    (os : Os) (s : FileCacheSet) (name : Bytes) (c : FileCache) (obj_id : ℕ) (o : CacheObject)
    (new_size : ℕ)
    → get_file_cache_for_type s name ≡ some c
    → Map.find obj_id c.cached_objects ≡ some o
    → (size : ℕ) × (s' : FileCacheSet) × (resize_in_room os s name obj_id new_size
        ≡ some (size, s'))
unfolding resize_in_room
resize_in_room-defined os s name c obj_id o new_size e f =
    let (size, c') = Cache.resize_found os s.base_dir_name c obj_id o new_size in
    (size, with_cache s name c', rw (e, resize_in_room, f) refl)

resize_in-found :
    (os : Os) (s : FileCacheSet) (name : Bytes) (c : FileCache) (obj_id : ℕ) (o : CacheObject)
    (new_size : ℕ)
    → Map.find obj_id c.cached_objects ≡ some o
    → let needed = sub32 (get_filesystem_file_size new_size) (get_filesystem_file_size o.size) in
      let s' = make_room os s name c needed in
      resize_in os s name c obj_id new_size ≡ (
        if has_room s' name needed then resize_in_room os s' name obj_id new_size else some (0, s'))
unfolding resize_in
resize_in-found os s name c obj_id o new_size f = rw (f, resize_in) refl

-- `CFileCache::Resize` of an object that its cache holds with a positive subscription count
-- never goes on with a deleted object: it ends with a size and a set, also where it has to make
-- room.
pub resize_in-defined :
    (os : Os) (s : FileCacheSet) (name : Bytes) (c : FileCache) (obj_id : ℕ) (o : CacheObject)
    (new_size : ℕ)
    → get_file_cache_for_type s name ≡ some c
    → Map.find obj_id c.cached_objects ≡ some o
    → is_pinned o ≡ true
    → (size : ℕ) × (s' : FileCacheSet) × (resize_in os s name c obj_id new_size ≡ some (size, s'))
unfolding resize_in
resize_in-defined os s name c obj_id o new_size e f p =
    let needed = sub32 (get_filesystem_file_size new_size) (get_filesystem_file_size o.size) in
    let s' = make_room os s name c needed in
    let (c', e', cleans) = found-CleansSet s s' name c (make_room-CleansSet os s name c needed) e in
    let (o', f', same) = cleans.pinned obj_id o f p in
    let (size, s'', done) = resize_in_room-defined os s' name c' obj_id o' new_size e' f' in
    elim (Bool-cases (has_room s' name needed)) [
      | inl b ↦ (size, s'', resize_in-found os s name c obj_id o new_size f ∙ rw (b) done)
      | inr b ↦ (0, s', resize_in-found os s name c obj_id o new_size f ∙ rw (b) refl)
    ]

has_room-true :
    (s : FileCacheSet) (name : Bytes) (c : FileCache) (size : ℕ)
    → get_file_cache_for_type s name ≡ some c
    → has_room s name size ≡ true
    → check_for_size s c size ≡ true
unfolding has_room
has_room-true s name c size e h = rw (e, has_room) at h

pub insert_cache_object-made :
    (os : Os) (rand_vals : List ℕ) (s : FileCacheSet) (name : Bytes) (c : FileCache) (r : Request)
    → get_file_cache_for_type s name ≡ some c
    → let r' = with_defaults (describe c) r in
      let s' = make_room os s name c (get_filesystem_file_size r'.size) in
      insert_cache_object os rand_vals s name r ≡ (
        if has_room s' name (get_filesystem_file_size r'.size)
        then insert_new os rand_vals s' name r'
        else some (0, Message.no_space, s'))
unfolding insert_cache_object
insert_cache_object-made os rand_vals s name c r e = rw (e, insert_cache_object) refl

-- Where `InsertCacheObject` of an existing type gives a positive id: there is a set in which
-- `CheckForSize` accepts the space on disk of the size asked for (the default of the type where 0
-- is asked for), and the id and the final set are those of the insertion with a new id into that
-- set. It is the set before where `CheckForSize` accepts the space there, and the one that
-- `Cleanup` makes of it otherwise; either way it has the sequence of the set before and every
-- subscribed object, and an id map without double ids has lost ids at most.
pub insert_cache_object_inserted :
    (os : Os) (rand_vals : List ℕ) (s : FileCacheSet) (name : Bytes) (c : FileCache) (r : Request)
    (obj_id : ℕ) (msg : Message) (s'' : FileCacheSet)
    → get_file_cache_for_type s name ≡ some c
    → insert_cache_object os rand_vals s name r ≡ some (obj_id, msg, s'')
    → 0 < obj_id
    → let r' = with_defaults (describe c) r in
      let size = get_filesystem_file_size r'.size in
      (s' : FileCacheSet) × (c' : FileCache) × (s'
        ≡ (if check_for_size s c size then s else cleanup os s name size))
      × CleansSet s s'
      × (get_file_cache_for_type s' name ≡ some c')
      × (check_for_size s' c' size ≡ true)
      × (insert_new os rand_vals s' name r' ≡ some (obj_id, msg, s''))
unfolding make_room
insert_cache_object_inserted os rand_vals s name c r obj_id msg s'' e f g =
    let size = get_filesystem_file_size (with_defaults (describe c) r).size in
    let s' = make_room os s name c size in
    let cleans = make_room-CleansSet os s name c size in
    let (c', e', _) = found-CleansSet s s' name c cleans e in
    let made = sym (insert_cache_object-made os rand_vals s name c r e) ∙ f in
    elim (Bool-cases (has_room s' name size)) [
      | inl b ↦ (s', c', refl, cleans, e', has_room-true s' name c' size e' b, rw (b) at made)
      | inr b ↦ absurd (ground (arith, rw (b) at made))
    ]
