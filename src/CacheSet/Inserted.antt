-- ===== src/CacheSet/Inserted.antt =====
-- `InsertCacheObject` of src/FileCacheSet.cpp where there is room without a cleanup: the object that
-- the set has then.
use mathlib.Core.Option.{none-ne-some}
use filecache.Base.{
  ℕ, ◌<◌, ◌≡◌, refl, ◌∙◌, sym, inl, inr, Bool, true, false, none, some, List, arith, ap, Bool-cases,
  Option-cases, Bytes,
}
use filecache.Base.Map
use filecache.Base.Map.{ℕ_key, bytes_key}
use filecache.BlockSize.{get_filesystem_file_size}
use filecache.ObjectId.{is_empty}
use filecache.Os.{Os}
use filecache.Object
use filecache.Object.{Message}
use filecache.Cache
use filecache.Cache.{FileCache}
use filecache.Config.{describe}
use filecache.Sequence.{Sequence, get_next_cached_object_id}
use filecache.CacheSet.State.{
  FileCacheSet, get_file_cache_for_type, check_for_size, get_type_for_object_id, cached_object_size,
  cached_object_filename,
}
use filecache.CacheSet.Objects.{
  Request, insert_with_id, insert_new, insert_cache_object, make_room, has_room, with_defaults,
}
use filecache.CacheSet.Room.{insert_cache_object-made}
use filecache.CacheSet.Filed.{insert_with_id-found}

-- The id that an insertion gives is the one it was asked to use, or 0.
insert_with_id-id :
    (os : Os) (s : FileCacheSet) (name : Bytes) (i : ℕ) (r : Request) (written is_new : Bool)
    → 0 < (insert_with_id os s name i r written is_new).0
    → (insert_with_id os s name i r written is_new).0 ≡ i
unfolding insert_with_id
insert_with_id-id os s name i r written is_new h =
    elim (Option-cases (get_file_cache_for_type s name)) [
      | inl e ↦
          let refused : (insert_with_id os s name i r written is_new).0 ≡ 0 =
            rw (e, insert_with_id) refl in
          absurd (omega arith)
      | inr (c, e) ↦
          let o = Object.make os i r.filename r.size r.cost r.lifetime written c.dir_type in
          elim (Bool-cases (Object.initialize os (Cache.place_of s.base_dir_name c) o is_new)) [
            | inl b ↦ rw (e, insert_with_id, b) refl
            | inr b ↦
                let refused : (insert_with_id os s name i r written is_new).0 ≡ 0 =
                  rw (e, insert_with_id, b) refl in
                absurd (omega arith)
          ]
    ]

value_of : {A : Type 0} (a b : A) → some a ≡ some b → a ≡ b
value_of a b h = cc

-- With room, the insertion leaves all but the sequence to the insertion under the new id.
insert_in_room :
    (os : Os) (rand_vals : List ℕ) (s : FileCacheSet) (name : Bytes) (c : FileCache) (r : Request)
    (i : ℕ) (msg : Message) (s' : FileCacheSet)
    → get_file_cache_for_type s name ≡ some c
    → let r' = with_defaults (describe c) r in
      check_for_size s c (get_filesystem_file_size r'.size) ≡ true
      → insert_cache_object os rand_vals s name r ≡ some (i, msg, s')
      → 0 < i
      → (q : Sequence) × (insert_with_id os (record s { sequence = q }) name i r' false true
          ≡ (i, msg, s'))
unfolding make_room has_room insert_new
insert_in_room os rand_vals s name c r i msg s' e room f z =
    let r' = with_defaults (describe c) r in
    let size = get_filesystem_file_size r'.size in
    let stays : make_room os s name c size ≡ s = rw (room, make_room) refl in
    let there : has_room s name size ≡ true = rw (e, has_room) room in
    let made =
      rw (stays, there) at (sym (insert_cache_object-made os rand_vals s name c r e) ∙ f) in
    elim (Option-cases (get_next_cached_object_id os s.base_dir_name rand_vals s.sequence)) [
      | inl g ↦ absurd (none-ne-some (i, msg, s') (rw (g, insert_new) at made))
      | inr ((j, rest, q), g) ↦
          let under_j = value_of _ _ (rw (g, insert_new) at made) in
          let given = ap (λ x. x.0) under_j in
          let same : i ≡ j =
            sym given
            ∙ insert_with_id-id os (record s { sequence = q }) name j r' false true
                (rw (given) z) in
          (q, rw (same) (rw (same) at under_j))
    ]

-- Where there is room in the cache of a named type, and neither the id map nor the cache has the new
-- id, the set answers for it with the type, the size and the file name.
pub insert_cache_object-found :
    (os : Os) (rand_vals : List ℕ) (s : FileCacheSet) (name : Bytes) (c : FileCache) (r : Request)
    (i : ℕ) (msg : Message) (s' : FileCacheSet)
    → get_file_cache_for_type s name ≡ some c
    → let r' = with_defaults (describe c) r in
      check_for_size s c (get_filesystem_file_size r'.size) ≡ true
      → insert_cache_object os rand_vals s name r ≡ some (i, msg, s')
      → 0 < i
      → is_empty name ≡ false
      → Map.find i s.id_map ≡ none
      → Map.find i c.cached_objects ≡ none
      → (get_type_for_object_id s' i ≡ name)
        × (cached_object_size s' i ≡ r'.size)
        × (cached_object_filename s' i ≡ r.filename)
insert_cache_object-found os rand_vals s name c r i msg s' e room f z n g k =
    let (q, made) = insert_in_room os rand_vals s name c r i msg s' e room f z in
    let found =
      insert_with_id-found os (record s { sequence = q }) name c i (with_defaults (describe c) r)
        false true e n g k z (ap (λ x. x.0) made) in
    rw (made) at found
