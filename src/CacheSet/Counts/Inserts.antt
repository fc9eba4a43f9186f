-- ===== src/CacheSet/Counts/Inserts.antt =====
-- An insertion of src/FileCacheSet.cpp leaves every subscription count: the new object has none.
use filecache.Base.{
  ◌^◌, ℕ, ◌<◌, ◌≡◌, refl, inl, inr, true, false, Option, none, some, List, [], ◌∷◌, arith, ◌==◌,
  Bool-cases, Option-cases, Bytes, Bool,
}
use filecache.Base.Map
use filecache.Base.Map.{Map, ℕ_key, bytes_key}
use filecache.BlockSize.{get_filesystem_file_size}
use filecache.Os.{Os}
use filecache.Object
use filecache.Object.{CacheObject, Message}
use filecache.Cache
use filecache.Cache.{FileCache}
use filecache.Cache.Counts.{count_of, count_at, SameCounts, SameCounts-objects, place-IsTidy}
use filecache.Sequence.{Sequence, get_next_cached_object_id, advance, make_id, is_valid_id}
use filecache.Config.{describe}
use filecache.CacheSet.State.{FileCacheSet, get_file_cache_for_type}
use filecache.CacheSet.Objects.{
  Request, insert_with_id, insert_new, insert_cache_object, with_defaults, make_room, has_room,
}
use filecache.CacheSet.Room.{make_room-CleansSet}
use filecache.CacheSet.Counts.{
  SetCounts, SetCounts-refl, SetCounts-trans, CleansSet-SetCounts, with_cache-SetCounts,
}

-- A new object has no subscription; an object that is there keeps its own.
insert-SameCounts :
    (c : FileCache) (o : CacheObject) → o.subscription_count ≡ 0 → SameCounts c (Cache.insert c o).1
unfolding Cache.insert Map.insert
insert-SameCounts c o z = elim (Option-cases (Map.find o.id c.cached_objects)) [
  | inr (x, e) ↦ SameCounts-objects c (Cache.insert c o).1 (rw (e, Map.insert) refl) refl
  | inl e ↦
      let objects : (Cache.insert c o).1.cached_objects ≡ Map.place o.id o c.cached_objects =
        rw (e, Map.insert) refl in
      record {
        kind = refl;
        distinct = λ d. rw (objects) (place-IsTidy o c.cached_objects e d);
        same = λ d j b. rw (objects) (placed e j);
      }
]
  where
    placed :
        Map.find o.id c.cached_objects ≡ none
        → (j : ℕ) → count_of (Map.find j (Map.place o.id o c.cached_objects)) ≡ count_at c j
    placed e j = elim (Bool-cases (o.id == j)) [
      | inl b ↦ ground (arith, Map.find-place o.id j o c.cached_objects e, z, e)
      | inr b ↦ ground (arith, Map.find-place o.id j o c.cached_objects e)
    ]

-- The map of ids and the sequence have no part in the counts.
pub caches-SetCounts :
    (s s' : FileCacheSet)
    → s'.cache_set ≡ s.cache_set
    → s'.base_dir_name ≡ s.base_dir_name
    → SetCounts s s'
caches-SetCounts s s' e b = record {
  base = b;
  distinct = λ d. record { keys = rw (e) d.keys; objects = λ name. rw (e) (d.objects name) };
  same = λ d name i h. rw (e) refl;
}

pub insert_with_id-SetCounts :
    (os : Os) (s : FileCacheSet) (name : Bytes) (i : ℕ) (r : Request) (written is_new : Bool)
    → SetCounts s (insert_with_id os s name i r written is_new).2
unfolding insert_with_id Object.make
insert_with_id-SetCounts os s name i r written is_new =
    elim (Option-cases (get_file_cache_for_type s name)) [
      | inl e ↦ rw (e, insert_with_id) (SetCounts-refl s)
      | inr (c, e) ↦
          let o = Object.make os i r.filename r.size r.cost r.lifetime written c.dir_type in
          let inserted =
            with_cache-SetCounts s name c (Cache.insert c o).1 e (insert-SameCounts c o refl) in
          elim (Bool-cases (Object.initialize os (Cache.place_of s.base_dir_name c) o is_new)) [
            | inl b ↦
                rw (e, insert_with_id, b)
                  (SetCounts-trans inserted (caches-SetCounts _ _ refl refl))
            | inr b ↦ rw (e, insert_with_id, b) (SetCounts-refl s)
          ]
    ]

insert_with_id_bound :
    (os : Os) (s : FileCacheSet) (name : Bytes) (i : ℕ) (r : Request) (written is_new : Bool)
    → i < 2 ^ 54
    → (insert_with_id os s name i r written is_new).0 < 2 ^ 54
unfolding insert_with_id
insert_with_id_bound os s name i r written is_new h = ground arith

-- An id is valid.
abbrev Valid : Option (ℕ × List ℕ × Sequence) → Type 0
Valid none = Unit
Valid (some r) = r.0 < 2 ^ 54

get_next_cached_object_id-Valid :
    (os : Os) (base : Bytes) (rand_vals : List ℕ) (q : Sequence)
    → Valid (get_next_cached_object_id os base rand_vals q)
unfolding get_next_cached_object_id
get_next_cached_object_id-Valid os base [] q = tt
get_next_cached_object_id-Valid os base (r ∷ rs) q =
    let again = get_next_cached_object_id-Valid os base rs (advance os base q) in
    elim (Bool-cases (is_valid_id (make_id r q.number))) [
      | inl b ↦ rw (b) (ground arith)
      | inr b ↦ rw (b) again
    ]

-- The id and the set of an insertion.
abbrev pub KeptMade : FileCacheSet → Option (ℕ × Message × FileCacheSet) → Type 0
KeptMade s none = Unit
KeptMade s (some r) = SetCounts s r.2 × (r.0 < 2 ^ 54)

KeptMade-trans :
    {s t : FileCacheSet} (r : Option (ℕ × Message × FileCacheSet))
    → SetCounts s t
    → KeptMade t r
    → KeptMade s r
KeptMade-trans none h k = tt
KeptMade-trans (some r) h k = (SetCounts-trans h k.0, k.1)

insert_new-KeptMade :
    (os : Os) (rand_vals : List ℕ) (s : FileCacheSet) (name : Bytes) (r : Request)
    → KeptMade s (insert_new os rand_vals s name r)
unfolding insert_new
insert_new-KeptMade os rand_vals s name r =
    elim (Option-cases (get_next_cached_object_id os s.base_dir_name rand_vals s.sequence)) [
      | inl e ↦ rw (e, insert_new) tt
      | inr ((i, rest, q), e) ↦
          let valid = get_next_cached_object_id-Valid os s.base_dir_name rand_vals s.sequence in
          let s' = record s { sequence = q } in
          rw (e, insert_new)
            (
              SetCounts-trans (caches-SetCounts s s' refl refl)
                  (insert_with_id-SetCounts os s' name i r false true),
              insert_with_id_bound os s' name i r false true (rw (e) at valid),
            )
    ]

pub insert_cache_object-KeptMade :
    (os : Os) (rand_vals : List ℕ) (s : FileCacheSet) (name : Bytes) (r : Request)
    → KeptMade s (insert_cache_object os rand_vals s name r)
unfolding insert_cache_object
insert_cache_object-KeptMade os rand_vals s name r =
    elim (Option-cases (get_file_cache_for_type s name)) [
      | inl e ↦ rw (e, insert_cache_object) (SetCounts-refl s, ground arith)
      | inr (c, e) ↦
          let size = get_filesystem_file_size (with_defaults (describe c) r).size in
          let s' = make_room os s name c size in
          let room = CleansSet-SetCounts (make_room-CleansSet os s name c size) in
          elim (Bool-cases (has_room s' name size)) [
            | inl b ↦
                rw (e, insert_cache_object, b)
                  (KeptMade-trans _ room
                    (insert_new-KeptMade os rand_vals s' name (with_defaults (describe c) r)))
            | inr b ↦ rw (e, insert_cache_object, b) (room, ground arith)
          ]
    ]
