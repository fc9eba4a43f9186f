-- ===== src/CacheSet/Cleans.antt =====
-- What the cleanup may do to the whole set of caches (src/FileCacheSet.cpp): no object with a
-- subscription leaves its cache, and the counters stay right.
use filecache.Base.{
  ℕ, zero, suc, ◌+◌, ◌⊎◌, ◌==◌, arith, ◌≡◌, refl, ◌∙◌, inl, inr, Option, none, some, Bool-cases,
  Option-cases, List-cases, Bytes,
}
use filecache.Base.Word.{sub32, lt32, is_negative}
use filecache.Base.Map
use filecache.Base.Map.{Map, bytes_key, ℕ_key, bytes_eq, bytes_eq_iff}
use filecache.BlockSize.{get_filesystem_file_size}
use filecache.ObjectId.{is_empty}
use filecache.Os.{Os}
use filecache.Cache
use filecache.Cache.{FileCache}
use filecache.Cache.Cleans.{
  Cleans, Cleans-refl, Cleans-trans, list-Cleans, length-pop_back_le, expire-Cleans,
}
use filecache.CacheSet.State.{
  FileCacheSet, get_file_cache_for_type, with_cache, sum_of_cache_sizes, avail_space,
  get_type_for_object_id, expire_cache_object, remove_object_from_id_map,
}
use filecache.CacheSet.Cleanup.{
  Candidate, Cleaning, cleanup_cache, cleanup_loop, clean_loop, clean_candidate, cleanup_all_types,
  cleanup, cleanup_at_startup, cleaning_start, expire_last, select_candidate_to_expire, is_over,
  list_length,
}

abbrev pub CleansAt : Option FileCache → Option FileCache → Type 0
CleansAt none none = Unit
CleansAt none (some c') = ⊥
CleansAt (some c) none = ⊥
CleansAt (some c) (some c') = Cleans c c'

-- Ids may leave the id map, and no other id changes its type.
abbrev pub FewerIds : Map ℕ Bytes → Map ℕ Bytes → Type 0
FewerIds m m' =
    Map.IsDistinct m
    → Map.IsDistinct m' × ((i : ℕ) → (Map.find i m' ≡ none) ⊎ (Map.find i m' ≡ Map.find i m))

FewerIds-trans : (m m' m'' : Map ℕ Bytes) → FewerIds m m' → FewerIds m' m'' → FewerIds m m''
FewerIds-trans m m' m'' h k d =
    let (d', left) = h d in
    let (d'', left') = k d' in
    (
      d'',
      λ i. elim (left' i) [
        | inl e ↦ inl e
        | inr e ↦ elim (left i) [ inl f ↦ inl (e ∙ f) | inr f ↦ inr (e ∙ f) ]
      ],
    )

erase-FewerIds : (obj_id : ℕ) (m : Map ℕ Bytes) → FewerIds m (Map.erase obj_id m)
erase-FewerIds obj_id m d = (
  Map.erase-IsDistinct obj_id m d,
  λ i. elim (Bool-cases (obj_id == i)) [
    | inl b ↦ inl (ground (arith, Map.find-erase_self obj_id m d))
    | inr b ↦ inr (Map.find-erase_ne obj_id i m b)
  ],
)

pub record CleansSet (s s' : FileCacheSet) : Type 0 where
  pub caches :
      (name : Bytes) → CleansAt (get_file_cache_for_type s name) (get_file_cache_for_type s' name)
  pub total_cache_space : s'.total_cache_space ≡ s.total_cache_space
  pub base_dir_name : s'.base_dir_name ≡ s.base_dir_name
  pub sequence : s'.sequence ≡ s.sequence
  pub ids : FewerIds s.id_map s'.id_map
  pub keys : Map.IsDistinct s.cache_set → Map.IsDistinct s'.cache_set

CleansAt-refl : (o : Option FileCache) → CleansAt o o
CleansAt-refl none = tt
CleansAt-refl (some c) = Cleans-refl c

CleansAt-trans : (o o' o'' : Option FileCache) → CleansAt o o' → CleansAt o' o'' → CleansAt o o''
CleansAt-trans none none none h k = tt
CleansAt-trans none none (some c) h k = absurd k
CleansAt-trans none (some c) o'' h k = absurd h
CleansAt-trans (some c) none o'' h k = absurd h
CleansAt-trans (some c) (some c') none h k = absurd k
CleansAt-trans (some c) (some c') (some c'') h k = Cleans-trans h k

pub CleansSet-refl : (s : FileCacheSet) → CleansSet s s
CleansSet-refl s = record {
  caches = λ name. CleansAt-refl (get_file_cache_for_type s name);
  total_cache_space = refl;
  base_dir_name = refl;
  keys = λ d. d;
  sequence = refl;
  ids = λ d. (d, λ i. inr refl);
}

pub CleansSet-trans : {s t u : FileCacheSet} → CleansSet s t → CleansSet t u → CleansSet s u
CleansSet-trans {s} {t} {u} h k = record {
  caches = λ name.
      CleansAt-trans (get_file_cache_for_type s name) (get_file_cache_for_type t name)
        (get_file_cache_for_type u name) (h.caches name) (k.caches name);
  total_cache_space = k.total_cache_space ∙ h.total_cache_space;
  base_dir_name = k.base_dir_name ∙ h.base_dir_name;
  keys = λ d. k.keys (h.keys d);
  sequence = k.sequence ∙ h.sequence;
  ids = FewerIds-trans s.id_map t.id_map u.id_map h.ids k.ids;
}

put-CleansAt :
    (name other : Bytes) (c c' : FileCache) (m : Map Bytes FileCache)
    → Map.find name m ≡ some c
    → Cleans c c'
    → CleansAt (Map.find other m) (Map.find other (Map.put name c' m))
put-CleansAt name other c c' m e h = elim (Bool-cases (bytes_key.beq name other)) [
  | inl b ↦ rw (Map.find-put name other c' m, b, e, ← (bytes_key.beq_iff name other).0 b, e) h
  | inr b ↦ rw (Map.find-put name other c' m, b) (CleansAt-refl (Map.find other m))
]

-- A cache that was cleaned takes the place of its former self.
pub with_cache-CleansSet :
    (s : FileCacheSet) (name : Bytes) (c c' : FileCache)
    → get_file_cache_for_type s name ≡ some c
    → Cleans c c'
    → CleansSet s (with_cache s name c')
with_cache-CleansSet s name c c' e h = record {
  caches = λ other. put-CleansAt name other c c' s.cache_set e h;
  total_cache_space = refl;
  base_dir_name = refl;
  keys = λ d. Map.put-IsDistinct name c' s.cache_set d;
  sequence = refl;
  ids = λ d. (d, λ i. inr refl);
}

pub expire_cache_object-CleansSet :
    (os : Os) (s : FileCacheSet) (obj_id : ℕ) → CleansSet s (expire_cache_object os s obj_id).1
unfolding expire_cache_object remove_object_from_id_map
expire_cache_object-CleansSet os s obj_id =
    let name = get_type_for_object_id s obj_id in
    elim (Bool-cases (is_empty name)) [
      | inl b ↦ rw (b) (CleansSet-refl s)
      | inr b ↦ elim (Option-cases (get_file_cache_for_type s name)) [
        | inl e ↦ rw (b, e) (CleansSet-refl s)
        | inr (c, e) ↦
            rw (b, e)
              (let w =
                  with_cache-CleansSet s name c (Cache.expire os s.base_dir_name c obj_id).1 e
                    (expire-Cleans os s.base_dir_name c obj_id) in
                record {
                  caches = w.caches;
                  total_cache_space = refl;
                  base_dir_name = refl;
                  keys = w.keys;
                  sequence = refl;
                  ids = erase-FewerIds obj_id s.id_map;
                })
      ]
    ]

expire_last-CleansSet :
    (os : Os) (s : FileCacheSet) (name : Bytes) (c : FileCache)
    → get_file_cache_for_type s name ≡ some c
    → CleansSet s (expire_last os s name c).2
unfolding expire_last
expire_last-CleansSet os s name c e =
    CleansSet-trans
      (with_cache-CleansSet s name c _ e
        (list-Cleans c (Cache.pop_back c.cache_list) (length-pop_back_le c.cache_list)))
      (expire_cache_object-CleansSet os _ (Cache.back c.cache_list))

cleanup_cache_found :
    (os : Os) (fuel : ℕ) (s : FileCacheSet) (name : Bytes) (c : FileCache)
    → get_file_cache_for_type s name ≡ some c
    → ((t : FileCacheSet) → CleansSet t (cleanup_cache os fuel t name).1)
    → CleansSet s (cleanup_cache os (suc fuel) s name).1
unfolding cleanup_cache
cleanup_cache_found os fuel s name c e ih =
    let h = expire_last-CleansSet os s name c e in
    elim (List-cases c.cache_list) [
      | inl l ↦ rw (e, cleanup_cache, l) (CleansSet-refl s)
      | inr (i, is, l) ↦ elim (Bool-cases (expire_last os s name c).0) [
        | inl b ↦ rw (e, cleanup_cache, l, b) h
        | inr b ↦ rw (e, cleanup_cache, l, b) (CleansSet-trans h (ih _))
      ]
    ]

pub cleanup_cache-CleansSet :
    (os : Os) (fuel : ℕ) (s : FileCacheSet) (name : Bytes)
    → CleansSet s (cleanup_cache os fuel s name).1
unfolding cleanup_cache
cleanup_cache-CleansSet os zero s name = CleansSet-refl s
cleanup_cache-CleansSet os (suc fuel) s name =
    elim (Option-cases (get_file_cache_for_type s name)) [
      | inl e ↦ rw (e, cleanup_cache) (CleansSet-refl s)
      | inr (c, e) ↦
          cleanup_cache_found os fuel s name c e (λ t. cleanup_cache-CleansSet os fuel t name)
    ]

cleanup_loop-CleansSet :
    (os : Os) (fuel : ℕ) (s : FileCacheSet) (name : Bytes) (size : ℕ)
    → CleansSet s (cleanup_loop os fuel s name size)
unfolding cleanup_loop
cleanup_loop-CleansSet os zero s name size = CleansSet-refl s
cleanup_loop-CleansSet os (suc fuel) s name size =
    let h = cleanup_cache-CleansSet os (list_length s name) s name in
    elim (Bool-cases (is_over s name size)) [
      | inr b ↦ rw (b) (CleansSet-refl s)
      | inl b ↦ elim (Bool-cases (is_negative (cleanup_cache os (list_length s name) s name).0)) [
        | inl n ↦ rw (b, n) h
        | inr n ↦ rw (b, n) (CleansSet-trans h (cleanup_loop-CleansSet os fuel _ name size))
      ]
    ]

clean_candidate-CleansSet :
    (os : Os) (needed_size address : ℕ) (e : Candidate) (l : Cleaning)
    → CleansSet l.set (clean_candidate os needed_size address e l).set
unfolding clean_candidate
clean_candidate-CleansSet os needed_size address e l =
    expire_cache_object-CleansSet os l.set e.obj_id

clean_loop-CleansSet :
    (os : Os) (fuel needed_size : ℕ) (l : Cleaning)
    → CleansSet l.set (clean_loop os fuel needed_size l).set
unfolding clean_loop
clean_loop-CleansSet os zero needed_size l = CleansSet-refl l.set
clean_loop-CleansSet os (suc fuel) needed_size l =
    elim (Option-cases (select_candidate_to_expire os l.set l.cleanup_map)) [
      | inl e ↦ rw (e, clean_loop) (CleansSet-refl l.set)
      | inr ((address, e), f) ↦ elim (Bool-cases (lt32 l.cleaned_size needed_size)) [
        | inl b ↦
            rw (f, clean_loop, b)
              (CleansSet-trans (clean_candidate-CleansSet os needed_size address e l)
                (clean_loop-CleansSet os fuel needed_size _))
        | inr b ↦ rw (f, clean_loop, b) (CleansSet-refl l.set)
      ]
    ]

pub cleanup_all_types-CleansSet :
    (os : Os) (s : FileCacheSet) (needed : ℕ) → CleansSet s (cleanup_all_types os s needed).1
unfolding cleanup_all_types cleaning_start
cleanup_all_types-CleansSet os s needed =
    clean_loop-CleansSet os _ (get_filesystem_file_size needed) (cleaning_start s)

-- `CFileCache::Cleanup` of a type, for any set, type, size and answers of the system: each cache
-- is there after it if and only if it was there before, keeps its type, watermarks, defaults and
-- directory flag, and its list grows no longer; an object whose subscription count is positive
-- stays in its cache with its id, count, size and written flag; counters that agreed with the
-- objects still do; the total space, the base directory and the sequence stay; and an id map
-- without double ids loses ids at most.
pub cleanup-CleansSet :
    (os : Os) (s : FileCacheSet) (name : Bytes) (size : ℕ) → CleansSet s (cleanup os s name size)
unfolding cleanup
cleanup-CleansSet os s name size =
    let first = cleanup_loop-CleansSet os (list_length s name + 1) s name size in
    let s' = cleanup_loop os (list_length s name + 1) s name size in
    let hi : ℕ = elim (get_file_cache_for_type s name) [ none ↦ 0 | some c ↦ c.hi_watermark ] in
    elim (Bool-cases (lt32 size hi)) [
      | inr b ↦ rw (b) (CleansSet-refl s)
      | inl b ↦ elim (Bool-cases (lt32 (avail_space s') size)) [
        | inl l ↦ rw (b, l) (CleansSet-trans first (cleanup_all_types-CleansSet os s' _))
        | inr l ↦ rw (b, l) first
      ]
    ]

-- So does the cleanup at the start of the service.
pub cleanup_at_startup-CleansSet :
    (os : Os) (s : FileCacheSet) → CleansSet s (cleanup_at_startup os s)
unfolding cleanup_at_startup
cleanup_at_startup-CleansSet os s =
    let over_run = sub32 (sum_of_cache_sizes s) s.total_cache_space in
    elim (Bool-cases (lt32 s.total_cache_space (sum_of_cache_sizes s))) [
      | inl b ↦ rw (b) (cleanup_all_types-CleansSet os s over_run)
      | inr b ↦ rw (b) (CleansSet-refl s)
    ]
