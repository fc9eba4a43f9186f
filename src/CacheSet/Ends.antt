-- ===== src/CacheSet/Ends.antt =====
-- The loops that make room end: the fuel that they are given is enough.
use filecache.Base.{
  ℕ, zero, suc, ◌≡◌, ◌≤◌, ◌<◌, refl, ap, ◌∙◌, sym, ◌⊎◌, inl, inr, Option, none, some, List, [], ◌∷◌,
  arith, if◌then◌else◌, Bool-cases, Option-cases, List-cases, Bytes, length,
}
use filecache.Base.Word.{is_negative, minus_one}
use filecache.Base.Map
use filecache.Base.Map.{Map, bytes_key, ℕ_key}
use filecache.Os.{Os}
use filecache.Cache
use filecache.Cache.{FileCache}
use filecache.Cache.Cleans.{length-pop_back}
use filecache.CacheSet.State.{FileCacheSet, get_file_cache_for_type, with_cache}
use filecache.CacheSet.Cleanup.{
  cleanup_cache, cleanup_loop, expire_last, is_over, list_length, list_entries,
}
use filecache.CacheSet.Cleans.{
  CleansAt, CleansSet, expire_cache_object-CleansSet, cleanup_cache-CleansSet,
}

list_entries-CleansAt : (o o' : Option FileCache) → CleansAt o o' → list_entries o' ≤ list_entries o
list_entries-CleansAt none none h = omega arith
list_entries-CleansAt none (some c) h = absurd h
list_entries-CleansAt (some c) none h = absurd h
list_entries-CleansAt (some c) (some c') h = h.shorter

-- No cleanup makes a list longer.
list_length-CleansSet :
    {s s' : FileCacheSet} (name : Bytes) → CleansSet s s' → list_length s' name ≤ list_length s name
list_length-CleansSet {s} {s'} name h =
    list_entries-CleansAt (get_file_cache_for_type s name) (get_file_cache_for_type s' name)
      (h.caches name)

list_length-expire_last :
    (os : Os) (s : FileCacheSet) (name : Bytes) (c : FileCache) (i : ℕ) (is : List ℕ)
    → get_file_cache_for_type s name ≡ some c
    → c.cache_list ≡ i ∷ is
    → list_length (expire_last os s name c).2 name < list_length s name
unfolding expire_last
list_length-expire_last os s name c i is e l =
    let popped = with_cache s name (record c { cache_list = Cache.pop_back c.cache_list }) in
    let h =
      list_length-CleansSet name
        (expire_cache_object-CleansSet os popped (Cache.back c.cache_list)) in
    ground (
      arith,
      h,
      ap list_entries (
          Map.find-put name name (record c { cache_list = Cache.pop_back c.cache_list })
            s.cache_set),
      bytes_key.beq_iff name name,
      ap list_entries e,
      length-pop_back i is,
      ap (λ x. length (Cache.pop_back x)) l,
      ap length l,
    )

-- What `cleanup_cache` does for a type whose list has objects, and for one whose list has none.
Busy : FileCacheSet → Bytes → Type 0
Busy s name =
    (c : FileCache) × (get_file_cache_for_type s name ≡ some c)
    × (i : ℕ) × (is : List ℕ) × (c.cache_list ≡ i ∷ is)

list_length-cases : (s : FileCacheSet) (name : Bytes) → (list_length s name ≡ 0) ⊎ Busy s name
unfolding Busy
list_length-cases s name = elim (Option-cases (get_file_cache_for_type s name)) [
  | inl e ↦ inl (ap list_entries e)
  | inr (c, e) ↦ elim (List-cases c.cache_list) [
    | inl l ↦ inl (ap list_entries e ∙ ap length l)
    | inr (i, is, l) ↦ inr (c, e, i, is, l)
  ]
]

cleanup_cache_idle :
    (os : Os) (fuel : ℕ) (s : FileCacheSet) (name : Bytes)
    → list_length s name ≡ 0
    → cleanup_cache os fuel s name ≡ (minus_one, s)
unfolding cleanup_cache
cleanup_cache_idle os zero s name h = refl
cleanup_cache_idle os (suc fuel) s name h = elim (Option-cases (get_file_cache_for_type s name)) [
  | inl e ↦ rw (e, cleanup_cache) refl
  | inr (c, e) ↦ elim (List-cases c.cache_list) [
    | inl l ↦ rw (e, cleanup_cache, l) refl
    | inr (i, is, l) ↦ absurd (ground (arith, ap list_entries e, ap length l))
  ]
]

cleanup_cache_busy :
    (os : Os) (fuel : ℕ) (s : FileCacheSet) (name : Bytes) (c : FileCache) (i : ℕ) (is : List ℕ)
    → get_file_cache_for_type s name ≡ some c
    → c.cache_list ≡ i ∷ is
    → cleanup_cache os (suc fuel) s name ≡ (
        let (expired, size, s') = expire_last os s name c in
        if expired then (size, s') else cleanup_cache os fuel s' name)
unfolding cleanup_cache
cleanup_cache_busy os fuel s name c i is e l =
    let (expired, size, s') = expire_last os s name c in
    let found = if expired then (size, s') else cleanup_cache os fuel s' name in
    rw (e, cleanup_cache)
      (ap (λ list. elim list as (λ l. ℕ × FileCacheSet) [ [] ↦ (minus_one, s) | j ∷ js ↦ found ]) l)

-- The loop of `CleanupCache` ends within its fuel: where the fuel is at least the length of the
-- type's list, one more round of fuel changes nothing.
cleanup_cache_fuel :
    (os : Os) (fuel : ℕ) (s : FileCacheSet) (name : Bytes)
    → list_length s name ≤ fuel
    → cleanup_cache os (suc fuel) s name ≡ cleanup_cache os fuel s name
unfolding Busy
cleanup_cache_fuel os zero s name h =
    cleanup_cache_idle os 1 s name (omega arith)
    ∙ sym (cleanup_cache_idle os 0 s name (omega arith))
cleanup_cache_fuel os (suc fuel) s name h = elim (list_length-cases s name) [
  | inl z ↦ cleanup_cache_idle os _ s name z ∙ sym (cleanup_cache_idle os (suc fuel) s name z)
  | inr (c, e, i, is, l) ↦
      let (expired, size, s') = expire_last os s name c in
      let shorter = list_length-expire_last os s name c i is e l in
      let ih = cleanup_cache_fuel os fuel s' name (omega arith) in
      cleanup_cache_busy os (suc fuel) s name c i is e l
      ∙ ap (λ r. if expired then (size, s') else r) ih
      ∙ sym (cleanup_cache_busy os fuel s name c i is e l)
]

-- `CleanupCache` with fuel for the length of the type's list either gives -1 and leaves an
-- empty list, or leaves a shorter list.
pub cleanup_cache-progress :
    (os : Os) (fuel : ℕ) (s : FileCacheSet) (name : Bytes)
    → list_length s name ≤ fuel
    → let (freed, s') = cleanup_cache os fuel s name in
      ((freed ≡ minus_one) × (list_length s' name ≡ 0)) ⊎ (list_length s' name < list_length s name)
unfolding Busy
cleanup_cache-progress os zero s name h =
    rw (cleanup_cache_idle os 0 s name (omega arith)) (inl (refl, omega arith))
cleanup_cache-progress os (suc fuel) s name h = elim (list_length-cases s name) [
  | inl z ↦ rw (cleanup_cache_idle os (suc fuel) s name z) (inl (refl, z))
  | inr (c, e, i, is, l) ↦
      let shorter = list_length-expire_last os s name c i is e l in
      let rest =
        list_length-CleansSet name
          (cleanup_cache-CleansSet os fuel (expire_last os s name c).2 name) in
      elim (Bool-cases (expire_last os s name c).0) [
        | inl b ↦ rw (cleanup_cache_busy os fuel s name c i is e l, b) (inr shorter)
        | inr b ↦ rw (cleanup_cache_busy os fuel s name c i is e l, b) (inr (omega arith))
      ]
]

-- The loop of `Cleanup` ends within its fuel: where the fuel exceeds the length of the type's
-- list, one more round of fuel changes nothing.
pub cleanup_loop_fuel :
    (os : Os) (fuel : ℕ) (s : FileCacheSet) (name : Bytes) (size : ℕ)
    → list_length s name < fuel
    → cleanup_loop os (suc fuel) s name size ≡ cleanup_loop os fuel s name size
unfolding cleanup_loop
cleanup_loop_fuel os zero s name size h = absurd (omega arith)
cleanup_loop_fuel os (suc fuel) s name size h =
    let freed = cleanup_cache os (list_length s name) s name in
    elim (Bool-cases (is_over s name size)) [
      | inr b ↦ rw (b) refl
      | inl b ↦ elim (Bool-cases (is_negative freed.0)) [
        | inl n ↦ rw (b, n) refl
        | inr n ↦
            rw (b, n)
              (cleanup_loop_fuel os fuel freed.1 name size (
                ground
                  (arith, cleanup_cache-progress os (list_length s name) s name (omega arith))))
      ]
    ]
