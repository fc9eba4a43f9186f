-- ===== src/CacheSet/Rounds.antt =====
-- The loop of `CleanupAllTypes` (src/FileCacheSet.cpp) ends: its fuel is enough.
use filecache.Base.{
  ℕ, zero, suc, ◌+◌, ◌-◌, ◌*◌, ◌%◌, ◌≡◌, ◌≤◌, ◌<◌, refl, ap, ◌∙◌, ◌⊎◌, inl, inr, true, false, none,
  arith, Bool-cases, Option-cases, length,
}
use filecache.Base.Word.{word_mod, sign_bit, lt32, minus_one}
use filecache.Base.Map
use filecache.Base.Map.{ℕ_key}
use filecache.BlockSize.{get_filesystem_file_size}
use filecache.ObjectId.{is_empty}
use filecache.Os.{Os}
use filecache.CacheSet.State.{
  FileCacheSet, get_file_cache_for_type, get_type_for_object_id, expire_cache_object,
  cached_object_size, remove_object_from_id_map,
}
use filecache.CacheSet.Cleanup.{
  Candidate, Cleaning, clean_candidate, clean_loop, select_candidate_to_expire, cleanup_all_types,
  cleaning_fuel, cleaning_start,
}

-- An id that is not in the map is said to be expired, with the size of an object that is not there.
Phantom : Os → FileCacheSet → ℕ → Type 0
Phantom os s obj_id =
    (expire_cache_object os s obj_id ≡ (true, s)) × (cached_object_size s obj_id ≡ minus_one)

erase-shorter :
    (s : FileCacheSet) (obj_id : ℕ)
    → is_empty (get_type_for_object_id s obj_id) ≡ false
    → length (Map.erase obj_id s.id_map) < length s.id_map
erase-shorter s obj_id b = elim (Option-cases (Map.find obj_id s.id_map)) [
  | inl e ↦ absurd (ground (arith, b, e))
  | inr (name, f) ↦ ground (arith, Map.length-erase obj_id name s.id_map f)
]

expire_cache_object-cases :
    (os : Os) (s : FileCacheSet) (obj_id : ℕ)
    → Phantom os s obj_id ⊎ (length (expire_cache_object os s obj_id).1.id_map < length s.id_map)
unfolding Phantom expire_cache_object remove_object_from_id_map cached_object_size
expire_cache_object-cases os s obj_id =
    let name = get_type_for_object_id s obj_id in
    elim (Bool-cases (is_empty name)) [
      | inl b ↦ inl (rw (b) refl, rw (b) refl)
      | inr b ↦ elim (Option-cases (get_file_cache_for_type s name)) [
        | inl e ↦ inl (rw (b, e) refl, rw (b, e) refl)
        | inr (c, e) ↦ inr (rw (b, e) (erase-shorter s obj_id b))
      ]
    ]

-- What is still to be cleaned, in the order of the signed numbers.
missing : ℕ → ℕ → ℕ
missing needed_size cleaned = (needed_size + sign_bit) % word_mod - (cleaned + sign_bit) % word_mod

measure : ℕ → Cleaning → ℕ
measure needed_size l = length l.set.id_map * word_mod + missing needed_size l.cleaned_size

phantom_size : get_filesystem_file_size minus_one ≡ 8192
unfolding get_filesystem_file_size
phantom_size = refl

missing_less : (needed_size cleaned : ℕ) → missing needed_size cleaned < word_mod
unfolding missing
missing_less needed_size cleaned = ground arith

clean_candidate-measure :
    (os : Os) (needed_size address : ℕ) (e : Candidate) (l : Cleaning)
    → needed_size + 8192 ≤ sign_bit
    → lt32 l.cleaned_size needed_size ≡ true
    → measure needed_size (clean_candidate os needed_size address e l) < measure needed_size l
unfolding measure missing clean_candidate Phantom
clean_candidate-measure os needed_size address e l b h =
    elim (expire_cache_object-cases os l.set e.obj_id) [
      | inl (x, y) ↦ ground (
        arith,
        ap (λ p. p.0) x,
        ap (λ p. length p.1.id_map) x,
        ap get_filesystem_file_size y,
        phantom_size,
      )
      | inr shorter ↦ ground (
        arith,
        missing_less needed_size (clean_candidate os needed_size address e l).cleaned_size,
      )
    ]

clean_loop_fuel :
    (os : Os) (fuel needed_size : ℕ) (l : Cleaning)
    → needed_size + 8192 ≤ sign_bit
    → measure needed_size l < fuel
    → clean_loop os (suc fuel) needed_size l ≡ clean_loop os fuel needed_size l
unfolding clean_loop
clean_loop_fuel os zero needed_size l b h = absurd (omega arith)
clean_loop_fuel os (suc fuel) needed_size l b h =
    elim (Option-cases (select_candidate_to_expire os l.set l.cleanup_map)) [
      | inl e ↦ rw (e, clean_loop) refl
      | inr ((address, e), f) ↦ elim (Bool-cases (lt32 l.cleaned_size needed_size)) [
        | inl t ↦
            rw (f, clean_loop, t)
              (clean_loop_fuel os fuel needed_size (clean_candidate os needed_size address e l) b
                (ground (arith, clean_candidate-measure os needed_size address e l b t)))
        | inr t ↦ rw (f, clean_loop, t) refl
      ]
    ]

clean_loop-more :
    (os : Os) (more needed_size : ℕ) (l : Cleaning) (fuel : ℕ)
    → needed_size + 8192 ≤ sign_bit
    → measure needed_size l < fuel
    → clean_loop os (more + fuel) needed_size l ≡ clean_loop os fuel needed_size l
clean_loop-more os zero needed_size l fuel b h =
    ap (λ n. clean_loop os n needed_size l) (omega arith)
clean_loop-more os (suc more) needed_size l fuel b h =
    let one_more : suc more + fuel ≡ suc (more + fuel) = omega arith in
    ap (λ n. clean_loop os n needed_size l) one_more
    ∙ clean_loop_fuel os (more + fuel) needed_size l b (omega arith)
    ∙ clean_loop-more os more needed_size l fuel b h

-- The loop stops only where enough was cleaned, or no candidate is left.
pub Done : Os → ℕ → Cleaning → Type 0
Done os needed_size l =
    (lt32 l.cleaned_size needed_size ≡ false)
    ⊎ (select_candidate_to_expire os l.set l.cleanup_map ≡ none)

clean_loop-Done :
    (os : Os) (fuel needed_size : ℕ) (l : Cleaning)
    → needed_size + 8192 ≤ sign_bit
    → measure needed_size l < fuel
    → Done os needed_size (clean_loop os fuel needed_size l)
unfolding clean_loop Done
clean_loop-Done os zero needed_size l b h = absurd (omega arith)
clean_loop-Done os (suc fuel) needed_size l b h =
    elim (Option-cases (select_candidate_to_expire os l.set l.cleanup_map)) [
      | inl e ↦ rw (e, clean_loop) (inr e)
      | inr ((address, e), f) ↦ elim (Bool-cases (lt32 l.cleaned_size needed_size)) [
        | inl t ↦
            rw (f, clean_loop, t)
              (clean_loop-Done os fuel needed_size (clean_candidate os needed_size address e l) b
                (ground (arith, clean_candidate-measure os needed_size address e l b t)))
        | inr t ↦ rw (f, clean_loop, t) (inl t)
      ]
    ]

-- For a space on disk of 2^31 - 8192 at most, the loop of `CleanupAllTypes` ends within its
-- fuel: with any more fuel it gives the size and the set of `cleanup_all_types`, and it stops
-- only where the cleaned size is not below the space that is needed, or no candidate can be
-- selected.
pub cleanup_all_types-Done :
    (os : Os) (s : FileCacheSet) (needed more : ℕ)
    → get_filesystem_file_size needed + 8192 ≤ sign_bit
    → let needed_size = get_filesystem_file_size needed in
      let l = clean_loop os (more + cleaning_fuel s) needed_size (cleaning_start s) in
      (cleanup_all_types os s needed ≡ (l.cleaned_size, l.set)) × Done os needed_size l
unfolding cleanup_all_types measure cleaning_start
cleanup_all_types-Done os s needed more b =
    let needed_size = get_filesystem_file_size needed in
    let start = cleaning_start s in
    let enough : measure needed_size start < cleaning_fuel s =
      ground (arith, missing_less needed_size 0) in
    let same = clean_loop-more os more needed_size start (cleaning_fuel s) b enough in
    rw (same) (refl, clean_loop-Done os (cleaning_fuel s) needed_size start b enough)
