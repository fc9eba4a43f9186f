-- ===== src/Sequence/Restart.antt =====
-- The saved number against the numbers that were handed out.
use filecache.Base.{
  All, ℕ, ◌+◌, ◌/◌, ◌%◌, ◌^◌, ◌≤◌, ◌<◌, ◌≡◌, refl, true, false, Option, none, some, List, [], ◌∷◌,
  arith, ◌==◌, Bool-cases, ap, inl, inr, Bytes, length,
}
use filecache.Base.Word.{word_mod}
use filecache.ObjectId.{is_empty}
use filecache.Os.{Os}
use filecache.Object.{sync_file}
use filecache.Sequence.Unique.{
  next_ids, next_ids-cons, next_ids-Run, get_next_first, advance-number,
}
use filecache.Sequence.{
  Sequence, advance, write_sequence_number, read_sequence_number, bumped, make_id,
  max_allow_seq_num, max_seq_bits,
}

-- The file system takes every file that is written.
pub record Writes (os : Os) : Type 0 where
  pub writes : (p : Bytes) → os.write_file p ≡ true
  pub opens : (p : Bytes) → os.open_file p ≡ true
  pub syncs : (p : Bytes) → os.fsync p ≡ true
  pub closes : (p : Bytes) → os.close_file p ≡ true
  pub renames : (p : Bytes) → os.rename p ≡ true

write_sequence_number-saved :
    (os : Os) (base : Bytes) (q : Sequence)
    → Writes os
    → is_empty base ≡ false
    → write_sequence_number os base q ≡ record q { saved = some q.number }
unfolding write_sequence_number sync_file
write_sequence_number-saved os base q w h = rw (h, w.writes, w.opens, w.syncs, w.closes, w.renames)

-- The file holds a number of the hundred that the sequence is in, and no later one.
pub record IsKept (q : Sequence) (saved : ℕ) : Type 0 where
  pub held : q.saved ≡ some saved
  pub before : saved ≤ q.number
  pub hundred : saved / 100 ≡ q.number / 100

read_sequence_number-IsKept :
    (os : Os) (base : Bytes) (saved : Option ℕ)
    → Writes os
    → is_empty base ≡ false
    → IsKept (read_sequence_number os base saved) (read_sequence_number os base saved).number
unfolding read_sequence_number
read_sequence_number-IsKept os base none w h =
    rw (write_sequence_number-saved os base (record { number = 1; saved = none }) w h)
      (record { held = refl; before = omega arith; hundred = refl })
read_sequence_number-IsKept os base (some n) w h =
    rw (write_sequence_number-saved os base (record { number = bumped n; saved = some n }) w h)
      (record { held = refl; before = omega arith; hundred = refl })

advance-IsKept :
    (os : Os) (base : Bytes) (q : Sequence) (saved : ℕ)
    → Writes os
    → is_empty base ≡ false
    → q.number < max_allow_seq_num
    → IsKept q saved
    → (saved' : ℕ) × IsKept (advance os base q) saved'
unfolding advance
advance-IsKept os base q saved w h l k =
    let n : (q.number + 1) % word_mod ≡ q.number + 1 = omega arith in
    elim (Bool-cases ((q.number + 1) % word_mod % 100 == 0)) [
      | inl e ↦ (
        q.number + 1,
        rw
            (
              e,
              advance,
              write_sequence_number-saved os base (record q { number = (q.number + 1) % word_mod })
                  w h,
            )
            (record { held = ap some n; before = omega arith; hundred = omega arith }),
      )
      | inr e ↦ (
        saved,
        rw (e, advance)
            (record {
              held = k.held;
              before = omega (arith, k.before);
              hundred = ground (arith, k.hundred, k.before);
            }),
      )
    ]

next_ids-IsKept :
    (os : Os) (base : Bytes) (rand_vals : List ℕ) (q : Sequence) (saved : ℕ)
    → Writes os
    → is_empty base ≡ false
    → All (λ r. r < word_mod) rand_vals
    → 1 ≤ q.number
    → q.number + length rand_vals ≤ max_allow_seq_num
    → IsKept q saved
    → (ids : List ℕ) × (q' : Sequence) × (saved' : ℕ) × (next_ids os base rand_vals q
        ≡ some (ids, q'))
      × IsKept q' saved'
unfolding next_ids
next_ids-IsKept os base [] q saved w h r l b k = ([], q, saved, refl, k)
next_ids-IsKept os base (rand_val ∷ rand_vals) q saved w h r l b k =
    let n = advance-number os base q (omega arith) in
    let q' = advance os base q in
    let (saved', k') = advance-IsKept os base q saved w h (omega arith) k in
    let (ids, q'', saved'', e, k'') =
      next_ids-IsKept os base rand_vals q' saved' w h r.1 (omega arith) (omega arith) k' in
    let first = get_next_first os base rand_val [] q r.0 l (omega arith) in
    (
      make_id rand_val q.number ∷ ids,
      q'',
      saved'',
      next_ids-cons os base rand_val rand_vals q (make_id rand_val q.number) q' [] ids q'' first e,
      k'',
    )

-- A number that is read back begins after every number that is saved and used.
bumped-above :
    (os : Os) (base : Bytes) (q : Sequence) (saved : ℕ)
    → IsKept q saved
    → q.number + 100 ≤ max_allow_seq_num
    → q.number < (read_sequence_number os base q.saved).number
unfolding read_sequence_number write_sequence_number
bumped-above os base q saved k b = rw k.held (ground (arith, k.before, k.hundred))

read_sequence_number-pos :
    (os : Os) (base : Bytes) (saved : Option ℕ) → 1 ≤ (read_sequence_number os base saved).number
unfolding read_sequence_number write_sequence_number
read_sequence_number-pos os base none = ground arith
read_sequence_number-pos os base (some n) = ground arith

All-below :
    (n m : ℕ) (is : List ℕ)
    → n ≤ m
    → All (λ (i : ℕ). i % 2 ^ max_seq_bits < n) is
    → All (λ (i : ℕ). i % 2 ^ max_seq_bits < m) is
All-below n m [] h a = tt
All-below n m (i ∷ is) h a = (omega arith, All-below n m is h a.1)

-- Where every write of the sequence file succeeds, the base directory has a name, the random
-- numbers are below 2^32, and the numbers of a run after `ReadSequenceNumber` stay 100 below
-- the greatest allowed: the run gives its ids, and the sequence number that the next start
-- reads is greater than the sequence number of each of them.
pub restart_above :
    (os : Os) (base : Bytes) (saved : Option ℕ) (rand_vals : List ℕ)
    → Writes os
    → is_empty base ≡ false
    → All (λ r. r < word_mod) rand_vals
    → (read_sequence_number os base saved).number + length rand_vals + 100 ≤ max_allow_seq_num
    → let q = read_sequence_number os base saved in
      (ids : List ℕ) × (q' : Sequence) × (next_ids os base rand_vals q ≡ some (ids, q'))
      × All (λ (i : ℕ). i % 2 ^ max_seq_bits < (read_sequence_number os base q'.saved).number) ids
restart_above os base saved rand_vals w h r b =
    let q = read_sequence_number os base saved in
    let l : 1 ≤ q.number = read_sequence_number-pos os base saved in
    let k = read_sequence_number-IsKept os base saved w h in
    let (ids, q', e, run) = next_ids-Run os base rand_vals q r l (omega arith) in
    let (ids', q'', saved'', e', k'') =
      next_ids-IsKept os base rand_vals q q.number w h r l (omega arith) k in
    let same : q'' ≡ q' = cc in
    let kept : IsKept q' saved'' = rw (← same) k'' in
    (
      ids,
      q',
      e,
      All-below q'.number _ ids (omega (arith, bumped-above os base q' saved'' kept (omega arith)))
          run.below,
    )
