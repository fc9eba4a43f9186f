-- ===== src/Sequence/Unique.antt =====
-- The ids of one run.
use filecache.Base.{
  All, ℕ, ◌+◌, ◌/◌, ◌%◌, ◌^◌, ◌≤◌, ◌<◌, ◌≡◌, ◌≢◌, refl, Option, none, some, List, [], ◌∷◌, arith,
  Bytes, length, ap, suc,
}
use filecache.Base.Word.{word_mod}
use filecache.ObjectId.{max_id}
use filecache.Os.{Os}
use filecache.Sequence.{
  Sequence, get_next_cached_object_id, advance, make_id, max_possible_seq_num, max_seq_bits,
}

pub advance-number :
    (os : Os) (base : Bytes) (q : Sequence)
    → q.number ≤ max_possible_seq_num
    → (advance os base q).number ≡ q.number + 1
unfolding advance
advance-number os base q h = ground arith

-- An id that one round makes.
pub record Made (rand_val : ℕ) (q : Sequence) (obj_id : ℕ) (q' : Sequence) : Type 0 where
  pub positive : 1 ≤ obj_id
  pub bounded : obj_id ≤ max_id
  pub random_part : obj_id / 2 ^ max_seq_bits ≡ rand_val
  pub sequence_part : obj_id % 2 ^ max_seq_bits ≡ q.number
  pub next_number : q'.number ≡ q.number + 1

pub get_next_first :
    (os : Os) (base : Bytes) (rand_val : ℕ) (rest : List ℕ) (q : Sequence)
    → rand_val < word_mod
    → 1 ≤ q.number
    → q.number ≤ max_possible_seq_num
    → get_next_cached_object_id os base (rand_val ∷ rest) q
      ≡ some (make_id rand_val q.number, rest, advance os base q)
unfolding get_next_cached_object_id
get_next_first os base rand_val rest q r l h = ground arith

get_next_cached_object_id-Made :
    (os : Os) (base : Bytes) (rand_val : ℕ) (rest : List ℕ) (q : Sequence)
    → rand_val < word_mod
    → 1 ≤ q.number
    → q.number ≤ max_possible_seq_num
    → (obj_id : ℕ) × (q' : Sequence) × (get_next_cached_object_id os base (rand_val ∷ rest) q
        ≡ some (obj_id, rest, q'))
      × Made rand_val q obj_id q'
get_next_cached_object_id-Made os base rand_val rest q r l h = (
  make_id rand_val q.number,
  advance os base q,
  get_next_first os base rand_val rest q r l h,
  record {
    positive = omega arith;
    bounded = omega arith;
    random_part = omega arith;
    sequence_part = omega arith;
    next_number = advance-number os base q h;
  },
)

-- A run of calls, each of which is given one random number.
unfoldable pub next_ids : Os → Bytes → List ℕ → Sequence → Option (List ℕ × Sequence)
next_ids os base [] q = some ([], q)
next_ids os base (rand_val ∷ rand_vals) q =
    elim (get_next_cached_object_id os base (rand_val ∷ []) q) [
      | none ↦ none
      | some (obj_id, rest, q') ↦ elim (next_ids os base rand_vals q') [
        | none ↦ none
        | some (ids, q'') ↦ some (obj_id ∷ ids, q'')
      ]
    ]

abbrev pub AllDistinct : List ℕ → Type 0
AllDistinct [] = Unit
AllDistinct (i ∷ is) = All (λ j. i ≢ j) is × AllDistinct is

-- The ids carry their sequence numbers, which grow.
abbrev From : ℕ → List ℕ → Type 0
From n = All (λ (i : ℕ). (n ≤ i % 2 ^ max_seq_bits) × (1 ≤ i) × (i ≤ max_id))

From-ne : (n i : ℕ) (is : List ℕ) → i % 2 ^ max_seq_bits < n → From n is → All (λ j. i ≢ j) is
From-ne n i [] h f = tt
From-ne n i (j ∷ is) h f = (λ e. absurd (ground arith), From-ne n i is h f.1)

From-mono : (n m : ℕ) (is : List ℕ) → n ≤ m → From m is → From n is
From-mono n m [] h f = tt
From-mono n m (j ∷ is) h f = ((omega arith, omega arith, omega arith), From-mono n m is h f.1)

pub record Run (q : Sequence) (count : ℕ) (ids : List ℕ) (q' : Sequence) : Type 0 where
  pub distinct : AllDistinct ids
  pub valid : From q.number ids
  pub below : All (λ (i : ℕ). i % 2 ^ max_seq_bits < q'.number) ids
  pub enough : length ids ≡ count
  pub last : q'.number ≡ q.number + count

pub next_ids-cons :
    (os : Os) (base : Bytes) (rand_val : ℕ) (rand_vals : List ℕ) (q : Sequence) (obj_id : ℕ)
    (q' : Sequence) (unused ids : List ℕ) (q'' : Sequence)
    → get_next_cached_object_id os base (rand_val ∷ []) q ≡ some (obj_id, unused, q')
    → next_ids os base rand_vals q' ≡ some (ids, q'')
    → next_ids os base (rand_val ∷ rand_vals) q ≡ some (obj_id ∷ ids, q'')
unfolding next_ids
next_ids-cons os base rand_val rand_vals q obj_id q' unused ids q'' made rest =
    rw (made, next_ids) (rw rest)

-- A run of `GetNextCachedObjectId` gives as many ids as it is given random numbers below 2^32,
-- as long as the sequence number starts at 1 or more and does not pass 2^22: the ids are
-- distinct, valid, carry sequence numbers from the first on and below the one after the run,
-- and the number grows by one for each.
pub next_ids-Run :
    (os : Os) (base : Bytes) (rand_vals : List ℕ) (q : Sequence)
    → All (λ r. r < word_mod) rand_vals
    → 1 ≤ q.number
    → q.number + length rand_vals ≤ 2 ^ max_seq_bits
    → (ids : List ℕ) × (q' : Sequence) × (next_ids os base rand_vals q ≡ some (ids, q'))
      × Run q (length rand_vals) ids q'
unfolding next_ids
next_ids-Run os base [] q r l h = (
  [],
  q,
  refl,
  record { distinct = tt; valid = tt; below = tt; enough = refl; last = omega arith },
)
next_ids-Run os base (rand_val ∷ rand_vals) q r l h =
    let (obj_id, q', made, m) =
      get_next_cached_object_id-Made os base rand_val [] q r.0 l (omega arith) in
    let (ids, q'', rest, n) = next_ids-Run os base rand_vals q' r.1 (omega arith) (omega arith) in
    (
      obj_id ∷ ids,
      q'',
      next_ids-cons os base rand_val rand_vals q obj_id q' [] ids q'' made rest,
      record {
        distinct = (From-ne q'.number obj_id ids (omega arith) n.valid, n.distinct);
        valid = (
          (omega arith, m.positive, m.bounded),
          From-mono q.number q'.number ids (omega arith) n.valid,
        );
        below = (omega arith, n.below);
        enough = ap suc n.enough;
        last = omega arith;
      },
    )
