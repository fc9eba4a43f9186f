-- ===== src/Base/Map.antt =====
-- `std::map`: an association list in the order of its keys. A map of pointers is a map of what
-- they point to, and a write through the pointer is `put`.
use Prim.Native.Nat.{ℕ, suc, ◌+◌}
use mathlib.Core.Path.{◌≡◌, refl}
use mathlib.Core.Logic.{◌↔◌}
use mathlib.Core.Bool.{Bool, true, false}
use mathlib.Core.Option.{Option, none, some}
use mathlib.Core.List.{List, [], ◌∷◌}
use native.Mathlib.Omega.{arith}
use filecache.Base.Tests.{ltb, ◌==◌, ==_iff, if◌then◌else◌, is_none}
use filecache.Base.Lists.{Bytes, length}

-- What a map asks of its keys.
pub record Key {ℓ} (K : Type ℓ) : Type ℓ where
  pub beq : K → K → Bool
  pub less : K → K → Bool
  pub beq_iff : (a b : K) → (beq a b ≡ true) ↔ (a ≡ b)

instance abbrev pub ℕ_key : Key ℕ
ℕ_key = record { beq = ◌==◌; less = ltb; beq_iff = ==_iff }

-- Byte strings compare as `std::string` does.
abbrev pub bytes_eq : Bytes → Bytes → Bool
bytes_eq [] [] = true
bytes_eq [] (b ∷ bs) = false
bytes_eq (a ∷ as') [] = false
bytes_eq (a ∷ as') (b ∷ bs) = if a == b then bytes_eq as' bs else false

abbrev pub bytes_less : Bytes → Bytes → Bool
bytes_less as' [] = false
bytes_less [] (b ∷ bs) = true
bytes_less (a ∷ as') (b ∷ bs) =
    if ltb a b then true else if a == b then bytes_less as' bs else false

bytes_eq→eq : (as' bs : Bytes) → bytes_eq as' bs ≡ true → as' ≡ bs
bytes_eq→eq [] [] h = refl
bytes_eq→eq [] (b ∷ bs) h = cc
bytes_eq→eq (a ∷ as') [] h = cc
bytes_eq→eq (a ∷ as') (b ∷ bs) h = ground (arith, bytes_eq→eq as' bs)

bytes_eq_self : (as' : Bytes) → bytes_eq as' as' ≡ true
bytes_eq_self [] = refl
bytes_eq_self (a ∷ as') = ground (arith, bytes_eq_self as')

pub bytes_eq_iff : (as' bs : Bytes) → (bytes_eq as' bs ≡ true) ↔ (as' ≡ bs)
bytes_eq_iff as' bs = (bytes_eq→eq as' bs, λ e. rw (← e) (bytes_eq_self as'))

instance abbrev pub bytes_key : Key Bytes
bytes_key = record { beq = bytes_eq; less = bytes_less; beq_iff = bytes_eq_iff }

abbrev pub Map {ℓ κ} : Type ℓ → Type κ → Type (ℓ ⊔ κ)
Map K V = List (K × V)

module _ {ℓ κ} {K : Type ℓ} {V : Type κ} ⦃k : Key K⦄ where
  unfoldable pub find : K → Map K V → Option V
  find i [] = none
  find i ((j, v) ∷ m) = if k.beq j i then some v else find i m

  -- In front of the first greater key.
  unfoldable pub place : K → V → Map K V → Map K V
  place i v [] = (i, v) ∷ []
  place i v ((j, w) ∷ m) = if k.less i j then (i, v) ∷ (j, w) ∷ m else (j, w) ∷ place i v m

  -- `insert` keeps the value of a key that is there already.
  unfoldable pub insert : K → V → Map K V → Map K V
  insert i v m = elim (find i m) [ some _ ↦ m | none ↦ place i v m ]

  unfoldable pub erase : K → Map K V → Map K V
  erase i [] = []
  erase i ((j, w) ∷ m) = if k.beq j i then m else (j, w) ∷ erase i m

  -- A write through the pointer that a key maps to.
  unfoldable pub put : K → V → Map K V → Map K V
  put i v [] = []
  put i v ((j, w) ∷ m) = if k.beq j i then (j, v) ∷ m else (j, w) ∷ put i v m

  pub find-place :
      (i j : K) (v : V) (m : Map K V)
      → find i m ≡ none
      → find j (place i v m) ≡ (if k.beq i j then some v else find j m)
  unfolding find place
  find-place i j v [] h = refl
  find-place i j v ((l, w) ∷ m) h =
      ground (arith, k.beq_iff i j, k.beq_iff l i, k.beq_iff l j, find-place i j v m)

  pub find-put :
      (i j : K) (v : V) (m : Map K V)
      → find j (put i v m)
        ≡ (if k.beq i j then elim (find i m) [ some _ ↦ some v | none ↦ none ] else find j m)
  unfolding find put
  find-put i j v [] = ground arith
  find-put i j v ((l, w) ∷ m) =
      ground (arith, k.beq_iff i j, k.beq_iff l i, k.beq_iff l j, find-put i j v m)

  pub insert-place : (i : K) (v : V) (m : Map K V) → find i m ≡ none → insert i v m ≡ place i v m
  unfolding insert
  insert-place i v m h = rw (h, insert) refl

  pub find-insert : (i : K) (v : V) (m : Map K V) → find i m ≡ none → find i (insert i v m) ≡ some v
  unfolding insert
  find-insert i v m h = rw (h, insert) (ground (arith, find-place i i v m h, k.beq_iff i i))

  pub find-put_self :
      (i : K) (v old : V) (m : Map K V) → find i m ≡ some old → find i (put i v m) ≡ some v
  find-put_self i v old m h = ground (arith, find-put i i v m, k.beq_iff i i, h)

  pub find-erase_ne : (i j : K) (m : Map K V) → k.beq i j ≡ false → find j (erase i m) ≡ find j m
  unfolding find erase
  find-erase_ne i j [] h = refl
  find-erase_ne i j ((l, w) ∷ m) h =
      ground (arith, k.beq_iff i j, k.beq_iff l i, k.beq_iff l j, find-erase_ne i j m)

  -- No key occurs twice.
  abbrev pub IsDistinct : Map K V → Type 0
  IsDistinct [] = Unit
  IsDistinct ((j, v) ∷ m) = (is_none (find j m) ≡ true) × IsDistinct m

  pub place-IsDistinct :
      (i : K) (v : V) (m : Map K V) → find i m ≡ none → IsDistinct m → IsDistinct (place i v m)
  unfolding find place
  place-IsDistinct i v [] h d = ground arith
  place-IsDistinct i v ((l, w) ∷ m) h d =
      ground (arith, k.beq_iff i l, k.beq_iff l i, find-place i l v m, place-IsDistinct i v m)

  pub put-IsDistinct : (i : K) (v : V) (m : Map K V) → IsDistinct m → IsDistinct (put i v m)
  unfolding find put
  put-IsDistinct i v [] d = d
  put-IsDistinct i v ((l, w) ∷ m) d =
      ground (arith, k.beq_iff i l, k.beq_iff l i, find-put i l v m, put-IsDistinct i v m)

  pub erase-IsDistinct : (i : K) (m : Map K V) → IsDistinct m → IsDistinct (erase i m)
  unfolding find erase
  erase-IsDistinct i [] d = d
  erase-IsDistinct i ((l, w) ∷ m) d =
      ground (arith, k.beq_iff i l, k.beq_iff l i, find-erase_ne i l m, erase-IsDistinct i m)

  pub find-erase_self : (i : K) (m : Map K V) → IsDistinct m → find i (erase i m) ≡ none
  unfolding find erase
  find-erase_self i [] d = refl
  find-erase_self i ((l, w) ∷ m) d = ground (arith, k.beq_iff l i, find-erase_self i m)

  -- The sum of a number over the values.
  abbrev pub total : (V → ℕ) → Map K V → ℕ
  total f [] = 0
  total f ((j, v) ∷ m) = f v + total f m

  pub total-place :
      (f : V → ℕ) (i : K) (v : V) (m : Map K V) → total f (place i v m) ≡ f v + total f m
  unfolding place
  total-place f i v [] = refl
  total-place f i v ((l, w) ∷ m) = ground (arith, total-place f i v m)

  pub total-put :
      (f : V → ℕ) (i : K) (v old : V) (m : Map K V)
      → find i m ≡ some old
      → total f (put i v m) + f old ≡ total f m + f v
  unfolding find put
  total-put f i v old [] h = cc
  total-put f i v old ((l, w) ∷ m) h = ground (arith, total-put f i v old m)

  pub total-erase :
      (f : V → ℕ) (i : K) (old : V) (m : Map K V)
      → find i m ≡ some old
      → total f (erase i m) + f old ≡ total f m
  unfolding find erase
  total-erase f i old [] h = cc
  total-erase f i old ((l, w) ∷ m) h = ground (arith, total-erase f i old m)

  pub length-place : (i : K) (v : V) (m : Map K V) → length (place i v m) ≡ suc (length m)
  unfolding place
  length-place i v [] = refl
  length-place i v ((l, w) ∷ m) = ground (arith, length-place i v m)

  pub length-put : (i : K) (v : V) (m : Map K V) → length (put i v m) ≡ length m
  unfolding put
  length-put i v [] = refl
  length-put i v ((l, w) ∷ m) = ground (arith, length-put i v m)

  pub length-erase :
      (i : K) (old : V) (m : Map K V) → find i m ≡ some old → suc (length (erase i m)) ≡ length m
  unfolding find erase
  length-erase i old [] h = cc
  length-erase i old ((l, w) ∷ m) h = ground (arith, length-erase i old m)
