-- ===== src/Bus/Balance.antt =====
-- The subscriptions of clients, `m_subscribers` of src/CategoryHandler.cpp, against the
-- subscription counts of the objects.
use filecache.Base.{
  ℕ, zero, suc, ◌+◌, ◌-◌, ◌≤◌, ◌<◌, ◌≡◌, refl, ap, ◌∙◌, sym, inl, inr, Bool, true, false, ◌&&◌,
  Option, none, some, List, [], ◌∷◌, ◌++◌, arith, ◌==◌, if◌then◌else◌, Bool-cases, Option-cases,
  Bytes, length, All, All-append_one,
}
use filecache.Base.Word.{sign_bit, add32}
use filecache.Base.Map.{ℕ_key, bytes_key}
use filecache.ObjectId.{is_empty, get_object_id_from_path, get_type_name_from_path}
use filecache.ObjectId.Codec.{has_dot}
use filecache.CacheSet.State.{FileCacheSet}
use filecache.CacheSet.Counts.{SetCounts, SetsCount, IsDistinctSet, count_in}
use filecache.Bus.{Service, with_set}
use filecache.Bus.Objects.{remove_at}

abbrev pub is_id : ℕ → Option ℕ → Bool
is_id i none = false
is_id i (some j) = j == i

-- A path name stands for an object: a type and an id.
abbrev pub refers : Bytes → Bytes → ℕ → Bytes → Bool
refers base name i path =
    bytes_key.beq (get_type_name_from_path base path) name && is_id i (get_object_id_from_path path)

abbrev pub one_if : Bool → ℕ
one_if true = 1
one_if false = 0

-- How many of the path names stand for an object.
unfoldable pub held : Bytes → Bytes → ℕ → List Bytes → ℕ
held base name i [] = 0
held base name i (p ∷ ps) = one_if (refers base name i p) + held base name i ps

-- A path name that stands for an object of a named type, under a valid id.
pub record IsNamed (base path : Bytes) : Type 0 where
  pub obj_id : ℕ
  pub read : get_object_id_from_path path ≡ some obj_id
  pub positive : (obj_id == 0) ≡ false
  pub named : is_empty (get_type_name_from_path base path) ≡ false

-- Every object has the count of the clients' subscriptions to it. The base directory has no dot.
pub record IsBalanced (svc : Service) : Type 0 where
  pub plain : has_dot svc.set.base_dir_name ≡ false
  pub distinct : IsDistinctSet svc.set
  pub named : All (IsNamed svc.set.base_dir_name) svc.subscribers
  pub counts :
      (name : Bytes) (i : ℕ)
      → count_in svc.set name i ≡ held svc.set.base_dir_name name i svc.subscribers

pub held_bound : (base name : Bytes) (i : ℕ) (ps : List Bytes) → held base name i ps ≤ length ps
unfolding held
held_bound base name i [] = omega arith
held_bound base name i (p ∷ ps) = elim (Bool-cases (refers base name i p)) [
  | inl b ↦ ground (arith, held_bound base name i ps)
  | inr b ↦ ground (arith, held_bound base name i ps)
]

pub held-append :
    (base name : Bytes) (i : ℕ) (ps : List Bytes) (p : Bytes)
    → held base name i (ps ++ p ∷ []) ≡ held base name i ps + one_if (refers base name i p)
unfolding held
held-append base name i [] p = omega arith
held-append base name i (q ∷ ps) p = omega (arith, held-append base name i ps p)

-- What is left without the path name at a place.
pub record Removed (ps : List Bytes) (p : Bytes) (rest : List Bytes) : Type 0 where
  pub held :
      (base name : Bytes) (i : ℕ)
      → held base name i ps ≡ one_if (refers base name i p) + held base name i rest
  pub named : (base : Bytes) → All (IsNamed base) ps → IsNamed base p × All (IsNamed base) rest
  pub length : length ps ≡ suc (length rest)

abbrev pub Removes : List Bytes → Option (Bytes × List Bytes) → Type 0
Removes ps none = Unit
Removes ps (some (p, rest)) = Removed ps p rest

-- What an event may do to the subscriptions: a call, a call that may add one, the end of one.
pub data Label : Type 0 where
  call opening closing : Label

-- How such an event changes the path names.
pub data Change (l : Label) (base : Bytes) (ps qs : List Bytes) : Type 0 where
  unchanged : qs ≡ ps → Change l base ps qs
  extended :
      (path : Bytes)
      → l ≡ Label.opening
      → IsNamed base path
      → qs ≡ ps ++ path ∷ []
      → Change l base ps qs
  shortened : (path : Bytes) → l ≡ Label.closing → Removed ps path qs → Change l base ps qs

Removed-first : (p : Bytes) (ps : List Bytes) → Removed (p ∷ ps) p ps
unfolding held
Removed-first p ps = record { held = λ base name i. refl; named = λ base a. a; length = refl }

Removed-later :
    (x p : Bytes) (ps rest : List Bytes) → Removed ps p rest → Removed (x ∷ ps) p (x ∷ rest)
unfolding held
Removed-later x p ps rest r = record {
  held = λ base name i. omega (arith, r.held base name i);
  named = λ base a. let (h, k) = r.named base a.1 in (h, (a.0, k));
  length = ap suc r.length;
}

pub remove_at-Removes : (n : ℕ) (ps : List Bytes) → Removes ps (remove_at n ps)
unfolding remove_at
remove_at-Removes n [] = tt
remove_at-Removes zero (x ∷ ps) = Removed-first x ps
remove_at-Removes (suc n) (x ∷ ps) =
    let later = remove_at-Removes n ps in
    elim (Option-cases (remove_at n ps)) [
      | inl e ↦ rw (e) tt
      | inr ((p, rest), e) ↦ rw (e) (Removed-later x p ps rest (rw (e) at later))
    ]

-- A change that leaves the counts.
pub keeps-IsBalanced :
    (svc : Service) (s' : FileCacheSet)
    → SetCounts svc.set s'
    → length svc.subscribers < sign_bit
    → IsBalanced svc
    → IsBalanced (with_set svc s')
keeps-IsBalanced svc s' h few b = record {
  plain = rw (h.base) b.plain;
  distinct = h.distinct b.distinct;
  named = rw (h.base) b.named;
  counts = λ name i.
      let bound = held_bound svc.set.base_dir_name name i svc.subscribers in
      let before = b.counts name i in
      rw (h.base) (h.same b.distinct name i (ground arith) ∙ before);
}

-- Which objects a path name stands for.
refers_only :
    (base path name : Bytes) (i : ℕ) (other : Bytes) (j : ℕ)
    → get_object_id_from_path path ≡ some i
    → get_type_name_from_path base path ≡ name
    → refers base other j path ≡ bytes_key.beq name other && (i == j)
refers_only base path name i other j e t = rw (e, t) refl

-- One object's count changes, as the number of the path names for it does.
set_count :
    (base path name : Bytes) (i n count before : ℕ) (other : Bytes) (j : ℕ)
    → get_object_id_from_path path ≡ some i
    → get_type_name_from_path base path ≡ name
    → ((bytes_key.beq name other && (i == j)) ≡ true → n ≡ before + 1)
    → count ≡ before
    → (if bytes_key.beq name other && (i == j) then n else count)
      ≡ before + one_if (refers base other j path)
set_count base path name i n count before other j e t h c =
    elim (Bool-cases (bytes_key.beq name other && (i == j))) [
      | inl b ↦ rw (refers_only base path name i other j e t, b) (h b)
      | inr b ↦ rw (refers_only base path name i other j e t, b) (omega arith)
    ]

unset_count :
    (base path name : Bytes) (i n count after : ℕ) (other : Bytes) (j : ℕ)
    → get_object_id_from_path path ≡ some i
    → get_type_name_from_path base path ≡ name
    → ((bytes_key.beq name other && (i == j)) ≡ true → count ≡ 1 + after → n ≡ after)
    → count ≡ one_if (refers base other j path) + after
    → (if bytes_key.beq name other && (i == j) then n else count) ≡ after
unset_count base path name i n count after other j e t h c =
    let one = refers_only base path name i other j e t in
    elim (Bool-cases (bytes_key.beq name other && (i == j))) [
      | inl b ↦ rw (b) (h b (rw (one, b) at c))
      | inr b ↦ let same = rw (one, b) at c in rw (b) (omega arith)
    ]

same_object :
    (name other : Bytes) (i j : ℕ)
    → (bytes_key.beq name other && (i == j)) ≡ true
    → (name ≡ other) × (i ≡ j)
same_object name other i j h = elim (Bool-cases (bytes_key.beq name other)) [
  | inl b ↦ ((bytes_key.beq_iff name other).0 b, (ℕ_key.beq_iff i j).0 (rw (b) at h))
  | inr b ↦ ground arith
]

count_same :
    (s : FileCacheSet) (name other : Bytes) (i j : ℕ)
    → (bytes_key.beq name other && (i == j)) ≡ true
    → count_in s name i ≡ count_in s other j
count_same s name other i j h = let (e, f) = same_object name other i j h in rw (e, f) refl

-- A subscription that is granted and recorded.
pub adds-IsBalanced :
    (svc : Service) (s' : FileCacheSet) (path name : Bytes) (i : ℕ)
    → SetsCount svc.set s' name i (add32 (count_in svc.set name i) 1)
    → length svc.subscribers + 1 < sign_bit
    → get_object_id_from_path path ≡ some i
    → (i == 0) ≡ false
    → get_type_name_from_path svc.set.base_dir_name path ≡ name
    → is_empty name ≡ false
    → IsBalanced svc
    → IsBalanced (record { set = s'; subscribers = svc.subscribers ++ path ∷ [] })
adds-IsBalanced svc s' path name i h few e z t n b = record {
  plain = rw (h.base) b.plain;
  distinct = h.distinct b.distinct;
  named = rw (h.base) (
      All-append_one (IsNamed svc.set.base_dir_name) svc.subscribers path b.named
        (record { obj_id = i; read = e; positive = z; named = rw (t) n }));
  counts = λ other j.
      let base = svc.set.base_dir_name in
      let bound = held_bound base name i svc.subscribers in
      let before = b.counts other j in
      let here = b.counts name i in
      let appended = held-append base other j svc.subscribers path in
      rw (h.base) (
        h.at other j
        ∙ set_count base path name i _ _ (held base other j svc.subscribers) other j e t
            (λ k. let same = count_same svc.set name other i j k in ground arith) before
        ∙ sym appended);
}

-- A subscription that ends.
pub drops-IsBalanced :
    (svc : Service) (s' : FileCacheSet) (path name : Bytes) (i : ℕ) (rest : List Bytes)
    → SetsCount svc.set s' name i (count_in svc.set name i - 1)
    → Removed svc.subscribers path rest
    → get_object_id_from_path path ≡ some i
    → get_type_name_from_path svc.set.base_dir_name path ≡ name
    → IsBalanced svc
    → IsBalanced (record { set = s'; subscribers = rest })
drops-IsBalanced svc s' path name i rest h r e t b = record {
  plain = rw (h.base) b.plain;
  distinct = h.distinct b.distinct;
  named = rw (h.base) (r.named svc.set.base_dir_name b.named).1;
  counts = λ other j.
      let base = svc.set.base_dir_name in
      let before = b.counts other j in
      let parted = r.held base other j in
      rw (h.base) (
        h.at other j
        ∙ unset_count base path name i _ _ (held base other j rest) other j e t
            (λ k c. let same = count_same svc.set name other i j k in omega arith)
            (before ∙ parted));
}
