-- ===== src/Bus/Copied.antt =====
-- Where `CopyCacheObject` of src/CategoryHandler.cpp lets a file be copied to.
use mathlib.Core.Option.{none-ne-some}
use filecache.Base.{
  ℕ, zero, suc, ◌+◌, ◌-◌, ◌≤◌, ◌<◌, ◌≡◌, refl, ap, sym, inl, inr, Bool, true, false, Option, some,
  ◌∷◌, ◌++◌, arith, ◌==◌, if◌then◌else◌, Bool-cases, Option-cases, Bytes,
}
use filecache.ObjectId.{slash, get_file_extension, get_file_basename}
use filecache.Base.Map.{ℕ_key}
use filecache.Bus.{FcErr, get_or}
use filecache.Bus.Copy.{
  CopyOs, Result, max_unique_file_index, new_file_name, unique_name, name_in, name_checked, name_at,
  copy_destination,
}

-- The names that are tried, by their index.
unfoldable pub candidate : Bytes → ℕ → Bytes
candidate file_name k =
    if k == 0
    then file_name
    else new_file_name (get_file_basename file_name) (get_file_extension file_name) k

-- From an index on, a name is the first that is free.
pub record FirstFree (exists : Bytes → Option Bool) (file_name : Bytes) (m : ℕ) (name : Bytes)
    : Type 0 where
  pub index : ℕ
  pub from : m ≤ index
  pub below : index < 99
  pub named : name ≡ candidate file_name index
  pub free : exists name ≡ some false
  pub taken : (j : ℕ) → m ≤ j → j < index → exists (candidate file_name j) ≡ some true

module _ (exists : Bytes → Option Bool) (file_name : Bytes) where
  abbrev unique : ℕ → ℕ → Option (Bytes × ℕ)
  unique n m =
      unique_name exists (get_file_basename file_name) (get_file_extension file_name) n
        (candidate file_name m)

  unique_next :
      (m n : ℕ)
      → m + suc n ≡ 99
      → new_file_name
          (get_file_basename file_name)
          (get_file_extension file_name)
          (max_unique_file_index - suc n)
        ≡ candidate file_name (suc m)
  unfolding candidate
  unique_next m n h =
      let index : max_unique_file_index - suc n ≡ suc m = omega arith in
      let later : (suc m == 0) ≡ false = ground arith in rw (index, later) refl

  unique-FirstFree :
      (n m i : ℕ) (name : Bytes)
      → m + n ≡ 99
      → unique n m ≡ some (name, i)
      → (i == max_unique_file_index) ≡ false
      → FirstFree exists file_name m name
  unfolding unique_name
  unique-FirstFree zero m i name h e x = elim (Option-cases (exists (candidate file_name m))) [
    | inl f ↦ absurd (none-ne-some (name, i) (rw (f, unique_name) at e))
    | inr (there, f) ↦
        let e' = rw (f, unique_name) at e in
        let last = ap (λ (o : Option (Bytes × ℕ)). (get_or (name, i) o).1) e' in ground arith
  ]
  unique-FirstFree (suc n) m i name h e x = elim (Option-cases (exists (candidate file_name m))) [
    | inl f ↦ absurd (none-ne-some (name, i) (rw (f, unique_name) at e))
    | inr (true, f) ↦
        let rest =
          unique-FirstFree n (suc m) i name (omega arith)
            (rw (f, unique_name, unique_next m n h) at e) x in
        record {
          index = rest.index;
          from = (let from = rest.from in omega arith);
          below = rest.below;
          named = rest.named;
          free = rest.free;
          taken = λ j l k. elim (Bool-cases (m == j)) [
            | inl b ↦ let same = (ℕ_key.beq_iff m j).0 b in rw (← same) f
            | inr b ↦ rest.taken j (ground arith) k
          ];
        }
    | inr (false, f) ↦
        let e' = rw (f, unique_name) at e in
        let named = ap (λ (o : Option (Bytes × ℕ)). (get_or (name, i) o).0) e' in
        record {
          index = m;
          from = omega arith;
          below = omega arith;
          named = sym named;
          free = rw (← named) f;
          taken = λ j l k. absurd (omega arith);
        }
  ]

abbrev is_done {ℓ} : {A : Type ℓ} → Result A → Bool
is_done (Result.fail e) = false
is_done (Result.done a) = true

abbrev done_or {ℓ} : {A : Type ℓ} → A → Result A → A
done_or a (Result.fail e) = a
done_or a (Result.done b) = b

fail_done {ℓ} : {A : Type ℓ} {e : FcErr} {a : A} → Result.fail e ≡ Result.done a → ⊥
fail_done h = let differ = ap is_done h in ground arith

-- A name in a directory, not taken there.
pub record Placed (fs : CopyOs) (destination file_name path : Bytes) : Type 0 where
  pub name : Bytes
  pub first : FirstFree (λ n. fs.exists (fs.join destination n)) file_name 0 name
  pub path_name : path ≡ destination ++ slash ∷ name

name_in-Placed :
    (fs : CopyOs) (destination file_name path : Bytes)
    → name_in fs destination file_name ≡ Result.done path
    → Placed fs destination file_name path
unfolding name_in candidate
name_in-Placed fs destination file_name path h =
    let exists : Bytes → Option Bool = λ n. fs.exists (fs.join destination n) in
    elim (Option-cases (unique exists file_name 99 0)) [
      | inl e ↦ absurd (fail_done (rw (e, name_in) at h))
      | inr ((name, i), e) ↦ elim (Bool-cases (i == max_unique_file_index)) [
        | inl b ↦ absurd (fail_done (rw (e, name_in, b) at h))
        | inr b ↦ record {
          name = name;
          first = unique-FirstFree exists file_name 99 0 i name refl e b;
          path_name = sym (ap (done_or path) (rw (e, name_in, b) at h));
        }
      ]
    ]

name_checked-Placed :
    (fs : CopyOs) (destination file_name path : Bytes)
    → name_checked fs destination file_name ≡ Result.done path
    → (fs.is_directory destination ≡ some true) × Placed fs destination file_name path
unfolding name_checked
name_checked-Placed fs destination file_name path h =
    elim (Option-cases (fs.is_directory destination)) [
      | inl e ↦ absurd (fail_done (rw (e, name_checked) at h))
      | inr (true, e) ↦
          (e, name_in-Placed fs destination file_name path (rw (e, name_checked) at h))
      | inr (false, e) ↦ absurd (fail_done (rw (e, name_checked) at h))
    ]

name_at-checked :
    (fs : CopyOs) (destination file_name path : Bytes)
    → name_at fs destination file_name ≡ Result.done path
    → name_checked fs destination file_name ≡ Result.done path
unfolding name_at
name_at-checked fs destination file_name path h = elim (Option-cases (fs.exists destination)) [
  | inl e ↦ absurd (fail_done (rw (e, name_at) at h))
  | inr (true, e) ↦ rw (e, name_at) at h
  | inr (false, e) ↦ elim (Bool-cases (fs.create_directories destination)) [
    | inl b ↦ rw (e, name_at, b) at h
    | inr b ↦ absurd (fail_done (rw (e, name_at, b) at h))
  ]
]

-- Where `CopyCacheObject` finds a destination, the sender may write to the directory, it is a
-- directory, and the path name is the directory with the first of 99 names that is not taken in
-- it: the file name itself, or the one with the index 1 to 98.
pub copy_destination_free :
    (fs : CopyOs) (destination file_name path : Bytes)
    → copy_destination fs destination file_name ≡ Result.done path
    → (fs.is_path_allowed destination ≡ true)
      × (fs.is_directory destination ≡ some true)
      × Placed fs destination file_name path
unfolding copy_destination
copy_destination_free fs destination file_name path h =
    elim (Bool-cases (fs.is_path_allowed destination)) [
      | inl b ↦
          let named =
            name_at-checked fs destination file_name path (rw (b, copy_destination) at h) in
          let (dir, placed) = name_checked-Placed fs destination file_name path named in
          (b, dir, placed)
      | inr b ↦ absurd (fail_done (rw (b, copy_destination) at h))
    ]

unique-all_taken :
    (exists : Bytes → Option Bool) (file_name : Bytes) (last : Bool) (n m : ℕ)
    → m + n ≡ 99
    → ((j : ℕ) → m ≤ j → j < 99 → exists (candidate file_name j) ≡ some true)
    → exists (candidate file_name 99) ≡ some last
    → unique exists file_name n m ≡ some (candidate file_name 99, max_unique_file_index)
unfolding unique_name
unique-all_taken exists file_name last zero m h t l =
    let here : candidate file_name m ≡ candidate file_name 99 =
      ap (candidate file_name) (omega arith) in
    let there : exists (candidate file_name m) ≡ some last = rw (here) l in
    rw (there, unique_name) (ap (λ c. some (c, max_unique_file_index)) here)
unique-all_taken exists file_name last (suc n) m h t l =
    rw (t m (omega arith) (omega arith), unique_name, unique_next exists file_name m n h)
      (unique-all_taken exists file_name last n (suc m) (omega arith) (λ j k. t j (omega arith)) l)

name_in_last :
    (fs : CopyOs) (destination file_name : Bytes)
    → unique (λ n. fs.exists (fs.join destination n)) file_name 99 0
      ≡ some (candidate file_name 99, max_unique_file_index)
    → name_in fs destination file_name ≡ Result.fail FcErr.argument_error
unfolding name_in candidate
name_in_last fs destination file_name e = rw (e, name_in) refl

-- In a directory that the sender may write to, where the file name and the 98 names after it
-- are taken, `CopyCacheObject` gives up, whether the name with the index 99, which it makes
-- last, is taken or not.
pub copy_destination_last :
    (fs : CopyOs) (destination file_name : Bytes) (last : Bool)
    → fs.is_path_allowed destination ≡ true
    → fs.exists destination ≡ some true
    → fs.is_directory destination ≡ some true
    → ((j : ℕ) → j < 99 → fs.exists (fs.join destination (candidate file_name j)) ≡ some true)
    → fs.exists (fs.join destination (candidate file_name 99)) ≡ some last
    → copy_destination fs destination file_name ≡ Result.fail FcErr.argument_error
unfolding copy_destination name_at name_checked
copy_destination_last fs destination file_name last allowed there dir taken l =
    let all =
      unique-all_taken (λ n. fs.exists (fs.join destination n)) file_name last 99 0 refl
        (λ j k b. taken j b) l in
    rw (allowed, name_at, there, name_checked, dir) (name_in_last fs destination file_name all)
