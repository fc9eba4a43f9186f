-- ===== src/ObjectId/TypeName.antt =====
-- `GetTypeNameFromPath` against `BuildPathname`.
use mathlib.Core.List.{append_assoc}
use native.Mathlib.Numerals.{add-one}
use filecache.Base.{
  suc, ℕ, ◌<◌, ◌^◌, inr, ◌≡◌, refl, Bool, true, false, some, [], ◌∷◌, ◌++◌, arith, ◌==◌,
  if◌then◌else◌, Bytes, length, drop, take-append,
}
use filecache.Base.Map.{bytes_eq_iff}
use filecache.ObjectId.{
  slash, is_empty, build_pathname, find_first, get_type_name_from_path, get_file_extension,
  get_object_id_from_path,
}
use filecache.ObjectId.Codec.Digits.{digits, window}
use filecache.ObjectId.Codec.Built.{build_pathname-parts, build_pathname-is_empty}
use filecache.ObjectId.Codec.{has_dot, get_object_id-build_pathname}

abbrev pub has_slash : Bytes → Bool
has_slash [] = false
has_slash (b ∷ bs) = if b == slash then true else has_slash bs

find_first-slash :
    (xs ys : Bytes)
    → has_slash xs ≡ false
    → find_first (λ b. b == slash) (xs ++ slash ∷ ys) ≡ some (length xs)
unfolding find_first
find_first-slash [] ys h = refl
find_first-slash (x ∷ xs) ys h = ground (arith, find_first-slash xs ys)

drop_one_more : (xs ys : Bytes) (c : ℕ) → drop (suc (length xs)) (xs ++ c ∷ ys) ≡ ys
drop_one_more [] ys c = refl
drop_one_more (x ∷ xs) ys c = drop_one_more xs ys c

pub type_name_between :
    (base type_name rest : Bytes)
    → has_slash type_name ≡ false
    → get_type_name_from_path base (base ++ slash ∷ (type_name ++ slash ∷ rest)) ≡ type_name
unfolding get_type_name_from_path
type_name_between base type_name rest h =
    rw
      (
        take-append,
        (bytes_eq_iff base base).1 refl,
        add-one (length base),
        drop_one_more base (type_name ++ slash ∷ rest) slash,
        find_first-slash type_name rest h,
      )
      (rw (add-one (length base), drop_one_more base (type_name ++ slash ∷ rest) slash)
        (take-append type_name (slash ∷ rest)))

-- The type name read from a path name that `BuildPathname` made is the name it was made of,
-- where the path name is not empty and the type name has no slash.
pub get_type_name-build_pathname :
    (makes : Bytes → Bool) (id : ℕ) (base type_name file : Bytes) (create : Bool)
    → is_empty (build_pathname makes id base type_name file create) ≡ false
    → has_slash type_name ≡ false
    → get_type_name_from_path base (build_pathname makes id base type_name file create) ≡ type_name
unfolding digits get_file_extension
get_type_name-build_pathname makes id base type_name file create built h =
    rw (build_pathname-parts makes id base type_name file create built) (
      simp append_assoc (type_name_between base type_name (window id ++ get_file_extension file) h))

-- The id and the type name can be read from the path name.
pub record ReadsBack (base name : Bytes) (i : ℕ) (path : Bytes) : Type 0 where
  pub read : get_object_id_from_path path ≡ some i
  pub positive : (i == 0) ≡ false
  pub typed : get_type_name_from_path base path ≡ name

-- They can be read from a path name that `BuildPathname` made.
pub built-ReadsBack :
    (makes : Bytes → Bool) (base name file : Bytes) (i : ℕ)
    → has_dot base ≡ false
    → has_dot name ≡ false
    → has_slash name ≡ false
    → i < 2 ^ 54
    → is_empty (build_pathname makes i base name file false) ≡ false
    → ReadsBack base name i (build_pathname makes i base name file false)
built-ReadsBack makes base name file i dot plain whole h built = record {
  read = get_object_id-build_pathname makes i base name file false h built (inr (dot, plain));
  positive = let empty = build_pathname-is_empty makes i base name file false in ground arith;
  typed = get_type_name-build_pathname makes i base name file false built whole;
}
