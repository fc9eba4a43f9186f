-- ===== src/ObjectId/Codec.antt =====
-- `GetObjectIdFromPath` against `BuildPathname`.
pub mod Digits
pub mod Search
pub mod Built
use mathlib.Core.List.{append_assoc, append-nil}
use filecache.Base.{
  ℕ, zero, suc, ◌+◌, ◌-◌, ◌*◌, ◌/◌, ◌%◌, ◌^◌, ◌≤◌, ◌<◌, ◌≡◌, ◌≢◌, refl, sym, ap, ◌∙◌, ◌⊎◌, inl, inr,
  Bool, true, false, ◌&&◌, ◌||◌, not, Option, none, some, List, [], ◌∷◌, ◌++◌, arith, ltb, ◌==◌,
  if◌then◌else◌, Bool-cases, Option-cases, Bytes, length, take, drop, drop-append, length-append,
  length-drop, drop-append_le, take_all,
}
use Digits.{digit, digits, append_chars-digits, window, scan_id-window, digits_no_dot}
use Built.{type_dir, build_pathname-parts, build_pathname-is_empty}
use Search.{find_last-append_none, find_last-append_some, get_file_extension-cases}
use filecache.ObjectId.{
  byte_at, char_mapping, slash, dot, is_empty, append_file, append_chars, build_pathname, find_last,
  scan_id, end_position, id_before, get_file_extension, get_object_id_from_path,
}

length-window : (path : Bytes) (id : ℕ) → length (path ++ window id) ≡ length path + 10
unfolding digits
length-window path id = length-append path (window id)

last_ten :
    (path w rest : Bytes)
    → length w ≡ 10
    → take 10 (drop (length (path ++ w) - 9 - 1) ((path ++ w) ++ rest)) ≡ w
last_ten path w rest h =
    let n : length (path ++ w) - 9 - 1 ≡ length path = omega (arith, length-append path w) in
    rw (n, append_assoc path w rest, drop-append path (w ++ rest)) (take_all 10 w rest h)

id_before-window :
    (path rest : Bytes) (id : ℕ)
    → id < 2 ^ 54
    → id_before ((path ++ window id) ++ rest) (length (path ++ window id)) ≡ some id
unfolding id_before
id_before-window path rest id h =
    let n = length-window path id in
    let w = window id in
    let k : ltb (length (path ++ w)) 10 ≡ false = ground (arith, n) in
    rw (k, last_ten path w rest (length-window [] id), scan_id-window id h)

module _ (path ext : Bytes) where
  end_position-none :
      ext ≡ [] → find_last (λ b. b == dot) path ≡ none → end_position (path ++ ext) ≡ length path
  unfolding end_position
  end_position-none e h = ground (arith, append-nil path)

  end_position-dot :
      (ys : Bytes)
      → ext ≡ dot ∷ ys
      → find_last (λ b. b == dot) ys ≡ none
      → end_position (path ++ ext) ≡ length path
  unfolding end_position
  end_position-dot ys e h =
      rw e (ground (arith, find_last-append_some (λ b. b == dot) path ys dot refl h))

abbrev pub has_dot : Bytes → Bool
has_dot [] = false
has_dot (b ∷ bs) = if b == dot then true else has_dot bs

no_dot : (bs : Bytes) → has_dot bs ≡ false → find_last (λ b. b == dot) bs ≡ none
unfolding find_last
no_dot [] h = refl
no_dot (b ∷ bs) h = ground (arith, no_dot bs)

has_dot-append : (xs ys : Bytes) → has_dot (xs ++ ys) ≡ has_dot xs || has_dot ys
has_dot-append [] ys = refl
has_dot-append (x ∷ xs) ys = ground (arith, has_dot-append xs ys)

window_no_dot : (id : ℕ) → find_last (λ b. b == dot) (window id) ≡ none
unfolding find_last
window_no_dot id =
    find_last-append_none (λ b. b == dot) (digits id 8 1) (slash ∷ digits id 7 8)
      (rw (digits_no_dot id 7 8, find_last))
    ∙ digits_no_dot id 8 1

-- The id read from a path name that `BuildPathname` made is the id it was made of, for an id
-- below 2^54 where the path name is not empty, and either the file has an extension or neither
-- the base directory nor the type name has a dot.
pub get_object_id-build_pathname :
    (makes : Bytes → Bool) (id : ℕ) (base type_name file : Bytes) (create : Bool)
    → id < 2 ^ 54
    → is_empty (build_pathname makes id base type_name file create) ≡ false
    → (get_file_extension file ≢ []) ⊎ ((has_dot base ≡ false) × (has_dot type_name ≡ false))
    → get_object_id_from_path (build_pathname makes id base type_name file create) ≡ some id
unfolding get_object_id_from_path
get_object_id-build_pathname makes id base type_name file create h built named =
    rw (build_pathname-parts makes id base type_name file create built, end)
      (id_before-window (type_dir base type_name) (get_file_extension file) id h)
  where
    path : Bytes
    path = type_dir base type_name ++ window id

    end : end_position (path ++ get_file_extension file) ≡ length path
    end = elim (get_file_extension-cases file) [
      | inr (ys, e, d) ↦ end_position-dot path (get_file_extension file) ys e d
      | inl e ↦ elim named [
        | inl n ↦ absurd (n e)
        | inr (b, t) ↦ end_position-none path (get_file_extension file) e (
            find_last-append_none (λ b. b == dot) (type_dir base type_name) (window id)
              (window_no_dot id)
            ∙ no_dot (type_dir base type_name) (
                ground (
                  arith,
                  has_dot-append base (slash ∷ (type_name ++ slash ∷ [])),
                  has_dot-append type_name (slash ∷ []),
                )))
      ]
    ]

id_before-prefix : (p r r' : Bytes) → id_before (p ++ r) (length p) ≡ id_before (p ++ r') (length p)
unfolding id_before
id_before-prefix p r r' = elim (Bool-cases (ltb (length p) 10)) [
  | inl short ↦ rw short
  | inr long ↦ rw (long, first_ten r long, first_ten r' long)
]
  where
    first_ten :
        (q : Bytes)
        → ltb (length p) 10 ≡ false
        → take 10 (drop (length p - 9 - 1) (p ++ q)) ≡ drop (length p - 9 - 1) p
    first_ten q long = rw (drop-append_le (length p - 9 - 1) p q (omega arith)) (
        take_all 10 (drop (length p - 9 - 1) p) q
          (ground (arith, length-drop (length p - 9 - 1) p)))

-- A type name with a dot, in the path name of a file that has no extension.
module _ (base t u : Bytes) (d : has_dot u ≡ false) where
  -- What stands in front of the last dot of the type name, and behind it.
  abbrev front : Bytes
  front = base ++ slash ∷ t

  abbrev behind : ℕ → Bytes
  behind id = u ++ slash ∷ window id

  dotted_parts : (id : ℕ) → type_dir base (t ++ dot ∷ u) ++ window id ≡ front ++ dot ∷ behind id
  dotted_parts id = simp append_assoc

  behind_no_dot : (id : ℕ) → find_last (λ b. b == dot) (behind id) ≡ none
  unfolding find_last
  behind_no_dot id =
      find_last-append_none (λ b. b == dot) u (slash ∷ window id) (rw (window_no_dot id, find_last))
      ∙ no_dot u d

  dotted_read :
      (makes : Bytes → Bool) (id : ℕ) (file : Bytes)
      → id ≢ 0
      → get_file_extension file ≡ []
      → get_object_id_from_path (build_pathname makes id base (t ++ dot ∷ u) file false)
        ≡ id_before (front ++ dot ∷ behind id) (length front)
  unfolding get_object_id_from_path end_position
  dotted_read makes id file h e =
      rw
        (
          build_pathname-parts makes id base (t ++ dot ∷ u) file false built,
          e,
          append-nil,
          dotted_parts id,
        )
        (rw
          (
            find_last-append_some (λ b. b == dot) front (behind id) dot refl (behind_no_dot id),
            end_position,
          )
          refl)
    where
      built : is_empty (build_pathname makes id base (t ++ dot ∷ u) file false) ≡ false
      built = rw (build_pathname-is_empty makes id base (t ++ dot ∷ u) file false) (ground arith)

  -- Where the type name has a dot with no dot behind it, two path names for file names without
  -- an extension give the same reading of the id, whatever the two ids are, if neither is 0.
  pub get_object_id_dotted_type :
      (makes : Bytes → Bool) (id id' : ℕ) (file file' : Bytes)
      → id ≢ 0
      → id' ≢ 0
      → get_file_extension file ≡ []
      → get_file_extension file' ≡ []
      → get_object_id_from_path (build_pathname makes id base (t ++ dot ∷ u) file false)
        ≡ get_object_id_from_path (build_pathname makes id' base (t ++ dot ∷ u) file' false)
  get_object_id_dotted_type makes id id' file file' h h' e e' =
      dotted_read makes id file h e
      ∙ id_before-prefix front (dot ∷ behind id) (dot ∷ behind id')
      ∙ sym (dotted_read makes id' file' h' e')
