-- ===== src/ObjectId/Codec/Built.antt =====
-- What `BuildPathname` puts together, and when it returns no name.
use mathlib.Core.List.{append_assoc, append-nil}
use filecache.Base.{
  ℕ, ◌≡◌, refl, sym, ap, ◌∙◌, Bool, false, ◌&&◌, ◌||◌, not, [], ◌∷◌, ◌++◌, arith, ◌==◌, Bytes,
}
use filecache.ObjectId.Codec.Digits.{digit, digits, append_chars-digits, window}
use filecache.ObjectId.{
  byte_at, char_mapping, slash, is_empty, append_file, build_pathname, find_last,
  get_file_extension,
}

is_empty-append : (xs ys : Bytes) (c : ℕ) → is_empty (xs ++ c ∷ ys) ≡ false
is_empty-append [] ys c = refl
is_empty-append (x ∷ xs) ys c = refl

-- The directory of a type.
abbrev pub type_dir : Bytes → Bytes → Bytes
type_dir base type_name = base ++ slash ∷ (type_name ++ slash ∷ [])

append_file-full :
    (id : ℕ) (file path : Bytes)
    → append_file id file (path ++ digits id 8 1)
      ≡ (((path ++ digits id 8 1) ++ slash ∷ []) ++ digits id 7 8) ++ get_file_extension file
unfolding append_file digits get_file_extension find_last
append_file-full id [] path = rw (append_chars-digits, is_empty-append) (sym (append-nil _))
append_file-full id (b ∷ bs) path = rw (append_chars-digits, is_empty-append, is_empty-append)

append_file-parts :
    (id : ℕ) (file path : Bytes)
    → append_file id file (path ++ digits id 8 1) ≡ (path ++ window id) ++ get_file_extension file
append_file-parts id file path =
    append_file-full id file path
    ∙ ap (λ q. q ++ get_file_extension file)
        (ap (λ q. q ++ digits id 7 8) (append_assoc path (digits id 8 1) (slash ∷ []))
          ∙ append_assoc path (digits id 8 1 ++ slash ∷ []) (digits id 7 8)
          ∙ ap (λ q. path ++ q) (append_assoc (digits id 8 1) (slash ∷ []) (digits id 7 8)))

-- Without its directory no name is built.
append_file-none : (id : ℕ) (file : Bytes) → append_file id file [] ≡ []
unfolding append_file
append_file-none id file = refl

-- A name that is built is the type's directory, ten bytes for the id, and the file's extension.
pub build_pathname-parts :
    (makes : Bytes → Bool) (id : ℕ) (base type_name file : Bytes) (create : Bool)
    → is_empty (build_pathname makes id base type_name file create) ≡ false
    → build_pathname makes id base type_name file create
      ≡ (type_dir base type_name ++ window id) ++ get_file_extension file
unfolding build_pathname
build_pathname-parts makes id base type_name file create h = ground (
  arith,
  append_chars-digits id 8 1 (type_dir base type_name),
  append_file-parts id file (type_dir base type_name),
  append_file-none id file,
)

is_empty_left : (xs ys : Bytes) → is_empty xs ≡ false → is_empty (xs ++ ys) ≡ false
is_empty_left [] ys h = cc
is_empty_left (x ∷ xs) ys h = refl

append_file-is_empty :
    (id : ℕ) (file path : Bytes) → is_empty (append_file id file (path ++ digits id 8 1)) ≡ false
unfolding digits
append_file-is_empty id file path = rw (append_file-parts id file path) (
    is_empty_left (path ++ window id) _
      (is_empty-append path (slash ∷ digits id 7 8) (byte_at char_mapping (digit id 8))))

-- `BuildPathname` returns no name exactly for the id 0 and where it cannot make the directory.
pub build_pathname-is_empty :
    (makes : Bytes → Bool) (id : ℕ) (base type_name file : Bytes) (create : Bool)
    → is_empty (build_pathname makes id base type_name file create)
      ≡ id == 0 || (create && not (makes (type_dir base type_name ++ digits id 8 1)))
unfolding build_pathname digits
build_pathname-is_empty makes id base type_name file create = ground (
  arith,
  append_chars-digits id 8 1 dir,
  is_empty-append dir [] (byte_at char_mapping (digit id 8)),
  append_file-is_empty id file dir,
  append_file-none id file,
)
  where
    dir : Bytes
    dir = type_dir base type_name
