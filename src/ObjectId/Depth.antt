-- ===== src/ObjectId/Depth.antt =====
-- How many separators a path name of src/CacheBase.cpp has, and what stands below another.
use filecache.Base.{
  ℕ, zero, suc, ◌+◌, ◌<◌, ◌≡◌, refl, ◌∙◌, inl, inr, Bool, false, none, [], ◌∷◌, ◌++◌, arith, ◌==◌,
  if◌then◌else◌, Bool-cases, Option-cases, Bytes, take, drop,
}
use filecache.ObjectId.{
  slash, dot, byte_at, is_empty, is_dot_or_slash, find_last, build_pathname, get_file_extension,
  get_directory_from_path,
}
use filecache.ObjectId.Codec.Digits.{digits, window, digits_no_slash}
use filecache.ObjectId.Codec.Built.{type_dir, build_pathname-parts}
use filecache.ObjectId.Codec.Search.{find_last-Found}
use filecache.ObjectId.TypeName.{has_slash}

abbrev pub depth : Bytes → ℕ
depth [] = 0
depth (b ∷ bs) = if b == slash then suc (depth bs) else depth bs

pub depth-append : (xs ys : Bytes) → depth (xs ++ ys) ≡ depth xs + depth ys
depth-append [] ys = omega arith
depth-append (x ∷ xs) ys = ground (arith, depth-append xs ys)

-- A path name below a directory has more separators than that.
pub depth_below : (dir path rest : Bytes) → path ≡ dir ++ slash ∷ rest → depth dir < depth path
depth_below dir path rest e = rw (e, depth-append dir (slash ∷ rest)) (omega arith)

depth-has_slash : (xs : Bytes) → has_slash xs ≡ false → depth xs ≡ 0
depth-has_slash [] h = refl
depth-has_slash (x ∷ xs) h = ground (arith, depth-has_slash xs)

depth-none : (xs : Bytes) → find_last (λ b. b == slash) xs ≡ none → depth xs ≡ 0
unfolding find_last
depth-none [] h = refl
depth-none (x ∷ xs) h = elim (Option-cases (find_last (λ b. b == slash) xs)) [
  | inr (j, e) ↦ ground arith
  | inl e ↦ ground (arith, depth-none xs e)
]

depth-no_separator : (xs : Bytes) → find_last is_dot_or_slash xs ≡ none → depth xs ≡ 0
unfolding find_last
depth-no_separator [] h = refl
depth-no_separator (x ∷ xs) h = elim (Option-cases (find_last is_dot_or_slash xs)) [
  | inr (j, e) ↦ ground arith
  | inl e ↦ ground (arith, depth-no_separator xs e)
]

depth-get_file_extension : (file : Bytes) → depth (get_file_extension file) ≡ 0
unfolding get_file_extension
depth-get_file_extension file = elim (Option-cases (find_last is_dot_or_slash file)) [
  | inl e ↦ rw (e, get_file_extension) refl
  | inr (i, e) ↦
      let f = find_last-Found is_dot_or_slash file i e in
      elim (Bool-cases (byte_at file i == dot)) [
        | inl d ↦
            rw (e, get_file_extension, d, f.rest)
              (ground (arith, depth-no_separator f.tail f.last, d))
        | inr d ↦ rw (e, get_file_extension, d) refl
      ]
]

depth-window : (id : ℕ) → depth (window id) ≡ 1
depth-window id =
    depth-append (digits id 8 1) (slash ∷ digits id 7 8)
    ∙ rw
        (
          depth-none (digits id 8 1) (digits_no_slash id 8 1),
          depth-none (digits id 7 8) (digits_no_slash id 7 8),
        )
        refl

-- A path name that `BuildPathname` makes is three levels below the base directory.
pub depth-build_pathname :
    (makes : Bytes → Bool) (id : ℕ) (base type_name file : Bytes)
    → is_empty (build_pathname makes id base type_name file false) ≡ false
    → has_slash type_name ≡ false
    → depth (build_pathname makes id base type_name file false) ≡ depth base + 3
depth-build_pathname makes id base type_name file built h =
    rw
      (
        build_pathname-parts makes id base type_name file false built,
        depth-append (type_dir base type_name ++ window id) (get_file_extension file),
        depth-append (type_dir base type_name) (window id),
        depth-append base (slash ∷ (type_name ++ slash ∷ [])),
        depth-append type_name (slash ∷ []),
        depth-has_slash type_name h,
        depth-window id,
        depth-get_file_extension file,
      )
      (omega arith)

depth-take : (i : ℕ) (xs : Bytes) → depth (take i xs) + depth (drop i xs) ≡ depth xs
depth-take zero xs = omega arith
depth-take (suc i) [] = omega arith
depth-take (suc i) (x ∷ xs) = ground (arith, depth-take i xs)

-- The directory of a path name has fewer separators.
pub depth-get_directory_from_path :
    (path : Bytes) → 0 < depth path → depth (get_directory_from_path path) < depth path
unfolding get_directory_from_path
depth-get_directory_from_path path h = elim (Option-cases (find_last (λ b. b == slash) path)) [
  | inl e ↦ rw (e, get_directory_from_path) h
  | inr (i, e) ↦
      let f = find_last-Found (λ b. b == slash) path i e in
      let hit = f.hit in
      let below : 0 < depth (drop i path) = rw (f.rest) (ground (arith, hit)) in
      let parts = depth-take i path in rw (e, get_directory_from_path) (omega arith)
]
