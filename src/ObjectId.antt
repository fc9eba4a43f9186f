-- ===== src/ObjectId.antt =====
-- Object ids and the path names that hold them: the free functions of src/CacheBase.cpp and
-- the constants of src/CacheBase.h.in. A path name is a list of bytes without a NUL.
pub mod Codec
pub mod TypeName
pub mod Depth
mod Tests
use filecache.Base.{
  ℕ, zero, suc, ◌+◌, ◌-◌, ◌*◌, ◌/◌, ◌%◌, ◌^◌, Bool, true, false, not, ◌&&◌, ◌||◌, Option, none,
  some, List, [], ◌∷◌, ◌++◌, ltb, ◌==◌, if◌then◌else◌, Bytes, codes, length, take, drop,
}
use filecache.Base.Word.{minus_one, is_negative}
use filecache.Base.Map.{bytes_eq}

abbrev pub slash : ℕ
slash = b'/'

abbrev pub dot : ℕ
dot = b'.'

abbrev pub blank : ℕ
blank = b' '

-- `s_charMapping`
abbrev pub char_mapping : Bytes
char_mapping = codes "ABCDEFGHIJKLMNOPQRSTUVWXYZabcdefghijklmnopqrstuvwxyz0123456789+_"

abbrev pub num_chars : ℕ
num_chars = 9

abbrev pub dir_chars : ℕ
dir_chars = 1

abbrev pub mask_size : ℕ
mask_size = 6

-- `s_maxId`
abbrev pub max_id : ℕ
max_id = 2 ^ 54 - 1

-- The byte of an array at an index; past its end stands the terminator.
abbrev pub byte_at : Bytes → ℕ → ℕ
byte_at [] i = 0
byte_at (b ∷ bs) zero = b
byte_at (b ∷ bs) (suc i) = byte_at bs i

-- The mask is 63 at bit 6 n, so that masking and shifting back leaves the digit n of base 64.
unfoldable pub get_char_n_from_object_id : ℕ → ℕ → ℕ
get_char_n_from_object_id object_id n =
    let index = object_id / 2 ^ (n * mask_size) % 64 in
    if ltb 64 index then blank else byte_at char_mapping index

-- `index`: where a byte stands first.
unfoldable pub index_of : ℕ → Bytes → Option ℕ
index_of c [] = none
index_of c (b ∷ bs) =
    if b == c then some 0 else elim (index_of c bs) [ some i ↦ some (suc i) | none ↦ none ]

unfoldable pub get_value_for_char : ℕ → ℕ
unfolding index_of
get_value_for_char c = elim (index_of c char_mapping) [ some i ↦ i | none ↦ minus_one ]

-- `rindex`, `rfind` and `find_last_of`: where a byte of a kind stands last.
unfoldable pub find_last : (ℕ → Bool) → Bytes → Option ℕ
find_last p [] = none
find_last p (b ∷ bs) = elim (find_last p bs) [
  | some i ↦ some (suc i)
  | none ↦ if p b then some 0 else none
]

-- The test behind the loop.
abbrev pub checked_id : ℕ → Bool → ℕ → ℕ
checked_id i found object_id = if found && (i == num_chars) then object_id else 0

-- The loop, over the bytes from `curPos` up to `endPos`. At a tenth character the source shifts
-- by a negative number; the id is discarded then.
unfoldable pub scan_id : Bytes → ℕ → Bool → ℕ → ℕ
scan_id [] i found object_id = checked_id i found object_id
scan_id (c ∷ cs) i found object_id =
    let marked = scan_id cs i true object_id in
    let value = get_value_for_char c in
    let read =
      scan_id cs (i + 1) found
        ((object_id + value * 2 ^ ((num_chars - i - 1) * mask_size)) % 2 ^ 64) in
    if c == slash
    then if i == dir_chars then marked else checked_id i found object_id
    else if is_negative value
    then 0
    else read

-- Where the extension begins, or the end.
unfoldable pub end_position : Bytes → ℕ
end_position file_path = elim (find_last (λ b. b == dot) file_path) [
  | some i ↦ i
  | none ↦ length file_path
]

-- The loop from the position that leaves room for an id and a slash. `none`: there is no such
-- position, and the loop would read in front of the path name.
unfoldable pub id_before : Bytes → ℕ → Option ℕ
id_before file_path end_pos =
    if ltb end_pos (num_chars + 1)
    then none
    else some (scan_id (take (num_chars + 1) (drop (end_pos - num_chars - 1) file_path)) 0 false 0)

unfoldable pub get_object_id_from_path : Bytes → Option ℕ
get_object_id_from_path file_path = id_before file_path (end_position file_path)

-- `find('/', 0)`
unfoldable pub find_first : (ℕ → Bool) → Bytes → Option ℕ
find_first p [] = none
find_first p (b ∷ bs) =
    if p b then some 0 else elim (find_first p bs) [ some i ↦ some (suc i) | none ↦ none ]

-- The type name is what stands between the base directory, one byte, and the next slash.
unfoldable pub get_type_name_from_path : Bytes → Bytes → Bytes
unfolding find_first
get_type_name_from_path base_dir_name file_path =
    let rest = drop (length base_dir_name + 1) file_path in
    if bytes_eq base_dir_name (take (length base_dir_name) file_path)
    then elim (find_first (λ b. b == slash) rest) [ some n ↦ take n rest | none ↦ [] ]
    else []

unfoldable pub get_directory_from_path : Bytes → Bytes
unfolding find_last
get_directory_from_path pathname = elim (find_last (λ b. b == slash) pathname) [
  | some i ↦ take i pathname
  | none ↦ []
]

abbrev pub is_dot_or_slash : ℕ → Bool
is_dot_or_slash b = b == dot || b == slash

unfoldable pub get_file_extension : Bytes → Bytes
unfolding find_last
get_file_extension file_path = elim (find_last is_dot_or_slash file_path) [
  | some i ↦ if byte_at file_path i == dot then drop i file_path else []
  | none ↦ []
]

unfoldable pub get_file_basename : Bytes → Bytes
unfolding find_last
get_file_basename file_path = elim (find_last is_dot_or_slash file_path) [
  | some i ↦ if byte_at file_path i == dot then take i file_path else []
  | none ↦ []
]

-- A `for` loop of `BuildPathname`, over `n` digits from the digit `i` down.
unfoldable pub append_chars : ℕ → ℕ → ℕ → Bytes → Bytes
append_chars object_id i zero pathname = pathname
append_chars object_id i (suc n) pathname =
    let c = get_char_n_from_object_id object_id i in
    let rest = append_chars object_id (i - 1) n (pathname ++ c ∷ []) in
    if c == blank then [] else rest

abbrev pub is_empty : Bytes → Bool
is_empty [] = true
is_empty (b ∷ bs) = false

-- The part of `BuildPathname` after its `mkdir`.
unfoldable pub append_file : ℕ → Bytes → Bytes → Bytes
append_file object_id file_name pathname =
    let path = append_chars object_id 7 8 (pathname ++ slash ∷ []) in
    if is_empty pathname
    then []
    else if is_empty file_name || is_empty path
    then path
    else path ++ get_file_extension file_name

-- `makes` answers for `mkdir`: true if the directory was made or was there.
unfoldable pub build_pathname : (Bytes → Bool) → ℕ → Bytes → Bytes → Bytes → Bool → Bytes
build_pathname makes object_id base_path type_name file_name create_dir =
    let dir = append_chars object_id 8 1 (base_path ++ slash ∷ (type_name ++ slash ∷ [])) in
    let made = if create_dir && not (is_empty dir) then if makes dir then dir else [] else dir in
    if object_id == 0 then [] else append_file object_id file_name made
