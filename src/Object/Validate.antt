-- ===== src/Object/Validate.antt =====
-- `Validate` of src/CacheObject.cpp, which checks an object that is being written against the size
-- that was reserved and writes a log, with `SumDir` of src/CacheBase.cpp.
use filecache.Base.{
  ℕ, ◌%◌, ◌<◌, ◌≡◌, Bool, true, false, not, ◌&&◌, Option, none, some, List, [], ◌∷◌, arith,
  if◌then◌else◌, Bytes,
}
use filecache.Base.Word.{word_mod, sign_bit, minus_one, add32, is_negative, le32}
use filecache.BlockSize.{get_filesystem_file_size}
use filecache.ObjectId.{is_empty}
use filecache.Os.{Os, Attribute}
use filecache.Object.{CacheObject, Place, get_pathname, stat_size, check_size, set_size_attribute}

-- The entries that `nftw` comes by, in order, each with whether its flag is one that `Sum` counts;
-- `none` where it fails.
abbrev pub Nftw : Type 0
Nftw = Bytes → Option (List (Bool × Bytes))

-- `Sum` on each entry: the walk ends at an entry that cannot be read.
unfoldable pub sum_entries : Os → List (Bool × Bytes) → ℕ → Option ℕ
sum_entries os [] sum = some sum
sum_entries os ((counted, path) ∷ entries) sum = elim (os.stat path) [
  | none ↦ if counted then none else sum_entries os entries sum
  | some st_size ↦
      sum_entries os entries
        (if counted then add32 sum (get_filesystem_file_size (st_size % word_mod)) else sum)
]

unfoldable pub sum_dir : Os → Nftw → Bytes → ℕ
sum_dir os nftw pathname = elim (nftw pathname) [
  | none ↦ minus_one
  | some entries ↦ elim (sum_entries os entries 0) [ none ↦ minus_one | some sum ↦ sum ]
]

-- What the log says.
pub data Verdict : Type 0 where
  valid : Verdict
  invalid : ℕ → Verdict
  no_size no_pathname no_filename : Verdict

abbrev pub found_size : Option ℕ → ℕ
found_size none = minus_one
found_size (some st_size) = st_size % word_mod

unfoldable pub validate_size : ℕ → CacheObject → Verdict
validate_size size o =
    if not (is_negative size) && le32 size o.size
    then Verdict.valid
    else if not (is_negative size)
    then Verdict.invalid size
    else Verdict.no_size

unfoldable pub validate : Os → Nftw → Place → CacheObject → Verdict
validate os nftw pl o =
    let pathname = get_pathname os pl o false in
    let size = if o.dir_type then sum_dir os nftw pathname else found_size (os.stat pathname) in
    if is_empty o.filename
    then Verdict.no_filename
    else if is_empty pathname
    then Verdict.no_pathname
    else validate_size size o

abbrev pub is_valid : Verdict → Bool
is_valid Verdict.valid = true
is_valid (Verdict.invalid size) = false
is_valid Verdict.no_size = false
is_valid Verdict.no_pathname = false
is_valid Verdict.no_filename = false

validate_size-check_size :
    (os : Os) (path : Bytes) (o : CacheObject) (size : ℕ)
    → o.size < sign_bit
    → size < sign_bit
    → os.setxattr path Attribute.size true ≡ true
    → is_valid (validate_size size o) ≡ (check_size os path size o).0
unfolding validate_size check_size set_size_attribute
validate_size-check_size os path o size m b x = ground arith

check_size_negative :
    (os : Os) (path : Bytes) (o : CacheObject) (size : ℕ)
    → o.size < sign_bit
    → size < word_mod
    → is_negative size ≡ true
    → os.setxattr path Attribute.size true ≡ true
    → (validate_size size o ≡ Verdict.no_size)
      × (check_size os path size o ≡ (true, record o { size = size }))
unfolding validate_size check_size set_size_attribute
check_size_negative os path o size m w b x = (ground arith, ground arith)

-- For a file object with a file name that is not empty, whose path name can be made and whose size
-- attribute can be set, where the reserved size is below 2^31 and the size that `stat` gives is so
-- as a 32-bit number: `Validate` finds the object valid exactly where the end of the writing
-- subscription accepts its size.
pub validate-stat_size :
    (os : Os) (nftw : Nftw) (pl : Place) (o : CacheObject) (st_size : ℕ)
    → o.dir_type ≡ false
    → is_empty o.filename ≡ false
    → is_empty (get_pathname os pl o false) ≡ false
    → os.stat (get_pathname os pl o false) ≡ some st_size
    → o.size < sign_bit
    → st_size % word_mod < sign_bit
    → os.setxattr (get_pathname os pl o false) Attribute.size true ≡ true
    → is_valid (validate os nftw pl o) ≡ (stat_size os (get_pathname os pl o false) o).0
unfolding validate stat_size get_pathname validate_size
validate-stat_size os nftw pl o st_size d f p s m b x =
    rw (d, f, p, s) (validate_size-check_size os _ o (st_size % word_mod) m b x)

-- For a file object with a file name that is not empty, whose path name can be made and whose size
-- attribute can be set, where the reserved size is below 2^31 and the size that `stat` gives is
-- negative as a 32-bit number: `Validate` finds no size, but the end of the writing subscription
-- accepts it, and the object takes the negative size.
pub stat_size_negative :
    (os : Os) (nftw : Nftw) (pl : Place) (o : CacheObject) (st_size : ℕ)
    → o.dir_type ≡ false
    → is_empty o.filename ≡ false
    → is_empty (get_pathname os pl o false) ≡ false
    → os.stat (get_pathname os pl o false) ≡ some st_size
    → o.size < sign_bit
    → is_negative (st_size % word_mod) ≡ true
    → os.setxattr (get_pathname os pl o false) Attribute.size true ≡ true
    → (validate os nftw pl o ≡ Verdict.no_size)
      × (stat_size os (get_pathname os pl o false) o
          ≡ (true, record o { size = st_size % word_mod }))
unfolding validate stat_size get_pathname validate_size
stat_size_negative os nftw pl o st_size d f p s m b x =
    let (logged, taken) = check_size_negative os _ o (st_size % word_mod) m (omega arith) b x in
    (rw (d, f, p, s) logged, rw (p, s) taken)
