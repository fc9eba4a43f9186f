-- ===== src/CacheSet/Space.antt =====
-- The limits of the set of caches (src/FileCacheSet.cpp): the sums of the caches, and what
-- `CheckForSize`, the insertion and the definition of a type keep below the total space.
use filecache.Base.{
  ℕ, ◌+◌, ◌≡◌, ◌≤◌, ◌<◌, ◌⊎◌, inl, inr, Bool, true, Option, none, some, arith, [], ◌∷◌, Bool-cases,
  Option-cases, Bytes,
}
use filecache.Base.Word.{word_mod, sign_bit, add32, lt32}
use filecache.Base.Map
use filecache.Base.Map.{Map, ℕ_key, bytes_key}
use filecache.BlockSize.{get_filesystem_file_size}
use filecache.Os.{Os}
use filecache.Object
use filecache.Cache
use filecache.Cache.{FileCache}
use filecache.Config.{CacheParamValues, Entries, configure}
use filecache.CacheSet.State.{
  FileCacheSet, get_file_cache_for_type, sum_from, sum_of_cache_sizes, sum_of_lo_watermarks,
  avail_space, check_for_size,
}
use filecache.CacheSet.Objects.{Request, insert_with_id}
use filecache.CacheSet.Types.{define_type, avail_for_type}

-- The sizes and the low watermarks, summed without a bound.
abbrev pub total_size : FileCacheSet → ℕ
total_size s = Map.total (λ c. c.cache_size) s.cache_set

abbrev pub total_lo : FileCacheSet → ℕ
total_lo s = Map.total (λ c. c.lo_watermark) s.cache_set

sum_from_small :
    (f : FileCache → ℕ) (acc : ℕ) (m : Map Bytes FileCache)
    → acc + Map.total f m < word_mod
    → sum_from f acc m ≡ acc + Map.total f m
unfolding sum_from
sum_from_small f acc [] h = ground arith
sum_from_small f acc ((name, c) ∷ m) h = ground (arith, sum_from_small f (add32 acc (f c)) m)

-- Where `CheckForSize` accepts a size, the sizes of all caches and this one together are within
-- the total space, and the cache with it is below its high watermark: where the caches were
-- within the total space, and the total space, the high watermark and the cache with the size
-- are below 2^31.
pub check_for_size-true :
    (s : FileCacheSet) (c : FileCache) (size : ℕ)
    → s.total_cache_space < sign_bit
    → total_size s ≤ s.total_cache_space
    → c.cache_size + size < sign_bit
    → c.hi_watermark < sign_bit
    → check_for_size s c size ≡ true
    → (total_size s + size ≤ s.total_cache_space) × (c.cache_size + size < c.hi_watermark)
unfolding check_for_size avail_space sum_of_cache_sizes
check_for_size-true s c size b w f hi h =
    ground (arith, sum_from_small (λ c. c.cache_size) 0 s.cache_set)

-- An insertion that `CheckForSize` accepts, whether it succeeds or not, keeps the sum of the
-- cache sizes within the total space, where it was within it, the total space and the high
-- watermark of the type are below 2^31, and the size of the cache with the object is too.
pub insert_with_id_space :
    (os : Os) (s : FileCacheSet) (name : Bytes) (c : FileCache) (obj_id : ℕ) (r : Request)
    (written is_new : Bool)
    → get_file_cache_for_type s name ≡ some c
    → s.total_cache_space < sign_bit
    → total_size s ≤ s.total_cache_space
    → c.cache_size + get_filesystem_file_size r.size < sign_bit
    → c.hi_watermark < sign_bit
    → check_for_size s c (get_filesystem_file_size r.size) ≡ true
    → let s' = (insert_with_id os s name obj_id r written is_new).2 in
      (total_size s' ≤ s'.total_cache_space)
unfolding insert_with_id Object.make Cache.insert
insert_with_id_space os s name c obj_id r written is_new e b w f hi h =
    let (fits, below) = check_for_size-true s c (get_filesystem_file_size r.size) b w f hi h in
    let o = Object.make os obj_id r.filename r.size r.cost r.lifetime written c.dir_type in
    let put = Map.total-put (λ c. c.cache_size) name (Cache.insert c o).1 c s.cache_set e in
    elim (Bool-cases (Object.initialize os (Cache.place_of s.base_dir_name c) o is_new)) [
      | inl i ↦ rw (e, insert_with_id, i) (ground (arith, put, fits))
      | inr i ↦ rw (e, insert_with_id, i) w
    ]

-- A type is configured where its low watermark fits into the space that is left.
configure-lo :
    (os : Os) (base : Bytes) (avail : ℕ) (file : Option Entries) (address : ℕ) (name : Bytes)
    (p : CacheParamValues) (dir_type : Bool)
    → get_filesystem_file_size p.lo_watermark < sign_bit
    → (configure os base avail file (Cache.make address name) (some p) dir_type).0 ≡ true
    → ((configure os base avail file (Cache.make address name) (some p) dir_type).1.lo_watermark
        ≡ 0)
      ⊎ (lt32
            (configure os base avail file
              (Cache.make address name)
              (some p)
              dir_type).1.lo_watermark
            avail
          ≡ true)
unfolding configure Cache.make
configure-lo os base avail file address name p dir_type g h = ground arith

configure-lo_small :
    (os : Os) (base : Bytes) (avail : ℕ) (file : Option Entries) (address : ℕ) (name : Bytes)
    (p : CacheParamValues) (dir_type : Bool)
    → get_filesystem_file_size p.lo_watermark < sign_bit
    → (configure os base avail file (Cache.make address name) (some p) dir_type).0 ≡ true
    → (configure os base avail file (Cache.make address name) (some p) dir_type).1.lo_watermark
      < sign_bit
unfolding configure Cache.make
configure-lo_small os base avail file address name p dir_type g h = ground arith

lo_fits :
    (s : FileCacheSet) (lo : ℕ)
    → s.total_cache_space < sign_bit
    → total_lo s ≤ s.total_cache_space
    → (lo ≡ 0) ⊎ (lt32 lo (avail_for_type s) ≡ true)
    → lo < sign_bit
    → lo + total_lo s ≤ s.total_cache_space
unfolding sum_of_lo_watermarks
lo_fits s lo b w h r = ground (arith, sum_from_small (λ c. c.lo_watermark) 0 s.cache_set)

total-insert :
    (name : Bytes) (c : FileCache) (m : Map Bytes FileCache)
    → Map.find name m ≡ none
    → Map.total (λ c. c.lo_watermark) (Map.insert name c m)
      ≡ c.lo_watermark + Map.total (λ c. c.lo_watermark) m
unfolding Map.insert
total-insert name c m e = ground (arith, e, Map.total-place (λ c. c.lo_watermark) name c m)

-- `DefineType` with parameters keeps the sum of the low watermarks within the total space,
-- where it was within it, the total space is below 2^31, and the space on disk of the new low
-- watermark is below 2^31.
pub define_type-total_lo :
    (os : Os) (address : ℕ) (s : FileCacheSet) (name : Bytes) (file : Option Entries)
    (p : CacheParamValues) (dir_type : Bool)
    → s.total_cache_space < sign_bit
    → total_lo s ≤ s.total_cache_space
    → get_filesystem_file_size p.lo_watermark < sign_bit
    → total_lo (define_type os address s name file (some p) dir_type).set ≤ s.total_cache_space
unfolding define_type configure Cache.make sum_of_lo_watermarks Map.insert
define_type-total_lo os address s name file p dir_type b w g =
    let new_type = Cache.make address name in
    let r = configure os s.base_dir_name (avail_for_type s) file new_type (some p) dir_type in
    elim (Option-cases (get_file_cache_for_type s name)) [
      | inr (c, e) ↦ rw (e, define_type) w
      | inl e ↦ elim (Bool-cases r.0) [
        | inr d ↦ rw (e, define_type, d) w
        | inl d ↦
            rw (e, define_type, d)
              (rw (total-insert name r.1 s.cache_set e) (
                lo_fits s r.1.lo_watermark b w
                  (configure-lo os s.base_dir_name (avail_for_type s) file address name p dir_type g
                    d)
                  (configure-lo_small os s.base_dir_name (avail_for_type s) file address name p
                    dir_type g d)))
      ]
    ]

-- `CheckForSize` accepts the space on disk of every size above 2147475456 and below 2^31,
-- whatever space is left, where the high watermark and the cache size with two more blocks are
-- below 2^31: the sum overflows to a negative number.
pub check_for_size_huge :
    (s : FileCacheSet) (c : FileCache) (size : ℕ)
    → 2147475456 < size
    → size < sign_bit
    → c.cache_size + 8192 < sign_bit
    → c.hi_watermark < sign_bit
    → check_for_size s c (get_filesystem_file_size size) ≡ true
unfolding check_for_size avail_space get_filesystem_file_size
check_for_size_huge s c size l u b h = ground arith
