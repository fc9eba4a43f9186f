-- ===== src/Walk/Started.antt =====
-- The walk of the cache directory (src/FileCacheSet.cpp) leaves the counts: an object that it
-- finds has no subscription.
use filecache.Base.{
  ℕ, ◌+◌, ◌≡◌, refl, inl, inr, Bool, true, false, not, Option, none, some, List, [], ◌∷◌, arith,
  ◌==◌, Bool-cases, Option-cases, Bytes, All, length, take, drop,
}
use filecache.Base.Map.{bytes_eq}
use filecache.ObjectId.{slash, find_first, get_object_id_from_path, get_type_name_from_path}
use filecache.ObjectId.Codec.{has_dot}
use filecache.ObjectId.TypeName.{has_slash}
use filecache.Os.{Attribute}
use filecache.CacheSet.Counts.{IsPlain, SetCounts, SetCounts-refl, SetCounts-trans}
use filecache.CacheSet.Counts.Inserts.{insert_with_id-SetCounts}
use filecache.CacheSet.Counts.Defined.{define_type-SetCounts}
use filecache.Walk.{
  Disk, Walk, Mode, ProcessStatus, create_type_if_needed, check_for_special_file, get_written,
  get_size, if_continue, with_attribute, insert_found, insert_valid, process_mode, process_entry,
  process_files, leave_dir,
}
use filecache.Walk.Tree.{Listing, Listings, process_all}

-- A step of the walk.
abbrev Steps : Walk → ProcessStatus × Walk → Type 0
Steps w r = SetCounts w.set r.1.set

if_continue-Steps :
    (w v : Walk) (stat : ProcessStatus) (next : ProcessStatus × Walk)
    → SetCounts w.set v.set
    → Steps w next
    → Steps w (if_continue stat v next)
unfolding if_continue
if_continue-Steps w v ProcessStatus.error next h k = h
if_continue-Steps w v ProcessStatus.complete next h k = h
if_continue-Steps w v ProcessStatus.continue next h k = k

with_attribute-Steps {ℓ} :
    {A : Type ℓ} (w : Walk) (o : Option A) (f : A → ProcessStatus × Walk)
    → ((a : A) → Steps w (f a))
    → Steps w (with_attribute o w f)
unfolding with_attribute
with_attribute-Steps w none f k = SetCounts-refl w.set
with_attribute-Steps w (some a) f k = k a

create_type_if_needed-Steps :
    (disk : Disk) (name : Bytes) (w : Walk)
    → IsPlain name
    → Steps w (create_type_if_needed disk name w)
unfolding create_type_if_needed
create_type_if_needed-Steps disk name w plain =
    let defined =
      define_type-SetCounts disk.os (disk.address name) w.set name (disk.config name) none false
        plain in
    let same = SetCounts-refl w.set in ground (arith, defined, same)

check_for_special_file-Steps :
    (disk : Disk) (path : Bytes) (w : Walk)
    → IsPlain (get_type_name_from_path w.set.base_dir_name path)
    → Steps w (check_for_special_file disk path w)
unfolding check_for_special_file
check_for_special_file-Steps disk path w plain =
    let created =
      create_type_if_needed-Steps disk (get_type_name_from_path w.set.base_dir_name path) w plain in
    let same = SetCounts-refl w.set in ground (arith, created, same)

insert_found-Steps :
    (disk : Disk) (path name : Bytes) (i st_size : ℕ) (dir_type : Bool) (w : Walk)
    → Steps w (insert_found disk path name i st_size dir_type w)
unfolding insert_found
insert_found-Steps disk path name i st_size dir_type w =
    let same = SetCounts-refl w.set in
    let (written_stat, written) = get_written disk path dir_type in
    let (size_stat, size) = get_size disk path st_size dir_type in
    if_continue-Steps w w written_stat _ same (
      if_continue-Steps w w size_stat _ same (
        with_attribute-Steps w (disk.get_name path) _ (λ file_name.
          with_attribute-Steps w (disk.getxattr path Attribute.cost) _ (λ cost.
            with_attribute-Steps w (disk.getxattr path Attribute.lifetime) _ (λ lifetime.
              insert_with_id-SetCounts disk.os w.set name i
                (record { filename = file_name; size = size; cost = cost; lifetime = lifetime })
                (not (written == 0)) false)))))

insert_valid-Steps :
    (disk : Disk) (path name : Bytes) (i st_size : ℕ) (dir_type : Bool) (w : Walk)
    → Steps w (insert_valid disk path name i st_size dir_type w)
unfolding insert_valid
insert_valid-Steps disk path name i st_size dir_type w =
    let found = insert_found-Steps disk path name i st_size dir_type w in
    let same = SetCounts-refl w.set in ground (arith, found, same)

process_mode-Steps :
    (disk : Disk) (path : Bytes) (i st_size : ℕ) (mode : Mode) (w : Walk)
    → IsPlain (get_type_name_from_path w.set.base_dir_name path)
    → Steps w
        (process_mode disk path (get_type_name_from_path w.set.base_dir_name path) i mode st_size w)
unfolding process_mode
process_mode-Steps disk path i st_size Mode.regular w plain =
    let name = get_type_name_from_path w.set.base_dir_name path in
    let w' = (check_for_special_file disk path w).1 in
    let w'' = (create_type_if_needed disk name w').1 in
    let special = check_for_special_file-Steps disk path w plain in
    let created = SetCounts-trans special (create_type_if_needed-Steps disk name w' plain) in
    let valid = SetCounts-trans created (insert_valid-Steps disk path name i st_size false w'') in
    if_continue-Steps w w' (check_for_special_file disk path w).0 _ special
      (if_continue-Steps w w'' (create_type_if_needed disk name w').0 _ created valid)
process_mode-Steps disk path i st_size Mode.directory w plain =
    let name = get_type_name_from_path w.set.base_dir_name path in
    let valid =
      insert_valid-Steps disk path name i st_size true (record w { dir_type_dir = path }) in
    let same = SetCounts-refl w.set in ground (arith, valid, same)
process_mode-Steps disk path i st_size Mode.other w plain =
    insert_valid-Steps disk path _ i st_size false w

process_entry-Steps :
    (disk : Disk) (path : Bytes) (i : ℕ) (stat : Option (Mode × ℕ)) (w : Walk)
    → IsPlain (get_type_name_from_path w.set.base_dir_name path)
    → Steps w (process_entry disk path (get_type_name_from_path w.set.base_dir_name path) i stat w)
unfolding process_entry
process_entry-Steps disk path i none w plain = SetCounts-refl w.set
process_entry-Steps disk path i (some (mode, st_size)) w plain =
    process_mode-Steps disk path i st_size mode w plain

-- What stands before the first slash.
abbrev Before : Bytes → Option ℕ → Type 0
Before bs none = Unit
Before bs (some n) = has_slash (take n bs) ≡ false

find_first-Before : (bs : Bytes) → Before bs (find_first (λ b. b == slash) bs)
unfolding find_first
find_first-Before [] = tt
find_first-Before (b ∷ bs) =
    let rest = find_first-Before bs in
    elim (Bool-cases (b == slash)) [
      | inl h ↦ rw (h, Before) refl
      | inr h ↦ elim (Option-cases (find_first (λ x. x == slash) bs)) [
        | inl e ↦ rw (h, Before, find_first, e) tt
        | inr (n, e) ↦ rw (h, Before, find_first, e, h) (rw (e, Before) at rest)
      ]
    ]

-- A type name that is read from a path name has no slash.
get_type_name_no_slash : (base path : Bytes) → has_slash (get_type_name_from_path base path) ≡ false
unfolding get_type_name_from_path
get_type_name_no_slash base path =
    let rest = drop (length base + 1) path in
    let before = find_first-Before rest in
    elim (Bool-cases (bytes_eq base (take (length base) path))) [
      | inr h ↦ rw (h) refl
      | inl h ↦ elim (Option-cases (find_first (λ b. b == slash) rest)) [
        | inl e ↦ rw (h, e) refl
        | inr (n, e) ↦ rw (h, e) (rw (e, Before) at before)
      ]
    ]

abbrev pub StepsIf {ℓ} : {A : Type ℓ} → Walk → Option (A × Walk) → Type 0
StepsIf w none = Unit
StepsIf w (some r) = SetCounts w.set r.1.set

pub StepsIf-trans {ℓ} :
    {A : Type ℓ} (w v : Walk) (r : Option (A × Walk))
    → SetCounts w.set v.set
    → StepsIf v r
    → StepsIf w r
StepsIf-trans w v none h k = tt
StepsIf-trans w v (some r) h k = SetCounts-trans h k

process_files-StepsIf :
    (disk : Disk) (path : Bytes) (w : Walk)
    → has_dot (get_type_name_from_path w.set.base_dir_name path) ≡ false
    → StepsIf w (process_files disk path w)
unfolding process_files
process_files-StepsIf disk path w dot = elim (Option-cases (get_object_id_from_path path)) [
  | inl e ↦ rw (e, StepsIf) tt
  | inr (i, e) ↦
      let plain : IsPlain (get_type_name_from_path w.set.base_dir_name path) = record {
        no_dot = dot;
        no_slash = get_type_name_no_slash w.set.base_dir_name path;
      } in
      let same = SetCounts-refl w.set in
      let here = process_entry-Steps disk path i (disk.fstat path) w plain in
      let left = process_entry-Steps disk path i (disk.fstat path) (leave_dir w) plain in
      rw (e, StepsIf) (ground (arith, here, left, same))
]

-- The type names of the path names that the walk comes by have no dot.
abbrev pub IsDotless : Bytes → Bytes → Type 0
IsDotless base path = has_dot (get_type_name_from_path base path) ≡ false

pub process_all-StepsIf :
    (disk : Disk) (paths : List Bytes) (w : Walk)
    → All (IsDotless w.set.base_dir_name) paths
    → StepsIf w (process_all disk paths w)
unfolding process_all
process_all-StepsIf disk [] w a = SetCounts-refl w.set
process_all-StepsIf disk (path ∷ paths) w a =
    let first = process_files-StepsIf disk path w a.0 in
    elim (Option-cases (process_files disk path w)) [
      | inl e ↦ rw (e, StepsIf) tt
      | inr ((ok, w'), e) ↦
          let step : SetCounts w.set w'.set = rw (e, StepsIf) at first in
          let rest = process_all-StepsIf disk paths w' (rw (step.base) a.1) in
          elim (Bool-cases ok) [
            | inl b ↦ rw (e, StepsIf, b) (StepsIf-trans w w' _ step rest)
            | inr b ↦ rw (e, StepsIf, b) step
          ]
    ]

unfoldable mutual
  pub AllDotless : Bytes → Listing → Type 0
  AllDotless base Listing.throws = Unit
  AllDotless base (Listing.lists paths dirs) = All (IsDotless base) paths × EachDotless base dirs

  pub EachDotless : Bytes → Listings → Type 0
  EachDotless base Listings.empty = Unit
  EachDotless base (Listings.more dir dirs) = AllDotless base dir × EachDotless base dirs
