-- ===== src/Walk/Found.antt =====
-- Which files the walk of the cache directory (`ProcessFiles` of src/FileCacheSet.cpp) takes for
-- objects.
use mathlib.Core.Option.{none-ne-some}
use filecache.Base.{
  ℕ, ◌%◌, ◌≡◌, refl, ap, ◌∙◌, inl, inr, ◌⊎◌, Bool, true, false, Option, none, some, arith, ◌==◌,
  Option-cases, Bytes,
}
use filecache.Base.Word.{word_mod}
use filecache.Base.Map
use filecache.Base.Map.{ℕ_key, bytes_key}
use filecache.ObjectId.{get_object_id_from_path, get_type_name_from_path, is_empty}
use filecache.Os.{Os, Attribute, Perms}
use filecache.Object
use filecache.Cache
use filecache.Cache.{FileCache}
use filecache.CacheSet.State.{FileCacheSet, get_file_cache_for_type}
use filecache.CacheSet.Types.{define_type}
use filecache.CacheSet.Objects.{Request, insert_with_id}
use filecache.Bus.{get_or}
use filecache.Walk.{
  Disk, Walk, Mode, ProcessStatus, contains_name, create_type_if_needed, check_for_special_file,
  get_written, get_size, if_continue, with_attribute, insert_found, insert_valid, process_mode,
  process_entry, process_files, leave_dir, attribute_or, occurs, type_config_filename,
  seq_num_filename,
}

-- A file that is not written, or not of the size that was recorded.
abbrev pub IsUnfinished : Disk → Bytes → ℕ → Type 0
IsUnfinished disk path st_size =
    (attribute_or 0 (disk.getxattr path Attribute.written) ≡ 0)
    ⊎ ((st_size % word_mod == attribute_or 0 (disk.getxattr path Attribute.size)) ≡ false)

insert_found_unfinished :
    (disk : Disk) (path name : Bytes) (i st_size : ℕ) (w : Walk)
    → IsUnfinished disk path st_size
    → (insert_found disk path name i st_size false w).1 ≡ w
unfolding insert_found get_written get_size if_continue
insert_found_unfinished disk path name i st_size w (inl h) = ground arith
insert_found_unfinished disk path name i st_size w (inr h) = ground arith

create_type_if_needed-id_map :
    (disk : Disk) (name : Bytes) (w : Walk)
    → (create_type_if_needed disk name w).1.set.id_map ≡ w.set.id_map
unfolding create_type_if_needed define_type
create_type_if_needed-id_map disk name w = ground arith

if_continue-id_map :
    (w v : Walk) (stat : ProcessStatus) (next : ProcessStatus × Walk)
    → v.set.id_map ≡ w.set.id_map
    → next.1.set.id_map ≡ w.set.id_map
    → (if_continue stat v next).1.set.id_map ≡ w.set.id_map
unfolding if_continue
if_continue-id_map w v ProcessStatus.error next h k = h
if_continue-id_map w v ProcessStatus.complete next h k = h
if_continue-id_map w v ProcessStatus.continue next h k = k

check_for_special_file-id_map :
    (disk : Disk) (path : Bytes) (w : Walk)
    → (check_for_special_file disk path w).1.set.id_map ≡ w.set.id_map
unfolding check_for_special_file
check_for_special_file-id_map disk path w =
    ground (
      arith,
      create_type_if_needed-id_map disk (get_type_name_from_path w.set.base_dir_name path) w,
    )

insert_valid_unfinished :
    (disk : Disk) (path name : Bytes) (i st_size : ℕ) (w : Walk)
    → IsUnfinished disk path st_size
    → (insert_valid disk path name i st_size false w).1.set.id_map ≡ w.set.id_map
unfolding insert_valid
insert_valid_unfinished disk path name i st_size w u =
    let same =
      ap (λ (v : Walk). v.set.id_map) (insert_found_unfinished disk path name i st_size w u) in
    ground (arith, same)

process_mode_unfinished :
    (disk : Disk) (path name : Bytes) (i st_size : ℕ) (w : Walk)
    → IsUnfinished disk path st_size
    → (process_mode disk path name i Mode.regular st_size w).1.set.id_map ≡ w.set.id_map
unfolding process_mode
process_mode_unfinished disk path name i st_size w u =
    let special = check_for_special_file-id_map disk path w in
    let w' = (check_for_special_file disk path w).1 in
    let created = create_type_if_needed-id_map disk name w' ∙ special in
    let w'' = (create_type_if_needed disk name w').1 in
    if_continue-id_map w w' (check_for_special_file disk path w).0 _ special (
      if_continue-id_map w w'' (create_type_if_needed disk name w').0 _ created
        (insert_valid_unfinished disk path name i st_size w'' u ∙ created))

-- Where `ProcessFiles` gives a state for a regular file that is not marked as written, or whose
-- size as a 32-bit number is not the recorded one, no id enters the id map.
pub process_files_unfinished :
    (disk : Disk) (path : Bytes) (st_size : ℕ) (w w' : Walk) (ok : Bool)
    → disk.fstat path ≡ some (Mode.regular, st_size)
    → IsUnfinished disk path st_size
    → process_files disk path w ≡ some (ok, w')
    → w'.set.id_map ≡ w.set.id_map
unfolding process_files process_entry
process_files_unfinished disk path st_size w w' ok f u e =
    elim (Option-cases (get_object_id_from_path path)) [
      | inl g ↦ absurd (none-ne-some (ok, w') (rw (g, process_files) at e))
      | inr (i, g) ↦
          let name = get_type_name_from_path w.set.base_dir_name path in
          let gone = rw (g, process_files, f) at e in
          let result = ap (λ (o : Option (Bool × Walk)). (get_or (ok, w') o).1.set.id_map) gone in
          let here = process_mode_unfinished disk path name i st_size w u in
          let left = process_mode_unfinished disk path name i st_size (leave_dir w) u in
          ground (arith, here, left, result)
    ]

-- A file that was written, with all its attributes.
pub record IsFinished (disk : Disk) (path : Bytes) (st_size : ℕ) (r : Request) : Type 0 where
  pub number : ℕ
  pub written : disk.getxattr path Attribute.written ≡ some number
  pub nonzero : (number == 0) ≡ false
  pub chmod : disk.os.chmod path Perms.file_ro ≡ true
  pub size : disk.getxattr path Attribute.size ≡ some r.size
  pub same : (st_size % word_mod == r.size) ≡ true
  pub name : disk.get_name path ≡ some r.filename
  pub cost : disk.getxattr path Attribute.cost ≡ some r.cost
  pub lifetime : disk.getxattr path Attribute.lifetime ≡ some r.lifetime

get_written-finished :
    (disk : Disk) (path : Bytes) (st_size : ℕ) (r : Request) (k : IsFinished disk path st_size r)
    → get_written disk path false ≡ (ProcessStatus.continue, k.number)
unfolding get_written
get_written-finished disk path st_size r k = rw (k.written, k.nonzero, k.chmod) refl

get_size-finished :
    (disk : Disk) (path : Bytes) (st_size : ℕ) (r : Request)
    → IsFinished disk path st_size r
    → get_size disk path st_size false ≡ (ProcessStatus.continue, r.size)
unfolding get_size
get_size-finished disk path st_size r k = rw (k.size, k.same) refl

-- The walk with the object.
abbrev pub with_object : Disk → Walk → Bytes → ℕ → Request → Walk
with_object disk w name i r = record w {
  set = (insert_with_id disk.os w.set name i r true false).2;
}

insert_found-finished :
    (disk : Disk) (path name : Bytes) (i st_size : ℕ) (w : Walk) (r : Request)
    → IsFinished disk path st_size r
    → insert_found disk path name i st_size false w
      ≡ (ProcessStatus.continue, with_object disk w name i r)
unfolding insert_found if_continue with_attribute
insert_found-finished disk path name i st_size w r k =
    rw
      (
        get_written-finished disk path st_size r k,
        get_size-finished disk path st_size r k,
        k.name,
        k.cost,
        k.lifetime,
        k.nonzero,
      )
      refl

process_mode-finished :
    (disk : Disk) (path name : Bytes) (i st_size : ℕ) (w : Walk) (r : Request)
    → (i == 0) ≡ false
    → contains_name name w.types ≡ true
    → occurs type_config_filename path ≡ false
    → occurs seq_num_filename path ≡ false
    → IsFinished disk path st_size r
    → process_mode disk path name i Mode.regular st_size w
      ≡ (ProcessStatus.continue, with_object disk w name i r)
unfolding process_mode check_for_special_file create_type_if_needed insert_valid if_continue
process_mode-finished disk path name i st_size w r z t a b k =
    rw (a, b, t, z) (insert_found-finished disk path name i st_size w r k)

pub inserted_cache :
    (os : Os) (s : FileCacheSet) (name : Bytes) (c : FileCache) (i : ℕ) (r : Request)
    → get_file_cache_for_type s name ≡ some c
    → get_file_cache_for_type (insert_with_id os s name i r true false).2 name
      ≡ some
          (Cache.insert c (Object.make os i r.filename r.size r.cost r.lifetime true c.dir_type)).1
unfolding insert_with_id Object.initialize
inserted_cache os s name c i r e = rw (e, insert_with_id) (Map.find-put_self name _ c s.cache_set e)

inserted_object :
    (os : Os) (c : FileCache) (i : ℕ) (r : Request)
    → Map.find i c.cached_objects ≡ none
    → let o = Object.make os i r.filename r.size r.cost r.lifetime true c.dir_type in
      Map.find i (Cache.insert c o).1.cached_objects ≡ some o
unfolding Cache.insert Object.make
inserted_object os c i r f = Map.find-insert i _ c.cached_objects f

-- The walk goes on with the object of a finished file.
pub process_files_finished :
    (disk : Disk) (path : Bytes) (w : Walk) (i st_size : ℕ) (r : Request)
    → let name = get_type_name_from_path w.set.base_dir_name path in
      get_object_id_from_path path ≡ some i
      → (i == 0) ≡ false
      → contains_name name w.types ≡ true
      → is_empty w.dir_type_dir ≡ true
      → occurs type_config_filename path ≡ false
      → occurs seq_num_filename path ≡ false
      → disk.fstat path ≡ some (Mode.regular, st_size)
      → IsFinished disk path st_size r
      → process_files disk path w ≡ some (true, with_object disk w name i r)
unfolding process_files process_entry
process_files_finished disk path w i st_size r read z t d a b s k =
    let name = get_type_name_from_path w.set.base_dir_name path in
    rw (read, process_files, s, d, process_mode-finished disk path name i st_size w r z t a b k)
      refl

-- `ProcessFiles` of a regular file with a valid id that is no special file and not within a
-- directory object, in a type that was met before and has a cache without this id: where the
-- file is marked as written, its permissions can be set, it has the recorded size as a 32-bit
-- number and all its attributes, the walk goes on, and the cache of the type has an object with
-- the id and these attributes, which is written.
process_files_restores :
    (disk : Disk) (path : Bytes) (w : Walk) (c : FileCache) (i st_size : ℕ) (r : Request)
    → let name = get_type_name_from_path w.set.base_dir_name path in
      get_object_id_from_path path ≡ some i
      → (i == 0) ≡ false
      → contains_name name w.types ≡ true
      → get_file_cache_for_type w.set name ≡ some c
      → Map.find i c.cached_objects ≡ none
      → is_empty w.dir_type_dir ≡ true
      → occurs type_config_filename path ≡ false
      → occurs seq_num_filename path ≡ false
      → disk.fstat path ≡ some (Mode.regular, st_size)
      → IsFinished disk path st_size r
      → (w' : Walk) × (c' : FileCache) × (process_files disk path w ≡ some (true, w'))
        × (get_file_cache_for_type w'.set name ≡ some c')
        × (Map.find i c'.cached_objects
            ≡ some (Object.make disk.os i r.filename r.size r.cost r.lifetime true c.dir_type))
unfolding Object.make
process_files_restores disk path w c i st_size r read z t e f d a b s k =
    let name = get_type_name_from_path w.set.base_dir_name path in
    (
      with_object disk w name i r,
      (Cache.insert c
          (Object.make disk.os i r.filename r.size r.cost r.lifetime true c.dir_type)).1,
      process_files_finished disk path w i st_size r read z t d a b s k,
      inserted_cache disk.os w.set name c i r e,
      inserted_object disk.os c i r f,
    )
