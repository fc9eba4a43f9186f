-- ===== src/Walk/Inside.antt =====
-- What `ProcessFiles` of src/FileCacheSet.cpp does with the content of a directory object.
use filecache.Base.{
  ℕ, ◌≡◌, ◌∙◌, refl, ap, sym, Bool, true, false, ◌&&◌, Option, some, none, List, [], ◌∷◌, inl, inr,
  ◌==◌, if◌then◌else◌, Bool-cases, Bytes, All,
}
use filecache.ObjectId.{is_empty, get_object_id_from_path, get_type_name_from_path}
use filecache.CacheSet.State.{is_type_dir_type}
use filecache.Bus.{get_or}
use filecache.Walk.{
  Disk, Walk, Mode, ProcessStatus, process_files, process_entry, process_mode, insert_valid,
  insert_found, if_continue, with_attribute, contains_name, is_prefix, is_top_level_directory,
  get_written, get_size, is_directory, leave_dir, occurs, type_config_filename, seq_num_filename,
  check_for_special_file, create_type_if_needed,
}
use filecache.Walk.Tree.{process_all}

-- A path name that begins with the one of a directory, and that an id or 0 can be read from.
pub record IsInside (dir path : Bytes) : Type 0 where
  pub begins : is_prefix dir path ≡ true
  pub obj_id : ℕ
  pub read : get_object_id_from_path path ≡ some obj_id

-- It is passed over in the directory.
process_files_stays :
    (disk : Disk) (path : Bytes) (w : Walk)
    → is_empty w.dir_type_dir ≡ false
    → IsInside w.dir_type_dir path
    → process_files disk path w ≡ some (true, w)
unfolding process_files
process_files_stays disk path w n h =
    elim (Bool-cases (is_directory (disk.fstat path) && is_top_level_directory w.set path)) [
      | inl top ↦ rw (h.read, process_files, top) refl
      | inr top ↦ rw (h.read, process_files, top, n, h.begins) refl
    ]

process_all_stays :
    (disk : Disk) (paths : List Bytes) (w : Walk)
    → is_empty w.dir_type_dir ≡ false
    → All (IsInside w.dir_type_dir) paths
    → process_all disk paths w ≡ some (true, w)
unfolding process_all
process_all_stays disk [] w n a = refl
process_all_stays disk (p ∷ ps) w n a =
    rw (process_files_stays disk p w n a.0, process_all) (process_all_stays disk ps w n a.1)

if_continue-dir :
    (st : ProcessStatus) (w : Walk) (next : ProcessStatus × Walk)
    → next.1.dir_type_dir ≡ w.dir_type_dir
    → (if_continue st w next).1.dir_type_dir ≡ w.dir_type_dir
unfolding if_continue
if_continue-dir ProcessStatus.error w next h = refl
if_continue-dir ProcessStatus.complete w next h = refl
if_continue-dir ProcessStatus.continue w next h = h

with_attribute-dir :
    {A : Type 0} (a : Option A) (w : Walk) (f : A → ProcessStatus × Walk)
    → ((x : A) → (f x).1.dir_type_dir ≡ w.dir_type_dir)
    → (with_attribute a w f).1.dir_type_dir ≡ w.dir_type_dir
unfolding with_attribute
with_attribute-dir none w f h = refl
with_attribute-dir (some x) w f h = h x

insert_valid-dir :
    (disk : Disk) (path name : Bytes) (i st_size : ℕ) (dir_type : Bool) (w : Walk)
    → (insert_valid disk path name i st_size dir_type w).1.dir_type_dir ≡ w.dir_type_dir
unfolding insert_valid insert_found
insert_valid-dir disk path name i st_size dir_type w = elim (Bool-cases (i == 0)) [
  | inl z ↦ rw (z) refl
  | inr z ↦ rw (z) (
      if_continue-dir (get_written disk path dir_type).0 w _ (
        if_continue-dir (get_size disk path st_size dir_type).0 w _ (
          with_attribute-dir (disk.get_name path) w _ λ a.
            with_attribute-dir (disk.getxattr path _) w _
              λ b. with_attribute-dir (disk.getxattr path _) w _ λ c. refl)))
]

-- Directly after `ProcessFiles` of a directory with a valid id, below the top and in a directory
-- type that was met before, whatever its attributes are, while the walk is in no other directory
-- object: the loop over path names that begin with the one of the directory, and that an id or 0
-- can be read from, goes through and leaves the set as it is.
pub process_all_inside :
    (disk : Disk) (dir : Bytes) (paths : List Bytes) (w w' : Walk) (ok : Bool) (i st_size : ℕ)
    → let name = get_type_name_from_path w.set.base_dir_name dir in
      get_object_id_from_path dir ≡ some i
      → (i == 0) ≡ false
      → is_empty dir ≡ false
      → disk.fstat dir ≡ some (Mode.directory, st_size)
      → is_top_level_directory w.set dir ≡ false
      → is_empty w.dir_type_dir ≡ true
      → contains_name name w.types ≡ true
      → is_type_dir_type w.set name ≡ true
      → process_files disk dir w ≡ some (ok, w')
      → All (IsInside dir) paths
      → process_all disk paths w' ≡ some (true, w')
unfolding process_files process_entry process_mode
process_all_inside disk dir paths w w' ok i st_size read z n f top out met typed e a =
    let started : Walk = record w { dir_type_dir = dir } in
    let name = get_type_name_from_path w.set.base_dir_name dir in
    let reached = rw (read, process_files, f, top, out, met, typed, z) at e in
    let same : w'.dir_type_dir ≡ dir =
      sym (ap (λ (o : Option (Bool × Walk)). (get_or (ok, w') o).1.dir_type_dir) reached)
      ∙ insert_valid-dir disk dir name i st_size true started in
    process_all_stays disk paths w' (rw (same) n) (rw (same) a)

-- What has no id is given to `unlink`.
process_mode-unlink :
    (disk : Disk) (path name : Bytes) (st_size : ℕ) (w : Walk)
    → contains_name name w.types ≡ true
    → occurs type_config_filename path ≡ false
    → occurs seq_num_filename path ≡ false
    → process_mode disk path name 0 Mode.regular st_size w
      ≡ (if disk.os.unlink path then ProcessStatus.complete else ProcessStatus.error, w)
unfolding process_mode check_for_special_file create_type_if_needed insert_valid if_continue
process_mode-unlink disk path name st_size w met t q = rw (t, q, met) refl

-- `ProcessFiles` of a second directory object, while the walk is in a first one that it is not in,
-- and with a valid id, below the top and in a directory type that was met before: directly after
-- it, a regular file in the first directory and not in the second, no special file by its name, in
-- a type that was met and with the id 0, is given to `unlink`; whether the walk goes on is the
-- answer of `unlink`, and the set is left as it is.
pub process_files_sibling :
    (disk : Disk) (dir path : Bytes) (w w' : Walk) (ok : Bool) (i st_size file_size : ℕ)
    → let name = get_type_name_from_path w.set.base_dir_name dir in
      get_object_id_from_path dir ≡ some i
      → (i == 0) ≡ false
      → is_empty dir ≡ false
      → disk.fstat dir ≡ some (Mode.directory, st_size)
      → is_top_level_directory w.set dir ≡ false
      → is_empty w.dir_type_dir ≡ false
      → is_prefix w.dir_type_dir dir ≡ false
      → contains_name name w.types ≡ true
      → is_type_dir_type w.set name ≡ true
      → process_files disk dir w ≡ some (ok, w')
      → is_prefix w.dir_type_dir path ≡ true
      → is_prefix dir path ≡ false
      → get_object_id_from_path path ≡ some 0
      → disk.fstat path ≡ some (Mode.regular, file_size)
      → contains_name (get_type_name_from_path w'.set.base_dir_name path) w'.types ≡ true
      → occurs type_config_filename path ≡ false
      → occurs seq_num_filename path ≡ false
      → process_files disk path w' ≡ some (disk.os.unlink path, leave_dir w')
unfolding process_files process_entry process_mode
process_files_sibling disk dir path w w' ok i st_size file_size read z n f top inside apart met
      typed e within beside no_id g met' t q =
    let started : Walk = record w { dir_type_dir = dir } in
    let name = get_type_name_from_path w.set.base_dir_name dir in
    let reached = rw (read, process_files, f, top, inside, apart, met, typed, z) at e in
    let same : w'.dir_type_dir ≡ dir =
      sym (ap (λ (o : Option (Bool × Walk)). (get_or (ok, w') o).1.dir_type_dir) reached)
      ∙ insert_valid-dir disk dir name i st_size true started in
    let unlinked =
      process_mode-unlink disk path (get_type_name_from_path w'.set.base_dir_name path) file_size
        (leave_dir w') met' t q in
    elim (Bool-cases (disk.os.unlink path)) [
      | inl b ↦ rw (no_id, process_files, g, same, n, beside, unlinked, b) refl
      | inr b ↦ rw (no_id, process_files, g, same, n, beside, unlinked, b) refl
    ]
