-- ===== src/Walk.antt =====
-- The walk of the cache directory at the start, `WalkDirTree` of src/FileCacheSet.cpp: the caches
-- are rebuilt from the files and their extended attributes. What is deleted on the way shows in
-- the calls of the system only; `rmdir` is left out, since nothing depends on its answer.
pub mod Tree
pub mod Started
pub mod App
pub mod Opened
pub mod Found
pub mod Inside
pub mod Restart
mod Tests
use filecache.Base.{
  ℕ, ◌%◌, Bool, true, false, not, ◌&&◌, ◌||◌, Option, none, some, List, [], ◌∷◌, if◌then◌else◌,
  ◌==◌, ltb, codes, Bytes, length, take,
}
use filecache.Base.Word.{word_mod}
use filecache.Base.Map.{bytes_eq}
use filecache.ObjectId.{
  slash, is_empty, find_last, get_object_id_from_path, get_type_name_from_path,
}
use filecache.Os.{Os, Perms, Attribute}
use filecache.Config.{Entries}
use filecache.CacheSet.State.{FileCacheSet, is_type_dir_type}
use filecache.CacheSet.Types.{define_type}
use filecache.CacheSet.Objects.{Request, insert_with_id}

-- `s_typeConfigFilename` and `s_seqNumFilename`
abbrev pub type_config_filename : Bytes
type_config_filename = codes "Type.defaults"

abbrev pub seq_num_filename : Bytes
seq_num_filename = codes ".sequenceNumber"

-- `ProcessStatus`
pub data ProcessStatus : Type 0 where
  error complete continue : ProcessStatus

-- What `st_mode` says.
pub data Mode : Type 0 where
  regular directory other : Mode

-- What is read from the disk.
pub record Disk : Type 0 where
  pub os : Os
  -- `open` and `fstat`
  pub fstat : Bytes → Option (Mode × ℕ)
  -- the numbers user.w, user.s, user.c and user.l
  pub getxattr : Bytes → Attribute → Option ℕ
  -- user.f
  pub get_name : Bytes → Option Bytes
  -- the configuration file of a type
  pub config : Bytes → Option Entries
  -- the pointer that `new` returns for a type
  pub address : Bytes → ℕ

-- The set, and the static variables of `ProcessFiles`.
pub record Walk : Type 0 where
  pub set : FileCacheSet
  pub types : List Bytes
  -- `s_dirTypeDir`, empty for none
  pub dir_type_dir : Bytes

abbrev pub contains_name : Bytes → List Bytes → Bool
contains_name name [] = false
contains_name name (x ∷ xs) = if bytes_eq x name then true else contains_name name xs

abbrev pub is_prefix : Bytes → Bytes → Bool
is_prefix p path = bytes_eq p (take (length p) path)

-- `rfind` from the last place at which the name fits.
unfoldable pub occurs : Bytes → Bytes → Bool
occurs name [] = is_empty name
occurs name (b ∷ bs) = if is_prefix name (b ∷ bs) then true else occurs name bs

unfoldable pub is_top_level_directory : FileCacheSet → Bytes → Bool
is_top_level_directory s pathname = elim (find_last (λ b. b == slash) pathname) [
  | none ↦ false
  | some end_pos ↦
      ltb 0 end_pos
      && (bytes_eq s.base_dir_name pathname || bytes_eq s.base_dir_name (take end_pos pathname))
]

unfoldable pub create_type_if_needed : Disk → Bytes → Walk → ProcessStatus × Walk
create_type_if_needed disk type_name w =
    let r =
      define_type disk.os (disk.address type_name) w.set type_name (disk.config type_name) none
        false in
    if contains_name type_name w.types
    then (ProcessStatus.continue, w)
    else if r.done
    then (ProcessStatus.continue, record w { set = r.set; types = type_name ∷ w.types })
    else (ProcessStatus.error, record w { set = r.set })

abbrev pub completed : ProcessStatus → ProcessStatus
completed ProcessStatus.error = ProcessStatus.error
completed ProcessStatus.complete = ProcessStatus.complete
completed ProcessStatus.continue = ProcessStatus.complete

unfoldable pub check_for_special_file : Disk → Bytes → Walk → ProcessStatus × Walk
check_for_special_file disk pathname w =
    let type_name = get_type_name_from_path w.set.base_dir_name pathname in
    let (stat, w') = create_type_if_needed disk type_name w in
    if occurs type_config_filename pathname
    then (completed stat, w')
    else if occurs seq_num_filename pathname
    then (ProcessStatus.complete, w)
    else (ProcessStatus.continue, w)

-- A number that is not there leaves the variable at its first value.
abbrev pub attribute_or : ℕ → Option ℕ → ℕ
attribute_or first none = first
attribute_or first (some n) = n

unfoldable pub get_written : Disk → Bytes → Bool → ProcessStatus × ℕ
get_written disk pathname dir_type =
    let written = attribute_or 0 (disk.getxattr pathname Attribute.written) in
    let stat =
      if written == 0
      then if dir_type
        then ProcessStatus.continue
        else if disk.os.unlink pathname
        then ProcessStatus.complete
        else ProcessStatus.error
      else if disk.os.chmod pathname Perms.file_ro
      then ProcessStatus.continue
      else ProcessStatus.error in
    (stat, written)

-- A status for an attribute that must be there.
abbrev pub read_status {ℓ} : {A : Type ℓ} → Option A → ProcessStatus
read_status none = ProcessStatus.error
read_status (some a) = ProcessStatus.continue

-- A file of another size is deleted; the status does not tell whether that succeeded.
unfoldable pub get_size : Disk → Bytes → ℕ → Bool → ProcessStatus × ℕ
get_size disk pathname st_size dir_type =
    let attribute = disk.getxattr pathname Attribute.size in
    let size = attribute_or 0 attribute in
    let same = st_size % word_mod == size in
    (if not dir_type && not same then ProcessStatus.complete else read_status attribute, size)

-- The work goes on only where the status is `CONTINUE`.
unfoldable pub if_continue : ProcessStatus → Walk → ProcessStatus × Walk → ProcessStatus × Walk
if_continue ProcessStatus.error w next = (ProcessStatus.error, w)
if_continue ProcessStatus.complete w next = (ProcessStatus.complete, w)
if_continue ProcessStatus.continue w next = next

-- `GetFilename`, `GetCost` and `GetLifetime`: an attribute that must be there.
unfoldable pub with_attribute {ℓ} :
    {A : Type ℓ} → Option A → Walk → (A → ProcessStatus × Walk) → ProcessStatus × Walk
with_attribute none w f = (ProcessStatus.error, w)
with_attribute (some a) w f = f a

-- The attributes are read one after the other, up to the first that stops the work; then the
-- object is inserted.
unfoldable pub insert_found : Disk → Bytes → Bytes → ℕ → ℕ → Bool → Walk → ProcessStatus × Walk
insert_found disk filepath type_name obj_id st_size dir_type w =
    let (written_stat, written) = get_written disk filepath dir_type in
    let (size_stat, size) = get_size disk filepath st_size dir_type in
    if_continue written_stat w (
      if_continue size_stat w (
        with_attribute (disk.get_name filepath) w λ file_name.
          with_attribute (disk.getxattr filepath Attribute.cost) w λ cost.
            with_attribute (disk.getxattr filepath Attribute.lifetime) w λ lifetime.
              let r : Request = record {
                filename = file_name;
                size = size;
                cost = cost;
                lifetime = lifetime;
              } in
              let (id, msg, s) =
                insert_with_id disk.os w.set type_name obj_id r (not (written == 0)) false in
              (ProcessStatus.continue, record w { set = s })))

-- A file that has no id is deleted.
unfoldable pub insert_valid : Disk → Bytes → Bytes → ℕ → ℕ → Bool → Walk → ProcessStatus × Walk
insert_valid disk filepath type_name obj_id st_size dir_type w =
    let inserted = insert_found disk filepath type_name obj_id st_size dir_type w in
    if obj_id == 0
    then (if disk.os.unlink filepath then ProcessStatus.complete else ProcessStatus.error, w)
    else inserted

-- What is done with a file or directory that is not passed over.
unfoldable pub process_mode : Disk → Bytes → Bytes → ℕ → Mode → ℕ → Walk → ProcessStatus × Walk
process_mode disk filepath type_name obj_id Mode.regular st_size w =
    let (special, w') = check_for_special_file disk filepath w in
    let (created, w'') = create_type_if_needed disk type_name w' in
    let valid = insert_valid disk filepath type_name obj_id st_size false w'' in
    if_continue special w' (if_continue created w'' valid)
process_mode disk filepath type_name obj_id Mode.directory st_size w =
    let valid =
      insert_valid disk filepath type_name obj_id st_size true
        (record w { dir_type_dir = filepath }) in
    if contains_name type_name w.types && (is_type_dir_type w.set type_name && not (obj_id == 0))
    then valid
    else (ProcessStatus.complete, w)
process_mode disk filepath type_name obj_id Mode.other st_size w =
    insert_valid disk filepath type_name obj_id st_size false w

abbrev pub is_ok : ProcessStatus → Bool
is_ok ProcessStatus.error = false
is_ok ProcessStatus.complete = true
is_ok ProcessStatus.continue = true

abbrev pub is_directory : Option (Mode × ℕ) → Bool
is_directory (some (Mode.directory, st_size)) = true
is_directory (some (Mode.regular, st_size)) = false
is_directory (some (Mode.other, st_size)) = false
is_directory none = false

-- The state after the check against the directory of a directory object: its content is passed
-- over.
abbrev pub leave_dir : Walk → Walk
leave_dir w = record w { dir_type_dir = [] }

unfoldable pub process_entry :
    Disk → Bytes → Bytes → ℕ → Option (Mode × ℕ) → Walk → ProcessStatus × Walk
process_entry disk filepath type_name obj_id none w = (ProcessStatus.error, w)
process_entry disk filepath type_name obj_id (some (mode, st_size)) w =
    process_mode disk filepath type_name obj_id mode st_size w

-- Whether the walk goes on, and its state. `none`: `GetObjectIdFromPath` reads in front of the
-- path name.
unfoldable pub process_files : Disk → Bytes → Walk → Option (Bool × Walk)
process_files disk filepath w = elim (get_object_id_from_path filepath) [
  | none ↦ none
  | some obj_id ↦
      let type_name = get_type_name_from_path w.set.base_dir_name filepath in
      let stat = disk.fstat filepath in
      let inside = is_prefix w.dir_type_dir filepath in
      let left = if is_empty w.dir_type_dir then w else leave_dir w in
      let (flow, w') = process_entry disk filepath type_name obj_id stat left in
      some (
        if is_directory stat && is_top_level_directory w.set filepath
        then (true, w)
        else if not (is_empty w.dir_type_dir) && inside
        then (true, w)
        else (is_ok flow, w'))
]
