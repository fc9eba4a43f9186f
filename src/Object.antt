-- ===== src/Object.antt =====
-- `CCacheObject` of src/CacheObject.cpp: one cached file or directory. A method takes the answers
-- of the system and the place of the object (its type and the base directory, which the source
-- reads through `m_fileCache`), and returns the new object beside its result.
pub mod Invariant
pub mod Lifecycle
pub mod Cost
pub mod Validate
pub mod Removal
mod Tests
use filecache.Base.{
  ℕ, ◌+◌, ◌-◌, ◌%◌, ◌^◌, Bool, true, false, not, ◌&&◌, Option, none, some, [], ltb, ◌==◌,
  if◌then◌else◌, Bytes,
}
use filecache.Base.Word.{word_mod, add32, sub32, mul32, div32, lt32}
use filecache.ObjectId.{is_empty, build_pathname}
use filecache.BlockSize.{block_size}
use filecache.Os.{Os, Mkdir, Perms, Attribute}

-- `s_maxCost`
abbrev pub max_cost : ℕ
max_cost = 255

pub record CacheObject : Type 0 where
  pub id : ℕ
  pub size : ℕ
  pub cost : ℕ
  pub lifetime : ℕ
  pub subscription_count : ℕ
  pub filename : Bytes
  pub written : Bool
  pub expired : Bool
  pub dir_type : Bool
  pub creation_time : ℕ
  pub last_access_time : ℕ

pub record Place : Type 0 where
  pub base_dir_name : Bytes
  pub cache_type : Bytes

-- The messages that the methods leave in `msgText`.
pub data Message : Type 0 where
  only_one_writer : Message
  inserted no_space failed_to_initialize no_type : Message
  type_created failed_to_configure type_exists : Message
  type_configured type_deleted has_subscribed_objects : Message

unfoldable pub make : Os → ℕ → Bytes → ℕ → ℕ → ℕ → Bool → Bool → CacheObject
make os id filename size cost lifetime written dir_type = record {
  id = id;
  size = size;
  cost = if lt32 max_cost cost then max_cost else cost;
  lifetime = if lt32 lifetime 1 then 1 else lifetime;
  subscription_count = 0;
  filename = filename;
  written = written;
  expired = false;
  dir_type = dir_type;
  creation_time = os.now;
  last_access_time = os.now;
}

-- `mkdir` succeeded, or failed with EEXIST.
abbrev pub is_there : Mkdir → Bool
is_there Mkdir.made = true
is_there Mkdir.exists = true
is_there Mkdir.failed = false

abbrev is_made : Mkdir → Bool
is_made Mkdir.made = true
is_made Mkdir.exists = false
is_made Mkdir.failed = false

unfoldable pub get_pathname : Os → Place → CacheObject → Bool → Bytes
get_pathname os pl o create_dir =
    build_pathname (λ p. is_there (os.mkdir p)) o.id pl.base_dir_name pl.cache_type o.filename
      create_dir

unfoldable pub create_object : Os → Bytes → CacheObject → Bool
create_object os pathname o =
    if o.dir_type
    then is_made (os.mkdir pathname)
    else os.create pathname && os.chmod pathname Perms.file_rw

unfoldable pub set_size_attribute : Os → Bytes → Bool → Bool
set_size_attribute os pathname replace = os.setxattr pathname Attribute.size replace

unfoldable pub set_written_attribute : Os → Bytes → Bool → Bool
set_written_attribute os pathname replace =
    os.setxattr pathname Attribute.written replace && os.chmod pathname Perms.file_ro

abbrev set_filename_attribute : Os → Bytes → Bool
set_filename_attribute os pathname = os.setxattr pathname Attribute.filename false

abbrev set_cost_attribute : Os → Bytes → Bool
set_cost_attribute os pathname = os.setxattr pathname Attribute.cost false

abbrev set_lifetime_attribute : Os → Bytes → Bool
set_lifetime_attribute os pathname = os.setxattr pathname Attribute.lifetime false

abbrev set_dir_type_attribute : Os → Bytes → Bool
set_dir_type_attribute os pathname = os.setxattr pathname Attribute.dir_type false

-- The files and attributes of a new object are made in this order, up to the first failure.
unfoldable pub initialize : Os → Place → CacheObject → Bool → Bool
initialize os pl o is_new =
    let pathname = get_pathname os pl o true in
    if is_new
    then not (is_empty pathname)
      && (create_object os pathname o
          && (set_filename_attribute os pathname
              && (set_size_attribute os pathname false
                  && (set_cost_attribute os pathname
                      && (set_lifetime_attribute os pathname
                          && (set_dir_type_attribute os pathname
                              && set_written_attribute os pathname false))))))
    else true

abbrev pub update_access_time : Os → CacheObject → CacheObject
update_access_time os o = record o { last_access_time = os.now }

-- The path name, or none; the message; the object.
unfoldable pub subscribe_open :
    Os → Place → CacheObject → Option Message → Bytes × Option Message × CacheObject
subscribe_open os pl o msg =
    let pathname = get_pathname os pl o false in
    let perms = if o.dir_type then Perms.dir_obj else Perms.file_rw in
    let granted =
      if not o.written then if os.chmod pathname perms then pathname else [] else pathname in
    let taken = record o { subscription_count = add32 o.subscription_count 1 } in
    (granted, msg, if is_empty granted then o else taken)

unfoldable pub subscribe :
    Os → Place → CacheObject → Option Message → Bytes × Option Message × CacheObject
subscribe os pl o msg =
    let (pathname, msg', o') = subscribe_open os pl o msg in
    if o.expired
    then ([], msg, o)
    else if (if o.written then true else o.subscription_count == 0)
    then (pathname, msg', update_access_time os o')
    else ([], some only_one_writer, update_access_time os o)

-- `SyncFile` of src/CacheBase.cpp.
unfoldable pub sync_file : Os → Bytes → Bool
sync_file os pathname = os.open_file pathname && (os.fsync pathname && os.close_file pathname)

-- `CleanupDir` of src/CacheBase.cpp.
pub cleanup_dir : Os → Bytes → Bool
cleanup_dir os pathname = os.remove_all pathname

-- The size on disk against the size that was reserved.
unfoldable pub check_size : Os → Bytes → ℕ → CacheObject → Bool × CacheObject
check_size os pathname size o =
    if lt32 o.size size
    then (false, o)
    else if lt32 size o.size
    then (set_size_attribute os pathname true, record o { size = size })
    else (true, o)

unfoldable pub stat_size : Os → Bytes → CacheObject → Bool × CacheObject
stat_size os pathname o = if is_empty pathname then (false, o) else elim (os.stat pathname) [
  | none ↦ (false, o)
  | some st_size ↦ check_size os pathname (st_size % word_mod) o
]

pub mark_written : Os → Bytes → CacheObject → Bool × CacheObject
mark_written os pathname o =
    if set_written_attribute os pathname true
    then (true, record o { written = true })
    else (false, record o { written = false })

-- The end of the writing subscription of a file.
unfoldable pub close_writer : Os → Bytes → CacheObject → Bool × CacheObject
close_writer os pathname o =
    let (fits, o') = stat_size os pathname o in
    if fits && sync_file os pathname then mark_written os pathname o' else (false, o')

-- Whether the id leaves the id map of the set, and the object.
unfoldable pub unsubscribe : Os → Place → CacheObject → Bool × CacheObject
unsubscribe os pl o =
    let released = record o { subscription_count = sub32 o.subscription_count 1 } in
    let (succeeded, o') =
      (if o.dir_type
        then (false, released)
        else if not o.written
        then close_writer os (get_pathname os pl o false) released
        else (true, released)) in
    if succeeded then (false, update_access_time os o') else (true, record o' { expired = true })

-- The new size, and the object.
unfoldable pub resize : Os → Place → CacheObject → ℕ → ℕ × CacheObject
resize os pl o new_size =
    if not o.written && (o.subscription_count == 1)
    then if set_size_attribute os (get_pathname os pl o false) true
      then (new_size, record o { size = new_size })
      else (o.size, o)
    else (o.size, o)

-- Whether the file is gone, and the object.
unfoldable pub expire : Os → Place → CacheObject → Bool × CacheObject
expire os pl o =
    let pathname = get_pathname os pl o false in
    let gone = if o.dir_type then cleanup_dir os pathname else os.unlink pathname in
    let marked = record o { expired = true } in
    if lt32 0 o.subscription_count
    then (false, marked)
    else if is_empty o.filename
    then (false, marked)
    else (gone, marked)

-- Times are 64-bit numbers, and the age is cast to 32 bits. `none` is a division by zero.
unfoldable pub get_cache_cost : Os → CacheObject → Option ℕ
get_cache_cost os o =
    let age = (os.now + 2 ^ 64 - o.last_access_time) % word_mod in
    let size_in_pages = div32 (sub32 (add32 o.size block_size) 1) block_size in
    let cost = div32 (mul32 o.cost size_in_pages) age in
    if lt32 age o.lifetime then some max_cost else if age == 0 then none else some cost
