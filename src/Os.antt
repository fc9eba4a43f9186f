-- ===== src/Os.antt =====
-- The answers of the operating system and of boost::filesystem, which the program calls and does
-- not implement. One value holds the answers during one call of an operation: an answer is a
-- function of the path name and of what is asked of it.
pub mod Tests
use filecache.Base.{ℕ, Bool, Option, Bytes}

-- `mkdir`: it made the directory, found one (EEXIST), or failed.
pub data Mkdir : Type 0 where
  made exists failed : Mkdir

-- `s_fileROPerms`, `s_fileRWPerms`, `s_dirObjPerms`
pub data Perms : Type 0 where
  file_ro file_rw dir_obj : Perms

-- The extended attributes user.f, user.s, user.c, user.l, user.w and user.d.
pub data Attribute : Type 0 where
  filename size cost lifetime written dir_type : Attribute

pub record Os : Type 0 where
  -- `time(0)`
  pub now : ℕ
  pub mkdir : Bytes → Mkdir
  -- `fopen(path, "w")`
  pub create : Bytes → Bool
  pub chmod : Bytes → Perms → Bool
  -- `setxattr`, with XATTR_REPLACE or with XATTR_CREATE
  pub setxattr : Bytes → Attribute → Bool → Bool
  -- `st_size` of `stat`
  pub stat : Bytes → Option ℕ
  -- `open` for SyncFile, `fsync` and `close`
  pub open_file : Bytes → Bool
  pub fsync : Bytes → Bool
  pub close_file : Bytes → Bool
  pub unlink : Bytes → Bool
  -- `fs::exists` and `fs::remove_all` end without an exception
  pub remove_all : Bytes → Bool
  -- a stream opens a file for writing, takes all that is written, and closes well
  pub write_file : Bytes → Bool
  -- `rename` of the temporary file over the file
  pub rename : Bytes → Bool
