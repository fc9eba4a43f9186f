-- ===== src/BlockSize.antt =====
-- `GetFilesystemFileSize` of src/CacheBase.cpp: the space that a file takes on disk.
pub mod Bounds
mod Tests
use filecache.Base.{ℕ, if◌then◌else◌}
use filecache.Base.Word.{add32, sub32, mul32, div32, lt32}

-- `s_blockSize`
abbrev pub block_size : ℕ
block_size = 4096

-- Whole blocks, and one more for the extended attributes.
unfoldable pub get_filesystem_file_size : ℕ → ℕ
get_filesystem_file_size size =
    let real_size =
      if lt32 0 size
      then mul32 (div32 (sub32 (add32 size block_size) 1) block_size) block_size
      else block_size in
    add32 real_size block_size
