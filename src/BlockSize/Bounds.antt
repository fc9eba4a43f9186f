-- ===== src/BlockSize/Bounds.antt =====
-- The space on disk against the size, for `GetFilesystemFileSize` of src/CacheBase.cpp.
use filecache.Base.{ℕ, ◌+◌, ◌%◌, ◌≤◌, ◌<◌, ◌≡◌, arith}
use filecache.Base.Word.{sign_bit}
use filecache.BlockSize.{get_filesystem_file_size}

-- For a positive size of 2147475456 at most, the space on disk is a number of whole blocks
-- below 2^31, at least one block more than the size, and less than two blocks more.
pub get_filesystem_file_size_bounds :
    (size : ℕ)
    → 0 < size
    → size ≤ 2147475456
    → let space = get_filesystem_file_size size in
      (size + 4096 ≤ space) × (space < size + 8192) × (space % 4096 ≡ 0) × (space < sign_bit)
unfolding get_filesystem_file_size
get_filesystem_file_size_bounds size h k = ground arith
