-- ===== src/BlockSize/Tests.antt =====
-- Sizes on disk.
use filecache.Base.{◌≡◌, refl}
use filecache.BlockSize.{get_filesystem_file_size}

one_block : get_filesystem_file_size 4096 ≡ 8192
unfolding get_filesystem_file_size
one_block = refl

no_size : get_filesystem_file_size 0 ≡ 8192
unfolding get_filesystem_file_size
no_size = refl
