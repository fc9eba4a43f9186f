-- ===== src/Cache/Removal.antt =====
-- What the destructor of src/FileCache.cpp removes from the disk, in this order.
use filecache.Base.{[], ◌∷◌, ◌++◌, List, Bytes, codes, if◌then◌else◌}
use filecache.Object.Removal.{Removal}
use filecache.Cache.{FileCache, is_cleanable}

-- The configuration file, and the directory of the type unless an object in it has a subscription.
unfoldable pub destroy : Bytes → FileCache → List Removal
destroy base_dir_name c =
    let pathname = base_dir_name ++ codes "/" ++ c.cache_type in
    Removal.unlink (pathname ++ codes "/Type.defaults")
    ∷ (if is_cleanable c then Removal.rmdir pathname ∷ [] else [])
