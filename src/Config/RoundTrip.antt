-- ===== src/Config/RoundTrip.antt =====
-- A configuration that was written is read back.
use filecache.Base.{◌≡◌, true, Option, arith, Bytes}
use filecache.Os.{Os}
use filecache.Cache.{FileCache}
use filecache.Config.{Entries, write_config, read_entry, read_config}

-- The configuration of a cache, in another.
abbrev pub with_config : FileCache → FileCache → FileCache
with_config c d = record c {
  lo_watermark = d.lo_watermark;
  hi_watermark = d.hi_watermark;
  default_size = d.default_size;
  default_cost = d.default_cost;
  default_lifetime = d.default_lifetime;
  dir_type = d.dir_type;
}

-- Where `WriteConfig` of a cache succeeds, `ReadConfig` of any other cache reads the file: it
-- succeeds, and takes over the watermarks, the defaults and the directory flag, and nothing
-- else.
pub read_config-write_config :
    (os : Os) (base : Bytes) (c d : FileCache) (file : Option Entries)
    → (write_config os base d file).0 ≡ true
    → read_config c (write_config os base d file).1 ≡ (true, with_config c d)
unfolding write_config read_config read_entry
read_config-write_config os base c d file h = ground arith
