-- ===== src/Config.antt =====
-- The configuration of a type: `CCacheParamValues` of src/CacheBase.h.in, and `Configure`,
-- `Describe`, `WriteConfig` and `ReadConfig` of src/FileCache.cpp. A configuration file is the
-- list of the pairs that the stream operators write to it and read from it.
mod RoundTrip
mod Tests
use filecache.Base.{
  ℕ, ◌+◌, Bool, true, false, not, ◌&&◌, Option, none, some, List, [], ◌∷◌, ◌++◌, ltb, ◌==◌,
  if◌then◌else◌, Bytes, codes, length,
}
use filecache.Base.Word.{lt32}
use filecache.Base.Map.{bytes_eq}
use filecache.BlockSize.{get_filesystem_file_size}
use filecache.Os.{Os, Mkdir}
use filecache.Object.{max_cost, sync_file, is_there}
use filecache.Cache.{FileCache}

pub record CacheParamValues : Type 0 where
  pub lo_watermark : ℕ
  pub hi_watermark : ℕ
  pub size : ℕ
  pub cost : ℕ
  pub lifetime : ℕ

abbrev pub clamp_cost : ℕ → ℕ
clamp_cost cost = if lt32 max_cost cost then max_cost else cost

abbrev pub clamp_lifetime : ℕ → ℕ
clamp_lifetime lifetime = if lt32 lifetime 1 then 1 else lifetime

unfoldable pub make_params : ℕ → ℕ → ℕ → ℕ → ℕ → CacheParamValues
make_params lo hi size cost lifetime = record {
  lo_watermark = lo;
  hi_watermark = hi;
  size = size;
  cost = clamp_cost cost;
  lifetime = clamp_lifetime lifetime;
}

-- `Describe`: the setters clamp the cost and the lifetime.
unfoldable pub describe : FileCache → CacheParamValues
describe c = record {
  lo_watermark = c.lo_watermark;
  hi_watermark = c.hi_watermark;
  size = c.default_size;
  cost = clamp_cost c.default_cost;
  lifetime = clamp_lifetime c.default_lifetime;
}

pub data Label : Type 0 where
  lo_watermark hi_watermark default_size default_cost default_lifetime dir_type other : Label

abbrev pub Entries : Type 0
Entries = List (Label × ℕ)

-- The lines of `WriteConfig`.
unfoldable pub config_entries : FileCache → Entries
config_entries c =
    (lo_watermark, c.lo_watermark)
    ∷ (hi_watermark, c.hi_watermark)
    ∷ (default_size, c.default_size)
    ∷ (default_cost, c.default_cost)
    ∷ (default_lifetime, c.default_lifetime)
    ∷ (dir_type, if c.dir_type then 1 else 0)
    ∷ []

-- What the file of a type holds after `WriteConfig`, and whether it was written.
unfoldable pub write_config : Os → Bytes → FileCache → Option Entries → Bool × Option Entries
unfolding config_entries
write_config os base_dir_name c file =
    let dir = base_dir_name ++ codes "/" ++ c.cache_type in
    let tmp_file = dir ++ codes "/Type.defaults.tmp" in
    if is_there (os.mkdir dir)
      && (os.write_file tmp_file && (sync_file os tmp_file && os.rename tmp_file))
    then (true, some (config_entries c))
    else (false, file)

-- The labels that were read so far.
pub record Labels : Type 0 where
  pub lo : Bool
  pub hi : Bool
  pub size : Bool
  pub cost : Bool
  pub lifetime : Bool
  pub dir : Bool

abbrev pub no_labels : Labels
no_labels = record {
  lo = false;
  hi = false;
  size = false;
  cost = false;
  lifetime = false;
  dir = false;
}

-- `labels.size() == s_numLabels`
abbrev pub is_complete : Labels → Bool
is_complete l = l.lo && (l.hi && (l.size && (l.cost && (l.lifetime && l.dir))))

-- A round of the loop of `ReadConfig`.
unfoldable pub read_entry : Label × ℕ → FileCache × Labels → FileCache × Labels
read_entry (lo_watermark, value) (c, l) =
    (record c { lo_watermark = value }, record l { lo = true })
read_entry (hi_watermark, value) (c, l) =
    (record c { hi_watermark = value }, record l { hi = true })
read_entry (default_size, value) (c, l) =
    (record c { default_size = value }, record l { size = true })
read_entry (default_cost, value) (c, l) =
    (record c { default_cost = value }, record l { cost = true })
read_entry (default_lifetime, value) (c, l) =
    (record c { default_lifetime = value }, record l { lifetime = true })
read_entry (dir_type, value) (c, l) =
    (record c { dir_type = not (value == 0) }, record l { dir = true })
read_entry (other, value) (c, l) = (c, l)

unfoldable pub read_entries : Entries → FileCache × Labels → FileCache × Labels
read_entries [] r = r
read_entries (e ∷ es) r = read_entries es (read_entry e r)

-- `none`: the file cannot be opened.
unfoldable pub read_config : FileCache → Option Entries → Bool × FileCache
unfolding read_entries
read_config c file = elim file [
  | none ↦ (false, c)
  | some es ↦ let (c', labels) = read_entries es (c, no_labels) in (is_complete labels, c')
]

-- The fields that `Configure` takes over from the parameters: what is not positive leaves them.
abbrev pub configured : FileCache → CacheParamValues → Bool → FileCache
configured c params is_dir = record c {
  lo_watermark =
      if lt32 0 params.lo_watermark
      then get_filesystem_file_size params.lo_watermark
      else c.lo_watermark;
  hi_watermark =
      if lt32 0 params.hi_watermark
      then get_filesystem_file_size params.hi_watermark
      else c.hi_watermark;
  default_size = if lt32 0 params.size then params.size else c.default_size;
  default_lifetime = if lt32 1 params.lifetime then params.lifetime else c.default_lifetime;
  default_cost = if lt32 0 params.cost then params.cost else c.default_cost;
  dir_type = is_dir;
}

-- `Configure`, with the space that the low watermarks of the set leave and the content of the
-- type's file. The result, the cache, and the file.
unfoldable pub configure :
    Os
    → Bytes
    → ℕ
    → Option Entries
    → FileCache
    → Option CacheParamValues
    → Bool
    → Bool × FileCache × Option Entries
configure os base_dir_name avail file c params is_dir = elim params [
  | none ↦ let (read, c') = read_config c file in (read, c', file)
  | some p ↦
      let c' = configured c p is_dir in
      let (written, file') = write_config os base_dir_name c' file in
      if lt32 (get_filesystem_file_size p.lo_watermark) avail
      then (written, c', file')
      else (false, c, file)
]
