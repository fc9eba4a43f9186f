-- ===== src/Walk/App.antt =====
-- The start of the service: the constructor of `CFileCacheSet` and its `ReadConfig`
-- (src/FileCacheSet.cpp), and the constructor and `powerdown` of `ServiceApp`
-- (src/FileCacheServiceApp.cpp).
use filecache.Base.{
  ℕ, ◌*◌, ◌%◌, Bool, false, not, ◌||◌, if◌then◌else◌, codes, Option, none, some, List, [], ◌∷◌,
  ◌==◌, Bytes, length,
}
use filecache.Base.Word.{word_mod}
use filecache.Os.{Os}
use filecache.Sequence.{read_sequence_number}
use filecache.CacheSet.State.{FileCacheSet}
use filecache.CacheSet.Cleanup.{cleanup_at_startup}
use filecache.Bus.{Service}
use filecache.Walk.{Disk}
use filecache.Walk.Tree.{Listing, walk_dir_tree}

-- A label of the configuration file with the value that is read behind it.
pub data ConfigEntry : Type 0 where
  total_cache_space : ℕ → ConfigEntry
  base_dir_name : Bytes → ConfigEntry
  other : ConfigEntry

-- `s_defaultCacheSpace`
abbrev pub default_cache_space : ℕ
default_cache_space = 100 * 1024 * 1024

unfoldable pub read_entries : List ConfigEntry → ℕ × Bytes → ℕ × Bytes
read_entries [] c = c
read_entries (ConfigEntry.total_cache_space n ∷ es) (space, base) = read_entries es (n, base)
read_entries (ConfigEntry.base_dir_name name ∷ es) (space, base) = read_entries es (space, name)
read_entries (ConfigEntry.other ∷ es) c = read_entries es c

-- `ReadConfig`: the total space and the base directory. The build sets the default directory;
-- `none` is a file that cannot be opened.
unfoldable pub read_config : Bytes → Option (List ConfigEntry) → ℕ × Bytes
read_config default_base_dir_name none = (default_cache_space, default_base_dir_name)
read_config default_base_dir_name (some es) =
    read_entries es (default_cache_space, default_base_dir_name)

-- The constructor of the set, with what the file of the sequence number holds.
unfoldable pub make_set : Os → Bytes → Option (List ConfigEntry) → Option ℕ → FileCacheSet
make_set os default_base_dir_name file saved =
    let (space, base) = read_config default_base_dir_name file in
    record {
      total_cache_space = space;
      base_dir_name = base;
      sequence = read_sequence_number os base saved;
      cache_set = [];
      id_map = [];
    }

-- The constructor of the service: a walk that is not completed is logged only.
unfoldable pub make_app : Os → Disk → Listing → FileCacheSet → Option Service
make_app os disk listing s =
    elim (walk_dir_tree disk listing (record { set = s; types = []; dir_type_dir = [] })) [
      | none ↦ none
      | some (ok, w) ↦ some (record { set = cleanup_at_startup os w.set; subscribers = [] })
    ]

-- Whether `powerdown` ends the service.
unfoldable pub powerdown : Service → Bool
powerdown svc =
    not (
      not (length svc.set.cache_set % word_mod == 0)
      || not (length svc.subscribers % word_mod == 0))

-- `handle_idle_timeout_cb`: whether the service ends; there is none where the pointer is null.
unfoldable pub handle_idle_timeout_cb : Option Service → Bool
handle_idle_timeout_cb none = false
handle_idle_timeout_cb (some svc) = powerdown svc

-- `create_default_cachedir`: the directory that is made.
unfoldable pub create_default_cachedir : (Bytes → Bool) → Option Bytes
create_default_cachedir exists =
    let default_destination_path = codes "/media/internal/downloads" in
    if exists default_destination_path then none else some default_destination_path

-- The answers of the framework: codes of errors, 0 for none.
pub record Framework : Type 0 where
  pub base_open : ℕ
  pub service_open : ℕ
  pub attach : ℕ
  -- Whether there is memory for the handler.
  pub alloc : Bool
  pub register_methods : ℕ
  pub add_category : ℕ
  pub set_description : Bool
  pub service_close : ℕ
  pub base_close : ℕ
  -- `MojErrNoMem` and `MojErrInternal`
  pub no_mem : ℕ
  pub internal : ℕ
  -- `MojErrAccumulate`
  pub accumulate : ℕ → ℕ → ℕ

-- `MojErrCheck`: an error ends the function.
abbrev checked : ℕ → ℕ → ℕ
checked err next = if err == 0 then next else err

-- `open`: its error.
unfoldable pub open_app : Framework → ℕ
open_app fw = checked fw.base_open (
    checked fw.service_open (
      checked fw.attach (
        if fw.alloc
        then checked fw.register_methods
            (checked fw.add_category (if fw.set_description then 0 else fw.internal))
        else fw.no_mem)))

-- `close`: its error.
unfoldable pub close_app : Framework → ℕ
close_app fw = fw.accumulate (fw.accumulate 0 fw.service_close) fw.base_close
