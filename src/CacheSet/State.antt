-- ===== src/CacheSet/State.antt =====
-- The state of `CFileCacheSet` (src/FileCacheSet.cpp), its queries, and the methods that find the
-- cache of an object and pass a call on. A method returns its result and the new set.
use filecache.Base.{
  ℕ, ◌%◌, Bool, true, false, not, ◌&&◌, Option, none, some, List, [], ◌∷◌, map, if◌then◌else◌,
  is_none, Bytes, length,
}
use filecache.Base.Word.{word_mod, minus_one, add32, sub32, is_negative, lt32, le32}
use filecache.Base.Map
use filecache.Base.Map.{Map, ℕ_key, bytes_key}
use filecache.ObjectId.{is_empty}
use filecache.Os.{Os}
use filecache.Object.{Message}
use filecache.Object.Validate.{Nftw, Verdict}
use filecache.Cache
use filecache.Cache.{FileCache}
use filecache.Sequence.{Sequence}

pub record FileCacheSet : Type 0 where
  pub total_cache_space : ℕ
  pub base_dir_name : Bytes
  pub sequence : Sequence
  -- `m_cacheSet`
  pub cache_set : Map Bytes FileCache
  pub id_map : Map ℕ Bytes

abbrev pub get_file_cache_for_type : FileCacheSet → Bytes → Option FileCache
get_file_cache_for_type s type_name = Map.find type_name s.cache_set

unfoldable pub type_exists : FileCacheSet → Bytes → Bool
type_exists s type_name = not (is_none (get_file_cache_for_type s type_name))

unfoldable pub is_type_dir_type : FileCacheSet → Bytes → Bool
is_type_dir_type s type_name = elim (get_file_cache_for_type s type_name) [
  | none ↦ false
  | some c ↦ c.dir_type
]

-- The empty name for an id that is not in the map.
abbrev pub get_type_for_object_id : FileCacheSet → ℕ → Bytes
get_type_for_object_id s obj_id = elim (Map.find obj_id s.id_map) [
  | none ↦ []
  | some type_name ↦ type_name
]

unfoldable pub remove_object_from_id_map : FileCacheSet → ℕ → FileCacheSet
remove_object_from_id_map s obj_id = record s { id_map = Map.erase obj_id s.id_map }

-- A method of a cache has changed it.
abbrev pub with_cache : FileCacheSet → Bytes → FileCache → FileCacheSet
with_cache s type_name c = record s { cache_set = Map.put type_name c s.cache_set }

-- The loops that sum over the caches.
unfoldable pub sum_from : (FileCache → ℕ) → ℕ → Map Bytes FileCache → ℕ
sum_from f acc [] = acc
sum_from f acc ((name, c) ∷ m) = sum_from f (add32 acc (f c)) m

unfoldable pub sum_of_lo_watermarks : FileCacheSet → ℕ
unfolding sum_from
sum_of_lo_watermarks s = sum_from (λ c. c.lo_watermark) 0 s.cache_set

unfoldable pub sum_of_cache_sizes : FileCacheSet → ℕ
unfolding sum_from
sum_of_cache_sizes s = sum_from (λ c. c.cache_size) 0 s.cache_set

-- The space that is left, 0 where the caches are over it.
unfoldable pub avail_space : FileCacheSet → ℕ
avail_space s =
    let avail = sub32 s.total_cache_space (sum_of_cache_sizes s) in
    if is_negative avail then 0 else avail

-- `CFileCache::CheckForSize`
unfoldable pub check_for_size : FileCacheSet → FileCache → ℕ → Bool
check_for_size s c size = lt32 (add32 c.cache_size size) c.hi_watermark && le32 size (avail_space s)

pub record Status : Type 0 where
  pub size : ℕ
  pub num_cache_objects : ℕ
  pub avail_space : ℕ
  pub num_types : ℕ

unfoldable pub get_cache_status : FileCacheSet → Status
get_cache_status s =
    let size = sum_of_cache_sizes s in
    let avail = sub32 (sum_of_lo_watermarks s) size in
    record {
      size = size;
      num_cache_objects = sum_from (λ c. c.num_objects) 0 s.cache_set;
      avail_space = if is_negative avail then 0 else avail;
      num_types = length s.cache_set % word_mod;
    }

-- The size and the number of objects of one type.
unfoldable pub get_cache_type_status : FileCacheSet → Bytes → Option (ℕ × ℕ)
get_cache_type_status s type_name = elim (get_file_cache_for_type s type_name) [
  | none ↦ none
  | some c ↦ some (c.cache_size, c.num_objects)
]

unfoldable pub get_types : FileCacheSet → List Bytes
get_types s = map (λ e. e.0) s.cache_set

-- A call on the cache of an object, or the answer for an object that has none.
abbrev pub on_cache {ℓ} : {A : Type ℓ} → FileCacheSet → Bytes → A → (FileCache → A) → A
on_cache s type_name missing f =
    if is_empty type_name
    then missing
    else elim (get_file_cache_for_type s type_name) [ none ↦ missing | some c ↦ f c ]

unfoldable pub cached_object_size : FileCacheSet → ℕ → ℕ
cached_object_size s obj_id =
    on_cache s (get_type_for_object_id s obj_id) minus_one λ c. Cache.get_object_size c obj_id

unfoldable pub cached_object_filename : FileCacheSet → ℕ → Bytes
cached_object_filename s obj_id =
    on_cache s (get_type_for_object_id s obj_id) [] λ c. Cache.get_object_filename c obj_id

-- The id leaves the map before the cache is asked.
abbrev expire_in : Os → FileCacheSet → ℕ → Bytes → FileCache → Bool × FileCacheSet
expire_in os s obj_id type_name c =
    let (expired, c') = Cache.expire os s.base_dir_name c obj_id in
    (expired, with_cache (remove_object_from_id_map s obj_id) type_name c')

-- True also where there is nothing to expire.
unfoldable pub expire_cache_object : Os → FileCacheSet → ℕ → Bool × FileCacheSet
unfolding remove_object_from_id_map
expire_cache_object os s obj_id =
    let type_name = get_type_for_object_id s obj_id in
    on_cache s type_name (true, s) (expire_in os s obj_id type_name)

unfoldable pub subscribe_cache_object :
    Os → FileCacheSet → Option Message → ℕ → Bytes × Option Message × FileCacheSet
subscribe_cache_object os s msg obj_id =
    let type_name = get_type_for_object_id s obj_id in
    on_cache s type_name ([], msg, s)
      λ c.
        let (pathname, msg', c') = Cache.subscribe os s.base_dir_name c msg obj_id in
        (pathname, msg', with_cache s type_name c')

-- The caller gives the type, since an expired object is not in the id map.
unfoldable pub unsubscribe_cache_object : Os → FileCacheSet → Bytes → ℕ → FileCacheSet
unfolding remove_object_from_id_map
unsubscribe_cache_object os s type_name obj_id = on_cache s type_name s λ c.
    let (removed, c') = Cache.unsubscribe os s.base_dir_name c obj_id in
    let s' = with_cache s type_name c' in
    if removed then remove_object_from_id_map s' obj_id else s'

unfoldable pub check_subscribed_object : Os → Nftw → FileCacheSet → Bytes → ℕ → Option Verdict
check_subscribed_object os nftw s type_name obj_id =
    on_cache s type_name none λ c. Cache.check_subscribed_object os nftw s.base_dir_name c obj_id

unfoldable pub touch : Os → FileCacheSet → ℕ → Bool × FileCacheSet
touch os s obj_id =
    let type_name = get_type_for_object_id s obj_id in
    on_cache s type_name (false, s)
      λ c. let (done, c') = Cache.touch os c obj_id in (done, with_cache s type_name c')

unfoldable pub map_values : (FileCache → FileCache) → Map Bytes FileCache → Map Bytes FileCache
map_values f [] = []
map_values f ((name, c) ∷ m) = (name, f c) ∷ map_values f m

unfoldable pub cleanup_orphans : Os → FileCacheSet → FileCacheSet
cleanup_orphans os s = record s {
  cache_set = map_values (Cache.cleanup_orphaned_objects os s.base_dir_name) s.cache_set;
}
