-- ===== src/CacheSet/Cleanup.antt =====
-- Making room: `CleanupCache` and `Cleanup` of src/FileCache.cpp, `SelectCandidateToExpire`,
-- `CleanupAllTypes` and `CleanupAtStartup` of src/FileCacheSet.cpp.
use filecache.Base.{
  ℕ, zero, suc, ◌+◌, ◌*◌, Bool, false, not, Option, none, some, [], ◌∷◌, ◌==◌, if◌then◌else◌, Bytes,
  length,
}
use filecache.Base.Word.{word_mod, minus_one, add32, sub32, is_negative, lt32, le32}
use filecache.Base.Map
use filecache.Base.Map.{Map, ℕ_key, bytes_key}
use filecache.BlockSize.{get_filesystem_file_size}
use filecache.Os.{Os}
use filecache.Object.{max_cost}
use filecache.Cache
use filecache.Cache.{FileCache}
use filecache.CacheSet.State.{
  FileCacheSet, get_file_cache_for_type, with_cache, sum_of_cache_sizes, avail_space,
  cached_object_size, expire_cache_object,
}

-- A round of the loop of `CleanupCache`: whether the last object of the list was expired, its
-- size, and the set.
unfoldable pub expire_last : Os → FileCacheSet → Bytes → FileCache → Bool × ℕ × FileCacheSet
expire_last os s type_name c =
    let obj_id = Cache.back c.cache_list in
    let popped = with_cache s type_name (record c { cache_list = Cache.pop_back c.cache_list }) in
    let (expired, s') = expire_cache_object os popped obj_id in
    (expired, Cache.get_object_size c obj_id, s')

-- The size of the object that was expired, -1 if the list has run out; and the set.
unfoldable pub cleanup_cache : Os → ℕ → FileCacheSet → Bytes → ℕ × FileCacheSet
cleanup_cache os zero s type_name = (minus_one, s)
cleanup_cache os (suc fuel) s type_name = elim (get_file_cache_for_type s type_name) [
  | none ↦ (minus_one, s)
  | some c ↦ elim c.cache_list [
    | [] ↦ (minus_one, s)
    | i ∷ is ↦
        let (expired, size, s') = expire_last os s type_name c in
        let rest = cleanup_cache os fuel s' type_name in if expired then (size, s') else rest
  ]
]

abbrev pub list_entries : Option FileCache → ℕ
list_entries none = 0
list_entries (some c) = length c.cache_list

abbrev pub list_length : FileCacheSet → Bytes → ℕ
list_length s type_name = list_entries (get_file_cache_for_type s type_name)

-- `(m_cacheSize + size) >= m_hiWatermark`
unfoldable pub is_over : FileCacheSet → Bytes → ℕ → Bool
is_over s type_name size = elim (get_file_cache_for_type s type_name) [
  | none ↦ false
  | some c ↦ not (lt32 (add32 c.cache_size size) c.hi_watermark)
]

-- The loop of `Cleanup`.
unfoldable pub cleanup_loop : Os → ℕ → FileCacheSet → Bytes → ℕ → FileCacheSet
cleanup_loop os zero s type_name size = s
cleanup_loop os (suc fuel) s type_name size =
    let (freed, s') = cleanup_cache os (list_length s type_name) s type_name in
    let rest = cleanup_loop os fuel s' type_name size in
    if is_over s type_name size then if is_negative freed then s' else rest else s

-- A candidate of a cache to be expired.
pub record Candidate : Type 0 where
  pub type_name : Bytes
  pub obj_id : ℕ

-- `m_cleanupMap`, in the order of the pointers.
abbrev pub CleanupMap : Type 0
CleanupMap = Map ℕ Candidate

unfoldable pub add_candidate : Bytes → FileCache → CleanupMap → CleanupMap
add_candidate type_name c cleanup_map =
    let obj_id = Cache.get_cleanup_candidate c in
    if obj_id == 0
    then cleanup_map
    else Map.insert c.address (record { type_name = type_name; obj_id = obj_id }) cleanup_map

unfoldable pub candidates : Map Bytes FileCache → CleanupMap → CleanupMap
candidates [] cleanup_map = cleanup_map
candidates ((name, c) ∷ m) cleanup_map = candidates m (add_candidate name c cleanup_map)

-- A candidate's cost, none where its division by zero leaves it without one.
unfoldable pub candidate_cost : Os → FileCacheSet → Candidate → Option ℕ
candidate_cost os s e = elim (get_file_cache_for_type s e.type_name) [
  | none ↦ none
  | some c ↦ Cache.get_cache_cost os c e.obj_id
]

-- The loop of `SelectCandidateToExpire`: the last of the candidates of the lowest cost, if that
-- is not above the bound.
unfoldable pub select_from :
    Os → FileCacheSet → ℕ → Option (ℕ × Candidate) → CleanupMap → Option (ℕ × Candidate)
select_from os s low_cost best [] = best
select_from os s low_cost best ((address, e) ∷ m) = elim (candidate_cost os s e) [
  | none ↦ select_from os s low_cost best m
  | some cost ↦
      let better = select_from os s cost (some (address, e)) m in
      let same = select_from os s low_cost best m in if le32 cost low_cost then better else same
]

abbrev pub select_candidate_to_expire : Os → FileCacheSet → CleanupMap → Option (ℕ × Candidate)
select_candidate_to_expire os s cleanup_map = select_from os s max_cost none cleanup_map

-- The variables of the loop of `CleanupAllTypes`.
pub record Cleaning : Type 0 where
  pub cleaned_size : ℕ
  pub cleanup_map : CleanupMap
  pub set : FileCacheSet

-- A round with a selected candidate.
unfoldable pub clean_candidate : Os → ℕ → ℕ → Candidate → Cleaning → Cleaning
clean_candidate os needed_size address e l =
    let size = get_filesystem_file_size (cached_object_size l.set e.obj_id) in
    let erased = Map.erase address l.cleanup_map in
    let (expired, s') = expire_cache_object os l.set e.obj_id in
    let cleaned = if expired then add32 l.cleaned_size size else l.cleaned_size in
    let refilled : CleanupMap = elim (get_file_cache_for_type s' e.type_name) [
      | none ↦ erased
      | some c ↦ add_candidate e.type_name c erased
    ] in
    record {
      cleaned_size = cleaned;
      cleanup_map = if lt32 cleaned needed_size then refilled else erased;
      set = s';
    }

unfoldable pub clean_loop : Os → ℕ → ℕ → Cleaning → Cleaning
clean_loop os zero needed_size l = l
clean_loop os (suc fuel) needed_size l = elim (select_candidate_to_expire os l.set l.cleanup_map) [
  | none ↦ l
  | some (address, e) ↦
      let rest = clean_loop os fuel needed_size (clean_candidate os needed_size address e l) in
      if lt32 l.cleaned_size needed_size then rest else l
]

unfoldable pub cleaning_start : FileCacheSet → Cleaning
cleaning_start s = record { cleaned_size = 0; cleanup_map = candidates s.cache_set []; set = s }

-- The rounds that end the loop: each takes an id out of the id map, or adds to the cleaned size.
abbrev pub cleaning_fuel : FileCacheSet → ℕ
cleaning_fuel s = (length s.id_map + 1) * word_mod

-- The size that was cleaned, and the set.
unfoldable pub cleanup_all_types : Os → FileCacheSet → ℕ → ℕ × FileCacheSet
cleanup_all_types os s needed =
    let needed_size = get_filesystem_file_size needed in
    let l = clean_loop os (cleaning_fuel s) needed_size (cleaning_start s) in
    (l.cleaned_size, l.set)

-- `CFileCache::Cleanup`
unfoldable pub cleanup : Os → FileCacheSet → Bytes → ℕ → FileCacheSet
cleanup os s type_name size =
    let s' = cleanup_loop os (list_length s type_name + 1) s type_name size in
    let avail = avail_space s' in
    let all = (cleanup_all_types os s' (sub32 size avail)).1 in
    let hi : ℕ = elim (get_file_cache_for_type s type_name) [
      | none ↦ 0
      | some c ↦ c.hi_watermark
    ] in
    if lt32 size hi then if lt32 avail size then all else s' else s

unfoldable pub cleanup_at_startup : Os → FileCacheSet → FileCacheSet
cleanup_at_startup os s =
    let over_run = sub32 (sum_of_cache_sizes s) s.total_cache_space in
    let cleaned = (cleanup_all_types os s over_run).1 in
    if lt32 s.total_cache_space (sum_of_cache_sizes s) then cleaned else s
