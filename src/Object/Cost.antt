-- ===== src/Object/Cost.antt =====
-- The cost by which the cleanup of all types chooses.
use filecache.Base.{◌≢◌, none, arith}
use filecache.Os.{Os}
use filecache.Object.{CacheObject, get_cache_cost}
use filecache.Object.Invariant.{IsWellFormed}

-- `GetCacheCost` divides by no zero on an object that is written or has one subscriber at most,
-- whose lifetime is positive and whose cost is 255 at most.
get_cache_cost_defined : (os : Os) (o : CacheObject) → IsWellFormed o → get_cache_cost os o ≢ none
unfolding get_cache_cost
get_cache_cost_defined os o w = ground arith
