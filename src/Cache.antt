-- ===== src/Cache.antt =====
-- `CFileCache` of src/FileCache.cpp: the objects of one type, with the counters and the list in
-- the order of use. Here are the methods that stay within one cache; those that call back into
-- the set of caches are in CacheSet. A method returns its result and the new cache.
pub mod Accounting
pub mod Counts
pub mod Cleans
pub mod Removal
pub mod Tests
use filecache.Base.{
  ℕ, ◌%◌, Bool, true, false, not, ◌&&◌, Option, none, some, List, [], ◌∷◌, map, reverse, ltb, ◌==◌,
  if◌then◌else◌, is_none, Bytes, length,
}
use filecache.Base.Word.{word_mod, minus_one, add32, sub32, lt32}
use filecache.Base.Map
use filecache.Base.Map.{Map, ℕ_key}
use filecache.BlockSize.{get_filesystem_file_size}
use filecache.ObjectId.{is_empty}
use filecache.Os.{Os}
use filecache.Object
use filecache.Object.{CacheObject, Place, Message}
use filecache.Object.Validate.{Nftw, Verdict, validate}

pub record FileCache : Type 0 where
  -- The pointer, by which the cleanup of all types orders the caches.
  pub address : ℕ
  pub cache_type : Bytes
  pub num_objects : ℕ
  pub cache_size : ℕ
  pub lo_watermark : ℕ
  pub hi_watermark : ℕ
  pub default_size : ℕ
  pub default_lifetime : ℕ
  pub default_cost : ℕ
  pub dir_type : Bool
  pub cached_objects : Map ℕ CacheObject
  pub cache_list : List ℕ

unfoldable pub make : ℕ → Bytes → FileCache
make address cache_type = record {
  address = address;
  cache_type = cache_type;
  num_objects = 0;
  cache_size = 0;
  lo_watermark = 0;
  hi_watermark = 1;
  default_size = 0;
  default_lifetime = 1;
  default_cost = 0;
  dir_type = false;
  cached_objects = [];
  cache_list = [];
}

abbrev pub place_of : Bytes → FileCache → Place
place_of base c = record { base_dir_name = base; cache_type = c.cache_type }

-- `m_cachedObjects.size()` and the new cache. The counters grow also where the map keeps an
-- object that it has under this id.
unfoldable pub insert : FileCache → CacheObject → ℕ × FileCache
insert c new_obj =
    let objects = Map.insert new_obj.id new_obj c.cached_objects in
    (
      length objects % word_mod,
      record c {
        cached_objects = objects;
        cache_list = new_obj.id ∷ c.cache_list;
        num_objects = add32 c.num_objects 1;
        cache_size = add32 c.cache_size (get_filesystem_file_size new_obj.size);
      },
    )

-- `m_cacheList.erase` at the first entry with the id.
unfoldable pub remove_first : ℕ → List ℕ → List ℕ
remove_first obj_id [] = []
remove_first obj_id (i ∷ is) = if i == obj_id then is else i ∷ remove_first obj_id is

unfoldable pub contains : ℕ → List ℕ → Bool
contains obj_id [] = false
contains obj_id (i ∷ is) = if i == obj_id then true else contains obj_id is

-- `UpdateObject`: the first entry with the id moves to the front.
unfoldable pub update_object : ℕ → List ℕ → List ℕ
update_object obj_id l = if contains obj_id l then obj_id ∷ remove_first obj_id l else l

unfoldable pub expire_found : Os → Bytes → FileCache → ℕ → CacheObject → Bool × FileCache
expire_found os base c obj_id o =
    let list = if o.expired then c.cache_list else remove_first obj_id c.cache_list in
    let (gone, o') = Object.expire os (place_of base c) o in
    if gone
    then (
      true,
      record c {
        cache_list = list;
        cached_objects = Map.erase obj_id c.cached_objects;
        num_objects = sub32 c.num_objects 1;
        cache_size = sub32 c.cache_size (get_filesystem_file_size o.size);
      },
    )
    else (
      false,
      record c { cache_list = list; cached_objects = Map.put obj_id o' c.cached_objects },
    )

-- True also for an object that the cache does not have.
unfoldable pub expire : Os → Bytes → FileCache → ℕ → Bool × FileCache
expire os base c obj_id = elim (Map.find obj_id c.cached_objects) [
  | none ↦ (true, c)
  | some o ↦ expire_found os base c obj_id o
]

unfoldable pub subscribe :
    Os → Bytes → FileCache → Option Message → ℕ → Bytes × Option Message × FileCache
subscribe os base c msg obj_id = elim (Map.find obj_id c.cached_objects) [
  | none ↦ ([], msg, c)
  | some o ↦
      let (pathname, msg', o') = Object.subscribe os (place_of base c) o msg in
      let objects = Map.put obj_id o' c.cached_objects in
      let granted = is_none msg' && not (is_empty pathname) in
      let list = if granted then update_object obj_id c.cache_list else c.cache_list in
      (pathname, msg', record c { cached_objects = objects; cache_list = list })
]

-- An object of a new size replaces the old one in the map and in the sum.
unfoldable pub store_resized : FileCache → ℕ → ℕ → CacheObject → FileCache
store_resized c obj_id orig_size o' =
    let objects = Map.put obj_id o' c.cached_objects in
    let difference =
      sub32 (get_filesystem_file_size o'.size) (get_filesystem_file_size orig_size) in
    if o'.size == orig_size
    then record c { cached_objects = objects }
    else record c { cached_objects = objects; cache_size = add32 c.cache_size difference }

-- Whether the id leaves the id map of the set, and the cache.
unfoldable pub unsubscribe : Os → Bytes → FileCache → ℕ → Bool × FileCache
unsubscribe os base c obj_id = elim (Map.find obj_id c.cached_objects) [
  | none ↦ (false, c)
  | some o ↦
      let (removed, o') = Object.unsubscribe os (place_of base c) o in
      let c' = store_resized c obj_id o.size o' in
      (removed, record c' { cache_list = update_object obj_id c'.cache_list })
]

unfoldable pub touch : Os → FileCache → ℕ → Bool × FileCache
touch os c obj_id = elim (Map.find obj_id c.cached_objects) [
  | none ↦ (false, c)
  | some o ↦ (
    true,
    record c {
      cached_objects = Map.put obj_id (Object.update_access_time os o) c.cached_objects;
      cache_list = update_object obj_id c.cache_list;
    },
  )
]

-- The end of `Resize`, once the space is there: the object is resized and accounted for.
unfoldable pub resize_found : Os → Bytes → FileCache → ℕ → CacheObject → ℕ → ℕ × FileCache
resize_found os base c obj_id o new_size =
    let (final_size, o') = Object.resize os (place_of base c) o new_size in
    let c' = store_resized c obj_id o.size o' in
    let list = if final_size == o.size then c'.cache_list else update_object obj_id c'.cache_list in
    (final_size, record c' { cache_list = list })

-- `CheckSubscribedObject`: what the log says of an object that is being written.
unfoldable pub check_subscribed_object : Os → Nftw → Bytes → FileCache → ℕ → Option Verdict
check_subscribed_object os nftw base c obj_id = elim (Map.find obj_id c.cached_objects) [
  | none ↦ none
  | some o ↦ if not o.written then some (validate os nftw (place_of base c) o) else none
]

unfoldable pub get_object_size : FileCache → ℕ → ℕ
get_object_size c obj_id = elim (Map.find obj_id c.cached_objects) [
  | none ↦ minus_one
  | some o ↦ o.size
]

unfoldable pub get_object_filename : FileCache → ℕ → Bytes
get_object_filename c obj_id = elim (Map.find obj_id c.cached_objects) [
  | none ↦ []
  | some o ↦ o.filename
]

-- `none` is a division by zero.
unfoldable pub get_cache_cost : Os → FileCache → ℕ → Option ℕ
get_cache_cost os c obj_id = elim (Map.find obj_id c.cached_objects) [
  | none ↦ some minus_one
  | some o ↦ Object.get_cache_cost os o
]

-- `back()` of the list in the order of use, 0 for the empty list.
unfoldable pub back : List ℕ → ℕ
back [] = 0
back (i ∷ []) = i
back (i ∷ j ∷ is) = back (j ∷ is)

unfoldable pub pop_back : List ℕ → List ℕ
pop_back [] = []
pop_back (i ∷ []) = []
pop_back (i ∷ j ∷ is) = i ∷ pop_back (j ∷ is)

unfoldable pub get_cleanup_candidate : FileCache → ℕ
get_cleanup_candidate c = if lt32 c.lo_watermark c.cache_size then back c.cache_list else 0

unfoldable pub expired_ids : Map ℕ CacheObject → List ℕ
expired_ids [] = []
expired_ids ((i, o) ∷ m) = if o.expired then i ∷ expired_ids m else expired_ids m

unfoldable pub expire_all : Os → Bytes → List ℕ → FileCache → FileCache
expire_all os base [] c = c
expire_all os base (i ∷ is) c = expire_all os base is (expire os base c i).1

-- The ids that were collected are expired from the last to the first.
unfoldable pub cleanup_orphaned_objects : Os → Bytes → FileCache → FileCache
cleanup_orphaned_objects os base c = expire_all os base (reverse (expired_ids c.cached_objects)) c

unfoldable pub has_subscribed : Map ℕ CacheObject → Bool
has_subscribed [] = false
has_subscribed ((i, o) ∷ m) = if lt32 0 o.subscription_count then true else has_subscribed m

unfoldable pub is_cleanable : FileCache → Bool
is_cleanable c = not (has_subscribed c.cached_objects)
