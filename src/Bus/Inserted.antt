-- ===== src/Bus/Inserted.antt =====
-- What `GetCacheObjectSize` and `GetCacheObjectFilename` of src/CategoryHandler.cpp say of an object
-- that `InsertCacheObject` made.
use filecache.Base.{ℕ, ◌≡◌, false, Option, none, some, List, [], ◌==◌, Bytes}
use filecache.Base.Map
use filecache.Base.Map.{ℕ_key}
use filecache.ObjectId.{build_pathname}
use filecache.Os.{Os}
use filecache.Object.{Message, is_there}
use filecache.CacheSet.Objects as SetObjects
use filecache.CacheSet.Objects.{Request}
use filecache.Bus.{Payload, Reply, Service, get_or}
use filecache.Bus.Objects.{insert_cache_object, insert_request}

-- Where a call has no subscription and is answered with a path name, the path name is the one
-- built for the id that the set gave.
record Made (os : Os) (rand_vals : List ℕ) (svc : Service) (p : Payload) (path : Bytes)
    (svc' : Service) : Type 0 where
  pub id : ℕ
  pub msg : Message
  pub given :
      SetObjects.insert_cache_object os rand_vals svc.set
        (get_or [] p.type_name)
        (insert_request svc.set p)
      ≡ some (id, msg, svc'.set)
  pub positive : (id == 0) ≡ false
  pub shape :
      path
      ≡ build_pathname
          (λ d. is_there (os.mkdir d))
          id
          svc'.set.base_dir_name
          (get_or [] p.type_name)
          (get_or [] p.file_name)
          false

abbrev path_of : Reply → Bytes
path_of (Reply.path_name path sub) = path
path_of r = []

abbrev answer_or : Service → Option (Reply × Service) → Reply × Service
answer_or svc none = (Reply.success, svc)
answer_or svc (some r) = r
