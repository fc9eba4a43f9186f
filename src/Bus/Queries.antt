-- ===== src/Bus/Queries.antt =====
-- The handlers of src/CategoryHandler.cpp that only read: `GetCacheStatus`, `GetCacheTypeStatus`,
-- `GetCacheObjectSize`, `GetCacheObjectFilename`, `GetCacheTypes`, `GetVersion`.
use filecache.Base.{Option, none, some, [], ◌==◌, if◌then◌else◌, codes, Bytes}
use filecache.Base.Word.{is_negative, widen}
use filecache.ObjectId.{get_object_id_from_path}
use filecache.CacheSet.State
use filecache.CacheSet.State.{cached_object_size, cached_object_filename, get_types}
use filecache.Bus.{FcErr, Payload, Reply, Service, get_or}

unfoldable pub get_cache_status : Service → Reply
get_cache_status svc =
    let st = State.get_cache_status svc.set in
    Reply.status (widen st.num_types) (widen st.size) (widen st.num_cache_objects)
      (widen st.avail_space)

unfoldable pub get_cache_type_status : Service → Payload → Reply
get_cache_type_status svc p = elim (State.get_cache_type_status svc.set (get_or [] p.type_name)) [
  | none ↦ Reply.failure FcErr.exists_error
  | some (size, num_objs) ↦ Reply.type_status (widen size) (widen num_objs)
]

-- The type of the path name is not looked at.
unfoldable pub get_cache_object_size : Service → Payload → Option Reply
get_cache_object_size svc p = elim (get_object_id_from_path (get_or [] p.path_name)) [
  | none ↦ none
  | some obj_id ↦
      let size = cached_object_size svc.set obj_id in
      some (
        if obj_id == 0
        then Reply.failure FcErr.exists_error
        else if is_negative size
        then Reply.failure FcErr.exists_error
        else Reply.size (widen size))
]

unfoldable pub get_cache_object_filename : Service → Payload → Option Reply
get_cache_object_filename svc p = elim (get_object_id_from_path (get_or [] p.path_name)) [
  | none ↦ none
  | some obj_id ↦ some (
      if obj_id == 0
      then Reply.failure FcErr.exists_error
      else Reply.file_name (cached_object_filename svc.set obj_id))
]

-- A reply without types has no field for them: here, the empty list.
unfoldable pub get_cache_types : Service → Reply
get_cache_types svc = Reply.types (get_types svc.set)

-- `s_InterfaceVersion`
abbrev pub interface_version : Bytes
interface_version = codes "1.1"

unfoldable pub get_version : Reply
get_version = Reply.version interface_version
