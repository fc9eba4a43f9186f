-- ===== src/Bus/Types.antt =====
-- The handlers of src/CategoryHandler.cpp for the types: `DefineType`, `ChangeType`, `DeleteType`,
-- `DescribeType`, and the timers' `WorkerHandler` and `CleanerHandler`.
use filecache.Base.{ℕ, false, not, ◌&&◌, Option, some, [], ◌%◌, ◌==◌, if◌then◌else◌}
use filecache.Base.Word.{word_mod, is_negative, widen, le64}
use filecache.Os.{Os}
use filecache.Config.{CacheParamValues, Entries, make_params}
use filecache.CacheSet.State.{type_exists}
use filecache.CacheSet.Types
use filecache.Bus.{FcErr, Payload, Reply, Service, get_or, with_set}

-- The casts to 32 bits.
abbrev pub payload_params : Payload → CacheParamValues
payload_params p =
    make_params (get_or 0 p.lo_watermark % word_mod) (get_or 0 p.hi_watermark % word_mod)
      (get_or 0 p.size % word_mod) (get_or 0 p.cost % word_mod) (get_or 0 p.lifetime % word_mod)

-- The reply, the service, and the file of the type's configuration.
unfoldable pub define_type :
    Os → ℕ → Service → Option Entries → Payload → Reply × Service × Option Entries
define_type os address svc file p =
    let type_name = get_or [] p.type_name in
    let r =
      Types.define_type os address svc.set type_name file (some (payload_params p))
        (get_or false p.dir_type) in
    if le64 (get_or 0 p.hi_watermark) (get_or 0 p.lo_watermark)
    then (Reply.failure FcErr.invalid_params, svc, file)
    else if type_exists svc.set type_name
    then (Reply.failure FcErr.exists_error, svc, file)
    else if r.done
    then (Reply.success, with_set svc r.set, r.file)
    else (Reply.failure FcErr.define_error, with_set svc r.set, r.file)

unfoldable pub change_type :
    Os → Service → Option Entries → Payload → Reply × Service × Option Entries
change_type os svc file p =
    let hi = get_or 0 p.hi_watermark in
    let r = Types.change_type os svc.set (get_or [] p.type_name) file (payload_params p) in
    if not (hi == 0) && le64 hi (get_or 0 p.lo_watermark)
    then (Reply.failure FcErr.invalid_params, svc, file)
    else if r.done
    then (Reply.success, with_set svc r.set, r.file)
    else (Reply.failure FcErr.change_error, with_set svc r.set, r.file)

unfoldable pub delete_type : Os → Service → Payload → Reply × Service
delete_type os svc p =
    let (freed, msg, s) = Types.delete_type os svc.set (get_or [] p.type_name) in
    if is_negative freed
    then (Reply.failure FcErr.delete_error, with_set svc s)
    else (Reply.freed_space (widen freed), with_set svc s)

unfoldable pub describe_type : Service → Payload → Reply
describe_type svc p =
    let type_name = get_or [] p.type_name in
    let params = Types.describe_type svc.set type_name in
    if type_exists svc.set type_name
    then Reply.params (widen params.lo_watermark) (widen params.hi_watermark) (widen params.size)
        (widen params.cost) (widen params.lifetime)
    else Reply.failure FcErr.exists_error
