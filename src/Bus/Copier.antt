-- ===== src/Bus/Copier.antt =====
-- What surrounds a copy: the end of `CAsyncCopier` of src/AsyncFileCopier.cpp, which `CopyFile` of
-- src/CategoryHandler.cpp starts, and `CallerID`, the name of a client.
use filecache.Base.{Bool, Option, none, some, [], if◌then◌else◌, Bytes, take, ◌==◌}
use filecache.ObjectId.{blank, find_first}
use filecache.Bus.{FcErr, Reply}

-- `Ready`: the reply to the call once the copy has ended, and whether it worked.
unfoldable pub ready : Bytes → Bool → Reply
ready destination_path copy_worked =
    if copy_worked then Reply.copied destination_path else Reply.failure FcErr.copy_object_error

-- The application's id up to its first blank, or the service's id where there is none.
unfoldable pub caller_id : Option Bytes → Option Bytes → Bytes
caller_id none none = []
caller_id none (some service_id) = service_id
caller_id (some app_id) service_id = elim (find_first (λ b. b == blank) app_id) [
  | none ↦ app_id
  | some first_space ↦ take first_space app_id
]
