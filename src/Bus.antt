-- ===== src/Bus.antt =====
-- The service on the message bus: `CategoryHandler` of src/CategoryHandler.cpp, with the error
-- codes of src/FileCacheError.h. A handler takes the fields of a call and returns the reply, whose
-- text is left out, and the new state. A number of a call is a 64-bit pattern.
pub mod Types
pub mod Objects
pub mod Queries
pub mod Copy
pub mod Copied
pub mod Copier
pub mod Answers
pub mod Balance
pub mod Handled
pub mod Granted
pub mod Released
pub mod Runs
pub mod Expires
pub mod Refines
pub mod Schema
pub mod Defined
pub mod Accepted
pub mod Slashed
pub mod Inserted
pub mod Deleted
mod Tests
use filecache.Base.{ℕ, Bool, Option, none, some, List, if◌then◌else◌, ◌==◌, Bytes}
use filecache.Base.Map.{bytes_eq}
use filecache.ObjectId.{get_object_id_from_path, get_type_name_from_path}
use filecache.CacheSet.State.{FileCacheSet, get_type_for_object_id}

-- `FCErr`
pub data FcErr : Type 0 where
  error_none : FcErr
  invalid_params exists_error in_use_error define_error change_error delete_error : FcErr
  resize_error perm_error argument_error directory_error copy_object_error : FcErr
  configuration_error unknown_error : FcErr

-- The fields that `MojObject` finds in a call.
pub record Payload : Type 0 where
  pub type_name : Option Bytes
  pub file_name : Option Bytes
  pub path_name : Option Bytes
  pub destination : Option Bytes
  pub lo_watermark : Option ℕ
  pub hi_watermark : Option ℕ
  pub size : Option ℕ
  pub cost : Option ℕ
  pub lifetime : Option ℕ
  pub new_size : Option ℕ
  pub dir_type : Option Bool
  pub subscribe : Option Bool

-- A variable keeps its first value where the field is not there.
abbrev pub get_or {ℓ} : {A : Type ℓ} → A → Option A → A
get_or first none = first
get_or first (some x) = x

-- The fields of a reply that is a success, or the code of an error.
pub data Reply : Type 0 where
  success : Reply
  failure : FcErr → Reply
  freed_space : ℕ → Reply
  -- loWatermark, hiWatermark, size, cost, lifetime
  params : ℕ → ℕ → ℕ → ℕ → ℕ → Reply
  -- pathName, and whether subscribed is there
  path_name : Bytes → Bool → Reply
  new_size : ℕ → Reply
  subscribed : Reply
  -- numTypes, size, numObjs, availSpace
  status : ℕ → ℕ → ℕ → ℕ → Reply
  -- size, numObjs
  type_status : ℕ → ℕ → Reply
  size : ℕ → Reply
  file_name : Bytes → Reply
  types : List Bytes → Reply
  version : Bytes → Reply
  -- The copier has been started: from, to.
  copying : Bytes → Bytes → Reply
  -- The copy has ended: newPathName.
  copied : Bytes → Reply

-- `m_fileCacheSet`, and the path names of `m_subscribers`.
pub record Service : Type 0 where
  pub set : FileCacheSet
  pub subscribers : List Bytes

abbrev pub with_set : Service → FileCacheSet → Service
with_set svc s = record svc { set = s }

-- The checks on a path name that several handlers make. `none`: `GetObjectIdFromPath` would read
-- in front of the path name.
abbrev pub on_path {ℓ} : {A : Type ℓ} → FileCacheSet → Bytes → A → A → (ℕ → Option A) → Option A
on_path s path invalid gone f = elim (get_object_id_from_path path) [
  | none ↦ none
  | some obj_id ↦
      if obj_id == 0
      then some invalid
      else if bytes_eq (get_type_name_from_path s.base_dir_name path)
          (get_type_for_object_id s obj_id)
      then f obj_id
      else some gone
]
