-- ===== src/Bus/Copy.antt =====
-- `CopyCacheObject` of src/CategoryHandler.cpp. The copy itself goes on after the call.
use filecache.Base.{
  ℕ, zero, suc, ◌+◌, ◌-◌, ◌/◌, ◌%◌, Bool, Option, none, some, [], ◌∷◌, ◌++◌, ltb, ◌==◌,
  if◌then◌else◌, codes, Bytes,
}
use filecache.Base.Word.{is_negative}
use filecache.ObjectId.{slash, is_empty, get_file_extension, get_file_basename}
use filecache.CacheSet.State.{cached_object_size, cached_object_filename}
use filecache.Bus.{FcErr, Payload, Reply, Service, get_or, on_path}

-- The answers of the permission library and of boost::filesystem. `none`, and false for
-- `create_directories`: the call throws an exception, whose code is not zero.
pub record CopyOs : Type 0 where
  -- `s_defaultDownloadDir`, which the build sets
  pub default_download_dir : Bytes
  -- `SBIsPathAllowed`, for the sender of the call
  pub is_path_allowed : Bytes → Bool
  pub exists : Bytes → Option Bool
  pub create_directories : Bytes → Bool
  pub is_directory : Bytes → Option Bool
  -- `operator/` of a path
  pub join : Bytes → Bytes → Bytes

-- `s_maxUniqueFileIndex`
abbrev pub max_unique_file_index : ℕ
max_unique_file_index = 100

-- A number of one or two digits, as a stream writes it: the loop ends before 100.
abbrev pub index_text : ℕ → Bytes
index_text i = if ltb i 10 then (48 + i) ∷ [] else (48 + i / 10) ∷ (48 + i % 10) ∷ []

unfoldable pub new_file_name : Bytes → Bytes → ℕ → Bytes
new_file_name basename extension i =
    basename ++ codes "-(" ++ index_text i ++ codes ")" ++ extension

-- The loop, from the index `max_unique_file_index` less the first argument on: the file name and
-- the index at its end. `none`: an exception.
unfoldable pub unique_name : (Bytes → Option Bool) → Bytes → Bytes → ℕ → Bytes → Option (Bytes × ℕ)
unique_name exists basename extension zero file_name = elim (exists file_name) [
  | none ↦ none
  | some there ↦ some (file_name, max_unique_file_index)
]
unique_name exists basename extension (suc n) file_name =
    let i = max_unique_file_index - suc n in
    let again = unique_name exists basename extension n (new_file_name basename extension i) in
    elim (exists file_name) [
      | none ↦ none
      | some there ↦ if there then again else some (file_name, i)
    ]

-- A result, or the code of an error.
pub data Result {ℓ} (A : Type ℓ) : Type ℓ where
  fail : FcErr → Result A
  done : A → Result A

-- The name of the copy in a directory that is there.
unfoldable pub name_in : CopyOs → Bytes → Bytes → Result Bytes
name_in fs destination file_name =
    elim (unique_name (λ name. fs.exists (fs.join destination name)) (get_file_basename file_name)
      (get_file_extension file_name) 99 file_name) [
        | none ↦ Result.fail FcErr.directory_error
        | some (name, i) ↦
            if i == max_unique_file_index
            then Result.fail FcErr.argument_error
            else Result.done (destination ++ slash ∷ name)
      ]

-- The name of the copy, if the destination is a directory.
unfoldable pub name_checked : CopyOs → Bytes → Bytes → Result Bytes
name_checked fs destination file_name =
    let named = name_in fs destination file_name in
    elim (fs.is_directory destination) [
      | none ↦ Result.fail FcErr.directory_error
      | some is_dir ↦ if is_dir then named else Result.fail FcErr.argument_error
    ]

-- What follows the check of the permission.
unfoldable pub name_at : CopyOs → Bytes → Bytes → Result Bytes
name_at fs destination file_name =
    let checked = name_checked fs destination file_name in
    elim (fs.exists destination) [
      | none ↦ Result.fail FcErr.directory_error
      | some there ↦
          if there
          then checked
          else if fs.create_directories destination
          then checked
          else Result.fail FcErr.directory_error
    ]

-- The path name of the copy.
unfoldable pub copy_destination : CopyOs → Bytes → Bytes → Result Bytes
copy_destination fs destination file_name =
    let named = name_at fs destination file_name in
    if fs.is_path_allowed destination then named else Result.fail FcErr.perm_error

-- The name of the file, or an error.
unfoldable pub copy_file_name : Service → Payload → Option (Result Bytes)
copy_file_name svc p =
    let failed : Result Bytes = Result.fail FcErr.exists_error in
    let given = get_or [] p.file_name in
    on_path svc.set (get_or [] p.path_name) failed failed λ obj_id.
      let found = cached_object_filename svc.set obj_id in
      some (
        if is_negative (cached_object_size svc.set obj_id)
        then failed
        else if is_empty given
        then if is_empty found then Result.fail FcErr.argument_error else Result.done found
        else Result.done given)

abbrev pub copy_reply : Bytes → Result Bytes → Result Bytes → Reply
copy_reply source name (Result.fail e) = Reply.failure e
copy_reply source (Result.fail e) (Result.done dest) = Reply.failure e
copy_reply source (Result.done name) (Result.done dest) = Reply.copying source dest

abbrev pub name_of : Result Bytes → Bytes
name_of (Result.fail e) = []
name_of (Result.done name) = name

-- The destination is looked for also where the object was not found; its error is the one told.
unfoldable pub copy_cache_object : CopyOs → Service → Payload → Option Reply
copy_cache_object fs svc p =
    let given = get_or [] p.destination in
    let destination = if is_empty given then fs.default_download_dir else given in
    elim (copy_file_name svc p) [
      | none ↦ none
      | some name ↦
          some (
            copy_reply (get_or [] p.path_name) name
              (copy_destination fs destination (name_of name)))
    ]
