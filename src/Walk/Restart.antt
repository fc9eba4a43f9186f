-- ===== src/Walk/Restart.antt =====
-- The files that the service wrote before a restart, in the walk of the cache directory
-- (`ProcessFiles` of src/FileCacheSet.cpp after `GetPathname` of src/CacheObject.cpp).
pub mod Stored
mod Tests
use filecache.Base.{
  ap, ℕ, ◌<◌, ◌^◌, ◌≡◌, refl, inl, inr, Bool, true, false, some, [], ◌∷◌, ◌++◌, arith, Bool-cases,
  Bytes, length, take,
}
use filecache.Base.Map.{bytes_eq_iff}
use filecache.ObjectId.{is_empty, get_file_extension, get_type_name_from_path}
use filecache.ObjectId.Codec.{has_dot}
use filecache.ObjectId.Codec.Built.{build_pathname-parts}
use filecache.ObjectId.TypeName.{ReadsBack, built-ReadsBack}
use filecache.Object.{CacheObject, get_pathname}
use filecache.Cache
use filecache.Cache.{FileCache}
use filecache.CacheSet.Counts.{IsPlain}
use filecache.Walk.{
  Disk, Walk, Mode, ProcessStatus, contains_name, occurs, is_prefix, process_files, process_entry,
  process_mode, check_for_special_file, create_type_if_needed, if_continue, seq_num_filename,
  type_config_filename,
}

-- An object of a type that the walk has met, at its path name, which is not empty, where the base
-- directory has no dot, the type name is plain and the walk is in no directory object.
pub record IsAwaited (disk : Disk) (w : Walk) (c : FileCache) (o : CacheObject) (path : Bytes)
    : Type 0 where
  pub pathname : path ≡ get_pathname disk.os (Cache.place_of w.set.base_dir_name c) o false
  pub built : is_empty path ≡ false
  pub small : o.id < 2 ^ 54
  pub base : has_dot w.set.base_dir_name ≡ false
  pub plain : IsPlain c.cache_type
  pub met : contains_name c.cache_type w.types ≡ true
  pub outside : is_empty w.dir_type_dir ≡ true

awaited-ReadsBack :
    (disk : Disk) (w : Walk) (c : FileCache) (o : CacheObject) (path : Bytes)
    → IsAwaited disk w c o path
    → ReadsBack w.set.base_dir_name c.cache_type o.id path
unfolding get_pathname
awaited-ReadsBack disk w c o path a = rw (a.pathname) (
    built-ReadsBack _ w.set.base_dir_name c.cache_type o.filename o.id a.base a.plain.no_dot
      a.plain.no_slash a.small (rw (a.pathname) at a.built))

take-length : (name : Bytes) → take (length name) name ≡ name
take-length [] = refl
take-length (b ∷ bs) = ap (◌∷◌ b) (take-length bs)

is_prefix_self : (name : Bytes) → is_prefix name name ≡ true
is_prefix_self name = rw (take-length name) ((bytes_eq_iff name name).1 refl)

occurs-append : (name xs : Bytes) → occurs name (xs ++ name) ≡ true
unfolding occurs
occurs-append [] [] = refl
occurs-append (b ∷ bs) [] = rw (is_prefix_self (b ∷ bs)) refl
occurs-append name (x ∷ xs) = ground (arith, occurs-append name xs)

process_mode_special :
    (disk : Disk) (path name : Bytes) (i st_size : ℕ) (w : Walk)
    → occurs seq_num_filename path ≡ true
    → contains_name (get_type_name_from_path w.set.base_dir_name path) w.types ≡ true
    → (process_mode disk path name i Mode.regular st_size w) ≡ (ProcessStatus.complete, w)
unfolding process_mode check_for_special_file create_type_if_needed if_continue
process_mode_special disk path name i st_size w q t =
    elim (Bool-cases (occurs type_config_filename path)) [
      | inl e ↦ rw (t, e) refl
      | inr e ↦ rw (t, e, q) refl
    ]

awaited_special :
    (disk : Disk) (w : Walk) (c : FileCache) (o : CacheObject) (path : Bytes)
    → IsAwaited disk w c o path
    → get_file_extension o.filename ≡ seq_num_filename
    → occurs seq_num_filename path ≡ true
unfolding get_pathname
awaited_special disk w c o path a e =
    let parts =
      build_pathname-parts _ o.id w.set.base_dir_name c.cache_type o.filename false
        (rw (a.pathname) at a.built) in
    rw (a.pathname, parts, e) (occurs-append seq_num_filename _)

-- The file of an awaited object whose file name has the extension of the file of the sequence
-- number is taken for that file: `ProcessFiles` lets the walk go on and leaves the set, so that
-- the object is not restored, whatever is recorded of it.
pub process_files_sequence_named :
    (disk : Disk) (w : Walk) (c : FileCache) (o : CacheObject) (path : Bytes) (st_size : ℕ)
    → IsAwaited disk w c o path
    → get_file_extension o.filename ≡ seq_num_filename
    → disk.fstat path ≡ some (Mode.regular, st_size)
    → process_files disk path w ≡ some (true, w)
unfolding process_files process_entry
process_files_sequence_named disk w c o path st_size a e f =
    let back = awaited-ReadsBack disk w c o path a in
    let named = awaited_special disk w c o path a e in
    let met : contains_name (get_type_name_from_path w.set.base_dir_name path) w.types ≡ true =
      rw (back.typed) a.met in
    rw
      (
        back.read,
        process_files,
        f,
        a.outside,
        process_mode_special disk path _ o.id st_size w named met,
      )
      refl
