-- ===== src/Bus/Slashed.antt =====
-- The objects of a type whose name has a slash, which the description of `DefineType` accepts, in
-- the handlers of src/CategoryHandler.cpp that take a path name.
use mathlib.Core.List.{append_assoc}
use filecache.Base.{
  ℕ, ◌<◌, ◌^◌, ◌≡◌, ◌≢◌, ◌⊎◌, refl, ◌∙◌, ap, inl, inr, Bool, false, some, [], ◌∷◌, ◌++◌, arith,
  Bool-cases, Bytes, length, length-append, if◌then◌else◌, ◌==◌,
}
use filecache.Base.Map.{bytes_eq, bytes_eq_iff, ℕ_key}
use filecache.ObjectId.{
  slash, is_empty, build_pathname, get_file_extension, get_object_id_from_path,
  get_type_name_from_path,
}
use filecache.ObjectId.Codec.{has_dot, get_object_id-build_pathname}
use filecache.ObjectId.Codec.Digits.{digits, window}
use filecache.ObjectId.Codec.Built.{build_pathname-parts, build_pathname-is_empty}
use filecache.ObjectId.TypeName.{has_slash, type_name_between}
use filecache.Os.{Os}
use filecache.CacheSet.State.{get_type_for_object_id}
use filecache.Bus.{FcErr, Payload, Reply, Service}
use filecache.Bus.Accepted.{on_path-other}
use filecache.Bus.Objects.{
  expire_cache_object, subscribe_cache_object, touch_cache_object, resize_cache_object,
}

module _ (makes : Bytes → Bool) (id : ℕ) (base t u file : Bytes) (h : id ≢ 0) where
  abbrev slashed : Bytes
  slashed = t ++ slash ∷ u

  built : is_empty (build_pathname makes id base slashed file false) ≡ false
  built = rw (build_pathname-is_empty makes id base slashed file false) (ground arith)

  first_part :
      has_slash t ≡ false
      → get_type_name_from_path base (build_pathname makes id base slashed file false) ≡ t
  unfolding digits get_file_extension
  first_part n = rw (build_pathname-parts makes id base slashed file false built) (
      simp append_assoc
        (type_name_between base t (u ++ slash ∷ (window id ++ get_file_extension file)) n))

other_name : (t u : Bytes) → bytes_eq t (t ++ slash ∷ u) ≡ false
other_name t u = elim (Bool-cases (bytes_eq t (t ++ slash ∷ u))) [
  | inr b ↦ b
  | inl b ↦
      let same = ap length ((bytes_eq_iff t (t ++ slash ∷ u)).0 b) in
      absurd (omega (arith, length-append t (slash ∷ u)))
]

-- For the path name of a positive id below 2^54 that belongs to a type with a slash in its name,
-- where the file has an extension or neither the base directory nor the type has a dot:
-- `SubscribeCacheObject`, `TouchCacheObject` and `ResizeCacheObject` with a size say that the
-- object does not exist, `ExpireCacheObject` says that it was expired unless the name starts
-- with the slash, and none of them changes anything.
pub slashed_type_unreachable :
    (makes : Bytes → Bool) (os : Os) (svc : Service) (p : Payload) (id new_size : ℕ)
    (t u file : Bytes)
    → id ≢ 0
    → id < 2 ^ 54
    → (get_file_extension file ≢ [])
      ⊎ ((has_dot svc.set.base_dir_name ≡ false) × (has_dot (t ++ slash ∷ u) ≡ false))
    → has_slash t ≡ false
    → get_type_for_object_id svc.set id ≡ t ++ slash ∷ u
    → p.path_name ≡ some (build_pathname makes id svc.set.base_dir_name (t ++ slash ∷ u) file false)
    → p.new_size ≡ some new_size
    → let failed : Reply × Service = (Reply.failure FcErr.exists_error, svc) in
      (subscribe_cache_object os svc p ≡ some failed)
      × (touch_cache_object os svc p ≡ some failed)
      × (resize_cache_object os svc p ≡ some failed)
      × (expire_cache_object os svc p ≡ some (if is_empty t then failed else (Reply.success, svc)))
unfolding subscribe_cache_object touch_cache_object resize_cache_object expire_cache_object
slashed_type_unreachable makes os svc p id new_size t u file h small dots n typed m k = (
  rw (m) (on_path-other svc.set path _ _ _ id read positive other),
  rw (m) (on_path-other svc.set path _ _ _ id read positive other),
  rw (k, m) (on_path-other svc.set path _ _ _ id read positive other),
  rw (m) (
      on_path-other svc.set path _ _ _ id read positive other
      ∙ rw (first_part makes id svc.set.base_dir_name t u file h n) refl),
)
  where
    path : Bytes
    path = build_pathname makes id svc.set.base_dir_name (t ++ slash ∷ u) file false

    read : get_object_id_from_path path ≡ some id
    read =
        get_object_id-build_pathname makes id svc.set.base_dir_name (t ++ slash ∷ u) file false
          small (built makes id svc.set.base_dir_name t u file h) dots

    positive : (id == 0) ≡ false
    positive = ground arith

    other :
        bytes_eq
          (get_type_name_from_path svc.set.base_dir_name path)
          (get_type_for_object_id svc.set id)
        ≡ false
    other = rw (first_part makes id svc.set.base_dir_name t u file h n, typed) (other_name t u)
