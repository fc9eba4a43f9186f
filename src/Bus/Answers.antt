-- ===== src/Bus/Answers.antt =====
-- What the replies of the handlers of src/CategoryHandler.cpp tell about the service.
use filecache.Base.{
  ℕ, ◌+◌, ◌*◌, ◌%◌, ◌<◌, ◌≡◌, refl, ◌∙◌, true, false, Option, some, [], arith, ◌==◌, if◌then◌else◌,
  Bool-cases, inl, inr,
}
use filecache.Base.Word.{word_mod, widen}
use filecache.Base.Map.{bytes_key, bytes_eq}
use filecache.ObjectId.{get_object_id_from_path, get_type_name_from_path}
use filecache.Os.{Os}
use filecache.CacheSet.State.{FileCacheSet, get_type_for_object_id}
use filecache.CacheSet.Objects as SetObjects
use filecache.Bus.{FcErr, Payload, Reply, Service, get_or, with_set}
use filecache.Bus.Objects.{resize_cache_object, resize_answer}
use filecache.Bus.Accepted.{on_path-same}

-- `ResizeCacheObject` to a size that exceeds a size n below 2^32 by a multiple of 2^32, for a path
-- name that a positive id and the type of this id can be read from: where `Resize` of the set to n
-- gives a size and a set, the service goes on with that set, and the reply is success with n as
-- the new size where the size is n, and a failure to resize otherwise.
pub resize_cache_object_wraps :
    (os : Os) (svc : Service) (p : Payload) (n k i size : ℕ) (s' : FileCacheSet)
    → n < word_mod
    → get_object_id_from_path (get_or [] p.path_name) ≡ some i
    → (i == 0) ≡ false
    → bytes_eq
        (get_type_name_from_path svc.set.base_dir_name (get_or [] p.path_name))
        (get_type_for_object_id svc.set i)
      ≡ true
    → SetObjects.resize os svc.set i n ≡ some (size, s')
    → resize_cache_object os svc (record p { new_size = some (n + k * word_mod) })
      ≡ some (
        if size == n then Reply.new_size (widen n) else Reply.failure FcErr.resize_error,
        with_set svc s',
      )
unfolding resize_cache_object
resize_cache_object_wraps os svc p n k i size s' small read positive same resized =
    let wrapped : (n + k * word_mod) % word_mod ≡ n = omega arith in
    on_path-same svc.set (get_or [] p.path_name) failed failed answer_to i read positive same
    ∙ rw (wrapped, resized) answered
  where
    failed : Reply × Service
    failed = (Reply.failure FcErr.exists_error, svc)

    answer_to : ℕ → Option (Reply × Service)
    answer_to obj_id =
        let new_size = (n + k * word_mod) % word_mod in
        resize_answer svc new_size (SetObjects.resize os svc.set obj_id new_size)

    answered :
        resize_answer svc n (some (size, s'))
        ≡ some (
          if size == n then Reply.new_size (widen n) else Reply.failure FcErr.resize_error,
          with_set svc s',
        )
    answered = elim (Bool-cases (size == n)) [
      | inl b ↦ (let equal : size ≡ n = ground (arith, b) in rw (equal) refl)
      | inr b ↦ rw (b) refl
    ]
