-- ===== src/Bus/Objects.antt =====
-- The handlers of src/CategoryHandler.cpp for one object, the end of a subscription, and the work
-- of the two timers. `none`: the code reads in front of a path name, reads a variable that was not
-- set, or uses an object that was deleted; or the random numbers have run out.
use filecache.Base.{
  ℕ, zero, suc, Bool, true, false, not, ◌&&◌, ◌||◌, Option, none, some, List, [], ◌∷◌, ◌++◌, ◌%◌,
  ◌==◌, if◌then◌else◌, is_none, Bytes,
}
use filecache.Base.Word.{word_mod, widen, le64}
use filecache.BlockSize.{get_filesystem_file_size}
use filecache.ObjectId.{is_empty, build_pathname, get_object_id_from_path, get_type_name_from_path}
use filecache.Os.{Os}
use filecache.Object.{Message, is_there}
use filecache.Object.Validate.{Nftw, Verdict}
use filecache.CacheSet.State
use filecache.CacheSet.State.{
  FileCacheSet, type_exists, is_type_dir_type, unsubscribe_cache_object, cleanup_orphans,
  check_subscribed_object,
}
use filecache.CacheSet.Objects
use filecache.CacheSet.Objects.{Request, cleanup_dir_types}
use filecache.CacheSet.Types.{describe_type}
use filecache.Bus.{FcErr, Payload, Reply, Service, get_or, with_set, on_path}

-- The reply to an insertion that succeeded.
unfoldable pub insert_reply : Os → Service → ℕ → Message → Bytes → Bytes → Bool → Reply × Service
insert_reply os svc obj_id msg type_name file_name subscribed =
    let (fpath, msg', s) = State.subscribe_cache_object os svc.set (some msg) obj_id in
    let path =
      build_pathname (λ p. is_there (os.mkdir p)) obj_id svc.set.base_dir_name type_name file_name
        false in
    if subscribed
    then if is_empty fpath then (Reply.path_name [] false, with_set svc s) else (
      Reply.path_name fpath true,
      record { set = s; subscribers = svc.subscribers ++ fpath ∷ [] },
    )
    else (Reply.path_name path false, svc)

-- What the handler asks of the set: a field that is not given is the type's default.
abbrev pub insert_request : FileCacheSet → Payload → Request
insert_request s p =
    let params = describe_type s (get_or [] p.type_name) in
    record {
      filename = get_or [] p.file_name;
      size = get_or (widen params.size) p.size % word_mod;
      cost = get_or (widen params.cost) p.cost % word_mod;
      lifetime = get_or (widen params.lifetime) p.lifetime % word_mod;
    }

-- The parameters are refused.
unfoldable pub insert_invalid : FileCacheSet → Payload → Bool
insert_invalid s p =
    let type_name = get_or [] p.type_name in
    let size = get_or (widen (describe_type s type_name).size) p.size in
    not (type_exists s type_name)
    || (le64 size (widen (get_filesystem_file_size 1)) && is_type_dir_type s type_name)

-- The answer to what the set's insertion gives.
unfoldable pub insert_answer :
    Os → Service → Payload → Option (ℕ × Message × FileCacheSet) → Option (Reply × Service)
insert_answer os svc p none = none
insert_answer os svc p (some (obj_id, msg, s)) =
    let answer =
      insert_reply os (with_set svc s) obj_id msg (get_or [] p.type_name) (get_or [] p.file_name)
        (get_or false p.subscribe) in
    some (if obj_id == 0 then (Reply.failure FcErr.exists_error, with_set svc s) else answer)

unfoldable pub insert_cache_object : Os → List ℕ → Service → Payload → Option (Reply × Service)
insert_cache_object os rand_vals svc p =
    let answer = insert_answer os svc p (
      Objects.insert_cache_object os rand_vals svc.set (get_or [] p.type_name)
        (insert_request svc.set p)) in
    if insert_invalid svc.set p then some (Reply.failure FcErr.invalid_params, svc) else answer

abbrev pub resize_answer : Service → ℕ → Option (ℕ × FileCacheSet) → Option (Reply × Service)
resize_answer svc new_size none = none
resize_answer svc new_size (some (size, s)) = some (
  if size == new_size then Reply.new_size (widen size) else Reply.failure FcErr.resize_error,
  with_set svc s,
)

unfoldable pub resize_cache_object : Os → Service → Payload → Option (Reply × Service)
resize_cache_object os svc p =
    let failed : Reply × Service = (Reply.failure FcErr.exists_error, svc) in
    elim p.new_size [
      | none ↦ none
      | some new_size ↦ on_path svc.set (get_or [] p.path_name) failed failed λ obj_id.
          resize_answer svc (new_size % word_mod)
            (Objects.resize os svc.set obj_id (new_size % word_mod))
    ]

-- A path name of another type than the object's is said to be expired, unless it names no type.
unfoldable pub expire_cache_object : Os → Service → Payload → Option (Reply × Service)
expire_cache_object os svc p =
    let path = get_or [] p.path_name in
    let failed : Reply × Service = (Reply.failure FcErr.exists_error, svc) in
    let gone : Reply × Service =
      if is_empty (get_type_name_from_path svc.set.base_dir_name path)
      then failed
      else (Reply.success, svc) in
    on_path svc.set path failed gone λ obj_id.
      let (expired, s) = State.expire_cache_object os svc.set obj_id in
      some (if expired then Reply.success else Reply.failure FcErr.in_use_error, with_set svc s)

unfoldable pub subscribe_cache_object : Os → Service → Payload → Option (Reply × Service)
subscribe_cache_object os svc p =
    let path = get_or [] p.path_name in
    let failed : Reply × Service = (Reply.failure FcErr.exists_error, svc) in
    on_path svc.set path failed failed λ obj_id.
      let (fpath, msg, s) = State.subscribe_cache_object os svc.set none obj_id in
      some (
        if is_empty fpath || not (is_none msg)
        then (Reply.failure FcErr.exists_error, with_set svc s)
        else (Reply.subscribed, record { set = s; subscribers = svc.subscribers ++ path ∷ [] }))

unfoldable pub touch_cache_object : Os → Service → Payload → Option (Reply × Service)
touch_cache_object os svc p =
    let failed : Reply × Service = (Reply.failure FcErr.exists_error, svc) in
    on_path svc.set (get_or [] p.path_name) failed failed λ obj_id.
      let (done, s) = State.touch os svc.set obj_id in
      some (if done then Reply.success else Reply.failure FcErr.exists_error, with_set svc s)

-- The element at a place, with the list that is left without it.
unfoldable pub remove_at : ℕ → List Bytes → Option (Bytes × List Bytes)
remove_at n [] = none
remove_at zero (x ∷ xs) = some (x, xs)
remove_at (suc n) (x ∷ xs) = elim (remove_at n xs) [ none ↦ none | some (y, ys) ↦ some (y, x ∷ ys) ]

-- What the end of a subscription does to the set.
unfoldable pub release : Os → FileCacheSet → Bytes → Option FileCacheSet
release os s path = elim (get_object_id_from_path path) [
  | none ↦ none
  | some obj_id ↦
      let type_name = get_type_name_from_path s.base_dir_name path in
      let s' = unsubscribe_cache_object os s type_name obj_id in
      some (if obj_id == 0 then s else if is_empty type_name then s else s')
]

-- The subscription at a place of `m_subscribers` ends; there is none where the place is past the
-- end.
unfoldable pub cancel_subscription : Os → Service → ℕ → Option Service
cancel_subscription os svc n = elim (remove_at n svc.subscribers) [
  | none ↦ some svc
  | some (path, rest) ↦ elim (release os svc.set path) [
    | none ↦ none
    | some s ↦ some (record { set = s; subscribers = rest })
  ]
]

-- The loop over the subscriptions: what the log says of each.
unfoldable pub check_subscribers :
    Os → Nftw → FileCacheSet → List Bytes → Option (List (Option Verdict))
check_subscribers os nftw s [] = some []
check_subscribers os nftw s (path ∷ paths) = elim (get_object_id_from_path path) [
  | none ↦ none
  | some obj_id ↦
      let type_name = get_type_name_from_path s.base_dir_name path in
      let verdict = check_subscribed_object os nftw s type_name obj_id in
      elim (check_subscribers os nftw s paths) [
        | none ↦ none
        | some verdicts ↦ some (verdict ∷ verdicts)
      ]
]

unfoldable pub worker_handler : Os → Nftw → Service → Option (List (Option Verdict) × Service)
worker_handler os nftw svc =
    let s = cleanup_orphans os svc.set in
    elim (check_subscribers os nftw s svc.subscribers) [
      | none ↦ none
      | some verdicts ↦ some (verdicts, with_set svc s)
    ]

unfoldable pub cleaner_handler : Os → Service → Service
cleaner_handler os svc = with_set svc (cleanup_dir_types os svc.set)

-- `TimerCallback` and `CleanerCallback`: whether the timer goes on, and its work.
unfoldable pub timer_callback :
    Os → Nftw → Service → Bool × Option (List (Option Verdict) × Service)
timer_callback os nftw svc = (true, worker_handler os nftw svc)

unfoldable pub cleaner_callback : Os → Service → Bool × Service
cleaner_callback os svc = (false, cleaner_handler os svc)
