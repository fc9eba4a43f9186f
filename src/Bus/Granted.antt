-- ===== src/Bus/Granted.antt =====
-- The calls that subscribe keep the subscriptions in balance with the counts:
-- `SubscribeCacheObject` and `InsertCacheObject` of src/CategoryHandler.cpp.
use filecache.Base.{
  ℕ, ◌<◌, ◌^◌, ◌≡◌, ◌∙◌, inl, inr, Bool, true, false, not, ◌||◌, Option, none, some, List, [], ◌∷◌,
  ◌++◌, ◌==◌, if◌then◌else◌, Bool-cases, Bytes, is_none,
}
use filecache.Base.Map.{ℕ_key}
use filecache.ObjectId.{is_empty, build_pathname, get_object_id_from_path, get_type_name_from_path}
use filecache.ObjectId.Codec.{has_dot}
use filecache.ObjectId.TypeName.{ReadsBack, built-ReadsBack}
use filecache.Os.{Os}
use filecache.Object.{Message, get_pathname, is_there}
use filecache.CacheSet.State
use filecache.CacheSet.State.{
  FileCacheSet, get_type_for_object_id, get_file_cache_for_type, unsubscribe_cache_object,
}
use filecache.CacheSet.Counts.{IsDistinctSet, DistinctAt}
use filecache.CacheSet.Counts.Inserts.{KeptMade, insert_cache_object-KeptMade}
use filecache.CacheSet.Counts.Moved.{
  Granted, Subscribes, refused, granted, subscribe_cache_object-Subscribes,
}
use filecache.Bus.{FcErr, Payload, Reply, Service, get_or, with_set}
use filecache.Bus.Objects
use filecache.Bus.Objects.{
  insert_reply, insert_answer, insert_request, insert_invalid, release, cancel_subscription,
  remove_at, check_subscribers, worker_handler, cleaner_handler,
}
use filecache.Bus.Balance.{Label}
use filecache.Bus.Handled.{
  After, Afters, Before, keeps-After, same-After, adds-After, on_path-Afters,
}

pub subscribe_cache_object-Afters :
    (os : Os) (svc : Service) (p : Payload)
    → Before svc
    → Afters Label.opening svc (Objects.subscribe_cache_object os svc p)
unfolding Objects.subscribe_cache_object
subscribe_cache_object-Afters os svc p b =
    let same = same-After {l = Label.opening} svc b in
    on_path-Afters svc path _ _ _ same same (λ i read positive typed.
      answered i read positive typed (subscribe_cache_object-Subscribes os svc.set none i))
  where
    path : Bytes
    path = get_or [] p.path_name

    answered :
        (i : ℕ)
        → get_object_id_from_path path ≡ some i
        → (i == 0) ≡ false
        → get_type_name_from_path svc.set.base_dir_name path ≡ get_type_for_object_id svc.set i
        → let (fpath, msg, s) = State.subscribe_cache_object os svc.set none i in
          Subscribes os svc.set none i fpath msg s
          → let answer : Reply × Service =
              if is_empty fpath || not (is_none msg)
              then (Reply.failure FcErr.exists_error, with_set svc s)
              else (
                Reply.subscribed,
                record { set = s; subscribers = svc.subscribers ++ path ∷ [] },
              ) in
            After Label.opening svc answer.1
    answered i read positive typed (refused h k) = rw (h) (keeps-After svc _ b k)
    answered i read positive typed (granted h g) =
        rw (h, g.silent) (adds-After svc _ path _ i b g.counted read positive typed g.named)

Granted-ReadsBack :
    (os : Os) (s s' : FileCacheSet) (msg msg' : Option Message) (i : ℕ) (path : Bytes)
    → Granted os s msg i path msg' s'
    → IsDistinctSet s
    → has_dot s.base_dir_name ≡ false
    → i < 2 ^ 54
    → is_empty path ≡ false
    → ReadsBack s.base_dir_name (get_type_for_object_id s i) i path
unfolding get_pathname
Granted-ReadsBack os s s' msg msg' i path g d dot h built =
    let name = get_type_for_object_id s i in
    let stored : DistinctAt name (some g.cache) = rw (g.typed) at (d.objects name) in
    let (tidy, kind, plain) = stored in
    let id = tidy.keyed i g.object g.found in
    let shape : path
        ≡ build_pathname (λ p. is_there (os.mkdir p)) i s.base_dir_name name g.object.filename
            false =
      rw (← kind, ← id) g.path in
    rw (shape) (
      built-ReadsBack _ s.base_dir_name name g.object.filename i dot plain.no_dot plain.no_slash h
        (rw (shape) at built))

insert_reply-After :
    (os : Os) (svc : Service) (i : ℕ) (msg : Message) (name file : Bytes) (subscribed : Bool)
    → Before svc
    → i < 2 ^ 54
    → After Label.opening svc (insert_reply os svc i msg name file subscribed).1
unfolding insert_reply
insert_reply-After os svc i msg name file false b h = same-After svc b
insert_reply-After os svc i msg name file true b h =
    answered (subscribe_cache_object-Subscribes os svc.set (some msg) i)
  where
    answered :
        let (fpath, msg', s) = State.subscribe_cache_object os svc.set (some msg) i in
        Subscribes os svc.set (some msg) i fpath msg' s
        → let answer : Reply × Service =
            if is_empty fpath then (Reply.path_name [] false, with_set svc s) else (
              Reply.path_name fpath true,
              record { set = s; subscribers = svc.subscribers ++ fpath ∷ [] },
            ) in
          After Label.opening svc answer.1
    answered (refused e k) = rw (e) (keeps-After svc _ b k)
    answered (granted e g) =
        let back =
          Granted-ReadsBack os svc.set _ (some msg) _ i _ g b.balanced.distinct b.balanced.plain h
            e in
        rw (e) (adds-After svc _ _ _ i b g.counted back.read back.positive back.typed g.named)

After-trans :
    (svc : Service) (s : FileCacheSet) {svc' : Service}
    → After Label.opening svc (with_set svc s)
    → After Label.opening (with_set svc s) svc'
    → After Label.opening svc svc'
After-trans svc s h k = record {
  balanced = k.balanced;
  grown = k.grown;
  base = k.base ∙ h.base;
  change = rw (← h.base) k.change;
}

insert_answer-Afters :
    (os : Os) (svc : Service) (p : Payload) (r : Option (ℕ × Message × FileCacheSet))
    → Before svc
    → KeptMade svc.set r
    → Afters Label.opening svc (insert_answer os svc p r)
unfolding insert_answer
insert_answer-Afters os svc p none b k = tt
insert_answer-Afters os svc p (some (i, msg, s)) b (k, h) =
    let kept = keeps-After {l = Label.opening} svc s b k in
    let before : Before (with_set svc s) = record { balanced = kept.balanced; few = b.few } in
    let name = get_or [] p.type_name in
    let file = get_or [] p.file_name in
    let inserted = After-trans svc s kept (
      insert_reply-After os (with_set svc s) i msg name file (get_or false p.subscribe) before h) in
    elim (Bool-cases (i == 0)) [ inl z ↦ rw (z) kept | inr z ↦ rw (z) inserted ]

pub insert_cache_object-Afters :
    (os : Os) (rand_vals : List ℕ) (svc : Service) (p : Payload)
    → Before svc
    → Afters Label.opening svc (Objects.insert_cache_object os rand_vals svc p)
unfolding Objects.insert_cache_object
insert_cache_object-Afters os rand_vals svc p b =
    let made =
      insert_cache_object-KeptMade os rand_vals svc.set (get_or [] p.type_name)
        (insert_request svc.set p) in
    elim (Bool-cases (insert_invalid svc.set p)) [
      | inl e ↦ rw (e) (same-After svc b)
      | inr e ↦ rw (e) (insert_answer-Afters os svc p _ b made)
    ]
