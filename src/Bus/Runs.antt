-- ===== src/Bus/Runs.antt =====
-- Runs of the service: the calls, the ends of subscriptions and the timers of
-- src/CategoryHandler.cpp in any order.
pub mod Tests
use mathlib.Core.Option.{none-ne-some}
use filecache.Base.{
  ℕ, ◌+◌, ◌≤◌, ◌<◌, ◌≡◌, refl, ap, ◌∙◌, inl, inr, Option, none, some, List, [], ◌∷◌, arith,
  Option-cases, Bytes, length, All,
}
use filecache.Base.Word.{sign_bit}
use filecache.Base.Map
use filecache.Base.Map.{ℕ_key, bytes_key}
use filecache.ObjectId.{get_object_id_from_path, get_type_name_from_path}
use filecache.Os.{Os}
use filecache.Object.{CacheObject}
use filecache.Object.Validate.{Nftw, Verdict}
use filecache.Cache.{FileCache}
use filecache.Config.{Entries}
use filecache.CacheSet.State.{get_file_cache_for_type}
use filecache.CacheSet.Counts.{IsPlain, count_in}
use filecache.CacheSet.Counts.Moved.{counted_there}
use filecache.Bus.{Payload, Reply, Service, get_or}
use filecache.Bus.Types
use filecache.Bus.Objects
use filecache.Bus.Objects.{worker_handler, cleaner_handler, remove_at}
use filecache.Bus.Balance.{Label, IsBalanced, Removed, Removes, remove_at-Removes, held, held_bound}
use filecache.Bus.Handled.{
  After, Afters, Before, define_type-After, change_type-After, delete_type-After,
  resize_cache_object-Afters, expire_cache_object-Afters, touch_cache_object-Afters,
}
use filecache.Bus.Granted.{subscribe_cache_object-Afters, insert_cache_object-Afters}
use filecache.Bus.Released.{
  Goes, cancel_subscription-Goes, worker_handler-Goes, cleaner_handler-After, counted_one,
}

-- An event, with the answers of the system while it is handled.
pub data Event : Type 0 where
  define_type : Os → ℕ → Option Entries → Payload → Event
  change_type : Os → Option Entries → Payload → Event
  delete_type : Os → Payload → Event
  insert_cache_object : Os → List ℕ → Payload → Event
  resize_cache_object : Os → Payload → Event
  expire_cache_object : Os → Payload → Event
  subscribe_cache_object : Os → Payload → Event
  touch_cache_object : Os → Payload → Event
  cancel_subscription : Os → ℕ → Event
  worker : Os → Nftw → Event
  cleaner : Os → Event

abbrev pub service_of : Option (Reply × Service) → Option Service
service_of none = none
service_of (some r) = some r.1

abbrev worker_set : Option (List (Option Verdict) × Service) → Option Service
worker_set none = none
worker_set (some r) = some r.1

unfoldable pub handle : Event → Service → Option Service
handle (Event.define_type os address file p) svc = some (Types.define_type os address svc file p).1
handle (Event.change_type os file p) svc = some (Types.change_type os svc file p).1
handle (Event.delete_type os p) svc = some (Types.delete_type os svc p).1
handle (Event.insert_cache_object os rand_vals p) svc =
    service_of (Objects.insert_cache_object os rand_vals svc p)
handle (Event.resize_cache_object os p) svc = service_of (Objects.resize_cache_object os svc p)
handle (Event.expire_cache_object os p) svc = service_of (Objects.expire_cache_object os svc p)
handle (Event.subscribe_cache_object os p) svc =
    service_of (Objects.subscribe_cache_object os svc p)
handle (Event.touch_cache_object os p) svc = service_of (Objects.touch_cache_object os svc p)
handle (Event.cancel_subscription os n) svc = Objects.cancel_subscription os svc n
handle (Event.worker os nftw) svc = worker_set (worker_handler os nftw svc)
handle (Event.cleaner os) svc = some (cleaner_handler os svc)

-- Which calls may subscribe, and what ends a subscription.
abbrev pub label : Event → Label
label (Event.define_type os address file p) = Label.call
label (Event.change_type os file p) = Label.call
label (Event.delete_type os p) = Label.call
label (Event.insert_cache_object os rand_vals p) = Label.opening
label (Event.resize_cache_object os p) = Label.call
label (Event.expire_cache_object os p) = Label.call
label (Event.subscribe_cache_object os p) = Label.opening
label (Event.touch_cache_object os p) = Label.call
label (Event.cancel_subscription os n) = Label.closing
label (Event.worker os nftw) = Label.call
label (Event.cleaner os) = Label.call

unfoldable pub run : List Event → Service → Option Service
run [] svc = some svc
run (e ∷ es) svc = elim (handle e svc) [ none ↦ none | some svc' ↦ run es svc' ]

-- The name of a type that is defined has no dot and no slash.
abbrev pub IsPlainEvent : Event → Type 0
IsPlainEvent (Event.define_type os address file p) = IsPlain (get_or [] p.type_name)
IsPlainEvent (Event.change_type os file p) = Unit
IsPlainEvent (Event.delete_type os p) = Unit
IsPlainEvent (Event.insert_cache_object os rand_vals p) = Unit
IsPlainEvent (Event.resize_cache_object os p) = Unit
IsPlainEvent (Event.expire_cache_object os p) = Unit
IsPlainEvent (Event.subscribe_cache_object os p) = Unit
IsPlainEvent (Event.touch_cache_object os p) = Unit
IsPlainEvent (Event.cancel_subscription os n) = Unit
IsPlainEvent (Event.worker os nftw) = Unit
IsPlainEvent (Event.cleaner os) = Unit

-- The service after an event, if there is one.
abbrev pub AfterIf : Label → Service → Option Service → Type 0
AfterIf l svc none = Unit
AfterIf l svc (some svc') = After l svc svc'

service_of-AfterIf :
    (l : Label) (svc : Service) (r : Option (Reply × Service))
    → Afters l svc r
    → AfterIf l svc (service_of r)
service_of-AfterIf l svc none a = tt
service_of-AfterIf l svc (some r) a = a

Goes-AfterIf : (svc : Service) (o : Option Service) → Goes svc o → AfterIf Label.closing svc o
Goes-AfterIf svc o (svc', e, a) = rw (e, AfterIf) a

pub handle-AfterIf :
    (e : Event) (svc : Service) → IsPlainEvent e → Before svc → AfterIf (label e) svc (handle e svc)
unfolding handle
handle-AfterIf (Event.define_type os address file p) svc plain b =
    define_type-After os address svc file p plain b
handle-AfterIf (Event.change_type os file p) svc plain b = change_type-After os svc file p b
handle-AfterIf (Event.delete_type os p) svc plain b = delete_type-After os svc p b
handle-AfterIf (Event.insert_cache_object os rand_vals p) svc plain b =
    service_of-AfterIf _ svc _ (insert_cache_object-Afters os rand_vals svc p b)
handle-AfterIf (Event.resize_cache_object os p) svc plain b =
    service_of-AfterIf _ svc _ (resize_cache_object-Afters os svc p b)
handle-AfterIf (Event.expire_cache_object os p) svc plain b =
    service_of-AfterIf _ svc _ (expire_cache_object-Afters os svc p b)
handle-AfterIf (Event.subscribe_cache_object os p) svc plain b =
    service_of-AfterIf _ svc _ (subscribe_cache_object-Afters os svc p b)
handle-AfterIf (Event.touch_cache_object os p) svc plain b =
    service_of-AfterIf _ svc _ (touch_cache_object-Afters os svc p b)
handle-AfterIf (Event.cancel_subscription os n) svc plain b =
    Goes-AfterIf svc _ (cancel_subscription-Goes os svc n b)
handle-AfterIf (Event.worker os nftw) svc plain b =
    let (vs, svc', e, a) = worker_handler-Goes os nftw svc b in rw (e, AfterIf) a
handle-AfterIf (Event.cleaner os) svc plain b = cleaner_handler-After os svc b

record Ran (svc : Service) (count : ℕ) (svc' : Service) : Type 0 where
  pub balanced : IsBalanced svc'
  pub grown : length svc'.subscribers ≤ length svc.subscribers + count

run-Ran :
    (es : List Event) (svc svc' : Service)
    → IsBalanced svc
    → length svc.subscribers + length es < sign_bit
    → All IsPlainEvent es
    → run es svc ≡ some svc'
    → Ran svc (length es) svc'
unfolding run
run-Ran [] svc svc' b few plain e =
    rw (← ap (get_or svc) e) (record { balanced = b; grown = omega arith })
run-Ran (v ∷ es) svc svc' b few plain e =
    let after = handle-AfterIf v svc plain.0 (record { balanced = b; few = omega arith }) in
    elim (Option-cases (handle v svc)) [
      | inl h ↦ absurd (none-ne-some svc' (rw (h, run) at e))
      | inr (next, h) ↦
          let a : After (label v) svc next = rw (h, AfterIf) at after in
          let grown = a.grown in
          let ran = run-Ran es next svc' a.balanced (omega arith) plain.1 (rw (h, run) at e) in
          record { balanced = ran.balanced; grown = (let grown' = ran.grown in omega arith) }
    ]

-- After every run of calls, ends of subscriptions and timers that comes to its end, every
-- object has exactly the subscription count of the clients' subscriptions to its type and id,
-- each subscription has a path name with a named type and a valid id, and no key occurs twice
-- in the maps: where all of this held before, the base directory has no dot, the names of the
-- types before and of those that are defined have no dot and no slash, and the subscriptions
-- before and the events together are less than 2^31.
pub run-IsBalanced :
    (es : List Event) (svc svc' : Service)
    → IsBalanced svc
    → length svc.subscribers + length es < sign_bit
    → All IsPlainEvent es
    → run es svc ≡ some svc'
    → IsBalanced svc'
run-IsBalanced es svc svc' b few plain e = (run-Ran es svc svc' b few plain e).balanced

-- After such a run, under the same conditions, the path name of every subscription that the
-- service has stands for an object that the cache of its type still holds, with a positive
-- subscription count.
pub run-subscribed :
    (es : List Event) (svc svc' : Service) (n : ℕ) (path : Bytes) (rest : List Bytes)
    → IsBalanced svc
    → length svc.subscribers + length es < sign_bit
    → All IsPlainEvent es
    → run es svc ≡ some svc'
    → remove_at n svc'.subscribers ≡ some (path, rest)
    → (i : ℕ) × (c : FileCache) × (o : CacheObject) × (get_object_id_from_path path ≡ some i)
      × (get_file_cache_for_type svc'.set (get_type_name_from_path svc'.set.base_dir_name path)
          ≡ some c)
      × (Map.find i c.cached_objects ≡ some o)
      × (0 < o.subscription_count)
run-subscribed es svc svc' n path rest b few plain e r =
    let base = svc'.set.base_dir_name in
    let name = get_type_name_from_path base path in
    let b' = run-IsBalanced es svc svc' b few plain e in
    let at_n = remove_at-Removes n svc'.subscribers in
    let removes : Removed svc'.subscribers path rest = rw (r, Removes) at at_n in
    let (named, others) = removes.named base b'.named in
    let i = named.obj_id in
    let counted = counted_one svc' path rest i b' removes named.read in
    let (c, o, typed, found) = counted_there svc'.set name i counted in
    let here : count_in svc'.set name i ≡ o.subscription_count = rw (typed, found) refl in
    (i, c, o, named.read, typed, found, omega arith)

-- After such a run an object has the subscription count of its subscriptions, below 2^31.
pub run-counted :
    (es : List Event) (svc svc' : Service) (name : Bytes) (c : FileCache) (i : ℕ) (o : CacheObject)
    → IsBalanced svc
    → length svc.subscribers + length es < sign_bit
    → All IsPlainEvent es
    → run es svc ≡ some svc'
    → get_file_cache_for_type svc'.set name ≡ some c
    → Map.find i c.cached_objects ≡ some o
    → (o.subscription_count ≡ held svc'.set.base_dir_name name i svc'.subscribers)
      × (o.subscription_count < sign_bit)
run-counted es svc svc' name c i o b few plain e typed found =
    let ran = run-Ran es svc svc' b few plain e in
    let here : count_in svc'.set name i ≡ o.subscription_count = rw (typed, found) refl in
    let counts = ran.balanced.counts name i in
    let bound = held_bound svc'.set.base_dir_name name i svc'.subscribers in
    let grown = ran.grown in (omega arith, omega arith)

-- After such a run, under the same conditions with room for one more subscription, the end of
-- any subscription and the timer of `WorkerHandler` give a service: they never read in front of
-- a path name that is recorded.
pub run-goes_on :
    (es : List Event) (svc svc' : Service) (os : Os) (nftw : Nftw) (n : ℕ)
    → IsBalanced svc
    → length svc.subscribers + length es + 1 < sign_bit
    → All IsPlainEvent es
    → run es svc ≡ some svc'
    → ((next : Service) × (handle (Event.cancel_subscription os n) svc' ≡ some next))
      × ((next : Service) × (handle (Event.worker os nftw) svc' ≡ some next))
unfolding handle
run-goes_on es svc svc' os nftw n b few plain e =
    let ran = run-Ran es svc svc' b (omega arith) plain e in
    let before : Before svc' = record {
      balanced = ran.balanced;
      few = (let grown = ran.grown in omega arith);
    } in
    let (next, cancelled, after) = cancel_subscription-Goes os svc' n before in
    let (vs, next', worked, after') = worker_handler-Goes os nftw svc' before in
    ((next, cancelled), (next', rw (worked) refl))
