-- ===== src/Bus/Released.antt =====
-- The end of a subscription, `CancelSubscription` of src/CategoryHandler.cpp, takes its count back;
-- and the timers leave the counts.
use filecache.Base.{
  ℕ, ◌<◌, ◌≡◌, refl, inl, inr, true, ◌&&◌, Option, some, List, [], ◌∷◌, arith, ◌==◌, Option-cases,
  Bytes, All,
}
use filecache.Base.Map.{ℕ_key, bytes_eq, bytes_eq_iff}
use filecache.ObjectId.{get_object_id_from_path, get_type_name_from_path}
use filecache.Os.{Os}
use filecache.Object.Validate.{Nftw, Verdict}
use filecache.CacheSet.State
use filecache.CacheSet.State.{
  FileCacheSet, get_type_for_object_id, get_file_cache_for_type, unsubscribe_cache_object,
}
use filecache.CacheSet.Timers.{cleanup_orphans-CleansSet, cleanup_dir_types-CleansSet}
use filecache.CacheSet.Counts.{CleansSet-SetCounts, count_in}
use filecache.CacheSet.Counts.Moved.{unsubscribe_cache_object-SetsCount}
use filecache.Bus.{Service, with_set}
use filecache.Bus.Objects.{
  release, cancel_subscription, remove_at, check_subscribers, worker_handler, cleaner_handler,
}
use filecache.Bus.Balance.{
  Label, Change, IsBalanced, IsNamed, Removed, remove_at-Removes, drops-IsBalanced, held_bound,
  refers,
}
use filecache.Bus.Handled.{After, Before, keeps-After, same-After}

-- A subscription in the list is counted.
pub counted_one :
    (svc : Service) (path : Bytes) (rest : List Bytes) (i : ℕ)
    → IsBalanced svc
    → Removed svc.subscribers path rest
    → get_object_id_from_path path ≡ some i
    → let name = get_type_name_from_path svc.set.base_dir_name path in 0 < count_in svc.set name i
counted_one svc path rest i b r e =
    let base = svc.set.base_dir_name in
    let name = get_type_name_from_path base path in
    let parted = r.held base name i in
    let counts = b.counts name i in
    let refer : refers base name i path ≡ true = rw (e) (refers_itself name i) in ground arith
  where
    refers_itself : (name : Bytes) (j : ℕ) → (bytes_eq name name && (j == j)) ≡ true
    refers_itself name j = rw ((bytes_eq_iff name name).1 refl) (ground arith)

release-After :
    (os : Os) (svc : Service) (path : Bytes) (rest : List Bytes)
    → Before svc
    → Removed svc.subscribers path rest
    → (s' : FileCacheSet) × (release os svc.set path ≡ some s')
      × After Label.closing svc (record { set = s'; subscribers = rest })
unfolding release
release-After os svc path rest b r =
    let base = svc.set.base_dir_name in
    let name = get_type_name_from_path base path in
    let (named, others) = r.named base b.balanced.named in
    let i = named.obj_id in
    let set = unsubscribe_cache_object os svc.set name i in
    let counted = counted_one svc path rest i b.balanced r named.read in
    let counts = b.balanced.counts name i in
    let bound = held_bound base name i svc.subscribers in
    let few = b.few in
    let taken =
      unsubscribe_cache_object-SetsCount os svc.set name i named.named counted (ground arith) in
    (
      set,
      rw (named.read, release, named.positive, named.named) refl,
      record {
        balanced = drops-IsBalanced svc set path name i rest taken r named.read refl b.balanced;
        grown = (let shorter = r.length in omega arith);
        base = taken.base;
        change = Change.shortened path refl r;
      },
    )

-- The outcome of an event that gives no reply, which is always defined.
abbrev pub Goes : Service → Option Service → Type 0
Goes svc o = (svc' : Service) × (o ≡ some svc') × After Label.closing svc svc'

pub cancel_subscription-Goes :
    (os : Os) (svc : Service) (n : ℕ) → Before svc → Goes svc (cancel_subscription os svc n)
unfolding cancel_subscription
cancel_subscription-Goes os svc n b =
    let removes = remove_at-Removes n svc.subscribers in
    elim (Option-cases (remove_at n svc.subscribers)) [
      | inl e ↦ (svc, rw (e, cancel_subscription) refl, same-After svc b)
      | inr ((path, rest), e) ↦
          let (s', released, after) = release-After os svc path rest b (rw (e) at removes) in
          (
            record { set = s'; subscribers = rest },
            rw (e, cancel_subscription, released) refl,
            after,
          )
    ]

check_subscribers-defined :
    (os : Os) (nftw : Nftw) (s : FileCacheSet) (base : Bytes) (ps : List Bytes)
    → All (IsNamed base) ps
    → (vs : List (Option Verdict)) × (check_subscribers os nftw s ps ≡ some vs)
unfolding check_subscribers
check_subscribers-defined os nftw s base [] a = ([], refl)
check_subscribers-defined os nftw s base (p ∷ ps) a =
    let (vs, e) = check_subscribers-defined os nftw s base ps a.1 in
    let verdict =
      State.check_subscribed_object os nftw s (get_type_name_from_path s.base_dir_name p)
        a.0.obj_id in
    (verdict ∷ vs, rw (a.0.read, check_subscribers, e) refl)

pub worker_handler-Goes :
    (os : Os) (nftw : Nftw) (svc : Service)
    → Before svc
    → (vs : List (Option Verdict)) × (svc' : Service) × (worker_handler os nftw svc
        ≡ some (vs, svc'))
      × After Label.call svc svc'
unfolding worker_handler
worker_handler-Goes os nftw svc b =
    let s = State.cleanup_orphans os svc.set in
    let (vs, e) =
      check_subscribers-defined os nftw s svc.set.base_dir_name svc.subscribers b.balanced.named in
    (
      vs,
      with_set svc s,
      rw (e, worker_handler) refl,
      keeps-After svc s b (CleansSet-SetCounts (cleanup_orphans-CleansSet os svc.set)),
    )

pub cleaner_handler-After :
    (os : Os) (svc : Service) → Before svc → After Label.call svc (cleaner_handler os svc)
unfolding cleaner_handler
cleaner_handler-After os svc b =
    keeps-After svc _ b (CleansSet-SetCounts (cleanup_dir_types-CleansSet os svc.set))
