-- ===== src/Bus/Refines.antt =====
-- What the service promises its clients, as a bag of subscriptions that forgets their order and the
-- path names: the runs of src/CategoryHandler.cpp against it.
use filecache.Base.{
  ℕ, ◌+◌, ◌<◌, ◌≡◌, ap, ◌∙◌, sym, inl, inr, ◌&&◌, false, some, List, [], ◌∷◌, map, arith, ◌==◌,
  Option-cases, refl, Bytes, length, All,
}
use mathlib.Core.Option.{none-ne-some}
use filecache.Base.Word.{sign_bit}
use filecache.Base.Map.{ℕ_key, bytes_key}
use filecache.ObjectId.{is_empty, get_type_name_from_path}
use filecache.CacheSet.Counts.{count_in}
use filecache.Bus.{Service, get_or}
use filecache.Bus.Balance.{Label, Change, IsBalanced, one_if, held-append}
use filecache.Bus.Handled.{After}
use filecache.Bus.Runs.{Event, IsPlainEvent, handle, label, run, AfterIf, handle-AfterIf}

-- For each type and id, how many subscriptions there are.
abbrev Subscriptions : Type 0
Subscriptions = Bytes → ℕ → ℕ

abbrev one_at : Bytes → ℕ → Subscriptions
one_at name i other j = one_if (bytes_key.beq name other && (i == j))

-- An event leaves the bag, adds one subscription to an object if it is a call that may do so, or
-- takes one from an object if it is the end of a subscription.
pub data SpecStep (l : Label) (a b : Subscriptions) : Type 0 where
  stays : ((name : Bytes) (i : ℕ) → b name i ≡ a name i) → SpecStep l a b
  opens :
      (name : Bytes) (i : ℕ)
      → l ≡ Label.opening
      → is_empty name ≡ false
      → (i == 0) ≡ false
      → ((other : Bytes) (j : ℕ) → b other j ≡ a other j + one_at name i other j)
      → SpecStep l a b
  closes :
      (name : Bytes) (i : ℕ)
      → l ≡ Label.closing
      → is_empty name ≡ false
      → (i == 0) ≡ false
      → ((other : Bytes) (j : ℕ) → a other j ≡ b other j + one_at name i other j)
      → SpecStep l a b

-- A run of the bag over the events.
abbrev pub SpecRun : List Label → Subscriptions → Subscriptions → Type 0
SpecRun [] a c = (name : Bytes) (i : ℕ) → c name i ≡ a name i
SpecRun (l ∷ ls) a c = (b : Subscriptions) × SpecStep l a b × SpecRun ls b c

Change-SpecStep :
    (l : Label) (svc svc' : Service)
    → IsBalanced svc
    → IsBalanced svc'
    → svc'.set.base_dir_name ≡ svc.set.base_dir_name
    → Change l svc.set.base_dir_name svc.subscribers svc'.subscribers
    → SpecStep l (count_in svc.set) (count_in svc'.set)
Change-SpecStep l svc svc' b b' base (Change.unchanged e) =
    SpecStep.stays λ name i. b'.counts name i ∙ rw (base, e) (sym (b.counts name i))
Change-SpecStep l svc svc' b b' base (Change.extended path o named e) =
    let dir = svc.set.base_dir_name in
    SpecStep.opens (get_type_name_from_path dir path) named.obj_id o named.named named.positive
      λ other j.
        let before = b.counts other j in
        let after = rw (base, e) at (b'.counts other j) in
        let appended = rw (named.read) at (held-append dir other j svc.subscribers path) in
        omega arith
Change-SpecStep l svc svc' b b' base (Change.shortened path o removed) =
    let dir = svc.set.base_dir_name in
    let named = (removed.named dir b.named).0 in
    SpecStep.closes (get_type_name_from_path dir path) named.obj_id o named.named named.positive
      λ other j.
        let before = b.counts other j in
        let after = rw (base) at (b'.counts other j) in
        let parts = rw (named.read) at (removed.held dir other j) in omega arith

-- Over every run that comes to its end, the subscription counts of the objects change as a bag of
-- subscriptions does, event by event: `InsertCacheObject` and `SubscribeCacheObject` leave it or
-- add one subscription to an object with a named type and a valid id, the end of a subscription
-- leaves it or takes one away, and every other call and the timers leave it. The counts were in
-- balance before, the names of the types that are defined have no dot and no slash, and the
-- subscriptions before and the events together are less than 2^31.
pub run-SpecRun :
    (es : List Event) (svc svc' : Service)
    → IsBalanced svc
    → length svc.subscribers + length es < sign_bit
    → All IsPlainEvent es
    → run es svc ≡ some svc'
    → SpecRun (map label es) (count_in svc.set) (count_in svc'.set)
unfolding run
run-SpecRun [] svc svc' b few plain e = rw (← ap (get_or svc) e) (λ name i. refl)
run-SpecRun (v ∷ es) svc svc' b few plain e =
    let after = handle-AfterIf v svc plain.0 (record { balanced = b; few = omega arith }) in
    elim (Option-cases (handle v svc)) [
      | inl h ↦ absurd (none-ne-some svc' (rw (h, run) at e))
      | inr (next, h) ↦
          let a : After (label v) svc next = rw (h, AfterIf) at after in
          let grown = a.grown in
          (
            count_in next.set,
            Change-SpecStep (label v) svc next b a.balanced a.base a.change,
            run-SpecRun es next svc' a.balanced (omega arith) plain.1 (rw (h, run) at e),
          )
    ]
