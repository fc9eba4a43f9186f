-- ===== src/Bus/Deleted.antt =====
-- `DeleteType` of src/CategoryHandler.cpp against the subscriptions of the clients.
use mathlib.Core.Bool.{false≢true}
use filecache.Base.{
  ℕ, ◌+◌, ◌<◌, ◌≡◌, refl, ◌∙◌, sym, inl, inr, false, none, [], map, reverse, Bool-cases,
  Option-cases, Bytes, length,
}
use filecache.Base.Word.{sign_bit, is_negative}
use filecache.Base.Map
use filecache.Base.Map.{bytes_key}
use filecache.Os.{Os}
use filecache.Cache
use filecache.CacheSet.State.{FileCacheSet, get_file_cache_for_type, type_exists}
use filecache.CacheSet.Types as SetTypes
use filecache.CacheSet.Types.{expire_each}
use filecache.CacheSet.Counts.{IsDistinctSet, count_in}
use filecache.CacheSet.Counts.Defined.{expire_each-CleansSet}
use filecache.Bus.{FcErr, Payload, Reply, Service, get_or, with_set}
use filecache.Bus.Types
use filecache.Bus.Balance.{Label, IsBalanced, held}
use filecache.Bus.Handled.{After, delete_type-After}

-- The set gives a size that is not negative only where it has erased the type.
delete_type-erased :
    (os : Os) (s : FileCacheSet) (name : Bytes)
    → IsDistinctSet s
    → is_negative (SetTypes.delete_type os s name).0 ≡ false
    → get_file_cache_for_type (SetTypes.delete_type os s name).2 name ≡ none
unfolding SetTypes.delete_type
delete_type-erased os s name d h = elim (Option-cases (get_file_cache_for_type s name)) [
  | inl e ↦ rw (e, SetTypes.delete_type) e
  | inr (c, e) ↦ elim (Bool-cases (Cache.is_cleanable c)) [
    | inl b ↦
        let ids = reverse (map (λ x. x.0) c.cached_objects) in
        let keys = (expire_each-CleansSet os ids s).keys d.keys in
        rw (e, SetTypes.delete_type, b)
          (Map.find-erase_self name (expire_each os ids s).cache_set keys)
    | inr b ↦ absurd (false≢true (sym (rw (e, SetTypes.delete_type, b) at h)))
  ]
]

failed_delete : {e : FcErr} {n : ℕ} → Reply.failure e ≡ Reply.freed_space n → ⊥
failed_delete h = cc

-- Where `DeleteType` says how much space it freed, the type is gone, and no client was subscribed to
-- any of its objects: where the counts were in balance with the subscriptions, which are less than
-- 2^31 - 1.
pub delete_type-held :
    (os : Os) (svc : Service) (p : Payload) (n : ℕ)
    → IsBalanced svc
    → length svc.subscribers + 1 < sign_bit
    → (Types.delete_type os svc p).0 ≡ Reply.freed_space n
    → let name = get_or [] p.type_name in
      (type_exists (Types.delete_type os svc p).1.set name ≡ false)
      × ((i : ℕ) → held svc.set.base_dir_name name i svc.subscribers ≡ 0)
unfolding Types.delete_type type_exists
delete_type-held os svc p n b few h =
    let name = get_or [] p.type_name in
    let set = (SetTypes.delete_type os svc.set name).2 in
    let after = delete_type-After os svc p (record { balanced = b; few = few }) in
    elim (Bool-cases (is_negative (SetTypes.delete_type os svc.set name).0)) [
      | inl bad ↦ absurd (failed_delete (rw (bad, Types.delete_type) at h))
      | inr good ↦
          let erased = delete_type-erased os svc.set name b.distinct good in
          let same : (Types.delete_type os svc p).1 ≡ with_set svc set =
            rw (good, Types.delete_type) refl in
          let a : After Label.call svc (with_set svc set) = rw (same) at after in
          (
            rw (same, type_exists, erased) refl,
            λ i.
                let zero : count_in set name i ≡ 0 = rw (erased) refl in
                rw (← a.base) (sym (a.balanced.counts name i) ∙ zero),
          )
    ]
