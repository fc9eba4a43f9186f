-- ===== src/Bus/Accepted.antt =====
-- The handlers of src/CategoryHandler.cpp on calls that meet their descriptions.
mod Tests
use mathlib.Core.Bool.{false≢true}
use filecache.Base.{
  ◌∙◌, ◌%◌, ◌^◌, ℕ, ◌≤◌, ◌<◌, ◌≡◌, refl, ap, inl, inr, Bool, true, false, Option, none, some, List,
  arith, Bool-cases, Option-cases, Bytes, All, length, if◌then◌else◌, ◌==◌,
}
use filecache.Base.Word.{word_mod, sign_bit, widen}
use filecache.Base.Map
use filecache.Base.Map.{ℕ_key, bytes_key, bytes_eq, bytes_eq_iff}
use filecache.BlockSize.{get_filesystem_file_size}
use filecache.Os.{Os}
use filecache.Cache
use filecache.Config.{Entries, configured, describe, make_params}
use filecache.CacheSet.State.{FileCacheSet, get_file_cache_for_type}
use filecache.Bus.{FcErr, Payload, Reply, Service, get_or, with_set, on_path}
use filecache.Bus.Types
use filecache.Bus.Types.{payload_params}
use filecache.Bus.Defined.{
  define_type-configured, define_type-success, described, kept_param, kept_cost, kept_lifetime,
  kept_watermark,
}
use filecache.ObjectId.{is_empty, get_object_id_from_path, get_type_name_from_path}
use filecache.Object.{CacheObject}
use filecache.Cache.Cleans.{is_pinned}
use filecache.CacheSet.Objects as SetObjects
use filecache.CacheSet.Room.{resize_in-defined}
use filecache.CacheSet.Counts.{count_in}
use filecache.CacheSet.Counts.Moved.{counted_there}
use filecache.CacheSet.State.{get_type_for_object_id}
use filecache.Bus.Objects.{resize_cache_object, resize_answer, remove_at}
use filecache.Bus.Balance.{IsBalanced, IsNamed, Removed, Removes, remove_at-Removes, held_bound}
use filecache.Bus.Released.{counted_one}
use filecache.Bus.Schema.{
  Method, Rule, Minimum, Schema, description, value, is_present, follows, characters,
  starts_without_dot, number_of,
}

-- The check of the framework: a call that passes it has the required fields, and its fields follow
-- the rules of the description.
pub record Validator : Type 0 where
  pub validates : Schema → Payload → Bool
  pub rules :
      (s : Schema) (p : Payload)
      → validates s p ≡ true
      → All (λ e. follows e.1 (value p e.0) ≡ true) s.properties
  pub required :
      (s : Schema) (p : Payload)
      → validates s p ≡ true
      → All (λ f. is_present (value p f) ≡ true) s.required

positive_field :
    (o : Option ℕ)
    → follows (Rule.integer (Minimum.above 0) none) (number_of o) ≡ true
    → is_present (number_of o) ≡ true
    → 0 < get_or 0 o
positive_field none f h = absurd (false≢true h)
positive_field (some n) f h = ground arith

bounded_field :
    (o : Option ℕ)
    → follows (Rule.integer (Minimum.from 0) (some 100)) (number_of o) ≡ true
    → get_or 0 o < 2 ^ 64
    → get_or 0 o ≤ 100
bounded_field none f h = omega arith
bounded_field (some n) f h = ground arith

-- An accepted `DefineType` call that succeeds, for watermarks up to 2147475456, a size and a
-- lifetime below 2^31 and a cost below 2^64: the name of the type has at most 64 characters and
-- does not start with a dot, and a call of `DescribeType` for it gives the space on disk of the
-- two watermarks, the size and the cost of the call (0 where it has none), and its lifetime (1
-- where it has none or 0).
pub describe_type-define_type :
    (v : Validator) (os : Os) (address : ℕ) (svc : Service) (file : Option Entries) (p q : Payload)
    (name : Bytes)
    → v.validates (description Method.define_type) p ≡ true
    → p.type_name ≡ some name
    → q.type_name ≡ some name
    → get_or 0 p.lo_watermark ≤ 2147475456
    → get_or 0 p.hi_watermark ≤ 2147475456
    → get_or 0 p.size < sign_bit
    → get_or 0 p.cost < 2 ^ 64
    → get_or 0 p.lifetime < sign_bit
    → (Types.define_type os address svc file p).0 ≡ Reply.success
    → (starts_without_dot name ≡ true)
      × (characters name ≤ 64)
      × (Types.describe_type (Types.define_type os address svc file p).1 q
          ≡ Reply.params
              (get_filesystem_file_size (get_or 0 p.lo_watermark))
              (get_filesystem_file_size (get_or 0 p.hi_watermark))
              (get_or 0 p.size)
              (get_or 0 p.cost)
              (if get_or 0 p.lifetime == 0 then 1 else get_or 0 p.lifetime))
unfolding describe make_params Cache.make
describe_type-define_type v os address svc file p q name valid n m lo hi size cost lifetime h =
    let (low, done, made) = define_type-success os address svc file p h in
    let rules = v.rules (description Method.define_type) p valid in
    let required = v.required (description Method.define_type) p valid in
    let named = rw (n) at rules.0 in
    let dear = bounded_field p.cost rules.1.1.0 cost in
    let low_positive = positive_field p.lo_watermark rules.1.1.1.1.1.0 required.1.0 in
    let c =
      define_type-configured os address svc.set name file (payload_params p)
        (get_or false p.dir_type) (rw (n) at done) in
    let there = ap (λ t. get_file_cache_for_type t name) made ∙ rw (n) c in
    let lo_kept = kept_watermark (get_or 0 p.lo_watermark) 0 low_positive lo in
    let hi_kept = kept_watermark (get_or 0 p.hi_watermark) 1 (ground arith) hi in
    (
      ground arith,
      ground arith,
      described (Types.define_type os address svc file p).1 q name
            (configured (Cache.make address name) (payload_params p) (get_or false p.dir_type)) m
            there
          ∙ rw
              (
                lo_kept,
                hi_kept,
                kept_param (get_or 0 p.size) size,
                kept_cost (get_or 0 p.cost) dear,
                kept_lifetime (get_or 0 p.lifetime) lifetime,
              )
              refl,
    )

module _ {ℓ} {A : Type ℓ} (s : FileCacheSet) (path : Bytes) (invalid gone : A) (f : ℕ → Option A)
    (i : ℕ) (read : get_object_id_from_path path ≡ some i) (positive : (i == 0) ≡ false) where
  pub on_path-same :
      bytes_eq (get_type_name_from_path s.base_dir_name path) (get_type_for_object_id s i) ≡ true
      → on_path s path invalid gone f ≡ f i
  on_path-same h = rw (read, on_path, positive, h) refl

  pub on_path-other :
      bytes_eq (get_type_name_from_path s.base_dir_name path) (get_type_for_object_id s i) ≡ false
      → on_path s path invalid gone f ≡ some gone
  on_path-other h = rw (read, on_path, positive, h) refl

resize-defined :
    (os : Os) (s : FileCacheSet) (i new_size : ℕ) (c : Cache.FileCache) (o : CacheObject)
    → is_empty (get_type_for_object_id s i) ≡ false
    → get_file_cache_for_type s (get_type_for_object_id s i) ≡ some c
    → Map.find i c.cached_objects ≡ some o
    → is_pinned o ≡ true
    → (size : ℕ) × (s' : FileCacheSet) × (SetObjects.resize os s i new_size ≡ some (size, s'))
unfolding SetObjects.resize
resize-defined os s i new_size c o n e f pinned =
    let (size, s', done) =
      resize_in-defined os s (get_type_for_object_id s i) c i o new_size e f pinned in
    (size, s', rw (n, e) done)

-- An accepted `ResizeCacheObject` call for the path name of a subscription gets a reply: it reads
-- no variable that was not set, and does not go on with an object that was deleted. The counts are
-- in balance with the subscriptions, which are less than 2^31.
pub resize_cache_object-defined :
    (v : Validator) (os : Os) (svc : Service) (p : Payload) (n : ℕ) (path : Bytes)
    (rest : List Bytes)
    → IsBalanced svc
    → length svc.subscribers < sign_bit
    → remove_at n svc.subscribers ≡ some (path, rest)
    → v.validates (description Method.resize_cache_object) p ≡ true
    → p.path_name ≡ some path
    → (r : Reply) × (svc' : Service) × (resize_cache_object os svc p ≡ some (r, svc'))
unfolding resize_cache_object
resize_cache_object-defined v os svc p n path rest b few at_n valid m =
    elim (Option-cases p.new_size) [
      | inl e ↦ absurd (false≢true (rw (e) at required.1.0))
      | inr (k, e) ↦ elim (Bool-cases (bytes_eq name (get_type_for_object_id svc.set i))) [
        | inr other ↦ (
          Reply.failure FcErr.exists_error,
          svc,
          rw (e, m)
              (on_path-other svc.set path failed failed (answer k) i named.read named.positive
                other),
        )
        | inl same ↦
            let (size, s', done) = resized ((bytes_eq_iff _ _).0 same) k in
            let ok : Bool = size == k % word_mod in
            (
              if ok then Reply.new_size (widen size) else Reply.failure FcErr.resize_error,
              with_set svc s',
              rw (e, m)
                  (on_path-same svc.set path failed failed (answer k) i named.read named.positive
                      same
                    ∙ rw (done) refl),
            )
      ]
    ]
  where
    failed : Reply × Service
    failed = (Reply.failure FcErr.exists_error, svc)

    answer : ℕ → ℕ → Option (Reply × Service)
    answer k obj_id =
        resize_answer svc (k % word_mod) (SetObjects.resize os svc.set obj_id (k % word_mod))

    base : Bytes
    base = svc.set.base_dir_name

    name : Bytes
    name = get_type_name_from_path base path

    required :
        All (λ f. is_present (value p f) ≡ true) (description Method.resize_cache_object).required
    required = v.required (description Method.resize_cache_object) p valid

    removed : Removed svc.subscribers path rest
    removed = rw (at_n, Removes) at (remove_at-Removes n svc.subscribers)

    named : IsNamed base path
    named = (removed.named base b.named).0

    i : ℕ
    i = named.obj_id

    resized :
        name ≡ get_type_for_object_id svc.set i
        → (k : ℕ)
        → (size : ℕ) × (s' : FileCacheSet) × (SetObjects.resize os svc.set i (k % word_mod)
            ≡ some (size, s'))
    resized t k =
        let counted = counted_one svc path rest i b removed named.read in
        let (c, o, typed, found) = counted_there svc.set name i counted in
        let here : count_in svc.set name i ≡ o.subscription_count = rw (typed, found) refl in
        let counts = b.counts name i in
        let bound = held_bound base name i svc.subscribers in
        resize-defined os svc.set i (k % word_mod) c o (rw (← t) named.named) (rw (← t) typed) found
          (ground arith)
