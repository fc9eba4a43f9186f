-- ===== src/Bus/Defined.antt =====
-- What `DefineType` and `DescribeType` of src/CategoryHandler.cpp do with the parameters of a type.
use mathlib.Core.Bool.{false≢true}
use filecache.Base.{
  ◌∙◌, ◌%◌, ℕ, ◌≤◌, ◌<◌, ◌≡◌, refl, ap, inl, inr, Bool, true, false, Option, some, [], arith,
  Bool-cases, Option-cases, Bytes, if◌then◌else◌, ◌==◌,
}
use filecache.Base.Word.{word_mod, sign_bit, widen, lt32, le64}
use filecache.Base.Map
use filecache.Base.Map.{bytes_key}
use filecache.BlockSize.{get_filesystem_file_size}
use filecache.BlockSize.Bounds.{get_filesystem_file_size_bounds}
use filecache.Os.{Os}
use filecache.Cache
use filecache.Config.{
  CacheParamValues, Entries, configure, configured, describe, clamp_cost, clamp_lifetime,
}
use filecache.CacheSet.State.{FileCacheSet, get_file_cache_for_type, type_exists}
use filecache.CacheSet.Types as SetTypes
use filecache.CacheSet.Types.{avail_for_type}
use filecache.Bus.{FcErr, Payload, Reply, Service, get_or}
use filecache.Bus.Types
use filecache.Bus.Types.{payload_params}

configure-configured :
    (os : Os) (base : Bytes) (avail : ℕ) (file : Option Entries) (c : Cache.FileCache)
    (params : CacheParamValues) (dir : Bool)
    → (configure os base avail file c (some params) dir).0 ≡ true
    → (configure os base avail file c (some params) dir).1 ≡ configured c params dir
unfolding configure
configure-configured os base avail file c params dir h =
    elim (Bool-cases (lt32 (get_filesystem_file_size params.lo_watermark) avail)) [
      | inl b ↦ rw (b) refl
      | inr b ↦ absurd (false≢true (rw (b, configure) at h))
    ]

pub define_type-configured :
    (os : Os) (address : ℕ) (s : FileCacheSet) (name : Bytes) (file : Option Entries)
    (params : CacheParamValues) (dir : Bool)
    → (SetTypes.define_type os address s name file (some params) dir).done ≡ true
    → get_file_cache_for_type
        (SetTypes.define_type os address s name file (some params) dir).set
        name
      ≡ some (configured (Cache.make address name) params dir)
unfolding SetTypes.define_type
define_type-configured os address s name file params dir h =
    let base = s.base_dir_name in
    let avail = avail_for_type s in
    let new_type = Cache.make address name in
    let c = (configure os base avail file new_type (some params) dir).1 in
    elim (Option-cases (get_file_cache_for_type s name)) [
      | inr (old, e) ↦ absurd (false≢true (rw (e, SetTypes.define_type) at h))
      | inl e ↦ elim (Bool-cases (configure os base avail file new_type (some params) dir).0) [
        | inl b ↦
            let same = configure-configured os base avail file new_type params dir b in
            rw (e, SetTypes.define_type, b) (Map.find-insert name c s.cache_set e ∙ ap some same)
        | inr b ↦ absurd (false≢true (rw (e, SetTypes.define_type, b) at h))
      ]
    ]

failed_call : {e : FcErr} → Reply.failure e ≡ Reply.success → ⊥
failed_call h = cc

pub define_type-success :
    (os : Os) (address : ℕ) (svc : Service) (file : Option Entries) (p : Payload)
    → (Types.define_type os address svc file p).0 ≡ Reply.success
    → let r =
        SetTypes.define_type os address svc.set
          (get_or [] p.type_name)
          file
          (some (payload_params p))
          (get_or false p.dir_type) in
      (le64 (get_or 0 p.hi_watermark) (get_or 0 p.lo_watermark) ≡ false)
      × (r.done ≡ true)
      × ((Types.define_type os address svc file p).1.set ≡ r.set)
unfolding Types.define_type
define_type-success os address svc file p h =
    let name = get_or [] p.type_name in
    let made =
      SetTypes.define_type os address svc.set name file (some (payload_params p))
        (get_or false p.dir_type) in
    elim (Bool-cases (le64 (get_or 0 p.hi_watermark) (get_or 0 p.lo_watermark))) [
      | inl low ↦ absurd (failed_call (rw (low, Types.define_type) at h))
      | inr low ↦ elim (Bool-cases (type_exists svc.set name)) [
        | inl there ↦ absurd (failed_call (rw (low, Types.define_type, there) at h))
        | inr there ↦ elim (Bool-cases made.done) [
          | inl done ↦ (low, done, rw (low, there, done) refl)
          | inr done ↦ absurd (failed_call (rw (low, Types.define_type, there, done) at h))
        ]
      ]
    ]

-- Numbers that a signed 32-bit number holds are kept by the casts.
pub kept_param :
    (n : ℕ) → n < sign_bit → widen (if lt32 0 (n % word_mod) then n % word_mod else 0) ≡ n
kept_param n h = ground arith

pub kept_cost :
    (n : ℕ)
    → n ≤ 100
    → widen
        (clamp_cost (if lt32 0 (clamp_cost (n % word_mod)) then clamp_cost (n % word_mod) else 0))
      ≡ n
kept_cost n h = ground arith

pub kept_lifetime :
    (n : ℕ)
    → n < sign_bit
    → widen (
        clamp_lifetime
          (if lt32 1 (clamp_lifetime (n % word_mod)) then clamp_lifetime (n % word_mod) else 1))
      ≡ (if n == 0 then 1 else n)
kept_lifetime n h = ground arith

pub kept_watermark :
    (n other : ℕ)
    → 0 < n
    → n ≤ 2147475456
    → widen (if lt32 0 (n % word_mod) then get_filesystem_file_size (n % word_mod) else other)
      ≡ get_filesystem_file_size n
kept_watermark n other z h =
    let small : n % word_mod ≡ n = ground arith in
    let positive : lt32 0 n ≡ true = ground arith in
    let (a, b, c, below) = get_filesystem_file_size_bounds n z h in
    rw (small, positive) (ground (arith, below))

type_exists-some :
    (s : FileCacheSet) (name : Bytes) (c : Cache.FileCache)
    → get_file_cache_for_type s name ≡ some c
    → type_exists s name ≡ true
unfolding type_exists
type_exists-some s name c e = rw (e) refl

describe_type-some :
    (s : FileCacheSet) (name : Bytes) (c : Cache.FileCache)
    → get_file_cache_for_type s name ≡ some c
    → SetTypes.describe_type s name ≡ describe c
unfolding SetTypes.describe_type
describe_type-some s name c e = rw (e, SetTypes.describe_type) refl

pub described :
    (svc : Service) (q : Payload) (name : Bytes) (c : Cache.FileCache)
    → q.type_name ≡ some name
    → get_file_cache_for_type svc.set name ≡ some c
    → let d = describe c in
      Types.describe_type svc q
      ≡ Reply.params
          (widen d.lo_watermark)
          (widen d.hi_watermark)
          (widen d.size)
          (widen d.cost)
          (widen d.lifetime)
unfolding Types.describe_type
described svc q name c m e =
    rw (m, type_exists-some svc.set name c e, describe_type-some svc.set name c e) refl
