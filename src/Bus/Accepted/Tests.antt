-- ===== src/Bus/Accepted/Tests.antt =====
-- Calls that a validator accepts.
use filecache.Base.{
  ◌≤◌, ◌≡◌, refl, Bool, true, ◌&&◌, some, none, List, [], ◌∷◌, arith, codes, Bytes, All,
}
use filecache.Base.Map
use filecache.Base.Map.{ℕ_key, bytes_key}
use filecache.BlockSize.{get_filesystem_file_size}
use filecache.Os.Tests.{quiet_os}
use filecache.Object.{sync_file}
use filecache.Cache
use filecache.Config.{configure, write_config, config_entries, make_params}
use filecache.CacheSet.State.{type_exists, sum_of_lo_watermarks, sum_from}
use filecache.CacheSet.Types as SetTypes
use filecache.Bus.{Payload, Reply, Service}
use filecache.Bus.Types
use filecache.Bus.Schema.{value, is_present, follows, characters, starts_without_dot}
use filecache.Bus.Objects.{resize_cache_object, remove_at}
use filecache.Bus.Accepted.{Validator, describe_type-define_type, resize_cache_object-defined}
use filecache.Bus.Runs.Tests.{start, no_fields, stocked, new_path, stocked-IsBalanced}

abbrev all_of {ℓ} : {A : Type ℓ} → (A → Bool) → List A → Bool
all_of f [] = true
all_of f (x ∷ xs) = f x && all_of f xs

all_of-All {ℓ} :
    {A : Type ℓ} (f : A → Bool) (xs : List A) → all_of f xs ≡ true → All (λ x. f x ≡ true) xs
all_of-All f [] h = tt
all_of-All f (x ∷ xs) h = (ground arith, all_of-All f xs (ground arith))

left_true : (a b : Bool) → (a && b) ≡ true → a ≡ true
left_true a b h = ground arith

right_true : (a b : Bool) → (a && b) ≡ true → b ≡ true
right_true a b h = ground arith

-- A validator that checks the rules and the required fields.
abbrev checker : Validator
checker = record {
  validates = λ s p.
      all_of (λ e. follows e.1 (value p e.0)) s.properties
      && all_of (λ f. is_present (value p f)) s.required;
  rules = λ s p h. all_of-All (λ e. follows e.1 (value p e.0)) s.properties (left_true _ _ h);
  required = λ s p h. all_of-All (λ f. is_present (value p f)) s.required (right_true _ _ h);
}

abbrev films : Bytes
films = codes "films"

abbrev definition : Payload
definition = record no_fields {
  type_name = some films;
  lo_watermark = some 8192;
  hi_watermark = some 16384;
  cost = some 5;
}

abbrev question : Payload
question = record no_fields { type_name = some films }

defined_call : (Types.define_type quiet_os 2 start none definition).0 ≡ Reply.success
unfolding Types.define_type SetTypes.define_type type_exists configure get_filesystem_file_size
    make_params sum_of_lo_watermarks sum_from write_config config_entries sync_file Map.find
    Map.insert Map.place Cache.make
defined_call = refl

describe_type-define_type_example :
    (starts_without_dot films ≡ true)
    × (characters films ≤ 64)
    × (Types.describe_type (Types.define_type quiet_os 2 start none definition).1 question
        ≡ Reply.params (get_filesystem_file_size 8192) (get_filesystem_file_size 16384) 0 5 1)
describe_type-define_type_example =
    describe_type-define_type checker quiet_os 2 start none definition question films refl refl refl
      (omega arith) (omega arith) (omega arith) (omega arith) (omega arith) defined_call

abbrev growth : Payload
growth = record no_fields { path_name = some new_path; new_size = some 8192 }

resize_cache_object-defined_example :
    (r : Reply) × (svc' : Service) × (resize_cache_object quiet_os
        (stocked 1 (new_path ∷ []))
        growth
      ≡ some (r, svc'))
unfolding remove_at
resize_cache_object-defined_example =
    resize_cache_object-defined checker quiet_os (stocked 1 (new_path ∷ [])) growth 0 new_path []
      stocked-IsBalanced (omega arith) refl refl refl
