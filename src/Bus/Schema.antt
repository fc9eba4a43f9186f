-- ===== src/Bus/Schema.antt =====
-- The descriptions of the calls that `InitCategoryDescription` of src/CategoryHandler.cpp hands to
-- the framework, which refuses a call that does not meet its description (`s_Methods`).
use filecache.Base.{
  ℕ, ◌+◌, Bool, true, false, not, ◌&&◌, ◌||◌, Option, none, some, List, [], ◌∷◌, ◌++◌, leb, ltb,
  ◌==◌, if◌then◌else◌, Bytes,
}
use filecache.Base.Word.{le64}
use filecache.ObjectId.{dot}
use filecache.Bus.{Payload}

pub data Method : Type 0 where
  define_type change_type delete_type copy_cache_object describe_type : Method
  insert_cache_object resize_cache_object expire_cache_object subscribe_cache_object : Method
  touch_cache_object get_cache_status get_cache_type_status get_cache_object_size : Method
  get_cache_object_filename get_cache_types get_version : Method

pub data Field : Type 0 where
  type_name lo_watermark hi_watermark size cost lifetime dir_type file_name subscribe : Field
  path_name new_size destination : Field

-- "minimum", with "exclusiveMinimum" or without.
pub data Minimum : Type 0 where
  unbounded : Minimum
  from : ℕ → Minimum
  above : ℕ → Minimum

-- What a description says of a field: a string with its "maxLength" and whether the pattern
-- "^[^.]" is asked for, an integer with its bounds, or a boolean.
pub data Rule : Type 0 where
  string : Option ℕ → Bool → Rule
  integer : Minimum → Option ℕ → Rule
  boolean : Rule

pub record Schema : Type 0 where
  pub properties : List (Field × Rule)
  pub required : List Field
  pub additional_properties : Bool

abbrev any_string : Rule
any_string = Rule.string none false

-- `commonProperties`
abbrev pub common_properties : List (Field × Rule)
common_properties =
    (Field.type_name, Rule.string (some 64) true)
    ∷ (Field.size, Rule.integer (Minimum.from 0) none)
    ∷ (Field.cost, Rule.integer (Minimum.from 0) (some 100))
    ∷ (Field.lifetime, Rule.integer (Minimum.from 0) none)
    ∷ []

abbrev watermarks : List (Field × Rule)
watermarks =
    (Field.lo_watermark, Rule.integer (Minimum.above 0) none)
    ∷ (Field.hi_watermark, Rule.integer Minimum.unbounded none)
    ∷ []

-- A call that names a type, or a path name, and nothing else.
abbrev one_string : Field → Bool → Schema
one_string field additional_properties = record {
  properties = (field, any_string) ∷ [];
  required = field ∷ [];
  additional_properties = additional_properties;
}

abbrev no_properties : Schema
no_properties = record { properties = []; required = []; additional_properties = false }

abbrev pub description : Method → Schema
description Method.define_type = record {
  properties = common_properties ++ (Field.dir_type, Rule.boolean) ∷ watermarks;
  required = Field.type_name ∷ Field.lo_watermark ∷ Field.hi_watermark ∷ [];
  additional_properties = false;
}
description Method.change_type = record {
  properties = common_properties ++ watermarks;
  required = Field.type_name ∷ [];
  additional_properties = false;
}
description Method.delete_type = one_string Field.type_name false
description Method.copy_cache_object = record {
  properties =
      (Field.path_name, any_string)
      ∷ (Field.destination, any_string)
      ∷ (Field.file_name, any_string)
      ∷ [];
  required = Field.path_name ∷ [];
  additional_properties = false;
}
description Method.describe_type = one_string Field.type_name false
description Method.insert_cache_object = record {
  properties =
      common_properties ++ (Field.file_name, any_string) ∷ (Field.subscribe, Rule.boolean) ∷ [];
  required = Field.type_name ∷ Field.file_name ∷ [];
  additional_properties = false;
}
description Method.resize_cache_object = record {
  properties =
      (Field.path_name, any_string) ∷ (Field.new_size, Rule.integer (Minimum.above 0) none) ∷ [];
  required = Field.path_name ∷ Field.new_size ∷ [];
  additional_properties = false;
}
description Method.expire_cache_object = one_string Field.path_name false
description Method.subscribe_cache_object = one_string Field.path_name true
description Method.touch_cache_object = one_string Field.path_name false
description Method.get_cache_status = no_properties
description Method.get_cache_type_status = one_string Field.type_name false
description Method.get_cache_object_size = one_string Field.path_name false
description Method.get_cache_object_filename = one_string Field.path_name false
description Method.get_cache_types = no_properties
description Method.get_version = no_properties

-- What a call has in a field. A payload holds no field of another kind than its own.
pub data Value : Type 0 where
  absent : Value
  bytes : Bytes → Value
  number : ℕ → Value
  flag : Bool → Value

abbrev pub bytes_of : Option Bytes → Value
bytes_of none = Value.absent
bytes_of (some b) = Value.bytes b

abbrev pub number_of : Option ℕ → Value
number_of none = Value.absent
number_of (some n) = Value.number n

abbrev flag_of : Option Bool → Value
flag_of none = Value.absent
flag_of (some b) = Value.flag b

abbrev pub value : Payload → Field → Value
value p Field.type_name = bytes_of p.type_name
value p Field.lo_watermark = number_of p.lo_watermark
value p Field.hi_watermark = number_of p.hi_watermark
value p Field.size = number_of p.size
value p Field.cost = number_of p.cost
value p Field.lifetime = number_of p.lifetime
value p Field.dir_type = flag_of p.dir_type
value p Field.file_name = bytes_of p.file_name
value p Field.subscribe = flag_of p.subscribe
value p Field.path_name = bytes_of p.path_name
value p Field.new_size = number_of p.new_size
value p Field.destination = bytes_of p.destination

abbrev pub is_present : Value → Bool
is_present Value.absent = false
is_present (Value.bytes b) = true
is_present (Value.number n) = true
is_present (Value.flag b) = true

-- The characters of a string in UTF-8: its bytes that do not continue a character.
abbrev pub characters : Bytes → ℕ
characters [] = 0
characters (b ∷ bs) = if leb 128 b && ltb b 192 then characters bs else characters bs + 1

-- The pattern "^[^.]": there is a first character, and it is no dot.
abbrev pub starts_without_dot : Bytes → Bool
starts_without_dot [] = false
starts_without_dot (b ∷ bs) = not (b == dot)

abbrev is_short : Option ℕ → Bytes → Bool
is_short none s = true
is_short (some max) s = leb (characters s) max

abbrev is_enough : Minimum → ℕ → Bool
is_enough Minimum.unbounded n = true
is_enough (Minimum.from min) n = le64 min n
is_enough (Minimum.above min) n = not (le64 n min)

abbrev is_little : Option ℕ → ℕ → Bool
is_little none n = true
is_little (some max) n = le64 n max

-- A field that is not there meets every rule.
abbrev pub follows : Rule → Value → Bool
follows rule Value.absent = true
follows (Rule.string max pattern) (Value.bytes s) =
    is_short max s && (not pattern || starts_without_dot s)
follows (Rule.integer min max) (Value.number n) = is_enough min n && is_little max n
follows Rule.boolean (Value.flag b) = true
follows rule value = false
