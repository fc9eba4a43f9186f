-- ===== src/Base/Word.antt =====
-- `int32_t` as its two's complement bit pattern, a number below 2^32: `cacheSize_t` and
-- `paramValue_t` of src/CacheBase.h.in. A pattern below 2^31 is the integer itself.
use Prim.Native.Nat.{ℕ, ◌+◌, ◌-◌, ◌*◌, ◌/◌, ◌%◌, ◌^◌}
use mathlib.Core.Bool.{Bool}
use filecache.Base.Tests.{ltb, leb, if◌then◌else◌}

abbrev pub word_mod : ℕ
word_mod = 4294967296

abbrev pub sign_bit : ℕ
sign_bit = 2147483648

-- The pattern of -1.
abbrev pub minus_one : ℕ
minus_one = 4294967295

abbrev pub add32 : ℕ → ℕ → ℕ
add32 a b = (a + b) % word_mod

abbrev pub sub32 : ℕ → ℕ → ℕ
sub32 a b = (a + word_mod - b % word_mod) % word_mod

abbrev pub mul32 : ℕ → ℕ → ℕ
mul32 a b = a * b % word_mod

abbrev pub is_negative : ℕ → Bool
is_negative a = leb sign_bit a

-- The signed orders.
abbrev pub lt32 : ℕ → ℕ → Bool
lt32 a b = ltb ((a + sign_bit) % word_mod) ((b + sign_bit) % word_mod)

abbrev pub le32 : ℕ → ℕ → Bool
le32 a b = leb ((a + sign_bit) % word_mod) ((b + sign_bit) % word_mod)

abbrev pub magnitude : ℕ → ℕ
magnitude a = if is_negative a then word_mod - a else a

-- Signed division, which rounds towards zero. A caller excludes a divisor of zero.
abbrev pub div32 : ℕ → ℕ → ℕ
div32 a b =
    let q = magnitude a / magnitude b in
    if is_negative a
    then if is_negative b then q % word_mod else sub32 0 q
    else if is_negative b
    then sub32 0 q
    else q

-- `int64_t` as its pattern, a number below 2^64: a conversion from 32 bits keeps the sign.
abbrev pub widen : ℕ → ℕ
widen a = if is_negative a then a + (2 ^ 64 - word_mod) else a

abbrev pub le64 : ℕ → ℕ → Bool
le64 a b = leb ((a + 2 ^ 63) % 2 ^ 64) ((b + 2 ^ 63) % 2 ^ 64)
