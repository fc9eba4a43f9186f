-- ===== src/ObjectId/Codec/Digits.antt =====
-- The nine characters of an id: each encodes one digit of base 64.
use mathlib.Core.List.{append_assoc, append-nil}
use filecache.Base.{
  ℕ, zero, suc, ◌+◌, ◌-◌, ◌*◌, ◌/◌, ◌%◌, ◌^◌, ◌<◌, ◌≡◌, refl, sym, ◌∙◌, Bool, true, false, not,
  ◌&&◌, none, [], ◌∷◌, ◌++◌, arith, ◌==◌, Bytes,
}
use filecache.ObjectId.{
  slash, dot, blank, char_mapping, byte_at, get_char_n_from_object_id, get_value_for_char, scan_id,
  append_chars, find_last,
}

-- A test holds of every number below a bound.
holds_below : ℕ → (ℕ → Bool) → Bool
holds_below zero p = true
holds_below (suc n) p = holds_below n p && p n

holds_below_at : (n : ℕ) (p : ℕ → Bool) (v : ℕ) → holds_below n p ≡ true → v < n → p v ≡ true
unfolding holds_below
holds_below_at zero p v h lt = absurd (omega arith)
holds_below_at (suc n) p v h lt = ground (arith, holds_below_at n p v)

abbrev is_code : ℕ → Bool
is_code v =
    let c = byte_at char_mapping v in
    (get_value_for_char c == v) && (not (c == slash) && (not (c == dot) && not (c == blank)))

all_codes : holds_below 64 is_code ≡ true
unfolding holds_below get_value_for_char
all_codes = refl

-- The characters of the table are the digits' values, and none is a separator.
pub record IsCode (v : ℕ) : Type 0 where
  pub value : get_value_for_char (byte_at char_mapping v) ≡ v
  pub no_slash : (byte_at char_mapping v == slash) ≡ false
  pub no_dot : (byte_at char_mapping v == dot) ≡ false
  pub no_blank : (byte_at char_mapping v == blank) ≡ false

byte_at-IsCode : (v : ℕ) → v < 64 → IsCode v
byte_at-IsCode v h = ground (arith, holds_below_at 64 is_code v all_codes h)

abbrev pub digit : ℕ → ℕ → ℕ
digit id n = id / 2 ^ (n * 6) % 64

char-digit : (id n : ℕ) → get_char_n_from_object_id id n ≡ byte_at char_mapping (digit id n)
unfolding get_char_n_from_object_id
char-digit id n = ground arith

digit-IsCode : (id n : ℕ) → IsCode (digit id n)
digit-IsCode id n = byte_at-IsCode (digit id n) (omega arith)

-- The characters of the digits from `i` down.
unfoldable pub digits : ℕ → ℕ → ℕ → Bytes
digits id i zero = []
digits id i (suc n) = byte_at char_mapping (digit id i) ∷ digits id (i - 1) n

pub append_chars-digits :
    (id i n : ℕ) (path : Bytes) → append_chars id i n path ≡ path ++ digits id i n
unfolding append_chars digits
append_chars-digits id i zero path = sym (append-nil path)
append_chars-digits id i (suc n) path =
    rw (char-digit id i, (digit-IsCode id i).no_blank)
      (append_chars-digits id (i - 1) n (path ++ byte_at char_mapping (digit id i) ∷ [])
        ∙ append_assoc path _ _)

-- The loop reads back the value that a character encodes.
scan_id-code :
    (v : ℕ) (cs : Bytes) (i : ℕ) (found : Bool) (id : ℕ)
    → v < 64
    → scan_id (byte_at char_mapping v ∷ cs) i found id
      ≡ scan_id cs (i + 1) found ((id + v * 2 ^ ((9 - i - 1) * 6)) % 2 ^ 64)
unfolding scan_id
scan_id-code v cs i found id h = rw (c.no_slash, c.value) (ground arith)
  where
    c : IsCode v
    c = byte_at-IsCode v h

scan_id-slash : (cs : Bytes) (id : ℕ) → scan_id (slash ∷ cs) 1 false id ≡ scan_id cs 1 true id
unfolding scan_id
scan_id-slash cs id = refl

-- The ten bytes that the loop looks at.
abbrev pub window : ℕ → Bytes
window id = digits id 8 1 ++ slash ∷ digits id 7 8

-- The sum that the loop makes is the number that the digits stand for.
number :
    (id : ℕ)
    → id < 2 ^ 54
    → scan_id [] 9 true (
        (((((((((0 + digit id 8 * 2 ^ 48) % 2 ^ 64 + digit id 7 * 2 ^ 42) % 2 ^ 64
                                  + digit id 6 * 2 ^ 36)
                                % 2 ^ 64
                              + digit id 5 * 2 ^ 30)
                            % 2 ^ 64
                          + digit id 4 * 2 ^ 24)
                        % 2 ^ 64
                      + digit id 3 * 2 ^ 18)
                    % 2 ^ 64
                  + digit id 2 * 2 ^ 12)
                % 2 ^ 64
              + digit id 1 * 2 ^ 6)
            % 2 ^ 64
          + digit id 0 * 2 ^ 0)
        % 2 ^ 64)
      ≡ id
unfolding scan_id
number id h = omega arith

pub scan_id-window : (id : ℕ) → id < 2 ^ 54 → scan_id (window id) 0 false 0 ≡ id
unfolding digits
scan_id-window id h = rw (code 8) (
    rw scan_id-slash
      (rw (code 7, code 6, code 5, code 4, code 3, code 2, code 1, code 0) (number id h)))
  where
    code :
        (n : ℕ) (cs : Bytes) (i : ℕ) (found : Bool) (acc : ℕ)
        → scan_id (byte_at char_mapping (digit id n) ∷ cs) i found acc
          ≡ scan_id cs (i + 1) found ((acc + digit id n * 2 ^ ((9 - i - 1) * 6)) % 2 ^ 64)
    code n cs i found acc = scan_id-code (digit id n) cs i found acc (omega arith)

pub digits_no_dot : (id i n : ℕ) → find_last (λ b. b == dot) (digits id i n) ≡ none
unfolding find_last digits
digits_no_dot id i zero = refl
digits_no_dot id i (suc n) = rw (digits_no_dot id (i - 1) n, (digit-IsCode id i).no_dot)

-- No character of a digit is a separator of directories.
pub digits_no_slash : (id i n : ℕ) → find_last (λ b. b == slash) (digits id i n) ≡ none
unfolding find_last digits
digits_no_slash id i zero = refl
digits_no_slash id i (suc n) = rw (digits_no_slash id (i - 1) n, (digit-IsCode id i).no_slash)
