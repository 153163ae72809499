-- ===== src/Checksum.antt =====
-- native/utils/checksum.cc: `VerifyLuhnChecksum`. A text is its bytes, which are ASCII where they count.
pub mod Errors
use external_libtextclassifi.Prelude.{
  ℕ, ◌+◌, ◌-◌, ◌%◌, Bool, true, false, not, ◌&&◌, List, [], ◌∷◌, Option, none, some, ltb, leb, ◌==◌,
  get_or, if◌then◌else◌, ◌>>=◌,
}

-- The variables of the loop.
pub record Luhn : Type 0 where
  pub sum : ℕ
  pub num_digits : ℕ
  pub is_odd : Bool

abbrev pub start_luhn : Luhn
start_luhn = record { sum = 0; num_digits = 0; is_odd = true }

-- `isdigit`
abbrev pub is_ascii_digit : ℕ → Bool
is_ascii_digit c = leb 48 c && leb c 57

-- `kPrecomputedSumsOfDoubledDigits`
abbrev pub sums_of_doubled_digits : List ℕ
sums_of_doubled_digits = 0 ∷ 2 ∷ 4 ∷ 6 ∷ 8 ∷ 1 ∷ 3 ∷ 5 ∷ 7 ∷ 9 ∷ []

-- What a digit adds at an odd or even place from the end.
unfoldable pub weight : Bool → ℕ → ℕ
weight true digit = digit
weight false digit = get_or sums_of_doubled_digits digit 0

unfoldable pub add_digit : ℕ → Luhn → Luhn
add_digit digit l = record {
  sum = l.sum + weight l.is_odd digit;
  num_digits = l.num_digits + 1;
  is_odd = not l.is_odd;
}

-- One round; `none` is `return false`.
unfoldable pub luhn_step : Bool → ℕ → Luhn → Option Luhn
luhn_step ignore_whitespace c l =
    if ignore_whitespace && c == 32
    then some l
    else if not (is_ascii_digit c)
    then none
    else some (add_digit (c - 48) l)

-- The loop, which goes from the last byte to the first.
unfoldable pub luhn_loop : Bool → List ℕ → Luhn → Option Luhn
luhn_loop ignore_whitespace [] l = some l
luhn_loop ignore_whitespace (c ∷ input) l = do
  before ← luhn_loop ignore_whitespace input l
  luhn_step ignore_whitespace c before

-- `VerifyLuhnChecksum`
unfoldable pub verify_luhn_checksum : List ℕ → Bool → Bool
verify_luhn_checksum input ignore_whitespace = elim (luhn_loop ignore_whitespace input start_luhn) [
  | none ↦ false
  | some l ↦ ltb 1 l.num_digits && l.sum % 10 == 0
]
