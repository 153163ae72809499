-- ===== src/Tokenizer/Numbers.antt =====
-- native/utils/tokenizer.cc, `NumberTokenize`: numbers, words and white space, and all else by itself.
pub mod Spelled
use external_libtextclassifi.Prelude.{
  ℕ, zero, suc, ◌+◌, pos, Bool, true, false, ◌&&◌, List, [], ◌∷◌, ◌++◌, ◌==◌, if◌then◌else◌,
}
use external_libtextclassifi.Text.{UnicodeText, UniLib}
use external_libtextclassifi.Token.{Token, make_token}
use external_libtextclassifi.Tokenizer.Internal.{push_token, append_codepoint}

pub data NumberTokenType : Type 0 where
  invalid_token_type : NumberTokenType
  numerical : NumberTokenType
  term : NumberTokenType
  whitespace : NumberTokenType
  separator : NumberTokenType
  not_set : NumberTokenType

abbrev type_index : NumberTokenType → ℕ
type_index invalid_token_type = 0
type_index numerical = 1
type_index term = 2
type_index whitespace = 3
type_index separator = 4
type_index not_set = 5

abbrev pub same_type : NumberTokenType → NumberTokenType → Bool
same_type a b = type_index a == type_index b

-- The variables of the loop.
pub record NumberScan : Type 0 where
  pub result : List Token
  pub new_token : Token
  pub current_token_type : NumberTokenType

-- An empty token at an index, `Token("", i, i, false, is_whitespace)`.
abbrev pub token_at : ℕ → Bool → Token
token_at i is_whitespace = record (make_token [] (pos i) (pos i)) { is_whitespace = is_whitespace }

unfoldable pub start_numbers : NumberScan
start_numbers = record { result = []; new_token = token_at 0 false; current_token_type = not_set }

-- `PushToken`, and a new token.
unfoldable pub reset_token : ℕ → Bool → NumberScan → NumberScan
reset_token i is_whitespace s = record s {
  result = push_token s.result s.new_token;
  new_token = token_at i is_whitespace;
}

-- `MaybeResetTokenAndAddChar`
unfoldable pub maybe_reset_token_and_add_char :
    ℕ → NumberTokenType → ℕ → Bool → NumberScan → NumberScan
maybe_reset_token_and_add_char i token_type c is_whitespace s =
    let started =
      if same_type s.current_token_type token_type then s else reset_token i is_whitespace s in
    record started {
      new_token = append_codepoint c started.new_token;
      current_token_type = token_type;
    }

-- `FinishTokenAndAddSeparator`
unfoldable pub finish_token_and_add_separator : ℕ → ℕ → NumberScan → NumberScan
finish_token_and_add_separator i c s = record {
  result = push_token s.result s.new_token ++ make_token (c ∷ []) (pos i) (pos (suc i)) ∷ [];
  new_token = token_at (suc i) false;
  current_token_type = not_set;
}

module _ (unilib : UniLib) (preserve_floating_numbers : Bool) where
  -- `it_next != text_unicode.end() && IsDigit(*it_next)`
  unfoldable pub next_is_digit : UnicodeText → Bool
  next_is_digit [] = false
  next_is_digit (c ∷ text) = unilib.is_digit c

  -- A dot, which stays in a number between two digits.
  unfoldable pub add_dot : ℕ → ℕ → UnicodeText → NumberScan → NumberScan
  add_dot i c text s =
      if same_type s.current_token_type numerical && next_is_digit text
      then record s { new_token = append_codepoint c s.new_token }
      else finish_token_and_add_separator i c s

  -- One round at the codepoint `c` with the index `i`; `text` is what follows it.
  unfoldable pub number_round : ℕ → ℕ → UnicodeText → NumberScan → NumberScan
  number_round i c text s =
      if unilib.is_digit c
      then maybe_reset_token_and_add_char i numerical c false s
      else if unilib.is_letter c
      then maybe_reset_token_and_add_char i term c false s
      else if unilib.is_whitespace c
      then maybe_reset_token_and_add_char i whitespace c true s
      else if unilib.is_dot c && preserve_floating_numbers
      then add_dot i c text s
      else finish_token_and_add_separator i c s

  unfoldable pub scan_numbers : UnicodeText → ℕ → NumberScan → NumberScan
  scan_numbers [] i s = s
  scan_numbers (c ∷ text) i s = scan_numbers text (suc i) (number_round i c text s)

  -- `NumberTokenize`, which never fails.
  unfoldable pub number_tokenize : UnicodeText → List Token
  number_tokenize text =
      let s = scan_numbers text 0 start_numbers in push_token s.result s.new_token
