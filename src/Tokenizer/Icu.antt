-- ===== src/Tokenizer/Icu.antt =====
-- native/utils/tokenizer.cc, `ICUTokenize` and `Tokenize`. The break iterator belongs to the platform: it is
-- the list of the indices that `Next` returns before `kDone`, and `none` where there is no iterator.
-- These indices do not fall, and the code subtracts one from the next.
pub mod Pieces
use external_libtextclassifi.Prelude.{
  ℕ, zero, suc, ◌+◌, ◌-◌, pos, Bool, true, false, not, ◌&&◌, ◌||◌, List, [], ◌∷◌, ◌++◌, Option,
  none, some, if◌then◌else◌, take, drop,
}
use external_libtextclassifi.Text.{UnicodeText, UniLib}
use external_libtextclassifi.Token.{Token, make_token}
use external_libtextclassifi.Tokenizer.Ranges.{CodepointRange, TokenizationRange}
use external_libtextclassifi.Tokenizer.Internal.{internal_tokenize, internal_retokenize}
use external_libtextclassifi.Tokenizer.Numbers.{number_tokenize}

pub data TokenizationType : Type 0 where
  -- any value that is none of the others
  invalid_tokenization_type : TokenizationType
  internal_tokenizer : TokenizationType
  icu : TokenizationType
  mixed : TokenizationType
  letter_digit : TokenizationType

-- The fields of `Tokenizer`.
pub record Tokenizer : Type 0 where
  pub type : TokenizationType
  pub unilib : UniLib
  pub create_break_iterator : UnicodeText → Option (List ℕ)
  pub codepoint_ranges : List TokenizationRange
  pub internal_tokenizer_codepoint_ranges : List CodepointRange
  pub split_on_script_change : Bool
  pub icu_preserve_whitespace_tokens : Bool
  pub preserve_floating_numbers : Bool

module _ (t : Tokenizer) where
  -- Whether the whole token is white space.
  unfoldable pub is_whitespace_token : UnicodeText → Bool
  is_whitespace_token [] = true
  is_whitespace_token (c ∷ token) = t.unilib.is_whitespace c && is_whitespace_token token

  -- The token of one round, if it is kept.
  unfoldable pub icu_token : UnicodeText → ℕ → ℕ → List Token
  icu_token token last_unicode_index unicode_index =
      let is_whitespace = is_whitespace_token token in
      if not is_whitespace || t.icu_preserve_whitespace_tokens
      then record (make_token token (pos last_unicode_index) (pos unicode_index)) {
        is_whitespace = is_whitespace;
      }
        ∷ []
      else []

  -- The loop; `text` is what follows `token_begin_it`.
  unfoldable pub icu_loop : List ℕ → ℕ → ℕ → UnicodeText → List Token → List Token
  icu_loop [] last_break_index last_unicode_index text result = result
  icu_loop (break_index ∷ breaks) last_break_index last_unicode_index text result =
      let token_length = break_index - last_break_index in
      let unicode_index = last_unicode_index + token_length in
      icu_loop breaks break_index unicode_index (drop token_length text)
        (result ++ icu_token (take token_length text) last_unicode_index unicode_index)

  -- `ICUTokenize`
  unfoldable pub icu_tokenize : UnicodeText → Option (List Token)
  icu_tokenize text = elim (t.create_break_iterator text) [
    | none ↦ none
    | some breaks ↦ some (icu_loop breaks 0 0 text [])
  ]

  -- `Tokenize`
  unfoldable pub tokenize : UnicodeText → List Token
  tokenize text = elim t.type [
    | invalid_tokenization_type ↦ internal_tokenize t.codepoint_ranges t.split_on_script_change text
    | internal_tokenizer ↦ internal_tokenize t.codepoint_ranges t.split_on_script_change text
    | icu ↦ elim (icu_tokenize text) [ none ↦ [] | some result ↦ result ]
    | mixed ↦ elim (icu_tokenize text) [
      | none ↦ []
      | some result ↦
          internal_retokenize t.codepoint_ranges t.split_on_script_change
            t.internal_tokenizer_codepoint_ranges text result
    ]
    | letter_digit ↦ number_tokenize t.unilib t.preserve_floating_numbers text
  ]
