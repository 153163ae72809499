-- ===== src/Tests/Retokenized.antt =====
-- Tokens of one break iterator, of which the kana are cut again by the internal tokenizer.
use external_libtextclassifi.Prelude.{pos, false, List, [], ◌∷◌, ◌≡◌, refl, inl, inr, Any, ◌+ℤ◌}
use external_libtextclassifi.Span.{lower_bound}
use external_libtextclassifi.Text.{UnicodeText}
use external_libtextclassifi.Token.{Token, make_token}
use external_libtextclassifi.Tokenizer.Ranges.{
  CodepointRange, is_codepoint_in_ranges, TokenizationRange, get_script_and_role,
  find_tokenization_range, unknown_script,
}
use external_libtextclassifi.Tokenizer.Internal.{
  internal_tokenize, scan_text, scan_codepoint, before_part, append_part, after_part, splits_before,
  restart, push_token, append_codepoint, start_scan, shift_token, tokenize_substring, all_in_ranges,
  retokenize_step, retokenize_all, internal_retokenize,
}
use external_libtextclassifi.Tokenizer.Internal.Retained.{internal_retokenize_keeps}

-- Every codepoint from 0x3041 is a token of its own.
abbrev single_kana : List TokenizationRange
single_kana = record { start = 0x3041; end = 0x30fb; role = 3; script_id = unknown_script } ∷ []

abbrev kana_ranges : List CodepointRange
kana_ranges = record { start = 0x3041; end = 0x30fb } ∷ []

abbrev mixed_text : UnicodeText
mixed_text = 0x3042 ∷ 0x3044 ∷ 97 ∷ 98 ∷ []

abbrev latin : Token
latin = make_token (97 ∷ 98 ∷ []) (pos 2) (pos 4)

abbrev by_script : List Token
by_script = make_token (0x3042 ∷ 0x3044 ∷ []) (pos 0) (pos 2) ∷ latin ∷ []

latin_is_outside : all_in_ranges single_kana false kana_ranges latin.value ≡ false
unfolding all_in_ranges is_codepoint_in_ranges lower_bound
latin_is_outside = refl

kana_are_split :
    internal_retokenize single_kana false kana_ranges mixed_text by_script
    ≡ make_token (0x3042 ∷ []) (pos 0) (pos 1)
      ∷ make_token (0x3044 ∷ []) (pos 1) (pos 2)
      ∷ latin
      ∷ []
unfolding internal_tokenize scan_text scan_codepoint before_part append_part after_part
    splits_before restart push_token append_codepoint start_scan get_script_and_role
    find_tokenization_range lower_bound ◌+ℤ◌ shift_token tokenize_substring all_in_ranges
    retokenize_step retokenize_all internal_retokenize is_codepoint_in_ranges
kana_are_split = refl

internal_retokenize_keeps_example :
    Any (λ u. u ≡ latin) (internal_retokenize single_kana false kana_ranges mixed_text by_script)
internal_retokenize_keeps_example =
    internal_retokenize_keeps single_kana false kana_ranges mixed_text latin by_script
      (inr (inl refl)) latin_is_outside
