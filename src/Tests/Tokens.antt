-- ===== src/Tests/Tokens.antt =====
-- The tokenizer on short texts: a space separates and is discarded, a dash only separates.
use Prim.Native.Char.{code}
use Prim.Native.String.{String}
use external_libtextclassifi.Prelude.{
  pos, true, false, List, [], ◌∷◌, ◌≡◌, refl, ◌↔◌, arith, All, Any, Pairwise, ◌+ℤ◌,
}
use external_libtextclassifi.Span.{lower_bound}
use external_libtextclassifi.Text.{UnicodeText}
use external_libtextclassifi.Token.{make_token}
use external_libtextclassifi.Tokenizer.Spelling.{spell, Precedes}
use external_libtextclassifi.Tokenizer.Ranges.{
  CodepointRange, is_codepoint_in_ranges, TokenizationRange, get_script_and_role,
  find_tokenization_range, unknown_script,
}
use external_libtextclassifi.Tokenizer.Ranges.Lookup.{Holds, is_codepoint_in_ranges-Any}
use external_libtextclassifi.Tokenizer.Internal.{
  internal_tokenize, scan_text, scan_codepoint, before_part, append_part, after_part, splits_before,
  restart, append_codepoint, start_scan,
}
use external_libtextclassifi.Tokenizer.Internal.Sound.{
  kept, IsEmitted, spell-internal_tokenize, internal_tokenize-ordered,
}

abbrev codes : String → UnicodeText
codes String.[] = []
codes (String.◌∷◌ c s) = code c ∷ codes s

abbrev ranges : List TokenizationRange
ranges =
    record { start = b' '; end = 33; role = 7; script_id = unknown_script }
    ∷ record { start = b'-'; end = 46; role = 3; script_id = unknown_script }
    ∷ []

three_tokens :
    internal_tokenize ranges false (codes "ab -c")
    ≡ make_token (codes "ab") (pos 0) (pos 2)
      ∷ make_token (codes "-") (pos 3) (pos 4)
      ∷ make_token (codes "c") (pos 4) (pos 5)
      ∷ []
unfolding internal_tokenize scan_text scan_codepoint before_part append_part after_part
    splits_before restart append_codepoint start_scan get_script_and_role find_tokenization_range
    lower_bound ◌+ℤ◌
three_tokens = refl

spell-internal_tokenize_example :
    spell (internal_tokenize ranges false (codes "ab -c")) ≡ kept ranges false (codes "ab -c")
spell-internal_tokenize_example = spell-internal_tokenize ranges false (codes "ab -c")

internal_tokenize-ordered_example :
    Pairwise Precedes (internal_tokenize ranges false (codes "ab -c"))
    × All (IsEmitted 5) (internal_tokenize ranges false (codes "ab -c"))
internal_tokenize-ordered_example = internal_tokenize-ordered ranges false (codes "ab -c")

-- Hiragana and katakana.
abbrev kana : List CodepointRange
kana = record { start = 0x3041; end = 0x3097 } ∷ record { start = 0x30a1; end = 0x30fb } ∷ []

is_codepoint_in_ranges-Any_example :
    (is_codepoint_in_ranges 0x30a2 kana ≡ true) ↔ Any (Holds 0x30a2) kana
is_codepoint_in_ranges-Any_example = is_codepoint_in_ranges-Any 0x30a2 kana (omega arith)
