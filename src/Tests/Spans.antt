-- ===== src/Tests/Spans.antt =====
-- Brackets, boundaries, labels, clicks and padding on small texts.
use Prim.Native.Char.{code}
use Prim.Native.String.{String}
use external_libtextclassifi.Prelude.{
  ℕ, pos, Bool, true, false, List, [], ◌∷◌, ◌++◌, some, ◌≡◌, refl, ◌⊎◌, arith, ◌==◌, ◌||◌, ◌&&◌,
  leb, if◌then◌else◌, length, get_or, ◌+ℤ◌, ◌-ℤ◌, ◌+◌, ◌≤◌, ◌<◌, ◌/◌,
}
use external_libtextclassifi.Span.{CodepointSpan, valid_non_empty_span, invalid_index}
use external_libtextclassifi.Text.{UnicodeText, UniLib}
use external_libtextclassifi.Token.{Token, make_token, padding_token}
use external_libtextclassifi.Brackets.{
  strip_unpaired_brackets, strip_begin, strip_end, not_inverse, is_codepoint_in_span,
}
use external_libtextclassifi.Brackets.Bounds.{
  IsTrimmed, strip_unpaired_brackets-IsTrimmed, strip_unpaired_brackets-paired,
}
use external_libtextclassifi.Features.Boundary.{strip_boundary_codepoints}
use external_libtextclassifi.Features.Boundary.Trim.{
  IsStripped, strip_boundary_codepoints-IsStripped,
}
use external_libtextclassifi.Features.Labels.{
  make_label_maps, label_to_token_span, token_span_to_label, is_label, token_span, add_rows,
  add_row, add_label,
}
use external_libtextclassifi.Features.Labels.RoundTrip.{
  token_span_to_label-label, label_to_token_span-token_span,
}
use external_libtextclassifi.Features.Clicks.{
  center_token_from_click, center_token_from_middle_of_selection, codepoint_span_to_token_span,
}
use external_libtextclassifi.Features.Clicks.Cover.{
  IsMiss, IsHit, selected, codepoint_span_to_token_span-cover,
}
use external_libtextclassifi.Features.Clicks.Center.{
  Click, center_token_from_click-Click, center_token_from_middle_of_selection-middle,
}
use external_libtextclassifi.Features.Padding.{Window, strip_or_pad_tokens}
use external_libtextclassifi.Features.Padding.Fit.{strip_or_pad_tokens-window}

abbrev codes : String → UnicodeText
codes String.[] = []
codes (String.◌∷◌ c s) = code c ∷ codes s

-- Parentheses are the brackets, and a dot is punctuation.
abbrev ascii : UniLib
ascii = record {
  is_opening_bracket = λ c. c == b'(';
  is_closing_bracket = λ c. c == b')';
  get_paired_bracket = λ c. if c == b'(' then b')' else if c == b')' then b'(' else c;
  is_whitespace = λ c. c == b' ';
  is_digit = λ c. leb b'0' c && leb c b'9';
  is_letter = λ c. leb b'a' c && leb c b'z';
  is_dot = λ c. c == b'.';
}

abbrev span : ℕ → ℕ → CodepointSpan
span first second = record { first = pos first; second = pos second }

unpaired : strip_unpaired_brackets ascii (codes "call (857) now)") (span 11 15) ≡ span 11 14
unfolding strip_unpaired_brackets strip_begin strip_end not_inverse is_codepoint_in_span
    valid_non_empty_span ◌+ℤ◌ ◌-ℤ◌
unpaired = refl

strip_unpaired_brackets-IsTrimmed_example :
    IsTrimmed (span 11 15) (strip_unpaired_brackets ascii (codes "call (857) now)") (span 11 15))
strip_unpaired_brackets-IsTrimmed_example =
    strip_unpaired_brackets-IsTrimmed ascii (codes "call (857) now)") (span 11 15) (omega arith)

strip_unpaired_brackets-paired_example :
    strip_unpaired_brackets ascii (codes "call (857) now)") (span 5 10) ≡ span 5 10
strip_unpaired_brackets-paired_example =
    strip_unpaired_brackets-paired ascii (codes "call (857) now)") (span 5 10) (omega arith)
      (omega arith) refl refl refl refl

abbrev is_punctuation : ℕ → Bool
is_punctuation c = c == b'.' || c == b','

strip_boundary_codepoints-IsStripped_example :
    IsStripped
      (codes "..ab,")
      is_punctuation
      is_punctuation
      1
      5
      (strip_boundary_codepoints (codes "..ab,") is_punctuation is_punctuation (span 1 5))
strip_boundary_codepoints-IsStripped_example =
    strip_boundary_codepoints-IsStripped (codes "..ab,") is_punctuation is_punctuation 1 5
      (omega arith) (omega arith)

label_3 : label_to_token_span (make_label_maps 2 true) (pos 3) ≡ some (token_span 1 0)
unfolding label_to_token_span make_label_maps add_rows add_row add_label
label_3 = refl

label_count : length (make_label_maps 2 true).label_to_selection ≡ 6
unfolding make_label_maps add_rows add_row add_label
label_count = refl

token_span_to_label-label_example :
    (l : ℕ) × (r : ℕ) × (is_label 2 true l r ≡ true)
    × (label_to_token_span (make_label_maps 2 true) (pos 3) ≡ some (token_span l r))
    × (token_span_to_label (make_label_maps 2 true) (token_span l r) ≡ pos 3)
token_span_to_label-label_example = token_span_to_label-label 2 true 3 (omega (arith, label_count))

label_to_token_span-token_span_example :
    label_to_token_span
      (make_label_maps 2 true)
      (token_span_to_label (make_label_maps 2 true) (token_span 0 2))
    ≡ some (token_span 0 2)
label_to_token_span-token_span_example =
    label_to_token_span-token_span 2 true 0 2 (omega arith) (omega arith) refl

abbrev words : List Token
words =
    make_token (codes "call") (pos 0) (pos 4)
    ∷ make_token (codes "(857)") (pos 5) (pos 10)
    ∷ make_token (codes "now") (pos 11) (pos 14)
    ∷ []

codepoint_span_to_token_span-cover_example :
    IsMiss words false (span 5 14) 3 (codepoint_span_to_token_span words (span 5 14) false)
    ⊎ IsHit words false (span 5 14) 3 (codepoint_span_to_token_span words (span 5 14) false)
codepoint_span_to_token_span-cover_example =
    codepoint_span_to_token_span-cover words false (span 5 14)

center_token_from_click-Click_example :
    Click words (span 6 9) (center_token_from_click words (span 6 9))
center_token_from_click-Click_example = center_token_from_click-Click words (span 6 9)

center_token_from_middle_of_selection-middle_example :
    ((center_token_from_middle_of_selection words (span 0 14) ≡ invalid_index)
      × ((k : ℕ) → k < 3 → selected words false (span 0 14) k ≡ false))
    ⊎ ((i : ℕ) × (j : ℕ) × (i ≤ j)
        × (j < 3)
        × (selected words false (span 0 14) i ≡ true)
        × (selected words false (span 0 14) j ≡ true)
        × ((k : ℕ) → k < 3 → selected words false (span 0 14) k ≡ true → (i ≤ k) × (k ≤ j))
        × (center_token_from_middle_of_selection words (span 0 14) ≡ pos ((i + j) / 2)))
center_token_from_middle_of_selection-middle_example =
    center_token_from_middle_of_selection-middle words (span 0 14)

-- Six tokens, the clicked one at 3; one is needed on each side.
abbrev six : Window
six = record { tokens = words ++ words; click_pos = 3 }

strip_or_pad_tokens-window_example :
    ((strip_or_pad_tokens 0 0 1 six).click_pos ≡ 1)
    × (get_or (strip_or_pad_tokens 0 0 1 six).tokens 1 padding_token
        ≡ make_token (codes "call") (pos 0) (pos 4))
    × (length (strip_or_pad_tokens 0 0 1 six).tokens ≡ 1 + 3)
strip_or_pad_tokens-window_example =
    strip_or_pad_tokens-window 0 0 1 six (omega arith) (omega arith) (omega arith)
