-- ===== src/Brackets.antt =====
-- native/annotator/strip-unpaired-brackets.cc: a bracket at an end of the span goes, if its pair is not in it.
pub mod Bounds
use external_libtextclassifi.Prelude.{
  ℕ, zero, suc, ◌-◌, ℤ, pos, pos_part, ◌+ℤ◌, ◌-ℤ◌, eqb_ℤ, ltb_ℤ, Bool, true, false, not, ◌||◌, List,
  [], ◌∷◌, ◌==◌, if◌then◌else◌,
}
use external_libtextclassifi.Span.{CodepointSpan, valid_non_empty_span}
use external_libtextclassifi.Text.{UnicodeText, at, is_empty, substring, UniLib}

-- `std::find` between two iterators.
unfoldable pub find : ℕ → List ℕ → Bool
find codepoint [] = false
find codepoint (c ∷ text) = c == codepoint || find codepoint text

unfoldable pub is_codepoint_in_span : ℕ → UnicodeText → CodepointSpan → Bool
unfolding find
is_codepoint_in_span codepoint context span =
    find codepoint (substring context (pos_part span.first) (pos_part span.second))

abbrev pub first_span_codepoint : UnicodeText → CodepointSpan → ℕ
first_span_codepoint context span = at context (pos_part span.first)

abbrev pub last_span_codepoint : UnicodeText → CodepointSpan → ℕ
last_span_codepoint context span = at context (pos_part span.second - 1)

-- "Should not happen, but let's make sure."
unfoldable pub not_inverse : CodepointSpan → CodepointSpan
not_inverse span =
    if ltb_ℤ span.second span.first then record span { second = span.first } else span

module _ (unilib : UniLib) (context : UnicodeText) where
  -- The bracket at the front.
  unfoldable pub strip_begin : CodepointSpan → CodepointSpan
  strip_begin span =
      let begin_char = first_span_codepoint context span in
      let paired_begin_char = unilib.get_paired_bracket begin_char in
      if not (paired_begin_char == begin_char)
      then (if not (unilib.is_opening_bracket begin_char)
            || not (is_codepoint_in_span paired_begin_char context span)
          then record span { first = span.first +ℤ pos 1 }
          else span)
      else span

  -- The bracket at the back.
  unfoldable pub strip_end : CodepointSpan → CodepointSpan
  strip_end span =
      let end_char = last_span_codepoint context span in
      let paired_end_char = unilib.get_paired_bracket end_char in
      if not (paired_end_char == end_char)
      then (if not (unilib.is_closing_bracket end_char)
            || not (is_codepoint_in_span paired_end_char context span)
          then record span { second = span.second -ℤ pos 1 }
          else span)
      else span

  unfoldable pub strip_unpaired_brackets : CodepointSpan → CodepointSpan
  strip_unpaired_brackets span =
      if is_empty context || not (valid_non_empty_span span)
      then span
      else (let span' = strip_begin span in
          if eqb_ℤ span'.first span'.second then span' else not_inverse (strip_end span'))
