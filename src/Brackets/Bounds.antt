-- ===== src/Brackets/Bounds.antt =====
-- Stripping brackets stays inside the span, and keeps a span that is in brackets as it is.
use external_libtextclassifi.Prelude.{
  ℕ, ◌-◌, ◌≤◌, ◌<◌, pos, pos_part, ◌+ℤ◌, ◌-ℤ◌, ◌≤ℤ◌, ◌<ℤ◌, true, false, not, ◌||◌, List, [], ◌∷◌,
  ◌≡◌, arith, if◌then◌else◌, Bool-cases, inl, inr, length, get_or, take, drop, length-take,
  length-drop, get_or-take, get_or-drop, ap, ◌∙◌, zero, suc, pos_part-lt, pos_part-le, eqb_ℤ,
}
use external_libtextclassifi.Span.{CodepointSpan, valid_non_empty_span}
use external_libtextclassifi.Text.{UnicodeText, at, is_empty, IsInside, UniLib}
use external_libtextclassifi.Brackets.{
  find, is_codepoint_in_span, first_span_codepoint, last_span_codepoint, strip_begin, strip_end,
  not_inverse, strip_unpaired_brackets,
}

-- A part of the span that leaves out at most one codepoint at each end.
pub record IsTrimmed (span result : CodepointSpan) : Type 0 where
  pub first_lo : span.first ≤ℤ result.first
  pub first_hi : result.first ≤ℤ span.first +ℤ pos 1
  pub in_order : result.first ≤ℤ result.second
  pub second_lo : span.second ≤ℤ result.second +ℤ pos 1
  pub second_hi : result.second ≤ℤ span.second

find-get_or : (c k : ℕ) (xs : List ℕ) → k < length xs → get_or xs k 0 ≡ c → find c xs ≡ true
unfolding find
find-get_or c k [] h e = absurd (omega arith)
find-get_or c zero (x ∷ xs) h e = ground arith
find-get_or c (suc k) (x ∷ xs) h e = ground (arith, find-get_or c k xs)

-- A codepoint at a position in the span is found.
in_span :
    (context : UnicodeText) (span : CodepointSpan) (k : ℕ)
    → pos_part span.first ≤ k
    → k < pos_part span.second
    → pos_part span.second ≤ length context
    → is_codepoint_in_span (at context k) context span ≡ true
unfolding is_codepoint_in_span
in_span context span k lo hi fits =
    let f = pos_part span.first in
    let s = pos_part span.second in
    find-get_or (at context k) (k - f) (take (s - f) (drop f context))
      (omega (arith, length-take {0} (s - f) (drop f context), length-drop {0} f context))
      (get_or-take (s - f) (k - f) (drop f context) 0 (omega arith)
        ∙ get_or-drop f (k - f) context 0
        ∙ ap (at context) (omega arith))

trim_both :
    (span s e : CodepointSpan)
    → span.first <ℤ span.second
    → (span.first ≤ℤ s.first) × (s.first ≤ℤ span.first +ℤ pos 1) × (s.second ≡ span.second)
    → (e.first ≡ s.first) × (s.second ≤ℤ e.second +ℤ pos 1) × (e.second ≤ℤ s.second)
    → IsTrimmed span (if eqb_ℤ s.first s.second then s else not_inverse e)
unfolding not_inverse ◌+ℤ◌
trim_both span s e h b c = ground arith

valid-lt :
    (context : UnicodeText) (span : CodepointSpan)
    → (is_empty context || not (valid_non_empty_span span)) ≡ false
    → span.first <ℤ span.second
unfolding valid_non_empty_span
valid-lt context span h = ground arith

trim_none : (span : CodepointSpan) → span.first ≤ℤ span.second → IsTrimmed span span
unfolding ◌+ℤ◌
trim_none span h = ground arith

module _ (unilib : UniLib) (context : UnicodeText) where
  strip_begin-bounds :
      (span : CodepointSpan)
      → (span.first ≤ℤ (strip_begin unilib context span).first)
        × ((strip_begin unilib context span).first ≤ℤ span.first +ℤ pos 1)
        × ((strip_begin unilib context span).second ≡ span.second)
  unfolding strip_begin ◌+ℤ◌
  strip_begin-bounds span = ground arith

  strip_end-bounds :
      (span : CodepointSpan)
      → ((strip_end unilib context span).first ≡ span.first)
        × (span.second ≤ℤ (strip_end unilib context span).second +ℤ pos 1)
        × ((strip_end unilib context span).second ≤ℤ span.second)
  unfolding strip_end ◌+ℤ◌ ◌-ℤ◌
  strip_end-bounds span = ground arith

  -- The result is a part of the span, and it leaves out at most one codepoint at each end.
  pub strip_unpaired_brackets-IsTrimmed :
      (span : CodepointSpan)
      → span.first ≤ℤ span.second
      → IsTrimmed span (strip_unpaired_brackets unilib context span)
  unfolding strip_unpaired_brackets
  strip_unpaired_brackets-IsTrimmed span h =
      elim (Bool-cases (is_empty context || not (valid_non_empty_span span))) [
        | inl e ↦ rw e (trim_none span h)
        | inr e ↦
            let s = strip_begin unilib context span in
            rw e (
              trim_both span s (strip_end unilib context s) (valid-lt context span e)
                (strip_begin-bounds span) (strip_end-bounds s))
      ]

  begin_kept :
      (span : CodepointSpan)
      → unilib.is_opening_bracket (first_span_codepoint context span) ≡ true
      → is_codepoint_in_span
          (unilib.get_paired_bracket (first_span_codepoint context span))
          context
          span
        ≡ true
      → strip_begin unilib context span ≡ span
  unfolding strip_begin
  begin_kept span h k = rw (h, k) (ground arith)

  end_kept :
      (span : CodepointSpan)
      → unilib.is_closing_bracket (last_span_codepoint context span) ≡ true
      → is_codepoint_in_span
          (unilib.get_paired_bracket (last_span_codepoint context span))
          context
          span
        ≡ true
      → strip_end unilib context span ≡ span
  unfolding strip_end
  end_kept span h k = rw (h, k) (ground arith)

  strip_kept :
      (span : CodepointSpan)
      → span.first <ℤ span.second
      → strip_begin unilib context span ≡ span
      → strip_end unilib context span ≡ span
      → strip_unpaired_brackets unilib context span ≡ span
  unfolding strip_unpaired_brackets not_inverse
  strip_kept span h b e = rw b (rw e (ground arith))

  -- A span of the text that begins with an opening bracket and ends with the closing bracket which
  -- is its pair, and has it for its pair, is left as it is.
  pub strip_unpaired_brackets-paired :
      (span : CodepointSpan)
      → IsInside context span
      → span.first <ℤ span.second
      → unilib.is_opening_bracket (first_span_codepoint context span) ≡ true
      → unilib.is_closing_bracket (last_span_codepoint context span) ≡ true
      → unilib.get_paired_bracket (first_span_codepoint context span)
        ≡ last_span_codepoint context span
      → unilib.get_paired_bracket (last_span_codepoint context span)
        ≡ first_span_codepoint context span
      → strip_unpaired_brackets unilib context span ≡ span
  strip_unpaired_brackets-paired span inside lt opens closes p q =
      let less = pos_part-lt span.first span.second inside.0 lt in
      let fits = pos_part-le span.second (length context) inside.2 in
      strip_kept span lt
        (begin_kept span opens
          (rw p (in_span context span (pos_part span.second - 1) (omega arith) (omega arith) fits)))
        (end_kept span closes
          (rw q (in_span context span (pos_part span.first) (omega arith) less fits)))
