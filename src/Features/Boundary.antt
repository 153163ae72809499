-- ===== src/Features/Boundary.antt =====
-- native/annotator/feature-processor.cc, `CountIgnoredSpanBoundaryCodepoints` and `StripBoundaryCodepoints`:
-- punctuation at the ends of a span. A set of codepoints is its membership test.
pub mod Trim
use external_libtextclassifi.Prelude.{
  ℕ, zero, suc, ◌+◌, ◌-◌, pos, pos_part, ◌+ℤ◌, ◌-ℤ◌, ltb_ℤ, eqb_ℤ, Bool, true, false, not, ◌&&◌,
  ◌||◌, ◌==◌, length, if◌then◌else◌,
}
use external_libtextclassifi.Span.{CodepointSpan, valid_non_empty_span}
use external_libtextclassifi.Text.{UnicodeText, at, is_empty, substring}

module _ (text : UnicodeText) (ignored : ℕ → Bool) where
  -- The loop with `++it`: `n` codepoints are left from `it` on.
  unfoldable pub count_forward : ℕ → ℕ → ℕ
  count_forward zero it = 0
  count_forward (suc n) it = if ignored (at text it) then suc (count_forward n (suc it)) else 0

  -- The loop with `--it`: `n` codepoints are left from `start` on, and `it` is at the last of them.
  unfoldable pub count_backward : ℕ → ℕ → ℕ
  count_backward zero start = 0
  count_backward (suc n) start =
      if ignored (at text (start + n)) then suc (count_backward n start) else 0

  -- `CountIgnoredSpanBoundaryCodepoints`
  unfoldable pub count_ignored : ℕ → ℕ → Bool → ℕ
  count_ignored span_start span_end count_from_beginning =
      if span_start == span_end
      then 0
      else if count_from_beginning
      then count_forward (span_end - span_start) span_start
      else count_backward (span_end - span_start) span_start

-- The span without what the two counts skip; an empty span at its start, if nothing is left.
unfoldable pub shrink : CodepointSpan → ℕ → ℕ → CodepointSpan
shrink span start_offset end_offset =
    let first = span.first +ℤ pos start_offset in
    let second = span.second -ℤ pos end_offset in
    if ltb_ℤ first second
    then record { first = first; second = second }
    else record { first = span.first; second = span.first }

module _ (text : UnicodeText) (ignored_prefix ignored_suffix : ℕ → Bool) where
  -- `StripBoundaryCodepoints` between two iterators
  unfoldable pub strip_between : ℕ → ℕ → CodepointSpan → CodepointSpan
  strip_between span_begin span_end span =
      if not (valid_non_empty_span span) || span_begin == span_end
      then span
      else shrink span (count_ignored text ignored_prefix span_begin span_end true)
          (count_ignored text ignored_suffix span_begin span_end false)

  -- `StripBoundaryCodepoints` of a context
  unfoldable pub strip_boundary_codepoints : CodepointSpan → CodepointSpan
  strip_boundary_codepoints span =
      if is_empty text || not (valid_non_empty_span span)
      then span
      else strip_between (pos_part span.first) (pos_part span.second) span

-- `StripBoundaryCodepoints` of a value: the span of the whole value, and the value inside of it.
unfoldable pub strip_value : (ℕ → Bool) → UnicodeText → UnicodeText
unfolding strip_boundary_codepoints
strip_value ignored value =
    let stripped =
      strip_boundary_codepoints value ignored ignored
        (record { first = pos 0; second = pos (length value) }) in
    if eqb_ℤ stripped.first (pos 0) && eqb_ℤ stripped.second (pos (length value))
    then value
    else substring value (pos_part stripped.first) (pos_part stripped.second)
