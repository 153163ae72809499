-- ===== src/Features/Clicks.antt =====
-- native/annotator/feature-processor.cc: from a span of codepoints to tokens (`CodepointSpanToTokenSpan`),
-- and the clicked token (`CenterTokenFromClick`, `CenterTokenFromMiddleOfSelection`,
-- `FindCenterToken`).
pub mod Cover
pub mod Center
use external_libtextclassifi.Prelude.{
  ℕ, zero, suc, ◌+◌, ◌-◌, ◌/◌, ℤ, pos, negsuc, ◌+ℤ◌, ◌-ℤ◌, ltb_ℤ, leb_ℤ, eqb_ℤ, Bool, true, false,
  not, ◌&&◌, ◌||◌, List, [], ◌∷◌, ltb, if◌then◌else◌, length, get_or,
}
use external_libtextclassifi.Span.{CodepointSpan, invalid_index}
use external_libtextclassifi.Token.{Token, TokenSpan, padding_token}

abbrev pub token_at : List Token → ℕ → Token
token_at tokens i = get_or tokens i padding_token

abbrev pub no_tokens : TokenSpan
no_tokens = record { first = invalid_index; second = invalid_index }

-- `is_token_in_span`, for a token that is not padding
unfoldable pub is_selected : Bool → CodepointSpan → Token → Bool
is_selected snap_boundaries_to_containing_tokens span token =
    (if snap_boundaries_to_containing_tokens
      then ltb_ℤ span.first token.end && ltb_ℤ token.start span.second
      else leb_ℤ span.first token.start && leb_ℤ token.end span.second)
    && not token.is_padding

abbrev pub contains_span : CodepointSpan → Token → Bool
contains_span span token = leb_ℤ token.start span.first && leb_ℤ span.second token.end

-- Division by two of an `int`, towards zero.
abbrev pub half : ℤ → ℤ
half (pos n) = pos (n / 2)
half (negsuc n) = pos 0 -ℤ pos (suc n / 2)

module _ (tokens : List Token) where
  -- The loop of `CodepointSpanToTokenSpan`, with `n` rounds left.
  unfoldable pub cover : ℕ → ℕ → Bool → CodepointSpan → TokenSpan → TokenSpan
  cover zero i snap span found = found
  cover (suc n) i snap span found = cover n (suc i) snap span (
      if is_selected snap span (token_at tokens i)
      then record {
        first = if eqb_ℤ found.first invalid_index then pos i else found.first;
        second = pos (suc i);
      }
      else found)

  -- `CodepointSpanToTokenSpan`
  unfoldable pub codepoint_span_to_token_span : CodepointSpan → Bool → TokenSpan
  codepoint_span_to_token_span span snap = cover (length tokens) 0 snap span no_tokens

  -- The loop of `FindTokenThatContainsSpan`, with `n` rounds left.
  unfoldable pub find_from : ℕ → ℕ → CodepointSpan → ℤ
  find_from zero i span = invalid_index
  find_from (suc n) i span =
      let rest = find_from n (suc i) span in
      if contains_span span (token_at tokens i) then pos i else rest

  unfoldable pub find_token_that_contains_span : CodepointSpan → ℤ
  find_token_that_contains_span = find_from (length tokens) 0

  -- The range of the click, widened to a token that contains it if no token lies in it.
  unfoldable pub click_range : CodepointSpan → TokenSpan
  click_range span =
      let range = codepoint_span_to_token_span span false in
      let token_index = find_token_that_contains_span span in
      if eqb_ℤ range.first invalid_index || eqb_ℤ range.second invalid_index
      then (if not (eqb_ℤ token_index invalid_index)
          then record { first = token_index; second = token_index +ℤ pos 1 }
          else range)
      else range

  -- `CenterTokenFromClick`: only a click on exactly one token counts.
  unfoldable pub center_token_from_click : CodepointSpan → ℤ
  center_token_from_click span =
      let range = click_range span in
      if eqb_ℤ (range.second -ℤ range.first) (pos 1) then range.first else invalid_index

  -- `CenterTokenFromMiddleOfSelection`
  unfoldable pub center_token_from_middle_of_selection : CodepointSpan → ℤ
  center_token_from_middle_of_selection span =
      let range = codepoint_span_to_token_span span false in
      if not (eqb_ℤ range.first invalid_index) && not (eqb_ℤ range.second invalid_index)
      then half (range.first +ℤ range.second -ℤ pos 1)
      else invalid_index

-- `CenterTokenSelectionMethod` of the options, and a value that is none of them
pub data CenterMethod : Type 0 where
  from_click middle_of_selection default_method unknown_method : CenterMethod

-- `FindCenterToken`
unfoldable pub find_center_token : CenterMethod → Bool → CodepointSpan → List Token → ℤ
find_center_token from_click split span tokens = center_token_from_click tokens span
find_center_token middle_of_selection split span tokens =
    center_token_from_middle_of_selection tokens span
find_center_token default_method split span tokens =
    if not split
    then center_token_from_click tokens span
    else center_token_from_middle_of_selection tokens span
find_center_token unknown_method split span tokens = invalid_index
