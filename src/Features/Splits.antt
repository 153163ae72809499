-- ===== src/Features/Splits.antt =====
-- native/annotator/feature-processor.cc, `SplitTokensOnSelectionBoundaries`. An iterator into the value of a
-- token is its position.
pub mod Cut
pub mod Parts
use external_libtextclassifi.Prelude.{
  ℕ, ℤ, pos, pos_part, ◌+ℤ◌, ◌-ℤ◌, ltb_ℤ, eqb_ℤ, Bool, true, false, ◌&&◌, List, [], ◌∷◌, ◌++◌,
  length, if◌then◌else◌,
}
use external_libtextclassifi.Span.{CodepointSpan}
use external_libtextclassifi.Text.{UnicodeText, is_empty, substring}
use external_libtextclassifi.Token.{Token, make_token}

-- The position lies inside of the token.
unfoldable pub cuts : ℤ → Token → Bool
cuts position token = ltb_ℤ token.start position && ltb_ℤ position token.end

-- The variables up to the loop over the split points.
pub record SplitPoints : Type 0 where
  pub last_start : ℤ
  pub last_start_index : ℤ
  pub split_points : List ℤ

-- "Selection start split point."
unfoldable pub split_start : CodepointSpan → Token → SplitPoints
split_start selection token =
    if cuts selection.first token
    then record {
      last_start = selection.first -ℤ token.start;
      last_start_index = selection.first;
      split_points = (selection.first -ℤ token.start) ∷ [];
    }
    else record { last_start = pos 0; last_start_index = token.start; split_points = [] }

-- "Selection end split point."
unfoldable pub split_end : CodepointSpan → Token → SplitPoints → List ℤ
split_end selection token s =
    if cuts selection.second token
    then s.split_points ++ (s.last_start +ℤ (selection.second -ℤ s.last_start_index)) ∷ []
    else s.split_points

-- The final split for the rest of the token, unless the last one is its end.
unfoldable pub add_rest : ℕ → List ℤ → List ℤ
add_rest n [] = pos n ∷ []
add_rest n (p ∷ []) = if eqb_ℤ p (pos n) then p ∷ [] else p ∷ pos n ∷ []
add_rest n (p ∷ q ∷ points) = p ∷ add_rest n (q ∷ points)

-- `replacement_tokens`
unfoldable pub pieces : UnicodeText → List ℤ → ℤ → ℤ → List Token
pieces value [] last_start current_pos = []
pieces value (split_point ∷ points) last_start current_pos =
    let end = current_pos +ℤ (split_point -ℤ last_start) in
    make_token (substring value (pos_part last_start) (pos_part split_point)) current_pos end
    ∷ pieces value points split_point end

unfoldable pub split_token : CodepointSpan → Token → List Token
split_token selection token =
    let points = split_end selection token (split_start selection token) in
    if is_empty points
    then token ∷ []
    else pieces token.value (add_rest (length token.value) points) (pos 0) token.start

-- `SplitTokensOnSelectionBoundaries`
unfoldable pub split_tokens_on_selection_boundaries : CodepointSpan → List Token → List Token
split_tokens_on_selection_boundaries selection [] = []
split_tokens_on_selection_boundaries selection (token ∷ tokens) =
    split_token selection token ++ split_tokens_on_selection_boundaries selection tokens
