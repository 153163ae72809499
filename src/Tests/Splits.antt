-- ===== src/Tests/Splits.antt =====
-- Tokens that the bounds of a selection split.
use external_libtextclassifi.Prelude.{pos, List, [], ◌∷◌, ◌≡◌, refl, arith, ◌+ℤ◌, ◌-ℤ◌}
use external_libtextclassifi.Span.{CodepointSpan}
use external_libtextclassifi.Token.{Token, make_token}
use external_libtextclassifi.Features.Splits.{
  cuts, split_start, split_end, add_rest, pieces, split_token, split_tokens_on_selection_boundaries,
}
use external_libtextclassifi.Features.Splits.Cut.{
  IsSplit, split_tokens_on_selection_boundaries-IsSplit,
}

abbrev two_words : List Token
two_words =
    make_token (1 ∷ 2 ∷ 3 ∷ 4 ∷ []) (pos 0) (pos 4) ∷ make_token (5 ∷ 6 ∷ []) (pos 5) (pos 7) ∷ []

-- From the second codepoint of the first word to the second of the second word.
abbrev across : CodepointSpan
across = record { first = pos 1; second = pos 6 }

four_pieces :
    split_tokens_on_selection_boundaries across two_words
    ≡ make_token (1 ∷ []) (pos 0) (pos 1)
      ∷ make_token (2 ∷ 3 ∷ 4 ∷ []) (pos 1) (pos 4)
      ∷ make_token (5 ∷ []) (pos 5) (pos 6)
      ∷ make_token (6 ∷ []) (pos 6) (pos 7)
      ∷ []
unfolding cuts split_start split_end add_rest pieces split_token
    split_tokens_on_selection_boundaries ◌+ℤ◌ ◌-ℤ◌
four_pieces = refl

split_tokens_on_selection_boundaries-IsSplit_example :
    IsSplit 1 6 two_words (split_tokens_on_selection_boundaries across two_words)
split_tokens_on_selection_boundaries-IsSplit_example =
    split_tokens_on_selection_boundaries-IsSplit 1 6 (omega arith) two_words (
      record { a = 0; start_at = refl; end_at = refl },
      (record { a = 5; start_at = refl; end_at = refl }, tt),
    )
