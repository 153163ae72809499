-- ===== src/Tests/ClickScores.antt =====
-- The scores of the spans around the tokens 1 and 2 of three, with labels for one token and for two.
use external_libtextclassifi.Prelude.{
  ℕ, pos, ◌-ℤ◌, ◌+ℤ◌, List, [], ◌∷◌, Option, some, ◌≡◌, refl, arith, ltb, map,
}
use external_libtextclassifi.Token.{TokenSpan, expand_token_span}
use external_libtextclassifi.Annotator.Candidates.{TokenRange, ScoredChunk}
use external_libtextclassifi.Annotator.Chunks.{span_less}
use external_libtextclassifi.Annotator.Annotate.Settled.{IsScoreOrder}
use external_libtextclassifi.Annotator.Clicks.{
  clicks_from, max_score, update_max, candidate_span, add_label, add_labels, add_clicks, rows_fit,
  add_batch, add_batches, model_click_context_score_chunks,
}
use external_libtextclassifi.Annotator.Clicks.Updated.{Holds}
use external_libtextclassifi.Annotator.Clicks.Greatest.{
  IsClickModel, seen_clicks, model_click_context_score_chunks-Holds,
}

-- A label takes so many tokens more on the left.
abbrev span_of : ℕ → TokenSpan
span_of label = record { first = pos label; second = pos 0 }

abbrev scores_of : ℕ → List ℕ
scores_of click_pos = click_pos ∷ 5 ∷ []

abbrev compute : List ℕ → Option (List (List ℕ))
compute batch = some (map scores_of batch)

abbrev interest : TokenRange
interest = record { first = 1; second = 3 }

abbrev chunk : ℕ → ℕ → ℕ → ScoredChunk ℕ
chunk first second score = record {
  token_span = record { first = first; second = second };
  score = score;
}

abbrev label : ℕ → Option TokenSpan
label j = some (span_of j)

scored :
    model_click_context_score_chunks ltb 3 label compute 2 1 interest
    ≡ some (some (chunk 0 2 5 ∷ chunk 1 2 1 ∷ chunk 1 3 5 ∷ chunk 2 3 2 ∷ []))
unfolding model_click_context_score_chunks clicks_from add_batches add_batch rows_fit add_clicks
    add_labels add_label candidate_span expand_token_span ◌-ℤ◌ ◌+ℤ◌ update_max max_score span_less
scored = refl

order : IsScoreOrder (λ a b. ltb b a)
order = record { asymm = λ x y h. ground arith; trans = λ x y z h k. ground arith }

model : IsClickModel label compute 2 span_of scores_of
model = record { means = λ j lt. refl; scores = λ batch. refl; fits = λ c. refl }

model_click_context_score_chunks-Holds_example :
    (r : List (ScoredChunk ℕ)) × (model_click_context_score_chunks ltb 3 label compute 2 1 interest
      ≡ some (some r))
    × Holds ltb (seen_clicks ltb 3 span_of scores_of (clicks_from 2 1) []) r
model_click_context_score_chunks-Holds_example =
    model_click_context_score_chunks-Holds ltb 3 span_of scores_of order label compute 2 1 model
      interest (omega arith)
