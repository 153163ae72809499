-- ===== src/Tests/Chunks.antt =====
-- The selection model's spans and chunks for seven tokens, around the tokens 2 and 3.
use external_libtextclassifi.Prelude.{
  ℕ, suc, Bool, true, List, [], ◌∷◌, ◌≡◌, refl, ◌⊎◌, arith, All, Pairwise, Option, none, some, ltb,
  sort, map, ◌-ℤ◌, ◌+ℤ◌,
}
use external_libtextclassifi.Token.{expand_token_span, intersect_token_spans}
use external_libtextclassifi.Annotator.Candidates.{
  TokenRange, ScoredChunk, token_spans, ChunkOptions, list_span, list_ends, list_starts,
  list_candidates, max_chunk_length, save_results, score_batch, score_batches, zero_scores,
  model_bounds_sensitive_score_chunks,
}
use external_libtextclassifi.Annotator.Candidates.Exact.{
  IsCandidate, AreCandidates, Has, list_candidates-AreCandidates,
}
use external_libtextclassifi.Annotator.Candidates.Batches.{
  listed_spans, Scores, AreRefused, model_bounds_sensitive_score_chunks-Scores,
}
use external_libtextclassifi.Annotator.Chunks.{
  inference_span, any_used, mark_used, pick_chunk, pick_chunks, span_less, by_score, select_chunks,
  model_chunk,
}
use external_libtextclassifi.Annotator.Chunks.Greedy.{IsInside, Settled}
use external_libtextclassifi.Annotator.Chunks.Ordered.{Before}
use external_libtextclassifi.Annotator.Chunks.Composed.{scorer, IsScored, model_chunk-Chunks}

abbrev range : ℕ → ℕ → TokenRange
range first second = record { first = first; second = second }

abbrev interest : TokenRange
interest = range 2 4

abbrev options : ChunkOptions
options = record {
  max_selection_span = 1;
  selection_reduced_output_space = true;
  score_single_token_spans_as_zero = true;
  batch_size = 2;
}

-- A model that prefers spans that begin late.
abbrev late : List TokenRange → Option (List ℕ)
late spans = some (map (λ s. suc s.first) spans)

bounds : inference_span 7 interest 1 ≡ range 1 5
unfolding inference_span expand_token_span intersect_token_spans ◌-ℤ◌ ◌+ℤ◌
bounds = refl

listed : list_candidates interest (range 1 5) 2 true ≡ record {
  singles = range 2 3 ∷ range 3 4 ∷ [];
  candidate_spans = range 1 3 ∷ range 2 4 ∷ range 3 5 ∷ [];
}
unfolding list_candidates list_starts list_ends list_span
listed = refl

chunks :
    model_chunk (λ a b. ltb b a) 7 interest 1 (scorer (λ a b. ltb b a) 0 options late interest)
    ≡ some (range 1 3 ∷ range 3 5 ∷ [])
unfolding model_chunk inference_span expand_token_span intersect_token_spans ◌-ℤ◌ ◌+ℤ◌ select_chunks
    by_score span_less pick_chunks pick_chunk any_used mark_used token_spans sort
    model_bounds_sensitive_score_chunks zero_scores score_batches score_batch save_results
    max_chunk_length list_candidates list_starts list_ends list_span
chunks = refl

list_candidates-AreCandidates_example :
    AreCandidates interest (range 1 5) 2 true (list_candidates interest (range 1 5) 2 true)
    × ((span : TokenRange)
        → IsCandidate interest (range 1 5) 2 true span
        → Has interest
            (range 1 5)
            2
            true
            span.first
            span.second
            (list_candidates interest (range 1 5) 2 true))
list_candidates-AreCandidates_example =
    list_candidates-AreCandidates interest (range 1 5) 2 true (omega arith)

model_bounds_sensitive_score_chunks-Scores_example :
    (result : Option (List (ScoredChunk ℕ))) × (model_bounds_sensitive_score_chunks options 0 late
        interest
        (range 1 5)
      ≡ some result)
    × (singles : List (ScoredChunk ℕ)) × (token_spans singles
        ≡ (listed_spans options 0 late interest (range 1 5)).singles)
    × All (λ c. c.score ≡ 0) singles
    × Scores late 2 singles
        (listed_spans options 0 late interest (range 1 5)).candidate_spans
        result
model_bounds_sensitive_score_chunks-Scores_example =
    model_bounds_sensitive_score_chunks-Scores options 0 late interest (range 1 5) (omega arith)

abbrev greater : ℕ → ℕ → Bool
greater a b = ltb b a

model_chunk-Chunks_example :
    ((model_chunk greater 7 interest 1 (scorer greater 0 options late interest) ≡ none)
      × AreRefused late 2
          (listed_spans options 0 late interest (inference_span 7 interest 1)).candidate_spans)
    ⊎ ((found : List TokenRange) × (model_chunk greater 7 interest 1
            (scorer greater 0 options late interest)
          ≡ some found)
        × Pairwise Before found
        × All (IsInside (inference_span 7 interest 1)) found
        × ((s : TokenRange)
            → IsScored greater 0 options late interest (inference_span 7 interest 1) s
            → Settled s found))
model_chunk-Chunks_example =
    model_chunk-Chunks greater 0 options late interest 7 (omega arith) (omega arith)
