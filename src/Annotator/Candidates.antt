-- ===== src/Annotator/Candidates.antt =====
-- native/annotator/annotator.cc, `ModelBoundsSensitiveScoreChunks`: the token spans that are scored, and
-- the batches in which the model scores them. Features and inference are a parameter, a function from
-- a batch to its logits that is `none` where these are not valid.
pub mod Exact
pub mod Batches
use external_libtextclassifi.Prelude.{
  ℕ, zero, suc, ◌+◌, ◌-◌, ◌*◌, max, min, Bool, true, false, not, ◌&&◌, List, [], ◌∷◌, ◌++◌, Option,
  none, some, ◌>>=◌, ltb, leb, ◌==◌, if◌then◌else◌, length, take, drop,
}

-- A `TokenSpan` of tokens that exist: its bounds are not below 0.
pub record TokenRange : Type 0 where
  pub first : ℕ
  pub second : ℕ

pub record ScoredChunk (Score : Type 0) : Type 0 where
  pub token_span : TokenRange
  pub score : Score

unfoldable pub token_spans : {Score : Type 0} → List (ScoredChunk Score) → List TokenRange
token_spans [] = []
token_spans (c ∷ cs) = c.token_span ∷ token_spans cs

-- What the first loop of the function fills.
pub record Listed : Type 0 where
  -- the single tokens that get a score of zero
  pub singles : List TokenRange
  pub candidate_spans : List TokenRange

module _ (span_of_interest inference_span : TokenRange) (max_chunk_length : ℕ)
    (score_single_token_spans_as_zero : Bool) where
  -- The body of the inner loop.
  unfoldable pub list_span : ℕ → ℕ → Listed → Listed
  list_span start end listed =
      if score_single_token_spans_as_zero && end - start == 1
      then record listed { singles = listed.singles ++ record { first = start; second = end } ∷ [] }
      else record listed {
        candidate_spans = listed.candidate_spans ++ record { first = start; second = end } ∷ [];
      }

  -- The inner loop, which has at most `n` rounds left.
  unfoldable pub list_ends : ℕ → ℕ → ℕ → Listed → Listed
  list_ends zero start end listed = listed
  list_ends (suc n) start end listed =
      elim (leb end inference_span.second && leb (end - start) max_chunk_length) [
        | true ↦ list_ends n start (suc end) (list_span start end listed)
        | false ↦ listed
      ]

  -- The outer loop, which has `n` rounds left.
  unfoldable pub list_starts : ℕ → ℕ → Listed → Listed
  list_starts zero start listed = listed
  list_starts (suc n) start listed =
      let leftmost_end_index = max start span_of_interest.first + 1 in
      list_starts n (suc start)
        (list_ends (suc inference_span.second - leftmost_end_index) start leftmost_end_index listed)

  unfoldable pub list_candidates : Listed
  list_candidates =
      list_starts (span_of_interest.second - inference_span.first) inference_span.first
        (record { singles = []; candidate_spans = [] })

module _ {Score : Type 0} (compute_logits : List TokenRange → Option (List Score))
    (max_batch_size : ℕ) where
  -- "Save results."
  unfoldable pub save_results : List TokenRange → List Score → List (ScoredChunk Score)
  save_results [] logits = []
  save_results (span ∷ spans) [] = []
  save_results (span ∷ spans) (logit ∷ logits) =
      record { token_span = span; score = logit } ∷ save_results spans logits

  -- One batch; `none` is "Couldn't compute logits." or "Mismatching output."
  unfoldable pub score_batch : List TokenRange → Option (List (ScoredChunk Score))
  score_batch batch = do
    logits ← compute_logits batch
    if length logits == length batch then some (save_results batch logits) else none

  -- The loop over the batches, on fuel. The outer `none` is no more fuel.
  unfoldable pub score_batches :
      ℕ → List TokenRange → List (ScoredChunk Score) → Option (Option (List (ScoredChunk Score)))
  score_batches fuel [] scored_chunks = some (some scored_chunks)
  score_batches zero (span ∷ spans) scored_chunks = none
  score_batches (suc fuel) (span ∷ spans) scored_chunks =
      elim (score_batch (take max_batch_size (span ∷ spans))) [
        | none ↦ some none
        | some new ↦ score_batches fuel (drop max_batch_size (span ∷ spans)) (scored_chunks ++ new)
      ]

-- The longest chunk that the labels can express.
unfoldable pub max_chunk_length : ℕ → Bool → ℕ
max_chunk_length max_selection_span selection_reduced_output_space =
    if selection_reduced_output_space then max_selection_span + 1 else 2 * max_selection_span + 1

-- The options of the feature processor and of the selection model that the scoring reads.
pub record ChunkOptions : Type 0 where
  pub max_selection_span : ℕ
  pub selection_reduced_output_space : Bool
  pub score_single_token_spans_as_zero : Bool
  pub batch_size : ℕ

module _ {Score : Type 0} (options : ChunkOptions) (zero_score : Score)
    (compute_logits : List TokenRange → Option (List Score)) where
  unfoldable pub zero_scores : List TokenRange → List (ScoredChunk Score)
  zero_scores [] = []
  zero_scores (span ∷ spans) = record { token_span = span; score = zero_score } ∷ zero_scores spans

  -- `ModelBoundsSensitiveScoreChunks`; a batch holds a span at least, so their number is fuel enough.
  unfoldable pub model_bounds_sensitive_score_chunks :
      TokenRange → TokenRange → Option (Option (List (ScoredChunk Score)))
  model_bounds_sensitive_score_chunks span_of_interest inference_span =
      let listed =
        list_candidates span_of_interest inference_span
          (max_chunk_length options.max_selection_span options.selection_reduced_output_space)
          options.score_single_token_spans_as_zero in
      score_batches compute_logits options.batch_size (length listed.candidate_spans)
        listed.candidate_spans (zero_scores listed.singles)
