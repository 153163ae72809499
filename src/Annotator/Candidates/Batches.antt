-- ===== src/Annotator/Candidates/Batches.antt =====
-- The batches of `ModelBoundsSensitiveScoreChunks` score every listed span once, in order.
use external_libtextclassifi.Prelude.{
  ℕ, zero, suc, ◌≤◌, ◌<◌, List, [], ◌∷◌, ◌++◌, ◌≡◌, refl, sym, ap, ◌∙◌, Option, none, some, ◌⊎◌,
  inl, inr, arith, All, ◌≢◌, Bool-cases, Option-cases, ◌==◌, length, take, drop, length-drop,
  take-append-drop, append_assoc, append-nil, ◌>>=◌,
}
use external_libtextclassifi.Annotator.Candidates.{
  TokenRange, ScoredChunk, token_spans, Listed, save_results, score_batch, score_batches,
  zero_scores, ChunkOptions, list_candidates, max_chunk_length, model_bounds_sensitive_score_chunks,
}

token_spans-none : (Score : Type 0) → token_spans {Score = Score} [] ≡ []
unfolding token_spans
token_spans-none Score = refl

module _ {Score : Type 0} where
  pub token_spans-append :
      (xs ys : List (ScoredChunk Score)) → token_spans (xs ++ ys) ≡ token_spans xs ++ token_spans ys
  unfolding token_spans
  token_spans-append [] ys = refl
  token_spans-append (x ∷ xs) ys = ap (λ s. x.token_span ∷ s) (token_spans-append xs ys)

  -- Each span with the score at its place.
  abbrev pub paired : List TokenRange → List Score → List (ScoredChunk Score)
  paired [] logits = []
  paired (span ∷ spans) [] = []
  paired (span ∷ spans) (logit ∷ logits) =
      record { token_span = span; score = logit } ∷ paired spans logits

  token_spans-paired :
      (spans : List TokenRange) (logits : List Score)
      → length logits ≡ length spans
      → token_spans (paired spans logits) ≡ spans
  unfolding token_spans
  token_spans-paired [] logits e = refl
  token_spans-paired (s ∷ spans) [] e = absurd (omega arith)
  token_spans-paired (s ∷ spans) (l ∷ logits) e =
      ap (λ r. s ∷ r) (token_spans-paired spans logits (omega arith))

module _ {Score : Type 0} (compute_logits : List TokenRange → Option (List Score)) (size : ℕ) where
  -- The model gives a batch one logit for each of its spans.
  abbrev pub IsAnswer : List TokenRange → List Score → Type 0
  IsAnswer batch logits = (compute_logits batch ≡ some logits) × (length logits ≡ length batch)

  -- It gives none, or another number of logits.
  abbrev pub Refuses : List TokenRange → Type 0
  Refuses batch =
      (compute_logits batch ≡ none)
      ⊎ ((logits : List Score) × (compute_logits batch ≡ some logits)
          × (length logits ≢ length batch))

  -- The spans are cut into batches, the last of which may be smaller, and each span has the logit at
  -- its place in the answer to its own batch.
  pub data AreScored : List TokenRange → List (ScoredChunk Score) → Type 0 where
    no_batch : AreScored [] []
    next_batch :
        {spans : List TokenRange} {logits : List Score} {scored : List (ScoredChunk Score)}
        → 0 < length spans
        → IsAnswer (take size spans) logits
        → AreScored (drop size spans) scored
        → AreScored spans (paired (take size spans) logits ++ scored)

  -- The model refuses one of these batches, after it has answered to those before.
  pub data AreRefused : List TokenRange → Type 0 where
    this_batch :
        {spans : List TokenRange} → 0 < length spans → Refuses (take size spans) → AreRefused spans
    later_batch :
        {spans : List TokenRange} {logits : List Score}
        → 0 < length spans
        → IsAnswer (take size spans) logits
        → AreRefused (drop size spans)
        → AreRefused spans

  save_results-paired :
      (spans : List TokenRange) (logits : List Score)
      → save_results compute_logits size spans logits ≡ paired spans logits
  unfolding save_results
  save_results-paired [] logits = refl
  save_results-paired (s ∷ spans) [] = refl
  save_results-paired (s ∷ spans) (l ∷ logits) =
      ap (λ r. record { token_span = s; score = l } ∷ r) (save_results-paired spans logits)

  score_batch-cases :
      (batch : List TokenRange)
      → ((score_batch compute_logits size batch ≡ none) × Refuses batch)
        ⊎ ((logits : List Score) × (score_batch compute_logits size batch
              ≡ some (paired batch logits))
            × IsAnswer batch logits)
  unfolding score_batch
  score_batch-cases batch = elim (Option-cases (compute_logits batch)) [
    | inl n ↦ inl (rw (n, ◌>>=◌) refl, inl n)
    | inr (logits, s) ↦ elim (Bool-cases (length logits == length batch)) [
      | inl e ↦ inr (
        logits,
        rw (s, ◌>>=◌, e) (ap (λ r. some r) (save_results-paired batch logits)),
        (s, ground arith),
      )
      | inr e ↦ inl (rw (s, ◌>>=◌, e) refl, inr (logits, s, λ same. ground arith))
    ]
  ]

  -- What the loop ends with: a refusal of the model, or all spans, scored.
  abbrev pub Scores :
      List (ScoredChunk Score) → List TokenRange → Option (List (ScoredChunk Score)) → Type 0
  Scores done spans result =
      ((result ≡ none) × AreRefused spans)
      ⊎ ((scored : List (ScoredChunk Score)) × (result ≡ some (done ++ scored))
          × (token_spans scored ≡ spans)
          × AreScored spans scored)

  score_batches-Scores :
      (fuel : ℕ) (spans : List TokenRange) (done : List (ScoredChunk Score))
      → 0 < size
      → length spans ≤ fuel
      → (result : Option (List (ScoredChunk Score))) × (score_batches compute_logits size fuel spans
            done
          ≡ some result)
        × Scores done spans result
  unfolding score_batches
  score_batches-Scores fuel [] done pos enough = (
    some done,
    refl,
    inr ([], ap (λ r. some r) (sym (append-nil done)), token_spans-none Score, no_batch),
  )
  score_batches-Scores zero (s ∷ spans) done pos enough = absurd (omega arith)
  score_batches-Scores (suc fuel) (s ∷ spans) done pos enough =
      let batch = take size (s ∷ spans) in
      let later = drop size (s ∷ spans) in
      let short : length later ≤ fuel = omega (arith, length-drop size (s ∷ spans)) in
      let some_span : 0 < length (s ∷ spans) = omega arith in
      elim (score_batch-cases batch) [
        | inl (n, refuses) ↦
            (none, rw (n, score_batches) refl, inl (refl, this_batch some_span refuses))
        | inr (logits, e, answer) ↦
            let new = paired batch logits in
            let (result, runs, all) = score_batches-Scores fuel later (done ++ new) pos short in
            (
              result,
              rw (e, score_batches) runs,
              elim all [
                | inl (failed, refused) ↦ inl (failed, later_batch some_span answer refused)
                | inr (scored, found, spelled, is) ↦ inr (
                  new ++ scored,
                  found ∙ ap (λ r. some r) (append_assoc done new scored),
                  token_spans-append new scored
                      ∙ ap (λ r. r ++ token_spans scored) (token_spans-paired batch logits answer.1)
                      ∙ ap (λ r. batch ++ r) spelled
                      ∙ take-append-drop size (s ∷ spans),
                  next_batch some_span answer is,
                )
              ],
            )
      ]

module _ {Score : Type 0} (options : ChunkOptions) (zero_score : Score)
    (compute_logits : List TokenRange → Option (List Score)) (interest inference : TokenRange) where
  token_spans-zero_scores :
      (spans : List TokenRange)
      → token_spans (zero_scores options zero_score compute_logits spans) ≡ spans
  unfolding token_spans zero_scores
  token_spans-zero_scores [] = refl
  token_spans-zero_scores (s ∷ spans) = ap (λ r. s ∷ r) (token_spans-zero_scores spans)

  zero_scores_are_zero :
      (spans : List TokenRange)
      → All (λ c. c.score ≡ zero_score) (zero_scores options zero_score compute_logits spans)
  unfolding zero_scores
  zero_scores_are_zero [] = tt
  zero_scores_are_zero (s ∷ spans) = (refl, zero_scores_are_zero spans)

  abbrev pub listed_spans : Listed
  listed_spans =
      list_candidates interest inference
        (max_chunk_length options.max_selection_span options.selection_reduced_output_space)
        options.score_single_token_spans_as_zero

  -- If a batch holds a span at least, then the scoring ends. Either it fails, and the model refused one
  -- of the batches of the listed spans: it gave no logits, or another number of them. Or it returns
  -- first the listed single tokens, in order, each with a score of zero, and then the listed candidate
  -- spans, in order, each with the logit at its place in the answer of the model to its own batch.
  pub model_bounds_sensitive_score_chunks-Scores :
      0 < options.batch_size
      → (result : Option (List (ScoredChunk Score))) × (model_bounds_sensitive_score_chunks options
            zero_score compute_logits interest inference
          ≡ some result)
        × (singles : List (ScoredChunk Score)) × (token_spans singles ≡ listed_spans.singles)
        × All (λ c. c.score ≡ zero_score) singles
        × Scores compute_logits options.batch_size singles listed_spans.candidate_spans result
  unfolding model_bounds_sensitive_score_chunks
  model_bounds_sensitive_score_chunks-Scores pos =
      let singles = zero_scores options zero_score compute_logits listed_spans.singles in
      let (result, runs, all) =
        score_batches-Scores compute_logits options.batch_size (length listed_spans.candidate_spans)
          listed_spans.candidate_spans singles pos (omega arith) in
      (
        result,
        runs,
        singles,
        token_spans-zero_scores listed_spans.singles,
        zero_scores_are_zero listed_spans.singles,
        all,
      )
