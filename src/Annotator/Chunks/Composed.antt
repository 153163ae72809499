-- ===== src/Annotator/Chunks/Composed.antt =====
-- `ModelChunk` over `ModelBoundsSensitiveScoreChunks`: from the span of interest to the chunks.
use external_libtextclassifi.Prelude.{
  ℕ, ◌<◌, Bool, List, [], ◌∷◌, ◌++◌, ◌≡◌, refl, sym, ◌⊎◌, inl, inr, All, Any, Pairwise, All-append,
  All-map, Any-append_left, Any-append_right, Option, none, some, ◌>>=◌, subst, ◌∙◌, ap,
}
use external_libtextclassifi.Annotator.Candidates.{
  token_spans, TokenRange, ScoredChunk, ChunkOptions, max_chunk_length,
  model_bounds_sensitive_score_chunks,
}
use external_libtextclassifi.Annotator.Candidates.Exact.{IsCandidate, list_candidates-AreCandidates}
use external_libtextclassifi.Annotator.Candidates.Batches.{
  AreRefused, token_spans-append, listed_spans, model_bounds_sensitive_score_chunks-Scores,
}
use external_libtextclassifi.Annotator.Chunks.{inference_span, select_chunks, model_chunk}
use external_libtextclassifi.Annotator.Chunks.Greedy.{IsInside, Settled}
use external_libtextclassifi.Annotator.Chunks.Ordered.{
  Before, token_spans-All, All-token_spans, select_chunks-AreChunks,
}

All-at :
    (P : TokenRange → Type 0) (s e : ℕ) (spans : List TokenRange)
    → All P spans
    → Any (λ r. (r.first ≡ s) × (r.second ≡ e)) spans
    → P (record { first = s; second = e })
All-at P s e [] h a = absurd a
All-at P s e (r ∷ spans) (h, hs) (inl (es, ee)) =
    let same : r ≡ record { first = s; second = e } = cc in subst P same h
All-at P s e (r ∷ spans) (h, hs) (inr a) = All-at P s e spans hs a

module _ {Score : Type 0} (greater : Score → Score → Bool) (zero_score : Score)
    (options : ChunkOptions) (compute_logits : List TokenRange → Option (List Score))
    (interest : TokenRange) where
  -- The scorer that `ModelChunk` calls where the features are sensitive to bounds.
  abbrev pub scorer : TokenRange → Option (List (ScoredChunk Score))
  scorer inference = do
    result ←
        model_bounds_sensitive_score_chunks options zero_score compute_logits interest inference
    result

  -- The candidates of the scorer, within an inference span.
  abbrev pub IsScored : TokenRange → TokenRange → Type 0
  IsScored inference =
      IsCandidate interest inference
        (max_chunk_length options.max_selection_span options.selection_reduced_output_space)
        options.score_single_token_spans_as_zero

  module _ (inference : TokenRange) (ne : interest.first < interest.second) where
    listed-IsInside : All (IsInside inference) (
        (listed_spans options zero_score compute_logits interest inference).singles
        ++ (listed_spans options zero_score compute_logits interest inference).candidate_spans)
    listed-IsInside =
        let (are, all) = list_candidates-AreCandidates interest inference _ _ ne in
        All-append (IsInside inference) _ _
          (All-map _ _ (λ s c. (c.0.contained.0, c.0.not_empty, c.0.contained.1)) _ are.singles)
          (All-map _ _ (λ s c. (c.0.contained.0, c.0.not_empty, c.0.contained.1)) _ are.batched)

    listed_reach :
        (P : TokenRange → Type 0)
        → All P (
            (listed_spans options zero_score compute_logits interest inference).singles
            ++ (listed_spans options zero_score compute_logits interest inference).candidate_spans)
        → (s : TokenRange) → IsScored inference s
        → P s
    listed_reach P h s c =
        let (are, all) = list_candidates-AreCandidates interest inference _ _ ne in
        elim (all s c) [
          | inl a ↦ All-at P s.first s.second _ h (Any-append_left _ _ _ a)
          | inr b ↦ All-at P s.first s.second _ h (Any-append_right _ _ _ b)
        ]

  -- If the span of interest is not empty and a batch holds a span at least, then `ModelChunk` either
  -- fails, and the model refused one of the batches of the listed spans: it gave no logits, or another
  -- number of them. Or it returns chunks that come one behind the other, have a token and stay in the
  -- inference span; and each candidate span is returned or shares a token with one that is.
  pub model_chunk-Chunks :
      (num_tokens : ℕ)
      → interest.first < interest.second
      → 0 < options.batch_size
      → ((model_chunk greater num_tokens interest options.max_selection_span scorer ≡ none)
          × AreRefused compute_logits options.batch_size
              (listed_spans options zero_score compute_logits interest
                (inference_span num_tokens interest options.max_selection_span)).candidate_spans)
        ⊎ ((chunks : List TokenRange) × (model_chunk greater num_tokens interest
                options.max_selection_span scorer
              ≡ some chunks)
            × Pairwise Before chunks
            × All (IsInside (inference_span num_tokens interest options.max_selection_span)) chunks
            × ((s : TokenRange)
                → IsScored (inference_span num_tokens interest options.max_selection_span) s
                → Settled s chunks))
  unfolding model_chunk
  model_chunk-Chunks num_tokens ne pos =
      let inference = inference_span num_tokens interest options.max_selection_span in
      let (result, runs, singles, zeros, _, scores) =
        model_bounds_sensitive_score_chunks-Scores options zero_score compute_logits interest
          inference pos in
      elim scores [
        | inl (failed, refused) ↦ inl (rw (runs, failed, ◌>>=◌, model_chunk) refl, refused)
        | inr (batched, found, spelled, _) ↦
            let scored = singles ++ batched in
            let spans =
              token_spans-append singles batched
              ∙ ap (λ r. r ++ token_spans batched) zeros
              ∙ ap
                  (λ r.
                    (listed_spans options zero_score compute_logits interest inference).singles
                    ++ r)
                  spelled in
            let inside =
              All-token_spans greater inference (IsInside inference) scored
                (subst (All (IsInside inference)) (sym spans) (listed-IsInside inference ne)) in
            let chunks = select_chunks-AreChunks greater inference scored inside in
            let settled =
              token_spans-All greater inference
                (λ s. Settled s (select_chunks greater inference scored)) scored chunks.settled in
            inr (
              select_chunks greater inference scored,
              rw (runs, found, ◌>>=◌, model_chunk) refl,
              chunks.ordered,
              chunks.inside,
              λ s c.
                  listed_reach inference ne _
                    (subst (All (λ r. Settled r (select_chunks greater inference scored))) spans
                      settled)
                    s c,
            )
      ]
