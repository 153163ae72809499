-- ===== src/Annotator/Clicks/Greatest.antt =====
-- `ModelClickContextScoreChunks` gives each span that some label of some click means the greatest of its
-- scores.
use external_libtextclassifi.Prelude.{
  ℕ, zero, suc, ◌+◌, ◌-◌, ◌≤◌, ◌<◌, Bool, true, ◌&&◌, List, [], ◌∷◌, ◌++◌, Option, none, some, ◌≡◌,
  refl, sym, ap, ◌∙◌, arith, ◌>>=◌, ◌==◌, length, take, drop, length-drop, take-append-drop, map,
  subst,
}
use external_libtextclassifi.Token.{TokenSpan}
use external_libtextclassifi.Annotator.Candidates.{TokenRange, ScoredChunk}
use external_libtextclassifi.Annotator.Annotate.Settled.{IsScoreOrder}
use external_libtextclassifi.Annotator.Clicks.{
  clicks_from, update_max, candidate_span, add_label, add_labels, add_clicks, rows_fit, add_batch,
  add_batches, model_click_context_score_chunks,
}
use external_libtextclassifi.Annotator.Clicks.Updated.{Holds, update_max-Holds}

-- What the code relies on: the model scores each click by itself, with a score for each label, and each
-- label means a span.
pub record IsClickModel {Score : Type 0} (label_to_token_span : ℕ → Option TokenSpan)
    (compute_scores : List ℕ → Option (List (List Score))) (label_count : ℕ)
    (span_of_label : ℕ → TokenSpan) (scores_of : ℕ → List Score) : Type 0 where
  pub means : (j : ℕ) → j < label_count → label_to_token_span j ≡ some (span_of_label j)
  pub scores : (batch : List ℕ) → compute_scores batch ≡ some (map scores_of batch)
  pub fits : (click_pos : ℕ) → length (scores_of click_pos) ≡ label_count

-- A span that lies among the tokens is seen with its score.
abbrev pub see :
    {Score : Type 0}
    → Option TokenRange
    → Score
    → List (ScoredChunk Score)
    → List (ScoredChunk Score)
see none score seen = seen
see (some span) score seen = record { token_span = span; score = score } ∷ seen

module _ {Score : Type 0} (less : Score → Score → Bool) (num_tokens : ℕ)
    (span_of_label : ℕ → TokenSpan) (scores_of : ℕ → List Score) where
  -- All spans of the labels from `j` on that lie among the tokens, with their scores, the last first.
  abbrev pub seen_labels : ℕ → ℕ → List Score → List (ScoredChunk Score) → List (ScoredChunk Score)
  seen_labels click_pos j [] seen = seen
  seen_labels click_pos j (score ∷ scores) seen =
      seen_labels click_pos (suc j) scores
        (see (candidate_span num_tokens click_pos (span_of_label j)) score seen)

  abbrev pub seen_clicks : List ℕ → List (ScoredChunk Score) → List (ScoredChunk Score)
  seen_clicks [] seen = seen
  seen_clicks (click_pos ∷ clicks) seen =
      seen_clicks clicks (seen_labels click_pos 0 (scores_of click_pos) seen)

  seen_clicks-append :
      (xs ys : List ℕ) (seen : List (ScoredChunk Score))
      → seen_clicks (xs ++ ys) seen ≡ seen_clicks ys (seen_clicks xs seen)
  seen_clicks-append [] ys seen = refl
  seen_clicks-append (x ∷ xs) ys seen = seen_clicks-append xs ys _

  module _ (order : IsScoreOrder (λ a b. less b a)) (label_to_token_span : ℕ → Option TokenSpan)
      (compute_scores : List ℕ → Option (List (List Score))) (label_count max_batch_size : ℕ)
      (model : IsClickModel label_to_token_span compute_scores label_count span_of_label
        scores_of) where
    see-Holds :
        (o : Option TokenRange) (score : Score) (seen chunks : List (ScoredChunk Score))
        → Holds less seen chunks
        → Holds less
            (see o score seen)
            (elim o [ none ↦ chunks | some span ↦ update_max less span score chunks ])
    see-Holds none score seen chunks h = h
    see-Holds (some span) score seen chunks h = update_max-Holds less order span score seen chunks h

    add_labels-Holds :
        (click_pos j : ℕ) (scores : List Score) (seen chunks : List (ScoredChunk Score))
        → j + length scores ≤ label_count
        → Holds less seen chunks
        → (r : List (ScoredChunk Score)) × (add_labels less num_tokens label_to_token_span click_pos
              j scores chunks
            ≡ some r)
          × Holds less (seen_labels click_pos j scores seen) r
    unfolding add_labels add_label
    add_labels-Holds click_pos j [] seen chunks le h = (chunks, refl, h)
    add_labels-Holds click_pos j (score ∷ scores) seen chunks le h =
        let (r, runs, holds) =
          add_labels-Holds click_pos (suc j) scores _ _ (omega arith) (
            see-Holds (candidate_span num_tokens click_pos (span_of_label j)) score seen chunks
              h) in
        (r, rw (model.means j (omega arith), ◌>>=◌) runs, holds)

    add_clicks-Holds :
        (clicks : List ℕ) (seen chunks : List (ScoredChunk Score))
        → Holds less seen chunks
        → (r : List (ScoredChunk Score)) × (add_clicks less num_tokens label_to_token_span clicks
              (map scores_of clicks)
              chunks
            ≡ some r)
          × Holds less (seen_clicks clicks seen) r
    unfolding add_clicks
    add_clicks-Holds [] seen chunks h = (chunks, refl, h)
    add_clicks-Holds (c ∷ clicks) seen chunks h =
        let (r, runs, holds) =
          add_labels-Holds c 0 (scores_of c) seen chunks (omega (arith, model.fits c)) h in
        let (r', runs', holds') = add_clicks-Holds clicks _ r holds in
        (r', rw (runs, ◌>>=◌) runs', holds')

    rows_fit_all :
        (clicks : List ℕ)
        → (length (map scores_of clicks) == length clicks
            && rows_fit less num_tokens label_to_token_span compute_scores label_count
                max_batch_size
                (map scores_of clicks))
          ≡ true
    unfolding rows_fit
    rows_fit_all [] = refl
    rows_fit_all (c ∷ clicks) = ground (arith, rows_fit_all clicks, model.fits c)

    add_batch-Holds :
        (clicks : List ℕ) (seen chunks : List (ScoredChunk Score))
        → Holds less seen chunks
        → (r : List (ScoredChunk Score)) × (add_batch less num_tokens label_to_token_span
              compute_scores label_count max_batch_size clicks chunks
            ≡ some r)
          × Holds less (seen_clicks clicks seen) r
    unfolding add_batch
    add_batch-Holds clicks seen chunks h =
        let (r, runs, holds) = add_clicks-Holds clicks seen chunks h in
        (r, rw (model.scores clicks, ◌>>=◌, rows_fit_all clicks) runs, holds)

    add_batches-Holds :
        (fuel : ℕ) (clicks : List ℕ) (seen chunks : List (ScoredChunk Score))
        → 0 < max_batch_size
        → length clicks ≤ fuel
        → Holds less seen chunks
        → (r : List (ScoredChunk Score)) × (add_batches less num_tokens label_to_token_span
              compute_scores label_count max_batch_size fuel clicks chunks
            ≡ some (some r))
          × Holds less (seen_clicks clicks seen) r
    unfolding add_batches
    add_batches-Holds fuel [] seen chunks lt le h = (chunks, refl, h)
    add_batches-Holds zero (c ∷ clicks) seen chunks lt le h = absurd (omega arith)
    add_batches-Holds (suc fuel) (c ∷ clicks) seen chunks lt le h =
        let n = max_batch_size in
        let (r, runs, holds) = add_batch-Holds (take n (c ∷ clicks)) seen chunks h in
        let (r', runs', holds') =
          add_batches-Holds fuel (drop n (c ∷ clicks)) _ r lt
            (omega (arith, length-drop n (c ∷ clicks))) holds in
        (
          r',
          rw (runs, add_batches) runs',
          subst (λ s. Holds less s r')
              (sym (seen_clicks-append (take n (c ∷ clicks)) (drop n (c ∷ clicks)) seen)
                ∙ ap (λ s. seen_clicks s seen) (take-append-drop n (c ∷ clicks)))
              holds',
        )

    length-clicks_from : (n i : ℕ) → length (clicks_from n i) ≡ n
    unfolding clicks_from
    length-clicks_from zero i = refl
    length-clicks_from (suc n) i = omega (arith, length-clicks_from n (suc i))

    -- If the comparison of scores is an order, the model scores each click by itself with a score for
    -- each label, each label means a span, and a batch holds a click at least, then the scoring ends
    -- with chunks, in the order of their spans: those spans that some label of some click means and
    -- that lie among the tokens, each once, with the greatest of its scores.
    pub model_click_context_score_chunks-Holds :
        (span_of_interest : TokenRange)
        → 0 < max_batch_size
        → (r : List (ScoredChunk Score)) × (model_click_context_score_chunks less num_tokens
              label_to_token_span compute_scores label_count max_batch_size span_of_interest
            ≡ some (some r))
          × Holds less
              (seen_clicks
                (clicks_from
                  (span_of_interest.second - span_of_interest.first)
                  span_of_interest.first)
                [])
              r
    unfolding model_click_context_score_chunks
    model_click_context_score_chunks-Holds span_of_interest lt =
        add_batches-Holds (span_of_interest.second - span_of_interest.first) _ [] [] lt
          (omega (
            arith,
            length-clicks_from (span_of_interest.second - span_of_interest.first)
                span_of_interest.first,
          ))
          (record { attained = tt; greatest = tt; ordered = tt })
