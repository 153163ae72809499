-- ===== src/Annotator/Clicks.antt =====
-- native/annotator/annotator.cc, `ModelClickContextScoreChunks` and `UpdateMax`: the model scores the labels
-- of every click, and each token span keeps the greatest score that it gets. Features, inference and
-- softmax are a parameter, a function from a batch of clicks to their scores that is `none` where
-- these are not valid.
pub mod Updated
pub mod Greatest
use external_libtextclassifi.Prelude.{
  ℕ, zero, suc, ◌+◌, ◌-◌, pos, pos_part, Bool, true, false, ◌&&◌, List, [], ◌∷◌, ◌++◌, Option, none,
  some, ◌>>=◌, leb_ℤ, ◌==◌, if◌then◌else◌, length, take, drop,
}
use external_libtextclassifi.Token.{TokenSpan, expand_token_span}
use external_libtextclassifi.Annotator.Candidates.{TokenRange, ScoredChunk}
use external_libtextclassifi.Annotator.Chunks.{span_less}

abbrev pub same_range : TokenRange → TokenRange → Bool
same_range a b = a.first == b.first && a.second == b.second

-- `SingleTokenSpan`
abbrev pub single_token_span : ℕ → TokenSpan
single_token_span token_index = record { first = pos token_index; second = pos (suc token_index) }

-- The clicks from `click_pos` on, `n` of them.
unfoldable pub clicks_from : ℕ → ℕ → List ℕ
clicks_from zero click_pos = []
clicks_from (suc n) click_pos = click_pos ∷ clicks_from n (suc click_pos)

-- The span that a label means at a click, if it lies among the tokens.
unfoldable pub candidate_span : ℕ → ℕ → TokenSpan → Option TokenRange
candidate_span num_tokens click_pos relative_token_span =
    let span =
      expand_token_span (single_token_span click_pos) relative_token_span.first
        relative_token_span.second in
    if leb_ℤ (pos 0) span.first && leb_ℤ span.second (pos num_tokens)
    then some (record { first = pos_part span.first; second = pos_part span.second })
    else none

module _ {Score : Type 0} (less : Score → Score → Bool) where
  -- `std::max`
  unfoldable pub max_score : Score → Score → Score
  max_score a b = if less a b then b else a

  -- `UpdateMax`, on a `std::map` as the list of its entries in the order of the keys.
  unfoldable pub update_max :
      TokenRange → Score → List (ScoredChunk Score) → List (ScoredChunk Score)
  update_max key value [] = record { token_span = key; score = value } ∷ []
  update_max key value (e ∷ es) = elim (same_range e.token_span key) [
    | true ↦ record e { score = max_score e.score value } ∷ es
    | false ↦ elim (span_less key e.token_span) [
      | true ↦ record { token_span = key; score = value } ∷ e ∷ es
      | false ↦ e ∷ update_max key value es
    ]
  ]

  unfoldable pub add_label :
      ℕ → ℕ → TokenSpan → Score → List (ScoredChunk Score) → List (ScoredChunk Score)
  add_label num_tokens click_pos relative_token_span score chunk_scores =
      elim (candidate_span num_tokens click_pos relative_token_span) [
        | none ↦ chunk_scores
        | some span ↦ update_max span score chunk_scores
      ]

  module _ (num_tokens : ℕ) (label_to_token_span : ℕ → Option TokenSpan) where
    -- The loop over the labels, from `j` on; `none` is "Couldn't map the label to a token span."
    unfoldable pub add_labels :
        ℕ → ℕ → List Score → List (ScoredChunk Score) → Option (List (ScoredChunk Score))
    add_labels click_pos j [] chunk_scores = some chunk_scores
    add_labels click_pos j (score ∷ scores) chunk_scores = do
      relative_token_span ← label_to_token_span j
      add_labels click_pos (suc j) scores
          (add_label num_tokens click_pos relative_token_span score chunk_scores)

    -- "Save results.", with the scores of each click
    unfoldable pub add_clicks :
        List ℕ → List (List Score) → List (ScoredChunk Score) → Option (List (ScoredChunk Score))
    add_clicks [] rows chunk_scores = some chunk_scores
    add_clicks (click_pos ∷ clicks) [] chunk_scores = some chunk_scores
    add_clicks (click_pos ∷ clicks) (scores ∷ rows) chunk_scores = do
      updated ← add_labels click_pos 0 scores chunk_scores
      add_clicks clicks rows updated

    module _ (compute_scores : List ℕ → Option (List (List Score)))
        (label_count max_batch_size : ℕ) where
      unfoldable pub rows_fit : List (List Score) → Bool
      rows_fit [] = true
      rows_fit (row ∷ rows) = length row == label_count && rows_fit rows

      -- One batch; `none` is "Couldn't compute logits.", "Mismatching output." or a label with no span.
      unfoldable pub add_batch :
          List ℕ → List (ScoredChunk Score) → Option (List (ScoredChunk Score))
      add_batch batch chunk_scores = do
        rows ← compute_scores batch
        if length rows == length batch && rows_fit rows
            then add_clicks batch rows chunk_scores
            else none

      -- The loop over the batches, on fuel. The outer `none` is no more fuel.
      unfoldable pub add_batches :
          ℕ → List ℕ → List (ScoredChunk Score) → Option (Option (List (ScoredChunk Score)))
      add_batches fuel [] chunk_scores = some (some chunk_scores)
      add_batches zero (click ∷ clicks) chunk_scores = none
      add_batches (suc fuel) (click ∷ clicks) chunk_scores =
          elim (add_batch (take max_batch_size (click ∷ clicks)) chunk_scores) [
            | none ↦ some none
            | some updated ↦ add_batches fuel (drop max_batch_size (click ∷ clicks)) updated
          ]

      -- `ModelClickContextScoreChunks`; a batch holds a click at least, so their number is fuel enough.
      unfoldable pub model_click_context_score_chunks :
          TokenRange → Option (Option (List (ScoredChunk Score)))
      model_click_context_score_chunks span_of_interest =
          let size = span_of_interest.second - span_of_interest.first in
          add_batches size (clicks_from size span_of_interest.first) []
