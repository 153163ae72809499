-- ===== src/Annotator/Chunks.antt =====
-- native/annotator/annotator.cc, `ModelChunk`: chunks are picked by falling score, as long as they share
-- no token with a chunk picked before.
pub mod Marks
pub mod Greedy
pub mod Ordered
pub mod Composed
use external_libtextclassifi.Prelude.{
  ℕ, zero, suc, ◌+◌, ◌-◌, pos, pos_part, Bool, true, false, not, ◌&&◌, ◌||◌, List, [], ◌∷◌, ◌++◌,
  Option, none, some, ltb, ◌==◌, if◌then◌else◌, get_or, set, replicate, sort,
}
use external_libtextclassifi.Token.{TokenSpan, expand_token_span, intersect_token_spans}
use external_libtextclassifi.Annotator.Candidates.{TokenRange, ScoredChunk, token_spans}

-- The span of interest and `max_selection_span` tokens on either side, as far as there are tokens. The
-- intersection has no bound below 0.
unfoldable pub inference_span : ℕ → TokenRange → ℕ → TokenRange
inference_span num_tokens span_of_interest max_selection_span =
    let expanded =
      intersect_token_spans
        (expand_token_span
          (record { first = pos span_of_interest.first; second = pos span_of_interest.second })
          (pos max_selection_span) (pos max_selection_span))
        (record { first = pos 0; second = pos num_tokens }) in
    record { first = pos_part expanded.first; second = pos_part expanded.second }

-- The loop of the test, `n` tokens from the index `i` on.
unfoldable pub any_used : List Bool → ℕ → ℕ → Bool
any_used token_used zero i = false
any_used token_used (suc n) i = get_or token_used i false || any_used token_used n (suc i)

-- The loop that marks the tokens of a chunk.
unfoldable pub mark_used : List Bool → ℕ → ℕ → List Bool
mark_used token_used zero i = token_used
mark_used token_used (suc n) i = mark_used (set token_used i true) n (suc i)

-- The state of the greedy loop.
pub record Picked : Type 0 where
  pub token_used : List Bool
  pub chunks : List TokenRange

-- The order of pairs.
unfoldable pub span_less : TokenRange → TokenRange → Bool
span_less a b = ltb a.first b.first || a.first == b.first && ltb a.second b.second

module _ (offset : ℕ) where
  -- One round: a feasible chunk is picked.
  unfoldable pub pick_chunk : TokenRange → Picked → Picked
  pick_chunk span p =
      let size = span.second - span.first in
      let at = span.first - offset in
      if any_used p.token_used size at
      then p
      else record { token_used = mark_used p.token_used size at; chunks = p.chunks ++ span ∷ [] }

  unfoldable pub pick_chunks : List TokenRange → Picked → Picked
  pick_chunks [] p = p
  pick_chunks (span ∷ spans) p = pick_chunks spans (pick_chunk span p)

module _ {Score : Type 0} (greater : Score → Score → Bool) where
  unfoldable pub by_score : ScoredChunk Score → ScoredChunk Score → Bool
  by_score a b = greater a.score b.score

  -- What `ModelChunk` does with the scored chunks.
  unfoldable pub select_chunks : TokenRange → List (ScoredChunk Score) → List TokenRange
  select_chunks span scored_chunks =
      sort span_less
        (pick_chunks span.first (token_spans (sort by_score scored_chunks))
          (record { token_used = replicate (span.second - span.first) false; chunks = [] })).chunks

  -- `ModelChunk`, after one of its two scorers, which gets the inference span. `none` is `return false`.
  unfoldable pub model_chunk :
      ℕ
      → TokenRange
      → ℕ
      → (TokenRange → Option (List (ScoredChunk Score)))
      → Option (List TokenRange)
  model_chunk num_tokens span_of_interest max_selection_span score_chunks =
      let span = inference_span num_tokens span_of_interest max_selection_span in
      elim (score_chunks span) [
        | none ↦ none
        | some scored_chunks ↦ some (select_chunks span scored_chunks)
      ]
