-- ===== src/Conflict/Resolve.antt =====
-- native/annotator/annotator.cc, `Annotator::ResolveConflict`: one group of overlapping candidates.
pub mod Greedy
pub mod Maximal
pub mod Priority
pub mod Choice
pub mod Total
use external_libtextclassifi.Prelude.{
  ℕ, zero, suc, ◌-◌, ℤ, pos, ◌-ℤ◌, ltb_ℤ, Bool, true, false, ◌&&◌, List, [], ◌∷◌, ◌++◌, Option,
  none, some, ltb, ◌==◌, if◌then◌else◌, ◌>>=◌, sort,
}
use external_libtextclassifi.Span.{CodepointSpan, does_candidate_conflict, set_insert}
use external_libtextclassifi.Conflict.{
  Source, Usecase, smart, raw, same_source, do_sources_conflict, ClassificationResult,
  AnnotatedSpan, Annotator, candidate, span_at, source_at, get_priority_score,
}

pub record ScoreLength (Score : Type 0) : Type 0 where
  pub score : Score
  pub length : ℤ

-- `chosen_indices_for_source_map`: a set for each source that has a chosen candidate.
abbrev pub SourceSets : Type 0
SourceSets = List (Source × List ℕ)

-- The state of the greedy loop.
pub record Placed : Type 0 where
  pub sets : SourceSets
  pub chosen : List ℕ

module _ {Score : Type 0} (a : Annotator Score) where
  unfoldable pub needs_conflict_resolution : Usecase → Bool
  needs_conflict_resolution smart = true
  needs_conflict_resolution raw = a.do_conflict_resolution_in_raw_mode

module _ {Score : Type 0} (a : Annotator Score) (candidates : List (AnnotatedSpan Score)) where
  -- `scores_lengths[i]`; a missing key gives 0.0 and 0.
  unfoldable pub lookup : ℕ → List (ℕ × ScoreLength Score) → ScoreLength Score
  lookup i [] = record { score = a.ops.zero_score; length = pos 0 }
  lookup i ((j, s) ∷ scores) = if j == i then s else lookup i scores

  unfoldable pub score_length : ℕ → List (ClassificationResult Score) → ScoreLength Score
  score_length i classification = record {
    score = get_priority_score a classification;
    length = (span_at candidates i).second -ℤ (span_at candidates i).first;
  }

  -- What one round adds to `scores_lengths`: nothing, if the model leaves the span unclassified.
  unfoldable pub classified_score :
      ℕ → List (ClassificationResult Score) → List (ℕ × ScoreLength Score)
  unfolding score_length
  classified_score i [] = []
  classified_score i (c ∷ cs) = (i, score_length i (c ∷ cs)) ∷ []

  -- A candidate with no classification comes from the model, and is classified now.
  unfoldable pub score_from :
      ℕ → List (ClassificationResult Score) → Option (List (ℕ × ScoreLength Score))
  unfolding classified_score
  score_from i [] = do c ← a.model_classify_text (span_at candidates i); some (classified_score i c)
  score_from i (c ∷ cs) = some (classified_score i (c ∷ cs))

  unfoldable pub score_of : ℕ → Option (List (ℕ × ScoreLength Score))
  unfolding score_from
  score_of i = score_from i (candidate candidates i).classification

  -- The first loop: the indices from `i` on, `n` of them, and their scores. `none` is `return false`.
  unfoldable pub gather :
      ℕ → ℕ → List ℕ → List (ℕ × ScoreLength Score) → Option (List ℕ × List (ℕ × ScoreLength Score))
  unfolding score_of
  gather zero i conflicting_indices scores_lengths = some (conflicting_indices, scores_lengths)
  gather (suc n) i conflicting_indices scores_lengths = do
    new ← score_of i
    gather n (suc i) (conflicting_indices ++ i ∷ []) (scores_lengths ++ new)

  -- The comparator of the sort by priority.
  unfoldable pub goes_first : List (ℕ × ScoreLength Score) → ℕ → ℕ → Bool
  unfolding lookup
  goes_first scores_lengths i j =
      let si = lookup i scores_lengths in
      let sj = lookup j scores_lengths in
      if a.ops.equal si.score sj.score && a.prioritize_longest_annotation
      then ltb_ℤ sj.length si.length
      else a.ops.greater si.score sj.score

  -- The loop over the sets of the chosen candidates, which stops at a conflict.
  unfoldable pub has_conflict : Usecase → SourceSets → ℕ → Bool
  has_conflict usecase [] considered = false
  has_conflict usecase ((source, set) ∷ sets) considered =
      if needs_conflict_resolution a usecase
        && do_sources_conflict usecase source (source_at candidates considered)
        && does_candidate_conflict (span_at candidates) considered set
      then true
      else has_conflict usecase sets considered

  -- The candidate goes to the set of its source, which is made if it does not exist yet.
  unfoldable pub place : SourceSets → ℕ → SourceSets
  place [] i = (source_at candidates i, i ∷ []) ∷ []
  place ((source, set) ∷ sets) i =
      if same_source source (source_at candidates i)
      then (source, set_insert (span_at candidates) i set) ∷ sets
      else (source, set) ∷ place sets i

  unfoldable pub consider : Usecase → Placed → ℕ → Placed
  unfolding has_conflict place
  consider usecase p i =
      if has_conflict usecase p.sets i
      then p
      else record { sets = place p.sets i; chosen = p.chosen ++ i ∷ [] }

  unfoldable pub place_all : Usecase → List ℕ → Placed → Placed
  unfolding consider
  place_all usecase [] p = p
  place_all usecase (i ∷ indices) p = place_all usecase indices (consider usecase p i)

  -- The sort by priority, the greedy loop, and the sort of the chosen indices.
  unfoldable pub choose : Usecase → List ℕ → List (ℕ × ScoreLength Score) → List ℕ
  unfolding goes_first place_all needs_conflict_resolution
  choose usecase conflicting_indices scores_lengths =
      let ordered = sort (goes_first scores_lengths) conflicting_indices in
      sort ltb (place_all usecase ordered (record { sets = []; chosen = [] })).chosen

  -- `ResolveConflict`, with `chosen_indices` empty as the caller passes it. The result is `none`
  -- where the code returns false.
  unfoldable pub resolve_conflict : Usecase → ℕ → ℕ → Option (List ℕ)
  unfolding gather choose
  resolve_conflict usecase start_index end_index = do
    found ← gather (end_index - start_index) start_index [] []
    some (choose usecase found.0 found.1)
