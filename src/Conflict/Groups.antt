-- ===== src/Conflict/Groups.antt =====
-- native/annotator/annotator.cc, `FirstNonOverlappingSpanIndex` and `Annotator::ResolveConflicts`: the
-- groups of candidates that overlap one another, in a list sorted by the starts of the spans.
pub mod Partition
pub mod Single
pub mod Sound
pub mod Total
use external_libtextclassifi.Prelude.{
  ℕ, zero, suc, ◌+◌, ◌-◌, max_ℤ, Bool, true, false, not, List, [], ◌∷◌, ◌++◌, Option, none, some,
  ltb, ◌==◌, if◌then◌else◌, ◌>>=◌, length,
}
use external_libtextclassifi.Span.{CodepointSpan, spans_overlap}
use external_libtextclassifi.Conflict.{Usecase, AnnotatedSpan, Annotator, span_at}
use external_libtextclassifi.Conflict.Resolve.{resolve_conflict}

module _ {Score : Type 0} (candidates : List (AnnotatedSpan Score)) where
  -- The loop of `FirstNonOverlappingSpanIndex`; the first argument counts the candidates left.
  unfoldable pub grow_group : ℕ → ℕ → CodepointSpan → ℕ
  grow_group zero k conflicting_span = k
  grow_group (suc n) k conflicting_span =
      let on = grow_group n (suc k) (record conflicting_span {
        second = max_ℤ conflicting_span.second (span_at candidates k).second;
      }) in
      if spans_overlap conflicting_span (span_at candidates k) then on else k

  unfoldable pub first_non_overlapping_span_index : ℕ → ℕ
  unfolding grow_group
  first_non_overlapping_span_index start_index =
      grow_group (length candidates - suc start_index) (suc start_index)
        (span_at candidates start_index)

module _ {Score : Type 0} (a : Annotator Score) (candidates : List (AnnotatedSpan Score))
    (usecase : Usecase) where
  -- The indices that one round appends to the result.
  unfoldable pub resolve_group : ℕ → ℕ → Option (List ℕ)
  resolve_group i first_non_overlapping =
      let conflict_found = not (first_non_overlapping == suc i) in
      if conflict_found
      then resolve_conflict a candidates usecase i first_non_overlapping
      else some (i ∷ [])

  -- The loop of `ResolveConflicts`. A round costs one unit of fuel.
  unfoldable pub resolve_from : ℕ → ℕ → List ℕ → Option (List ℕ)
  unfolding resolve_group
  resolve_from zero i result = if ltb i (length candidates) then none else some result
  resolve_from (suc fuel) i result =
      if ltb i (length candidates)
      then (do
        let first_non_overlapping = first_non_overlapping_span_index candidates i
        chosen ← resolve_group i first_non_overlapping
        resolve_from fuel first_non_overlapping (result ++ chosen))
      else some result

  -- `ResolveConflicts`: every round passes at least one candidate, so their number is fuel enough.
  unfoldable pub resolve_conflicts : Option (List ℕ)
  unfolding resolve_from first_non_overlapping_span_index resolve_conflict
  resolve_conflicts = resolve_from (length candidates) 0 []
