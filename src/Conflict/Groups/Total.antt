-- ===== src/Conflict/Groups/Total.antt =====
-- `ResolveConflicts` has fuel enough: it fails only where a classification fails.
use external_libtextclassifi.Prelude.{
  ℕ, zero, suc, ◌+◌, ◌≤◌, List, [], ◌∷◌, ◌++◌, some, ◌≡◌, arith, inl, inr, Bool-cases, ltb, ◌==◌,
  length, ltb→lt,
}
use external_libtextclassifi.Span.{CodepointSpan}
use external_libtextclassifi.Conflict.{Usecase, AnnotatedSpan, Annotator, ClassificationResult}
use external_libtextclassifi.Conflict.Resolve.Total.{resolve_conflict_total}
use external_libtextclassifi.Conflict.Groups.{
  first_non_overlapping_span_index, resolve_group, resolve_from, resolve_conflicts,
}
use external_libtextclassifi.Conflict.Groups.Partition.{
  AreCandidates, first_non_overlapping-IsGroup,
}

module _ {Score : Type 0} (a : Annotator Score) (cs : List (AnnotatedSpan Score)) (u : Usecase)
    (answer : CodepointSpan → List (ClassificationResult Score))
    (classifies : (s : CodepointSpan) → a.model_classify_text s ≡ some (answer s)) where
  resolve_group_total : (i j : ℕ) → (r : List ℕ) × (resolve_group a cs u i j ≡ some r)
  unfolding resolve_group
  resolve_group_total i j = elim (Bool-cases (j == suc i)) [
    | inl e ↦ (i ∷ [], rw e)
    | inr e ↦ let (r, h) = resolve_conflict_total a cs u answer classifies i j in (r, rw e h)
  ]

  resolve_from_total :
      (fuel i : ℕ) (result : List ℕ)
      → AreCandidates cs
      → length cs ≤ i + fuel
      → (r : List ℕ) × (resolve_from a cs u fuel i result ≡ some r)
  unfolding resolve_from
  resolve_from_total zero i result ok le = (result, ground arith)
  resolve_from_total (suc fuel) i result ok le = elim (Bool-cases (ltb i (length cs))) [
    | inl e ↦
        let j = first_non_overlapping_span_index cs i in
        let g = first_non_overlapping-IsGroup cs i ok (ltb→lt i (length cs) e) in
        let (chosen, found) = resolve_group_total i j in
        let (r, later) = resolve_from_total fuel j (result ++ chosen) ok (omega (arith, g.grows)) in
        (r, rw (e, found) later)
    | inr e ↦ (result, rw e)
  ]

  -- If the classifier answers on every span, `ResolveConflicts` returns a result for every list of
  -- candidates that is sorted by the starts and has no empty span.
  pub resolve_conflicts_total :
      AreCandidates cs → (r : List ℕ) × (resolve_conflicts a cs u ≡ some r)
  unfolding resolve_conflicts
  resolve_conflicts_total ok = resolve_from_total (length cs) 0 [] ok (omega arith)
