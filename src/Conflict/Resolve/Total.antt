-- ===== src/Conflict/Resolve/Total.antt =====
-- `ResolveConflict` fails only where the classification of a candidate fails.
use external_libtextclassifi.Prelude.{ℕ, zero, suc, ◌-◌, List, [], ◌∷◌, ◌++◌, some, ◌≡◌, refl}
use external_libtextclassifi.Span.{CodepointSpan}
use external_libtextclassifi.Conflict.{
  Usecase, AnnotatedSpan, Annotator, ClassificationResult, candidate, span_at,
}
use external_libtextclassifi.Conflict.Resolve.{
  ScoreLength, classified_score, score_from, score_of, gather, choose, resolve_conflict,
}

module _ {Score : Type 0} (a : Annotator Score) (cs : List (AnnotatedSpan Score)) (u : Usecase)
    (answer : CodepointSpan → List (ClassificationResult Score))
    (classifies : (s : CodepointSpan) → a.model_classify_text s ≡ some (answer s)) where
  score_from_total :
      (i : ℕ) (classification : List (ClassificationResult Score))
      → (new : List (ℕ × ScoreLength Score)) × (score_from a cs i classification ≡ some new)
  unfolding score_from
  score_from_total i [] =
      (classified_score a cs i (answer (span_at cs i)), rw (classifies (span_at cs i)))
  score_from_total i (c ∷ rest) = (_, refl)

  gather_total :
      (n i : ℕ) (idx : List ℕ) (sc : List (ℕ × ScoreLength Score))
      → (r : List ℕ × List (ℕ × ScoreLength Score)) × (gather a cs n i idx sc ≡ some r)
  unfolding gather score_of
  gather_total zero i idx sc = ((idx, sc), refl)
  gather_total (suc n) i idx sc =
      let (new, e) = score_from_total i (candidate cs i).classification in
      let (r, found) = gather_total n (suc i) (idx ++ i ∷ []) (sc ++ new) in (r, rw e found)

  pub resolve_conflict_total : (i j : ℕ) → (r : List ℕ) × (resolve_conflict a cs u i j ≡ some r)
  unfolding resolve_conflict
  resolve_conflict_total i j =
      let (r, e) = gather_total (j - i) i [] [] in (choose a cs u r.0 r.1, rw e refl)
