-- ===== src/Annotator/Classify/Kept.antt =====
-- `ClassifyText`: all candidates have the span of the selection, and what is kept of their classes.
use external_libtextclassifi.Prelude.{
  All-self, ℕ, false, List, [], ◌∷◌, Option, none, some, ◌≡◌, refl, inl, inr, All, Any, All-append,
  Any-append_left, Any-append_right, Bool-cases, All-map,
}
use external_libtextclassifi.Span.{CodepointSpan}
use external_libtextclassifi.Conflict.{Source, ClassificationResult, AnnotatedSpan, candidate}
use external_libtextclassifi.Annotator.State.{State, filtered_for_classification}
use external_libtextclassifi.Annotator.Classify.{
  Answer, classified, ask, one_each, all_in_one, unfiltered, kept_results,
}

module _ {Score : Type 0} (selection : CodepointSpan) where
  abbrev pub IsOnSelection : AnnotatedSpan Score → Type 0
  IsOnSelection c = c.span ≡ selection

  pub ask-IsOnSelection :
      {A : Type 0} (source : Source) (engine : Option A) (call : A → Answer Score)
      → All IsOnSelection (ask selection source engine call)
  unfolding ask classified
  ask-IsOnSelection source none call = tt
  ask-IsOnSelection source (some engine) call =
      elim (call engine selection)
        as (λ o.
          All IsOnSelection
            (elim o [ none ↦ [] | some result ↦ classified selection source (result ∷ []) ∷ [] ])) [
              | none ↦ tt
              | some result ↦ (refl, tt)
            ]

  pub one_each-IsOnSelection :
      (results : List (ClassificationResult Score)) → All IsOnSelection (one_each selection results)
  unfolding one_each classified
  one_each-IsOnSelection [] = tt
  one_each-IsOnSelection (r ∷ results) = (refl, one_each-IsOnSelection results)

  pub all_in_one-IsOnSelection :
      (source : Source) (results : List (ClassificationResult Score))
      → All IsOnSelection (all_in_one selection source results)
  unfolding all_in_one classified
  all_in_one-IsOnSelection source [] = tt
  all_in_one-IsOnSelection source (r ∷ results) = (refl, tt)

module _ {Score : Type 0} (state : State Score) (candidates : List (AnnotatedSpan Score)) where
  -- A class of a chosen candidate that is not filtered.
  abbrev pub IsShown : List ℕ → ClassificationResult Score → Type 0
  IsShown indices c =
      Any (λ i. Any (λ d. d ≡ c) (candidate candidates i).classification) indices
      × (filtered_for_classification state c ≡ false)

  unfiltered-All :
      (P : ClassificationResult Score → Type 0) (cs : List (ClassificationResult Score))
      → All P cs
      → All (λ c. P c × (filtered_for_classification state c ≡ false)) (unfiltered state cs)
  unfolding unfiltered
  unfiltered-All P [] h = tt
  unfiltered-All P (c ∷ cs) (h, hs) = elim (Bool-cases (filtered_for_classification state c)) [
    | inl e ↦ rw (e, unfiltered) (unfiltered-All P cs hs)
    | inr e ↦ rw (e, unfiltered) ((h, e), unfiltered-All P cs hs)
  ]

  unfiltered-Any :
      (c : ClassificationResult Score) (cs : List (ClassificationResult Score))
      → filtered_for_classification state c ≡ false
      → Any (λ d. d ≡ c) cs
      → Any (λ d. d ≡ c) (unfiltered state cs)
  unfolding unfiltered
  unfiltered-Any c [] on h = absurd h
  unfiltered-Any c (d ∷ cs) on (inl e) =
      let here : filtered_for_classification state d ≡ false = cc in rw (here, unfiltered) (inl e)
  unfiltered-Any c (d ∷ cs) on (inr h) = elim (Bool-cases (filtered_for_classification state d)) [
    | inl e ↦ rw (e, unfiltered) (unfiltered-Any c cs on h)
    | inr e ↦ rw (e, unfiltered) (inr (unfiltered-Any c cs on h))
  ]

  pub kept_results-IsShown :
      (indices : List ℕ) → All (IsShown indices) (kept_results state candidates indices)
  unfolding kept_results
  kept_results-IsShown [] = tt
  kept_results-IsShown (i ∷ indices) =
      All-append _ (unfiltered state (candidate candidates i).classification) _
        (All-map _ _ (λ c h. (inl h.0, h.1)) _
          (unfiltered-All (λ c. Any (λ d. d ≡ c) (candidate candidates i).classification) _
            (All-self _ _ (λ x h. h))))
        (All-map (IsShown indices) _ (λ c h. (inr h.0, h.1)) _ (kept_results-IsShown indices))

  pub kept_results-all :
      (c : ClassificationResult Score) (indices : List ℕ)
      → IsShown indices c
      → Any (λ d. d ≡ c) (kept_results state candidates indices)
  unfolding kept_results
  kept_results-all c [] (h, on) = absurd h
  kept_results-all c (i ∷ indices) (inl h, on) = Any-append_left _ _ _ (unfiltered-Any c _ on h)
  kept_results-all c (i ∷ indices) (inr h, on) =
      Any-append_right _ (unfiltered state (candidate candidates i).classification) _
        (kept_results-all c indices (h, on))
