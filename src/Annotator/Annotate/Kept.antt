-- ===== src/Annotator/Annotate/Kept.antt =====
-- What the steps after the conflict resolution keep: a relation between the candidates that looks at
-- their spans and sources only holds between the annotations too.
use external_libtextclassifi.Prelude.{
  ℕ, Bool, false, List, [], ◌∷◌, ◌≡◌, All, Pairwise, Bool-cases, List-cases, inl, inr,
}
use external_libtextclassifi.Text.{UnicodeText}
use external_libtextclassifi.Conflict.{ClassificationResult, AnnotatedSpan, candidate}
use external_libtextclassifi.Annotator.State.{State}
use external_libtextclassifi.Annotator.Annotate.{
  same_annotation, unique_from, unique_indices, enabled_results, remove_not_enabled_entity_types,
  sort_classification_results, is_dropped, keep_annotations, sort_classifications,
}

module _ {Score : Type 0} (cs : List (AnnotatedSpan Score)) (P : ℕ → Type 0) where
  All-unique_from : (last : ℕ) (is : List ℕ) → All P is → All P (unique_from cs last is)
  unfolding unique_from
  All-unique_from last [] h = tt
  All-unique_from last (i ∷ is) (h, hs) =
      elim (Bool-cases (same_annotation (candidate cs last) (candidate cs i))) [
        | inl e ↦ rw (e, unique_from) (All-unique_from last is hs)
        | inr e ↦ rw (e, unique_from) (h, All-unique_from i is hs)
      ]

  pub All-unique_indices : (is : List ℕ) → All P is → All P (unique_indices cs is)
  unfolding unique_indices
  All-unique_indices [] h = tt
  All-unique_indices (i ∷ is) (h, hs) = (h, All-unique_from i is hs)

module _ {Score : Type 0} (cs : List (AnnotatedSpan Score)) (R : ℕ → ℕ → Type 0) where
  Pairwise-unique_from :
      (last : ℕ) (is : List ℕ) → Pairwise R is → Pairwise R (unique_from cs last is)
  unfolding unique_from
  Pairwise-unique_from last [] h = tt
  Pairwise-unique_from last (i ∷ is) (h, hs) =
      elim (Bool-cases (same_annotation (candidate cs last) (candidate cs i))) [
        | inl e ↦ rw (e, unique_from) (Pairwise-unique_from last is hs)
        | inr e ↦
            rw (e, unique_from) (All-unique_from cs (R i) i is h, Pairwise-unique_from i is hs)
      ]

  pub Pairwise-unique_indices : (is : List ℕ) → Pairwise R is → Pairwise R (unique_indices cs is)
  unfolding unique_indices
  Pairwise-unique_indices [] h = tt
  Pairwise-unique_indices (i ∷ is) (h, hs) =
      (All-unique_from cs (R i) i is h, Pairwise-unique_from i is hs)

module _ {Score : Type 0} (state : State Score) (cs : List (AnnotatedSpan Score)) where
  pub All-keep_annotations :
      (P : AnnotatedSpan Score → Type 0) (is : List ℕ)
      → All (λ i. P (candidate cs i)) is
      → All (λ s. P s × (is_dropped state s ≡ false)) (keep_annotations state cs is)
  unfolding keep_annotations
  All-keep_annotations P [] h = tt
  All-keep_annotations P (i ∷ is) (h, hs) = elim (Bool-cases (is_dropped state (candidate cs i))) [
    | inl e ↦ rw (e, keep_annotations) (All-keep_annotations P is hs)
    | inr e ↦ rw (e, keep_annotations) ((h, e), All-keep_annotations P is hs)
  ]

  All-kept :
      (P : AnnotatedSpan Score → Type 0) (is : List ℕ)
      → All (λ i. P (candidate cs i)) is
      → All P (keep_annotations state cs is)
  unfolding keep_annotations
  All-kept P [] h = tt
  All-kept P (i ∷ is) (h, hs) = elim (Bool-cases (is_dropped state (candidate cs i))) [
    | inl e ↦ rw (e, keep_annotations) (All-kept P is hs)
    | inr e ↦ rw (e, keep_annotations) (h, All-kept P is hs)
  ]

  pub Pairwise-keep_annotations :
      (R : AnnotatedSpan Score → AnnotatedSpan Score → Type 0) (is : List ℕ)
      → Pairwise (λ i j. R (candidate cs i) (candidate cs j)) is
      → Pairwise R (keep_annotations state cs is)
  unfolding keep_annotations
  Pairwise-keep_annotations R [] h = tt
  Pairwise-keep_annotations R (i ∷ is) (h, hs) =
      elim (Bool-cases (is_dropped state (candidate cs i))) [
        | inl e ↦ rw (e, keep_annotations) (Pairwise-keep_annotations R is hs)
        | inr e ↦
            rw (e, keep_annotations)
              (All-kept (R (candidate cs i)) is h, Pairwise-keep_annotations R is hs)
      ]

module _ {Score : Type 0} (state : State Score) (enabled : UnicodeText → Bool) where
  module _ (P Q : AnnotatedSpan Score → Type 0)
      (step : (s : AnnotatedSpan Score) (c : ClassificationResult Score)
          (rest : List (ClassificationResult Score))
        → enabled_results enabled s.classification ≡ c ∷ rest
        → P s
        → Q (record s { classification = c ∷ rest })) where
    pub All-remove_not_enabled :
        (xs : List (AnnotatedSpan Score))
        → All P xs
        → All Q (remove_not_enabled_entity_types enabled xs)
    unfolding remove_not_enabled_entity_types
    All-remove_not_enabled [] h = tt
    All-remove_not_enabled (s ∷ xs) (h, hs) =
        elim (List-cases (enabled_results enabled s.classification)) [
          | inl e ↦ rw (e, remove_not_enabled_entity_types) (All-remove_not_enabled xs hs)
          | inr (c, rest, e) ↦
              rw (e, remove_not_enabled_entity_types)
                (step s c rest e h, All-remove_not_enabled xs hs)
        ]

  module _ (R : AnnotatedSpan Score → AnnotatedSpan Score → Type 0)
      (stable : (s t : AnnotatedSpan Score) (c d : List (ClassificationResult Score))
        → R s t
        → R (record s { classification = c }) (record t { classification = d })) where
    pub Pairwise-remove_not_enabled :
        (xs : List (AnnotatedSpan Score))
        → Pairwise R xs
        → Pairwise R (remove_not_enabled_entity_types enabled xs)
    unfolding remove_not_enabled_entity_types
    Pairwise-remove_not_enabled [] h = tt
    Pairwise-remove_not_enabled (s ∷ xs) (h, hs) =
        elim (List-cases (enabled_results enabled s.classification)) [
          | inl e ↦ rw (e, remove_not_enabled_entity_types) (Pairwise-remove_not_enabled xs hs)
          | inr (c, rest, e) ↦
              rw (e, remove_not_enabled_entity_types)
                (
                  All-remove_not_enabled (R s) (R (record s { classification = c ∷ rest }))
                      (λ t d more _ r. stable s t (c ∷ rest) (d ∷ more) r) xs h,
                  Pairwise-remove_not_enabled xs hs,
                )
        ]

    All-sort_stable :
        (s : AnnotatedSpan Score) (c : List (ClassificationResult Score))
        (xs : List (AnnotatedSpan Score))
        → All (R s) xs
        → All (R (record s { classification = c })) (sort_classifications state xs)
    unfolding sort_classifications
    All-sort_stable s c [] h = tt
    All-sort_stable s c (t ∷ xs) (h, hs) = (stable s t c _ h, All-sort_stable s c xs hs)

    pub Pairwise-sort_classifications :
        (xs : List (AnnotatedSpan Score))
        → Pairwise R xs
        → Pairwise R (sort_classifications state xs)
    unfolding sort_classifications
    Pairwise-sort_classifications [] h = tt
    Pairwise-sort_classifications (s ∷ xs) (h, hs) =
        (All-sort_stable s _ xs h, Pairwise-sort_classifications xs hs)

module _ {Score : Type 0} (state : State Score) (P Q : AnnotatedSpan Score → Type 0)
    (step : (s : AnnotatedSpan Score)
      → P s
      → Q (record s { classification = sort_classification_results state s.classification })) where
  pub All-sort_classifications :
      (xs : List (AnnotatedSpan Score)) → All P xs → All Q (sort_classifications state xs)
  unfolding sort_classifications
  All-sort_classifications [] h = tt
  All-sort_classifications (s ∷ xs) (h, hs) = (step s h, All-sort_classifications xs hs)
