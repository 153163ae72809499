-- ===== src/Annotator/Annotate/Settled.antt =====
-- What `AnnotateSingleInput` makes of the candidates: annotations that come from them, in order, where none
-- overlaps one whose source excludes its own.
use external_libtextclassifi.Prelude.{
  All-self, ℕ, ◌<◌, ◌≤ℤ◌, Bool, true, false, ◌&&◌, List, [], ◌∷◌, ◌≡◌, refl, sym, inl, inr, arith,
  All, Any, Pairwise, All-map, All-sort, Any-sort, sort-Pairwise, Bool-cases, length, sort,
}
use external_libtextclassifi.Span.{spans_overlap}
use external_libtextclassifi.Span.Overlap.{IsNonEmpty}
use external_libtextclassifi.Text.{UnicodeText}
use external_libtextclassifi.Token.{Token}
use external_libtextclassifi.Conflict.{
  Usecase, do_sources_conflict, ClassificationResult, AnnotatedSpan, candidate,
}
use external_libtextclassifi.Conflict.Resolve.{needs_conflict_resolution}
use external_libtextclassifi.Conflict.Groups.Partition.{AreCandidates, All-get_or}
use external_libtextclassifi.Annotator.State.{Context, State, resolver}
use external_libtextclassifi.Annotator.Annotate.{
  candidate_less, enabled_results, sort_classification_results, is_dropped, annotations,
}
use external_libtextclassifi.Annotator.Annotate.Kept.{
  All-unique_indices, Pairwise-unique_indices, All-keep_annotations, Pairwise-keep_annotations,
  All-remove_not_enabled, Pairwise-remove_not_enabled, Pairwise-sort_classifications,
  All-sort_classifications,
}

-- What a comparison of floats that are no NaN satisfies.
pub record IsScoreOrder {Score : Type 0} (greater : Score → Score → Bool) : Type 0 where
  pub asymm : (x y : Score) → greater x y ≡ true → greater y x ≡ false
  pub trans : (x y z : Score) → greater y x ≡ false → greater z y ≡ false → greater z x ≡ false

module _ {Score : Type 0} where
  -- An annotation that an engine may find: its span is not empty, and it has a class.
  abbrev pub IsFound : AnnotatedSpan Score → Type 0
  IsFound c = IsNonEmpty c.span × (0 < length c.classification)

  sorted-AreCandidates :
      (cs : List (AnnotatedSpan Score))
      → Pairwise (λ c d. c.span.first ≤ℤ d.span.first) cs
      → All IsFound cs
      → AreCandidates cs
  sorted-AreCandidates [] p h = tt
  sorted-AreCandidates (c ∷ cs) (hp, p) (h, hs) = (h.0, hp, sorted-AreCandidates cs p hs)

  -- The sort of the candidates gives what the conflict resolution asks for.
  pub sort-AreCandidates :
      (cs : List (AnnotatedSpan Score)) → All IsFound cs → AreCandidates (sort candidate_less cs)
  unfolding candidate_less
  sort-AreCandidates cs h =
      sorted-AreCandidates _
        (sort-Pairwise candidate_less (λ c d. c.span.first ≤ℤ d.span.first) (λ c d e. ground arith)
          (λ c d e. ground arith) (λ c d e p q. omega arith) cs)
        (All-sort candidate_less IsFound cs h)

  module _ (enabled : UnicodeText → Bool) where
    All-enabled_results :
        (P : ClassificationResult Score → Type 0) (cs : List (ClassificationResult Score))
        → All P cs
        → All (λ c. (enabled c.collection ≡ true) × P c) (enabled_results enabled cs)
    unfolding enabled_results
    All-enabled_results P [] h = tt
    All-enabled_results P (c ∷ cs) (h, hs) = elim (Bool-cases (enabled c.collection)) [
      | inl e ↦ rw (e, enabled_results) ((e, h), All-enabled_results P cs hs)
      | inr e ↦ rw (e, enabled_results) (All-enabled_results P cs hs)
    ]

    Any-enabled_results :
        (d : ClassificationResult Score) (cs : List (ClassificationResult Score))
        → enabled d.collection ≡ true
        → Any (λ c. c ≡ d) cs
        → Any (λ c. c ≡ d) (enabled_results enabled cs)
    unfolding enabled_results
    Any-enabled_results d [] on h = absurd h
    Any-enabled_results d (c ∷ cs) on (inl e) =
        let here : enabled c.collection ≡ true = cc in rw (here, enabled_results) (inl e)
    Any-enabled_results d (c ∷ cs) on (inr h) = elim (Bool-cases (enabled c.collection)) [
      | inl e ↦ rw (e, enabled_results) (inr (Any-enabled_results d cs on h))
      | inr e ↦ rw (e, enabled_results) (Any-enabled_results d cs on h)
    ]

module _ {Score : Type 0} (state : State Score) (enabled : UnicodeText → Bool)
    (usecase : Usecase) where
  -- The spans overlap, while the use case lets their sources conflict.
  abbrev pub excludes : Context → List Token → AnnotatedSpan Score → AnnotatedSpan Score → Bool
  excludes context tokens r s =
      (needs_conflict_resolution (resolver state context tokens) usecase
        && do_sources_conflict usecase r.source s.source)
      && spans_overlap s.span r.span

  -- An annotation of the result: it has the span and the source of a candidate that is not filtered, and
  -- exactly the enabled ones of its classes, by falling score.
  pub record IsAnnotation (candidates : List (AnnotatedSpan Score)) (r : AnnotatedSpan Score)
      : Type 0 where
    pub origin : AnnotatedSpan Score
    pub found : Any (λ c. c ≡ origin) candidates
    pub shown : is_dropped state origin ≡ false
    pub same_span : r.span ≡ origin.span
    pub same_source : r.source ≡ origin.source
    pub classified : 0 < length r.classification
    pub from :
        All
          (λ c. (enabled c.collection ≡ true) × Any (λ d. d ≡ c) origin.classification)
          r.classification
    pub all :
        (d : ClassificationResult Score)
        → enabled d.collection ≡ true
        → Any (λ c. c ≡ d) origin.classification
        → Any (λ c. c ≡ d) r.classification
    pub falling : Pairwise (λ c d. state.ops.greater d.score c.score ≡ false) r.classification

  -- The annotation before its classes are sorted.
  abbrev IsEnabled : List (AnnotatedSpan Score) → AnnotatedSpan Score → Type 0
  IsEnabled candidates r =
      (o : AnnotatedSpan Score) × Any (λ c. c ≡ o) candidates
      × (is_dropped state o ≡ false)
      × (r.span ≡ o.span)
      × (r.source ≡ o.source)
      × (r.classification ≡ enabled_results enabled o.classification)
      × (0 < length r.classification)

  Any-not_empty :
      (P : ClassificationResult Score → Type 0) (xs : List (ClassificationResult Score))
      → Any P xs
      → 0 < length xs
  Any-not_empty P [] h = absurd h
  Any-not_empty P (x ∷ xs) h = omega arith

  sort_keeps_some :
      (xs : List (ClassificationResult Score))
      → 0 < length xs
      → 0 < length (sort_classification_results state xs)
  unfolding sort_classification_results
  sort_keeps_some [] h = absurd (omega arith)
  sort_keeps_some (x ∷ xs) h =
      Any-not_empty (λ c. c ≡ x) _ (Any-sort _ (λ c. c ≡ x) (x ∷ xs) (inl refl))

  sorted-IsAnnotation :
      IsScoreOrder state.ops.greater
      → (candidates : List (AnnotatedSpan Score)) (r : AnnotatedSpan Score) → IsEnabled candidates r
      → IsAnnotation candidates
          (record r { classification = sort_classification_results state r.classification })
  unfolding sort_classification_results
  sorted-IsAnnotation order candidates r (o, found, shown, span, source, results, some_result) =
      record {
        origin = o;
        found = found;
        shown = shown;
        same_span = span;
        same_source = source;
        classified = sort_keeps_some r.classification some_result;
        from =
            All-sort _ _ _ (
              rw results
                (All-enabled_results enabled _ _ (All-self o.classification _ (λ x h. h))));
        all = λ d on h.
            Any-sort _ _ _ (rw results (Any-enabled_results enabled d o.classification on h));
        falling =
            sort-Pairwise _ _ (λ x y. order.asymm x.score y.score) (λ x y h. h)
              (λ x y z. order.trans x.score y.score z.score) _;
      }

  pub annotations-IsAnnotation :
      IsScoreOrder state.ops.greater
      → (candidates sorted : List (AnnotatedSpan Score)) (indices : List ℕ)
      → All (λ s. Any (λ c. c ≡ s) candidates) sorted
      → All (λ i. i < length sorted) indices
      → All (IsAnnotation candidates) (annotations state enabled sorted indices)
  unfolding annotations
  annotations-IsAnnotation order candidates sorted indices all inside =
      All-sort_classifications state (IsEnabled candidates) (IsAnnotation candidates)
        (sorted-IsAnnotation order candidates) _
        (All-remove_not_enabled state enabled
          (λ s. Any (λ c. c ≡ s) candidates × (is_dropped state s ≡ false)) (IsEnabled candidates)
          (λ s c rest e h. (s, h.0, h.1, refl, refl, sym e, omega arith)) _
          (All-keep_annotations state sorted (λ s. Any (λ c. c ≡ s) candidates) _
            (All-unique_indices sorted _ _ (
              All-map _ _ (λ i lt. All-get_or (λ s. Any (λ c. c ≡ s) candidates) sorted i all lt) _
                inside))))

  -- A relation that looks at spans and sources only goes from the chosen candidates to the annotations.
  pub annotations-Pairwise :
      (R : AnnotatedSpan Score → AnnotatedSpan Score → Type 0)
      → ((s t : AnnotatedSpan Score) (c d : List (ClassificationResult Score))
          → R s t
          → R (record s { classification = c }) (record t { classification = d }))
      → (sorted : List (AnnotatedSpan Score)) (indices : List ℕ)
      → Pairwise (λ i j. R (candidate sorted i) (candidate sorted j)) indices
      → Pairwise R (annotations state enabled sorted indices)
  unfolding annotations
  annotations-Pairwise R stable sorted indices h =
      Pairwise-sort_classifications state enabled R stable _ (
        Pairwise-remove_not_enabled state enabled R stable _
          (Pairwise-keep_annotations state sorted R _ (Pairwise-unique_indices sorted _ indices h)))

  -- The result is in order, and no annotation excludes a later one.
  pub record AreAnnotations (context : Context) (tokens : List Token)
      (candidates result : List (AnnotatedSpan Score)) : Type 0 where
    pub annotation : All (IsAnnotation candidates) result
    pub ordered : Pairwise (λ r s. r.span.first ≤ℤ s.span.first) result
    pub apart : Pairwise (λ r s. excludes context tokens r s ≡ false) result
