-- ===== src/Annotator/Annotate/Composed.antt =====
-- `AnnotateSingleInput` as a whole: its annotators, the conflict resolution and the filters.
use external_libtextclassifi.Prelude.{
  All-self, ◌<◌, ◌≤◌, List, some, ◌≡◌, inl, inr, All, All-sort, Pairwise-map, Option-cases, length,
  sort, subst,
}
use external_libtextclassifi.Token.{Token}
use external_libtextclassifi.Conflict.{AnnotatedSpan}
use external_libtextclassifi.Conflict.Groups.{resolve_conflicts}
use external_libtextclassifi.Conflict.Groups.Partition.{candidates_sorted}
use external_libtextclassifi.Conflict.Groups.Sound.{
  resolve_conflicts-ascending, resolve_conflicts-compatible,
}
use external_libtextclassifi.Annotator.Status.{
  Status, value, failure, or_internal, ◌>>=◌, >>=-eq-value, or_internal-eq-value,
}
use external_libtextclassifi.Annotator.State.{Context, State, resolver, is_entity_type_enabled}
use external_libtextclassifi.Annotator.Annotate.{
  Chunkers, AnnotationOptions, candidate_less, annotations, collect, settle, annotate_single_input,
  annotate_checked, check_input,
}
use external_libtextclassifi.Annotator.Annotate.Settled.{
  IsScoreOrder, IsFound, sort-AreCandidates, AreAnnotations, annotations-IsAnnotation,
  annotations-Pairwise,
}
use external_libtextclassifi.Annotator.Annotate.Engines.{AllFind, collect-IsFound}

failure-ne-value {ℓ} : {A : Type ℓ} {x : A} {s : Status} → failure s ≡ value x → ⊥
failure-ne-value h = cc

value-eq {ℓ} : {A : Type ℓ} {x y : A} → value x ≡ value y → x ≡ y
value-eq h = cc

module _ {Score : Type 0} (state : State Score) (context : Context) (options : AnnotationOptions)
    (order : IsScoreOrder state.ops.greater) where
  -- From the sort of the candidates on.
  settle-AreAnnotations :
      (tokens : List Token) (candidates : List (AnnotatedSpan Score))
      {result : List (AnnotatedSpan Score)}
      → All IsFound candidates
      → settle state context options tokens candidates ≡ value result
      → AreAnnotations state
          (is_entity_type_enabled options.entity_types)
          options.annotation_usecase
          context
          tokens
          candidates
          result
  unfolding settle
  settle-AreAnnotations tokens candidates {result} found h =
      let sorted = sort candidate_less candidates in
      let a = resolver state context tokens in
      let enabled = is_entity_type_enabled options.entity_types in
      let (indices, resolved, made) =
        >>=-eq-value
          (or_internal "Couldn't resolve conflicts."
            (resolve_conflicts a sorted options.annotation_usecase))
          (λ is. value (annotations state enabled sorted is)) h in
      let chosen = or_internal-eq-value _ _ resolved in
      let are = sort-AreCandidates candidates found in
      let (inside, ascending) =
        resolve_conflicts-ascending a sorted options.annotation_usecase are chosen in
      let same : annotations state enabled sorted indices ≡ result = value-eq made in
      subst (AreAnnotations state enabled options.annotation_usecase context tokens candidates) same
        (record {
          annotation =
              annotations-IsAnnotation state enabled options.annotation_usecase order candidates
                sorted indices
                (All-sort candidate_less _ candidates (All-self candidates candidates (λ x e. e)))
                inside;
          ordered =
              annotations-Pairwise state enabled options.annotation_usecase _ (λ s t c d r. r)
                sorted indices
                (Pairwise-map (λ i. i < length sorted) ◌≤◌ _
                  (λ i j hi hj le. candidates_sorted sorted i j are le hj) indices inside
                  ascending);
          apart =
              annotations-Pairwise state enabled options.annotation_usecase _ (λ s t c d r. r)
                sorted indices
                (resolve_conflicts-compatible a sorted options.annotation_usecase are chosen);
        })

module _ {Score : Type 0} (state : State Score) (chunkers : Chunkers Score) (context : Context)
    (options : AnnotationOptions) (order : IsScoreOrder state.ops.greater)
    (find : AllFind chunkers context options) where
  -- The candidates that the annotators collect, with the tokens of the model.
  abbrev pub IsCollected :
      List (AnnotatedSpan Score) → List Token → List (AnnotatedSpan Score) → Type 0
  IsCollected candidates tokens all =
      (c0 : List (AnnotatedSpan Score)) × (chunkers.model_annotate context
          options.detected_text_language_tags candidates
        ≡ some (tokens, c0))
      × (collect chunkers context options tokens c0 ≡ value all)

  checked :
      (cs : List (AnnotatedSpan Score)) {r : List (AnnotatedSpan Score)}
      → annotate_single_input state chunkers context options cs ≡ value r
      → annotate_checked state chunkers context options cs ≡ value r
  unfolding annotate_single_input
  checked cs e = elim (Option-cases (check_input state context options)) [
    | inl ok ↦ rw (ok, annotate_single_input) at e
    | inr (s, bad) ↦ absurd (failure-ne-value (rw (bad, annotate_single_input) at e))
  ]

  -- If scores are ordered as floats without NaN are, and each annotator finds only candidates that have
  -- a codepoint and a class, then the annotations that `AnnotateSingleInput` returns are in the order of
  -- their starts; no two of them overlap while the use case lets their sources conflict; and each is a
  -- collected candidate that is neither "other" nor filtered, with exactly its enabled classes, at
  -- least one, by falling score.
  pub annotate_single_input-AreAnnotations :
      (candidates : List (AnnotatedSpan Score)) {result : List (AnnotatedSpan Score)}
      → All IsFound candidates
      → annotate_single_input state chunkers context options candidates ≡ value result
      → (tokens : List Token) × (all : List (AnnotatedSpan Score)) × IsCollected candidates tokens
          all
        × AreAnnotations state
            (is_entity_type_enabled options.entity_types)
            options.annotation_usecase
            context
            tokens
            all
            result
  unfolding annotate_checked
  annotate_single_input-AreAnnotations candidates h e =
      let (found, ran, e1) =
        >>=-eq-value
          (or_internal "Couldn't run ModelAnnotate."
            (chunkers.model_annotate context options.detected_text_language_tags candidates))
          (λ found. collect chunkers context options found.0 found.1 >>= λ all.
            settle state context options found.0 all)
          (checked candidates e) in
      let (all, collected, e2) =
        >>=-eq-value (collect chunkers context options found.0 found.1)
          (λ all. settle state context options found.0 all) e1 in
      let model = or_internal-eq-value _ _ ran in
      (
        found.0,
        all,
        (found.1, model, collected),
        settle-AreAnnotations state context options order found.0 all
            (collect-IsFound chunkers context options find found.0 found.1
              (find.model candidates found h model) collected)
            e2,
      )
