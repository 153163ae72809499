-- ===== src/Annotator/Classify/Chosen.antt =====
-- `ClassifyText`: candidates with one span, of which the conflict resolution chooses one, and the results
-- that the code makes of it.
use external_libtextclassifi.Prelude.{
  ℕ, ◌≤◌, ◌<◌, ◌≤ℤ◌, Bool, true, false, List, [], ◌∷◌, some, ◌≡◌, refl, sym, ◌⊎◌, inl, inr, arith,
  All, Any, Pairwise, All-append, All-map, All-sort, Any-sort, sort-Pairwise, List-cases, ◌>>=◌,
  >>=-eq-some, length, sort, subst,
}
use external_libtextclassifi.Span.{CodepointSpan, spans_overlap}
use external_libtextclassifi.Span.Overlap.{IsNonEmpty}
use external_libtextclassifi.Text.{codes}
use external_libtextclassifi.Token.{Token}
use external_libtextclassifi.Conflict.{
  smart, raw, Usecase, ClassificationResult, AnnotatedSpan, span_at, do_sources_conflict,
}
use external_libtextclassifi.Conflict.Resolve.{needs_conflict_resolution}
use external_libtextclassifi.Conflict.Resolve.Greedy.{clash}
use external_libtextclassifi.Conflict.Groups.{resolve_conflicts}
use external_libtextclassifi.Conflict.Groups.Partition.{AreCandidates, All-get_or}
use external_libtextclassifi.Conflict.Groups.Sound.{
  resolve_conflicts-ascending, resolve_conflicts-compatible, resolve_conflicts-maximal,
}
use external_libtextclassifi.Annotator.State.{Context, State, resolver, is_valid_span_input}
use external_libtextclassifi.Annotator.Annotate.Settled.{IsScoreOrder}
use external_libtextclassifi.Annotator.Classify.{
  ClassificationOptions, Classifiers, collect_classification, all_candidates, kept_results,
  or_other, classifies,
}
use external_libtextclassifi.Annotator.Classify.Kept.{
  IsOnSelection, ask-IsOnSelection, one_each-IsOnSelection, all_in_one-IsOnSelection, IsShown,
  kept_results-IsShown, kept_results-all,
}

some-eq {ℓ} : {A : Type ℓ} {x y : A} → some x ≡ some y → x ≡ y
some-eq h = cc

module _ {Score : Type 0} where
  pub on_selection-AreCandidates :
      (selection : CodepointSpan) (cs : List (AnnotatedSpan Score))
      → IsNonEmpty selection
      → All (IsOnSelection selection) cs
      → AreCandidates cs
  on_selection-AreCandidates selection [] ne h = tt
  on_selection-AreCandidates selection (c ∷ cs) ne (h, hs) = (
    subst IsNonEmpty (sym h) ne,
    All-map _ (λ d. c.span.first ≤ℤ d.span.first)
        (λ d e.
          subst (λ s. c.span.first ≤ℤ s.first) (sym e)
            (subst (λ s. s.first ≤ℤ selection.first) (sym h) (omega arith)))
        cs hs,
    on_selection-AreCandidates selection cs ne hs,
  )

  all_candidates-IsOnSelection :
      (classifiers : Classifiers Score) (context : Context) (selection : CodepointSpan)
      (options : ClassificationOptions) (regex date model : List (ClassificationResult Score))
      → All
          (IsOnSelection selection)
          (all_candidates classifiers context selection options regex date model)
  unfolding all_candidates
  all_candidates-IsOnSelection classifiers context selection options regex date model =
      search (All-append, ask-IsOnSelection, one_each-IsOnSelection, all_in_one-IsOnSelection) depth
        20 fits 3000

  pub collect_classification-IsOnSelection :
      (classifiers : Classifiers Score) (context : Context) (selection : CodepointSpan)
      (options : ClassificationOptions) {r : List Token × List (AnnotatedSpan Score)}
      → collect_classification classifiers context selection options ≡ some r
      → All (IsOnSelection selection) r.1
  unfolding collect_classification
  collect_classification-IsOnSelection classifiers context selection options {r} h0 =
      let all = all_candidates classifiers context selection options in
      let (r1, e1, h1) =
        >>=-eq-some (classifiers.regex_classify_text context selection)
          (λ r1. classifiers.datetime_classify_text context selection options >>= λ r2.
            classifiers.model_classify_text context options.detected_text_language_tags selection
            >>= λ r3. some (r3.0, all r1 r2 r3.1))
          h0 in
      let (r2, e2, h2) =
        >>=-eq-some (classifiers.datetime_classify_text context selection options)
          (λ r2.
            classifiers.model_classify_text context options.detected_text_language_tags selection
            >>= λ r3. some (r3.0, all r1 r2 r3.1))
          h1 in
      let (r3, e3, h3) =
        >>=-eq-some
          (classifiers.model_classify_text context options.detected_text_language_tags selection)
          (λ r3. some (r3.0, all r1 r2 r3.1)) h2 in
      let same : (r3.0, all_candidates classifiers context selection options r1 r2 r3.1) ≡ r =
        some-eq h3 in
      subst (λ (p : List Token × List (AnnotatedSpan Score)). All (IsOnSelection selection) p.1)
        same (all_candidates-IsOnSelection classifiers context selection options r1 r2 r3.1)

module _ {Score : Type 0} (state : State Score) where
  -- The results are the classes of the chosen candidate that are not filtered, by falling score; or
  -- "other", where there is none.
  abbrev pub AreResults :
      List (AnnotatedSpan Score) → List ℕ → List (ClassificationResult Score) → Type 0
  AreResults candidates indices results =
      (((c : ClassificationResult Score) → IsShown state candidates indices c → ⊥)
        × (results
            ≡ record {
              collection = codes "other";
              score = state.one_score;
              priority_score = state.one_score;
            }
              ∷ []))
      ⊎ (All (IsShown state candidates indices) results
          × ((c : ClassificationResult Score)
              → IsShown state candidates indices c
              → Any (λ d. d ≡ c) results)
          × Pairwise (λ c d. state.ops.greater d.score c.score ≡ false) results
          × (0 < length results))

  pub or_other-AreResults :
      IsScoreOrder state.ops.greater
      → (candidates : List (AnnotatedSpan Score)) (indices : List ℕ)
      → AreResults candidates indices (or_other state (kept_results state candidates indices))
  unfolding or_other
  or_other-AreResults order candidates indices =
      let kept = kept_results state candidates indices in
      let less = λ (a : ClassificationResult Score) (b : ClassificationResult Score).
        state.ops.greater a.score b.score in
      let shown = All-sort less _ kept (kept_results-IsShown state candidates indices) in
      let all = λ (c : ClassificationResult Score) (h : IsShown state candidates indices c).
        Any-sort less (λ d. d ≡ c) kept (kept_results-all state candidates c indices h) in
      let falling =
        sort-Pairwise less (λ c d. state.ops.greater d.score c.score ≡ false)
          (λ x y. order.asymm x.score y.score) (λ x y h. h)
          (λ x y z. order.trans x.score y.score z.score) kept in
      elim (List-cases (sort less kept)) [
        | inl empty ↦ inl (λ c h. no_member c _ empty (all c h), rw (empty, or_other) refl)
        | inr (r, rs, e) ↦ subst (AreResults candidates indices) (sym (or_other_cons kept r rs e)) (
            inr (
              subst (All (IsShown state candidates indices)) e shown,
              (λ c h. subst (Any (λ d. d ≡ c)) e (all c h)),
              subst (Pairwise (λ c d. state.ops.greater d.score c.score ≡ false)) e falling,
              omega arith,
            ))
      ]
    where
      no_member :
          (c : ClassificationResult Score) (xs : List (ClassificationResult Score))
          → xs ≡ []
          → Any (λ d. d ≡ c) xs
          → ⊥
      no_member c xs e h = subst (Any (λ d. d ≡ c)) e h

      or_other_cons :
          (kept : List (ClassificationResult Score)) (r : ClassificationResult Score)
          (rs : List (ClassificationResult Score))
          → sort (λ a b. state.ops.greater a.score b.score) kept ≡ r ∷ rs
          → or_other state kept ≡ r ∷ rs
      or_other_cons kept r rs e = rw (e, or_other) refl

  module _ (context : Context) (tokens : List Token) (selection : CodepointSpan)
      (candidates : List (AnnotatedSpan Score)) (ne : IsNonEmpty selection)
      (on : All (IsOnSelection selection) candidates) where
    same_span : (i : ℕ) → i < length candidates → span_at candidates i ≡ selection
    same_span i lt = All-get_or (IsOnSelection selection) candidates i on lt

    all_clash :
        (i j : ℕ)
        → i < length candidates
        → j < length candidates
        → clash (resolver state context tokens) candidates smart i j ≡ true
    unfolding needs_conflict_resolution do_sources_conflict spans_overlap
    all_clash i j hi hj = rw (same_span i hi, same_span j hj) (ground (arith, ne))

    pub all_meet :
        (i j : ℕ)
        → i < length candidates
        → j < length candidates
        → (span_at candidates i).second ≤ℤ (span_at candidates j).first
        → ⊥
    all_meet i j hi hj h =
        let inside_out : selection.second ≤ℤ selection.first =
          subst (λ s. s.second ≤ℤ selection.first) (same_span i hi)
            (subst (λ s. (span_at candidates i).second ≤ℤ s.first) (same_span j hj) h) in
        omega (arith, ne, inside_out)

    -- Of candidates that all have one span, one is chosen, if there are any.
    pub one_chosen :
        {indices : List ℕ}
        → resolve_conflicts (resolver state context tokens) candidates smart ≡ some indices
        → (length indices ≤ 1) × (0 < length candidates → 0 < length indices)
    one_chosen {indices} e =
        let a = resolver state context tokens in
        let are = on_selection-AreCandidates selection candidates ne on in
        let (inside, _) = resolve_conflicts-ascending a candidates smart are e in
        (
          at_most_one indices inside (resolve_conflicts-compatible a candidates smart are e),
          λ lt. some_chosen _ indices (resolve_conflicts-maximal a candidates smart 0 are e lt),
        )
      where
        at_most_one :
            (is : List ℕ)
            → All (λ i. i < length candidates) is
            → Pairwise
                (λ i j. clash (resolver state context tokens) candidates smart i j ≡ false)
                is
            → length is ≤ 1
        at_most_one [] h p = omega arith
        at_most_one (i ∷ []) h p = omega arith
        at_most_one (i ∷ j ∷ is) (hi, (hj, _)) ((apart, _), _) =
            absurd (differ apart (all_clash i j hi hj))
          where
            differ : {b : Bool} → b ≡ false → b ≡ true → ⊥
            differ h k = cc

        some_chosen : (P : ℕ → Type 0) (is : List ℕ) → Any P is → 0 < length is
        some_chosen P [] h = absurd h
        some_chosen P (i ∷ is) h = omega arith

  smart_guard : (u : Usecase) → elim u [ smart ↦ true | raw ↦ false ] ≡ true → u ≡ smart
  smart_guard smart h = refl
  smart_guard raw h = cc

  -- What the guards ensure.
  pub classifies_ensures :
      (context : Context) (selection : CodepointSpan) (options : ClassificationOptions)
      → classifies state context selection options ≡ true
      → (options.annotation_usecase ≡ smart) × IsNonEmpty selection
  unfolding classifies is_valid_span_input
  classifies_ensures context selection options h =
      (smart_guard options.annotation_usecase (ground arith), ground arith)
