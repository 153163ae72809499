-- ===== src/Annotator/Classify/Outcome.antt =====
-- `ClassifyText` returns the classes of the one candidate that the conflict resolution chooses.
use external_libtextclassifi.Prelude.{
  ℕ, ◌≤◌, ◌<◌, true, false, List, [], none, some, ◌≡◌, refl, sym, ◌∙◌, ◌⊎◌, inl, inr, All,
  Bool-cases, Option-cases, length, subst,
}
use external_libtextclassifi.Span.{CodepointSpan}
use external_libtextclassifi.Token.{Token}
use external_libtextclassifi.Conflict.{ClassificationResult, AnnotatedSpan}
use external_libtextclassifi.Conflict.Groups.{resolve_conflicts}
use external_libtextclassifi.Conflict.Groups.Sound.{resolve_conflicts-ascending}
use external_libtextclassifi.Annotator.State.{Context, State, resolver}
use external_libtextclassifi.Conflict.Resolve.{ScoreLength, gather}
use external_libtextclassifi.Conflict.Resolve.Choice.{range_from}
use external_libtextclassifi.Conflict.Resolve.Priority.{IsPriorityOrder, Outranked}
use external_libtextclassifi.Conflict.Groups.Single.{resolve_conflicts-Outranked}
use external_libtextclassifi.Annotator.Classify.{
  ClassificationOptions, Classifiers, collect_classification, kept_results, or_other, classifies,
  choose_classes, classify_text,
}
use external_libtextclassifi.Annotator.Classify.Chosen.{
  on_selection-AreCandidates, collect_classification-IsOnSelection, AreResults, or_other-AreResults,
  one_chosen, all_meet, classifies_ensures,
}

module _ {Score : Type 0} (state : State Score) (classifiers : Classifiers Score)
    (order : IsPriorityOrder state.ops) where
  -- The guards passed, the annotators answered, and the conflict resolution chose one candidate.
  pub record IsClassified (context : Context) (selection : CodepointSpan)
      (options : ClassificationOptions) (results : List (ClassificationResult Score)) : Type 0 where
    pub passes : classifies state context selection options ≡ true
    pub tokens : List Token
    pub candidates : List (AnnotatedSpan Score)
    pub collected :
        collect_classification classifiers context selection options ≡ some (tokens, candidates)
    pub indices : List ℕ
    pub resolved :
        resolve_conflicts (resolver state context tokens) candidates options.annotation_usecase
        ≡ some indices
    pub is_best :
        1 < length candidates
        → (scores : List (ℕ × ScoreLength Score)) × (gather
              (resolver state context tokens)
              candidates
              (length candidates)
              0
              []
              []
            ≡ some (range_from 0 (length candidates), scores))
          × ((k : ℕ)
              → k < length candidates
              → Outranked
                  (resolver state context tokens)
                  candidates
                  scores
                  options.annotation_usecase
                  indices
                  k)
    pub at_most_one : length indices ≤ 1
    pub at_least_one : 0 < length candidates → 0 < length indices
    pub in_range : All (λ i. i < length candidates) indices
    pub are_results : AreResults state candidates indices results

  -- A guard refuses, an annotator fails, or the conflict resolution does.
  abbrev pub IsRefused : Context → CodepointSpan → ClassificationOptions → Type 0
  IsRefused context selection options =
      (classifies state context selection options ≡ false)
      ⊎ (collect_classification classifiers context selection options ≡ none)
      ⊎ ((tokens : List Token) × (candidates : List (AnnotatedSpan Score)) × (collect_classification
              classifiers context selection options
            ≡ some (tokens, candidates))
          × (resolve_conflicts (resolver state context tokens) candidates options.annotation_usecase
              ≡ none))

  choose_classes-IsClassified :
      (context : Context) (selection : CodepointSpan) (options : ClassificationOptions)
      (tokens : List Token) (candidates : List (AnnotatedSpan Score))
      → classifies state context selection options ≡ true
      → collect_classification classifiers context selection options ≡ some (tokens, candidates)
      → ((choose_classes state context options.annotation_usecase tokens candidates ≡ [])
          × (resolve_conflicts (resolver state context tokens) candidates options.annotation_usecase
              ≡ none))
        ⊎ IsClassified context selection options
            (choose_classes state context options.annotation_usecase tokens candidates)
  unfolding choose_classes
  choose_classes-IsClassified context selection options tokens candidates passes collected =
      let a = resolver state context tokens in
      let usecase = options.annotation_usecase in
      let (is_smart, ne) = classifies_ensures state context selection options passes in
      let on =
        collect_classification-IsOnSelection classifiers context selection options collected in
      elim (Option-cases (resolve_conflicts a candidates usecase)) [
        | inl failed ↦ inl (rw (failed, choose_classes) refl, failed)
        | inr (indices, e) ↦
            let (most, least) =
              one_chosen state context tokens selection candidates ne on
                (subst (λ u. resolve_conflicts a candidates u ≡ some indices) is_smart e) in
            let results : choose_classes state context usecase tokens candidates
                ≡ or_other state (kept_results state candidates indices) =
              rw (e, choose_classes) refl in
            inr (record {
              passes = passes;
              tokens = tokens;
              candidates = candidates;
              collected = collected;
              indices = indices;
              resolved = e;
              is_best = λ many.
                  resolve_conflicts-Outranked a candidates usecase
                    (on_selection-AreCandidates selection candidates ne on)
                    (all_meet state context tokens selection candidates ne on) order many e;
              at_most_one = most;
              at_least_one = least;
              in_range =
                  (resolve_conflicts-ascending a candidates usecase
                    (on_selection-AreCandidates selection candidates ne on) e).0;
              are_results = subst (AreResults state candidates indices) (sym results) (
                  or_other-AreResults state (record { asymm = order.asymm; trans = order.trans })
                    candidates indices);
            })
      ]

  -- If scores are ordered as floats without NaN are, `ClassifyText` either returns nothing, and a guard
  -- refused, an annotator failed or the conflict resolution failed. Or the guards passed, the annotators answered, and the conflict resolution chose one of their candidates, or none
  -- if there was none: one whose priority is as great as that of every other at least, and which is as
  -- long at least where priorities are equal and the longest annotation is preferred. The results are then exactly the chosen one's classes that are not filtered, by falling score, or the single class
  -- "other" where there is no such class.
  pub classify_text-IsClassified :
      (context : Context) (selection : CodepointSpan) (options : ClassificationOptions)
      → ((classify_text state classifiers context selection options ≡ [])
          × IsRefused context selection options)
        ⊎ IsClassified context selection options
            (classify_text state classifiers context selection options)
  unfolding classify_text
  classify_text-IsClassified context selection options =
      elim (Bool-cases (classifies state context selection options)) [
        | inr refused ↦ inl (rw (refused, classify_text) refl, inl refused)
        | inl passes ↦
            elim (Option-cases (collect_classification classifiers context selection options)) [
              | inl failed ↦ inl (rw (passes, failed, classify_text) refl, inr (inl failed))
              | inr ((tokens, candidates), collected) ↦
                  let same : classify_text state classifiers context selection options
                      ≡ choose_classes state context options.annotation_usecase tokens candidates =
                    rw (passes, collected, classify_text) refl in
                  elim (choose_classes-IsClassified context selection options tokens candidates
                    passes collected) [
                      | inl (e, failed) ↦
                          inl (same ∙ e, inr (inr (tokens, candidates, collected, failed)))
                      | inr c ↦ inr (subst (IsClassified context selection options) (sym same) c)
                    ]
            ]
      ]
