-- ===== src/Annotator/Select/Best.antt =====
-- `SuggestSelection` returns the click, or the best candidate that the click meets.
use external_libtextclassifi.Prelude.{
  All-self, ℕ, true, false, List, some, ◌≡◌, refl, ◌⊎◌, inl, inr, Any, All-of_sort, All-sort,
  sort-Pairwise, Bool-cases, Option-cases, sort, ◌∙◌,
}
use external_libtextclassifi.Span.{CodepointSpan}
use external_libtextclassifi.Text.{UniLib}
use external_libtextclassifi.Token.{Token}
use external_libtextclassifi.Conflict.{Usecase, AnnotatedSpan, span_at}
use external_libtextclassifi.Conflict.Groups.{resolve_conflicts}
use external_libtextclassifi.Conflict.Resolve.Choice.{All-Any}
use external_libtextclassifi.Annotator.State.{Context, State, resolver}
use external_libtextclassifi.Annotator.Annotate.Settled.{IsScoreOrder}
use external_libtextclassifi.Annotator.Select.{
  SelectionOptions, Selectors, collect_selection, starts_first, by_priority, pick, selects, snapped,
  select_candidate, suggest_selection,
}
use external_libtextclassifi.Annotator.Select.Picked.{IsBest, pick-Picks}

module _ {Score : Type 0} (state : State Score) (selectors : Selectors Score) (lib : UniLib)
    (order : IsScoreOrder state.ops.greater) where
  -- The result is the span of a collected candidate that the conflict resolution chose.
  pub record IsSelected (context : Context) (options : SelectionOptions)
      (original result : CodepointSpan) : Type 0 where
    pub passes : selects state selectors lib context original options ≡ true
    pub tokens : List Token
    pub candidates : List (AnnotatedSpan Score)
    pub collected :
        collect_selection selectors context options (snapped state selectors lib context original)
        ≡ some (tokens, candidates)
    pub indices : List ℕ
    pub resolved :
        resolve_conflicts
          (resolver state context tokens)
          (sort starts_first candidates)
          options.annotation_usecase
        ≡ some indices
    pub index : ℕ
    pub is_best :
        IsBest state context tokens
          (snapped state selectors lib context original)
          original
          (sort starts_first candidates)
          indices
          index
    pub same_span : result ≡ span_at (sort starts_first candidates) index

  select_candidate-IsBest :
      (context : Context) (usecase : Usecase) (click original : CodepointSpan) (tokens : List Token)
      (candidates : List (AnnotatedSpan Score)) (indices : List ℕ)
      → resolve_conflicts (resolver state context tokens) (sort starts_first candidates) usecase
        ≡ some indices
      → (select_candidate state selectors lib context usecase click original tokens candidates
          ≡ original)
        ⊎ ((i : ℕ) × IsBest state context tokens click original
              (sort starts_first candidates)
              indices
              i
            × (select_candidate state selectors lib context usecase click original tokens candidates
                ≡ span_at (sort starts_first candidates) i))
  unfolding select_candidate by_priority
  select_candidate-IsBest context usecase click original tokens candidates indices e =
      let sorted = sort starts_first candidates in
      let less = by_priority state context tokens sorted in
      let ordered =
        sort-Pairwise less (λ i j. less j i ≡ false) (λ i j. order.asymm _ _) (λ i j h. h)
          (λ i j k. order.trans _ _ _) indices in
      let same : select_candidate state selectors lib context usecase click original tokens
            candidates
          ≡ pick state context tokens click original sorted (sort less indices) =
        rw (e, select_candidate) refl in
      elim (pick-Picks state context tokens click original sorted order (sort less indices)
        ordered) [
          | inl none_there ↦ inl (same ∙ none_there)
          | inr (i, found, hit, best, (class, classified, shown, result)) ↦ inr (
            i,
            record {
              chosen =
                  All-Any (λ k. Any (λ j. j ≡ k) indices) i _
                    (All-sort less _ indices (All-self indices indices (λ k h. h))) found;
              hit = hit;
              best = All-of_sort less _ indices best;
              class = class;
              classified = classified;
              shown = shown;
            },
            same ∙ result,
          )
        ]

  select_candidate-Chosen :
      (context : Context) (usecase : Usecase) (click original : CodepointSpan) (tokens : List Token)
      (candidates : List (AnnotatedSpan Score))
      → (select_candidate state selectors lib context usecase click original tokens candidates
          ≡ original)
        ⊎ ((indices : List ℕ) × (resolve_conflicts
                (resolver state context tokens)
                (sort starts_first candidates)
                usecase
              ≡ some indices)
            × (i : ℕ) × IsBest state context tokens click original
                (sort starts_first candidates)
                indices
                i
            × (select_candidate state selectors lib context usecase click original tokens candidates
                ≡ span_at (sort starts_first candidates) i))
  unfolding select_candidate
  select_candidate-Chosen context usecase click original tokens candidates =
      elim (Option-cases (
        resolve_conflicts (resolver state context tokens) (sort starts_first candidates) usecase)) [
          | inl unresolved ↦ inl (rw (unresolved, select_candidate) refl)
          | inr (indices, e) ↦
              elim (select_candidate-IsBest context usecase click original tokens candidates indices
                e) [
                  | inl clicked ↦ inl clicked
                  | inr (i, best, result) ↦ inr (indices, e, i, best, result)
                ]
        ]

  -- If scores are ordered as floats without NaN are, `SuggestSelection` returns the click, or the
  -- guards passed and the result is the span of a candidate of the annotators that the conflict
  -- resolution chose, that meets the click before and after it was snapped, that has the greatest
  -- priority of those, and whose class is not filtered.
  pub suggest_selection-IsSelected :
      (context : Context) (original : CodepointSpan) (options : SelectionOptions)
      → (suggest_selection state selectors lib context original options ≡ original)
        ⊎ IsSelected context options original
            (suggest_selection state selectors lib context original options)
  unfolding suggest_selection
  suggest_selection-IsSelected context original options =
      let click = snapped state selectors lib context original in
      let usecase = options.annotation_usecase in
      elim (Bool-cases (selects state selectors lib context original options)) [
        | inr refused ↦ inl (rw (refused, suggest_selection) refl)
        | inl passes ↦ elim (Option-cases (collect_selection selectors context options click)) [
          | inl failed ↦ inl (rw (passes, failed, suggest_selection) refl)
          | inr ((tokens, candidates), collected) ↦
              let same : suggest_selection state selectors lib context original options
                  ≡ select_candidate state selectors lib context usecase click original tokens
                      candidates =
                rw (passes, collected, suggest_selection) refl in
              elim (select_candidate-Chosen context usecase click original tokens candidates) [
                | inl e ↦ inl (same ∙ e)
                | inr (indices, resolved, i, best, e) ↦ inr (record {
                  passes = passes;
                  tokens = tokens;
                  candidates = candidates;
                  collected = collected;
                  indices = indices;
                  resolved = resolved;
                  index = i;
                  is_best = best;
                  same_span = same ∙ e;
                })
              ]
        ]
      ]
