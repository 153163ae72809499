-- ===== src/Annotator/Select.antt =====
-- native/annotator/annotator.cc: `SuggestSelection`.
pub mod Picked
pub mod Best
use external_libtextclassifi.Prelude.{
  ℕ, ltb_ℤ, Bool, true, false, not, ◌&&◌, List, [], ◌∷◌, ◌++◌, Option, none, some, ◌>>=◌,
  if◌then◌else◌, sort,
}
use external_libtextclassifi.Span.{CodepointSpan, spans_overlap}
use external_libtextclassifi.Text.{UnicodeText, UniLib, is_empty}
use external_libtextclassifi.Token.{Token}
use external_libtextclassifi.Conflict.{
  Usecase, smart, raw, ClassificationResult, AnnotatedSpan, candidate, span_at, get_priority_score,
}
use external_libtextclassifi.Conflict.Groups.{resolve_conflicts}
use external_libtextclassifi.Annotator.State.{
  Context, State, has_mode, mode_selection, is_valid_span_input, filtered_for_selection, resolver,
}
use external_libtextclassifi.Annotator.Annotate.{Chunk, call_engine}
use external_libtextclassifi.Annotator.Snap.{snap_left_if_whitespace_selection}

pub record SelectionOptions : Type 0 where
  pub detected_text_language_tags : UnicodeText
  pub annotation_usecase : Usecase

-- The annotators as `SuggestSelection` calls them, in this order.
pub record Selectors (Score : Type 0) : Type 0 where
  -- it makes the tokens that the others use
  pub model_suggest_selection :
      Context
      → UnicodeText
      → CodepointSpan
      → List (AnnotatedSpan Score)
      → Option (List Token × List (AnnotatedSpan Score))
  pub regex_chunk : Context → Chunk Score
  pub datetime_chunk : Context → Usecase → Chunk Score
  pub knowledge_engine : Option (Context → Usecase → Chunk Score)
  pub contact_engine : Option (Context → List Token → Chunk Score)
  pub installed_app_engine : Option (Context → List Token → Chunk Score)
  pub number_annotator : Option (Context → Usecase → Chunk Score)
  pub duration_annotator : Option (Context → List Token → Usecase → Chunk Score)
  pub person_name_engine : Option (Context → List Token → Chunk Score)
  -- `none` as an answer is false
  pub grammar_annotator :
      Option (UnicodeText → Context → CodepointSpan → Option (AnnotatedSpan Score))
  pub experimental_annotator : Option (Context → CodepointSpan → AnnotatedSpan Score)

module _ {Score : Type 0} (selectors : Selectors Score) where
  -- A span of the grammar annotator is no more than a candidate; its failure is ignored.
  unfoldable pub grammar_candidates :
      Context → SelectionOptions → CodepointSpan → List (AnnotatedSpan Score)
  grammar_candidates context options click_indices = elim selectors.grammar_annotator [
    | none ↦ []
    | some suggest ↦ elim (suggest options.detected_text_language_tags context click_indices) [
      | none ↦ []
      | some grammar_suggested_span ↦ grammar_suggested_span ∷ []
    ]
  ]

  unfoldable pub experimental_candidates : Context → CodepointSpan → List (AnnotatedSpan Score)
  experimental_candidates context click_indices = elim selectors.experimental_annotator [
    | none ↦ []
    | some suggest ↦ suggest context click_indices ∷ []
  ]

  -- The calls of the annotators; `none` where one fails.
  unfoldable pub collect_selection :
      Context → SelectionOptions → CodepointSpan → Option (List Token × List (AnnotatedSpan Score))
  collect_selection context options click_indices = do
    let usecase = options.annotation_usecase
    found ←
        selectors.model_suggest_selection context options.detected_text_language_tags click_indices
          []
    let tokens = found.0
    c1 ← selectors.regex_chunk context found.1
    c2 ← selectors.datetime_chunk context usecase c1
    c3 ← call_engine selectors.knowledge_engine (λ e. e context usecase) c2
    c4 ← call_engine selectors.contact_engine (λ e. e context tokens) c3
    c5 ← call_engine selectors.installed_app_engine (λ e. e context tokens) c4
    c6 ← call_engine selectors.number_annotator (λ e. e context usecase) c5
    c7 ← call_engine selectors.duration_annotator (λ e. e context tokens usecase) c6
    c8 ← call_engine selectors.person_name_engine (λ e. e context tokens) c7
    some (
      tokens,
      c8
          ++ grammar_candidates context options click_indices
          ++ experimental_candidates context click_indices,
    )

unfoldable pub starts_first : {Score : Type 0} → AnnotatedSpan Score → AnnotatedSpan Score → Bool
starts_first a b = ltb_ℤ a.span.first b.span.first

module _ {Score : Type 0} (state : State Score) (context : Context) (tokens : List Token) where
  -- The comparator of the candidates that are left.
  unfoldable pub by_priority : List (AnnotatedSpan Score) → ℕ → ℕ → Bool
  by_priority candidates a b =
      state.ops.greater
        (get_priority_score (resolver state context tokens) (candidate candidates a).classification)
        (get_priority_score (resolver state context tokens) (candidate candidates b).classification)

  -- A candidate with no class is classified, without cached tokens, where a filter asks for it. `none`
  -- is a failure.
  unfoldable pub selection_class : AnnotatedSpan Score → Option (List (ClassificationResult Score))
  selection_class c =
      if is_empty c.classification
        && state.always_classify_suggested_selection
        && not (is_empty state.filtered_collections_selection)
      then state.model_classify_text context [] c.span
      else some c.classification

  -- The candidate that is hit is returned, unless it is filtered.
  unfoldable pub offer : CodepointSpan → AnnotatedSpan Score → CodepointSpan
  offer original_click_indices c = elim (selection_class c) [
    | none ↦ original_click_indices
    | some classification ↦
        if filtered_for_selection state classification then original_click_indices else c.span
  ]

  unfoldable pub hits : CodepointSpan → CodepointSpan → AnnotatedSpan Score → Bool
  hits click_indices original_click_indices c =
      spans_overlap c.span click_indices && spans_overlap c.span original_click_indices

  -- The last loop.
  unfoldable pub pick :
      CodepointSpan → CodepointSpan → List (AnnotatedSpan Score) → List ℕ → CodepointSpan
  pick click_indices original_click_indices candidates [] = original_click_indices
  pick click_indices original_click_indices candidates (i ∷ indices) =
      elim (hits click_indices original_click_indices (candidate candidates i)) [
        | true ↦ offer original_click_indices (candidate candidates i)
        | false ↦ pick click_indices original_click_indices candidates indices
      ]

module _ {Score : Type 0} (state : State Score) (selectors : Selectors Score) (lib : UniLib) where
  -- The guards.
  unfoldable pub selects : Context → CodepointSpan → SelectionOptions → Bool
  selects context click_indices options =
      state.initialized
      && (elim options.annotation_usecase [ smart ↦ true | raw ↦ false ])
      && has_mode state mode_selection
      && state.is_any_locale_supported options.detected_text_language_tags
      && is_valid_span_input context click_indices

  unfoldable pub snapped : Context → CodepointSpan → CodepointSpan
  snapped context click_indices =
      if state.snap_whitespace_selections
      then snap_left_if_whitespace_selection lib context.text click_indices
      else click_indices

  -- The part from the sort of the candidates on.
  unfoldable pub select_candidate :
      Context
      → Usecase
      → CodepointSpan
      → CodepointSpan
      → List Token
      → List (AnnotatedSpan Score)
      → CodepointSpan
  select_candidate context usecase click_indices original_click_indices tokens candidates =
      let sorted = sort starts_first candidates in
      elim (resolve_conflicts (resolver state context tokens) sorted usecase) [
        | none ↦ original_click_indices
        | some candidate_indices ↦
            pick state context tokens click_indices original_click_indices sorted
              (sort (by_priority state context tokens sorted) candidate_indices)
      ]

  -- `SuggestSelection`
  unfoldable pub suggest_selection : Context → CodepointSpan → SelectionOptions → CodepointSpan
  suggest_selection context original_click_indices options =
      if not (selects context original_click_indices options)
      then original_click_indices
      else let click_indices = snapped context original_click_indices in
        elim (collect_selection selectors context options click_indices) [
          | none ↦ original_click_indices
          | some (tokens, candidates) ↦
              select_candidate context options.annotation_usecase click_indices
                original_click_indices tokens candidates
        ]
