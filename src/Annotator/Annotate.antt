-- ===== src/Annotator/Annotate.antt =====
-- native/annotator/annotator.cc: `AnnotateSingleInput`, from the calls of the annotators to the result.
pub mod Kept
pub mod Settled
pub mod Engines
pub mod Composed
pub mod Total
use Prim.Native.String.{String}
use external_libtextclassifi.Prelude.{
  ℕ, ℤ, suc, Bool, true, false, not, ◌&&◌, ◌||◌, List, [], ◌∷◌, Option, none, some, ltb_ℤ, eqb_ℤ,
  if◌then◌else◌, length, sort, map, ◌==◌,
}
use external_libtextclassifi.Text.{UnicodeText, codes, same_text, text_less}
use external_libtextclassifi.Token.{Token}
use external_libtextclassifi.Conflict.{
  Usecase, ClassificationResult, AnnotatedSpan, candidate, classified_as_other,
}
use external_libtextclassifi.Conflict.Groups.{resolve_conflicts}
use external_libtextclassifi.Annotator.Status.{
  StatusCode, invalid_argument, internal, unavailable, Status, StatusOr, value, failure, ◌>>=◌,
  or_internal,
}
use external_libtextclassifi.Annotator.State.{
  Context, State, has_mode, mode_annotation, is_entity_type_enabled, filtered_for_annotation,
  resolver,
}

pub record DatetimeOptions : Type 0 where
  pub reference_time_ms_utc : ℤ
  pub reference_timezone : UnicodeText

pub record AnnotationOptions : Type 0 where
  pub detected_text_language_tags : UnicodeText
  pub annotation_usecase : Usecase
  pub entity_types : List UnicodeText
  pub datetime : DatetimeOptions

-- A call of an engine that may append candidates.
abbrev pub Chunk : Type 0 → Type 0
Chunk Score = List (AnnotatedSpan Score) → Option (List (AnnotatedSpan Score))

-- The annotators, in the order in which they are called.
pub record Chunkers (Score : Type 0) : Type 0 where
  -- it makes the tokens that the others use
  pub model_annotate :
      Context
      → UnicodeText
      → List (AnnotatedSpan Score)
      → Option (List Token × List (AnnotatedSpan Score))
  pub regex_chunk : Context → Chunk Score
  pub datetime_chunk : Context → AnnotationOptions → Chunk Score
  pub contact_engine : Option (Context → List Token → Chunk Score)
  pub installed_app_engine : Option (Context → List Token → Chunk Score)
  pub number_annotator : Option (Context → Usecase → Chunk Score)
  pub duration_annotator : Option (Context → List Token → Usecase → Chunk Score)
  pub person_name_engine : Option (Context → List Token → Chunk Score)
  pub grammar_annotator : Option (UnicodeText → Context → Chunk Score)
  pub experimental_annotator : Option (Context → Chunk Score)

module _ {Score : Type 0} where
  -- An engine that is there, or whose entity types are enabled, is called.
  unfoldable pub call_if : Bool → Chunk Score → Chunk Score
  call_if b chunk candidates = if b then chunk candidates else some candidates

  unfoldable pub call_engine : {A : Type 0} → Option A → (A → Chunk Score) → Chunk Score
  call_engine none chunk candidates = some candidates
  call_engine (some engine) chunk candidates = chunk engine candidates

  -- The comparator of the candidates. A candidate with no classification has no first collection;
  -- the code reads past the end there.
  unfoldable pub head_collection : AnnotatedSpan Score → UnicodeText
  head_collection c = elim c.classification [ [] ↦ [] | r ∷ _ ↦ r.collection ]

  unfoldable pub candidate_less : AnnotatedSpan Score → AnnotatedSpan Score → Bool
  candidate_less a b =
      if not (eqb_ℤ a.span.first b.span.first)
      then ltb_ℤ a.span.first b.span.first
      else if not (eqb_ℤ a.span.second b.span.second)
      then ltb_ℤ a.span.second b.span.second
      else text_less (head_collection a) (head_collection b)

  -- Two candidates that overlap exactly and have the same collection.
  unfoldable pub same_annotation : AnnotatedSpan Score → AnnotatedSpan Score → Bool
  same_annotation a b =
      eqb_ℤ a.span.first b.span.first
      && eqb_ℤ a.span.second b.span.second
      && same_text (head_collection a) (head_collection b)

  -- `std::unique`, after the element that was kept last.
  unfoldable pub unique_from : List (AnnotatedSpan Score) → ℕ → List ℕ → List ℕ
  unique_from candidates last [] = []
  unique_from candidates last (i ∷ indices) =
      elim (same_annotation (candidate candidates last) (candidate candidates i)) [
        | true ↦ unique_from candidates last indices
        | false ↦ i ∷ unique_from candidates i indices
      ]

  unfoldable pub unique_indices : List (AnnotatedSpan Score) → List ℕ → List ℕ
  unique_indices candidates [] = []
  unique_indices candidates (i ∷ indices) = i ∷ unique_from candidates i indices

  unfoldable pub enabled_results :
      (UnicodeText → Bool) → List (ClassificationResult Score) → List (ClassificationResult Score)
  enabled_results enabled [] = []
  enabled_results enabled (c ∷ cs) = elim (enabled c.collection) [
    | true ↦ c ∷ enabled_results enabled cs
    | false ↦ enabled_results enabled cs
  ]

  -- `RemoveNotEnabledEntityTypes`
  unfoldable pub remove_not_enabled_entity_types :
      (UnicodeText → Bool) → List (AnnotatedSpan Score) → List (AnnotatedSpan Score)
  remove_not_enabled_entity_types enabled [] = []
  remove_not_enabled_entity_types enabled (s ∷ spans) =
      elim (enabled_results enabled s.classification) [
        | [] ↦ remove_not_enabled_entity_types enabled spans
        | c ∷ cs ↦
            record s { classification = c ∷ cs } ∷ remove_not_enabled_entity_types enabled spans
      ]

module _ {Score : Type 0} (state : State Score) where
  -- `SortClassificationResults`
  unfoldable pub sort_classification_results :
      List (ClassificationResult Score) → List (ClassificationResult Score)
  sort_classification_results = sort (λ a b. state.ops.greater a.score b.score)

  unfoldable pub is_dropped : AnnotatedSpan Score → Bool
  is_dropped s = elim s.classification [
    | [] ↦ true
    | c ∷ cs ↦ classified_as_other (c ∷ cs) || filtered_for_annotation state (c ∷ cs)
  ]

  -- The loop that fills the result.
  unfoldable pub keep_annotations : List (AnnotatedSpan Score) → List ℕ → List (AnnotatedSpan Score)
  keep_annotations candidates [] = []
  keep_annotations candidates (i ∷ indices) = elim (is_dropped (candidate candidates i)) [
    | true ↦ keep_annotations candidates indices
    | false ↦ candidate candidates i ∷ keep_annotations candidates indices
  ]

  unfoldable pub sort_classifications : List (AnnotatedSpan Score) → List (AnnotatedSpan Score)
  sort_classifications [] = []
  sort_classifications (s ∷ spans) =
      record s { classification = sort_classification_results s.classification }
      ∷ sort_classifications spans

  -- What follows the conflict resolution.
  unfoldable pub annotations :
      (UnicodeText → Bool) → List (AnnotatedSpan Score) → List ℕ → List (AnnotatedSpan Score)
  annotations enabled candidates candidate_indices = sort_classifications (
      remove_not_enabled_entity_types enabled
        (keep_annotations candidates (unique_indices candidates candidate_indices)))

  -- The guards of `AnnotateSingleInput`, with the status that each returns.
  unfoldable pub check_input : Context → AnnotationOptions → Option Status
  check_input context options =
      if not (has_mode state mode_annotation)
      then some (record { code = unavailable; message = "Model annotation was not enabled." })
      else if not context.is_valid
      then some (record { code = invalid_argument; message = "Context string isn't valid UTF8." })
      else if not (state.is_any_locale_supported options.detected_text_language_tags)
      then some (record {
        code = unavailable;
        message = "The detected language tags are not in the supported locales.";
      })
      else none

  -- The part of `AnnotateSingleInput` from the sort of the candidates on.
  unfoldable pub settle :
      Context
      → AnnotationOptions
      → List Token
      → List (AnnotatedSpan Score)
      → StatusOr (List (AnnotatedSpan Score))
  settle context options tokens candidates = do
    let sorted = sort candidate_less candidates
    candidate_indices ←
        or_internal "Couldn't resolve conflicts."
          (resolve_conflicts (resolver state context tokens) sorted options.annotation_usecase)
    value (annotations (is_entity_type_enabled options.entity_types) sorted candidate_indices)

module _ {Score : Type 0} (chunkers : Chunkers Score) where
  -- The calls of the annotators in `AnnotateSingleInput`, after `ModelAnnotate`.
  unfoldable pub collect :
      Context
      → AnnotationOptions
      → List Token
      → List (AnnotatedSpan Score)
      → StatusOr (List (AnnotatedSpan Score))
  collect context options tokens c0 = do
    let enabled = λ (s : String). is_entity_type_enabled options.entity_types (codes s)
    let usecase = options.annotation_usecase
    c1 ← or_internal "Couldn't run RegexChunk." (chunkers.regex_chunk context c0)
    c2 ← or_internal "Couldn't run DatetimeChunk." (
        call_if (enabled "date" || enabled "datetime") (chunkers.datetime_chunk context options) c1)
    c3 ←
        or_internal "Couldn't run contact engine Chunk."
          (call_engine chunkers.contact_engine (λ e. e context tokens) c2)
    c4 ←
        or_internal "Couldn't run installed app engine Chunk."
          (call_engine chunkers.installed_app_engine (λ e. e context tokens) c3)
    c5 ←
        or_internal "Couldn't run number annotator FindAll."
          (call_engine chunkers.number_annotator (λ e. e context usecase) c4)
    c6 ← or_internal "Couldn't run duration annotator FindAll." (
        call_if (enabled "duration")
          (call_engine chunkers.duration_annotator (λ e. e context tokens usecase)) c5)
    c7 ← or_internal "Couldn't run person name engine Chunk." (
        call_if (enabled "person_name")
          (call_engine chunkers.person_name_engine (λ e. e context tokens)) c6)
    c8 ← or_internal "Couldn't run grammar annotators." (
        call_engine chunkers.grammar_annotator (λ e. e options.detected_text_language_tags context)
          c7)
    or_internal "Couldn't run experimental annotator."
        (call_engine chunkers.experimental_annotator (λ e. e context) c8)

module _ {Score : Type 0} (state : State Score) (chunkers : Chunkers Score) where
  -- The part of `AnnotateSingleInput` behind its guards.
  unfoldable pub annotate_checked :
      Context
      → AnnotationOptions
      → List (AnnotatedSpan Score)
      → StatusOr (List (AnnotatedSpan Score))
  annotate_checked context options candidates = do
    found ←
        or_internal "Couldn't run ModelAnnotate."
          (chunkers.model_annotate context options.detected_text_language_tags candidates)
    all ← collect chunkers context options found.0 found.1
    settle state context options found.0 all

  -- `AnnotateSingleInput`, on the candidates that it is given.
  unfoldable pub annotate_single_input :
      Context
      → AnnotationOptions
      → List (AnnotatedSpan Score)
      → StatusOr (List (AnnotatedSpan Score))
  annotate_single_input context options candidates = elim (check_input state context options) [
    | some status ↦ failure status
    | none ↦ annotate_checked context options candidates
  ]
