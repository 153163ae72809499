-- ===== src/Annotator/Classify.antt =====
-- native/annotator/annotator.cc: `ClassifyText`.
pub mod Kept
pub mod Chosen
pub mod Outcome
use external_libtextclassifi.Prelude.{
  ℕ, Bool, true, false, not, ◌&&◌, List, [], ◌∷◌, ◌++◌, Option, none, some, ◌>>=◌, if◌then◌else◌,
  sort,
}
use external_libtextclassifi.Span.{CodepointSpan}
use external_libtextclassifi.Text.{UnicodeText, codes}
use external_libtextclassifi.Token.{Token}
use external_libtextclassifi.Conflict.{
  Source, other, knowledge, duration, datetime, person_name, Usecase, smart, raw,
  ClassificationResult, AnnotatedSpan, candidate,
}
use external_libtextclassifi.Conflict.Groups.{resolve_conflicts}
use external_libtextclassifi.Annotator.State.{
  Context, State, has_mode, mode_classification, is_valid_span_input, filtered_for_classification,
  resolver,
}
use external_libtextclassifi.Annotator.Annotate.{DatetimeOptions}

pub record ClassificationOptions : Type 0 where
  pub detected_text_language_tags : UnicodeText
  pub annotation_usecase : Usecase
  pub user_familiar_language_tags : UnicodeText
  pub datetime : DatetimeOptions

-- What an engine answers for a selection; `none` is false.
abbrev pub Answer : Type 0 → Type 0
Answer Score = CodepointSpan → Option (ClassificationResult Score)

-- The annotators as `ClassifyText` calls them, in this order.
pub record Classifiers (Score : Type 0) : Type 0 where
  pub knowledge_engine : Option (Context → Usecase → Answer Score)
  -- of the contact engine
  pub add_contact_metadata : Option (ClassificationResult Score → ClassificationResult Score)
  pub contact_engine : Option (Context → Answer Score)
  pub person_name_engine : Option (Context → Answer Score)
  pub installed_app_engine : Option (Context → Answer Score)
  pub regex_classify_text : Context → CodepointSpan → Option (List (ClassificationResult Score))
  pub datetime_classify_text :
      Context → CodepointSpan → ClassificationOptions → Option (List (ClassificationResult Score))
  pub number_annotator : Option (Context → Usecase → Answer Score)
  pub duration_annotator : Option (Context → Usecase → Answer Score)
  pub translate_annotator : Option (Context → UnicodeText → Answer Score)
  pub grammar_annotator : Option (UnicodeText → Context → Answer Score)
  pub experimental_annotator : Option (Context → Answer Score)
  -- `ModelClassifyText` with no cached tokens, which makes the tokens
  pub model_classify_text :
      Context
      → UnicodeText
      → CodepointSpan
      → Option (List Token × List (ClassificationResult Score))

module _ {Score : Type 0} (selection_indices : CodepointSpan) where
  -- `candidates.push_back`, with the source
  unfoldable pub classified : Source → List (ClassificationResult Score) → AnnotatedSpan Score
  classified source classification = record {
    span = selection_indices;
    classification = classification;
    source = source;
  }

  -- The candidate of an engine that is there and has an answer.
  unfoldable pub ask :
      {A : Type 0} → Source → Option A → (A → Answer Score) → List (AnnotatedSpan Score)
  ask source none call = []
  ask source (some engine) call = elim (call engine selection_indices) [
    | none ↦ []
    | some result ↦ classified source (result ∷ []) ∷ []
  ]

  -- Each regular expression gives a candidate of its own.
  unfoldable pub one_each : List (ClassificationResult Score) → List (AnnotatedSpan Score)
  one_each [] = []
  one_each (result ∷ results) = classified other (result ∷ []) ∷ one_each results

  -- All results of a model together are one candidate, if there are any.
  unfoldable pub all_in_one :
      Source → List (ClassificationResult Score) → List (AnnotatedSpan Score)
  all_in_one source [] = []
  all_in_one source (result ∷ results) = classified source (result ∷ results) ∷ []

module _ {Score : Type 0} (classifiers : Classifiers Score) where
  unfoldable pub with_contact_metadata :
      Option (ClassificationResult Score) → Option (ClassificationResult Score)
  with_contact_metadata none = none
  with_contact_metadata (some result) = elim classifiers.add_contact_metadata [
    | none ↦ some result
    | some add ↦ some (add result)
  ]

  -- The candidates of all annotators, in the order in which they are added.
  unfoldable pub all_candidates :
      Context
      → CodepointSpan
      → ClassificationOptions
      → List (ClassificationResult Score)
      → List (ClassificationResult Score)
      → List (ClassificationResult Score)
      → List (AnnotatedSpan Score)
  all_candidates context selection_indices options regex_results datetime_results model_results =
      let usecase = options.annotation_usecase in
      let tags = options.detected_text_language_tags in
      ask selection_indices knowledge classifiers.knowledge_engine
        (λ e s. with_contact_metadata (e context usecase s))
      ++ ask selection_indices other classifiers.contact_engine (λ e. e context)
      ++ ask selection_indices person_name classifiers.person_name_engine (λ e. e context)
      ++ ask selection_indices other classifiers.installed_app_engine (λ e. e context)
      ++ one_each selection_indices regex_results
      ++ all_in_one selection_indices datetime datetime_results
      ++ ask selection_indices other classifiers.number_annotator (λ e. e context usecase)
      ++ ask selection_indices duration classifiers.duration_annotator (λ e. e context usecase)
      ++ ask selection_indices other classifiers.translate_annotator
          (λ e. e context options.user_familiar_language_tags)
      ++ ask selection_indices other classifiers.grammar_annotator (λ e. e tags context)
      ++ ask selection_indices other classifiers.experimental_annotator (λ e. e context)
      ++ all_in_one selection_indices other model_results

  -- The calls of the annotators; `none` where one of them fails.
  unfoldable pub collect_classification :
      Context
      → CodepointSpan
      → ClassificationOptions
      → Option (List Token × List (AnnotatedSpan Score))
  collect_classification context selection_indices options = do
    regex_results ← classifiers.regex_classify_text context selection_indices
    datetime_results ← classifiers.datetime_classify_text context selection_indices options
    model ←
        classifiers.model_classify_text context options.detected_text_language_tags
          selection_indices
    some (
      model.0,
      all_candidates context selection_indices options regex_results datetime_results model.1,
    )

module _ {Score : Type 0} (state : State Score) where
  unfoldable pub unfiltered : List (ClassificationResult Score) → List (ClassificationResult Score)
  unfiltered [] = []
  unfiltered (result ∷ results) = elim (filtered_for_classification state result) [
    | true ↦ unfiltered results
    | false ↦ result ∷ unfiltered results
  ]

  -- The loops over the chosen candidates and their classes.
  unfoldable pub kept_results :
      List (AnnotatedSpan Score) → List ℕ → List (ClassificationResult Score)
  kept_results candidates [] = []
  kept_results candidates (i ∷ indices) =
      unfiltered (candidate candidates i).classification ++ kept_results candidates indices

  -- The classes by falling score, or "other" if there are none.
  unfoldable pub or_other : List (ClassificationResult Score) → List (ClassificationResult Score)
  or_other results = elim (sort (λ a b. state.ops.greater a.score b.score) results) [
    | [] ↦
        record {
          collection = codes "other";
          score = state.one_score;
          priority_score = state.one_score;
        }
        ∷ []
    | r ∷ rs ↦ r ∷ rs
  ]

  -- The guards.
  unfoldable pub classifies : Context → CodepointSpan → ClassificationOptions → Bool
  classifies context selection_indices options =
      state.initialized
      && (elim options.annotation_usecase [ smart ↦ true | raw ↦ false ])
      && has_mode state mode_classification
      && state.is_any_locale_supported options.detected_text_language_tags
      && is_valid_span_input context selection_indices

  -- The part from the conflict resolution on.
  unfoldable pub choose_classes :
      Context
      → Usecase
      → List Token
      → List (AnnotatedSpan Score)
      → List (ClassificationResult Score)
  choose_classes context usecase tokens candidates =
      elim (resolve_conflicts (resolver state context tokens) candidates usecase) [
        | none ↦ []
        | some candidate_indices ↦ or_other (kept_results candidates candidate_indices)
      ]

module _ {Score : Type 0} (state : State Score) (classifiers : Classifiers Score) where
  -- `ClassifyText`
  unfoldable pub classify_text :
      Context → CodepointSpan → ClassificationOptions → List (ClassificationResult Score)
  classify_text context selection_indices options =
      if not (classifies state context selection_indices options)
      then []
      else elim (collect_classification classifiers context selection_indices options) [
        | none ↦ []
        | some (tokens, candidates) ↦
            choose_classes state context options.annotation_usecase tokens candidates
      ]
