-- ===== src/Tests/Classified.antt =====
-- The classification of "5550100", which an engine and the model classify.
use Prim.Native.String.{String}
use external_libtextclassifi.Prelude.{
  ℕ, pos, true, false, [], ◌∷◌, none, some, ◌≡◌, refl, ◌⊎◌, arith, ltb, ◌==◌, sort,
}
use external_libtextclassifi.Span.{
  CodepointSpan, spans_overlap, does_candidate_conflict, lower_bound, set_insert,
}
use external_libtextclassifi.Text.{codes}
use external_libtextclassifi.Conflict.{
  smart, ClassificationResult, do_sources_conflict, get_priority_score, classified_as_other,
}
use external_libtextclassifi.Conflict.Groups.{resolve_conflicts}
use external_libtextclassifi.Annotator.State.{
  Context, State, is_valid_span_input, has_mode, filtered_for_classification,
}
use external_libtextclassifi.Conflict.Resolve.Priority.{IsPriorityOrder}
use external_libtextclassifi.Annotator.Classify.{
  ClassificationOptions, Classifiers, classified, ask, one_each, all_in_one, with_contact_metadata,
  all_candidates, collect_classification, unfiltered, kept_results, or_other, classifies,
  choose_classes, classify_text,
}
use external_libtextclassifi.Annotator.Classify.Outcome.{
  IsRefused, IsClassified, classify_text-IsClassified,
}

abbrev context : Context
context = record { text = codes "5550100"; is_valid = true }

abbrev selection : CodepointSpan
selection = record { first = pos 0; second = pos 7 }

abbrev result_of : String → ℕ → ClassificationResult ℕ
result_of collection score = record {
  collection = codes collection;
  score = score;
  priority_score = score;
}

abbrev state : State ℕ
state = record {
  initialized = true;
  enabled_modes = 2;
  is_any_locale_supported = λ tags. true;
  filtered_collections_annotation = [];
  filtered_collections_classification = codes "flight" ∷ [];
  filtered_collections_selection = [];
  ops = record {
    greater = λ a b. ltb b a;
    equal = λ a b. a == b;
    zero_score = 0;
    lowest_score = 0;
  };
  one_score = 1;
  other_collection_priority_score = none;
  prioritize_longest_annotation = false;
  do_conflict_resolution_in_raw_mode = true;
  snap_whitespace_selections = false;
  always_classify_suggested_selection = false;
  model_classify_text = λ context tokens s. none;
}

abbrev classifiers : Classifiers ℕ
classifiers = record {
  knowledge_engine = none;
  add_contact_metadata = none;
  contact_engine = none;
  person_name_engine = none;
  installed_app_engine = none;
  regex_classify_text = λ context s. some [];
  datetime_classify_text = λ context s options. some [];
  number_annotator = some (λ context usecase s. some (result_of "number" 1));
  duration_annotator = none;
  translate_annotator = none;
  grammar_annotator = none;
  experimental_annotator = none;
  model_classify_text = λ context tags s.
      some ([], result_of "phone" 4 ∷ result_of "flight" 9 ∷ result_of "address" 7 ∷ []);
}

abbrev options : ClassificationOptions
options = record {
  detected_text_language_tags = codes "en";
  annotation_usecase = smart;
  user_familiar_language_tags = codes "en";
  datetime = record { reference_time_ms_utc = pos 0; reference_timezone = [] };
}

order : IsPriorityOrder state.ops
order = record {
  asymm = λ x y h. ground arith;
  trans = λ x y z h k. ground arith;
  level = λ x y h. ground arith;
  equal_of = λ x y h k. ground arith;
  symm = λ x y h. ground arith;
}

-- The model's candidate wins, its flight is filtered, and its classes are sorted.
classes :
    classify_text state classifiers context selection options
    ≡ result_of "address" 7 ∷ result_of "phone" 4 ∷ []
unfolding classify_text classifies has_mode is_valid_span_input collect_classification
    all_candidates ask classified one_each all_in_one with_contact_metadata choose_classes or_other
    kept_results unfiltered filtered_for_classification resolve_conflicts spans_overlap
    does_candidate_conflict lower_bound set_insert do_sources_conflict get_priority_score
    classified_as_other sort
classes = refl

classify_text-IsClassified_example :
    ((classify_text state classifiers context selection options ≡ [])
      × IsRefused state classifiers order context selection options)
    ⊎ IsClassified state classifiers order context selection options
        (classify_text state classifiers context selection options)
classify_text-IsClassified_example =
    classify_text-IsClassified state classifiers order context selection options
