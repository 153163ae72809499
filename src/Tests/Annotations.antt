-- ===== src/Tests/Annotations.antt =====
-- The annotation of texts and the suggestion of a selection, with engines that find what they are told and
-- natural numbers for scores.
use Prim.Native.String.{String}
use external_libtextclassifi.Prelude.{
  ℕ, pos, true, false, List, [], ◌∷◌, none, some, ◌≡◌, ◌≢◌, refl, ◌⊎◌, arith, All, ltb, ◌==◌, ◌++◌,
  length, sort, subst,
}
use external_libtextclassifi.Span.{spans_overlap, does_candidate_conflict, lower_bound, set_insert}
use external_libtextclassifi.Text.{codes}
use external_libtextclassifi.Token.{Token}
use external_libtextclassifi.Conflict.{
  Source, other, datetime, smart, ClassificationResult, AnnotatedSpan, do_sources_conflict,
  get_priority_score, classified_as_other,
}
use external_libtextclassifi.Conflict.Groups.{resolve_conflicts}
use external_libtextclassifi.Annotator.Status.{internal, Status, value, failure}
use external_libtextclassifi.Annotator.State.{
  Context, State, is_entity_type_enabled, has_mode, filtered_for_annotation,
}
use external_libtextclassifi.Annotator.Annotate.{
  AnnotationOptions, Chunk, Chunkers, call_if, call_engine, candidate_less, head_collection,
  same_annotation, unique_from, unique_indices, enabled_results, remove_not_enabled_entity_types,
  sort_classification_results, is_dropped, keep_annotations, sort_classifications, annotations,
  check_input, settle, collect, annotate_checked, annotate_single_input,
}
use external_libtextclassifi.Annotator.Annotate.Settled.{IsScoreOrder, IsFound, AreAnnotations}
use external_libtextclassifi.Annotator.Annotate.Engines.{Finds, AllFind}
use external_libtextclassifi.Annotator.Annotate.Composed.{
  IsCollected, annotate_single_input-AreAnnotations,
}
use external_libtextclassifi.Annotator.Annotate.Total.{AllAnswer, annotate_single_input_total}
use external_libtextclassifi.Annotator.Fragments.{
  InputFragment, Knowledge, chunk_knowledge, annotate_structured_input,
}
use external_libtextclassifi.Annotator.Fragments.Outcome.{
  Annotated, Fails, annotate_structured_input-Outcome,
}

abbrev result_of : String → ℕ → ClassificationResult ℕ
result_of collection score = record {
  collection = codes collection;
  score = score;
  priority_score = score;
}

abbrev item : ℕ → ℕ → List (ClassificationResult ℕ) → Source → AnnotatedSpan ℕ
item first second classification source = record {
  span = record { first = pos first; second = pos second };
  classification = classification;
  source = source;
}

abbrev state : State ℕ
state = record {
  initialized = true;
  enabled_modes = 7;
  is_any_locale_supported = λ tags. true;
  filtered_collections_annotation = codes "flight" ∷ [];
  filtered_collections_classification = codes "flight" ∷ [];
  filtered_collections_selection = codes "flight" ∷ [];
  ops = record {
    greater = λ a b. ltb b a;
    equal = λ a b. a == b;
    zero_score = 0;
    lowest_score = 0;
  };
  one_score = 1;
  other_collection_priority_score = none;
  prioritize_longest_annotation = false;
  do_conflict_resolution_in_raw_mode = true;
  snap_whitespace_selections = true;
  always_classify_suggested_selection = true;
  model_classify_text = λ context tokens s. some (result_of "phone" 2 ∷ []);
}

order : IsScoreOrder state.ops.greater
order = record { asymm = λ x y h. ground arith; trans = λ x y z h k. ground arith }

-- A phone number with two readings, and a flight that overlaps it.
abbrev phone : AnnotatedSpan ℕ
phone = item 16 23 (result_of "phone" 3 ∷ result_of "address" 5 ∷ []) other

abbrev flight : AnnotatedSpan ℕ
flight = item 18 23 (result_of "flight" 1 ∷ []) other

abbrev date : AnnotatedSpan ℕ
date = item 0 10 (result_of "datetime" 3 ∷ []) datetime

abbrev add : List (AnnotatedSpan ℕ) → Chunk ℕ
add new cs = some (new ++ cs)

abbrev chunkers : Chunkers ℕ
chunkers = record {
  model_annotate = λ context tags cs. some ([], phone ∷ cs);
  regex_chunk = λ context. add (flight ∷ []);
  datetime_chunk = λ context options. add (date ∷ []);
  contact_engine = none;
  installed_app_engine = none;
  number_annotator = some (λ context usecase. add (phone ∷ []));
  duration_annotator = none;
  person_name_engine = none;
  grammar_annotator = none;
  experimental_annotator = none;
}

abbrev context : Context
context = record { text = codes "in 3 hours call 5550100"; is_valid = true }

abbrev options : AnnotationOptions
options = record {
  detected_text_language_tags = codes "en";
  annotation_usecase = smart;
  entity_types = [];
  datetime = record { reference_time_ms_utc = pos 0; reference_timezone = [] };
}

abbrev sorted_phone : AnnotatedSpan ℕ
sorted_phone = item 16 23 (result_of "address" 5 ∷ result_of "phone" 3 ∷ []) other

annotated :
    annotate_single_input state chunkers context options [] ≡ value (date ∷ sorted_phone ∷ [])
unfolding annotate_single_input check_input annotate_checked collect settle call_if call_engine
    annotations candidate_less head_collection same_annotation unique_from unique_indices
    enabled_results remove_not_enabled_entity_types sort_classification_results is_dropped
    keep_annotations sort_classifications is_entity_type_enabled has_mode filtered_for_annotation
    resolve_conflicts spans_overlap does_candidate_conflict lower_bound set_insert
    do_sources_conflict get_priority_score sort classified_as_other
annotated = refl

add-Finds : (x : AnnotatedSpan ℕ) → IsFound x → Finds (add (x ∷ []))
add-Finds x h cs cs' hs e = let same : x ∷ cs ≡ cs' = cc in subst (All IsFound) same (h, hs)

finds : AllFind chunkers context options
finds = record {
  model =
      λ cs r hs e. let same : phone ∷ cs ≡ r.1 = cc in subst (All IsFound) same (omega arith, hs);
  regex = add-Finds flight (omega arith);
  datetime = add-Finds date (omega arith);
  engines = λ tokens. (tt, tt, add-Finds phone (omega arith), tt, tt, tt, tt);
}

answers : AllAnswer chunkers context options
answers = record {
  model = λ cs. (([], phone ∷ cs), refl);
  regex = λ cs. (flight ∷ cs, refl);
  datetime = λ cs. (date ∷ cs, refl);
  engines = λ tokens. (tt, tt, λ cs. (phone ∷ cs, refl), tt, tt, tt, tt);
}

allowed : check_input state context options ≡ none
unfolding check_input has_mode
allowed = refl

annotate_single_input-AreAnnotations_example :
    (tokens : List Token) × (all : List (AnnotatedSpan ℕ)) × IsCollected state chunkers context
      options order finds [] tokens all
    × AreAnnotations state
        (is_entity_type_enabled [])
        smart
        context
        tokens
        all
        (date ∷ sorted_phone ∷ [])
annotate_single_input-AreAnnotations_example =
    annotate_single_input-AreAnnotations state chunkers context options order finds [] tt annotated

annotate_single_input_total_example :
    (result : List (AnnotatedSpan ℕ)) × (annotate_single_input state chunkers context options []
      ≡ value result)
annotate_single_input_total_example =
    annotate_single_input_total state chunkers context options finds answers
      (λ tokens s. result_of "phone" 2 ∷ []) (λ tokens s. refl) allowed [] tt

-- A knowledge engine that answers with one list too many.
abbrev knowledge : Knowledge ℕ
knowledge = record {
  chunk_multiple_spans = some (λ texts usecase cs. some ([] ∷ cs));
  add_contact_metadata = none;
}

abbrev fragments : List InputFragment
fragments = record { text = context; datetime_options = none } ∷ []

annotate_structured_input-Outcome_example :
    ((rs : List (List (AnnotatedSpan ℕ))) × (annotate_structured_input state chunkers knowledge
          fragments options
        ≡ value rs)
      × (cs : List (List (AnnotatedSpan ℕ))) × (chunk_knowledge state chunkers knowledge options
            fragments
          ≡ some cs)
      × Annotated state chunkers knowledge options fragments cs rs)
    ⊎ ((s : Status) × (annotate_structured_input state chunkers knowledge fragments options
          ≡ failure s)
        × (((chunk_knowledge state chunkers knowledge options fragments ≡ none)
              × (s.code ≡ internal))
            ⊎ ((cs : List (List (AnnotatedSpan ℕ))) × (chunk_knowledge state chunkers knowledge
                    options fragments
                  ≡ some cs)
                × (((length cs ≢ length fragments) × (s.code ≡ internal))
                    ⊎ Fails state chunkers knowledge options fragments cs s))))
annotate_structured_input-Outcome_example =
    annotate_structured_input-Outcome state chunkers knowledge options fragments
