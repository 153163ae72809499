-- ===== src/Tests/Selections.antt =====
-- The suggestion of a selection for a click in "call 5550100".
use external_libtextclassifi.Prelude.{
  ℕ, suc, ◌<◌, pos, true, false, [], ◌∷◌, none, some, ◌≡◌, refl, ◌⊎◌, arith, ltb, ◌==◌, sort, ◌-ℤ◌,
}
use external_libtextclassifi.Span.{
  CodepointSpan, spans_overlap, does_candidate_conflict, lower_bound, set_insert,
}
use external_libtextclassifi.Text.{UniLib, codes, at}
use external_libtextclassifi.Conflict.{
  other, smart, do_sources_conflict, get_priority_score, classified_as_other, other_priority_score,
}
use external_libtextclassifi.Conflict.Groups.{resolve_conflicts}
use external_libtextclassifi.Annotator.State.{
  Context, State, is_valid_span_input, has_mode, filtered_for_selection,
}
use external_libtextclassifi.Annotator.Annotate.{call_engine}
use external_libtextclassifi.Annotator.Annotate.Settled.{IsScoreOrder}
use external_libtextclassifi.Annotator.Snap.{
  all_whitespace, move_left, snap_left_if_whitespace_selection,
}
use external_libtextclassifi.Annotator.Snap.Left.{
  HasText, IsWhite, snap_left_if_whitespace_selection-Outcome,
}
use external_libtextclassifi.Annotator.Select.{
  SelectionOptions, Selectors, grammar_candidates, experimental_candidates, collect_selection,
  starts_first, by_priority, selection_class, offer, hits, pick, selects, snapped, select_candidate,
  suggest_selection,
}
use external_libtextclassifi.Annotator.Select.Best.{IsSelected, suggest_selection-IsSelected}

abbrev lib : UniLib
lib = record {
  is_opening_bracket = λ c. false;
  is_closing_bracket = λ c. false;
  get_paired_bracket = λ c. c;
  is_whitespace = λ c. c == 32;
  is_digit = λ c. ltb c 58;
  is_letter = λ c. ltb 64 c;
  is_dot = λ c. c == 46;
}

abbrev context : Context
context = record { text = codes "call 5550100"; is_valid = true }

abbrev span : ℕ → ℕ → CodepointSpan
span first second = record { first = pos first; second = pos second }

abbrev state : State ℕ
state = record {
  initialized = true;
  enabled_modes = 7;
  is_any_locale_supported = λ tags. true;
  filtered_collections_annotation = [];
  filtered_collections_classification = [];
  filtered_collections_selection = codes "flight" ∷ [];
  ops = record {
    greater = λ a b. ltb b a;
    equal = λ a b. a == b;
    zero_score = 0;
    lowest_score = 0;
  };
  one_score = 1;
  other_collection_priority_score = none;
  prioritize_longest_annotation = true;
  do_conflict_resolution_in_raw_mode = true;
  snap_whitespace_selections = true;
  always_classify_suggested_selection = true;
  model_classify_text = λ context tokens s.
      some (record { collection = codes "phone"; score = 2; priority_score = 2 } ∷ []);
}

abbrev selectors : Selectors ℕ
selectors = record {
  model_suggest_selection = λ context tags click cs.
      some ([], record { span = span 0 12; classification = []; source = other } ∷ cs);
  regex_chunk = λ context cs. some cs;
  datetime_chunk = λ context usecase cs. some cs;
  knowledge_engine = none;
  contact_engine = none;
  installed_app_engine = none;
  number_annotator = none;
  duration_annotator = none;
  person_name_engine = none;
  grammar_annotator = none;
  experimental_annotator =
      some (λ context click. record { span = click; classification = []; source = other });
}

abbrev options : SelectionOptions
options = record { detected_text_language_tags = codes "en"; annotation_usecase = smart }

order : IsScoreOrder state.ops.greater
order = record { asymm = λ x y h. ground arith; trans = λ x y z h k. ground arith }

-- A click on the white space selects the letter before it.
snap : snap_left_if_whitespace_selection lib context.text (span 4 5) ≡ span 3 4
unfolding snap_left_if_whitespace_selection all_whitespace move_left
snap = refl

suggested : suggest_selection state selectors lib context (span 4 5) options ≡ span 0 12
unfolding suggest_selection selects has_mode is_valid_span_input snapped
    snap_left_if_whitespace_selection all_whitespace move_left collect_selection grammar_candidates
    experimental_candidates call_engine select_candidate starts_first by_priority selection_class
    offer hits pick filtered_for_selection resolve_conflicts spans_overlap does_candidate_conflict
    lower_bound set_insert do_sources_conflict get_priority_score classified_as_other
    other_priority_score sort ◌-ℤ◌
suggested = refl

suggest_selection-IsSelected_example :
    (suggest_selection state selectors lib context (span 4 5) options ≡ span 4 5)
    ⊎ IsSelected state selectors lib order context options
        (span 4 5)
        (suggest_selection state selectors lib context (span 4 5) options)
suggest_selection-IsSelected_example =
    suggest_selection-IsSelected state selectors lib order context (span 4 5) options

snap_left_if_whitespace_selection-Outcome_example :
    (HasText lib context.text 4 5
      × (snap_left_if_whitespace_selection lib context.text (span 4 5) ≡ span 4 5))
    ⊎ (((j : ℕ) × (j < 4)
          × (lib.is_whitespace (at context.text j) ≡ false)
          × IsWhite lib context.text (suc j) 5
          × (snap_left_if_whitespace_selection lib context.text (span 4 5) ≡ span j (suc j)))
        ⊎ (IsWhite lib context.text 0 5
            × (snap_left_if_whitespace_selection lib context.text (span 4 5) ≡ span 4 5)))
snap_left_if_whitespace_selection-Outcome_example =
    snap_left_if_whitespace_selection-Outcome lib context.text 4 5 (omega arith)
