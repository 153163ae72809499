-- ===== src/Annotator/State.antt =====
-- native/annotator/annotator.h and annotator.cc: the fields of `Annotator` that its entry points read, and
-- the tests that they share. The engines are parameters: each appends its candidates to a list, or is
-- `none` where the code has a null pointer; a call that returns false is `none`. The options that only
-- the engines read are left out.
use Prim.Native.Nat.{bit_and}
use external_libtextclassifi.Prelude.{
  ℕ, pos, Bool, true, false, not, ◌&&◌, ◌||◌, List, [], ◌∷◌, Option, ◌==◌, ltb_ℤ, leb_ℤ, length,
}
use external_libtextclassifi.Span.{CodepointSpan}
use external_libtextclassifi.Text.{UnicodeText, same_text}
use external_libtextclassifi.Token.{Token}
use external_libtextclassifi.Conflict.{ClassificationResult, ScoreOps, Annotator}

-- `ModeFlag`
abbrev pub mode_annotation : ℕ
mode_annotation = 1

abbrev pub mode_classification : ℕ
mode_classification = 2

abbrev pub mode_selection : ℕ
mode_selection = 4

-- A text with the answer of `is_valid`.
pub record Context : Type 0 where
  pub text : UnicodeText
  pub is_valid : Bool

-- `IsValidSpanInput`
unfoldable pub is_valid_span_input : Context → CodepointSpan → Bool
is_valid_span_input context span =
    context.is_valid
    && leb_ℤ (pos 0) span.first
    && ltb_ℤ span.first span.second
    && leb_ℤ span.second (pos (length context.text))

-- Membership in a set of strings.
abbrev pub has_text : List UnicodeText → UnicodeText → Bool
has_text [] s = false
has_text (t ∷ ts) s = same_text t s || has_text ts s

-- `EnabledEntityTypes`
unfoldable pub is_entity_type_enabled : List UnicodeText → UnicodeText → Bool
is_entity_type_enabled [] entity_type = true
is_entity_type_enabled (t ∷ ts) entity_type = has_text (t ∷ ts) entity_type

-- What the entry points read of the model and of the annotator.
pub record State (Score : Type 0) : Type 0 where
  pub initialized : Bool
  pub enabled_modes : ℕ
  -- the language tags of the options parsed, and `Locale::IsAnyLocaleSupported`
  pub is_any_locale_supported : UnicodeText → Bool
  pub filtered_collections_annotation : List UnicodeText
  pub filtered_collections_classification : List UnicodeText
  pub filtered_collections_selection : List UnicodeText
  pub ops : ScoreOps Score
  -- 1.0
  pub one_score : Score
  pub other_collection_priority_score : Option Score
  pub prioritize_longest_annotation : Bool
  pub do_conflict_resolution_in_raw_mode : Bool
  pub snap_whitespace_selections : Bool
  pub always_classify_suggested_selection : Bool
  -- `ModelClassifyText` with cached tokens, for the language tags of the call
  pub model_classify_text :
      Context → List Token → CodepointSpan → Option (List (ClassificationResult Score))

module _ {Score : Type 0} (state : State Score) where
  unfoldable pub has_mode : ℕ → Bool
  has_mode flag = not (bit_and state.enabled_modes flag == 0)

  -- What the conflict resolution reads, for one text.
  abbrev pub resolver : Context → List Token → Annotator Score
  resolver context tokens = record {
    ops = state.ops;
    other_collection_priority_score = state.other_collection_priority_score;
    prioritize_longest_annotation = state.prioritize_longest_annotation;
    do_conflict_resolution_in_raw_mode = state.do_conflict_resolution_in_raw_mode;
    model_classify_text = state.model_classify_text context tokens;
  }

  unfoldable pub filtered_for_annotation : List (ClassificationResult Score) → Bool
  filtered_for_annotation [] = false
  filtered_for_annotation (c ∷ cs) = has_text state.filtered_collections_annotation c.collection

  unfoldable pub filtered_for_classification : ClassificationResult Score → Bool
  filtered_for_classification c = has_text state.filtered_collections_classification c.collection

  unfoldable pub filtered_for_selection : List (ClassificationResult Score) → Bool
  filtered_for_selection [] = false
  filtered_for_selection (c ∷ cs) = has_text state.filtered_collections_selection c.collection
