-- ===== src/Conflict.antt =====
-- native/annotator/annotator.cc: the conflict resolution of `Annotator`. Candidates that overlap are grouped
-- (`FirstNonOverlappingSpanIndex`, `ResolveConflicts`), and in a group they are placed greedily by
-- priority (`ResolveConflict`). A priority score is a float: its type and its two comparisons are
-- parameters. What the TFLite classifier answers (`ModelClassifyText`) is a parameter too.
pub mod Resolve
pub mod Groups
use Prim.Native.Nat.{bit_and, bit_or}
use external_libtextclassifi.Prelude.{
  ℕ, zero, suc, ◌+◌, ◌-◌, ◌^◌, ℤ, pos, ◌-ℤ◌, max_ℤ, ltb_ℤ, Bool, true, false, not, ◌&&◌, ◌||◌, List,
  [], ◌∷◌, ◌++◌, Option, none, some, ltb, ◌==◌, if◌then◌else◌, length, get_or, sort,
}
use external_libtextclassifi.Span.{
  CodepointSpan, invalid_index, spans_overlap, starts_before, does_candidate_conflict, set_insert,
}
use external_libtextclassifi.Text.{UnicodeText, codes, same_text}

-- `AnnotatedSpan::Source`
pub data Source : Type 0 where
  other knowledge duration datetime person_name : Source

-- `AnnotationUsecase`
pub data Usecase : Type 0 where
  smart raw : Usecase

abbrev pub source_index : Source → ℕ
source_index other = 0
source_index knowledge = 1
source_index duration = 2
source_index datetime = 3
source_index person_name = 4

abbrev pub same_source : Source → Source → Bool
same_source a b = source_index a == source_index b

abbrev has_source : ℕ → Source → Bool
has_source source_mask s = not (bit_and source_mask (2 ^ source_index s) == 0)

-- `DoSourcesConflict`
unfoldable pub do_sources_conflict : Usecase → Source → Source → Bool
do_sources_conflict smart source1 source2 = true
do_sources_conflict raw source1 source2 =
    let source_mask = bit_or (2 ^ source_index source1) (2 ^ source_index source2) in
    if has_source source_mask duration && has_source source_mask datetime
    then false
    else if has_source source_mask knowledge
    then false
    else if has_source source_mask person_name
    then false
    else true

pub record ClassificationResult (Score : Type 0) : Type 0 where
  pub collection : UnicodeText
  pub score : Score
  pub priority_score : Score

pub record AnnotatedSpan (Score : Type 0) : Type 0 where
  pub span : CodepointSpan
  pub classification : List (ClassificationResult Score)
  pub source : Source

-- The floats that the code compares, and the constants that it names.
pub record ScoreOps (Score : Type 0) : Type 0 where
  pub greater : Score → Score → Bool
  pub equal : Score → Score → Bool
  -- the value that `operator[]` of a map makes up, 0.0
  pub zero_score : Score
  -- -1000.0
  pub lowest_score : Score

-- The fields of `Annotator` and of its model that the resolution reads.
pub record Annotator (Score : Type 0) : Type 0 where
  pub ops : ScoreOps Score
  -- `none` if the model has no triggering options
  pub other_collection_priority_score : Option Score
  pub prioritize_longest_annotation : Bool
  pub do_conflict_resolution_in_raw_mode : Bool
  -- `none` if the classification failed
  pub model_classify_text : CodepointSpan → Option (List (ClassificationResult Score))

module _ {Score : Type 0} where
  -- `AnnotatedSpan()`
  abbrev pub default_span : AnnotatedSpan Score
  default_span = record {
    span = record { first = invalid_index; second = invalid_index };
    classification = [];
    source = other;
  }

  abbrev pub candidate : List (AnnotatedSpan Score) → ℕ → AnnotatedSpan Score
  candidate candidates i = get_or candidates i default_span

  abbrev pub span_at : List (AnnotatedSpan Score) → ℕ → CodepointSpan
  span_at candidates i = (candidate candidates i).span

  abbrev pub source_at : List (AnnotatedSpan Score) → ℕ → Source
  source_at candidates i = (candidate candidates i).source

  unfoldable pub classified_as_other : List (ClassificationResult Score) → Bool
  classified_as_other [] = false
  classified_as_other (c ∷ _) = same_text c.collection (codes "other")

  -- The priority of what is not classified, or is classified as `other`.
  unfoldable pub other_priority_score : Annotator Score → Score
  other_priority_score a = elim a.other_collection_priority_score [
    | none ↦ a.ops.lowest_score
    | some score ↦ score
  ]

  unfoldable pub get_priority_score : Annotator Score → List (ClassificationResult Score) → Score
  unfolding classified_as_other other_priority_score
  get_priority_score a [] = other_priority_score a
  get_priority_score a (c ∷ cs) =
      if not (classified_as_other (c ∷ cs)) then c.priority_score else other_priority_score a
