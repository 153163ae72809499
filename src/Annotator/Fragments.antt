-- ===== src/Annotator/Fragments.antt =====
-- native/annotator/annotator.cc: `AnnotateStructuredInput` and `Annotate`, which annotate several texts and
-- one.
pub mod Outcome
use external_libtextclassifi.Prelude.{
  ℕ, Bool, true, false, not, List, [], ◌∷◌, Option, none, some, if◌then◌else◌, length, map, ◌==◌,
}
use external_libtextclassifi.Conflict.{Usecase, ClassificationResult, AnnotatedSpan}
use external_libtextclassifi.Annotator.Status.{
  internal, Status, StatusOr, value, failure, ◌>>=◌, or_internal,
}
use external_libtextclassifi.Annotator.State.{Context, State}
use external_libtextclassifi.Annotator.Annotate.{
  DatetimeOptions, AnnotationOptions, Chunkers, annotate_single_input,
}

pub record InputFragment : Type 0 where
  pub text : Context
  pub datetime_options : Option DatetimeOptions

-- The knowledge engine annotates all texts at once.
pub record Knowledge (Score : Type 0) : Type 0 where
  -- `none` is a status that is not OK
  pub chunk_multiple_spans : Option (
      List Context
      → Usecase
      → List (List (AnnotatedSpan Score))
      → Option (List (List (AnnotatedSpan Score))))
  -- of the contact engine
  pub add_contact_metadata : Option (ClassificationResult Score → ClassificationResult Score)

-- `text_to_annotate`
unfoldable pub text_to_annotate : List InputFragment → List Context
text_to_annotate [] = []
text_to_annotate (f ∷ fs) = f.text ∷ text_to_annotate fs

-- The reference time of a fragment replaces that of the options.
unfoldable pub fragment_options : AnnotationOptions → InputFragment → AnnotationOptions
fragment_options options fragment = elim fragment.datetime_options [
  | none ↦ options
  | some reference_datetime ↦ record options { datetime = reference_datetime }
]

module _ {Score : Type 0} (state : State Score) (chunkers : Chunkers Score)
    (knowledge : Knowledge Score) where
  unfoldable pub with_metadata :
      (ClassificationResult Score → ClassificationResult Score)
      → AnnotatedSpan Score
      → AnnotatedSpan Score
  with_metadata add c = record c { classification = map add c.classification }

  -- `AddContactMetadataToKnowledgeClassificationResults`
  unfoldable pub add_contact_metadata : List (AnnotatedSpan Score) → List (AnnotatedSpan Score)
  add_contact_metadata candidates = elim knowledge.add_contact_metadata [
    | none ↦ candidates
    | some add ↦ map (with_metadata add) candidates
  ]

  unfoldable pub annotate_fragment :
      AnnotationOptions
      → InputFragment
      → List (AnnotatedSpan Score)
      → StatusOr (List (AnnotatedSpan Score))
  annotate_fragment options fragment candidates =
      annotate_single_input state chunkers fragment.text (fragment_options options fragment)
        (add_contact_metadata candidates)

  -- The loop over the fragments, which stops at the first that fails.
  unfoldable pub annotate_fragments :
      AnnotationOptions
      → List InputFragment
      → List (List (AnnotatedSpan Score))
      → StatusOr (List (List (AnnotatedSpan Score)))
  annotate_fragments options [] candidates = value []
  annotate_fragments options (f ∷ fs) [] = value []
  annotate_fragments options (f ∷ fs) (c ∷ cs) = do
    r ← annotate_fragment options f c
    rs ← annotate_fragments options fs cs
    value (r ∷ rs)

  unfoldable pub no_candidates : List InputFragment → List (List (AnnotatedSpan Score))
  no_candidates [] = []
  no_candidates (f ∷ fs) = [] ∷ no_candidates fs

  unfoldable pub chunk_knowledge :
      AnnotationOptions → List InputFragment → Option (List (List (AnnotatedSpan Score)))
  chunk_knowledge options fragments = elim knowledge.chunk_multiple_spans [
    | none ↦ some (no_candidates fragments)
    | some chunk ↦
        chunk (text_to_annotate fragments) options.annotation_usecase (no_candidates fragments)
  ]

  -- `AnnotateStructuredInput`
  unfoldable pub annotate_structured_input :
      List InputFragment → AnnotationOptions → StatusOr (List (List (AnnotatedSpan Score)))
  annotate_structured_input fragments options = do
    candidates ←
        or_internal "Couldn't run knowledge engine Chunk." (chunk_knowledge options fragments)
    (if not (length candidates == length (text_to_annotate fragments))
        then failure (record {
          code = internal;
          message = "Number of annotation candidates differs from number of texts to annotate.";
        })
        else annotate_fragments options fragments candidates)

  -- `Annotate`: an error is logged, and no annotation is returned.
  unfoldable pub annotate : Context → AnnotationOptions → List (AnnotatedSpan Score)
  annotate context options =
      elim (annotate_structured_input (record { text = context; datetime_options = none } ∷ [])
        options) [ failure s ↦ [] | value [] ↦ [] | value (first ∷ rest) ↦ first ]
