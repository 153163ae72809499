-- ===== src/Annotator/Fragments/Outcome.antt =====
-- What `AnnotateStructuredInput` returns: the annotations of every fragment, or the first error.
use external_libtextclassifi.Prelude.{
  List, [], ◌∷◌, none, some, ◌≡◌, ◌≢◌, refl, ◌⊎◌, inl, inr, arith, Bool-cases, Option-cases, length,
  ◌==◌,
}
use external_libtextclassifi.Conflict.{AnnotatedSpan}
use external_libtextclassifi.Annotator.Status.{
  internal, Status, StatusOr, value, failure, StatusOr-cases,
}
use external_libtextclassifi.Annotator.State.{State}
use external_libtextclassifi.Annotator.Annotate.{AnnotationOptions, Chunkers}
use external_libtextclassifi.Annotator.Fragments.{
  InputFragment, Knowledge, text_to_annotate, annotate_fragment, annotate_fragments,
  chunk_knowledge, annotate_structured_input,
}

length-text_to_annotate : (fs : List InputFragment) → length (text_to_annotate fs) ≡ length fs
unfolding text_to_annotate
length-text_to_annotate [] = refl
length-text_to_annotate (f ∷ fs) = omega (arith, length-text_to_annotate fs)

module _ {Score : Type 0} (state : State Score) (chunkers : Chunkers Score)
    (knowledge : Knowledge Score) (options : AnnotationOptions) where
  -- Each fragment has its annotations, in order.
  abbrev pub Annotated :
      List InputFragment
      → List (List (AnnotatedSpan Score))
      → List (List (AnnotatedSpan Score))
      → Type 0
  Annotated [] [] [] = Unit
  Annotated (f ∷ fs) (c ∷ cs) (r ∷ rs) =
      (annotate_fragment state chunkers knowledge options f c ≡ value r) × Annotated fs cs rs
  Annotated _ _ _ = ⊥

  -- A fragment fails with this status, and those before it do not fail.
  abbrev pub Fails : List InputFragment → List (List (AnnotatedSpan Score)) → Status → Type 0
  Fails [] cs s = ⊥
  Fails (f ∷ fs) [] s = ⊥
  Fails (f ∷ fs) (c ∷ cs) s =
      (annotate_fragment state chunkers knowledge options f c ≡ failure s)
      ⊎ ((r : List (AnnotatedSpan Score)) × (annotate_fragment state chunkers knowledge options f c
            ≡ value r)
          × Fails fs cs s)

  abbrev Runs :
      List InputFragment
      → List (List (AnnotatedSpan Score))
      → StatusOr (List (List (AnnotatedSpan Score)))
      → Type 0
  Runs fs cs (value rs) = Annotated fs cs rs
  Runs fs cs (failure s) = Fails fs cs s

  annotate_fragments-Runs :
      (fs : List InputFragment) (cs : List (List (AnnotatedSpan Score)))
      → length cs ≡ length fs
      → Runs fs cs (annotate_fragments state chunkers knowledge options fs cs)
  unfolding annotate_fragments
  annotate_fragments-Runs [] [] e = tt
  annotate_fragments-Runs [] (c ∷ cs) e = absurd (omega arith)
  annotate_fragments-Runs (f ∷ fs) [] e = absurd (omega arith)
  annotate_fragments-Runs (f ∷ fs) (c ∷ cs) e =
      let later = annotate_fragments-Runs fs cs (omega arith) in
      elim (StatusOr-cases (annotate_fragment state chunkers knowledge options f c)) [
        | inr (s, bad) ↦ rw (bad, annotate_fragments) (inl bad)
        | inl (r, good) ↦
            elim (StatusOr-cases (annotate_fragments state chunkers knowledge options fs cs)) [
              | inl (rs, all) ↦ rw (good, all, annotate_fragments) (good, rw all at later)
              | inr (s, bad) ↦ rw (good, bad, annotate_fragments) (inr (r, good, rw bad at later))
            ]
      ]

  -- The outcome is one of two. Either there are candidates of the knowledge engine, one list for each
  -- fragment, and the result is the annotations of every fragment from its candidates, in order. Or it is
  -- an error, and no annotation is returned: the knowledge engine failed or answered with another
  -- number of lists, both an internal error, or the error is that of the first fragment that fails.
  pub annotate_structured_input-Outcome :
      (fs : List InputFragment)
      → ((rs : List (List (AnnotatedSpan Score))) × (annotate_structured_input state chunkers
              knowledge fs options
            ≡ value rs)
          × (cs : List (List (AnnotatedSpan Score))) × (chunk_knowledge state chunkers knowledge
                options fs
              ≡ some cs)
          × Annotated fs cs rs)
        ⊎ ((s : Status) × (annotate_structured_input state chunkers knowledge fs options
              ≡ failure s)
            × (((chunk_knowledge state chunkers knowledge options fs ≡ none) × (s.code ≡ internal))
                ⊎ ((cs : List (List (AnnotatedSpan Score))) × (chunk_knowledge state chunkers
                        knowledge options fs
                      ≡ some cs)
                    × (((length cs ≢ length fs) × (s.code ≡ internal)) ⊎ Fails fs cs s))))
  unfolding annotate_structured_input
  annotate_structured_input-Outcome fs =
      elim (Option-cases (chunk_knowledge state chunkers knowledge options fs)) [
        | inl bad ↦ inr (
          record { code = internal; message = "Couldn't run knowledge engine Chunk." },
          rw (bad, annotate_structured_input) refl,
          inl (bad, refl),
        )
        | inr (cs, good) ↦ elim (Bool-cases (length cs == length (text_to_annotate fs))) [
          | inr differ ↦ inr (
            record {
              code = internal;
              message = "Number of annotation candidates differs from number of texts to annotate.";
            },
            rw (good, differ, annotate_structured_input) refl,
            inr (cs, good, inl (λ e. ground (arith, length-text_to_annotate fs), refl)),
          )
          | inl same ↦
              let runs =
                annotate_fragments-Runs fs cs (ground (arith, length-text_to_annotate fs)) in
              elim (StatusOr-cases (annotate_fragments state chunkers knowledge options fs cs)) [
                | inl (rs, all) ↦
                    inl
                      (rs, rw (good, same, annotate_structured_input) all, cs, good, rw all at runs)
                | inr (s, bad) ↦ inr (
                  s,
                  rw (good, same, annotate_structured_input) bad,
                  inr (cs, good, inr (rw bad at runs)),
                )
              ]
        ]
      ]
