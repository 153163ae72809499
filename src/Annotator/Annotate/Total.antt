-- ===== src/Annotator/Annotate/Total.antt =====
-- `AnnotateSingleInput` returns annotations where its guards pass and its annotators and its model answer.
use Prim.Native.String.{String}
use external_libtextclassifi.Prelude.{
  ◌||◌, Bool, true, false, List, Option, none, some, ◌≡◌, refl, All, sort,
}
use external_libtextclassifi.Span.{CodepointSpan}
use external_libtextclassifi.Text.{codes}
use external_libtextclassifi.Token.{Token}
use external_libtextclassifi.Conflict.{ClassificationResult, AnnotatedSpan}
use external_libtextclassifi.Conflict.Groups.Total.{resolve_conflicts_total}
use external_libtextclassifi.Annotator.Status.{value}
use external_libtextclassifi.Annotator.State.{Context, State, resolver, is_entity_type_enabled}
use external_libtextclassifi.Annotator.Annotate.{
  Chunk, Chunkers, AnnotationOptions, call_if, call_engine, candidate_less, annotations, collect,
  settle, check_input, annotate_checked, annotate_single_input,
}
use external_libtextclassifi.Annotator.Annotate.Settled.{IsFound, sort-AreCandidates}
use external_libtextclassifi.Annotator.Annotate.Engines.{AllFind, collect-IsFound}

module _ {Score : Type 0} where
  -- A call of an engine does not fail.
  abbrev pub Answers : Chunk Score → Type 0
  Answers chunk =
      (cs : List (AnnotatedSpan Score)) → (cs' : List (AnnotatedSpan Score)) × (chunk cs ≡ some cs')

  abbrev pub EngineAnswers : {A : Type 0} → Option A → (A → Chunk Score) → Type 0
  EngineAnswers none call = Unit
  EngineAnswers (some engine) call = Answers (call engine)

  -- None of the annotators fails.
  pub record AllAnswer (chunkers : Chunkers Score) (context : Context) (options : AnnotationOptions)
      : Type 0 where
    pub model :
        (cs : List (AnnotatedSpan Score))
        → (r : List Token × List (AnnotatedSpan Score)) × (chunkers.model_annotate context
              options.detected_text_language_tags cs
            ≡ some r)
    pub regex : Answers (chunkers.regex_chunk context)
    pub datetime : Answers (chunkers.datetime_chunk context options)
    pub engines :
        (tokens : List Token)
        → EngineAnswers chunkers.contact_engine (λ e. e context tokens)
          × EngineAnswers chunkers.installed_app_engine (λ e. e context tokens)
          × EngineAnswers chunkers.number_annotator (λ e. e context options.annotation_usecase)
          × EngineAnswers chunkers.duration_annotator
              (λ e. e context tokens options.annotation_usecase)
          × EngineAnswers chunkers.person_name_engine (λ e. e context tokens)
          × EngineAnswers chunkers.grammar_annotator
              (λ e. e options.detected_text_language_tags context)
          × EngineAnswers chunkers.experimental_annotator (λ e. e context)

  call_if-Answers : (b : Bool) (chunk : Chunk Score) → Answers chunk → Answers (call_if b chunk)
  unfolding call_if
  call_if-Answers true chunk h = h
  call_if-Answers false chunk h = λ cs. (cs, refl)

  call_engine-Answers :
      {A : Type 0} (engine : Option A) (call : A → Chunk Score)
      → EngineAnswers engine call
      → Answers (call_engine engine call)
  unfolding call_engine
  call_engine-Answers none call h = λ cs. (cs, refl)
  call_engine-Answers (some engine) call h = h

  module _ (chunkers : Chunkers Score) (context : Context) (options : AnnotationOptions)
      (answer : AllAnswer chunkers context options) where
    collect_total :
        (tokens : List Token) (cs : List (AnnotatedSpan Score))
        → (all : List (AnnotatedSpan Score)) × (collect chunkers context options tokens cs
            ≡ value all)
    unfolding collect
    collect_total tokens cs =
        let enabled = λ (t : String). is_entity_type_enabled options.entity_types (codes t) in
        let usecase = options.annotation_usecase in
        let (contact, app, number, duration, person, grammar, experimental) =
          answer.engines tokens in
        let (c1, e1) = answer.regex cs in
        let (c2, e2) =
          call_if-Answers (enabled "date" || enabled "datetime")
            (chunkers.datetime_chunk context options) answer.datetime c1 in
        let (c3, e3) =
          call_engine-Answers chunkers.contact_engine (λ e. e context tokens) contact c2 in
        let (c4, e4) =
          call_engine-Answers chunkers.installed_app_engine (λ e. e context tokens) app c3 in
        let (c5, e5) =
          call_engine-Answers chunkers.number_annotator (λ e. e context usecase) number c4 in
        let (c6, e6) =
          call_if-Answers (enabled "duration")
            (call_engine chunkers.duration_annotator (λ e. e context tokens usecase))
            (call_engine-Answers chunkers.duration_annotator (λ e. e context tokens usecase)
              duration)
            c5 in
        let (c7, e7) =
          call_if-Answers (enabled "person_name")
            (call_engine chunkers.person_name_engine (λ e. e context tokens))
            (call_engine-Answers chunkers.person_name_engine (λ e. e context tokens) person) c6 in
        let (c8, e8) =
          call_engine-Answers chunkers.grammar_annotator
            (λ e. e options.detected_text_language_tags context) grammar c7 in
        let (c9, e9) =
          call_engine-Answers chunkers.experimental_annotator (λ e. e context) experimental c8 in
        (c9, rw (e1, e2, e3, e4, e5, e6, e7, e8, e9) refl)

module _ {Score : Type 0} (state : State Score) (chunkers : Chunkers Score) (context : Context)
    (options : AnnotationOptions) (find : AllFind chunkers context options)
    (answer : AllAnswer chunkers context options)
    (classify : List Token → CodepointSpan → List (ClassificationResult Score))
    (classifies : (tokens : List Token) (s : CodepointSpan)
      → state.model_classify_text context tokens s ≡ some (classify tokens s)) where
  settle_total :
      (tokens : List Token) (candidates : List (AnnotatedSpan Score))
      → All IsFound candidates
      → (result : List (AnnotatedSpan Score)) × (settle state context options tokens candidates
          ≡ value result)
  unfolding settle
  settle_total tokens candidates found =
      let sorted = sort candidate_less candidates in
      let (indices, e) =
        resolve_conflicts_total (resolver state context tokens) sorted options.annotation_usecase
          (classify tokens) (classifies tokens) (sort-AreCandidates candidates found) in
      (annotations state (is_entity_type_enabled options.entity_types) sorted indices, rw e refl)

  -- If the mode, the text and the languages pass the guards, no annotator fails, each finds only
  -- candidates that have a codepoint and a class, and the model classifies every span, then
  -- `AnnotateSingleInput` returns annotations, whatever candidates of this kind it is given.
  pub annotate_single_input_total :
      check_input state context options ≡ none
      → (candidates : List (AnnotatedSpan Score)) → All IsFound candidates
      → (result : List (AnnotatedSpan Score)) × (annotate_single_input state chunkers context
            options candidates
          ≡ value result)
  unfolding annotate_single_input annotate_checked
  annotate_single_input_total passes candidates found =
      let (r, e1) = answer.model candidates in
      let (all, e2) = collect_total chunkers context options answer r.0 r.1 in
      let (result, e3) = settle_total r.0 all (
        collect-IsFound chunkers context options find r.0 r.1 (find.model candidates r found e1)
          e2) in
      (result, rw (passes, annotate_single_input, e1, e2) e3)
