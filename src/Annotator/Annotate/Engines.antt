-- ===== src/Annotator/Annotate/Engines.antt =====
-- What `AnnotateSingleInput` relies on in the annotators that it calls, and what their candidates have in
-- common then.
use Prim.Native.String.{String}
use external_libtextclassifi.Prelude.{Bool, true, false, List, Option, none, some, ◌≡◌, All, subst}
use external_libtextclassifi.Token.{Token}
use external_libtextclassifi.Conflict.{AnnotatedSpan}
use external_libtextclassifi.Annotator.Status.{
  value, or_internal, >>=-eq-value, or_internal-eq-value,
}
use external_libtextclassifi.Annotator.State.{Context}
use external_libtextclassifi.Annotator.Annotate.{
  Chunk, Chunkers, AnnotationOptions, call_if, call_engine, collect,
}
use external_libtextclassifi.Annotator.Annotate.Settled.{IsFound}

module _ {Score : Type 0} where
  -- A call of an engine finds only candidates with a span and a class.
  abbrev pub Finds : Chunk Score → Type 0
  Finds chunk =
      (cs cs' : List (AnnotatedSpan Score)) → All IsFound cs → chunk cs ≡ some cs' → All IsFound cs'

  -- The engine that is there finds only such candidates.
  abbrev pub EngineFinds : {A : Type 0} → Option A → (A → Chunk Score) → Type 0
  EngineFinds none call = Unit
  EngineFinds (some engine) call = Finds (call engine)

  -- What `AnnotateSingleInput` relies on: each annotator appends candidates with a span and a class.
  pub record AllFind (chunkers : Chunkers Score) (context : Context) (options : AnnotationOptions)
      : Type 0 where
    pub model :
        (cs : List (AnnotatedSpan Score)) (r : List Token × List (AnnotatedSpan Score))
        → All IsFound cs
        → chunkers.model_annotate context options.detected_text_language_tags cs ≡ some r
        → All IsFound r.1
    pub regex : Finds (chunkers.regex_chunk context)
    pub datetime : Finds (chunkers.datetime_chunk context options)
    pub engines :
        (tokens : List Token)
        → EngineFinds chunkers.contact_engine (λ e. e context tokens)
          × EngineFinds chunkers.installed_app_engine (λ e. e context tokens)
          × EngineFinds chunkers.number_annotator (λ e. e context options.annotation_usecase)
          × EngineFinds chunkers.duration_annotator
              (λ e. e context tokens options.annotation_usecase)
          × EngineFinds chunkers.person_name_engine (λ e. e context tokens)
          × EngineFinds chunkers.grammar_annotator
              (λ e. e options.detected_text_language_tags context)
          × EngineFinds chunkers.experimental_annotator (λ e. e context)

  call_if-Finds : (b : Bool) (chunk : Chunk Score) → Finds chunk → Finds (call_if b chunk)
  unfolding call_if
  call_if-Finds true chunk h = h
  call_if-Finds false chunk h = λ cs cs' f e. let same : cs ≡ cs' = cc in subst (All IsFound) same f

  call_engine-Finds :
      {A : Type 0} (engine : Option A) (call : A → Chunk Score)
      → EngineFinds engine call
      → Finds (call_engine engine call)
  unfolding call_engine
  call_engine-Finds none call h =
      λ cs cs' f e. let same : cs ≡ cs' = cc in subst (All IsFound) same f
  call_engine-Finds (some engine) call h = h

  module _ (chunkers : Chunkers Score) (context : Context) (options : AnnotationOptions)
      (find : AllFind chunkers context options) where
    call_finds :
        (message : String) (chunk : Chunk Score) (cs : List (AnnotatedSpan Score))
        {cs' : List (AnnotatedSpan Score)}
        → Finds chunk
        → All IsFound cs
        → or_internal message (chunk cs) ≡ value cs'
        → All IsFound cs'
    call_finds message chunk cs {cs'} f h e = f cs cs' h (or_internal-eq-value message (chunk cs) e)

    pub collect-IsFound :
        (tokens : List Token) (cs : List (AnnotatedSpan Score)) {cs' : List (AnnotatedSpan Score)}
        → All IsFound cs
        → collect chunkers context options tokens cs ≡ value cs'
        → All IsFound cs'
    unfolding collect
    collect-IsFound tokens cs h e0 =
        let (contact, app, number, duration, person, grammar, experimental) = find.engines tokens in
        let (c1, r1, e1) = >>=-eq-value _ _ e0 in
        let h1 = call_finds _ _ _ find.regex h r1 in
        let (c2, r2, e2) = >>=-eq-value _ _ e1 in
        let h2 = call_finds _ _ _ (call_if-Finds _ _ find.datetime) h1 r2 in
        let (c3, r3, e3) = >>=-eq-value _ _ e2 in
        let h3 = call_finds _ _ _ (call_engine-Finds _ _ contact) h2 r3 in
        let (c4, r4, e4) = >>=-eq-value _ _ e3 in
        let h4 = call_finds _ _ _ (call_engine-Finds _ _ app) h3 r4 in
        let (c5, r5, e5) = >>=-eq-value _ _ e4 in
        let h5 = call_finds _ _ _ (call_engine-Finds _ _ number) h4 r5 in
        let (c6, r6, e6) = >>=-eq-value _ _ e5 in
        let h6 = call_finds _ _ _ (call_if-Finds _ _ (call_engine-Finds _ _ duration)) h5 r6 in
        let (c7, r7, e7) = >>=-eq-value _ _ e6 in
        let h7 = call_finds _ _ _ (call_if-Finds _ _ (call_engine-Finds _ _ person)) h6 r7 in
        let (c8, r8, e8) = >>=-eq-value _ _ e7 in
        let h8 = call_finds _ _ _ (call_engine-Finds _ _ grammar) h7 r8 in
        call_finds _ _ _ (call_engine-Finds _ _ experimental) h8 e8
