-- ===== src/Annotator/Clicks/Updated.antt =====
-- `UpdateMax`: the greatest score of every key, and keys in order.
use external_libtextclassifi.Prelude.{
  Bool, true, false, List, [], ◌∷◌, ◌≡◌, refl, sym, inl, inr, arith, All, Any, Pairwise, All-map,
  Bool-cases, subst,
}
use external_libtextclassifi.Annotator.Candidates.{TokenRange, ScoredChunk}
use external_libtextclassifi.Annotator.Chunks.{span_less}
use external_libtextclassifi.Annotator.Annotate.Settled.{IsScoreOrder}
use external_libtextclassifi.Annotator.Clicks.{same_range, max_score, update_max}

same_range-eq : (a b : TokenRange) → same_range a b ≡ true → a ≡ b
same_range-eq a b h =
    let first : a.first ≡ b.first = ground arith in
    let second : a.second ≡ b.second = ground arith in
    let same : record { first = a.first; second = a.second }
        ≡ record { first = b.first; second = b.second } =
      cc in
    same

span_less_trans :
    (a b c : TokenRange) → span_less a b ≡ true → span_less b c ≡ true → span_less a c ≡ true
unfolding span_less
span_less_trans a b c h k = ground arith

span_less_total :
    (a b : TokenRange) → same_range a b ≡ false → span_less b a ≡ false → span_less a b ≡ true
unfolding span_less
span_less_total a b h k = ground arith

module _ {Score : Type 0} (less : Score → Score → Bool) where
  -- The chunks keep the greatest score of each span that was seen, in the order of the spans.
  pub record Holds (seen chunks : List (ScoredChunk Score)) : Type 0 where
    -- each chunk was seen
    pub attained : All (λ c. Any (λ e. e ≡ c) seen) chunks
    -- for each that was seen there is a chunk of its span, with no lower score
    pub greatest :
        All
          (λ e. Any (λ c. (c.token_span ≡ e.token_span) × (less c.score e.score ≡ false)) chunks)
          seen
    -- no span has two chunks
    pub ordered : Pairwise (λ c d. span_less c.token_span d.token_span ≡ true) chunks

  module _ (order : IsScoreOrder (λ a b. less b a)) (key : TokenRange) (value : Score) where
    abbrev new : ScoredChunk Score
    new = record { token_span = key; score = value }

    irreflexive : (x : Score) → less x x ≡ false
    irreflexive x = elim (Bool-cases (less x x)) [ inl e ↦ order.asymm x x e | inr e ↦ e ]

    moved : (c : ScoredChunk Score) → c.token_span ≡ key → new ≡ record c { score = value }
    moved c same = cc

    kept :
        (c : ScoredChunk Score)
        → less c.score value ≡ false
        → record c { score = max_score less c.score value } ≡ c
    unfolding max_score
    kept c l = rw l refl

    update-attained :
        (seen chunks : List (ScoredChunk Score))
        → All (λ c. Any (λ e. e ≡ c) seen) chunks
        → All (λ c. Any (λ e. e ≡ c) (new ∷ seen)) (update_max less key value chunks)
    unfolding update_max max_score
    update-attained seen [] h = (inl refl, tt)
    update-attained seen (c ∷ chunks) (h, hs) = elim (Bool-cases (same_range c.token_span key)) [
      | inl e ↦
          let same = same_range-eq c.token_span key e in
          elim (Bool-cases (less c.score value)) [
            | inl l ↦
                rw (e, update_max, l) (inl (moved c same), All-map _ _ (λ d k. inr k) chunks hs)
            | inr l ↦
                rw (e, update_max)
                  (
                    inr (subst (λ d. Any (λ x. x ≡ d) seen) (sym (kept c l)) h),
                    All-map _ _ (λ d k. inr k) chunks hs,
                  )
          ]
      | inr e ↦ elim (Bool-cases (span_less key c.token_span)) [
        | inl l ↦ rw (e, update_max, l) (inl refl, (inr h, All-map _ _ (λ d k. inr k) chunks hs))
        | inr l ↦ rw (e, update_max, l) (inr h, update-attained seen chunks hs)
      ]
    ]

    abbrev Covers : TokenRange → Score → ScoredChunk Score → Type 0
    Covers span score c = (c.token_span ≡ span) × (less c.score score ≡ false)

    update-Covers :
        (span : TokenRange) (score : Score) (chunks : List (ScoredChunk Score))
        → Any (Covers span score) chunks
        → Any (Covers span score) (update_max less key value chunks)
    unfolding update_max max_score
    update-Covers span score [] h = absurd h
    update-Covers span score (c ∷ chunks) h = elim (Bool-cases (same_range c.token_span key)) [
      | inl e ↦ elim (Bool-cases (less c.score value)) [
        | inl l ↦
            rw (e, update_max, l)
              (elim h [
                | inl (s, k) ↦
                    inl (s, order.trans value c.score score (order.asymm value c.score l) k)
                | inr k ↦ inr k
              ])
        | inr l ↦ rw (e, update_max, l) h
      ]
      | inr e ↦ elim (Bool-cases (span_less key c.token_span)) [
        | inl l ↦ rw (e, update_max, l) (inr h)
        | inr l ↦
            rw (e, update_max, l)
              (elim h [ inl k ↦ inl k | inr k ↦ inr (update-Covers span score chunks k) ])
      ]
    ]

    update-Covers_new :
        (chunks : List (ScoredChunk Score))
        → Any (Covers key value) (update_max less key value chunks)
    unfolding update_max max_score
    update-Covers_new [] = inl (refl, irreflexive value)
    update-Covers_new (c ∷ chunks) = elim (Bool-cases (same_range c.token_span key)) [
      | inl e ↦
          let same = same_range-eq c.token_span key e in
          elim (Bool-cases (less c.score value)) [
            | inl l ↦ rw (e, update_max, l) (inl (same, irreflexive value))
            | inr l ↦ rw (e, update_max, l) (inl (same, l))
          ]
      | inr e ↦ elim (Bool-cases (span_less key c.token_span)) [
        | inl l ↦ rw (e, update_max, l) (inl (refl, irreflexive value))
        | inr l ↦ rw (e, update_max, l) (inr (update-Covers_new chunks))
      ]
    ]

    All-update :
        (P : TokenRange → Type 0) (chunks : List (ScoredChunk Score))
        → P key
        → All (λ c. P c.token_span) chunks
        → All (λ c. P c.token_span) (update_max less key value chunks)
    unfolding update_max
    All-update P [] h hs = (h, tt)
    All-update P (c ∷ chunks) h (hc, hs) = elim (Bool-cases (same_range c.token_span key)) [
      | inl e ↦ rw (e, update_max) (hc, hs)
      | inr e ↦ elim (Bool-cases (span_less key c.token_span)) [
        | inl l ↦ rw (e, update_max, l) (h, (hc, hs))
        | inr l ↦ rw (e, update_max, l) (hc, All-update P chunks h hs)
      ]
    ]

    update-ordered :
        (chunks : List (ScoredChunk Score))
        → Pairwise (λ c d. span_less c.token_span d.token_span ≡ true) chunks
        → Pairwise
            (λ c d. span_less c.token_span d.token_span ≡ true)
            (update_max less key value chunks)
    unfolding update_max
    update-ordered [] h = (tt, tt)
    update-ordered (c ∷ chunks) (h, hs) = elim (Bool-cases (same_range c.token_span key)) [
      | inl e ↦ rw (e, update_max) (h, hs)
      | inr e ↦ elim (Bool-cases (span_less key c.token_span)) [
        | inl l ↦
            rw (e, update_max, l)
              (
                (
                  l,
                  All-map _ _ (λ d k. span_less_trans key c.token_span d.token_span l k) chunks h,
                ),
                (h, hs),
              )
        | inr l ↦
            rw (e, update_max, l)
              (
                All-update (λ s. span_less c.token_span s ≡ true) chunks
                    (span_less_total c.token_span key e l) h,
                update-ordered chunks hs,
              )
      ]
    ]

    pub update_max-Holds :
        (seen chunks : List (ScoredChunk Score))
        → Holds seen chunks
        → Holds (new ∷ seen) (update_max less key value chunks)
    update_max-Holds seen chunks h = record {
      attained = update-attained seen chunks h.attained;
      greatest = (
        update-Covers_new chunks,
        All-map _ _ (λ e. update-Covers e.token_span e.score chunks) seen h.greatest,
      );
      ordered = update-ordered chunks h.ordered;
    }
