-- ===== src/Annotator/Candidates/Exact.antt =====
-- The first loop of `ModelBoundsSensitiveScoreChunks` lists exactly the spans that its comment names.
use external_libtextclassifi.Prelude.{
  ℕ, zero, suc, ◌+◌, ◌-◌, ◌≤◌, ◌<◌, max, min, Bool, true, false, ◌&&◌, ◌≡◌, refl, ◌⊎◌, inl, inr,
  arith, All, Any, All-append, Any-append_left, Any-append_right, Bool-cases, leb, ◌==◌, subst,
}
use external_libtextclassifi.Annotator.Candidates.{
  TokenRange, Listed, list_span, list_ends, list_starts, list_candidates,
}

module _ (interest inference : TokenRange) (longest : ℕ) (zero_singles : Bool) where
  -- The span is contained in the inference span, it meets the span of interest, it has a token, and it
  -- is not longer than the longest chunk.
  pub record IsCandidate (span : TokenRange) : Type 0 where
    pub contained : (inference.first ≤ span.first) × (span.second ≤ inference.second)
    pub meets : max span.first interest.first < min span.second interest.second
    pub not_empty : span.first < span.second
    pub not_longer : span.second - span.first ≤ longest

  -- The span goes the way without inference, a score of zero.
  abbrev pub IsSingle : TokenRange → Type 0
  IsSingle span = (zero_singles && span.second - span.first == 1) ≡ true

  abbrev pub IsBatched : TokenRange → Type 0
  IsBatched span = (zero_singles && span.second - span.first == 1) ≡ false

  pub record AreCandidates (listed : Listed) : Type 0 where
    pub singles : All (λ s. IsCandidate s × IsSingle s) listed.singles
    pub batched : All (λ s. IsCandidate s × IsBatched s) listed.candidate_spans

  abbrev pub Has : ℕ → ℕ → Listed → Type 0
  Has s e listed =
      Any (λ r. (r.first ≡ s) × (r.second ≡ e)) listed.singles
      ⊎ Any (λ r. (r.first ≡ s) × (r.second ≡ e)) listed.candidate_spans

  list_span-AreCandidates :
      (s e : ℕ) (listed : Listed)
      → IsCandidate (record { first = s; second = e })
      → AreCandidates listed
      → AreCandidates (list_span interest inference longest zero_singles s e listed)
  unfolding list_span
  list_span-AreCandidates s e listed c h = elim (Bool-cases (zero_singles && e - s == 1)) [
    | inl t ↦ rw t (record {
      singles = All-append _ listed.singles _ h.singles ((c, t), tt);
      batched = h.batched;
    })
    | inr f ↦ rw f (record {
      singles = h.singles;
      batched = All-append _ listed.candidate_spans _ h.batched ((c, f), tt);
    })
  ]

  list_span_keeps :
      (x y s e : ℕ) (listed : Listed)
      → Has x y listed
      → Has x y (list_span interest inference longest zero_singles s e listed)
  unfolding list_span
  list_span_keeps x y s e listed h = elim (Bool-cases (zero_singles && e - s == 1)) [
    | inl t ↦ rw t (elim h [ inl a ↦ inl (Any-append_left _ listed.singles _ a) | inr b ↦ inr b ])
    | inr f ↦
        rw f (elim h [ inl a ↦ inl a | inr b ↦ inr (Any-append_left _ listed.candidate_spans _ b) ])
  ]

  list_span_adds :
      (s e : ℕ) (listed : Listed)
      → Has s e (list_span interest inference longest zero_singles s e listed)
  unfolding list_span
  list_span_adds s e listed = elim (Bool-cases (zero_singles && e - s == 1)) [
    | inl t ↦ rw t (inl (Any-append_right _ listed.singles _ (inl (refl, refl))))
    | inr f ↦ rw f (inr (Any-append_right _ listed.candidate_spans _ (inl (refl, refl))))
  ]

  list_ends-AreCandidates :
      (n s e : ℕ) (listed : Listed)
      → inference.first ≤ s
      → max s interest.first < min e interest.second
      → AreCandidates listed
      → AreCandidates (list_ends interest inference longest zero_singles n s e listed)
  unfolding list_ends
  list_ends-AreCandidates zero s e listed lo meets h = h
  list_ends-AreCandidates (suc n) s e listed lo meets h =
      elim (Bool-cases (leb e inference.second && leb (e - s) longest)) [
        | inl t ↦
            let c : IsCandidate (record { first = s; second = e }) = record {
              contained = (lo, ground arith);
              meets = meets;
              not_empty = omega arith;
              not_longer = ground arith;
            } in
            rw (t, list_ends)
              (list_ends-AreCandidates n s (suc e) _ lo (omega arith)
                (list_span-AreCandidates s e listed c h))
        | inr f ↦ rw (f, list_ends) h
      ]

  list_ends_keeps :
      (x y n s e : ℕ) (listed : Listed)
      → Has x y listed
      → Has x y (list_ends interest inference longest zero_singles n s e listed)
  unfolding list_ends
  list_ends_keeps x y zero s e listed h = h
  list_ends_keeps x y (suc n) s e listed h =
      elim (Bool-cases (leb e inference.second && leb (e - s) longest)) [
        | inl t ↦
            rw (t, list_ends) (list_ends_keeps x y n s (suc e) _ (list_span_keeps x y s e listed h))
        | inr f ↦ rw (f, list_ends) h
      ]

  list_ends_adds :
      (y n s e : ℕ) (listed : Listed)
      → e ≤ y
      → y < e + n
      → y ≤ inference.second
      → y - s ≤ longest
      → Has s y (list_ends interest inference longest zero_singles n s e listed)
  unfolding list_ends
  list_ends_adds y zero s e listed lo hi within short = absurd (omega arith)
  list_ends_adds y (suc n) s e listed lo hi within short =
      let t : (leb e inference.second && leb (e - s) longest) ≡ true = ground arith in
      elim (lt_or_eq e y lo) [
        | inl lt ↦
            rw (t, list_ends)
              (list_ends_adds y n s (suc e) _ (omega arith) (omega arith) within short)
        | inr same ↦
            rw (t, list_ends)
              (list_ends_keeps s y n s (suc e) _ (
                subst (λ k. Has s k (list_span interest inference longest zero_singles s e listed))
                  same (list_span_adds s e listed)))
      ]
    where
      lt_or_eq : (a b : ℕ) → a ≤ b → (a < b) ⊎ (a ≡ b)
      lt_or_eq a b h = omega arith

  list_starts-AreCandidates :
      (n s : ℕ) (listed : Listed)
      → inference.first ≤ s
      → s + n ≤ max interest.second s
      → interest.first < interest.second
      → AreCandidates listed
      → AreCandidates (list_starts interest inference longest zero_singles n s listed)
  unfolding list_starts
  list_starts-AreCandidates zero s listed lo hi ne h = h
  list_starts-AreCandidates (suc n) s listed lo hi ne h =
      list_starts-AreCandidates n (suc s) _ (omega arith) (omega arith) ne
        (list_ends-AreCandidates _ s _ listed lo (omega arith) h)

  list_starts_keeps :
      (x y n s : ℕ) (listed : Listed)
      → Has x y listed
      → Has x y (list_starts interest inference longest zero_singles n s listed)
  unfolding list_starts
  list_starts_keeps x y zero s listed h = h
  list_starts_keeps x y (suc n) s listed h =
      list_starts_keeps x y n (suc s) _ (list_ends_keeps x y _ s _ listed h)

  list_starts_adds :
      (n s : ℕ) (listed : Listed) (span : TokenRange)
      → IsCandidate span
      → s ≤ span.first
      → span.first < s + n
      → Has span.first span.second (list_starts interest inference longest zero_singles n s listed)
  unfolding list_starts
  list_starts_adds zero s listed span c lo hi = absurd (omega arith)
  list_starts_adds (suc n) s listed span c lo hi = elim (lt_or_eq s span.first lo) [
    | inl lt ↦ list_starts_adds n (suc s) _ span c (omega arith) (omega arith)
    | inr same ↦ list_starts_keeps span.first span.second n (suc s) _ (
        subst
          (λ k. Has k span.second (
            list_ends interest inference longest zero_singles
              (suc inference.second - (max s interest.first + 1)) s (max s interest.first + 1)
              listed))
          same
          (list_ends_adds span.second _ s _ listed (omega (arith, c.meets, same))
            (omega (arith, c.meets, c.contained, same)) (c.contained.1)
            (omega (arith, c.not_longer, same))))
  ]
    where
      lt_or_eq : (a b : ℕ) → a ≤ b → (a < b) ⊎ (a ≡ b)
      lt_or_eq a b h = omega arith

  -- If the span of interest is not empty, then each span that is listed is a candidate: it is contained
  -- in the inference span, meets the span of interest, has a token, and is not longer than the longest
  -- chunk. It is listed for a score of zero if it is a single token and these are scored so, and for
  -- the model otherwise. And every candidate is listed.
  pub list_candidates-AreCandidates :
      interest.first < interest.second
      → AreCandidates (list_candidates interest inference longest zero_singles)
        × ((span : TokenRange)
            → IsCandidate span
            → Has span.first span.second (list_candidates interest inference longest zero_singles))
  unfolding list_candidates
  list_candidates-AreCandidates ne = (
    list_starts-AreCandidates _ inference.first _ (omega arith) (omega arith) ne
        (record { singles = tt; batched = tt }),
    λ span c.
        list_starts_adds _ inference.first _ span c (c.contained.0)
          (omega (arith, c.meets, c.contained)),
  )
