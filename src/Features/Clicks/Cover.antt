-- ===== src/Features/Clicks/Cover.antt =====
-- `CodepointSpanToTokenSpan` gives the smallest range that holds every selected token.
use native.Mathlib.Decide.{ℕ_discrete}
use external_libtextclassifi.Prelude.{
  ℕ, zero, suc, ◌+◌, ◌≤◌, ◌<◌, pos, eqb_ℤ, Bool, true, false, List, ◌≡◌, refl, ◌⊎◌, inl, inr, arith,
  Bool-cases, if◌then◌else◌, length, subst,
}
use external_libtextclassifi.Span.{CodepointSpan, invalid_index}
use external_libtextclassifi.Token.{Token, TokenSpan}
use external_libtextclassifi.Features.Clicks.{
  token_at, no_tokens, is_selected, cover, codepoint_span_to_token_span,
}

module _ (tokens : List Token) (snap : Bool) (span : CodepointSpan) where
  abbrev pub selected : ℕ → Bool
  selected i = is_selected snap span (token_at tokens i)

  -- No token below `n` is selected.
  pub record IsMiss (n : ℕ) (range : TokenSpan) : Type 0 where
    pub is_range : range ≡ no_tokens
    pub all_out : (k : ℕ) → k < n → selected k ≡ false

  -- The range runs from the first to the last of the selected tokens below `n`.
  pub record IsHit (n : ℕ) (range : TokenSpan) : Type 0 where
    pub first : ℕ
    pub last : ℕ
    pub is_range : range ≡ record { first = pos first; second = pos (suc last) }
    pub in_order : first ≤ last
    pub in_tokens : last < n
    pub first_in : selected first ≡ true
    pub last_in : selected last ≡ true
    pub all_in : (k : ℕ) → k < n → selected k ≡ true → (first ≤ k) × (k ≤ last)

  abbrev Covered : ℕ → TokenSpan → Type 0
  Covered n range = IsMiss n range ⊎ IsHit n range

  abbrev extend : ℕ → TokenSpan → TokenSpan
  extend i found = record {
    first = if eqb_ℤ found.first invalid_index then pos i else found.first;
    second = pos (suc i);
  }

  true-false : {b : Bool} → b ≡ true → b ≡ false → ⊥
  true-false h k = cc

  out_step :
      (i : ℕ) (found : TokenSpan) → selected i ≡ false → Covered i found → Covered (suc i) found
  out_step i found out (inl miss) = inl (record {
    is_range = miss.is_range;
    all_out = λ k lt. elim (ℕ_discrete i k) [
      | yes e ↦ subst (λ j. selected j ≡ false) e out
      | no ne ↦ miss.all_out k (omega arith)
    ];
  })
  out_step i found out (inr hit) = inr (record {
    first = hit.first;
    last = hit.last;
    is_range = hit.is_range;
    in_order = hit.in_order;
    in_tokens = omega (arith, hit.in_tokens);
    first_in = hit.first_in;
    last_in = hit.last_in;
    all_in = λ k lt s. elim (ℕ_discrete i k) [
      | yes e ↦ absurd (true-false s (subst (λ j. selected j ≡ false) e out))
      | no ne ↦ hit.all_in k (omega arith) s
    ];
  })

  in_step :
      (i : ℕ) (found : TokenSpan)
      → selected i ≡ true
      → Covered i found
      → Covered (suc i) (extend i found)
  in_step i found s (inl miss) = inr (record {
    first = i;
    last = i;
    is_range = rw miss.is_range;
    in_order = omega arith;
    in_tokens = omega arith;
    first_in = s;
    last_in = s;
    all_in = λ k lt t. elim (ℕ_discrete i k) [
      | yes e ↦ (omega arith, omega arith)
      | no ne ↦ absurd (true-false t (miss.all_out k (omega arith)))
    ];
  })
  in_step i found s (inr hit) = inr (record {
    first = hit.first;
    last = i;
    is_range = rw hit.is_range (ground arith);
    in_order = omega (arith, hit.in_order, hit.in_tokens);
    in_tokens = omega arith;
    first_in = hit.first_in;
    last_in = s;
    all_in = λ k lt t. elim (ℕ_discrete i k) [
      | yes e ↦ (omega (arith, hit.in_order, hit.in_tokens), omega arith)
      | no ne ↦ ((hit.all_in k (omega arith) t).0, omega arith)
    ];
  })

  cover-Covered :
      (n i m : ℕ) (found : TokenSpan)
      → i + n ≡ m
      → Covered i found
      → Covered m (cover tokens n i snap span found)
  unfolding cover
  cover-Covered zero i m found e c = subst (λ k. Covered k found) (omega arith) c
  cover-Covered (suc n) i m found e c = elim (Bool-cases (selected i)) [
    | inl s ↦ rw s (cover-Covered n (suc i) m (extend i found) (omega arith) (in_step i found s c))
    | inr s ↦ rw s (cover-Covered n (suc i) m found (omega arith) (out_step i found s c))
  ]

  -- Either no token is selected and the range is (-1, -1), or the range runs from the first to the
  -- last of the selected tokens, and every selected token is in it.
  pub codepoint_span_to_token_span-cover :
      IsMiss (length tokens) (codepoint_span_to_token_span tokens span snap)
      ⊎ IsHit (length tokens) (codepoint_span_to_token_span tokens span snap)
  unfolding codepoint_span_to_token_span
  codepoint_span_to_token_span-cover =
      cover-Covered (length tokens) 0 (length tokens) no_tokens (omega arith)
        (inl (record { is_range = refl; all_out = λ k lt. absurd (omega arith) }))
