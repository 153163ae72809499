-- ===== src/Features/Clicks/Center.antt =====
-- Which token a click, or a selection, is centred on.
use native.Mathlib.Decide.{ℕ_discrete}
use external_libtextclassifi.Prelude.{
  ℕ, zero, suc, ◌+◌, ◌/◌, ◌≤◌, ◌<◌, ℤ, pos, ◌+ℤ◌, ◌-ℤ◌, eqb_ℤ, Bool, true, false, not, ◌||◌, ◌&&◌,
  List, ◌≡◌, refl, ◌⊎◌, inl, inr, arith, Bool-cases, if◌then◌else◌, length, subst, sym,
}
use external_libtextclassifi.Span.{CodepointSpan, invalid_index}
use external_libtextclassifi.Token.{Token, TokenSpan}
use external_libtextclassifi.Features.Clicks.{
  half, token_at, contains_span, find_from, find_token_that_contains_span,
  codepoint_span_to_token_span, click_range, center_token_from_click,
  center_token_from_middle_of_selection, no_tokens,
}
use external_libtextclassifi.Features.Clicks.Cover.{
  selected, IsMiss, IsHit, codepoint_span_to_token_span-cover,
}

module _ (tokens : List Token) (span : CodepointSpan) where
  abbrev pub holds_span : ℕ → Bool
  holds_span i = contains_span span (token_at tokens i)

  -- The first token from `i` on that contains the span, or -1.
  record IsFirst (i m : ℕ) (k : ℕ) : Type 0 where
    inside : (i ≤ k) × (k < m)
    holds : holds_span k ≡ true
    earlier : (j : ℕ) → i ≤ j → j < k → holds_span j ≡ false

  IsFirst-next : (i m k : ℕ) → holds_span i ≡ false → IsFirst (suc i) m k → IsFirst i m k
  IsFirst-next i m k out f = record {
    inside = (omega (arith, f.inside), omega (arith, f.inside));
    holds = f.holds;
    earlier = λ j lo hi. elim (ℕ_discrete i j) [
      | yes e ↦ subst (λ x. holds_span x ≡ false) e out
      | no ne ↦ f.earlier j (omega arith) hi
    ];
  }

  find_from-cases :
      (n i m : ℕ)
      → i + n ≡ m
      → ((find_from tokens n i span ≡ invalid_index)
          × ((j : ℕ) → i ≤ j → j < m → holds_span j ≡ false))
        ⊎ ((k : ℕ) × (find_from tokens n i span ≡ pos k) × IsFirst i m k)
  unfolding find_from
  find_from-cases zero i m e = inl (refl, λ j lo hi. absurd (omega arith))
  find_from-cases (suc n) i m e = elim (Bool-cases (holds_span i)) [
    | inl h ↦ inr (
      i,
      rw h refl,
      record {
        inside = (omega arith, omega arith);
        holds = h;
        earlier = λ j lo hi. absurd (omega arith);
      },
    )
    | inr h ↦ rw h (elim (find_from-cases n (suc i) m (omega arith)) [
      | inl (miss, out) ↦ inl (
        miss,
        λ j lo hi. elim (ℕ_discrete i j) [
          | yes same ↦ subst (λ x. holds_span x ≡ false) same h
          | no ne ↦ out j (omega arith) hi
        ],
      )
      | inr (k, hit, f) ↦ inr (k, hit, IsFirst-next i m k h f)
    ])
  ]

  -- The four ways in which a click ends.
  pub data Click (r : ℤ) : Type 0 where
    -- exactly one token lies in the span
    exact :
        (i : ℕ)
        → i < length tokens
        → selected tokens false span i ≡ true
        → ((k : ℕ) → k < length tokens → selected tokens false span k ≡ true → k ≡ i)
        → r ≡ pos i
        → Click r
    -- no token lies in it, and `i` is the first that contains it
    around :
        (i : ℕ)
        → i < length tokens
        → ((k : ℕ) → k < length tokens → selected tokens false span k ≡ false)
        → holds_span i ≡ true
        → ((k : ℕ) → k < i → holds_span k ≡ false)
        → r ≡ pos i
        → Click r
    -- two tokens lie in it
    several :
        (i j : ℕ)
        → i < j
        → j < length tokens
        → selected tokens false span i ≡ true
        → selected tokens false span j ≡ true
        → r ≡ invalid_index
        → Click r
    -- no token lies in it or contains it
    nowhere :
        ((k : ℕ) → k < length tokens → selected tokens false span k ≡ false)
        → ((k : ℕ) → k < length tokens → holds_span k ≡ false)
        → r ≡ invalid_index
        → Click r

  abbrev click_result : TokenSpan → ℤ → ℤ
  click_result range token_index =
      let wide : TokenSpan =
        (if eqb_ℤ range.first invalid_index || eqb_ℤ range.second invalid_index
          then (if not (eqb_ℤ token_index invalid_index)
              then record { first = token_index; second = token_index +ℤ pos 1 }
              else range)
          else range) in
      if eqb_ℤ (wide.second -ℤ wide.first) (pos 1) then wide.first else invalid_index

  center_token_from_click_lem :
      center_token_from_click tokens span
      ≡ click_result
          (codepoint_span_to_token_span tokens span false)
          (find_token_that_contains_span tokens span)
  unfolding center_token_from_click click_range
  center_token_from_click_lem = refl

  click_around : (i : ℕ) → click_result no_tokens (pos i) ≡ pos i
  unfolding ◌+ℤ◌ ◌-ℤ◌
  click_around i = ground arith

  click_nowhere : click_result no_tokens invalid_index ≡ invalid_index
  unfolding ◌+ℤ◌ ◌-ℤ◌
  click_nowhere = ground arith

  click_exact :
      (i : ℕ) (t : ℤ) → click_result (record { first = pos i; second = pos (suc i) }) t ≡ pos i
  unfolding ◌-ℤ◌
  click_exact i t = ground arith

  click_several :
      (i j : ℕ) (t : ℤ)
      → i < j
      → click_result (record { first = pos i; second = pos (suc j) }) t ≡ invalid_index
  unfolding ◌-ℤ◌
  click_several i j t lt = ground arith

  Click-range :
      (range : TokenSpan) (t : ℤ)
      → IsMiss tokens false span (length tokens) range
        ⊎ IsHit tokens false span (length tokens) range
      → ((t ≡ invalid_index) × ((j : ℕ) → 0 ≤ j → j < length tokens → holds_span j ≡ false))
        ⊎ ((k : ℕ) × (t ≡ pos k) × IsFirst 0 (length tokens) k)
      → Click (click_result range t)
  Click-range range t (inl miss) (inl (none_holds, out)) =
      nowhere miss.all_out (λ k lt. out k (omega arith) lt)
        (rw (miss.is_range, none_holds) click_nowhere)
  Click-range range t (inl miss) (inr (k, found, f)) =
      around k f.inside.1 miss.all_out f.holds (λ j lt. f.earlier j (omega arith) lt)
        (rw (miss.is_range, found) (click_around k))
  Click-range range t (inr hit) found = elim (ℕ_discrete hit.first hit.last) [
    | yes e ↦
        exact hit.first (omega (arith, hit.in_order, hit.in_tokens)) hit.first_in
          (λ k lt s. let (lo, hi) = hit.all_in k lt s in omega arith)
          (rw (hit.is_range, ← e) (click_exact hit.first t))
    | no ne ↦
        let lt : hit.first < hit.last = omega (arith, hit.in_order) in
        several hit.first hit.last lt hit.in_tokens hit.first_in hit.last_in
          (rw hit.is_range (click_several hit.first hit.last t lt))
  ]

  -- A click is centred on the one token that lies in it; if none does, on the first token that
  -- contains it; and on no token if several lie in it, or none lies in it and none contains it.
  pub center_token_from_click-Click : Click (center_token_from_click tokens span)
  unfolding find_token_that_contains_span
  center_token_from_click-Click = subst Click (sym center_token_from_click_lem) (
      Click-range _ _ (codepoint_span_to_token_span-cover tokens false span)
        (find_from-cases (length tokens) 0 (length tokens) (omega arith)))

  abbrev middle_result : TokenSpan → ℤ
  middle_result range =
      if not (eqb_ℤ range.first invalid_index) && not (eqb_ℤ range.second invalid_index)
      then half (range.first +ℤ range.second -ℤ pos 1)
      else invalid_index

  middle_hit :
      (i j : ℕ) → middle_result (record { first = pos i; second = pos (suc j) }) ≡ pos ((i + j) / 2)
  unfolding ◌+ℤ◌ ◌-ℤ◌
  middle_hit i j = ground arith

  -- A selection is centred on the middle of the tokens from the first to the last that lie in it, and
  -- on no token exactly if none does.
  pub center_token_from_middle_of_selection-middle :
      ((center_token_from_middle_of_selection tokens span ≡ invalid_index)
        × ((k : ℕ) → k < length tokens → selected tokens false span k ≡ false))
      ⊎ ((i : ℕ) × (j : ℕ) × (i ≤ j)
          × (j < length tokens)
          × (selected tokens false span i ≡ true)
          × (selected tokens false span j ≡ true)
          × ((k : ℕ) → k < length tokens → selected tokens false span k ≡ true → (i ≤ k) × (k ≤ j))
          × (center_token_from_middle_of_selection tokens span ≡ pos ((i + j) / 2)))
  unfolding center_token_from_middle_of_selection
  center_token_from_middle_of_selection-middle =
      elim (codepoint_span_to_token_span-cover tokens false span) [
        | inl miss ↦ inl (rw miss.is_range refl, miss.all_out)
        | inr hit ↦ inr (
          hit.first,
          hit.last,
          hit.in_order,
          hit.in_tokens,
          hit.first_in,
          hit.last_in,
          hit.all_in,
          rw hit.is_range (middle_hit hit.first hit.last),
        )
      ]
