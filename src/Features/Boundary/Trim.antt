-- ===== src/Features/Boundary/Trim.antt =====
-- What `StripBoundaryCodepoints` takes off, and what is left.
use native.Mathlib.Decide.{ℕ_discrete}
use external_libtextclassifi.Prelude.{
  [], ◌∷◌, ℕ, zero, suc, ◌+◌, ◌-◌, ◌≤◌, ◌<◌, pos, ◌+ℤ◌, ◌-ℤ◌, Bool, true, false, ◌≡◌, refl, ◌⊎◌,
  inl, inr, arith, if◌then◌else◌, Bool-cases, subst, length, ltb, ltb→lt,
}
use external_libtextclassifi.Span.{CodepointSpan, valid_non_empty_span}
use external_libtextclassifi.Text.{UnicodeText, at}
use external_libtextclassifi.Features.Boundary.{
  count_forward, count_backward, count_ignored, shrink, strip_between, strip_boundary_codepoints,
}

module _ (text : UnicodeText) (ignored : ℕ → Bool) where
  -- `k` codepoints from `it` on are ignored, and the next is not, unless it is behind the `n`-th.
  record IsForward (n it k : ℕ) : Type 0 where
    within : k ≤ n
    skipped : (i : ℕ) → it ≤ i → i < it + k → ignored (at text i) ≡ true
    stops : k < n → ignored (at text (it + k)) ≡ false

  record IsBackward (n start k : ℕ) : Type 0 where
    within : k ≤ n
    skipped : (i : ℕ) → start + n ≤ i + k → i < start + n → ignored (at text i) ≡ true
    stops : k < n → ignored (at text (start + n - suc k)) ≡ false

  at_same : {b : Bool} (i j : ℕ) → i ≡ j → ignored (at text i) ≡ b → ignored (at text j) ≡ b
  at_same {b} i j e h = subst (λ k. ignored (at text k) ≡ b) e h

  IsForward-step :
      (n it k : ℕ)
      → ignored (at text it) ≡ true
      → IsForward n (suc it) k
      → IsForward (suc n) it (suc k)
  IsForward-step n it k e f = record {
    within = omega (arith, f.within);
    skipped = λ i lo hi. elim (ℕ_discrete it i) [
      | yes same ↦ at_same it i same e
      | no other ↦ f.skipped i (omega arith) (omega arith)
    ];
    stops = λ lt. at_same (suc it + k) (it + suc k) (omega arith) (f.stops (omega arith));
  }

  count_forward-IsForward : (n it : ℕ) → IsForward n it (count_forward text ignored n it)
  unfolding count_forward
  count_forward-IsForward zero it = record {
    within = omega arith;
    skipped = λ i lo hi. absurd (omega arith);
    stops = λ lt. absurd (omega arith);
  }
  count_forward-IsForward (suc n) it = elim (Bool-cases (ignored (at text it))) [
    | inl e ↦ rw e (IsForward-step n it _ e (count_forward-IsForward n (suc it)))
    | inr e ↦ rw e (record {
      within = omega arith;
      skipped = λ i lo hi. absurd (omega arith);
      stops = λ lt. at_same it (it + 0) (omega arith) e;
    })
  ]

  IsBackward-step :
      (n start k : ℕ)
      → ignored (at text (start + n)) ≡ true
      → IsBackward n start k
      → IsBackward (suc n) start (suc k)
  IsBackward-step n start k e b = record {
    within = omega (arith, b.within);
    skipped = λ i lo hi. elim (ℕ_discrete (start + n) i) [
      | yes same ↦ at_same (start + n) i same e
      | no other ↦ b.skipped i (omega arith) (omega arith)
    ];
    stops = λ lt.
        at_same (start + n - suc k) (start + suc n - suc (suc k)) (omega arith)
          (b.stops (omega arith));
  }

  count_backward-IsBackward :
      (n start : ℕ) → IsBackward n start (count_backward text ignored n start)
  unfolding count_backward
  count_backward-IsBackward zero start = record {
    within = omega arith;
    skipped = λ i lo hi. absurd (omega arith);
    stops = λ lt. absurd (omega arith);
  }
  count_backward-IsBackward (suc n) start = elim (Bool-cases (ignored (at text (start + n)))) [
    | inl e ↦ rw e (IsBackward-step n start _ e (count_backward-IsBackward n start))
    | inr e ↦ rw e (record {
      within = omega arith;
      skipped = λ i lo hi. absurd (omega arith);
      stops = λ lt. at_same (start + n) (start + suc n - 1) (omega arith) e;
    })
  ]

strip_valid :
    (text : UnicodeText) (prefix suffix : ℕ → Bool) (a b : ℕ)
    → a < b
    → b ≤ length text
    → strip_boundary_codepoints text prefix suffix (record { first = pos a; second = pos b })
      ≡ shrink
          (record { first = pos a; second = pos b })
          (count_forward text prefix (b - a) a)
          (count_backward text suffix (b - a) a)
unfolding strip_boundary_codepoints strip_between count_ignored valid_non_empty_span
strip_valid [] prefix suffix a b lt fits = absurd (omega arith)
strip_valid (x ∷ text) prefix suffix a b lt fits = ground arith

module _ (text : UnicodeText) (prefix suffix : ℕ → Bool) where
  -- The span from `a` up to `b` becomes the one from `first` up to `second`.
  pub record IsStripped (a b : ℕ) (result : CodepointSpan) : Type 0 where
    pub first : ℕ
    pub second : ℕ
    pub is_result : result ≡ record { first = pos first; second = pos second }
    pub in_order : (a ≤ first) × (first ≤ second) × (second ≤ b)
    -- what goes is to be ignored
    pub front : (i : ℕ) → a ≤ i → i < first → prefix (at text i) ≡ true
    pub back : first < second → (i : ℕ) → second ≤ i → i < b → suffix (at text i) ≡ true
    -- what stays begins and ends with codepoints that are not
    pub first_kept : first < second → prefix (at text first) ≡ false
    pub last_kept : first < second → suffix (at text (second - 1)) ≡ false
    -- and if nothing stays there was nothing to keep
    pub nothing_left :
        first ≡ second
        → (i : ℕ) → a ≤ i
        → i < b
        → (prefix (at text i) ≡ true) ⊎ (suffix (at text i) ≡ true)

  shrink_lem :
      (a b k m : ℕ)
      → m ≤ b
      → shrink (record { first = pos a; second = pos b }) k m ≡ (
          if ltb (a + k) (b - m)
          then record { first = pos (a + k); second = pos (b - m) }
          else record { first = pos a; second = pos a })
  unfolding shrink ◌+ℤ◌ ◌-ℤ◌
  shrink_lem a b k m h = ground arith

  shrink-IsStripped :
      (a b k m : ℕ)
      → a < b
      → IsForward text prefix (b - a) a k
      → IsBackward text suffix (b - a) a m
      → IsStripped a b (shrink (record { first = pos a; second = pos b }) k m)
  shrink-IsStripped a b k m lt f r = elim (Bool-cases (ltb (a + k) (b - m))) [
    | inl e ↦
        let left : a + k < b - m = ltb→lt _ _ e in
        record {
          first = a + k;
          second = b - m;
          is_result = rw (shrink_lem a b k m (omega (arith, r.within)), e) refl;
          in_order = (omega arith, omega arith, omega arith);
          front = f.skipped;
          back = λ h i lo hi. r.skipped i (omega arith) (omega arith);
          first_kept = λ h. f.stops (omega arith);
          last_kept = λ h.
              at_same text suffix (a + (b - a) - suc m) (b - m - 1) (omega arith)
                (r.stops (omega arith));
          nothing_left = λ h. absurd (omega arith);
        }
    | inr e ↦
        let none_left : b - m ≤ a + k = ground arith in
        record {
          first = a;
          second = a;
          is_result = rw (shrink_lem a b k m (omega (arith, r.within)), e) refl;
          in_order = (omega arith, omega arith, omega arith);
          front = λ i lo hi. absurd (omega arith);
          back = λ h. absurd (omega arith);
          first_kept = λ h. absurd (omega arith);
          last_kept = λ h. absurd (omega arith);
          nothing_left = λ h i lo hi. elim (Bool-cases (ltb i (a + k))) [
            | inl before ↦ inl (f.skipped i lo (ltb→lt _ _ before))
            | inr past ↦ inr (r.skipped i (ground arith) (omega arith))
          ];
        }
  ]

  -- Of a span that holds a codepoint of the text, `StripBoundaryCodepoints` takes off exactly the
  -- ignored codepoints at its two ends, and it is empty only if all were to be ignored.
  pub strip_boundary_codepoints-IsStripped :
      (a b : ℕ)
      → a < b
      → b ≤ length text
      → IsStripped a b
          (strip_boundary_codepoints text prefix suffix (record { first = pos a; second = pos b }))
  strip_boundary_codepoints-IsStripped a b lt fits =
      rw (strip_valid text prefix suffix a b lt fits) (
        shrink-IsStripped a b _ _ lt (count_forward-IsForward text prefix (b - a) a)
          (count_backward-IsBackward text suffix (b - a) a))
