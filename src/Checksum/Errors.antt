-- ===== src/Checksum/Errors.antt =====
-- The checksum and a change of one digit.
use external_libtextclassifi.Prelude.{
  ℕ, zero, suc, ◌+◌, ◌-◌, ◌*◌, ◌%◌, ◌<◌, ◌≤◌, Bool, true, false, not, ◌&&◌, List, [], ◌∷◌, ◌++◌,
  none, some, ◌≡◌, ◌≢◌, refl, ap, ◌∙◌, ◌⊎◌, inl, inr, arith, ltb, ◌==◌, if◌then◌else◌, ◌>>=◌,
  Bool-cases, Option-cases,
}
use external_libtextclassifi.Checksum.{
  Luhn, start_luhn, is_ascii_digit, weight, add_digit, luhn_step, luhn_loop, verify_luhn_checksum,
}

-- The sum of the digits of the doubled digit.
weight_doubled : (d : ℕ) → d < 10 → weight false d ≡ (if ltb d 5 then 2 * d else 2 * d - 9)
unfolding weight
weight_doubled zero h = refl
weight_doubled (suc zero) h = refl
weight_doubled (suc (suc zero)) h = refl
weight_doubled (suc (suc (suc zero))) h = refl
weight_doubled (suc (suc (suc (suc zero)))) h = refl
weight_doubled (suc (suc (suc (suc (suc zero))))) h = refl
weight_doubled (suc (suc (suc (suc (suc (suc zero)))))) h = refl
weight_doubled (suc (suc (suc (suc (suc (suc (suc zero))))))) h = refl
weight_doubled (suc (suc (suc (suc (suc (suc (suc (suc zero)))))))) h = refl
weight_doubled (suc (suc (suc (suc (suc (suc (suc (suc (suc zero))))))))) h = refl
weight_doubled (suc (suc (suc (suc (suc (suc (suc (suc (suc (suc d)))))))))) h =
    absurd (omega arith)

-- Two digits of one place add up differently.
weight_injective :
    (odd : Bool) (d e : ℕ) → d < 10 → e < 10 → d ≢ e → (weight odd d % 10) ≢ (weight odd e % 10)
unfolding weight
weight_injective true d e hd he ne = ground (arith, ne)
weight_injective false d e hd he ne = ground (arith, ne, weight_doubled d hd, weight_doubled e he)

no_more : (s : ℕ) → s ≡ s + 0
no_more s = omega arith

regroup : (s t w : ℕ) → s + t + w ≡ s + (t + w)
regroup s t w = omega arith

abbrev at_sum : ℕ → ℕ → Bool → Luhn
at_sum sum num_digits is_odd = record { sum = sum; num_digits = num_digits; is_odd = is_odd }

module _ (ignore_whitespace : Bool) where
  luhn_loop-append :
      (pre post : List ℕ) (l : Luhn)
      → luhn_loop ignore_whitespace (pre ++ post) l
        ≡ (luhn_loop ignore_whitespace post l >>= luhn_loop ignore_whitespace pre)
  unfolding luhn_loop
  luhn_loop-append [] post l = elim (Option-cases (luhn_loop ignore_whitespace post l)) [
    | inl e ↦ rw (e, ◌>>=◌) refl
    | inr (r, e) ↦ rw (e, ◌>>=◌) refl
  ]
  luhn_loop-append (c ∷ pre) post l =
      let on = luhn_loop-append pre post l in
      elim (Option-cases (luhn_loop ignore_whitespace post l)) [
        | inl e ↦ rw (on, e, ◌>>=◌) refl
        | inr (r, e) ↦ rw (on, e, ◌>>=◌) refl
      ]

  -- What a text does to the variables: it is refused, or it adds a number to the sum.
  abbrev Adds : List ℕ → ℕ → Bool → Type 0
  Adds input n odd =
      ((s : ℕ) → luhn_loop ignore_whitespace input (at_sum s n odd) ≡ none)
      ⊎ ((t : ℕ) × (n' : ℕ) × (odd' : Bool) × (n ≤ n')
          × ((s : ℕ)
              → luhn_loop ignore_whitespace input (at_sum s n odd) ≡ some (at_sum (s + t) n' odd')))

  luhn_step-cases :
      (c : ℕ)
      → ((l : Luhn) → luhn_step ignore_whitespace c l ≡ some l)
        ⊎ (((l : Luhn) → luhn_step ignore_whitespace c l ≡ none)
            ⊎ ((l : Luhn) → luhn_step ignore_whitespace c l ≡ some (add_digit (c - 48) l)))
  unfolding luhn_step
  luhn_step-cases c = elim (Bool-cases (ignore_whitespace && c == 32)) [
    | inl e ↦ inl (λ l. rw e refl)
    | inr e ↦ elim (Bool-cases (is_ascii_digit c)) [
      | inl d ↦ inr (inr (λ l. rw (e, d) refl))
      | inr d ↦ inr (inl (λ l. rw (e, d) refl))
    ]
  ]

  luhn_loop-Adds : (input : List ℕ) (n : ℕ) (odd : Bool) → Adds input n odd
  unfolding luhn_loop add_digit
  luhn_loop-Adds [] n odd =
      inr (0, n, odd, omega arith, λ s. ap (λ k. some (at_sum k n odd)) (no_more s))
  luhn_loop-Adds (c ∷ input) n odd = elim (luhn_loop-Adds input n odd) [
    | inl e ↦ inl (λ s. rw (e s, ◌>>=◌) refl)
    | inr (t, n', odd', le, e) ↦ elim (luhn_step-cases c) [
      | inl same ↦ inr (t, n', odd', le, λ s. rw (e s, ◌>>=◌) (same _))
      | inr (inl off) ↦ inl (λ s. rw (e s, ◌>>=◌) (off _))
      | inr (inr digit) ↦ inr (
        t + weight odd' (c - 48),
        n' + 1,
        not odd',
        omega arith,
        λ s.
            rw (e s, ◌>>=◌)
              (digit (at_sum (s + t) n' odd')
                ∙ ap (λ k. some (at_sum k (n' + 1) (not odd')))
                    (regroup s t (weight odd' (c - 48)))),
      )
    ]
  ]

  digit_step :
      (c : ℕ) (l : Luhn)
      → is_ascii_digit c ≡ true
      → luhn_step ignore_whitespace c l ≡ some (add_digit (c - 48) l)
  unfolding luhn_step
  digit_step c l d =
      let no_space : (ignore_whitespace && c == 32) ≡ false = ground arith in rw (no_space, d) refl

  -- Where a digit of the text is another, the sum changes by the difference of their weights.
  abbrev DigitAdds : List ℕ → List ℕ → Type 0
  DigitAdds pre post =
      ((c : ℕ)
        → is_ascii_digit c ≡ true
        → luhn_loop ignore_whitespace (pre ++ c ∷ post) start_luhn ≡ none)
      ⊎ ((t : ℕ) × (odd : Bool) × (n : ℕ) × ((c : ℕ)
            → is_ascii_digit c ≡ true
            → (l : Luhn) × (luhn_loop ignore_whitespace (pre ++ c ∷ post) start_luhn ≡ some l)
              × (l.sum ≡ t + weight odd (c - 48))
              × (l.num_digits ≡ n)))

  luhn_loop-DigitAdds : (pre post : List ℕ) → DigitAdds pre post
  unfolding luhn_loop add_digit
  luhn_loop-DigitAdds pre post = elim (luhn_loop-Adds post 0 true) [
    | inl e ↦ inl (λ c d. luhn_loop-append pre (c ∷ post) start_luhn ∙ rw (e 0, ◌>>=◌) refl)
    | inr (t, n, odd, _, e) ↦ elim (luhn_loop-Adds pre (n + 1) (not odd)) [
      | inl f ↦ inl (λ c d.
          luhn_loop-append pre (c ∷ post) start_luhn
          ∙ rw (e 0, digit_step c (at_sum (0 + t) n odd) d, ◌>>=◌) (f _))
      | inr (u, n', odd', _, f) ↦ inr (
        t + u,
        odd,
        n',
        λ c d. (
          at_sum (0 + t + weight odd (c - 48) + u) n' odd',
          luhn_loop-append pre (c ∷ post) start_luhn
              ∙ rw (e 0, digit_step c (at_sum (0 + t) n odd) d, ◌>>=◌) (f _),
          omega arith,
          refl,
        ),
      )
    ]
  ]

  -- One wrong digit is found out: where a text has a right checksum, it has a wrong one once any of its
  -- digits is replaced by another, with white space ignored or not.
  pub verify_luhn_checksum-digit :
      (pre post : List ℕ) (c d : ℕ)
      → is_ascii_digit c ≡ true
      → is_ascii_digit d ≡ true
      → c ≢ d
      → verify_luhn_checksum (pre ++ c ∷ post) ignore_whitespace ≡ true
      → verify_luhn_checksum (pre ++ d ∷ post) ignore_whitespace ≡ false
  unfolding verify_luhn_checksum
  verify_luhn_checksum-digit pre post c d hc hd ne right = elim (luhn_loop-DigitAdds pre post) [
    | inl e ↦ rw (e d hd, verify_luhn_checksum) refl
    | inr (t, odd, n, adds) ↦
        let (l, runs, sum, digits) = adds c hc in
        let (m, runs', sum', digits') = adds d hd in
        let passed : (ltb 1 l.num_digits && l.sum % 10 == 0) ≡ true =
          rw (runs, verify_luhn_checksum) at right in
        let differ =
          weight_injective odd (c - 48) (d - 48) (ground arith) (ground arith)
            (λ e. ne (ground (arith, e))) in
        rw (runs', verify_luhn_checksum)
          (ground (arith, passed, sum, sum', digits, digits', differ))
  ]
