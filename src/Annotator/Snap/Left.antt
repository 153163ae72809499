-- ===== src/Annotator/Snap/Left.antt =====
-- A selection of white space goes to the last codepoint before it that is none.
use external_libtextclassifi.Prelude.{
  ℕ, zero, suc, ◌+◌, ◌-◌, ◌<◌, ◌≤◌, pos, true, false, ◌≡◌, refl, ◌⊎◌, inl, inr, arith, Bool-cases,
  subst, sym,
}
use external_libtextclassifi.Text.{UnicodeText, UniLib, at}
use external_libtextclassifi.Annotator.Snap.{
  all_whitespace, move_left, snap_left_if_whitespace_selection,
}

module _ (lib : UniLib) (text : UnicodeText) where
  -- All codepoints from a position up to another are white space.
  abbrev pub IsWhite : ℕ → ℕ → Type 0
  IsWhite from to = (k : ℕ) → from ≤ k → k < to → lib.is_whitespace (at text k) ≡ true

  -- Some codepoint there is no white space.
  abbrev pub HasText : ℕ → ℕ → Type 0
  HasText from to = (k : ℕ) × (from ≤ k) × (k < to) × (lib.is_whitespace (at text k) ≡ false)

  at_or_after : (i k : ℕ) → i ≤ k → (k ≡ i) ⊎ (suc i ≤ k)
  at_or_after i k h = omega arith

  IsWhite-cons :
      (i to : ℕ) → lib.is_whitespace (at text i) ≡ true → IsWhite (suc i) to → IsWhite i to
  IsWhite-cons i to e h k lo hi = elim (at_or_after i k lo) [
    | inl same ↦ subst (λ j. lib.is_whitespace (at text j) ≡ true) (sym same) e
    | inr later ↦ h k later hi
  ]

  all_whitespace-cases :
      (n i : ℕ)
      → ((all_whitespace lib text n i ≡ true) × IsWhite i (i + n))
        ⊎ ((all_whitespace lib text n i ≡ false) × HasText i (i + n))
  unfolding all_whitespace
  all_whitespace-cases zero i = inl (refl, λ k lo hi. absurd (omega arith))
  all_whitespace-cases (suc n) i = elim (Bool-cases (lib.is_whitespace (at text i))) [
    | inl e ↦ elim (all_whitespace-cases n (suc i)) [
      | inl (on, white) ↦ inl (
        rw (e, all_whitespace) on,
        IsWhite-cons i (i + suc n) e (λ k lo hi. white k lo (omega arith)),
      )
      | inr (off, (k, lo, hi, h)) ↦
          inr (rw (e, all_whitespace) off, (k, omega arith, omega arith, h))
    ]
    | inr e ↦ inr (rw (e, all_whitespace) refl, (i, omega arith, omega arith, e))
  ]

  -- The loop stops at the start of the text, or at the last codepoint that is no white space.
  move_left_stops :
      (i : ℕ)
      → (move_left lib text i ≤ i)
        × IsWhite (suc (move_left lib text i)) (suc i)
        × ((lib.is_whitespace (at text (move_left lib text i)) ≡ false)
            ⊎ ((move_left lib text i ≡ 0) × (lib.is_whitespace (at text 0) ≡ true)))
  unfolding move_left
  move_left_stops zero = (
    omega arith,
    λ k lo hi. absurd (omega arith),
    elim (Bool-cases (lib.is_whitespace (at text 0))) [ inl e ↦ inr (refl, e) | inr e ↦ inl e ],
  )
  move_left_stops (suc i) = elim (Bool-cases (lib.is_whitespace (at text (suc i)))) [
    | inl e ↦
        let (le, white, stop) = move_left_stops i in
        rw (e, move_left)
          (
            omega arith,
            λ k lo hi. elim (at_or_before i k hi) [
              | inl same ↦ subst (λ j. lib.is_whitespace (at text j) ≡ true) (sym same) e
              | inr before ↦ white k lo before
            ],
            stop,
          )
    | inr e ↦ rw (e, move_left) (omega arith, λ k lo hi. absurd (omega arith), inl e)
  ]
    where
      at_or_before : (i k : ℕ) → k < suc (suc i) → (k ≡ suc i) ⊎ (k < suc i)
      at_or_before i k h = omega arith

  same_or_before : (m i : ℕ) → m ≤ i → (m ≡ i) ⊎ (m < i)
  same_or_before m i h = omega arith

  move_left_lt :
      (first second : ℕ)
      → first < second
      → IsWhite first (first + (second - first))
      → lib.is_whitespace (at text (move_left lib text first)) ≡ false
      → move_left lib text first < first
  move_left_lt first second lt white h =
      elim (same_or_before (move_left lib text first) first (move_left_stops first).0) [
        | inr before ↦ before
        | inl same ↦
            let there : lib.is_whitespace (at text first) ≡ true =
              white first (omega arith) (omega arith) in
            let here : lib.is_whitespace (at text first) ≡ false =
              subst (λ j. lib.is_whitespace (at text j) ≡ false) same h in
            absurd (ground arith)
      ]

  -- For a span that is not empty: a selection with some codepoint that is no
  -- white space stays as it is. A selection of white space alone becomes the last codepoint before it
  -- that is none, if there is one, with nothing but white space between; otherwise all codepoints up to
  -- its end are white space, and it stays as it is.
  pub snap_left_if_whitespace_selection-Outcome :
      (first second : ℕ)
      → first < second
      → (HasText first second
          × (snap_left_if_whitespace_selection lib text
                (record { first = pos first; second = pos second })
              ≡ record { first = pos first; second = pos second }))
        ⊎ (((j : ℕ) × (j < first)
              × (lib.is_whitespace (at text j) ≡ false)
              × IsWhite (suc j) second
              × (snap_left_if_whitespace_selection lib text
                    (record { first = pos first; second = pos second })
                  ≡ record { first = pos j; second = pos (suc j) }))
            ⊎ (IsWhite 0 second
                × (snap_left_if_whitespace_selection lib text
                      (record { first = pos first; second = pos second })
                    ≡ record { first = pos first; second = pos second })))
  unfolding snap_left_if_whitespace_selection
  snap_left_if_whitespace_selection-Outcome first second lt =
      elim (all_whitespace-cases (second - first) first) [
        | inr (off, (k, lo, hi, h)) ↦
            inl ((k, lo, omega arith, h), rw (off, snap_left_if_whitespace_selection) refl)
        | inl (all, white) ↦
            let (le, left, stop) = move_left_stops first in
            let joined : IsWhite (suc (move_left lib text first)) second = λ k lo hi.
              elim (before_or_after first k) [
                | inl before ↦ left k lo before
                | inr after ↦ white k after (omega arith)
              ] in
            elim stop [
              | inl text_there ↦
                  let it = move_left lib text first in
                  inr (
                    inl (
                      it,
                      move_left_lt first second lt white text_there,
                      text_there,
                      joined,
                      rw (all, text_there, snap_left_if_whitespace_selection) refl,
                    ))
              | inr (zero_there, white_there) ↦
                  let stuck : lib.is_whitespace (at text (move_left lib text first)) ≡ true =
                    subst (λ j. lib.is_whitespace (at text j) ≡ true) (sym zero_there)
                      white_there in
                  inr (
                    inr (
                      IsWhite-cons 0 second white_there
                          (subst (λ j. IsWhite (suc j) second) zero_there joined),
                      rw (all, stuck, snap_left_if_whitespace_selection) refl,
                    ))
            ]
      ]
    where
      before_or_after : (i k : ℕ) → (k < suc i) ⊎ (i ≤ k)
      before_or_after i k = omega arith
