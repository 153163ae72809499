-- ===== src/Annotator/Chunks/Marks.antt =====
-- The array `token_used` of `ModelChunk`: what the marking loop sets and what the test reads.
use external_libtextclassifi.Prelude.{
  ℕ, zero, suc, ◌+◌, ◌≤◌, ◌<◌, Bool, true, false, List, [], ◌∷◌, ◌≡◌, ◌≢◌, refl, sym, ap, ◌∙◌, ◌⊎◌,
  inl, inr, arith, Bool-cases, length, get_or, set, length-set, replicate, subst,
}
use external_libtextclassifi.Annotator.Chunks.{any_used, mark_used}

get_or-set_self :
    (used : List Bool) (i : ℕ) → i < length used → get_or (set used i true) i false ≡ true
get_or-set_self [] i h = absurd (omega arith)
get_or-set_self (u ∷ used) zero h = refl
get_or-set_self (u ∷ used) (suc i) h = get_or-set_self used i (omega arith)

get_or-set_ne :
    (used : List Bool) (i k : ℕ) → i ≢ k → get_or (set used i true) k false ≡ get_or used k false
get_or-set_ne [] i k h = refl
get_or-set_ne (u ∷ used) zero zero h = absurd (h refl)
get_or-set_ne (u ∷ used) zero (suc k) h = refl
get_or-set_ne (u ∷ used) (suc i) zero h = refl
get_or-set_ne (u ∷ used) (suc i) (suc k) h = get_or-set_ne used i k (λ e. h (ap suc e))

eq_or_ne : (i k : ℕ) → (i ≡ k) ⊎ (i ≢ k)
eq_or_ne i k = elim (lt_or_eq_or_gt i k) [
  | inl lt ↦ inr (λ e. absurd (omega arith))
  | inr (inl e) ↦ inl e
  | inr (inr gt) ↦ inr (λ e. absurd (omega arith))
]
  where
    lt_or_eq_or_gt : (i k : ℕ) → (i < k) ⊎ ((i ≡ k) ⊎ (k < i))
    lt_or_eq_or_gt i k = omega arith

pub length-mark_used : (used : List Bool) (n i : ℕ) → length (mark_used used n i) ≡ length used
unfolding mark_used
length-mark_used used zero i = refl
length-mark_used used (suc n) i =
    length-mark_used (set used i true) n (suc i) ∙ length-set used i true

-- A mark stays.
pub mark_used_keeps :
    (used : List Bool) (n i k : ℕ)
    → get_or used k false ≡ true
    → get_or (mark_used used n i) k false ≡ true
unfolding mark_used
mark_used_keeps used zero i k h = h
mark_used_keeps used (suc n) i k h =
    mark_used_keeps (set used i true) n (suc i) k (kept (eq_or_ne i k))
  where
    kept : (i ≡ k) ⊎ (i ≢ k) → get_or (set used i true) k false ≡ true
    kept (inl e) = set_here used i k e h
      where
        set_here :
            (used : List Bool) (i k : ℕ)
            → i ≡ k
            → get_or used k false ≡ true
            → get_or (set used i true) k false ≡ true
        set_here [] i k e h = h
        set_here (u ∷ used) zero zero e h = refl
        set_here (u ∷ used) zero (suc k) e h = h
        set_here (u ∷ used) (suc i) zero e h = h
        set_here (u ∷ used) (suc i) (suc k) e h = set_here used i k (omega arith) h
    kept (inr ne) = get_or-set_ne used i k ne ∙ h

-- The loop marks each token of its range that the array has.
pub mark_used_marks :
    (used : List Bool) (n i k : ℕ)
    → i ≤ k
    → k < i + n
    → k < length used
    → get_or (mark_used used n i) k false ≡ true
unfolding mark_used
mark_used_marks used zero i k lo hi h = absurd (omega arith)
mark_used_marks used (suc n) i k lo hi h = elim (eq_or_ne i k) [
  | inl e ↦ mark_used_keeps (set used i true) n (suc i) k (
      subst (λ j. get_or (set used i true) j false ≡ true) e (get_or-set_self used i (omega arith)))
  | inr ne ↦
      mark_used_marks (set used i true) n (suc i) k (omega arith) (omega arith)
        (omega (arith, length-set used i true))
]

-- Only tokens of the range get a mark.
pub mark_used_only :
    (used : List Bool) (n i k : ℕ)
    → get_or (mark_used used n i) k false ≡ true
    → (get_or used k false ≡ true) ⊎ ((i ≤ k) × (k < i + n))
unfolding mark_used
mark_used_only used zero i k h = inl h
mark_used_only used (suc n) i k h = elim (mark_used_only (set used i true) n (suc i) k h) [
  | inl old ↦ elim (eq_or_ne i k) [
    | inl e ↦ inr (omega arith, omega arith)
    | inr ne ↦ inl (sym (get_or-set_ne used i k ne) ∙ old)
  ]
  | inr new ↦ inr (omega arith, omega arith)
]

-- The test finds a mark if there is one in the range, and only then.
pub any_used_sound :
    (used : List Bool) (n i : ℕ)
    → any_used used n i ≡ true
    → (k : ℕ) × ((i ≤ k) × (k < i + n)) × (get_or used k false ≡ true)
unfolding any_used
any_used_sound used zero i h = cc
any_used_sound used (suc n) i h = elim (Bool-cases (get_or used i false)) [
  | inl e ↦ (i, (omega arith, omega arith), e)
  | inr e ↦
      let rest : any_used used n (suc i) ≡ true = ground arith in
      let (k, range, marked) = any_used_sound used n (suc i) rest in
      (k, (omega (arith, range), omega (arith, range)), marked)
]

pub any_used_clear :
    (used : List Bool) (n i k : ℕ)
    → any_used used n i ≡ false
    → i ≤ k
    → k < i + n
    → get_or used k false ≡ false
unfolding any_used
any_used_clear used zero i k h lo hi = absurd (omega arith)
any_used_clear used (suc n) i k h lo hi = elim (eq_or_ne i k) [
  | inl e ↦
      let first : get_or used i false ≡ false = ground arith in
      subst (λ j. get_or used j false ≡ false) e first
  | inr ne ↦
      let rest : any_used used n (suc i) ≡ false = ground arith in
      any_used_clear used n (suc i) k rest (omega arith) (omega arith)
]

pub get_or-replicate : (n k : ℕ) → get_or (replicate n false) k false ≡ false
get_or-replicate zero k = refl
get_or-replicate (suc n) zero = refl
get_or-replicate (suc n) (suc k) = get_or-replicate n k
