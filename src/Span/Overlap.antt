-- ===== src/Span/Overlap.antt =====
-- In a set of disjoint spans the two neighbours decide whether a span overlaps any of them.
use external_libtextclassifi.Prelude.{
  ℕ, true, false, List, [], ◌∷◌, ◌≡◌, refl, ◌⊎◌, inl, inr, arith, All, Any, All-map, Bool-cases,
  ◌≤ℤ◌, ◌<ℤ◌,
}
use external_libtextclassifi.Span.{
  CodepointSpan, spans_overlap, lower_bound, starts_before, left_conflict, neighbour_conflict,
  does_candidate_conflict, set_insert,
}

-- A span that holds at least one codepoint, or covers the gap between two.
abbrev pub IsNonEmpty : CodepointSpan → Type 0
IsNonEmpty s = s.first <ℤ s.second

abbrev pub Disjoint : CodepointSpan → CodepointSpan → Type 0
Disjoint a b = spans_overlap a b ≡ false

pub Disjoint-symm : (a b : CodepointSpan) → Disjoint a b → Disjoint b a
unfolding spans_overlap
Disjoint-symm a b h = ground arith

pub Disjoint-of_le : (a b : CodepointSpan) → a.second ≤ℤ b.first → Disjoint a b
unfolding spans_overlap
Disjoint-of_le a b h = ground arith

module _ (span_at : ℕ → CodepointSpan) where
  -- Sorted by starts, with no overlap, and no span is empty.
  abbrev pub IsRow : List ℕ → Type 0
  IsRow [] = Unit
  IsRow (e ∷ es) =
      IsNonEmpty (span_at e) × All (λ c. (span_at e).second ≤ℤ (span_at c).first) es × IsRow es

  -- The element on the left ends before all that follow, and starts before the considered span.
  abbrev LeftOf : ℕ → List ℕ → List ℕ → Type 0
  LeftOf x [] es = Unit
  LeftOf x (p ∷ _) es =
      ((span_at p).first <ℤ (span_at x).first)
      × All (λ c. (span_at p).second ≤ℤ (span_at c).first) es

  past_left :
      (x p e : ℕ)
      → (span_at p).second ≤ℤ (span_at e).first
      → (span_at e).first <ℤ (span_at x).first
      → Disjoint (span_at x) (span_at p)
  unfolding spans_overlap
  past_left x p e h k = ground arith

  left_conflict-past :
      (x e : ℕ) (before es : List ℕ)
      → LeftOf x before (e ∷ es)
      → (span_at e).first <ℤ (span_at x).first
      → left_conflict span_at x before ≡ false
  unfolding left_conflict
  left_conflict-past x e [] es h k = refl
  left_conflict-past x e (p ∷ _) es h k = past_left x p e h.1.0 k

  Disjoint-later :
      (x e c : ℕ)
      → (span_at x).first ≤ℤ (span_at e).first
      → IsNonEmpty (span_at e)
      → Disjoint (span_at x) (span_at e)
      → (span_at e).second ≤ℤ (span_at c).first
      → Disjoint (span_at x) (span_at c)
  unfolding spans_overlap
  Disjoint-later x e c h n d k = ground arith

  not-starts_before :
      (e x : ℕ) → starts_before span_at e x ≡ false → (span_at x).first ≤ℤ (span_at e).first
  not-starts_before e x h = ground arith

  starts_before-lt :
      (e x : ℕ) → starts_before span_at e x ≡ true → (span_at e).first <ℤ (span_at x).first
  starts_before-lt e x h = ground arith

  at_stop :
      (x e : ℕ) (before es : List ℕ)
      → neighbour_conflict span_at x (record { before = before; rest = e ∷ es }) ≡ false
      → Disjoint (span_at x) (span_at e) × (left_conflict span_at x before ≡ false)
  unfolding neighbour_conflict
  at_stop x e before es h = ground arith

  neighbour_sound :
      (x : ℕ) (before es : List ℕ)
      → IsRow es
      → LeftOf x before es
      → neighbour_conflict span_at x (lower_bound (λ c. starts_before span_at c x) before es)
        ≡ false
      → All (λ c. Disjoint (span_at x) (span_at c)) es × (left_conflict span_at x before ≡ false)
  unfolding lower_bound left_conflict
  neighbour_sound x before [] row left h = (tt, unfold neighbour_conflict in h)
  neighbour_sound x before (e ∷ es) row left h = elim (Bool-cases (starts_before span_at e x)) [
    | inl less ↦
        let lt = starts_before-lt e x less in
        let on = neighbour_sound x (e ∷ before) es row.2 (lt, row.1) (rw less at h) in
        ((on.1, on.0), left_conflict-past x e before es left lt)
    | inr stop ↦
        let here = at_stop x e before es (rw stop at h) in
        let start = not-starts_before e x stop in
        ((here.0, All-map _ _ (λ c k. Disjoint-later x e c start row.0 here.0 k) es row.1), here.1)
  ]

  -- The neighbour test misses no overlap.
  pub does_candidate_conflict_sound :
      (x : ℕ) (chosen : List ℕ)
      → IsRow chosen
      → does_candidate_conflict span_at x chosen ≡ false
      → All (λ c. Disjoint (span_at x) (span_at c)) chosen
  unfolding does_candidate_conflict
  does_candidate_conflict_sound x [] row h = tt
  does_candidate_conflict_sound x (e ∷ es) row h = (neighbour_sound x [] (e ∷ es) row tt h).0

  apart :
      (x e : ℕ)
      → IsNonEmpty (span_at x)
      → IsNonEmpty (span_at e)
      → Disjoint (span_at x) (span_at e)
      → (span_at e).first <ℤ (span_at x).first
      → (span_at e).second ≤ℤ (span_at x).first
  unfolding spans_overlap
  apart x e hx he d k = ground arith

  pub set_insert-All :
      (P : ℕ → Type 0) (x : ℕ) (es : List ℕ) → P x → All P es → All P (set_insert span_at x es)
  unfolding set_insert
  set_insert-All P x [] h hs = (h, tt)
  set_insert-All P x (e ∷ es) h (he, hs) = elim (Bool-cases (starts_before span_at e x)) [
    | inl less ↦ rw less (he, set_insert-All P x es h hs)
    | inr stop ↦ rw stop (elim (Bool-cases (starts_before span_at x e)) [
      | inl more ↦ rw more (h, (he, hs))
      | inr same ↦ rw same (he, hs)
    ])
  ]

  same_start :
      (x e : ℕ)
      → starts_before span_at e x ≡ false
      → starts_before span_at x e ≡ false
      → IsNonEmpty (span_at x)
      → IsNonEmpty (span_at e)
      → Disjoint (span_at x) (span_at e)
      → ⊥
  unfolding spans_overlap
  same_start x e h k hx he d = ground arith

  before_row :
      (x e : ℕ)
      → starts_before span_at x e ≡ true
      → IsNonEmpty (span_at x)
      → IsNonEmpty (span_at e)
      → Disjoint (span_at x) (span_at e)
      → (span_at x).second ≤ℤ (span_at e).first
  unfolding spans_overlap
  before_row x e h hx he d = ground arith

  later_row :
      (x e c : ℕ)
      → IsNonEmpty (span_at e)
      → (span_at x).second ≤ℤ (span_at e).first
      → (span_at e).second ≤ℤ (span_at c).first
      → (span_at x).second ≤ℤ (span_at c).first
  later_row x e c n h k = omega arith

  -- A set of disjoint spans stays one, when a span that overlaps none of them is inserted.
  pub set_insert-IsRow :
      (x : ℕ) (es : List ℕ)
      → IsNonEmpty (span_at x)
      → IsRow es
      → All (λ c. Disjoint (span_at x) (span_at c)) es
      → IsRow (set_insert span_at x es)
  unfolding set_insert
  set_insert-IsRow x [] hx row d = (hx, tt, tt)
  set_insert-IsRow x (e ∷ es) hx row (de, ds) = elim (Bool-cases (starts_before span_at e x)) [
    | inl less ↦
        let end = apart x e hx row.0 de (starts_before-lt e x less) in
        rw less (
          row.0,
          set_insert-All (λ c. (span_at e).second ≤ℤ (span_at c).first) x es end row.1,
          set_insert-IsRow x es hx row.2 ds,
        )
    | inr stop ↦ rw stop (elim (Bool-cases (starts_before span_at x e)) [
      | inl more ↦
          let start = before_row x e more hx row.0 de in
          rw more (hx, (start, All-map _ _ (λ c k. later_row x e c row.0 start k) es row.1), row)
      | inr same ↦ absurd (same_start x e stop same hx row.0 de)
    ])
  ]

  -- Then it is really added: what holds of the new set holds of the span and of the old set.
  pub All-set_insert :
      (P : ℕ → Type 0) (x : ℕ) (es : List ℕ)
      → IsNonEmpty (span_at x)
      → IsRow es
      → All (λ c. Disjoint (span_at x) (span_at c)) es
      → All P (set_insert span_at x es)
      → P x × All P es
  unfolding set_insert
  All-set_insert P x [] hx row d h = h
  All-set_insert P x (e ∷ es) hx row (de, ds) h = elim (Bool-cases (starts_before span_at e x)) [
    | inl less ↦
        let (he, hs) = rw less at h in
        let (px, ps) = All-set_insert P x es hx row.2 ds hs in (px, (he, ps))
    | inr stop ↦ elim (Bool-cases (starts_before span_at x e)) [
      | inl more ↦ rw (stop, more) at h
      | inr same ↦ absurd (same_start x e stop same hx row.0 de)
    ]
  ]

  conflict-left :
      (x : ℕ) (before : List ℕ)
      → left_conflict span_at x before ≡ true
      → Any (λ c. spans_overlap (span_at x) (span_at c) ≡ true) before
  unfolding left_conflict
  conflict-left x [] h = cc
  conflict-left x (p ∷ before) h = inl h

  conflict_at_stop :
      (x e : ℕ) (before es : List ℕ)
      → neighbour_conflict span_at x (record { before = before; rest = e ∷ es }) ≡ true
      → (spans_overlap (span_at x) (span_at e) ≡ true) ⊎ (left_conflict span_at x before ≡ true)
  unfolding neighbour_conflict
  conflict_at_stop x e before es h = ground arith

  neighbour_complete :
      (x : ℕ) (before es : List ℕ)
      → neighbour_conflict span_at x (lower_bound (λ c. starts_before span_at c x) before es) ≡ true
      → Any (λ c. spans_overlap (span_at x) (span_at c) ≡ true) before
        ⊎ Any (λ c. spans_overlap (span_at x) (span_at c) ≡ true) es
  unfolding lower_bound
  neighbour_complete x before [] h = inl (conflict-left x before (unfold neighbour_conflict in h))
  neighbour_complete x before (e ∷ es) h = elim (Bool-cases (starts_before span_at e x)) [
    | inl less ↦ elim (neighbour_complete x (e ∷ before) es (rw less at h)) [
      | inl (inl o) ↦ inr (inl o)
      | inl (inr o) ↦ inl o
      | inr o ↦ inr (inr o)
    ]
    | inr stop ↦ elim (conflict_at_stop x e before es (rw stop at h)) [
      | inl o ↦ inr (inl o)
      | inr o ↦ inl (conflict-left x before o)
    ]
  ]

  -- A conflict that the test reports is a real one.
  pub does_candidate_conflict_complete :
      (x : ℕ) (chosen : List ℕ)
      → does_candidate_conflict span_at x chosen ≡ true
      → Any (λ c. spans_overlap (span_at x) (span_at c) ≡ true) chosen
  unfolding does_candidate_conflict
  does_candidate_conflict_complete x [] h = cc
  does_candidate_conflict_complete x (e ∷ es) h = elim (neighbour_complete x [] (e ∷ es) h) [
    | inl none_left ↦ absurd none_left
    | inr o ↦ o
  ]
