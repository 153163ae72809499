-- ===== src/Tokenizer/Ranges/Lookup.antt =====
-- In sorted disjoint ranges the lookup finds the range that holds the codepoint.
use external_libtextclassifi.Prelude.{
  ℕ, ◌≤◌, ◌<◌, Bool, true, false, List, [], ◌∷◌, ◌≡◌, refl, ap, ◌↔◌, arith, inl, inr, All, Any,
  Bool-cases, leb,
}
use external_libtextclassifi.Span.{Iterator, lower_bound}
use external_libtextclassifi.Tokenizer.Ranges.{CodepointRange, range_holds, is_codepoint_in_ranges}

-- Sorted by the starts, with no overlap. A range may be empty.
abbrev pub AreRanges : List CodepointRange → Type 0
AreRanges [] = Unit
AreRanges (r ∷ rs) = (r.start ≤ r.end) × All (λ s. r.end ≤ s.start) rs × AreRanges rs

abbrev pub Holds : ℕ → CodepointRange → Type 0
Holds c r = (r.start ≤ c) × (c < r.end)

abbrev head_holds : ℕ → List CodepointRange → Bool
head_holds c [] = false
head_holds c (it ∷ _) = range_holds c it

abbrev found_in : ℕ → List CodepointRange → List CodepointRange → Bool
found_in c before rs =
    head_holds c (lower_bound (λ (r : CodepointRange). leb r.end c) before rs).rest

found_past :
    (c : ℕ) (r : CodepointRange) (before rs : List CodepointRange)
    → leb r.end c ≡ true
    → found_in c before (r ∷ rs) ≡ found_in c (r ∷ before) rs
unfolding lower_bound
found_past c r before rs h =
    let less = λ (s : CodepointRange). leb s.end c in
    let on : lower_bound less before (r ∷ rs) ≡ lower_bound less (r ∷ before) rs = rw h in
    ap (λ (it : Iterator CodepointRange). head_holds c it.rest) on

found_here :
    (c : ℕ) (r : CodepointRange) (before rs : List CodepointRange)
    → leb r.end c ≡ false
    → found_in c before (r ∷ rs) ≡ range_holds c r
unfolding lower_bound
found_here c r before rs h =
    let stop : lower_bound (λ (r : CodepointRange). leb r.end c) before (r ∷ rs)
        ≡ record { before = before; rest = r ∷ rs } =
      rw h in
    ap (λ (it : Iterator CodepointRange). head_holds c it.rest) stop

not_later :
    (c e : ℕ) (rs : List CodepointRange) → All (λ s. e ≤ s.start) rs → c < e → Any (Holds c) rs → ⊥
not_later c e [] h lt any = any
not_later c e (r ∷ rs) (h, hs) lt (inl holds) = omega arith
not_later c e (r ∷ rs) (h, hs) lt (inr any) = not_later c e rs hs lt any

Holds-iff : (c : ℕ) (r : CodepointRange) → (range_holds c r ≡ true) ↔ Holds c r
Holds-iff c r = ground arith

found_in-Any :
    (c : ℕ) (before rs : List CodepointRange)
    → AreRanges rs
    → (found_in c before rs ≡ true) ↔ Any (Holds c) rs
unfolding lower_bound
found_in-Any c before [] ok = ((λ h. cc), (λ h. absurd h))
found_in-Any c before (r ∷ rs) (_, later, ok) = elim (Bool-cases (leb r.end c)) [
  | inl past ↦
      let on = found_in-Any c (r ∷ before) rs ok in
      rw (found_past c r before rs past) (
        (λ h. inr (on.0 h)),
        λ any. elim any [ inl holds ↦ absurd (ground arith) | inr more ↦ on.1 more ],
      )
  | inr here ↦ rw (found_here c r before rs here) (
    (λ h. inl ((Holds-iff c r).0 h)),
    λ any. elim any [
      | inl holds ↦ (Holds-iff c r).1 holds
      | inr more ↦ absurd (not_later c r.end rs later (ground arith) more)
    ],
  )
]

is_codepoint_in_ranges-found_in :
    (c : ℕ) (rs : List CodepointRange) → is_codepoint_in_ranges c rs ≡ found_in c [] rs
unfolding is_codepoint_in_ranges
is_codepoint_in_ranges-found_in c rs =
    same (lower_bound (λ (r : CodepointRange). leb r.end c) [] rs).rest
  where
    same :
        (l : List CodepointRange)
        → (elim l [ [] ↦ false | it ∷ _ ↦ range_holds c it ]) ≡ head_holds c l
    same [] = refl
    same (r ∷ l) = refl

-- If the ranges are sorted and disjoint, the lookup succeeds exactly if some range holds the
-- codepoint.
pub is_codepoint_in_ranges-Any :
    (c : ℕ) (rs : List CodepointRange)
    → AreRanges rs
    → (is_codepoint_in_ranges c rs ≡ true) ↔ Any (Holds c) rs
is_codepoint_in_ranges-Any c rs ok = rw is_codepoint_in_ranges-found_in (found_in-Any c [] rs ok)
