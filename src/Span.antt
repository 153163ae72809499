-- ===== src/Span.antt =====
-- native/annotator/types.h: spans of codepoints and of tokens, and the neighbour test on a set of spans that
-- is sorted by its starts. An index is a C++ `int`, and -1 (`kInvalidIndex`) is a value of it.
pub mod Overlap
use external_libtextclassifi.Prelude.{
  ℕ, ℤ, pos, negsuc, Bool, true, false, ◌&&◌, List, [], ◌∷◌, ltb_ℤ, leb_ℤ, if◌then◌else◌,
}

abbrev pub invalid_index : ℤ
invalid_index = negsuc 0

pub record CodepointSpan : Type 0 where
  pub first : ℤ
  pub second : ℤ

unfoldable pub spans_overlap : CodepointSpan → CodepointSpan → Bool
spans_overlap a b = ltb_ℤ a.first b.second && ltb_ℤ b.first a.second

unfoldable pub valid_non_empty_span : CodepointSpan → Bool
valid_non_empty_span span =
    ltb_ℤ span.first span.second && leb_ℤ (pos 0) span.first && leb_ℤ (pos 0) span.second

-- An iterator into a `std::set`: the elements before it, the nearest first, and those from it on.
pub record Iterator {ℓ} (A : Type ℓ) : Type ℓ where
  pub before : List A
  pub rest : List A

-- `lower_bound` of a set: it moves on while the element is less than the key.
unfoldable pub lower_bound {ℓ} : {A : Type ℓ} → (A → Bool) → List A → List A → Iterator A
lower_bound less before [] = record { before = before; rest = [] }
lower_bound less before (x ∷ xs) =
    let on = lower_bound less (x ∷ before) xs in
    if less x then on else record { before = before; rest = x ∷ xs }

-- A candidate is its index, and `span_at i` is `candidates[i].span`.
module _ (span_at : ℕ → CodepointSpan) where
  abbrev pub starts_before : ℕ → ℕ → Bool
  starts_before a b = ltb_ℤ (span_at a).first (span_at b).first

  -- The test against the element on the left, if there is one.
  unfoldable pub left_conflict : ℕ → List ℕ → Bool
  left_conflict considered [] = false
  left_conflict considered (e ∷ before) = spans_overlap (span_at considered) (span_at e)

  -- The element at the iterator, if it is not the end, and then the one on its left.
  unfoldable pub neighbour_conflict : ℕ → Iterator ℕ → Bool
  unfolding left_conflict
  neighbour_conflict considered it = elim it.rest [
    | [] ↦ left_conflict considered it.before
    | e ∷ _ ↦
        if spans_overlap (span_at considered) (span_at e)
        then true
        else left_conflict considered it.before
  ]

  -- `DoesCandidateConflict`
  unfoldable pub does_candidate_conflict : ℕ → List ℕ → Bool
  unfolding neighbour_conflict
  does_candidate_conflict considered [] = false
  does_candidate_conflict considered (e ∷ chosen) =
      neighbour_conflict considered (lower_bound (λ c. starts_before c considered) [] (e ∷ chosen))

  -- `insert` of a set ordered by `starts_before`: an equivalent element stays, and nothing is added.
  unfoldable pub set_insert : ℕ → List ℕ → List ℕ
  set_insert i [] = i ∷ []
  set_insert i (e ∷ chosen) =
      if starts_before e i
      then e ∷ set_insert i chosen
      else if starts_before i e
      then i ∷ e ∷ chosen
      else e ∷ chosen
