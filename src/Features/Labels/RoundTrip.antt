-- ===== src/Features/Labels/RoundTrip.antt =====
-- Labels and pairs of token counts determine one another.
use native.Mathlib.Decide.{ℕ_discrete}
use external_libtextclassifi.Prelude.{
  ℕ, zero, suc, ◌+◌, ◌≤◌, ◌<◌, pos, Bool, true, false, List, [], ◌∷◌, ◌++◌, some, length, get_or,
  ◌≡◌, refl, ◌⊎◌, inl, inr, arith, Bool-cases, length-append, subst, ap, ◌∙◌,
}
use external_libtextclassifi.Token.{TokenSpan}
use external_libtextclassifi.Features.Labels.{
  LabelMaps, token_span, find, add_label, is_label, add_row, add_rows, make_label_maps,
  label_to_token_span, token_span_to_label,
}

-- The pairs that the loops have met when they are at `l`, `r`.
abbrev IsBefore : ℕ → ℕ → ℕ → ℕ → Type 0
IsBefore l r l' r' = (l' < l) ⊎ ((l' ≡ l) × (r' < r))

get_or-append_left :
    (xs : List TokenSpan) (x d : TokenSpan) (i : ℕ)
    → i < length xs
    → get_or (xs ++ x ∷ []) i d ≡ get_or xs i d
get_or-append_left [] x d i h = absurd (omega arith)
get_or-append_left (y ∷ xs) x d zero h = refl
get_or-append_left (y ∷ xs) x d (suc i) h = get_or-append_left xs x d i (omega arith)

get_or-append_last :
    (xs : List TokenSpan) (x d : TokenSpan) → get_or (xs ++ x ∷ []) (length xs) d ≡ x
get_or-append_last [] x d = refl
get_or-append_last (y ∷ xs) x d = get_or-append_last xs x d

abbrev entry : LabelMaps → ℕ → TokenSpan
entry m i = get_or m.label_to_selection i (token_span 0 0)

-- A label has its pair, met before and allowed.
abbrev HasPair : ℕ → Bool → ℕ → ℕ → LabelMaps → ℕ → Type 0
HasPair max reduced l r m i =
    (p : ℕ) × (q : ℕ) × (entry m i ≡ token_span p q)
    × IsBefore l r p q
    × (is_label max reduced p q ≡ true)
    × (find (token_span p q) m.selection_to_label ≡ some i)

-- A pair has its label.
abbrev HasLabel : LabelMaps → ℕ → ℕ → Type 0
HasLabel m p q =
    (i : ℕ) × (i < length m.label_to_selection)
    × (entry m i ≡ token_span p q)
    × (find (token_span p q) m.selection_to_label ≡ some i)

-- The state of the loops at `l`, `r`.
record Made (max : ℕ) (reduced : Bool) (l r : ℕ) (m : LabelMaps) : Type 0 where
  counted : m.selection_label_id ≡ length m.label_to_selection
  labelled : (i : ℕ) → i < length m.label_to_selection → HasPair max reduced l r m i
  found : (p q : ℕ) → IsBefore l r p q → q ≤ max → is_label max reduced p q ≡ true → HasLabel m p q

find_old :
    (l r p q id : ℕ) (es : List (TokenSpan × ℕ))
    → IsBefore l r p q
    → find (token_span p q) ((token_span l r, id) ∷ es) ≡ find (token_span p q) es
unfolding find
find_old l r p q id es h = ground arith

find_new :
    (l r id : ℕ) (es : List (TokenSpan × ℕ))
    → find (token_span l r) ((token_span l r, id) ∷ es) ≡ some id
unfolding find
find_new l r id es = ground arith

IsBefore-next : (l r p q : ℕ) → IsBefore l r p q → IsBefore l (suc r) p q
IsBefore-next l r p q h = ground arith

IsBefore-cases : (l r p q : ℕ) → IsBefore l (suc r) p q → IsBefore l r p q ⊎ ((p ≡ l) × (q ≡ r))
IsBefore-cases l r p q (inl h) = inl (inl h)
IsBefore-cases l r p q (inr (e, h)) = elim (ℕ_discrete q r) [
  | yes same ↦ inr (e, same)
  | no other ↦ inl (inr (e, omega arith))
]

module _ (max : ℕ) (reduced : Bool) where
  new_HasLabel :
      (l r : ℕ) (m : LabelMaps)
      → m.selection_label_id ≡ length m.label_to_selection
      → (entry (add_label (token_span l r) m) (length m.label_to_selection) ≡ token_span l r)
        × (find (token_span l r) (add_label (token_span l r) m).selection_to_label
            ≡ some (length m.label_to_selection))
  unfolding add_label
  new_HasLabel l r m e = (
    get_or-append_last m.label_to_selection (token_span l r) (token_span 0 0),
    rw (← e) (find_new l r m.selection_label_id m.selection_to_label),
  )

  old_HasPair :
      (l r i : ℕ) (m : LabelMaps)
      → i < length m.label_to_selection
      → HasPair max reduced l r m i
      → HasPair max reduced l (suc r) (add_label (token_span l r) m) i
  unfolding add_label
  old_HasPair l r i m lt (p, q, e, before, ok, f) = (
    p,
    q,
    get_or-append_left m.label_to_selection (token_span l r) (token_span 0 0) i lt ∙ e,
    IsBefore-next l r p q before,
    ok,
    find_old l r p q m.selection_label_id m.selection_to_label before ∙ f,
  )

  old_HasLabel :
      (l r p q : ℕ) (m : LabelMaps)
      → IsBefore l r p q
      → HasLabel m p q
      → HasLabel (add_label (token_span l r) m) p q
  unfolding add_label
  old_HasLabel l r p q m before (i, lt, e, f) = (
    i,
    omega (arith, length-append {0} m.label_to_selection (token_span l r ∷ [])),
    get_or-append_left m.label_to_selection (token_span l r) (token_span 0 0) i lt ∙ e,
    find_old l r p q m.selection_label_id m.selection_to_label before ∙ f,
  )

  length-add_label :
      (s : TokenSpan) (m : LabelMaps)
      → length (add_label s m).label_to_selection ≡ suc (length m.label_to_selection)
  unfolding add_label
  length-add_label s m = omega (arith, length-append {0} m.label_to_selection (s ∷ []))

  Made-add :
      (l r : ℕ) (m : LabelMaps)
      → is_label max reduced l r ≡ true
      → Made max reduced l r m
      → Made max reduced l (suc r) (add_label (token_span l r) m)
  unfolding add_label
  Made-add l r m allowed made =
      let m' = add_label (token_span l r) m in
      let n = length m.label_to_selection in
      let grown = length-add_label (token_span l r) m in
      let (e, f) = new_HasLabel l r m made.counted in
      record {
        counted = rw grown (ap suc made.counted);
        labelled = λ i lt. elim (ℕ_discrete n i) [
          | yes same ↦
              subst (λ k. HasPair max reduced l (suc r) m' k) same
                (l, r, e, inr (refl, omega arith), allowed, f)
          | no other ↦ old_HasPair l r i m (omega arith) (made.labelled i (omega arith))
        ];
        found = λ p q before le ok. elim (IsBefore-cases l r p q before) [
          | inl old ↦ old_HasLabel l r p q m old (made.found p q old le ok)
          | inr (same_l, same_r) ↦ rw (same_l, same_r) (n, omega arith, e, f)
        ];
      }

  Made-skip :
      (l r : ℕ) (m : LabelMaps)
      → is_label max reduced l r ≡ false
      → Made max reduced l r m
      → Made max reduced l (suc r) m
  Made-skip l r m refused made = record {
    counted = made.counted;
    labelled = λ i lt.
        let (p, q, e, before, ok, f) = made.labelled i lt in
        (p, q, e, IsBefore-next l r p q before, ok, f);
    found = λ p q before le ok. elim (IsBefore-cases l r p q before) [
      | inl old ↦ made.found p q old le ok
      | inr (same_l, same_r) ↦ absurd (refuse (rw (same_l, same_r) at ok) refused)
    ];
  }
    where
      refuse : {b : Bool} → b ≡ true → b ≡ false → ⊥
      refuse h k = cc

  IsBefore-row : (l p q : ℕ) → IsBefore (suc l) 0 p q → q ≤ max → IsBefore l (suc max) p q
  IsBefore-row l p q h le = ground arith

  row-IsBefore : (l p q : ℕ) → IsBefore l (suc max) p q → IsBefore (suc l) 0 p q
  row-IsBefore l p q h = ground arith

  Made-row : (l : ℕ) (m : LabelMaps) → Made max reduced l (suc max) m → Made max reduced (suc l) 0 m
  Made-row l m made = record {
    counted = made.counted;
    labelled = λ i lt.
        let (p, q, e, before, ok, f) = made.labelled i lt in
        (p, q, e, row-IsBefore l p q before, ok, f);
    found = λ p q before le ok. made.found p q (IsBefore-row l p q before le) le ok;
  }

  add_row-Made :
      (n l r : ℕ) (m : LabelMaps)
      → r + n ≡ suc max
      → Made max reduced l r m
      → Made max reduced l (suc max) (add_row max reduced n l r m)
  unfolding add_row
  add_row-Made zero l r m e made = subst (λ k. Made max reduced l k m) (omega arith) made
  add_row-Made (suc n) l r m e made = elim (Bool-cases (is_label max reduced l r)) [
    | inl ok ↦ rw ok (add_row-Made n l (suc r) _ (omega arith) (Made-add l r m ok made))
    | inr ko ↦ rw ko (add_row-Made n l (suc r) _ (omega arith) (Made-skip l r m ko made))
  ]

  add_rows-Made :
      (n l : ℕ) (m : LabelMaps)
      → l + n ≡ suc max
      → Made max reduced l 0 m
      → Made max reduced (suc max) 0 (add_rows max reduced n l m)
  unfolding add_rows
  add_rows-Made zero l m e made = subst (λ k. Made max reduced k 0 m) (omega arith) made
  add_rows-Made (suc n) l m e made =
      add_rows-Made n (suc l) _ (omega arith)
        (Made-row l _ (add_row-Made (suc max) l 0 m (omega arith) made))

  make_label_maps-Made : Made max reduced (suc max) 0 (make_label_maps max reduced)
  unfolding make_label_maps
  make_label_maps-Made = add_rows-Made (suc max) 0 _ (omega arith) (record {
    counted = refl;
    labelled = λ i lt. absurd (omega arith);
    found = λ p q before. ground arith;
  })

  label_get :
      (m : LabelMaps) (i : ℕ)
      → i < length m.label_to_selection
      → label_to_token_span m (pos i) ≡ some (entry m i)
  unfolding label_to_token_span
  label_get m i lt = ground arith

  label_find :
      (m : LabelMaps) (s : TokenSpan) (i : ℕ)
      → find s m.selection_to_label ≡ some i
      → token_span_to_label m s ≡ pos i
  unfolding token_span_to_label
  label_find m s i h = rw (h, token_span_to_label)

  -- Each label of the maps stands for a pair of counts that the options allow, and the label of that
  -- pair is the label again.
  pub token_span_to_label-label :
      (i : ℕ)
      → i < length (make_label_maps max reduced).label_to_selection
      → (l : ℕ) × (r : ℕ) × (is_label max reduced l r ≡ true)
        × (label_to_token_span (make_label_maps max reduced) (pos i) ≡ some (token_span l r))
        × (token_span_to_label (make_label_maps max reduced) (token_span l r) ≡ pos i)
  token_span_to_label-label i lt =
      let (l, r, e, before, ok, f) = make_label_maps-Made.labelled i lt in
      (l, r, ok, label_get _ i lt ∙ ap some e, label_find _ _ i f)

  -- Each pair of counts within the selection span, which the options allow, has a label, and that
  -- label stands for the pair.
  pub label_to_token_span-token_span :
      (l r : ℕ)
      → l ≤ max
      → r ≤ max
      → is_label max reduced l r ≡ true
      → label_to_token_span
          (make_label_maps max reduced)
          (token_span_to_label (make_label_maps max reduced) (token_span l r))
        ≡ some (token_span l r)
  label_to_token_span-token_span l r hl hr ok =
      let (i, lt, e, f) = make_label_maps-Made.found l r (inl (omega arith)) hr ok in
      let m = make_label_maps max reduced in
      rw (label_find m (token_span l r) i f) (label_get m i lt ∙ ap some e)
