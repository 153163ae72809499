-- ===== src/Prelude/Base/Predicates.antt =====
-- Predicates on lists by recursion, which compute to tuples, and insertion sort (`std::sort`).
use mathlib.Core.Path.{◌≡◌, refl}
use mathlib.Core.Logic.{◌⊎◌, inl, inr}
use mathlib.Core.Bool.{Bool, true, false}
use mathlib.Core.List.{List, [], ◌∷◌, ◌++◌}
use external_libtextclassifi.Prelude.Base.Tests.{if◌then◌else◌, Bool-cases}

module _ {ℓ} {A : Type ℓ} (P : A → Type 0) where
  abbrev pub All : List A → Type 0
  All [] = Unit
  All (x ∷ xs) = P x × All xs

  -- Some element has the property.
  abbrev pub Any : List A → Type 0
  Any [] = ⊥
  Any (x ∷ xs) = P x ⊎ Any xs

  pub All-append : (xs ys : List A) → All xs → All ys → All (xs ++ ys)
  All-append [] ys hx hy = hy
  All-append (x ∷ xs) ys (h, hx) hy = (h, All-append xs ys hx hy)

  pub All-append_left : (xs ys : List A) → All (xs ++ ys) → All xs
  All-append_left [] ys h = tt
  All-append_left (x ∷ xs) ys (h, t) = (h, All-append_left xs ys t)

  pub All-append_right : (xs ys : List A) → All (xs ++ ys) → All ys
  All-append_right [] ys h = h
  All-append_right (x ∷ xs) ys (h, t) = All-append_right xs ys t

  pub Any-append_left : (xs ys : List A) → Any xs → Any (xs ++ ys)
  Any-append_left [] ys h = elim h [ ]
  Any-append_left (x ∷ xs) ys (inl h) = inl h
  Any-append_left (x ∷ xs) ys (inr h) = inr (Any-append_left xs ys h)

  pub Any-append_right : (xs ys : List A) → Any ys → Any (xs ++ ys)
  Any-append_right [] ys h = h
  Any-append_right (x ∷ xs) ys h = inr (Any-append_right xs ys h)

module _ {ℓ} {A : Type ℓ} (P Q : A → Type 0) where
  pub All-map : ((x : A) → P x → Q x) → (xs : List A) → All P xs → All Q xs
  All-map f [] h = tt
  All-map f (x ∷ xs) (h, t) = (f x h, All-map f xs t)

  pub Any-map : ((x : A) → P x → Q x) → (xs : List A) → Any P xs → Any Q xs
  Any-map f [] h = elim h [ ]
  Any-map f (x ∷ xs) (inl h) = inl (f x h)
  Any-map f (x ∷ xs) (inr h) = inr (Any-map f xs h)

-- Every element stands in the relation to every later one.
module _ {ℓ} {A : Type ℓ} (R : A → A → Type 0) where
  abbrev pub Pairwise : List A → Type 0
  Pairwise [] = Unit
  Pairwise (x ∷ xs) = All (R x) xs × Pairwise xs

  pub Pairwise-append :
      (xs ys : List A)
      → Pairwise xs
      → Pairwise ys
      → All (λ x. All (R x) ys) xs
      → Pairwise (xs ++ ys)
  Pairwise-append [] ys hx hy h = hy
  Pairwise-append (x ∷ xs) ys (hx, px) hy (h, hs) =
      (All-append (R x) xs ys hx h, Pairwise-append xs ys px hy hs)

-- `less x y` is the comparator; an element is put before the first that it is less than.
module _ {ℓ} {A : Type ℓ} (less : A → A → Bool) where
  unfoldable pub insert_sorted : A → List A → List A
  insert_sorted x [] = x ∷ []
  insert_sorted x (y ∷ ys) = if less x y then x ∷ y ∷ ys else y ∷ insert_sorted x ys

  unfoldable pub sort : List A → List A
  unfolding insert_sorted
  sort [] = []
  sort (x ∷ xs) = insert_sorted x (sort xs)

module _ {ℓ} {A : Type ℓ} (less : A → A → Bool) (P : A → Type 0) where
  pub All-insert_sorted : (x : A) (ys : List A) → P x → All P ys → All P (insert_sorted less x ys)
  unfolding insert_sorted
  All-insert_sorted x [] h hs = (h, tt)
  All-insert_sorted x (y ∷ ys) h (hy, hs) = elim (Bool-cases (less x y)) [
    | inl e ↦ rw e (h, (hy, hs))
    | inr e ↦ rw e (hy, All-insert_sorted x ys h hs)
  ]

  pub All-sort : (xs : List A) → All P xs → All P (sort less xs)
  unfolding sort
  All-sort [] h = tt
  All-sort (x ∷ xs) (h, hs) = All-insert_sorted x (sort less xs) h (All-sort xs hs)

module _ {ℓ} {A : Type ℓ} (less : A → A → Bool) (P : A → Type 0) where
  All-of_insert_sorted : (x : A) (ys : List A) → All P (insert_sorted less x ys) → P x × All P ys
  unfolding insert_sorted
  All-of_insert_sorted x [] = λ h. (h.0, tt)
  All-of_insert_sorted x (y ∷ ys) = elim (Bool-cases (less x y)) [
    | inl e ↦ rw e (λ h. (h.0, h.1))
    | inr e ↦ rw e (λ h. let (hx, hys) = All-of_insert_sorted x ys h.1 in (hx, (h.0, hys)))
  ]

  pub All-of_sort : (xs : List A) → All P (sort less xs) → All P xs
  unfolding sort
  All-of_sort [] h = tt
  All-of_sort (x ∷ xs) h =
      let (hx, hxs) = All-of_insert_sorted x (sort less xs) h in (hx, All-of_sort xs hxs)

module _ {ℓ} {A : Type ℓ} (less : A → A → Bool) (P : A → Type 0) where
  Any-insert_sorted : (x : A) (ys : List A) → P x ⊎ Any P ys → Any P (insert_sorted less x ys)
  unfolding insert_sorted
  Any-insert_sorted x [] h = h
  Any-insert_sorted x (y ∷ ys) h = elim (Bool-cases (less x y)) [
    | inl e ↦ rw e h
    | inr e ↦ rw e (elim h [
      | inl p ↦ inr (Any-insert_sorted x ys (inl p))
      | inr (inl p) ↦ inl p
      | inr (inr p) ↦ inr (Any-insert_sorted x ys (inr p))
    ])
  ]

  pub Any-sort : (xs : List A) → Any P xs → Any P (sort less xs)
  unfolding sort
  Any-sort [] h = h
  Any-sort (x ∷ xs) (inl h) = Any-insert_sorted x (sort less xs) (inl h)
  Any-sort (x ∷ xs) (inr h) = Any-insert_sorted x (sort less xs) (inr (Any-sort xs h))

module _ {ℓ} {A : Type ℓ} (less : A → A → Bool) (R : A → A → Type 0)
    (symm : (x y : A) → R x y → R y x) where
  Pairwise-insert_sorted :
      (x : A) (ys : List A) → All (R x) ys → Pairwise R ys → Pairwise R (insert_sorted less x ys)
  unfolding insert_sorted
  Pairwise-insert_sorted x [] h p = (tt, tt)
  Pairwise-insert_sorted x (y ∷ ys) (h, hs) (py, ps) = elim (Bool-cases (less x y)) [
    | inl e ↦ rw e ((h, hs), (py, ps))
    | inr e ↦
        rw e (All-insert_sorted less (R y) x ys (symm x y h) py, Pairwise-insert_sorted x ys hs ps)
  ]

  pub Pairwise-sort : (xs : List A) → Pairwise R xs → Pairwise R (sort less xs)
  unfolding sort
  Pairwise-sort [] p = tt
  Pairwise-sort (x ∷ xs) (h, p) =
      Pairwise-insert_sorted x (sort less xs) (All-sort less (R x) xs h) (Pairwise-sort xs p)

-- A sort by a comparator of a total preorder puts every element before those that it precedes.
module _ {ℓ} {A : Type ℓ} (less : A → A → Bool) (R : A → A → Type 0)
    (first : (x y : A) → less x y ≡ true → R x y) (last : (x y : A) → less x y ≡ false → R y x)
    (trans : (x y z : A) → R x y → R y z → R x z) where
  insert_sorted_keeps : (x : A) (ys : List A) → Pairwise R ys → Pairwise R (insert_sorted less x ys)
  unfolding insert_sorted
  insert_sorted_keeps x [] p = (tt, tt)
  insert_sorted_keeps x (y ∷ ys) (hy, p) = elim (Bool-cases (less x y)) [
    | inl e ↦
        let r = first x y e in rw e ((r, All-map (R y) (R x) (λ z. trans x y z r) ys hy), (hy, p))
    | inr e ↦ rw e (All-insert_sorted less (R y) x ys (last x y e) hy, insert_sorted_keeps x ys p)
  ]

  pub sort-Pairwise : (xs : List A) → Pairwise R (sort less xs)
  unfolding sort
  sort-Pairwise [] = tt
  sort-Pairwise (x ∷ xs) = insert_sorted_keeps x (sort less xs) (sort-Pairwise xs)

module _ {ℓ} {A : Type ℓ} (P : A → Type 0) (R S : A → A → Type 0)
    (step : (x y : A) → P x → P y → R x y → S x y) where
  All-with : (x : A) (ys : List A) → P x → All P ys → All (R x) ys → All (S x) ys
  All-with x [] h hs r = tt
  All-with x (y ∷ ys) h (hy, hs) (r, rs) = (step x y h hy r, All-with x ys h hs rs)

  pub Pairwise-map : (xs : List A) → All P xs → Pairwise R xs → Pairwise S xs
  Pairwise-map [] h r = tt
  Pairwise-map (x ∷ xs) (h, hs) (r, rs) = (All-with x xs h hs r, Pairwise-map xs hs rs)

-- Every element of a list is a member of any list that has the members of the first.
pub All-self :
    {A : Type 0} (xs ys : List A)
    → ((x : A) → Any (λ d. d ≡ x) xs → Any (λ d. d ≡ x) ys)
    → All (λ c. Any (λ d. d ≡ c) ys) xs
All-self [] ys f = tt
All-self (x ∷ xs) ys f = (f x (inl refl), All-self xs ys (λ y h. f y (inr h)))
