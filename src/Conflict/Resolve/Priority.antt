-- ===== src/Conflict/Resolve/Priority.antt =====
-- The greedy loop of `ResolveConflict` leaves out a candidate only for one that goes before it.
use external_libtextclassifi.Prelude.{
  ℕ, ◌-◌, ◌≤◌, ◌<◌, ltb_ℤ, Bool, true, false, ◌&&◌, List, [], ◌∷◌, some, ◌≡◌, refl, sym, ◌⊎◌, inl,
  inr, arith, All, Any, Pairwise, All-append, Any-sort, Any-append_left, Any-append_right,
  sort-Pairwise, Bool-cases, ltb, sort, >>=-eq-some, subst, ap, ◌∙◌,
}
use external_libtextclassifi.Conflict.{Usecase, AnnotatedSpan, Annotator, ScoreOps}
use external_libtextclassifi.Conflict.Resolve.{
  ScoreLength, Placed, choose, has_conflict, gather, goes_first, lookup, place_all, consider,
  resolve_conflict,
}
use external_libtextclassifi.Conflict.Resolve.Greedy.{clash, nothing_placed}
use external_libtextclassifi.Conflict.Resolve.Maximal.{
  Backed, has_conflict-Settled, consider-Backed,
}
use external_libtextclassifi.Conflict.Resolve.Choice.{
  All-Any, range_from, Any-range_from, gather-range_from,
}

some-eq {ℓ} : {A : Type ℓ} {x y : A} → some x ≡ some y → x ≡ y
some-eq h = cc

-- What the comparisons of floats that are no NaN satisfy.
pub record IsPriorityOrder {Score : Type 0} (ops : ScoreOps Score) : Type 0 where
  pub asymm : (x y : Score) → ops.greater x y ≡ true → ops.greater y x ≡ false
  pub trans :
      (x y z : Score) → ops.greater y x ≡ false → ops.greater z y ≡ false → ops.greater z x ≡ false
  pub level : (x y : Score) → ops.equal x y ≡ true → ops.greater x y ≡ false
  pub equal_of :
      (x y : Score) → ops.greater x y ≡ false → ops.greater y x ≡ false → ops.equal x y ≡ true
  pub symm : (x y : Score) → ops.equal x y ≡ true → ops.equal y x ≡ true

module _ {Score : Type 0} (a : Annotator Score) (cands : List (AnnotatedSpan Score))
    (scores : List (ℕ × ScoreLength Score)) where
  -- The score of the second is not greater than that of the first, and where the scores are equal and
  -- the longest annotation is preferred, the second is not longer.
  abbrev pub GoesBefore : ℕ → ℕ → Type 0
  GoesBefore c x =
      (a.ops.greater (lookup a cands x scores).score (lookup a cands c scores).score ≡ false)
      × (a.prioritize_longest_annotation ≡ true
          → a.ops.equal (lookup a cands x scores).score (lookup a cands c scores).score ≡ true
          → ltb_ℤ (lookup a cands c scores).length (lookup a cands x scores).length ≡ false)

  module _ (order : IsPriorityOrder a.ops) where
    goes_first-GoesBefore : (x y : ℕ) → goes_first a cands scores x y ≡ true → GoesBefore x y
    unfolding goes_first
    goes_first-GoesBefore x y h =
        let s = (lookup a cands x scores).score in
        let t = (lookup a cands y scores).score in
        elim (Bool-cases (a.ops.equal s t && a.prioritize_longest_annotation)) [
          | inl e ↦
              let eq : a.ops.equal s t ≡ true = ground arith in
              let shorter : ltb_ℤ (lookup a cands y scores).length (lookup a cands x scores).length
                  ≡ true =
                rw e at h in
              (order.level t s (order.symm s t eq), λ longest same. ground arith)
          | inr e ↦
              let more : a.ops.greater s t ≡ true = rw e at h in
              (
                order.asymm s t more,
                λ longest same. absurd (differ (order.level s t (order.symm t s same)) more),
              )
        ]
      where
        differ : {b : Bool} → b ≡ false → b ≡ true → ⊥
        differ h k = cc

    not_first-GoesBefore : (x y : ℕ) → goes_first a cands scores x y ≡ false → GoesBefore y x
    unfolding goes_first
    not_first-GoesBefore x y h =
        let s = (lookup a cands x scores).score in
        let t = (lookup a cands y scores).score in
        elim (Bool-cases (a.ops.equal s t && a.prioritize_longest_annotation)) [
          | inl e ↦
              let eq : a.ops.equal s t ≡ true = ground arith in
              let no_longer : ltb_ℤ (lookup a cands y scores).length
                    (lookup a cands x scores).length
                  ≡ false =
                rw e at h in
              (order.level s t eq, λ longest same. no_longer)
          | inr e ↦
              let no_more : a.ops.greater s t ≡ false = rw e at h in
              (no_more, λ longest same. ground arith)
        ]

    GoesBefore-trans : (x y z : ℕ) → GoesBefore x y → GoesBefore y z → GoesBefore x z
    GoesBefore-trans x y z (g, k) (h, l) =
        let s = (lookup a cands x scores).score in
        let t = (lookup a cands y scores).score in
        let r = (lookup a cands z scores).score in
        (
          order.trans s t r g h,
          λ longest same.
              let back : a.ops.greater s r ≡ false = order.level s r (order.symm r s same) in
              let st : a.ops.greater s t ≡ false = order.trans t r s h back in
              let tr : a.ops.greater t r ≡ false = order.trans r s t back g in
              let first = k longest (order.equal_of t s g st) in
              let second = l longest (order.equal_of r t h tr) in ground arith,
        )

    ordered-GoesBefore :
        (indices : List ℕ) → Pairwise GoesBefore (sort (goes_first a cands scores) indices)
    ordered-GoesBefore =
        sort-Pairwise (goes_first a cands scores) GoesBefore goes_first-GoesBefore
          not_first-GoesBefore GoesBefore-trans

  -- The candidate was chosen, or it clashes with a chosen one that goes before it.
  abbrev pub Outranked : Usecase → List ℕ → ℕ → Type 0
  Outranked u chosen x = Any (λ c. (c ≡ x) ⊎ ((clash a cands u c x ≡ true) × GoesBefore c x)) chosen

  module _ (u : Usecase) where
    rank :
        (x : ℕ) (chosen : List ℕ)
        → All (λ c. GoesBefore c x) chosen
        → Any (λ c. (c ≡ x) ⊎ (clash a cands u c x ≡ true)) chosen
        → Outranked u chosen x
    rank x [] h s = absurd s
    rank x (c ∷ chosen) (h, hs) (inl (inl same)) = inl (inl same)
    rank x (c ∷ chosen) (h, hs) (inl (inr clashes)) = inl (inr (clashes, h))
    rank x (c ∷ chosen) (h, hs) (inr s) = inr (rank x chosen hs s)

    consider-Outranked :
        (x i : ℕ) (p : Placed)
        → Outranked u p.chosen x
        → Outranked u (consider a cands u p i).chosen x
    unfolding consider
    consider-Outranked x i p h = elim (Bool-cases (has_conflict a cands u p.sets i)) [
      | inl e ↦ rw e h
      | inr e ↦ rw e (Any-append_left _ p.chosen (i ∷ []) h)
    ]

    consider_ranks :
        (i : ℕ) (p : Placed)
        → Backed a cands u p.chosen p.sets
        → All (λ c. GoesBefore c i) p.chosen
        → Outranked u (consider a cands u p i).chosen i
    unfolding consider
    consider_ranks i p b h = elim (Bool-cases (has_conflict a cands u p.sets i)) [
      | inl e ↦ rw e (rank i p.chosen h (has_conflict-Settled a cands u i p.chosen p.sets b e))
      | inr e ↦ rw e (Any-append_right _ p.chosen (i ∷ []) (inl (inl refl)))
    ]

    consider-before :
        (x i : ℕ) (p : Placed)
        → GoesBefore i x
        → All (λ c. GoesBefore c x) p.chosen
        → All (λ c. GoesBefore c x) (consider a cands u p i).chosen
    unfolding consider
    consider-before x i p g h = elim (Bool-cases (has_conflict a cands u p.sets i)) [
      | inl e ↦ rw e h
      | inr e ↦ rw e (All-append _ p.chosen (i ∷ []) h (g, tt))
    ]

    all_before :
        (i : ℕ) (p : Placed) (xs : List ℕ)
        → All (GoesBefore i) xs
        → All (λ x. All (λ c. GoesBefore c x) p.chosen) xs
        → All (λ x. All (λ c. GoesBefore c x) (consider a cands u p i).chosen) xs
    all_before i p [] g h = tt
    all_before i p (x ∷ xs) (g, gs) (h, hs) = (consider-before x i p g h, all_before i p xs gs hs)

    place_all-Outranked :
        (x : ℕ) (indices : List ℕ) (p : Placed)
        → Outranked u p.chosen x
        → Outranked u (place_all a cands u indices p).chosen x
    unfolding place_all
    place_all-Outranked x [] p h = h
    place_all-Outranked x (i ∷ indices) p h =
        place_all-Outranked x indices _ (consider-Outranked x i p h)

    place_all_ranks :
        (indices : List ℕ) (p : Placed)
        → Backed a cands u p.chosen p.sets
        → Pairwise GoesBefore indices
        → All (λ x. All (λ c. GoesBefore c x) p.chosen) indices
        → All (Outranked u (place_all a cands u indices p).chosen) indices
    unfolding place_all
    place_all_ranks [] p b g h = tt
    place_all_ranks (i ∷ indices) p b (g, gs) (h, hs) =
        let next = consider a cands u p i in
        (
          place_all-Outranked i indices next (consider_ranks i p b h),
          place_all_ranks indices next (consider-Backed a cands u i p b) gs
              (all_before i p indices g hs),
        )

    choose-Outranked :
        IsPriorityOrder a.ops
        → (indices : List ℕ) (x : ℕ) → Any (λ j. j ≡ x) indices
        → Outranked u (choose a cands u indices scores) x
    unfolding choose
    choose-Outranked order indices x h =
        let ordered = sort (goes_first a cands scores) indices in
        Any-sort ltb _ _ (
          All-Any _ x ordered
            (place_all_ranks ordered nothing_placed tt (ordered-GoesBefore order indices)
              (none_before ordered))
            (Any-sort _ _ indices h))
      where
        none_before : (xs : List ℕ) → All (λ x. All (λ c. GoesBefore c x) []) xs
        none_before [] = tt
        none_before (x ∷ xs) = (tt, none_before xs)

module _ {Score : Type 0} (a : Annotator Score) (cands : List (AnnotatedSpan Score))
    (u : Usecase) where
  -- If scores are ordered as floats without NaN are, and the resolution of the candidates from `s` to
  -- before `e` returns some indices, then it has gathered their scores, and each of the candidates was
  -- chosen or clashes with a chosen one that goes before it: whose priority is as great at least, and
  -- which is as long at least, where the priorities are equal and the longest annotation is preferred.
  pub resolve_conflict-Outranked :
      (s e : ℕ) {r : List ℕ}
      → IsPriorityOrder a.ops
      → resolve_conflict a cands u s e ≡ some r
      → (scores : List (ℕ × ScoreLength Score)) × (gather a cands (e - s) s [] []
          ≡ some (range_from s (e - s), scores))
        × ((k : ℕ) → s ≤ k → k < e → Outranked a cands scores u r k)
  resolve_conflict-Outranked s e {r} order h =
      let (p, found, later) =
        >>=-eq-some (gather a cands (e - s) s [] []) (λ p. some (choose a cands u p.0 p.1)) {b = r}
          (unfold resolve_conflict in h) in
      let all : p.0 ≡ range_from s (e - s) = gather-range_from a cands u (e - s) s [] [] found in
      (
        p.1,
        found ∙ ap (λ indices. some (indices, p.1)) all,
        λ k lo hi.
            subst (λ chosen. Outranked a cands p.1 u chosen k) (some-eq later)
              (choose-Outranked a cands p.1 u order p.0 k
                (subst (Any (λ j. j ≡ k)) (sym all) (Any-range_from (e - s) s k lo (omega arith)))),
      )
