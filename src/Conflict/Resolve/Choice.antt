-- ===== src/Conflict/Resolve/Choice.antt =====
-- What `ResolveConflict` chooses in a group: a maximal set of candidates that do not clash.
use native.Mathlib.Decide.{ℕ_discrete}
use external_libtextclassifi.Prelude.{
  ℕ, zero, suc, ◌+◌, ◌-◌, ◌≤◌, ◌<◌, List, [], ◌∷◌, ◌++◌, some, ◌≡◌, inl, inr, arith, append-nil,
  append_assoc, All, Any, Pairwise, All-append, All-sort, Any-sort, Pairwise-sort, sort-Pairwise,
  false, ltb, sort, >>=-eq-some, subst, ◌∙◌, Bool-cases,
}
use external_libtextclassifi.Span.{spans_overlap}
use external_libtextclassifi.Span.Overlap.{IsNonEmpty}
use external_libtextclassifi.Conflict.{Usecase, AnnotatedSpan, Annotator, span_at, source_at}
use external_libtextclassifi.Conflict.Resolve.{
  ScoreLength, Placed, choose, has_conflict, score_of, gather, goes_first, place_all, consider,
  resolve_conflict,
}
use external_libtextclassifi.Conflict.Resolve.Greedy.{
  do_sources_conflict_symm, clash, nothing_placed, place_all-compatible,
}
use external_libtextclassifi.Conflict.Resolve.Maximal.{Settled, place_all-maximal}

abbrev pub range_from : ℕ → ℕ → List ℕ
range_from i zero = []
range_from i (suc n) = i ∷ range_from (suc i) n

module _ (P : ℕ → Type 0) where
  All-range_from : (n i : ℕ) → ((k : ℕ) → i ≤ k → k < i + n → P k) → All P (range_from i n)
  All-range_from zero i inside = tt
  All-range_from (suc n) i inside = (
    inside i (omega arith) (omega arith),
    All-range_from n (suc i) (λ k lo hi. inside k (omega arith) (omega arith)),
  )

pub Any-range_from : (n i k : ℕ) → i ≤ k → k < i + n → Any (λ j. j ≡ k) (range_from i n)
Any-range_from zero i k lo hi = absurd (omega arith)
Any-range_from (suc n) i k lo hi = elim (ℕ_discrete i k) [
  | yes e ↦ inl e
  | no e ↦ inr (Any-range_from n (suc i) k (omega arith) (omega arith))
]

pub All-Any : (P : ℕ → Type 0) (k : ℕ) (xs : List ℕ) → All P xs → Any (λ j. j ≡ k) xs → P k
All-Any P k [] h e = absurd e
All-Any P k (x ∷ xs) (h, hs) (inl e) = subst P e h
All-Any P k (x ∷ xs) (h, hs) (inr e) = All-Any P k xs hs e

abbrev pub InRange : ℕ → ℕ → ℕ → Type 0
InRange s e k = (s ≤ k) × (k < e)

-- What the greedy loop chooses is among what it considers.
module _ {Score : Type 0} (a : Annotator Score) (cands : List (AnnotatedSpan Score))
    (u : Usecase) where
  pub gather-range_from :
      (n i : ℕ) (idx : List ℕ) (sc : List (ℕ × ScoreLength Score)) {idx' : List ℕ}
      {sc' : List (ℕ × ScoreLength Score)}
      → gather a cands n i idx sc ≡ some (idx', sc')
      → idx' ≡ idx ++ range_from i n
  unfolding gather
  gather-range_from zero i idx sc e = rw append-nil (cc)
  gather-range_from (suc n) i idx sc e =
      let (new, _, later) =
        >>=-eq-some (score_of a cands i)
          (λ new. gather a cands n (suc i) (idx ++ i ∷ []) (sc ++ new)) e in
      gather-range_from n (suc i) (idx ++ i ∷ []) (sc ++ new) later
      ∙ append_assoc idx (i ∷ []) (range_from (suc i) n)

  consider-All :
      (P : ℕ → Type 0) (i : ℕ) (p : Placed)
      → P i
      → All P p.chosen
      → All P (consider a cands u p i).chosen
  unfolding consider
  consider-All P i p h hp = elim (Bool-cases (has_conflict a cands u p.sets i)) [
    | inl e ↦ rw e hp
    | inr e ↦ rw e (All-append P p.chosen (i ∷ []) hp (h, tt))
  ]

  place_all-All :
      (P : ℕ → Type 0) (indices : List ℕ) (p : Placed)
      → All P indices
      → All P p.chosen
      → All P (place_all a cands u indices p).chosen
  unfolding place_all
  place_all-All P [] p h hp = hp
  place_all-All P (i ∷ indices) p (h, hs) hp =
      place_all-All P indices _ hs (consider-All P i p h hp)

  -- A successful run is a choice from the whole group.
  resolve_conflict-choose :
      (s e : ℕ) {r : List ℕ}
      → resolve_conflict a cands u s e ≡ some r
      → (scores : List (ℕ × ScoreLength Score)) × (r
          ≡ choose a cands u (range_from s (e - s)) scores)
  resolve_conflict-choose s e {r} h =
      let (p, found, later) =
        >>=-eq-some (gather a cands (e - s) s [] []) (λ p. some (choose a cands u p.0 p.1)) {b = r}
          (unfold resolve_conflict in h) in
      let all : p.0 ≡ range_from s (e - s) = gather-range_from (e - s) s [] [] found in
      (p.1, rw (← all) (cc))

  choose-All :
      (P : ℕ → Type 0) (indices : List ℕ) (scores : List (ℕ × ScoreLength Score))
      → All P indices
      → All P (choose a cands u indices scores)
  unfolding choose
  choose-All P indices scores h =
      All-sort ltb P _
        (place_all-All P _ nothing_placed (All-sort (goes_first a cands scores) P indices h) tt)

  clash_symm : (c d : ℕ) → clash a cands u c d ≡ false → clash a cands u d c ≡ false
  unfolding spans_overlap
  clash_symm c d h =
      ground (arith, do_sources_conflict_symm u (source_at cands c) (source_at cands d))

  choose-compatible :
      (indices : List ℕ) (scores : List (ℕ × ScoreLength Score))
      → All (λ i. IsNonEmpty (span_at cands i)) indices
      → Pairwise (λ c d. clash a cands u c d ≡ false) (choose a cands u indices scores)
  unfolding choose
  choose-compatible indices scores h =
      Pairwise-sort ltb _ clash_symm _
        (place_all-compatible a cands u _ (All-sort (goes_first a cands scores) _ indices h))

  choose-maximal :
      (indices : List ℕ) (scores : List (ℕ × ScoreLength Score)) (x : ℕ)
      → Any (λ j. j ≡ x) indices
      → Settled a cands u (choose a cands u indices scores) x
  unfolding choose
  choose-maximal indices scores x h =
      let ordered = sort (goes_first a cands scores) indices in
      Any-sort ltb _ _
        (All-Any _ x ordered (place_all-maximal a cands u ordered) (Any-sort _ _ indices h))

  -- The chosen candidates of a group are candidates of the group.
  pub resolve_conflict-InRange :
      (s e : ℕ) {r : List ℕ} → resolve_conflict a cands u s e ≡ some r → s ≤ e → All (InRange s e) r
  resolve_conflict-InRange s e h le =
      let (scores, same) = resolve_conflict-choose s e h in
      rw same (
        choose-All _ _ scores
          (All-range_from (InRange s e) (e - s) s (λ k lo hi. (lo, omega arith))))

  pub resolve_conflict-compatible :
      (s e : ℕ) {r : List ℕ}
      → ((k : ℕ) → s ≤ k → k < e → IsNonEmpty (span_at cands k))
      → s ≤ e
      → resolve_conflict a cands u s e ≡ some r
      → Pairwise (λ c d. clash a cands u c d ≡ false) r
  resolve_conflict-compatible s e inside le h =
      let (scores, same) = resolve_conflict-choose s e h in
      rw same (
        choose-compatible _ scores
          (All-range_from _ (e - s) s (λ k lo hi. inside k lo (omega arith))))

  -- They come in the order of the candidates.
  pub resolve_conflict-ascending :
      (s e : ℕ) {r : List ℕ} → resolve_conflict a cands u s e ≡ some r → Pairwise ◌≤◌ r
  unfolding choose
  resolve_conflict-ascending s e h =
      let (scores, same) = resolve_conflict-choose s e h in
      rw same (
        sort-Pairwise ltb ◌≤◌ (λ x y h. ground arith) (λ x y h. ground arith)
          (λ x y z h k. omega arith) _)

  pub resolve_conflict-maximal :
      (s e k : ℕ) {r : List ℕ}
      → resolve_conflict a cands u s e ≡ some r
      → s ≤ k
      → k < e
      → Settled a cands u r k
  resolve_conflict-maximal s e k h lo hi =
      let (scores, same) = resolve_conflict-choose s e h in
      rw same (choose-maximal _ scores k (Any-range_from (e - s) s k lo (omega arith)))
