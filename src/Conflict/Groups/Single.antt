-- ===== src/Conflict/Groups/Single.antt =====
-- `ResolveConflicts` where the candidates are one group: the resolution of that group is the result.
use external_libtextclassifi.Prelude.{
  ℕ, zero, suc, ◌≤◌, ◌<◌, ◌≤ℤ◌, true, false, List, [], some, ◌≡◌, inl, inr, arith, ltb, ◌==◌,
  Bool-cases, >>=-eq-some, length, subst, none, ◌++◌, ◌-◌,
}
use external_libtextclassifi.Conflict.{Usecase, AnnotatedSpan, Annotator, span_at}
use external_libtextclassifi.Conflict.Resolve.{ScoreLength, resolve_conflict, gather}
use external_libtextclassifi.Conflict.Resolve.Choice.{range_from}
use external_libtextclassifi.Conflict.Resolve.Priority.{
  IsPriorityOrder, Outranked, resolve_conflict-Outranked,
}
use external_libtextclassifi.Conflict.Groups.{
  first_non_overlapping_span_index, resolve_group, resolve_from, resolve_conflicts,
}
use external_libtextclassifi.Conflict.Groups.Partition.{
  AreCandidates, first_non_overlapping-IsGroup,
}

some-eq {ℓ} : {A : Type ℓ} {x y : A} → some x ≡ some y → x ≡ y
some-eq h = cc

none-ne-some {ℓ} : {A : Type ℓ} {x : A} → none ≡ some x → ⊥
none-ne-some h = cc

module _ {Score : Type 0} (a : Annotator Score) (cs : List (AnnotatedSpan Score)) (u : Usecase)
    (ok : AreCandidates cs)
    (meet : (i j : ℕ)
      → i < length cs
      → j < length cs
      → (span_at cs i).second ≤ℤ (span_at cs j).first
      → ⊥) where
  one_group : 0 < length cs → first_non_overlapping_span_index cs 0 ≡ length cs
  one_group lt =
      let g = first_non_overlapping-IsGroup cs 0 ok lt in
      let j = first_non_overlapping_span_index cs 0 in
      elim (Bool-cases (ltb j (length cs))) [
        | inl e ↦ absurd (
            meet 0 j lt (ground arith)
              (g.apart 0 j (omega arith) (omega (arith, g.grows)) (omega arith) (ground arith)))
        | inr e ↦ omega (arith, g.within, ltb-ge j (length cs) e)
      ]
    where
      ltb-ge : (n m : ℕ) → ltb n m ≡ false → m ≤ n
      ltb-ge n m e = ground arith

  at_the_end :
      (fuel : ℕ) (result : List ℕ) {r : List ℕ}
      → resolve_from a cs u fuel (length cs) result ≡ some r
      → result ≡ r
  unfolding resolve_from
  at_the_end zero result h =
      let done : ltb (length cs) (length cs) ≡ false = ground arith in some-eq (rw done at h)
  at_the_end (suc fuel) result h =
      let done : ltb (length cs) (length cs) ≡ false = ground arith in some-eq (rw done at h)

  one_round :
      (fuel : ℕ) {r : List ℕ}
      → 1 < length cs
      → resolve_from a cs u fuel 0 [] ≡ some r
      → resolve_conflict a cs u 0 (length cs) ≡ some r
  unfolding resolve_from resolve_group
  one_round zero {r} many h =
      let more : ltb 0 (length cs) ≡ true = ground arith in absurd (none-ne-some (rw more at h))
  one_round (suc fuel) {r} many h =
      let more : ltb 0 (length cs) ≡ true = ground arith in
      let several : (length cs == 1) ≡ false = ground arith in
      let all = one_group (omega (arith, many)) in
      let j = first_non_overlapping_span_index cs 0 in
      let (chosen, found, later) =
        >>=-eq-some (resolve_group a cs u 0 j) (λ c. resolve_from a cs u fuel j ([] ++ c)) {b = r}
          (rw more at h) in
      let group : resolve_group a cs u 0 (length cs) ≡ some chosen =
        subst (λ k. resolve_group a cs u 0 k ≡ some chosen) all found in
      let last =
        at_the_end fuel chosen
          (subst (λ k. resolve_from a cs u fuel k chosen ≡ some r) all later) in
      subst (λ c. resolve_conflict a cs u 0 (length cs) ≡ some c) last (rw several at group)

  -- Where several candidates all meet one another, each of them was chosen or clashes with a chosen one
  -- that goes before it.
  pub resolve_conflicts-Outranked :
      {r : List ℕ}
      → IsPriorityOrder a.ops
      → 1 < length cs
      → resolve_conflicts a cs u ≡ some r
      → (scores : List (ℕ × ScoreLength Score)) × (gather a cs (length cs) 0 [] []
          ≡ some (range_from 0 (length cs), scores))
        × ((k : ℕ) → k < length cs → Outranked a cs scores u r k)
  unfolding resolve_conflicts
  resolve_conflicts-Outranked {r} order many h =
      let (scores, gathered, ranks) =
        resolve_conflict-Outranked a cs u 0 (length cs) order (one_round (length cs) many h) in
      (
        scores,
        subst (λ n. gather a cs n 0 [] [] ≡ some (range_from 0 n, scores)) (all_of (length cs))
            gathered,
        λ k lt. ranks k (omega arith) lt,
      )
    where
      all_of : (n : ℕ) → n - 0 ≡ n
      all_of n = omega arith
