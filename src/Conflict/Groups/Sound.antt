-- ===== src/Conflict/Groups/Sound.antt =====
-- What `ResolveConflicts` returns over the whole list of candidates.
use external_libtextclassifi.Prelude.{
  ℕ, zero, suc, ◌≤◌, ◌<◌, ◌≤ℤ◌, List, [], ◌∷◌, ◌++◌, none, some, ◌≡◌, inl, inr, arith, All,
  Pairwise, All-append, Pairwise-append, All-map, Any-append_left, Any-append_right, Bool-cases,
  false, ltb, ltb→lt, ◌==◌, >>=-eq-some, length, subst,
}
use external_libtextclassifi.Span.{spans_overlap}
use external_libtextclassifi.Conflict.{Usecase, AnnotatedSpan, Annotator, span_at}
use external_libtextclassifi.Conflict.Resolve.{resolve_conflict}
use external_libtextclassifi.Conflict.Resolve.Greedy.{clash}
use external_libtextclassifi.Conflict.Resolve.Maximal.{Settled}
use external_libtextclassifi.Conflict.Resolve.Choice.{
  InRange, resolve_conflict-InRange, resolve_conflict-compatible, resolve_conflict-maximal,
  resolve_conflict-ascending,
}
use external_libtextclassifi.Conflict.Groups.{
  first_non_overlapping_span_index, resolve_group, resolve_from, resolve_conflicts,
}
use external_libtextclassifi.Conflict.Groups.Partition.{
  AreCandidates, IsGroup, candidates-IsNonEmpty, first_non_overlapping-IsGroup,
}

some-eq {ℓ} : {A : Type ℓ} {x y : A} → some x ≡ some y → x ≡ y
some-eq h = cc

none-ne-some {ℓ} : {A : Type ℓ} {x : A} → none ≡ some x → ⊥
none-ne-some h = cc

module _ {Score : Type 0} (a : Annotator Score) (cs : List (AnnotatedSpan Score))
    (u : Usecase) where
  -- What a round appends, for the group from `i` up to `j`.
  record Resolved (i j : ℕ) (chosen : List ℕ) : Type 0 where
    inside : All (InRange i j) chosen
    compatible : Pairwise (λ c d. clash a cs u c d ≡ false) chosen
    ascending : Pairwise ◌≤◌ chosen
    settled : (k : ℕ) → i ≤ k → k < j → Settled a cs u chosen k

  single_Resolved : (i : ℕ) → Resolved i (suc i) (i ∷ [])
  single_Resolved i = record {
    inside = ((omega arith, omega arith), tt);
    compatible = (tt, tt);
    ascending = (tt, tt);
    settled = λ k lo hi. inl (inl (omega arith));
  }

  conflict_Resolved :
      (i j : ℕ) {r : List ℕ}
      → AreCandidates cs
      → IsGroup cs i j
      → resolve_conflict a cs u i j ≡ some r
      → Resolved i j r
  conflict_Resolved i j ok g h = record {
    inside = resolve_conflict-InRange a cs u i j h (omega (arith, g.grows));
    compatible =
        resolve_conflict-compatible a cs u i j
          (λ k lo hi. candidates-IsNonEmpty cs k ok (omega (arith, g.within)))
          (omega (arith, g.grows)) h;
    ascending = resolve_conflict-ascending a cs u i j h;
    settled = λ k lo hi. resolve_conflict-maximal a cs u i j k h lo hi;
  }

  resolve_group-Resolved :
      (i j : ℕ) {r : List ℕ}
      → AreCandidates cs
      → IsGroup cs i j
      → resolve_group a cs u i j ≡ some r
      → Resolved i j r
  unfolding resolve_group
  resolve_group-Resolved i j ok g h = elim (Bool-cases (j == suc i)) [
    | inl e ↦
        subst (λ l. Resolved i j l) (some-eq (rw e at h))
          (subst (λ k. Resolved i k (i ∷ [])) (ground arith) (single_Resolved i))
    | inr e ↦ conflict_Resolved i j ok g (rw e at h)
  ]

  -- The loop's invariant at `i`: what is chosen ends before the candidates from `i` on begin.
  record Done (i : ℕ) (result : List ℕ) : Type 0 where
    ends :
        All
          (λ c.
            (c < i)
            × ((d : ℕ) → i ≤ d → d < length cs → (span_at cs c).second ≤ℤ (span_at cs d).first))
          result
    compatible : Pairwise (λ c d. clash a cs u c d ≡ false) result
    ascending : Pairwise ◌≤◌ result
    settled : (k : ℕ) → k < i → Settled a cs u result k

  apart-clash : (c d : ℕ) → (span_at cs c).second ≤ℤ (span_at cs d).first → clash a cs u c d ≡ false
  unfolding spans_overlap
  apart-clash c d h = ground arith

  Done-next :
      (i j : ℕ) (result chosen : List ℕ)
      → IsGroup cs i j
      → Done i result
      → Resolved i j chosen
      → Done j (result ++ chosen)
  Done-next i j result chosen g done r = record {
    ends =
        All-append _ result chosen
          (All-map _ _
            (λ c h. (omega (arith, g.grows), λ d lo hi. h.1 d (omega (arith, g.grows)) hi)) result
            done.ends)
          (All-map _ _ (λ c h. (h.1, λ d lo hi. g.apart c d h.1 h.0 lo hi)) chosen r.inside);
    compatible = Pairwise-append _ result chosen done.compatible r.compatible (
        All-map _ _
          (λ c h.
            All-map _ _ (λ d k. apart-clash c d (h.1 d k.0 (omega (arith, g.within)))) chosen
              r.inside)
          result done.ends);
    ascending = Pairwise-append _ result chosen done.ascending r.ascending (
        All-map _ _
          (λ c h. All-map (InRange i j) _ (λ d k. omega (arith, k.0, h.0)) chosen r.inside) result
          done.ends);
    settled = λ k hi. elim (Bool-cases (ltb k i)) [
      | inl e ↦ Any-append_left _ result chosen (done.settled k (ltb→lt k i e))
      | inr e ↦ Any-append_right _ result chosen (r.settled k (ground arith) hi)
    ];
  }

  all-Done :
      (i : ℕ) {result r : List ℕ}
      → AreCandidates cs
      → i ≤ length cs
      → Done i result
      → ltb i (length cs) ≡ false
      → some result ≡ some r
      → Done (length cs) r
  all-Done i {result} {r} ok le done e h =
      subst (λ l. Done (length cs) l) (some-eq h) (subst (λ k. Done k result) (ground arith) done)

  resolve_from-Done :
      (fuel i : ℕ) (result : List ℕ) {r : List ℕ}
      → AreCandidates cs
      → i ≤ length cs
      → Done i result
      → resolve_from a cs u fuel i result ≡ some r
      → Done (length cs) r
  unfolding resolve_from
  resolve_from-Done zero i result {r} ok le done h = elim (Bool-cases (ltb i (length cs))) [
    | inl e ↦ absurd (none-ne-some (rw e at h))
    | inr e ↦ all-Done i ok le done e (rw e at h)
  ]
  resolve_from-Done (suc fuel) i result {r} ok le done h = elim (Bool-cases (ltb i (length cs))) [
    | inl e ↦
        let j = first_non_overlapping_span_index cs i in
        let g = first_non_overlapping-IsGroup cs i ok (ltb→lt i (length cs) e) in
        let (chosen, found, later) =
          >>=-eq-some (resolve_group a cs u i j) (λ c. resolve_from a cs u fuel j (result ++ c))
            {b = r} (rw e at h) in
        resolve_from-Done fuel j (result ++ chosen) ok g.within
          (Done-next i j result chosen g done (resolve_group-Resolved i j ok g found)) later
    | inr e ↦ all-Done i ok le done e (rw e at h)
  ]

  resolve_conflicts-Done :
      {r : List ℕ} → AreCandidates cs → resolve_conflicts a cs u ≡ some r → Done (length cs) r
  unfolding resolve_conflicts
  resolve_conflicts-Done ok h =
      resolve_from-Done (length cs) 0 [] ok (omega arith)
        (record {
          ends = tt;
          compatible = tt;
          ascending = tt;
          settled = λ k lt. absurd (omega arith);
        })
        h

  -- The indices that are returned are candidates, in order.
  pub resolve_conflicts-ascending :
      {r : List ℕ}
      → AreCandidates cs
      → resolve_conflicts a cs u ≡ some r
      → All (λ c. c < length cs) r × Pairwise ◌≤◌ r
  resolve_conflicts-ascending ok h =
      let done = resolve_conflicts-Done ok h in
      (All-map _ _ (λ c e. e.0) _ done.ends, done.ascending)

  -- If the candidates are sorted by their starts and none is empty, no two of the candidates that
  -- `ResolveConflicts` returns overlap while the use case lets their sources conflict.
  pub resolve_conflicts-compatible :
      {r : List ℕ}
      → AreCandidates cs
      → resolve_conflicts a cs u ≡ some r
      → Pairwise (λ c d. clash a cs u c d ≡ false) r
  resolve_conflicts-compatible ok h = (resolve_conflicts-Done ok h).compatible

  -- If the candidates are sorted by their starts, none of them is empty, and the resolution returns a
  -- result, then every candidate is returned, or clashes with one that is returned: the two overlap
  -- while their sources exclude one another.
  pub resolve_conflicts-maximal :
      {r : List ℕ} (k : ℕ)
      → AreCandidates cs
      → resolve_conflicts a cs u ≡ some r
      → k < length cs
      → Settled a cs u r k
  resolve_conflicts-maximal k ok h = (resolve_conflicts-Done ok h).settled k
