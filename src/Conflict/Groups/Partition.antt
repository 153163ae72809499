-- ===== src/Conflict/Groups/Partition.antt =====
-- The groups that `FirstNonOverlappingSpanIndex` finds do not overlap what follows them.
use native.Mathlib.Decide.{ℕ_discrete}
use external_libtextclassifi.Prelude.{
  ℕ, zero, suc, ◌+◌, ◌-◌, ◌≤◌, ◌<◌, ℤ, ◌≤ℤ◌, ◌<ℤ◌, max_ℤ, List, [], ◌∷◌, arith, All, length, get_or,
  Bool-cases, inl, inr, subst,
}
use external_libtextclassifi.Span.{CodepointSpan, spans_overlap}
use external_libtextclassifi.Span.Overlap.{IsNonEmpty, Disjoint}
use external_libtextclassifi.Conflict.{AnnotatedSpan, span_at, default_span}
use external_libtextclassifi.Conflict.Groups.{grow_group, first_non_overlapping_span_index}

module _ {Score : Type 0} where
  -- Sorted by the starts, and no span is empty.
  abbrev pub AreCandidates : List (AnnotatedSpan Score) → Type 0
  AreCandidates [] = Unit
  AreCandidates (c ∷ cs) =
      IsNonEmpty c.span × All (λ d. c.span.first ≤ℤ d.span.first) cs × AreCandidates cs

  pub All-get_or :
      (P : AnnotatedSpan Score → Type 0) (cs : List (AnnotatedSpan Score)) (i : ℕ)
      → All P cs
      → i < length cs
      → P (get_or cs i default_span)
  All-get_or P [] i h lt = absurd (omega arith)
  All-get_or P (c ∷ cs) zero h lt = h.0
  All-get_or P (c ∷ cs) (suc i) h lt = All-get_or P cs i h.1 (omega arith)

  pub candidates-IsNonEmpty :
      (cs : List (AnnotatedSpan Score)) (i : ℕ)
      → AreCandidates cs
      → i < length cs
      → IsNonEmpty (span_at cs i)
  candidates-IsNonEmpty [] i h lt = absurd (omega arith)
  candidates-IsNonEmpty (c ∷ cs) zero h lt = h.0
  candidates-IsNonEmpty (c ∷ cs) (suc i) h lt = candidates-IsNonEmpty cs i h.2 (omega arith)

  pub candidates_sorted :
      (cs : List (AnnotatedSpan Score)) (i j : ℕ)
      → AreCandidates cs
      → i ≤ j
      → j < length cs
      → (span_at cs i).first ≤ℤ (span_at cs j).first
  candidates_sorted [] i j h le lt = absurd (omega arith)
  candidates_sorted (c ∷ cs) zero zero h le lt = omega arith
  candidates_sorted (c ∷ cs) zero (suc j) h le lt =
      All-get_or (λ d. c.span.first ≤ℤ d.span.first) cs j h.1 (omega arith)
  candidates_sorted (c ∷ cs) (suc i) zero h le lt = absurd (omega arith)
  candidates_sorted (c ∷ cs) (suc i) (suc j) h le lt =
      candidates_sorted cs i j h.2 (omega arith) (omega arith)

≤ℤ_trans : (a b c : ℤ) → a ≤ℤ b → b ≤ℤ c → a ≤ℤ c
≤ℤ_trans a b c h k = omega arith

module _ {Score : Type 0} (cs : List (AnnotatedSpan Score)) where
  -- What the loop has found when it stops at `j`: the end of all spans before `j`.
  record Grown (n k : ℕ) (s : CodepointSpan) (j : ℕ) : Type 0 where
    end : ℤ
    le_end : s.second ≤ℤ end
    from : k ≤ j
    to : j ≤ k + n
    covered : (i : ℕ) → k ≤ i → i < j → (span_at cs i).second ≤ℤ end
    stopped : j < k + n → Disjoint (record { first = s.first; second = end }) (span_at cs j)

  le-max_ℤ : (a b : ℤ) → (a ≤ℤ max_ℤ a b) × (b ≤ℤ max_ℤ a b)
  le-max_ℤ a b = ground arith

  Grown-step :
      (n k : ℕ) (s : CodepointSpan) (j : ℕ)
      → Grown n (suc k) (record s { second = max_ℤ s.second (span_at cs k).second }) j
      → Grown (suc n) k s j
  Grown-step n k s j g =
      let (left, right) = le-max_ℤ s.second (span_at cs k).second in
      let reach = g.le_end in
      record {
        end = g.end;
        le_end = ≤ℤ_trans s.second _ g.end left reach;
        from = omega (arith, g.from);
        to = omega (arith, g.to);
        covered = λ i lo hi. elim (ℕ_discrete k i) [
          | yes e ↦ subst (λ x. (span_at cs x).second ≤ℤ g.end) e (≤ℤ_trans _ _ g.end right reach)
          | no e ↦ g.covered i (omega arith) hi
        ];
        stopped = λ lt. g.stopped (omega arith);
      }

  grow_group-Grown : (n k : ℕ) (s : CodepointSpan) → Grown n k s (grow_group cs n k s)
  unfolding grow_group
  grow_group-Grown zero k s = record {
    end = s.second;
    le_end = omega arith;
    from = omega arith;
    to = omega arith;
    covered = λ i lo hi. absurd (omega arith);
    stopped = λ lt. absurd (omega arith);
  }
  grow_group-Grown (suc n) k s = elim (Bool-cases (spans_overlap s (span_at cs k))) [
    | inl e ↦
        let s' : CodepointSpan = record s { second = max_ℤ s.second (span_at cs k).second } in
        let g = grow_group-Grown n (suc k) s' in rw e (Grown-step n k s _ g)
    | inr e ↦ rw e (record {
      end = s.second;
      le_end = omega arith;
      from = omega arith;
      to = omega arith;
      covered = λ i lo hi. absurd (omega arith);
      stopped = λ lt. e;
    })
  ]

  -- The group of a candidate holds it, and ends before what follows it begins.
  pub record IsGroup (i j : ℕ) : Type 0 where
    pub grows : i < j
    pub within : j ≤ length cs
    pub apart :
        (c d : ℕ)
        → c < j
        → i ≤ c
        → j ≤ d
        → d < length cs
        → (span_at cs c).second ≤ℤ (span_at cs d).first

  group_end :
      (f m s e d : ℤ)
      → Disjoint (record { first = f; second = m }) (record { first = s; second = e })
      → f ≤ℤ s
      → (s <ℤ e)
      → s ≤ℤ d
      → m ≤ℤ d
  unfolding spans_overlap
  group_end f m s e d h le n k = ground arith

  pub first_non_overlapping-IsGroup :
      (i : ℕ) → AreCandidates cs → i < length cs → IsGroup i (first_non_overlapping_span_index cs i)
  unfolding first_non_overlapping_span_index
  first_non_overlapping-IsGroup i ok lt =
      let s = span_at cs i in
      let j = grow_group cs (length cs - suc i) (suc i) s in
      let g = grow_group-Grown (length cs - suc i) (suc i) s in
      record {
        grows = g.from;
        within = omega (arith, g.to);
        apart = λ c d hi lo le ld.
            let jd : j < length cs = omega arith in
            let past =
              group_end s.first g.end (span_at cs j).first (span_at cs j).second
                (span_at cs d).first (g.stopped (omega arith))
                (candidates_sorted cs i j ok (omega (arith, g.from)) jd)
                (candidates-IsNonEmpty cs j ok jd) (candidates_sorted cs j d ok le ld) in
            elim (ℕ_discrete i c) [
              | yes e ↦
                  ≤ℤ_trans (span_at cs c).second g.end _
                    (subst (λ x. (span_at cs x).second ≤ℤ g.end) e g.le_end) past
              | no e ↦ ≤ℤ_trans (span_at cs c).second g.end _ (g.covered c (omega arith) hi) past
            ];
      }
