-- ===== src/Conflict/Resolve/Maximal.antt =====
-- The greedy loop of `ResolveConflict` leaves out only candidates that clash with a chosen one.
use external_libtextclassifi.Prelude.{
  ℕ, true, List, [], ◌∷◌, ◌++◌, ◌≡◌, refl, sym, ◌⊎◌, inl, inr, arith, All, Any, All-map, Any-map,
  Any-append_left, Any-append_right, Bool-cases, subst,
}
use external_libtextclassifi.Span.{spans_overlap, does_candidate_conflict}
use external_libtextclassifi.Span.Overlap.{does_candidate_conflict_complete, set_insert-All}
use external_libtextclassifi.Conflict.{
  Source, Usecase, same_source, AnnotatedSpan, Annotator, span_at, source_at,
}
use external_libtextclassifi.Conflict.Resolve.{
  SourceSets, Placed, has_conflict, place, consider, place_all,
}
use external_libtextclassifi.Conflict.Resolve.Greedy.{
  exclusive, clash, nothing_placed, same_source-eq,
}

module _ {Score : Type 0} (a : Annotator Score) (cands : List (AnnotatedSpan Score))
    (u : Usecase) where
  -- The candidate was chosen, or it clashes with a chosen one.
  abbrev pub Settled : List ℕ → ℕ → Type 0
  Settled chosen x = Any (λ c. (c ≡ x) ⊎ (clash a cands u c x ≡ true)) chosen

  -- The sets hold chosen candidates, under their own sources.
  abbrev pub Backed : List ℕ → SourceSets → Type 0
  Backed chosen sets =
      All (λ e. All (λ c. (source_at cands c ≡ e.0) × Any (λ d. d ≡ c) chosen) e.1) sets

  overlap-Settled :
      (x : ℕ) (s : Source) (chosen set : List ℕ)
      → exclusive a cands u s (source_at cands x) ≡ true
      → All (λ c. (source_at cands c ≡ s) × Any (λ d. d ≡ c) chosen) set
      → Any (λ c. spans_overlap (span_at cands x) (span_at cands c) ≡ true) set
      → Settled chosen x
  overlap-Settled x s chosen [] e b h = absurd h
  overlap-Settled x s chosen (c ∷ set) e ((own, found), b) (inl o) =
      Any-map _ _
        (λ d same. inr (subst (λ k. clash a cands u k x ≡ true) (sym same) (rw (own, e) o))) chosen
        found
  overlap-Settled x s chosen (c ∷ set) e (_, b) (inr h) = overlap-Settled x s chosen set e b h

  pub has_conflict-Settled :
      (x : ℕ) (chosen : List ℕ) (sets : SourceSets)
      → Backed chosen sets
      → has_conflict a cands u sets x ≡ true
      → Settled chosen x
  unfolding has_conflict
  has_conflict-Settled x chosen [] b h = cc
  has_conflict-Settled x chosen ((s, set) ∷ sets) (b, bs) h =
      elim (Bool-cases (exclusive a cands u s (source_at cands x))) [
        | inl e ↦ elim (Bool-cases (does_candidate_conflict (span_at cands) x set)) [
          | inl d ↦
              overlap-Settled x s chosen set e b
                (does_candidate_conflict_complete (span_at cands) x set d)
          | inr d ↦ has_conflict-Settled x chosen sets bs (ground arith)
        ]
        | inr e ↦ has_conflict-Settled x chosen sets bs (ground arith)
      ]

  place-Backed :
      (x : ℕ) (chosen : List ℕ) (sets : SourceSets)
      → Any (λ d. d ≡ x) chosen
      → Backed chosen sets
      → Backed chosen (place a cands sets x)
  unfolding place
  place-Backed x chosen [] here b = (((refl, here), tt), tt)
  place-Backed x chosen ((s, set) ∷ sets) here (b, bs) =
      elim (Bool-cases (same_source s (source_at cands x))) [
        | inl e ↦
            rw e (set_insert-All (span_at cands) _ x set (sym (same_source-eq s _ e), here) b, bs)
        | inr e ↦ rw e (b, place-Backed x chosen sets here bs)
      ]

  Backed-append :
      (x : ℕ) (chosen : List ℕ) (sets : SourceSets)
      → Backed chosen sets
      → Backed (chosen ++ x ∷ []) sets
  Backed-append x chosen sets =
      All-map _ _ (λ e. All-map _ _ (λ c b. (b.0, Any-append_left _ chosen (x ∷ []) b.1)) e.1) sets

  -- What is settled stays so, when the list of the chosen grows.
  consider-Settled :
      (x i : ℕ) (p : Placed) → Settled p.chosen x → Settled (consider a cands u p i).chosen x
  unfolding consider
  consider-Settled x i p h = elim (Bool-cases (has_conflict a cands u p.sets i)) [
    | inl e ↦ rw e h
    | inr e ↦ rw e (Any-append_left _ p.chosen (i ∷ []) h)
  ]

  consider_settles :
      (i : ℕ) (p : Placed) → Backed p.chosen p.sets → Settled (consider a cands u p i).chosen i
  unfolding consider
  consider_settles i p b = elim (Bool-cases (has_conflict a cands u p.sets i)) [
    | inl e ↦ rw e (has_conflict-Settled i p.chosen p.sets b e)
    | inr e ↦ rw e (Any-append_right _ p.chosen (i ∷ []) (inl (inl refl)))
  ]

  pub consider-Backed :
      (i : ℕ) (p : Placed)
      → Backed p.chosen p.sets
      → Backed (consider a cands u p i).chosen (consider a cands u p i).sets
  unfolding consider
  consider-Backed i p b = elim (Bool-cases (has_conflict a cands u p.sets i)) [
    | inl e ↦ rw e b
    | inr e ↦ rw e (
        place-Backed i (p.chosen ++ i ∷ []) p.sets (Any-append_right _ p.chosen (i ∷ []) (inl refl))
          (Backed-append i p.chosen p.sets b))
  ]

  place_all-Settled :
      (x : ℕ) (indices : List ℕ) (p : Placed)
      → Settled p.chosen x
      → Settled (place_all a cands u indices p).chosen x
  unfolding place_all
  place_all-Settled x [] p h = h
  place_all-Settled x (i ∷ indices) p h = place_all-Settled x indices _ (consider-Settled x i p h)

  place_all_settles :
      (indices : List ℕ) (p : Placed)
      → Backed p.chosen p.sets
      → All (Settled (place_all a cands u indices p).chosen) indices
  unfolding place_all
  place_all_settles [] p b = tt
  place_all_settles (i ∷ indices) p b =
      let p' = consider a cands u p i in
      (
        place_all-Settled i indices p' (consider_settles i p b),
        place_all_settles indices p' (consider-Backed i p b),
      )

  -- The considered candidates are all settled at the end.
  pub place_all-maximal :
      (indices : List ℕ) → All (Settled (place_all a cands u indices nothing_placed).chosen) indices
  place_all-maximal indices = place_all_settles indices nothing_placed tt
