-- ===== src/Conflict/Resolve/Greedy.antt =====
-- The greedy loop of `ResolveConflict` places candidates that do not clash.
use external_libtextclassifi.Prelude.{
  ℕ, Bool, true, false, ◌&&◌, List, [], ◌∷◌, ◌++◌, ◌≡◌, refl, inl, inr, arith, All, Pairwise,
  All-append, Pairwise-append, All-map, Bool-cases, subst,
}
use external_libtextclassifi.Span.{spans_overlap, does_candidate_conflict, set_insert}
use external_libtextclassifi.Span.Overlap.{
  IsNonEmpty, Disjoint, IsRow, does_candidate_conflict_sound, set_insert-IsRow, All-set_insert,
}
use external_libtextclassifi.Conflict.{
  Source, other, Usecase, smart, raw, same_source, do_sources_conflict, AnnotatedSpan, Annotator,
  span_at, source_at,
}
use external_libtextclassifi.Conflict.Resolve.{
  SourceSets, Placed, needs_conflict_resolution, has_conflict, place, consider, place_all,
}

abbrev pub nothing_placed : Placed
nothing_placed = record { sets = []; chosen = [] }

-- Only sources that conflict with themselves conflict with any other.
pub do_sources_conflict_self :
    (u : Usecase) (s t : Source)
    → do_sources_conflict u s t ≡ true
    → do_sources_conflict u s s ≡ true
unfolding do_sources_conflict
do_sources_conflict_self smart s t h = refl
do_sources_conflict_self raw other t h = refl
do_sources_conflict_self raw s t h = ground arith

pub do_sources_conflict_symm :
    (u : Usecase) (s t : Source) → do_sources_conflict u s t ≡ do_sources_conflict u t s
unfolding do_sources_conflict
do_sources_conflict_symm smart s t = refl
do_sources_conflict_symm raw other other = refl
do_sources_conflict_symm raw s t = ground arith

pub same_source-eq : (s t : Source) → same_source s t ≡ true → s ≡ t
same_source-eq s t h = ground arith

same_source_refl : (s : Source) → same_source s s ≡ true
same_source_refl s = ground arith

module _ {Score : Type 0} (a : Annotator Score) (cands : List (AnnotatedSpan Score))
    (u : Usecase) where
  -- Two sources may not overlap: the use case resolves conflicts, and they are in conflict.
  abbrev pub exclusive : Source → Source → Bool
  exclusive s t = needs_conflict_resolution a u && do_sources_conflict u s t

  -- The candidates `c` and `x` overlap, and their sources may not.
  abbrev pub clash : ℕ → ℕ → Bool
  clash c x =
      exclusive (source_at cands c) (source_at cands x)
      && spans_overlap (span_at cands x) (span_at cands c)

  pub Clear : ℕ → Source → ℕ → Type 0
  Clear x s c =
      (exclusive s (source_at cands x) && spans_overlap (span_at cands x) (span_at cands c)) ≡ false

  -- No set holds a span that excludes `x`.
  abbrev AllClear : SourceSets → ℕ → Type 0
  AllClear sets x = All (λ e. All (Clear x e.0) e.1) sets

  -- The sets of the sources that exclude themselves are rows of disjoint spans.
  abbrev AreRows : SourceSets → Type 0
  AreRows sets = All (λ e. exclusive e.0 e.0 ≡ true → IsRow (span_at cands) e.1) sets

  exclusive_self : (s t : Source) → exclusive s t ≡ true → exclusive s s ≡ true
  exclusive_self s t h = ground (arith, do_sources_conflict_self u s t)

  not-exclusive-Clear :
      (x : ℕ) (s : Source) (es : List ℕ)
      → exclusive s (source_at cands x) ≡ false
      → All (Clear x s) es
  unfolding Clear
  not-exclusive-Clear x s [] h = tt
  not-exclusive-Clear x s (e ∷ es) h = (rw h refl, not-exclusive-Clear x s es h)

  Disjoint-Clear :
      (x : ℕ) (s : Source) (c : ℕ) → Disjoint (span_at cands x) (span_at cands c) → Clear x s c
  unfolding Clear
  Disjoint-Clear x s c h = ground arith

  Clear-Disjoint :
      (x : ℕ) (s : Source) (c : ℕ)
      → exclusive s (source_at cands x) ≡ true
      → Clear x s c
      → Disjoint (span_at cands x) (span_at cands c)
  unfolding Clear
  Clear-Disjoint x s c e h = rw e at h

  set-Clear :
      (x : ℕ) (s : Source) (set : List ℕ)
      → (exclusive s s ≡ true → IsRow (span_at cands) set)
      → (exclusive s (source_at cands x) && does_candidate_conflict (span_at cands) x set) ≡ false
      → All (Clear x s) set
  set-Clear x s set row h = elim (Bool-cases (exclusive s (source_at cands x))) [
    | inl e ↦
        All-map _ _ (λ c. Disjoint-Clear x s c) set
          (does_candidate_conflict_sound (span_at cands) x set (row (exclusive_self s _ e))
            (rw e at h))
    | inr e ↦ not-exclusive-Clear x s set e
  ]

  has_conflict_step :
      (x : ℕ) (s : Source) (set : List ℕ) (sets : SourceSets)
      → has_conflict a cands u ((s, set) ∷ sets) x ≡ false
      → ((exclusive s (source_at cands x) && does_candidate_conflict (span_at cands) x set) ≡ false)
        × (has_conflict a cands u sets x ≡ false)
  unfolding has_conflict
  has_conflict_step x s set sets h = ground arith

  -- A run of the loop over the sets with no conflict.
  has_conflict-AllClear :
      (x : ℕ) (sets : SourceSets)
      → AreRows sets
      → has_conflict a cands u sets x ≡ false
      → AllClear sets x
  has_conflict-AllClear x [] rows h = tt
  has_conflict-AllClear x ((s, set) ∷ sets) (row, rows) h =
      let (here, later) = has_conflict_step x s set sets h in
      (set-Clear x s set row here, has_conflict-AllClear x sets rows later)

  own_set :
      (x : ℕ) (s : Source) (set : List ℕ)
      → same_source s (source_at cands x) ≡ true
      → exclusive s s ≡ true
      → All (Clear x s) set
      → All (λ c. Disjoint (span_at cands x) (span_at cands c)) set
  own_set x s set e self clear =
      let own = subst (λ t. exclusive s t ≡ true) (same_source-eq s _ e) self in
      All-map _ _ (λ c. Clear-Disjoint x s c own) set clear

  place-AreRows :
      (x : ℕ) (sets : SourceSets)
      → IsNonEmpty (span_at cands x)
      → AreRows sets
      → AllClear sets x
      → AreRows (place a cands sets x)
  unfolding place
  place-AreRows x [] hx rows clear = ((λ _. (hx, tt, tt)), tt)
  place-AreRows x ((s, set) ∷ sets) hx (row, rows) (clear, clears) =
      elim (Bool-cases (same_source s (source_at cands x))) [
        | inl e ↦ rw e (
          (λ self.
              set_insert-IsRow (span_at cands) x set hx (row self) (own_set x s set e self clear)),
          rows,
        )
        | inr e ↦ rw e (row, place-AreRows x sets hx rows clears)
      ]

  Clear-clash :
      (x y : ℕ) (s : Source)
      → same_source s (source_at cands x) ≡ true
      → Clear y s x
      → clash x y ≡ false
  unfolding Clear
  Clear-clash x y s e h =
      subst
        (λ t.
          (exclusive t (source_at cands y) && spans_overlap (span_at cands y) (span_at cands x))
          ≡ false)
        (same_source-eq s _ e) h

  -- Within the set of its own source the new candidate is seen by every later one.
  insert-Clear :
      (x y : ℕ) (s : Source) (set : List ℕ)
      → same_source s (source_at cands x) ≡ true
      → IsNonEmpty (span_at cands x)
      → (exclusive s s ≡ true → IsRow (span_at cands) set)
      → All (Clear x s) set
      → All (Clear y s) (set_insert (span_at cands) x set)
      → Clear y s x × All (Clear y s) set
  insert-Clear x y s set e hx row clear h = elim (Bool-cases (exclusive s (source_at cands y))) [
    | inl used ↦
        let self = exclusive_self s _ used in
        All-set_insert (span_at cands) (Clear y s) x set hx (row self)
          (own_set x s set e self clear) h
    | inr free ↦ (not-exclusive-Clear y s (x ∷ set) free)
  ]

  place-AllClear :
      (x y : ℕ) (sets : SourceSets)
      → IsNonEmpty (span_at cands x)
      → AreRows sets
      → AllClear sets x
      → AllClear (place a cands sets x) y
      → AllClear sets y × (clash x y ≡ false)
  unfolding place
  place-AllClear x y [] hx rows clear h =
      (tt, Clear-clash x y (source_at cands x) (same_source_refl _) h.0.0)
  place-AllClear x y ((s, set) ∷ sets) hx (row, rows) (clear, clears) h =
      elim (Bool-cases (same_source s (source_at cands x))) [
        | inl e ↦
            let (here, later) = rw e at h in
            let (new, old) = insert-Clear x y s set e hx row clear here in
            ((old, later), Clear-clash x y s e new)
        | inr e ↦
            let (here, later) = rw e at h in
            let (old, new) = place-AllClear x y sets hx rows clears later in ((here, old), new)
      ]

  -- The state of the loop: what is clear of the sets clashes with no chosen candidate.
  record IsGuarded (p : Placed) : Type 0 where
    rows : AreRows p.sets
    guards : (x : ℕ) → AllClear p.sets x → All (λ c. clash c x ≡ false) p.chosen
    compatible : Pairwise (λ c d. clash c d ≡ false) p.chosen

  place-IsGuarded :
      (p : Placed) (x : ℕ)
      → IsNonEmpty (span_at cands x)
      → IsGuarded p
      → has_conflict a cands u p.sets x ≡ false
      → IsGuarded (record { sets = place a cands p.sets x; chosen = p.chosen ++ x ∷ [] })
  place-IsGuarded p x hx g free =
      let clear = has_conflict-AllClear x p.sets g.rows free in
      record {
        rows = place-AreRows x p.sets hx g.rows clear;
        guards = λ y h.
            let (old, new) = place-AllClear x y p.sets hx g.rows clear h in
            All-append _ p.chosen (x ∷ []) (g.guards y old) (new, tt);
        compatible =
            Pairwise-append _ p.chosen (x ∷ []) g.compatible (tt, tt)
              (All-map _ _ (λ c h. (h, tt)) p.chosen (g.guards x clear));
      }

  consider-IsGuarded :
      (p : Placed) (x : ℕ)
      → IsNonEmpty (span_at cands x)
      → IsGuarded p
      → IsGuarded (consider a cands u p x)
  unfolding consider
  consider-IsGuarded p x hx g = elim (Bool-cases (has_conflict a cands u p.sets x)) [
    | inl e ↦ rw e g
    | inr e ↦ rw e (place-IsGuarded p x hx g e)
  ]

  place_all-IsGuarded :
      (indices : List ℕ) (p : Placed)
      → All (λ i. IsNonEmpty (span_at cands i)) indices
      → IsGuarded p
      → IsGuarded (place_all a cands u indices p)
  unfolding place_all
  place_all-IsGuarded [] p h g = g
  place_all-IsGuarded (i ∷ indices) p (h, hs) g =
      place_all-IsGuarded indices (consider a cands u p i) hs (consider-IsGuarded p i h g)

  -- Candidates that the greedy loop places do not clash, in whatever order it considers them.
  pub place_all-compatible :
      (indices : List ℕ)
      → All (λ i. IsNonEmpty (span_at cands i)) indices
      → Pairwise (λ c d. clash c d ≡ false) (place_all a cands u indices nothing_placed).chosen
  place_all-compatible indices h =
      (place_all-IsGuarded indices nothing_placed h
        (record { rows = tt; guards = λ x _. tt; compatible = tt })).compatible
