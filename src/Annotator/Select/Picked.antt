-- ===== src/Annotator/Select/Picked.antt =====
-- The last loop of `SuggestSelection`: the first candidate by priority that the click meets.
use external_libtextclassifi.Prelude.{
  ℕ, Bool, true, false, List, [], ◌∷◌, some, ◌≡◌, refl, ◌⊎◌, inl, inr, All, Any, Pairwise, All-map,
  Bool-cases, Option-cases, subst, sym,
}
use external_libtextclassifi.Span.{CodepointSpan}
use external_libtextclassifi.Token.{Token}
use external_libtextclassifi.Conflict.{ClassificationResult, AnnotatedSpan, candidate, span_at}
use external_libtextclassifi.Annotator.State.{Context, State, filtered_for_selection}
use external_libtextclassifi.Annotator.Annotate.Settled.{IsScoreOrder}
use external_libtextclassifi.Annotator.Select.{by_priority, selection_class, offer, hits, pick}

module _ {Score : Type 0} (state : State Score) (context : Context) (tokens : List Token)
    (click original : CodepointSpan) (candidates : List (AnnotatedSpan Score)) where
  -- The candidate meets the click, and none that meets it has a greater priority.
  pub record IsBest (indices : List ℕ) (i : ℕ) : Type 0 where
    pub chosen : Any (λ j. j ≡ i) indices
    pub hit : hits state context tokens click original (candidate candidates i) ≡ true
    pub best :
        All
          (λ j.
            hits state context tokens click original (candidate candidates j) ≡ true
            → by_priority state context tokens candidates j i ≡ false)
          indices
    pub class : List (ClassificationResult Score)
    pub classified : selection_class state context tokens (candidate candidates i) ≡ some class
    pub shown : filtered_for_selection state class ≡ false

  abbrev pub Offered : CodepointSpan → ℕ → Type 0
  Offered result i =
      (class : List (ClassificationResult Score)) × (selection_class state context tokens
          (candidate candidates i)
        ≡ some class)
      × (filtered_for_selection state class ≡ false)
      × (result ≡ span_at candidates i)

  offer-Offered :
      (i : ℕ)
      → (offer state context tokens original (candidate candidates i) ≡ original)
        ⊎ Offered (offer state context tokens original (candidate candidates i)) i
  unfolding offer
  offer-Offered i =
      elim (Option-cases (selection_class state context tokens (candidate candidates i))) [
        | inl failed ↦ inl (rw (failed, offer) refl)
        | inr (class, found) ↦ elim (Bool-cases (filtered_for_selection state class)) [
          | inl off ↦ inl (rw (found, off, offer) refl)
          | inr on ↦ inr (class, found, on, rw (found, on, offer) refl)
        ]
      ]

  false-ne-true : {b : Bool} → b ≡ false → b ≡ true → ⊥
  false-ne-true h k = cc

  irreflexive : IsScoreOrder state.ops.greater → (x : Score) → state.ops.greater x x ≡ false
  irreflexive order x = elim (Bool-cases (state.ops.greater x x)) [
    | inl e ↦ order.asymm x x e
    | inr e ↦ e
  ]

  abbrev pub Best : List ℕ → ℕ → Type 0
  Best indices i =
      All
        (λ j.
          hits state context tokens click original (candidate candidates j) ≡ true
          → by_priority state context tokens candidates j i ≡ false)
        indices

  abbrev pub Picks : List ℕ → CodepointSpan → Type 0
  Picks indices result =
      (i : ℕ) × Any (λ j. j ≡ i) indices
      × (hits state context tokens click original (candidate candidates i) ≡ true)
      × Best indices i
      × Offered result i

  abbrev pub PicksOr : List ℕ → CodepointSpan → Type 0
  PicksOr indices result = (result ≡ original) ⊎ Picks indices result

  pick-hit :
      (i : ℕ) (indices : List ℕ)
      → hits state context tokens click original (candidate candidates i) ≡ true
      → pick state context tokens click original candidates (i ∷ indices)
        ≡ offer state context tokens original (candidate candidates i)
  unfolding pick
  pick-hit i indices e = rw (e, pick) refl

  pick-miss :
      (i : ℕ) (indices : List ℕ)
      → hits state context tokens click original (candidate candidates i) ≡ false
      → pick state context tokens click original candidates (i ∷ indices)
        ≡ pick state context tokens click original candidates indices
  unfolding pick
  pick-miss i indices e = rw (e, pick) refl

  pub pick-Picks :
      IsScoreOrder state.ops.greater
      → (indices : List ℕ)
      → Pairwise (λ i j. by_priority state context tokens candidates j i ≡ false) indices
      → PicksOr indices (pick state context tokens click original candidates indices)
  unfolding pick by_priority
  pick-Picks order [] p = inl refl
  pick-Picks order (i ∷ indices) (h, p) =
      elim (Bool-cases (hits state context tokens click original (candidate candidates i))) [
        | inl hit ↦
            subst (PicksOr (i ∷ indices)) (sym (pick-hit i indices hit)) (elim (offer-Offered i) [
              | inl e ↦ inl e
              | inr o ↦ inr (
                i,
                inl refl,
                hit,
                ((λ k. irreflexive order _), All-map _ _ (λ j e k. e) indices h),
                o,
              )
            ])
        | inr miss ↦
            subst (PicksOr (i ∷ indices)) (sym (pick-miss i indices miss))
              (elim (pick-Picks order indices p) [
                | inl e ↦ inl e
                | inr (j, found, hit, best, o) ↦
                    inr (j, inr found, hit, ((λ k. absurd (false-ne-true miss k)), best), o)
              ])
      ]
