-- ===== src/Annotator/Chunks/Greedy.antt =====
-- The greedy loop of `ModelChunk`: the picked chunks share no token, and a chunk that is not picked
-- shares one with a picked chunk.
use external_libtextclassifi.Prelude.{
  ℕ, ◌+◌, ◌-◌, ◌≤◌, ◌<◌, true, false, List, [], ◌∷◌, ◌++◌, ◌≡◌, refl, sym, ◌∙◌, ◌⊎◌, inl, inr,
  arith, All, Any, Pairwise, All-append, Any-append_left, Any-append_right, Any-map,
  Pairwise-append, Bool-cases, length, get_or, replicate, length-replicate,
}
use external_libtextclassifi.Annotator.Candidates.{TokenRange}
use external_libtextclassifi.Annotator.Chunks.{any_used, mark_used, Picked, pick_chunk, pick_chunks}
use external_libtextclassifi.Annotator.Chunks.Marks.{
  length-mark_used, mark_used_keeps, mark_used_marks, mark_used_only, any_used_sound,
  any_used_clear, get_or-replicate,
}

-- The token is in the chunk.
abbrev pub In : ℕ → TokenRange → Type 0
In i c = (c.first ≤ i) × (i < c.second)

abbrev pub Disjoint : TokenRange → TokenRange → Type 0
Disjoint c d = (i : ℕ) → In i c → In i d → ⊥

abbrev pub Overlap : TokenRange → TokenRange → Type 0
Overlap c d = (i : ℕ) × In i c × In i d

-- The chunk was picked, or it shares a token with a picked one.
abbrev pub Settled : TokenRange → List TokenRange → Type 0
Settled s chunks = Any (λ c. (c ≡ s) ⊎ Overlap c s) chunks

module _ (span : TokenRange) where
  -- The chunk has a token and stays in the inference span.
  abbrev pub IsInside : TokenRange → Type 0
  IsInside c = (span.first ≤ c.first) × (c.first < c.second) × (c.second ≤ span.second)

  record IsMarked (p : Picked) : Type 0 where
    size : length p.token_used ≡ span.second - span.first
    marked : (i : ℕ) → Any (In i) p.chunks → get_or p.token_used (i - span.first) false ≡ true
    backed : (k : ℕ) → get_or p.token_used k false ≡ true → Any (In (span.first + k)) p.chunks
    disjoint : Pairwise Disjoint p.chunks
    inside : All IsInside p.chunks

  Any-witness :
      (i : ℕ) (s : TokenRange) (chunks : List TokenRange)
      → In i s
      → Any (In i) chunks
      → Settled s chunks
  Any-witness i s chunks h a = Any-map _ _ (λ c on. inr (i, on, h)) chunks a

  All-Disjoint :
      (s : TokenRange) (chunks : List TokenRange)
      → ((i : ℕ) → In i s → Any (In i) chunks → ⊥)
      → All (λ c. All (Disjoint c) (s ∷ [])) chunks
  All-Disjoint s [] h = tt
  All-Disjoint s (c ∷ chunks) h =
      (((λ i hc hs. h i hs (inl hc)), tt), All-Disjoint s chunks (λ i hs a. h i hs (inr a)))

  Any-In-append :
      (i : ℕ) (s : TokenRange) (chunks : List TokenRange)
      → Any (In i) (chunks ++ s ∷ [])
      → Any (In i) chunks ⊎ In i s
  Any-In-append i s [] (inl h) = inr h
  Any-In-append i s [] (inr h) = absurd h
  Any-In-append i s (c ∷ chunks) (inl h) = inl (inl h)
  Any-In-append i s (c ∷ chunks) (inr h) = elim (Any-In-append i s chunks h) [
    | inl a ↦ inl (inr a)
    | inr b ↦ inr b
  ]

  picked-IsMarked :
      (s : TokenRange) (p : Picked)
      → IsInside s
      → any_used p.token_used (s.second - s.first) (s.first - span.first) ≡ false
      → IsMarked p
      → IsMarked (record {
        token_used = mark_used p.token_used (s.second - s.first) (s.first - span.first);
        chunks = p.chunks ++ s ∷ [];
      })
  picked-IsMarked s p (lo, ne, hi) clear m =
      let n = s.second - s.first in
      let at = s.first - span.first in
      record {
        size = length-mark_used p.token_used n at ∙ m.size;
        marked = λ i a. elim (Any-In-append i s p.chunks a) [
          | inl old ↦ mark_used_keeps p.token_used n at (i - span.first) (m.marked i old)
          | inr new ↦
              mark_used_marks p.token_used n at (i - span.first) (omega (arith, new))
                (omega (arith, new)) (omega (arith, new, m.size))
        ];
        backed = λ k h. elim (mark_used_only p.token_used n at k h) [
          | inl old ↦ Any-append_left (In (span.first + k)) p.chunks (s ∷ []) (m.backed k old)
          | inr new ↦
              Any-append_right (In (span.first + k)) p.chunks (s ∷ [])
                (inl (omega (arith, new), omega (arith, new)))
        ];
        disjoint =
            Pairwise-append Disjoint p.chunks (s ∷ []) m.disjoint (tt, tt)
              (All-Disjoint s p.chunks (λ i hs a. clash (
                sym (
                  any_used_clear p.token_used n at (i - span.first) clear (omega (arith, hs))
                    (omega (arith, hs)))
                ∙ m.marked i a)));
        inside = All-append IsInside p.chunks (s ∷ []) m.inside ((lo, ne, hi), tt);
      }
    where
      clash : false ≡ true → ⊥
      clash h = cc

  pick_chunk-IsMarked :
      (s : TokenRange) (p : Picked)
      → IsInside s
      → IsMarked p
      → IsMarked (pick_chunk span.first s p) × Settled s (pick_chunk span.first s p).chunks
  unfolding pick_chunk
  pick_chunk-IsMarked s p (lo, ne, hi) m =
      elim (Bool-cases (any_used p.token_used (s.second - s.first) (s.first - span.first))) [
        | inl e ↦
            let (k, range, used) = any_used_sound p.token_used _ _ e in
            rw e (
              m,
              Any-witness (span.first + k) s p.chunks (omega (arith, range), omega (arith, range))
                  (m.backed k used),
            )
        | inr e ↦ rw e (
          picked-IsMarked s p (lo, ne, hi) e m,
          Any-append_right _ p.chunks (s ∷ []) (inl (inl refl)),
        )
      ]

  pick_chunk_keeps :
      (t s : TokenRange) (p : Picked)
      → Settled t p.chunks
      → Settled t (pick_chunk span.first s p).chunks
  unfolding pick_chunk
  pick_chunk_keeps t s p h =
      elim (Bool-cases (any_used p.token_used (s.second - s.first) (s.first - span.first))) [
        | inl e ↦ rw e h
        | inr e ↦ rw e (Any-append_left _ p.chunks (s ∷ []) h)
      ]

  pick_chunks_keeps :
      (t : TokenRange) (spans : List TokenRange) (p : Picked)
      → Settled t p.chunks
      → Settled t (pick_chunks span.first spans p).chunks
  unfolding pick_chunks
  pick_chunks_keeps t [] p h = h
  pick_chunks_keeps t (s ∷ spans) p h = pick_chunks_keeps t spans _ (pick_chunk_keeps t s p h)

  pick_chunks-IsMarked :
      (spans : List TokenRange) (p : Picked)
      → All IsInside spans
      → IsMarked p
      → IsMarked (pick_chunks span.first spans p)
        × All (λ s. Settled s (pick_chunks span.first spans p).chunks) spans
  unfolding pick_chunks
  pick_chunks-IsMarked [] p h m = (m, tt)
  pick_chunks-IsMarked (s ∷ spans) p (h, hs) m =
      let (m', settled) = pick_chunk-IsMarked s p h m in
      let (m'', rest) = pick_chunks-IsMarked spans (pick_chunk span.first s p) hs m' in
      (m'', (pick_chunks_keeps s spans _ settled, rest))

  -- What the loop leaves, from an array of no marks.
  pub record IsPicked (spans chunks : List TokenRange) : Type 0 where
    pub disjoint : Pairwise Disjoint chunks
    pub inside : All IsInside chunks
    pub settled : All (λ s. Settled s chunks) spans

  pub pick_chunks-IsPicked :
      (spans : List TokenRange)
      → All IsInside spans
      → IsPicked spans
          (pick_chunks span.first spans (record {
            token_used = replicate (span.second - span.first) false;
            chunks = [];
          })).chunks
  pick_chunks-IsPicked spans h =
      let (m, settled) = pick_chunks-IsMarked spans _ h (record {
        size = length-replicate (span.second - span.first) false;
        marked = λ i a. absurd a;
        backed = λ k e. cc (get_or-replicate (span.second - span.first) k);
        disjoint = tt;
        inside = tt;
      }) in
      record { disjoint = m.disjoint; inside = m.inside; settled = settled }
