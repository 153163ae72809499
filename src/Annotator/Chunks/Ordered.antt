-- ===== src/Annotator/Chunks/Ordered.antt =====
-- `ModelChunk` returns its chunks in the order of the tokens.
use external_libtextclassifi.Prelude.{
  ◌≤◌, ◌<◌, Bool, true, false, List, [], ◌∷◌, ◌≡◌, ◌⊎◌, inl, inr, arith, All, Pairwise, All-map,
  All-sort, All-of_sort, Any-sort, All-insert_sorted, Bool-cases, ltb, sort, insert_sorted,
}
use external_libtextclassifi.Annotator.Candidates.{TokenRange, ScoredChunk, token_spans}
use external_libtextclassifi.Annotator.Chunks.{span_less, by_score, select_chunks}
use external_libtextclassifi.Annotator.Chunks.Greedy.{
  Disjoint, Overlap, Settled, IsInside, pick_chunks-IsPicked,
}

-- The one chunk ends before the other begins.
abbrev pub Before : TokenRange → TokenRange → Type 0
Before c d = c.second ≤ d.first

abbrev HasToken : TokenRange → Type 0
HasToken c = c.first < c.second

Before-of_Disjoint : (c d : TokenRange) → c.first ≤ d.first → HasToken d → Disjoint c d → Before c d
Before-of_Disjoint c d le ne h = elim (Bool-cases (ltb d.first c.second)) [
  | inl e ↦ absurd (h d.first (le, ground arith) (omega arith, ne))
  | inr e ↦ ground arith
]

less_first : (c d : TokenRange) → span_less c d ≡ true → c.first ≤ d.first
unfolding span_less
less_first c d h = ground arith

not_less_first : (c d : TokenRange) → span_less c d ≡ false → d.first ≤ c.first
unfolding span_less
not_less_first c d h = ground arith

insert_sorted-Before :
    (c : TokenRange) (cs : List TokenRange)
    → HasToken c
    → All HasToken cs
    → All (Disjoint c) cs
    → Pairwise Before cs
    → Pairwise Before (insert_sorted span_less c cs)
unfolding insert_sorted
insert_sorted-Before c [] ne nes h p = (tt, tt)
insert_sorted-Before c (d ∷ cs) ne (ned, nes) (h, hs) (pd, ps) = elim (Bool-cases (span_less c d)) [
  | inl e ↦
      let first : Before c d = Before-of_Disjoint c d (less_first c d e) ned h in
      rw e ((first, All-map _ _ (λ x b. omega arith) cs pd), (pd, ps))
  | inr e ↦
      let first : Before d c =
        Before-of_Disjoint d c (not_less_first c d e) ne (λ i a b. h i b a) in
      rw e (
        All-insert_sorted span_less (Before d) c cs first pd,
        insert_sorted-Before c cs ne nes hs ps,
      )
]

sort-Before :
    (cs : List TokenRange)
    → All HasToken cs
    → Pairwise Disjoint cs
    → Pairwise Before (sort span_less cs)
unfolding sort
sort-Before [] ne p = tt
sort-Before (c ∷ cs) (ne, nes) (h, p) =
    insert_sorted-Before c (sort span_less cs) ne (All-sort span_less HasToken cs nes)
      (All-sort span_less (Disjoint c) cs h) (sort-Before cs nes p)

module _ {Score : Type 0} (greater : Score → Score → Bool) (span : TokenRange) where
  pub token_spans-All :
      (P : TokenRange → Type 0) (cs : List (ScoredChunk Score))
      → All (λ c. P c.token_span) cs
      → All P (token_spans cs)
  unfolding token_spans
  token_spans-All P [] h = tt
  token_spans-All P (c ∷ cs) (h, hs) = (h, token_spans-All P cs hs)

  pub All-token_spans :
      (P : TokenRange → Type 0) (cs : List (ScoredChunk Score))
      → All P (token_spans cs)
      → All (λ c. P c.token_span) cs
  unfolding token_spans
  All-token_spans P [] h = tt
  All-token_spans P (c ∷ cs) (h, hs) = (h, All-token_spans P cs hs)

  -- The chunks of `ModelChunk`: in order, inside, and as many as fit.
  pub record AreChunks (scored : List (ScoredChunk Score)) (chunks : List TokenRange) : Type 0 where
    pub ordered : Pairwise Before chunks
    pub inside : All (IsInside span) chunks
    pub settled : All (λ c. Settled c.token_span chunks) scored

  -- If every scored chunk has a token and stays inside the inference span, then the chunks that are
  -- selected come one behind the other, have a token and stay inside; and each scored chunk is
  -- selected or shares a token with a selected one.
  pub select_chunks-AreChunks :
      (scored : List (ScoredChunk Score))
      → All (λ c. IsInside span c.token_span) scored
      → AreChunks scored (select_chunks greater span scored)
  unfolding select_chunks
  select_chunks-AreChunks scored h =
      let sorted = sort (by_score greater) scored in
      let spans_inside =
        token_spans-All (IsInside span) sorted
          (All-sort (by_score greater) (λ c. IsInside span c.token_span) scored h) in
      let picked = pick_chunks-IsPicked span (token_spans sorted) spans_inside in
      record {
        ordered =
            sort-Before _ (All-map (IsInside span) HasToken (λ c i. i.1) _ picked.inside)
              picked.disjoint;
        inside = All-sort span_less (IsInside span) _ picked.inside;
        settled = All-of_sort (by_score greater) _ scored (
            All-token_spans _ sorted (
              All-map _ _ (λ s a. Any-sort span_less (λ c. (c ≡ s) ⊎ Overlap c s) _ a)
                (token_spans sorted) picked.settled));
      }
