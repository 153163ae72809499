-- ===== src/Actions/Ngrams/Matches.antt =====
-- `IsNGramMatch` against occurrences of an n-gram with gaps.
use external_libtextclassifi.Prelude.{
  ℕ, zero, suc, true, List, [], ◌∷◌, ◌≡◌, arith, Bool-cases, inl, inr, ◌==◌, subst,
}
use external_libtextclassifi.Actions.Ngrams.{match_from, is_ngram_match}

-- The n-gram occurs at the start of the tokens: before its first token at most `k` tokens are passed
-- over, and before each further one at most `max_skips`.
pub data Occurs (max_skips : ℕ) : ℕ → List ℕ → List ℕ → Type 0 where
  ended : {k : ℕ} {tokens : List ℕ} → Occurs max_skips k tokens []
  taken :
      {k g : ℕ} {tokens ngram : List ℕ}
      → Occurs max_skips max_skips tokens ngram
      → Occurs max_skips k (g ∷ tokens) (g ∷ ngram)
  skipped :
      {k t : ℕ} {tokens ngram : List ℕ}
      → Occurs max_skips k tokens ngram
      → Occurs max_skips (suc k) (t ∷ tokens) ngram

module _ (max_skips : ℕ) where
  taken_here :
      {k : ℕ} (t g : ℕ) (tokens ngram : List ℕ)
      → (t == g) ≡ true
      → Occurs max_skips max_skips tokens ngram
      → Occurs max_skips k (t ∷ tokens) (g ∷ ngram)
  taken_here {k} t g tokens ngram e o =
      let same : g ≡ t = ground arith in
      subst (λ x. Occurs max_skips k (x ∷ tokens) (g ∷ ngram)) same (taken o)

  match_from-Occurs :
      (tokens ngram : List ℕ) (k : ℕ)
      → match_from max_skips tokens ngram k ≡ true
      → Occurs max_skips k tokens ngram
  unfolding match_from
  match_from-Occurs tokens [] k h = ended
  match_from-Occurs [] (g ∷ ngram) k h = cc
  match_from-Occurs (t ∷ tokens) (g ∷ ngram) zero h = elim (Bool-cases (t == g)) [
    | inl e ↦
        let rest : match_from max_skips tokens ngram max_skips ≡ true = ground arith in
        taken_here t g tokens ngram e (match_from-Occurs tokens ngram max_skips rest)
    | inr e ↦ absurd (ground arith)
  ]
  match_from-Occurs (t ∷ tokens) (g ∷ ngram) (suc k) h = elim (Bool-cases (t == g)) [
    | inl e ↦
        let rest : match_from max_skips tokens ngram max_skips ≡ true = ground arith in
        taken_here t g tokens ngram e (match_from-Occurs tokens ngram max_skips rest)
    | inr e ↦
        let rest : match_from max_skips tokens (g ∷ ngram) k ≡ true = ground arith in
        skipped (match_from-Occurs tokens (g ∷ ngram) k rest)
  ]

  -- A match is an occurrence of the n-gram at the first token, in which at most `max_skips` tokens
  -- are passed over before each further token of the n-gram.
  pub is_ngram_match-Occurs :
      (tokens ngram : List ℕ)
      → is_ngram_match max_skips tokens ngram ≡ true
      → Occurs max_skips 0 tokens ngram
  unfolding is_ngram_match
  is_ngram_match-Occurs tokens ngram h = match_from-Occurs tokens ngram 0 h
