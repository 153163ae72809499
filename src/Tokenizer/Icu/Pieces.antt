-- ===== src/Tokenizer/Icu/Pieces.antt =====
-- `ICUTokenize`: the tokens are the pieces of the text between the breaks.
use external_libtextclassifi.Prelude.{
  ℕ, ◌+◌, ◌-◌, ◌≤◌, pos, true, not, ◌||◌, List, [], ◌∷◌, ◌++◌, ◌≡◌, refl, sym, ap, ◌∙◌, arith, All,
  Pairwise, All-append, All-map, Pairwise-append, Bool-cases, inl, inr, length, append_assoc,
  append-nil, take, drop, take-append-drop, drop-drop, subst, some,
}
use external_libtextclassifi.Text.{UnicodeText, substring}
use external_libtextclassifi.Token.{Token}
use external_libtextclassifi.Tokenizer.Spelling.{spell, spell-append, Precedes}
use external_libtextclassifi.Tokenizer.Icu.{
  Tokenizer, is_whitespace_token, icu_token, icu_loop, icu_tokenize,
}

-- Breaks that do not fall, from `last` up to `n`.
abbrev pub AreBreaks : ℕ → List ℕ → ℕ → Type 0
AreBreaks last [] n = last ≡ n
AreBreaks last (b ∷ breaks) n = (last ≤ b) × AreBreaks b breaks n

-- The token is a piece of the text, and ends by `bound`.
pub record IsPiece (text : UnicodeText) (bound : ℕ) (t : Token) : Type 0 where
  pub a : ℕ
  pub b : ℕ
  pub start_at : t.start ≡ pos a
  pub end_at : t.end ≡ pos b
  pub ordered : a ≤ b
  pub within : b ≤ bound
  pub value_at : t.value ≡ substring text a b

IsPiece-later :
    {text : UnicodeText} {m n : ℕ} (t : Token) → m ≤ n → IsPiece text m t → IsPiece text n t
IsPiece-later t le p = record {
  a = p.a;
  b = p.b;
  start_at = p.start_at;
  end_at = p.end_at;
  ordered = p.ordered;
  within = omega (arith, p.within);
  value_at = p.value_at;
}

drop-length : (text : UnicodeText) → drop (length text) text ≡ []
drop-length [] = refl
drop-length (c ∷ text) = drop-length text

module _ (t : Tokenizer) where
  -- One token at most, which is the piece from `i` on.
  icu_token-IsPiece :
      (text : UnicodeText) (i len : ℕ)
      → All (IsPiece text (i + len)) (icu_token t (take len (drop i text)) i (i + len))
  unfolding icu_token
  icu_token-IsPiece text i len =
      let token = take len (drop i text) in
      let width : i + len - i ≡ len = omega arith in
      elim (Bool-cases (not (is_whitespace_token t token) || t.icu_preserve_whitespace_tokens)) [
        | inl e ↦ rw e (
          record {
            a = i;
            b = i + len;
            start_at = refl;
            end_at = refl;
            ordered = omega arith;
            within = omega arith;
            value_at = ap (λ k. take k (drop i text)) (sym width);
          },
          tt,
        )
        | inr e ↦ rw e tt
      ]

  -- The tokens that end by `i` precede the one that starts there.
  icu_token-Precedes :
      (text : UnicodeText) (i j : ℕ) (piece : UnicodeText) (u : Token)
      → IsPiece text i u
      → All (Precedes u) (icu_token t piece i j)
  unfolding icu_token
  icu_token-Precedes text i j piece u p =
      elim (Bool-cases (not (is_whitespace_token t piece) || t.icu_preserve_whitespace_tokens)) [
        | inl e ↦ rw e (rw p.end_at (omega (arith, p.within)), tt)
        | inr e ↦ rw e tt
      ]

  icu_token-Pairwise : (i j : ℕ) (piece : UnicodeText) → Pairwise Precedes (icu_token t piece i j)
  unfolding icu_token
  icu_token-Pairwise i j piece =
      elim (Bool-cases (not (is_whitespace_token t piece) || t.icu_preserve_whitespace_tokens)) [
        | inl e ↦ rw e (tt, tt)
        | inr e ↦ rw e tt
      ]

  -- What the tokens are that end by `i`.
  pub record Pieces (text : UnicodeText) (i : ℕ) (result : List Token) : Type 0 where
    pub pieces : All (IsPiece text i) result
    pub ordered : Pairwise Precedes result

  icu_loop-Pieces :
      (text : UnicodeText) (breaks : List ℕ) (i n : ℕ) (result : List Token)
      → AreBreaks i breaks n
      → Pieces text i result
      → Pieces text n (icu_loop t breaks i i (drop i text) result)
  unfolding icu_loop
  icu_loop-Pieces text [] i n result h p = subst (λ k. Pieces text k result) h p
  icu_loop-Pieces text (b ∷ breaks) i n result (le, h) p =
      let width : i + (b - i) ≡ b = omega arith in
      let new = icu_token t (take (b - i) (drop i text)) i (i + (b - i)) in
      let next : Pieces text b (result ++ new) = record {
        pieces =
            All-append _ result new (All-map _ _ (λ u. IsPiece-later u le) result p.pieces)
              (subst (λ k. All (IsPiece text k) new) width (icu_token-IsPiece text i (b - i)));
        ordered =
            Pairwise-append _ result new p.ordered (icu_token-Pairwise i _ _)
              (All-map _ _ (λ u q. icu_token-Precedes text i _ _ u q) result p.pieces);
      } in
      let rest = icu_loop-Pieces text breaks b n (result ++ new) h next in
      rw (drop-drop i (b - i) text) (
        subst (λ k. Pieces text n (icu_loop t breaks b k (drop k text) (result ++ new))) (sym width)
          rest)

  -- With white space kept, a round adds the text of its piece.
  spell-icu_token :
      (i j : ℕ) (piece : UnicodeText)
      → t.icu_preserve_whitespace_tokens ≡ true
      → spell (icu_token t piece i j) ≡ piece
  unfolding icu_token
  spell-icu_token i j piece keep = elim (Bool-cases (is_whitespace_token t piece)) [
    | inl e ↦ rw (e, keep) (append-nil piece)
    | inr e ↦ rw e (append-nil piece)
  ]

  spell-icu_loop :
      (text : UnicodeText) (breaks : List ℕ) (i : ℕ) (result : List Token)
      → t.icu_preserve_whitespace_tokens ≡ true
      → AreBreaks i breaks (length text)
      → spell (icu_loop t breaks i i (drop i text) result) ≡ spell result ++ drop i text
  unfolding icu_loop
  spell-icu_loop text [] i result keep h =
      rw (h, drop-length text) (sym (append-nil (spell result)))
  spell-icu_loop text (b ∷ breaks) i result keep (le, h) =
      let width : i + (b - i) ≡ b = omega arith in
      let piece = take (b - i) (drop i text) in
      let new = icu_token t piece i (i + (b - i)) in
      let rest = spell-icu_loop text breaks b (result ++ new) keep h in
      let split : piece ++ drop b text ≡ drop i text =
        ap (λ k. piece ++ k) (ap (λ k. drop k text) (sym width) ∙ sym (drop-drop i (b - i) text))
        ∙ take-append-drop (b - i) (drop i text) in
      let said : spell (result ++ new) ++ drop b text ≡ spell result ++ drop i text =
        ap (λ w. w ++ drop b text)
          (spell-append result new ∙ ap (λ w. spell result ++ w) (spell-icu_token i _ piece keep))
        ∙ append_assoc (spell result) piece (drop b text)
        ∙ ap (λ w. spell result ++ w) split in
      rw (drop-drop i (b - i) text) (
        subst
          (λ k.
            spell (icu_loop t breaks b k (drop k text) (result ++ new))
            ≡ spell result ++ drop i text)
          (sym width) (rest ∙ said))

  -- If there is a break iterator, and its breaks do not fall and end at the length of the text, then
  -- there is a result, whose tokens stand one behind the other; the value of each is the piece of the
  -- text from its start to its end, which lies within the text.
  pub icu_tokenize-Pieces :
      (text : UnicodeText) (breaks : List ℕ)
      → t.create_break_iterator text ≡ some breaks
      → AreBreaks 0 breaks (length text)
      → (tokens : List Token) × (icu_tokenize t text ≡ some tokens)
        × Pieces text (length text) tokens
  unfolding icu_tokenize
  icu_tokenize-Pieces text breaks h are = (
    icu_loop t breaks 0 0 text [],
    rw (h, icu_tokenize) refl,
    icu_loop-Pieces text breaks 0 (length text) [] are (record { pieces = tt; ordered = tt }),
  )

  -- If there is a break iterator, its breaks do not fall and end at the length of the text, and tokens
  -- of white space are preserved, then there is a result, and the values of its tokens, joined, are the
  -- text.
  pub spell-icu_tokenize :
      (text : UnicodeText) (breaks : List ℕ)
      → t.create_break_iterator text ≡ some breaks
      → AreBreaks 0 breaks (length text)
      → t.icu_preserve_whitespace_tokens ≡ true
      → (tokens : List Token) × (icu_tokenize t text ≡ some tokens) × (spell tokens ≡ text)
  unfolding icu_tokenize
  spell-icu_tokenize text breaks h are keep = (
    icu_loop t breaks 0 0 text [],
    rw (h, icu_tokenize) refl,
    spell-icu_loop text breaks 0 [] keep are,
  )
