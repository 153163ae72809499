-- ===== src/Features/Splits/Cut.antt =====
-- `SplitTokensOnSelectionBoundaries` keeps the text of the tokens, and leaves none across a boundary.
use external_libtextclassifi.Prelude.{
  ℕ, ◌+◌, ◌-◌, ◌≤◌, ◌<◌, ℤ, pos, ◌+ℤ◌, ◌-ℤ◌, true, false, List, [], ◌∷◌, ◌++◌, ◌≡◌, refl, sym, ap,
  ◌∙◌, ◌⊎◌, inl, inr, arith, All, All-append, All-map, Any, Any-append_left, Any-append_right,
  Bool-cases, length, take, drop, take-append-drop, drop-drop, append-nil, subst, map,
}
use external_libtextclassifi.Span.{CodepointSpan}
use external_libtextclassifi.Text.{UnicodeText}
use external_libtextclassifi.Token.{Token}
use external_libtextclassifi.Tokenizer.Spelling.{spell, spell-append, IsSized}
use external_libtextclassifi.Features.Splits.Parts.{
  pos_minus, pos_plus, ArePoints, piece_end, IsPart, pieces-IsPart, whole-IsPart,
}
use external_libtextclassifi.Features.Splits.{
  cuts, split_start, split_end, add_rest, pieces, split_token, split_tokens_on_selection_boundaries,
}

-- The position is not strictly between two neighbours, which are counted from `a`.
abbrev Avoids : ℕ → ℕ → ℕ → List ℕ → Type 0
Avoids a x last [] = Unit
Avoids a x last (q ∷ qs) = ((x ≤ a + last) ⊎ (a + q ≤ x)) × Avoids a x q qs

drop-length : (value : UnicodeText) → drop (length value) value ≡ []
drop-length [] = refl
drop-length (c ∷ value) = drop-length value

spell-pieces :
    (value : UnicodeText) (qs : List ℕ) (last : ℕ) (at : ℤ)
    → ArePoints last qs (length value)
    → spell (pieces value (map pos qs) (pos last) at) ≡ drop last value
unfolding pieces
spell-pieces value [] last at h = rw h (sym (drop-length value))
spell-pieces value (q ∷ qs) last at (le, h) =
    let width : last + (q - last) ≡ q = omega arith in
    let piece = take (q - last) (drop last value) in
    let rest = spell-pieces value qs q (at +ℤ (pos q -ℤ pos last)) h in
    ap (λ w. piece ++ w)
      (rest ∙ ap (λ k. drop k value) (sym width) ∙ sym (drop-drop last (q - last) value))
    ∙ take-append-drop (q - last) (drop last value)

-- No piece is cut at `x`.
pieces_uncut :
    (value : UnicodeText) (a x n : ℕ) (qs : List ℕ) (last : ℕ)
    → ArePoints last qs n
    → Avoids a x last qs
    → All (λ t. cuts (pos x) t ≡ false) (pieces value (map pos qs) (pos last) (pos (a + last)))
unfolding pieces cuts
pieces_uncut value a x n [] last h v = tt
pieces_uncut value a x n (q ∷ qs) last (le, h) (v, vs) =
    rw (piece_end a last q le) (ground arith, pieces_uncut value a x n qs q h vs)

-- What becomes of tokens: their text stays, each token is a part of one that was there before, and no
-- token is cut at one of the two positions.
pub record IsSplit (f s : ℕ) (before after : List Token) : Type 0 where
  pub spelled : spell after ≡ spell before
  pub placed : All (λ t. Any (λ whole. IsPart whole t) before) after
  pub uncut_first : All (λ t. cuts (pos f) t ≡ false) after
  pub uncut_second : All (λ t. cuts (pos s) t ≡ false) after

add_rest-two : (n y : ℕ) → y < n → add_rest n (pos y ∷ []) ≡ pos y ∷ pos n ∷ []
unfolding add_rest
add_rest-two n y lt = ground arith

add_rest-three : (n x y : ℕ) → y < n → add_rest n (pos x ∷ pos y ∷ []) ≡ pos x ∷ pos y ∷ pos n ∷ []
unfolding add_rest
add_rest-three n x y lt = ap (λ r. pos x ∷ r) (add_rest-two n y lt)

module _ (f s : ℕ) (le : f ≤ s) where
  abbrev pub selection : CodepointSpan
  selection = record { first = pos f; second = pos s }

  pieces-IsSplit :
      (token : Token) (a : ℕ) (qs : List ℕ) (after : List Token)
      → token.start ≡ pos a
      → after ≡ pieces token.value (map pos qs) (pos 0) (pos a)
      → ArePoints 0 qs (length token.value)
      → Avoids a f 0 qs
      → Avoids a s 0 qs
      → IsSplit f s (token ∷ []) after
  pieces-IsSplit token a qs after at e h vf vs =
      let zero_more : a + 0 ≡ a = omega arith in
      record {
        spelled =
            ap spell e ∙ spell-pieces token.value qs 0 (pos a) h ∙ sym (append-nil token.value);
        placed =
            All-map (IsPart token) _ (λ t p. inl p) after
              (subst (All (IsPart token))
                (ap (λ k. pieces token.value (map pos qs) (pos 0) (pos k)) zero_more ∙ sym e)
                (pieces-IsPart token a qs 0 at h));
        uncut_first =
            subst (All (λ t. cuts (pos f) t ≡ false))
              (ap (λ k. pieces token.value (map pos qs) (pos 0) (pos k)) zero_more ∙ sym e)
              (pieces_uncut token.value a f _ qs 0 h vf);
        uncut_second =
            subst (All (λ t. cuts (pos s) t ≡ false))
              (ap (λ k. pieces token.value (map pos qs) (pos 0) (pos k)) zero_more ∙ sym e)
              (pieces_uncut token.value a s _ qs 0 h vs);
      }

  -- The two bounds of a token that a position cuts.
  cut_bounds :
      (token : Token) (a n x : ℕ)
      → token.start ≡ pos a
      → token.end ≡ pos (a + n)
      → cuts (pos x) token ≡ true
      → (a < x) × (x < a + n)
  unfolding cuts
  cut_bounds token a n x hs he h = ground arith

  -- A token that a position does not cut lies on one side of it.
  uncut_bounds :
      (token : Token) (a n x : ℕ)
      → token.start ≡ pos a
      → token.end ≡ pos (a + n)
      → cuts (pos x) token ≡ false
      → (x ≤ a) ⊎ (a + n ≤ x)
  unfolding cuts
  uncut_bounds token a n x hs he h = ground arith

  split_token_both :
      (token : Token) (z : IsSized token)
      → cuts (pos f) token ≡ true
      → cuts (pos s) token ≡ true
      → IsSplit f s (token ∷ []) (split_token selection token)
  unfolding split_token split_start split_end
  split_token_both token z hf hs =
      let n = length token.value in
      let a = z.a in
      let bf = cut_bounds token a n f z.start_at z.end_at hf in
      let bs = cut_bounds token a n s z.start_at z.end_at hs in
      let x : pos f -ℤ token.start ≡ pos (f - a) =
        ap (λ t. pos f -ℤ t) z.start_at ∙ pos_minus a f (omega (arith, bf)) in
      let y : pos (f - a) +ℤ (pos s -ℤ pos f) ≡ pos (s - a) =
        ap (λ d. pos (f - a) +ℤ d) (pos_minus f s le)
        ∙ pos_plus (f - a) (s - f)
        ∙ ap pos (omega (arith, bf, le)) in
      pieces-IsSplit token a ((f - a) ∷ (s - a) ∷ n ∷ []) _ z.start_at
        (rw (hf, hs, x, y, z.start_at, add_rest-three n (f - a) (s - a) (omega (arith, bs))) refl)
        (omega arith, (omega (arith, le), (omega (arith, bs), refl)))
        (omega (arith, bf), (omega (arith, bf), (omega (arith, bf, bs, le), tt)))
        (omega (arith, bf, bs, le), (omega (arith, bf, bs), (omega (arith, bs), tt)))

  split_token_first :
      (token : Token) (z : IsSized token)
      → cuts (pos f) token ≡ true
      → cuts (pos s) token ≡ false
      → IsSplit f s (token ∷ []) (split_token selection token)
  unfolding split_token split_start split_end
  split_token_first token z hf hs =
      let n = length token.value in
      let a = z.a in
      let bf = cut_bounds token a n f z.start_at z.end_at hf in
      let bs = uncut_bounds token a n s z.start_at z.end_at hs in
      let x : pos f -ℤ token.start ≡ pos (f - a) =
        ap (λ t. pos f -ℤ t) z.start_at ∙ pos_minus a f (omega (arith, bf)) in
      pieces-IsSplit token a ((f - a) ∷ n ∷ []) _ z.start_at
        (rw (hf, hs, x, z.start_at, add_rest-two n (f - a) (omega (arith, bf))) refl)
        (omega arith, (omega (arith, bf), refl)) (omega (arith, bf), (omega (arith, bf), tt))
        (omega (arith, bf, le), (omega (arith, bf, bs, le), tt))

  split_token_second :
      (token : Token) (z : IsSized token)
      → cuts (pos f) token ≡ false
      → cuts (pos s) token ≡ true
      → IsSplit f s (token ∷ []) (split_token selection token)
  unfolding split_token split_start split_end
  split_token_second token z hf hs =
      let n = length token.value in
      let a = z.a in
      let bf = uncut_bounds token a n f z.start_at z.end_at hf in
      let bs = cut_bounds token a n s z.start_at z.end_at hs in
      let y : pos 0 +ℤ (pos s -ℤ token.start) ≡ pos (s - a) =
        ap (λ t. pos 0 +ℤ (pos s -ℤ t)) z.start_at
        ∙ ap (λ d. pos 0 +ℤ d) (pos_minus a s (omega (arith, bs)))
        ∙ pos_plus 0 (s - a)
        ∙ ap pos (omega arith) in
      pieces-IsSplit token a ((s - a) ∷ n ∷ []) _ z.start_at
        (rw (hf, hs, y, z.start_at, add_rest-two n (s - a) (omega (arith, bs))) refl)
        (omega arith, (omega (arith, bs), refl))
        (omega (arith, bf, bs, le), (omega (arith, bf, bs, le), tt))
        (omega (arith, bs), (omega (arith, bs), tt))

  split_token-IsSplit :
      (token : Token) → IsSized token → IsSplit f s (token ∷ []) (split_token selection token)
  unfolding split_token split_start split_end
  split_token-IsSplit token z = elim (Bool-cases (cuts (pos f) token)) [
    | inl hf ↦ elim (Bool-cases (cuts (pos s) token)) [
      | inl hs ↦ split_token_both token z hf hs
      | inr hs ↦ split_token_first token z hf hs
    ]
    | inr hf ↦ elim (Bool-cases (cuts (pos s) token)) [
      | inl hs ↦ split_token_second token z hf hs
      | inr hs ↦
          rw (hf, hs)
            (record {
              spelled = refl;
              placed = (inl (whole-IsPart token z), tt);
              uncut_first = (hf, tt);
              uncut_second = (hs, tt);
            })
    ]
  ]

  -- If the selection runs from `f` to `s`, which are in order, and each token is as long as its value,
  -- then the split keeps the text that the tokens spell, each token is a part of one of the tokens,
  -- with the codepoints that the part has between its own start and end, and no token has `f` or `s`
  -- strictly between its start and its end.
  pub split_tokens_on_selection_boundaries-IsSplit :
      (tokens : List Token)
      → All IsSized tokens
      → IsSplit f s tokens (split_tokens_on_selection_boundaries selection tokens)
  unfolding split_tokens_on_selection_boundaries
  split_tokens_on_selection_boundaries-IsSplit [] h = record {
    spelled = refl;
    placed = tt;
    uncut_first = tt;
    uncut_second = tt;
  }
  split_tokens_on_selection_boundaries-IsSplit (token ∷ tokens) (z, h) =
      let here = split_token-IsSplit token z in
      let rest = split_tokens_on_selection_boundaries-IsSplit tokens h in
      let now = split_token selection token in
      let later = split_tokens_on_selection_boundaries selection tokens in
      record {
        spelled =
            spell-append now later
            ∙ ap (λ w. w ++ spell later) (here.spelled ∙ append-nil token.value)
            ∙ ap (λ w. token.value ++ w) rest.spelled;
        placed =
            All-append _ now later
              (All-map _ _ (λ t p. Any-append_left (λ whole. IsPart whole t) (token ∷ []) tokens p)
                now here.placed)
              (All-map _ _ (λ t p. Any-append_right (λ whole. IsPart whole t) (token ∷ []) tokens p)
                later rest.placed);
        uncut_first = All-append _ now later here.uncut_first rest.uncut_first;
        uncut_second = All-append _ now later here.uncut_second rest.uncut_second;
      }
