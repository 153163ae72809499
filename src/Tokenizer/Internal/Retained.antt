-- ===== src/Tokenizer/Internal/Retained.antt =====
-- `InternalRetokenize` touches only tokens whose codepoints are all in the internal ranges.
use external_libtextclassifi.Prelude.{
  pos, ltb_ℤ, Bool, false, List, [], ◌∷◌, ◌≡◌, refl, sym, subst, inl, inr, Any, Any-append_left,
  Any-append_right, Bool-cases,
}
use external_libtextclassifi.Span.{CodepointSpan}
use external_libtextclassifi.Text.{UnicodeText}
use external_libtextclassifi.Token.{Token}
use external_libtextclassifi.Tokenizer.Ranges.{CodepointRange, TokenizationRange}
use external_libtextclassifi.Tokenizer.Internal.{
  tokenize_substring, Retokenize, all_in_ranges, retokenize_step, retokenize_all,
  internal_retokenize,
}

module _ (ranges : List TokenizationRange) (split : Bool) (internal_ranges : List CodepointRange)
    (text : UnicodeText) where
  -- The token is in the list.
  abbrev pub Has : Token → List Token → Type 0
  Has t ts = Any (λ u. u ≡ t) ts

  tokenize_substring_keeps :
      (t : Token) (span : CodepointSpan) (result : List Token)
      → Has t result
      → Has t (tokenize_substring ranges split text span result)
  unfolding tokenize_substring
  tokenize_substring_keeps t span result h = elim (Bool-cases (ltb_ℤ span.first (pos 0))) [
    | inl e ↦ rw e h
    | inr e ↦ rw e (Any-append_left _ result _ h)
  ]

  retokenize_step_keeps :
      (t token : Token) (r : Retokenize)
      → Has t r.result
      → Has t (retokenize_step ranges split internal_ranges text token r).result
  unfolding retokenize_step
  retokenize_step_keeps t token r h =
      elim (Bool-cases (all_in_ranges ranges split internal_ranges token.value)) [
        | inl e ↦ rw e h
        | inr e ↦
            rw e (Any-append_left _ _ (token ∷ []) (tokenize_substring_keeps t r.span r.result h))
      ]

  retokenize_step_adds :
      (t : Token) (r : Retokenize)
      → all_in_ranges ranges split internal_ranges t.value ≡ false
      → Has t (retokenize_step ranges split internal_ranges text t r).result
  unfolding retokenize_step
  retokenize_step_adds t r e = rw e (Any-append_right _ _ (t ∷ []) (inl refl))

  retokenize_all_keeps :
      (t : Token) (tokens : List Token) (r : Retokenize)
      → Has t r.result
      → Has t (retokenize_all ranges split internal_ranges text tokens r).result
  unfolding retokenize_all
  retokenize_all_keeps t [] r h = h
  retokenize_all_keeps t (token ∷ tokens) r h =
      retokenize_all_keeps t tokens _ (retokenize_step_keeps t token r h)

  retokenize_all_adds :
      (t : Token) (tokens : List Token) (r : Retokenize)
      → all_in_ranges ranges split internal_ranges t.value ≡ false
      → Has t tokens
      → Has t (retokenize_all ranges split internal_ranges text tokens r).result
  unfolding retokenize_all
  retokenize_all_adds t [] r e h = absurd h
  retokenize_all_adds t (token ∷ tokens) r e (inl same) = retokenize_all_keeps t tokens _ (
      subst (λ u. Has t (retokenize_step ranges split internal_ranges text u r).result) (sym same)
        (retokenize_step_adds t r e))
  retokenize_all_adds t (token ∷ tokens) r e (inr h) = retokenize_all_adds t tokens _ e h

  -- A token that has a codepoint outside the internal ranges is still a token after
  -- `InternalRetokenize`, unchanged.
  pub internal_retokenize_keeps :
      (t : Token) (tokens : List Token)
      → Has t tokens
      → all_in_ranges ranges split internal_ranges t.value ≡ false
      → Has t (internal_retokenize ranges split internal_ranges text tokens)
  unfolding internal_retokenize
  internal_retokenize_keeps t tokens h e =
      tokenize_substring_keeps t _ _ (retokenize_all_adds t tokens _ e h)
