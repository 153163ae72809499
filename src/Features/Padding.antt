-- ===== src/Features/Padding.antt =====
-- native/annotator/feature-processor.cc, `StripOrPadTokens`: the window of tokens around the clicked one.
-- The click position, the relative span and the context size are not negative.
pub mod Fit
use external_libtextclassifi.Prelude.{
  ℕ, ◌+◌, ◌-◌, min, Bool, true, false, List, [], ◌∷◌, ◌++◌, ltb, leb, if◌then◌else◌, length, take,
  drop, replicate,
}
use external_libtextclassifi.Token.{Token, padding_token}

-- `*tokens` and `*click_pos`
pub record Window : Type 0 where
  pub tokens : List Token
  pub click_pos : ℕ

-- The right side: padding, at most the context size, or a cut behind the last token that is needed.
-- The cut is made where `needed < size - 1`.
unfoldable pub fit_right : ℕ → ℕ → Window → Window
fit_right right_context_needed context_size w =
    let needed = w.click_pos + right_context_needed + 1 in
    if leb (length w.tokens) needed
    then (let num_pad_tokens = min context_size (needed - length w.tokens) in
        record w { tokens = w.tokens ++ replicate num_pad_tokens padding_token })
    else if ltb needed (length w.tokens - 1)
    then record w { tokens = take needed w.tokens }
    else w

-- The left side.
unfoldable pub fit_left : ℕ → ℕ → Window → Window
fit_left left_context_needed context_size w =
    if ltb w.click_pos left_context_needed
    then (let num_pad_tokens = min context_size (left_context_needed - w.click_pos) in
        record {
          tokens = replicate num_pad_tokens padding_token ++ w.tokens;
          click_pos = w.click_pos + num_pad_tokens;
        })
    else if ltb left_context_needed w.click_pos
    then (let unused = w.click_pos - left_context_needed in
        record { tokens = drop unused w.tokens; click_pos = w.click_pos - unused })
    else w

-- `StripOrPadTokens`
unfoldable pub strip_or_pad_tokens : ℕ → ℕ → ℕ → Window → Window
strip_or_pad_tokens relative_first relative_second context_size w =
    fit_left (relative_first + context_size) context_size
      (fit_right (relative_second + context_size) context_size w)
