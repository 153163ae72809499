-- ===== src/Features/Padding/Fit.antt =====
-- The window that `StripOrPadTokens` leaves.
use external_libtextclassifi.Prelude.{
  ℕ, zero, suc, ◌+◌, ◌-◌, ◌≤◌, ◌<◌, min, List, [], ◌∷◌, ◌++◌, ◌≡◌, refl, ◌∙◌, ap, arith, ltb, leb,
  if◌then◌else◌, length, replicate, get_or, length-append, length-take, length-drop,
  length-replicate, get_or-take, get_or-drop, Bool-cases, inl, inr, ◌==◌, subst,
}
use external_libtextclassifi.Token.{Token, padding_token}
use external_libtextclassifi.Features.Padding.{Window, fit_right, fit_left, strip_or_pad_tokens}

abbrev clicked : Window → Token
clicked w = get_or w.tokens w.click_pos padding_token

get_or-append_left :
    (xs ys : List Token) (k : ℕ)
    → k < length xs
    → get_or (xs ++ ys) k padding_token ≡ get_or xs k padding_token
get_or-append_left [] ys k h = absurd (omega arith)
get_or-append_left (x ∷ xs) ys zero h = refl
get_or-append_left (x ∷ xs) ys (suc k) h = get_or-append_left xs ys k (omega arith)

get_or-pads :
    (n k : ℕ) (ys : List Token)
    → get_or (replicate n padding_token ++ ys) (k + n) padding_token ≡ get_or ys k padding_token
get_or-pads zero k ys = ap (λ i. get_or ys i padding_token) (omega arith)
get_or-pads (suc n) k ys =
    let e : k + suc n ≡ suc (k + n) = omega arith in rw e (get_or-pads n k ys)

-- What `fit_right` leaves, when the padding suffices.
record IsRight (right : ℕ) (w w' : Window) : Type 0 where
  same_click : w'.click_pos ≡ w.click_pos
  same_token : clicked w' ≡ clicked w
  size : length w'.tokens ≡ (
      if length w.tokens == w.click_pos + right + 2
      then w.click_pos + right + 2
      else w.click_pos + right + 1)

fit_right-IsRight :
    (right context : ℕ) (w : Window)
    → w.click_pos < length w.tokens
    → w.click_pos + right + 1 ≤ length w.tokens + context
    → IsRight right w (fit_right right context w)
unfolding fit_right
fit_right-IsRight right context w inside enough =
    let needed = w.click_pos + right + 1 in
    let pads = min context (needed - length w.tokens) in
    elim (Bool-cases (leb (length w.tokens) needed)) [
      | inl short ↦ rw short (record {
        same_click = refl;
        same_token = get_or-append_left w.tokens (replicate pads padding_token) w.click_pos inside;
        size = ground (
          arith,
          length-append {0} w.tokens (replicate pads padding_token),
          length-replicate {0} pads padding_token,
        );
      })
      | inr long ↦ rw long (elim (Bool-cases (ltb needed (length w.tokens - 1))) [
        | inl surplus ↦ rw surplus (record {
          same_click = refl;
          same_token = get_or-take needed w.click_pos w.tokens padding_token (omega arith);
          size = ground (arith, length-take {0} needed w.tokens);
        })
        | inr fits ↦ rw fits (record { same_click = refl; same_token = refl; size = ground arith })
      ])
    ]

record IsLeft (left : ℕ) (w w' : Window) : Type 0 where
  click : w'.click_pos ≡ left
  same_token : clicked w' ≡ clicked w
  size : length w'.tokens + w.click_pos ≡ length w.tokens + left

fit_left-IsLeft :
    (left context : ℕ) (w : Window)
    → w.click_pos < length w.tokens
    → left ≤ w.click_pos + context
    → IsLeft left w (fit_left left context w)
unfolding fit_left
fit_left-IsLeft left context w inside enough =
    let pads = min context (left - w.click_pos) in
    let unused = w.click_pos - left in
    elim (Bool-cases (ltb w.click_pos left)) [
      | inl short ↦ rw short (record {
        click = ground arith;
        same_token = get_or-pads pads w.click_pos w.tokens;
        size = ground (
          arith,
          length-append {0} (replicate pads padding_token) w.tokens,
          length-replicate {0} pads padding_token,
        );
      })
      | inr long ↦ rw long (elim (Bool-cases (ltb left w.click_pos)) [
        | inl surplus ↦ rw surplus (record {
          click = ground arith;
          same_token =
              get_or-drop unused (w.click_pos - unused) w.tokens padding_token
              ∙ ap (λ i. get_or w.tokens i padding_token) (omega arith);
          size = ground (arith, length-drop {0} unused w.tokens);
        })
        | inr fits ↦
            rw fits (record { click = ground arith; same_token = refl; size = ground arith })
      ])
    ]

-- If the click is at a token, and no side lacks more tokens than the context size, then the click
-- moves to the number of tokens needed on its left, the token there is the clicked one, and the window
-- holds the tokens needed on both sides and the clicked one; but where exactly one token more than
-- needed is on the right, that token stays.
pub strip_or_pad_tokens-window :
    (first second context : ℕ) (w : Window)
    → w.click_pos < length w.tokens
    → w.click_pos + (second + context) + 1 ≤ length w.tokens + context
    → first + context ≤ w.click_pos + context
    → ((strip_or_pad_tokens first second context w).click_pos ≡ first + context)
      × (get_or (strip_or_pad_tokens first second context w).tokens (first + context) padding_token
          ≡ get_or w.tokens w.click_pos padding_token)
      × (length (strip_or_pad_tokens first second context w).tokens
          ≡ (first + context)
            + (if length w.tokens == w.click_pos + (second + context) + 2
                then second + context + 2
                else second + context + 1))
unfolding strip_or_pad_tokens
strip_or_pad_tokens-window first second context w inside right left =
    let w1 = fit_right (second + context) context w in
    let r = fit_right-IsRight (second + context) context w inside right in
    let l =
      fit_left-IsLeft (first + context) context w1 (ground (arith, r.same_click, r.size))
        (omega (arith, r.same_click)) in
    let w2 = fit_left (first + context) context w1 in
    (
      l.click,
      subst (λ k. get_or w2.tokens k padding_token ≡ clicked w) l.click
          (l.same_token ∙ r.same_token),
      ground (arith, l.size, r.size, r.same_click),
    )
