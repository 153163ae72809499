-- ===== src/Features/Splits/Parts.antt =====
-- The pieces that `SplitTokensOnSelectionBoundaries` makes are parts of the token that they replace.
use external_libtextclassifi.Prelude.{
  ℕ, ◌+◌, ◌-◌, ◌≤◌, pos, ◌+ℤ◌, ◌-ℤ◌, List, [], ◌∷◌, ◌≡◌, refl, sym, ap, ◌∙◌, arith, All, length,
  take, map, subst,
}
use external_libtextclassifi.Text.{UnicodeText, substring}
use external_libtextclassifi.Token.{Token}
use external_libtextclassifi.Tokenizer.Spelling.{IsSized}
use external_libtextclassifi.Features.Splits.{pieces}

pub pos_minus : (a b : ℕ) → a ≤ b → pos b -ℤ pos a ≡ pos (b - a)
unfolding ◌-ℤ◌
pos_minus a b le = ground arith

pub pos_plus : (a b : ℕ) → pos a +ℤ pos b ≡ pos (a + b)
unfolding ◌+ℤ◌
pos_plus a b = ground arith

-- The points do not fall from `last` on, and end at `n`.
abbrev pub ArePoints : ℕ → List ℕ → ℕ → Type 0
ArePoints last [] n = last ≡ n
ArePoints last (q ∷ qs) n = (last ≤ q) × ArePoints q qs n

last_in_range : (last : ℕ) (qs : List ℕ) (n : ℕ) → ArePoints last qs n → last ≤ n
last_in_range last [] n h = omega arith
last_in_range last (q ∷ qs) n (le, h) = omega (arith, last_in_range q qs n h)

-- The end of a piece.
pub piece_end : (a last q : ℕ) → last ≤ q → pos (a + last) +ℤ (pos q -ℤ pos last) ≡ pos (a + q)
piece_end a last q le =
    ap (λ d. pos (a + last) +ℤ d) (pos_minus last q le)
    ∙ pos_plus (a + last) (q - last)
    ∙ ap pos (omega arith)

-- A token has the codepoints of a whole token from `k` to before `m`, and stands where they do.
pub record IsPart (whole part : Token) : Type 0 where
  pub a : ℕ
  pub k : ℕ
  pub m : ℕ
  pub start_at : whole.start ≡ pos a
  pub up : k ≤ m
  pub within : m ≤ length whole.value
  pub part_start : part.start ≡ pos (a + k)
  pub part_end : part.end ≡ pos (a + m)
  pub part_value : part.value ≡ substring whole.value k m

pub pieces-IsPart :
    (token : Token) (a : ℕ) (qs : List ℕ) (last : ℕ)
    → token.start ≡ pos a
    → ArePoints last qs (length token.value)
    → All (IsPart token) (pieces token.value (map pos qs) (pos last) (pos (a + last)))
unfolding pieces
pieces-IsPart token a [] last at h = tt
pieces-IsPart token a (q ∷ qs) last at (le, h) =
    let ended = piece_end a last q le in
    let rest = pieces-IsPart token a qs q at h in
    (
      record {
        a = a;
        k = last;
        m = q;
        start_at = at;
        up = le;
        within = last_in_range q qs _ h;
        part_start = refl;
        part_end = ended;
        part_value = refl;
      },
      subst (λ e. All (IsPart token) (pieces token.value (map pos qs) (pos q) e)) (sym ended) rest,
    )

take-length : (value : UnicodeText) → take (length value) value ≡ value
take-length [] = refl
take-length (c ∷ value) = ap (λ v. c ∷ v) (take-length value)

same_width : (n : ℕ) → n ≡ n - 0
same_width n = omega arith

-- The token itself is one.
pub whole-IsPart : (token : Token) → IsSized token → IsPart token token
whole-IsPart token z = record {
  a = z.a;
  k = 0;
  m = length token.value;
  start_at = z.start_at;
  up = omega arith;
  within = omega arith;
  part_start = z.start_at ∙ ap pos (omega arith);
  part_end = z.end_at;
  part_value =
      sym (take-length token.value)
      ∙ ap (λ w. take w token.value) (same_width (length token.value));
}
