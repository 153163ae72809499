-- ===== src/Tokenizer/Spelling.antt =====
-- Lists of tokens: the text that they spell, and tokens that stand one behind the other.
use external_libtextclassifi.Prelude.{
  ℕ, ◌+◌, pos, ◌≤ℤ◌, List, [], ◌∷◌, ◌++◌, ◌≡◌, refl, ap, sym, ◌∙◌, append_assoc, append-nil, length,
}
use external_libtextclassifi.Text.{UnicodeText}
use external_libtextclassifi.Token.{Token}

-- The values of the tokens, joined.
abbrev pub spell : List Token → UnicodeText
spell [] = []
spell (t ∷ ts) = t.value ++ spell ts

pub spell-append : (ts us : List Token) → spell (ts ++ us) ≡ spell ts ++ spell us
spell-append [] us = refl
spell-append (t ∷ ts) us =
    rw (spell-append ts us) (sym (append_assoc t.value (spell ts) (spell us)))

pub spell-snoc : (ts : List Token) (t : Token) → spell (ts ++ t ∷ []) ≡ spell ts ++ t.value
spell-snoc ts t = spell-append ts (t ∷ []) ∙ ap (λ v. spell ts ++ v) (append-nil t.value)

-- The token starts at `a`, and is as long as its value.
pub record IsSized (t : Token) : Type 0 where
  pub a : ℕ
  pub start_at : t.start ≡ pos a
  pub end_at : t.end ≡ pos (a + length t.value)

abbrev pub Precedes : Token → Token → Type 0
Precedes t u = t.end ≤ℤ u.start
