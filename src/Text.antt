-- ===== src/Text.antt =====
-- native/utils/utf8/unicodetext.h: a `UnicodeText` as the list of its codepoints, with the iterators of the
-- code as positions, and utils/utf8/unilib.h: the character classes that the code asks `UniLib` for.
use Prim.Native.Char.{code}
use Prim.Native.String.{String}
use external_libtextclassifi.Prelude.{
  ℕ, ◌-◌, pos, Bool, true, false, ◌&&◌, ◌||◌, List, [], ◌∷◌, ◌≤ℤ◌, get_or, take, drop, length, ltb,
  ◌==◌,
}
use external_libtextclassifi.Span.{CodepointSpan}

abbrev pub UnicodeText : Type 0
UnicodeText = List ℕ

-- `*it` at a position inside the text.
abbrev pub at : UnicodeText → ℕ → ℕ
at text i = get_or text i 0

abbrev pub is_empty {ℓ} : {A : Type ℓ} → List A → Bool
is_empty [] = true
is_empty (x ∷ xs) = false

-- The codepoints of a text.
abbrev pub codes : String → UnicodeText
codes String.[] = []
codes (String.◌∷◌ c s) = code c ∷ codes s

-- `==` and `<` of two texts. UTF-8 keeps the order of the codepoints.
abbrev pub same_text : UnicodeText → UnicodeText → Bool
same_text [] [] = true
same_text [] (d ∷ ds) = false
same_text (c ∷ cs) [] = false
same_text (c ∷ cs) (d ∷ ds) = c == d && same_text cs ds

abbrev pub text_less : UnicodeText → UnicodeText → Bool
text_less [] [] = false
text_less [] (d ∷ ds) = true
text_less (c ∷ cs) [] = false
text_less (c ∷ cs) (d ∷ ds) = ltb c d || c == d && text_less cs ds

-- `UnicodeText::Substring` and `UTF8Substring` between two positions.
abbrev pub substring : UnicodeText → ℕ → ℕ → UnicodeText
substring text first second = take (second - first) (drop first text)

-- The span lies in the text, so that no iterator leaves it.
abbrev pub IsInside : UnicodeText → CodepointSpan → Type 0
IsInside text span =
    (pos 0 ≤ℤ span.first) × (span.first ≤ℤ span.second) × (span.second ≤ℤ pos (length text))

-- The functions of `UniLib` that the modelled code calls.
pub record UniLib : Type 0 where
  pub is_opening_bracket : ℕ → Bool
  pub is_closing_bracket : ℕ → Bool
  pub get_paired_bracket : ℕ → ℕ
  pub is_whitespace : ℕ → Bool
  pub is_digit : ℕ → Bool
  pub is_letter : ℕ → Bool
  pub is_dot : ℕ → Bool
