-- ===== src/Tests/Breaks.antt =====
-- The number tokenizer and the break iterator on short texts.
use Prim.Native.Char.{code}
use Prim.Native.String.{String}
use external_libtextclassifi.Prelude.{
  pos, true, false, List, [], ◌∷◌, ◌≡◌, refl, arith, All, Pairwise, ◌+ℤ◌, leb, ◌&&◌, ◌==◌, some,
  length, if◌then◌else◌,
}
use external_libtextclassifi.Text.{UnicodeText, UniLib}
use external_libtextclassifi.Token.{Token, make_token}
use external_libtextclassifi.Tokenizer.Spelling.{spell, Precedes}
use external_libtextclassifi.Tokenizer.Internal.{append_codepoint, push_token}
use external_libtextclassifi.Tokenizer.Internal.Sound.{IsEmitted}
use external_libtextclassifi.Tokenizer.Numbers.{
  start_numbers, reset_token, maybe_reset_token_and_add_char, finish_token_and_add_separator,
  next_is_digit, add_dot, number_round, scan_numbers, number_tokenize,
}
use external_libtextclassifi.Tokenizer.Numbers.Spelled.{
  spell-number_tokenize, number_tokenize-ordered,
}
use external_libtextclassifi.Tokenizer.Icu.{Tokenizer, letter_digit, icu_tokenize}
use external_libtextclassifi.Tokenizer.Icu.Pieces.{Pieces, icu_tokenize-Pieces, spell-icu_tokenize}

abbrev letters : String → UnicodeText
letters String.[] = []
letters (String.◌∷◌ c s) = code c ∷ letters s

-- The classes of ASCII.
abbrev ascii : UniLib
ascii = record {
  is_opening_bracket = λ c. c == 40;
  is_closing_bracket = λ c. c == 41;
  get_paired_bracket = λ c. if c == 40 then 41 else 40;
  is_whitespace = λ c. c == 32;
  is_digit = λ c. leb 48 c && leb c 57;
  is_letter = λ c. leb 97 c && leb c 122;
  is_dot = λ c. c == 46;
}

number_with_a_dot :
    number_tokenize ascii true (letters "1.5km.")
    ≡ make_token (letters "1.5") (pos 0) (pos 3)
      ∷ make_token (letters "km") (pos 3) (pos 5)
      ∷ make_token (letters ".") (pos 5) (pos 6)
      ∷ []
unfolding number_tokenize scan_numbers number_round add_dot next_is_digit start_numbers
    finish_token_and_add_separator maybe_reset_token_and_add_char reset_token append_codepoint
    push_token ◌+ℤ◌
number_with_a_dot = refl

spell-number_tokenize_example :
    spell (number_tokenize ascii true (letters "1.5km.")) ≡ letters "1.5km."
spell-number_tokenize_example = spell-number_tokenize ascii true (letters "1.5km.")

number_tokenize-ordered_example :
    Pairwise Precedes (number_tokenize ascii true (letters "1.5km."))
    × All (IsEmitted (length (letters "1.5km."))) (number_tokenize ascii true (letters "1.5km."))
number_tokenize-ordered_example = number_tokenize-ordered ascii true (letters "1.5km.")

-- An iterator that breaks the five codepoints of "ab cd" around the space.
abbrev by_words : Tokenizer
by_words = record {
  type = letter_digit;
  unilib = ascii;
  create_break_iterator = λ text. some (2 ∷ 3 ∷ 5 ∷ []);
  codepoint_ranges = [];
  internal_tokenizer_codepoint_ranges = [];
  split_on_script_change = false;
  icu_preserve_whitespace_tokens = true;
  preserve_floating_numbers = true;
}

icu_tokenize-Pieces_example :
    (tokens : List Token) × (icu_tokenize by_words (letters "ab cd") ≡ some tokens)
    × Pieces by_words (letters "ab cd") (length (letters "ab cd")) tokens
icu_tokenize-Pieces_example =
    icu_tokenize-Pieces by_words (letters "ab cd") (2 ∷ 3 ∷ 5 ∷ []) refl
      (omega arith, (omega arith, (omega arith, refl)))

spell-icu_tokenize_example :
    (tokens : List Token) × (icu_tokenize by_words (letters "ab cd") ≡ some tokens)
    × (spell tokens ≡ letters "ab cd")
spell-icu_tokenize_example =
    spell-icu_tokenize by_words (letters "ab cd") (2 ∷ 3 ∷ 5 ∷ []) refl
      (omega arith, (omega arith, (omega arith, refl))) refl
