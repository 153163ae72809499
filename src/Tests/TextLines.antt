-- ===== src/Tests/TextLines.antt =====
-- Lines of a text whose codepoints are letters, newlines (10) and pipes (124).
use external_libtextclassifi.Prelude.{pos, true, false, List, [], ◌∷◌, ◌≡◌, refl, length}
use external_libtextclassifi.Span.{CodepointSpan}
use external_libtextclassifi.Text.{UnicodeText}
use external_libtextclassifi.Token.{Token, make_token}
use external_libtextclassifi.Features.Lines.{
  push_range, find_from, find_substrings, is_line_separator, split_context, contains, is_on_line,
  keep_line, strip_to_lines, strip_tokens_from_other_lines,
}
use external_libtextclassifi.Features.Lines.Cover.{Lines, find_substrings-Lines}

abbrev context : UnicodeText
context = 10 ∷ 97 ∷ 98 ∷ 10 ∷ 10 ∷ 99 ∷ 124 ∷ 100 ∷ []

three_lines :
    split_context true context
    ≡ record { first = 1; second = 3 }
      ∷ record { first = 5; second = 6 }
      ∷ record { first = 7; second = 8 }
      ∷ []
unfolding split_context find_substrings find_from push_range is_line_separator
three_lines = refl

find_substrings-Lines_example :
    Lines
      (is_line_separator true)
      context
      (length context)
      (find_substrings (is_line_separator true) context)
find_substrings-Lines_example = find_substrings-Lines (is_line_separator true) context

abbrev words : List Token
words =
    make_token (97 ∷ 98 ∷ []) (pos 1) (pos 3)
    ∷ make_token (99 ∷ 124 ∷ 100 ∷ []) (pos 5) (pos 8)
    ∷ []

abbrev selected : CodepointSpan
selected = record { first = pos 5; second = pos 6 }

second_line_only :
    strip_tokens_from_other_lines false context selected words
    ≡ make_token (99 ∷ 124 ∷ 100 ∷ []) (pos 5) (pos 8) ∷ []
unfolding split_context find_substrings find_from push_range is_line_separator contains is_on_line
    keep_line strip_to_lines strip_tokens_from_other_lines
second_line_only = refl
