-- ===== src/Features/Lines.antt =====
-- native/annotator/feature-processor.cc, `FindSubstrings`, `SplitContext` and `StripTokensFromOtherLines`. A
-- range of iterators is a pair of positions.
pub mod Cover
pub mod Stripped
use external_libtextclassifi.Prelude.{
  ℕ, zero, suc, ℤ, pos, pos_part, leb_ℤ, Bool, true, false, ◌&&◌, ◌||◌, List, [], ◌∷◌, ◌++◌, ◌==◌,
  leb, if◌then◌else◌,
}
use external_libtextclassifi.Span.{CodepointSpan}
use external_libtextclassifi.Text.{UnicodeText}
use external_libtextclassifi.Token.{Token}

-- `UnicodeTextRange`
pub record Line : Type 0 where
  pub first : ℕ
  pub second : ℕ

-- `if (start != curr) ranges->push_back(...)`
unfoldable pub push_range : ℕ → ℕ → List Line → List Line
push_range start curr ranges =
    if start == curr then ranges else ranges ++ record { first = start; second = curr } ∷ []

-- `FindSubstrings`, on the text that follows `curr`.
unfoldable pub find_from : (ℕ → Bool) → UnicodeText → ℕ → ℕ → List Line → List Line
find_from codepoints [] start curr ranges = push_range start curr ranges
find_from codepoints (c ∷ text) start curr ranges = elim (codepoints c) [
  | true ↦ find_from codepoints text (suc curr) (suc curr) (push_range start curr ranges)
  | false ↦ find_from codepoints text start (suc curr) ranges
]

unfoldable pub find_substrings : (ℕ → Bool) → UnicodeText → List Line
find_substrings codepoints text = find_from codepoints text 0 0 []

-- The set of the separators: the newline, and the pipe if it stands for one.
unfoldable pub is_line_separator : Bool → ℕ → Bool
is_line_separator use_pipe_character_for_newline c =
    c == 10 || use_pipe_character_for_newline && c == 124

-- `SplitContext`
unfoldable pub split_context : Bool → UnicodeText → List Line
split_context use_pipe_character_for_newline text =
    find_substrings (is_line_separator use_pipe_character_for_newline) text

-- The line completely contains the span; a bound below 0 stays at the beginning.
unfoldable pub contains : Line → CodepointSpan → Bool
contains line span = leb line.first (pos_part span.first) && leb (pos_part span.second) line.second

unfoldable pub is_on_line : Line → Token → Bool
is_on_line line token = leb_ℤ (pos line.first) token.start && leb_ℤ token.end (pos line.second)

-- The inner loop, which erases the tokens that are not on the line.
unfoldable pub keep_line : Line → List Token → List Token
keep_line line [] = []
keep_line line (token ∷ tokens) =
    let rest = keep_line line tokens in if is_on_line line token then token ∷ rest else rest

unfoldable pub strip_to_lines : CodepointSpan → List Line → List Token → List Token
strip_to_lines span [] tokens = tokens
strip_to_lines span (line ∷ lines) tokens =
    strip_to_lines span lines (if contains line span then keep_line line tokens else tokens)

-- `StripTokensFromOtherLines`
unfoldable pub strip_tokens_from_other_lines :
    Bool → UnicodeText → CodepointSpan → List Token → List Token
strip_tokens_from_other_lines use_pipe_character_for_newline text span tokens =
    strip_to_lines span (split_context use_pipe_character_for_newline text) tokens
