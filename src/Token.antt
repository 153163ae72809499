-- ===== src/Token.antt =====
-- native/annotator/types.h: tokens, and spans of tokens.
use external_libtextclassifi.Prelude.{
  ℤ, ◌+ℤ◌, ◌-ℤ◌, leb_ℤ, eqb_ℤ, max_ℤ, min_ℤ, Bool, true, false, ◌&&◌, [],
}
use external_libtextclassifi.Span.{CodepointSpan, invalid_index}
use external_libtextclassifi.Text.{UnicodeText}

pub record TokenSpan : Type 0 where
  pub first : ℤ
  pub second : ℤ

abbrev pub same_token_span : TokenSpan → TokenSpan → Bool
same_token_span a b = eqb_ℤ a.first b.first && eqb_ℤ a.second b.second

unfoldable pub token_span_size : TokenSpan → ℤ
token_span_size token_span = token_span.second -ℤ token_span.first

unfoldable pub intersect_token_spans : TokenSpan → TokenSpan → TokenSpan
intersect_token_spans a b = record {
  first = max_ℤ a.first b.first;
  second = min_ℤ a.second b.second;
}

unfoldable pub expand_token_span : TokenSpan → ℤ → ℤ → TokenSpan
expand_token_span token_span num_tokens_left num_tokens_right = record {
  first = token_span.first -ℤ num_tokens_left;
  second = token_span.second +ℤ num_tokens_right;
}

-- `Token`; its value is the codepoints of the UTF-8 string.
pub record Token : Type 0 where
  pub value : UnicodeText
  pub start : ℤ
  pub end : ℤ
  pub is_padding : Bool
  pub is_whitespace : Bool

-- `Token()`, a padding token
abbrev pub padding_token : Token
padding_token = record {
  value = [];
  start = invalid_index;
  end = invalid_index;
  is_padding = true;
  is_whitespace = false;
}

-- `Token(value, start, end)`
abbrev pub make_token : UnicodeText → ℤ → ℤ → Token
make_token value start end = record {
  value = value;
  start = start;
  end = end;
  is_padding = false;
  is_whitespace = false;
}

unfoldable pub is_contained_in_span : Token → CodepointSpan → Bool
is_contained_in_span token span = leb_ℤ span.first token.start && leb_ℤ token.end span.second
