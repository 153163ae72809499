-- ===== src/Tokenizer/Internal.antt =====
-- native/utils/tokenizer.cc, `InternalTokenize`, `TokenizeSubstring` and `InternalRetokenize`.
pub mod Sound
pub mod Retained
use external_libtextclassifi.Prelude.{
  ℕ, zero, suc, ℤ, pos, negsuc, ◌+ℤ◌, pos_part, ltb_ℤ, eqb_ℤ, Bool, true, false, not, ◌&&◌, ◌||◌,
  List, [], ◌∷◌, ◌++◌, map, if◌then◌else◌,
}
use external_libtextclassifi.Span.{CodepointSpan}
use external_libtextclassifi.Text.{UnicodeText, is_empty, substring}
use external_libtextclassifi.Token.{Token, make_token}
use external_libtextclassifi.Tokenizer.Ranges.{
  CodepointRange, is_codepoint_in_ranges, TokenizationRange, RoleAndScript, get_script_and_role,
  has_role, split_before, split_after, discard_codepoint, invalid_script,
}

-- The variables of the loop.
pub record Scan : Type 0 where
  pub result : List Token
  pub new_token : Token
  pub last_script : ℤ

-- `if (!new_token.value.empty()) result.push_back(new_token)`
unfoldable pub push_token : List Token → Token → List Token
push_token result token = if is_empty token.value then result else result ++ token ∷ []

-- The token ends, and an empty one begins at the given index.
unfoldable pub restart : ℕ → Scan → Scan
unfolding push_token
restart i s = record s {
  result = push_token s.result s.new_token;
  new_token = make_token [] (pos i) (pos i);
}

-- `new_token.end += 1; AppendCodepointToToken(it, &new_token)`
unfoldable pub append_codepoint : ℕ → Token → Token
append_codepoint c token = record token { value = token.value ++ c ∷ []; end = token.end +ℤ pos 1 }

unfoldable pub shift_token : ℤ → Token → Token
shift_token by token = record token { start = token.start +ℤ by; end = token.end +ℤ by }

-- The variables of `InternalRetokenize`.
pub record Retokenize : Type 0 where
  pub result : List Token
  pub span : CodepointSpan

unfoldable pub start_scan : Scan
start_scan = record {
  result = [];
  new_token = make_token [] (pos 0) (pos 0);
  last_script = invalid_script;
}

module _ (ranges : List TokenizationRange) (split_on_script_change : Bool) where
  -- The condition of the split before the codepoint.
  unfoldable pub splits_before : RoleAndScript → ℤ → Bool
  splits_before rs last_script =
      has_role rs.role split_before
      || split_on_script_change
        && not (eqb_ℤ last_script invalid_script)
        && not (eqb_ℤ last_script rs.script)

  -- The three parts of one round, at the codepoint `c` with the index `i`.
  unfoldable pub before_part : RoleAndScript → ℕ → Scan → Scan
  before_part rs i s = if splits_before rs s.last_script then restart i s else s

  unfoldable pub append_part : RoleAndScript → ℕ → Scan → Scan
  append_part rs c s =
      if not (has_role rs.role discard_codepoint)
      then record s { new_token = append_codepoint c s.new_token }
      else s

  unfoldable pub after_part : RoleAndScript → ℕ → Scan → Scan
  after_part rs i s = if has_role rs.role split_after then restart (suc i) s else s

  unfoldable pub scan_codepoint : RoleAndScript → ℕ → ℕ → Scan → Scan
  scan_codepoint rs i c s =
      let done = after_part rs i (append_part rs c (before_part rs i s)) in
      record done { last_script = rs.script }

  unfoldable pub scan_text : UnicodeText → ℕ → Scan → Scan
  scan_text [] i s = s
  scan_text (c ∷ text) i s =
      scan_text text (suc i) (scan_codepoint (get_script_and_role ranges c) i c s)

  -- `InternalTokenize`
  unfoldable pub internal_tokenize : UnicodeText → List Token
  internal_tokenize text = let s = scan_text text 0 start_scan in push_token s.result s.new_token

  -- `TokenizeSubstring`
  unfoldable pub tokenize_substring : UnicodeText → CodepointSpan → List Token → List Token
  tokenize_substring text span result =
      if ltb_ℤ span.first (pos 0)
      then result
      else result
        ++ map (shift_token span.first)
            (internal_tokenize (substring text (pos_part span.first) (pos_part span.second)))

module _ (ranges : List TokenizationRange) (split_on_script_change : Bool)
    (internal_ranges : List CodepointRange) where
  -- `should_retokenize`
  unfoldable pub all_in_ranges : UnicodeText → Bool
  all_in_ranges [] = true
  all_in_ranges (c ∷ value) = is_codepoint_in_ranges c internal_ranges && all_in_ranges value

  unfoldable pub retokenize_step : UnicodeText → Token → Retokenize → Retokenize
  retokenize_step text token r =
      if all_in_ranges token.value
      then record r {
        span = record {
          first = if ltb_ℤ r.span.first (pos 0) then token.start else r.span.first;
          second = token.end;
        };
      }
      else record {
        span = record r.span { first = negsuc 0 };
        result =
            tokenize_substring ranges split_on_script_change text r.span r.result ++ token ∷ [];
      }

  unfoldable pub retokenize_all : UnicodeText → List Token → Retokenize → Retokenize
  retokenize_all text [] r = r
  retokenize_all text (token ∷ tokens) r = retokenize_all text tokens (retokenize_step text token r)

  -- `InternalRetokenize`
  unfoldable pub internal_retokenize : UnicodeText → List Token → List Token
  internal_retokenize text tokens =
      let r =
        retokenize_all text tokens
          (record { result = []; span = record { first = negsuc 0; second = negsuc 0 } }) in
      tokenize_substring ranges split_on_script_change text r.span r.result
