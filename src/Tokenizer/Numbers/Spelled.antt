-- ===== src/Tokenizer/Numbers/Spelled.antt =====
-- `NumberTokenize` loses and repeats nothing, and its tokens are in order.
use external_libtextclassifi.Prelude.{
  ℕ, suc, ◌+◌, pos, ◌+ℤ◌, Bool, true, false, ◌&&◌, List, [], ◌∷◌, ◌++◌, ◌≡◌, refl, sym, ap, ◌∙◌,
  arith, All, Pairwise, All-map, length, append_assoc, subst, append-nil, if◌then◌else◌,
}
use external_libtextclassifi.Text.{UnicodeText, UniLib}
use external_libtextclassifi.Token.{Token, make_token}
use external_libtextclassifi.Tokenizer.Spelling.{spell, Precedes}
use external_libtextclassifi.Tokenizer.Internal.{Scan, push_token, append_codepoint}
use external_libtextclassifi.Tokenizer.Internal.Sound.{
  IsEmitted, Inv, Pushed, push_token-Pushed, append_codepoint-Inv,
}
use external_libtextclassifi.Tokenizer.Numbers.{
  NumberScan, numerical, term, whitespace, NumberTokenType, token_at, start_numbers, reset_token,
  same_type, maybe_reset_token_and_add_char, finish_token_and_add_separator, next_is_digit, add_dot,
  number_round, scan_numbers, number_tokenize,
}

-- The state of the internal tokenizer with the same tokens, so that its invariant serves here.
abbrev as_scan : NumberScan → Scan
as_scan s = record { result = s.result; new_token = s.new_token; last_script = pos 0 }

abbrev NumberInv : ℕ → UnicodeText → NumberScan → Type 0
NumberInv i done s = Inv i done (as_scan s)

if_cases :
    {A : Type 0} (P : A → Type 0) (test : Bool) {x y : A} → P x → P y → P (if test then x else y)
if_cases P true px py = px
if_cases P false px py = py

-- The tokens pushed so far, and an empty one.
Pushed-Inv :
    {i : ℕ} {done : UnicodeText} (ts : List Token) (s : NumberScan) (w : Bool)
    → Pushed i done ts
    → s.result ≡ ts
    → s.new_token ≡ token_at i w
    → NumberInv i done s
Pushed-Inv {i} ts s w p hr ht = record {
  emitted = rw hr p.emitted;
  ordered = rw hr p.ordered;
  behind = rw (hr, ht) (All-map _ _ (λ t e. e.in_text) _ p.emitted);
  sized = rw ht (record { a = i; start_at = refl; end_at = ap pos (omega arith) });
  in_text = rw ht (omega arith);
  spelled = rw (hr, ht) (append-nil _ ∙ p.spelled);
}

reset_token-Inv :
    {i : ℕ} {done : UnicodeText} (w : Bool) (s : NumberScan)
    → NumberInv i done s
    → NumberInv i done (reset_token i w s)
unfolding reset_token
reset_token-Inv {i} w s v =
    Pushed-Inv _ (reset_token i w s) w (push_token-Pushed (as_scan s) v) refl refl

maybe_reset-Inv :
    {i : ℕ} {done : UnicodeText} (type : NumberTokenType) (c : ℕ) (w : Bool) (s : NumberScan)
    → NumberInv i done s
    → NumberInv (suc i) (done ++ c ∷ []) (maybe_reset_token_and_add_char i type c w s)
unfolding maybe_reset_token_and_add_char
maybe_reset-Inv {i} {done} type c w s v =
    let started = if same_type s.current_token_type type then s else reset_token i w s in
    let h : NumberInv i done started =
      if_cases (NumberInv i done) (same_type s.current_token_type type) v (reset_token-Inv w s v) in
    let next = append_codepoint-Inv c (as_scan started) h in
    record {
      emitted = next.emitted;
      ordered = next.ordered;
      behind = next.behind;
      sized = next.sized;
      in_text = next.in_text;
      spelled = next.spelled;
    }

next_index : (i : ℕ) → pos i +ℤ pos 1 ≡ pos (suc i)
unfolding ◌+ℤ◌
next_index i = ground arith

-- The separator is what a reset, the codepoint and another push would give.
separator_pushed :
    (ts : List Token) (i c : ℕ)
    → push_token ts (append_codepoint c (token_at i false))
      ≡ ts ++ make_token (c ∷ []) (pos i) (pos (suc i)) ∷ []
unfolding push_token append_codepoint
separator_pushed ts i c = ap (λ e. ts ++ make_token (c ∷ []) (pos i) e ∷ []) (next_index i)

finish-Inv :
    {i : ℕ} {done : UnicodeText} (c : ℕ) (s : NumberScan)
    → NumberInv i done s
    → NumberInv (suc i) (done ++ c ∷ []) (finish_token_and_add_separator i c s)
unfolding finish_token_and_add_separator reset_token
finish-Inv {i} c s v =
    let one =
      append_codepoint-Inv c (as_scan (reset_token i false s)) (reset_token-Inv false s v) in
    Pushed-Inv _ (finish_token_and_add_separator i c s) false (push_token-Pushed _ one)
      (sym (separator_pushed _ i c)) refl

module _ (unilib : UniLib) (preserve : Bool) where
  number_round-Inv :
      {i : ℕ} {done : UnicodeText} (c : ℕ) (text : UnicodeText) (s : NumberScan)
      → NumberInv i done s
      → NumberInv (suc i) (done ++ c ∷ []) (number_round unilib preserve i c text s)
  unfolding number_round add_dot
  number_round-Inv {i} {done} c text s v =
      let P = NumberInv (suc i) (done ++ c ∷ []) in
      let finish = finish-Inv c s v in
      let more = append_codepoint-Inv c (as_scan s) v in
      let keep : P (record s { new_token = append_codepoint c s.new_token }) = record {
        emitted = more.emitted;
        ordered = more.ordered;
        behind = more.behind;
        sized = more.sized;
        in_text = more.in_text;
        spelled = more.spelled;
      } in
      if_cases P (unilib.is_digit c) (maybe_reset-Inv numerical c false s v) (
        if_cases P (unilib.is_letter c) (maybe_reset-Inv term c false s v) (
          if_cases P (unilib.is_whitespace c) (maybe_reset-Inv whitespace c true s v) (
            if_cases P (unilib.is_dot c && preserve)
              (if_cases P
                (same_type s.current_token_type numerical && next_is_digit unilib preserve text)
                keep finish)
              finish)))

  scan_numbers-Inv :
      (text : UnicodeText) (i n : ℕ) (done : UnicodeText) (s : NumberScan)
      → i + length text ≡ n
      → NumberInv i done s
      → NumberInv n (done ++ text) (scan_numbers unilib preserve text i s)
  unfolding scan_numbers
  scan_numbers-Inv [] i n done s e v =
      let same : i ≡ n = omega arith in rw append-nil (subst (λ k. NumberInv k done s) same v)
  scan_numbers-Inv (c ∷ text) i n done s e v =
      let next =
        scan_numbers-Inv text (suc i) n (done ++ c ∷ []) _ (omega arith)
          (number_round-Inv c text s v) in
      subst
        (λ d.
          NumberInv n d
            (scan_numbers unilib preserve text (suc i) (number_round unilib preserve i c text s)))
        (append_assoc done (c ∷ []) text) next

  number_tokenize-Pushed :
      (text : UnicodeText) → Pushed (length text) text (number_tokenize unilib preserve text)
  unfolding number_tokenize start_numbers
  number_tokenize-Pushed text =
      push_token-Pushed (as_scan (scan_numbers unilib preserve text 0 start_numbers)) (
        scan_numbers-Inv text 0 (length text) [] start_numbers (omega arith) (
          Pushed-Inv [] start_numbers false (record { emitted = tt; ordered = tt; spelled = refl })
            refl refl))

  -- The values of the tokens of the number tokenizer, joined, are the text.
  pub spell-number_tokenize :
      (text : UnicodeText) → spell (number_tokenize unilib preserve text) ≡ text
  spell-number_tokenize text = (number_tokenize-Pushed text).spelled

  -- The tokens of the number tokenizer stand one behind the other; each holds a codepoint, is as long
  -- as its value, and ends within the text.
  pub number_tokenize-ordered :
      (text : UnicodeText)
      → Pairwise Precedes (number_tokenize unilib preserve text)
        × All (IsEmitted (length text)) (number_tokenize unilib preserve text)
  number_tokenize-ordered text = let p = number_tokenize-Pushed text in (p.ordered, p.emitted)
