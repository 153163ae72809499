-- ===== src/Tokenizer/Internal/Sound.antt =====
-- The internal tokenizer: the text that its tokens spell, and their order.
use external_libtextclassifi.Prelude.{
  ℕ, suc, ◌+◌, ◌≤◌, ℤ, pos, ◌+ℤ◌, ◌≤ℤ◌, Bool, not, List, [], ◌∷◌, ◌++◌, ◌≡◌, ◌≢◌, refl, sym, ap,
  ◌∙◌, arith, All, Pairwise, All-append, All-map, Pairwise-append, Bool-cases, inl, inr, length,
  length-append, append_assoc, append-nil, if◌then◌else◌,
}
use external_libtextclassifi.Text.{UnicodeText, is_empty}
use external_libtextclassifi.Token.{Token}
use external_libtextclassifi.Tokenizer.Spelling.{spell, spell-snoc, IsSized, Precedes}
use external_libtextclassifi.Tokenizer.Ranges.{
  TokenizationRange, RoleAndScript, get_script_and_role, has_role, split_after, discard_codepoint,
}
use external_libtextclassifi.Tokenizer.Internal.{
  Scan, push_token, restart, append_codepoint, start_scan, splits_before, before_part, append_part,
  after_part, scan_codepoint, scan_text, internal_tokenize,
}

-- A token that is returned: it holds a codepoint, and ends by `bound`.
pub record IsEmitted (bound : ℕ) (t : Token) : Type 0 where
  pub sized : IsSized t
  pub not_empty : t.value ≢ []
  pub in_text : t.end ≤ℤ pos bound

-- The state before the codepoint with index `i`, when `done` is what was kept so far.
pub record Inv (i : ℕ) (done : UnicodeText) (s : Scan) : Type 0 where
  pub emitted : All (IsEmitted i) s.result
  pub ordered : Pairwise Precedes s.result
  pub behind : All (λ t. Precedes t s.new_token) s.result
  pub sized : IsSized s.new_token
  pub in_text : s.new_token.end ≤ℤ pos i
  pub spelled : spell s.result ++ s.new_token.value ≡ done

IsEmitted-later : {i j : ℕ} (t : Token) → i ≤ j → IsEmitted i t → IsEmitted j t
IsEmitted-later t le e = record {
  sized = e.sized;
  not_empty = e.not_empty;
  in_text = omega (arith, e.in_text);
}

push_token-cases :
    (P : List Token → Type 0) (ts : List Token) (t : Token)
    → (t.value ≡ [] → P ts)
    → (t.value ≢ [] → P (ts ++ t ∷ []))
    → P (push_token ts t)
unfolding push_token
push_token-cases P ts t empty full = go t.value refl
  where
    go : (v : UnicodeText) → t.value ≡ v → P (if is_empty v then ts else ts ++ t ∷ [])
    go [] e = empty e
    go (c ∷ v) e = full (λ k. cons-nil (sym e ∙ k))
      where
        cons-nil : (c ∷ v) ≡ [] → ⊥
        cons-nil h = cc

Inv-later : {i j : ℕ} {done : UnicodeText} {s : Scan} → i ≤ j → Inv i done s → Inv j done s
Inv-later le v = record {
  emitted = All-map _ _ (λ t. IsEmitted-later t le) _ v.emitted;
  ordered = v.ordered;
  behind = v.behind;
  sized = v.sized;
  in_text = omega (arith, v.in_text);
  spelled = v.spelled;
}

-- What `restart` leaves as the result.
pub record Pushed (i : ℕ) (done : UnicodeText) (ts : List Token) : Type 0 where
  pub emitted : All (IsEmitted i) ts
  pub ordered : Pairwise Precedes ts
  pub spelled : spell ts ≡ done

pub push_token-Pushed :
    {i : ℕ} {done : UnicodeText} (s : Scan)
    → Inv i done s
    → Pushed i done (push_token s.result s.new_token)
push_token-Pushed {i} {done} s v =
    push_token-cases (Pushed i done) s.result s.new_token
      (λ empty. record {
        emitted = v.emitted;
        ordered = v.ordered;
        spelled =
            sym (append-nil (spell s.result))
            ∙ ap (λ w. spell s.result ++ w) (sym empty)
            ∙ v.spelled;
      })
      (λ full. record {
        emitted =
            All-append _ s.result (s.new_token ∷ []) v.emitted
              (record { sized = v.sized; not_empty = full; in_text = v.in_text }, tt);
        ordered =
            Pairwise-append _ s.result (s.new_token ∷ []) v.ordered (tt, tt)
              (All-map _ _ (λ t h. (h, tt)) s.result v.behind);
        spelled = spell-snoc s.result s.new_token ∙ v.spelled;
      })

pub restart-Inv : {i : ℕ} {done : UnicodeText} (s : Scan) → Inv i done s → Inv i done (restart i s)
unfolding restart
restart-Inv {i} {done} s v =
    let p = push_token-Pushed s v in
    record {
      emitted = p.emitted;
      ordered = p.ordered;
      behind = All-map _ _ (λ t e. e.in_text) _ p.emitted;
      sized = record { a = i; start_at = refl; end_at = ap pos (omega arith) };
      in_text = omega arith;
      spelled = append-nil _ ∙ p.spelled;
    }

sized_more : (a n m : ℕ) (e : ℤ) → e ≡ pos (a + n) → m ≡ n + 1 → e +ℤ pos 1 ≡ pos (a + m)
unfolding ◌+ℤ◌
sized_more a n m e h k = rw (h, k) (ground arith)

end_more : (e : ℤ) (i : ℕ) → e ≤ℤ pos i → e +ℤ pos 1 ≤ℤ pos (suc i)
unfolding ◌+ℤ◌
end_more e i h = ground arith

pub append_codepoint-Inv :
    {i : ℕ} {done : UnicodeText} (c : ℕ) (s : Scan)
    → Inv i done s
    → Inv (suc i) (done ++ c ∷ []) (record s { new_token = append_codepoint c s.new_token })
unfolding append_codepoint
append_codepoint-Inv {i} {done} c s v =
    let w = s.new_token.value in
    record {
      emitted = All-map _ _ (λ t. IsEmitted-later t (omega arith)) _ v.emitted;
      ordered = v.ordered;
      behind = v.behind;
      sized = record {
        a = v.sized.a;
        start_at = v.sized.start_at;
        end_at = sized_more v.sized.a (length w) _ _ v.sized.end_at (length-append w (c ∷ []));
      };
      in_text = end_more _ i v.in_text;
      spelled = sym (append_assoc (spell s.result) w (c ∷ [])) ∙ ap (λ d. d ++ c ∷ []) v.spelled;
    }

module _ (ranges : List TokenizationRange) (split : Bool) where
  -- The codepoints that no range discards.
  unfoldable pub kept : UnicodeText → UnicodeText
  kept [] = []
  kept (c ∷ text) =
      (if not (has_role (get_script_and_role ranges c).role discard_codepoint) then c ∷ [] else [])
      ++ kept text

  before_part-Inv :
      {i : ℕ} {done : UnicodeText} (rs : RoleAndScript) (s : Scan)
      → Inv i done s
      → Inv i done (before_part ranges split rs i s)
  unfolding before_part
  before_part-Inv rs s v = elim (Bool-cases (splits_before ranges split rs s.last_script)) [
    | inl e ↦ rw e (restart-Inv s v)
    | inr e ↦ rw e v
  ]

  after_part-Inv :
      {i : ℕ} {done : UnicodeText} (rs : RoleAndScript) (s : Scan)
      → Inv (suc i) done s
      → Inv (suc i) done (after_part ranges split rs i s)
  unfolding after_part
  after_part-Inv rs s v = elim (Bool-cases (has_role rs.role split_after)) [
    | inl e ↦ rw e (restart-Inv s v)
    | inr e ↦ rw e v
  ]

  append_part-Inv :
      {i : ℕ} {done : UnicodeText} (rs : RoleAndScript) (c : ℕ) (s : Scan)
      → Inv i done s
      → Inv
          (suc i)
          (done ++ (if not (has_role rs.role discard_codepoint) then c ∷ [] else []))
          (append_part ranges split rs c s)
  unfolding append_part
  append_part-Inv rs c s v = elim (Bool-cases (has_role rs.role discard_codepoint)) [
    | inl e ↦ rw (e, append-nil) (Inv-later (omega arith) v)
    | inr e ↦ rw e (append_codepoint-Inv c s v)
  ]

  scan_codepoint-Inv :
      {i : ℕ} {done : UnicodeText} (rs : RoleAndScript) (c : ℕ) (s : Scan)
      → Inv i done s
      → Inv
          (suc i)
          (done ++ (if not (has_role rs.role discard_codepoint) then c ∷ [] else []))
          (scan_codepoint ranges split rs i c s)
  unfolding scan_codepoint
  scan_codepoint-Inv rs c s v =
      let v' = after_part-Inv rs _ (append_part-Inv rs c _ (before_part-Inv rs s v)) in
      record {
        emitted = v'.emitted;
        ordered = v'.ordered;
        behind = v'.behind;
        sized = v'.sized;
        in_text = v'.in_text;
        spelled = v'.spelled;
      }

  scan_text-Inv :
      (text : UnicodeText) (i n : ℕ) (done : UnicodeText) (s : Scan)
      → i + length text ≡ n
      → Inv i done s
      → Inv n (done ++ kept text) (scan_text ranges split text i s)
  unfolding scan_text kept
  scan_text-Inv [] i n done s e v = rw append-nil (Inv-later (omega arith) v)
  scan_text-Inv (c ∷ text) i n done s e v = rw (← append_assoc) (
      scan_text-Inv text (suc i) n _ _ (omega arith)
        (scan_codepoint-Inv (get_script_and_role ranges c) c s v))

  internal_tokenize-Pushed :
      (text : UnicodeText) → Pushed (length text) (kept text) (internal_tokenize ranges split text)
  unfolding internal_tokenize start_scan
  internal_tokenize-Pushed text = push_token-Pushed _ (
      scan_text-Inv text 0 (length text) [] _ (omega arith) (record {
        emitted = tt;
        ordered = tt;
        behind = tt;
        sized = record { a = 0; start_at = refl; end_at = refl };
        in_text = omega arith;
        spelled = refl;
      }))

  -- The values of the tokens, joined, are the codepoints of the text that no range discards.
  pub spell-internal_tokenize :
      (text : UnicodeText) → spell (internal_tokenize ranges split text) ≡ kept text
  spell-internal_tokenize text = (internal_tokenize-Pushed text).spelled

  -- The tokens stand one behind the other; each holds a codepoint, is as long as its value, and ends
  -- within the text.
  pub internal_tokenize-ordered :
      (text : UnicodeText)
      → Pairwise Precedes (internal_tokenize ranges split text)
        × All (IsEmitted (length text)) (internal_tokenize ranges split text)
  internal_tokenize-ordered text = let p = internal_tokenize-Pushed text in (p.ordered, p.emitted)
