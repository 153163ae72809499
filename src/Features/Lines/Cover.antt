-- ===== src/Features/Lines/Cover.antt =====
-- The lines of `FindSubstrings` hold exactly the positions of the text that are no separators.
use external_libtextclassifi.Prelude.{
  ℕ, suc, ◌+◌, ◌≤◌, ◌<◌, Bool, true, false, List, [], ◌∷◌, ◌≡◌, refl, sym, ap, ◌∙◌, ◌⊎◌, inl, inr,
  arith, All, Any, Pairwise, All-append, All-map, Any-append_left, Any-append_right,
  Pairwise-append, Bool-cases, length, drop, drop-drop, get_or-drop, ◌==◌, subst,
}
use external_libtextclassifi.Text.{UnicodeText, at}
use external_libtextclassifi.Features.Lines.{Line, push_range, find_from, find_substrings}

-- The position lies on the line.
abbrev pub On : ℕ → Line → Type 0
On i line = (line.first ≤ i) × (i < line.second)

module _ (separators : ℕ → Bool) (text : UnicodeText) where
  -- The line is not empty, ends by `bound`, and holds no separator.
  pub record IsLine (bound : ℕ) (line : Line) : Type 0 where
    pub not_empty : line.first < line.second
    pub within : line.second ≤ bound
    pub clear : (i : ℕ) → On i line → separators (at text i) ≡ false

  -- The lines found before `curr`, up to the one that starts at `start`.
  pub record Lines (start : ℕ) (ranges : List Line) : Type 0 where
    pub lines : All (IsLine start) ranges
    pub ordered : Pairwise (λ a b. a.second ≤ b.first) ranges
    pub complete : (i : ℕ) → i < start → separators (at text i) ≡ false → Any (On i) ranges

  IsLine-later : {m n : ℕ} (line : Line) → m ≤ n → IsLine m line → IsLine n line
  IsLine-later line le l = record {
    not_empty = l.not_empty;
    within = omega (arith, l.within);
    clear = l.clear;
  }

  push_range-Lines :
      (start curr : ℕ) (ranges : List Line)
      → start ≤ curr
      → ((i : ℕ) → start ≤ i → i < curr → separators (at text i) ≡ false)
      → Lines start ranges
      → Lines curr (push_range start curr ranges)
  unfolding push_range
  push_range-Lines start curr ranges le clear l = elim (Bool-cases (start == curr)) [
    | inl e ↦ let same : start ≡ curr = ground arith in rw e (subst (λ k. Lines k ranges) same l)
    | inr e ↦
        let line : Line = record { first = start; second = curr } in
        let here : IsLine curr line = record {
          not_empty = ground arith;
          within = omega arith;
          clear = λ i on. clear i on.0 on.1;
        } in
        rw e (record {
          lines =
              All-append (IsLine curr) ranges (line ∷ [])
                (All-map _ _ (λ r. IsLine-later r le) ranges l.lines) (here, tt);
          ordered =
              Pairwise-append _ ranges (line ∷ []) l.ordered (tt, tt)
                (All-map _ _ (λ r is. (is.within, tt)) ranges l.lines);
          complete = λ i lt h. elim (lt_or_ge i start) [
            | inl before ↦ Any-append_left (On i) ranges (line ∷ []) (l.complete i before h)
            | inr from ↦ Any-append_right (On i) ranges (line ∷ []) (inl (from, lt))
          ];
        })
  ]
    where
      lt_or_ge : (i n : ℕ) → (i < n) ⊎ (n ≤ i)
      lt_or_ge i n = omega arith

  find_from-Lines :
      (rest : UnicodeText) (start curr n : ℕ) (ranges : List Line)
      → drop curr text ≡ rest
      → curr + length rest ≡ n
      → start ≤ curr
      → ((i : ℕ) → start ≤ i → i < curr → separators (at text i) ≡ false)
      → Lines start ranges
      → Lines n (find_from separators rest start curr ranges)
  unfolding find_from
  find_from-Lines [] start curr n ranges d e le clear l =
      let same : curr ≡ n = omega arith in
      subst (λ k. Lines k (push_range start curr ranges)) same
        (push_range-Lines start curr ranges le clear l)
  find_from-Lines (c ∷ rest) start curr n ranges d e le clear l =
      let shift : curr + 0 ≡ curr = omega arith in
      let here : at text curr ≡ c =
        ap (λ k. at text k) (sym shift) ∙ sym (get_or-drop curr 0 text 0) ∙ ap (λ r. at r 0) d in
      let plus : curr + 1 ≡ suc curr = omega arith in
      let next : drop (suc curr) text ≡ rest =
        ap (λ k. drop k text) (sym plus) ∙ sym (drop-drop curr 1 text) ∙ ap (λ r. drop 1 r) d in
      elim (Bool-cases (separators c)) [
        | inl s ↦
            let pushed = push_range-Lines start curr ranges le clear l in
            let at_curr : separators (at text curr) ≡ true = ap separators here ∙ s in
            rw (s, find_from)
              (find_from-Lines rest (suc curr) (suc curr) n (push_range start curr ranges) next
                (omega arith) (omega arith) (λ i ge lt. absurd (omega arith))
                (after_separator curr (push_range start curr ranges) at_curr pushed))
        | inr s ↦
            rw (s, find_from)
              (find_from-Lines rest start (suc curr) n ranges next (omega arith) (omega arith)
                (extend start curr (ap separators here ∙ s) clear) l)
      ]
    where
      eq_or_lt : (i m : ℕ) → i < suc m → (i ≡ m) ⊎ (i < m)
      eq_or_lt i m h = omega arith

      extend :
          (a b : ℕ)
          → separators (at text b) ≡ false
          → ((i : ℕ) → a ≤ i → i < b → separators (at text i) ≡ false)
          → (i : ℕ) → a ≤ i
          → i < suc b
          → separators (at text i) ≡ false
      extend a b h clear i ge lt = elim (eq_or_lt i b lt) [
        | inl same ↦ subst (λ k. separators (at text k) ≡ false) (sym same) h
        | inr before ↦ clear i ge before
      ]

      after_separator :
          (m : ℕ) (rs : List Line) → separators (at text m) ≡ true → Lines m rs → Lines (suc m) rs
      after_separator m rs h l = record {
        lines = All-map _ _ (λ r. IsLine-later r (omega arith)) rs l.lines;
        ordered = l.ordered;
        complete = λ i lt k. elim (eq_or_lt i m lt) [
          | inl same ↦ absurd (clash i m same h k)
          | inr before ↦ l.complete i before k
        ];
      }
        where
          clash :
              (i m : ℕ) → i ≡ m → separators (at text m) ≡ true → separators (at text i) ≡ false → ⊥
          clash i m same h k = cc

  -- The lines that `FindSubstrings` finds are in order; none is empty, reaches over the end of the
  -- text, or holds a separator; and each position of the text that is no separator lies on one.
  pub find_substrings-Lines : Lines (length text) (find_substrings separators text)
  unfolding find_substrings
  find_substrings-Lines =
      find_from-Lines text 0 0 (length text) [] refl (omega arith) (omega arith)
        (λ i ge lt. absurd (omega arith))
        (record { lines = tt; ordered = tt; complete = λ i lt h. absurd (omega arith) })
