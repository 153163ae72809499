-- ===== src/Duration/Find/Reads.antt =====
-- The loop of `FindDurationStartingAt`, as a relation between tokens and the atoms that they give.
use external_libtextclassifi.Prelude.{
  ℕ, suc, ◌+◌, ◌≤◌, ◌<◌, Bool, true, false, not, ◌||◌, List, [], ◌∷◌, ◌++◌, ◌≡◌, refl, sym, ap, ◌∙◌,
  none, some, ◌⊎◌, inl, inr, arith, Bool-cases, Option-cases, length, subst, append-nil,
  append_assoc,
}
use external_libtextclassifi.Text.{is_empty}
use external_libtextclassifi.Token.{Token}
use external_libtextclassifi.Duration.Units.{DurationUnit, ParsedDurationAtom, empty_atom}
use external_libtextclassifi.Duration.Parse.{
  Services, DurationAnnotatorOptions, parse_quantity_token, parse_duration_unit_token,
  parse_quantity_duration_unit_token, parse_filler_token,
}
use external_libtextclassifi.Duration.Find.{
  Search, Ended, Round, started, take_quantity, take_atom, unit_here, quantity_unit_round,
  unit_round, round, search_from,
}

module _ (svc : Services) (options : DurationAnnotatorOptions) where
  -- The token cannot be read as a unit: a quantity is required and missing, or no unit is spelled so.
  abbrev pub HasNoUnit : Bool → Token → Type 0
  HasNoUnit has_quantity token =
      ((not options.require_quantity || has_quantity) ≡ false)
      ⊎ (parse_duration_unit_token svc options token.value ≡ none)

  -- `Reads p q tokens n atoms p' q'`: with the atom `p` begun, and with a quantity in it if `q` says so,
  -- the first `n` tokens give the atoms and leave `p'` and `q'`. After an atom a new one begins.
  pub data Reads
      : ParsedDurationAtom
        → Bool
        → List Token
        → ℕ
        → List ParsedDurationAtom
        → ParsedDurationAtom
        → Bool
        → Type 0 where
    no_token : {p : ParsedDurationAtom} {q : Bool} → Reads p q [] 0 [] p q
    quantity :
        {p p' next : ParsedDurationAtom} {q q' : Bool} {token : Token} {tokens : List Token} {n : ℕ}
        {atoms : List ParsedDurationAtom}
        → parse_quantity_token svc options token.value p ≡ some next
        → Reads next true tokens n atoms p' q'
        → Reads p q (token ∷ tokens) (suc n) atoms p' q'
    unit :
        {p p' : ParsedDurationAtom} {q q' : Bool} {token : Token} {tokens : List Token} {n : ℕ}
        {atoms : List ParsedDurationAtom} {u : DurationUnit}
        → parse_quantity_token svc options token.value p ≡ none
        → (not options.require_quantity || q) ≡ true
        → parse_duration_unit_token svc options token.value ≡ some u
        → Reads empty_atom false tokens n atoms p' q'
        → Reads p q (token ∷ tokens) (suc n) (record p { unit = u } ∷ atoms) p' q'
    quantity_and_unit :
        {p p' next : ParsedDurationAtom} {q q' : Bool} {token : Token} {tokens : List Token} {n : ℕ}
        {atoms : List ParsedDurationAtom}
        → parse_quantity_token svc options token.value p ≡ none
        → HasNoUnit q token
        → parse_quantity_duration_unit_token svc options token.value p
          ≡ record { found = true; value = next }
        → Reads empty_atom false tokens n atoms p' q'
        → Reads p q (token ∷ tokens) (suc n) (next ∷ atoms) p' q'
    filler :
        {p p' next : ParsedDurationAtom} {q q' : Bool} {token : Token} {tokens : List Token} {n : ℕ}
        {atoms : List ParsedDurationAtom}
        → parse_quantity_token svc options token.value p ≡ none
        → HasNoUnit q token
        → parse_quantity_duration_unit_token svc options token.value p
          ≡ record { found = false; value = next }
        → parse_filler_token svc options token.value ≡ true
        → Reads next q tokens n atoms p' q'
        → Reads p q (token ∷ tokens) (suc n) atoms p' q'
    other :
        {p next : ParsedDurationAtom} {q : Bool} {token : Token} {tokens : List Token}
        → parse_quantity_token svc options token.value p ≡ none
        → HasNoUnit q token
        → parse_quantity_duration_unit_token svc options token.value p
          ≡ record { found = false; value = next }
        → parse_filler_token svc options token.value ≡ false
        → Reads p q (token ∷ tokens) 0 [] next q

  -- Where the loop ends, and what it has read since it had the variables `s`.
  pub record Follows (s : Search) (tokens : List Token) (i : ℕ) (e : Ended) : Type 0 where
    pub n : ℕ
    pub atoms : List ParsedDurationAtom
    pub next_at : e.token_index ≡ i + n
    pub within : n ≤ length tokens
    pub moved : is_empty atoms ≡ false → 0 < n
    pub collected : e.search.parsed_duration_atoms ≡ s.parsed_duration_atoms ++ atoms
    pub reads :
        Reads s.parsed_duration s.has_quantity tokens n atoms e.search.parsed_duration
          e.search.has_quantity

  quantity-Follows :
      (token : Token) (tokens : List Token) (i : ℕ) (s : Search) (e : Ended)
      (p : ParsedDurationAtom)
      → parse_quantity_token svc options token.value s.parsed_duration ≡ some p
      → Follows (take_quantity token p s) tokens (suc i) e
      → Follows s (token ∷ tokens) i e
  unfolding take_quantity started
  quantity-Follows token tokens i s e p found f = record {
    n = suc f.n;
    atoms = f.atoms;
    next_at = omega (arith, f.next_at);
    within = omega (arith, f.within);
    moved = λ some_atom. omega arith;
    collected = f.collected;
    reads = quantity found f.reads;
  }

  -- An atom is added.
  atom-Follows :
      (token : Token) (tokens : List Token) (i : ℕ) (s : Search) (e : Ended)
      (p : ParsedDurationAtom)
      → ((n : ℕ) (atoms : List ParsedDurationAtom) (p' : ParsedDurationAtom) (q' : Bool)
          → Reads empty_atom false tokens n atoms p' q'
          → Reads s.parsed_duration s.has_quantity (token ∷ tokens) (suc n) (p ∷ atoms) p' q')
      → Follows (take_atom token p s) tokens (suc i) e
      → Follows s (token ∷ tokens) i e
  unfolding take_atom started
  atom-Follows token tokens i s e p step f = record {
    n = suc f.n;
    atoms = p ∷ f.atoms;
    next_at = omega (arith, f.next_at);
    within = omega (arith, f.within);
    moved = λ some_atom. omega arith;
    collected = f.collected ∙ append_assoc s.parsed_duration_atoms (p ∷ []) f.atoms;
    reads = step f.n f.atoms _ _ f.reads;
  }

  filler-Follows :
      (token : Token) (tokens : List Token) (i : ℕ) (s : Search) (e : Ended)
      (p : ParsedDurationAtom)
      → parse_quantity_token svc options token.value s.parsed_duration ≡ none
      → HasNoUnit s.has_quantity token
      → parse_quantity_duration_unit_token svc options token.value s.parsed_duration
        ≡ record { found = false; value = p }
      → parse_filler_token svc options token.value ≡ true
      → Follows (record s { parsed_duration = p }) tokens (suc i) e
      → Follows s (token ∷ tokens) i e
  filler-Follows token tokens i s e p none_here no_unit refused fills f = record {
    n = suc f.n;
    atoms = f.atoms;
    next_at = omega (arith, f.next_at);
    within = omega (arith, f.within);
    moved = λ some_atom. omega arith;
    collected = f.collected;
    reads = filler none_here no_unit refused fills f.reads;
  }

  unit_here-cases :
      (token : Token) (s : Search)
      → ((unit_here svc options token s ≡ none) × HasNoUnit s.has_quantity token)
        ⊎ ((u : DurationUnit) × (unit_here svc options token s ≡ some u)
            × ((not options.require_quantity || s.has_quantity) ≡ true)
            × (parse_duration_unit_token svc options token.value ≡ some u))
  unfolding unit_here
  unit_here-cases token s = elim (Bool-cases (not options.require_quantity || s.has_quantity)) [
    | inr e ↦ inl (rw e refl, inl e)
    | inl e ↦ elim (Option-cases (parse_duration_unit_token svc options token.value)) [
      | inl n ↦ inl (rw (e, n) refl, inr n)
      | inr (u, h) ↦ inr (u, rw (e, h) refl, e, h)
    ]
  ]

  step_on :
      (token : Token) (tokens : List Token) (i : ℕ) (s t : Search)
      → round svc options token s ≡ record { go_on = true; search = t }
      → search_from svc options (token ∷ tokens) i s ≡ search_from svc options tokens (suc i) t
  unfolding search_from
  step_on token tokens i s t e =
      let on : (round svc options token s).go_on ≡ true = ap (λ r. r.go_on) e in
      rw (on, search_from) (ap (λ r. search_from svc options tokens (suc i) r.search) e)

  step_off :
      (token : Token) (tokens : List Token) (i : ℕ) (s t : Search)
      → round svc options token s ≡ record { go_on = false; search = t }
      → search_from svc options (token ∷ tokens) i s ≡ record { search = t; token_index = i }
  unfolding search_from
  step_off token tokens i s t e =
      let off : (round svc options token s).go_on ≡ false = ap (λ r. r.go_on) e in
      rw (off, search_from) (ap (λ (r : Round). record { search = r.search; token_index = i }) e)

  other-Follows :
      (token : Token) (tokens : List Token) (i : ℕ) (s : Search) (p : ParsedDurationAtom)
      → parse_quantity_token svc options token.value s.parsed_duration ≡ none
      → HasNoUnit s.has_quantity token
      → parse_quantity_duration_unit_token svc options token.value s.parsed_duration
        ≡ record { found = false; value = p }
      → parse_filler_token svc options token.value ≡ false
      → Follows s
          (token ∷ tokens)
          i
          (record { search = record s { parsed_duration = p }; token_index = i })
  other-Follows token tokens i s p none_here no_unit refused no_filler = record {
    n = 0;
    atoms = [];
    next_at = omega arith;
    within = omega arith;
    moved = λ some_atom. cc;
    collected = sym (append-nil s.parsed_duration_atoms);
    reads = other none_here no_unit refused no_filler;
  }

  pub search_from-Follows :
      (tokens : List Token) (i : ℕ) (s : Search)
      → Follows s tokens i (search_from svc options tokens i s)
  unfolding search_from round unit_round quantity_unit_round
  search_from-Follows [] i s = record {
    n = 0;
    atoms = [];
    next_at = omega arith;
    within = omega arith;
    moved = λ some_atom. cc;
    collected = sym (append-nil s.parsed_duration_atoms);
    reads = no_token;
  }
  search_from-Follows (token ∷ tokens) i s =
      let p = s.parsed_duration in
      let parsed = parse_quantity_duration_unit_token svc options token.value p in
      elim (Option-cases (parse_quantity_token svc options token.value p)) [
        | inr (next, e) ↦
            subst (Follows s (token ∷ tokens) i)
              (sym (step_on token tokens i s (take_quantity token next s) (rw (e, round) refl)))
              (quantity-Follows token tokens i s _ next e
                (search_from-Follows tokens (suc i) (take_quantity token next s)))
        | inl e ↦ elim (unit_here-cases token s) [
          | inr (u, here, q, h) ↦
              subst (Follows s (token ∷ tokens) i)
                (sym (
                  step_on token tokens i s (take_atom token (record p { unit = u }) s)
                    (rw (e, round, here, unit_round) refl)))
                (atom-Follows token tokens i s _ (record p { unit = u })
                  (λ n atoms p' q' r. unit e q h r)
                  (search_from-Follows tokens (suc i) (take_atom token (record p { unit = u }) s)))
          | inl (here, no_unit) ↦ elim (Bool-cases parsed.found) [
            | inl f ↦
                subst (Follows s (token ∷ tokens) i)
                  (sym (
                    step_on token tokens i s (take_atom token parsed.value s)
                      (rw (e, round, here, unit_round, f, quantity_unit_round) refl)))
                  (atom-Follows token tokens i s _ parsed.value
                    (λ n atoms p' q' r.
                      quantity_and_unit e no_unit
                        (ap (λ b. record { found = b; value = parsed.value }) f) r)
                    (search_from-Follows tokens (suc i) (take_atom token parsed.value s)))
            | inr f ↦ elim (Bool-cases (parse_filler_token svc options token.value)) [
              | inl g ↦
                  subst (Follows s (token ∷ tokens) i)
                    (sym (
                      step_on token tokens i s (record s { parsed_duration = parsed.value })
                        (rw (e, round, here, unit_round, f, quantity_unit_round, g) refl)))
                    (filler-Follows token tokens i s _ parsed.value e no_unit
                      (ap (λ b. record { found = b; value = parsed.value }) f) g
                      (search_from-Follows tokens (suc i)
                        (record s { parsed_duration = parsed.value })))
              | inr g ↦
                  subst (Follows s (token ∷ tokens) i)
                    (sym (
                      step_off token tokens i s (record s { parsed_duration = parsed.value })
                        (rw (e, round, here, unit_round, f, quantity_unit_round, g) refl)))
                    (other-Follows token tokens i s parsed.value e no_unit
                      (ap (λ b. record { found = b; value = parsed.value }) f) g)
            ]
          ]
        ]
      ]
