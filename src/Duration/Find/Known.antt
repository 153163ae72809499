-- ===== src/Duration/Find/Known.antt =====
-- The parsers and the search only make atoms whose unit is one of the five that have a length.
use external_libtextclassifi.Prelude.{
  ℕ, suc, Bool, true, false, List, [], ◌∷◌, ◌++◌, ◌≡◌, refl, some, inl, inr, arith, All, All-append,
  Bool-cases, Option-cases, subst, not, ◌||◌,
}
use external_libtextclassifi.Text.{UnicodeText, same_text}
use external_libtextclassifi.Token.{Token}
use external_libtextclassifi.Duration.Units.{
  DurationUnit, week, day, hour, minute, second, ParsedDurationAtom, multiplier,
}
use external_libtextclassifi.Duration.Units.Total.{IsKnown}
use external_libtextclassifi.Duration.Parse.{
  Services, DurationAnnotatorOptions, UnitMap, find_unit, fill_duration_unit_map,
  build_token_to_duration_unit_mapping, parse_quantity_token, parse_duration_unit_token,
  parse_last_sub_token, parse_sub_tokens, parse_quantity_duration_unit_token, is_separator,
}
use external_libtextclassifi.Duration.Find.{
  Search, take_atom, take_quantity, unit_here, quantity_unit_round, unit_round, round, search_from,
}

abbrev pub HasLength : DurationUnit → Type 0
HasLength unit = (m : ℕ) × (multiplier unit ≡ some m)

find_unit-HasLength :
    (key : UnicodeText) (mapping : UnitMap) (unit : DurationUnit)
    → All (λ e. HasLength e.1) mapping
    → find_unit key mapping ≡ some unit
    → HasLength unit
unfolding find_unit
find_unit-HasLength key [] unit h e = cc
find_unit-HasLength key ((k, u) ∷ mapping) unit (known, h) e = elim (Bool-cases (same_text k key)) [
  | inl same ↦ let here : u ≡ unit = ground arith in subst HasLength here known
  | inr other ↦ find_unit-HasLength key mapping unit h (ground arith)
]

module _ (svc : Services) where
  fill-HasLength :
      (expressions : List UnicodeText) (unit : DurationUnit) (mapping : UnitMap)
      → HasLength unit
      → All (λ e. HasLength e.1) mapping
      → All (λ e. HasLength e.1) (fill_duration_unit_map svc expressions unit mapping)
  unfolding fill_duration_unit_map
  fill-HasLength [] unit mapping known h = h
  fill-HasLength (e ∷ expressions) unit mapping known h =
      fill-HasLength expressions unit _ known (known, h)

module _ (svc : Services) (options : DurationAnnotatorOptions) where
  mapping-HasLength : All (λ e. HasLength e.1) (build_token_to_duration_unit_mapping svc options)
  unfolding build_token_to_duration_unit_mapping multiplier
  mapping-HasLength =
      fill-HasLength svc options.second_expressions second _ (_, refl)
        (fill-HasLength svc options.minute_expressions minute _ (_, refl)
          (fill-HasLength svc options.hour_expressions hour _ (_, refl)
            (fill-HasLength svc options.day_expressions day _ (_, refl)
              (fill-HasLength svc options.week_expressions week _ (_, refl) tt))))

  parse_duration_unit_token-HasLength :
      (value : UnicodeText) (unit : DurationUnit)
      → parse_duration_unit_token svc options value ≡ some unit
      → HasLength unit
  unfolding parse_duration_unit_token
  parse_duration_unit_token-HasLength value unit h =
      find_unit-HasLength _ _ unit mapping-HasLength h

  parse_last_sub_token-IsKnown :
      (sub_token : UnicodeText) (has_quantity : Bool) (value : ParsedDurationAtom)
      → (parse_last_sub_token svc options sub_token has_quantity value).found ≡ true
      → IsKnown (parse_last_sub_token svc options sub_token has_quantity value).value
  unfolding parse_last_sub_token
  parse_last_sub_token-IsKnown sub_token has_quantity value =
      elim (Bool-cases (not options.require_quantity || has_quantity)) [
        | inl e ↦ rw e (elim (Option-cases (parse_duration_unit_token svc options sub_token)) [
          | inl n ↦ rw n (λ h. cc)
          | inr (unit, s) ↦ rw s (λ h. parse_duration_unit_token-HasLength sub_token unit s)
        ])
        | inr e ↦ rw e (λ h. cc)
      ]

  parse_sub_tokens-IsKnown :
      (cs sub_token : UnicodeText) (has_quantity : Bool) (value : ParsedDurationAtom)
      → (parse_sub_tokens svc options cs sub_token has_quantity value).found ≡ true
      → IsKnown (parse_sub_tokens svc options cs sub_token has_quantity value).value
  unfolding parse_sub_tokens
  parse_sub_tokens-IsKnown [] sub_token has_quantity value =
      parse_last_sub_token-IsKnown sub_token has_quantity value
  parse_sub_tokens-IsKnown (c ∷ cs) sub_token true value =
      elim (Bool-cases (is_separator svc options c)) [
        | inl e ↦ rw (e, parse_sub_tokens) (λ h. cc)
        | inr e ↦
            rw (e, parse_sub_tokens) (parse_sub_tokens-IsKnown cs (sub_token ++ c ∷ []) true value)
      ]
  parse_sub_tokens-IsKnown (c ∷ cs) sub_token false value =
      elim (Bool-cases (is_separator svc options c)) [
        | inl e ↦ elim (Option-cases (parse_quantity_token svc options sub_token value)) [
          | inl n ↦ rw (e, n, parse_sub_tokens) (λ h. cc)
          | inr (parsed, s) ↦
              rw (e, s, parse_sub_tokens) (parse_sub_tokens-IsKnown cs [] true parsed)
        ]
        | inr e ↦
            rw (e, parse_sub_tokens) (parse_sub_tokens-IsKnown cs (sub_token ++ c ∷ []) false value)
      ]

  parse_quantity_duration_unit_token-IsKnown :
      (value : UnicodeText) (atom : ParsedDurationAtom)
      → (parse_quantity_duration_unit_token svc options value atom).found ≡ true
      → IsKnown (parse_quantity_duration_unit_token svc options value atom).value
  unfolding parse_quantity_duration_unit_token
  parse_quantity_duration_unit_token-IsKnown [] atom h = cc
  parse_quantity_duration_unit_token-IsKnown (c ∷ cs) atom h =
      parse_sub_tokens-IsKnown (c ∷ cs) [] false atom h

  -- All atoms of the search have a unit.
  abbrev pub AreKnown : Search → Type 0
  AreKnown s = All IsKnown s.parsed_duration_atoms

  take_atom-AreKnown :
      (token : Token) (atom : ParsedDurationAtom) (s : Search)
      → IsKnown atom
      → AreKnown s
      → AreKnown (take_atom token atom s)
  unfolding take_atom
  take_atom-AreKnown token atom s k h =
      All-append IsKnown s.parsed_duration_atoms (atom ∷ []) h (k, tt)

  take_quantity-AreKnown :
      (token : Token) (atom : ParsedDurationAtom) (s : Search)
      → AreKnown s
      → AreKnown (take_quantity token atom s)
  unfolding take_quantity
  take_quantity-AreKnown token atom s h = h

  unit_here-HasLength :
      (token : Token) (s : Search) (unit : DurationUnit)
      → unit_here svc options token s ≡ some unit
      → HasLength unit
  unfolding unit_here
  unit_here-HasLength token s unit =
      elim (Bool-cases (not options.require_quantity || s.has_quantity)) [
        | inl e ↦ rw e (parse_duration_unit_token-HasLength token.value unit)
        | inr e ↦ rw e (λ h. cc)
      ]

  quantity_unit_round-AreKnown :
      (token : Token) (s : Search)
      → AreKnown s
      → AreKnown (quantity_unit_round svc options token s).search
  unfolding quantity_unit_round
  quantity_unit_round-AreKnown token s h =
      let atom = s.parsed_duration in
      elim (Bool-cases (parse_quantity_duration_unit_token svc options token.value atom).found) [
        | inl e ↦
            rw (e, quantity_unit_round)
              (take_atom-AreKnown token _ s
                (parse_quantity_duration_unit_token-IsKnown token.value atom e) h)
        | inr e ↦ rw (e, quantity_unit_round) h
      ]

  unit_round-AreKnown :
      (token : Token) (s : Search) → AreKnown s → AreKnown (unit_round svc options token s).search
  unfolding unit_round
  unit_round-AreKnown token s h = elim (Option-cases (unit_here svc options token s)) [
    | inl n ↦ rw (n, unit_round) (quantity_unit_round-AreKnown token s h)
    | inr (unit, e) ↦
        rw (e, unit_round) (take_atom-AreKnown token _ s (unit_here-HasLength token s unit e) h)
  ]

  round-AreKnown :
      (token : Token) (s : Search) → AreKnown s → AreKnown (round svc options token s).search
  unfolding round
  round-AreKnown token s h =
      elim (Option-cases (parse_quantity_token svc options token.value s.parsed_duration)) [
        | inl n ↦ rw (n, round) (unit_round-AreKnown token s h)
        | inr (parsed, e) ↦ rw (e, round) (take_quantity-AreKnown token parsed s h)
      ]

  pub search_from-AreKnown :
      (tokens : List Token) (i : ℕ) (s : Search)
      → AreKnown s
      → AreKnown (search_from svc options tokens i s).search
  unfolding search_from
  search_from-AreKnown [] i s h = h
  search_from-AreKnown (token ∷ tokens) i s h =
      let k = round-AreKnown token s h in
      elim (Bool-cases (round svc options token s).go_on) [
        | inl e ↦ rw (e, search_from) (search_from-AreKnown tokens (suc i) _ k)
        | inr e ↦ rw (e, search_from) k
      ]
