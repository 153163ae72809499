-- ===== src/Duration/Find.antt =====
-- native/annotator/duration/duration.cc: the search for durations over the tokens of a text.
pub mod Known
pub mod Progress
pub mod Reads
use Prim.Native.Nat.{bit_and}
use external_libtextclassifi.Prelude.{
  ℕ, zero, suc, ℤ, pos, ◌+ℤ◌, eqb_ℤ, Bool, true, false, not, ◌&&◌, ◌||◌, List, [], ◌∷◌, ◌++◌,
  Option, none, some, ltb, ◌==◌, length, drop, ◌^◌, pos_part, if◌then◌else◌,
}
use external_libtextclassifi.Span.{CodepointSpan, invalid_index}
use external_libtextclassifi.Text.{UnicodeText, is_empty, substring}
use external_libtextclassifi.Token.{Token}
use external_libtextclassifi.Features.Boundary.{strip_boundary_codepoints}
use external_libtextclassifi.Duration.Units.{
  DurationUnit, unknown, ParsedDurationAtom, empty_atom, half, to_int64,
  parsed_duration_atoms_to_millis,
}
use external_libtextclassifi.Duration.Parse.{
  Services, DurationAnnotatorOptions, Parsed, parse_quantity_token, parse_duration_unit_token,
  parse_quantity_duration_unit_token, parse_filler_token,
}

-- The `AnnotatedSpan` of a duration: of each classification its `duration_ms`. The scores are two
-- constants of the options, and the collection is that of durations.
pub record DurationSpan : Type 0 where
  pub span : CodepointSpan
  pub classification : List ℤ

-- `AnnotatedSpan()`
abbrev pub empty_span : DurationSpan
empty_span = record {
  span = record { first = invalid_index; second = invalid_index };
  classification = [];
}

-- The variables of the loop. The code sets `quantity_end_index` before it reads it.
pub record Search : Type 0 where
  pub start_index : ℤ
  pub end_index : ℤ
  pub quantity_end_index : ℤ
  pub has_quantity : Bool
  pub parsed_duration : ParsedDurationAtom
  pub parsed_duration_atoms : List ParsedDurationAtom

-- One round: `go_on` is false where the loop breaks.
pub record Round : Type 0 where
  pub go_on : Bool
  pub search : Search

-- The loop ends with its variables and with `token_index`.
pub record Ended : Type 0 where
  pub search : Search
  pub token_index : ℕ

-- The token index that the search returns, and its out parameter.
pub record Found : Type 0 where
  pub next : ℕ
  pub result : DurationSpan

abbrev pub start_search : Search
start_search = record {
  start_index = invalid_index;
  end_index = invalid_index;
  quantity_end_index = invalid_index;
  has_quantity = false;
  parsed_duration = empty_atom;
  parsed_duration_atoms = [];
}

-- `if (start_index == kInvalidIndex) start_index = token.start`
unfoldable pub started : Token → Search → Search
started token s = record s {
  start_index = if eqb_ℤ s.start_index invalid_index then token.start else s.start_index;
}

unfoldable pub take_quantity : Token → ParsedDurationAtom → Search → Search
unfolding started
take_quantity token parsed s = record (started token s) {
  has_quantity = true;
  quantity_end_index = token.end;
  parsed_duration = parsed;
}

unfoldable pub take_atom : Token → ParsedDurationAtom → Search → Search
unfolding started
take_atom token parsed s = record (started token s) {
  end_index = token.end;
  parsed_duration_atoms = s.parsed_duration_atoms ++ parsed ∷ [];
  has_quantity = false;
  parsed_duration = empty_atom;
}

-- `parsed_duration_atoms.rbegin()->unit`
unfoldable pub last_unit : List ParsedDurationAtom → DurationUnit
last_unit [] = unknown
last_unit (atom ∷ []) = atom.unit
last_unit (atom ∷ next ∷ atoms) = last_unit (next ∷ atoms)

module _ (svc : Services) (options : DurationAnnotatorOptions) where
  -- The unit, if the first condition of the branch lets the token be read as one.
  unfoldable pub unit_here : Token → Search → Option DurationUnit
  unit_here token s =
      if not options.require_quantity || s.has_quantity
      then parse_duration_unit_token svc options token.value
      else none

  -- The second alternative of that branch, and what follows it.
  unfoldable pub quantity_unit_round : Token → Search → Round
  quantity_unit_round token s =
      let parsed = parse_quantity_duration_unit_token svc options token.value s.parsed_duration in
      elim parsed.found [
        | true ↦ record { go_on = true; search = take_atom token parsed.value s }
        | false ↦ record {
          go_on = parse_filler_token svc options token.value;
          search = record s { parsed_duration = parsed.value };
        }
      ]

  unfoldable pub unit_round : Token → Search → Round
  unit_round token s = elim (unit_here token s) [
    | some unit ↦ record {
      go_on = true;
      search = take_atom token (record s.parsed_duration { unit = unit }) s;
    }
    | none ↦ quantity_unit_round token s
  ]

  unfoldable pub round : Token → Search → Round
  round token s = elim (parse_quantity_token svc options token.value s.parsed_duration) [
    | some parsed ↦ record { go_on = true; search = take_quantity token parsed s }
    | none ↦ unit_round token s
  ]

  unfoldable pub search_from : List Token → ℕ → Search → Ended
  search_from [] token_index s = record { search = s; token_index = token_index }
  search_from (token ∷ tokens) token_index s =
      let r = round token s in
      elim r.go_on [
        | true ↦ search_from tokens (suc token_index) r.search
        | false ↦ record { search = r.search; token_index = token_index }
      ]

  -- The milliseconds: those of the atoms, and of the suffix "and a half".
  unfoldable pub duration_ms : Search → ℤ
  duration_ms s =
      if s.has_quantity && s.parsed_duration.plus_half
      then to_int64 (
          parsed_duration_atoms_to_millis s.parsed_duration_atoms
          +ℤ parsed_duration_atoms_to_millis
              (record half { unit = last_unit s.parsed_duration_atoms } ∷ []))
      else parsed_duration_atoms_to_millis s.parsed_duration_atoms

  -- The end of the span, past a quantity without a unit if that is counted in.
  unfoldable pub span_end : Search → ℤ
  span_end s =
      if s.has_quantity
        && (s.parsed_duration.plus_half || options.enable_dangling_quantity_interpretation)
      then s.quantity_end_index
      else s.end_index

  unfoldable pub duration_span : UnicodeText → Search → DurationSpan
  duration_span context s = record {
    span =
        strip_boundary_codepoints context svc.ignored_span_boundary_codepoints
          svc.ignored_span_boundary_codepoints
          (record { first = s.start_index; second = span_end s });
    classification = duration_ms s ∷ [];
  }

  -- `FindDurationStartingAt`
  unfoldable pub find_duration_starting_at : UnicodeText → List Token → ℕ → Found
  find_duration_starting_at context tokens start_token_index =
      let ended = search_from (drop start_token_index tokens) start_token_index start_search in
      if is_empty ended.search.parsed_duration_atoms
      then record { next = start_token_index; result = empty_span }
      else record { next = ended.token_index; result = duration_span context ended.search }

  unfoldable pub is_enabled : ℕ → Bool
  is_enabled annotation_usecase =
      options.enabled
      && not (bit_and options.enabled_annotation_usecases (2 ^ annotation_usecase) == 0)

  -- The loop of `FindAll`, on fuel. `none` is no more fuel.
  unfoldable pub find_all_from :
      ℕ → UnicodeText → List Token → ℕ → List DurationSpan → Option (List DurationSpan)
  find_all_from zero context tokens i results = if ltb i (length tokens) then none else some results
  find_all_from (suc n) context tokens i results = elim (ltb i (length tokens)) [
    | false ↦ some results
    | true ↦
        let found = find_duration_starting_at context tokens i in
        elim (found.next == i) [
          | true ↦ find_all_from n context tokens (suc i) results
          | false ↦ find_all_from n context tokens found.next (results ++ found.result ∷ [])
        ]
  ]

  -- `FindAll`
  unfoldable pub find_all :
      UnicodeText → List Token → ℕ → List DurationSpan → Option (List DurationSpan)
  find_all context tokens annotation_usecase results =
      if is_enabled annotation_usecase
      then find_all_from (length tokens) context tokens 0 results
      else some results

  -- `ClassifyText`, with `FeatureProcessor::Tokenize`. `none` is `return false`.
  unfoldable pub classify_text :
      (UnicodeText → List Token) → UnicodeText → CodepointSpan → ℕ → Option (List ℤ)
  classify_text tokenize context selection_indices annotation_usecase =
      let tokens = tokenize (
        substring context (pos_part selection_indices.first) (pos_part selection_indices.second)) in
      let found = find_duration_starting_at context tokens 0 in
      if not (is_enabled annotation_usecase)
      then none
      else if is_empty tokens || not (found.next == length tokens)
      then none
      else some found.result.classification
