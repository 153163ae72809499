-- ===== src/Duration/Parse.antt =====
-- native/annotator/duration/duration.cc: the tables, and the parsers of one token. The text that the code
-- passes on is UTF-8, so a separator that it finds among the bytes is a codepoint below 128.
use external_libtextclassifi.Prelude.{
  ℕ, ℤ, Bool, true, false, not, ◌&&◌, ◌||◌, List, [], ◌∷◌, ◌++◌, Option, none, some, ltb, ◌==◌,
  ◌>>=◌, if◌then◌else◌,
}
use external_libtextclassifi.Text.{UnicodeText, same_text}
use external_libtextclassifi.Features.Boundary.{strip_value}
use external_libtextclassifi.Duration.Units.{
  DurationUnit, week, day, hour, minute, second, ParsedDurationAtom, to_int32,
}

-- What the annotator asks of others: `UniLib::ToLowerText`; the number that `strtol` reads, if it finds a
-- digit and stops at the end of the text; and the set of ignored boundary codepoints of the feature
-- processor.
pub record Services : Type 0 where
  pub to_lower_text : UnicodeText → UnicodeText
  pub strtol : UnicodeText → Option ℤ
  pub ignored_span_boundary_codepoints : ℕ → Bool

-- `DurationAnnotatorOptions`; a missing vector is empty.
pub record DurationAnnotatorOptions : Type 0 where
  pub enabled : Bool
  pub enabled_annotation_usecases : ℕ
  pub week_expressions : List UnicodeText
  pub day_expressions : List UnicodeText
  pub hour_expressions : List UnicodeText
  pub minute_expressions : List UnicodeText
  pub second_expressions : List UnicodeText
  pub filler_expressions : List UnicodeText
  pub half_expressions : List UnicodeText
  pub sub_token_separator_codepoints : List ℕ
  pub require_quantity : Bool
  pub enable_dangling_quantity_interpretation : Bool

-- A map from text to units: the last entry for a key is the first of the list.
abbrev pub UnitMap : Type 0
UnitMap = List (UnicodeText × DurationUnit)

unfoldable pub find_unit : UnicodeText → UnitMap → Option DurationUnit
find_unit key [] = none
find_unit key ((k, unit) ∷ mapping) = if same_text k key then some unit else find_unit key mapping

-- `find` of a set of texts.
unfoldable pub has_text : UnicodeText → List UnicodeText → Bool
has_text key [] = false
has_text key (k ∷ set) = same_text k key || has_text key set

unfoldable pub has_codepoint : ℕ → List ℕ → Bool
has_codepoint c [] = false
has_codepoint c (d ∷ set) = d == c || has_codepoint c set

module _ (svc : Services) where
  -- `ParseInt32`
  unfoldable pub parse_int32 : UnicodeText → Option ℤ
  unfolding to_int32
  parse_int32 c_str = do value ← svc.strtol c_str; some (to_int32 value)

  unfoldable pub fill_duration_unit_map : List UnicodeText → DurationUnit → UnitMap → UnitMap
  fill_duration_unit_map [] duration_unit target_map = target_map
  fill_duration_unit_map (e ∷ expressions) duration_unit target_map =
      fill_duration_unit_map expressions duration_unit
        ((svc.to_lower_text e, duration_unit) ∷ target_map)

  unfoldable pub build_token_to_duration_unit_mapping : DurationAnnotatorOptions → UnitMap
  unfolding fill_duration_unit_map
  build_token_to_duration_unit_mapping options =
      fill_duration_unit_map options.second_expressions second (
        fill_duration_unit_map options.minute_expressions minute (
          fill_duration_unit_map options.hour_expressions hour (
            fill_duration_unit_map options.day_expressions day
              (fill_duration_unit_map options.week_expressions week []))))

  unfoldable pub build_string_set : List UnicodeText → List UnicodeText
  build_string_set [] = []
  build_string_set (s ∷ strings) = svc.to_lower_text s ∷ build_string_set strings

-- What a parser says, and what it leaves in its out parameter, also where it says no.
pub record Parsed : Type 0 where
  pub found : Bool
  pub value : ParsedDurationAtom

module _ (svc : Services) (options : DurationAnnotatorOptions) where
  -- The stripped value in lower case.
  unfoldable pub lowercase_token_value : UnicodeText → UnicodeText
  lowercase_token_value value =
      svc.to_lower_text (strip_value svc.ignored_span_boundary_codepoints value)

  -- `ParseQuantityToken`: `none` is `return false`, which leaves the atom as it is.
  unfoldable pub parse_quantity_token : UnicodeText → ParsedDurationAtom → Option ParsedDurationAtom
  parse_quantity_token [] value = none
  parse_quantity_token (c ∷ cs) value =
      let lowercase = lowercase_token_value (c ∷ cs) in
      if has_text lowercase (build_string_set svc options.half_expressions)
      then some (record value { plus_half = true })
      else do parsed_value ← parse_int32 svc lowercase; some (record value { value = parsed_value })

  -- `ParseDurationUnitToken`
  unfoldable pub parse_duration_unit_token : UnicodeText → Option DurationUnit
  parse_duration_unit_token value =
      find_unit (lowercase_token_value value) (build_token_to_duration_unit_mapping svc options)

  unfoldable pub is_separator : ℕ → Bool
  is_separator c = ltb c 128 && has_codepoint c options.sub_token_separator_codepoints

  -- The end of `ParseQuantityDurationUnitToken`, with the last sub-token.
  unfoldable pub parse_last_sub_token : UnicodeText → Bool → ParsedDurationAtom → Parsed
  parse_last_sub_token sub_token has_quantity value =
      if not options.require_quantity || has_quantity
      then elim (parse_duration_unit_token sub_token) [
        | none ↦ record { found = false; value = value }
        | some unit ↦ record { found = true; value = record value { unit = unit } }
      ]
      else record { found = false; value = value }

  -- The loop of `ParseQuantityDurationUnitToken`.
  unfoldable pub parse_sub_tokens : UnicodeText → UnicodeText → Bool → ParsedDurationAtom → Parsed
  parse_sub_tokens [] sub_token has_quantity value =
      parse_last_sub_token sub_token has_quantity value
  parse_sub_tokens (c ∷ cs) sub_token has_quantity value = elim (is_separator c) [
    | false ↦ parse_sub_tokens cs (sub_token ++ c ∷ []) has_quantity value
    | true ↦ elim has_quantity [
      | true ↦ record { found = false; value = value }
      | false ↦ elim (parse_quantity_token sub_token value) [
        | none ↦ record { found = false; value = value }
        | some parsed ↦ parse_sub_tokens cs [] true parsed
      ]
    ]
  ]

  -- `ParseQuantityDurationUnitToken`
  unfoldable pub parse_quantity_duration_unit_token : UnicodeText → ParsedDurationAtom → Parsed
  parse_quantity_duration_unit_token [] value = record { found = false; value = value }
  parse_quantity_duration_unit_token (c ∷ cs) value = parse_sub_tokens (c ∷ cs) [] false value

  -- `ParseFillerToken`
  unfoldable pub parse_filler_token : UnicodeText → Bool
  parse_filler_token value =
      has_text (lowercase_token_value value) (build_string_set svc options.filler_expressions)
