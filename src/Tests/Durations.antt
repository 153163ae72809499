-- ===== src/Tests/Durations.antt =====
-- Durations: "3h" and "3 h" and "h and half", with one-letter expressions.
use external_libtextclassifi.Prelude.{
  ◌-◌, ℤ, pos, negsuc, true, false, List, [], ◌∷◌, ◌≡◌, refl, Option, none, some, ltb, ◌&&◌, ◌+ℤ◌,
  ◌-ℤ◌, arith, if◌then◌else◌,
}
use external_libtextclassifi.Text.{UnicodeText}
use external_libtextclassifi.Token.{Token, make_token}
use external_libtextclassifi.Features.Boundary.{
  count_forward, count_backward, count_ignored, shrink, strip_between, strip_boundary_codepoints,
  strip_value,
}
use external_libtextclassifi.Span.{valid_non_empty_span}
use external_libtextclassifi.Duration.Units.{
  ParsedDurationAtom, half, multiplier, scale, quantity, half_of, millis_from,
  parsed_duration_atoms_to_millis, day, hour, week, to_int64, to_int32,
}
use external_libtextclassifi.Duration.Units.Bounds.{parsed_duration_atoms_to_millis-total}
use external_libtextclassifi.Duration.Units.Total.{IsKnown, total}
use external_libtextclassifi.Duration.Parse.{
  Services, DurationAnnotatorOptions, find_unit, has_text, has_codepoint, fill_duration_unit_map,
  build_token_to_duration_unit_mapping, build_string_set, lowercase_token_value,
  parse_quantity_token, parse_int32, parse_duration_unit_token, is_separator, parse_last_sub_token,
  parse_sub_tokens, parse_quantity_duration_unit_token, parse_filler_token,
}
use external_libtextclassifi.Duration.Find.{
  started, take_quantity, take_atom, last_unit, unit_here, quantity_unit_round, unit_round, round,
  search_from, duration_ms, span_end, duration_span, find_duration_starting_at, is_enabled,
  find_all_from, find_all,
}

-- A text of one digit is a number.
abbrev digit : UnicodeText → Option ℤ
digit (c ∷ []) = if ltb 47 c && ltb c 58 then some (pos (c - 48)) else none
digit _ = none

abbrev services : Services
services = record {
  to_lower_text = λ text. text;
  strtol = digit;
  ignored_span_boundary_codepoints = λ c. false;
}

abbrev options : DurationAnnotatorOptions
options = record {
  enabled = true;
  enabled_annotation_usecases = 3;
  week_expressions = [];
  day_expressions = (100 ∷ []) ∷ [];
  hour_expressions = (104 ∷ []) ∷ [];
  minute_expressions = (109 ∷ []) ∷ [];
  second_expressions = (115 ∷ []) ∷ [];
  filler_expressions = (38 ∷ []) ∷ [];
  half_expressions = (189 ∷ []) ∷ [];
  sub_token_separator_codepoints = 45 ∷ [];
  require_quantity = true;
  enable_dangling_quantity_interpretation = false;
}

-- "3-h & ½ x 2 m"
abbrev text : UnicodeText
text = 51 ∷ 45 ∷ 104 ∷ 38 ∷ 189 ∷ 120 ∷ 50 ∷ 109 ∷ []

abbrev tokens : List Token
tokens =
    make_token (51 ∷ 45 ∷ 104 ∷ []) (pos 0) (pos 3)
    ∷ make_token (38 ∷ []) (pos 3) (pos 4)
    ∷ make_token (189 ∷ []) (pos 4) (pos 5)
    ∷ make_token (120 ∷ []) (pos 5) (pos 6)
    ∷ make_token (50 ∷ []) (pos 6) (pos 7)
    ∷ make_token (109 ∷ []) (pos 7) (pos 8)
    ∷ []

-- Three hours and a half, and two minutes.
find_all_run :
    find_all services options text tokens 0 []
    ≡ some (
        record {
          span = record { first = pos 0; second = pos 5 };
          classification = pos 12600000 ∷ [];
        }
        ∷ record {
          span = record { first = pos 6; second = pos 8 };
          classification = pos 120000 ∷ [];
        }
        ∷ [])
unfolding find_all is_enabled find_all_from find_duration_starting_at search_from round unit_round
    quantity_unit_round unit_here take_atom take_quantity started last_unit duration_ms span_end
    duration_span parse_filler_token parse_quantity_duration_unit_token parse_sub_tokens
    parse_last_sub_token is_separator has_codepoint parse_duration_unit_token parse_quantity_token
    lowercase_token_value build_string_set build_token_to_duration_unit_mapping
    fill_duration_unit_map find_unit has_text count_forward count_backward count_ignored shrink
    strip_between strip_boundary_codepoints strip_value valid_non_empty_span
    parsed_duration_atoms_to_millis millis_from multiplier scale quantity half_of parse_int32
    to_int32 to_int64 ◌+ℤ◌ ◌-ℤ◌
find_all_run = refl

abbrev half_hour : ParsedDurationAtom
half_hour = record half { unit = hour }

abbrev two_days : ParsedDurationAtom
two_days = record { unit = day; value = pos 2; plus_half = false }

half_hour-IsKnown : IsKnown half_hour
unfolding multiplier
half_hour-IsKnown = (_, refl)

two_days-IsKnown : IsKnown two_days
unfolding multiplier
two_days-IsKnown = (_, refl)

parsed_duration_atoms_to_millis-total_example :
    parsed_duration_atoms_to_millis (half_hour ∷ two_days ∷ []) ≡ total (half_hour ∷ two_days ∷ [])
parsed_duration_atoms_to_millis-total_example =
    parsed_duration_atoms_to_millis-total (half_hour ∷ two_days ∷ [])
      (half_hour-IsKnown, (two_days-IsKnown, tt))
      ((omega arith, omega arith), ((omega arith, omega arith), tt)) (omega arith)

abbrev many_weeks : ParsedDurationAtom
many_weeks = record { unit = week; value = pos 2147483647; plus_half = false }

-- Eight atoms leave the range of an `int64`.
eight_atoms :
    parsed_duration_atoms_to_millis (
      many_weeks ∷ many_weeks ∷ many_weeks ∷ many_weeks ∷ many_weeks ∷ many_weeks ∷ many_weeks
      ∷ many_weeks ∷ [])
    ≡ negsuc 8056359196064751615
unfolding parsed_duration_atoms_to_millis millis_from multiplier scale quantity half_of to_int64
    ◌+ℤ◌
eight_atoms = refl
