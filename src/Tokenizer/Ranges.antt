-- ===== src/Tokenizer/Ranges.antt =====
-- native/utils/tokenizer.cc and utils/codepoint-range.cc: sorted ranges of codepoints, and the lookup of a
-- codepoint in them by `std::lower_bound`.
pub mod Lookup
use Prim.Native.Nat.{bit_and}
use external_libtextclassifi.Prelude.{
  ℕ, ℤ, negsuc, Bool, true, false, not, ◌&&◌, List, [], ◌∷◌, Option, none, some, map, ltb, leb,
  ◌==◌, if◌then◌else◌, sort,
}
use external_libtextclassifi.Span.{Iterator, lower_bound}

-- `CodepointRangeStruct`, the codepoints from `start` up to but not `end`
pub record CodepointRange : Type 0 where
  pub start : ℕ
  pub end : ℕ

-- `SortCodepointRanges`
unfoldable pub sort_codepoint_ranges : List CodepointRange → List CodepointRange
sort_codepoint_ranges = sort (λ a b. ltb a.start b.start)

abbrev pub range_holds : ℕ → CodepointRange → Bool
range_holds codepoint range = leb range.start codepoint && ltb codepoint range.end

-- `IsCodepointInRanges`: only the first range that ends behind the codepoint is looked at.
unfoldable pub is_codepoint_in_ranges : ℕ → List CodepointRange → Bool
is_codepoint_in_ranges codepoint ranges =
    elim (lower_bound (λ range. leb range.end codepoint) [] ranges).rest [
      | [] ↦ false
      | it ∷ _ ↦ range_holds codepoint it
    ]

-- The flags of `TokenizationCodepointRange_::Role`.
abbrev pub split_before : ℕ
split_before = 1

abbrev pub split_after : ℕ
split_after = 2

abbrev pub discard_codepoint : ℕ
discard_codepoint = 4

abbrev pub default_role : ℕ
default_role = 0

-- `role & flag`
abbrev pub has_role : ℕ → ℕ → Bool
has_role role flag = not (bit_and role flag == 0)

abbrev pub invalid_script : ℤ
invalid_script = negsuc 0

abbrev pub unknown_script : ℤ
unknown_script = negsuc 1

-- `TokenizationCodepointRangeT`
pub record TokenizationRange : Type 0 where
  pub start : ℕ
  pub end : ℕ
  pub role : ℕ
  pub script_id : ℤ

-- `FindTokenizationRange`
unfoldable pub find_tokenization_range : List TokenizationRange → ℕ → Option TokenizationRange
find_tokenization_range ranges codepoint =
    elim (lower_bound (λ range. leb range.end codepoint) [] ranges).rest [
      | [] ↦ none
      | it ∷ _ ↦ if leb it.start codepoint && ltb codepoint it.end then some it else none
    ]

pub record RoleAndScript : Type 0 where
  pub role : ℕ
  pub script : ℤ

-- `GetScriptAndRole`
unfoldable pub get_script_and_role : List TokenizationRange → ℕ → RoleAndScript
get_script_and_role ranges codepoint = elim (find_tokenization_range ranges codepoint) [
  | none ↦ record { role = default_role; script = unknown_script }
  | some range ↦ record { role = range.role; script = range.script_id }
]
