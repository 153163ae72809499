-- ===== src/Duration/Units.antt =====
-- native/annotator/duration/duration.cc, `ParsedDurationAtomsToMillis`.
pub mod Bounds
pub mod Total
use external_libtextclassifi.Prelude.{
  ℕ, zero, suc, ◌*◌, ◌/◌, ◌%◌, ◌^◌, ◌-◌, ltb, ℤ, pos, negsuc, sub_ℕ, ◌+ℤ◌, eqb_ℤ, Bool, true, false,
  not, ◌&&◌, List, [], ◌∷◌, Option, none, some, if◌then◌else◌,
}

pub data DurationUnit : Type 0 where
  unknown : DurationUnit
  week : DurationUnit
  day : DurationUnit
  hour : DurationUnit
  minute : DurationUnit
  second : DurationUnit

-- The value is an `int`.
pub record ParsedDurationAtom : Type 0 where
  pub unit : DurationUnit
  pub value : ℤ
  pub plus_half : Bool

abbrev pub empty_atom : ParsedDurationAtom
empty_atom = record { unit = unknown; value = pos 0; plus_half = false }

-- `ParsedDurationAtom::Half()`
abbrev pub half : ParsedDurationAtom
half = record { unit = unknown; value = pos 0; plus_half = true }

-- The switch: `none` where it logs an error.
unfoldable pub multiplier : DurationUnit → Option ℕ
multiplier unknown = none
multiplier week = some (7 * 24 * 60 * 60 * 1000)
multiplier day = some (24 * 60 * 60 * 1000)
multiplier hour = some (60 * 60 * 1000)
multiplier minute = some (60 * 1000)
multiplier second = some 1000

-- What an `int64` holds of a number: one outside of its range wraps around. C++ leaves open what a sum
-- outside of the range is; on the machines in use it is this.
unfoldable pub to_int64 : ℤ → ℤ
to_int64 (pos n) =
    let low = n % 2 ^ 64 in if ltb low (2 ^ 63) then pos low else negsuc (2 ^ 64 - 1 - low)
to_int64 (negsuc n) =
    let low = n % 2 ^ 64 in if ltb low (2 ^ 63) then negsuc low else pos (2 ^ 64 - 1 - low)

-- What an `int` holds, which has 32 bits, likewise.
unfoldable pub to_int32 : ℤ → ℤ
to_int32 (pos n) =
    let low = n % 2 ^ 32 in if ltb low (2 ^ 31) then pos low else negsuc (2 ^ 32 - 1 - low)
to_int32 (negsuc n) =
    let low = n % 2 ^ 32 in if ltb low (2 ^ 31) then negsuc low else pos (2 ^ 32 - 1 - low)

-- `value * multiplier`
unfoldable pub scale : ℤ → ℕ → ℤ
scale (pos n) m = pos (n * m)
scale (negsuc n) m = sub_ℕ 0 (suc n * m)

-- No quantity counts as 1, but for "half hour".
unfoldable pub quantity : ParsedDurationAtom → ℤ
quantity atom = if eqb_ℤ atom.value (pos 0) && not atom.plus_half then pos 1 else atom.value

-- `plus_half * multiplier / 2`
unfoldable pub half_of : ParsedDurationAtom → ℕ → ℤ
half_of atom m = pos (if atom.plus_half then m / 2 else 0)

-- `ParsedDurationAtomsToMillis`, with its `result`.
unfoldable pub millis_from : List ParsedDurationAtom → ℤ → ℤ
unfolding multiplier to_int64 scale quantity half_of
millis_from [] result = result
millis_from (atom ∷ atoms) result = elim (multiplier atom.unit) [
  | none ↦ negsuc 0
  | some m ↦
      millis_from atoms
        (to_int64 (to_int64 (result +ℤ to_int64 (scale (quantity atom) m)) +ℤ half_of atom m))
]

unfoldable pub parsed_duration_atoms_to_millis : List ParsedDurationAtom → ℤ
unfolding millis_from
parsed_duration_atoms_to_millis atoms = millis_from atoms (pos 0)
