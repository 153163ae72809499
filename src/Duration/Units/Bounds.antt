-- ===== src/Duration/Units/Bounds.antt =====
-- The `int64` of `ParsedDurationAtomsToMillis` is large enough for seven atoms.
use native.Mathlib.Nat.{mul-le-mul_right}
use external_libtextclassifi.Prelude.{
  ℕ, suc, ◌+◌, ◌*◌, ◌/◌, ◌≤◌, ℤ, pos, negsuc, ◌+ℤ◌, ◌≤ℤ◌, eqb_ℤ, pos_part, neg_part, sub_ℕ,
  +ℤ_parts, List, [], ◌∷◌, ◌≡◌, inl, inr, arith, All, length, Bool-cases,
}
use external_libtextclassifi.Duration.Units.{
  DurationUnit, unknown, week, day, hour, minute, second, ParsedDurationAtom,
  parsed_duration_atoms_to_millis,
}
use external_libtextclassifi.Duration.Units.Total.{
  IsKnown, unit_length, times, lasts, total, IsInt64Of-in_range,
  parsed_duration_atoms_to_millis-IsInt64Of,
}

-- An `int` of 32 bits.
abbrev pub IsInt32 : ℤ → Type 0
IsInt32 a = (negsuc 2147483647 ≤ℤ a) × (a ≤ℤ pos 2147483647)

-- At most `n` away from 0.
abbrev Within : ℕ → ℤ → Type 0
Within n a = (pos_part a ≤ neg_part a + n) × (neg_part a ≤ pos_part a + n)

Within-sum : (n m : ℕ) (a b : ℤ) → Within n a → Within m b → Within (n + m) (a +ℤ b)
Within-sum n m a b h k = (omega (arith, +ℤ_parts a b, h, k), omega (arith, +ℤ_parts a b, h, k))

negative : (n k : ℕ) → n ≤ k → Within k (sub_ℕ 0 n)
negative n k le = ground arith

times-Within : (a : ℤ) (m : ℕ) → IsInt32 a → Within (2147483648 * m) (times a m)
times-Within (pos n) m h =
    let le : n * m ≤ 2147483648 * m = mul-le-mul_right m (omega (arith, h)) in
    (omega (arith, le), omega arith)
times-Within (negsuc n) m h =
    let le : suc n * m ≤ 2147483648 * m = mul-le-mul_right m (omega (arith, h)) in
    negative (suc n * m) (2147483648 * m) le

unit_length-bound : (unit : DurationUnit) → unit_length unit ≤ 604800000
unit_length-bound unknown = omega arith
unit_length-bound week = omega arith
unit_length-bound day = omega arith
unit_length-bound hour = omega arith
unit_length-bound minute = omega arith
unit_length-bound second = omega arith

lasts-Within :
    (atom : ParsedDurationAtom) (m : ℕ)
    → IsInt32 atom.value
    → m ≤ 604800000
    → Within 1298798110612800000 (lasts atom m)
lasts-Within atom m h le =
    let product = times-Within atom.value m h in
    elim (Bool-cases atom.plus_half) [
      | inl e ↦ rw e (
          let sum =
            Within-sum (2147483648 * m) (m / 2) _ (pos (m / 2)) product
              (omega arith, omega arith) in
          (omega (arith, sum, le), omega (arith, sum, le)))
      | inr e ↦ elim (Bool-cases (eqb_ℤ atom.value (pos 0))) [
        | inl z ↦ rw (e, z) (omega (arith, le), omega arith)
        | inr z ↦ rw (e, z) (omega (arith, product, le), omega (arith, product, le))
      ]
    ]

total-Within :
    (atoms : List ParsedDurationAtom)
    → All (λ atom. IsInt32 atom.value) atoms
    → Within (1298798110612800000 * length atoms) (total atoms)
total-Within [] h = (omega arith, omega arith)
total-Within (atom ∷ atoms) (z, h) =
    let sum =
      Within-sum _ _ (lasts atom (unit_length atom.unit)) (total atoms)
        (lasts-Within atom (unit_length atom.unit) z (unit_length-bound atom.unit))
        (total-Within atoms h) in
    (omega (arith, sum), omega (arith, sum))

-- If there are at most seven atoms, and each has a unit and a value of 32 bits, then the `int64` of
-- the milliseconds is exactly what the atoms last, added: the value times the length of the unit, and
-- half of it for "half", where no value and no half count as one.
pub parsed_duration_atoms_to_millis-total :
    (atoms : List ParsedDurationAtom)
    → All IsKnown atoms
    → All (λ atom. IsInt32 atom.value) atoms
    → length atoms ≤ 7
    → parsed_duration_atoms_to_millis atoms ≡ total atoms
parsed_duration_atoms_to_millis-total atoms known h few =
    let (is, in_range) = parsed_duration_atoms_to_millis-IsInt64Of atoms known in
    let bound = total-Within atoms h in
    IsInt64Of-in_range _ (total atoms) is in_range
      (omega (arith, bound, few), omega (arith, bound, few))
