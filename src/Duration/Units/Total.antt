-- ===== src/Duration/Units/Total.antt =====
-- Durations are sums of unit lengths, up to what an `int64` holds.
use external_libtextclassifi.Prelude.{
  ℕ, suc, ◌+◌, ◌*◌, ◌/◌, ◌<◌, ◌^◌, ℤ, pos, negsuc, ◌+ℤ◌, ◌≤ℤ◌, eqb_ℤ, sub_ℕ, pos_part, neg_part,
  List, [], ◌∷◌, ◌≡◌, refl, sym, ap, ◌∙◌, some, arith, All, if◌then◌else◌, ltb, subst, Bool-cases,
  +ℤ_parts, eq_of_parts, inl, inr, ◌%◌,
}
use external_libtextclassifi.Duration.Units.{
  DurationUnit, unknown, week, day, hour, minute, second, ParsedDurationAtom, multiplier, scale,
  quantity, half_of, millis_from, to_int64, parsed_duration_atoms_to_millis,
}

-- The two differ by a multiple of 2 ^ 64.
abbrev pub IsInt64Of : ℤ → ℤ → Type 0
IsInt64Of d t =
    (j k : ℕ) × (pos_part d + neg_part t + j * 18446744073709551616
      ≡ pos_part t + neg_part d + k * 18446744073709551616)

split_64 : (n : ℕ) → n ≡ n % 2 ^ 64 + (n / 2 ^ 64) * 18446744073709551616
split_64 n = omega arith

low_64 : (n : ℕ) → n % 2 ^ 64 < 18446744073709551616
low_64 n = omega arith

pub to_int64-IsInt64Of : (t : ℤ) → IsInt64Of (to_int64 t) t
unfolding to_int64
to_int64-IsInt64Of (pos n) = elim (Bool-cases (ltb (n % 2 ^ 64) (2 ^ 63))) [
  | inl e ↦ (n / 2 ^ 64, 0, rw e (ground (arith, split_64 n)))
  | inr e ↦ (suc (n / 2 ^ 64), 0, rw e (ground (arith, split_64 n, low_64 n)))
]
to_int64-IsInt64Of (negsuc n) = elim (Bool-cases (ltb (n % 2 ^ 64) (2 ^ 63))) [
  | inl e ↦ (0, n / 2 ^ 64, rw e (ground (arith, split_64 n)))
  | inr e ↦ (0, suc (n / 2 ^ 64), rw e (ground (arith, split_64 n, low_64 n)))
]

pub IsInt64Of-sum : (a b c d : ℤ) → IsInt64Of a b → IsInt64Of c d → IsInt64Of (a +ℤ c) (b +ℤ d)
IsInt64Of-sum a b c d (j, k, h) (l, m, g) =
    (j + l, k + m, omega (arith, +ℤ_parts a c, +ℤ_parts b d, h, g))

pub IsInt64Of-trans : (a b c : ℤ) → IsInt64Of a b → IsInt64Of b c → IsInt64Of a c
IsInt64Of-trans a b c (j, k, h) (l, m, g) = (j + l, k + m, omega (arith, h, g))

-- In its range.
abbrev pub InInt64 : ℤ → Type 0
InInt64 d = (negsuc 9223372036854775807 ≤ℤ d) × (d ≤ℤ pos 9223372036854775807)

pub to_int64-InInt64 : (t : ℤ) → InInt64 (to_int64 t)
unfolding to_int64
to_int64-InInt64 (pos n) = elim (Bool-cases (ltb (n % 2 ^ 64) (2 ^ 63))) [
  | inl e ↦ rw e (ground arith)
  | inr e ↦ rw e (ground (arith, low_64 n))
]
to_int64-InInt64 (negsuc n) = elim (Bool-cases (ltb (n % 2 ^ 64) (2 ^ 63))) [
  | inl e ↦ rw e (ground arith)
  | inr e ↦ rw e (ground (arith, low_64 n))
]

pub IsInt64Of-in_range : (d t : ℤ) → IsInt64Of d t → InInt64 d → InInt64 t → d ≡ t
IsInt64Of-in_range d t (j, k, h) inside within = eq_of_parts d t (omega (arith, h, inside, within))

-- The unit has a length.
abbrev pub IsKnown : ParsedDurationAtom → Type 0
IsKnown atom = (m : ℕ) × (multiplier atom.unit ≡ some m)

-- The length of a unit in milliseconds.
abbrev pub unit_length : DurationUnit → ℕ
unit_length unknown = 0
unit_length week = 604800000
unit_length day = 86400000
unit_length hour = 3600000
unit_length minute = 60000
unit_length second = 1000

known_length : (unit : DurationUnit) (m : ℕ) → multiplier unit ≡ some m → m ≡ unit_length unit
unfolding multiplier
known_length unknown m h = cc
known_length week m h = ground arith
known_length day m h = ground arith
known_length hour m h = ground arith
known_length minute m h = ground arith
known_length second m h = ground arith

abbrev pub times : ℤ → ℕ → ℤ
times (pos n) m = pos (n * m)
times (negsuc n) m = sub_ℕ 0 (suc n * m)

-- A value and a half, one if nothing is said, or the value.
abbrev pub lasts : ParsedDurationAtom → ℕ → ℤ
lasts atom m =
    if atom.plus_half
    then times atom.value m +ℤ pos (m / 2)
    else if eqb_ℤ atom.value (pos 0)
    then pos m
    else times atom.value m

abbrev pub total : List ParsedDurationAtom → ℤ
total [] = pos 0
total (atom ∷ atoms) = lasts atom (unit_length atom.unit) +ℤ total atoms

scale-times : (a : ℤ) (m : ℕ) → scale a m ≡ times a m
unfolding scale
scale-times (pos n) m = refl
scale-times (negsuc n) m = refl

one_time : (m : ℕ) → pos (1 * m) ≡ pos m
one_time m = ap pos (omega arith)

pub add_zero : (a : ℤ) → a +ℤ pos 0 ≡ a
unfolding ◌+ℤ◌
add_zero a = ground arith

zero_add : (a : ℤ) → pos 0 +ℤ a ≡ a
unfolding ◌+ℤ◌
zero_add a = ground arith

add_assoc : (a b c : ℤ) → a +ℤ b +ℤ c ≡ a +ℤ (b +ℤ c)
unfolding ◌+ℤ◌
add_assoc a b c = ground arith

lasts_lem :
    (atom : ParsedDurationAtom) (m : ℕ) → scale (quantity atom) m +ℤ half_of atom m ≡ lasts atom m
unfolding quantity half_of
lasts_lem atom m = elim (Bool-cases atom.plus_half) [
  | inl e ↦ elim (Bool-cases (eqb_ℤ atom.value (pos 0))) [
    | inl z ↦ rw (e, z) (ap (λ t. t +ℤ pos (m / 2)) (scale-times atom.value m))
    | inr z ↦ rw (e, z) (ap (λ t. t +ℤ pos (m / 2)) (scale-times atom.value m))
  ]
  | inr e ↦ elim (Bool-cases (eqb_ℤ atom.value (pos 0))) [
    | inl z ↦ rw (e, z) (add_zero (scale (pos 1) m) ∙ scale-times (pos 1) m ∙ one_time m)
    | inr z ↦ rw (e, z) (add_zero (scale atom.value m) ∙ scale-times atom.value m)
  ]
]

IsInt64Of-refl : (a : ℤ) → IsInt64Of a a
IsInt64Of-refl a = (0, 0, refl)

-- One round of the loop.
abbrev add_atom : ParsedDurationAtom → ℕ → ℤ → ℤ
add_atom atom m result =
    to_int64 (to_int64 (result +ℤ to_int64 (scale (quantity atom) m)) +ℤ half_of atom m)

add_atom-IsInt64Of :
    (atom : ParsedDurationAtom) (m : ℕ) (result : ℤ)
    → IsInt64Of (add_atom atom m result) (result +ℤ lasts atom m)
add_atom-IsInt64Of atom m result =
    let a = scale (quantity atom) m in
    let b = half_of atom m in
    let product =
      IsInt64Of-trans _ _ (result +ℤ a) (to_int64-IsInt64Of (result +ℤ to_int64 a)) (
        IsInt64Of-sum result result (to_int64 a) a (IsInt64Of-refl result)
          (to_int64-IsInt64Of a)) in
    let sum =
      IsInt64Of-trans _ _ (result +ℤ a +ℤ b)
        (to_int64-IsInt64Of (to_int64 (result +ℤ to_int64 a) +ℤ b))
        (IsInt64Of-sum _ (result +ℤ a) b b product (IsInt64Of-refl b)) in
    subst (IsInt64Of (add_atom atom m result))
      (add_assoc result a b ∙ ap (λ t. result +ℤ t) (lasts_lem atom m)) sum

millis_from-IsInt64Of :
    (atoms : List ParsedDurationAtom) (result : ℤ)
    → All IsKnown atoms
    → InInt64 result
    → IsInt64Of (millis_from atoms result) (result +ℤ total atoms)
      × InInt64 (millis_from atoms result)
unfolding millis_from
millis_from-IsInt64Of [] result h inside =
    (subst (IsInt64Of result) (sym (add_zero result)) (IsInt64Of-refl result), inside)
millis_from-IsInt64Of (atom ∷ atoms) result ((m, known), h) inside =
    let next = add_atom atom m result in
    let same = known_length atom.unit m known in
    let length = lasts atom (unit_length atom.unit) in
    let (is, in_range) = millis_from-IsInt64Of atoms next h (
      to_int64-InInt64
        (to_int64 (result +ℤ to_int64 (scale (quantity atom) m)) +ℤ half_of atom m)) in
    let here : IsInt64Of next (result +ℤ length) =
      subst (λ k. IsInt64Of next (result +ℤ lasts atom k)) same
        (add_atom-IsInt64Of atom m result) in
    rw (known, millis_from)
      (
        subst (IsInt64Of (millis_from atoms next)) (add_assoc result length (total atoms)) (
            IsInt64Of-trans (millis_from atoms next) (next +ℤ total atoms)
              (result +ℤ length +ℤ total atoms) is
              (IsInt64Of-sum next (result +ℤ length) (total atoms) (total atoms) here
                (IsInt64Of-refl (total atoms)))),
        in_range,
      )

-- If every atom has a unit, then the milliseconds are in range, and the sum of what the atoms last, but
-- for a multiple of 2 ^ 64.
pub parsed_duration_atoms_to_millis-IsInt64Of :
    (atoms : List ParsedDurationAtom)
    → All IsKnown atoms
    → IsInt64Of (parsed_duration_atoms_to_millis atoms) (total atoms)
      × InInt64 (parsed_duration_atoms_to_millis atoms)
unfolding parsed_duration_atoms_to_millis
parsed_duration_atoms_to_millis-IsInt64Of atoms h =
    let (is, in_range) = millis_from-IsInt64Of atoms (pos 0) h (omega arith, omega arith) in
    (subst (IsInt64Of (millis_from atoms (pos 0))) (zero_add (total atoms)) is, in_range)
