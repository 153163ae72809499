-- ===== src/Duration/Find/Progress.antt =====
-- native/annotator/duration/duration.cc: what `FindDurationStartingAt` returns, and the end of `FindAll`.
use external_libtextclassifi.Prelude.{
  ℕ, suc, ◌+◌, ◌/◌, ◌≤◌, ◌<◌, ℤ, pos, ◌+ℤ◌, Bool, false, List, [], ◌∷◌, ◌≡◌, ◌⊎◌, All, length, drop,
  ◌&&◌, if◌then◌else◌,
}
use external_libtextclassifi.Text.{is_empty}
use external_libtextclassifi.Token.{Token}
use external_libtextclassifi.Duration.Units.{ParsedDurationAtom, empty_atom}
use external_libtextclassifi.Duration.Units.Total.{IsKnown, unit_length, total, IsInt64Of, InInt64}
use external_libtextclassifi.Duration.Parse.{Services, DurationAnnotatorOptions}
use external_libtextclassifi.Duration.Find.{DurationSpan, empty_span, last_unit, Found}
use external_libtextclassifi.Duration.Find.Reads.{Reads}

-- A quantity without a unit that says "half" is half of the last unit.
abbrev suffix : Bool → ParsedDurationAtom → List ParsedDurationAtom → ℤ
suffix has_quantity p atoms =
    if has_quantity && p.plus_half then pos (unit_length (last_unit atoms) / 2) else pos 0

module _ (svc : Services) (options : DurationAnnotatorOptions) where
  -- The first `n` tokens give some atoms, all of a unit with a length. The duration of the span is an
  -- `int64`: what the atoms last, with a "half" behind them, but for a multiple of 2 ^ 64.
  pub record IsDuration (tokens : List Token) (n : ℕ) (d : DurationSpan) : Type 0 where
    pub atoms : List ParsedDurationAtom
    pub p : ParsedDurationAtom
    pub has_quantity : Bool
    pub reads : Reads svc options empty_atom false tokens n atoms p has_quantity
    pub some_atom : is_empty atoms ≡ false
    pub known : All IsKnown atoms
    pub millis : ℤ
    pub classified : d.classification ≡ millis ∷ []
    pub is_sum : IsInt64Of millis (total atoms +ℤ suffix has_quantity p atoms)
    pub in_range : InInt64 millis

  -- The tokens give no atom.
  abbrev pub HasNoDuration : List Token → Type 0
  HasNoDuration tokens =
      (n : ℕ) × (p : ParsedDurationAtom) × (has_quantity : Bool) × Reads svc options empty_atom
        false tokens n [] p has_quantity

  -- The durations from the token `i` on: where there is one, the next is behind its tokens, and where
  -- there is none, at the next token.
  pub data Durations (tokens : List Token) : ℕ → List DurationSpan → Type 0 where
    no_more : {i : ℕ} → length tokens ≤ i → Durations tokens i []
    none_here :
        {i : ℕ} {durations : List DurationSpan}
        → i < length tokens
        → HasNoDuration (drop i tokens)
        → Durations tokens (suc i) durations
        → Durations tokens i durations
    one_here :
        {i next : ℕ} {d : DurationSpan} {durations : List DurationSpan}
        → i < next
        → (n : ℕ) × (next ≡ i + n) × IsDuration (drop i tokens) n d
        → Durations tokens next durations
        → Durations tokens i (d ∷ durations)

  -- What the search from the token `i` returns.
  abbrev pub Outcome : List Token → ℕ → Found → Type 0
  Outcome tokens i found =
      ((found ≡ record { next = i; result = empty_span }) × HasNoDuration (drop i tokens))
      ⊎ ((i < found.next)
          × (found.next ≤ length tokens)
          × ((n : ℕ) × (found.next ≡ i + n) × IsDuration (drop i tokens) n found.result))
