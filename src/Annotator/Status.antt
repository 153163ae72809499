-- ===== src/Annotator/Status.antt =====
-- native/utils/base/status.h and statusor.h: errors as values.
use Prim.Native.String.{String}
use external_libtextclassifi.Prelude.{◌≡◌, refl, Option, none, some, ◌⊎◌, inl, inr}

-- `StatusCode`
pub data StatusCode : Type 0 where
  ok cancelled unknown invalid_argument deadline_exceeded not_found already_exists permission_denied
        resource_exhausted failed_precondition aborted out_of_range unimplemented internal
        unavailable data_loss unauthenticated :
      StatusCode

pub record Status : Type 0 where
  pub code : StatusCode
  pub message : String

-- A value, or a status that is not OK.
pub data StatusOr {ℓ} (A : Type ℓ) : Type ℓ where
  value : A → StatusOr A
  failure : Status → StatusOr A

infixl 5 ◌>>=◌
abbrev pub ◌>>=◌ {ℓ κ} : {A : Type ℓ} {B : Type κ} → StatusOr A → (A → StatusOr B) → StatusOr B
value a >>= f = f a
failure s >>= f = failure s

pub >>=-eq-value {ℓ κ} :
    {A : Type ℓ} {B : Type κ} (m : StatusOr A) (f : A → StatusOr B) {b : B}
    → (m >>= f) ≡ value b
    → (a : A) × (m ≡ value a) × (f a ≡ value b)
>>=-eq-value (value a) f h = (a, refl, h)
>>=-eq-value (failure s) f h = cc

pub StatusOr-cases {ℓ} :
    {A : Type ℓ} (m : StatusOr A) → ((a : A) × (m ≡ value a)) ⊎ ((s : Status) × (m ≡ failure s))
StatusOr-cases (value a) = inl (a, refl)
StatusOr-cases (failure s) = inr (s, refl)

-- A call that returns false makes the caller return this status.
abbrev pub or_internal {ℓ} : {A : Type ℓ} → String → Option A → StatusOr A
or_internal message none = failure (record { code = internal; message = message })
or_internal message (some a) = value a

pub or_internal-eq-value {ℓ} :
    {A : Type ℓ} (message : String) (o : Option A) {a : A}
    → or_internal message o ≡ value a
    → o ≡ some a
or_internal-eq-value message none h = cc
or_internal-eq-value message (some a) h = cc
