-- ===== src/Value.antt =====
-- The values of the Terraform plugin framework (types.String, types.Int64, types.Bool, ...): null,
-- unknown or known. The provider reads them by IsNull, IsUnknown and ValueX.
use terraform_provider_proxm.Prelude.{Bool, true, false, Option, none, some, []}
use terraform_provider_proxm.Text.{Text}

pub data Value {ℓ} (A : Type ℓ) : Type ℓ where
  null : Value A
  unknown : Value A
  known : A → Value A

module _ {ℓ} {A : Type ℓ} where
  abbrev pub is_null : Value A → Bool
  is_null null = true
  is_null _ = false

  abbrev pub is_unknown : Value A → Bool
  is_unknown unknown = true
  is_unknown _ = false

  -- isConfiguredValue: neither null nor unknown
  abbrev pub is_configured : Value A → Bool
  is_configured (known a) = true
  is_configured _ = false

  -- stringPointerValue, boolPointerValue, int64PointerValue, float64PointerValue
  abbrev pub pointer_value : Value A → Option A
  pointer_value null = none
  pointer_value unknown = none
  pointer_value (known a) = some a

  -- ValueX, with the zero value of the type for null and unknown
  abbrev pub value_or : A → Value A → A
  value_or zero_value (known a) = a
  value_or zero_value _ = zero_value

-- stringValue
abbrev pub string_value : Value Text → Text
string_value = value_or []

-- A decided value satisfies a predicate; null does, and unknown does not.
abbrev pub Holds {ℓ} : {A : Type ℓ} → (A → Type 0) → Value A → Type 0
Holds P null = Unit
Holds P unknown = ⊥
Holds P (known a) = P a

abbrev pub IsDecided {ℓ} : {A : Type ℓ} → Value A → Type 0
IsDecided = Holds (λ _. Unit)

pub Holds-map {ℓ} :
    {A : Type ℓ} {P Q : A → Type 0} (f : (x : A) → P x → Q x) (a : Value A) → Holds P a → Holds Q a
Holds-map f null h = tt
Holds-map f unknown h = h
Holds-map f (known x) h = f x h
