-- ===== src/Vm/Resize/Size.antt =====
-- qemuDiskSizeBytes of internal/provider/qemu_vm_resize.go. The arithmetic of float64 is a parameter.
use terraform_provider_proxm.Prelude.{
  ℕ, zero, suc, Bool, Option, none, some, [], ◌∷◌, ◌++◌, ◌==◌, if◌then◌else◌,
}
use terraform_provider_proxm.Int.{ℤ}
use terraform_provider_proxm.Text.{Text, codes}
use terraform_provider_proxm.Text.Decimal.{is_digit}
use terraform_provider_proxm.Config.{Float64}
use terraform_provider_proxm.Client.Error.{Error, failure, Result, ok, err, quote}

-- The operations of float64 that the code uses.
pub record Arithmetic (F : Float64) : Type 0 where
  -- n * 1024
  pub times_1024 : F.Float → F.Float
  -- n > 0, and n is finite
  pub is_size : F.Float → Bool
  -- float64(n) * (1 << 30)
  pub of_gib : ℤ → F.Float
  pub less : F.Float → F.Float → Bool
  pub same : F.Float → F.Float → Bool

-- The digits at the start of a text, and the rest.
abbrev add_digit : ℕ → Text × Text → Text × Text
add_digit c (digits, rest) = (c ∷ digits, rest)

abbrev take_digits : Text → Text × Text
take_digits [] = ([], [])
take_digits (c ∷ s) =
    let rest = take_digits s in if is_digit c then add_digit c rest else ([], c ∷ s)

-- `[KMGT]?` at the end: how often to multiply by 1024
abbrev unit_power : Text → Option ℕ
unit_power [] = some 0
unit_power (c ∷ []) =
    if c == b'K'
    then some 1
    else if c == b'M'
    then some 2
    else if c == b'G'
    then some 3
    else if c == b'T'
    then some 4
    else none
unit_power (c ∷ d ∷ s) = none

abbrev with_unit : Text → Option ℕ → Option (Text × ℕ)
with_unit number none = none
with_unit number (some power) = some (number, power)

-- `\.\d+` after the digits, if there is a dot
abbrev after_dot : Text → Text × Text → Option (Text × ℕ)
after_dot digits ([], rest) = none
after_dot digits (c ∷ fraction, rest) =
    with_unit (digits ++ (b'.' ∷ (c ∷ fraction))) (unit_power rest)

abbrev after_digits : Text × Text → Option (Text × ℕ)
after_digits ([], rest) = none
after_digits (c ∷ digits, []) = some (c ∷ digits, 0)
after_digits (c ∷ digits, d ∷ rest) =
    if d == b'.'
    then after_dot (c ∷ digits) (take_digits rest)
    else with_unit (c ∷ digits) (unit_power (d ∷ rest))

-- `^(\d+(?:\.\d+)?)([KMGT]?)$`
unfoldable pub size_parts : Text → Option (Text × ℕ)
size_parts size = after_digits (take_digits size)

invalid_size : Text → Error
invalid_size size = failure (codes "invalid observed disk size " ++ quote size)

bad_number : Text → Error
bad_number size = failure (codes "parse disk size " ++ quote size)

module _ {F : Float64} (A : Arithmetic F) where
  abbrev scale : ℕ → F.Float → F.Float
  scale zero n = n
  scale (suc power) n = scale power (A.times_1024 n)

  abbrev checked : Text → F.Float → Result F.Float
  checked size n = if A.is_size n then ok n else err (invalid_size size)

  abbrev scaled : Text → ℕ → Option F.Float → Result F.Float
  scaled size power none = err (bad_number size)
  scaled size power (some n) = checked size (scale power n)

  abbrev of_parts : Text → Option (Text × ℕ) → Result F.Float
  of_parts size none = err (invalid_size size)
  of_parts size (some (number, power)) = scaled size power (F.parse_float number)

  unfoldable pub disk_size_bytes : Text → Result F.Float
  unfolding size_parts invalid_size bad_number
  disk_size_bytes size = of_parts size (size_parts size)
