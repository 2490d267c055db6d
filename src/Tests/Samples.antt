-- ===== src/Tests/Samples.antt =====
-- What the runs share: whole numbers in place of float64.
use terraform_provider_proxm.Prelude.{ℕ}
use terraform_provider_proxm.Int.{pos}
use terraform_provider_proxm.Text.Decimal.{format_nat, format_int, parse_nat, parse_nat-format_nat}
use terraform_provider_proxm.Config.{IsPlain, Float64}
use terraform_provider_proxm.Config.Segments.{format_int-IsPlain}

pub format_nat-IsPlain : (n : ℕ) → IsPlain (format_nat n)
unfolding format_int
format_nat-IsPlain n = format_int-IsPlain (pos n)

-- Whole numbers.
abbrev pub numbers : Float64
numbers = record {
  Float = ℕ;
  format_float = format_nat;
  parse_float = parse_nat;
  parse-format = parse_nat-format_nat;
  format-IsPlain = format_nat-IsPlain;
}
