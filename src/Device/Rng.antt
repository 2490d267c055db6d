-- ===== src/Device/Rng.antt =====
-- qemuVMRNGModel, parseQemuVMRNG and encodeQemuVMRNG.
pub mod RoundTrip
use terraform_provider_proxm.Prelude.{
  ℕ, List, [], ◌∷◌, ◌++◌, Option, none, some, Bool, true, false, ◌||◌, not, ◌==◌, if◌then◌else◌,
  ◌>>=◌,
}
use terraform_provider_proxm.Int.{ℤ}
use terraform_provider_proxm.Text.{Text, codes, text_eq, is_empty, trim_space, join}
use terraform_provider_proxm.Text.Decimal.{parse_int}
use terraform_provider_proxm.Value.{Value, null, known, string_value, is_configured}
use terraform_provider_proxm.Config.{
  parse_config_bool, optional_bool_value, parse_config, append_string_config, append_int64_config,
  append_bool_config, concat,
}

pub record Rng : Type 0 where
  pub source : Value Text
  pub max_bytes : Value ℤ
  pub period : Value ℤ

abbrev pub empty_rng : Rng
empty_rng = record { source = null; max_bytes = null; period = null }

-- The first segment alone may stand without a key.
abbrev pub rng_positional : ℕ → Text → Rng → Option Rng
rng_positional index segment item =
    if index == 0 then some (record item { source = known (trim_space segment) }) else none

-- The `switch key` of the loop.
unfoldable pub rng_option : Text → Text → Rng → Option Rng
rng_option key value item =
    if text_eq key (codes "source")
    then some (record item { source = known value })
    else if text_eq key (codes "max_bytes")
    then parse_int value >>= (λ n. some (record item { max_bytes = known n }))
    else if text_eq key (codes "period")
    then parse_int value >>= (λ n. some (record item { period = known n }))
    else none

unfoldable pub parse_rng : Text → Option Rng
unfolding rng_option parse_config
parse_rng = parse_config rng_positional rng_option (λ _. true) empty_rng

abbrev pub rng_segments : Rng → List (List Text)
rng_segments d =
    append_int64_config (codes "max_bytes") d.max_bytes
    ∷ append_int64_config (codes "period") d.period
    ∷ []

abbrev rng_head : Rng → List Text
rng_head d = if not (is_empty (string_value d.source)) then string_value d.source ∷ [] else []

unfoldable pub encode_rng : Rng → Text
unfolding join
encode_rng d = join (concat (rng_head d ∷ rng_segments d)) b','
