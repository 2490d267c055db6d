-- ===== src/Device/TpmState.antt =====
-- qemuVMTPMStateModel, parseQemuVMTPMState and encodeQemuVMTPMState.
pub mod RoundTrip
use terraform_provider_proxm.Prelude.{
  ℕ, List, [], ◌∷◌, ◌++◌, Option, none, some, Bool, true, false, ◌||◌, not, ◌==◌, if◌then◌else◌,
  ◌>>=◌,
}
use terraform_provider_proxm.Int.{ℤ}
use terraform_provider_proxm.Text.{Text, codes, text_eq, is_empty, trim_space, join}
use terraform_provider_proxm.Text.Decimal.{parse_int}
use terraform_provider_proxm.Value.{Value, null, known, string_value, is_configured}
use terraform_provider_proxm.Config.{
  parse_config_bool, optional_bool_value, parse_config, append_string_config, append_int64_config,
  append_bool_config, concat,
}
use terraform_provider_proxm.Device.Volume.{file_segment, observed_storage}

pub record TpmState : Type 0 where
  pub volume : Value Text
  pub storage : Value Text
  pub format : Value Text
  pub size : Value Text
  pub version : Value Text

abbrev pub empty_tpm_state : TpmState
empty_tpm_state = record {
  volume = null;
  storage = null;
  format = null;
  size = null;
  version = null;
}

abbrev pub set_volume : Text → TpmState → TpmState
set_volume volume item = record item {
  storage = observed_storage volume item.storage;
  volume = known volume;
}

-- The first segment alone may stand without a key.
abbrev pub tpm_state_positional : ℕ → Text → TpmState → Option TpmState
tpm_state_positional index segment item =
    if index == 0
    then (if is_empty (trim_space segment)
        then none
        else some (set_volume (trim_space segment) item))
    else none

-- The `switch key` of the loop.
unfoldable pub tpm_state_option : Text → Text → TpmState → Option TpmState
tpm_state_option key value item =
    if is_empty (trim_space value)
    then none
    else if text_eq key (codes "file") || text_eq key (codes "volume")
    then some (set_volume value item)
    else if text_eq key (codes "size")
    then some (record item { size = known value })
    else if text_eq key (codes "format")
    then some (record item { format = known value })
    else if text_eq key (codes "version")
    then some (record item { version = known value })
    else none

unfoldable pub parse_tpm_state : Text → Option TpmState
unfolding tpm_state_option parse_config
parse_tpm_state =
    parse_config tpm_state_positional tpm_state_option (λ d. is_configured d.volume) empty_tpm_state

abbrev pub tpm_state_segments : TpmState → List (List Text)
tpm_state_segments d =
    append_string_config (codes "format") d.format
    ∷ (if is_empty (string_value d.volume) then [] else append_string_config (codes "size") d.size)
    ∷ append_string_config (codes "version") d.version
    ∷ []

unfoldable pub encode_tpm_state : TpmState → Text
unfolding join
encode_tpm_state d =
    join (concat (file_segment d.volume d.storage d.size ∷ tpm_state_segments d)) b','
