-- ===== src/Device/EfiDisk.antt =====
-- qemuVMEFIDiskModel, parseQemuVMEFIDisk and encodeQemuVMEFIDisk.
pub mod RoundTrip
use terraform_provider_proxm.Prelude.{
  ℕ, List, [], ◌∷◌, ◌++◌, Option, none, some, Bool, true, false, ◌||◌, not, ◌==◌, if◌then◌else◌,
  ◌>>=◌,
}
use terraform_provider_proxm.Int.{ℤ}
use terraform_provider_proxm.Text.{Text, codes, text_eq, is_empty, trim_space, join}
use terraform_provider_proxm.Text.Decimal.{parse_int}
use terraform_provider_proxm.Value.{Value, null, known, string_value, is_configured}
use terraform_provider_proxm.Config.{
  parse_config_bool, optional_bool_value, parse_config, append_string_config, append_int64_config,
  append_bool_config, concat,
}
use terraform_provider_proxm.Device.Volume.{file_segment, observed_storage}

pub record EfiDisk : Type 0 where
  pub volume : Value Text
  pub storage : Value Text
  pub efi_type : Value Text
  pub format : Value Text
  pub ms_cert : Value Text
  pub pre_enrolled_keys : Value Bool
  pub size : Value Text

abbrev pub empty_efi_disk : EfiDisk
empty_efi_disk = record {
  volume = null;
  storage = null;
  efi_type = null;
  format = null;
  ms_cert = null;
  pre_enrolled_keys = null;
  size = null;
}

abbrev pub set_volume : Text → EfiDisk → EfiDisk
set_volume volume item = record item {
  storage = observed_storage volume item.storage;
  volume = known volume;
}

-- The first segment alone may stand without a key.
abbrev pub efi_disk_positional : ℕ → Text → EfiDisk → Option EfiDisk
efi_disk_positional index segment item =
    if index == 0 then some (set_volume (trim_space segment) item) else none

-- The `switch key` of the loop.
unfoldable pub efi_disk_option : Text → Text → EfiDisk → Option EfiDisk
efi_disk_option key value item =
    if text_eq key (codes "file") || text_eq key (codes "volume")
    then some (set_volume value item)
    else if text_eq key (codes "size")
    then some (record item { size = known value })
    else if text_eq key (codes "efitype")
    then some (record item { efi_type = known value })
    else if text_eq key (codes "format")
    then some (record item { format = known value })
    else if text_eq key (codes "ms-cert")
    then some (record item { ms_cert = known value })
    else if text_eq key (codes "pre-enrolled-keys")
    then parse_config_bool value >>= (λ b. some (record item { pre_enrolled_keys = known b }))
    else none

unfoldable pub parse_efi_disk : Text → Option EfiDisk
unfolding efi_disk_option parse_config
parse_efi_disk =
    parse_config efi_disk_positional efi_disk_option (λ d. is_configured d.volume) empty_efi_disk

abbrev pub efi_disk_segments : EfiDisk → List (List Text)
efi_disk_segments d =
    append_string_config (codes "efitype") d.efi_type
    ∷ append_string_config (codes "format") d.format
    ∷ append_string_config (codes "ms-cert") d.ms_cert
    ∷ append_bool_config (codes "pre-enrolled-keys") d.pre_enrolled_keys
    ∷ (if is_empty (string_value d.volume) then [] else append_string_config (codes "size") d.size)
    ∷ []

unfoldable pub encode_efi_disk : EfiDisk → Text
unfolding join
encode_efi_disk d =
    join (concat (file_segment d.volume d.storage d.size ∷ efi_disk_segments d)) b','
