-- ===== src/Device/HostPci.antt =====
-- qemuVMHostPciModel, parseQemuVMHostPci and encodeQemuVMHostPci.
pub mod RoundTrip
use terraform_provider_proxm.Prelude.{
  ℕ, List, [], ◌∷◌, ◌++◌, Option, none, some, Bool, true, false, ◌||◌, not, ◌==◌, if◌then◌else◌,
  ◌>>=◌,
}
use terraform_provider_proxm.Int.{ℤ}
use terraform_provider_proxm.Text.{Text, codes, text_eq, is_empty, trim_space, join}
use terraform_provider_proxm.Text.Decimal.{parse_int}
use terraform_provider_proxm.Value.{Value, null, known, string_value, is_configured}
use terraform_provider_proxm.Config.{
  parse_config_bool, optional_bool_value, parse_config, append_string_config, append_int64_config,
  append_bool_config, concat,
}

pub record HostPci : Type 0 where
  pub host : Value Text
  pub mapping : Value Text
  pub mdev : Value Text
  pub pcie : Value Bool
  pub x_vga : Value Bool
  pub rom_bar : Value Bool
  pub rom_file : Value Text
  pub legacy_igd : Value Bool
  pub vendor_id : Value Text
  pub device_id : Value Text
  pub sub_vendor_id : Value Text
  pub sub_device_id : Value Text
  pub driver : Value Text

abbrev pub empty_host_pci : HostPci
empty_host_pci = record {
  host = null;
  mapping = null;
  mdev = null;
  pcie = null;
  x_vga = null;
  rom_bar = null;
  rom_file = null;
  legacy_igd = null;
  vendor_id = null;
  device_id = null;
  sub_vendor_id = null;
  sub_device_id = null;
  driver = null;
}

-- The first segment alone may stand without a key.
abbrev pub host_pci_positional : ℕ → Text → HostPci → Option HostPci
host_pci_positional index segment item =
    if index == 0 then some (record item { host = known (trim_space segment) }) else none

-- The `switch key` of the loop.
unfoldable pub host_pci_option : Text → Text → HostPci → Option HostPci
host_pci_option key value item =
    if text_eq key (codes "host")
    then some (record item { host = known value })
    else if text_eq key (codes "mapping")
    then some (record item { mapping = known value })
    else if text_eq key (codes "mdev")
    then some (record item { mdev = known value })
    else if text_eq key (codes "pcie")
    then some (record item { pcie = optional_bool_value value })
    else if text_eq key (codes "x-vga")
    then some (record item { x_vga = optional_bool_value value })
    else if text_eq key (codes "rombar")
    then some (record item { rom_bar = optional_bool_value value })
    else if text_eq key (codes "romfile")
    then some (record item { rom_file = known value })
    else if text_eq key (codes "legacy-igd")
    then some (record item { legacy_igd = optional_bool_value value })
    else if text_eq key (codes "vendor-id")
    then some (record item { vendor_id = known value })
    else if text_eq key (codes "device-id")
    then some (record item { device_id = known value })
    else if text_eq key (codes "sub-vendor-id")
    then some (record item { sub_vendor_id = known value })
    else if text_eq key (codes "sub-device-id")
    then some (record item { sub_device_id = known value })
    else if text_eq key (codes "driver")
    then some (record item { driver = known value })
    else none

unfoldable pub parse_host_pci : Text → Option HostPci
unfolding host_pci_option parse_config
parse_host_pci = parse_config host_pci_positional host_pci_option (λ _. true) empty_host_pci

abbrev pub host_pci_segments : HostPci → List (List Text)
host_pci_segments d =
    append_string_config (codes "mdev") d.mdev
    ∷ append_bool_config (codes "pcie") d.pcie
    ∷ append_bool_config (codes "x-vga") d.x_vga
    ∷ append_bool_config (codes "rombar") d.rom_bar
    ∷ append_string_config (codes "romfile") d.rom_file
    ∷ append_bool_config (codes "legacy-igd") d.legacy_igd
    ∷ append_string_config (codes "vendor-id") d.vendor_id
    ∷ append_string_config (codes "device-id") d.device_id
    ∷ append_string_config (codes "sub-vendor-id") d.sub_vendor_id
    ∷ append_string_config (codes "sub-device-id") d.sub_device_id
    ∷ append_string_config (codes "driver") d.driver
    ∷ []

abbrev host_pci_head : HostPci → List Text
host_pci_head d =
    if not (is_empty (string_value d.host))
    then string_value d.host ∷ []
    else if not (is_empty (string_value d.mapping))
    then (codes "mapping=" ++ string_value d.mapping) ∷ []
    else []

unfoldable pub encode_host_pci : HostPci → Text
unfolding join
encode_host_pci d = join (concat (host_pci_head d ∷ host_pci_segments d)) b','
