-- ===== src/Device/Expand.antt =====
-- internal/provider/qemu_vm_devices.go: the maps of PCI, USB, RNG and virtiofs devices, validated and
-- written as property strings. A map is an association list with distinct keys.
pub mod Valid
pub mod Devices
pub mod Passthrough
use terraform_provider_proxm.Prelude.{Bool, true, false, List, [], ◌∷◌, ◌++◌, if◌then◌else◌}
use terraform_provider_proxm.Text.{Text, codes, is_empty}
use terraform_provider_proxm.Value.{Value, null, unknown, known}
use terraform_provider_proxm.Diagnostic.{Diagnostic, attribute_error}
use terraform_provider_proxm.Device.Pattern.{
  is_host_pci_key, is_usb_key, is_rng_key, is_virtiofs_key,
}
use terraform_provider_proxm.Device.Check.{
  device_path, validate_host_pci_item, validate_usb_item, validate_rng_item, validate_virtiofs_item,
}
use terraform_provider_proxm.Device.HostPci.{HostPci, encode_host_pci}
use terraform_provider_proxm.Device.Usb.{UsbDevice, encode_usb}
use terraform_provider_proxm.Device.Rng.{Rng, encode_rng}
use terraform_provider_proxm.Device.Virtiofs.{Virtiofs, encode_virtiofs}

-- What an expansion yields: the wire values, and diagnostics.
pub record Expanded : Type 0 where
  pub values : List (Text × Text)
  pub diagnostics : List Diagnostic

abbrev nothing : Expanded
nothing = record { values = []; diagnostics = [] }

-- The loop that the four expansions share.
module _ {M : Type 0} (is_key : Text → Bool) (validate : Text → M → List Diagnostic)
    (encode : M → Text) (summary : Text) where
  abbrev add_item : Text → M → Expanded → Expanded
  add_item slot item rest = record {
    values = if is_empty (encode item) then rest.values else (slot, encode item) ∷ rest.values;
    diagnostics = validate slot item ++ rest.diagnostics;
  }

  abbrev bad_slot : Text → Expanded → Expanded
  bad_slot slot rest = record rest {
    diagnostics = attribute_error (device_path slot) summary ++ rest.diagnostics;
  }

  abbrev pub expand_items : List (Text × M) → Expanded
  expand_items [] = nothing
  expand_items ((slot, item) ∷ items) =
      let rest = expand_items items in
      if is_key slot then add_item slot item rest else bad_slot slot rest

  abbrev pub expand_map : Value (List (Text × M)) → Expanded
  expand_map null = nothing
  expand_map unknown = nothing
  expand_map (known items) = expand_items items

unfoldable pub expand_host_pci_model_map : Value (List (Text × HostPci)) → Expanded
unfolding is_host_pci_key validate_host_pci_item encode_host_pci device_path
expand_host_pci_model_map =
    expand_map is_host_pci_key validate_host_pci_item encode_host_pci (codes "Invalid hostpci slot")

unfoldable pub expand_usb_model_map : Value (List (Text × UsbDevice)) → Expanded
unfolding is_usb_key validate_usb_item encode_usb device_path
expand_usb_model_map = expand_map is_usb_key validate_usb_item encode_usb (codes "Invalid usb slot")

unfoldable pub expand_rng_model_map : Value (List (Text × Rng)) → Expanded
unfolding is_rng_key validate_rng_item encode_rng device_path
expand_rng_model_map = expand_map is_rng_key validate_rng_item encode_rng (codes "Invalid rng slot")

unfoldable pub expand_virtiofs_model_map : Value (List (Text × Virtiofs)) → Expanded
unfolding is_virtiofs_key validate_virtiofs_item encode_virtiofs device_path
expand_virtiofs_model_map =
    expand_map is_virtiofs_key validate_virtiofs_item encode_virtiofs
      (codes "Invalid virtiofs slot")
