-- ===== src/Vm/Validate/Raw.antt =====
-- internal/provider/qemu_vm_mapping.go: qemuVMTypedConfigKeys and validateQemuVMRawConflicts.
pub mod Disjoint
use terraform_provider_proxm.Prelude.{
  Bool, true, false, not, Option, none, some, List, [], ◌∷◌, ◌++◌,
}
use terraform_provider_proxm.Text.{Text, codes}
use terraform_provider_proxm.Text.Sort.{sorted_strings}
use terraform_provider_proxm.Value.{Value, null, unknown, known, is_configured}
use terraform_provider_proxm.Config.{Float64, concat}
use terraform_provider_proxm.Client.Error.{quote}
use terraform_provider_proxm.Diagnostic.{Diagnostic, attribute_error, report}
use terraform_provider_proxm.Vm.Slots.{MapOf, find, is_missing}
use terraform_provider_proxm.Vm.Model.{QemuVmModel, CloudInit, no_common, no_cloud_init, expand}
use terraform_provider_proxm.Vm.ConfigRequest.{efi_disk_is_empty, tpm_state_is_empty, vga_is_empty}
use terraform_provider_proxm.Device.EfiDisk.{empty_efi_disk}
use terraform_provider_proxm.Device.TpmState.{empty_tpm_state}
use terraform_provider_proxm.Device.Vga.{empty_vga}

abbrev pub keys_of {ℓ} : {A : Type ℓ} → MapOf A → List Text
keys_of [] = []
keys_of ((key, _) ∷ entries) = key ∷ keys_of entries

abbrev pub key_if : Bool → Text → List Text
key_if true key = key ∷ []
key_if false key = []

-- The keys that count as typed whatever is configured.
abbrev pub fixed_keys : List Text
fixed_keys =
    codes "protection"
    ∷ codes "scsihw"
    ∷ codes "tablet"
    ∷ codes "numa"
    ∷ codes "vcpus"
    ∷ codes "cpuunits"
    ∷ codes "cpulimit"
    ∷ codes "balloon"
    ∷ codes "shares"
    ∷ codes "hugepages"
    ∷ []

abbrev pub cloud_init_keys : CloudInit → List Text
cloud_init_keys c = concat (
    key_if (is_configured c.ci_custom) (codes "cicustom")
    ∷ key_if (is_configured c.ci_password) (codes "cipassword")
    ∷ key_if (is_configured c.ci_type) (codes "citype")
    ∷ key_if (is_configured c.ci_user) (codes "ciuser")
    ∷ key_if (is_configured c.ssh_keys) (codes "sshkeys")
    ∷ key_if (is_configured c.ci_upgrade) (codes "ciupgrade")
    ∷ keys_of (expand [] c.ip_config)
    ∷ [])

module _ {F : Float64} (model : QemuVmModel F) where
  -- The keys in the order in which they are collected.
  unfoldable pub collected_keys : List Text
  unfolding efi_disk_is_empty tpm_state_is_empty vga_is_empty
  collected_keys = concat (
      fixed_keys
      ∷ key_if (is_configured (expand no_common model.common).hotplug) (codes "hotplug")
      ∷ cloud_init_keys (expand no_cloud_init model.cloud_init)
      ∷ keys_of (expand [] model.network)
      ∷ keys_of (expand [] model.disk)
      ∷ keys_of (expand [] model.serial)
      ∷ keys_of (expand [] model.host_pci)
      ∷ keys_of (expand [] model.usb)
      ∷ keys_of (expand [] model.rng)
      ∷ keys_of (expand [] model.virtiofs)
      ∷ key_if (not (efi_disk_is_empty (expand empty_efi_disk model.efi_disk))) (codes "efidisk0")
      ∷ key_if (not (tpm_state_is_empty (expand empty_tpm_state model.tpm_state)))
          (codes "tpmstate0")
      ∷ key_if (not (vga_is_empty (expand empty_vga model.vga))) (codes "vga")
      ∷ [])

  -- qemuVMTypedConfigKeys
  unfoldable pub typed_config_keys : List Text
  unfolding collected_keys sorted_strings
  typed_config_keys = sorted_strings collected_keys

abbrev pub conflict_error : Text → List Diagnostic
conflict_error key =
    attribute_error (codes "raw.extra_config[" ++ quote key ++ codes "]")
      (codes "Conflicting raw.extra_config entry")

abbrev pub conflicts : MapOf Text → List Text → List Diagnostic
conflicts raw [] = []
conflicts raw (key ∷ keys) =
    report (not (is_missing (find raw key))) (conflict_error key) ++ conflicts raw keys

-- ElementsAs into a map of strings: the framework refuses null and unknown elements.
abbrev pub add_string : Text → Value Text → Option (MapOf Text) → Option (MapOf Text)
add_string key (known value) (some rest) = some ((key, value) ∷ rest)
add_string key _ _ = none

abbrev pub string_elements : MapOf (Value Text) → Option (MapOf Text)
string_elements [] = some []
string_elements ((key, value) ∷ elements) = add_string key value (string_elements elements)

abbrev pub conflicts_in : Option (MapOf Text) → List Text → List Diagnostic
conflicts_in none keys = attribute_error [] (codes "Value Conversion Error")
conflicts_in (some raw) keys = conflicts raw keys

abbrev pub conflicts_with : Value (MapOf (Value Text)) → List Text → List Diagnostic
conflicts_with null keys = []
conflicts_with unknown keys = []
conflicts_with (known elements) keys = conflicts_in (string_elements elements) keys

-- validateQemuVMRawConflicts of a configuration, whose raw.extra_config (null for a null or unknown
-- `raw`) is given with its elements as they are configured.
unfoldable pub validate_raw_conflicts :
    {F : Float64} → QemuVmModel F → Value (MapOf (Value Text)) → List Diagnostic
unfolding typed_config_keys
validate_raw_conflicts model extra = conflicts_with extra (typed_config_keys model)
