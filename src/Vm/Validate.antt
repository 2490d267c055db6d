-- ===== src/Vm/Validate.antt =====
-- internal/provider/qemu_vm_mapping.go: validateQemuVMPowerConfig, validateQemuVMIDAllocation and
-- validateQemuVMCloneConfig. A diagnostic is its attribute and its summary; the details are left out.
pub mod Accepts
pub mod Raw
pub mod Resize
use terraform_provider_proxm.Prelude.{
  Bool, true, false, not, ◌&&◌, ◌||◌, List, [], ◌∷◌, ◌++◌, if◌then◌else◌,
}
use terraform_provider_proxm.Int.{ℤ, pos, ltz}
use terraform_provider_proxm.Text.{Text, codes}
use terraform_provider_proxm.Value.{Value, null, unknown, known, is_configured}
use terraform_provider_proxm.Diagnostic.{Diagnostic, attribute_error, report}
use terraform_provider_proxm.Vm.Allocation.{vmid_maximum}

-- The fields of the model that the validators read.
pub record Settings : Type 0 where
  pub power : Value Bool
  pub start_on_create : Value Bool
  pub power_shutdown_timeout : Value ℤ
  pub vm_id : Value ℤ
  pub vm_id_start : Value ℤ

-- A known value outside the bounds.
abbrev pub outside : ℤ → ℤ → Value ℤ → Bool
outside low high null = false
outside low high unknown = false
outside low high (known n) = ltz n low || ltz high n

-- powerShutdownTimeoutMinimum is 1, powerShutdownTimeoutMaximum is 600.
unfoldable pub validate_power_config : Settings → List Diagnostic
validate_power_config s =
    report (is_configured s.power && is_configured s.start_on_create)
      (attribute_error (codes "power") (codes "Conflicting power management settings"))
    ++ report (outside (pos 1) (pos 600) s.power_shutdown_timeout)
        (attribute_error (codes "power_shutdown_timeout") (codes "Invalid power shutdown timeout"))

-- qemuVMIDMinimum is 100.
unfoldable pub validate_vmid_allocation : Settings → List Diagnostic
validate_vmid_allocation s =
    report (is_configured s.vm_id && is_configured s.vm_id_start)
      (attribute_error (codes "vm_id_start") (codes "Conflicting VMID allocation settings"))
    ++ report (outside (pos 100) (pos vmid_maximum) s.vm_id_start)
        (attribute_error (codes "vm_id_start") (codes "Invalid VMID allocation start"))

pub record Clone : Type 0 where
  pub full : Value Bool
  pub storage : Value Text
  pub format : Value Text

abbrev linked_errors : Clone → List Diagnostic
linked_errors c =
    report (is_configured c.storage)
      (attribute_error (codes "clone.storage") (codes "Invalid linked clone storage override"))
    ++ report (is_configured c.format)
        (attribute_error (codes "clone.format") (codes "Invalid linked clone disk format"))

-- A clone that is known not to be full.
abbrev pub is_linked : Value Bool → Bool
is_linked null = false
is_linked unknown = false
is_linked (known full) = not full

unfoldable pub validate_clone_config : Value Clone → List Diagnostic
validate_clone_config null = []
validate_clone_config unknown = []
validate_clone_config (known c) = report (is_linked c.full) (linked_errors c)
