-- ===== src/Tests/Inputs.antt =====
-- Import identifiers and settings at concrete inputs.
use terraform_provider_proxm.Prelude.{◌≡◌, ◌≢◌, ◌↔◌, refl, true, [], arith}
use terraform_provider_proxm.Int.{pos, IsInt64}
use terraform_provider_proxm.Text.{Text, codes, is_trimmed, IsTrimmed, Lacks}
use terraform_provider_proxm.Text.Equal.{is_trimmed-IsTrimmed}
use terraform_provider_proxm.Value.{null, unknown, known}
use terraform_provider_proxm.Client.Error.{ok}
use terraform_provider_proxm.Vm.Import.{qemu_vm_id, parse_import_id}
use terraform_provider_proxm.Vm.Import.RoundTrip.{parse_import_id-qemu_vm_id}
use terraform_provider_proxm.Vm.Validate.{Settings, validate_power_config, validate_vmid_allocation}
use terraform_provider_proxm.Vm.Validate.Accepts.{
  Within, NotBoth, validate_power_config-Within, validate_vmid_allocation-Within,
}

abbrev node : Text
node = codes "pve"

node_some : node ≢ []
node_some = λ e. cc

node-IsTrimmed : IsTrimmed node
unfolding is_trimmed
node-IsTrimmed = is_trimmed-IsTrimmed node refl

node-Lacks : Lacks b'/' node
node-Lacks = (omega arith, (omega arith, (omega arith, tt)))

vm_id-IsInt64 : IsInt64 (pos 100)
vm_id-IsInt64 = omega arith

parse_import_id-qemu_vm_id_example :
    parse_import_id (qemu_vm_id node (pos 100)) ≡ ok (node, pos 100)
parse_import_id-qemu_vm_id_example =
    parse_import_id-qemu_vm_id node (pos 100) node_some node-IsTrimmed node-Lacks vm_id-IsInt64

abbrev settings : Settings
settings = record {
  power = known true;
  start_on_create = null;
  power_shutdown_timeout = known (pos 900);
  vm_id = unknown;
  vm_id_start = known (pos 200);
}

validate_power_config-Within_example : (validate_power_config settings ≡ []) ↔ (
    NotBoth settings.power settings.start_on_create × Within 1 600 settings.power_shutdown_timeout)
validate_power_config-Within_example = validate_power_config-Within settings

validate_vmid_allocation-Within_example :
    (validate_vmid_allocation settings ≡ [])
    ↔ (NotBoth settings.vm_id settings.vm_id_start × Within 100 999999999 settings.vm_id_start)
validate_vmid_allocation-Within_example = validate_vmid_allocation-Within settings
