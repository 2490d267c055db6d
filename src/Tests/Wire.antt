-- ===== src/Tests/Wire.antt =====
-- Requests and slots at concrete inputs.
use terraform_provider_proxm.Prelude.{◌≡◌, ◌≢◌, refl, true, false, none, some, [], ◌∷◌}
use terraform_provider_proxm.Text.{Text, codes}
use terraform_provider_proxm.Value.{known}
use terraform_provider_proxm.Device.Disk.{parse_disk}
use terraform_provider_proxm.Vm.Request.{
  QemuVmConfigRequest, request_is_empty, empty_form, encode_qemu_vm_fields, set_delete, run,
  device_statements,
}
use terraform_provider_proxm.Vm.Request.Empty.{
  HasValue, request_is_empty-encode, request_is_empty-HasValue,
}
use terraform_provider_proxm.Vm.Slots.{
  MapOf, find, narrow_device_slots, deleted_slots, IsDistinct, slot_state_value, elements,
  project_disk_state,
}
use terraform_provider_proxm.Vm.Slots.Narrow.{
  applied, narrow_device_slots-applied, narrow_device_slots-changed,
}
use terraform_provider_proxm.Vm.Slots.Split.{
  typed_at, raw_at, if_managed, slot_state_value-keeps, project_disk_state-managed,
}
use terraform_provider_proxm.Tests.Samples.{numbers}

-- Only a PCI device.
abbrev device_request : QemuVmConfigRequest numbers
device_request = record {
  name = none;
  description = none;
  tags = none;
  pool = none;
  on_boot = none;
  protection = none;
  scsi_hw = none;
  tablet = none;
  startup = none;
  bios = none;
  machine = none;
  agent = none;
  cores = none;
  sockets = none;
  memory = none;
  numa = none;
  vcpus = none;
  cpu_units = none;
  cpu_limit = none;
  balloon = none;
  shares = none;
  hugepages = none;
  cpu = none;
  os_type = none;
  boot = none;
  hotplug = none;
  ci_custom = none;
  ci_password = none;
  ci_type = none;
  ci_upgrade = none;
  ci_user = none;
  ssh_keys = none;
  ip_config = [];
  network = [];
  disk = [];
  serial = [];
  host_pci = (codes "hostpci0", codes "0000:01:00.0") ∷ [];
  usb = [];
  rng = [];
  virtiofs = [];
  delete = [];
  extra_config = [];
}

request_is_empty_devices : request_is_empty numbers device_request ≡ true
unfolding request_is_empty
request_is_empty_devices = refl

request_is_empty-encode_example :
    encode_qemu_vm_fields numbers device_request empty_form
    ≡ set_delete
        (run numbers (device_statements numbers device_request) empty_form)
        device_request.delete
request_is_empty-encode_example =
    request_is_empty-encode numbers device_request empty_form request_is_empty_devices

-- The overlooked device: its form has a value.
overlooked :
    encode_qemu_vm_fields numbers device_request empty_form (codes "hostpci0")
    ≡ some (codes "0000:01:00.0")
unfolding encode_qemu_vm_fields
overlooked = refl

abbrev named_request : QemuVmConfigRequest numbers
named_request = record device_request { name = some (codes "web") }

request_is_empty_named : request_is_empty numbers named_request ≡ false
unfolding request_is_empty
request_is_empty_named = refl

request_is_empty-HasValue_example :
    HasValue (encode_qemu_vm_fields numbers named_request empty_form)
request_is_empty-HasValue_example =
    request_is_empty-HasValue numbers named_request empty_form request_is_empty_named

abbrev planned : MapOf Text
planned = (codes "usb0", codes "1-2") ∷ (codes "usb1", codes "mapping=key") ∷ []

abbrev prior : MapOf Text
prior = (codes "usb0", codes "1-1") ∷ (codes "usb2", codes "1-3") ∷ []

planned-IsDistinct : IsDistinct planned
planned-IsDistinct = (refl, (refl, tt))

narrow_device_slots-applied_example :
    applied prior (narrow_device_slots planned prior) (deleted_slots prior planned) (codes "usb2")
    ≡ find planned (codes "usb2")
narrow_device_slots-applied_example =
    narrow_device_slots-applied planned prior (codes "usb2") planned-IsDistinct

sent_usb0 : find (narrow_device_slots planned prior) (codes "usb0") ≡ some (codes "1-2")
unfolding narrow_device_slots
sent_usb0 = refl

narrow_device_slots-changed_example : find prior (codes "usb0") ≢ some (codes "1-2")
narrow_device_slots-changed_example =
    narrow_device_slots-changed planned prior (codes "usb0") (codes "1-2") planned-IsDistinct
      sent_usb0

-- A disk that parses, and one with an unknown option.
abbrev observed : MapOf Text
observed =
    (codes "scsi0", codes "local:vm-100-disk-0") ∷ (codes "scsi1", codes "local:x,rerror=stop") ∷ []

observed-IsDistinct : IsDistinct observed
observed-IsDistinct = (refl, (refl, tt))

slot_state_value-keeps_example :
    (find (elements (slot_state_value (parse_disk numbers) observed).0) (codes "scsi1")
      ≡ typed_at (parse_disk numbers) (find observed (codes "scsi1")))
    × (find (slot_state_value (parse_disk numbers) observed).1 (codes "scsi1")
        ≡ raw_at (parse_disk numbers) (find observed (codes "scsi1")))
slot_state_value-keeps_example =
    slot_state_value-keeps (parse_disk numbers) observed (codes "scsi1") observed-IsDistinct

project_disk_state-managed_example :
    find (elements (project_disk_state (known observed) (some (known planned)))) (codes "scsi0")
    ≡ if_managed (find planned (codes "scsi0")) (find (elements (known observed)) (codes "scsi0"))
project_disk_state-managed_example =
    project_disk_state-managed (known observed) planned (codes "scsi0")
