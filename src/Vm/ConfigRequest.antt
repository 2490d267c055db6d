-- ===== src/Vm/ConfigRequest.antt =====
-- internal/provider/qemu_vm_mapping.go: qemuVMConfigRequestFromModel.
use terraform_provider_proxm.Prelude.{Bool, true, false, not, ◌&&◌, List, [], ◌∷◌, ◌++◌}
use terraform_provider_proxm.Text.{Text, codes, is_empty}
use terraform_provider_proxm.Value.{is_null, is_configured, pointer_value}
use terraform_provider_proxm.Diagnostic.{Diagnostic}
use terraform_provider_proxm.Config.{Float64}
use terraform_provider_proxm.Vm.Slots.{MapOf, put}
use terraform_provider_proxm.Vm.Request.{QemuVmConfigRequest}
use terraform_provider_proxm.Vm.Model.{QemuVmModel, no_common, no_cloud_init, no_raw, expand}
use terraform_provider_proxm.Device.IpConfig.{encode_ip_config}
use terraform_provider_proxm.Device.Network.{encode_network}
use terraform_provider_proxm.Device.Disk.{encode_disk}
use terraform_provider_proxm.Device.EfiDisk.{EfiDisk, empty_efi_disk, encode_efi_disk}
use terraform_provider_proxm.Device.TpmState.{TpmState, empty_tpm_state, encode_tpm_state}
use terraform_provider_proxm.Device.Vga.{Vga, empty_vga, encode_vga}
use terraform_provider_proxm.Device.Expand.{
  expand_host_pci_model_map, expand_usb_model_map, expand_rng_model_map, expand_virtiofs_model_map,
}

-- The value of a result that comes with diagnostics, which are all errors.
pub data Built {ℓ} (A : Type ℓ) : Type ℓ where
  refused : Diagnostic → List Diagnostic → Built A
  built : A → Built A

abbrev pub unless_refused {ℓ} : {A : Type ℓ} → List Diagnostic → A → Built A
unless_refused [] a = built a
unless_refused (d ∷ ds) a = refused d ds

-- encodeQemuVMIPConfigMap, encodeQemuVMNetworkMap and encodeQemuVMDiskMap
abbrev pub encode_map {ℓ} : {M : Type ℓ} → (M → Text) → MapOf M → MapOf Text
encode_map encode [] = []
encode_map encode ((slot, item) ∷ items) = (slot, encode item) ∷ encode_map encode items

abbrev pub put_unless {ℓ} : {A : Type ℓ} → Bool → Text → A → MapOf A → MapOf A
put_unless true name value slots = slots
put_unless false name value slots = put name value slots

-- qemuVMEFIDiskModelIsEmpty
unfoldable pub efi_disk_is_empty : EfiDisk → Bool
efi_disk_is_empty d =
    is_null d.storage
    && is_null d.volume
    && is_null d.size
    && is_null d.efi_type
    && is_null d.format
    && is_null d.ms_cert
    && is_null d.pre_enrolled_keys

-- qemuVMTPMStateModelIsEmpty
unfoldable pub tpm_state_is_empty : TpmState → Bool
tpm_state_is_empty d =
    is_null d.storage && is_null d.volume && is_null d.size && is_null d.format && is_null d.version

-- qemuVMVGAModelIsEmpty
unfoldable pub vga_is_empty : Vga → Bool
vga_is_empty d = not (is_configured d.device) && is_null d.memory && is_null d.clipboard

module _ {F : Float64} where
  -- raw.extra_config, and over it the compound values of TPM state, EFI disk and display
  unfoldable pub extra_config_of : QemuVmModel F → MapOf Text
  unfolding efi_disk_is_empty tpm_state_is_empty encode_efi_disk encode_tpm_state encode_vga
  extra_config_of model =
      let tpm_state = expand empty_tpm_state model.tpm_state in
      let efi_disk = expand empty_efi_disk model.efi_disk in
      let vga = encode_vga (expand empty_vga model.vga) in
      put_unless (is_empty vga) (codes "vga") vga (
        put_unless (efi_disk_is_empty efi_disk) (codes "efidisk0") (encode_efi_disk efi_disk) (
          put_unless (tpm_state_is_empty tpm_state) (codes "tpmstate0") (encode_tpm_state tpm_state)
            (expand [] (expand no_raw model.raw).extra_config)))

  abbrev device_diagnostics : QemuVmModel F → List Diagnostic
  device_diagnostics model =
      (expand_host_pci_model_map model.host_pci).diagnostics
      ++ ((expand_usb_model_map model.usb).diagnostics
          ++ ((expand_rng_model_map model.rng).diagnostics
              ++ (expand_virtiofs_model_map model.virtiofs).diagnostics))

  -- The request, if no device is refused.
  unfoldable pub request_of : QemuVmModel F → QemuVmConfigRequest F
  unfolding expand_host_pci_model_map expand_usb_model_map expand_rng_model_map
      expand_virtiofs_model_map encode_ip_config encode_network encode_disk extra_config_of
  request_of model =
      let cloud_init = expand no_cloud_init model.cloud_init in
      record {
        name = pointer_value model.name;
        description = pointer_value model.description;
        tags = pointer_value model.tags;
        pool = pointer_value model.pool;
        on_boot = pointer_value model.on_boot;
        protection = pointer_value model.protection;
        scsi_hw = pointer_value model.scsi_hw;
        tablet = pointer_value model.tablet;
        startup = pointer_value model.startup;
        bios = pointer_value model.bios;
        machine = pointer_value model.machine;
        agent = pointer_value model.agent;
        cores = pointer_value model.cores;
        sockets = pointer_value model.sockets;
        memory = pointer_value model.memory;
        numa = pointer_value model.numa;
        vcpus = pointer_value model.vcpus;
        cpu_units = pointer_value model.cpu_units;
        cpu_limit = pointer_value model.cpu_limit;
        balloon = pointer_value model.balloon;
        shares = pointer_value model.shares;
        hugepages = pointer_value model.hugepages;
        cpu = pointer_value model.cpu;
        os_type = pointer_value model.os_type;
        boot = pointer_value model.boot;
        hotplug = pointer_value (expand no_common model.common).hotplug;
        ci_custom = pointer_value cloud_init.ci_custom;
        ci_password = pointer_value cloud_init.ci_password;
        ci_type = pointer_value cloud_init.ci_type;
        ci_upgrade = pointer_value cloud_init.ci_upgrade;
        ci_user = pointer_value cloud_init.ci_user;
        ssh_keys = pointer_value cloud_init.ssh_keys;
        ip_config = encode_map encode_ip_config (expand [] cloud_init.ip_config);
        network = encode_map (encode_network F) (expand [] model.network);
        disk = encode_map (encode_disk F) (expand [] model.disk);
        serial = expand [] model.serial;
        host_pci = (expand_host_pci_model_map model.host_pci).values;
        usb = (expand_usb_model_map model.usb).values;
        rng = (expand_rng_model_map model.rng).values;
        virtiofs = (expand_virtiofs_model_map model.virtiofs).values;
        delete = [];
        extra_config = extra_config_of model;
      }

  -- qemuVMConfigRequestFromModel and qemuVMUpdateRequestFromModel
  unfoldable pub config_request_from_model : QemuVmModel F → Built (QemuVmConfigRequest F)
  unfolding expand_host_pci_model_map expand_usb_model_map expand_rng_model_map
      expand_virtiofs_model_map request_of
  config_request_from_model model = unless_refused (device_diagnostics model) (request_of model)
