-- ===== src/Vm/Model.antt =====
-- The models of internal/provider/qemu_vm_schema.go for a guest: its attributes are framework values. A
-- map of strings holds known ones, as the framework refuses to convert the others.
use terraform_provider_proxm.Prelude.{Bool, []}
use terraform_provider_proxm.Int.{ℤ}
use terraform_provider_proxm.Text.{Text, trim_space}
use terraform_provider_proxm.Value.{Value, null, unknown, known}
use terraform_provider_proxm.Config.{Float64}
use terraform_provider_proxm.Vm.Slots.{MapOf}
use terraform_provider_proxm.Device.IpConfig.{IpConfig}
use terraform_provider_proxm.Device.Network.{Network}
use terraform_provider_proxm.Device.Disk.{Disk}
use terraform_provider_proxm.Device.HostPci.{HostPci}
use terraform_provider_proxm.Device.Usb.{UsbDevice}
use terraform_provider_proxm.Device.Rng.{Rng}
use terraform_provider_proxm.Device.Virtiofs.{Virtiofs}
use terraform_provider_proxm.Device.EfiDisk.{EfiDisk}
use terraform_provider_proxm.Device.TpmState.{TpmState}
use terraform_provider_proxm.Device.Vga.{Vga}

pub record Common : Type 0 where
  pub hotplug : Value Text

pub record CloudInit : Type 0 where
  pub ci_custom : Value Text
  pub ci_password : Value Text
  pub ci_type : Value Text
  pub ci_upgrade : Value Bool
  pub ci_user : Value Text
  pub ip_config : Value (MapOf IpConfig)
  pub ssh_keys : Value Text

pub record Raw : Type 0 where
  pub extra_config : Value (MapOf Text)

pub record Source : Type 0 where
  pub source_node : Value Text
  pub source_vmid : Value ℤ
  pub full : Value Bool
  pub snapshot_name : Value Text
  pub storage : Value Text
  pub format : Value Text
  pub bw_limit : Value ℤ

pub record QemuVmModel (F : Float64) : Type 0 where
  pub id : Value Text
  pub node : Value Text
  pub vm_id : Value ℤ
  pub vm_id_start : Value ℤ
  pub name : Value Text
  pub description : Value Text
  pub tags : Value Text
  pub template : Value Bool
  pub pool : Value Text
  pub on_boot : Value Bool
  pub protection : Value Bool
  pub scsi_hw : Value Text
  pub tablet : Value Bool
  pub startup : Value Text
  pub bios : Value Text
  pub machine : Value Text
  pub agent : Value Text
  pub cores : Value ℤ
  pub sockets : Value ℤ
  pub memory : Value ℤ
  pub numa : Value Bool
  pub vcpus : Value ℤ
  pub cpu_units : Value ℤ
  pub cpu_limit : Value F.Float
  pub balloon : Value ℤ
  pub shares : Value ℤ
  pub hugepages : Value Text
  pub cpu : Value Text
  pub os_type : Value Text
  pub boot : Value Text
  pub common : Value Common
  pub cloud_init : Value CloudInit
  pub network : Value (MapOf (Network F))
  pub disk : Value (MapOf (Disk F))
  pub disk_resize : Value (MapOf (Value ℤ))
  pub serial : Value (MapOf Text)
  pub host_pci : Value (MapOf HostPci)
  pub usb : Value (MapOf UsbDevice)
  pub rng : Value (MapOf Rng)
  pub virtiofs : Value (MapOf Virtiofs)
  pub efi_disk : Value EfiDisk
  pub tpm_state : Value TpmState
  pub vga : Value Vga
  pub raw : Value Raw
  pub clone : Value Source
  pub start_on_create : Value Bool
  pub stop_on_destroy : Value Bool
  pub power : Value Bool
  pub power_shutdown_timeout : Value ℤ
  pub nocloud_cdrom_slot : Value Text
  pub nocloud_update_from : Value Text
  pub status : Value Text
  pub uptime : Value ℤ

-- The zero value of an object's model.
abbrev pub no_common : Common
no_common = record { hotplug = null }

abbrev pub no_cloud_init : CloudInit
no_cloud_init = record {
  ci_custom = null;
  ci_password = null;
  ci_type = null;
  ci_upgrade = null;
  ci_user = null;
  ip_config = null;
  ssh_keys = null;
}

abbrev pub no_raw : Raw
no_raw = record { extra_config = null }

-- expandQemuVMCommonModel, expandQemuVMCloudInitModel, expandQemuVMRawModel and the like: a null or
-- unknown object is the zero value; expandQemuVMDiskModelMap and ElementsAs: such a map has no entries.
abbrev pub expand {ℓ} : {A : Type ℓ} → A → Value A → A
expand zero_value null = zero_value
expand zero_value unknown = zero_value
expand zero_value (known a) = a

abbrev pub trimmed_or_empty : Value Text → Text
trimmed_or_empty null = []
trimmed_or_empty unknown = []
trimmed_or_empty (known slot) = trim_space slot

-- qemuVMNoCloudSlotValue
unfoldable pub nocloud_slot_value : {F : Float64} → QemuVmModel F → Text
unfolding trim_space
nocloud_slot_value model = trimmed_or_empty model.nocloud_cdrom_slot
