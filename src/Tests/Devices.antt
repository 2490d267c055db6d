-- ===== src/Tests/Devices.antt =====
-- Property strings at concrete devices.
use terraform_provider_proxm.Prelude.{◌≡◌, refl, true, false, some, arith}
use terraform_provider_proxm.Int.{pos}
use terraform_provider_proxm.Text.{Text, codes, is_trimmed}
use terraform_provider_proxm.Value.{known}
use terraform_provider_proxm.Config.{IsName}
use terraform_provider_proxm.Device.Volume.{IsVolume}
use terraform_provider_proxm.Tests.Samples.{numbers}
use terraform_provider_proxm.Device.Volume.Decide.{
  is_plain-IsPlain, is_name-IsName, is_volume-IsVolume,
}
use terraform_provider_proxm.Device.Disk.{Disk, empty_disk, parse_disk, encode_disk}
use terraform_provider_proxm.Device.Disk.RoundTrip.{parse_disk-encode_disk}
use terraform_provider_proxm.Device.Disk.RoundTrip as DiskTrip
use terraform_provider_proxm.Device.EfiDisk.{
  EfiDisk, empty_efi_disk, parse_efi_disk, encode_efi_disk,
}
use terraform_provider_proxm.Device.EfiDisk.RoundTrip.{parse_efi_disk-encode_efi_disk}
use terraform_provider_proxm.Device.EfiDisk.RoundTrip as EfiDiskTrip
use terraform_provider_proxm.Device.TpmState.{
  TpmState, empty_tpm_state, parse_tpm_state, encode_tpm_state,
}
use terraform_provider_proxm.Device.TpmState.RoundTrip.{parse_tpm_state-encode_tpm_state}
use terraform_provider_proxm.Device.TpmState.RoundTrip as TpmStateTrip
use terraform_provider_proxm.Device.Vga.{Vga, empty_vga, parse_vga, encode_vga}
use terraform_provider_proxm.Device.Vga.RoundTrip.{parse_vga-encode_vga}
use terraform_provider_proxm.Device.Vga.RoundTrip as VgaTrip
use terraform_provider_proxm.Device.Usb.{UsbDevice, empty_usb, parse_usb, encode_usb}
use terraform_provider_proxm.Device.Usb.RoundTrip.{
  parse_usb-encode_usb, parse_usb-encode_usb_mapping,
}
use terraform_provider_proxm.Device.Usb.RoundTrip as UsbTrip
use terraform_provider_proxm.Device.Rng.{Rng, empty_rng, parse_rng, encode_rng}
use terraform_provider_proxm.Device.Rng.RoundTrip.{parse_rng-encode_rng}
use terraform_provider_proxm.Device.Rng.RoundTrip as RngTrip
use terraform_provider_proxm.Device.Virtiofs.{
  Virtiofs, empty_virtiofs, parse_virtiofs, encode_virtiofs,
}
use terraform_provider_proxm.Device.Virtiofs.RoundTrip.{parse_virtiofs-encode_virtiofs}
use terraform_provider_proxm.Device.Virtiofs.RoundTrip as VirtiofsTrip
use terraform_provider_proxm.Device.HostPci.{
  HostPci, empty_host_pci, parse_host_pci, encode_host_pci,
}
use terraform_provider_proxm.Device.HostPci.RoundTrip.{
  parse_host_pci-encode_host_pci, parse_host_pci-encode_host_pci_mapping,
}
use terraform_provider_proxm.Device.HostPci.RoundTrip as HostPciTrip
use terraform_provider_proxm.Device.IpConfig.{
  IpConfig, empty_ip_config, parse_ip_config, encode_ip_config,
}
use terraform_provider_proxm.Device.IpConfig.RoundTrip.{parse_ip_config-encode_ip_config}
use terraform_provider_proxm.Device.IpConfig.RoundTrip as IpConfigTrip
use terraform_provider_proxm.Device.Network.{
  Network, empty_network, parse_network, encode_network, is_network_model,
}
use terraform_provider_proxm.Device.Network.RoundTrip.{parse_network-encode_network}
use terraform_provider_proxm.Device.Network.RoundTrip as NetworkTrip

abbrev volume : Text
volume = codes "local:vm-1-disk-0"

volume-IsVolume : IsVolume volume
unfolding is_trimmed
volume-IsVolume = is_volume-IsVolume volume refl

abbrev mapping : Text
mapping = codes "shared-card"

mapping-IsName : IsName mapping
unfolding is_trimmed
mapping-IsName = is_name-IsName mapping refl

abbrev disk : Disk numbers
disk = record (empty_disk numbers) {
  size = known (codes "8G");
  cache = known (codes "writeback");
  discard = known (codes "on");
  iothread = known true;
  ssd = known false;
  iops = known (pos 500);
  mbps_rd = known 20;
}

disk-IsEncodable : DiskTrip.IsEncodable numbers disk
unfolding is_trimmed
disk-IsEncodable = record {
  size = is_plain-IsPlain (codes "8G") refl;
  media = tt;
  cache = is_plain-IsPlain (codes "writeback") refl;
  discard = is_plain-IsPlain (codes "on") refl;
  iothread = tt;
  replicate = tt;
  ssd = tt;
  backup = tt;
  shared = tt;
  snapshot = tt;
  serial = tt;
  iops = omega arith;
  iops_max = tt;
  iops_rd = tt;
  iops_rd_max = tt;
  iops_wr = tt;
  iops_wr_max = tt;
  mbps = tt;
  mbps_max = tt;
  mbps_rd = tt;
  mbps_rd_max = tt;
  mbps_wr = tt;
  mbps_wr_max = tt;
}

parse_disk-encode_disk_example :
    parse_disk numbers (encode_disk numbers (DiskTrip.attach numbers volume disk))
    ≡ some (DiskTrip.attach numbers volume disk)
parse_disk-encode_disk_example =
    parse_disk-encode_disk numbers volume disk volume-IsVolume disk-IsEncodable

abbrev efi_disk : EfiDisk
efi_disk = record empty_efi_disk {
  efi_type = known (codes "4m");
  pre_enrolled_keys = known true;
  size = known (codes "528K");
}

efi_disk-IsEncodable : EfiDiskTrip.IsEncodable efi_disk
unfolding is_trimmed
efi_disk-IsEncodable = record {
  efi_type = is_plain-IsPlain (codes "4m") refl;
  format = tt;
  ms_cert = tt;
  pre_enrolled_keys = tt;
  size = is_plain-IsPlain (codes "528K") refl;
}

parse_efi_disk-encode_efi_disk_example :
    parse_efi_disk (encode_efi_disk (EfiDiskTrip.attach volume efi_disk))
    ≡ some (EfiDiskTrip.attach volume efi_disk)
parse_efi_disk-encode_efi_disk_example =
    parse_efi_disk-encode_efi_disk volume efi_disk volume-IsVolume efi_disk-IsEncodable

abbrev tpm_state : TpmState
tpm_state = record empty_tpm_state { size = known (codes "4M"); version = known (codes "v2.0") }

tpm_state-IsEncodable : TpmStateTrip.IsEncodable tpm_state
unfolding is_trimmed
tpm_state-IsEncodable = record {
  format = tt;
  size = is_name-IsName (codes "4M") refl;
  version = is_name-IsName (codes "v2.0") refl;
}

parse_tpm_state-encode_tpm_state_example :
    parse_tpm_state (encode_tpm_state (TpmStateTrip.attach volume tpm_state))
    ≡ some (TpmStateTrip.attach volume tpm_state)
parse_tpm_state-encode_tpm_state_example =
    parse_tpm_state-encode_tpm_state volume tpm_state volume-IsVolume tpm_state-IsEncodable

abbrev vga : Vga
vga = record empty_vga { memory = known (pos 32); clipboard = known (codes "vnc") }

vga-IsEncodable : VgaTrip.IsEncodable vga
unfolding is_trimmed
vga-IsEncodable = record { memory = omega arith; clipboard = is_name-IsName (codes "vnc") refl }

parse_vga-encode_vga_example :
    parse_vga (encode_vga (VgaTrip.with_device volume vga)) ≡ some (VgaTrip.with_device volume vga)
parse_vga-encode_vga_example = parse_vga-encode_vga volume vga volume-IsVolume vga-IsEncodable

abbrev usb : UsbDevice
usb = record empty_usb { usb3 = known true }

usb-IsEncodable : UsbTrip.IsEncodable usb
unfolding is_trimmed
usb-IsEncodable = record { usb3 = tt }

parse_usb-encode_usb_example :
    parse_usb (encode_usb (UsbTrip.with_host volume usb)) ≡ some (UsbTrip.with_host volume usb)
parse_usb-encode_usb_example = parse_usb-encode_usb volume usb volume-IsVolume usb-IsEncodable

parse_usb-encode_usb_mapping_example :
    parse_usb (encode_usb (UsbTrip.with_mapping mapping usb))
    ≡ some (UsbTrip.with_mapping mapping usb)
parse_usb-encode_usb_mapping_example =
    parse_usb-encode_usb_mapping mapping usb mapping-IsName usb-IsEncodable

abbrev rng : Rng
rng = record empty_rng { max_bytes = known (pos 1024); period = known (pos 1000) }

rng-IsEncodable : RngTrip.IsEncodable rng
unfolding is_trimmed
rng-IsEncodable = record { max_bytes = omega arith; period = omega arith }

parse_rng-encode_rng_example :
    parse_rng (encode_rng (RngTrip.with_source volume rng)) ≡ some (RngTrip.with_source volume rng)
parse_rng-encode_rng_example = parse_rng-encode_rng volume rng volume-IsVolume rng-IsEncodable

abbrev virtiofs : Virtiofs
virtiofs = record empty_virtiofs { cache = known (codes "auto"); direct_io = known true }

virtiofs-IsEncodable : VirtiofsTrip.IsEncodable virtiofs
unfolding is_trimmed
virtiofs-IsEncodable = record {
  cache = is_plain-IsPlain (codes "auto") refl;
  direct_io = tt;
  expose_xattr = tt;
  expose_acl = tt;
}

parse_virtiofs-encode_virtiofs_example :
    parse_virtiofs (encode_virtiofs (VirtiofsTrip.with_dir_id volume virtiofs))
    ≡ some (VirtiofsTrip.with_dir_id volume virtiofs)
parse_virtiofs-encode_virtiofs_example =
    parse_virtiofs-encode_virtiofs volume virtiofs volume-IsVolume virtiofs-IsEncodable

abbrev host_pci : HostPci
host_pci = record empty_host_pci {
  pcie = known true;
  rom_bar = known false;
  rom_file = known (codes "vga.bin");
  vendor_id = known (codes "0x8086");
}

host_pci-IsEncodable : HostPciTrip.IsEncodable host_pci
unfolding is_trimmed
host_pci-IsEncodable = record {
  mdev = tt;
  pcie = tt;
  x_vga = tt;
  rom_bar = tt;
  rom_file = is_plain-IsPlain (codes "vga.bin") refl;
  legacy_igd = tt;
  vendor_id = is_plain-IsPlain (codes "0x8086") refl;
  device_id = tt;
  sub_vendor_id = tt;
  sub_device_id = tt;
  driver = tt;
}

parse_host_pci-encode_host_pci_example :
    parse_host_pci (encode_host_pci (HostPciTrip.with_host volume host_pci))
    ≡ some (HostPciTrip.with_host volume host_pci)
parse_host_pci-encode_host_pci_example =
    parse_host_pci-encode_host_pci volume host_pci volume-IsVolume host_pci-IsEncodable

parse_host_pci-encode_host_pci_mapping_example :
    parse_host_pci (encode_host_pci (HostPciTrip.with_mapping mapping host_pci))
    ≡ some (HostPciTrip.with_mapping mapping host_pci)
parse_host_pci-encode_host_pci_mapping_example =
    parse_host_pci-encode_host_pci_mapping mapping host_pci mapping-IsName host_pci-IsEncodable

abbrev ip_config : IpConfig
ip_config = record empty_ip_config { ipv4 = known (codes "dhcp"); ipv6 = known (codes "auto") }

ip_config-IsEncodable : IpConfigTrip.IsEncodable ip_config
unfolding is_trimmed
ip_config-IsEncodable = record {
  ipv4 = is_plain-IsPlain (codes "dhcp") refl;
  gateway = tt;
  ipv6 = is_plain-IsPlain (codes "auto") refl;
  gateway6 = tt;
}

parse_ip_config-encode_ip_config_example :
    parse_ip_config (encode_ip_config ip_config) ≡ some ip_config
parse_ip_config-encode_ip_config_example =
    parse_ip_config-encode_ip_config ip_config ip_config-IsEncodable refl

abbrev network : Network numbers
network = record (empty_network numbers) {
  mac_addr = known (codes "BC:24:11:00:00:01");
  bridge = known (codes "vmbr0");
  tag = known (pos 12);
  firewall = known true;
}

network-IsEncodable : NetworkTrip.IsEncodable numbers network
unfolding is_trimmed
network-IsEncodable = record {
  mac_addr = is_name-IsName (codes "BC:24:11:00:00:01") refl;
  bridge = is_plain-IsPlain (codes "vmbr0") refl;
  tag = omega arith;
  trunks = tt;
  firewall = tt;
  link_down = tt;
  mtu = tt;
  queues = tt;
  rate = tt;
}

virtio-is_network_model : is_network_model (codes "virtio") ≡ true
unfolding is_network_model
virtio-is_network_model = refl

parse_network-encode_network_example :
    parse_network numbers
      (encode_network numbers (NetworkTrip.with_model numbers (codes "virtio") network))
    ≡ some (NetworkTrip.with_model numbers (codes "virtio") network)
parse_network-encode_network_example =
    parse_network-encode_network numbers (codes "virtio") network virtio-is_network_model
      network-IsEncodable
