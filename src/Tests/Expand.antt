-- ===== src/Tests/Expand.antt =====
-- Device maps, written and read back.
use terraform_provider_proxm.Prelude.{◌≡◌, refl, true, [], ◌∷◌, All, arith}
use terraform_provider_proxm.Int.{pos}
use terraform_provider_proxm.Text.{codes, is_trimmed}
use terraform_provider_proxm.Value.{null, known}
use terraform_provider_proxm.Config.{IsPlain, IsName}
use terraform_provider_proxm.Device.Volume.Decide.{is_plain-IsPlain, is_name-IsName}
use terraform_provider_proxm.Vm.Slots.{MapOf, map_or_null, device_state_value}
use terraform_provider_proxm.Device.Pattern.{
  is_host_pci_key, is_rng_key, is_virtiofs_key, is_host_pci_host, is_mdev, is_rom_file, is_pci_id,
  is_dir_id,
}
use terraform_provider_proxm.Device.Check.{
  device_path, validate_host_pci_item, validate_rng_item, validate_virtiofs_item,
}
use terraform_provider_proxm.Device.Expand.{
  expand_host_pci_model_map, expand_rng_model_map, expand_virtiofs_model_map,
}
use terraform_provider_proxm.Device.Expand.Devices.{
  IsDecidedShare, expand_virtiofs_model_map-reads, expand_rng_model_map-reads,
}
use terraform_provider_proxm.Device.Expand.Passthrough.{
  IsDecidedPci, expand_host_pci_model_map-reads,
}
use terraform_provider_proxm.Device.HostPci.{HostPci, parse_host_pci, empty_host_pci}
use terraform_provider_proxm.Device.Rng.{Rng, parse_rng}
use terraform_provider_proxm.Device.Rng.RoundTrip.{IsEncodable}
use terraform_provider_proxm.Device.Virtiofs.{Virtiofs, parse_virtiofs}

abbrev shares : MapOf Virtiofs
shares =
    (
      codes "virtiofs0",
      record {
        dir_id = known (codes "shared-data");
        cache = known (codes "always");
        direct_io = known true;
        expose_xattr = null;
        expose_acl = null;
      },
    )
    ∷ []

shares-IsDecidedShare : All (λ p. IsDecidedShare p.1) shares
shares-IsDecidedShare =
    (record { cache = tt; direct_io = tt; expose_xattr = tt; expose_acl = tt }, tt)

shares_valid : (expand_virtiofs_model_map (known shares)).diagnostics ≡ []
unfolding expand_virtiofs_model_map is_virtiofs_key validate_virtiofs_item is_dir_id device_path
shares_valid = refl

expand_virtiofs_model_map-reads_example :
    device_state_value parse_virtiofs is_virtiofs_key
      (expand_virtiofs_model_map (known shares)).values
    ≡ (map_or_null parse_virtiofs shares, [])
expand_virtiofs_model_map-reads_example =
    expand_virtiofs_model_map-reads shares shares-IsDecidedShare shares_valid

abbrev sources : MapOf Rng
sources =
    (
      codes "rng0",
      record { source = known (codes "/dev/urandom"); max_bytes = known (pos 1024); period = null },
    )
    ∷ []

sources-IsEncodable : All (λ p. IsEncodable p.1) sources
sources-IsEncodable = (record { max_bytes = omega arith; period = tt }, tt)

sources_valid : (expand_rng_model_map (known sources)).diagnostics ≡ []
unfolding expand_rng_model_map is_rng_key validate_rng_item device_path
sources_valid = refl

expand_rng_model_map-reads_example :
    device_state_value parse_rng is_rng_key (expand_rng_model_map (known sources)).values
    ≡ (map_or_null parse_rng sources, [])
expand_rng_model_map-reads_example =
    expand_rng_model_map-reads sources sources-IsEncodable sources_valid

abbrev passed : MapOf HostPci
passed =
    (
      codes "hostpci0",
      record empty_host_pci {
        host = known (codes "0000:01:00.0");
        pcie = known true;
        vendor_id = known (codes "0x10de");
        driver = known (codes "vfio");
      },
    )
    ∷ (
      codes "hostpci1",
      record empty_host_pci { mapping = known (codes "gpu"); rom_file = known (codes "vbios.bin") },
    )
    ∷ []

rom_file-IsPlain : IsPlain (codes "vbios.bin")
unfolding is_trimmed
rom_file-IsPlain = is_plain-IsPlain (codes "vbios.bin") refl

gpu-IsName : IsName (codes "gpu")
unfolding is_trimmed
gpu-IsName = is_name-IsName (codes "gpu") refl

passed-IsDecidedPci : All (λ p. IsDecidedPci p.1) passed
passed-IsDecidedPci = (
  record {
    host = tt;
    mapping = tt;
    mdev = tt;
    pcie = tt;
    x_vga = tt;
    rom_bar = tt;
    rom_file = tt;
    legacy_igd = tt;
    vendor_id = tt;
    device_id = tt;
    sub_vendor_id = tt;
    sub_device_id = tt;
    driver = tt;
  },
  (
    record {
      host = tt;
      mapping = gpu-IsName;
      mdev = tt;
      pcie = tt;
      x_vga = tt;
      rom_bar = tt;
      rom_file = rom_file-IsPlain;
      legacy_igd = tt;
      vendor_id = tt;
      device_id = tt;
      sub_vendor_id = tt;
      sub_device_id = tt;
      driver = tt;
    },
    tt,
  ),
)

passed_valid : (expand_host_pci_model_map (known passed)).diagnostics ≡ []
unfolding expand_host_pci_model_map is_host_pci_key validate_host_pci_item is_host_pci_host is_mdev
    is_rom_file is_pci_id device_path
passed_valid = refl

expand_host_pci_model_map-reads_example :
    device_state_value parse_host_pci is_host_pci_key
      (expand_host_pci_model_map (known passed)).values
    ≡ (map_or_null parse_host_pci passed, [])
expand_host_pci_model_map-reads_example =
    expand_host_pci_model_map-reads passed passed-IsDecidedPci passed_valid
