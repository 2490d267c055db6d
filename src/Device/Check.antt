-- ===== src/Device/Check.antt =====
-- internal/provider/qemu_vm_devices.go: validateQemuVMHostPciItem, validateQemuVMUSBItem,
-- validateQemuVMRNGItem and validateQemuVMVirtiofsItem.
use terraform_provider_proxm.Prelude.{Bool, true, false, not, List, [], ◌∷◌, ◌++◌}
use terraform_provider_proxm.Int.{ℤ, pos, ltz}
use terraform_provider_proxm.Text.{Text, codes}
use terraform_provider_proxm.Value.{Value, null, unknown, known, is_configured}
use terraform_provider_proxm.Client.Error.{quote}
use terraform_provider_proxm.Diagnostic.{Diagnostic, attribute_error, report}
use terraform_provider_proxm.Device.Pattern.{
  is_host_pci_host, is_usb_host, is_mdev, is_rom_file, is_pci_id, is_dir_id, one_of,
}
use terraform_provider_proxm.Device.HostPci.{HostPci}
use terraform_provider_proxm.Device.Usb.{UsbDevice}
use terraform_provider_proxm.Device.Rng.{Rng}
use terraform_provider_proxm.Device.Virtiofs.{Virtiofs}

-- qemuVMDevicePath: the attribute is `disk` for every family.
unfoldable pub device_path : Text → Text
device_path slot = codes "disk[" ++ (quote slot ++ codes "]")

abbrev pub at_name : Text → Text → Text
at_name slot name = device_path slot ++ (b'.' ∷ name)

-- A configured value that fails a test.
abbrev pub fails : (Text → Bool) → Value Text → Bool
fails p null = false
fails p unknown = false
fails p (known s) = not (p s)

abbrev pub is_negative : Value ℤ → Bool
is_negative null = false
is_negative unknown = false
is_negative (known n) = ltz n (pos 0)

-- The `switch` on the source of a device: none, two, or one that must match.
abbrev pub source_errors :
    Bool → Bool → Bool → List Diagnostic → List Diagnostic → List Diagnostic → List Diagnostic
source_errors false false bad missing conflict invalid = missing
source_errors true true bad missing conflict invalid = conflict
source_errors true false bad missing conflict invalid = report bad invalid
source_errors false true bad missing conflict invalid = []

abbrev pci_id_errors : Text → Text → Value Text → List Diagnostic
pci_id_errors slot name value =
    report (fails is_pci_id value)
      (attribute_error (at_name slot name) (codes "Invalid PCI id override"))

-- qemuVMHostPCIDriver
abbrev pub host_pci_drivers : List Text
host_pci_drivers = codes "vfio" ∷ codes "keep" ∷ []

unfoldable pub validate_host_pci_item : Text → HostPci → List Diagnostic
unfolding is_host_pci_host is_mdev is_rom_file is_pci_id device_path
validate_host_pci_item slot item =
    source_errors (is_configured item.host) (is_configured item.mapping)
      (fails is_host_pci_host item.host)
      (attribute_error (device_path slot) (codes "Missing host PCI source"))
      (attribute_error (device_path slot) (codes "Conflicting host PCI source"))
      (attribute_error (at_name slot (codes "host")) (codes "Invalid host PCI id"))
    ++ (report (fails is_mdev item.mdev)
          (attribute_error (at_name slot (codes "mdev")) (codes "Invalid mediated device type"))
        ++ (report (fails is_rom_file item.rom_file) (
              attribute_error (at_name slot (codes "rom_file"))
                (codes "Invalid PCI option ROM file"))
            ++ (pci_id_errors slot (codes "vendor_id") item.vendor_id
                ++ (pci_id_errors slot (codes "device_id") item.device_id
                    ++ (pci_id_errors slot (codes "sub_vendor_id") item.sub_vendor_id
                        ++ (pci_id_errors slot (codes "sub_device_id") item.sub_device_id
                            ++ report (fails (one_of host_pci_drivers) item.driver) (
                                attribute_error (at_name slot (codes "driver"))
                                  (codes "Invalid PCI driver"))))))))

unfoldable pub validate_usb_item : Text → UsbDevice → List Diagnostic
unfolding is_usb_host device_path
validate_usb_item slot item =
    source_errors (is_configured item.host) (is_configured item.mapping)
      (fails is_usb_host item.host)
      (attribute_error (device_path slot) (codes "Missing USB source"))
      (attribute_error (device_path slot) (codes "Conflicting USB source"))
      (attribute_error (at_name slot (codes "host")) (codes "Invalid USB device"))

-- A required value: missing, or one that must pass a test.
abbrev pub required_errors :
    (Text → Bool) → Value Text → List Diagnostic → List Diagnostic → List Diagnostic
required_errors p null missing invalid = missing
required_errors p unknown missing invalid = missing
required_errors p (known s) missing invalid = report (not (p s)) invalid

-- qemuVMRNGSource
abbrev pub rng_sources : List Text
rng_sources = codes "/dev/urandom" ∷ codes "/dev/random" ∷ codes "/dev/hwrng" ∷ []

unfoldable pub validate_rng_item : Text → Rng → List Diagnostic
unfolding device_path
validate_rng_item slot item =
    required_errors (one_of rng_sources) item.source
      (attribute_error (device_path slot) (codes "Missing entropy source"))
      (attribute_error (at_name slot (codes "source")) (codes "Invalid entropy source"))
    ++ (report (is_negative item.max_bytes)
          (attribute_error (at_name slot (codes "max_bytes")) (codes "Invalid entropy limit"))
        ++ report (is_negative item.period)
            (attribute_error (at_name slot (codes "period")) (codes "Invalid entropy limit")))

-- qemuVMVirtiofsCaches
abbrev pub virtiofs_caches : List Text
virtiofs_caches = codes "auto" ∷ codes "always" ∷ codes "metadata" ∷ codes "never" ∷ []

unfoldable pub validate_virtiofs_item : Text → Virtiofs → List Diagnostic
unfolding is_dir_id device_path
validate_virtiofs_item slot item =
    required_errors is_dir_id item.dir_id
      (attribute_error (device_path slot) (codes "Missing directory mapping"))
      (attribute_error (at_name slot (codes "dirid")) (codes "Invalid directory mapping id"))
    ++ report (fails (one_of virtiofs_caches) item.cache)
        (attribute_error (at_name slot (codes "cache")) (codes "Invalid virtiofs cache policy"))
