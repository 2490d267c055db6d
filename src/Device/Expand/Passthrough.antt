-- ===== src/Device/Expand/Passthrough.antt =====
-- internal/provider/qemu_vm_devices.go: PCI devices passed through, expanded and read back.
use terraform_provider_proxm.Prelude.{
  ◌≡◌, refl, sym, subst, true, false, none, some, List, [], ◌∷◌, All, Bool-cases, inl, inr,
}
use terraform_provider_proxm.Text.{Text, is_empty, is_trimmed, trim_space}
use terraform_provider_proxm.Value.{
  Value, null, unknown, known, Holds, IsDecided, Holds-map, is_configured,
}
use terraform_provider_proxm.Diagnostic.{Diagnostic, report}
use terraform_provider_proxm.Config.{IsPlain, IsName, parse_config}
use terraform_provider_proxm.Device.Volume.Decide.{is_plain, is_plain-IsPlain}
use terraform_provider_proxm.Vm.Slots.{MapOf, map_or_null, device_state_value}
use terraform_provider_proxm.Device.Pattern.{
  is_host_pci_key, is_host_pci_host, is_pci_id, one_of, is_mdev, is_rom_file,
}
use terraform_provider_proxm.Device.Pattern.Safe.{
  host_pci_host-IsVolume, pci_id-IsPlain, one_of-holds,
}
use terraform_provider_proxm.Device.Check.{
  fails, source_errors, validate_host_pci_item, host_pci_drivers,
}
use terraform_provider_proxm.Device.Expand.{expand_host_pci_model_map}
use terraform_provider_proxm.Device.Expand.Valid.{
  append_nil_parts, expand_items-reads, fails-Holds, parsed-nonempty, reported,
}
use terraform_provider_proxm.Device.HostPci.{HostPci, parse_host_pci, encode_host_pci}
use terraform_provider_proxm.Device.HostPci.RoundTrip.{
  IsEncodable, parse_host_pci-encode_host_pci, parse_host_pci-encode_host_pci_mapping,
}

-- What validation leaves open: that everything is decided, and that a mapping, a mediated device type
-- and an option ROM file can stand in a property string.
pub record IsDecidedPci (d : HostPci) : Type 0 where
  pub host : IsDecided d.host
  pub mapping : Holds IsName d.mapping
  pub mdev : Holds IsPlain d.mdev
  pub pcie : IsDecided d.pcie
  pub x_vga : IsDecided d.x_vga
  pub rom_bar : IsDecided d.rom_bar
  pub rom_file : Holds IsPlain d.rom_file
  pub legacy_igd : IsDecided d.legacy_igd
  pub vendor_id : IsDecided d.vendor_id
  pub device_id : IsDecided d.device_id
  pub sub_vendor_id : IsDecided d.sub_vendor_id
  pub sub_device_id : IsDecided d.sub_device_id
  pub driver : IsDecided d.driver

-- Exactly one source is configured.
data Source (host mapping : Value Text) : Type 0 where
  by_host :
      (s : Text) → host ≡ known s → mapping ≡ null → is_host_pci_host s ≡ true → Source host mapping
  by_mapping : (s : Text) → host ≡ null → mapping ≡ known s → Source host mapping

source :
    (host mapping : Value Text) (m c i : Diagnostic) (ms cs is : List Diagnostic)
    → IsDecided host
    → IsDecided mapping
    → source_errors
        (is_configured host)
        (is_configured mapping)
        (fails is_host_pci_host host)
        (m ∷ ms)
        (c ∷ cs)
        (i ∷ is)
      ≡ []
    → Source host mapping
source null null m c i ms cs is dh dm h = absurd (reported m ms h)
source null (known s) m c i ms cs is dh dm h = by_mapping s refl refl
source (known s) (known t) m c i ms cs is dh dm h = absurd (reported c cs h)
source (known s) null m c i ms cs is dh dm h = elim (Bool-cases (is_host_pci_host s)) [
  | inl good ↦ by_host s refl refl good
  | inr bad ↦ absurd (reported i is (rw bad at h))
]
source unknown mapping m c i ms cs is dh dm h = absurd dh
source null unknown m c i ms cs is dh dm h = absurd dm
source (known s) unknown m c i ms cs is dh dm h = absurd dm

drivers-IsPlain : All IsPlain host_pci_drivers
unfolding is_trimmed
drivers-IsPlain = (plain refl, (plain refl, tt))
  where
    plain : {s : Text} → is_plain s ≡ true → IsPlain s
    plain {s} = is_plain-IsPlain s

blank_pci : parse_host_pci [] ≡ none
unfolding parse_host_pci parse_config trim_space
blank_pci = refl

read_back :
    (d : HostPci)
    → Source d.host d.mapping
    → Holds IsName d.mapping
    → IsEncodable d
    → parse_host_pci (encode_host_pci d) ≡ some d
read_back d (by_host s eh em good) name h =
    subst (λ x. parse_host_pci (encode_host_pci x) ≡ some x)
      (λ i. record d { host = sym eh i; mapping = sym em i })
      (parse_host_pci-encode_host_pci s d (host_pci_host-IsVolume s good) h)
read_back d (by_mapping s eh em) name h =
    subst (λ x. parse_host_pci (encode_host_pci x) ≡ some x)
      (λ i. record d { host = sym eh i; mapping = sym em i })
      (parse_host_pci-encode_host_pci_mapping s d (subst (Holds IsName) em name) h)

host_pci_law :
    (slot : Text) (d : HostPci)
    → IsDecidedPci d
    → validate_host_pci_item slot d ≡ []
    → (parse_host_pci (encode_host_pci d) ≡ some d) × (is_empty (encode_host_pci d) ≡ false)
unfolding validate_host_pci_item
host_pci_law slot d dec h =
    let (origin, h1) = append_nil_parts _ _ h in
    let (_, h2) = append_nil_parts (report (fails is_mdev d.mdev) _) _ h1 in
    let (_, h3) = append_nil_parts (report (fails is_rom_file d.rom_file) _) _ h2 in
    let (vendor, h4) = append_nil_parts _ _ h3 in
    let (device, h5) = append_nil_parts _ _ h4 in
    let (sub_vendor, h6) = append_nil_parts _ _ h5 in
    let (sub_device, driver) = append_nil_parts _ _ h6 in
    let read =
      read_back d
        (source d.host d.mapping _ _ _ [] [] [] dec.host
          (Holds-map (λ x p. tt) d.mapping dec.mapping) origin)
        dec.mapping
        (record {
          mdev = dec.mdev;
          pcie = dec.pcie;
          x_vga = dec.x_vga;
          rom_bar = dec.rom_bar;
          rom_file = dec.rom_file;
          legacy_igd = dec.legacy_igd;
          vendor_id =
              fails-Holds is_pci_id IsPlain d.vendor_id _ [] pci_id-IsPlain dec.vendor_id vendor;
          device_id =
              fails-Holds is_pci_id IsPlain d.device_id _ [] pci_id-IsPlain dec.device_id device;
          sub_vendor_id =
              fails-Holds is_pci_id IsPlain d.sub_vendor_id _ [] pci_id-IsPlain dec.sub_vendor_id
                sub_vendor;
          sub_device_id =
              fails-Holds is_pci_id IsPlain d.sub_device_id _ [] pci_id-IsPlain dec.sub_device_id
                sub_device;
          driver =
              fails-Holds (one_of host_pci_drivers) IsPlain d.driver _ []
                (λ s. one_of-holds IsPlain host_pci_drivers s drivers-IsPlain) dec.driver driver;
        }) in
    (read, parsed-nonempty parse_host_pci (encode_host_pci d) d blank_pci read)

-- Decided PCI devices that pass validation, whose mapping, mediated device type and option ROM file hold
-- no comma and no space at their ends, are written as values that a read turns back into the same map,
-- with nothing left raw; a mapping is not empty.
pub expand_host_pci_model_map-reads :
    (items : MapOf HostPci)
    → All (λ p. IsDecidedPci p.1) items
    → (expand_host_pci_model_map (known items)).diagnostics ≡ []
    → device_state_value parse_host_pci is_host_pci_key
        (expand_host_pci_model_map (known items)).values
      ≡ (map_or_null parse_host_pci items, [])
unfolding expand_host_pci_model_map
expand_host_pci_model_map-reads =
    expand_items-reads is_host_pci_key validate_host_pci_item encode_host_pci _ parse_host_pci
      IsDecidedPci host_pci_law
