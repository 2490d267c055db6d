-- ===== src/Device/HostPci/RoundTrip.antt =====
-- parseQemuVMHostPci after encodeQemuVMHostPci (internal/provider/qemu_vm_devices.go).
use terraform_provider_proxm.Prelude.{ℕ, ◌≡◌, refl, true, some, List, [], ◌∷◌, ◌++◌, All}
use terraform_provider_proxm.Text.{Text, codes}
use terraform_provider_proxm.Text.Trim.{trim_space_self}
use terraform_provider_proxm.Value.{null, known, Holds, IsDecided}
use terraform_provider_proxm.Config.{
  IsPlain, IsName, concat, parse_segments, append_string_config, bool_to_form_value,
}
use terraform_provider_proxm.Config.Segments.{
  string_config-IsPlain, bool_config-IsPlain, All-concat, append_config-IsName, All-concat_name,
}
use terraform_provider_proxm.Config.Steps.{
  read_string, read_flag, parse_config-join, parse_config-options, read_positional,
}
use terraform_provider_proxm.Device.Volume.{IsVolume}
use terraform_provider_proxm.Device.HostPci.{
  HostPci, empty_host_pci, host_pci_positional, host_pci_option, host_pci_segments, parse_host_pci,
  encode_host_pci,
}

-- Every option is decided: null, or a value that a segment can carry.
pub record IsEncodable (d : HostPci) : Type 0 where
  pub mdev : Holds IsPlain d.mdev
  pub pcie : IsDecided d.pcie
  pub x_vga : IsDecided d.x_vga
  pub rom_bar : IsDecided d.rom_bar
  pub rom_file : Holds IsPlain d.rom_file
  pub legacy_igd : IsDecided d.legacy_igd
  pub vendor_id : Holds IsPlain d.vendor_id
  pub device_id : Holds IsPlain d.device_id
  pub sub_vendor_id : Holds IsPlain d.sub_vendor_id
  pub sub_device_id : Holds IsPlain d.sub_device_id
  pub driver : Holds IsPlain d.driver

-- The options of `d` behind the head.
abbrev pub with_host : Text → HostPci → HostPci
with_host head d = record d { host = known head; mapping = null }

-- What is known before the options.
abbrev before_options : HostPci → HostPci
before_options d = record empty_host_pci { host = d.host; mapping = d.mapping }

-- The options are read one after the other.
read_options :
    (d : HostPci)
    → IsEncodable d
    → (i : ℕ)
    → parse_segments host_pci_positional host_pci_option i
        (concat (host_pci_segments d))
        (before_options d)
      ≡ some d
unfolding host_pci_option parse_segments
read_options d h =
    let s0 : HostPci = before_options d in
    let s1 : HostPci = record s0 { mdev = d.mdev } in
    let s2 : HostPci = record s1 { pcie = d.pcie } in
    let s3 : HostPci = record s2 { x_vga = d.x_vga } in
    let s4 : HostPci = record s3 { rom_bar = d.rom_bar } in
    let s5 : HostPci = record s4 { rom_file = d.rom_file } in
    let s6 : HostPci = record s5 { legacy_igd = d.legacy_igd } in
    let s7 : HostPci = record s6 { vendor_id = d.vendor_id } in
    let s8 : HostPci = record s7 { device_id = d.device_id } in
    let s9 : HostPci = record s8 { sub_vendor_id = d.sub_vendor_id } in
    let s10 : HostPci = record s9 { sub_device_id = d.sub_device_id } in
    read_string host_pci_positional host_pci_option (codes "mdev") d.mdev
      (λ x. record s0 { mdev = x }) _ refl h.mdev (λ v. refl)
      (read_flag host_pci_positional host_pci_option (codes "pcie") d.pcie
        (λ x. record s1 { pcie = x }) _ refl h.pcie (λ v. refl)
        (read_flag host_pci_positional host_pci_option (codes "x-vga") d.x_vga
          (λ x. record s2 { x_vga = x }) _ refl h.x_vga (λ v. refl)
          (read_flag host_pci_positional host_pci_option (codes "rombar") d.rom_bar
            (λ x. record s3 { rom_bar = x }) _ refl h.rom_bar (λ v. refl)
            (read_string host_pci_positional host_pci_option (codes "romfile") d.rom_file
              (λ x. record s4 { rom_file = x }) _ refl h.rom_file (λ v. refl)
              (read_flag host_pci_positional host_pci_option (codes "legacy-igd") d.legacy_igd
                (λ x. record s5 { legacy_igd = x }) _ refl h.legacy_igd (λ v. refl)
                (read_string host_pci_positional host_pci_option (codes "vendor-id") d.vendor_id
                  (λ x. record s6 { vendor_id = x }) _ refl h.vendor_id (λ v. refl)
                  (read_string host_pci_positional host_pci_option (codes "device-id") d.device_id
                    (λ x. record s7 { device_id = x }) _ refl h.device_id (λ v. refl)
                    (read_string host_pci_positional host_pci_option (codes "sub-vendor-id")
                      d.sub_vendor_id (λ x. record s8 { sub_vendor_id = x }) _ refl h.sub_vendor_id
                      (λ v. refl)
                      (read_string host_pci_positional host_pci_option (codes "sub-device-id")
                        d.sub_device_id (λ x. record s9 { sub_device_id = x }) _ refl
                        h.sub_device_id (λ v. refl)
                        (read_string host_pci_positional host_pci_option (codes "driver") d.driver
                          (λ x. record s10 { driver = x }) [] refl h.driver (λ v. refl)
                          (λ j. refl)))))))))))

options-IsPlain : (d : HostPci) → IsEncodable d → All IsPlain (concat (host_pci_segments d))
options-IsPlain d h = All-concat (host_pci_segments d) (
  string_config-IsPlain (codes "mdev") d.mdev refl h.mdev,
  (
    bool_config-IsPlain (codes "pcie") d.pcie refl h.pcie,
    (
      bool_config-IsPlain (codes "x-vga") d.x_vga refl h.x_vga,
      (
        bool_config-IsPlain (codes "rombar") d.rom_bar refl h.rom_bar,
        (
          string_config-IsPlain (codes "romfile") d.rom_file refl h.rom_file,
          (
            bool_config-IsPlain (codes "legacy-igd") d.legacy_igd refl h.legacy_igd,
            (
              string_config-IsPlain (codes "vendor-id") d.vendor_id refl h.vendor_id,
              (
                string_config-IsPlain (codes "device-id") d.device_id refl h.device_id,
                (
                  string_config-IsPlain (codes "sub-vendor-id") d.sub_vendor_id refl
                      h.sub_vendor_id,
                  (
                    string_config-IsPlain (codes "sub-device-id") d.sub_device_id refl
                        h.sub_device_id,
                    (string_config-IsPlain (codes "driver") d.driver refl h.driver, tt),
                  ),
                ),
              ),
            ),
          ),
        ),
      ),
    ),
  ),
)

-- The head and then the options.
read_head :
    (head : Text) (d : HostPci)
    → IsVolume head
    → IsEncodable d
    → before_options d ≡ record empty_host_pci { host = known head }
    → parse_segments host_pci_positional host_pci_option 0
        (head ∷ (concat (host_pci_segments d)))
        empty_host_pci
      ≡ some d
read_head head d v h e =
    rw
      (
        read_positional host_pci_positional host_pci_option 0 head empty_host_pci
            (concat (host_pci_segments d)) v.no_equals,
        trim_space_self head v.plain.trimmed,
      )
      (rw e at (read_options d h 1))

-- A host PCI device with a host and no mapping is read back from the property string that it is
-- written as, if the host is not empty and has no comma, no equals sign and no space at its ends,
-- every option is null or known, and known texts among the options have no comma and no space at
-- their ends.
pub parse_host_pci-encode_host_pci :
    (head : Text) (d : HostPci)
    → IsVolume head
    → IsEncodable d
    → parse_host_pci (encode_host_pci (with_host head d)) ≡ some (with_host head d)
unfolding parse_host_pci encode_host_pci
parse_host_pci-encode_host_pci [] d v h = absurd (v.nonempty refl)
parse_host_pci-encode_host_pci (c ∷ p) d v h =
    let e : HostPci = with_host (c ∷ p) d in
    let h' : IsEncodable e = record {
      mdev = h.mdev;
      pcie = h.pcie;
      x_vga = h.x_vga;
      rom_bar = h.rom_bar;
      rom_file = h.rom_file;
      legacy_igd = h.legacy_igd;
      vendor_id = h.vendor_id;
      device_id = h.device_id;
      sub_vendor_id = h.sub_vendor_id;
      sub_device_id = h.sub_device_id;
      driver = h.driver;
    } in
    parse_config-join host_pci_positional host_pci_option (λ _. true) empty_host_pci (c ∷ p)
      (concat (host_pci_segments e)) v.nonempty v.plain (options-IsPlain e h')
      (read_head (c ∷ p) e v h' refl) refl

-- The options of `d` behind a cluster mapping.
abbrev pub with_mapping : Text → HostPci → HostPci
with_mapping mapping d = record d { mapping = known mapping; host = null }

options-IsName : (d : HostPci) → IsEncodable d → All IsName (concat (host_pci_segments d))
options-IsName d h = All-concat_name (host_pci_segments d) (
  append_config-IsName (λ s. s) (codes "mdev") d.mdev refl
      (string_config-IsPlain (codes "mdev") d.mdev refl h.mdev),
  (
    append_config-IsName bool_to_form_value (codes "pcie") d.pcie refl
        (bool_config-IsPlain (codes "pcie") d.pcie refl h.pcie),
    (
      append_config-IsName bool_to_form_value (codes "x-vga") d.x_vga refl
          (bool_config-IsPlain (codes "x-vga") d.x_vga refl h.x_vga),
      (
        append_config-IsName bool_to_form_value (codes "rombar") d.rom_bar refl
            (bool_config-IsPlain (codes "rombar") d.rom_bar refl h.rom_bar),
        (
          append_config-IsName (λ s. s) (codes "romfile") d.rom_file refl
              (string_config-IsPlain (codes "romfile") d.rom_file refl h.rom_file),
          (
            append_config-IsName bool_to_form_value (codes "legacy-igd") d.legacy_igd refl
                (bool_config-IsPlain (codes "legacy-igd") d.legacy_igd refl h.legacy_igd),
            (
              append_config-IsName (λ s. s) (codes "vendor-id") d.vendor_id refl
                  (string_config-IsPlain (codes "vendor-id") d.vendor_id refl h.vendor_id),
              (
                append_config-IsName (λ s. s) (codes "device-id") d.device_id refl
                    (string_config-IsPlain (codes "device-id") d.device_id refl h.device_id),
                (
                  append_config-IsName (λ s. s) (codes "sub-vendor-id") d.sub_vendor_id refl
                      (string_config-IsPlain (codes "sub-vendor-id") d.sub_vendor_id refl
                        h.sub_vendor_id),
                  (
                    append_config-IsName (λ s. s) (codes "sub-device-id") d.sub_device_id refl
                        (string_config-IsPlain (codes "sub-device-id") d.sub_device_id refl
                          h.sub_device_id),
                    (
                      append_config-IsName (λ s. s) (codes "driver") d.driver refl
                          (string_config-IsPlain (codes "driver") d.driver refl h.driver),
                      tt,
                    ),
                  ),
                ),
              ),
            ),
          ),
        ),
      ),
    ),
  ),
)

read_mapping :
    (d : HostPci) (mapping : Text)
    → IsName mapping
    → IsEncodable d
    → before_options d ≡ record empty_host_pci { mapping = known mapping }
    → parse_segments host_pci_positional host_pci_option 0
        (append_string_config (codes "mapping") (known mapping) ++ (concat (host_pci_segments d)))
        empty_host_pci
      ≡ some d
unfolding host_pci_option
read_mapping d mapping m h e =
    read_string host_pci_positional host_pci_option (codes "mapping") (known mapping)
      (λ x. record empty_host_pci { mapping = x }) (concat (host_pci_segments d)) refl m.plain
      (λ v. refl) (λ j. rw e at (read_options d h j)) 0

-- A host PCI device that names a cluster mapping and no host is read back from the property string
-- that it is written as, if the mapping is not empty and has no comma and no space at its ends,
-- every option is null or known, and known texts among the options have no comma and no space at
-- their ends.
pub parse_host_pci-encode_host_pci_mapping :
    (mapping : Text) (d : HostPci)
    → IsName mapping
    → IsEncodable d
    → parse_host_pci (encode_host_pci (with_mapping mapping d)) ≡ some (with_mapping mapping d)
unfolding parse_host_pci encode_host_pci
parse_host_pci-encode_host_pci_mapping [] d m h = absurd (m.nonempty refl)
parse_host_pci-encode_host_pci_mapping (c ∷ p) d m h =
    let e : HostPci = with_mapping (c ∷ p) d in
    let h' : IsEncodable e = record {
      mdev = h.mdev;
      pcie = h.pcie;
      x_vga = h.x_vga;
      rom_bar = h.rom_bar;
      rom_file = h.rom_file;
      legacy_igd = h.legacy_igd;
      vendor_id = h.vendor_id;
      device_id = h.device_id;
      sub_vendor_id = h.sub_vendor_id;
      sub_device_id = h.sub_device_id;
      driver = h.driver;
    } in
    let key : List Text = append_string_config (codes "mapping") (known (c ∷ p)) in
    parse_config-options host_pci_positional host_pci_option (λ _. true) empty_host_pci
      (key ++ (concat (host_pci_segments e))) (λ x. cc)
      (
        (record {
          nonempty = λ x. cc;
          plain = (string_config-IsPlain (codes "mapping") (known (c ∷ p)) refl m.plain).0;
        }),
        options-IsName e h',
      )
      (read_mapping e (c ∷ p) m h' refl) refl
