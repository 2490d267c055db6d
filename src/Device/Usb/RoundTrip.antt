-- ===== src/Device/Usb/RoundTrip.antt =====
-- parseQemuVMUSB after encodeQemuVMUSB (internal/provider/qemu_vm_devices.go).
use terraform_provider_proxm.Prelude.{ℕ, ◌≡◌, refl, true, some, List, [], ◌∷◌, ◌++◌, All}
use terraform_provider_proxm.Text.{Text, codes}
use terraform_provider_proxm.Text.Trim.{trim_space_self}
use terraform_provider_proxm.Value.{null, known, IsDecided}
use terraform_provider_proxm.Config.{
  IsPlain, IsName, concat, parse_segments, append_string_config, bool_to_form_value,
}
use terraform_provider_proxm.Config.Segments.{
  string_config-IsPlain, bool_config-IsPlain, All-concat, append_config-IsName, All-concat_name,
}
use terraform_provider_proxm.Config.Steps.{
  read_string, read_flag, parse_config-join, parse_config-options, read_positional,
}
use terraform_provider_proxm.Device.Volume.{IsVolume}
use terraform_provider_proxm.Device.Usb.{
  UsbDevice, empty_usb, usb_positional, usb_option, usb_segments, parse_usb, encode_usb,
}

-- Every option is decided: null, or a value that a segment can carry.
pub record IsEncodable (d : UsbDevice) : Type 0 where
  pub usb3 : IsDecided d.usb3

-- The options of `d` behind the head.
abbrev pub with_host : Text → UsbDevice → UsbDevice
with_host head d = record d { host = known head; mapping = null }

-- What is known before the options.
abbrev before_options : UsbDevice → UsbDevice
before_options d = record empty_usb { host = d.host; mapping = d.mapping }

-- The options are read one after the other.
read_options :
    (d : UsbDevice)
    → IsEncodable d
    → (i : ℕ)
    → parse_segments usb_positional usb_option i (concat (usb_segments d)) (before_options d)
      ≡ some d
unfolding usb_option parse_segments
read_options d h =
    let s0 : UsbDevice = before_options d in
    read_flag usb_positional usb_option (codes "usb3") d.usb3 (λ x. record s0 { usb3 = x }) [] refl
      h.usb3 (λ v. refl) (λ j. refl)

options-IsPlain : (d : UsbDevice) → IsEncodable d → All IsPlain (concat (usb_segments d))
options-IsPlain d h =
    All-concat (usb_segments d) (bool_config-IsPlain (codes "usb3") d.usb3 refl h.usb3, tt)

-- The head and then the options.
read_head :
    (head : Text) (d : UsbDevice)
    → IsVolume head
    → IsEncodable d
    → before_options d ≡ record empty_usb { host = known head }
    → parse_segments usb_positional usb_option 0 (head ∷ (concat (usb_segments d))) empty_usb
      ≡ some d
read_head head d v h e =
    rw
      (
        read_positional usb_positional usb_option 0 head empty_usb (concat (usb_segments d))
            v.no_equals,
        trim_space_self head v.plain.trimmed,
      )
      (rw e at (read_options d h 1))

-- A USB device with a host and no mapping is read back from the property string that it is written
-- as, if the host is not empty and has no comma, no equals sign and no space at its ends, and usb3
-- is null or known.
pub parse_usb-encode_usb :
    (head : Text) (d : UsbDevice)
    → IsVolume head
    → IsEncodable d
    → parse_usb (encode_usb (with_host head d)) ≡ some (with_host head d)
unfolding parse_usb encode_usb
parse_usb-encode_usb [] d v h = absurd (v.nonempty refl)
parse_usb-encode_usb (c ∷ p) d v h =
    let e : UsbDevice = with_host (c ∷ p) d in
    let h' : IsEncodable e = record { usb3 = h.usb3 } in
    parse_config-join usb_positional usb_option (λ _. true) empty_usb (c ∷ p)
      (concat (usb_segments e)) v.nonempty v.plain (options-IsPlain e h')
      (read_head (c ∷ p) e v h' refl) refl

-- The options of `d` behind a cluster mapping.
abbrev pub with_mapping : Text → UsbDevice → UsbDevice
with_mapping mapping d = record d { mapping = known mapping; host = null }

options-IsName : (d : UsbDevice) → IsEncodable d → All IsName (concat (usb_segments d))
options-IsName d h = All-concat_name (usb_segments d) (
  append_config-IsName bool_to_form_value (codes "usb3") d.usb3 refl
      (bool_config-IsPlain (codes "usb3") d.usb3 refl h.usb3),
  tt,
)

read_mapping :
    (d : UsbDevice) (mapping : Text)
    → IsName mapping
    → IsEncodable d
    → before_options d ≡ record empty_usb { mapping = known mapping }
    → parse_segments usb_positional usb_option 0
        (append_string_config (codes "mapping") (known mapping) ++ (concat (usb_segments d)))
        empty_usb
      ≡ some d
unfolding usb_option
read_mapping d mapping m h e =
    read_string usb_positional usb_option (codes "mapping") (known mapping)
      (λ x. record empty_usb { mapping = x }) (concat (usb_segments d)) refl m.plain (λ v. refl)
      (λ j. rw e at (read_options d h j)) 0

-- A USB device that names a cluster mapping and no host is read back from the property string that
-- it is written as, if the mapping is not empty and has no comma and no space at its ends, and
-- usb3 is null or known.
pub parse_usb-encode_usb_mapping :
    (mapping : Text) (d : UsbDevice)
    → IsName mapping
    → IsEncodable d
    → parse_usb (encode_usb (with_mapping mapping d)) ≡ some (with_mapping mapping d)
unfolding parse_usb encode_usb
parse_usb-encode_usb_mapping [] d m h = absurd (m.nonempty refl)
parse_usb-encode_usb_mapping (c ∷ p) d m h =
    let e : UsbDevice = with_mapping (c ∷ p) d in
    let h' : IsEncodable e = record { usb3 = h.usb3 } in
    let key : List Text = append_string_config (codes "mapping") (known (c ∷ p)) in
    parse_config-options usb_positional usb_option (λ _. true) empty_usb
      (key ++ (concat (usb_segments e))) (λ x. cc)
      (
        (record {
          nonempty = λ x. cc;
          plain = (string_config-IsPlain (codes "mapping") (known (c ∷ p)) refl m.plain).0;
        }),
        options-IsName e h',
      )
      (read_mapping e (c ∷ p) m h' refl) refl
