-- ===== src/Device/Usb.antt =====
-- qemuVMUSBModel, parseQemuVMUSB and encodeQemuVMUSB.
pub mod RoundTrip
use terraform_provider_proxm.Prelude.{
  ℕ, List, [], ◌∷◌, ◌++◌, Option, none, some, Bool, true, false, ◌||◌, not, ◌==◌, if◌then◌else◌,
  ◌>>=◌,
}
use terraform_provider_proxm.Int.{ℤ}
use terraform_provider_proxm.Text.{Text, codes, text_eq, is_empty, trim_space, join}
use terraform_provider_proxm.Text.Decimal.{parse_int}
use terraform_provider_proxm.Value.{Value, null, known, string_value, is_configured}
use terraform_provider_proxm.Config.{
  parse_config_bool, optional_bool_value, parse_config, append_string_config, append_int64_config,
  append_bool_config, concat,
}

pub record UsbDevice : Type 0 where
  pub host : Value Text
  pub mapping : Value Text
  pub usb3 : Value Bool

abbrev pub empty_usb : UsbDevice
empty_usb = record { host = null; mapping = null; usb3 = null }

-- The first segment alone may stand without a key.
abbrev pub usb_positional : ℕ → Text → UsbDevice → Option UsbDevice
usb_positional index segment item =
    if index == 0 then some (record item { host = known (trim_space segment) }) else none

-- The `switch key` of the loop.
unfoldable pub usb_option : Text → Text → UsbDevice → Option UsbDevice
usb_option key value item =
    if text_eq key (codes "host")
    then some (record item { host = known value })
    else if text_eq key (codes "mapping")
    then some (record item { mapping = known value })
    else if text_eq key (codes "usb3")
    then some (record item { usb3 = optional_bool_value value })
    else none

unfoldable pub parse_usb : Text → Option UsbDevice
unfolding usb_option parse_config
parse_usb = parse_config usb_positional usb_option (λ _. true) empty_usb

abbrev pub usb_segments : UsbDevice → List (List Text)
usb_segments d = append_bool_config (codes "usb3") d.usb3 ∷ []

abbrev usb_head : UsbDevice → List Text
usb_head d =
    if not (is_empty (string_value d.host))
    then string_value d.host ∷ []
    else if not (is_empty (string_value d.mapping))
    then (codes "mapping=" ++ string_value d.mapping) ∷ []
    else []

unfoldable pub encode_usb : UsbDevice → Text
unfolding join
encode_usb d = join (concat (usb_head d ∷ usb_segments d)) b','
