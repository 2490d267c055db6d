-- ===== src/Device/Vga.antt =====
-- qemuVMVGAModel, parseQemuVMVGA and encodeQemuVMVGA; the field Type is `device` here.
pub mod RoundTrip
use terraform_provider_proxm.Prelude.{
  ℕ, List, [], ◌∷◌, ◌++◌, Option, none, some, Bool, true, false, ◌||◌, not, ◌==◌, if◌then◌else◌,
  ◌>>=◌,
}
use terraform_provider_proxm.Int.{ℤ}
use terraform_provider_proxm.Text.{Text, codes, text_eq, is_empty, trim_space, join}
use terraform_provider_proxm.Text.Decimal.{parse_int}
use terraform_provider_proxm.Value.{Value, null, known, string_value, is_configured}
use terraform_provider_proxm.Config.{
  parse_config_bool, optional_bool_value, parse_config, append_string_config, append_int64_config,
  append_bool_config, concat,
}

pub record Vga : Type 0 where
  pub device : Value Text
  pub memory : Value ℤ
  pub clipboard : Value Text

abbrev pub empty_vga : Vga
empty_vga = record { device = null; memory = null; clipboard = null }

-- The first segment alone may stand without a key.
abbrev pub vga_positional : ℕ → Text → Vga → Option Vga
vga_positional index segment item =
    if index == 0
    then (if is_empty (trim_space segment)
        then none
        else some (record item { device = known (trim_space segment) }))
    else none

-- The `switch key` of the loop.
unfoldable pub vga_option : Text → Text → Vga → Option Vga
vga_option key value item =
    if is_empty (trim_space value)
    then none
    else if text_eq key (codes "memory")
    then parse_int value >>= (λ n. some (record item { memory = known n }))
    else if text_eq key (codes "clipboard")
    then some (record item { clipboard = known value })
    else none

unfoldable pub parse_vga : Text → Option Vga
unfolding vga_option parse_config
parse_vga = parse_config vga_positional vga_option (λ d. is_configured d.device) empty_vga

abbrev pub vga_segments : Vga → List (List Text)
vga_segments d =
    append_int64_config (codes "memory") d.memory
    ∷ append_string_config (codes "clipboard") d.clipboard
    ∷ []

unfoldable pub encode_vga : Vga → Text
unfolding join
encode_vga d =
    if is_configured d.device
    then join (string_value d.device ∷ concat (vga_segments d)) b','
    else []
