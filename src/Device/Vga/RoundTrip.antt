-- ===== src/Device/Vga/RoundTrip.antt =====
-- parseQemuVMVGA after encodeQemuVMVGA (internal/provider/qemu_vm_mapping.go).
use terraform_provider_proxm.Prelude.{ℕ, ◌≡◌, refl, some, [], ◌∷◌, All}
use terraform_provider_proxm.Int.{IsInt64}
use terraform_provider_proxm.Text.{Text, codes}
use terraform_provider_proxm.Text.Trim.{trim_space_self}
use terraform_provider_proxm.Value.{known, Holds, is_configured}
use terraform_provider_proxm.Config.{IsPlain, IsName, concat, parse_segments}
use terraform_provider_proxm.Config.Segments.{int64_config-IsPlain, name_config-IsPlain, All-concat}
use terraform_provider_proxm.Config.Steps.{
  read_nonblank, read_int64_nonblank, parse_config-join, read_positional,
}
use terraform_provider_proxm.Device.Volume.{IsVolume}
use terraform_provider_proxm.Device.Vga.{
  Vga, empty_vga, vga_positional, vga_option, vga_segments, parse_vga, encode_vga,
}

-- Every option is decided: null, or a value that a segment can carry.
pub record IsEncodable (d : Vga) : Type 0 where
  pub memory : Holds IsInt64 d.memory
  pub clipboard : Holds IsName d.clipboard

-- The options of `d` behind the head.
abbrev pub with_device : Text → Vga → Vga
with_device head d = record d { device = known head }

-- What is known before the options.
abbrev before_options : Vga → Vga
before_options d = record empty_vga { device = d.device }

-- The options are read one after the other.
read_options :
    (d : Vga)
    → IsEncodable d
    → (i : ℕ)
    → parse_segments vga_positional vga_option i (concat (vga_segments d)) (before_options d)
      ≡ some d
unfolding vga_option parse_segments
read_options d h =
    let s0 : Vga = before_options d in
    let s1 : Vga = record s0 { memory = d.memory } in
    read_int64_nonblank vga_positional vga_option (codes "memory") d.memory
      (λ x. record s0 { memory = x }) _ refl h.memory (λ v e. rw e)
      (read_nonblank vga_positional vga_option (codes "clipboard") d.clipboard
        (λ x. record s1 { clipboard = x }) _ refl h.clipboard (λ v e. rw e) (λ j. refl))

options-IsPlain : (d : Vga) → IsEncodable d → All IsPlain (concat (vga_segments d))
options-IsPlain d h = All-concat (vga_segments d) (
  int64_config-IsPlain (codes "memory") d.memory refl h.memory,
  (name_config-IsPlain (codes "clipboard") d.clipboard refl h.clipboard, tt),
)

-- The head and then the options.
read_head :
    (head : Text) (d : Vga)
    → IsVolume head
    → IsEncodable d
    → before_options d ≡ record empty_vga { device = known head }
    → parse_segments vga_positional vga_option 0 (head ∷ (concat (vga_segments d))) empty_vga
      ≡ some d
read_head [] d v h e = absurd (v.nonempty refl)
read_head (c ∷ p) d v h e =
    rw
      (
        read_positional vga_positional vga_option 0 (c ∷ p) empty_vga (concat (vga_segments d))
            v.no_equals,
        trim_space_self (c ∷ p) v.plain.trimmed,
      )
      (rw e at (read_options d h 1))

-- A display with a type is read back from the property string that it is written as, if the type
-- is not empty and has no comma, no equals sign and no space at its ends, the memory is null or a
-- known integer that fits int64, and the clipboard is null or a known text that is not empty and
-- has no comma and no space at its ends.
pub parse_vga-encode_vga :
    (head : Text) (d : Vga)
    → IsVolume head
    → IsEncodable d
    → parse_vga (encode_vga (with_device head d)) ≡ some (with_device head d)
unfolding parse_vga encode_vga
parse_vga-encode_vga [] d v h = absurd (v.nonempty refl)
parse_vga-encode_vga (c ∷ p) d v h =
    let e : Vga = with_device (c ∷ p) d in
    let h' : IsEncodable e = record { memory = h.memory; clipboard = h.clipboard } in
    parse_config-join vga_positional vga_option (λ d. is_configured d.device) empty_vga (c ∷ p)
      (concat (vga_segments e)) v.nonempty v.plain (options-IsPlain e h')
      (read_head (c ∷ p) e v h' refl) refl
