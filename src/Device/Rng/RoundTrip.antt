-- ===== src/Device/Rng/RoundTrip.antt =====
-- parseQemuVMRNG after encodeQemuVMRNG (internal/provider/qemu_vm_devices.go).
use terraform_provider_proxm.Prelude.{ℕ, ◌≡◌, refl, true, some, [], ◌∷◌, All}
use terraform_provider_proxm.Int.{IsInt64}
use terraform_provider_proxm.Text.{Text, codes}
use terraform_provider_proxm.Text.Trim.{trim_space_self}
use terraform_provider_proxm.Value.{known, Holds}
use terraform_provider_proxm.Config.{IsPlain, concat, parse_segments}
use terraform_provider_proxm.Config.Segments.{int64_config-IsPlain, All-concat}
use terraform_provider_proxm.Config.Steps.{read_int64, parse_config-join, read_positional}
use terraform_provider_proxm.Device.Volume.{IsVolume}
use terraform_provider_proxm.Device.Rng.{
  Rng, empty_rng, rng_positional, rng_option, rng_segments, parse_rng, encode_rng,
}

-- Every option is decided: null, or a value that a segment can carry.
pub record IsEncodable (d : Rng) : Type 0 where
  pub max_bytes : Holds IsInt64 d.max_bytes
  pub period : Holds IsInt64 d.period

-- The options of `d` behind the head.
abbrev pub with_source : Text → Rng → Rng
with_source head d = record d { source = known head }

-- What is known before the options.
abbrev before_options : Rng → Rng
before_options d = record empty_rng { source = d.source }

-- The options are read one after the other.
read_options :
    (d : Rng)
    → IsEncodable d
    → (i : ℕ)
    → parse_segments rng_positional rng_option i (concat (rng_segments d)) (before_options d)
      ≡ some d
unfolding rng_option parse_segments
read_options d h =
    let s0 : Rng = before_options d in
    let s1 : Rng = record s0 { max_bytes = d.max_bytes } in
    read_int64 rng_positional rng_option (codes "max_bytes") d.max_bytes
      (λ x. record s0 { max_bytes = x }) _ refl h.max_bytes (λ v. refl)
      (read_int64 rng_positional rng_option (codes "period") d.period
        (λ x. record s1 { period = x }) [] refl h.period (λ v. refl) (λ j. refl))

options-IsPlain : (d : Rng) → IsEncodable d → All IsPlain (concat (rng_segments d))
options-IsPlain d h = All-concat (rng_segments d) (
  int64_config-IsPlain (codes "max_bytes") d.max_bytes refl h.max_bytes,
  (int64_config-IsPlain (codes "period") d.period refl h.period, tt),
)

-- The head and then the options.
read_head :
    (head : Text) (d : Rng)
    → IsVolume head
    → IsEncodable d
    → before_options d ≡ record empty_rng { source = known head }
    → parse_segments rng_positional rng_option 0 (head ∷ (concat (rng_segments d))) empty_rng
      ≡ some d
read_head head d v h e =
    rw
      (
        read_positional rng_positional rng_option 0 head empty_rng (concat (rng_segments d))
            v.no_equals,
        trim_space_self head v.plain.trimmed,
      )
      (rw e at (read_options d h 1))

-- An entropy source is read back from the property string that it is written as, if its source is
-- not empty and has no comma, no equals sign and no space at its ends, and each limit is null or a
-- known integer that fits int64.
pub parse_rng-encode_rng :
    (head : Text) (d : Rng)
    → IsVolume head
    → IsEncodable d
    → parse_rng (encode_rng (with_source head d)) ≡ some (with_source head d)
unfolding parse_rng encode_rng
parse_rng-encode_rng [] d v h = absurd (v.nonempty refl)
parse_rng-encode_rng (c ∷ p) d v h =
    let e : Rng = with_source (c ∷ p) d in
    let h' : IsEncodable e = record { max_bytes = h.max_bytes; period = h.period } in
    parse_config-join rng_positional rng_option (λ _. true) empty_rng (c ∷ p)
      (concat (rng_segments e)) v.nonempty v.plain (options-IsPlain e h')
      (read_head (c ∷ p) e v h' refl) refl
