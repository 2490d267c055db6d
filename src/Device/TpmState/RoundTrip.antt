-- ===== src/Device/TpmState/RoundTrip.antt =====
-- parseQemuVMTPMState after encodeQemuVMTPMState (internal/provider/qemu_vm_mapping.go).
use terraform_provider_proxm.Prelude.{ℕ, ◌≡◌, refl, some, List, [], ◌∷◌, ◌++◌, All}
use terraform_provider_proxm.Text.{Text, codes}
use terraform_provider_proxm.Text.Trim.{trim_space_self}
use terraform_provider_proxm.Value.{null, known, Holds, is_configured}
use terraform_provider_proxm.Config.{IsPlain, IsName, parse_segments, append_string_config}
use terraform_provider_proxm.Config.Segments.{name_config-IsPlain, All-concat}
use terraform_provider_proxm.Config.Steps.{read_nonblank, parse_config-join, read_positional}
use terraform_provider_proxm.Device.Volume.{IsVolume, observed_storage}
use terraform_provider_proxm.Device.TpmState.{
  TpmState, empty_tpm_state, tpm_state_positional, tpm_state_option, parse_tpm_state,
  encode_tpm_state, set_volume,
}

-- Every option is decided: null, or a value that a segment can carry.
pub record IsEncodable (d : TpmState) : Type 0 where
  pub format : Holds IsName d.format
  pub size : Holds IsName d.size
  pub version : Holds IsName d.version

-- The options of `d` behind the head.
abbrev pub attach : Text → TpmState → TpmState
attach head d = record d { storage = observed_storage head null; volume = known head }

-- The options of a drive that has a volume.
abbrev option_segments : TpmState → List Text
option_segments d =
    append_string_config (codes "format") d.format
    ++ (append_string_config (codes "size") d.size
        ++ (append_string_config (codes "version") d.version ++ []))

-- What is known before the options.
abbrev before_options : TpmState → TpmState
before_options d = record empty_tpm_state { volume = d.volume; storage = d.storage }

-- The options are read one after the other.
read_options :
    (d : TpmState)
    → IsEncodable d
    → (i : ℕ)
    → parse_segments tpm_state_positional tpm_state_option i (option_segments d) (before_options d)
      ≡ some d
unfolding tpm_state_option parse_segments
read_options d h =
    let s0 : TpmState = before_options d in
    let s1 : TpmState = record s0 { format = d.format } in
    let s2 : TpmState = record s1 { size = d.size } in
    read_nonblank tpm_state_positional tpm_state_option (codes "format") d.format
      (λ x. record s0 { format = x }) _ refl h.format (λ v e. rw e)
      (read_nonblank tpm_state_positional tpm_state_option (codes "size") d.size
        (λ x. record s1 { size = x }) _ refl h.size (λ v e. rw e)
        (read_nonblank tpm_state_positional tpm_state_option (codes "version") d.version
          (λ x. record s2 { version = x }) _ refl h.version (λ v e. rw e) (λ j. refl)))

options-IsPlain : (d : TpmState) → IsEncodable d → All IsPlain (option_segments d)
options-IsPlain d h =
    All-concat
      (append_string_config (codes "format") d.format
        ∷ append_string_config (codes "size") d.size
        ∷ append_string_config (codes "version") d.version
        ∷ [])
      (
        name_config-IsPlain (codes "format") d.format refl h.format,
        (
          name_config-IsPlain (codes "size") d.size refl h.size,
          (name_config-IsPlain (codes "version") d.version refl h.version, tt),
        ),
      )

-- The head and then the options.
read_head :
    (head : Text) (d : TpmState)
    → IsVolume head
    → IsEncodable d
    → before_options d ≡ set_volume head empty_tpm_state
    → parse_segments tpm_state_positional tpm_state_option 0
        (head ∷ (option_segments d))
        empty_tpm_state
      ≡ some d
read_head [] d v h e = absurd (v.nonempty refl)
read_head (c ∷ p) d v h e =
    rw
      (
        read_positional tpm_state_positional tpm_state_option 0 (c ∷ p) empty_tpm_state
            (option_segments d) v.no_equals,
        trim_space_self (c ∷ p) v.plain.trimmed,
      )
      (rw e at (read_options d h 1))

-- A TPM state volume is read back from the property string that it is written as, with the storage
-- that its volume names, if the volume is not empty and has no comma, no equals sign and no space
-- at its ends, and every option is null or a known text that is not empty and has no comma and no
-- space at its ends.
pub parse_tpm_state-encode_tpm_state :
    (head : Text) (d : TpmState)
    → IsVolume head
    → IsEncodable d
    → parse_tpm_state (encode_tpm_state (attach head d)) ≡ some (attach head d)
unfolding parse_tpm_state encode_tpm_state
parse_tpm_state-encode_tpm_state [] d v h = absurd (v.nonempty refl)
parse_tpm_state-encode_tpm_state (c ∷ p) d v h =
    let e : TpmState = attach (c ∷ p) d in
    let h' : IsEncodable e = record { format = h.format; size = h.size; version = h.version } in
    parse_config-join tpm_state_positional tpm_state_option (λ d. is_configured d.volume)
      empty_tpm_state (c ∷ p) (option_segments e) v.nonempty v.plain (options-IsPlain e h')
      (read_head (c ∷ p) e v h' refl) refl
