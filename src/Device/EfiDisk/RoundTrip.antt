-- ===== src/Device/EfiDisk/RoundTrip.antt =====
-- parseQemuVMEFIDisk after encodeQemuVMEFIDisk (internal/provider/qemu_vm_mapping.go).
use terraform_provider_proxm.Prelude.{ℕ, ◌≡◌, refl, some, List, [], ◌∷◌, ◌++◌, All}
use terraform_provider_proxm.Text.{Text, codes}
use terraform_provider_proxm.Text.Trim.{trim_space_self}
use terraform_provider_proxm.Value.{null, known, Holds, IsDecided, is_configured}
use terraform_provider_proxm.Config.{
  IsPlain, parse_segments, append_string_config, append_bool_config,
}
use terraform_provider_proxm.Config.Segments.{
  string_config-IsPlain, bool_config-IsPlain, All-concat,
}
use terraform_provider_proxm.Config.Steps.{
  read_string, read_bool, parse_config-join, read_positional,
}
use terraform_provider_proxm.Device.Volume.{IsVolume, observed_storage}
use terraform_provider_proxm.Device.EfiDisk.{
  EfiDisk, empty_efi_disk, efi_disk_positional, efi_disk_option, parse_efi_disk, encode_efi_disk,
  set_volume,
}

-- Every option is decided: null, or a value that a segment can carry.
pub record IsEncodable (d : EfiDisk) : Type 0 where
  pub efi_type : Holds IsPlain d.efi_type
  pub format : Holds IsPlain d.format
  pub ms_cert : Holds IsPlain d.ms_cert
  pub pre_enrolled_keys : IsDecided d.pre_enrolled_keys
  pub size : Holds IsPlain d.size

-- The options of `d` behind the head.
abbrev pub attach : Text → EfiDisk → EfiDisk
attach head d = record d { storage = observed_storage head null; volume = known head }

-- The options of a drive that has a volume.
abbrev option_segments : EfiDisk → List Text
option_segments d =
    append_string_config (codes "efitype") d.efi_type
    ++ (append_string_config (codes "format") d.format
        ++ (append_string_config (codes "ms-cert") d.ms_cert
            ++ (append_bool_config (codes "pre-enrolled-keys") d.pre_enrolled_keys
                ++ (append_string_config (codes "size") d.size ++ []))))

-- What is known before the options.
abbrev before_options : EfiDisk → EfiDisk
before_options d = record empty_efi_disk { volume = d.volume; storage = d.storage }

-- The options are read one after the other.
read_options :
    (d : EfiDisk)
    → IsEncodable d
    → (i : ℕ)
    → parse_segments efi_disk_positional efi_disk_option i (option_segments d) (before_options d)
      ≡ some d
unfolding efi_disk_option parse_segments
read_options d h =
    let s0 : EfiDisk = before_options d in
    let s1 : EfiDisk = record s0 { efi_type = d.efi_type } in
    let s2 : EfiDisk = record s1 { format = d.format } in
    let s3 : EfiDisk = record s2 { ms_cert = d.ms_cert } in
    let s4 : EfiDisk = record s3 { pre_enrolled_keys = d.pre_enrolled_keys } in
    read_string efi_disk_positional efi_disk_option (codes "efitype") d.efi_type
      (λ x. record s0 { efi_type = x }) _ refl h.efi_type (λ v. refl)
      (read_string efi_disk_positional efi_disk_option (codes "format") d.format
        (λ x. record s1 { format = x }) _ refl h.format (λ v. refl)
        (read_string efi_disk_positional efi_disk_option (codes "ms-cert") d.ms_cert
          (λ x. record s2 { ms_cert = x }) _ refl h.ms_cert (λ v. refl)
          (read_bool efi_disk_positional efi_disk_option (codes "pre-enrolled-keys")
            d.pre_enrolled_keys (λ x. record s3 { pre_enrolled_keys = x }) _ refl
            h.pre_enrolled_keys (λ v. refl)
            (read_string efi_disk_positional efi_disk_option (codes "size") d.size
              (λ x. record s4 { size = x }) [] refl h.size (λ v. refl) (λ j. refl)))))

options-IsPlain : (d : EfiDisk) → IsEncodable d → All IsPlain (option_segments d)
options-IsPlain d h =
    All-concat
      (append_string_config (codes "efitype") d.efi_type
        ∷ append_string_config (codes "format") d.format
        ∷ append_string_config (codes "ms-cert") d.ms_cert
        ∷ append_bool_config (codes "pre-enrolled-keys") d.pre_enrolled_keys
        ∷ append_string_config (codes "size") d.size
        ∷ [])
      (
        string_config-IsPlain (codes "efitype") d.efi_type refl h.efi_type,
        (
          string_config-IsPlain (codes "format") d.format refl h.format,
          (
            string_config-IsPlain (codes "ms-cert") d.ms_cert refl h.ms_cert,
            (
              bool_config-IsPlain (codes "pre-enrolled-keys") d.pre_enrolled_keys refl
                  h.pre_enrolled_keys,
              (string_config-IsPlain (codes "size") d.size refl h.size, tt),
            ),
          ),
        ),
      )

-- The head and then the options.
read_head :
    (head : Text) (d : EfiDisk)
    → IsVolume head
    → IsEncodable d
    → before_options d ≡ set_volume head empty_efi_disk
    → parse_segments efi_disk_positional efi_disk_option 0
        (head ∷ (option_segments d))
        empty_efi_disk
      ≡ some d
read_head head d v h e =
    rw
      (
        read_positional efi_disk_positional efi_disk_option 0 head empty_efi_disk
            (option_segments d) v.no_equals,
        trim_space_self head v.plain.trimmed,
      )
      (rw e at (read_options d h 1))

-- An EFI disk on a volume is read back from the property string that it is written as, with the
-- storage that its volume names, if the volume is not empty and has no comma, no equals sign and
-- no space at its ends, every option is null or known, and known texts among the options have no
-- comma and no space at their ends.
pub parse_efi_disk-encode_efi_disk :
    (head : Text) (d : EfiDisk)
    → IsVolume head
    → IsEncodable d
    → parse_efi_disk (encode_efi_disk (attach head d)) ≡ some (attach head d)
unfolding parse_efi_disk encode_efi_disk
parse_efi_disk-encode_efi_disk [] d v h = absurd (v.nonempty refl)
parse_efi_disk-encode_efi_disk (c ∷ p) d v h =
    let e : EfiDisk = attach (c ∷ p) d in
    let h' : IsEncodable e = record {
      efi_type = h.efi_type;
      format = h.format;
      ms_cert = h.ms_cert;
      pre_enrolled_keys = h.pre_enrolled_keys;
      size = h.size;
    } in
    parse_config-join efi_disk_positional efi_disk_option (λ d. is_configured d.volume)
      empty_efi_disk (c ∷ p) (option_segments e) v.nonempty v.plain (options-IsPlain e h')
      (read_head (c ∷ p) e v h' refl) refl
