-- ===== src/Device/Virtiofs/RoundTrip.antt =====
-- parseQemuVMVirtiofs after encodeQemuVMVirtiofs (internal/provider/qemu_vm_devices.go).
use terraform_provider_proxm.Prelude.{ℕ, ◌≡◌, refl, true, some, [], ◌∷◌, All}
use terraform_provider_proxm.Text.{Text, codes}
use terraform_provider_proxm.Text.Trim.{trim_space_self}
use terraform_provider_proxm.Value.{known, Holds, IsDecided}
use terraform_provider_proxm.Config.{IsPlain, concat, parse_segments}
use terraform_provider_proxm.Config.Segments.{
  string_config-IsPlain, bool_config-IsPlain, All-concat,
}
use terraform_provider_proxm.Config.Steps.{
  read_string, read_flag, parse_config-join, read_positional,
}
use terraform_provider_proxm.Device.Volume.{IsVolume}
use terraform_provider_proxm.Device.Virtiofs.{
  Virtiofs, empty_virtiofs, virtiofs_positional, virtiofs_option, virtiofs_segments, parse_virtiofs,
  encode_virtiofs,
}

-- Every option is decided: null, or a value that a segment can carry.
pub record IsEncodable (d : Virtiofs) : Type 0 where
  pub cache : Holds IsPlain d.cache
  pub direct_io : IsDecided d.direct_io
  pub expose_xattr : IsDecided d.expose_xattr
  pub expose_acl : IsDecided d.expose_acl

-- The options of `d` behind the head.
abbrev pub with_dir_id : Text → Virtiofs → Virtiofs
with_dir_id head d = record d { dir_id = known head }

-- What is known before the options.
abbrev before_options : Virtiofs → Virtiofs
before_options d = record empty_virtiofs { dir_id = d.dir_id }

-- The options are read one after the other.
read_options :
    (d : Virtiofs)
    → IsEncodable d
    → (i : ℕ)
    → parse_segments virtiofs_positional virtiofs_option i
        (concat (virtiofs_segments d))
        (before_options d)
      ≡ some d
unfolding virtiofs_option parse_segments
read_options d h =
    let s0 : Virtiofs = before_options d in
    let s1 : Virtiofs = record s0 { cache = d.cache } in
    let s2 : Virtiofs = record s1 { direct_io = d.direct_io } in
    let s3 : Virtiofs = record s2 { expose_xattr = d.expose_xattr } in
    read_string virtiofs_positional virtiofs_option (codes "cache") d.cache
      (λ x. record s0 { cache = x }) _ refl h.cache (λ v. refl)
      (read_flag virtiofs_positional virtiofs_option (codes "direct-io") d.direct_io
        (λ x. record s1 { direct_io = x }) _ refl h.direct_io (λ v. refl)
        (read_flag virtiofs_positional virtiofs_option (codes "expose-xattr") d.expose_xattr
          (λ x. record s2 { expose_xattr = x }) _ refl h.expose_xattr (λ v. refl)
          (read_flag virtiofs_positional virtiofs_option (codes "expose-acl") d.expose_acl
            (λ x. record s3 { expose_acl = x }) [] refl h.expose_acl (λ v. refl) (λ j. refl))))

options-IsPlain : (d : Virtiofs) → IsEncodable d → All IsPlain (concat (virtiofs_segments d))
options-IsPlain d h = All-concat (virtiofs_segments d) (
  string_config-IsPlain (codes "cache") d.cache refl h.cache,
  (
    bool_config-IsPlain (codes "direct-io") d.direct_io refl h.direct_io,
    (
      bool_config-IsPlain (codes "expose-xattr") d.expose_xattr refl h.expose_xattr,
      (bool_config-IsPlain (codes "expose-acl") d.expose_acl refl h.expose_acl, tt),
    ),
  ),
)

-- The head and then the options.
read_head :
    (head : Text) (d : Virtiofs)
    → IsVolume head
    → IsEncodable d
    → before_options d ≡ record empty_virtiofs { dir_id = known head }
    → parse_segments virtiofs_positional virtiofs_option 0
        (head ∷ (concat (virtiofs_segments d)))
        empty_virtiofs
      ≡ some d
read_head head d v h e =
    rw
      (
        read_positional virtiofs_positional virtiofs_option 0 head empty_virtiofs
            (concat (virtiofs_segments d)) v.no_equals,
        trim_space_self head v.plain.trimmed,
      )
      (rw e at (read_options d h 1))

-- A directory share is read back from the property string that it is written as, if its directory
-- id is not empty and has no comma, no equals sign and no space at its ends, every option is null
-- or known, and a known cache policy has no comma and no space at its ends.
pub parse_virtiofs-encode_virtiofs :
    (head : Text) (d : Virtiofs)
    → IsVolume head
    → IsEncodable d
    → parse_virtiofs (encode_virtiofs (with_dir_id head d)) ≡ some (with_dir_id head d)
unfolding parse_virtiofs encode_virtiofs
parse_virtiofs-encode_virtiofs [] d v h = absurd (v.nonempty refl)
parse_virtiofs-encode_virtiofs (c ∷ p) d v h =
    let e : Virtiofs = with_dir_id (c ∷ p) d in
    let h' : IsEncodable e = record {
      cache = h.cache;
      direct_io = h.direct_io;
      expose_xattr = h.expose_xattr;
      expose_acl = h.expose_acl;
    } in
    parse_config-join virtiofs_positional virtiofs_option (λ _. true) empty_virtiofs (c ∷ p)
      (concat (virtiofs_segments e)) v.nonempty v.plain (options-IsPlain e h')
      (read_head (c ∷ p) e v h' refl) refl
