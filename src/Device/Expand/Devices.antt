-- ===== src/Device/Expand/Devices.antt =====
-- internal/provider/qemu_vm_devices.go: directory shares and entropy sources, expanded and read back.
use terraform_provider_proxm.Prelude.{◌≡◌, refl, sym, ap, subst, true, false, none, some, [], All}
use terraform_provider_proxm.Text.{Text, is_empty, is_trimmed, trim_space}
use terraform_provider_proxm.Device.Volume.{IsVolume}
use terraform_provider_proxm.Device.Volume.Decide.{
  is_plain, is_volume, is_plain-IsPlain, is_volume-IsVolume,
}
use terraform_provider_proxm.Value.{known, IsDecided}
use terraform_provider_proxm.Config.{IsPlain, parse_config}
use terraform_provider_proxm.Vm.Slots.{MapOf, map_or_null, device_state_value}
use terraform_provider_proxm.Device.Pattern.{is_rng_key, is_virtiofs_key, is_dir_id, one_of}
use terraform_provider_proxm.Device.Pattern.Safe.{dir_id-IsVolume, one_of-holds}
use terraform_provider_proxm.Device.Check.{
  validate_rng_item, validate_virtiofs_item, rng_sources, virtiofs_caches,
}
use terraform_provider_proxm.Device.Expand.{expand_rng_model_map, expand_virtiofs_model_map}
use terraform_provider_proxm.Device.Expand.Valid.{
  append_nil_parts, expand_items-reads, required_errors-known, fails-Holds, parsed-nonempty,
}
use terraform_provider_proxm.Device.Rng.{Rng, parse_rng, encode_rng}
use terraform_provider_proxm.Device.Rng.RoundTrip.{IsEncodable, parse_rng-encode_rng, with_source}
use terraform_provider_proxm.Device.Virtiofs.{Virtiofs, parse_virtiofs, encode_virtiofs}
use terraform_provider_proxm.Device.Virtiofs.RoundTrip.{parse_virtiofs-encode_virtiofs, with_dir_id}

-- The options of a share that validation leaves open.
pub record IsDecidedShare (d : Virtiofs) : Type 0 where
  pub cache : IsDecided d.cache
  pub direct_io : IsDecided d.direct_io
  pub expose_xattr : IsDecided d.expose_xattr
  pub expose_acl : IsDecided d.expose_acl

caches-IsPlain : All IsPlain virtiofs_caches
unfolding is_trimmed
caches-IsPlain = (plain refl, (plain refl, (plain refl, (plain refl, tt))))
  where
    plain : {s : Text} → is_plain s ≡ true → IsPlain s
    plain {s} = is_plain-IsPlain s

blank_share : parse_virtiofs [] ≡ none
unfolding parse_virtiofs parse_config trim_space
blank_share = refl

virtiofs_law :
    (slot : Text) (d : Virtiofs)
    → IsDecidedShare d
    → validate_virtiofs_item slot d ≡ []
    → (parse_virtiofs (encode_virtiofs d) ≡ some d) × (is_empty (encode_virtiofs d) ≡ false)
unfolding validate_virtiofs_item
virtiofs_law slot d dec h =
    let (required, optional) = append_nil_parts _ _ h in
    let (s, e, good) = required_errors-known is_dir_id d.dir_id _ _ [] [] required in
    let cache =
      fails-Holds (one_of virtiofs_caches) IsPlain d.cache _ []
        (λ s. one_of-holds IsPlain virtiofs_caches s caches-IsPlain) dec.cache optional in
    let same : d ≡ with_dir_id s d = ap (λ v. record d { dir_id = v }) e in
    let read : parse_virtiofs (encode_virtiofs d) ≡ some d =
      subst (λ x. parse_virtiofs (encode_virtiofs x) ≡ some x) (sym same)
        (parse_virtiofs-encode_virtiofs s d (dir_id-IsVolume s good) (record {
          cache = cache;
          direct_io = dec.direct_io;
          expose_xattr = dec.expose_xattr;
          expose_acl = dec.expose_acl;
        })) in
    (read, parsed-nonempty parse_virtiofs (encode_virtiofs d) d blank_share read)

-- Directory shares with decided options that pass validation are written as values that a read turns
-- back into the same map, with nothing left raw.
pub expand_virtiofs_model_map-reads :
    (items : MapOf Virtiofs)
    → All (λ p. IsDecidedShare p.1) items
    → (expand_virtiofs_model_map (known items)).diagnostics ≡ []
    → device_state_value parse_virtiofs is_virtiofs_key
        (expand_virtiofs_model_map (known items)).values
      ≡ (map_or_null parse_virtiofs items, [])
unfolding expand_virtiofs_model_map
expand_virtiofs_model_map-reads =
    expand_items-reads is_virtiofs_key validate_virtiofs_item encode_virtiofs _ parse_virtiofs
      IsDecidedShare virtiofs_law

sources-IsVolume : All IsVolume rng_sources
unfolding is_trimmed
sources-IsVolume = (volume refl, (volume refl, (volume refl, tt)))
  where
    volume : {s : Text} → is_volume s ≡ true → IsVolume s
    volume {s} = is_volume-IsVolume s

blank_source : parse_rng [] ≡ none
unfolding parse_rng parse_config trim_space
blank_source = refl

rng_law :
    (slot : Text) (d : Rng)
    → IsEncodable d
    → validate_rng_item slot d ≡ []
    → (parse_rng (encode_rng d) ≡ some d) × (is_empty (encode_rng d) ≡ false)
unfolding validate_rng_item
rng_law slot d dec h =
    let (required, limits) = append_nil_parts _ _ h in
    let (s, e, good) = required_errors-known (one_of rng_sources) d.source _ _ [] [] required in
    let same : d ≡ with_source s d = ap (λ v. record d { source = v }) e in
    let volume = one_of-holds IsVolume rng_sources s sources-IsVolume good in
    let read : parse_rng (encode_rng d) ≡ some d =
      subst (λ x. parse_rng (encode_rng x) ≡ some x) (sym same)
        (parse_rng-encode_rng s d volume
          (record { max_bytes = dec.max_bytes; period = dec.period })) in
    (read, parsed-nonempty parse_rng (encode_rng d) d blank_source read)

-- Entropy sources with decided int64 limits that pass validation are written as values that a read
-- turns back into the same map, with nothing left raw.
pub expand_rng_model_map-reads :
    (items : MapOf Rng)
    → All (λ p. IsEncodable p.1) items
    → (expand_rng_model_map (known items)).diagnostics ≡ []
    → device_state_value parse_rng is_rng_key (expand_rng_model_map (known items)).values
      ≡ (map_or_null parse_rng items, [])
unfolding expand_rng_model_map
expand_rng_model_map-reads =
    expand_items-reads is_rng_key validate_rng_item encode_rng _ parse_rng IsEncodable rng_law
