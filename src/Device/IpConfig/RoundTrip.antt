-- ===== src/Device/IpConfig/RoundTrip.antt =====
-- parseQemuVMIPConfig after encodeQemuVMIPConfig (internal/provider/qemu_vm_mapping.go).
use terraform_provider_proxm.Prelude.{◌≡◌, ◌≢◌, refl, some, Bool, true, ◌||◌, [], All, arith}
use terraform_provider_proxm.Text.{Text, codes}
use terraform_provider_proxm.Value.{Value, Holds, is_configured}
use terraform_provider_proxm.Config.{IsPlain, IsName, concat, parse_segments, append_string_config}
use terraform_provider_proxm.Config.Segments.{
  is_key, string_config-IsPlain, append_config-IsName, All-concat_name,
}
use terraform_provider_proxm.Config.Steps.{read_string, parse_config-options}
use terraform_provider_proxm.Device.IpConfig.{
  IpConfig, empty_ip_config, ip_config_positional, ip_config_option, ip_config_segments,
  parse_ip_config, encode_ip_config,
}

-- Every address is decided: null, or a text that a segment can carry.
pub record IsEncodable (d : IpConfig) : Type 0 where
  pub ipv4 : Holds IsPlain d.ipv4
  pub gateway : Holds IsPlain d.gateway
  pub ipv6 : Holds IsPlain d.ipv6
  pub gateway6 : Holds IsPlain d.gateway6

abbrev pub any_configured : IpConfig → Bool
any_configured d =
    is_configured d.ipv4
    || is_configured d.gateway
    || is_configured d.ipv6
    || is_configured d.gateway6

segments-ne-nil : (d : IpConfig) → any_configured d ≡ true → concat (ip_config_segments d) ≢ []
segments-ne-nil d h = ground arith

name :
    (k : Text) (a : Value Text)
    → is_key k ≡ true
    → Holds IsPlain a
    → All IsName (append_string_config k a)
name k a key h = append_config-IsName (λ s. s) k a key (string_config-IsPlain k a key h)

segments-IsName : (d : IpConfig) → IsEncodable d → All IsName (concat (ip_config_segments d))
segments-IsName d h = All-concat_name (ip_config_segments d) (
  name (codes "ip") d.ipv4 refl h.ipv4,
  (
    name (codes "gw") d.gateway refl h.gateway,
    (name (codes "ip6") d.ipv6 refl h.ipv6, (name (codes "gw6") d.gateway6 refl h.gateway6, tt)),
  ),
)

read_ip_config :
    (d : IpConfig)
    → IsEncodable d
    → parse_segments ip_config_positional ip_config_option 0
        (concat (ip_config_segments d))
        empty_ip_config
      ≡ some d
unfolding ip_config_option parse_segments
read_ip_config d h =
    let s0 : IpConfig = empty_ip_config in
    let s1 : IpConfig = record s0 { ipv4 = d.ipv4 } in
    let s2 : IpConfig = record s1 { gateway = d.gateway } in
    let s3 : IpConfig = record s2 { ipv6 = d.ipv6 } in
    read_string ip_config_positional ip_config_option (codes "ip") d.ipv4
      (λ x. record s0 { ipv4 = x }) _ refl h.ipv4 (λ v. refl)
      (read_string ip_config_positional ip_config_option (codes "gw") d.gateway
        (λ x. record s1 { gateway = x }) _ refl h.gateway (λ v. refl)
        (read_string ip_config_positional ip_config_option (codes "ip6") d.ipv6
          (λ x. record s2 { ipv6 = x }) _ refl h.ipv6 (λ v. refl)
          (read_string ip_config_positional ip_config_option (codes "gw6") d.gateway6
            (λ x. record s3 { gateway6 = x }) [] refl h.gateway6 (λ v. refl) (λ j. refl))))
      0

-- Cloud-init addresses of which at least one is known are read back from the property string that
-- they are written as, if each is null or a known text that has no comma and no space at its ends.
pub parse_ip_config-encode_ip_config :
    (d : IpConfig)
    → IsEncodable d
    → any_configured d ≡ true
    → parse_ip_config (encode_ip_config d) ≡ some d
unfolding parse_ip_config encode_ip_config
parse_ip_config-encode_ip_config d h any =
    parse_config-options ip_config_positional ip_config_option (λ _. true) empty_ip_config
      (concat (ip_config_segments d)) (segments-ne-nil d any) (segments-IsName d h)
      (read_ip_config d h) refl
