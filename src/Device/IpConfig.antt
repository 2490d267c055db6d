-- ===== src/Device/IpConfig.antt =====
-- qemuVMIPConfigModel, parseQemuVMIPConfig and encodeQemuVMIPConfig.
pub mod RoundTrip
use terraform_provider_proxm.Prelude.{
  ℕ, List, [], ◌∷◌, Option, none, some, Bool, true, if◌then◌else◌,
}
use terraform_provider_proxm.Text.{Text, codes, text_eq, join}
use terraform_provider_proxm.Value.{Value, null, known}
use terraform_provider_proxm.Config.{parse_config, append_string_config, concat}

pub record IpConfig : Type 0 where
  pub ipv4 : Value Text
  pub gateway : Value Text
  pub ipv6 : Value Text
  pub gateway6 : Value Text

abbrev pub empty_ip_config : IpConfig
empty_ip_config = record { ipv4 = null; gateway = null; ipv6 = null; gateway6 = null }

-- Every segment needs a key.
abbrev pub ip_config_positional : ℕ → Text → IpConfig → Option IpConfig
ip_config_positional index segment item = none

-- The `switch key` of the loop.
unfoldable pub ip_config_option : Text → Text → IpConfig → Option IpConfig
ip_config_option key value item =
    if text_eq key (codes "ip")
    then some (record item { ipv4 = known value })
    else if text_eq key (codes "gw")
    then some (record item { gateway = known value })
    else if text_eq key (codes "ip6")
    then some (record item { ipv6 = known value })
    else if text_eq key (codes "gw6")
    then some (record item { gateway6 = known value })
    else none

unfoldable pub parse_ip_config : Text → Option IpConfig
unfolding ip_config_option parse_config
parse_ip_config = parse_config ip_config_positional ip_config_option (λ _. true) empty_ip_config

abbrev pub ip_config_segments : IpConfig → List (List Text)
ip_config_segments d =
    append_string_config (codes "ip") d.ipv4
    ∷ append_string_config (codes "gw") d.gateway
    ∷ append_string_config (codes "ip6") d.ipv6
    ∷ append_string_config (codes "gw6") d.gateway6
    ∷ []

unfoldable pub encode_ip_config : IpConfig → Text
unfolding join
encode_ip_config d = join (concat (ip_config_segments d)) b','
