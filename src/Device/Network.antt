-- ===== src/Device/Network.antt =====
-- qemuVMNetworkModel, qemuVMNetworkModels, parseQemuVMNetwork and encodeQemuVMNetwork.
pub mod RoundTrip
use terraform_provider_proxm.Prelude.{
  ℕ, List, [], ◌∷◌, ◌++◌, Option, none, some, Bool, true, false, ◌||◌, if◌then◌else◌, ◌>>=◌,
}
use terraform_provider_proxm.Int.{ℤ}
use terraform_provider_proxm.Text.{Text, codes, text_eq, is_empty, trim_space, join}
use terraform_provider_proxm.Text.Decimal.{parse_int}
use terraform_provider_proxm.Value.{Value, null, known, string_value, is_configured}
use terraform_provider_proxm.Config.{
  Float64, parse_config_bool, parse_config, append_string_config, append_int64_config,
  append_bool_config, append_float64_config, concat,
}

abbrev pub network_models : List Text
network_models =
    codes "e1000"
    ∷ codes "e1000-82540em"
    ∷ codes "e1000-82544gc"
    ∷ codes "e1000-82545em"
    ∷ codes "e1000e"
    ∷ codes "i82551"
    ∷ codes "i82557b"
    ∷ codes "i82559er"
    ∷ codes "ne2k_isa"
    ∷ codes "ne2k_pci"
    ∷ codes "pcnet"
    ∷ codes "rtl8139"
    ∷ codes "virtio"
    ∷ codes "vmxnet3"
    ∷ []

abbrev pub text_in : Text → List Text → Bool
text_in t [] = false
text_in t (s ∷ ss) = text_eq t s || text_in t ss

-- Membership in the map qemuVMNetworkModels.
unfoldable pub is_network_model : Text → Bool
is_network_model key = text_in key network_models

module _ (F : Float64) where
  pub record Network : Type 0 where
    pub model : Value Text
    pub bridge : Value Text
    pub mac_addr : Value Text
    pub tag : Value ℤ
    pub trunks : Value Text
    pub firewall : Value Bool
    pub link_down : Value Bool
    pub mtu : Value ℤ
    pub queues : Value ℤ
    pub rate : Value F.Float

  abbrev pub empty_network : Network
  empty_network = record {
    model = null;
    bridge = null;
    mac_addr = null;
    tag = null;
    trunks = null;
    firewall = null;
    link_down = null;
    mtu = null;
    queues = null;
    rate = null;
  }

  -- A model name as the key, with an address or without.
  abbrev pub set_model : Text → Text → Network → Network
  set_model key value item = record item {
    model = known key;
    mac_addr = if is_empty value then item.mac_addr else known value;
  }

  -- The `switch key` of the loop.
  abbrev pub network_switch : Text → Text → Network → Option Network
  network_switch key value item =
      if text_eq key (codes "model")
      then some (record item { model = known value })
      else if text_eq key (codes "bridge")
      then some (record item { bridge = known value })
      else if text_eq key (codes "macaddr")
      then some (record item { mac_addr = known value })
      else if text_eq key (codes "tag")
      then parse_int value >>= (λ n. some (record item { tag = known n }))
      else if text_eq key (codes "trunks")
      then some (record item { trunks = known value })
      else if text_eq key (codes "firewall")
      then parse_config_bool value >>= (λ b. some (record item { firewall = known b }))
      else if text_eq key (codes "link_down")
      then parse_config_bool value >>= (λ b. some (record item { link_down = known b }))
      else if text_eq key (codes "mtu")
      then parse_int value >>= (λ n. some (record item { mtu = known n }))
      else if text_eq key (codes "queues")
      then parse_int value >>= (λ n. some (record item { queues = known n }))
      else if text_eq key (codes "rate")
      then F.parse_float value >>= (λ x. some (record item { rate = known x }))
      else none

  -- The body of the loop behind the split of the segment.
  unfoldable pub network_option : Text → Text → Network → Option Network
  unfolding is_network_model
  network_option key value item =
      if is_network_model key
      then some (set_model key value item)
      else network_switch key value item

  -- A segment without `=` is a key without a value.
  abbrev pub network_positional : ℕ → Text → Network → Option Network
  network_positional index segment item = network_option (trim_space segment) [] item

  unfoldable pub parse_network : Text → Option Network
  unfolding network_option parse_config
  parse_network =
      parse_config network_positional network_option (λ d. is_configured d.model) empty_network

  abbrev pub network_segments : Network → List (List Text)
  network_segments d =
      append_string_config (codes "bridge") d.bridge
      ∷ append_int64_config (codes "tag") d.tag
      ∷ append_string_config (codes "trunks") d.trunks
      ∷ append_bool_config (codes "firewall") d.firewall
      ∷ append_bool_config (codes "link_down") d.link_down
      ∷ append_int64_config (codes "mtu") d.mtu
      ∷ append_int64_config (codes "queues") d.queues
      ∷ append_float64_config F (codes "rate") d.rate
      ∷ []

  -- The model, with the address if there is one.
  abbrev pub model_segment : Network → List Text
  model_segment d =
      if is_empty (string_value d.model)
      then []
      else if is_empty (string_value d.mac_addr)
      then string_value d.model ∷ []
      else (string_value d.model ++ (b'=' ∷ string_value d.mac_addr)) ∷ []

  unfoldable pub encode_network : Network → Text
  unfolding join
  encode_network d = join (concat (model_segment d ∷ network_segments d)) b','
