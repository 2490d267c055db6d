-- ===== src/Device/Network/RoundTrip.antt =====
-- parseQemuVMNetwork after encodeQemuVMNetwork (internal/provider/qemu_vm_mapping.go).
use terraform_provider_proxm.Prelude.{
  ℕ, ◌≡◌, refl, true, Option, some, List, [], ◌∷◌, ◌++◌, All, Bool-cases, inl, inr,
}
use mathlib.Core.Bool.{false≢true}
use terraform_provider_proxm.Int.{IsInt64}
use terraform_provider_proxm.Text.{Text, codes, text_eq}
use terraform_provider_proxm.Text.Trim.{trim_space_self}
use terraform_provider_proxm.Text.Equal.{text_eq→eq}
use terraform_provider_proxm.Value.{Value, null, unknown, known, Holds, IsDecided, is_configured}
use terraform_provider_proxm.Config.{
  Float64, IsPlain, IsName, concat, parse_segment, parse_segments,
}
use terraform_provider_proxm.Config.Segments.{
  is_key, option-IsPlain, split_config_key_value-option, is_key-no_equals, is_key-IsName,
  string_config-IsPlain, bool_config-IsPlain, int64_config-IsPlain, float64_config-IsPlain,
  All-concat,
}
use terraform_provider_proxm.Config.Steps.{
  read_string, read_bool, read_int64, read_float64, parse_config-join, read_positional,
}
use terraform_provider_proxm.Device.Network.{
  Network, network_models, text_in, is_network_model, empty_network, set_model, network_positional,
  network_option, network_segments, parse_network, encode_network,
}

text_in-All : (P : Text → Type 0) (t : Text) (ss : List Text) → text_in t ss ≡ true → All P ss → P t
text_in-All P t [] h ps = cc
text_in-All P t (s ∷ ss) h (p, ps) = elim (Bool-cases (text_eq t s)) [
  | inl same ↦ rw (text_eq→eq t s same) p
  | inr other ↦ text_in-All P t ss (rw other at h) ps
]

-- The model names are spelled like option names.
model-is_key : (m : Text) → is_network_model m ≡ true → is_key m ≡ true
unfolding is_network_model
model-is_key m h =
    text_in-All (λ s. is_key s ≡ true) m network_models h
      (
        refl,
        (
          refl,
          (
            refl,
            (
              refl,
              (refl, (refl, (refl, (refl, (refl, (refl, (refl, (refl, (refl, (refl, tt)))))))))),
            ),
          ),
        ),
      )

module _ (F : Float64) where
  -- Every option is decided: null, or a value that a segment can carry; an address is not empty.
  pub record IsEncodable (d : Network F) : Type 0 where
    pub mac_addr : Holds IsName d.mac_addr
    pub bridge : Holds IsPlain d.bridge
    pub tag : Holds IsInt64 d.tag
    pub trunks : Holds IsPlain d.trunks
    pub firewall : IsDecided d.firewall
    pub link_down : IsDecided d.link_down
    pub mtu : Holds IsInt64 d.mtu
    pub queues : Holds IsInt64 d.queues
    pub rate : IsDecided d.rate

  abbrev pub with_model : Text → Network F → Network F
  with_model model d = record d { model = known model }

  abbrev before_options : Network F → Network F
  before_options d = record (empty_network F) { model = d.model; mac_addr = d.mac_addr }

  read_options :
      (d : Network F)
      → IsEncodable d
      → (i : ℕ)
      → parse_segments
          (network_positional F)
          (network_option F)
          i
          (concat (network_segments F d))
          (before_options d)
        ≡ some d
  unfolding network_option parse_segments
  read_options d h =
      let s0 : Network F = before_options d in
      let s1 : Network F = record s0 { bridge = d.bridge } in
      let s2 : Network F = record s1 { tag = d.tag } in
      let s3 : Network F = record s2 { trunks = d.trunks } in
      let s4 : Network F = record s3 { firewall = d.firewall } in
      let s5 : Network F = record s4 { link_down = d.link_down } in
      let s6 : Network F = record s5 { mtu = d.mtu } in
      let s7 : Network F = record s6 { queues = d.queues } in
      read_string (network_positional F) (network_option F) (codes "bridge") d.bridge
        (λ x. record s0 { bridge = x }) _ refl h.bridge (λ v. refl)
        (read_int64 (network_positional F) (network_option F) (codes "tag") d.tag
          (λ x. record s1 { tag = x }) _ refl h.tag (λ v. refl)
          (read_string (network_positional F) (network_option F) (codes "trunks") d.trunks
            (λ x. record s2 { trunks = x }) _ refl h.trunks (λ v. refl)
            (read_bool (network_positional F) (network_option F) (codes "firewall") d.firewall
              (λ x. record s3 { firewall = x }) _ refl h.firewall (λ v. refl)
              (read_bool (network_positional F) (network_option F) (codes "link_down") d.link_down
                (λ x. record s4 { link_down = x }) _ refl h.link_down (λ v. refl)
                (read_int64 (network_positional F) (network_option F) (codes "mtu") d.mtu
                  (λ x. record s5 { mtu = x }) _ refl h.mtu (λ v. refl)
                  (read_int64 (network_positional F) (network_option F) (codes "queues") d.queues
                    (λ x. record s6 { queues = x }) _ refl h.queues (λ v. refl)
                    (read_float64 (network_positional F) (network_option F) F (codes "rate") d.rate
                      (λ x. record s7 { rate = x }) [] refl h.rate (λ v. refl) (λ j. refl))))))))

  options-IsPlain : (d : Network F) → IsEncodable d → All IsPlain (concat (network_segments F d))
  options-IsPlain d h = All-concat (network_segments F d) (
    string_config-IsPlain (codes "bridge") d.bridge refl h.bridge,
    (
      int64_config-IsPlain (codes "tag") d.tag refl h.tag,
      (
        string_config-IsPlain (codes "trunks") d.trunks refl h.trunks,
        (
          bool_config-IsPlain (codes "firewall") d.firewall refl h.firewall,
          (
            bool_config-IsPlain (codes "link_down") d.link_down refl h.link_down,
            (
              int64_config-IsPlain (codes "mtu") d.mtu refl h.mtu,
              (
                int64_config-IsPlain (codes "queues") d.queues refl h.queues,
                (float64_config-IsPlain F (codes "rate") d.rate refl h.rate, tt),
              ),
            ),
          ),
        ),
      ),
    ),
  )

  option_model :
      (k v : Text)
      → is_network_model k ≡ true
      → network_option F k v (empty_network F) ≡ some (set_model F k v (empty_network F))
  unfolding network_option
  option_model k v e = rw e

  -- A model alone.
  read_model :
      (m : Text) (rest : List Text) {r : Option (Network F)}
      → is_network_model m ≡ true
      → ((j : ℕ)
          → parse_segments
              (network_positional F)
              (network_option F)
              j
              rest
              (record (empty_network F) { model = known m })
            ≡ r)
      → parse_segments (network_positional F) (network_option F) 0 (m ∷ rest) (empty_network F) ≡ r
  read_model m rest h next =
      rw
        (
          read_positional (network_positional F) (network_option F) 0 m (empty_network F) rest
              (is_key-no_equals m (model-is_key m h)),
          trim_space_self m (is_key-IsName m (model-is_key m h)).plain.trimmed,
        )
        (rw (option_model m [] h) (next 1))

  -- A model with its address.
  read_address :
      (m v : Text) (rest : List Text) {r : Option (Network F)}
      → is_network_model m ≡ true
      → IsPlain v
      → ((j : ℕ)
          → parse_segments
              (network_positional F)
              (network_option F)
              j
              rest
              (set_model F m v (empty_network F))
            ≡ r)
      → parse_segments
          (network_positional F)
          (network_option F)
          0
          ((m ++ (b'=' ∷ v)) ∷ rest)
          (empty_network F)
        ≡ r
  read_address m v rest h plain next =
      unfold parse_segments parse_segment in
      rw (split_config_key_value-option m v (model-is_key m h) plain.trimmed, option_model m v h)
        (next 1)

  round_trip :
      (mac : Value Text) (m : Text) (d : Network F)
      → is_network_model m ≡ true
      → IsEncodable (record d { model = known m; mac_addr = mac })
      → parse_network F (encode_network F (record d { model = known m; mac_addr = mac }))
        ≡ some (record d { model = known m; mac_addr = mac })
  unfolding is_network_model parse_network encode_network
  round_trip mac [] d h e = absurd (false≢true h)
  round_trip unknown (c ∷ m) d h e = absurd e.mac_addr
  round_trip (known []) (c ∷ m) d h e = absurd (e.mac_addr.nonempty refl)
  round_trip null (c ∷ m) d h e =
      let n : Network F = record d { model = known (c ∷ m); mac_addr = null } in
      parse_config-join (network_positional F) (network_option F) (λ x. is_configured x.model)
        (empty_network F) (c ∷ m) (concat (network_segments F n)) (λ x. cc)
        (is_key-IsName (c ∷ m) (model-is_key (c ∷ m) h)).plain (options-IsPlain n e)
        (read_model (c ∷ m) (concat (network_segments F n)) h (λ j. read_options n e j)) refl
  round_trip (known (x ∷ v)) (c ∷ m) d h e =
      let n : Network F = record d { model = known (c ∷ m); mac_addr = known (x ∷ v) } in
      parse_config-join (network_positional F) (network_option F) (λ y. is_configured y.model)
        (empty_network F) ((c ∷ m) ++ (b'=' ∷ x ∷ v)) (concat (network_segments F n)) (λ y. cc)
        (option-IsPlain (c ∷ m) (x ∷ v) (model-is_key (c ∷ m) h) e.mac_addr.plain)
        (options-IsPlain n e)
        (read_address (c ∷ m) (x ∷ v) (concat (network_segments F n)) h e.mac_addr.plain
          (λ j. read_options n e j))
        refl

  -- A network device of a known model is read back from the property string that it is written as,
  -- if every option is null or known, a known address is not empty, known texts have no comma and
  -- no space at their ends, and known integers fit int64.
  pub parse_network-encode_network :
      (model : Text) (d : Network F)
      → is_network_model model ≡ true
      → IsEncodable d
      → parse_network F (encode_network F (with_model model d)) ≡ some (with_model model d)
  parse_network-encode_network model d known_model h =
      round_trip d.mac_addr model d known_model (record {
        mac_addr = h.mac_addr;
        bridge = h.bridge;
        tag = h.tag;
        trunks = h.trunks;
        firewall = h.firewall;
        link_down = h.link_down;
        mtu = h.mtu;
        queues = h.queues;
        rate = h.rate;
      })
