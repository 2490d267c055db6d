-- ===== src/Device/Virtiofs.antt =====
-- qemuVMVirtiofsModel, parseQemuVMVirtiofs and encodeQemuVMVirtiofs.
pub mod RoundTrip
use terraform_provider_proxm.Prelude.{
  ℕ, List, [], ◌∷◌, ◌++◌, Option, none, some, Bool, true, false, ◌||◌, not, ◌==◌, if◌then◌else◌,
  ◌>>=◌,
}
use terraform_provider_proxm.Int.{ℤ}
use terraform_provider_proxm.Text.{Text, codes, text_eq, is_empty, trim_space, join}
use terraform_provider_proxm.Text.Decimal.{parse_int}
use terraform_provider_proxm.Value.{Value, null, known, string_value, is_configured}
use terraform_provider_proxm.Config.{
  parse_config_bool, optional_bool_value, parse_config, append_string_config, append_int64_config,
  append_bool_config, concat,
}

pub record Virtiofs : Type 0 where
  pub dir_id : Value Text
  pub cache : Value Text
  pub direct_io : Value Bool
  pub expose_xattr : Value Bool
  pub expose_acl : Value Bool

abbrev pub empty_virtiofs : Virtiofs
empty_virtiofs = record {
  dir_id = null;
  cache = null;
  direct_io = null;
  expose_xattr = null;
  expose_acl = null;
}

-- The first segment alone may stand without a key.
abbrev pub virtiofs_positional : ℕ → Text → Virtiofs → Option Virtiofs
virtiofs_positional index segment item =
    if index == 0 then some (record item { dir_id = known (trim_space segment) }) else none

-- The `switch key` of the loop.
unfoldable pub virtiofs_option : Text → Text → Virtiofs → Option Virtiofs
virtiofs_option key value item =
    if text_eq key (codes "dirid")
    then some (record item { dir_id = known value })
    else if text_eq key (codes "cache")
    then some (record item { cache = known value })
    else if text_eq key (codes "direct-io")
    then some (record item { direct_io = optional_bool_value value })
    else if text_eq key (codes "expose-xattr")
    then some (record item { expose_xattr = optional_bool_value value })
    else if text_eq key (codes "expose-acl")
    then some (record item { expose_acl = optional_bool_value value })
    else none

unfoldable pub parse_virtiofs : Text → Option Virtiofs
unfolding virtiofs_option parse_config
parse_virtiofs = parse_config virtiofs_positional virtiofs_option (λ _. true) empty_virtiofs

abbrev pub virtiofs_segments : Virtiofs → List (List Text)
virtiofs_segments d =
    append_string_config (codes "cache") d.cache
    ∷ append_bool_config (codes "direct-io") d.direct_io
    ∷ append_bool_config (codes "expose-xattr") d.expose_xattr
    ∷ append_bool_config (codes "expose-acl") d.expose_acl
    ∷ []

abbrev virtiofs_head : Virtiofs → List Text
virtiofs_head d = if not (is_empty (string_value d.dir_id)) then string_value d.dir_id ∷ [] else []

unfoldable pub encode_virtiofs : Virtiofs → Text
unfolding join
encode_virtiofs d = join (concat (virtiofs_head d ∷ virtiofs_segments d)) b','
