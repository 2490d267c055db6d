-- ===== src/Config.antt =====
-- Proxmox property strings such as `scsi0: local:vm-1,size=8G`: the helpers of
-- internal/provider/qemu_vm_mapping.go that split, read and write them.
pub mod Segments
pub mod Steps
use terraform_provider_proxm.Prelude.{
  ℕ, suc, ◌≡◌, ◌≢◌, Bool, true, false, ◌||◌, Option, none, some, List, [], ◌∷◌, ◌++◌, map,
  if◌then◌else◌, ◌>>=◌,
}
use terraform_provider_proxm.Int.{ℤ}
use terraform_provider_proxm.Text.{
  Text, codes, text_eq, is_empty, trim_space, split, cut, to_lower, IsTrimmed, Lacks,
}
use terraform_provider_proxm.Text.Decimal.{format_int}
use terraform_provider_proxm.Value.{Value, null, unknown, known}

-- A text that survives splitting at commas and trimming.
pub record IsPlain (s : Text) : Type 0 where
  pub trimmed : IsTrimmed s
  pub no_comma : Lacks b',' s

pub record IsName (s : Text) : Type 0 where
  pub nonempty : s ≢ []
  pub plain : IsPlain s

-- What the provider uses of float64: strconv.FormatFloat(x, 'f', -1, 64) writes the shortest
-- decimal that strconv.ParseFloat reads back, without spaces or commas.
pub record Float64 : Type 1 where
  pub Float : Type 0
  pub format_float : Float → Text
  pub parse_float : Text → Option Float
  pub parse-format : (x : Float) → parse_float (format_float x) ≡ some x
  pub format-IsPlain : (x : Float) → IsPlain (format_float x)

unfoldable pub split_config_segments : Text → List Text
unfolding split
split_config_segments raw = map trim_space (split raw b',')

abbrev trim_parts : Option (Text × Text) → Option (Text × Text)
trim_parts none = none
trim_parts (some (key, value)) = some (trim_space key, trim_space value)

unfoldable pub split_config_key_value : Text → Option (Text × Text)
unfolding cut trim_space
split_config_key_value segment = trim_parts (cut segment b'=')

unfoldable pub parse_config_bool : Text → Option Bool
unfolding trim_space to_lower
parse_config_bool value =
    let v = to_lower (trim_space value) in
    if text_eq v (codes "1")
      || text_eq v (codes "on")
      || text_eq v (codes "yes")
      || text_eq v (codes "true")
    then some true
    else if text_eq v (codes "0")
        || text_eq v (codes "off")
        || text_eq v (codes "no")
        || text_eq v (codes "false")
    then some false
    else none

-- qemuVMOptionalBoolValue: any word but `1` is false
abbrev pub optional_bool_value : Text → Value Bool
optional_bool_value raw = known (text_eq raw (codes "1"))

abbrev part_before : Option (Text × Text) → Text
part_before none = []
part_before (some (prefix, _)) = prefix

-- An empty text where the volume names no storage.
unfoldable pub disk_storage_from_volume : Text → Text
unfolding cut
disk_storage_from_volume volume = part_before (cut volume b':')

-- The segments that one appendXConfig call adds: none for a null or unknown value.
abbrev pub append_config {ℓ} : {A : Type ℓ} → (A → Text) → Text → Value A → List Text
append_config format key null = []
append_config format key unknown = []
append_config format key (known a) = (key ++ (b'=' ∷ format a)) ∷ []

abbrev pub append_string_config : Text → Value Text → List Text
append_string_config = append_config (λ s. s)

abbrev pub append_int64_config : Text → Value ℤ → List Text
append_int64_config = append_config format_int

abbrev pub bool_to_form_value : Bool → Text
bool_to_form_value b = if b then codes "1" else codes "0"

abbrev pub append_bool_config : Text → Value Bool → List Text
append_bool_config = append_config bool_to_form_value

abbrev pub append_float64_config : (F : Float64) → Text → Value F.Float → List Text
append_float64_config F = append_config F.format_float

-- The calls of one encoder in turn.
abbrev pub concat : List (List Text) → List Text
concat [] = []
concat (xs ∷ xss) = xs ++ concat xss

-- The loop that the parsers share: a segment with `=` is an option, another is positional.
module _ {S : Type 0} (positional : ℕ → Text → S → Option S)
    (option : Text → Text → S → Option S) where
  abbrev read_segment : ℕ → Text → S → Option (Text × Text) → Option S
  read_segment index segment item none = positional index segment item
  read_segment index segment item (some (key, value)) = option key value item

  unfoldable pub parse_segment : ℕ → Text → S → Option S
  unfolding split_config_key_value
  parse_segment index segment item =
      read_segment index segment item (split_config_key_value segment)

  unfoldable pub parse_segments : ℕ → List Text → S → Option S
  unfolding parse_segment
  parse_segments index [] item = some item
  parse_segments index (segment ∷ segments) item =
      parse_segment index segment item >>= parse_segments (suc index) segments

  -- A blank text is refused before the loop; `finish` is the test after it.
  unfoldable pub parse_config : (S → Bool) → S → Text → Option S
  unfolding parse_segments split_config_segments
  parse_config finish start raw =
      if is_empty (trim_space raw)
      then none
      else (parse_segments 0 (split_config_segments raw) start >>= λ item.
          if finish item then some item else none)
