-- ===== src/Vm/Request/Name.antt =====
-- encodeQemuVMFields of internal/provider/client_qemu.go: the name in its form.
use terraform_provider_proxm.Prelude.{
  ◌≡◌, refl, ◌∙◌, Bool, true, false, not, ◌&&◌, Option, none, some, List, [], ◌∷◌, Bool-cases, inl,
  inr,
}
use terraform_provider_proxm.Text.{Text, codes, text_eq}
use terraform_provider_proxm.Config.{Float64}
use terraform_provider_proxm.Vm.Slots.{drop_key}
use terraform_provider_proxm.Vm.Request.{
  Slots, Form, empty_form, set_sorted_string_map, set_optional_string, set_optional_bool,
  set_optional_int64, set_optional_float64, set_delete, set_option, QemuVmConfigRequest, Statement,
  optional_string, optional_bool, optional_int64, optional_float64, sorted_string_map, run,
  field_statements, device_statements, encode_qemu_vm_fields,
}

abbrev pub name_key : Text
name_key = codes "name"

-- No entry of the map has the key of the name.
abbrev pub lacks_name : Slots → Bool
lacks_name [] = true
lacks_name ((key, _) ∷ slots) = not (text_eq key name_key) && lacks_name slots

abbrev pub all_lack_name : List Slots → Bool
all_lack_name [] = true
all_lack_name (slots ∷ more) = lacks_name slots && all_lack_name more

pub and_parts : (a b : Bool) → (a && b) ≡ true → (a ≡ true) × (b ≡ true)
and_parts true b h = (refl, h)
and_parts false b h = cc

lacks_name_rest :
    (key : Text) (slots : Slots) → lacks_name slots ≡ true → lacks_name (drop_key key slots) ≡ true
lacks_name_rest key [] h = refl
lacks_name_rest key ((k, v) ∷ slots) h =
    let (a, b) = and_parts (not (text_eq k name_key)) (lacks_name slots) h in
    elim (Bool-cases (text_eq k key)) [
      | inl e ↦ rw e (lacks_name_rest key slots b)
      | inr e ↦ rw (e, a) (lacks_name_rest key slots b)
    ]

-- A value under another key that replaces an entry.
pub lacks_name_put :
    (key value : Text) (slots : Slots)
    → not (text_eq key name_key) ≡ true
    → lacks_name slots ≡ true
    → lacks_name ((key, value) ∷ drop_key key slots) ≡ true
lacks_name_put key value slots other h = rw other (lacks_name_rest key slots h)

set_sorted_string_map_name :
    (form : Form) (slots : Slots)
    → lacks_name slots ≡ true
    → set_sorted_string_map form slots name_key ≡ form name_key
unfolding set_sorted_string_map
set_sorted_string_map_name form [] h = refl
set_sorted_string_map_name form ((key, v) ∷ slots) h = elim (Bool-cases (text_eq key name_key)) [
  | inl e ↦ cc (rw e at h)
  | inr e ↦ rw e (
      set_sorted_string_map_name form slots
        (and_parts (not (text_eq key name_key)) (lacks_name slots) h).1)
]

set_option_name {ℓ} :
    {A : Type ℓ} (show : A → Text) (form : Form) (key : Text) (value : Option A)
    → not (text_eq key name_key) ≡ true
    → set_option show form key value name_key ≡ form name_key
set_option_name show form key none h = refl
set_option_name show form key (some a) h = elim (Bool-cases (text_eq key name_key)) [
  | inl e ↦ cc (rw e at h)
  | inr e ↦ rw e refl
]

set_delete_name : (form : Form) (keys : List Text) → set_delete form keys name_key ≡ form name_key
unfolding set_delete
set_delete_name form [] = refl
set_delete_name form (key ∷ keys) = refl

module _ (F : Float64) where
  -- A statement that does not set the name.
  abbrev spares : Statement F → Bool
  spares (optional_string key value) = not (text_eq key name_key)
  spares (optional_bool key value) = not (text_eq key name_key)
  spares (optional_int64 key value) = not (text_eq key name_key)
  spares (optional_float64 key value) = not (text_eq key name_key)
  spares (sorted_string_map slots) = lacks_name slots

  abbrev all_spare : List (Statement F) → Bool
  all_spare [] = true
  all_spare (s ∷ ss) = spares s && all_spare ss

  run_name :
      (ss : List (Statement F)) (form : Form)
      → all_spare ss ≡ true
      → run F ss form name_key ≡ form name_key
  unfolding set_optional_string set_optional_bool set_optional_int64 set_optional_float64
  run_name [] form h = refl
  run_name (optional_string key value ∷ ss) form h =
      let (a, b) = and_parts (not (text_eq key name_key)) (all_spare ss) h in
      run_name ss (set_optional_string form key value) b ∙ set_option_name _ form key value a
  run_name (optional_bool key value ∷ ss) form h =
      let (a, b) = and_parts (not (text_eq key name_key)) (all_spare ss) h in
      run_name ss (set_optional_bool form key value) b ∙ set_option_name _ form key value a
  run_name (optional_int64 key value ∷ ss) form h =
      let (a, b) = and_parts (not (text_eq key name_key)) (all_spare ss) h in
      run_name ss (set_optional_int64 form key value) b ∙ set_option_name _ form key value a
  run_name (optional_float64 key value ∷ ss) form h =
      let (a, b) = and_parts (not (text_eq key name_key)) (all_spare ss) h in
      run_name ss (set_optional_float64 F form key value) b ∙ set_option_name _ form key value a
  run_name (sorted_string_map slots ∷ ss) form h =
      let (a, b) = and_parts (lacks_name slots) (all_spare ss) h in
      run_name ss (set_sorted_string_map form slots) b ∙ set_sorted_string_map_name form slots a

  -- The fields other than the name, with the maps.
  abbrev others : QemuVmConfigRequest F → List (Statement F)
  others r = elim (field_statements F r) [ [] ↦ [] | _ ∷ rest ↦ rest ]

  -- No map of the request has an entry for the name.
  abbrev pub leaves_name : QemuVmConfigRequest F → Bool
  leaves_name r =
      all_lack_name (r.ip_config ∷ r.network ∷ r.disk ∷ r.serial ∷ [])
      && (all_lack_name (r.host_pci ∷ r.usb ∷ r.rng ∷ r.virtiofs ∷ []) && lacks_name r.extra_config)

  pub encode_qemu_vm_fields_name :
      (r : QemuVmConfigRequest F)
      → leaves_name r ≡ true
      → encode_qemu_vm_fields F r empty_form name_key ≡ r.name
  unfolding encode_qemu_vm_fields set_optional_string
  encode_qemu_vm_fields_name r h =
      let (a, rest) =
        and_parts (all_spare (others r))
          (all_spare (device_statements F r) && lacks_name r.extra_config) h in
      let (b, c) = and_parts (all_spare (device_statements F r)) (lacks_name r.extra_config) rest in
      set_sorted_string_map_name _ r.extra_config c
      ∙ set_delete_name _ r.delete
      ∙ run_name (device_statements F r) _ b
      ∙ run_name (others r) (set_optional_string empty_form name_key r.name) a
      ∙ by_name r.name
    where
      by_name : (name : Option Text) → set_optional_string empty_form name_key name name_key ≡ name
      by_name none = refl
      by_name (some s) = refl
