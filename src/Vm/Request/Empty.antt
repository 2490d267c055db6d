-- ===== src/Vm/Request/Empty.antt =====
-- UpdateQemuVMRequest.IsEmpty against the form that the update would send.
use terraform_provider_proxm.Prelude.{
  ◌≡◌, ◌⊎◌, inl, inr, refl, sym, ap, ◌∙◌, Bool, true, false, ◌&&◌, Option, none, some, List, [],
  ◌∷◌,
}
use terraform_provider_proxm.Text.{Text, codes, join}
use terraform_provider_proxm.Text.Sort.{sorted_strings}
use terraform_provider_proxm.Text.Equal.{text_eq_self}
use terraform_provider_proxm.Config.{Float64}
use terraform_provider_proxm.Vm.Request.{
  Slots, Form, set_value, set_option, is_none, no_entries, set_optional_string, set_optional_bool,
  set_optional_int64, set_optional_float64, set_sorted_string_map, set_delete, QemuVmConfigRequest,
  request_is_empty, Statement, optional_string, optional_bool, optional_int64, optional_float64,
  sorted_string_map, run, field_statements, device_statements, encode_qemu_vm_fields,
}

-- Some key of the form has a value.
abbrev pub HasValue : Form → Type 0
HasValue form = (name : Text) × (value : Text) × (form name ≡ some value)

set_value-HasValue : (form : Form) (name value : Text) → HasValue (set_value form name value)
set_value-HasValue form name value = (name, value, rw (text_eq_self name) refl)

set_option-HasValue {ℓ} :
    {A : Type ℓ} (show : A → Text) (form : Form) (name : Text) (a : Option A)
    → HasValue form
    → HasValue (set_option show form name a)
set_option-HasValue show form name none h = h
set_option-HasValue show form name (some a) h = set_value-HasValue form name (show a)

set_option-decides {ℓ} :
    {A : Type ℓ} (show : A → Text) (form : Form) (name : Text) (a : Option A)
    → ((is_none a ≡ true) × (set_option show form name a ≡ form))
      ⊎ ((is_none a ≡ false) × HasValue (set_option show form name a))
set_option-decides show form name none = inl (refl, refl)
set_option-decides show form name (some a) = inr (refl, set_value-HasValue form name (show a))

set_sorted_string_map-HasValue :
    (form : Form) (slots : Slots) → HasValue form → HasValue (set_sorted_string_map form slots)
unfolding set_sorted_string_map
set_sorted_string_map-HasValue form [] h = h
set_sorted_string_map-HasValue form ((name, value) ∷ slots) h = set_value-HasValue _ name value

set_sorted_string_map-decides :
    (form : Form) (slots : Slots)
    → ((no_entries slots ≡ true) × (set_sorted_string_map form slots ≡ form))
      ⊎ ((no_entries slots ≡ false) × HasValue (set_sorted_string_map form slots))
unfolding set_sorted_string_map
set_sorted_string_map-decides form [] = inl (refl, refl)
set_sorted_string_map-decides form ((name, value) ∷ slots) =
    inr (refl, set_value-HasValue _ name value)

set_delete-HasValue :
    (form : Form) (names : List Text) → HasValue form → HasValue (set_delete form names)
unfolding set_delete
set_delete-HasValue form [] h = h
set_delete-HasValue form (name ∷ names) h =
    set_value-HasValue form (codes "delete") (join (sorted_strings (name ∷ names)) b',')

module _ (F : Float64) where
  skips : Statement F → Bool
  skips (optional_string name value) = is_none value
  skips (optional_bool name value) = is_none value
  skips (optional_int64 name value) = is_none value
  skips (optional_float64 name value) = is_none value
  skips (sorted_string_map slots) = no_entries slots

  all_skip : Bool → List (Statement F) → Bool
  all_skip before [] = before
  all_skip before (s ∷ rest) = all_skip (before && skips s) rest

  one : Statement F → Form → Form
  one s form = run F (s ∷ []) form

  one-decides :
      (s : Statement F) (form : Form)
      → ((skips s ≡ true) × (one s form ≡ form)) ⊎ ((skips s ≡ false) × HasValue (one s form))
  unfolding skips one set_optional_string set_optional_bool set_optional_int64 set_optional_float64
  one-decides (optional_string name value) form = set_option-decides _ form name value
  one-decides (optional_bool name value) form = set_option-decides _ form name value
  one-decides (optional_int64 name value) form = set_option-decides _ form name value
  one-decides (optional_float64 name value) form = set_option-decides _ form name value
  one-decides (sorted_string_map slots) form = set_sorted_string_map-decides form slots

  one-HasValue : (s : Statement F) (form : Form) → HasValue form → HasValue (one s form)
  unfolding one set_optional_string set_optional_bool set_optional_int64 set_optional_float64
  one-HasValue (optional_string name value) form h = set_option-HasValue _ form name value h
  one-HasValue (optional_bool name value) form h = set_option-HasValue _ form name value h
  one-HasValue (optional_int64 name value) form h = set_option-HasValue _ form name value h
  one-HasValue (optional_float64 name value) form h = set_option-HasValue _ form name value h
  one-HasValue (sorted_string_map slots) form h = set_sorted_string_map-HasValue form slots h

  run_step :
      (s : Statement F) (rest : List (Statement F)) (form : Form)
      → run F (s ∷ rest) form ≡ run F rest (one s form)
  unfolding one
  run_step (optional_string name value) rest form = refl
  run_step (optional_bool name value) rest form = refl
  run_step (optional_int64 name value) rest form = refl
  run_step (optional_float64 name value) rest form = refl
  run_step (sorted_string_map slots) rest form = refl

  run-HasValue :
      (sts : List (Statement F)) (form : Form) → HasValue form → HasValue (run F sts form)
  run-HasValue [] form h = h
  run-HasValue (s ∷ sts) form h =
      rw (run_step s sts form) (run-HasValue sts (one s form) (one-HasValue s form h))

  and_parts : (a b : Bool) → (a && b) ≡ true → (a ≡ true) × (b ≡ true)
  and_parts true b h = (refl, h)
  and_parts false b h = cc

  and_failed : (a b : Bool) → (a && b) ≡ false → (a ≡ false) ⊎ (b ≡ false)
  and_failed true b h = inr h
  and_failed false b h = inl refl

  skipped : (s : Statement F) (form : Form) → skips s ≡ true → one s form ≡ form
  skipped s form h = elim (one-decides s form) [ inl (_, same) ↦ same | inr (set, _) ↦ cc ]

  not_skipped : (s : Statement F) (form : Form) → skips s ≡ false → HasValue (one s form)
  not_skipped s form h = elim (one-decides s form) [ inl (skip, _) ↦ cc | inr (_, set) ↦ set ]

  -- A run of statements that all skip leaves the form alone; another run sets a key.
  run_skipped :
      (before : Bool) (sts : List (Statement F)) (form : Form)
      → all_skip before sts ≡ true
      → (before ≡ true) × (run F sts form ≡ form)
  unfolding all_skip
  run_skipped before [] form h = (h, refl)
  run_skipped before (s ∷ sts) form h =
      let (both, rest) = run_skipped (before && skips s) sts form h in
      let (b, skip) = and_parts before (skips s) both in
      (b, run_step s sts form ∙ ap (run F sts) (skipped s form skip) ∙ rest)

  run_set :
      (before : Bool) (sts : List (Statement F)) (form : Form)
      → all_skip before sts ≡ false
      → (before ≡ false) ⊎ HasValue (run F sts form)
  unfolding all_skip
  run_set before [] form h = inl h
  run_set before (s ∷ sts) form h = elim (run_set (before && skips s) sts (one s form) h) [
    | inl failed ↦ elim (and_failed before (skips s) failed) [
      | inl b ↦ inl b
      | inr set ↦
          inr (rw (run_step s sts form) (run-HasValue sts (one s form) (not_skipped s form set)))
    ]
    | inr set ↦ inr (rw (run_step s sts form) set)
  ]

  is_empty-all_skip :
      (r : QemuVmConfigRequest F)
      → request_is_empty F r ≡ (all_skip true (field_statements F r) && no_entries r.extra_config)
  unfolding request_is_empty all_skip skips
  is_empty-all_skip r = refl

  map_set :
      (form : Form) (slots : Slots)
      → no_entries slots ≡ false
      → HasValue (set_sorted_string_map form slots)
  map_set form slots h = elim (set_sorted_string_map-decides form slots) [
    | inl (absent, _) ↦ cc
    | inr (_, set) ↦ set
  ]

  map_skipped :
      (form : Form) (slots : Slots)
      → no_entries slots ≡ true
      → set_sorted_string_map form slots ≡ form
  map_skipped form slots h = elim (set_sorted_string_map-decides form slots) [
    | inl (_, same) ↦ same
    | inr (set, _) ↦ cc
  ]

-- What an update that passes for empty adds to a form is only what its PCI, USB, RNG and virtiofs
-- devices and its deletions set.
pub request_is_empty-encode :
    (F : Float64) (r : QemuVmConfigRequest F) (form : Form)
    → request_is_empty F r ≡ true
    → encode_qemu_vm_fields F r form ≡ set_delete (run F (device_statements F r) form) r.delete
unfolding encode_qemu_vm_fields
request_is_empty-encode F r form h =
    let (fields, extra) =
      and_parts F (all_skip F true (field_statements F r)) _ (sym (is_empty-all_skip F r) ∙ h) in
    let (_, same) = run_skipped F true (field_statements F r) form fields in
    rw same (map_skipped F _ r.extra_config extra)

-- An update that does not pass for empty sends a form with a value for some key.
pub request_is_empty-HasValue :
    (F : Float64) (r : QemuVmConfigRequest F) (form : Form)
    → request_is_empty F r ≡ false
    → HasValue (encode_qemu_vm_fields F r form)
unfolding encode_qemu_vm_fields
request_is_empty-HasValue F r form h =
    elim (and_failed F (all_skip F true (field_statements F r)) _
      (sym (is_empty-all_skip F r) ∙ h)) [
        | inl fields ↦ elim (run_set F true (field_statements F r) form fields) [
          | inl never ↦ cc
          | inr set ↦
              set_sorted_string_map-HasValue _ r.extra_config
                (set_delete-HasValue _ r.delete (run-HasValue F (device_statements F r) _ set))
        ]
        | inr extra ↦ map_set F _ r.extra_config extra
      ]
