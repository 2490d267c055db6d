-- ===== src/Vm/Validate/Raw/Disjoint.antt =====
-- What validateQemuVMRawConflicts of internal/provider/qemu_vm_mapping.go accepts.
use terraform_provider_proxm.Prelude.{
  ◌≡◌, ◌↔◌, refl, sym, ap, subst, ◌∙◌, Bool, true, false, not, ◌&&◌, ◌||◌, Option, none, some, List,
  [], ◌∷◌, ◌++◌, All, Bool-cases, inl, inr, if◌then◌else◌,
}
use terraform_provider_proxm.Text.{Text, codes, text_eq}
use terraform_provider_proxm.Text.Equal.{text_eq→eq, text_eq_self}
use terraform_provider_proxm.Text.Sort.{text_leb, insert_text, sorted_strings}
use terraform_provider_proxm.Value.{Value, null, unknown, known, is_configured}
use terraform_provider_proxm.Config.{Float64, concat}
use terraform_provider_proxm.Diagnostic.{report}
use terraform_provider_proxm.Vm.Slots.{MapOf, find, is_missing}
use terraform_provider_proxm.Vm.Model.{QemuVmModel, CloudInit, no_common, no_cloud_init, expand}
use terraform_provider_proxm.Vm.ConfigRequest.{efi_disk_is_empty, tpm_state_is_empty, vga_is_empty}
use terraform_provider_proxm.Device.EfiDisk.{empty_efi_disk}
use terraform_provider_proxm.Device.TpmState.{empty_tpm_state}
use terraform_provider_proxm.Device.Vga.{empty_vga}
use terraform_provider_proxm.Vm.Validate.Raw.{
  keys_of, key_if, fixed_keys, cloud_init_keys, collected_keys, typed_config_keys, conflict_error,
  conflicts, add_string, string_elements, conflicts_in, validate_raw_conflicts,
}

abbrev lists : Text → List Text → Bool
lists key [] = false
lists key (t ∷ ts) = text_eq t key || lists key ts

-- The attribute's own key.
abbrev sets : Bool → Text → Text → Bool
sets configured own key = configured && text_eq own key

abbrev has {ℓ} : {A : Type ℓ} → Value (MapOf A) → Text → Bool
has map key = not (is_missing (find (expand [] map) key))

abbrev one_of : List Bool → Bool
one_of [] = false
one_of (b ∷ bs) = b || one_of bs

abbrev is_cloud_init_key : CloudInit → Text → Bool
is_cloud_init_key c key = one_of (
    sets (is_configured c.ci_custom) (codes "cicustom") key
    ∷ sets (is_configured c.ci_password) (codes "cipassword") key
    ∷ sets (is_configured c.ci_type) (codes "citype") key
    ∷ sets (is_configured c.ci_user) (codes "ciuser") key
    ∷ sets (is_configured c.ssh_keys) (codes "sshkeys") key
    ∷ sets (is_configured c.ci_upgrade) (codes "ciupgrade") key
    ∷ has c.ip_config key
    ∷ [])

-- The keys that count as typed, one by one: ten whatever is configured, those of `hotplug`, of the
-- cloud-init settings, the EFI disk, the TPM state and the display if these are configured, and the
-- slots of the configured maps.
abbrev pub is_typed : {F : Float64} → QemuVmModel F → Text → Bool
is_typed model key = one_of (
    lists key (
      codes "protection"
      ∷ codes "scsihw"
      ∷ codes "tablet"
      ∷ codes "numa"
      ∷ codes "vcpus"
      ∷ codes "cpuunits"
      ∷ codes "cpulimit"
      ∷ codes "balloon"
      ∷ codes "shares"
      ∷ codes "hugepages"
      ∷ [])
    ∷ sets (is_configured (expand no_common model.common).hotplug) (codes "hotplug") key
    ∷ is_cloud_init_key (expand no_cloud_init model.cloud_init) key
    ∷ has model.network key
    ∷ has model.disk key
    ∷ has model.serial key
    ∷ has model.host_pci key
    ∷ has model.usb key
    ∷ has model.rng key
    ∷ has model.virtiofs key
    ∷ sets (not (efi_disk_is_empty (expand empty_efi_disk model.efi_disk))) (codes "efidisk0") key
    ∷ sets (not (tpm_state_is_empty (expand empty_tpm_state model.tpm_state))) (codes "tpmstate0")
        key
    ∷ sets (not (vga_is_empty (expand empty_vga model.vga))) (codes "vga") key
    ∷ [])

-- The keys that the code collects are these.
or_assoc : (a b c : Bool) → (a || b || c) ≡ (a || (b || c))
or_assoc true b c = refl
or_assoc false b c = refl

or_false : (b : Bool) → (b || false) ≡ b
or_false true = refl
or_false false = refl

lists-append :
    (key : Text) (xs ys : List Text) → lists key (xs ++ ys) ≡ (lists key xs || lists key ys)
lists-append key [] ys = refl
lists-append key (x ∷ xs) ys =
    ap (λ b. text_eq x key || b) (lists-append key xs ys)
    ∙ sym (or_assoc (text_eq x key) (lists key xs) (lists key ys))

lists-key_if : (key : Text) (b : Bool) (own : Text) → lists key (key_if b own) ≡ sets b own key
lists-key_if key true own = or_false (text_eq own key)
lists-key_if key false own = refl

lists-keys_of {ℓ} :
    {A : Type ℓ} (key : Text) (map : MapOf A)
    → lists key (keys_of map) ≡ not (is_missing (find map key))
lists-keys_of key [] = refl
lists-keys_of key ((k, v) ∷ map) = elim (Bool-cases (text_eq k key)) [
  | inl e ↦ rw e refl
  | inr e ↦ rw e (lists-keys_of key map)
]

-- Keys that the code adds, with the test for them.
record Part (key : Text) : Type 0 where
  keys : List Text
  test : Bool
  agrees : lists key keys ≡ test

abbrev keys_lists : {key : Text} → List (Part key) → List (List Text)
keys_lists [] = []
keys_lists (p ∷ ps) = p.keys ∷ keys_lists ps

abbrev tests : {key : Text} → List (Part key) → List Bool
tests [] = []
tests (p ∷ ps) = p.test ∷ tests ps

lists-concat :
    {key : Text} (ps : List (Part key)) → lists key (concat (keys_lists ps)) ≡ one_of (tests ps)
lists-concat [] = refl
lists-concat {key} (p ∷ ps) =
    lists-append key p.keys (concat (keys_lists ps))
    ∙ ap (λ b. b || lists key (concat (keys_lists ps))) p.agrees
    ∙ ap (λ b. p.test || b) (lists-concat ps)

abbrev own : (key : Text) → Bool → Text → Part key
own key configured k = record {
  keys = key_if configured k;
  test = sets configured k key;
  agrees = lists-key_if key configured k;
}

abbrev slots {ℓ} : {A : Type ℓ} (key : Text) → Value (MapOf A) → Part key
slots key map = record {
  keys = keys_of (expand [] map);
  test = has map key;
  agrees = lists-keys_of key (expand [] map);
}

cloud_init_keys-typed :
    (key : Text) (c : CloudInit) → lists key (cloud_init_keys c) ≡ is_cloud_init_key c key
cloud_init_keys-typed key c = lists-concat (
    own key (is_configured c.ci_custom) (codes "cicustom")
    ∷ own key (is_configured c.ci_password) (codes "cipassword")
    ∷ own key (is_configured c.ci_type) (codes "citype")
    ∷ own key (is_configured c.ci_user) (codes "ciuser")
    ∷ own key (is_configured c.ssh_keys) (codes "sshkeys")
    ∷ own key (is_configured c.ci_upgrade) (codes "ciupgrade")
    ∷ slots key c.ip_config
    ∷ [])

collected_keys-typed :
    {F : Float64} (key : Text) (model : QemuVmModel F)
    → lists key (collected_keys model) ≡ is_typed model key
unfolding collected_keys
collected_keys-typed key model =
    let fixed : Part key = record {
      keys = fixed_keys;
      test = lists key (
          codes "protection"
          ∷ codes "scsihw"
          ∷ codes "tablet"
          ∷ codes "numa"
          ∷ codes "vcpus"
          ∷ codes "cpuunits"
          ∷ codes "cpulimit"
          ∷ codes "balloon"
          ∷ codes "shares"
          ∷ codes "hugepages"
          ∷ []);
      agrees = refl;
    } in
    let cloud_init : Part key = record {
      keys = cloud_init_keys (expand no_cloud_init model.cloud_init);
      test = is_cloud_init_key (expand no_cloud_init model.cloud_init) key;
      agrees = cloud_init_keys-typed key (expand no_cloud_init model.cloud_init);
    } in
    lists-concat (
      fixed
      ∷ own key (is_configured (expand no_common model.common).hotplug) (codes "hotplug")
      ∷ cloud_init
      ∷ slots key model.network
      ∷ slots key model.disk
      ∷ slots key model.serial
      ∷ slots key model.host_pci
      ∷ slots key model.usb
      ∷ slots key model.rng
      ∷ slots key model.virtiofs
      ∷ own key (not (efi_disk_is_empty (expand empty_efi_disk model.efi_disk))) (codes "efidisk0")
      ∷ own key (not (tpm_state_is_empty (expand empty_tpm_state model.tpm_state)))
          (codes "tpmstate0")
      ∷ own key (not (vga_is_empty (expand empty_vga model.vga))) (codes "vga")
      ∷ [])

abbrev IsFree : MapOf Text → Text → Type 0
IsFree raw key = find raw key ≡ none

-- Sorting keeps what holds of all texts.
module _ (P : Text → Type 0) where
  All-insert_text : (s : Text) (ts : List Text) → All P (insert_text s ts) ↔ All P (s ∷ ts)
  All-insert_text s [] = ((λ h. h), (λ h. h))
  All-insert_text s (t ∷ ts) = by_order (text_leb s t) (All-insert_text s ts)
    where
      by_order :
          (b : Bool)
          → (All P (insert_text s ts) ↔ All P (s ∷ ts))
          → All P (if b then s ∷ t ∷ ts else t ∷ insert_text s ts) ↔ All P (s ∷ t ∷ ts)
      by_order true r = ((λ h. h), (λ h. h))
      by_order false r =
          ((λ h. let (hs, hts) = r.0 h.1 in (hs, (h.0, hts))), (λ h. (h.1.0, r.1 (h.0, h.1.1))))

  All-sorted_strings : (ts : List Text) → All P (sorted_strings ts) ↔ All P ts
  unfolding sorted_strings
  All-sorted_strings [] = ((λ h. h), (λ h. h))
  All-sorted_strings (t ∷ ts) =
      let r = All-insert_text t (sorted_strings ts) in
      let q = All-sorted_strings ts in
      (λ h. let (ht, hts) = r.0 h in (ht, q.0 hts), λ h. r.1 (h.0, q.1 h.1))

All-lists :
    (P : Text → Type 0) (ts : List Text) (key : Text) → All P ts → lists key ts ≡ true → P key
All-lists P [] key h e = cc
All-lists P (t ∷ ts) key (p, h) e = elim (Bool-cases (text_eq t key)) [
  | inl same ↦ subst P (text_eq→eq t key same) p
  | inr other ↦ All-lists P ts key h (sym (ap (λ b. b || lists key ts) other) ∙ e)
]

lists-All :
    (P : Text → Type 0) (ts : List Text) → ((key : Text) → lists key ts ≡ true → P key) → All P ts
lists-All P [] f = tt
lists-All P (t ∷ ts) f = (
  f t (rw (text_eq_self t) refl),
  lists-All P ts (λ key e. f key (or_true (text_eq t key) (lists key ts) e)),
)
  where
    or_true : (a b : Bool) → b ≡ true → (a || b) ≡ true
    or_true true b h = refl
    or_true false b h = h

conflicts-IsFree :
    (raw : MapOf Text) (keys : List Text) → (conflicts raw keys ≡ []) ↔ All (IsFree raw) keys
conflicts-IsFree raw [] = ((λ h. tt), (λ h. refl))
conflicts-IsFree raw (key ∷ keys) = by_found (find raw key) (conflicts-IsFree raw keys)
  where
    by_found :
        (found : Option Text)
        → ((conflicts raw keys ≡ []) ↔ All (IsFree raw) keys)
        → (report (not (is_missing found)) (conflict_error key) ++ conflicts raw keys ≡ [])
          ↔ ((found ≡ none) × All (IsFree raw) keys)
    by_found none r = ((λ h. (refl, r.0 h)), (λ h. r.1 h.1))
    by_found (some v) r = ((λ h. cc), (λ h. cc))

abbrev IsText : Value Text → Type 0
IsText null = ⊥
IsText unknown = ⊥
IsText (known s) = Unit

-- The entries are texts, and none has a typed key.
pub record Disjoint {F : Float64} (model : QemuVmModel F) (elements : MapOf (Value Text))
    : Type 0 where
  pub texts : All (λ e. IsText e.1) elements
  pub free : (key : Text) → is_typed model key ≡ true → find elements key ≡ none

abbrev pub Accepts : {F : Float64} → QemuVmModel F → Value (MapOf (Value Text)) → Type 0
Accepts model null = Unit
Accepts model unknown = Unit
Accepts model (known elements) = Disjoint model elements

missing_none {ℓ} : {A : Type ℓ} (found : Option A) → is_missing found ≡ true → found ≡ none
missing_none none h = refl
missing_none (some a) h = cc

-- What the conversion of the entries yields.
data Conversion (elements : MapOf (Value Text)) : Option (MapOf Text) → Type 0 where
  refused : (All (λ e. IsText e.1) elements → ⊥) → Conversion elements none
  converted :
      (raw : MapOf Text)
      → All (λ e. IsText e.1) elements
      → ((key : Text) → is_missing (find raw key) ≡ is_missing (find elements key))
      → Conversion elements (some raw)

conversion : (elements : MapOf (Value Text)) → Conversion elements (string_elements elements)
conversion [] = converted [] tt (λ key. refl)
conversion ((k, null) ∷ elements) = refused (λ h. h.0)
conversion ((k, unknown) ∷ elements) = refused (λ h. h.0)
conversion ((k, known v) ∷ elements) = extended (conversion elements)
  where
    extended :
        {r : Option (MapOf Text)}
        → Conversion elements r
        → Conversion ((k, known v) ∷ elements) (add_string k (known v) r)
    extended (refused not_texts) = refused (λ h. not_texts h.1)
    extended (converted raw h f) =
        converted ((k, v) ∷ raw) (tt, h) (λ key. by_key key (text_eq k key) (f key))
      where
        by_key :
            (key : Text) (b : Bool)
            → is_missing (find raw key) ≡ is_missing (find elements key)
            → is_missing (if b then some v else find raw key)
              ≡ is_missing (if b then some (known v) else find elements key)
        by_key key true e = refl
        by_key key false e = e

module _ {F : Float64} (model : QemuVmModel F) where
  typed-IsFree :
      (raw : MapOf Text)
      → (conflicts raw (typed_config_keys model) ≡ [])
        ↔ ((key : Text) → is_typed model key ≡ true → IsFree raw key)
  unfolding typed_config_keys
  typed-IsFree raw =
      let r = conflicts-IsFree raw (typed_config_keys model) in
      let q = All-sorted_strings (IsFree raw) (collected_keys model) in
      (
        λ h key e.
            All-lists (IsFree raw) (collected_keys model) key (q.0 (r.0 h))
              (collected_keys-typed key model ∙ e),
        λ f. r.1 (
            q.1 (
              lists-All (IsFree raw) (collected_keys model)
                (λ key e. f key (sym (collected_keys-typed key model) ∙ e)))),
      )

  converted-Disjoint :
      (elements : MapOf (Value Text)) {r : Option (MapOf Text)}
      → Conversion elements r
      → (conflicts_in r (typed_config_keys model) ≡ []) ↔ Disjoint model elements
  converted-Disjoint elements (refused not_texts) = ((λ h. cc), (λ d. absurd (not_texts d.texts)))
  converted-Disjoint elements (converted raw texts f) =
      let t = typed-IsFree raw in
      (
        λ h. record {
          texts = texts;
          free =
              λ key e. missing_none (find elements key) (sym (f key) ∙ ap is_missing (t.0 h key e));
        },
        λ d. t.1 (λ key e. missing_none (find raw key) (f key ∙ ap is_missing (d.free key e))),
      )

  -- The raw entries pass exactly when raw.extra_config is null or unknown, or all its entries are
  -- known texts and none has a key that counts as typed: protection, scsihw, tablet, numa, vcpus,
  -- cpuunits, cpulimit, balloon, shares or hugepages, whether configured or not; hotplug, a
  -- cloud-init setting, efidisk0, tpmstate0 or vga, if that is configured; or a slot of the
  -- configured maps of IP configurations, networks, disks, serial ports and PCI, USB, RNG and
  -- virtiofs devices.
  pub validate_raw_conflicts-Disjoint :
      (extra : Value (MapOf (Value Text)))
      → (validate_raw_conflicts model extra ≡ []) ↔ Accepts model extra
  unfolding validate_raw_conflicts
  validate_raw_conflicts-Disjoint null = ((λ h. tt), (λ h. refl))
  validate_raw_conflicts-Disjoint unknown = ((λ h. tt), (λ h. refl))
  validate_raw_conflicts-Disjoint (known elements) =
      converted-Disjoint elements (conversion elements)
