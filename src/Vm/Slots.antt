-- ===== src/Vm/Slots.antt =====
-- Maps from slots to wire values: internal/provider/resource_qemu_vm.go narrows an update to the slots
-- that changed and names those to delete; internal/provider/qemu_vm_mapping.go splits the observed
-- slots into those that the typed parser reads and those kept raw, and projects disks to managed slots.
pub mod Narrow
pub mod Split
use terraform_provider_proxm.Prelude.{
  ◌≡◌, Bool, true, false, not, ◌&&◌, ◌||◌, Option, none, some, List, [], ◌∷◌, ◌++◌, if◌then◌else◌,
}
use terraform_provider_proxm.Text.{Text, text_eq}
use terraform_provider_proxm.Value.{Value, null, unknown, known}

-- A Go map: an association list with distinct keys.
abbrev pub MapOf {ℓ} : Type ℓ → Type ℓ
MapOf A = List (Text × A)

abbrev pub find {ℓ} : {A : Type ℓ} → MapOf A → Text → Option A
find [] name = none
find ((slot, value) ∷ slots) name = if text_eq slot name then some value else find slots name

abbrev pub drop_key {ℓ} : {A : Type ℓ} → Text → MapOf A → MapOf A
drop_key name [] = []
drop_key name ((slot, value) ∷ slots) =
    let rest = drop_key name slots in if text_eq slot name then rest else (slot, value) ∷ rest

-- An assignment to a map.
abbrev pub put {ℓ} : {A : Type ℓ} → Text → A → MapOf A → MapOf A
put name value slots = (name, value) ∷ drop_key name slots

-- `previous, ok := prior[slot]; !ok || previous != value`
abbrev pub differs : Option Text → Text → Bool
differs none value = true
differs (some previous) value = not (text_eq previous value)

-- The keys of a map are distinct.
abbrev pub IsDistinct {ℓ} : {A : Type ℓ} → MapOf A → Type ℓ
IsDistinct [] = Unit
IsDistinct ((slot, _) ∷ slots) = (find slots slot ≡ none) × IsDistinct slots

-- qemuVMNarrowDeviceSlots
unfoldable pub narrow_device_slots : MapOf Text → MapOf Text → MapOf Text
narrow_device_slots [] prior = []
narrow_device_slots ((slot, value) ∷ planned) prior =
    let rest = narrow_device_slots planned prior in
    if differs (find prior slot) value then (slot, value) ∷ rest else rest

abbrev pub is_missing {ℓ} : {A : Type ℓ} → Option A → Bool
is_missing none = true
is_missing (some _) = false

-- One family of qemuVMDeletedDeviceSlots.
unfoldable pub deleted_slots : MapOf Text → MapOf Text → List Text
deleted_slots [] plan = []
deleted_slots ((slot, value) ∷ prior) plan =
    let rest = deleted_slots prior plan in if is_missing (find plan slot) then slot ∷ rest else rest

-- The maps of PCI, USB, RNG and virtiofs devices of a request.
pub record Devices : Type 0 where
  pub host_pci : MapOf Text
  pub usb : MapOf Text
  pub rng : MapOf Text
  pub virtiofs : MapOf Text

-- qemuVMDeletedDeviceSlots
unfoldable pub deleted_device_slots : Devices → Devices → List Text
unfolding deleted_slots
deleted_device_slots prior planned =
    deleted_slots prior.host_pci planned.host_pci
    ++ (deleted_slots prior.usb planned.usb
        ++ (deleted_slots prior.rng planned.rng ++ deleted_slots prior.virtiofs planned.virtiofs))

module _ {M : Type 0} (parse : Text → Option M) where
  abbrev pub add_item : Text → Option M → MapOf M → MapOf M
  add_item slot none items = items
  add_item slot (some item) items = (slot, item) ∷ items

  abbrev pub add_raw : Text → Text → Option M → MapOf Text → MapOf Text
  add_raw slot raw none kept = (slot, raw) ∷ kept
  add_raw slot raw (some item) kept = kept

  unfoldable pub parsed_slots : MapOf Text → MapOf M
  parsed_slots [] = []
  parsed_slots ((slot, raw) ∷ source) = add_item slot (parse raw) (parsed_slots source)

  unfoldable pub unsupported_slots : MapOf Text → MapOf Text
  unsupported_slots [] = []
  unsupported_slots ((slot, raw) ∷ source) = add_raw slot raw (parse raw) (unsupported_slots source)

  abbrev pub map_or_null : MapOf M → Value (MapOf M)
  map_or_null [] = null
  map_or_null (item ∷ items) = known (item ∷ items)

  -- qemuVMNetworkStateValue and qemuVMDiskStateValue: the typed map, and the slots that are left to
  -- raw.extra_config
  unfoldable pub slot_state_value : MapOf Text → Value (MapOf M) × MapOf Text
  unfolding parsed_slots unsupported_slots
  slot_state_value source = (map_or_null (parsed_slots source), unsupported_slots source)

  abbrev pub keyed : (Text → Bool) → MapOf Text → MapOf Text
  keyed is_key [] = []
  keyed is_key ((slot, raw) ∷ source) =
      let rest = keyed is_key source in if is_key slot then (slot, raw) ∷ rest else rest

  -- qemuVMDeviceStateValue: other keys are skipped
  unfoldable pub device_state_value : (Text → Bool) → MapOf Text → Value (MapOf M) × MapOf Text
  unfolding slot_state_value
  device_state_value is_key source = slot_state_value (keyed is_key source)

module _ {M : Type 0} where
  abbrev pub keep_found : Text → Option M → MapOf M → MapOf M
  keep_found slot none rest = rest
  keep_found slot (some disk) rest = (slot, disk) ∷ rest

  unfoldable pub projected_slots : MapOf M → MapOf M → MapOf M
  projected_slots [] observed = []
  projected_slots ((slot, _) ∷ managed) observed =
      keep_found slot (find observed slot) (projected_slots managed observed)

  -- observed.ElementsAs, after the test for null and unknown
  abbrev pub elements : Value (MapOf M) → MapOf M
  elements (known items) = items
  elements null = []
  elements unknown = []

  -- No managed slot is observed: an empty plan stays an empty map, another becomes null.
  abbrev pub known_or_null : MapOf M → MapOf M → Value (MapOf M)
  known_or_null [] [] = known []
  known_or_null (m ∷ managed) [] = null
  known_or_null managed (item ∷ items) = known (item ∷ items)

  abbrev project_managed : MapOf M → Value (MapOf M) → Value (MapOf M)
  project_managed managed observed =
      known_or_null managed (projected_slots managed (elements observed))

  abbrev project_prior : Value (MapOf M) → Value (MapOf M) → Value (MapOf M)
  project_prior observed null = observed
  project_prior observed unknown = observed
  project_prior observed (known managed) = project_managed managed observed

  -- projectQemuVMDiskState; `prior` is none without a prior model
  unfoldable pub project_disk_state : Value (MapOf M) → Option (Value (MapOf M)) → Value (MapOf M)
  unfolding projected_slots
  project_disk_state observed none = observed
  project_disk_state observed (some disk) = project_prior observed disk
