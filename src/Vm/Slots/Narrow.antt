-- ===== src/Vm/Slots/Narrow.antt =====
-- qemuVMNarrowDeviceSlots and qemuVMDeletedDeviceSlots of internal/provider/resource_qemu_vm.go, slot
-- by slot.
use terraform_provider_proxm.Prelude.{
  ◌≡◌, ◌≢◌, refl, sym, ap, subst, ◌∙◌, Bool, true, false, not, ◌&&◌, Option, none, some, List, [],
  ◌∷◌, if◌then◌else◌, Bool-cases, inl, inr,
}
use terraform_provider_proxm.Text.{Text, text_eq}
use terraform_provider_proxm.Text.Equal.{text_eq→eq, text_eq_self}
use terraform_provider_proxm.Vm.Identity.{mem_text}
use terraform_provider_proxm.Vm.Slots.{
  MapOf, find, differs, narrow_device_slots, is_missing, deleted_slots, IsDistinct,
}

-- What the server keeps at a slot: it removes the deleted slots and sets the sent ones.
abbrev pub applied : MapOf Text → MapOf Text → List Text → Text → Option Text
applied prior sent deleted slot =
    if mem_text deleted slot
    then none
    else elim (find sent slot) [ none ↦ find prior slot | some value ↦ some value ]

-- What the narrowed map has at a slot.
abbrev sent_value : Option Text → Option Text → Option Text
sent_value previous none = none
sent_value previous (some value) = if differs previous value then some value else none

-- A conditional entry under another key, and under this one.
other_entry {ℓ} :
    {A : Type ℓ} (b : Bool) (slot : Text) (value : A) (name : Text) (rest : MapOf A) (r : Option A)
    → text_eq slot name ≡ false
    → find rest name ≡ r
    → find (if b then (slot, value) ∷ rest else rest) name ≡ r
other_entry true slot value name rest r other e = rw other e
other_entry false slot value name rest r other e = e

same_entry {ℓ} :
    {A : Type ℓ} (b : Bool) (slot : Text) (value : A) (name : Text) (rest : MapOf A)
    → text_eq slot name ≡ true
    → find rest name ≡ none
    → find (if b then (slot, value) ∷ rest else rest) name ≡ (if b then some value else none)
same_entry true slot value name rest same e = rw same refl
same_entry false slot value name rest same e = e

mem_other :
    (b : Bool) (slot name : Text) (rest : List Text)
    → text_eq slot name ≡ false
    → mem_text (if b then slot ∷ rest else rest) name ≡ mem_text rest name
mem_other true slot name rest other = rw other refl
mem_other false slot name rest other = refl

mem_same :
    (b : Bool) (slot name : Text) (rest : List Text)
    → text_eq slot name ≡ true
    → (b ≡ false → mem_text rest name ≡ false)
    → mem_text (if b then slot ∷ rest else rest) name ≡ b
mem_same true slot name rest same h = rw same refl
mem_same false slot name rest same h = h refl

and_false : (a : Bool) → (a && false) ≡ false
and_false true = refl
and_false false = refl

module _ (name : Text) where
  narrow_absent :
      (planned prior : MapOf Text)
      → find planned name ≡ none
      → find (narrow_device_slots planned prior) name ≡ none
  unfolding narrow_device_slots
  narrow_absent [] prior h = refl
  narrow_absent ((slot, value) ∷ planned) prior h = elim (Bool-cases (text_eq slot name)) [
    | inl same ↦ cc (rw same at h)
    | inr other ↦
        other_entry (differs (find prior slot) value) slot value name _ none other
          (narrow_absent planned prior (rw other at h))
  ]

  find-narrow :
      (planned prior : MapOf Text)
      → IsDistinct planned
      → find (narrow_device_slots planned prior) name
        ≡ sent_value (find prior name) (find planned name)
  unfolding narrow_device_slots
  find-narrow [] prior h = refl
  find-narrow ((slot, value) ∷ planned) prior (fresh, h) = elim (Bool-cases (text_eq slot name)) [
    | inl same ↦
        let e = text_eq→eq slot name same in
        rw same (
          same_entry (differs (find prior slot) value) slot value name _ same
            (narrow_absent planned prior (subst (λ s. find planned s ≡ none) e fresh))
          ∙ ap (λ s. if differs (find prior s) value then some value else none) e)
    | inr other ↦ rw other (
        other_entry (differs (find prior slot) value) slot value name _ _ other
          (find-narrow planned prior h))
  ]

  mem-deleted :
      (prior planned : MapOf Text)
      → mem_text (deleted_slots prior planned) name
        ≡ (not (is_missing (find prior name)) && is_missing (find planned name))
  unfolding deleted_slots
  mem-deleted [] planned = refl
  mem-deleted ((slot, value) ∷ prior) planned = elim (Bool-cases (text_eq slot name)) [
    | inl same ↦
        let e = ap (λ s. is_missing (find planned s)) (text_eq→eq slot name same) in
        mem_same (is_missing (find planned slot)) slot name (deleted_slots prior planned) same
          (λ kept. mem-deleted prior planned ∙ rw (sym e ∙ kept) (and_false _))
        ∙ rw same e
    | inr other ↦
        mem_other (is_missing (find planned slot)) slot name (deleted_slots prior planned) other
        ∙ rw other (mem-deleted prior planned)
  ]

differs_same :
    (previous : Option Text) (value : Text) → differs previous value ≡ false → previous ≡ some value
differs_same none value h = cc
differs_same (some p) value h = elim (Bool-cases (text_eq p value)) [
  | inl same ↦ ap some (text_eq→eq p value same)
  | inr other ↦ cc (rw other at h)
]

-- The three maps at one slot: what is kept there.
kept : Bool → Option Text → Option Text → Option Text
kept deleted sent prior =
    if deleted then none else elim sent [ none ↦ prior | some value ↦ some value ]

kept_planned :
    (prior planned : Option Text)
    → kept (not (is_missing prior) && is_missing planned) (sent_value prior planned) prior ≡ planned
unfolding kept
kept_planned none none = refl
kept_planned (some p) none = refl
kept_planned none (some v) = refl
kept_planned (some p) (some v) = elim (Bool-cases (text_eq p v)) [
  | inl same ↦ rw same (ap some (text_eq→eq p v same))
  | inr other ↦ rw other refl
]

-- If the planned slots are distinct and the guest has the slots of the prior state, then after the
-- server has set the slots of the narrowed map and removed the deleted ones, every slot of the
-- guest is as planned.
pub narrow_device_slots-applied :
    (planned prior : MapOf Text) (slot : Text)
    → IsDistinct planned
    → applied prior (narrow_device_slots planned prior) (deleted_slots prior planned) slot
      ≡ find planned slot
unfolding kept
narrow_device_slots-applied planned prior slot distinct =
    rw (mem-deleted slot prior planned, find-narrow slot planned prior distinct)
      (kept_planned (find prior slot) (find planned slot))

held : Option Text → Text
held none = []
held (some v) = v

-- If the planned slots are distinct, the narrowed map sends no slot that the prior state already
-- has with the same value.
pub narrow_device_slots-changed :
    (planned prior : MapOf Text) (slot value : Text)
    → IsDistinct planned
    → find (narrow_device_slots planned prior) slot ≡ some value
    → find prior slot ≢ some value
unfolding held
narrow_device_slots-changed planned prior slot value distinct sent same =
    unchanged (find planned slot) (sym (find-narrow slot planned prior distinct) ∙ sent)
  where
    unchanged : (p : Option Text) → sent_value (find prior slot) p ≡ some value → ⊥
    unchanged none h = cc
    unchanged (some v) h = elim (Bool-cases (text_eq value v)) [
      | inl e ↦ cc (rw (same, e) at h)
      | inr e ↦
          let k : some v ≡ some value = rw (same, e) at h in
          cc (rw (ap (text_eq value) (ap held k), text_eq_self value) at e)
    ]
