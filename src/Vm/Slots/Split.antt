-- ===== src/Vm/Slots/Split.antt =====
-- The state of slots in internal/provider/qemu_vm_mapping.go, slot by slot.
use terraform_provider_proxm.Prelude.{
  ◌≡◌, refl, sym, ap, subst, ◌∙◌, true, false, Option, none, some, [], ◌∷◌, Bool-cases, inl, inr,
}
use terraform_provider_proxm.Text.{Text, text_eq}
use terraform_provider_proxm.Text.Equal.{text_eq→eq}
use terraform_provider_proxm.Value.{Value, known}
use terraform_provider_proxm.Vm.Slots.{
  MapOf, find, IsDistinct, parsed_slots, unsupported_slots, map_or_null, slot_state_value,
  keep_found, projected_slots, elements, known_or_null, project_disk_state, add_item, add_raw,
}

-- Where an observed value stands: typed if it parses, and raw otherwise.
abbrev pub typed_at : {M : Type 0} → (Text → Option M) → Option Text → Option M
typed_at parse none = none
typed_at parse (some raw) = parse raw

abbrev keep_raw : {M : Type 0} → Text → Option M → Option Text
keep_raw raw none = some raw
keep_raw raw (some m) = none

abbrev pub raw_at : {M : Type 0} → (Text → Option M) → Option Text → Option Text
raw_at parse none = none
raw_at parse (some raw) = keep_raw raw (parse raw)

module _ {M : Type 0} (parse : Text → Option M) (name : Text) where
  item_other :
      (slot : Text) (m : Option M) (items : MapOf M)
      → text_eq slot name ≡ false
      → find (add_item parse slot m items) name ≡ find items name
  item_other slot none items h = refl
  item_other slot (some m) items h = rw h refl

  item_same :
      (slot : Text) (m : Option M) (items : MapOf M)
      → text_eq slot name ≡ true
      → find items name ≡ none
      → find (add_item parse slot m items) name ≡ m
  item_same slot none items h absent = absent
  item_same slot (some m) items h absent = rw h refl

  raw_other :
      (slot raw : Text) (m : Option M) (rest : MapOf Text)
      → text_eq slot name ≡ false
      → find (add_raw parse slot raw m rest) name ≡ find rest name
  raw_other slot raw none rest h = rw h refl
  raw_other slot raw (some m) rest h = refl

  raw_same :
      (slot raw : Text) (m : Option M) (rest : MapOf Text)
      → text_eq slot name ≡ true
      → find rest name ≡ none
      → find (add_raw parse slot raw m rest) name ≡ keep_raw raw m
  raw_same slot raw none rest h absent = rw h refl
  raw_same slot raw (some m) rest h absent = absent

  find-parsed_slots :
      (source : MapOf Text)
      → IsDistinct source
      → (find (parsed_slots parse source) name ≡ typed_at parse (find source name))
        × (find (unsupported_slots parse source) name ≡ raw_at parse (find source name))
  unfolding parsed_slots unsupported_slots
  find-parsed_slots [] h = (refl, refl)
  find-parsed_slots ((slot, raw) ∷ source) (fresh, h) =
      let (typed, untyped) = find-parsed_slots source h in
      elim (Bool-cases (text_eq slot name)) [
        | inl same ↦
            let absent = subst (λ s. find source s ≡ none) (text_eq→eq slot name same) fresh in
            (
              rw same (
                  item_same slot (parse raw) (parsed_slots parse source) same
                    (typed ∙ rw absent refl)),
              rw same (
                  raw_same slot raw (parse raw) (unsupported_slots parse source) same
                    (untyped ∙ rw absent refl)),
            )
        | inr other ↦ (
          item_other slot (parse raw) (parsed_slots parse source) other ∙ rw other typed,
          raw_other slot raw (parse raw) (unsupported_slots parse source) other ∙ rw other untyped,
        )
      ]

  elements-map_or_null : (items : MapOf M) → elements (map_or_null parse items) ≡ items
  elements-map_or_null [] = refl
  elements-map_or_null (item ∷ items) = refl

-- If the observed slots are distinct, the typed map that a read puts in the state holds, at every
-- slot, what the parser makes of the slot's observed value; the raw map holds, as they are, exactly
-- the values that the parser refuses.
pub slot_state_value-keeps :
    {M : Type 0} (parse : Text → Option M) (source : MapOf Text) (slot : Text)
    → IsDistinct source
    → (find (elements (slot_state_value parse source).0) slot ≡ typed_at parse (find source slot))
      × (find (slot_state_value parse source).1 slot ≡ raw_at parse (find source slot))
unfolding slot_state_value
slot_state_value-keeps parse source slot h =
    let (typed, untyped) = find-parsed_slots parse slot source h in
    (
      ap (λ m. find m slot) (elements-map_or_null parse slot (parsed_slots parse source)) ∙ typed,
      untyped,
    )

-- What the projection has at a slot.
abbrev pub if_managed : {M : Type 0} → Option M → Option M → Option M
if_managed none observed = none
if_managed (some _) observed = observed

module _ {M : Type 0} (name : Text) where
  found_same :
      (slot : Text) (d : Option M) (rest : MapOf M)
      → text_eq slot name ≡ true
      → (d ≡ none → find rest name ≡ none)
      → find (keep_found slot d rest) name ≡ d
  found_same slot none rest h absent = absent refl
  found_same slot (some d) rest h absent = rw h refl

  found_other :
      (slot : Text) (d : Option M) (rest : MapOf M)
      → text_eq slot name ≡ false
      → find (keep_found slot d rest) name ≡ find rest name
  found_other slot none rest h = refl
  found_other slot (some d) rest h = rw h refl

  if_managed-none : (m : Option M) → if_managed m none ≡ none
  if_managed-none none = refl
  if_managed-none (some m) = refl

  find-projected_slots :
      (managed observed : MapOf M)
      → find (projected_slots managed observed) name
        ≡ if_managed (find managed name) (find observed name)
  unfolding projected_slots
  find-projected_slots [] observed = refl
  find-projected_slots ((slot, m) ∷ managed) observed = elim (Bool-cases (text_eq slot name)) [
    | inl same ↦
        let e = ap (find observed) (text_eq→eq slot name same) in
        found_same slot (find observed slot) (projected_slots managed observed) same (λ absent.
          find-projected_slots managed observed
          ∙ rw (sym e ∙ absent) (if_managed-none (find managed name)))
        ∙ rw same e
    | inr other ↦
        found_other slot (find observed slot) (projected_slots managed observed) other
        ∙ rw other (find-projected_slots managed observed)
  ]

  elements-known_or_null :
      (managed items : MapOf M) → elements (known_or_null managed items) ≡ items
  elements-known_or_null [] [] = refl
  elements-known_or_null (m ∷ managed) [] = refl
  elements-known_or_null [] (item ∷ items) = refl
  elements-known_or_null (m ∷ managed) (item ∷ items) = refl

-- With a known prior disk map, the state after a read has exactly the managed slots that are observed,
-- each with its observed disk and never with the prior one.
pub project_disk_state-managed :
    {M : Type 0} (observed : Value (MapOf M)) (managed : MapOf M) (slot : Text)
    → find (elements (project_disk_state observed (some (known managed)))) slot
      ≡ if_managed (find managed slot) (find (elements observed) slot)
unfolding project_disk_state
project_disk_state-managed observed managed slot =
    ap (λ m. find m slot)
      (elements-known_or_null slot managed (projected_slots managed (elements observed)))
    ∙ find-projected_slots slot managed (elements observed)
