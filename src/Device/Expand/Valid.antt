-- ===== src/Device/Expand/Valid.antt =====
-- The device maps of internal/provider/qemu_vm_devices.go: an expanded map, read back.
use terraform_provider_proxm.Prelude.{
  ◌≡◌, ◌≢◌, refl, Bool, true, false, Option, none, some, List, [], ◌∷◌, ◌++◌, All, Bool-cases, inl,
  inr,
}
use terraform_provider_proxm.Text.{Text, is_empty}
use terraform_provider_proxm.Value.{Value, null, unknown, known, Holds, IsDecided}
use terraform_provider_proxm.Diagnostic.{Diagnostic, report}
use terraform_provider_proxm.Vm.Slots.{
  MapOf, parsed_slots, unsupported_slots, keyed, map_or_null, device_state_value, slot_state_value,
}
use terraform_provider_proxm.Device.Check.{required_errors, fails}
use terraform_provider_proxm.Device.Expand.{expand_items}

pub append_nil_parts {ℓ} : {A : Type ℓ} (a b : List A) → a ++ b ≡ [] → (a ≡ []) × (b ≡ [])
append_nil_parts [] b h = (refl, h)
append_nil_parts (x ∷ a) b h = cc

pub reported {ℓ} : {A : Type ℓ} (x : A) (xs : List A) → (x ∷ xs) ≢ []
reported x xs e = cc

-- A family of devices, whose valid members are written as something and read back.
module _ {M : Type 0} (is_key : Text → Bool) (validate : Text → M → List Diagnostic)
    (encode : M → Text) (summary : Text) (parse : Text → Option M) (Decided : M → Type 0)
    (law : (slot : Text) (item : M)
      → Decided item
      → validate slot item ≡ []
      → (parse (encode item) ≡ some item) × (is_empty (encode item) ≡ false)) where
  -- The slots and what is made of them.
  record Reads (values : MapOf Text) (items : MapOf M) : Type 0 where
    keyed_all : keyed parse is_key values ≡ values
    parsed : parsed_slots parse values ≡ items
    raw : unsupported_slots parse values ≡ []

  cons-Reads :
      (slot : Text) (item : M) (values : MapOf Text) (items : MapOf M)
      → is_key slot ≡ true
      → parse (encode item) ≡ some item
      → Reads values items
      → Reads ((slot, encode item) ∷ values) ((slot, item) ∷ items)
  unfolding parsed_slots unsupported_slots
  cons-Reads slot item values items key e h = record {
    keyed_all = rw (key, h.keyed_all) refl;
    parsed = rw (e, h.parsed) refl;
    raw = rw e h.raw;
  }

  expand_items-Reads :
      (items : MapOf M)
      → All (λ p. Decided p.1) items
      → (expand_items is_key validate encode summary items).diagnostics ≡ []
      → Reads (expand_items is_key validate encode summary items).values items
  expand_items-Reads [] d h = record {
    keyed_all = refl;
    parsed = unfold parsed_slots in refl;
    raw = unfold unsupported_slots in refl;
  }
  expand_items-Reads ((slot, item) ∷ items) (d, ds) h = elim (Bool-cases (is_key slot)) [
    | inl key ↦
        let (mine, others) = append_nil_parts (validate slot item) _ (rw key at h) in
        let (reads, nonempty) = law slot item d mine in
        rw (key, nonempty)
          (cons-Reads slot item _ items key reads (expand_items-Reads items ds others))
    | inr bad ↦ absurd (reported _ _ (rw bad at h))
  ]

  -- What device_state_value makes of the values.
  pub expand_items-reads :
      (items : MapOf M)
      → All (λ p. Decided p.1) items
      → (expand_items is_key validate encode summary items).diagnostics ≡ []
      → device_state_value parse is_key (expand_items is_key validate encode summary items).values
        ≡ (map_or_null parse items, [])
  unfolding device_state_value slot_state_value
  expand_items-reads items d h =
      let r = expand_items-Reads items d h in rw (r.keyed_all, r.parsed, r.raw) refl

-- A required value that passes its test.
pub required_errors-known :
    (p : Text → Bool) (v : Value Text) (m i : Diagnostic) (ms is : List Diagnostic)
    → required_errors p v (m ∷ ms) (i ∷ is) ≡ []
    → (s : Text) × (v ≡ known s) × (p s ≡ true)
required_errors-known p null m i ms is h = cc
required_errors-known p unknown m i ms is h = cc
required_errors-known p (known s) m i ms is h = elim (Bool-cases (p s)) [
  | inl good ↦ (s, refl, good)
  | inr bad ↦ absurd (reported i is (rw bad at h))
]

-- A decided value that does not fail its test.
pub fails-Holds :
    (p : Text → Bool) (Q : Text → Type 0) (v : Value Text) (i : Diagnostic) (is : List Diagnostic)
    → ((s : Text) → p s ≡ true → Q s)
    → IsDecided v
    → report (fails p v) (i ∷ is) ≡ []
    → Holds Q v
fails-Holds p Q null i is f d h = tt
fails-Holds p Q unknown i is f d h = d
fails-Holds p Q (known s) i is f d h = elim (Bool-cases (p s)) [
  | inl good ↦ f s good
  | inr bad ↦ absurd (reported i is (rw bad at h))
]

-- Nothing is read from an empty text.
pub parsed-nonempty {ℓ} :
    {A : Type ℓ} (parse : Text → Option A) (s : Text) (a : A)
    → parse [] ≡ none
    → parse s ≡ some a
    → is_empty s ≡ false
parsed-nonempty parse [] a e h = cc
parsed-nonempty parse (c ∷ s) a e h = refl
