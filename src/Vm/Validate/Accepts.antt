-- ===== src/Vm/Validate/Accepts.antt =====
-- What the validators of internal/provider/qemu_vm_mapping.go accept.
use terraform_provider_proxm.Prelude.{
  ℕ, ◌≤◌, ◌≡◌, ◌↔◌, refl, Bool, true, false, ◌&&◌, [], ◌∷◌, ◌++◌, arith,
}
use terraform_provider_proxm.Int.{ℤ, pos, negsuc}
use terraform_provider_proxm.Value.{Value, null, unknown, known, is_configured}
use terraform_provider_proxm.Diagnostic.{Diagnostic, report}
use terraform_provider_proxm.Vm.Validate.{
  Settings, outside, validate_power_config, validate_vmid_allocation,
}

-- A known number within the bounds.
abbrev pub Within : ℕ → ℕ → Value ℤ → Type 0
Within low high null = Unit
Within low high unknown = Unit
Within low high (known (pos n)) = (low ≤ n) × (n ≤ high)
Within low high (known (negsuc n)) = ⊥

-- Not both settings are known.
abbrev pub NotBoth {ℓ} : {A B : Type ℓ} → Value A → Value B → Type 0
NotBoth a b = (is_configured a && is_configured b) ≡ false

Within-sound :
    (low high : ℕ) (v : Value ℤ) → outside (pos low) (pos high) v ≡ false → Within low high v
Within-sound low high null h = tt
Within-sound low high unknown h = tt
Within-sound low high (known (pos n)) h = (ground arith, ground arith)
Within-sound low high (known (negsuc n)) h = cc

Within-complete :
    (low high : ℕ) (v : Value ℤ) → Within low high v → outside (pos low) (pos high) v ≡ false
Within-complete low high null h = refl
Within-complete low high unknown h = refl
Within-complete low high (known (pos n)) (a, b) = ground arith
Within-complete low high (known (negsuc n)) h = absurd h

reports_nil :
    (a b : Bool) (d e : Diagnostic)
    → (report a (d ∷ []) ++ report b (e ∷ []) ≡ []) ↔ ((a ≡ false) × (b ≡ false))
reports_nil true b d e = ((λ h. cc), (λ h. cc))
reports_nil false true d e = ((λ h. cc), (λ h. cc))
reports_nil false false d e = ((λ h. (refl, refl)), (λ h. refl))

-- The power settings pass exactly when not both `power` and `start_on_create` are known and a known
-- shutdown timeout is from 1 to 600.
pub validate_power_config-Within :
    (s : Settings)
    → (validate_power_config s ≡ [])
      ↔ (NotBoth s.power s.start_on_create × Within 1 600 s.power_shutdown_timeout)
unfolding validate_power_config
validate_power_config-Within s =
    let r =
      reports_nil (is_configured s.power && is_configured s.start_on_create)
        (outside (pos 1) (pos 600) s.power_shutdown_timeout) _ _ in
    (
      λ h. let (a, b) = r.0 h in (a, Within-sound 1 600 s.power_shutdown_timeout b),
      λ p. r.1 (p.0, Within-complete 1 600 s.power_shutdown_timeout p.1),
    )

-- The settings of an allocation pass exactly when not both `vm_id` and `vm_id_start` are known and a
-- known `vm_id_start` is from 100 to 999999999.
pub validate_vmid_allocation-Within :
    (s : Settings)
    → (validate_vmid_allocation s ≡ [])
      ↔ (NotBoth s.vm_id s.vm_id_start × Within 100 999999999 s.vm_id_start)
unfolding validate_vmid_allocation
validate_vmid_allocation-Within s =
    let r =
      reports_nil (is_configured s.vm_id && is_configured s.vm_id_start)
        (outside (pos 100) (pos 999999999) s.vm_id_start) _ _ in
    (
      λ h. let (a, b) = r.0 h in (a, Within-sound 100 999999999 s.vm_id_start b),
      λ p. r.1 (p.0, Within-complete 100 999999999 s.vm_id_start p.1),
    )
