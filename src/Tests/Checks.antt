-- ===== src/Tests/Checks.antt =====
-- Checks of a configuration at concrete inputs.
use terraform_provider_proxm.Prelude.{◌≡◌, ◌≢◌, ◌↔◌, refl, [], ◌∷◌, All}
use terraform_provider_proxm.Text.{Text, codes}
use terraform_provider_proxm.Value.{Value, known}
use terraform_provider_proxm.Vm.Slots.{MapOf}
use terraform_provider_proxm.Vm.Model.{expand}
use terraform_provider_proxm.Vm.Validate.Resize.{validate_disk_resize}
use terraform_provider_proxm.Vm.Validate.Resize.Passes.{Growable, validate_disk_resize-Growable}
use terraform_provider_proxm.Vm.Validate.Raw.{validate_raw_conflicts}
use terraform_provider_proxm.Vm.Validate.Raw.Disjoint.{Accepts, validate_raw_conflicts-Disjoint}
use terraform_provider_proxm.Tests.Update.{state, plan}

validate_disk_resize-Growable_example :
    (validate_disk_resize plan ≡ []) ↔ All (Growable plan) (expand [] plan.disk_resize)
validate_disk_resize-Growable_example = validate_disk_resize-Growable plan

-- A name in the raw entries passes, as `name` is no typed key; `numa` does not.
abbrev raw_name : Value (MapOf (Value Text))
raw_name = known ((codes "name", known (codes "other")) ∷ [])

unseen : validate_raw_conflicts state raw_name ≡ []
unfolding validate_raw_conflicts
unseen = refl

abbrev raw_numa : Value (MapOf (Value Text))
raw_numa = known ((codes "numa", known (codes "1")) ∷ [])

refused : validate_raw_conflicts state raw_numa ≢ []
unfolding validate_raw_conflicts
refused = λ e. cc

validate_raw_conflicts-Disjoint_example :
    (validate_raw_conflicts state raw_name ≡ []) ↔ Accepts state raw_name
validate_raw_conflicts-Disjoint_example = validate_raw_conflicts-Disjoint state raw_name
