-- ===== src/Vm/Update/Named.antt =====
-- QemuVMResource.Update of internal/provider/resource_qemu_vm.go: the name in the request that it builds.
use terraform_provider_proxm.Prelude.{
  ◌≡◌, refl, sym, ap, Bool, true, ◌&&◌, Option, none, List, [], ◌∷◌, Bool-cases, inl, inr,
}
use terraform_provider_proxm.Text.{Text, codes, text_eq, is_empty}
use terraform_provider_proxm.Value.{pointer_value}
use terraform_provider_proxm.Config.{Float64}
use terraform_provider_proxm.Diagnostic.{Diagnostic}
use terraform_provider_proxm.Client.Error.{Result, ok, err}
use terraform_provider_proxm.Vm.Slots.{put}
use terraform_provider_proxm.Vm.Request.{QemuVmConfigRequest}
use terraform_provider_proxm.Vm.Request.Name.{
  lacks_name, all_lack_name, leaves_name, and_parts, lacks_name_put,
}
use terraform_provider_proxm.Vm.Model.{QemuVmModel}
use terraform_provider_proxm.Vm.ConfigRequest.{
  unless_refused, request_of, config_request_from_model,
}
use terraform_provider_proxm.Vm.SeedUpdate.{at_key}
use terraform_provider_proxm.Vm.World.{
  GuestConfig, status_read, Server, World, record_event, and_then,
}
use terraform_provider_proxm.Vm.Resize.Size.{Arithmetic}
use terraform_provider_proxm.Vm.Update.{
  Exchange, concerns_seed, of_built, narrow_built, narrow_request, update_request,
}
use terraform_provider_proxm.Vm.Update.Apply.{
  guard_digest, guard_stopped, guard_seed, build_request,
}
use terraform_provider_proxm.Vm.Update.Stages.{Post, Post-then}

abbrev pub Any : World → Type 0
Any w = Unit

-- No map of the request, if there is one, has an entry for the name.
abbrev pub leaves_names : (F : Float64) → Result (QemuVmConfigRequest F) → Bool
leaves_names F (ok r) = leaves_name F r
leaves_names F (err e) = true

-- A request that gives the planned name, if there is one.
abbrev pub Names : {F : Float64} → QemuVmModel F → QemuVmConfigRequest F → Type 0
Names {F} plan r = (leaves_name F r ≡ true) × (r.name ≡ pointer_value plan.name)

with_digest-Names :
    {F : Float64} (plan : QemuVmModel F) (digest : Text) (r : QemuVmConfigRequest F)
    → Names plan r
    → Names plan (record r { extra_config = put (codes "digest") digest r.extra_config })
with_digest-Names plan digest r (l, m) =
    let (a, rest) =
      and_parts (all_lack_name (r.ip_config ∷ r.network ∷ r.disk ∷ r.serial ∷ []))
        (all_lack_name (r.host_pci ∷ r.usb ∷ r.rng ∷ r.virtiofs ∷ []) && lacks_name r.extra_config)
        l in
    let (b, c) =
      and_parts (all_lack_name (r.host_pci ∷ r.usb ∷ r.rng ∷ r.virtiofs ∷ []))
        (lacks_name r.extra_config) rest in
    (rw (a, b) (lacks_name_put (codes "digest") digest r.extra_config refl c), m)

abbrev name_in : {F : Float64} → Result (QemuVmConfigRequest F) → Option Text
name_in (ok r) = r.name
name_in (err e) = none

config_request-name :
    {F : Float64} (plan : QemuVmModel F) (r : QemuVmConfigRequest F)
    → of_built (config_request_from_model plan) ≡ ok r
    → r.name ≡ pointer_value plan.name
unfolding config_request_from_model request_of
config_request-name {F} plan r h = by_diagnostics _ h
  where
    by_diagnostics :
        (ds : List Diagnostic)
        → of_built (unless_refused ds (request_of plan)) ≡ ok r
        → r.name ≡ pointer_value plan.name
    by_diagnostics [] e = sym (ap name_in e)
    by_diagnostics (d ∷ ds) e = cc

module _ {F : Float64} (A : Arithmetic F) (server : Server) (plan state : QemuVmModel F) where
  update_request-Names :
      (w : World)
      → leaves_names F (update_request plan state) ≡ true
      → Post (λ r _. Names plan r) Any (update_request plan state, w)
  unfolding update_request narrow_request
  update_request-Names w h =
      by_built (of_built (config_request_from_model plan))
        (of_built (config_request_from_model state)) (config_request-name plan) h
    where
      by_built :
          (p q : Result (QemuVmConfigRequest F))
          → ((r : QemuVmConfigRequest F) → p ≡ ok r → r.name ≡ pointer_value plan.name)
          → leaves_names F (narrow_built p q) ≡ true
          → Post (λ r _. Names plan r) Any (narrow_built p q, w)
      by_built (err e) q n l = tt
      by_built (ok r) (err e) n l = tt
      by_built (ok r) (ok prior) n l = (l, n r refl)

  guard_digest-Names :
      (e : Exchange) (current : GuestConfig) (r : QemuVmConfigRequest F) (w : World)
      → Names plan r
      → Post (λ x _. Names plan x) Any (guard_digest A server plan state e current r w)
  guard_digest-Names e current r w h =
      elim (Bool-cases (is_empty (at_key current.extra_config (codes "digest")))) [
        | inl x ↦ rw x tt
        | inr x ↦ rw x (with_digest-Names plan (at_key current.extra_config (codes "digest")) r h)
      ]

  guard_stopped-Names :
      (e : Exchange) (current : GuestConfig) (r : QemuVmConfigRequest F) (status : Text) (w : World)
      → Names plan r
      → Post (λ x _. Names plan x) Any (guard_stopped A server plan state e current r status w)
  guard_stopped-Names e current r status w h =
      elim (Bool-cases (text_eq status (codes "stopped"))) [
        | inl x ↦ rw x (guard_digest-Names e current r w h)
        | inr x ↦ rw x tt
      ]

  guard_seed-Names :
      (e : Exchange) (current : GuestConfig) (r : QemuVmConfigRequest F) (w : World)
      → Names plan r
      → Post (λ x _. Names plan x) Any (guard_seed A server plan state e current r w)
  unfolding guard_seed
  guard_seed-Names e current r w h = elim (Bool-cases (concerns_seed e)) [
    | inl x ↦ rw x (by_reply (server.get_status w.log))
    | inr x ↦ rw x h
  ]
    where
      by_reply :
          (reply : Result Text)
          → Post
              (λ x _. Names plan x)
              Any
              (and_then
                (reply, record_event (status_read reply) w)
                (guard_stopped A server plan state e current r))
      by_reply (err x) = tt
      by_reply (ok status) =
          guard_stopped-Names e current r status (record_event (status_read (ok status)) w) h

  pub build_request-Names :
      (e : Exchange) (current : GuestConfig) (w : World)
      → leaves_names F (update_request plan state) ≡ true
      → Post (λ r _. Names plan r) Any (build_request A server plan state e current w)
  build_request-Names e current w l =
      Post-then (λ r _. Names plan r) (λ r _. Names plan r) Any (update_request plan state, w)
        (guard_seed A server plan state e current) (update_request-Names w l)
        (λ r w1 h. guard_seed-Names e current r w1 h)
