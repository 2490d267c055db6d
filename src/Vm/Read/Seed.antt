-- ===== src/Vm/Read/Seed.antt =====
-- QemuVMResource.Read of internal/provider/resource_qemu_vm.go: what it may record of a seed.
use terraform_provider_proxm.Prelude.{
  ◌≡◌, ◌≢◌, ◌⊎◌, ◌+◌, refl, sym, ap, Bool, true, false, not, ◌&&◌, Option, none, some, List, [],
  ◌∷◌, inl, inr, if◌then◌else◌,
}
use terraform_provider_proxm.Int.{eqz}
use terraform_provider_proxm.Text.{Text, text_eq, is_empty}
use terraform_provider_proxm.Text.Equal.{text_eq→eq}
use terraform_provider_proxm.Config.{Float64}
use terraform_provider_proxm.Client.Error.{Error, Result, ok, err, is_not_found}
use terraform_provider_proxm.Client.Task.{task_owner_node}
use terraform_provider_proxm.Vm.Identity.{owned_names, owns_guest}
use terraform_provider_proxm.Vm.Model.{QemuVmModel, nocloud_slot_value}
use terraform_provider_proxm.Vm.SeedUpdate.{SeedAttachment}
use terraform_provider_proxm.Vm.World.{
  GuestConfig, classified, config_read, status_read, foreign_warned, Server, World, record_event,
  config_reply, reconcile_pending_task, finished_reply, classify_owner, and_then,
}
use terraform_provider_proxm.Vm.Read.{
  Outcome, removed, refreshed, node, vm_id, with_status, with_config, observed_seed, is_confirmed,
  confirm_pending, refresh_seed, has_rename, settle_rename, set_name, read_found, read_settled,
  read_classified, read,
}

-- A seed as it was, or as it was to become.
abbrev pub Confirms : SeedAttachment → SeedAttachment → Type 0
Confirms before after =
    (after ≡ before)
    ⊎ ((before.pending ≢ []) × (after ≡ record before { volume = before.pending; pending = [] }))

and_parts : (a b : Bool) → (a && b) ≡ true → (a ≡ true) × (b ≡ true)
and_parts true b h = (refl, h)
and_parts false b h = cc

some_text : (s : Text) → not (is_empty s) ≡ true → s ≢ []
some_text [] h = cc
some_text (c ∷ s) h = λ e. cc

module _ {F : Float64} (server : Server) (state : QemuVmModel F) where
  last_part :
      (history observed : SeedAttachment)
      → is_confirmed server state history observed ≡ true
      → text_eq history.pending observed.volume ≡ true
  last_part history observed h =
      (and_parts
        (text_eq history.node observed.node
          && eqz history.vm_id observed.vm_id
          && text_eq history.slot observed.slot)
        (text_eq history.pending observed.volume) h).1

  confirm_pending-Confirms :
      (history observed : SeedAttachment)
      → Confirms history (confirm_pending server state history observed)
  confirm_pending-Confirms history observed =
      by_test (not (is_empty history.pending) && is_confirmed server state history observed) refl
    where
      by_test :
          (b : Bool)
          → (not (is_empty history.pending) && is_confirmed server state history observed) ≡ b
          → Confirms history
              (if b then record history { volume = observed.volume; pending = [] } else history)
      by_test false e = inl refl
      by_test true e =
          let parts =
            and_parts (not (is_empty history.pending)) (is_confirmed server state history observed)
              e in
          let volume_e =
            text_eq→eq history.pending observed.volume (last_part history observed parts.1) in
          inr (
            some_text history.pending parts.0,
            ap (λ v. record history { volume = v; pending = [] }) (sym volume_e),
          )

  refresh_seed-Confirms :
      (config : GuestConfig) (w : World) → Confirms w.seed (refresh_seed server state config w).seed
  unfolding refresh_seed
  refresh_seed-Confirms config w = by_marker (is_empty (nocloud_slot_value state))
    where
      by_marker :
          (b : Bool)
          → Confirms w.seed
              (if◌then◌else◌ {A = World} b w (record w {
                seed = confirm_pending server state w.seed (observed_seed server state config);
              })).seed
      by_marker true = inl refl
      by_marker false = confirm_pending-Confirms w.seed (observed_seed server state config)

  found-Confirms :
      (owned : List Text) (found : Option GuestConfig) (w : World)
      → Confirms w.seed (read_found server state owned found w).1.seed
  found-Confirms owned none w = inl refl
  found-Confirms owned (some config) w = by_name (owns_guest owned config.name)
    where
      by_name :
          (b : Bool)
          → Confirms w.seed
              (if◌then◌else◌ {A = Result Outcome × World} b
                (
                  ok refreshed,
                  set_name server state config.name
                      (refresh_seed server state config (settle_rename server state owned w)),
                )
                (ok removed, record_event foreign_warned w)).1.seed
      by_name false = inl refl
      by_name true = by_rename (has_rename server state owned)
        where
          by_rename :
              (b : Bool)
              → Confirms w.seed
                  (refresh_seed server state config
                    (if◌then◌else◌ {A = World} b (record w { pending_name = [] }) w)).seed
          by_rename true = refresh_seed-Confirms config (record w { pending_name = [] })
          by_rename false = refresh_seed-Confirms config w

  missing-Confirms :
      (owned : List Text) (e : Error) (w : World) (b : Bool)
      → Confirms w.seed
          (and_then
            (if◌then◌else◌ {A = Result (Option GuestConfig)} b (ok none) (err e), w)
            (read_found server state owned)).1.seed
  missing-Confirms owned e w true = inl refl
  missing-Confirms owned e w false = inl refl

  config-Confirms :
      (owned : List Text) (w : World) (c : Result GuestConfig)
      → Confirms w.seed
          (and_then
            (with_config server state (c, record_event (config_read c) w))
            (read_found server state owned)).1.seed
  config-Confirms owned w (err e) =
      missing-Confirms owned e (record_event (config_read (err e)) w) (is_not_found e)
  config-Confirms owned w (ok config) =
      by_status (server.get_status (config_read (ok config) ∷ w.log))
    where
      by_status :
          (s : Result Text)
          → Confirms w.seed
              (and_then
                (with_status server state config
                  (s, record_event (status_read s) (record_event (config_read (ok config)) w)))
                (read_found server state owned)).1.seed
      by_status (ok status) = found-Confirms owned (some config) _
      by_status (err e) =
          missing-Confirms owned e
            (record_event (status_read (err e)) (record_event (config_read (ok config)) w))
            (is_not_found e)

  read_settled-Confirms : (w : World) → Confirms w.seed (read_settled server state w).1.seed
  read_settled-Confirms w =
      config-Confirms (owned_names state.name w.pending_name) w
        (config_reply (node server state) (vm_id server state) (server.get_config w.log))

  -- Whatever the server answers, Read leaves the seed's history as it was, or, if it had a pending volume,
  -- records that very volume as attached and none as pending.
  pub read-Confirms : (w : World) → Confirms w.seed (read server state w).1.seed
  unfolding read reconcile_pending_task
  read-Confirms w = by_pending w.pending_task
    where
      by_pending :
          (upid : Text)
          → Confirms w.seed
              (if◌then◌else◌ {A = Result Outcome × World}
                (is_empty upid)
                (read_settled server state w)
                (and_then
                  (reconcile_pending_task server upid w)
                  (read_classified server state))).1.seed
      by_pending [] = read_settled-Confirms w
      by_pending (c ∷ upid) = by_owner (task_owner_node (c ∷ upid))
        where
          by_owner :
              (owner : Result Text)
              → Confirms w.seed
                  (and_then
                    (classify_owner server (c ∷ upid) owner w)
                    (read_classified server state)).1.seed
          by_owner (err e) = inl refl
          by_owner (ok owner) =
              by_result
                (finished_reply server (c ∷ upid) (server.poll owner (c ∷ upid) w.now).reply)
            where
              by_result :
                  (r : Result Bool)
                  → Confirms w.seed
                      (and_then
                        (
                          r,
                          record w {
                            now = w.now + (server.poll owner (c ∷ upid) w.now).latency;
                            log = classified (c ∷ upid) r ∷ w.log;
                          },
                        )
                        (read_classified server state)).1.seed
              by_result (err e) = inl refl
              by_result (ok false) = inl refl
              by_result (ok true) = read_settled-Confirms _
