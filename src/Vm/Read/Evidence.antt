-- ===== src/Vm/Read/Evidence.antt =====
-- QemuVMResource.Read of internal/provider/resource_qemu_vm.go: what it takes to drop the resource.
use terraform_provider_proxm.Prelude.{
  ◌≡◌, ◌+◌, refl, ap, Bool, true, false, not, Option, none, List, [], ◌∷◌, if◌then◌else◌,
}
use terraform_provider_proxm.Text.{Text, is_empty}
use terraform_provider_proxm.Config.{Float64}
use terraform_provider_proxm.Client.Error.{Error, Result, ok, err, is_not_found}
use terraform_provider_proxm.Client.Task.{task_owner_node}
use terraform_provider_proxm.Vm.Identity.{owned_names, owns_guest}
use terraform_provider_proxm.Vm.Model.{QemuVmModel}
use terraform_provider_proxm.Vm.World.{
  GuestConfig, Log, classified, config_read, status_read, foreign_warned, Server, World,
  record_event, config_reply, reconcile_pending_task, finished_reply, classify_owner, and_then,
}
use terraform_provider_proxm.Vm.Read.{
  Outcome, removed, refreshed, node, vm_id, with_status, with_config, read_found, read_settled,
  read_classified, read,
}

-- The newest events show that the guest is gone, or that another one has its VMID.
abbrev pub shows_absence : List Text → Log → Bool
shows_absence owned (config_read (err e) ∷ log) = is_not_found e
shows_absence owned (status_read (err e) ∷ log) = is_not_found e
shows_absence owned (foreign_warned ∷ (status_read (ok status) ∷ (config_read (ok config) ∷ log))) =
    not (owns_guest owned config.name)
shows_absence owned _ = false

-- What a run that drops the resource leaves.
pub record Absent (owned : List Text) (w : World) : Type 0 where
  pub settled : w.pending_task ≡ []
  pub shown : shows_absence owned w.log ≡ true

-- A result that drops the resource does so on evidence.
abbrev Sound : List Text → Result Outcome × World → Type 0
Sound owned r = r.0 ≡ ok removed → Absent owned r.1

module _ {F : Float64} (server : Server) (state : QemuVmModel F) where
  missing-Sound :
      (owned : List Text) (e : Error) (w : World)
      → w.pending_task ≡ []
      → (b : Bool) → (b ≡ true → shows_absence owned w.log ≡ true)
      → Sound owned (
          and_then
            (if◌then◌else◌ {A = Result (Option GuestConfig)} b (ok none) (err e), w)
            (read_found server state owned))
  missing-Sound owned e w h true f r = record { settled = h; shown = f refl }
  missing-Sound owned e w h false f r = cc

  foreign-Sound :
      (owned : List Text) (config : GuestConfig) (status : Text) (w : World)
      → w.pending_task ≡ []
      → (b : Bool) → owns_guest owned config.name ≡ b
      → (w' : World)
      → Sound owned (
          if◌then◌else◌ {A = Result Outcome × World} b
            (ok refreshed, w')
            (
              ok removed,
              record_event foreign_warned (
                  record_event
                    (status_read (ok status))
                    (record_event (config_read (ok config)) w)),
            ))
  foreign-Sound owned config status w h true by_name w' r = cc
  foreign-Sound owned config status w h false by_name w' r = record {
    settled = h;
    shown = ap not by_name;
  }

  config-Sound :
      (owned : List Text) (w : World)
      → w.pending_task ≡ []
      → (c : Result GuestConfig)
      → Sound owned (
          and_then
            (with_config server state (c, record_event (config_read c) w))
            (read_found server state owned))
  config-Sound owned w h (err e) =
      missing-Sound owned e (record_event (config_read (err e)) w) h (is_not_found e) (λ x. x)
  config-Sound owned w h (ok config) =
      status-Sound (server.get_status (config_read (ok config) ∷ w.log))
    where
      status-Sound :
          (s : Result Text)
          → Sound owned (
              and_then
                (with_status server state config
                  (s, record_event (status_read s) (record_event (config_read (ok config)) w)))
                (read_found server state owned))
      status-Sound (err e) =
          missing-Sound owned e
            (record_event (status_read (err e)) (record_event (config_read (ok config)) w)) h
            (is_not_found e) (λ x. x)
      status-Sound (ok status) =
          foreign-Sound owned config status w h (owns_guest owned config.name) refl _

  read_settled-Sound :
      (w : World)
      → w.pending_task ≡ []
      → Sound (owned_names state.name w.pending_name) (read_settled server state w)
  read_settled-Sound w h =
      config-Sound (owned_names state.name w.pending_name) w h
        (config_reply (node server state) (vm_id server state) (server.get_config w.log))

  -- When Read drops the guest from the state, no create or clone task is pending any more, and the newest
  -- events of the log show why: the configuration or the status was not found, or the guest that was read
  -- has none of the names that the resource owned at the start, of which a warning tells.
  pub read-Absent :
      (w : World)
      → (read server state w).0 ≡ ok removed
      → Absent (owned_names state.name w.pending_name) (read server state w).1
  unfolding read reconcile_pending_task
  read-Absent w = by_pending w.pending_task refl
    where
      by_pending :
          (upid : Text)
          → w.pending_task ≡ upid
          → Sound (owned_names state.name w.pending_name) (
              if◌then◌else◌ {A = Result Outcome × World}
                (is_empty upid)
                (read_settled server state w)
                (and_then (reconcile_pending_task server upid w) (read_classified server state)))
      by_pending [] e = read_settled-Sound w e
      by_pending (c ∷ upid) e = by_owner (task_owner_node (c ∷ upid))
        where
          by_owner :
              (owner : Result Text)
              → Sound (owned_names state.name w.pending_name) (
                  and_then
                    (classify_owner server (c ∷ upid) owner w)
                    (read_classified server state))
          by_owner (err e) = cc
          by_owner (ok owner) =
              by_result
                (finished_reply server (c ∷ upid) (server.poll owner (c ∷ upid) w.now).reply)
            where
              by_result :
                  (r : Result Bool)
                  → Sound (owned_names state.name w.pending_name) (
                      and_then
                        (
                          r,
                          record w {
                            now = w.now + (server.poll owner (c ∷ upid) w.now).latency;
                            log = classified (c ∷ upid) r ∷ w.log;
                          },
                        )
                        (read_classified server state))
              by_result (err e) = cc
              by_result (ok false) = cc
              by_result (ok true) = read_settled-Sound _ refl
