-- ===== src/Vm/Update/Ordered.antt =====
-- QemuVMResource.Update of internal/provider/resource_qemu_vm.go, stage by stage under the monitor.
use terraform_provider_proxm.Prelude.{
  ℕ, ◌≡◌, refl, sym, ap, subst, ◌∙◌, Bool, true, false, not, ◌&&◌, ◌||◌, List, [], ◌∷◌, Bool-cases,
  inl, inr,
}
use terraform_provider_proxm.Text.{Text, codes, text_eq, is_empty}
use terraform_provider_proxm.Text.Equal.{text_eq→eq}
use terraform_provider_proxm.Value.{Value, null, unknown, known}
use terraform_provider_proxm.Config.{Float64}
use terraform_provider_proxm.Client.Error.{Result, ok, err, is_not_found}
use terraform_provider_proxm.Client.Task.{validate_qemu_task_ack, is_task}
use terraform_provider_proxm.Client.Task.Ack.{validate_qemu_task_ack_names}
use terraform_provider_proxm.Vm.Delete.Monitor.{posted}
use terraform_provider_proxm.Vm.Delete.Settle.{succeeds_itself}
use terraform_provider_proxm.Vm.Identity.{owned_names, owns_guest}
use terraform_provider_proxm.Vm.World.{
  GuestConfig, Log, awaited, config_read, status_read, config_put, start_posted, shutdown_posted,
  Server, World, record_event, config_reply, and_then, await_on, acked, shutdown_reply, start_reply,
  shutdown_qemu_vm, start_qemu_vm,
}
use terraform_provider_proxm.Vm.Request.{
  Form, QemuVmConfigRequest, encode_qemu_vm_fields, empty_form,
}
use terraform_provider_proxm.Vm.SeedUpdate.{at_key}
use terraform_provider_proxm.Vm.Model.{QemuVmModel, nocloud_slot_value}
use terraform_provider_proxm.Vm.Resize.Size.{Arithmetic}
use terraform_provider_proxm.Vm.Resize.{resize_disks}
use terraform_provider_proxm.Vm.Resize.Rule.{resize_disks_keeps}
use terraform_provider_proxm.Vm.Update.{
  Exchange, concerns_seed, powered_on, is_rename, update_request, check_owned, read_current,
  seed_stage, power_to, power_stage, shut_down, shutdown_timeout, reconcile, state_node, state_id,
}
use terraform_provider_proxm.Vm.Update.Apply.{
  node, vm_id, guard_digest, guard_stopped, guard_seed, note_rename, record_rename, put_stage,
  is_unconfirmed, confirm_seed, verify_seed, start_after, refresh_status, refresh_config, refresh,
  after_resize, after_seed, after_put, apply_request, build_request, update_powered, update_checked,
  update_read, update,
}
use terraform_provider_proxm.Vm.Update.Monitor.{Watch, wants_stop, watch}
use terraform_provider_proxm.Vm.Update.Stages.{
  Post, Post-then, Post-keeps, Post-world, seed_stage_keeps,
}

or_true : (b : Bool) → (b || true) ≡ true
or_true true = refl
or_true false = refl

module _ {F : Float64} (A : Arithmetic F) (server : Server) (plan state : QemuVmModel F)
    (owned : List Text) where
  abbrev seen : World → Watch
  seen w = watch owned plan.power w.log

  abbrev Unsent : World → Type 0
  Unsent w = ((seen w).violated ≡ false) × ((seen w).sent ≡ false)

  abbrev Before : World → Type 0
  Before w = ((seen w).owned ≡ true) × Unsent w

  abbrev Ready : World → Type 0
  Ready w = Before w × (((seen w).halted || not (wants_stop plan.power)) ≡ true)

  abbrev Kept : World → Type 0
  Kept w = (seen w).violated ≡ false

  abbrev Written : World → Type 0
  Written w = Kept w × ((seen w).written ≡ true)

  read_current-Before :
      (w : World)
      → owned_names state.name w.pending_name ≡ owned
      → Unsent w
      → Post (λ _. Before) Kept (read_current A server plan state w)
  unfolding read_current
  read_current-Before w own h = by_reply (
      config_reply (state_node A server plan state) (state_id A server plan state)
        (server.get_config w.log))
    where
      by_reply :
          (reply : Result GuestConfig)
          → Post
              (λ _. Before)
              Kept
              (and_then
                (reply, record_event (config_read reply) w)
                (check_owned A server plan state))
      by_reply (err e) = h.0
      by_reply (ok config) = elim (Bool-cases (owns_guest owned config.name)) [
        | inl e ↦ rw (own, e) (e, h)
        | inr e ↦ rw (own, e) h.0
      ]

  awaited_halts :
      (upid : Text) (r : Result (Unit {0})) (time : ℕ) (w : World)
      → Before w
      → (seen w).stopping ≡ true
      → (seen w).task ≡ upid
      → is_task upid ≡ true
      → Post
          (λ _. Ready)
          Kept
          (and_then
            (r, record w { now = time; log = awaited upid r ∷ w.log })
            (λ _ w1. (ok false, w1)))
  awaited_halts upid (ok x) time w b s same names =
      rw s (b, rw (succeeds_itself (seen w).task upid (ok x) same names refl) refl)
  awaited_halts upid (err e) time w b s same names = rw s b.1.0

  shutdown_halts :
      (reply : Result Text) (w : World)
      → Before w
      → (seen w).stopping ≡ true
      → (seen w).task ≡ posted reply
      → Post
          (λ _. Ready)
          Kept
          (and_then
            (shutdown_reply server (node A server plan state) (vm_id A server plan state) reply w)
            (λ _ w1. (ok false, w1)))
  unfolding await_on
  shutdown_halts (err e) w b s same = b.1.0
  shutdown_halts (ok upid) w b s same = by_ack _ (validate_qemu_task_ack upid _) refl
    where
      by_ack :
          (what : Text) (ack : Result (Unit {0}))
          → validate_qemu_task_ack upid what ≡ ack
          → Post
              (λ _. Ready)
              Kept
              (and_then
                (acked server (node A server plan state) upid ack what w)
                (λ _ w1. (ok false, w1)))
      by_ack what (err e) acks = b.1.0
      by_ack what (ok _) acks =
          awaited_halts upid _ _ w b s same (validate_qemu_task_ack_names upid what acks)

  shut_down-Ready :
      (w : World) → Before w → Post (λ _. Ready) Kept (shut_down A server plan state w)
  unfolding shutdown_qemu_vm
  shut_down-Ready w b =
      let timeout = shutdown_timeout A server plan state plan.power_shutdown_timeout in
      let reply = server.post_shutdown timeout w.log in
      shutdown_halts reply (record_event (shutdown_posted timeout reply) w) b refl refl

  unwanted :
      (c : Bool) (power : Value Bool)
      → plan.power ≡ power
      → wants_stop power ≡ false
      → (c || not (wants_stop plan.power)) ≡ true
  unwanted c power e h = rw (e, h) (or_true c)

  reconcile-Ready :
      (power : Bool) (status : Text) (w : World)
      → plan.power ≡ known power
      → Before w
      → (seen w).halted ≡ not (powered_on status)
      → Post (λ _. Ready) Kept (reconcile A server plan state power status w)
  reconcile-Ready true status w e b s = (b, unwanted (seen w).halted (known true) e refl)
  reconcile-Ready false status w e b s = elim (Bool-cases (powered_on status)) [
    | inl on ↦ rw on (shut_down-Ready w b)
    | inr off ↦ rw off (b, ready (seen w).halted (s ∙ ap not off))
  ]
    where
      ready : (c : Bool) → c ≡ true → (c || not (wants_stop plan.power)) ≡ true
      ready c x = rw x refl

  power_to-Ready :
      (power : Value Bool) (w : World)
      → plan.power ≡ power
      → Before w
      → Post (λ _. Ready) Kept (power_to A server plan state power w)
  power_to-Ready null w e b = (b, unwanted (seen w).halted null e refl)
  power_to-Ready unknown w e b = (b, unwanted (seen w).halted unknown e refl)
  power_to-Ready (known power) w e b = by_reply (server.get_status w.log)
    where
      by_reply :
          (reply : Result Text)
          → Post
              (λ _. Ready)
              Kept
              (and_then
                (reply, record_event (status_read reply) w)
                (reconcile A server plan state power))
      by_reply (err x) = b.1.0
      by_reply (ok status) =
          reconcile-Ready power status (record_event (status_read (ok status)) w) e b refl

  stopped-off :
      (status : Text) → text_eq status (codes "stopped") ≡ true → not (powered_on status) ≡ true
  stopped-off status h =
      subst (λ s. not (powered_on s) ≡ true) (sym (text_eq→eq status (codes "stopped") h)) refl

  guard_digest-Ready :
      (e : Exchange) (current : GuestConfig) (r : QemuVmConfigRequest F) (w : World)
      → Ready w
      → Post (λ _. Ready) Kept (guard_digest A server plan state e current r w)
  guard_digest-Ready e current r w h =
      elim (Bool-cases (is_empty (at_key current.extra_config (codes "digest")))) [
        | inl x ↦ rw x h.0.1.0
        | inr x ↦ elim (Bool-cases e.swap) [ inl s ↦ rw (x, s) h | inr s ↦ rw (x, s) h ]
      ]

  guard_stopped-Ready :
      (e : Exchange) (current : GuestConfig) (r : QemuVmConfigRequest F) (status : Text) (w : World)
      → Before w
      → (seen w).halted ≡ not (powered_on status)
      → Post (λ _. Ready) Kept (guard_stopped A server plan state e current r status w)
  guard_stopped-Ready e current r status w b s =
      elim (Bool-cases (text_eq status (codes "stopped"))) [
        | inl x ↦
            rw x (
              guard_digest-Ready e current r w
                (b, ready (seen w).halted (s ∙ stopped-off status x)))
        | inr x ↦ rw x b.1.0
      ]
    where
      ready : (c : Bool) → c ≡ true → (c || not (wants_stop plan.power)) ≡ true
      ready c x = rw x refl

  guard_seed-Ready :
      (e : Exchange) (current : GuestConfig) (r : QemuVmConfigRequest F) (w : World)
      → Ready w
      → Post (λ _. Ready) Kept (guard_seed A server plan state e current r w)
  unfolding guard_seed
  guard_seed-Ready e current r w h = elim (Bool-cases (concerns_seed e)) [
    | inl x ↦ rw x (by_reply (server.get_status w.log))
    | inr x ↦ rw x h
  ]
    where
      by_reply :
          (reply : Result Text)
          → Post
              (λ _. Ready)
              Kept
              (and_then
                (reply, record_event (status_read reply) w)
                (guard_stopped A server plan state e current r))
      by_reply (err x) = h.0.1.0
      by_reply (ok status) =
          guard_stopped-Ready e current r status (record_event (status_read (ok status)) w) h.0 refl

  note_rename-log : (w : World) → (note_rename A server plan state w).log ≡ w.log
  note_rename-log w = elim (Bool-cases (is_rename plan.name state.name)) [
    | inl e ↦ rw e refl
    | inr e ↦ rw e refl
  ]

  record_rename-log : (w : World) → (record_rename A server plan state w).log ≡ w.log
  record_rename-log w = elim (Bool-cases (is_rename plan.name state.name)) [
    | inl e ↦ rw e refl
    | inr e ↦ rw e refl
  ]

  -- A PUT to a ready guest breaks no rule.
  put_allowed :
      (m : Watch)
      → (m.owned ≡ true) × ((m.violated ≡ false) × (m.sent ≡ false))
      → ((m.halted || not (wants_stop plan.power)) ≡ true)
      → (m.violated || not (m.owned && (m.halted || not (wants_stop plan.power)) && not m.sent))
        ≡ false
  put_allowed m (o, (v, s)) r = rw (v, o, r, s) refl

  put_stage-Written :
      (r : QemuVmConfigRequest F) (w : World)
      → Ready w
      → Post (λ _. Written) Kept (put_stage A server plan state r w)
  unfolding put_stage
  put_stage-Written r w h =
      let form = encode_qemu_vm_fields F r empty_form in
      by_reply form (server.put_config form (note_rename A server plan state w).log)
    where
      by_reply :
          (form : Form) (reply : Result (Unit {0}))
          → Post {A = Unit {0}}
              (λ _. Written)
              Kept
              (and_then
                (reply, record_event (config_put form reply) (note_rename A server plan state w))
                (λ _ w1. (ok tt, record_rename A server plan state w1)))
      by_reply form (err e) =
          subst (λ l. (watch owned plan.power (config_put form (err e) ∷ l)).violated ≡ false)
            (sym (note_rename-log w)) (put_allowed (seen w) h.0 h.1)
      by_reply form (ok x) =
          let sent = record_event (config_put form (ok x)) (note_rename A server plan state w) in
          subst
            (λ l.
              ((watch owned plan.power l).violated ≡ false)
              × ((watch owned plan.power l).written ≡ true))
            (sym (record_rename-log sent))
            (
              subst (λ l. (watch owned plan.power (config_put form (ok x) ∷ l)).violated ≡ false)
                  (sym (note_rename-log w)) (put_allowed (seen w) h.0 h.1),
              refl,
            )

  -- Waits, reads, resizes and starts after an accepted PUT break no rule.
  awaited-Written :
      (upid : Text) (r : Result (Unit {0})) (time : ℕ) (w : World)
      → Written w
      → Written (record w { now = time; log = awaited upid r ∷ w.log })
  awaited-Written upid r time w h = elim (Bool-cases (seen w).stopping) [
    | inl e ↦ rw e h
    | inr e ↦ rw e h
  ]

  after_written :
      (m : Watch)
      → (m.violated ≡ false) × (m.written ≡ true)
      → (m.violated || not m.written) ≡ false
  after_written m (v, s) = rw (v, s) refl

  resize_disks-Written :
      (w : World)
      → Written w
      → Post
          (λ _. Written)
          Kept
          (resize_disks A server
            (node A server plan state)
            (vm_id A server plan state)
            plan.disk_resize
            w)
  resize_disks-Written w h =
      Post-keeps Written Kept _ (λ x y. y.0)
        (resize_disks_keeps A server (node A server plan state) (vm_id A server plan state) Written
          awaited-Written (λ r x y. y)
          (λ slot gib digest reply x y. (after_written (seen x) y, y.1)) plan.disk_resize w h)

  confirm_seed-Written :
      (e : Exchange) (live : GuestConfig) (w : World)
      → Written w
      → Post (λ _. Written) Kept (confirm_seed A server plan state e live w)
  confirm_seed-Written e live w h =
      elim (Bool-cases
        (is_unconfirmed A server plan state e (at_key live.disk (nocloud_slot_value plan)))) [
          | inl x ↦ rw x h.0
          | inr x ↦ rw x h
        ]

  verify_seed-Written :
      (e : Exchange) (w : World)
      → Written w
      → Post (λ _. Written) Kept (verify_seed A server plan state e w)
  unfolding verify_seed
  verify_seed-Written e w h = elim (Bool-cases (concerns_seed e)) [
    | inl x ↦ rw x (
        by_reply (
          config_reply (node A server plan state) (vm_id A server plan state)
            (server.get_config w.log)))
    | inr x ↦ rw x h
  ]
    where
      by_reply :
          (reply : Result GuestConfig)
          → Post
              (λ _. Written)
              Kept
              (and_then
                (reply, record_event (config_read reply) w)
                (confirm_seed A server plan state e))
      by_reply (err x) = h.0
      by_reply (ok live) = confirm_seed-Written e live (record_event (config_read (ok live)) w) h

  start_reply-Written :
      (reply : Result Text) (w : World)
      → Written w
      → Post
          (λ _. Written)
          Kept
          (start_reply server (node A server plan state) (vm_id A server plan state) reply w)
  unfolding await_on
  start_reply-Written (err e) w h = h.0
  start_reply-Written (ok upid) w h = by_ack _ (validate_qemu_task_ack upid _)
    where
      by_ack :
          (what : Text) (ack : Result (Unit {0}))
          → Post (λ _. Written) Kept (acked server (node A server plan state) upid ack what w)
      by_ack what (err e) = h.0
      by_ack what (ok _) =
          Post-keeps Written Kept (await_on server (node A server plan state) upid w) (λ x y. y.0)
            (awaited-Written upid (await_on server (node A server plan state) upid w).0
              (await_on server (node A server plan state) upid w).1.now w h)

  start_after-Written :
      (start : Bool) (w : World)
      → Written w
      → Post (λ _. Written) Kept (start_after A server plan state start w)
  unfolding start_qemu_vm
  start_after-Written false w h = h
  start_after-Written true w h =
      let reply = server.post_start w.log in
      start_reply-Written reply (record_event (start_posted reply) w)
        (after_written (seen w) h, h.1)

  refresh_status-Kept :
      (config : GuestConfig) (reply : Result Text) (w : World)
      → Kept w
      → Post (λ _. Kept) Kept (refresh_status A server plan state config (reply, w))
  refresh_status-Kept config (ok status) w h = h
  refresh_status-Kept config (err e) w h = elim (Bool-cases (is_not_found e)) [
    | inl x ↦ rw x h
    | inr x ↦ rw x h
  ]

  refresh-Kept : (w : World) → Kept w → Post (λ _. Kept) Kept (refresh A server plan state w)
  refresh-Kept w h = by_reply (
      config_reply (node A server plan state) (vm_id A server plan state) (server.get_config w.log))
    where
      by_reply :
          (reply : Result GuestConfig)
          → Post
              (λ _. Kept)
              Kept
              (refresh_config A server plan state (reply, record_event (config_read reply) w))
      by_reply (ok config) =
          let read = record_event (config_read (ok config)) w in
          let status = server.get_status read.log in
          refresh_status-Kept config status (record_event (status_read status) read) h
      by_reply (err e) = elim (Bool-cases (is_not_found e)) [ inl x ↦ rw x h | inr x ↦ rw x h ]

  after_put-Kept :
      (e : Exchange) (start : Bool) (w : World)
      → Written w
      → Post (λ _. Kept) Kept (after_put A server plan state e start w)
  after_put-Kept e start w h =
      Post-then (λ _. Written) (λ _. Kept) Kept (verify_seed A server plan state e w)
        (λ _. after_seed A server plan state start) (verify_seed-Written e w h)
        (λ _ w1 h1.
          Post-then (λ _. Written) (λ _. Kept) Kept
            (resize_disks A server (node A server plan state) (vm_id A server plan state)
              plan.disk_resize w1)
            (λ _. after_resize A server plan state start) (resize_disks-Written w1 h1)
            (λ _ w2 h2.
              Post-then (λ _. Written) (λ _. Kept) Kept (start_after A server plan state start w2)
                (λ _. refresh A server plan state) (start_after-Written start w2 h2)
                (λ _ w3 h3. refresh-Kept w3 h3.0)))

  update_powered-Kept :
      (e : Exchange) (current : GuestConfig) (start : Bool) (w : World)
      → Ready w
      → Post (λ _. Kept) Kept (update_powered A server plan state e current start w)
  update_powered-Kept e current start w h =
      Post-then (λ _. Ready) (λ _. Kept) Kept (build_request A server plan state e current w)
        (apply_request A server plan state e start)
        (Post-then (λ _. Ready) (λ _. Ready) Kept (update_request plan state, w)
          (guard_seed A server plan state e current)
          (Post-keeps Ready Kept (update_request plan state, w) (λ x y. y.0.1.0) h)
          (λ r w1 h1. guard_seed-Ready e current r w1 h1))
        (λ r w2 h2.
          Post-then (λ _. Written) (λ _. Kept) Kept (put_stage A server plan state r w2)
            (λ _. after_put A server plan state e start) (put_stage-Written r w2 h2)
            (λ _ w3 h3. after_put-Kept e start w3 h3))

  power_stage-Ready :
      (w : World) → Before w → Post (λ _. Ready) Kept (power_stage A server plan state w)
  unfolding power_stage
  power_stage-Ready w h = power_to-Ready plan.power w refl h

  update_read-Kept :
      (current : GuestConfig) (w : World)
      → Before w
      → Post (λ _. Kept) Kept (update_read A server plan state current w)
  update_read-Kept current w h =
      Post-then (λ _. Before) (λ _. Kept) Kept (seed_stage A server plan state current w)
        (update_checked A server plan state current)
        (Post-keeps Before Kept _ (λ x y. y.1.0)
          (seed_stage_keeps server Before (λ r x y. y) (λ s r x y. y) A plan state current w h))
        (λ e w1 h1.
          Post-then (λ _. Ready) (λ _. Kept) Kept (power_stage A server plan state w1)
            (update_powered A server plan state e current) (power_stage-Ready w1 h1)
            (λ start w2 h2. update_powered-Kept e current start w2 h2))

  update-Kept :
      (w : World)
      → owned_names state.name w.pending_name ≡ owned
      → Unsent w
      → Post (λ _. Kept) Kept (update A server plan state w)
  unfolding update
  update-Kept w own h =
      Post-then (λ _. Before) (λ _. Kept) Kept (read_current A server plan state w)
        (update_read A server plan state) (read_current-Before w own h)
        (λ current w1 h1. update_read-Kept current w1 h1)

-- In every run of the resource's Update, from an empty log and against every server, at most one
-- PUT of the configuration is sent, only after the last read of the configuration showed a guest
-- that the resource owns (any guest if no name is recorded), and, if the plan wants the guest off,
-- only after it was seen off or the task that the acknowledgement of its shutdown names was seen
-- to succeed; no disk is grown and no start is sent before the PUT is accepted. A reply about
-- another task identifier, or about one that names no node, shows nothing.
pub update-ordered :
    {F : Float64} (A : Arithmetic F) (server : Server) (plan state : QemuVmModel F) (w : World)
    → w.log ≡ []
    → (watch
        (owned_names state.name w.pending_name)
        plan.power
        (update A server plan state w).1.log).violated
      ≡ false
update-ordered A server plan state w start =
    let owned = owned_names state.name w.pending_name in
    Post-world (Kept A server plan state owned) (update A server plan state w)
      (update-Kept A server plan state owned w refl (unsent w.log start))
  where
    unsent :
        (log : Log)
        → log ≡ []
        → ((watch (owned_names state.name w.pending_name) plan.power log).violated ≡ false)
          × ((watch (owned_names state.name w.pending_name) plan.power log).sent ≡ false)
    unsent log e = rw e (refl, refl)
