-- ===== src/Vm/Delete/Settle.antt =====
-- QemuVMResource.Delete of internal/provider/resource_qemu_vm.go: its first stage, under the monitor.
use terraform_provider_proxm.Prelude.{
  Bool, true, false, List, ◌≡◌, refl, if◌then◌else◌, ◌&&◌, ◌∙◌, ap,
}
use terraform_provider_proxm.Text.Equal.{text_eq_self}
use terraform_provider_proxm.Text.{Text, is_empty}
use terraform_provider_proxm.Client.Error.{Result, ok, err, is_ok}
use terraform_provider_proxm.Client.Task.{task_owner_node, is_task}
use terraform_provider_proxm.Vm.World.{
  awaited, Server, World, await_on, await_pending_task, reconcile_pending_task, await_owner,
  classify_owner, classify_on,
}
use terraform_provider_proxm.Vm.Delete.{
  then_do, clear_pending, fail, settle_pending, settle_classified,
}
use terraform_provider_proxm.Vm.Delete.Monitor.{
  Monitor, settled_by, about_task, succeeds, monitor_event, monitor,
}

about_itself : (task upid : Text) → task ≡ upid → is_task upid ≡ true → about_task task upid ≡ true
about_itself task upid same names = rw (same, text_eq_self upid) names

pub succeeds_itself :
    (task upid : Text) (r : Result (Unit {0}))
    → task ≡ upid
    → is_task upid ≡ true
    → is_ok r ≡ true
    → succeeds task upid r ≡ true
succeeds_itself task upid r same names h = rw h (about_itself task upid same names)

module _ (server : Server) (owned : List Text) (start : Monitor) where
  abbrev seen : World → Monitor
  seen w = monitor owned start w.log

  -- A wait while no stop was sent settles the pending task or not.
  pub record Awaited (m : Monitor) (upid : Text) (r : Result (Unit {0})) (w : World) : Type 0 where
    pub violated : (seen w).violated ≡ m.violated
    pub stopping : (seen w).stopping ≡ m.stopping
    pub identified : (seen w).identified ≡ m.identified
    pub free :
        m.stopping ≡ false
        → ((seen w).quiet ≡ m.quiet) × ((seen w).settled ≡ succeeds m.task upid r)
    pub held :
        m.stopping ≡ true
        → ((seen w).settled ≡ m.settled) × ((seen w).quiet ≡ succeeds m.task upid r)

  by_event :
      (m : Monitor) (r : Result (Unit {0})) (upid : Text) (w : World)
      → seen w ≡ monitor_event owned (awaited upid r) m
      → Awaited m upid r w
  by_event m r upid w e = record {
    violated = rw e (field (λ x. x.violated ≡ m.violated) refl refl);
    stopping = rw e (field (λ x. x.stopping ≡ m.stopping) refl refl);
    identified = rw e (field (λ x. x.identified ≡ m.identified) refl refl);
    free = λ h. rw (e, h) (refl, refl);
    held = λ h. rw (e, h) (refl, refl);
  }
    where
      field :
          (P : Monitor → Type 0)
          → P (record m { quiet = succeeds m.task upid r })
          → P (record m { settled = succeeds m.task upid r })
          → P (monitor_event owned (awaited upid r) m)
      field P a b = choose m.stopping
        where
          choose :
              (c : Bool)
              → P (
                  if c
                  then record m { quiet = succeeds m.task upid r }
                  else record m { settled = succeeds m.task upid r })
          choose true = a
          choose false = b

  pub await_on-Awaited :
      (node upid : Text) (w : World)
      → let rw' = await_on server node upid w in Awaited (seen w) upid rw'.0 rw'.1
  unfolding await_on
  await_on-Awaited node upid w = by_event (seen w) (await_on server node upid w).0 upid _ refl

  -- What the monitor says after a step that settles the pending task if it succeeds.
  pub record Settles (m : Monitor) (r : Result (Unit {0})) (w : World) : Type 0 where
    pub violated : (seen w).violated ≡ false
    pub stopping : (seen w).stopping ≡ false
    pub quiet : (seen w).quiet ≡ m.quiet
    pub settled : is_ok r ≡ true → (seen w).settled ≡ true

  await_owner-Settles :
      (upid : Text) (node : Result Text) (w : World)
      → task_owner_node upid ≡ node
      → (seen w).task ≡ upid
      → (seen w).stopping ≡ false
      → (seen w).violated ≡ false
      → let rw' = await_owner server upid node w in Settles (seen w) rw'.0 rw'.1
  await_owner-Settles upid (err e) w own tk st v = record {
    violated = v;
    stopping = st;
    quiet = refl;
    settled = λ h. cc;
  }
  await_owner-Settles upid (ok node) w own tk st v =
      let a = await_on-Awaited node upid w in
      record {
        violated = a.violated ∙ v;
        stopping = a.stopping ∙ st;
        quiet = (a.free st).0;
        settled = λ h. (a.free st).1 ∙ succeeds_itself (seen w).task upid _ tk (ap is_ok own) h;
      }

  -- Clearing the private state after a wait leaves the log alone.
  cleared-Settles :
      (m : Monitor) (r : Result (Unit {0})) (w : World)
      → Settles m r w
      → let rw' = then_do (r, w) clear_pending fail in Settles m rw'.0 rw'.1
  cleared-Settles m (ok _) w h = record {
    violated = h.violated;
    stopping = h.stopping;
    quiet = h.quiet;
    settled = h.settled;
  }
  cleared-Settles m (err e) w h = h

  classified-Settles :
      (upid : Text) (result : Result Bool) (m : Monitor) (w : World)
      → seen w ≡ record m { settled = settled_by result && about_task m.task upid }
      → m.task ≡ upid
      → is_task upid ≡ true
      → m.stopping ≡ false
      → m.violated ≡ false
      → let rw' = settle_classified server upid (result, w) in Settles m rw'.0 rw'.1
  unfolding await_pending_task
  classified-Settles upid (err e) m w same tk names st v = record {
    violated = rw same v;
    stopping = rw same st;
    quiet = rw same;
    settled = λ h. cc;
  }
  classified-Settles upid (ok true) m w same tk names st v = record {
    violated = rw same v;
    stopping = rw same st;
    quiet = rw same;
    settled = λ h. rw same (about_itself m.task upid tk names);
  }
  classified-Settles upid (ok false) m w same tk names st v =
      let a =
        await_owner-Settles upid (task_owner_node upid) w refl (rw same tk) (rw same st)
          (rw same v) in
      let b : Settles m (await_owner server upid (task_owner_node upid) w).0
          (await_owner server upid (task_owner_node upid) w).1 =
        record {
          violated = a.violated;
          stopping = a.stopping;
          quiet = a.quiet ∙ ap (λ (x : Monitor). x.quiet) same;
          settled = a.settled;
        } in
      cleared-Settles m _ _ b

  reconciled-Settles :
      (upid : Text) (node : Result Text) (w : World)
      → task_owner_node upid ≡ node
      → (seen w).task ≡ upid
      → (seen w).stopping ≡ false
      → (seen w).violated ≡ false
      → let rw' = settle_classified server upid (classify_owner server upid node w) in
        Settles (seen w) rw'.0 rw'.1
  reconciled-Settles upid (err e) w own tk st v = record {
    violated = v;
    stopping = st;
    quiet = refl;
    settled = λ h. cc;
  }
  reconciled-Settles upid (ok node) w own tk st v =
      classified-Settles upid _ (seen w) (classify_on server node upid w).1 refl tk (ap is_ok own)
        st v

  pub settle_pending-Settles :
      (w : World)
      → (seen w).settled ≡ is_empty w.pending_task
      → (seen w).task ≡ w.pending_task
      → (seen w).stopping ≡ false
      → (seen w).violated ≡ false
      → let rw' = settle_pending server w in Settles (seen w) rw'.0 rw'.1
  unfolding settle_pending reconcile_pending_task
  settle_pending-Settles w s tk st v = by_task (is_empty w.pending_task) s
    where
      by_task :
          (b : Bool)
          → (seen w).settled ≡ b
          → let rw' =
              if b
              then (ok tt, w)
              else settle_classified server w.pending_task
                  (classify_owner server w.pending_task (task_owner_node w.pending_task) w) in
            Settles (seen w) rw'.0 rw'.1
      by_task true e = record { violated = v; stopping = st; quiet = refl; settled = λ h. e }
      by_task false e =
          reconciled-Settles w.pending_task (task_owner_node w.pending_task) w refl tk st v
