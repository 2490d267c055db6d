-- ===== src/Vm/Update/Renames.antt =====
-- QemuVMResource.Update of internal/provider/resource_qemu_vm.go: the names by which it knows the guest.
use terraform_provider_proxm.Prelude.{
  ◌≡◌, ◌≢◌, refl, sym, ap, subst, ◌∙◌, Bool, true, false, not, ◌||◌, [], ◌∷◌, All, Bool-cases, inl,
  inr, if◌then◌else◌,
}
use terraform_provider_proxm.Text.{Text, text_eq, is_empty}
use terraform_provider_proxm.Text.Equal.{text_eq_self, text_eq→eq}
use terraform_provider_proxm.Value.{Value, null, unknown, known, string_value, pointer_value}
use terraform_provider_proxm.Config.{Float64}
use terraform_provider_proxm.Client.Error.{Error, Result, ok, err, is_ok, is_not_found}
use terraform_provider_proxm.Vm.Identity.{owned_names, owns_guest}
use terraform_provider_proxm.Vm.World.{
  GuestConfig, Log, config_read, status_read, config_put, Server, World, record_event, config_reply,
  and_then,
}
use terraform_provider_proxm.Vm.Request.{
  Form, QemuVmConfigRequest, encode_qemu_vm_fields, empty_form,
}
use terraform_provider_proxm.Vm.Request.Name.{name_key, encode_qemu_vm_fields_name}
use terraform_provider_proxm.Vm.Model.{QemuVmModel}
use terraform_provider_proxm.Vm.Resize.Size.{Arithmetic}
use terraform_provider_proxm.Vm.Resize.{resize_disks}
use terraform_provider_proxm.Vm.Resize.Rule.{resize_disks_keeps}
use terraform_provider_proxm.Vm.Update.{
  is_rename, update_request, read_current, seed_stage, power_stage, Exchange,
}
use terraform_provider_proxm.Vm.Update.Apply.{
  node, vm_id, guard_seed, note_rename, record_rename, put_stage, verify_seed, start_after,
  refresh_status, refresh_config, refresh, after_resize, after_seed, after_put, apply_request,
  build_request, update_powered, update_checked, update_read, update,
}
use terraform_provider_proxm.Vm.Update.Monitor.{given, may_give, possible_names}
use terraform_provider_proxm.Vm.Update.Stages.{
  Post, Post-both, Post-then, Post-keeps, seed_stage_keeps,
}
use terraform_provider_proxm.Vm.Update.Named.{Any, Names, leaves_names, build_request-Names}
use terraform_provider_proxm.Vm.Update.Keeps.{
  IsKept, read_current_keeps, power_stage_keeps, guard_seed_keeps, verify_seed_keeps,
  start_after_keeps,
}

owns_recorded :
    (name : Value Text) (pending : Text)
    → owns_guest (owned_names name pending) (string_value name) ≡ true
unfolding owns_guest owned_names
owns_recorded name pending = by_name (string_value name)
  where
    by_name :
        (s : Text)
        → owns_guest
            (if is_empty s then [] else s ∷ (if is_empty pending then [] else pending ∷ []))
            s
          ≡ true
    by_name [] = refl
    by_name (c ∷ s) = rw (text_eq_self (c ∷ s)) refl

owns_pending :
    (name : Value Text) (pending : Text)
    → pending ≢ []
    → owns_guest (owned_names name pending) pending ≡ true
unfolding owns_guest owned_names
owns_pending name [] ne = absurd (ne refl)
owns_pending name (c ∷ pending) ne = by_name (string_value name)
  where
    or_self : (a b : Bool) → b ≡ true → (a || (b || false)) ≡ true
    or_self true b h = refl
    or_self false b h = rw h refl

    by_name :
        (s : Text)
        → owns_guest (if is_empty s then [] else s ∷ ((c ∷ pending) ∷ [])) (c ∷ pending) ≡ true
    by_name [] = refl
    by_name (d ∷ s) = or_self (text_eq (d ∷ s) (c ∷ pending)) _ (text_eq_self (c ∷ pending))

renamed-nonempty :
    (name old : Value Text) → is_rename name old ≡ true → name ≢ known [] → string_value name ≢ []
renamed-nonempty null old h ne = cc
renamed-nonempty unknown old h ne = cc
renamed-nonempty (known []) old h ne = absurd (ne refl)
renamed-nonempty (known (c ∷ s)) old h ne = λ e. cc

-- The name that the plan gives.
abbrev next_name : Value Text → Value Text → Text
next_name old new = if is_rename new old then string_value new else string_value old

next-known : (P : Text → Type 0) (old : Value Text) (s : Text) → P (next_name old (known s)) → P s
next-known P old s h = by_equal (text_eq s (string_value old)) refl h
  where
    by_equal :
        (b : Bool)
        → text_eq s (string_value old) ≡ b
        → P (if not b then s else string_value old)
        → P s
    by_equal true e h = subst P (sym (text_eq→eq s (string_value old) e)) h
    by_equal false e h = h

All-given :
    (P : Text → Type 0) (old new : Value Text)
    → P (next_name old new)
    → All P (given (pointer_value new) (string_value old ∷ []))
All-given P old null h = (h, tt)
All-given P old unknown h = (h, tt)
All-given P old (known s) h = (next-known P old s h, tt)

All-may_give :
    (P : Text → Type 0) (old new : Value Text)
    → P (next_name old new)
    → P (string_value old)
    → All P (may_give (pointer_value new) (string_value old ∷ []))
All-may_give P old null h k = (k, tt)
All-may_give P old unknown h k = (k, tt)
All-may_give P old (known s) h k = (next-known P old s h, (k, tt))

module _ {F : Float64} (A : Arithmetic F) (server : Server) (plan state : QemuVmModel F) where
  abbrev Owns : World → Text → Type 0
  Owns w name = owns_guest (owned_names w.recorded_name w.pending_name) name ≡ true

  -- Every name that the guest can have is one by which the resource knows it.
  abbrev Covered : World → Type 0
  Covered w = All (Owns w) (possible_names state.name w.log)

  abbrev Unnamed : World → Type 0
  Unnamed w =
      (w.recorded_name ≡ state.name)
      × ((w.pending_name ≡ []) × (possible_names state.name w.log ≡ string_value state.name ∷ []))

  Covered-IsKept : IsKept Covered
  Covered-IsKept = record {
    by_await = λ upid r time w h. h;
    by_read = λ r w h. h;
    by_status = λ r w h. h;
    by_storages = λ r w h. h;
    by_content = λ s r w h. h;
    by_shutdown = λ timeout r w h. h;
    by_start = λ r w h. h;
    by_resize = λ slot gib digest r w h. h;
    by_seed = λ s w h. h;
  }

  Unnamed-IsKept : IsKept Unnamed
  Unnamed-IsKept = record {
    by_await = λ upid r time w h. h;
    by_read = λ r w h. h;
    by_status = λ r w h. h;
    by_storages = λ r w h. h;
    by_content = λ s r w h. h;
    by_shutdown = λ timeout r w h. h;
    by_start = λ r w h. h;
    by_resize = λ slot gib digest r w h. h;
    by_seed = λ s w h. h;
  }

  Unnamed-Covered : (w : World) → Unnamed w → Covered w
  Unnamed-Covered w (r, (p, n)) = subst (All (Owns w)) (sym n) (
    subst (λ x. owns_guest (owned_names x w.pending_name) (string_value state.name) ≡ true) (sym r)
        (owns_recorded state.name w.pending_name),
    tt,
  )

  -- What a rename changes, and what happens without one.
  renamed :
      is_rename plan.name state.name ≡ true
      → next_name state.name plan.name ≡ string_value plan.name
  renamed e = rw e refl

  not_renamed :
      is_rename plan.name state.name ≡ false
      → next_name state.name plan.name ≡ string_value state.name
  not_renamed e = rw e refl

  noted :
      (w : World)
      → is_rename plan.name state.name ≡ true
      → note_rename A server plan state w ≡ record w { pending_name = string_value plan.name }
  noted w e = rw e refl

  not_noted :
      (w : World) → is_rename plan.name state.name ≡ false → note_rename A server plan state w ≡ w
  not_noted w e = rw e refl

  recorded :
      (w : World)
      → is_rename plan.name state.name ≡ true
      → record_rename A server plan state w
        ≡ record w { recorded_name = plan.name; pending_name = [] }
  recorded w e = rw e refl

  not_recorded :
      (w : World) → is_rename plan.name state.name ≡ false → record_rename A server plan state w ≡ w
  not_recorded w e = rw e refl

  refused_covers :
      (form : Form) (x : Error) (w w' : World)
      → form name_key ≡ pointer_value plan.name
      → note_rename A server plan state w ≡ w'
      → Owns w' (next_name state.name plan.name)
      → Owns w' (string_value state.name)
      → possible_names state.name w'.log ≡ string_value state.name ∷ []
      → Covered (record_event (config_put form (err x)) (note_rename A server plan state w))
  refused_covers form x w w' f e new old n =
      subst (λ y. Covered (record_event (config_put form (err x)) y)) (sym e)
        (subst (λ y. All (Owns w') (may_give y (possible_names state.name w'.log))) (sym f)
          (subst (λ y. All (Owns w') (may_give (pointer_value plan.name) y)) (sym n)
            (All-may_give (Owns w') state.name plan.name new old)))

  accepted_covers :
      (form : Form) (x : Unit {0}) (w w' : World) (log : Log)
      → form name_key ≡ pointer_value plan.name
      → possible_names state.name log ≡ string_value state.name ∷ []
      → w ≡ w'
      → w'.log ≡ config_put form (ok x) ∷ log
      → Owns w' (next_name state.name plan.name)
      → Covered w
  accepted_covers form x w w' log f n e l new = subst Covered (sym e) (
      subst (λ y. All (Owns w') (possible_names state.name y)) (sym l)
        (subst (λ y. All (Owns w') (given y (possible_names state.name log))) (sym f)
          (subst (λ y. All (Owns w') (given (pointer_value plan.name) y)) (sym n)
            (All-given (Owns w') state.name plan.name new))))

  known_by :
      (w : World) (pending : Text)
      → w.recorded_name ≡ state.name
      → owns_guest (owned_names w.recorded_name pending) (string_value state.name) ≡ true
  known_by w pending r =
      subst (λ y. owns_guest (owned_names y pending) (string_value state.name) ≡ true) (sym r)
        (owns_recorded state.name pending)

  -- The PUT of a name that is not empty, with its reply.
  put_covers :
      (form : Form) (reply : Result (Unit {0})) (w : World)
      → form name_key ≡ pointer_value plan.name
      → plan.name ≢ known []
      → Unnamed w
      → Post {A = Unit {0}}
          (λ _. Covered)
          Covered
          (and_then
            (reply, record_event (config_put form reply) (note_rename A server plan state w))
            (λ _ w1. (ok tt, record_rename A server plan state w1)))
  put_covers form (err x) w f ne (r, (p, n)) = elim (Bool-cases (is_rename plan.name state.name)) [
    | inl e ↦
        let new = string_value plan.name in
        refused_covers form x w (record w { pending_name = new }) f (noted w e)
          (subst (λ y. owns_guest (owned_names w.recorded_name new) y ≡ true) (sym (renamed e))
            (owns_pending w.recorded_name new (renamed-nonempty plan.name state.name e ne)))
          (known_by w new r) n
    | inr e ↦
        refused_covers form x w w f (not_noted w e)
          (subst (Owns w) (sym (not_renamed e)) (known_by w w.pending_name r))
          (known_by w w.pending_name r) n
  ]
  put_covers form (ok x) w f ne (r, (p, n)) =
      let sent : World =
        record_event (config_put form (ok x)) (note_rename A server plan state w) in
      elim (Bool-cases (is_rename plan.name state.name)) [
        | inl e ↦
            accepted_covers form x (record_rename A server plan state sent)
              (record sent { recorded_name = plan.name; pending_name = [] }) w.log f n
              (recorded sent e) (ap (λ y. config_put form (ok x) ∷ y.log) (noted w e))
              (subst (λ y. owns_guest (owned_names plan.name []) y ≡ true) (sym (renamed e))
                (owns_recorded plan.name []))
        | inr e ↦
            accepted_covers form x (record_rename A server plan state sent)
              (record_event (config_put form (ok x)) w) w.log f n
              (not_recorded sent e ∙ ap (record_event (config_put form (ok x))) (not_noted w e))
              refl (subst (Owns w) (sym (not_renamed e)) (known_by w w.pending_name r))
      ]

  put_stage-Covered :
      (r : QemuVmConfigRequest F) (w : World)
      → Names plan r
      → plan.name ≢ known []
      → Unnamed w
      → Post (λ _. Covered) Covered (put_stage A server plan state r w)
  unfolding put_stage
  put_stage-Covered r w (l, m) ne h =
      let form = encode_qemu_vm_fields F r empty_form in
      put_covers form (server.put_config form (note_rename A server plan state w).log) w
        (encode_qemu_vm_fields_name F r l ∙ m) ne h

  refresh_status-Covered :
      (config : GuestConfig) (reply : Result Text) (w : World)
      → Covered w
      → Post (λ _. Any) Covered (refresh_status A server plan state config (reply, w))
  refresh_status-Covered config (ok status) w h = tt
  refresh_status-Covered config (err e) w h = elim (Bool-cases (is_not_found e)) [
    | inl x ↦ rw x tt
    | inr x ↦ rw x h
  ]

  refresh-Covered :
      (w : World) → Covered w → Post (λ _. Any) Covered (refresh A server plan state w)
  refresh-Covered w h = by_reply (
      config_reply (node A server plan state) (vm_id A server plan state) (server.get_config w.log))
    where
      by_reply :
          (reply : Result GuestConfig)
          → Post
              (λ _. Any)
              Covered
              (refresh_config A server plan state (reply, record_event (config_read reply) w))
      by_reply (ok config) =
          let read = record_event (config_read (ok config)) w in
          let status = server.get_status read.log in
          refresh_status-Covered config status (record_event (status_read status) read) h
      by_reply (err e) = elim (Bool-cases (is_not_found e)) [ inl x ↦ rw x tt | inr x ↦ rw x h ]

  covered : {B : Type 0} (r : Result B × World) → Covered r.1 → Post (λ _. Covered) Covered r
  covered r h = Post-keeps Covered Covered r (λ x y. y) h

  unnamed : {B : Type 0} (r : Result B × World) → Unnamed r.1 → Post (λ _. Unnamed) Covered r
  unnamed r h = Post-keeps Unnamed Covered r Unnamed-Covered h

  after_put-Covered :
      (e : Exchange) (start : Bool) (w : World)
      → Covered w
      → Post (λ _. Any) Covered (after_put A server plan state e start w)
  after_put-Covered e start w h =
      let k = Covered-IsKept in
      Post-then (λ _. Covered) (λ _. Any) Covered (verify_seed A server plan state e w)
        (λ _. after_seed A server plan state start)
        (covered (verify_seed A server plan state e w)
          (verify_seed_keeps A server plan state Covered k e w h))
        (λ _ w1 h1.
          Post-then (λ _. Covered) (λ _. Any) Covered
            (resize_disks A server (node A server plan state) (vm_id A server plan state)
              plan.disk_resize w1)
            (λ _. after_resize A server plan state start)
            (covered
              (resize_disks A server (node A server plan state) (vm_id A server plan state)
                plan.disk_resize w1)
              (resize_disks_keeps A server (node A server plan state) (vm_id A server plan state)
                Covered k.by_await k.by_read k.by_resize plan.disk_resize w1 h1))
            (λ _ w2 h2.
              Post-then (λ _. Covered) (λ _. Any) Covered (start_after A server plan state start w2)
                (λ _. refresh A server plan state)
                (covered (start_after A server plan state start w2)
                  (start_after_keeps A server plan state Covered k start w2 h2))
                (λ _ w3 h3. refresh-Covered w3 h3)))

  update_powered-Covered :
      (e : Exchange) (current : GuestConfig) (start : Bool) (w : World)
      → leaves_names F (update_request plan state) ≡ true
      → plan.name ≢ known []
      → Unnamed w
      → Post (λ _. Any) Covered (update_powered A server plan state e current start w)
  update_powered-Covered e current start w l ne h =
      Post-then (λ r w1. Names plan r × Unnamed w1) (λ _. Any) Covered
        (build_request A server plan state e current w) (apply_request A server plan state e start)
        (Post-both (λ r _. Names plan r) (λ _. Unnamed) Any Covered
          (build_request A server plan state e current w)
          (build_request-Names A server plan state e current w l)
          (Post-then (λ _. Unnamed) (λ _. Unnamed) Covered (update_request plan state, w)
            (guard_seed A server plan state e current) (unnamed (update_request plan state, w) h)
            (λ r w1 h1.
              unnamed (guard_seed A server plan state e current r w1)
                (guard_seed_keeps A server plan state Unnamed Unnamed-IsKept e current r w1 h1))))
        (λ r w2 h2.
          Post-then (λ _. Covered) (λ _. Any) Covered (put_stage A server plan state r w2)
            (λ _. after_put A server plan state e start) (put_stage-Covered r w2 h2.0 ne h2.1)
            (λ _ w3 h3. after_put-Covered e start w3 h3))

  update-Post :
      (w : World)
      → leaves_names F (update_request plan state) ≡ true
      → plan.name ≢ known []
      → Unnamed w
      → Post (λ _. Any) Covered (update A server plan state w)
  unfolding update
  update-Post w l ne h =
      let k = Unnamed-IsKept in
      Post-then (λ _. Unnamed) (λ _. Any) Covered (read_current A server plan state w)
        (update_read A server plan state)
        (unnamed (read_current A server plan state w)
          (read_current_keeps A server plan state Unnamed k w h))
        (λ current w1 h1.
          Post-then (λ _. Unnamed) (λ _. Any) Covered (seed_stage A server plan state current w1)
            (update_checked A server plan state current)
            (unnamed (seed_stage A server plan state current w1) (
              seed_stage_keeps server Unnamed k.by_storages k.by_content A plan state current w1
                h1))
            (λ e w2 h2.
              Post-then (λ _. Unnamed) (λ _. Any) Covered (power_stage A server plan state w2)
                (update_powered A server plan state e current)
                (unnamed (power_stage A server plan state w2)
                  (power_stage_keeps A server plan state Unnamed k w2 h2))
                (λ start w3 h3. update_powered-Covered e current start w3 l ne h3)))

-- No rename is lost: take an Update, from an empty log, with the name of the prior state recorded
-- and no rename open, whose planned name is not empty and whose request, if there is one, has no
-- key `name` in its maps, raw.extra_config among them. When it fails, at any point and against
-- every server, the recorded and the pending name make the resource own the guest under every name
-- that it can have: the old one if no PUT was sent, the old one or that in the PUT's form if the
-- PUT's reply was an error, and that in the form, or the old one if the form has none, if the PUT
-- was accepted.
pub update-Covered :
    {F : Float64} (A : Arithmetic F) (server : Server) (plan state : QemuVmModel F) (w : World)
    → w.log ≡ []
    → w.recorded_name ≡ state.name
    → w.pending_name ≡ []
    → plan.name ≢ known []
    → leaves_names F (update_request plan state) ≡ true
    → is_ok (update A server plan state w).0 ≡ false
    → let w' = (update A server plan state w).1 in
      All
        (λ name. owns_guest (owned_names w'.recorded_name w'.pending_name) name ≡ true)
        (possible_names state.name w'.log)
update-Covered A server plan state w start recorded pending ne leaves failed =
    at_error (update A server plan state w)
      (update-Post A server plan state w leaves ne (recorded, (pending, unsent w.log start))) failed
  where
    unsent : (log : Log) → log ≡ [] → possible_names state.name log ≡ string_value state.name ∷ []
    unsent log e = rw e refl

    at_error :
        (r : Result (Unit {0}) × World)
        → Post (λ _ x. Unit) (Covered A server plan state) r
        → is_ok r.0 ≡ false
        → Covered A server plan state r.1
    at_error (ok x, w1) h e = cc
    at_error (err x, w1) h e = h
