-- ===== src/Client/Task/Wait.antt =====
-- waitForNodeTask of internal/provider/client_task.go, against the polls that it sends.
use terraform_provider_proxm.Prelude.{
  leb_of_lt, ℕ, zero, suc, ◌∷◌, [], ◌↔◌, ◌+◌, ◌-◌, ◌<◌, ◌≡◌, ◌≢◌, refl, true, Option, none, some,
  arith, leb, Bool-cases, inl, inr,
}
use terraform_provider_proxm.Text.{Text, codes, text_eq, is_empty}
use terraform_provider_proxm.Text.Equal.{text_eq→eq}
use terraform_provider_proxm.Client.Error.{Error, Result, ok, err}
use terraform_provider_proxm.Client.Task.{
  Poll, returned, out_of_fuel, Decision, return, sleep, decide_poll, after_poll, wait_loop,
  wait_deadline, wait_fuel, wait_for_node_task, node_task_finished, task_result, exit_succeeded,
  TaskStatus,
}

wait_loop_returns :
    (fuel : ℕ) (poll : ℕ → Poll) (upid : Text) (deadline now : ℕ)
    → deadline - now < fuel
    → wait_loop fuel poll upid deadline now ≢ out_of_fuel
unfolding wait_loop
wait_loop_returns zero poll upid deadline now h = absurd (omega arith)
wait_loop_returns (suc fuel) poll upid deadline now h =
    ground (arith, wait_loop_returns fuel poll upid deadline (now + (poll now).latency + 2))

deadline_below_fuel : (context : Option ℕ) (now : ℕ) → wait_deadline context now - now < wait_fuel
deadline_below_fuel none now = omega arith
deadline_below_fuel (some deadline) now = ground arith

-- A wait on a task always returns: its fuel covers the ten minutes that it may take.
pub wait_for_node_task_returns :
    (poll : ℕ → Poll) (upid : Text) (context : Option ℕ) (now : ℕ)
    → wait_for_node_task poll upid context now ≢ out_of_fuel
unfolding wait_for_node_task
wait_for_node_task_returns poll [] context now = λ e. cc
wait_for_node_task_returns poll (c ∷ upid) context now =
    wait_loop_returns wait_fuel poll (c ∷ upid) (wait_deadline context now) now
      (deadline_below_fuel context now)

module _ (poll : ℕ → Poll) (deadline : ℕ) where
  -- A task that is polled at the time `now` is seen to have stopped well by a reply that comes before
  -- the deadline, that of this poll or of a later one.
  pub data StopsWell : ℕ → Type 0 where
    stops :
        {now : ℕ} (reply : TaskStatus)
        → (poll now).reply ≡ ok reply
        → reply.status ≡ codes "stopped"
        → exit_succeeded reply.exit_status ≡ true
        → now + (poll now).latency < deadline
        → StopsWell now
    runs :
        {now : ℕ} (reply : TaskStatus)
        → (poll now).reply ≡ ok reply
        → reply.status ≡ codes "running"
        → now + (poll now).latency + 2 < deadline
        → StopsWell (now + (poll now).latency + 2)
        → StopsWell now

data Verdict (upid : Text) (reply : Result TaskStatus) : Decision → Type 0 where
  stopped :
      (r : TaskStatus)
      → reply ≡ ok r
      → r.status ≡ codes "stopped"
      → exit_succeeded r.exit_status ≡ true
      → Verdict upid reply (return (ok tt))
  running : (r : TaskStatus) → reply ≡ ok r → r.status ≡ codes "running" → Verdict upid reply sleep
  failed : (e : Error) → Verdict upid reply (return (err e))

verdict : (upid : Text) (reply : Result TaskStatus) → Verdict upid reply (decide_poll upid reply)
unfolding decide_poll
verdict upid (err e) = failed _
verdict upid (ok r) = elim (Bool-cases (text_eq r.status (codes "stopped"))) [
  | inl s ↦ elim (Bool-cases (exit_succeeded r.exit_status)) [
    | inl w ↦
        unfold node_task_finished task_result in rw (s, w) (stopped r refl (text_eq→eq _ _ s) w)
    | inr w ↦ unfold node_task_finished task_result in rw (s, w) (failed _)
  ]
  | inr s ↦ elim (Bool-cases (text_eq r.status (codes "running"))) [
    | inl g ↦ unfold node_task_finished in rw (s, g) (running r refl (text_eq→eq _ _ g))
    | inr g ↦ elim (Bool-cases (is_empty r.status)) [
      | inl n ↦ unfold node_task_finished in rw (s, g, n) (failed _)
      | inr n ↦ unfold node_task_finished in rw (s, g, n) (failed _)
    ]
  ]
]

module _ (poll : ℕ → Poll) (upid : Text) (deadline : ℕ) where
  sound_step :
      (fuel now t : ℕ) {d : Decision}
      → Verdict upid (poll now).reply d
      → decide_poll upid (poll now).reply ≡ d
      → ((t' : ℕ)
          → wait_loop fuel poll upid deadline (now + (poll now).latency + 2) ≡ returned (ok tt) t'
          → StopsWell poll deadline (now + (poll now).latency + 2))
      → wait_loop (suc fuel) poll upid deadline now ≡ returned (ok tt) t
      → StopsWell poll deadline now
  unfolding wait_loop
  sound_step fuel now t v d ih h = elim (Bool-cases (leb deadline (now + (poll now).latency))) [
    | inl expired ↦ cc (rw expired at h)
    | inr timely ↦ by_verdict v d (ground arith) (rw timely at h)
  ]
    where
      by_verdict :
          {d : Decision}
          → Verdict upid (poll now).reply d
          → decide_poll upid (poll now).reply ≡ d
          → now + (poll now).latency < deadline
          → after_poll upid deadline
              (now + (poll now).latency)
              (decide_poll upid (poll now).reply)
              (wait_loop fuel poll upid deadline (now + (poll now).latency + 2))
            ≡ returned (ok tt) t
          → StopsWell poll deadline now
      by_verdict (stopped r e s w) d timely h = stops r e s w timely
      by_verdict (failed e) d timely h = cc (rw d at h)
      by_verdict (running r e g) d timely h =
          elim (Bool-cases (leb deadline (now + (poll now).latency + 2))) [
            | inl late ↦ cc (rw (d, late) at h)
            | inr early ↦ runs r e g (ground arith) (ih t (rw (d, early) at h))
          ]

  wait_loop_sound :
      (fuel now t : ℕ)
      → wait_loop fuel poll upid deadline now ≡ returned (ok tt) t
      → StopsWell poll deadline now
  unfolding wait_loop
  wait_loop_sound zero now t h = cc
  wait_loop_sound (suc fuel) now t h =
      sound_step fuel now t (verdict upid (poll now).reply) refl
        (λ t'. wait_loop_sound fuel (now + (poll now).latency + 2) t') h

  wait_loop_complete :
      (fuel : ℕ) {now : ℕ}
      → deadline - now < fuel
      → StopsWell poll deadline now
      → (t : ℕ) × (wait_loop fuel poll upid deadline now ≡ returned (ok tt) t)
  unfolding wait_loop decide_poll
  wait_loop_complete zero h w = absurd (omega arith)
  wait_loop_complete (suc fuel) {now} h (stops r e s x timely) = (
    now + (poll now).latency,
    unfold node_task_finished task_result in rw (leb_of_lt _ _ timely, e, s, x),
  )
  wait_loop_complete (suc fuel) {now} h (runs r e g early w) =
      let (t, same) = wait_loop_complete fuel (omega arith) w in
      let timely : now + (poll now).latency < deadline = omega arith in
      (t, unfold node_task_finished in rw (leb_of_lt _ _ timely, e, g, leb_of_lt _ _ early) same)

-- The wait for a nonempty task identifier succeeds exactly when replies that come before the
-- deadline show the task running until one shows it stopped with the exit status OK or WARNINGS,
-- and after each reply that shows it running the sleep of two seconds ends before the deadline
-- too. The deadline is the context's own, and at most ten minutes away.
pub wait_for_node_task-StopsWell :
    (poll : ℕ → Poll) (upid : Text) (context : Option ℕ) (now : ℕ)
    → upid ≢ []
    → ((t : ℕ) × (wait_for_node_task poll upid context now ≡ returned (ok tt) t))
      ↔ StopsWell poll (wait_deadline context now) now
unfolding wait_for_node_task
wait_for_node_task-StopsWell poll [] context now ne = absurd (ne refl)
wait_for_node_task-StopsWell poll (c ∷ upid) context now ne = (
  λ r. wait_loop_sound poll (c ∷ upid) (wait_deadline context now) wait_fuel now r.0 r.1,
  wait_loop_complete poll (c ∷ upid) (wait_deadline context now) wait_fuel
      (deadline_below_fuel context now),
)
