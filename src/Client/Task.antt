-- ===== src/Client/Task.antt =====
-- internal/provider/client_task.go: task identifiers (UPIDs), the states of a task, and the loop
-- that awaits one. Times are in seconds.
pub mod Wait
pub mod Ack
use terraform_provider_proxm.Prelude.{
  ℕ, zero, suc, ◌+◌, ◌≡◌, refl, Bool, true, false, ◌||◌, not, Option, none, some, List, [], ◌∷◌,
  ◌++◌, leb, ltb, if◌then◌else◌,
}
use terraform_provider_proxm.Text.{Text, codes, text_eq, is_empty, split, has_prefix}
use terraform_provider_proxm.Client.Error.{Error, failure, wrapped, Result, ok, err, is_ok, quote}

pub record TaskStatus : Type 0 where
  pub status : Text
  pub exit_status : Text

malformed : Text → Result Text
malformed upid = err (failure (codes "malformed Proxmox task UPID " ++ quote upid))

owner : Text → List Text → Result Text
unfolding malformed
owner upid (tag ∷ node ∷ parts) =
    if not (text_eq tag (codes "UPID")) || is_empty node then malformed upid else ok node
owner upid _ = malformed upid

-- The node that runs a task: `UPID:<node>:…`.
unfoldable pub task_owner_node : Text → Result Text
unfolding owner split
task_owner_node upid = owner upid (split upid b':')

abbrev pub acknowledged : Text → Result Text → Result (Unit {0})
acknowledged what (ok node) = ok tt
acknowledged what (err e) = err (wrapped (what ++ codes " returned an invalid UPID") e)

unfoldable pub validate_qemu_task_ack : Text → Text → Result (Unit {0})
unfolding task_owner_node
validate_qemu_task_ack upid what =
    if is_empty upid
    then err (failure (what ++ codes " returned no UPID"))
    else acknowledged what (task_owner_node upid)

-- An acknowledgement names a task.
abbrev pub is_task : Text → Bool
is_task upid = is_ok (task_owner_node upid)

unfoldable pub node_task_finished : TaskStatus → Text → Result Bool
node_task_finished reply upid =
    if text_eq reply.status (codes "stopped")
    then ok true
    else if text_eq reply.status (codes "running")
    then ok false
    else if is_empty reply.status
    then err (failure (codes "task " ++ (quote upid ++ codes " status reply is missing a status")))
    else err (
        failure (
          codes "task "
          ++ (quote upid ++ (codes " status reply has unknown status " ++ quote reply.status))))

-- `OK`, or a text that begins with `WARNINGS`
unfoldable pub exit_succeeded : Text → Bool
unfolding has_prefix
exit_succeeded exit_status =
    text_eq exit_status (codes "OK") || has_prefix exit_status (codes "WARNINGS")

unfoldable pub task_result : Text → Text → Result (Unit {0})
unfolding exit_succeeded
task_result exit_status upid =
    if exit_succeeded exit_status
    then ok tt
    else err (
        failure (
          codes "task "
          ++ (quote upid ++ (codes " failed with exit status " ++ quote exit_status))))

abbrev pub node_task_poll_interval : ℕ
node_task_poll_interval = 2

abbrev pub node_task_timeout_cap : ℕ
node_task_timeout_cap = 600

-- A poll takes some time and yields a reply.
pub record Poll : Type 0 where
  pub latency : ℕ
  pub reply : Result TaskStatus

abbrev pub latest : ℕ → ℕ → ℕ
latest a b = if ltb a b then b else a

-- What a finished wait says, or that the fuel of the model ran out.
pub data WaitOutcome : Type 0 where
  returned : Result (Unit {0}) → ℕ → WaitOutcome
  out_of_fuel : WaitOutcome

abbrev pub deadline_exceeded : Text → Error
deadline_exceeded upid =
    wrapped (codes "waiting for task " ++ quote upid) (failure (codes "context deadline exceeded"))

-- What one poll decides: to return, or to sleep (the last case).
pub data Decision : Type 0 where
  return : Result (Unit {0}) → Decision
  sleep : Decision

abbrev classify : TaskStatus → Text → Result Bool → Decision
classify reply upid (err e) = return (err e)
classify reply upid (ok true) = return (task_result reply.exit_status upid)
classify reply upid (ok false) = sleep

unfoldable pub decide_poll : Text → Result TaskStatus → Decision
unfolding node_task_finished task_result
decide_poll upid (err e) =
    return (err (wrapped (codes "unable to poll task " ++ (quote upid ++ codes " status")) e))
decide_poll upid (ok reply) = classify reply upid (node_task_finished reply upid)

-- A poll whose reply does not come before the deadline fails, as its request is bound to the context.
abbrev poll_expired : Text → Error
poll_expired upid =
    wrapped (codes "unable to poll task " ++ (quote upid ++ codes " status"))
      (failure (codes "context deadline exceeded"))

abbrev by_deadline : Text → ℕ → ℕ → ℕ → WaitOutcome → WaitOutcome
by_deadline upid deadline now time rest =
    if leb deadline time then returned (err (poll_expired upid)) (latest deadline now) else rest

-- The select after a poll: it ends the loop if the deadline passes before the timer fires.
abbrev pub after_poll : Text → ℕ → ℕ → Decision → WaitOutcome → WaitOutcome
after_poll upid deadline time (return result) rest = returned result time
after_poll upid deadline time sleep rest =
    if leb deadline (time + node_task_poll_interval)
    then returned (err (deadline_exceeded upid)) (latest deadline time)
    else rest

-- The `for` loop: `poll now` is the poll that is sent at the time `now`.
unfoldable pub wait_loop : ℕ → (ℕ → Poll) → Text → ℕ → ℕ → WaitOutcome
unfolding decide_poll
wait_loop zero poll upid deadline now = out_of_fuel
wait_loop (suc fuel) poll upid deadline now =
    let time = now + (poll now).latency in
    let rest = wait_loop fuel poll upid deadline (time + node_task_poll_interval) in
    by_deadline upid deadline now time
      (after_poll upid deadline time (decide_poll upid (poll now).reply) rest)

-- The context's own deadline counts if it comes before the cap.
abbrev pub wait_deadline : Option ℕ → ℕ → ℕ
wait_deadline none now = now + node_task_timeout_cap
wait_deadline (some deadline) now =
    if ltb (now + node_task_timeout_cap) deadline then now + node_task_timeout_cap else deadline

-- The rounds that a wait can take, with one more.
abbrev pub wait_fuel : ℕ
wait_fuel = node_task_timeout_cap + 1

unfoldable pub wait_for_node_task : (ℕ → Poll) → Text → Option ℕ → ℕ → WaitOutcome
unfolding wait_loop
wait_for_node_task poll upid context now =
    if is_empty upid
    then returned (ok tt) now
    else wait_loop wait_fuel poll upid (wait_deadline context now) now
