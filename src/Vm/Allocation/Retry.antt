-- ===== src/Vm/Allocation/Retry.antt =====
-- submitQemuVMWithRetry of internal/provider/resource_qemu_vm.go, by its list of submissions.
use terraform_provider_proxm.Prelude.{
  ℕ, zero, suc, ◌+◌, ◌≤◌, ◌≡◌, refl, Bool, true, false, List, [], ◌∷◌, All, length, arith,
  Bool-cases, inl, inr,
}
use terraform_provider_proxm.Int.{ℤ}
use terraform_provider_proxm.Text.{Text}
use terraform_provider_proxm.Client.Error.{Result, ok, err}
use terraform_provider_proxm.Vm.Allocation.{
  NextId, Submit, Attempt, Submitted, is_vmid_conflict, may_retry, replaced, finish, tried,
  allocate_vmid, submit_loop, submit_with_retry, vmid_conflict_retries,
}

-- The submission was rejected since its VMID was claimed meanwhile.
abbrev pub is_conflict_reply : Result Text → Bool
is_conflict_reply (ok upid) = false
is_conflict_reply (err e) = is_vmid_conflict e

abbrev pub IsConflict : Attempt → Type 0
IsConflict a = is_conflict_reply a.reply ≡ true

-- The last submission used the plan's VMID, and its task is the result; those before it conflicted.
abbrev pub Accepted : Text → ℤ → List Attempt → Type 0
Accepted upid vm_id [] = ⊥
Accepted upid vm_id (a ∷ attempts) =
    (a.vm_id ≡ vm_id) × (a.reply ≡ ok upid) × All IsConflict attempts

abbrev Answered : Result Text → ℤ → List Attempt → Type 0
Answered (ok upid) vm_id attempts = Accepted upid vm_id attempts
Answered (err e) vm_id attempts = Unit

-- What a run of the loop with `left` retries shows, after `before` submissions.
pub record Honest (auto : Bool) (left before : ℕ) (s : Submitted) : Type 0 where
  pub answered : Answered s.result s.vm_id s.attempts
  pub bounded : length s.attempts ≤ suc (left + before)
  pub once : auto ≡ false → length s.attempts ≡ suc before

module _ (next_id : NextId) (submit : Submit) (start : ℤ) (auto : Bool) where
  finish-Honest :
      (left : ℕ) (vm_id : ℤ) (asked : ℕ) (attempts : List Attempt) (r : Result Text)
      → submit attempts vm_id ≡ r
      → All IsConflict attempts
      → Honest auto left
          (length attempts)
          (finish r vm_id asked (record { vm_id = vm_id; reply = r } ∷ attempts))
  finish-Honest left vm_id asked attempts r e conflicts = record {
    answered = by_reply r;
    bounded = omega arith;
    once = λ _. refl;
  }
    where
      by_reply :
          (x : Result Text) → Answered x vm_id (record { vm_id = vm_id; reply = x } ∷ attempts)
      by_reply (ok upid) = (refl, refl, conflicts)
      by_reply (err e) = tt

  retried_auto :
      (a : Bool) (r : Result Text)
      → may_retry a r ≡ true
      → (a ≡ true) × (is_conflict_reply r ≡ true)
  retried_auto a (ok upid) h = cc
  retried_auto true (err e) h = (refl, h)
  retried_auto false (err e) h = cc

  retried-Honest :
      (left before : ℕ) (s : Submitted)
      → auto ≡ true
      → Honest auto left (suc before) s
      → Honest auto (suc left) before s
  retried-Honest left before s a h = record {
    answered = h.answered;
    bounded = omega (arith, h.bounded);
    once = λ x. cc;
  }

  replaced-Honest :
      (left : ℕ) (vm_id : ℤ) (tried : Attempt) (attempts : List Attempt) (again : ℤ → ℕ → Submitted)
      (r : Result ℤ × ℕ)
      → auto ≡ true
      → ((fresh : ℤ) (asked : ℕ) → Honest auto left (suc (length attempts)) (again fresh asked))
      → Honest auto (suc left) (length attempts) (replaced r vm_id (tried ∷ attempts) again)
  replaced-Honest left vm_id tried attempts again (ok fresh, asked) a h =
      retried-Honest left (length attempts) (again fresh asked) a (h fresh asked)
  replaced-Honest left vm_id tried attempts again (err e, asked) a h = record {
    answered = tt;
    bounded = omega arith;
    once = λ x. cc;
  }

  submit_loop-Honest :
      (left : ℕ) (vm_id : ℤ) (asked : ℕ) (attempts : List Attempt)
      → All IsConflict attempts
      → Honest auto left
          (length attempts)
          (submit_loop next_id submit start auto left vm_id asked attempts)
  unfolding submit_loop
  submit_loop-Honest zero vm_id asked attempts conflicts =
      finish-Honest zero vm_id asked attempts (submit attempts vm_id) refl conflicts
  submit_loop-Honest (suc left) vm_id asked attempts conflicts =
      elim (Bool-cases (may_retry auto (submit attempts vm_id))) [
        | inl again ↦
            let (a, conflict) = retried_auto auto (submit attempts vm_id) again in
            rw again (
              replaced-Honest left vm_id (record { vm_id = vm_id; reply = submit attempts vm_id })
                attempts _ (allocate_vmid next_id start asked) a
                (λ fresh asked'.
                  submit_loop-Honest left fresh asked'
                    (tried next_id submit start auto vm_id attempts) (conflict, conflicts)))
        | inr last ↦
            rw last
              (finish-Honest (suc left) vm_id asked attempts (submit attempts vm_id) refl conflicts)
      ]

-- A create or clone is submitted at most six times, and once if its VMID was given. A result without
-- error is the task of the last submission, whose VMID is the one that the plan ends with, and every
-- submission before it was rejected since its VMID had been claimed meanwhile.
pub submit_with_retry-Honest :
    (next_id : NextId) (submit : Submit) (start : ℤ) (auto : Bool) (vm_id : ℤ) (asked : ℕ)
    → Honest auto 5 0 (submit_with_retry next_id submit start auto vm_id asked)
unfolding submit_with_retry
submit_with_retry-Honest next_id submit start auto vm_id asked =
    submit_loop-Honest next_id submit start auto vmid_conflict_retries vm_id asked [] tt
