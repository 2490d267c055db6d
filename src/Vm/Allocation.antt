-- ===== src/Vm/Allocation.antt =====
-- internal/provider/resource_qemu_vm.go: VMIDs are allocated by asking the cluster, and a create or
-- clone whose VMID was claimed meanwhile is submitted again with another. The cluster's answers are
-- parameters: they may change from one request to the next.
pub mod FirstFree
pub mod Retry
use terraform_provider_proxm.Prelude.{
  ℕ, zero, suc, ◌+◌, ◌-◌, Bool, true, false, ◌&&◌, ◌||◌, not, Option, none, some, List, [], ◌∷◌,
  ◌++◌, ◌==◌, ltb, leb, if◌then◌else◌,
}
use terraform_provider_proxm.Int.{ℤ, pos, negsuc}
use terraform_provider_proxm.Text.{Text, codes, contains}
use terraform_provider_proxm.Text.Decimal.{format_nat}
use terraform_provider_proxm.Client.Error.{
  Error, failure, wrapped, Result, ok, err, error_text, as_api_error,
}

-- qemuVMIDMaximum
abbrev pub vmid_maximum : ℕ
vmid_maximum = 999999999

-- qemuVMIDConflictRetries
abbrev pub vmid_conflict_retries : ℕ
vmid_conflict_retries = 5

abbrev refused : Option (ℕ × Text) → Bool
refused none = false
refused (some (status, body)) = (status == 400) && contains body (codes "already exists")

-- The 400 reply by which /cluster/nextid says that a candidate is taken.
unfoldable pub is_taken : Error → Bool
unfolding contains
is_taken e = refused (as_api_error e)

-- isQemuVMIDConflictError
unfoldable pub is_vmid_conflict : Error → Bool
unfolding contains error_text
is_vmid_conflict e = contains (error_text e) (codes "config file already exists")

no_free : ℕ → Error
unfolding format_nat
no_free start = failure (
    codes "no free VMID found in range ["
    ++ (format_nat start ++ (codes ", " ++ (format_nat vmid_maximum ++ codes "]"))))

-- GET /cluster/nextid: the number of the request, the candidate if there is one, and the answer.
abbrev pub NextId : Type 0
NextId = ℕ → Option ℕ → Result ℤ

-- The answer to one candidate, or the walk from the next one.
abbrev pub after_answer : Result ℤ → ℕ → Result ℤ × ℕ → Result ℤ × ℕ
after_answer (ok vm_id) asked rest = (ok vm_id, asked)
after_answer (err e) asked rest = if not (is_taken e) then (err e, asked) else rest

-- The `for` loop over candidates, with the number of those left.
unfoldable pub walk : NextId → ℕ → ℕ → ℕ → ℕ → Result ℤ × ℕ
unfolding is_taken no_free
walk next_id start zero candidate asked = (err (no_free start), asked)
walk next_id start (suc left) candidate asked =
    let rest = walk next_id start left (suc candidate) (suc asked) in
    after_answer (next_id asked (some candidate)) (suc asked) rest

-- The second result is the number of requests sent so far.
unfoldable pub allocate_vmid : NextId → ℤ → ℕ → Result ℤ × ℕ
unfolding walk
allocate_vmid next_id (negsuc n) asked = (next_id asked none, suc asked)
allocate_vmid next_id (pos zero) asked = (next_id asked none, suc asked)
allocate_vmid next_id (pos (suc n)) asked =
    walk next_id (suc n) (suc vmid_maximum - suc n) (suc n) asked

-- One POST of a create or clone: its VMID and the reply.
pub record Attempt : Type 0 where
  pub vm_id : ℤ
  pub reply : Result Text

-- The submissions, newest first, the VMID in the plan, the requests to /cluster/nextid, the result.
pub record Submitted : Type 0 where
  pub result : Result Text
  pub vm_id : ℤ
  pub asked : ℕ
  pub attempts : List Attempt

-- The server's reply to a POST, by the attempts before it and the VMID.
abbrev pub Submit : Type 0
Submit = List Attempt → ℤ → Result Text

-- A conflict of an allocated VMID is retried, every other reply is returned.
abbrev pub may_retry : Bool → Result Text → Bool
may_retry auto (ok upid) = false
may_retry auto (err e) = auto && is_vmid_conflict e

-- The loop goes on with a fresh VMID, or ends since there is none.
abbrev pub replaced : Result ℤ × ℕ → ℤ → List Attempt → (ℤ → ℕ → Submitted) → Submitted
replaced (err e, asked) vm_id attempts again = record {
  result = err (wrapped (codes "unable to allocate replacement VMID after conflict") e);
  vm_id = vm_id;
  asked = asked;
  attempts = attempts;
}
replaced (ok fresh, asked) vm_id attempts again = again fresh asked

abbrev pub finish : Result Text → ℤ → ℕ → List Attempt → Submitted
finish reply vm_id asked attempts = record {
  result = reply;
  vm_id = vm_id;
  asked = asked;
  attempts = attempts;
}

module _ (next_id : NextId) (submit : Submit) (start : ℤ) (auto : Bool) where
  abbrev pub tried : ℤ → List Attempt → List Attempt
  tried vm_id attempts = record { vm_id = vm_id; reply = submit attempts vm_id } ∷ attempts

  -- The `for` loop, with the number of retries left.
  unfoldable pub submit_loop : ℕ → ℤ → ℕ → List Attempt → Submitted
  unfolding allocate_vmid is_vmid_conflict
  submit_loop zero vm_id asked attempts =
      finish (submit attempts vm_id) vm_id asked (tried vm_id attempts)
  submit_loop (suc left) vm_id asked attempts =
      if may_retry auto (submit attempts vm_id)
      then replaced (allocate_vmid next_id start asked) vm_id (tried vm_id attempts)
          (λ fresh asked'. submit_loop left fresh asked' (tried vm_id attempts))
      else finish (submit attempts vm_id) vm_id asked (tried vm_id attempts)

  -- The model's VMID is that of the plan, and the number of requests sent to allocate it.
  unfoldable pub submit_with_retry : ℤ → ℕ → Submitted
  unfolding submit_loop
  submit_with_retry vm_id asked = submit_loop vmid_conflict_retries vm_id asked []
