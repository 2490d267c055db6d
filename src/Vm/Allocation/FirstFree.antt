-- ===== src/Vm/Allocation/FirstFree.antt =====
-- allocateVMID of internal/provider/resource_qemu_vm.go, against its candidates one by one.
use terraform_provider_proxm.Prelude.{
  ℕ, zero, suc, ◌+◌, ◌-◌, ◌<◌, ◌≡◌, ◌↔◌, refl, sym, ◌∙◌, ap, subst, not, if◌then◌else◌, Bool, true,
  false, some, arith,
}
use terraform_provider_proxm.Int.{ℤ, pos}
use terraform_provider_proxm.Client.Error.{Result, ok, err}
use terraform_provider_proxm.Vm.Allocation.{
  NextId, vmid_maximum, is_taken, after_answer, walk, allocate_vmid,
}

-- The candidate is taken, by the answer to its request.
abbrev pub refuses : Result ℤ → Bool
refuses (ok vm_id) = false
refuses (err e) = is_taken e

-- `candidate + d` is the first of the `left` candidates that the cluster accepts, with the answer.
pub record IsFirstFree (next_id : NextId) (left candidate asked d : ℕ) (vm_id : ℤ) : Type 0 where
  pub bound : d < left
  pub taken : (i : ℕ) → i < d → refuses (next_id (asked + i) (some (candidate + i))) ≡ true
  pub free : next_id (asked + d) (some (candidate + d)) ≡ ok vm_id

plus_suc : (a b : ℕ) → a + suc b ≡ suc a + b
plus_suc a b = omega arith

plus_zero : (a : ℕ) → a + 0 ≡ a
plus_zero a = omega arith

module _ (next_id : NextId) where
  -- The candidates from the next one on, seen from this one.
  later :
      (left candidate asked d : ℕ) (vm_id : ℤ)
      → refuses (next_id asked (some candidate)) ≡ true
      → IsFirstFree next_id left (suc candidate) (suc asked) d vm_id
      → IsFirstFree next_id (suc left) candidate asked (suc d) vm_id
  later left candidate asked d vm_id first h = record {
    bound = omega (arith, h.bound);
    taken = earlier;
    free = shifted d h.free;
  }
    where
      shifted :
          (i : ℕ) {r : Result ℤ}
          → next_id (suc asked + i) (some (suc candidate + i)) ≡ r
          → next_id (asked + suc i) (some (candidate + suc i)) ≡ r
      shifted i e = rw (plus_suc asked i, plus_suc candidate i) e

      earlier : (i : ℕ) → i < suc d → refuses (next_id (asked + i) (some (candidate + i))) ≡ true
      earlier zero b = rw (plus_zero asked, plus_zero candidate) first
      earlier (suc i) b = rw (plus_suc asked i, plus_suc candidate i) (h.taken i (omega arith))

  -- The candidates from this one on, seen from the next.
  tail :
      (left candidate asked d : ℕ) (vm_id : ℤ)
      → IsFirstFree next_id (suc left) candidate asked (suc d) vm_id
      → IsFirstFree next_id left (suc candidate) (suc asked) d vm_id
  tail left candidate asked d vm_id h = record {
    bound = omega (arith, h.bound);
    taken = λ i b.
        rw (sym (plus_suc asked i), sym (plus_suc candidate i)) (h.taken (suc i) (omega arith));
    free = shifted d h.free;
  }
    where
      shifted :
          (i : ℕ) {r : Result ℤ}
          → next_id (asked + suc i) (some (candidate + suc i)) ≡ r
          → next_id (suc asked + i) (some (suc candidate + i)) ≡ r
      shifted i e = rw (sym (plus_suc asked i), sym (plus_suc candidate i)) e

  here :
      (left candidate asked : ℕ) (vm_id : ℤ)
      → IsFirstFree next_id left candidate asked 0 vm_id
      → next_id asked (some candidate) ≡ ok vm_id
  here left candidate asked vm_id h =
      subst (λ n. next_id n (some candidate) ≡ ok vm_id) (plus_zero asked)
        (subst (λ n. next_id (asked + 0) (some n) ≡ ok vm_id) (plus_zero candidate) h.free)

  -- A rest of the walk that finds a VMID finds the first free one.
  abbrev Finds : ℕ → ℕ → ℕ → ℤ → Type 0
  Finds left candidate asked vm_id = (d : ℕ) × IsFirstFree next_id left candidate asked d vm_id

  found_now :
      (left candidate asked : ℕ) (vm_id : ℤ)
      → next_id asked (some candidate) ≡ ok vm_id
      → Finds (suc left) candidate asked vm_id
  found_now left candidate asked vm_id e = (
    0,
    record {
      bound = omega arith;
      taken = λ i b. absurd (omega arith);
      free = rw (plus_zero asked, plus_zero candidate) e;
    },
  )

  walk_answer_sound :
      (left candidate asked : ℕ) {vm_id : ℤ} {asked' : ℕ} {rest : Result ℤ × ℕ} (r : Result ℤ)
      → next_id asked (some candidate) ≡ r
      → (rest ≡ (ok vm_id, asked') → Finds left (suc candidate) (suc asked) vm_id)
      → after_answer r (suc asked) rest ≡ (ok vm_id, asked')
      → Finds (suc left) candidate asked vm_id
  walk_answer_sound left candidate asked {vm_id} (ok v) e ih x =
      found_now left candidate asked vm_id (e ∙ ap (λ p. p.0) x)
  walk_answer_sound left candidate asked {vm_id} {asked'} {rest} (err f) e ih x =
      by_error (is_taken f) refl x
    where
      by_error :
          (b : Bool)
          → is_taken f ≡ b
          → (if not b then (err f, suc asked) else rest) ≡ (ok vm_id, asked')
          → Finds (suc left) candidate asked vm_id
      by_error true t y =
          let (d, found) = ih y in (suc d, later left candidate asked d vm_id (rw e t) found)
      by_error false t y = cc

  walk_sound :
      (start left candidate asked : ℕ) {vm_id : ℤ} {asked' : ℕ}
      → walk next_id start left candidate asked ≡ (ok vm_id, asked')
      → Finds left candidate asked vm_id
  unfolding walk
  walk_sound start zero candidate asked h = cc
  walk_sound start (suc left) candidate asked h =
      walk_answer_sound left candidate asked (next_id asked (some candidate)) refl
        (walk_sound start left (suc candidate) (suc asked)) h

  refused_on :
      (r : Result ℤ) (asked : ℕ) {rest : Result ℤ × ℕ}
      → refuses r ≡ true
      → after_answer r asked rest ≡ rest
  refused_on (ok v) asked x = cc
  refused_on (err f) asked x = rw x

  walk_complete :
      (start left candidate asked d : ℕ) (vm_id : ℤ)
      → IsFirstFree next_id left candidate asked d vm_id
      → (walk next_id start left candidate asked).0 ≡ ok vm_id
  unfolding walk
  walk_complete start zero candidate asked d vm_id h = absurd (omega (arith, h.bound))
  walk_complete start (suc left) candidate asked zero vm_id h =
      rw (here (suc left) candidate asked vm_id h) refl
  walk_complete start (suc left) candidate asked (suc d) vm_id h =
      ap (λ p. p.0) (refused_on (next_id asked (some candidate)) (suc asked) (first h))
      ∙ walk_complete start left (suc candidate) (suc asked) d vm_id
          (tail left candidate asked d vm_id h)
    where
      first :
          IsFirstFree next_id (suc left) candidate asked (suc d) vm_id
          → refuses (next_id asked (some candidate)) ≡ true
      first k =
          subst (λ n. refuses (next_id n (some candidate)) ≡ true) (plus_zero asked)
            (subst (λ n. refuses (next_id (asked + 0) (some n)) ≡ true) (plus_zero candidate)
              (k.taken 0 (omega arith)))

-- With a positive floor, an allocation succeeds exactly when some candidate from the floor to
-- 999999999 is accepted and every one below it was refused as taken by its own request, and then its
-- result is the cluster's answer to that candidate. Any other error ends the walk.
pub allocate_vmid-IsFirstFree :
    (next_id : NextId) (start asked : ℕ) (vm_id : ℤ)
    → 0 < start
    → ((allocate_vmid next_id (pos start) asked).0 ≡ ok vm_id)
      ↔ ((d : ℕ) × IsFirstFree next_id (suc vmid_maximum - start) start asked d vm_id)
unfolding allocate_vmid
allocate_vmid-IsFirstFree next_id zero asked vm_id h = absurd (omega arith)
allocate_vmid-IsFirstFree next_id (suc n) asked vm_id h = (
  λ e.
      walk_sound next_id (suc n) (suc vmid_maximum - suc n) (suc n) asked
        (ap (λ r. (r, (walk next_id (suc n) (suc vmid_maximum - suc n) (suc n) asked).1)) e),
  λ r. walk_complete next_id (suc n) (suc vmid_maximum - suc n) (suc n) asked r.0 vm_id r.1,
)
