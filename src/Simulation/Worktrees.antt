-- ===== src/Simulation/Worktrees.antt =====
-- The two janitors of src/runtime/ledger/postgres_store.py against the living: the sweep of worktrees
-- (reapable_attempt_ids) and the reclaim of expired leases (reclaim_expired).
use myndaix_runtime.Prelude.{
  ℕ, ◌+◌, ◌≤◌, ◌≡◌, refl, Bool, true, false, Option, none, some, mem, arith, ◌==◌, ◌∷◌, [],
  Bool-cases, inl, inr,
}
use myndaix_runtime.Prelude.Table.{Table, get, select}
use myndaix_runtime.Prelude.Keyed.{IsKeyed, select-IsRow}
use myndaix_runtime.Contracts.{Registry}
use myndaix_runtime.Ledger.State.{Attempt, Ledger, is_open}
use myndaix_runtime.Ledger.Lease.{get_attempt_job}
use myndaix_runtime.Ledger.Janitor.{reapable_attempt_ids, is_reapable, ended_before, keys}
use myndaix_runtime.Machine.Attempts.{Filed, Moves-Filed}
use myndaix_runtime.Simulation.{Run}
use myndaix_runtime.Simulation.Safety.{empty, empty_core, verbs_refine_machine}
use myndaix_runtime.Simulation.Zombie.{stays-Shut, get_attempt_job-Shut}

empty-Filed : Filed empty_core
unfolding get
empty-Filed = record { keyed = tt; fresh = λ k h. refl }

pub filed : {registry : Registry} {cap : ℕ} {l : Ledger} → Run registry cap empty l → Filed l.core
filed r = Moves-Filed (verbs_refine_machine r) empty-Filed

pub mem-keys {ℓ} :
    {V : Type ℓ} (k : ℕ) (t : Table V) → mem k (keys t) ≡ true → (v : V) × (get k t ≡ some v)
unfolding keys get
mem-keys k [] e = absurd (cc)
mem-keys k ((i, v) ∷ t) e = elim (Bool-cases (i == k)) [
  | inl h ↦ (v, rw h refl)
  | inr h ↦ let (w, g) = mem-keys k t (rw h at e) in (w, rw h g)
]

-- A row behind a key that was selected.
pub mem-select {ℓ} :
    {V : Type ℓ} (p : ℕ → V → Bool) (k : ℕ) (t : Table V)
    → IsKeyed t
    → mem k (keys (select p t)) ≡ true
    → (v : V) × (get k t ≡ some v) × (p k v ≡ true)
mem-select p k t h e =
    let (v, g) = mem-keys k (select p t) e in let (r, q) = select-IsRow p k v t h g in (v, r, q)

ended :
    (min_age now : ℕ) (o : Option ℕ)
    → ended_before min_age now o ≡ true
    → (t : ℕ) × (o ≡ some t) × (t + min_age ≤ now)
ended min_age now none e = absurd (cc)
ended min_age now (some t) e = (t, refl, ground arith)

reapable-row :
    (min_age now k : ℕ) (l : Ledger)
    → IsKeyed l.attempts
    → mem k (reapable_attempt_ids min_age now l) ≡ true
    → (a : Attempt) × (get k l.attempts ≡ some a)
      × (is_open a.status ≡ false)
      × ((t : ℕ) × (a.ended_at ≡ some t) × (t + min_age ≤ now))
reapable-row min_age now k l h e =
    let (a, g, q) =
      mem-select (λ _ a. is_reapable min_age now a) k l.attempts h
        (unfold reapable_attempt_ids in e) in
    (a, g, ground arith, ended min_age now a.ended_at (ground arith))

-- An attempt whose worktree the sweep may remove ended at least min_age ago, and on no later ledger
-- does its worker get the job to run in it.
pub reaped_worktree_is_dead :
    {registry : Registry} {cap : ℕ} {l m : Ledger}
    → Run registry cap empty l
    → Run registry cap l m
    → (min_age now k : ℕ) → mem k (reapable_attempt_ids min_age now l) ≡ true
    → ((a : Attempt) × (get k l.attempts ≡ some a)
        × ((t : ℕ) × (a.ended_at ≡ some t) × (t + min_age ≤ now)))
      × (get_attempt_job k m ≡ none)
reaped_worktree_is_dead {registry} {cap} {l} r s min_age now k e =
    let (a, g, shut, t) = reapable-row min_age now k l (filed r).keyed e in
    ((a, g, t), get_attempt_job-Shut _ k a.job_id (stays-Shut r s k a g shut))
