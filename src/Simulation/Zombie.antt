-- ===== src/Simulation/Zombie.antt =====
-- The zombie worker of src/runtime/ledger/postgres_store.py: its attempt was closed under it, by the
-- janitor, by `cancel` or by itself, and it still reports.
use myndaix_runtime.Prelude.{ℕ, ◌≡◌, refl, false, none, some, arith}
use myndaix_runtime.Prelude.Table.{get}
use myndaix_runtime.Contracts.{Registry, Result}
use myndaix_runtime.Ledger.State.{Attempt, Ledger, raise, lost_lease, is_open}
use myndaix_runtime.Ledger.Lease.{get_attempt_job, attempt_job, heartbeat_attempt}
use myndaix_runtime.Ledger.Finish.{
  complete_attempt, complete_row, complete_job, fail_attempt, fail_row,
}
use myndaix_runtime.Machine.Attempts.{Shut, Moves-Shut}
use myndaix_runtime.Simulation.{Run}
use myndaix_runtime.Simulation.Safety.{empty, Run-Moves, reached}

complete_job-closed :
    (k : ℕ) (result : Result) (now : ℕ) (a : Attempt) (l : Ledger)
    → is_open a.status ≡ false
    → complete_job k result now a (get a.job_id l.jobs) l ≡ raise lost_lease
unfolding complete_job
complete_job-closed k result now a l e = ground arith

module _ (l : Ledger) (k job : ℕ) (s : Shut k job l.attempts) where
  complete_attempt-Shut :
      (result : Result) (now : ℕ) → complete_attempt k result now l ≡ raise lost_lease
  unfolding complete_attempt complete_row
  complete_attempt-Shut result now = rw s.there (complete_job-closed k result now s.row l s.shut)

  fail_attempt-Shut :
      (registry : Registry) (result : Result) (now : ℕ)
      → fail_attempt registry k result now l ≡ raise lost_lease
  unfolding fail_attempt fail_row
  fail_attempt-Shut registry result now = rw (s.there, s.shut) refl

  heartbeat_attempt-Shut : (now : ℕ) → heartbeat_attempt k now l ≡ raise lost_lease
  unfolding heartbeat_attempt
  heartbeat_attempt-Shut now = rw (s.there, s.shut) refl

  pub get_attempt_job-Shut : get_attempt_job k l ≡ none
  unfolding get_attempt_job attempt_job
  get_attempt_job-Shut = rw (s.there, s.shut) refl

pub stays-Shut :
    {registry : Registry} {cap : ℕ} {l m : Ledger}
    → Run registry cap empty l
    → Run registry cap l m
    → (k : ℕ) (a : Attempt) → get k l.attempts ≡ some a
    → is_open a.status ≡ false
    → Shut k a.job_id m.attempts
stays-Shut r s k a g e =
    Moves-Shut k a.job_id (Run-Moves s (reached r))
      (record { row = a; there = g; owner = refl; shut = e })

-- After an attempt has been closed, every verb of its worker is refused on every later ledger: its
-- completion, its failure and its heartbeat raise LostLease, and it gets no job to run.
pub zombie_is_fenced :
    {registry : Registry} {cap : ℕ} {l m : Ledger}
    → Run registry cap empty l
    → Run registry cap l m
    → (k : ℕ) (a : Attempt) → get k l.attempts ≡ some a
    → is_open a.status ≡ false
    → (result : Result) (now : ℕ)
    → (complete_attempt k result now m ≡ raise lost_lease)
      × (fail_attempt registry k result now m ≡ raise lost_lease)
      × (heartbeat_attempt k now m ≡ raise lost_lease)
      × (get_attempt_job k m ≡ none)
zombie_is_fenced {registry} {cap} {l} {m} r s k a g e result now =
    let z = stays-Shut r s k a g e in
    (
      complete_attempt-Shut m k a.job_id z result now,
      fail_attempt-Shut m k a.job_id z registry result now,
      heartbeat_attempt-Shut m k a.job_id z now,
      get_attempt_job-Shut m k a.job_id z,
    )
