-- ===== src/Worker/Postgres.antt =====
-- PostgresLedger (src/runtime/ledger/postgres_store.py) keeps the worker's contract.
use myndaix_runtime.Prelude.{
  ℕ, ◌≡◌, refl, sym, ap, ◌∙◌, Bool, Option, none, some, ==_refl, Bool-cases, inl, inr,
}
use myndaix_runtime.Prelude.Table.{get, get-update_where}
use myndaix_runtime.Contracts.{Registry, Result, ok_attempt, failed_attempt}
use myndaix_runtime.Ledger.State.{
  Job, Attempt, Ledger, Outcome, ok, raise, is_open, set_status_where,
}
use myndaix_runtime.Ledger.Lease.{lease_job, get_attempt_job, heartbeat_attempt}
use myndaix_runtime.Ledger.Finish.{
  complete_attempt, complete_locked, complete_core, fail_attempt, fail_row, fail_job, fail_locked,
  fail_core,
}
use myndaix_runtime.Machine.Attempts.{Shut}
use myndaix_runtime.Simulation.Finish.{complete_attempt-Completion}
use myndaix_runtime.Simulation.Zombie.{get_attempt_job-Shut}
use myndaix_runtime.Worker.{WorkerLedger, WorkerJob}

abbrev pub worker_job : Option (ℕ × Job) → Option WorkerJob
worker_job none = none
worker_job (some (k, j)) =
    some (record { to_agent = j.to_agent; repo_id = j.repo_id; base_ref = j.base_ref })

complete_locked-Shut :
    (k : ℕ) (result : Result) (now : ℕ) (a : Attempt) (j : Job) (l : Ledger)
    → get k l.attempts ≡ some a
    → Shut k a.job_id (complete_locked k result now a.job_id j l).attempts
unfolding complete_locked complete_core
complete_locked-Shut k result now a j l g = record {
  row = record a { status = ok_attempt; ended_at = some now; result = some result };
  there = rw (get-update_where, g, ==_refl k) refl;
  owner = refl;
  shut = refl;
}

pub complete_attempt-unheld :
    (k : ℕ) (result : Result) (now : ℕ) (l m : Ledger)
    → complete_attempt k result now l ≡ ok m
    → get_attempt_job k m ≡ none
complete_attempt-unheld k result now l m e =
    let c = complete_attempt-Completion k result now l m e in
    ap (λ (x : Ledger). get_attempt_job k x) c.done
    ∙ get_attempt_job-Shut _ k c.a.job_id (complete_locked-Shut k result now c.a c.j l c.held)

-- The attempt after a failed report.
abbrev unheld : ℕ → Outcome Ledger → Option (ℕ × Job)
unheld k (raise e) = none
unheld k (ok l) = get_attempt_job k l

fail_locked-Shut :
    (registry : Registry) (k : ℕ) (result : Result) (now : ℕ) (a : Attempt) (j : Job) (l : Ledger)
    → get k l.attempts ≡ some a
    → Shut k a.job_id (fail_locked registry k result now a.job_id j l).attempts
unfolding fail_locked fail_core set_status_where
fail_locked-Shut registry k result now a j l g = record {
  row = record a {
    status = failed_attempt;
    result = some result;
    error_class = result.error_class;
    ended_at = some now;
  };
  there = rw (get-update_where, g, ==_refl k) refl;
  owner = refl;
  shut = refl;
}

pub fail_attempt-unheld :
    (registry : Registry) (k : ℕ) (result : Result) (now : ℕ) (l m : Ledger)
    → fail_attempt registry k result now l ≡ ok m
    → get_attempt_job k m ≡ none
unfolding fail_attempt
fail_attempt-unheld registry k result now l m e =
    ap (λ (o : Outcome Ledger). unheld k o) (sym e) ∙ row (get k l.attempts) refl
  where
    of_job :
        (a : Attempt) (o : Option Job)
        → get k l.attempts ≡ some a
        → unheld k (fail_job registry k result now a o l) ≡ none
    of_job a none g = unfold fail_job in refl
    of_job a (some j) g =
        unfold fail_job in
        get_attempt_job-Shut (fail_locked registry k result now a.job_id j l) k a.job_id
          (fail_locked-Shut registry k result now a j l g)

    row :
        (o : Option Attempt)
        → get k l.attempts ≡ o
        → unheld k (fail_row registry k result now o l) ≡ none
    row none g = unfold fail_row in refl
    row (some a) g =
        unfold fail_row in
        elim (Bool-cases (is_open a.status)) [
          | inl b ↦ rw b (of_job a (get a.job_id l.jobs) g)
          | inr b ↦ rw b refl
        ]

-- The store as a worker of the pool sees it, at one instant and with the rows that others hold.
abbrev pub postgres_worker : Registry → ℕ → (ℕ → Bool) → ℕ → WorkerLedger Ledger
postgres_worker registry cap locked now = record {
  lease_job = λ worker l. lease_job cap locked worker now l;
  get_attempt_job = λ k l. worker_job (get_attempt_job k l);
  heartbeat_attempt = λ k l. heartbeat_attempt k now l;
  complete_attempt = λ k r l. complete_attempt k r now l;
  fail_attempt = λ k r l. fail_attempt registry k r now l;
  complete_closes = λ k r s t e. ap worker_job (complete_attempt-unheld k r now s t e);
  fail_closes = λ k r s t e. ap worker_job (fail_attempt-unheld registry k r now s t e);
}
