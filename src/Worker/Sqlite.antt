-- ===== src/Worker/Sqlite.antt =====
-- The demo ledger (src/runtime/ledger/sqlite_store.py) keeps the worker's contract.
use myndaix_runtime.Prelude.{ℕ, ◌≡◌, refl, ap, Option, none, some, Bool-cases, inl, inr}
use myndaix_runtime.Prelude.Table.{Table, get}
use myndaix_runtime.Ledger.State.{ok, is_open}
use myndaix_runtime.Demo.{
  DemoJob, DemoAttempt, DemoLedger, lease_job, get_attempt_job, attempt_job, complete_attempt,
  fail_attempt, open_job,
}
use myndaix_runtime.Demo.Contract.{reported-closed}
use myndaix_runtime.Worker.{WorkerLedger, WorkerJob}

abbrev pub worker_job : Option (ℕ × DemoJob) → Option WorkerJob
worker_job none = none
worker_job (some (k, j)) =
    some (record { to_agent = j.to_agent; repo_id = j.repo_id; base_ref = j.base_ref })

attempt_job-closed :
    (jobs : Table DemoJob) (x : Option DemoAttempt) → open_job x ≡ none → attempt_job jobs x ≡ none
unfolding attempt_job open_job
attempt_job-closed jobs none e = refl
attempt_job-closed jobs (some a) e = elim (Bool-cases (is_open a.status)) [
  | inl b ↦ absurd (let k = rw b at e in cc)
  | inr b ↦ rw b refl
]

pub reported-unheld :
    (k : ℕ) (m : DemoLedger) → open_job (get k m.attempt) ≡ none → get_attempt_job k m ≡ none
unfolding get_attempt_job
reported-unheld k m e = attempt_job-closed m.job (get k m.attempt) e

-- The store as the worker sees it: it has no heartbeat_attempt, so the worker sends none, which is a
-- heartbeat that does nothing.
abbrev pub sqlite_worker : WorkerLedger DemoLedger
sqlite_worker = record {
  lease_job = λ worker l. lease_job worker l;
  get_attempt_job = λ k l. worker_job (get_attempt_job k l);
  heartbeat_attempt = λ k l. ok l;
  complete_attempt = complete_attempt;
  fail_attempt = fail_attempt;
  complete_closes =
      λ k r s t e. ap worker_job (reported-unheld k t (reported-closed k r s t (inl e)));
  fail_closes = λ k r s t e. ap worker_job (reported-unheld k t (reported-closed k r s t (inr e)));
}
