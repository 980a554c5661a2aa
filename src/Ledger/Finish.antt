-- ===== src/Ledger/Finish.antt =====
-- PostgresLedger.complete_attempt, fail_attempt and cancel (postgres_store.py).
use myndaix_runtime.Prelude.{
  ℕ, suc, Bool, ◌&&◌, ◌||◌, Option, none, some, List, [], ◌∷◌, ◌++◌, ltb, leb, ◌==◌, if◌then◌else◌,
}
use myndaix_runtime.Prelude.Table.{Table, get, update_where, insert}
use myndaix_runtime.Contracts.{
  Text, JobStatus, queued, done, failed, dead, ok_attempt, failed_attempt, pending, Result,
  ErrorClass, retryable, terminal, needs_human, Registry, requeue_safe,
}
use myndaix_runtime.Ledger.State.{
  Job, Attempt, InboundEvent, Outbound, Core, Ledger, Outcome, ok, raise, lost_lease, missing_row,
  Reason, poison, not_retry_safe, DeadLetter, is_live, is_queued, is_open, attempt_count,
  open_count, max_attempts, close_where, set_status_where, free_slot,
}

-- SELECT … FROM job j JOIN inbound_event ie ON ie.id = j.inbound_event_id: no row without the event.
unfoldable pub reply_to : ℕ → Text → Option InboundEvent → Option Outbound
reply_to job_id body none = none
reply_to job_id body (some ie) = some (record {
  job_id = job_id;
  transport = ie.transport;
  reply_target = ie.reply_target;
  body = body;
  status = pending;
  provider_msg_id = none;
  tries = 0;
})

abbrev pub event_row : Table InboundEvent → Option ℕ → Option InboundEvent
event_row events none = none
event_row events (some e) = get e events

unfoldable pub reply_row : Table InboundEvent → ℕ → Job → Text → Option Outbound
unfolding reply_to
reply_row events job_id j body = reply_to job_id body (event_row events j.inbound_event_id)

unfoldable pub queue_reply : ℕ → Option Outbound → Table Outbound → Table Outbound
queue_reply id none t = t
queue_reply id (some o) t = insert id o t

-- The CTEs `closed` and `done`.
unfoldable pub complete_core : ℕ → ℕ → Result → ℕ → Core → Core
complete_core attempt_id job_id result now c = record {
  next_id = suc c.next_id;
  attempts =
      update_where (λ i _. i == attempt_id)
        (λ a. record a { status = ok_attempt; ended_at = some now; result = some result })
        c.attempts;
  jobs =
      update_where (λ i j. i == job_id && is_live j.status)
        (λ j. record j { status = done; artifact_ref = result.artifact_ref }) c.jobs;
}

-- The statement after its `locked` CTE has found the attempt and its job.
unfoldable pub complete_locked : ℕ → Result → ℕ → ℕ → Job → Ledger → Ledger
unfolding complete_core reply_row queue_reply
complete_locked attempt_id result now job_id j l = record l {
  core = complete_core attempt_id job_id result now l.core;
  repo_concurrency = free_slot j.repo_id l.repo_concurrency;
  outbounds = queue_reply l.next_id (reply_row l.inbound_events job_id j result.text) l.outbounds;
}

-- The `locked` CTE: an open attempt of a live job, or no row.
unfoldable pub complete_job : ℕ → Result → ℕ → Attempt → Option Job → Ledger → Outcome Ledger
complete_job attempt_id result now a none l = raise lost_lease
complete_job attempt_id result now a (some j) l =
    if is_open a.status && is_live j.status
    then ok (complete_locked attempt_id result now a.job_id j l)
    else raise lost_lease

unfoldable pub complete_row : ℕ → Result → ℕ → Option Attempt → Ledger → Outcome Ledger
complete_row attempt_id result now none l = raise lost_lease
complete_row attempt_id result now (some a) l =
    complete_job attempt_id result now a (get a.job_id l.jobs) l

unfoldable pub complete_attempt : ℕ → Result → ℕ → Ledger → Outcome Ledger
unfolding complete_row complete_job complete_locked
complete_attempt attempt_id result now l =
    complete_row attempt_id result now (get attempt_id l.attempts) l

-- Where fail_attempt sends the job.
pub data Route : Type 0 where
  to_queue to_failed : Route
  to_dead : Reason → Route

abbrev pub route_status : Route → JobStatus
route_status to_queue = queued
route_status to_failed = failed
route_status (to_dead _) = dead

-- `n_att` counts the attempts of the job, the one just closed included.
unfoldable pub route : Registry → Option ErrorClass → ℕ → ℕ → Route
route registry (some retryable) to_agent n_att =
    if requeue_safe registry to_agent
    then (if leb max_attempts n_att then to_dead poison else to_queue)
    else to_dead not_retry_safe
route registry (some terminal) to_agent n_att = to_failed
route registry (some needs_human) to_agent n_att = to_failed
route registry none to_agent n_att = to_failed

unfoldable pub fail_core : ℕ → ℕ → Result → ℕ → JobStatus → Core → Core
fail_core attempt_id job_id result now s c =
    set_status_where (λ i j. i == job_id && is_live j.status) s
      (record c {
        attempts =
            update_where (λ i _. i == attempt_id)
              (λ a. record a {
                status = failed_attempt;
                result = some result;
                error_class = result.error_class;
                ended_at = some now;
              })
              c.attempts;
      })

-- INSERT INTO dead_letter, if the job goes to 'dead'.
unfoldable pub bury : ℕ → Route → List DeadLetter → List DeadLetter
bury job_id (to_dead reason) ds = ds ++ record { source_id = job_id; reason = reason } ∷ []
bury job_id to_queue ds = ds
bury job_id to_failed ds = ds

unfoldable pub fail_locked : Registry → ℕ → Result → ℕ → ℕ → Job → Ledger → Ledger
unfolding fail_core bury
fail_locked registry attempt_id result now job_id j l =
    let r = route registry result.error_class j.to_agent (attempt_count l.attempts job_id) in
    record l {
      core = fail_core attempt_id job_id result now (route_status r) l.core;
      dead_letters = bury job_id r l.dead_letters;
      repo_concurrency = free_slot j.repo_id l.repo_concurrency;
    }

unfoldable pub fail_job : Registry → ℕ → Result → ℕ → Attempt → Option Job → Ledger → Outcome Ledger
fail_job registry attempt_id result now a none l = raise missing_row
fail_job registry attempt_id result now a (some j) l =
    ok (fail_locked registry attempt_id result now a.job_id j l)

unfoldable pub fail_row : Registry → ℕ → Result → ℕ → Option Attempt → Ledger → Outcome Ledger
fail_row registry attempt_id result now none l = raise lost_lease
fail_row registry attempt_id result now (some a) l =
    if is_open a.status
    then fail_job registry attempt_id result now a (get a.job_id l.jobs) l
    else raise lost_lease

unfoldable pub fail_attempt : Registry → ℕ → Result → ℕ → Ledger → Outcome Ledger
unfolding fail_row fail_job fail_locked
fail_attempt registry attempt_id result now l =
    fail_row registry attempt_id result now (get attempt_id l.attempts) l

-- cancel, statement 1: close the job's open attempt.
unfoldable pub cancel_close : ℕ → ℕ → Ledger → Ledger
cancel_close job_id now l = record l {
  core = close_where (λ _ a. a.job_id == job_id && is_open a.status) terminal now l.core;
}

-- cancel, statement 2: the job goes to 'dead'.
unfoldable pub cancel_kill : ℕ → Ledger → Ledger
cancel_kill job_id l = record l {
  core =
      set_status_where (λ i j. i == job_id && (is_queued j.status || is_live j.status)) dead l.core;
}

-- cancel, statement 3: the counter, if statement 1 closed an attempt.
unfoldable pub cancel_slot : Bool → Option Job → Table ℕ → Table ℕ
cancel_slot closed none rc = rc
cancel_slot closed (some j) rc = if closed then free_slot j.repo_id rc else rc

unfoldable pub cancel_free : ℕ → Bool → Ledger → Ledger
unfolding cancel_slot
cancel_free job_id closed l = record l {
  repo_concurrency = cancel_slot closed (get job_id l.jobs) l.repo_concurrency;
}

unfoldable pub cancel : ℕ → ℕ → Ledger → Ledger
unfolding cancel_close cancel_kill cancel_free
cancel job_id now l =
    let closed = ltb 0 (open_count l.attempts job_id) in
    cancel_free job_id closed (cancel_kill job_id (cancel_close job_id now l))
