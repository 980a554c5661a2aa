-- ===== src/Demo.antt =====
-- The demo ledger, class Ledger of src/runtime/ledger/sqlite_store.py, and its agreement with the
-- worker's contract. A key is the number that `_id` gives next; the row order is the order of
-- insertion, so that ORDER BY created_at, rowid is the order of the table.
pub mod Contract
use myndaix_runtime.Prelude.{
  ℕ, suc, ◌+◌, Bool, true, false, ◌&&◌, Option, none, some, List, [], ◌∷◌, ◌++◌, ◌==◌,
  if◌then◌else◌,
}
use myndaix_runtime.Prelude.Table.{Table, get, update_where, insert, count, select}
use myndaix_runtime.Contracts.{
  Text, JobStatus, queued, leased, done, failed, AttemptStatus, open_attempt, ok_attempt,
  failed_attempt, OutboundStatus, pending, sent, Result, ErrorClass,
}
use myndaix_runtime.Ledger.State.{Outcome, ok, raise, lost_lease, missing_row, is_queued, is_open}

pub record DemoJob : Type 0 where
  pub parent_id : Option ℕ
  pub to_agent : ℕ
  pub body : Text
  pub context : Text
  pub reply_target : Text
  pub repo_id : Option ℕ
  pub base_ref : Option Text
  pub artifact_ref : Option Text
  pub status : JobStatus

pub record DemoAttempt : Type 0 where
  pub job_id : ℕ
  pub worker_id : ℕ
  pub status : AttemptStatus
  pub result : Option Result
  pub error_class : Option ErrorClass

pub record DemoReply : Type 0 where
  pub job_id : ℕ
  pub reply_target : Text
  pub body : Text
  pub status : OutboundStatus

pub record DemoLedger : Type 0 where
  pub next_id : ℕ
  pub job : Table DemoJob
  pub attempt : Table DemoAttempt
  pub outbound : Table DemoReply

-- What the caller of submit_job gives.
pub record DemoRequest : Type 0 where
  pub to_agent : ℕ
  pub prompt : Text
  pub reply_target : Text
  pub context : Text
  pub parent_id : Option ℕ
  pub repo_id : Option ℕ
  pub base_ref : Option Text

unfoldable pub submit_job : DemoRequest → DemoLedger → ℕ × DemoLedger
submit_job q l = (
  l.next_id,
  record l {
    next_id = suc l.next_id;
    job =
        insert l.next_id
          (record {
            parent_id = q.parent_id;
            to_agent = q.to_agent;
            body = q.prompt;
            context = q.context;
            reply_target = q.reply_target;
            repo_id = q.repo_id;
            base_ref = q.base_ref;
            artifact_ref = none;
            status = queued;
          })
          l.job;
  },
)

abbrev pub is_demo_queued : ℕ → DemoJob → Bool
is_demo_queued _ j = is_queued j.status

-- LIMIT 1
abbrev pub first_key : Table DemoJob → Option ℕ
first_key [] = none
first_key ((k, _) ∷ _) = some k

unfoldable pub lease_row : ℕ → Option ℕ → DemoLedger → Option ℕ × DemoLedger
lease_row worker none l = (none, l)
lease_row worker (some k) l = (
  some l.next_id,
  record l {
    next_id = suc l.next_id;
    job = update_where (λ i _. i == k) (λ j. record j { status = leased }) l.job;
    attempt =
        insert l.next_id
          (record {
            job_id = k;
            worker_id = worker;
            status = open_attempt;
            result = none;
            error_class = none;
          })
          l.attempt;
  },
)

unfoldable pub lease_job : ℕ → DemoLedger → Option ℕ × DemoLedger
unfolding lease_row
lease_job worker l = lease_row worker (first_key (select is_demo_queued l.job)) l

abbrev pub is_leased : JobStatus → Bool
is_leased leased = true
is_leased _ = false

unfoldable pub leased_job : ℕ → Option DemoJob → Option (ℕ × DemoJob)
leased_job k none = none
leased_job k (some j) = if is_leased j.status then some (k, j) else none

unfoldable pub attempt_job : Table DemoJob → Option DemoAttempt → Option (ℕ × DemoJob)
attempt_job jobs none = none
attempt_job jobs (some a) =
    let found = leased_job a.job_id (get a.job_id jobs) in if is_open a.status then found else none

unfoldable pub get_attempt_job : ℕ → DemoLedger → Option (ℕ × DemoJob)
unfolding leased_job attempt_job
get_attempt_job k l = attempt_job l.job (get k l.attempt)

-- SELECT job_id FROM attempt WHERE id=? AND status='open'
unfoldable pub open_job : Option DemoAttempt → Option ℕ
open_job none = none
open_job (some a) = if is_open a.status then some a.job_id else none

-- UPDATE job SET status='done', artifact_ref=? WHERE id=?, whatever its status.
unfoldable pub finish_job : ℕ → Result → Table DemoJob → Table DemoJob
finish_job k result t =
    update_where (λ i _. i == k)
      (λ j. record j { status = done; artifact_ref = result.artifact_ref }) t

-- The reply; `rt` is None without a row, and its subscript raises.
unfoldable pub reply_with : ℕ → Result → Option DemoJob → DemoLedger → Outcome DemoLedger
reply_with k result none l = raise missing_row
reply_with k result (some j) l = ok (record l {
  next_id = suc l.next_id;
  outbound =
      insert l.next_id
        (record { job_id = k; reply_target = j.reply_target; body = result.text; status = pending })
        l.outbound;
})

unfoldable pub complete_open : ℕ → Result → Option ℕ → DemoLedger → Outcome DemoLedger
unfolding finish_job reply_with
complete_open attempt result none l = raise lost_lease
complete_open attempt result (some k) l =
    let jobs = finish_job k result l.job in
    reply_with k result (get k jobs) (record l {
      attempt =
          update_where (λ i _. i == attempt)
            (λ a. record a { status = ok_attempt; result = some result }) l.attempt;
      job = jobs;
    })

unfoldable pub complete_attempt : ℕ → Result → DemoLedger → Outcome DemoLedger
unfolding open_job complete_open
complete_attempt attempt result l =
    complete_open attempt result (open_job (get attempt l.attempt)) l

unfoldable pub fail_open : ℕ → Result → Option ℕ → DemoLedger → Outcome DemoLedger
fail_open attempt result none l = raise lost_lease
fail_open attempt result (some k) l = ok (record l {
  attempt =
      update_where (λ i _. i == attempt)
        (λ a. record a {
          status = failed_attempt;
          result = some result;
          error_class = result.error_class;
        })
        l.attempt;
  job = update_where (λ i _. i == k) (λ j. record j { status = failed }) l.job;
})

unfoldable pub fail_attempt : ℕ → Result → DemoLedger → Outcome DemoLedger
unfolding open_job fail_open
fail_attempt attempt result l = fail_open attempt result (open_job (get attempt l.attempt)) l

abbrev pub is_demo_pending : OutboundStatus → Bool
is_demo_pending pending = true
is_demo_pending _ = false

unfoldable pub pending_outbound : DemoLedger → Table DemoReply
pending_outbound l = select (λ _ o. is_demo_pending o.status) l.outbound

unfoldable pub mark_sent : ℕ → DemoLedger → DemoLedger
mark_sent k l = record l {
  outbound = update_where (λ i _. i == k) (λ o. record o { status = sent }) l.outbound;
}

unfoldable pub count_queued : DemoLedger → ℕ
count_queued l = count is_demo_queued l.job
