-- ===== src/Ledger/State.antt =====
-- The tables of the Postgres ledger (src/runtime/ledger/schema.sql) as PostgresLedger uses them, and
-- the tests on a row that its statements share. A row's key is its uuid, a number; `next_id` is the
-- next uuid that `_new_id` gives, so a new key is fresh. Instants are numbers of seconds.
use myndaix_runtime.Prelude.{
  ℕ, ◌-◌, Bool, true, false, ◌&&◌, Option, none, some, List, holds, ◌==◌, ◌≡◌, refl, if◌then◌else◌,
}
use myndaix_runtime.Prelude.Table.{Table, get, count, update_where}
use myndaix_runtime.Contracts.{
  Text, JobStatus, queued, leased, running, done, failed, dead, AttemptStatus, open_attempt,
  failed_attempt, OutboundStatus, ErrorClass, Result,
}

-- class PostgresLedger: the policy constants
abbrev pub lease_seconds : ℕ
lease_seconds = 120

abbrev pub heartbeat_seconds : ℕ
heartbeat_seconds = 120

abbrev pub reclaim_batch : ℕ
reclaim_batch = 100

abbrev pub outbound_max_tries : ℕ
outbound_max_tries = 5

abbrev pub max_children : ℕ
max_children = 32

abbrev pub max_depth : ℕ
max_depth = 8

abbrev pub max_attempts : ℕ
max_attempts = 3

abbrev pub lease_max_repicks : ℕ
lease_max_repicks = 16

pub record Job : Type 0 where
  pub parent_id : Option ℕ
  pub root_id : ℕ
  pub depth : ℕ
  pub created_by : Text
  pub inbound_event_id : Option ℕ
  pub to_agent : ℕ
  pub body : Text
  pub context : Text
  pub priority : ℕ
  pub status : JobStatus
  pub repo_id : Option ℕ
  pub base_ref : Option Text
  pub artifact_ref : Option Text
  pub created_at : ℕ

pub record Attempt : Type 0 where
  pub job_id : ℕ
  pub worker_id : ℕ
  pub lease_expires_at : ℕ
  pub ended_at : Option ℕ
  pub status : AttemptStatus
  pub result : Option Result
  pub error_class : Option ErrorClass

pub record InboundEvent : Type 0 where
  pub transport : ℕ
  pub reply_target : Text
  pub body : Text
  pub dedupe_key : ℕ

pub record Outbound : Type 0 where
  pub job_id : ℕ
  pub transport : ℕ
  pub reply_target : Text
  pub body : Text
  pub status : OutboundStatus
  pub provider_msg_id : Option ℕ
  pub tries : ℕ

-- The reasons, without their texts' numbers.
pub data Reason : Type 0 where
  parent_not_live over_limit poison not_retry_safe lease_expired duplicate_send undelivered : Reason
  other_reason : Text → Reason

pub record DeadLetter : Type 0 where
  pub source_id : ℕ
  pub reason : Reason

pub record LogLine : Type 0 where
  pub attempt_id : ℕ
  pub stream : Text
  pub chunk : Text

-- The part of the ledger that the job state machine lives in.
pub record Core : Type 0 where
  pub next_id : ℕ
  pub jobs : Table Job
  pub attempts : Table Attempt

pub record Ledger : Type 0 where
  pub core : Core
  pub open core use *
  pub repo_concurrency : Table ℕ
  pub inbound_events : Table InboundEvent
  pub outbounds : Table Outbound
  pub dead_letters : List DeadLetter
  pub attempt_log : List LogLine

pub data Error : Type 0 where
  unknown_parent unique_violation foreign_key_violation lost_lease no_inbound_event missing_row :
      Error

-- A verb that may raise; a transaction that raises is rolled back, so no state stands beside it.
pub data Outcome {ℓ} (A : Type ℓ) : Type ℓ where
  ok : A → Outcome A
  raise : Error → Outcome A

-- status IN ('leased','running')
abbrev pub is_live : JobStatus → Bool
is_live leased = true
is_live running = true
is_live _ = false

abbrev pub is_queued : JobStatus → Bool
is_queued queued = true
is_queued _ = false

abbrev pub is_dead : JobStatus → Bool
is_dead dead = true
is_dead _ = false

abbrev pub is_terminal : JobStatus → Bool
is_terminal done = true
is_terminal failed = true
is_terminal dead = true
is_terminal _ = false

abbrev pub is_open : AttemptStatus → Bool
is_open open_attempt = true
is_open _ = false

-- The join of an attempt with its job, under a test of the job.
abbrev pub job_test : (Job → Bool) → Option Job → Bool
job_test p none = false
job_test p (some j) = p j

abbrev pub live_in_repo : ℕ → Job → Bool
live_in_repo r j = is_live j.status && holds j.repo_id r

-- SELECT count(*) FROM attempt a JOIN job j ON j.id = a.job_id
--  WHERE a.status = 'open' AND j.repo_id = r AND j.status IN ('leased','running')
unfoldable pub live_count : Table Job → Table Attempt → ℕ → ℕ
live_count jobs attempts r =
    count (λ _ a. is_open a.status && job_test (live_in_repo r) (get a.job_id jobs)) attempts

-- SELECT count(*) FROM attempt WHERE job_id = j AND status = 'open'
unfoldable pub open_count : Table Attempt → ℕ → ℕ
open_count attempts j = count (λ _ a. is_open a.status && a.job_id == j) attempts

-- SELECT count(*) FROM attempt WHERE job_id = j
unfoldable pub attempt_count : Table Attempt → ℕ → ℕ
attempt_count attempts j = count (λ _ a. a.job_id == j) attempts

-- UPDATE attempt SET status='failed', ended_at=…, error_class=… WHERE p
unfoldable pub close_where : (ℕ → Attempt → Bool) → ErrorClass → ℕ → Core → Core
close_where p error_class now c = record c {
  attempts =
      update_where p
        (λ a. record a {
          status = failed_attempt;
          ended_at = some now;
          error_class = some error_class;
        })
        c.attempts;
}

-- UPDATE job SET status = s WHERE p
unfoldable pub set_status_where : (ℕ → Job → Bool) → JobStatus → Core → Core
set_status_where p s c = record c { jobs = update_where p (λ j. record j { status = s }) c.jobs }

-- UPDATE repo_concurrency SET active = GREATEST(active - 1, 0) WHERE repo_id = …; a NULL
-- repository matches no row.
unfoldable pub free_slot : Option ℕ → Table ℕ → Table ℕ
free_slot none rc = rc
free_slot (some r) rc = update_where (λ i _. i == r) (λ active. active - 1) rc

-- A verb that checks a condition and succeeds.
pub guarded-ok {ℓ} :
    {A : Type ℓ} (b : Bool) (x y : A) (e : Error)
    → (if b then ok x else raise e) ≡ ok y
    → (b ≡ true) × (x ≡ y)
guarded-ok true x y e h = (refl, cc)
guarded-ok false x y e h = absurd (cc)
