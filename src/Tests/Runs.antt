-- ===== src/Tests/Runs.antt =====
-- A life of two jobs in the ledger of src/runtime/ledger/postgres_store.py: a responder's reply to a
-- message, and a workspace actor's job for repository 7.
use myndaix_runtime.Prelude.{ℕ, ◌≡◌, refl, Bool, true, false, Option, none, some, [], ◌∷◌, mem}
use myndaix_runtime.Prelude.Table.{get, insert, select, count, update_where}
use myndaix_runtime.Contracts.{
  Registry, responder, workspace_actor, Result, ok_result, error_result, retryable, JobStatus,
  leased, done, open_attempt, ok_attempt, pending, sent,
}
use myndaix_runtime.Ledger.State.{Job, Attempt, Outbound, Ledger, ok, live_count, open_count}
use myndaix_runtime.Ledger.Lease.{
  lease_once, pick, first_row, eligible, before, lease_unlimited, lease_capped, claim, holds_lease,
  heartbeat_attempt,
}
use myndaix_runtime.Ledger.Finish.{complete_attempt, fail_attempt, reply_row, reply_to}
use myndaix_runtime.Ledger.Janitor.{reapable_attempt_ids, keys}
use myndaix_runtime.Ledger.Outbox.{
  mark_outbound_sent_inline, mark_sent_from, send_row, id_taken, set_sent,
}
use myndaix_runtime.Ledger.Dispatch.{
  TransportEnvelope, Request, ingest_inbound, submit_job, insert_job, utf8_safe, new_job,
  job_of_event, event_of_key, add_job,
}
use myndaix_runtime.Simulation.{Run, start, then, ingest, submit, lease, complete, sent_inline}
use myndaix_runtime.Simulation.Safety.{empty}

abbrev pub roster : Registry
roster ℕ.zero = some (record { authority = responder; non_idempotent = false })
roster _ = some (record { authority = workspace_actor; non_idempotent = false })

abbrev pub none_locked : ℕ → Bool
none_locked _ = false

abbrev pub message : TransportEnvelope
message = record { transport = 3; reply_target = 104 ∷ 105 ∷ []; dedupe_key = 55 }

abbrev pub ask : Option ℕ → ℕ → Option ℕ → Request
ask event agent repo = record {
  to_agent = agent;
  prompt = 112 ∷ [];
  context = [];
  parent_id = none;
  inbound_event_id = event;
  created_by = [];
  repo_id = repo;
  base_ref = none;
  priority = 0;
}

abbrev pub answer : Result
answer = record { status = ok_result; text = 121 ∷ []; error_class = none; artifact_ref = none }

abbrev pub after_ingest : Ledger
after_ingest = (ingest_inbound message (98 ∷ []) empty).1

abbrev pub submitted : Request → Ledger → Ledger
submitted q l = elim (submit_job q 10 l) [ ok p ↦ p.1 | _ ↦ l ]

abbrev pub with_reply_job : Ledger
with_reply_job = submitted (ask (some 0) 0 none) after_ingest

abbrev pub with_both : Ledger
with_both = submitted (ask none 1 (some 7)) with_reply_job

abbrev pub one_leased : Ledger
one_leased = (lease_once 4 none_locked 1 20 [] with_both).1

abbrev pub both_leased : Ledger
both_leased = (lease_once 4 none_locked 2 21 [] one_leased).1

abbrev pub completed : Ledger → Ledger
completed l = elim (complete_attempt 3 answer 30 l) [ ok m ↦ m | _ ↦ l ]

abbrev pub one_done : Ledger
one_done = completed both_leased

pub run_both : Run roster 4 empty both_leased
unfolding ingest_inbound submit_job insert_job event_of_key utf8_safe new_job job_of_event add_job
    select get insert
run_both =
    then
      (then
        (then
          (then (then start (ingest message (98 ∷ []) empty))
            (submit (ask (some 0) 0 none) 10 1 after_ingest refl))
          (submit (ask none 1 (some 7)) 10 2 with_reply_job refl))
        (lease none_locked 1 20 [] with_both))
      (lease none_locked 2 21 [] one_leased)

abbrev pub a_job : JobStatus → ℕ → Option ℕ → ℕ → Option ℕ → Job
a_job s root event agent repo = record {
  parent_id = none;
  root_id = root;
  depth = 0;
  created_by = [];
  inbound_event_id = event;
  to_agent = agent;
  body = 112 ∷ [];
  context = [];
  priority = 0;
  status = s;
  repo_id = repo;
  base_ref = none;
  artifact_ref = none;
  created_at = 10;
}

abbrev pub an_attempt : ℕ → ℕ → ℕ → Attempt
an_attempt job worker expires = record {
  job_id = job;
  worker_id = worker;
  lease_expires_at = expires;
  ended_at = none;
  status = open_attempt;
  result = none;
  error_class = none;
}

abbrev pub closed_attempt : Attempt
closed_attempt = record (an_attempt 1 1 140) {
  status = ok_attempt;
  ended_at = some 30;
  result = some answer;
}

pub run_one_done : Run roster 4 empty one_done
unfolding complete_attempt lease_once ingest_inbound submit_job insert_job event_of_key utf8_safe
    new_job job_of_event add_job select get insert pick first_row eligible open_count count before
    lease_unlimited claim update_where lease_capped live_count
run_one_done = then run_both (complete 3 answer 30 both_leased refl)

pub job_1 : get 1 both_leased.jobs ≡ some (a_job leased 1 (some 0) 0 none)
unfolding complete_attempt lease_once ingest_inbound submit_job insert_job event_of_key utf8_safe
    new_job job_of_event add_job select get insert pick first_row eligible open_count count before
    lease_unlimited claim update_where lease_capped live_count
job_1 = refl

pub job_2 : get 2 both_leased.jobs ≡ some (a_job leased 2 none 1 (some 7))
unfolding complete_attempt lease_once ingest_inbound submit_job insert_job event_of_key utf8_safe
    new_job job_of_event add_job select get insert pick first_row eligible open_count count before
    lease_unlimited claim update_where lease_capped live_count
job_2 = refl

pub attempt_4 : get 4 both_leased.attempts ≡ some (an_attempt 2 2 141)
unfolding complete_attempt lease_once ingest_inbound submit_job insert_job event_of_key utf8_safe
    new_job job_of_event add_job select get insert pick first_row eligible open_count count before
    lease_unlimited claim update_where lease_capped live_count
attempt_4 = refl

pub held_4 : holds_lease both_leased.jobs (an_attempt 2 2 141) ≡ true
unfolding complete_attempt lease_once ingest_inbound submit_job insert_job event_of_key utf8_safe
    new_job job_of_event add_job select get insert pick first_row eligible open_count count before
    lease_unlimited claim update_where lease_capped live_count
held_4 = refl

pub done_1 : get 1 one_done.jobs ≡ some (a_job done 1 (some 0) 0 none)
unfolding complete_attempt lease_once ingest_inbound submit_job insert_job event_of_key utf8_safe
    new_job job_of_event add_job select get insert pick first_row eligible open_count count before
    lease_unlimited claim update_where lease_capped live_count
done_1 = refl

pub attempt_3 : get 3 one_done.attempts ≡ some closed_attempt
unfolding complete_attempt lease_once ingest_inbound submit_job insert_job event_of_key utf8_safe
    new_job job_of_event add_job select get insert pick first_row eligible open_count count before
    lease_unlimited claim update_where lease_capped live_count
attempt_3 = refl

abbrev pub beaten : Ledger
beaten = elim (heartbeat_attempt 4 100 both_leased) [ ok m ↦ m | _ ↦ both_leased ]

pub beaten_4 : heartbeat_attempt 4 100 both_leased ≡ ok beaten
unfolding complete_attempt lease_once ingest_inbound submit_job insert_job event_of_key utf8_safe
    new_job job_of_event add_job select get insert pick first_row eligible open_count count before
    lease_unlimited claim update_where lease_capped live_count heartbeat_attempt
beaten_4 = refl

pub reapable_3 : mem 3 (reapable_attempt_ids 60 100 one_done) ≡ true
unfolding complete_attempt lease_once ingest_inbound submit_job insert_job event_of_key utf8_safe
    new_job job_of_event add_job select get insert pick first_row eligible open_count count before
    lease_unlimited claim update_where lease_capped live_count reapable_attempt_ids keys
reapable_3 = refl

abbrev pub waiting : Outbound
waiting = record {
  job_id = 1;
  transport = 3;
  reply_target = 104 ∷ 105 ∷ [];
  body = 121 ∷ [];
  status = pending;
  provider_msg_id = none;
  tries = 0;
}

pub reply_5 : get 5 one_done.outbounds ≡ some waiting
unfolding complete_attempt lease_once ingest_inbound submit_job insert_job event_of_key utf8_safe
    new_job job_of_event add_job select get insert pick first_row eligible open_count count before
    lease_unlimited claim update_where lease_capped live_count reply_row reply_to
reply_5 = refl

abbrev pub sent_ledger : Ledger
sent_ledger = (mark_outbound_sent_inline 5 9 one_done).1

pub run_sent : Run roster 4 empty sent_ledger
run_sent = then run_one_done (sent_inline 5 9 one_done)

pub sent_5 :
    get 5 sent_ledger.outbounds ≡ some (record waiting { status = sent; provider_msg_id = some 9 })
unfolding complete_attempt lease_once ingest_inbound submit_job insert_job event_of_key utf8_safe
    new_job job_of_event add_job select get insert pick first_row eligible open_count count before
    lease_unlimited claim update_where lease_capped live_count reply_row reply_to
    mark_outbound_sent_inline mark_sent_from send_row id_taken set_sent
sent_5 = refl

abbrev pub flaky : Result
flaky = record answer { status = error_result; error_class = some retryable }

abbrev pub after_failure : Ledger
after_failure = elim (fail_attempt roster 3 flaky 30 both_leased) [ ok m ↦ m | _ ↦ both_leased ]

pub attempt_3_open : get 3 both_leased.attempts ≡ some (an_attempt 1 1 140)
unfolding complete_attempt lease_once ingest_inbound submit_job insert_job event_of_key utf8_safe
    new_job job_of_event add_job select get insert pick first_row eligible open_count count before
    lease_unlimited claim update_where lease_capped live_count
attempt_3_open = refl

pub failed_3 : fail_attempt roster 3 flaky 30 both_leased ≡ ok after_failure
unfolding complete_attempt lease_once ingest_inbound submit_job insert_job event_of_key utf8_safe
    new_job job_of_event add_job select get insert pick first_row eligible open_count count before
    lease_unlimited claim update_where lease_capped live_count fail_attempt
failed_3 = refl
