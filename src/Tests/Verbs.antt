-- ===== src/Tests/Verbs.antt =====
-- The theorems on the PICK, on failures, on redelivery and on decisions at concrete ledgers.
use myndaix_runtime.Prelude.{ℕ, ◌+◌, ◌≡◌, refl, inl, none, some, [], ◌∷◌, length, bit}
use myndaix_runtime.Prelude.Table.{get, count, select, insert}
use myndaix_runtime.Contracts.{queued, leased, retryable}
use myndaix_runtime.Ledger.State.{Job, Ledger, ok, is_dead, attempt_count, open_count}
use myndaix_runtime.Ledger.Lease.{pick}
use myndaix_runtime.Ledger.Dispatch.{
  ingest_inbound, submit_job, skip_id, event_of_key, utf8_safe, new_job, job_of_event, insert_job,
  add_job,
}
use myndaix_runtime.Ledger.Order.{IsRow, MayPick, NotAfter, pick_is_first}
use myndaix_runtime.Ledger.Decisions.{PrHead, Seen, needs_fix}
use myndaix_runtime.Simulation.{start, then, ingest, submit, lease}
use myndaix_runtime.Simulation.Safety.{empty, empty_core}
use myndaix_runtime.Simulation.Routing.{failed_to, fail_routes}
use myndaix_runtime.Simulation.Redelivery.{second_submit_is_noop}
use myndaix_runtime.Tests.Runs.{
  roster, none_locked, message, with_both, one_leased, ask, with_reply_job, both_leased, an_attempt,
  a_job, job_1, flaky, after_failure, attempt_3_open, failed_3,
}

abbrev low : Job
low = a_job queued 1 none 0 none

abbrev high : Job
high = record (a_job queued 2 none 0 none) { priority = 5 }

abbrev two_jobs : Ledger
two_jobs = record empty {
  core = record empty_core { next_id = 3; jobs = (1, low) ∷ (2, high) ∷ [] };
}

pick_is_first_example :
    (k : ℕ) × (j : Job) × (pick 4 none_locked [] two_jobs ≡ some (k, j))
    × IsRow (k, j) two_jobs.jobs
    × MayPick 4 none_locked [] two_jobs k j
    × NotAfter k j 1 low
unfolding open_count count
pick_is_first_example =
    pick_is_first 4 none_locked [] two_jobs 1 low (inl refl) (refl, refl, tt, refl)

fail_routes_example :
    let s = failed_to roster (some retryable) 0 (attempt_count both_leased.attempts 1) in
    (get 1 after_failure.jobs ≡ some (record (a_job leased 1 (some 0) 0 none) { status = s }))
    × (length after_failure.dead_letters ≡ length both_leased.dead_letters + bit (is_dead s))
fail_routes_example =
    fail_routes roster 3 flaky 30 (an_attempt 1 1 140) (a_job leased 1 (some 0) 0 none) both_leased
      after_failure attempt_3_open job_1 refl failed_3

-- The message is delivered again while its job runs.
second_submit_is_noop_example :
    submit_job (ask (some 0) 1 none) 12 both_leased ≡ ok (1, skip_id both_leased)
unfolding ingest_inbound submit_job insert_job event_of_key utf8_safe new_job job_of_event add_job
    select get insert
second_submit_is_noop_example =
    second_submit_is_noop {registry = roster} {cap = 4} (ask (some 0) 0 none) (ask (some 0) 1 none)
      10 12 0 1 ((then) start (ingest message (98 ∷ []) empty)) refl refl refl refl refl
      ((then)
        ((then) ((then) start (submit (ask none 1 (some 7)) 10 2 with_reply_job refl))
          (lease none_locked 1 20 [] with_both))
        (lease none_locked 2 21 [] one_leased))

abbrev pull : PrHead
pull = record { repo_id = 7; pr_number = 3; head_sha = 40 }

abbrev seen_before : Seen
seen_before = record { key = pull; decision = needs_fix; reason = none }
