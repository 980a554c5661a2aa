-- ===== src/Tests/Leases.antt =====
-- The theorems on leases, janitors and replies at the life of Runs.antt.
use myndaix_runtime.Prelude.{ℕ, ◌+◌, ◌≤◌, ◌≡◌, refl, none, some, arith}
use myndaix_runtime.Prelude.Table.{get}
use myndaix_runtime.Ledger.State.{Attempt, raise, lost_lease, live_count, heartbeat_seconds}
use myndaix_runtime.Ledger.Lease.{active, get_attempt_job, heartbeat_attempt}
use myndaix_runtime.Ledger.Finish.{complete_attempt, fail_attempt}
use myndaix_runtime.Ledger.Janitor.{reclaim_expired, reconcile_repo_concurrency}
use myndaix_runtime.Simulation.{start}
use myndaix_runtime.Simulation.Zombie.{zombie_is_fenced}
use myndaix_runtime.Simulation.Worktrees.{reaped_worktree_is_dead}
use myndaix_runtime.Simulation.Reclaim.{heartbeat_protects}
use myndaix_runtime.Ledger.Reconcile.{reconcile_is_exact}
use myndaix_runtime.Simulation.Posted.{reply_count, done_bit}
use myndaix_runtime.Simulation.Replies.{one_reply_per_job, enqueued}
use myndaix_runtime.Tests.Runs.{
  roster, none_locked, answer, both_leased, one_done, run_both, run_one_done, closed_attempt,
  attempt_3, beaten_4, reapable_3, beaten,
}

zombie_is_fenced_example :
    (complete_attempt 3 answer 40 one_done ≡ raise lost_lease)
    × (fail_attempt roster 3 answer 40 one_done ≡ raise lost_lease)
    × (heartbeat_attempt 3 40 one_done ≡ raise lost_lease)
    × (get_attempt_job 3 one_done ≡ none)
zombie_is_fenced_example =
    zombie_is_fenced run_one_done start 3 closed_attempt attempt_3 refl answer 40

heartbeat_protects_example :
    (a : Attempt) × (get 4 both_leased.attempts ≡ some a)
    × (get 4 (reclaim_expired roster none_locked 219 beaten).1.attempts
        ≡ some (record a { lease_expires_at = 100 + heartbeat_seconds }))
heartbeat_protects_example =
    heartbeat_protects run_both 4 100 beaten_4 none_locked 219 (omega arith)

reaped_worktree_is_dead_example :
    ((a : Attempt) × (get 3 one_done.attempts ≡ some a)
      × ((t : ℕ) × (a.ended_at ≡ some t) × (t + 60 ≤ 100)))
    × (get_attempt_job 3 one_done ≡ none)
reaped_worktree_is_dead_example = reaped_worktree_is_dead run_one_done start 60 100 3 reapable_3

reconcile_is_exact_example :
    active (reconcile_repo_concurrency none_locked 50 both_leased).1.repo_concurrency 7
    ≡ live_count
        (reconcile_repo_concurrency none_locked 50 both_leased).1.jobs
        (reconcile_repo_concurrency none_locked 50 both_leased).1.attempts
        7
reconcile_is_exact_example = reconcile_is_exact none_locked 50 both_leased 7

one_reply_per_job_example :
    reply_count one_done.outbounds 1 ≤ done_bit one_done 1 + enqueued run_one_done
one_reply_per_job_example = one_reply_per_job run_one_done 1
