-- ===== src/Tests/Safety.antt =====
-- The theorems on runs at the life of Runs.antt.
use myndaix_runtime.Prelude.{◌≤◌, ◌≡◌, refl, none, some}
use myndaix_runtime.Prelude.Table.{get}
use myndaix_runtime.Ledger.State.{live_count, open_count, attempt_count, max_attempts}
use myndaix_runtime.Contracts.{leased, done, requeue_safe}
use myndaix_runtime.Simulation.{start}
use myndaix_runtime.Machine.{Moves}
use myndaix_runtime.Simulation.Safety.{
  empty_core, verbs_refine_machine, cap_respected, no_double_lease, attempts_bounded,
  unsafe_runs_once, ended_stays,
}
use myndaix_runtime.Tests.Runs.{
  roster, both_leased, one_done, run_both, run_one_done, a_job, job_1, job_2, done_1,
}

verbs_refine_machine_example : Moves roster 4 empty_core both_leased.core
verbs_refine_machine_example = verbs_refine_machine run_both

cap_respected_example : live_count both_leased.jobs both_leased.attempts 7 ≤ 4
cap_respected_example = cap_respected run_both 7

no_double_lease_example : open_count both_leased.attempts 1 ≤ 1
no_double_lease_example = no_double_lease run_both 1

attempts_bounded_example : attempt_count both_leased.attempts 1 ≤ max_attempts
attempts_bounded_example = attempts_bounded run_both 1 (a_job leased 1 (some 0) 0 none) job_1

unsafe_runs_once_example : attempt_count both_leased.attempts 2 ≤ 1
unsafe_runs_once_example =
    unsafe_runs_once run_both 2 (a_job leased 2 none 1 (some 7)) job_2 (unfold requeue_safe in refl)

ended_stays_example : get 1 one_done.jobs ≡ some (a_job done 1 (some 0) 0 none)
ended_stays_example = ended_stays run_one_done start 1 (a_job done 1 (some 0) 0 none) done_1 refl
