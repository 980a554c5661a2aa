-- ===== src/Simulation/Routing.antt =====
-- Where fail_attempt (src/runtime/ledger/postgres_store.py) sends a job.
use myndaix_runtime.Prelude.{
  ℕ, ◌+◌, ◌≡◌, refl, Bool, true, false, ◌&&◌, Option, none, some, List, [], ◌∷◌, ◌++◌, ltb, length,
  bit, if◌then◌else◌, arith, ==_refl,
}
use myndaix_runtime.Prelude.Table.{get, get-update_where}
use myndaix_runtime.Contracts.{
  Registry, Result, ErrorClass, JobStatus, queued, dead, failed, retryable, terminal, needs_human,
  requeue_safe,
}
use myndaix_runtime.Ledger.State.{
  Job, Attempt, Ledger, DeadLetter, ok, lost_lease, guarded-ok, is_open, is_live, is_dead,
  attempt_count, max_attempts, set_status_where,
}
use myndaix_runtime.Ledger.Finish.{
  Route, to_queue, to_failed, to_dead, route, route_status, bury, fail_core, fail_locked, fail_job,
  fail_row, fail_attempt,
}

abbrev pub is_retryable : Option ErrorClass → Bool
is_retryable (some retryable) = true
is_retryable _ = false

-- A job comes back to the queue when its failure may pass, its agent may run twice, and it has
-- attempts left.
abbrev pub comes_back : Registry → Option ErrorClass → ℕ → ℕ → Bool
comes_back registry x agent n =
    is_retryable x && (requeue_safe registry agent && ltb n max_attempts)

-- The status that a failure gives to its job.
abbrev pub failed_to : Registry → Option ErrorClass → ℕ → ℕ → JobStatus
failed_to registry x agent n =
    if comes_back registry x agent n then queued else if is_retryable x then dead else failed

routed :
    (registry : Registry) (x : Option ErrorClass) (agent n : ℕ)
    → route_status (route registry x agent n) ≡ failed_to registry x agent n
unfolding route
routed registry (some retryable) agent n = ground arith
routed registry (some terminal) agent n = refl
routed registry (some needs_human) agent n = refl
routed registry none agent n = refl

length-snoc : (ds : List DeadLetter) (d : DeadLetter) → length (ds ++ d ∷ []) ≡ length ds + 1
length-snoc [] d = refl
length-snoc (x ∷ ds) d = omega (arith, length-snoc ds d)

length-bury :
    (k : ℕ) (r : Route) (ds : List DeadLetter)
    → length (bury k r ds) ≡ length ds + bit (is_dead (route_status r))
unfolding bury
length-bury k to_queue ds = omega arith
length-bury k to_failed ds = omega arith
length-bury k (to_dead x) ds = length-snoc ds _

-- What a successful fail_attempt has done.
failed-locked :
    (registry : Registry) (k : ℕ) (result : Result) (now : ℕ) (a : Attempt) (j : Job) (l m : Ledger)
    → get k l.attempts ≡ some a
    → get a.job_id l.jobs ≡ some j
    → fail_attempt registry k result now l ≡ ok m
    → fail_locked registry k result now a.job_id j l ≡ m
unfolding fail_attempt fail_row fail_job
failed-locked registry k result now a j l m g h e =
    (guarded-ok (is_open a.status) _ m lost_lease (rw (g, h) at e)).1

failed-job :
    (k job : ℕ) (result : Result) (now : ℕ) (r : Route) (j : Job) (l : Ledger)
    → get job l.jobs ≡ some j
    → is_live j.status ≡ true
    → get job (fail_core k job result now (route_status r) l.core).jobs
      ≡ some (record j { status = route_status r })
unfolding fail_core set_status_where
failed-job k job result now r j l g e = rw (get-update_where, g, ==_refl job, e) refl

-- After a successful fail_attempt on a live job nothing of the job but its status changed: it is queued
-- again if the failure is retryable, the agent retry-safe and the attempts fewer than MAX_ATTEMPTS; it
-- is dead if the failure is retryable and it does not come back; and it has failed on every other
-- failure, terminal, for a human or without a class. There is one more dead letter exactly if it is
-- dead.
pub fail_routes :
    (registry : Registry) (k : ℕ) (result : Result) (now : ℕ) (a : Attempt) (j : Job) (l m : Ledger)
    → get k l.attempts ≡ some a
    → get a.job_id l.jobs ≡ some j
    → is_live j.status ≡ true
    → fail_attempt registry k result now l ≡ ok m
    → let s =
        failed_to registry result.error_class j.to_agent (attempt_count l.attempts a.job_id) in
      (get a.job_id m.jobs ≡ some (record j { status = s }))
      × (length m.dead_letters ≡ length l.dead_letters + bit (is_dead s))
fail_routes registry k result now a j l m g h v e =
    let n = attempt_count l.attempts a.job_id in
    let r = route registry result.error_class j.to_agent n in
    let q = failed-locked registry k result now a j l m g h e in
    let s = routed registry result.error_class j.to_agent n in
    rw (← s, ← q)
      (
        unfold fail_locked in failed-job k a.job_id result now r j l h v,
        unfold fail_locked in length-bury a.job_id r l.dead_letters,
      )
