-- ===== src/Ledger/Lease.antt =====
-- PostgresLedger.lease_job, get_attempt_job, heartbeat_attempt (postgres_store.py). `locked` says
-- which rows other transactions hold, so that SKIP LOCKED passes over them.
use myndaix_runtime.Prelude.{
  ℕ, zero, suc, ◌+◌, Bool, true, false, not, ◌&&◌, Option, none, some, List, [], ◌∷◌, ◌++◌, ltb,
  leb, ◌==◌, if◌then◌else◌, mem,
}
use myndaix_runtime.Prelude.Table.{Table, get, update_where, insert, select}
use myndaix_runtime.Contracts.{leased, open_attempt}
use myndaix_runtime.Ledger.State.{
  Job, Attempt, Core, Ledger, Outcome, ok, raise, lost_lease, is_live, is_open, is_queued, job_test,
  live_count, open_count, lease_seconds, heartbeat_seconds, lease_max_repicks,
}

-- COALESCE(rc.active, 0)
unfoldable pub active : Table ℕ → ℕ → ℕ
active rc r = elim (get r rc) [ none ↦ 0 | some n ↦ n ]

-- (j.repo_id IS NULL OR COALESCE(rc.active, 0) < cap) AND (… OR j.repo_id <> ALL(skip_repos))
unfoldable pub soft_filter : ℕ → List ℕ → Table ℕ → Option ℕ → Bool
soft_filter cap skip rc none = true
soft_filter cap skip rc (some r) = ltb (active rc r) cap && not (mem r skip)

-- The WHERE clause of the PICK.
unfoldable pub eligible : ℕ → (ℕ → Bool) → List ℕ → Ledger → ℕ → Job → Bool
unfolding soft_filter active
eligible cap locked skip l k j =
    is_queued j.status
    && open_count l.attempts k == 0
    && soft_filter cap skip l.repo_concurrency j.repo_id
    && not (locked k)

-- ORDER BY j.priority DESC, j.created_at, j.id
unfoldable pub before : ℕ × Job → ℕ × Job → Bool
before (k, a) (i, b) =
    if ltb b.priority a.priority
    then true
    else if ltb a.priority b.priority
    then false
    else if ltb a.created_at b.created_at
    then true
    else if ltb b.created_at a.created_at
    then false
    else ltb k i

-- LIMIT 1 of the ordered rows.
unfoldable pub first_row : Table Job → Option (ℕ × Job)
first_row [] = none
first_row (row ∷ rows) = elim (first_row rows) [
  | none ↦ some row
  | some best ↦ some (if before best row then best else row)
]

unfoldable pub pick : ℕ → (ℕ → Bool) → List ℕ → Ledger → Option (ℕ × Job)
pick cap locked skip l = first_row (select (eligible cap locked skip l) l.jobs)

-- The writes of _CLAIM_SQL: queued->leased, and the open attempt.
unfoldable pub claimed : ℕ → ℕ → ℕ → ℕ → Core → Core
claimed k attempt_id worker_id now c = record c {
  jobs =
      update_where (λ i j. i == k && is_queued j.status) (λ j. record j { status = leased }) c.jobs;
  attempts =
      insert attempt_id
        (record {
          job_id = k;
          worker_id = worker_id;
          lease_expires_at = now + lease_seconds;
          ended_at = none;
          status = open_attempt;
          result = none;
          error_class = none;
        })
        c.attempts;
}

-- _CLAIM_SQL; `none` when the job is not queued.
unfoldable pub claim : ℕ → ℕ → ℕ → ℕ → Core → Option Core
unfolding claimed
claim k attempt_id worker_id now c =
    if job_test (λ j. is_queued j.status) (get k c.jobs)
    then some (claimed k attempt_id worker_id now c)
    else none

-- How one PICK transaction ends: nothing leasable, a lease, or another PICK with these exclusions.
pub data Picked : Type 0 where
  nothing : Picked
  leased_attempt : ℕ → Picked
  again : List ℕ → Picked

-- INSERT … ON CONFLICT (repo_id) DO NOTHING
unfoldable pub seed : ℕ → Table ℕ → Table ℕ
seed r rc = elim (get r rc) [ none ↦ insert r 0 rc | some _ ↦ rc ]

unfoldable pub set_active : ℕ → ℕ → Table ℕ → Table ℕ
set_active r n rc = update_where (λ i _. i == r) (λ _. n) rc

-- `leased is not None`, or the status race is lost.
unfoldable pub after_claim : List ℕ → Ledger → Option Core → Picked × Ledger
after_claim skip l (some c) = (leased_attempt l.next_id, record l { core = c })
after_claim skip l none =
    (again skip, record l { core = record l.core { next_id = suc l.next_id } })

-- NULL repo_id: exempt from the cap.
unfoldable pub lease_unlimited : ℕ → ℕ → ℕ → List ℕ → Ledger → Picked × Ledger
unfolding after_claim
lease_unlimited k worker_id now skip l =
    after_claim skip l (claim k l.next_id worker_id now (record l.core { next_id = suc l.next_id }))

unfoldable pub lease_capped : ℕ → ℕ → ℕ → ℕ → List ℕ → ℕ → Ledger → Picked × Ledger
unfolding seed set_active
lease_capped cap k worker_id now skip r l =
    let rc = seed r l.repo_concurrency in
    let open_now = live_count l.jobs l.attempts r in
    let c = record l.core { next_id = suc l.next_id } in
    if leb cap open_now
    then (
      again (skip ++ r ∷ []),
      record l { core = c; repo_concurrency = set_active r open_now rc },
    )
    else elim (claim k l.next_id worker_id now c) [
      | none ↦ (again skip, record l { core = c; repo_concurrency = rc })
      | some c' ↦ (
        leased_attempt l.next_id,
        record l { core = c'; repo_concurrency = set_active r (open_now + 1) rc },
      )
    ]

-- One transaction of the loop in lease_job.
unfoldable pub lease_once : ℕ → (ℕ → Bool) → ℕ → ℕ → List ℕ → Ledger → Picked × Ledger
lease_once cap locked worker_id now skip l = elim (pick cap locked skip l) [
  | none ↦ (nothing, l)
  | some (k, j) ↦ elim j.repo_id [
    | none ↦ lease_unlimited k worker_id now skip l
    | some r ↦ lease_capped cap k worker_id now skip r l
  ]
]

unfoldable pub lease_loop : ℕ → ℕ → (ℕ → Bool) → ℕ → ℕ → List ℕ → Ledger → Option ℕ × Ledger
lease_loop zero cap locked worker_id now skip l = (none, l)
lease_loop (suc n) cap locked worker_id now skip l =
    let (picked, l') = lease_once cap locked worker_id now skip l in
    elim picked [
      | nothing ↦ (none, l')
      | leased_attempt a ↦ (some a, l')
      | again skip' ↦ lease_loop n cap locked worker_id now skip' l'
    ]

unfoldable pub lease_job : ℕ → (ℕ → Bool) → ℕ → ℕ → Ledger → Option ℕ × Ledger
unfolding lease_loop lease_once pick lease_unlimited lease_capped claim
lease_job cap locked worker_id now l = lease_loop lease_max_repicks cap locked worker_id now [] l

-- a.status = 'open' AND j.status IN ('leased','running')
abbrev pub holds_lease : Table Job → Attempt → Bool
holds_lease jobs a = is_open a.status && job_test (λ j. is_live j.status) (get a.job_id jobs)

-- The second locked read: a job that is gone gives nothing.
unfoldable pub live_job : ℕ → Option Job → Option (ℕ × Job)
live_job job_id none = none
live_job job_id (some j) = if is_live j.status then some (job_id, j) else none

unfoldable pub attempt_job : Table Job → Option Attempt → Option (ℕ × Job)
attempt_job jobs none = none
attempt_job jobs (some a) =
    let found = live_job a.job_id (get a.job_id jobs) in if is_open a.status then found else none

-- The two locked reads; the verb changes nothing.
unfoldable pub get_attempt_job : ℕ → Ledger → Option (ℕ × Job)
unfolding live_job attempt_job
get_attempt_job attempt_id l = attempt_job l.jobs (get attempt_id l.attempts)

abbrev pub attempt_test : (Attempt → Bool) → Option Attempt → Bool
attempt_test p none = false
attempt_test p (some a) = p a

-- SET lease_expires_at = statement_timestamp() + HEARTBEAT_SECONDS
unfoldable pub beat : ℕ → ℕ → Core → Core
beat attempt_id now c = record c {
  attempts =
      update_where (λ i _. i == attempt_id)
        (λ a. record a { lease_expires_at = now + heartbeat_seconds }) c.attempts;
}

unfoldable pub heartbeat_attempt : ℕ → ℕ → Ledger → Outcome Ledger
unfolding beat
heartbeat_attempt attempt_id now l =
    if attempt_test (holds_lease l.jobs) (get attempt_id l.attempts)
    then ok (record l { core = beat attempt_id now l.core })
    else raise lost_lease
