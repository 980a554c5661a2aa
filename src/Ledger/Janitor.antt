-- ===== src/Ledger/Janitor.antt =====
-- PostgresLedger.reclaim_expired, reapable_attempt_ids and reconcile_repo_concurrency
-- (postgres_store.py). `locked` says which attempts, or the jobs of which attempts, other
-- transactions hold.
use myndaix_runtime.Prelude.{
  ℕ, zero, suc, ◌+◌, ◌-◌, Bool, false, not, ◌&&◌, Option, none, some, List, [], ◌∷◌, ◌++◌, leb,
  ◌==◌, if◌then◌else◌, mem, length, bit,
}
use myndaix_runtime.Prelude.Table.{Table, get, update_where, insert, select}
use myndaix_runtime.Contracts.{queued, dead, retryable, terminal, Registry, requeue_safe}
use myndaix_runtime.Ledger.State.{
  Job, Attempt, Core, Ledger, Reason, lease_expired, poison, DeadLetter, is_live, is_open, job_test,
  live_count, attempt_count, max_attempts, reclaim_batch, close_where, set_status_where,
}
use myndaix_runtime.Ledger.Lease.{holds_lease, set_active}

-- a.status = 'open' AND j.status NOT IN ('leased','running'); the join drops an attempt with no job.
abbrev pub is_orphan : Table Job → Attempt → Bool
is_orphan jobs a = is_open a.status && job_test (λ j. not (is_live j.status)) (get a.job_id jobs)

abbrev pub repo_of : Option Job → Option ℕ
repo_of none = none
repo_of (some j) = j.repo_id

abbrev pub add_repo : Option ℕ → List ℕ → List ℕ
add_repo none rs = rs
add_repo (some r) rs = r ∷ rs

-- SELECT repo_id FROM o WHERE repo_id IS NOT NULL
unfoldable pub repos_of : Table Job → Table Attempt → List ℕ
repos_of jobs [] = []
repos_of jobs ((_, a) ∷ rest) = add_repo (repo_of (get a.job_id jobs)) (repos_of jobs rest)

-- LIMIT n
unfoldable pub limit {ℓ} : {A : Type ℓ} → ℕ → List A → List A
limit zero xs = []
limit (suc n) [] = []
limit (suc n) (x ∷ xs) = x ∷ limit n xs

unfoldable pub keys {ℓ} : {V : Type ℓ} → Table V → List ℕ
keys [] = []
keys ((k, _) ∷ t) = k ∷ keys t

-- A row of the `expired` batch after its attempt is closed.
pub record Expired : Type 0 where
  pub job_id : ℕ
  pub to_agent : ℕ
  pub repo_id : Option ℕ

unfoldable pub expired_rows : Table Job → Table Attempt → List Expired
expired_rows jobs [] = []
expired_rows jobs ((_, a) ∷ rest) = elim (get a.job_id jobs) [
  | none ↦ expired_rows jobs rest
  | some j ↦
      record { job_id = a.job_id; to_agent = j.to_agent; repo_id = j.repo_id }
      ∷ expired_rows jobs rest
]

-- What the loop over the batch decides for a row: `none` requeues the job.
unfoldable pub fate : Registry → Table Attempt → Expired → Option Reason
fate registry attempts e =
    if requeue_safe registry e.to_agent
    then (if leb max_attempts (attempt_count attempts e.job_id) then some poison else none)
    else some lease_expired

unfoldable pub requeued : Registry → Table Attempt → List Expired → List ℕ
requeued registry attempts [] = []
requeued registry attempts (e ∷ es) = elim (fate registry attempts e) [
  | none ↦ e.job_id ∷ requeued registry attempts es
  | some _ ↦ requeued registry attempts es
]

unfoldable pub buried : Registry → Table Attempt → List Expired → List DeadLetter
buried registry attempts [] = []
buried registry attempts (e ∷ es) = elim (fate registry attempts e) [
  | none ↦ buried registry attempts es
  | some reason ↦ record { source_id = e.job_id; reason = reason } ∷ buried registry attempts es
]

unfoldable pub sources : List DeadLetter → List ℕ
sources [] = []
sources (d ∷ ds) = d.source_id ∷ sources ds

unfoldable pub repo_list : List Expired → List ℕ
repo_list [] = []
repo_list (e ∷ es) = elim e.repo_id [ none ↦ repo_list es | some r ↦ r ∷ repo_list es ]

unfoldable pub occurrences : ℕ → List ℕ → ℕ
occurrences r [] = 0
occurrences r (x ∷ xs) = bit (x == r) + occurrences r xs

-- The loop over sorted(repo_dec): each row loses its own count of freed slots, floored at 0. The
-- rows are distinct, so the order of the updates, which the locks need, does not show.
unfoldable pub free_slots : List ℕ → Table ℕ → Table ℕ
unfolding occurrences
free_slots freed [] = []
free_slots freed ((r, n) ∷ rc) = (r, n - occurrences r freed) ∷ free_slots freed rc

-- The orphan heal, on the jobs and attempts.
unfoldable pub heal_orphans : (ℕ → Bool) → ℕ → Core → Core
heal_orphans locked now c = close_where (λ k a. is_orphan c.jobs a && not (locked k)) terminal now c

-- The attempts of the `expired` CTE.
unfoldable pub expired_batch : (ℕ → Bool) → ℕ → Core → Table Attempt
unfolding limit
expired_batch locked now c = limit reclaim_batch (
    select (λ k a. holds_lease c.jobs a && leb a.lease_expires_at now && not (locked k)) c.attempts)

-- UPDATE job SET status='queued' / 'dead' WHERE id = ANY(…) AND status IN ('leased','running')
unfoldable pub move_jobs : List ℕ → List ℕ → Core → Core
move_jobs requeue bury c =
    set_status_where (λ i j. mem i bury && is_live j.status) dead
      (set_status_where (λ i j. mem i requeue && is_live j.status) queued c)

unfoldable pub reclaim_batch_of : Registry → ℕ → Table Attempt → List ℕ → Ledger → ℕ × Ledger
unfolding keys expired_rows requeued buried sources repo_list free_slots
reclaim_batch_of registry now batch orphan_repos l =
    let rows = expired_rows l.jobs batch in
    let closed = close_where (λ k _. mem k (keys batch)) retryable now l.core in
    let letters = buried registry closed.attempts rows in
    (
      length rows,
      record l {
        core = move_jobs (requeued registry closed.attempts rows) (sources letters) closed;
        dead_letters = l.dead_letters ++ letters;
        repo_concurrency = free_slots (orphan_repos ++ repo_list rows) l.repo_concurrency;
      },
    )

unfoldable pub reclaim_expired : Registry → (ℕ → Bool) → ℕ → Ledger → ℕ × Ledger
unfolding heal_orphans expired_batch repos_of reclaim_batch_of move_jobs
reclaim_expired registry locked now l =
    let healed = heal_orphans locked now l.core in
    let orphans = select (λ k a. is_orphan l.jobs a && not (locked k)) l.attempts in
    reclaim_batch_of registry now (expired_batch locked now healed) (repos_of l.jobs orphans)
      (record l { core = healed })

-- ended_at IS NOT NULL AND ended_at <= now() - min_age
abbrev pub ended_before : ℕ → ℕ → Option ℕ → Bool
ended_before min_age now none = false
ended_before min_age now (some t) = leb (t + min_age) now

abbrev pub is_reapable : ℕ → ℕ → Attempt → Bool
is_reapable min_age now a = not (is_open a.status) && ended_before min_age now a.ended_at

-- The attempts that a sweep of the worktrees may remove.
unfoldable pub reapable_attempt_ids : ℕ → ℕ → Ledger → List ℕ
unfolding keys
reapable_attempt_ids min_age now l = keys (select (λ _ a. is_reapable min_age now a) l.attempts)

-- The repositories of GROUP BY j.repo_id, once each.
unfoldable pub distinct : List ℕ → List ℕ
distinct [] = []
distinct (x ∷ xs) = let rest = distinct xs in if mem x xs then rest else x ∷ rest

unfoldable pub upsert_row : ℕ → ℕ → Option ℕ → Table ℕ → Table ℕ
upsert_row r n none rc = insert r n rc
upsert_row r n (some _) rc = set_active r n rc

-- INSERT … ON CONFLICT (repo_id) DO UPDATE SET active = EXCLUDED.active
unfoldable pub upsert_active : ℕ → ℕ → Table ℕ → Table ℕ
unfolding upsert_row
upsert_active r n rc = upsert_row r n (get r rc) rc

unfoldable pub upsert_all : (ℕ → ℕ) → List ℕ → Table ℕ → Table ℕ
unfolding upsert_active
upsert_all truth [] rc = rc
upsert_all truth (r ∷ rs) rc = upsert_all truth rs (upsert_active r (truth r) rc)

-- UPDATE repo_concurrency SET active = 0 WHERE active <> 0 AND NOT EXISTS …
unfoldable pub zero_idle : (ℕ → ℕ) → Table ℕ → Table ℕ
zero_idle truth rc = update_where (λ r n. not (n == 0) && truth r == 0) (λ _. 0) rc

unfoldable pub reconcile_repo_concurrency : (ℕ → Bool) → ℕ → Ledger → ℕ × Ledger
unfolding heal_orphans repos_of distinct upsert_all zero_idle
reconcile_repo_concurrency locked now l =
    let c = heal_orphans locked now l.core in
    let truth = live_count c.jobs c.attempts in
    let repos = distinct (repos_of c.jobs (select (λ _ a. holds_lease c.jobs a) c.attempts)) in
    (
      length repos,
      record l {
        core = c;
        repo_concurrency = zero_idle truth (upsert_all truth repos l.repo_concurrency);
      },
    )
