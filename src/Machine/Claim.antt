-- ===== src/Machine/Claim.antt =====
-- What _CLAIM_SQL does to the counts and to the jobs, when it claims the queued job `j` at `k`.
use myndaix_runtime.Prelude.{
  ℕ, ◌+◌, ◌≤◌, ◌≡◌, refl, ap, ◌∙◌, true, false, ◌&&◌, Option, none, some, holds, ◌==◌, arith, bit,
  if◌then◌else◌,
}
use myndaix_runtime.Prelude.Table.{get, get-update_where, update_where-row, updated}
use myndaix_runtime.Prelude.Keyed.{IsKeyed, update_where-IsKeyed}
use myndaix_runtime.Contracts.{leased}
use myndaix_runtime.Ledger.State.{
  Job, Core, is_queued, live_count, open_count, attempt_count, live_in_repo, job_test,
}
use myndaix_runtime.Ledger.Lease.{claimed}
use myndaix_runtime.Machine.Counts.{
  live_count_gain, live_count-insert, open_count-insert, attempt_count-insert,
}

module _ (c : Core) (k attempt worker now : ℕ) (j : Job) (at : get k c.jobs ≡ some j)
    (waits : is_queued j.status ≡ true) where
  abbrev after : Core
  after = claimed k attempt worker now c

  get-claimed : get k after.jobs ≡ some (record j { status = leased })
  unfolding claimed
  get-claimed = rw (get-update_where, at) (ground arith)

  other_jobs :
      (s i : ℕ)
      → (i == k) ≡ false
      → job_test (live_in_repo s) (get i after.jobs) ≡ true
      → job_test (live_in_repo s) (get i c.jobs) ≡ true
  unfolding claimed
  other_jobs s i ne = rw get-update_where (same (get i c.jobs))
    where
      same :
          (o : Option Job)
          → job_test (live_in_repo s) (
              updated (λ n m. n == k && is_queued m.status) (λ m. record m { status = leased }) i o)
            ≡ true
          → job_test (live_in_repo s) o ≡ true
      same none h = h
      same (some m) h = ground arith

  live_count_new :
      (s : ℕ)
      → live_count after.jobs after.attempts s
        ≡ live_count after.jobs c.attempts s + bit (holds j.repo_id s)
  live_count_new s =
      counted
      ∙ ap
          (λ (o : Option Job).
            live_count after.jobs c.attempts s + bit (job_test (live_in_repo s) o))
          get-claimed
    where
      counted :
          live_count after.jobs after.attempts s
          ≡ live_count after.jobs c.attempts s + bit (job_test (live_in_repo s) (get k after.jobs))
      counted = unfold claimed in live_count-insert after.jobs attempt _ c.attempts s

  pub live_count-claimed :
      (s : ℕ)
      → live_count after.jobs after.attempts s
        ≤ live_count c.jobs c.attempts s + open_count c.attempts k + bit (holds j.repo_id s)
  live_count-claimed s =
      omega
        (arith, live_count_new s, live_count_gain c.jobs after.jobs c.attempts s k (other_jobs s))

  pub open_count-claimed :
      (i : ℕ) → open_count after.attempts i ≡ open_count c.attempts i + bit (k == i)
  unfolding claimed
  open_count-claimed i = open_count-insert attempt _ c.attempts i

  pub attempt_count-claimed :
      (i : ℕ) → attempt_count after.attempts i ≡ attempt_count c.attempts i + bit (k == i)
  unfolding claimed
  attempt_count-claimed i = attempt_count-insert attempt _ c.attempts i

  -- A row after the claim: the claimed one, or one that is as before.
  pub claimed-row :
      (i : ℕ) (v : Job)
      → get i after.jobs ≡ some v
      → (u : Job) × (get i c.jobs ≡ some u)
        × (v ≡ (if i == k && is_queued u.status then record u { status = leased } else u))
  unfolding claimed
  claimed-row i v e = update_where-row _ _ i c.jobs v e

  pub next_id-claimed : after.next_id ≡ c.next_id
  unfolding claimed
  next_id-claimed = refl

  pub missing_claimed : (i : ℕ) → get i c.jobs ≡ none → get i after.jobs ≡ none
  unfolding claimed
  missing_claimed i e = rw (get-update_where, e) refl

  pub claimed-IsKeyed : IsKeyed c.jobs → IsKeyed after.jobs
  unfolding claimed
  claimed-IsKeyed h = update_where-IsKeyed _ _ c.jobs h
