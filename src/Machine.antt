-- ===== src/Machine.antt =====
-- The abstract state machine of the jobs and their attempts, which the verbs of PostgresLedger
-- (src/runtime/ledger/postgres_store.py) implement.
pub mod Counts
pub mod Claim
pub mod Limits
pub mod Terminal
pub mod Admission
pub mod Attempts
use myndaix_runtime.Prelude.{
  ℕ, suc, ◌+◌, ◌≤◌, ◌<◌, ◌≡◌, Bool, true, false, Option, some, none, holds,
}
use myndaix_runtime.Prelude.Table.{update_where, get}
use myndaix_runtime.Contracts.{Registry, requeue_safe, queued}
use myndaix_runtime.Ledger.State.{
  Job, Attempt, Core, is_live, is_open, is_queued, is_dead, is_terminal, live_count, open_count,
  attempt_count, max_attempts, max_depth, max_children, set_status_where,
}
use myndaix_runtime.Ledger.Lease.{claimed}
use myndaix_runtime.Ledger.Dispatch.{add_job, child_count}

-- A job that ends: its status is terminal, and what the limits read of it stays.
pub record Ends (a b : Job) : Type 0 where
  pub terminal : is_terminal b.status ≡ true
  pub repo : b.repo_id ≡ a.repo_id
  pub agent : b.to_agent ≡ a.to_agent
  pub parent : b.parent_id ≡ a.parent_id
  pub depth : b.depth ≡ a.depth
  pub event : b.inbound_event_id ≡ a.inbound_event_id

-- An attempt that stays an attempt of its job, and does not open again.
pub record Closes (a b : Attempt) : Type 0 where
  pub job : b.job_id ≡ a.job_id
  pub shut : is_open b.status ≡ true → is_open a.status ≡ true

pub record MayRequeue (registry : Registry) (c : Core) (k : ℕ) (j : Job) : Type 0 where
  pub safe : requeue_safe registry j.to_agent ≡ true
  pub room : attempt_count c.attempts k < max_attempts

pub record MayAdmit (c : Core) (j : Job) : Type 0 where
  pub fits : is_queued j.status ≡ true → j.depth ≤ max_depth
  pub sibling :
      is_queued j.status ≡ true
      → (p : ℕ) → holds j.parent_id p ≡ true
      → child_count c.jobs p < max_children
  pub waits : is_dead j.status ≡ false → is_queued j.status ≡ true

pub data Move (registry : Registry) (cap : ℕ) : Core → Core → Type 0 where
  take_id : (c : Core) → Move registry cap c (record c { next_id = suc c.next_id })
  touch :
      (c : Core) (p : ℕ → Attempt → Bool) (f : Attempt → Attempt)
      → ((a : Attempt) → Closes a (f a))
      → Move registry cap c (record c { attempts = update_where p f c.attempts })
  settle :
      (c : Core) (p : ℕ → Job → Bool) (f : Job → Job)
      → ((j : Job) → Ends j (f j))
      → ((k : ℕ) (j : Job) → p k j ≡ true → is_terminal j.status ≡ false)
      → Move registry cap c (record c { jobs = update_where p f c.jobs })
  requeue :
      (c : Core) (p : ℕ → Job → Bool)
      → ((k : ℕ) (j : Job) → p k j ≡ true → is_live j.status ≡ true)
      → ((k : ℕ) (j : Job) → get k c.jobs ≡ some j → p k j ≡ true → MayRequeue registry c k j)
      → Move registry cap c (set_status_where p queued c)
  lease :
      (c : Core) (k worker now : ℕ) (j : Job)
      → get k c.jobs ≡ some j
      → is_queued j.status ≡ true
      → open_count c.attempts k ≡ 0
      → ((r : ℕ) → holds j.repo_id r ≡ true → live_count c.jobs c.attempts r < cap)
      → Move registry cap c (claimed k c.next_id worker now (record c { next_id = suc c.next_id }))
  admit : (c : Core) (j : Job) → MayAdmit c j → Move registry cap c (add_job c.next_id j c)

-- Zero or more moves.
pub data Moves (registry : Registry) (cap : ℕ) (c : Core) : Core → Type 0 where
  none_left : Moves registry cap c c
  more : {d e : Core} → Moves registry cap c d → Move registry cap d e → Moves registry cap c e

pub Moves-append :
    {registry : Registry} {cap : ℕ} {c d e : Core}
    → Moves registry cap c d
    → Moves registry cap d e
    → Moves registry cap c e
Moves-append m none_left = m
Moves-append m (more n s) = more (Moves-append m n) s
