-- ===== src/Worker.antt =====
-- The worker of src/runtime/worker.py, over any ledger that keeps the worker's contract. The agent and
-- git are not modelled: `Round` says how the agent's run goes, and `others` what the rest of the
-- system does to the ledger while it runs.
pub mod Postgres
pub mod Sqlite
pub mod Attempt
use myndaix_runtime.Prelude.{
  ℕ, zero, suc, ◌+◌, ◌≡◌, refl, Bool, true, false, ◌&&◌, Option, none, some, List, [], ◌∷◌, ◌++◌,
  is_some, if◌then◌else◌,
}
use myndaix_runtime.Contracts.{
  Text, Authority, workspace_actor, AgentSpec, Registry, Result, ResultStatus, ok_result,
}
use myndaix_runtime.Ledger.State.{Outcome, ok, raise, Error, lost_lease}

-- What a worker reads of a job.
pub record WorkerJob : Type 0 where
  pub to_agent : ℕ
  pub repo_id : Option ℕ
  pub base_ref : Option Text

-- class WorkerLedger, with heartbeat_attempt. A store promises that an attempt which has been
-- reported gives no more work.
pub record WorkerLedger (S : Type 0) : Type 0 where
  pub lease_job : ℕ → S → Option ℕ × S
  pub get_attempt_job : ℕ → S → Option WorkerJob
  pub heartbeat_attempt : ℕ → S → Outcome S
  pub complete_attempt : ℕ → Result → S → Outcome S
  pub fail_attempt : ℕ → Result → S → Outcome S
  pub complete_closes :
      (k : ℕ) (r : Result) (s t : S) → complete_attempt k r s ≡ ok t → get_attempt_job k t ≡ none
  pub fail_closes :
      (k : ℕ) (r : Result) (s t : S) → fail_attempt k r s ≡ ok t → get_attempt_job k t ≡ none

-- What leaves process_attempt: a value, or an exception that it does not catch.
pub data Exit : Type 0 where
  returned : Option ResultStatus → Exit
  raised : Error → Exit
  git_failed : Exit

-- The calls of the workspace manager and of _unlink.
pub data Act : Type 0 where
  create capture_diff cleanup unlink : Act

pub record Report (S : Type 0) : Type 0 where
  pub exit : Exit
  pub ledger : S
  pub acts : List Act

-- One run of an agent: the heartbeats before it ends, its result, whether git makes the worktree, and
-- the diff that git finds in it.
pub record Round : Type 0 where
  pub beats : ℕ
  pub result : Result
  pub git_works : Bool
  pub diff : Option Text

abbrev pub is_actor : Option AgentSpec → Bool
is_actor none = false
is_actor (some spec) = elim spec.authority [ workspace_actor ↦ true | _ ↦ false ]

-- spec and spec.authority is WORKSPACE_ACTOR and job.repo_id
unfoldable pub needs_worktree : Registry → WorkerJob → Bool
needs_worktree registry j = is_actor (registry j.to_agent) && is_some j.repo_id

abbrev pub is_ok : ResultStatus → Bool
is_ok ok_result = true
is_ok _ = false

-- result.artifact_ref = capture_diff(worktree), when the run was good.
unfoldable pub with_diff : Bool → Round → Result
with_diff worktree round =
    if worktree && is_ok round.result.status
    then record round.result { artifact_ref = round.diff }
    else round.result

-- _unlink(result.artifact_ref)
abbrev pub unlinked : Result → List Act
unlinked r = if is_some r.artifact_ref then unlink ∷ [] else []

abbrev pub captured : Bool → Round → List Act
captured worktree round = if worktree && is_ok round.result.status then capture_diff ∷ [] else []

module _ {S : Type 0} (store : WorkerLedger S) where
  -- One wait and the heartbeat after it; the rest of the run follows if the lease was there.
  unfoldable pub beaten : Outcome S → S → (S → Option Error × S) → Option Error × S
  beaten (ok t) s rest = rest t
  beaten (raise e) s rest = (some e, s)

  -- _invoke: a heartbeat between two waits; the exception of a heartbeat, if any, and the ledger.
  unfoldable pub invoke : (ℕ → S → S) → ℕ → ℕ → S → Option Error × S
  unfolding beaten
  invoke others attempt zero s = (none, others 0 s)
  invoke others attempt (suc n) s =
      let t = others (suc n) s in
      beaten (store.heartbeat_attempt attempt t) t (λ u. invoke others attempt n u)

  -- The report of the result, with its `except LostLease`.
  unfoldable pub reported : Result → S → Outcome S → Report S
  reported r s (ok t) = record { exit = returned (some r.status); ledger = t; acts = [] }
  reported r s (raise lost_lease) = record { exit = returned none; ledger = s; acts = unlinked r }
  reported r s (raise e) = record { exit = raised e; ledger = s; acts = [] }

  unfoldable pub report_result : ℕ → Result → S → Report S
  unfolding reported
  report_result attempt r s = reported r s (
      if is_ok r.status then store.complete_attempt attempt r s else store.fail_attempt attempt r s)

  -- After _invoke, with its `except LostLease`.
  unfoldable pub after_invoke : Bool → Round → ℕ → Option Error × S → Report S
  unfolding report_result with_diff
  after_invoke worktree round attempt (some lost_lease, s) = record {
    exit = returned none;
    ledger = s;
    acts = [];
  }
  after_invoke worktree round attempt (some e, s) = record {
    exit = raised e;
    ledger = s;
    acts = [];
  }
  after_invoke worktree round attempt (none, s) =
      let r = report_result attempt (with_diff worktree round) s in
      record r { acts = captured worktree round ++ r.acts }

  unfoldable pub run_agent : (ℕ → S → S) → Bool → Round → ℕ → S → Report S
  unfolding invoke after_invoke
  run_agent others worktree round attempt s =
      after_invoke worktree round attempt (invoke others attempt round.beats s)

  -- The body of the try in a worktree, and its finally; `works` says whether git made the worktree.
  unfoldable pub bracketed : Bool → S → Report S → Report S
  bracketed true s r = record r { acts = create ∷ (r.acts ++ cleanup ∷ []) }
  bracketed false s r = record { exit = git_failed; ledger = s; acts = create ∷ cleanup ∷ [] }

  -- The try and its finally: cleanup on every way out.
  unfoldable pub in_worktree : (ℕ → S → S) → Bool → Round → ℕ → S → Report S
  unfolding run_agent bracketed
  in_worktree others false round attempt s = run_agent others false round attempt s
  in_worktree others true round attempt s =
      bracketed round.git_works s (run_agent others true round attempt s)

  unfoldable pub process_job : Registry → (ℕ → S → S) → Round → ℕ → Option WorkerJob → S → Report S
  unfolding in_worktree needs_worktree
  process_job registry others round attempt none s = record {
    exit = returned none;
    ledger = s;
    acts = [];
  }
  process_job registry others round attempt (some j) s =
      in_worktree others (needs_worktree registry j) round attempt s

  unfoldable pub process_attempt : Registry → (ℕ → S → S) → Round → ℕ → S → Report S
  unfolding process_job
  process_attempt registry others round attempt s =
      process_job registry others round attempt (store.get_attempt_job attempt s) s

  unfoldable pub leased : Registry → (ℕ → S → S) → Round → Option ℕ × S → Bool × S
  unfolding process_attempt
  leased registry others round (none, s) = (false, s)
  leased registry others round (some k, s) =
      (true, (process_attempt registry others round k s).ledger)

  -- run_one; an exception of process_attempt leaves the ledger as it is.
  unfoldable pub run_one : Registry → (ℕ → S → S) → Round → ℕ → S → Bool × S
  unfolding leased
  run_one registry others round worker s = leased registry others round (store.lease_job worker s)
