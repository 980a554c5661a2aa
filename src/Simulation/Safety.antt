-- ===== src/Simulation/Safety.antt =====
-- What holds of every ledger that the verbs of src/runtime/ledger/postgres_store.py reach from an
-- empty one, in any order, with any arguments and whatever other transactions hold.
use myndaix_runtime.Prelude.{ℕ, ◌≤◌, ◌≡◌, refl, true, false, some, [], arith}
use myndaix_runtime.Prelude.Table.{get, count}
use myndaix_runtime.Contracts.{Registry, requeue_safe}
use myndaix_runtime.Ledger.State.{
  Job, Core, Ledger, is_dead, is_terminal, live_count, open_count, attempt_count, max_attempts,
  max_depth, max_children,
}
use myndaix_runtime.Ledger.Dispatch.{child_count}
use myndaix_runtime.Machine.{Moves, none_left, Moves-append}
use myndaix_runtime.Machine.Limits.{Limits, Moves-Limits}
use myndaix_runtime.Machine.Terminal.{Moves-terminal}
use myndaix_runtime.Machine.Admission.{Admitted, Moves-Admitted}
use myndaix_runtime.Simulation.{Run, start, then, Step-Moves}

-- A fresh database.
abbrev pub empty_core : Core
empty_core = record { next_id = 0; jobs = []; attempts = [] }

abbrev pub empty : Ledger
empty = record {
  core = empty_core;
  repo_concurrency = [];
  inbound_events = [];
  outbounds = [];
  dead_letters = [];
  attempt_log = [];
}

empty-Limits : (registry : Registry) (cap : ℕ) → Limits registry cap empty_core
unfolding live_count open_count attempt_count count get
empty-Limits registry cap = record {
  capped = λ r. omega arith;
  one_open = λ k. omega arith;
  keyed = tt;
  fresh_job = λ k h. refl;
  fresh_attempt = λ k h. refl;
  budget = λ k j e. absurd (cc);
}

empty-Admitted : Admitted empty_core
unfolding child_count count get
empty-Admitted = record { shallow = λ k j e. absurd (cc); few = λ p. omega arith }

module _ {registry : Registry} {cap : ℕ} where
  Run-Limits :
      {l m : Ledger}
      → Run registry cap l m
      → Limits registry cap l.core
      → Limits registry cap m.core
  Run-Limits start h = h
  Run-Limits (then r s) h = let k = Run-Limits r h in Moves-Limits (Step-Moves s k) k

  -- The verbs refine the machine: what they do to jobs and attempts is a sequence of its moves.
  pub Run-Moves :
      {l m : Ledger}
      → Run registry cap l m
      → Limits registry cap l.core
      → Moves registry cap l.core m.core
  Run-Moves start h = none_left
  Run-Moves (then r s) h = Moves-append (Run-Moves r h) (Step-Moves s (Run-Limits r h))

  -- The verbs refine the machine: whatever they do to the jobs and attempts of an empty ledger, in
  -- whatever order, is a sequence of the machine's moves.
  pub verbs_refine_machine :
      {l : Ledger} → Run registry cap empty l → Moves registry cap empty_core l.core
  verbs_refine_machine r = Run-Moves r (empty-Limits registry cap)

  pub reached : {l : Ledger} → Run registry cap empty l → Limits registry cap l.core
  reached r = Run-Limits r (empty-Limits registry cap)

  -- On every reachable ledger the open attempts on live jobs of one repository are at most the cap,
  -- whatever the soft counters say.
  pub cap_respected :
      {l : Ledger} → Run registry cap empty l → (r : ℕ) → live_count l.jobs l.attempts r ≤ cap
  cap_respected r = (reached r).capped

  -- No reachable ledger has two open attempts on one job.
  pub no_double_lease :
      {l : Ledger} → Run registry cap empty l → (k : ℕ) → open_count l.attempts k ≤ 1
  no_double_lease r = (reached r).one_open

  -- On every reachable ledger a job has at most MAX_ATTEMPTS attempts.
  pub attempts_bounded :
      {l : Ledger}
      → Run registry cap empty l
      → (k : ℕ) (j : Job) → get k l.jobs ≡ some j
      → attempt_count l.attempts k ≤ max_attempts
  attempts_bounded r k j g = ((reached r).budget k j g).bounded

  -- On every reachable ledger a job whose agent is not retry-safe has at most one attempt.
  pub unsafe_runs_once :
      {l : Ledger}
      → Run registry cap empty l
      → (k : ℕ) (j : Job) → get k l.jobs ≡ some j
      → requeue_safe registry j.to_agent ≡ false
      → attempt_count l.attempts k ≤ 1
  unsafe_runs_once r k j g = ((reached r).budget k j g).once

  admitted : {l : Ledger} → Run registry cap empty l → Admitted l.core
  admitted r = Moves-Admitted (Run-Moves r (empty-Limits registry cap)) empty-Admitted

  -- On every reachable ledger a job that is not dead lies at most MAX_DEPTH deep.
  depth_bounded :
      {l : Ledger}
      → Run registry cap empty l
      → (k : ℕ) (j : Job) → get k l.jobs ≡ some j
      → is_dead j.status ≡ false
      → j.depth ≤ max_depth
  depth_bounded r = (admitted r).shallow

  -- On every reachable ledger no job has more than MAX_CHILDREN children that are not dead.
  children_bounded :
      {l : Ledger} → Run registry cap empty l → (p : ℕ) → child_count l.jobs p ≤ max_children
  children_bounded r = (admitted r).few

  -- Once a job of a reachable ledger is done, failed or dead, no verb changes anything of its row.
  pub ended_stays :
      {l m : Ledger}
      → Run registry cap empty l
      → Run registry cap l m
      → (k : ℕ) (j : Job) → get k l.jobs ≡ some j
      → is_terminal j.status ≡ true
      → get k m.jobs ≡ some j
  ended_stays r s k j g e = Moves-terminal k j e (Run-Moves s (reached r)) g
