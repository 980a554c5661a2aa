-- ===== src/Simulation/Finish.antt =====
-- complete_attempt, fail_attempt and the statements of cancel
-- (src/runtime/ledger/postgres_store.py) make moves of the machine.
use myndaix_runtime.Prelude.{
  ℕ, ◌<◌, ◌≡◌, refl, sym, ap, ◌∙◌, subst, Bool, true, false, ◌&&◌, Option, none, some, ◌==◌, arith,
  Bool-cases, inl, inr,
}
use myndaix_runtime.Prelude.Options.{some-injective-path}
use myndaix_runtime.Prelude.Table.{get, update_where}
use myndaix_runtime.Contracts.{
  JobStatus, done, failed, dead, ok_attempt, failed_attempt, Result, ErrorClass, retryable,
  terminal, needs_human, Registry, requeue_safe,
}
use myndaix_runtime.Ledger.State.{
  Job, Attempt, Core, Ledger, ok, lost_lease, guarded-ok, is_live, is_open, is_terminal,
  attempt_count, max_attempts, close_where, set_status_where,
}
use myndaix_runtime.Ledger.Finish.{
  complete_core, complete_locked, complete_job, complete_row, complete_attempt, route, Route,
  to_queue, to_failed, to_dead, route_status, fail_core, fail_locked, fail_job, fail_row,
  fail_attempt, cancel_close, cancel_kill, cancel_free,
}
use myndaix_runtime.Machine.{
  Moves, none_left, more, take_id, touch, settle, requeue, MayRequeue, Moves-append, Closes,
}
use myndaix_runtime.Machine.Counts.{attempt_count-close}

-- What a successful complete_attempt has seen and done.
pub record Completion (attempt : ℕ) (result : Result) (now : ℕ) (l l' : Ledger) : Type 0 where
  pub a : Attempt
  pub j : Job
  pub held : get attempt l.attempts ≡ some a
  pub job : get a.job_id l.jobs ≡ some j
  pub opened : is_open a.status ≡ true
  pub live : is_live j.status ≡ true
  pub done : l' ≡ complete_locked attempt result now a.job_id j l

pub complete_attempt-Completion :
    (attempt : ℕ) (result : Result) (now : ℕ) (l l' : Ledger)
    → complete_attempt attempt result now l ≡ ok l'
    → Completion attempt result now l l'
unfolding complete_attempt
complete_attempt-Completion attempt result now l l' e = of_row (get attempt l.attempts) refl e
  where
    of_job :
        (a : Attempt) (o : Option Job)
        → get attempt l.attempts ≡ some a
        → get a.job_id l.jobs ≡ o
        → complete_job attempt result now a o l ≡ ok l'
        → Completion attempt result now l l'
    of_job a none g h q = absurd (cc)
    of_job a (some j) g h q =
        let (b, s) = guarded-ok (is_open a.status && is_live j.status) _ l' lost_lease q in
        record {
          a = a;
          j = j;
          held = g;
          job = h;
          opened = ground arith;
          live = ground arith;
          done = sym s;
        }

    of_row :
        (o : Option Attempt)
        → get attempt l.attempts ≡ o
        → complete_row attempt result now o l ≡ ok l'
        → Completion attempt result now l l'
    of_row none g q = absurd (cc)
    of_row (some a) g q = of_job a (get a.job_id l.jobs) g refl q

route-to_queue :
    (registry : Registry) (x : Option ErrorClass) (agent n : ℕ)
    → route registry x agent n ≡ to_queue
    → (requeue_safe registry agent ≡ true) × (n < max_attempts)
unfolding route
route-to_queue registry (some retryable) agent n e = ground arith
route-to_queue registry (some terminal) agent n e = absurd (cc)
route-to_queue registry (some needs_human) agent n e = absurd (cc)
route-to_queue registry none agent n e = absurd (cc)

module _ (registry : Registry) (cap : ℕ) where
  complete_core-Moves :
      (attempt job : ℕ) (result : Result) (now : ℕ) (c : Core)
      → Moves registry cap c (complete_core attempt job result now c)
  unfolding complete_core
  complete_core-Moves attempt job result now c =
      more
        (more (more none_left (take_id c)) (
          touch _ (λ i _. i == attempt)
            (λ a. record a { status = ok_attempt; ended_at = some now; result = some result })
            (λ a. record { job = refl; shut = λ h. cc })))
        (settle _ (λ i j. i == job && is_live j.status)
          (λ j. record j { status = done; artifact_ref = result.artifact_ref })
          (λ j. record {
            terminal = refl;
            repo = refl;
            agent = refl;
            parent = refl;
            depth = refl;
            event = refl;
          })
          (λ k j e. ground arith))

  pub complete_attempt-Moves :
      (attempt : ℕ) (result : Result) (now : ℕ) (l l' : Ledger)
      → complete_attempt attempt result now l ≡ ok l'
      → Moves registry cap l.core l'.core
  unfolding complete_locked
  complete_attempt-Moves attempt result now l l' e =
      let c = complete_attempt-Completion attempt result now l l' e in
      subst (λ (m : Ledger). Moves registry cap l.core m.core) (sym c.done)
        (complete_core-Moves attempt c.a.job_id result now l.core)

  -- UPDATE job SET status = s WHERE p AND status IN ('leased','running'), to a terminal status.
  pub end_jobs-Moves :
      (p : ℕ → Job → Bool) (s : JobStatus) (c : Core)
      → is_terminal s ≡ true
      → ((k : ℕ) (j : Job) → p k j ≡ true → is_terminal j.status ≡ false)
      → Moves registry cap c (set_status_where p s c)
  unfolding set_status_where
  end_jobs-Moves p s c e h = more none_left (
      settle c p (λ j. record j { status = s })
        (λ j. record {
          terminal = e;
          repo = refl;
          agent = refl;
          parent = refl;
          depth = refl;
          event = refl;
        })
        h)

  fail_core-Moves :
      (attempt job : ℕ) (result : Result) (now : ℕ) (j : Job) (c : Core)
      → get job c.jobs ≡ some j
      → Moves registry cap c (
          fail_core attempt job result now
            (route_status
              (route registry result.error_class j.to_agent (attempt_count c.attempts job)))
            c)
  fail_core-Moves attempt job result now j c g =
      routed (route registry result.error_class j.to_agent (attempt_count c.attempts job)) refl
    where
      close : Attempt → Attempt
      close a = record a {
        status = failed_attempt;
        result = some result;
        error_class = result.error_class;
        ended_at = some now;
      }

      closes : (a : Attempt) → Closes a (close a)
      closes a = record { job = refl; shut = λ h. cc }

      closed : Core
      closed = record c { attempts = update_where (λ i _. i == attempt) close c.attempts }

      may :
          route registry result.error_class j.to_agent (attempt_count c.attempts job) ≡ to_queue
          → (k : ℕ) (m : Job) → get k c.jobs ≡ some m
          → (k == job && is_live m.status) ≡ true
          → MayRequeue registry closed k m
      may q k m h w =
          let e : k ≡ job = ground arith in
          let f : m ≡ j = some-injective-path (sym h ∙ ap (λ i. get i c.jobs) e ∙ g) in
          let (safe, room) =
            route-to_queue registry result.error_class j.to_agent (attempt_count c.attempts job)
              q in
          record {
            safe = rw f safe;
            room =
                rw (e, attempt_count-close (λ i _. i == attempt) close closes c.attempts job) room;
          }

      routed :
          (r : Route)
          → route registry result.error_class j.to_agent (attempt_count c.attempts job) ≡ r
          → Moves registry cap c (fail_core attempt job result now (route_status r) c)
      routed to_queue q =
          unfold fail_core in
          more (more none_left (touch c (λ i _. i == attempt) close closes))
            (requeue closed (λ i m. i == job && is_live m.status) (λ k m w. ground arith) (may q))
      routed to_failed q =
          unfold fail_core in
          Moves-append (more none_left (touch c (λ i _. i == attempt) close closes)) (
            end_jobs-Moves (λ i m. i == job && is_live m.status) failed closed refl
              (λ k m w. ground arith))
      routed (to_dead x) q =
          unfold fail_core in
          Moves-append (more none_left (touch c (λ i _. i == attempt) close closes)) (
            end_jobs-Moves (λ i m. i == job && is_live m.status) dead closed refl
              (λ k m w. ground arith))

  fail_job-Moves :
      (attempt : ℕ) (result : Result) (now : ℕ) (a : Attempt) (o : Option Job) (l l' : Ledger)
      → get a.job_id l.jobs ≡ o
      → fail_job registry attempt result now a o l ≡ ok l'
      → Moves registry cap l.core l'.core
  unfolding fail_job fail_locked
  fail_job-Moves attempt result now a none l l' g e = absurd (cc)
  fail_job-Moves attempt result now a (some j) l l' g e =
      let q : fail_locked registry attempt result now a.job_id j l ≡ l' = cc in
      subst (λ (m : Ledger). Moves registry cap l.core m.core) q
        (fail_core-Moves attempt a.job_id result now j l.core g)

  fail_row-Moves :
      (attempt : ℕ) (result : Result) (now : ℕ) (o : Option Attempt) (l l' : Ledger)
      → fail_row registry attempt result now o l ≡ ok l'
      → Moves registry cap l.core l'.core
  unfolding fail_row
  fail_row-Moves attempt result now none l l' e = absurd (cc)
  fail_row-Moves attempt result now (some a) l l' e = elim (Bool-cases (is_open a.status)) [
    | inl b ↦ fail_job-Moves attempt result now a (get a.job_id l.jobs) l l' refl (rw b at e)
    | inr b ↦ absurd (ground arith)
  ]

  pub fail_attempt-Moves :
      (attempt : ℕ) (result : Result) (now : ℕ) (l l' : Ledger)
      → fail_attempt registry attempt result now l ≡ ok l'
      → Moves registry cap l.core l'.core
  fail_attempt-Moves attempt result now l l' e =
      fail_row-Moves attempt result now (get attempt l.attempts) l l' (unfold fail_attempt in e)

  pub close_where-Moves :
      (p : ℕ → Attempt → Bool) (x : ErrorClass) (now : ℕ) (c : Core)
      → Moves registry cap c (close_where p x now c)
  unfolding close_where
  close_where-Moves p x now c = more none_left (
      touch c p
        (λ a. record a { status = failed_attempt; ended_at = some now; error_class = some x })
        (λ a. record { job = refl; shut = λ h. cc }))

  pub cancel_close-Moves :
      (job now : ℕ) (l : Ledger) → Moves registry cap l.core (cancel_close job now l).core
  unfolding cancel_close
  cancel_close-Moves job now l = close_where-Moves _ terminal now l.core

  pub cancel_kill-Moves :
      (job : ℕ) (l : Ledger) → Moves registry cap l.core (cancel_kill job l).core
  unfolding cancel_kill
  cancel_kill-Moves job l = end_jobs-Moves _ dead l.core refl (λ k j e. ground arith)

  pub cancel_free-Moves :
      (job : ℕ) (closed : Bool) (l : Ledger)
      → Moves registry cap l.core (cancel_free job closed l).core
  unfolding cancel_free
  cancel_free-Moves job closed l = none_left
