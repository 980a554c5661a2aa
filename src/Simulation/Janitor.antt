-- ===== src/Simulation/Janitor.antt =====
-- reclaim_expired and reconcile_repo_concurrency (src/runtime/ledger/postgres_store.py) make moves
-- of the machine.
use myndaix_runtime.Prelude.{
  ℕ, ◌<◌, ◌≡◌, refl, sym, ap, ◌∙◌, Bool, true, ◌&&◌, not, Option, none, some, List, [], ◌∷◌, ◌==◌,
  arith, Bool-cases, inl, inr, ◌⊎◌, ==→eq, mem,
}
use myndaix_runtime.Prelude.Options.{some-injective-path}
use myndaix_runtime.Prelude.Table.{Table, get, select}
use myndaix_runtime.Contracts.{dead, retryable, terminal, Registry, requeue_safe}
use myndaix_runtime.Ledger.State.{
  Job, Attempt, Core, Ledger, is_live, attempt_count, max_attempts, Reason, close_where,
}
use myndaix_runtime.Ledger.Janitor.{
  Expired, expired_rows, fate, requeued, move_jobs, keys, expired_batch, repos_of, reclaim_batch_of,
  reclaim_expired, heal_orphans, is_orphan, reconcile_repo_concurrency,
}
use myndaix_runtime.Machine.{Moves, none_left, more, requeue, Moves-append}
use myndaix_runtime.Simulation.Finish.{close_where-Moves, end_jobs-Moves}

-- The rows of a batch carry the agents of their jobs.
abbrev Agrees : Table Job → List Expired → Type 0
Agrees jobs [] = Unit
Agrees jobs (e ∷ es) =
    ((j : Job) → get e.job_id jobs ≡ some j → j.to_agent ≡ e.to_agent) × Agrees jobs es

expired_rows-Agrees :
    (jobs : Table Job) (batch : Table Attempt) → Agrees jobs (expired_rows jobs batch)
unfolding expired_rows
expired_rows-Agrees jobs [] = tt
expired_rows-Agrees jobs ((_, a) ∷ rest) =
    of_job (get a.job_id jobs) refl (expired_rows-Agrees jobs rest)
  where
    of_job :
        (o : Option Job)
        → get a.job_id jobs ≡ o
        → Agrees jobs (expired_rows jobs rest)
        → Agrees jobs (elim o [
          | none ↦ expired_rows jobs rest
          | some j ↦
              record { job_id = a.job_id; to_agent = j.to_agent; repo_id = j.repo_id }
              ∷ expired_rows jobs rest
        ])
    of_job none g h = h
    of_job (some j) g h =
        ((λ i q. ap (λ (m : Job). m.to_agent) (some-injective-path (sym q ∙ g))), h)

fate-none :
    (registry : Registry) (attempts : Table Attempt) (e : Expired)
    → fate registry attempts e ≡ none
    → (requeue_safe registry e.to_agent ≡ true) × (attempt_count attempts e.job_id < max_attempts)
unfolding fate
fate-none registry attempts e h = ground arith

mem-requeued :
    (registry : Registry) (attempts : Table Attempt) (e : Expired) (es : List Expired) (k : ℕ)
    → mem k (requeued registry attempts (e ∷ es)) ≡ true
    → ((e.job_id ≡ k) × (fate registry attempts e ≡ none))
      ⊎ (mem k (requeued registry attempts es) ≡ true)
mem-requeued registry attempts e es k m =
    of_fate (fate registry attempts e) refl (unfold requeued in m)
  where
    of_fate :
        (o : Option Reason)
        → fate registry attempts e ≡ o
        → mem k (elim o [
          | none ↦ e.job_id ∷ requeued registry attempts es
          | some _ ↦ requeued registry attempts es
        ])
          ≡ true
        → ((e.job_id ≡ k) × (fate registry attempts e ≡ none))
          ⊎ (mem k (requeued registry attempts es) ≡ true)
    of_fate (some _) q h = inr h
    of_fate none q h = elim (Bool-cases (e.job_id == k)) [
      | inl b ↦ inl (==→eq e.job_id k b, q)
      | inr b ↦ inr (rw b at h)
    ]

-- A job that the batch requeues is retry-safe and has an attempt left.
requeued-room :
    (registry : Registry) (jobs : Table Job) (attempts : Table Attempt) (rows : List Expired)
    (k : ℕ) (j : Job)
    → Agrees jobs rows
    → get k jobs ≡ some j
    → mem k (requeued registry attempts rows) ≡ true
    → (requeue_safe registry j.to_agent ≡ true) × (attempt_count attempts k < max_attempts)
unfolding requeued
requeued-room registry jobs attempts [] k j a g m = absurd (cc)
requeued-room registry jobs attempts (e ∷ es) k j a g m =
    elim (mem-requeued registry attempts e es k m) [
      | inl (q, f) ↦
          let (safe, room) = fate-none registry attempts e f in
          (rw (a.0 j (rw q g)) safe, rw (← q) room)
      | inr n ↦ requeued-room registry jobs attempts es k j a.1 g n
    ]

module _ (registry : Registry) (cap : ℕ) where
  move_jobs-Moves :
      (rows : List Expired) (bury : List ℕ) (c : Core)
      → Agrees c.jobs rows
      → Moves registry cap c (move_jobs (requeued registry c.attempts rows) bury c)
  unfolding move_jobs
  move_jobs-Moves rows bury c a =
      Moves-append
        (more none_left (
          requeue c (λ i j. mem i (requeued registry c.attempts rows) && is_live j.status)
            (λ k j e. ground arith)
            (λ k j g e.
              let (safe, room) =
                requeued-room registry c.jobs c.attempts rows k j a g (ground arith) in
              record { safe = safe; room = room })))
        (end_jobs-Moves registry cap (λ i j. mem i bury && is_live j.status) dead _ refl
          (λ k j e. ground arith))

  pub heal_orphans-Moves :
      (locked : ℕ → Bool) (now : ℕ) (c : Core) → Moves registry cap c (heal_orphans locked now c)
  unfolding heal_orphans
  heal_orphans-Moves locked now c = close_where-Moves registry cap _ terminal now c

  reclaim_batch_of-Moves :
      (now : ℕ) (batch : Table Attempt) (orphans : List ℕ) (l : Ledger)
      → Moves registry cap l.core (reclaim_batch_of registry now batch orphans l).1.core
  unfolding reclaim_batch_of
  reclaim_batch_of-Moves now batch orphans l =
      Moves-append (close_where-Moves registry cap (λ k _. mem k (keys batch)) retryable now l.core)
        (move_jobs-Moves (expired_rows l.jobs batch) _
          (close_where (λ k _. mem k (keys batch)) retryable now l.core)
          (unfold close_where in expired_rows-Agrees l.jobs batch))

  pub reclaim_expired-Moves :
      (locked : ℕ → Bool) (now : ℕ) (l : Ledger)
      → Moves registry cap l.core (reclaim_expired registry locked now l).1.core
  reclaim_expired-Moves locked now l =
      unfold reclaim_expired in
      Moves-append (heal_orphans-Moves locked now l.core) (
        reclaim_batch_of-Moves now (expired_batch locked now (heal_orphans locked now l.core))
          (repos_of l.jobs (select (λ k a. is_orphan l.jobs a && not (locked k)) l.attempts))
          (record l { core = heal_orphans locked now l.core }))

  pub reconcile_repo_concurrency-Moves :
      (locked : ℕ → Bool) (now : ℕ) (l : Ledger)
      → Moves registry cap l.core (reconcile_repo_concurrency locked now l).1.core
  reconcile_repo_concurrency-Moves locked now l =
      unfold reconcile_repo_concurrency in heal_orphans-Moves locked now l.core
