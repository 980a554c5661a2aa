-- ===== src/Machine/Terminal.antt =====
-- A job that has ended stays as it is, and no move changes who a job is.
use myndaix_runtime.Prelude.{ℕ, ◌≡◌, refl, Bool, true, false, ◌&&◌, some, ◌==◌, arith}
use myndaix_runtime.Prelude.Table.{Table, get, update_where, get-update_where, get-insert}
use myndaix_runtime.Contracts.{Registry}
use myndaix_runtime.Ledger.State.{Job, Core, is_queued, is_terminal, set_status_where}
use myndaix_runtime.Ledger.Lease.{claimed}
use myndaix_runtime.Ledger.Dispatch.{add_job}
use myndaix_runtime.Machine.{
  Move, take_id, touch, settle, requeue, lease, admit, Moves, none_left, more,
}

-- A statement that passes over the ended jobs.
kept :
    (p : ℕ → Job → Bool) (f : Job → Job)
    → ((k : ℕ) (j : Job) → p k j ≡ true → is_terminal j.status ≡ false)
    → (k : ℕ) (j : Job) (t : Table Job) → get k t ≡ some j
    → is_terminal j.status ≡ true
    → get k (update_where p f t) ≡ some j
kept p f h k j t g e = rw (get-update_where, g) (ground (arith, h k j))

module _ {registry : Registry} {cap : ℕ} (k : ℕ) (j : Job)
    (ended : is_terminal j.status ≡ true) where
  Move-terminal :
      {c d : Core} → Move registry cap c d → get k c.jobs ≡ some j → get k d.jobs ≡ some j
  unfolding set_status_where claimed add_job
  Move-terminal (take_id c) g = g
  Move-terminal (touch c p f h) g = g
  Move-terminal (settle c p f h w) g = kept p f w k j c.jobs g ended
  Move-terminal (requeue c p w h) g = kept p _ (λ i m e. ground (arith, w i m e)) k j c.jobs g ended
  Move-terminal (lease c i w n m _ _ _ _) g =
      kept (λ x y. x == i && is_queued y.status) _ (λ x y e. ground arith) k j c.jobs g ended
  Move-terminal (admit c m h) g = rw (get-insert, g) refl

  pub Moves-terminal :
      {c d : Core} → Moves registry cap c d → get k c.jobs ≡ some j → get k d.jobs ≡ some j
  Moves-terminal none_left g = g
  Moves-terminal (more m s) g = Move-terminal s (Moves-terminal m g)
