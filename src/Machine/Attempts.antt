-- ===== src/Machine/Attempts.antt =====
-- The attempts under the moves of the machine: a closed attempt never opens again, and the keys of
-- the attempts stay distinct.
use myndaix_runtime.Prelude.{
  ℕ, ◌≤◌, ◌≡◌, refl, Bool, false, none, some, arith, Bool-cases, inl, inr,
}
use myndaix_runtime.Prelude.Table.{Table, get, update_where, get-update_where, get-insert}
use myndaix_runtime.Prelude.Keyed.{
  IsKeyed, update_where-IsKeyed, update_where-missing, insert-IsKeyed,
}
use myndaix_runtime.Contracts.{Registry}
use myndaix_runtime.Ledger.State.{Attempt, Core, is_open, set_status_where}
use myndaix_runtime.Ledger.Lease.{claimed}
use myndaix_runtime.Ledger.Dispatch.{add_job}
use myndaix_runtime.Machine.{
  Closes, Move, take_id, touch, settle, requeue, lease, admit, Moves, none_left, more,
}

-- The attempt k of job is there and is closed.
pub record Shut (k job : ℕ) (t : Table Attempt) : Type 0 where
  pub row : Attempt
  pub there : get k t ≡ some row
  pub owner : row.job_id ≡ job
  pub shut : is_open row.status ≡ false

Shut-update_where :
    (k job : ℕ) (p : ℕ → Attempt → Bool) (f : Attempt → Attempt) (t : Table Attempt)
    → ((a : Attempt) → Closes a (f a))
    → Shut k job t
    → Shut k job (update_where p f t)
Shut-update_where k job p f t h s = elim (Bool-cases (p k s.row)) [
  | inl e ↦ record {
    row = f s.row;
    there = rw (get-update_where, s.there, e) refl;
    owner = rw ((h s.row).job) s.owner;
    shut = closed (h s.row) s.shut;
  }
  | inr e ↦ record {
    row = s.row;
    there = rw (get-update_where, s.there, e) refl;
    owner = s.owner;
    shut = s.shut;
  }
]
  where
    closed : {a b : Attempt} → Closes a b → is_open a.status ≡ false → is_open b.status ≡ false
    closed {a} {b} c e = elim (Bool-cases (is_open b.status)) [
      | inl q ↦ absurd (ground (arith, c.shut q))
      | inr q ↦ q
    ]

pub record Filed (c : Core) : Type 0 where
  pub keyed : IsKeyed c.attempts
  pub fresh : (k : ℕ) → c.next_id ≤ k → get k c.attempts ≡ none

module _ {registry : Registry} {cap : ℕ} where
  Move-Shut :
      {c d : Core} (k job : ℕ)
      → Move registry cap c d
      → Shut k job c.attempts
      → Shut k job d.attempts
  unfolding set_status_where claimed add_job
  Move-Shut k job (take_id c) s = s
  Move-Shut k job (touch c p f h) s = Shut-update_where k job p f c.attempts h s
  Move-Shut k job (settle c p f h w) s = s
  Move-Shut k job (requeue c p w h) s = s
  Move-Shut k job (lease c i w n m _ _ _ _) s = record {
    row = s.row;
    there = rw (get-insert, s.there) refl;
    owner = s.owner;
    shut = s.shut;
  }
  Move-Shut k job (admit c m h) s = s

  pub Moves-Shut :
      {c d : Core} (k job : ℕ)
      → Moves registry cap c d
      → Shut k job c.attempts
      → Shut k job d.attempts
  Moves-Shut k job none_left s = s
  Moves-Shut k job (more m s) h = Move-Shut k job s (Moves-Shut k job m h)

  Move-Filed : {c d : Core} → Move registry cap c d → Filed c → Filed d
  unfolding set_status_where claimed add_job
  Move-Filed (take_id c) s = record { keyed = s.keyed; fresh = λ k h. s.fresh k (omega arith) }
  Move-Filed (touch c p f h) s = record {
    keyed = update_where-IsKeyed p f c.attempts s.keyed;
    fresh = λ k h. update_where-missing p f k c.attempts (s.fresh k h);
  }
  Move-Filed (settle c p f h w) s = record { keyed = s.keyed; fresh = s.fresh }
  Move-Filed (requeue c p w h) s = record { keyed = s.keyed; fresh = s.fresh }
  Move-Filed (lease c i w n m _ _ _ _) s = record {
    keyed = insert-IsKeyed c.next_id _ c.attempts (s.fresh c.next_id (omega arith)) s.keyed;
    fresh = λ k h. rw (get-insert, s.fresh k (omega arith)) (ground arith);
  }
  Move-Filed (admit c m h) s = record { keyed = s.keyed; fresh = λ k h. s.fresh k (omega arith) }

  pub Moves-Filed : {c d : Core} → Moves registry cap c d → Filed c → Filed d
  Moves-Filed none_left s = s
  Moves-Filed (more m s) h = Move-Filed s (Moves-Filed m h)
