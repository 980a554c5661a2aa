-- ===== src/Machine/Admission.antt =====
-- The limits of a job tree: the depth of a job that is not dead, and its living children.
use myndaix_runtime.Prelude.{
  ℕ, ◌+◌, ◌≤◌, ◌≡◌, refl, Bool, true, false, not, ◌&&◌, some, ◌==◌, arith, holds, bit, inl, inr,
}
use myndaix_runtime.Prelude.Table.{
  Table, get, update_where, insert, count-update_where, count-insert, count_mono, update_where-row,
  insert-row,
}
use myndaix_runtime.Contracts.{Registry, queued, leased}
use myndaix_runtime.Ledger.State.{
  Job, Core, is_queued, is_dead, set_status_where, max_depth, max_children,
}
use myndaix_runtime.Ledger.Lease.{claimed}
use myndaix_runtime.Ledger.Dispatch.{add_job, child_count}
use myndaix_runtime.Machine.{
  MayAdmit, Move, take_id, touch, settle, requeue, lease, admit, Moves, none_left, more,
}

pub record Admitted (c : Core) : Type 0 where
  pub shallow :
      (k : ℕ) (j : Job) → get k c.jobs ≡ some j → is_dead j.status ≡ false → j.depth ≤ max_depth
  pub few : (p : ℕ) → child_count c.jobs p ≤ max_children

-- A statement that revives no dead job, and keeps depths and parents.
module _ (p : ℕ → Job → Bool) (f : Job → Job) (depth : (j : Job) → (f j).depth ≡ j.depth)
    (parent : (j : Job) → (f j).parent_id ≡ j.parent_id)
    (alive : (k : ℕ) (j : Job) → p k j ≡ true → is_dead j.status ≡ false) where
  child_count-update :
      (t : Table Job) (q : ℕ) → child_count (update_where p f t) q ≤ child_count t q
  unfolding child_count
  child_count-update t q =
      rw count-update_where (count_mono _ _ t λ k j e. ground (arith, parent j, alive k j))

  update-Admitted : (c : Core) → Admitted c → Admitted (record c { jobs = update_where p f c.jobs })
  update-Admitted c a = record {
    shallow = λ k j e w.
        let (i, g, q) = update_where-row p f k c.jobs j e in
        ground (arith, q, a.shallow k i g, depth i, alive k i);
    few = λ q. omega (arith, child_count-update c.jobs q, a.few q);
  }

child_count-insert :
    (i : ℕ) (j : Job) (t : Table Job) (p : ℕ)
    → child_count (insert i j t) p
      ≡ child_count t p + bit (holds j.parent_id p && not (is_dead j.status))
unfolding child_count
child_count-insert i j t p = count-insert _ i j t

admit-Admitted : (c : Core) (j : Job) → MayAdmit c j → Admitted c → Admitted (add_job c.next_id j c)
unfolding add_job
admit-Admitted c j m a = record {
  shallow = λ k i e w. elim (insert-row k c.next_id j c.jobs i e) [
    | inl g ↦ a.shallow k i g w
    | inr (n, v) ↦ ground (arith, v, m.fits, m.waits)
  ];
  few = λ p. ground (
    arith,
    child_count-insert c.next_id j c.jobs p,
    λ (q : is_queued j.status ≡ true). m.sibling q p,
    m.waits,
    a.few p,
  );
}

module _ {registry : Registry} {cap : ℕ} where
  Move-Admitted : {c d : Core} → Move registry cap c d → Admitted c → Admitted d
  unfolding set_status_where claimed
  Move-Admitted (take_id c) a = record { shallow = a.shallow; few = a.few }
  Move-Admitted (touch c p f h) a = record { shallow = a.shallow; few = a.few }
  Move-Admitted (settle c p f h w) a =
      update-Admitted p f (λ j. (h j).depth) (λ j. (h j).parent) (λ k j e. ground (arith, w k j e))
        c a
  Move-Admitted (requeue c p w h) a =
      update-Admitted p (λ j. record j { status = queued }) (λ j. refl) (λ j. refl)
        (λ k j e. ground (arith, w k j e)) c a
  Move-Admitted (lease c k w n j _ _ _ _) a =
      let b =
        update-Admitted (λ i m. i == k && is_queued m.status) (λ m. record m { status = leased })
          (λ m. refl) (λ m. refl) (λ i m e. ground arith) c a in
      record { shallow = b.shallow; few = b.few }
  Move-Admitted (admit c j h) a = admit-Admitted c j h a

  pub Moves-Admitted : {c d : Core} → Moves registry cap c d → Admitted c → Admitted d
  Moves-Admitted none_left a = a
  Moves-Admitted (more m s) a = Move-Admitted s (Moves-Admitted m a)
