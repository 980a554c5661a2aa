-- ===== src/Simulation/Lease.antt =====
-- lease_job and heartbeat_attempt (src/runtime/ledger/postgres_store.py) make moves of the machine.
use myndaix_runtime.Prelude.{
  ℕ, suc, ◌+◌, ◌<◌, ◌≡◌, refl, ap, subst, Bool, true, Option, none, some, List, [], ◌∷◌, holds,
  ◌==◌, arith, leb, if◌then◌else◌, Bool-cases, inl, inr, ◌⊎◌,
}
use myndaix_runtime.Prelude.Options.{some-injective-path, ==_of}
use myndaix_runtime.Prelude.Table.{Table, get}
use myndaix_runtime.Prelude.Keyed.{IsKeyed, select-IsRow, select-IsKeyed}
use myndaix_runtime.Contracts.{Registry}
use myndaix_runtime.Ledger.State.{
  Job, Core, Ledger, ok, lost_lease, guarded-ok, heartbeat_seconds, is_queued, live_count,
  open_count,
}
use myndaix_runtime.Ledger.Lease.{
  eligible, before, first_row, pick, claim, claimed, lease_unlimited, lease_capped, lease_once,
  heartbeat_attempt, Picked, nothing,
}
use myndaix_runtime.Machine.{Moves, none_left, more, take_id, touch, lease}

first_row-cons :
    (k : ℕ) (j : Job) (row : ℕ × Job) (rest : Option (ℕ × Job))
    → (elim rest [ none ↦ some row | some best ↦ some (if before best row then best else row) ])
      ≡ some (k, j)
    → (row ≡ (k, j)) ⊎ (rest ≡ some (k, j))
first_row-cons k j row none e = inl (some-injective-path e)
first_row-cons k j row (some best) e = elim (Bool-cases (before best row)) [
  | inl b ↦ inr (rw b at e)
  | inr b ↦ inl (some-injective-path (rw b at e))
]

pub first_row-IsRow :
    (k : ℕ) (j : Job) (t : Table Job) → IsKeyed t → first_row t ≡ some (k, j) → get k t ≡ some j
unfolding first_row get
first_row-IsRow k j [] h e = absurd (cc)
first_row-IsRow k j ((i, v) ∷ t) h e = elim (first_row-cons k j (i, v) (first_row t) e) [
  | inl q ↦ rw (==_of (ap (λ (x : ℕ × Job). x.0) q)) (ap some (ap (λ (x : ℕ × Job). x.1) q))
  | inr q ↦ let g = first_row-IsRow k j t h.1 q in ground (arith, g, h.0)
]

pub pick-eligible :
    (cap : ℕ) (locked : ℕ → Bool) (skip : List ℕ) (l : Ledger) (k : ℕ) (j : Job)
    → IsKeyed l.jobs
    → pick cap locked skip l ≡ some (k, j)
    → (get k l.jobs ≡ some j) × (eligible cap locked skip l k j ≡ true)
unfolding pick
pick-eligible cap locked skip l k j h e =
    select-IsRow _ k j l.jobs h (first_row-IsRow k j _ (select-IsKeyed _ l.jobs h) e)

module _ (cap : ℕ) (locked : ℕ → Bool) (skip : List ℕ) (l : Ledger) (k : ℕ) (j : Job)
    (e : eligible cap locked skip l k j ≡ true) where
  pub eligible-queued : is_queued j.status ≡ true
  unfolding eligible
  eligible-queued = ground arith

  pub eligible-free : open_count l.attempts k ≡ 0
  unfolding eligible
  eligible-free = ground arith

module _ (registry : Registry) (cap : ℕ) where
  -- A claim of an eligible job is one move.
  claim-Move :
      (k worker now : ℕ) (c : Core) (j : Job)
      → get k c.jobs ≡ some j
      → is_queued j.status ≡ true
      → open_count c.attempts k ≡ 0
      → ((r : ℕ) → holds j.repo_id r ≡ true → live_count c.jobs c.attempts r < cap)
      → (d : Core) × (claim k c.next_id worker now (record c { next_id = suc c.next_id }) ≡ some d)
        × Moves registry cap c d
  unfolding claim
  claim-Move k worker now c j g q o r = (
    claimed k c.next_id worker now (record c { next_id = suc c.next_id }),
    rw (g, q),
    more none_left (lease c k worker now j g q o r),
  )

  lease_unlimited-Moves :
      (k worker now : ℕ) (skip : List ℕ) (l : Ledger) (j : Job)
      → get k l.jobs ≡ some j
      → is_queued j.status ≡ true
      → open_count l.attempts k ≡ 0
      → j.repo_id ≡ none
      → Moves registry cap l.core (lease_unlimited k worker now skip l).1.core
  unfolding lease_unlimited
  lease_unlimited-Moves k worker now skip l j g q o r =
      let (d, e, m) = claim-Move k worker now l.core j g q o (λ i h. absurd (ground arith)) in
      rw e m

  lease_capped-Moves :
      (k worker now : ℕ) (skip : List ℕ) (r : ℕ) (l : Ledger) (j : Job)
      → get k l.jobs ≡ some j
      → is_queued j.status ≡ true
      → open_count l.attempts k ≡ 0
      → j.repo_id ≡ some r
      → Moves registry cap l.core (lease_capped cap k worker now skip r l).1.core
  unfolding lease_capped
  lease_capped-Moves k worker now skip r l j g q o s =
      elim (Bool-cases (leb cap (live_count l.jobs l.attempts r))) [
        | inl full ↦ rw full (more none_left (take_id l.core))
        | inr room ↦
            let (d, e, m) = claim-Move k worker now l.core j g q o (λ i h. ground arith) in
            rw (room, e, lease_capped) m
      ]

  -- One PICK transaction makes moves: it claims within the cap, or takes an id.
  pub lease_once-Moves :
      (locked : ℕ → Bool) (worker now : ℕ) (skip : List ℕ) (l : Ledger)
      → IsKeyed l.jobs
      → Moves registry cap l.core (lease_once cap locked worker now skip l).1.core
  unfolding lease_once
  lease_once-Moves locked worker now skip l h = picked (pick cap locked skip l) refl
    where
      of_repo :
          (k : ℕ) (j : Job) (r : Option ℕ)
          → get k l.jobs ≡ some j
          → eligible cap locked skip l k j ≡ true
          → j.repo_id ≡ r
          → Moves registry cap l.core
              (elim r as (λ _. Picked × Ledger) [
                | none ↦ lease_unlimited k worker now skip l
                | some i ↦ lease_capped cap k worker now skip i l
              ]).1.core
      of_repo k j none g e q =
          lease_unlimited-Moves k worker now skip l j g (eligible-queued cap locked skip l k j e)
            (eligible-free cap locked skip l k j e) q
      of_repo k j (some i) g e q =
          lease_capped-Moves k worker now skip i l j g (eligible-queued cap locked skip l k j e)
            (eligible-free cap locked skip l k j e) q

      picked :
          (o : Option (ℕ × Job))
          → pick cap locked skip l ≡ o
          → Moves registry cap l.core
              (elim o as (λ _. Picked × Ledger) [
                | none ↦ (nothing, l)
                | some (k, j) ↦ elim j.repo_id [
                  | none ↦ lease_unlimited k worker now skip l
                  | some i ↦ lease_capped cap k worker now skip i l
                ]
              ]).1.core
      picked none e = none_left
      picked (some (k, j)) e =
          let (g, fits) = pick-eligible cap locked skip l k j h e in
          of_repo k j j.repo_id g fits refl

  pub heartbeat_attempt-Moves :
      (attempt now : ℕ) (l l' : Ledger)
      → heartbeat_attempt attempt now l ≡ ok l'
      → Moves registry cap l.core l'.core
  unfolding heartbeat_attempt
  heartbeat_attempt-Moves attempt now l l' e =
      let (_, q) = guarded-ok _ _ l' lost_lease e in
      subst (λ (m : Ledger). Moves registry cap l.core m.core) q
        (more none_left (
          touch l.core (λ i _. i == attempt)
            (λ a. record a { lease_expires_at = now + heartbeat_seconds })
            (λ a. record { job = refl; shut = λ h. h })))
