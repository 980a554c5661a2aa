-- ===== src/Simulation/Frame.antt =====
-- The verbs of src/runtime/ledger/postgres_store.py that leave the outbox alone.
use myndaix_runtime.Prelude.{
  ℕ, ◌+◌, ◌≡◌, refl, ap, ◌∙◌, sym, Bool, true, false, Option, none, some, List, arith,
  if◌then◌else◌,
}
use myndaix_runtime.Prelude.Table.{Table, get}
use myndaix_runtime.Contracts.{Registry, Result, Text, queued, dead}
use myndaix_runtime.Ledger.State.{
  Job, Attempt, Core, Ledger, Outbound, Outcome, ok, raise, Reason, unique_violation, is_open,
  lost_lease, guarded-ok,
}
use myndaix_runtime.Ledger.Lease.{
  lease_once, lease_unlimited, lease_capped, after_claim, pick, Picked, nothing, heartbeat_attempt,
}
use myndaix_runtime.Ledger.Finish.{fail_attempt, fail_row, fail_job, fail_locked}
use myndaix_runtime.Ledger.Dispatch.{
  TransportEnvelope, Request, new_job, insert_job, reject_job, queue_job, submit_job, rejected,
  already_there, queued_or_found, submit_child, submit_parent, submit_under, ingest_row,
  job_of_event, ingest_inbound, event_of_key,
}
use myndaix_runtime.Simulation.Dispatch.{insert_job-ok}

abbrev outbox_of : Table Outbound → Outcome (ℕ × Ledger) → Table Outbound
outbox_of d (ok (_, l)) = l.outbounds
outbox_of d (raise e) = d

outbounds_of :
    {id : ℕ} {l' : Ledger} (d : Table Outbound) (o : Outcome (ℕ × Ledger))
    → o ≡ ok (id, l')
    → outbox_of d o ≡ d
    → l'.outbounds ≡ d
outbounds_of d o e h = ap (λ (o : Outcome (ℕ × Ledger)). outbox_of d o) (sym e) ∙ h

pub outbounds-ingest_inbound :
    (envelope : TransportEnvelope) (body : Text) (l : Ledger)
    → (ingest_inbound envelope body l).1.outbounds ≡ l.outbounds
unfolding ingest_inbound
outbounds-ingest_inbound envelope body l = row (event_of_key envelope.dedupe_key l.inbound_events)
  where
    row : (o : Option ℕ) → (ingest_row envelope body o l).1.outbounds ≡ l.outbounds
    row none = refl
    row (some _) = refl

outbox-rejected :
    (j : Job) (x : Reason) (l : Ledger) (o : Outcome Ledger)
    → insert_job l.next_id j l ≡ o
    → outbox_of l.outbounds (rejected l.next_id x o) ≡ l.outbounds
unfolding rejected
outbox-rejected j x l (raise e) i = refl
outbox-rejected j x l (ok k) i = ap (λ (m : Ledger). m.outbounds) (insert_job-ok l.next_id j l k i)

outbox-queued_or_found :
    (event : Option ℕ) (j : Job) (l : Ledger) (o : Outcome Ledger)
    → insert_job l.next_id j l ≡ o
    → outbox_of l.outbounds (queued_or_found event l o) ≡ l.outbounds
unfolding queued_or_found
outbox-queued_or_found event j l (ok k) i =
    ap (λ (m : Ledger). m.outbounds) (insert_job-ok l.next_id j l k i)
outbox-queued_or_found event j l (raise unique_violation) i = there (job_of_event event l.jobs)
  where
    there : (o : Option ℕ) → outbox_of l.outbounds (already_there o l) ≡ l.outbounds
    there none = refl
    there (some n) = refl
outbox-queued_or_found event j l (raise _) i = refl

outbox-queue_job :
    (q : Request) (root depth now : ℕ) (l : Ledger)
    → outbox_of l.outbounds (queue_job q root depth now l) ≡ l.outbounds
unfolding queue_job
outbox-queue_job q root depth now l =
    outbox-queued_or_found q.inbound_event_id (new_job q root depth now queued q.repo_id q.base_ref)
      l _ refl

outbox-submit_child :
    (q : Request) (now : ℕ) (parent : Job) (o : Option Reason) (l : Ledger)
    → outbox_of l.outbounds (submit_child q now parent o l) ≡ l.outbounds
unfolding submit_child reject_job
outbox-submit_child q now parent (some x) l =
    outbox-rejected (new_job q parent.root_id (parent.depth + 1) now dead none none) x l _ refl
outbox-submit_child q now parent none l = outbox-queue_job q _ _ now l

pub outbounds-submit_job :
    (q : Request) (now id : ℕ) (l l' : Ledger)
    → submit_job q now l ≡ ok (id, l')
    → l'.outbounds ≡ l.outbounds
unfolding submit_job submit_under submit_parent
outbounds-submit_job q now id l l' e = outbounds_of l.outbounds _ e (under q.parent_id)
  where
    of_parent :
        (p : ℕ) (o : Option Job) → outbox_of l.outbounds (submit_parent q now p o l) ≡ l.outbounds
    of_parent p none = refl
    of_parent p (some parent) = outbox-submit_child q now parent _ l

    under : (o : Option ℕ) → outbox_of l.outbounds (submit_under q now o l) ≡ l.outbounds
    under none = outbox-queue_job q _ 0 now l
    under (some p) = of_parent p (get p l.jobs)

pub outbounds-heartbeat_attempt :
    (k now : ℕ) (l l' : Ledger) → heartbeat_attempt k now l ≡ ok l' → l'.outbounds ≡ l.outbounds
unfolding heartbeat_attempt
outbounds-heartbeat_attempt k now l l' e =
    let (_, q) = guarded-ok _ _ l' lost_lease e in ap (λ (m : Ledger). m.outbounds) (sym q)

abbrev outbox : Table Outbound → Outcome Ledger → Table Outbound
outbox d (ok l) = l.outbounds
outbox d (raise e) = d

pub outbounds-fail_attempt :
    (registry : Registry) (k : ℕ) (result : Result) (now : ℕ) (l l' : Ledger)
    → fail_attempt registry k result now l ≡ ok l'
    → l'.outbounds ≡ l.outbounds
unfolding fail_attempt fail_row fail_job fail_locked
outbounds-fail_attempt registry k result now l l' e =
    ap (λ (o : Outcome Ledger). outbox l.outbounds o) (sym e) ∙ row (get k l.attempts)
  where
    of_job :
        (a : Attempt) (o : Option Job)
        → outbox l.outbounds (fail_job registry k result now a o l) ≡ l.outbounds
    of_job a none = refl
    of_job a (some j) = refl

    guard :
        (b : Bool) (o : Outcome Ledger)
        → outbox l.outbounds o ≡ l.outbounds
        → outbox l.outbounds (if b then o else raise lost_lease) ≡ l.outbounds
    guard true o h = h
    guard false o h = refl

    row :
        (o : Option Attempt) → outbox l.outbounds (fail_row registry k result now o l) ≡ l.outbounds
    row none = refl
    row (some a) = guard (is_open a.status) _ (of_job a (get a.job_id l.jobs))

outbounds-after_claim :
    (skip : List ℕ) (l : Ledger) (o : Option Core)
    → (after_claim skip l o).1.outbounds ≡ l.outbounds
unfolding after_claim
outbounds-after_claim skip l none = refl
outbounds-after_claim skip l (some c) = refl

outbounds-lease_unlimited :
    (k worker now : ℕ) (skip : List ℕ) (l : Ledger)
    → (lease_unlimited k worker now skip l).1.outbounds ≡ l.outbounds
unfolding lease_unlimited
outbounds-lease_unlimited k worker now skip l = outbounds-after_claim skip l _

outbounds-lease_capped :
    (cap k worker now : ℕ) (skip : List ℕ) (r : ℕ) (l : Ledger)
    → (lease_capped cap k worker now skip r l).1.outbounds ≡ l.outbounds
unfolding lease_capped
outbounds-lease_capped cap k worker now skip r l = ground arith

pub outbounds-lease_once :
    (cap : ℕ) (locked : ℕ → Bool) (worker now : ℕ) (skip : List ℕ) (l : Ledger)
    → (lease_once cap locked worker now skip l).1.outbounds ≡ l.outbounds
unfolding lease_once
outbounds-lease_once cap locked worker now skip l = picked (pick cap locked skip l)
  where
    of_repo :
        (k : ℕ) (r : Option ℕ)
        → (elim r as (λ _. Picked × Ledger) [
          | none ↦ lease_unlimited k worker now skip l
          | some i ↦ lease_capped cap k worker now skip i l
        ]).1.outbounds
          ≡ l.outbounds
    of_repo k none = outbounds-lease_unlimited k worker now skip l
    of_repo k (some i) = outbounds-lease_capped cap k worker now skip i l

    picked :
        (o : Option (ℕ × Job))
        → (elim o as (λ _. Picked × Ledger) [
          | none ↦ (nothing, l)
          | some (k, j) ↦ elim j.repo_id [
            | none ↦ lease_unlimited k worker now skip l
            | some i ↦ lease_capped cap k worker now skip i l
          ]
        ]).1.outbounds
          ≡ l.outbounds
    picked none = refl
    picked (some (k, j)) = of_repo k j.repo_id
