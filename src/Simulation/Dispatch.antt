-- ===== src/Simulation/Dispatch.antt =====
-- submit_job and the verbs that only take an id (src/runtime/ledger/postgres_store.py) make moves of
-- the machine.
use myndaix_runtime.Prelude.{
  ℕ, ◌+◌, ◌≡◌, refl, sym, ap, subst, Bool, true, false, Option, none, some, arith, if◌then◌else◌,
  is_some,
}
use myndaix_runtime.Prelude.Table.{get}
use myndaix_runtime.Contracts.{Registry, queued, dead, Text}
use myndaix_runtime.Ledger.State.{
  Job, Core, Ledger, Outcome, ok, raise, unique_violation, foreign_key_violation, Error, Reason,
}
use myndaix_runtime.Ledger.Dispatch.{
  TransportEnvelope, Request, admission, new_job, add_job, insert_job, reject_job, queue_job,
  submit_job, rejected, already_there, queued_or_found, submit_child, submit_parent, submit_under,
  ingest_row, job_of_event, ingest_inbound, event_of_key, event_missing,
}
use myndaix_runtime.Machine.{Moves, none_left, more, take_id, admit, MayAdmit}

unguarded-ok :
    {A : Type 0} (b c : Bool) (x y : A) (e f : Error)
    → (if b then raise e else if c then raise f else ok x) ≡ ok y
    → (b ≡ false) × (c ≡ false) × (x ≡ y)
unguarded-ok true c x y e f h = absurd (cc)
unguarded-ok false true x y e f h = absurd (cc)
unguarded-ok false false x y e f h = (refl, refl, cc)

-- A successful INSERT adds the row and nothing else.
pub insert_job-ok :
    (jid : ℕ) (j : Job) (l l' : Ledger)
    → insert_job jid j l ≡ ok l'
    → l' ≡ record l { core = add_job jid j l.core }
unfolding insert_job
insert_job-ok jid j l l' e =
    sym
      (unguarded-ok (is_some (job_of_event j.inbound_event_id l.jobs))
        (event_missing j.inbound_event_id l.inbound_events)
        (record l { core = add_job jid j l.core }) l' unique_violation foreign_key_violation e).2

outcome_core : Core → Outcome (ℕ × Ledger) → Core
outcome_core c (ok (_, l)) = l.core
outcome_core c (raise e) = c

core_of : {a b : ℕ × Ledger} → ok a ≡ ok b → a.1.core ≡ b.1.core
unfolding outcome_core
core_of {a = a} h = ap (λ (o : Outcome (ℕ × Ledger)). outcome_core a.1.core o) h

module _ (registry : Registry) (cap : ℕ) where
  insert_job-Moves :
      (j : Job) (l l' : Ledger)
      → MayAdmit l.core j
      → insert_job l.next_id j l ≡ ok l'
      → Moves registry cap l.core l'.core
  insert_job-Moves j l l' m e =
      subst (λ (x : Ledger). Moves registry cap l.core x.core)
        (sym (insert_job-ok l.next_id j l l' e)) (more none_left (admit l.core j m))

  new_job-MayAdmit :
      (q : Request) (root now : ℕ) (c : Core)
      → q.parent_id ≡ none
      → MayAdmit c (new_job q root 0 now queued q.repo_id q.base_ref)
  unfolding new_job
  new_job-MayAdmit q root now c e = record {
    fits = λ _. omega arith;
    sibling = λ _ p h. absurd (ground arith);
    waits = λ _. refl;
  }

  child-MayAdmit :
      (q : Request) (p root now : ℕ) (parent : Job) (c : Core)
      → q.parent_id ≡ some p
      → admission c.jobs p parent ≡ none
      → MayAdmit c (new_job q root (parent.depth + 1) now queued q.repo_id q.base_ref)
  unfolding new_job admission
  child-MayAdmit q p root now parent c e a = record {
    fits = λ _. ground arith;
    sibling = λ _ i h. ground arith;
    waits = λ _. refl;
  }

  dead-MayAdmit :
      (q : Request) (root depth now : ℕ) (c : Core)
      → MayAdmit c (new_job q root depth now dead none none)
  unfolding new_job
  dead-MayAdmit q root depth now c = record { fits = λ e. cc; sibling = λ e. cc; waits = λ e. cc }

  rejected-Moves :
      (j : Job) (x : Reason) (l l' : Ledger) (id : ℕ) (o : Outcome Ledger)
      → MayAdmit l.core j
      → insert_job l.next_id j l ≡ o
      → rejected l.next_id x o ≡ ok (id, l')
      → Moves registry cap l.core l'.core
  unfolding rejected
  rejected-Moves j x l l' id (raise e) m i h = absurd (cc)
  rejected-Moves j x l l' id (ok k) m i h =
      subst (λ (c : Core). Moves registry cap l.core c) (core_of h) (insert_job-Moves j l k m i)

  queued_or_found-Moves :
      (event : Option ℕ) (j : Job) (l l' : Ledger) (id : ℕ) (o : Outcome Ledger)
      → MayAdmit l.core j
      → insert_job l.next_id j l ≡ o
      → queued_or_found event l o ≡ ok (id, l')
      → Moves registry cap l.core l'.core
  unfolding queued_or_found
  queued_or_found-Moves event j l l' id (ok k) m i h =
      subst (λ (c : Core). Moves registry cap l.core c) (core_of h) (insert_job-Moves j l k m i)
  queued_or_found-Moves event j l l' id (raise unique_violation) m i h =
      there (job_of_event event l.jobs) h
    where
      there : (o : Option ℕ) → already_there o l ≡ ok (id, l') → Moves registry cap l.core l'.core
      there none h = absurd (cc)
      there (some n) h =
          subst (λ (c : Core). Moves registry cap l.core c) (core_of h)
            (more none_left (take_id l.core))
  queued_or_found-Moves event j l l' id (raise _) m i h = absurd (cc)

  queue_job-Moves :
      (q : Request) (root depth now : ℕ) (l l' : Ledger) (id : ℕ)
      → MayAdmit l.core (new_job q root depth now queued q.repo_id q.base_ref)
      → queue_job q root depth now l ≡ ok (id, l')
      → Moves registry cap l.core l'.core
  queue_job-Moves q root depth now l l' id m e =
      queued_or_found-Moves q.inbound_event_id
        (new_job q root depth now queued q.repo_id q.base_ref) l l' id
        (insert_job l.next_id (new_job q root depth now queued q.repo_id q.base_ref) l) m refl
        (unfold queue_job in e)

  submit_child-Moves :
      (q : Request) (p now : ℕ) (parent : Job) (o : Option Reason) (l l' : Ledger) (id : ℕ)
      → q.parent_id ≡ some p
      → admission l.jobs p parent ≡ o
      → submit_child q now parent o l ≡ ok (id, l')
      → Moves registry cap l.core l'.core
  submit_child-Moves q p now parent (some x) l l' id e a h =
      rejected-Moves (new_job q parent.root_id (parent.depth + 1) now dead none none) x l l' id
        (insert_job l.next_id (new_job q parent.root_id (parent.depth + 1) now dead none none) l)
        (dead-MayAdmit q parent.root_id (parent.depth + 1) now l.core) refl
        (unfold submit_child reject_job in h)
  submit_child-Moves q p now parent none l l' id e a h =
      queue_job-Moves q parent.root_id (parent.depth + 1) now l l' id
        (child-MayAdmit q p parent.root_id now parent l.core e a) (unfold submit_child in h)

  pub submit_job-Moves :
      (q : Request) (now : ℕ) (l l' : Ledger) (id : ℕ)
      → submit_job q now l ≡ ok (id, l')
      → Moves registry cap l.core l'.core
  submit_job-Moves q now l l' id e = under q.parent_id refl (unfold submit_job in e)
    where
      of_parent :
          (p : ℕ) (o : Option Job)
          → q.parent_id ≡ some p
          → submit_parent q now p o l ≡ ok (id, l')
          → Moves registry cap l.core l'.core
      of_parent p none g h = absurd (unfold submit_parent in cc)
      of_parent p (some parent) g h =
          submit_child-Moves q p now parent (admission l.jobs p parent) l l' id g refl
            (unfold submit_parent in h)

      under :
          (o : Option ℕ)
          → q.parent_id ≡ o
          → submit_under q now o l ≡ ok (id, l')
          → Moves registry cap l.core l'.core
      under none g h =
          queue_job-Moves q l.next_id 0 now l l' id (new_job-MayAdmit q l.next_id now l.core g)
            (unfold submit_under in h)
      under (some p) g h = of_parent p (get p l.jobs) g (unfold submit_under in h)

  pub ingest_inbound-Moves :
      (envelope : TransportEnvelope) (body : Text) (l : Ledger)
      → Moves registry cap l.core (ingest_inbound envelope body l).1.core
  unfolding ingest_inbound
  ingest_inbound-Moves envelope body l = row (event_of_key envelope.dedupe_key l.inbound_events)
    where
      row : (o : Option ℕ) → Moves registry cap l.core (ingest_row envelope body o l).1.core
      row none = more none_left (take_id l.core)
      row (some _) = more none_left (take_id l.core)
