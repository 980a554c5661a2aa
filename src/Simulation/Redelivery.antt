-- ===== src/Simulation/Redelivery.antt =====
-- A message that is delivered twice: ingest_inbound and submit_job of
-- src/runtime/ledger/postgres_store.py.
use myndaix_runtime.Prelude.{
  ℕ, ◌≡◌, refl, sym, ap, Bool, true, false, Option, if◌then◌else◌, none, some, [], ◌∷◌, Bool-cases,
  inl, inr, ◌==◌, ==_refl, ◌∙◌,
}
use myndaix_runtime.Prelude.Table.{Table, insert, select, update_where}
use myndaix_runtime.Contracts.{Registry, Text, queued}
use myndaix_runtime.Ledger.State.{
  Job, Core, Ledger, set_status_where, Outcome, ok, raise, unique_violation,
}
use myndaix_runtime.Simulation.Dispatch.{insert_job-ok}
use myndaix_runtime.Ledger.Dispatch.{
  TransportEnvelope, key_of, event_of_key, ingest_row, ingest_inbound, Request, inbound_of,
  job_of_event, new_job, add_job, insert_job, queue_job, queued_or_found, already_there,
  submit_under, submit_job, skip_id,
}
use myndaix_runtime.Ledger.Lease.{claimed}
use myndaix_runtime.Machine.{
  Move, take_id, touch, settle, requeue, lease, admit, Moves, none_left, more,
}
use myndaix_runtime.Simulation.{Run, then, submit}
use myndaix_runtime.Simulation.Safety.{empty, Run-Moves, reached}

-- The first key found is found still when a row is added; an added row is found when none was.
found_first {ℓ} :
    {V : Type ℓ} (p : ℕ → V → Bool) (k i : ℕ) (v : V) (t : Table V)
    → key_of (select p t) ≡ some i
    → key_of (select p (insert k v t)) ≡ some i
unfolding select insert
found_first p k i v [] e = absurd (cc)
found_first p k i v ((j, w) ∷ t) e = elim (Bool-cases (p j w)) [
  | inl b ↦ rw b (rw b at e)
  | inr b ↦ rw b (found_first p k i v t (rw b at e))
]

found_new {ℓ} :
    {V : Type ℓ} (p : ℕ → V → Bool) (k : ℕ) (v : V) (t : Table V)
    → key_of (select p t) ≡ none
    → p k v ≡ true
    → key_of (select p (insert k v t)) ≡ some k
unfolding select insert
found_new p k v [] e h = rw h refl
found_new p k v ((j, w) ∷ t) e h = elim (Bool-cases (p j w)) [
  | inl b ↦ absurd (nothing (rw b at e))
  | inr b ↦ rw b (found_new p k v t (rw b at e) h)
]
  where
    nothing : some j ≡ none → ⊥
    nothing q = absurd (cc)

ingest_row-found :
    (envelope : TransportEnvelope) (body : Text) (l : Ledger) (o : Option ℕ)
    → event_of_key envelope.dedupe_key l.inbound_events ≡ o
    → event_of_key envelope.dedupe_key (ingest_row envelope body o l).1.inbound_events
      ≡ some (ingest_row envelope body o l).0
unfolding ingest_row event_of_key
ingest_row-found envelope body l none e =
    found_new (λ _ x. x.dedupe_key == envelope.dedupe_key) l.next_id _ l.inbound_events e
      (==_refl envelope.dedupe_key)
ingest_row-found envelope body l (some i) e = e

ingested :
    (envelope : TransportEnvelope) (body : Text) (l : Ledger)
    → event_of_key envelope.dedupe_key (ingest_inbound envelope body l).1.inbound_events
      ≡ some (ingest_inbound envelope body l).0
unfolding ingest_inbound
ingested envelope body l =
    ingest_row-found envelope body l (event_of_key envelope.dedupe_key l.inbound_events) refl

ingest_inbound-again :
    (envelope : TransportEnvelope) (body : Text) (l : Ledger) (i : ℕ)
    → event_of_key envelope.dedupe_key l.inbound_events ≡ some i
    → ingest_inbound envelope body l ≡ (i, skip_id l)
unfolding ingest_inbound ingest_row
ingest_inbound-again envelope body l i e = rw e refl

-- A message with the dedupe key of one that was ingested before gets the id of the first, and adds no
-- event.
second_ingest_is_noop :
    (envelope again : TransportEnvelope) (body body' : Text) (l : Ledger)
    → again.dedupe_key ≡ envelope.dedupe_key
    → ((ingest_inbound again body' (ingest_inbound envelope body l).1).0
        ≡ (ingest_inbound envelope body l).0)
      × ((ingest_inbound again body' (ingest_inbound envelope body l).1).1.inbound_events
          ≡ (ingest_inbound envelope body l).1.inbound_events)
second_ingest_is_noop envelope again body body' l e =
    let m = (ingest_inbound envelope body l).1 in
    let q =
      ingest_inbound-again again body' m (ingest_inbound envelope body l).0
        (ap (λ k. event_of_key k m.inbound_events) e ∙ ingested envelope body l) in
    (ap (λ (x : ℕ × Ledger). x.0) q, ap (λ (x : ℕ × Ledger). x.1.inbound_events) q)

-- The job of an event after an INSERT that succeeded.
inserted :
    (e : ℕ) (j : Job) (l : Ledger)
    → j.inbound_event_id ≡ some e
    → job_of_event (some e) l.jobs ≡ none
    → job_of_event (some e) (add_job l.next_id j l.core).jobs ≡ some l.next_id
unfolding job_of_event add_job
inserted e j l h n =
    found_new (λ _ x. inbound_of (some e) x) l.next_id j l.jobs n (rw h (==_refl e))

insert_job-taken :
    (e i : ℕ) (j : Job) (l : Ledger)
    → j.inbound_event_id ≡ some e
    → job_of_event (some e) l.jobs ≡ some i
    → insert_job l.next_id j l ≡ raise unique_violation
unfolding insert_job
insert_job-taken e i j l h f = rw (h, f) refl

queue_job-again :
    (q : Request) (root depth now e i : ℕ) (l : Ledger)
    → q.inbound_event_id ≡ some e
    → job_of_event (some e) l.jobs ≡ some i
    → queue_job q root depth now l ≡ ok (i, skip_id l)
unfolding queue_job queued_or_found already_there
queue_job-again q root depth now e i l h f =
    rw
      (
        insert_job-taken e i (new_job q root depth now queued q.repo_id q.base_ref) l
            (unfold new_job in h) f,
        h,
        f,
      )
      refl

-- The id of an answer, and the job of an event in the ledger of an answer.
abbrev answered : Outcome (ℕ × Ledger) → Option ℕ
answered (raise e) = none
answered (ok (i, l)) = some i

abbrev event_job : ℕ → Outcome (ℕ × Ledger) → Option ℕ
event_job e (raise x) = none
event_job e (ok (i, l)) = job_of_event (some e) l.jobs

queued_or_found-found :
    (e : ℕ) (j : Job) (l : Ledger) (o : Outcome Ledger)
    → j.inbound_event_id ≡ some e
    → insert_job l.next_id j l ≡ o
    → event_job e (queued_or_found (some e) l o) ≡ answered (queued_or_found (some e) l o)
unfolding queued_or_found
queued_or_found-found e j l (ok k) h i =
    ap (λ (m : Ledger). job_of_event (some e) m.jobs) (insert_job-ok l.next_id j l k i)
    ∙ inserted e j l h (untaken (job_of_event (some e) l.jobs) refl)
  where
    untaken :
        (x : Option ℕ) → job_of_event (some e) l.jobs ≡ x → job_of_event (some e) l.jobs ≡ none
    untaken none q = q
    untaken (some n) q = absurd (clash (sym (insert_job-taken e n j l h q) ∙ i))
      where
        clash : raise unique_violation ≡ ok k → ⊥
        clash c = absurd (cc)
queued_or_found-found e j l (raise unique_violation) h i = there (job_of_event (some e) l.jobs) refl
  where
    there :
        (x : Option ℕ)
        → job_of_event (some e) l.jobs ≡ x
        → event_job e (already_there x l) ≡ answered (already_there x l)
    there none q = unfold already_there in refl
    there (some n) q = unfold already_there in q
queued_or_found-found e j l (raise _) h i = refl

submit_job-root :
    (q : Request) (now : ℕ) (l : Ledger)
    → q.parent_id ≡ none
    → submit_job q now l ≡ queue_job q l.next_id 0 now l
unfolding submit_job submit_under
submit_job-root q now l p = ap (λ o. submit_under q now o l) p

queue_job-event :
    (q : Request) (root depth now e : ℕ) (l : Ledger)
    → q.inbound_event_id ≡ some e
    → queue_job q root depth now l
      ≡ queued_or_found
          (some e)
          l
          (insert_job l.next_id (new_job q root depth now queued q.repo_id q.base_ref) l)
unfolding queue_job
queue_job-event q root depth now e l h =
    ap
      (λ x.
        queued_or_found x l
          (insert_job l.next_id (new_job q root depth now queued q.repo_id q.base_ref) l))
      h

submitted :
    (q : Request) (now e id : ℕ) (l l' : Ledger)
    → q.parent_id ≡ none
    → q.inbound_event_id ≡ some e
    → submit_job q now l ≡ ok (id, l')
    → job_of_event (some e) l'.jobs ≡ some id
submitted q now e id l l' p h s =
    let j = new_job q l.next_id 0 now queued q.repo_id q.base_ref in
    let f = queued_or_found-found e j l (insert_job l.next_id j l) (unfold new_job in h) refl in
    let r = sym (queue_job-event q l.next_id 0 now e l h) ∙ sym (submit_job-root q now l p) ∙ s in
    sym (ap (λ (o : Outcome (ℕ × Ledger)). event_job e o) r)
    ∙ f
    ∙ ap (λ (o : Outcome (ℕ × Ledger)). answered o) r

-- An UPDATE that leaves the event of every job leaves the job of an event.
event-update :
    (e : ℕ) (p : ℕ → Job → Bool) (f : Job → Job) (t : Table Job)
    → ((j : Job) → (f j).inbound_event_id ≡ j.inbound_event_id)
    → job_of_event (some e) (update_where p f t) ≡ job_of_event (some e) t
unfolding job_of_event select update_where
event-update e p f [] h = refl
event-update e p f ((k, j) ∷ t) h =
    rw (row (p k j)) (keyed (inbound_of (some e) j) (event-update e p f t h))
  where
    row : (b : Bool) → inbound_of (some e) (if b then f j else j) ≡ inbound_of (some e) j
    row true = ap (λ o. inbound_of (some e) (record j { inbound_event_id = o })) (h j)
    row false = refl

    keyed :
        (b : Bool)
        → key_of (select (λ _ x. inbound_of (some e) x) (update_where p f t))
          ≡ key_of (select (λ _ x. inbound_of (some e) x) t)
        → key_of (
            if b
            then (k, if p k j then f j else j)
              ∷ select (λ _ x. inbound_of (some e) x) (update_where p f t)
            else select (λ _ x. inbound_of (some e) x) (update_where p f t))
          ≡ key_of (
              if b
              then (k, j) ∷ select (λ _ x. inbound_of (some e) x) t
              else select (λ _ x. inbound_of (some e) x) t)
    keyed true q = refl
    keyed false q = q

abbrev IsJobOf : ℕ → ℕ → Core → Type 0
IsJobOf e i c = job_of_event (some e) c.jobs ≡ some i

module _ {registry : Registry} {cap : ℕ} (e i : ℕ) where
  Move-IsJobOf : {c d : Core} → Move registry cap c d → IsJobOf e i c → IsJobOf e i d
  unfolding set_status_where claimed add_job
  Move-IsJobOf (take_id c) h = h
  Move-IsJobOf (touch c p f q) h = h
  Move-IsJobOf (settle c p f q w) h = event-update e p f c.jobs (λ j. (q j).event) ∙ h
  Move-IsJobOf (requeue c p w q) h = event-update e p _ c.jobs (λ j. refl) ∙ h
  Move-IsJobOf (lease c k w n j _ _ _ _) h = event-update e _ _ c.jobs (λ j. refl) ∙ h
  Move-IsJobOf (admit c j q) h =
      unfold job_of_event in found_first (λ _ x. inbound_of (some e) x) c.next_id i j c.jobs h

  Moves-IsJobOf : {c d : Core} → Moves registry cap c d → IsJobOf e i c → IsJobOf e i d
  Moves-IsJobOf none_left h = h
  Moves-IsJobOf (more m s) h = Move-IsJobOf s (Moves-IsJobOf m h)

-- A message that is delivered again starts no second job. Once a top-level submit for an inbound event
-- has succeeded on a reachable ledger, then whatever the verbs have done since, and in whatever state
-- its job is, another top-level submit for that event returns the id of the first and adds no job: it
-- only uses up an id.
pub second_submit_is_noop :
    {registry : Registry} {cap : ℕ} {l l' m : Ledger} (q again : Request) (now later e id : ℕ)
    → Run registry cap empty l
    → q.parent_id ≡ none
    → again.parent_id ≡ none
    → q.inbound_event_id ≡ some e
    → again.inbound_event_id ≡ some e
    → submit_job q now l ≡ ok (id, l')
    → Run registry cap l' m
    → submit_job again later m ≡ ok (id, skip_id m)
second_submit_is_noop {l = l} {l'} {m} q again now later e id r p p' h h' s t =
    submit_job-root again later m p'
    ∙ queue_job-again again m.next_id 0 later e id m h' (
        Moves-IsJobOf e id (Run-Moves t (reached ((then) r (submit q now id l s))))
          (submitted q now e id l l' p h s))
