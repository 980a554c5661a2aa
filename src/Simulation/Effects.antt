-- ===== src/Simulation/Effects.antt =====
-- What each verb of src/runtime/ledger/postgres_store.py does to the outbox.
use myndaix_runtime.Prelude.{
  ℕ, suc, ◌≡◌, refl, ap, sym, Bool, true, false, Option, none, some, arith, subst, ==_refl,
}
use myndaix_runtime.Prelude.Options.{some-injective-path}
use myndaix_runtime.Prelude.Table.{Table, get, insert, get-update_where}
use myndaix_runtime.Prelude.Keyed.{IsKeyed}
use myndaix_runtime.Contracts.{Registry, Result, Text, pending, JobStatus, done}
use myndaix_runtime.Ledger.State.{Job, Outbound, InboundEvent, ok, is_live, Ledger, job_test}
use myndaix_runtime.Ledger.Finish.{
  complete_attempt, complete_locked, complete_core, reply_row, reply_to, queue_reply,
}
use myndaix_runtime.Ledger.Outbox.{enqueue_outbound, enqueue_job, enqueue_row}
use myndaix_runtime.Simulation.Finish.{complete_attempt-Completion}
use myndaix_runtime.Ledger.Finish.{cancel_close, cancel_kill, cancel_free}
use myndaix_runtime.Ledger.Janitor.{reclaim_expired, reclaim_batch_of, reconcile_repo_concurrency}
use myndaix_runtime.Ledger.Dispatch.{append_log, dead_letter}
use myndaix_runtime.Simulation.Frame.{
  outbounds-ingest_inbound, outbounds-submit_job, outbounds-lease_once, outbounds-heartbeat_attempt,
  outbounds-fail_attempt,
}
use myndaix_runtime.Simulation.{
  Step, ingest, submit, lease, heartbeat, complete, fail, close_for_cancel, kill_for_cancel,
  free_for_cancel, reclaim, reconcile, log, bury, enqueue, claim_reply, sent, sent_inline,
  send_failed,
}
use myndaix_runtime.Simulation.Sending.{
  Changed, idle, same_outbox, claim_outbound-Changed, mark_outbound_sent-Changed,
  mark_outbound_sent_inline-Changed, mark_outbound_failed-Changed,
}

-- How many replies a step queues by the verb enqueue_outbound.
unfoldable pub by_hand :
    {registry : Registry} {cap : ℕ} {l l' : Ledger} → Step registry cap l l' → ℕ
by_hand (enqueue _ _ _ _ _) = 1
by_hand _ = 0

abbrev is_done_status : JobStatus → Bool
is_done_status done = true
is_done_status _ = false

abbrev pub is_done : Job → Bool
is_done j = is_done_status j.status

pub record Fresh (job : ℕ) (o : Outbound) : Type 0 where
  pub owner : o.job_id ≡ job
  pub waits : o.status ≡ pending
  pub unsent : o.tries ≡ 0

-- What a step does to the outbox: the last argument counts the replies by hand.
pub data Effect (l l' : Ledger) : ℕ → Type 0 where
  quiet : Changed l.outbounds l'.outbounds → Effect l l' 0
  completes :
      (k : ℕ) (o : Outbound)
      → l'.outbounds ≡ insert l.next_id o l.outbounds
      → l'.next_id ≡ suc l.next_id
      → Fresh k o
      → job_test is_done (get k l.jobs) ≡ false
      → job_test is_done (get k l'.jobs) ≡ true
      → Effect l l' 0
  queues :
      (k : ℕ) (o : Outbound)
      → l'.outbounds ≡ insert l.next_id o l.outbounds
      → l'.next_id ≡ suc l.next_id
      → Fresh k o
      → Effect l l' 1

reply_to-Fresh :
    (k : ℕ) (body : Text) (x : Option InboundEvent) (o : Outbound)
    → reply_to k body x ≡ some o
    → Fresh k o
unfolding reply_to
reply_to-Fresh k body none o e = absurd (cc)
reply_to-Fresh k body (some ie) o e =
    let q = some-injective-path e in
    record {
      owner = sym (ap (λ (x : Outbound). x.job_id) q);
      waits = sym (ap (λ (x : Outbound). x.status) q);
      unsent = sym (ap (λ (x : Outbound). x.tries) q);
    }

reply_row-Fresh :
    (events : Table InboundEvent) (k : ℕ) (j : Job) (body : Text) (o : Outbound)
    → reply_row events k j body ≡ some o
    → Fresh k o
unfolding reply_row
reply_row-Fresh events k j body o e = reply_to-Fresh k body _ o e

done-after :
    (attempt k : ℕ) (result : Result) (now : ℕ) (j : Job) (l : Ledger)
    → get k l.jobs ≡ some j
    → is_live j.status ≡ true
    → job_test is_done (get k (complete_locked attempt result now k j l).jobs) ≡ true
unfolding complete_locked complete_core
done-after attempt k result now j l g e = rw (get-update_where, g, ==_refl k, e) refl

complete_attempt-Effect :
    (attempt : ℕ) (result : Result) (now : ℕ) (l l' : Ledger)
    → complete_attempt attempt result now l ≡ ok l'
    → Effect l l' 0
complete_attempt-Effect attempt result now l l' e =
    let c = complete_attempt-Completion attempt result now l l' e in
    subst (λ (m : Ledger). Effect l m 0) (sym c.done)
      (row c.a.job_id c.j c.job c.live (reply_row l.inbound_events c.a.job_id c.j result.text) refl)
  where
    outbounds-locked :
        (k : ℕ) (j : Job) (x : Option Outbound)
        → reply_row l.inbound_events k j result.text ≡ x
        → (complete_locked attempt result now k j l).outbounds ≡ queue_reply l.next_id x l.outbounds
    outbounds-locked k j x q =
        unfold complete_locked in ap (λ y. queue_reply l.next_id y l.outbounds) q

    row :
        (k : ℕ) (j : Job)
        → get k l.jobs ≡ some j
        → is_live j.status ≡ true
        → (x : Option Outbound) → reply_row l.inbound_events k j result.text ≡ x
        → Effect l (complete_locked attempt result now k j l) 0
    row k j g v none q = quiet (same_outbox (unfold queue_reply in outbounds-locked k j none q))
    row k j g v (some o) q =
        completes k o (unfold queue_reply in outbounds-locked k j (some o) q)
          (unfold complete_locked complete_core in refl) (reply_row-Fresh _ k j _ o q)
          (rw g (ground arith)) (done-after attempt k result now j l g v)

enqueue_row-ok :
    (o : Outbound) (id : ℕ) (l l' : Ledger)
    → enqueue_row (some o) l ≡ ok (id, l')
    → (l'.outbounds ≡ insert l.next_id o l.outbounds) × (l'.next_id ≡ suc l.next_id)
unfolding enqueue_row
enqueue_row-ok o id l l' h = (ground arith, ground arith)

enqueue_outbound-Effect :
    (job id : ℕ) (body : Text) (l l' : Ledger)
    → enqueue_outbound job body l ≡ ok (id, l')
    → Effect l l' 1
enqueue_outbound-Effect job id body l l' e = of_job (get job l.jobs) (unfold enqueue_outbound in e)
  where
    of_row :
        (j : Job) (x : Option Outbound)
        → reply_row l.inbound_events job j body ≡ x
        → enqueue_row x l ≡ ok (id, l')
        → Effect l l' 1
    of_row j none q h = absurd (unfold enqueue_row in cc)
    of_row j (some o) q h =
        let (t, n) = enqueue_row-ok o id l l' h in
        queues job o t n (reply_row-Fresh l.inbound_events job j body o q)

    of_job : (x : Option Job) → enqueue_job job body x l ≡ ok (id, l') → Effect l l' 1
    of_job none h = absurd (unfold enqueue_job in cc)
    of_job (some j) h =
        of_row j (reply_row l.inbound_events job j body) refl (unfold enqueue_job in h)

pub Step-Effect :
    {registry : Registry} {cap : ℕ} {l l' : Ledger} (s : Step registry cap l l')
    → IsKeyed l.outbounds
    → Effect l l' (by_hand s)
unfolding by_hand
Step-Effect (ingest e b l) h = quiet (same_outbox (outbounds-ingest_inbound e b l))
Step-Effect (submit q n i l e) h = quiet (same_outbox (outbounds-submit_job q n i l _ e))
Step-Effect {cap = width} (lease k w n s l) h =
    quiet (same_outbox (outbounds-lease_once width k w n s l))
Step-Effect (heartbeat a n l e) h = quiet (same_outbox (outbounds-heartbeat_attempt a n l _ e))
Step-Effect (complete a r n l e) h = complete_attempt-Effect a r n l _ e
Step-Effect {registry} (fail a r n l e) h =
    quiet (same_outbox (outbounds-fail_attempt registry a r n l _ e))
Step-Effect (close_for_cancel j n l) h = unfold cancel_close in quiet idle
Step-Effect (kill_for_cancel j l) h = unfold cancel_kill in quiet idle
Step-Effect (free_for_cancel j b l) h = unfold cancel_free in quiet idle
Step-Effect (reclaim k n l) h = unfold reclaim_expired reclaim_batch_of in quiet idle
Step-Effect (reconcile k n l) h = unfold reconcile_repo_concurrency in quiet idle
Step-Effect (log a s c l) h = unfold append_log in quiet idle
Step-Effect (bury s r l) h = unfold dead_letter in quiet idle
Step-Effect (enqueue j i b l e) h = enqueue_outbound-Effect j i b l _ e
Step-Effect (claim_reply t k l) h = quiet (claim_outbound-Changed t k l h)
Step-Effect (sent i m l) h = quiet (mark_outbound_sent-Changed i m l)
Step-Effect (sent_inline i m l) h = quiet (mark_outbound_sent_inline-Changed i m l)
Step-Effect (send_failed i l) h = quiet (mark_outbound_failed-Changed i l)
