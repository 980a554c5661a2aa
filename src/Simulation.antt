-- ===== src/Simulation.antt =====
-- The verbs of PostgresLedger (src/runtime/ledger/postgres_store.py) as steps on the ledger, and the
-- machine of Machine.antt that they implement. A step is one transaction that commits, with any
-- arguments, at any instant, whatever rows other transactions hold. The statements of `cancel` are
-- steps of their own: an environment may run other verbs between them.
pub mod Lease
pub mod Finish
pub mod Janitor
pub mod Dispatch
pub mod Outbox
pub mod Safety
pub mod Zombie
pub mod Worktrees
pub mod Reclaim
pub mod Frame
pub mod Sending
pub mod Routing
pub mod Redelivery
pub mod Effects
pub mod Posted
pub mod Replies
use myndaix_runtime.Prelude.{ℕ, ◌≡◌, refl, sym, subst, Bool, Option, none, some, List, []}
use myndaix_runtime.Prelude.Table.{Table}
use myndaix_runtime.Contracts.{Text, Result, Registry}
use myndaix_runtime.Ledger.State.{Ledger, Core, Outcome, ok, raise, Reason}
use myndaix_runtime.Ledger.Lease.{lease_once, heartbeat_attempt}
use myndaix_runtime.Ledger.Finish.{
  complete_attempt, fail_attempt, cancel_close, cancel_kill, cancel_free,
}
use myndaix_runtime.Ledger.Janitor.{reclaim_expired, reconcile_repo_concurrency}
use myndaix_runtime.Ledger.Dispatch.{
  TransportEnvelope, Request, ingest_inbound, submit_job, append_log, dead_letter,
}
use myndaix_runtime.Ledger.Outbox.{
  enqueue_outbound, claim_outbound, mark_outbound_sent, mark_outbound_sent_inline,
  mark_outbound_failed,
}
use myndaix_runtime.Machine.{Moves, none_left, more, take_id, Moves-append}
use myndaix_runtime.Machine.Limits.{Limits}
use Lease.{lease_once-Moves, heartbeat_attempt-Moves}
use Finish.{
  complete_attempt-Moves, fail_attempt-Moves, cancel_close-Moves, cancel_kill-Moves,
  cancel_free-Moves,
}
use Janitor.{reclaim_expired-Moves, reconcile_repo_concurrency-Moves}
use Outbox.{
  core-enqueue_outbound, core-claim_outbound, core-mark_outbound_sent,
  core-mark_outbound_sent_inline, core-mark_outbound_failed,
}
use Dispatch.{submit_job-Moves, ingest_inbound-Moves}

pub data Step (registry : Registry) (cap : ℕ) : Ledger → Ledger → Type 0 where
  ingest :
      (envelope : TransportEnvelope) (body : Text) (l : Ledger)
      → Step registry cap l (ingest_inbound envelope body l).1
  submit :
      (q : Request) (now id : ℕ) (l : Ledger) {l' : Ledger}
      → submit_job q now l ≡ ok (id, l')
      → Step registry cap l l'
  lease :
      (locked : ℕ → Bool) (worker now : ℕ) (skip : List ℕ) (l : Ledger)
      → Step registry cap l (lease_once cap locked worker now skip l).1
  heartbeat :
      (attempt now : ℕ) (l : Ledger) {l' : Ledger}
      → heartbeat_attempt attempt now l ≡ ok l'
      → Step registry cap l l'
  complete :
      (attempt : ℕ) (result : Result) (now : ℕ) (l : Ledger) {l' : Ledger}
      → complete_attempt attempt result now l ≡ ok l'
      → Step registry cap l l'
  fail :
      (attempt : ℕ) (result : Result) (now : ℕ) (l : Ledger) {l' : Ledger}
      → fail_attempt registry attempt result now l ≡ ok l'
      → Step registry cap l l'
  close_for_cancel : (job now : ℕ) (l : Ledger) → Step registry cap l (cancel_close job now l)
  kill_for_cancel : (job : ℕ) (l : Ledger) → Step registry cap l (cancel_kill job l)
  free_for_cancel :
      (job : ℕ) (closed : Bool) (l : Ledger) → Step registry cap l (cancel_free job closed l)
  reclaim :
      (locked : ℕ → Bool) (now : ℕ) (l : Ledger)
      → Step registry cap l (reclaim_expired registry locked now l).1
  reconcile :
      (locked : ℕ → Bool) (now : ℕ) (l : Ledger)
      → Step registry cap l (reconcile_repo_concurrency locked now l).1
  log :
      (attempt : ℕ) (stream chunk : Text) (l : Ledger)
      → Step registry cap l (append_log attempt stream chunk l)
  bury :
      (source : ℕ) (reason : Reason) (l : Ledger)
      → Step registry cap l (dead_letter source reason l)
  enqueue :
      (job id : ℕ) (body : Text) (l : Ledger) {l' : Ledger}
      → enqueue_outbound job body l ≡ ok (id, l')
      → Step registry cap l l'
  claim_reply :
      (transport : ℕ) (locked : ℕ → Bool) (l : Ledger)
      → Step registry cap l (claim_outbound transport locked l).1
  sent : (id msg : ℕ) (l : Ledger) → Step registry cap l (mark_outbound_sent id msg l)
  sent_inline :
      (id msg : ℕ) (l : Ledger) → Step registry cap l (mark_outbound_sent_inline id msg l).1
  send_failed : (id : ℕ) (l : Ledger) → Step registry cap l (mark_outbound_failed id l)

pub data Run (registry : Registry) (cap : ℕ) (l : Ledger) : Ledger → Type 0 where
  start : Run registry cap l l
  then : {m n : Ledger} → Run registry cap l m → Step registry cap m n → Run registry cap l n

-- Every verb, with any arguments, makes moves of the machine on the jobs and attempts.
pub Step-Moves :
    {registry : Registry} {cap : ℕ} {l l' : Ledger}
    → Step registry cap l l'
    → Limits registry cap l.core
    → Moves registry cap l.core l'.core
Step-Moves (ingest e b l) h = ingest_inbound-Moves _ _ e b l
Step-Moves (submit q n i l e) h = submit_job-Moves _ _ q n l _ i e
Step-Moves (lease k w n s l) h = lease_once-Moves _ _ k w n s l h.keyed
Step-Moves (heartbeat a n l e) h = heartbeat_attempt-Moves _ _ a n l _ e
Step-Moves (complete a r n l e) h = complete_attempt-Moves _ _ a r n l _ e
Step-Moves (fail a r n l e) h = fail_attempt-Moves _ _ a r n l _ e
Step-Moves (close_for_cancel j n l) h = cancel_close-Moves _ _ j n l
Step-Moves (kill_for_cancel j l) h = cancel_kill-Moves _ _ j l
Step-Moves (free_for_cancel j b l) h = cancel_free-Moves _ _ j b l
Step-Moves (reclaim k n l) h = reclaim_expired-Moves _ _ k n l
Step-Moves (reconcile k n l) h = reconcile_repo_concurrency-Moves _ _ k n l
Step-Moves (log a s c l) h = unfold append_log in none_left
Step-Moves (bury s r l) h = unfold dead_letter in none_left
Step-Moves {registry} {cap} (enqueue j i b l e) h =
    subst (λ (c : Core). Moves registry cap l.core c) (sym (core-enqueue_outbound j i b l _ e))
      (more none_left (take_id l.core))
Step-Moves {registry} {cap} (claim_reply t k l) h =
    subst (λ (c : Core). Moves registry cap l.core c) (sym (core-claim_outbound t k l)) none_left
Step-Moves {registry} {cap} (sent i m l) h =
    subst (λ (c : Core). Moves registry cap l.core c) (sym (core-mark_outbound_sent i m l))
      none_left
Step-Moves {registry} {cap} (sent_inline i m l) h =
    subst (λ (c : Core). Moves registry cap l.core c) (sym (core-mark_outbound_sent_inline i m l))
      none_left
Step-Moves {registry} {cap} (send_failed i l) h =
    subst (λ (c : Core). Moves registry cap l.core c) (sym (core-mark_outbound_failed i l))
      none_left
