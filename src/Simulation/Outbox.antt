-- ===== src/Simulation/Outbox.antt =====
-- The outbox verbs (src/runtime/ledger/postgres_store.py) touch no job and no attempt.
use myndaix_runtime.Prelude.{ℕ, suc, ◌≡◌, Bool, arith}
use myndaix_runtime.Contracts.{Text, OutboundStatus}
use myndaix_runtime.Ledger.State.{Ledger, ok}
use myndaix_runtime.Ledger.Outbox.{
  enqueue_outbound, claim_outbound, claim_row, mark_sent_from, send_row, mark_outbound_sent,
  mark_outbound_sent_inline, mark_outbound_failed,
}

pub core-enqueue_outbound :
    (job id : ℕ) (body : Text) (l l' : Ledger)
    → enqueue_outbound job body l ≡ ok (id, l')
    → l'.core ≡ record l.core { next_id = suc l.next_id }
unfolding enqueue_outbound
core-enqueue_outbound job id body l l' e = ground arith

pub core-claim_outbound :
    (transport : ℕ) (locked : ℕ → Bool) (l : Ledger)
    → (claim_outbound transport locked l).1.core ≡ l.core
unfolding claim_outbound claim_row
core-claim_outbound transport locked l = ground arith

pub core-mark_sent_from :
    (from : OutboundStatus → Bool) (id msg : ℕ) (l : Ledger)
    → (mark_sent_from from id msg l).1.core ≡ l.core
unfolding mark_sent_from send_row
core-mark_sent_from from id msg l = ground arith

pub core-mark_outbound_sent :
    (id msg : ℕ) (l : Ledger) → (mark_outbound_sent id msg l).core ≡ l.core
unfolding mark_outbound_sent
core-mark_outbound_sent id msg l = core-mark_sent_from _ id msg l

pub core-mark_outbound_sent_inline :
    (id msg : ℕ) (l : Ledger) → (mark_outbound_sent_inline id msg l).1.core ≡ l.core
unfolding mark_outbound_sent_inline
core-mark_outbound_sent_inline id msg l = core-mark_sent_from _ id msg l

pub core-mark_outbound_failed : (id : ℕ) (l : Ledger) → (mark_outbound_failed id l).core ≡ l.core
unfolding mark_outbound_failed
core-mark_outbound_failed id l = ground arith
