-- ===== src/Ledger/Outbox.antt =====
-- The outbox verbs of PostgresLedger (postgres_store.py).
use myndaix_runtime.Prelude.{
  ℕ, suc, ◌+◌, Bool, true, false, not, ◌&&◌, Option, none, some, [], ◌∷◌, ◌++◌, ltb, leb, ◌==◌,
  if◌then◌else◌, holds,
}
use myndaix_runtime.Prelude.Table.{Table, get, update_where, insert, count, select}
use myndaix_runtime.Contracts.{Text, OutboundStatus, pending, claimed, sent, undeliverable}
use myndaix_runtime.Ledger.State.{
  Job, Outbound, Ledger, Outcome, ok, raise, no_inbound_event, duplicate_send, undelivered,
  outbound_max_tries,
}
use myndaix_runtime.Ledger.Finish.{reply_row}

abbrev pub is_pending : OutboundStatus → Bool
is_pending pending = true
is_pending _ = false

abbrev pub is_claimed : OutboundStatus → Bool
is_claimed claimed = true
is_claimed _ = false

unfoldable pub enqueue_row : Option Outbound → Ledger → Outcome (ℕ × Ledger)
enqueue_row none l = raise no_inbound_event
enqueue_row (some o) l = ok (
  l.next_id,
  record l {
    core = record l.core { next_id = suc l.next_id };
    outbounds = insert l.next_id o l.outbounds;
  },
)

-- INSERT … SELECT from the job and its inbound event; no row raises.
unfoldable pub enqueue_job : ℕ → Text → Option Job → Ledger → Outcome (ℕ × Ledger)
unfolding enqueue_row
enqueue_job job_id body none l = raise no_inbound_event
enqueue_job job_id body (some j) l = enqueue_row (reply_row l.inbound_events job_id j body) l

unfoldable pub enqueue_outbound : ℕ → Text → Ledger → Outcome (ℕ × Ledger)
unfolding enqueue_job
enqueue_outbound job_id body l = enqueue_job job_id body (get job_id l.jobs) l

unfoldable pub lesser : ℕ × Outbound → Option (ℕ × Outbound) → ℕ × Outbound
lesser row none = row
lesser row (some best) = if ltb best.0 row.0 then best else row

-- ORDER BY id LIMIT 1
unfoldable pub least : Table Outbound → Option (ℕ × Outbound)
unfolding lesser
least [] = none
least (row ∷ rows) = some (lesser row (least rows))

-- The `picked` CTE; `locked` are the rows that other senders hold.
unfoldable pub next_outbound : ℕ → (ℕ → Bool) → Table Outbound → Option (ℕ × Outbound)
unfolding least
next_outbound transport locked t =
    least (select (λ k o. o.transport == transport && is_pending o.status && not (locked k)) t)

unfoldable pub lease_row : ℕ → Table Outbound → Table Outbound
lease_row id t =
    update_where (λ i _. i == id) (λ o. record o { status = claimed; tries = o.tries + 1 }) t

unfoldable pub claim_row : Option (ℕ × Outbound) → Ledger → Option (ℕ × Outbound) × Ledger
unfolding lease_row
claim_row none l = (none, l)
claim_row (some row) l = (some row, record l { outbounds = lease_row row.0 l.outbounds })

unfoldable pub claim_outbound : ℕ → (ℕ → Bool) → Ledger → Option (ℕ × Outbound) × Ledger
unfolding claim_row
claim_outbound transport locked l = claim_row (next_outbound transport locked l.outbounds) l

-- Another row owns the provider's message id, so that the unique index refuses the UPDATE.
unfoldable pub id_taken : ℕ → ℕ → Table Outbound → Bool
id_taken id msg t = ltb 0 (count (λ i o. not (i == id) && holds o.provider_msg_id msg) t)

-- SET status='sent', provider_msg_id=… WHERE id = … AND status = from
unfoldable pub set_sent : (OutboundStatus → Bool) → ℕ → ℕ → Table Outbound → Table Outbound
set_sent from id msg t =
    update_where (λ i o. i == id && from o.status)
      (λ o. record o { status = sent; provider_msg_id = some msg }) t

unfoldable pub set_failed : (OutboundStatus → Bool) → ℕ → Table Outbound → Table Outbound
set_failed from id t =
    update_where (λ i o. i == id && from o.status) (λ o. record o { status = undeliverable }) t

abbrev pub row_test : (Outbound → Bool) → Option Outbound → Bool
row_test p none = false
row_test p (some o) = p o

-- The UPDATE under the unique index; the handler of its violation ends the row and buries it.
unfoldable pub send_row : (OutboundStatus → Bool) → ℕ → ℕ → Bool → Ledger → ℕ × Ledger
unfolding set_sent set_failed
send_row from id msg true l = (
  0,
  record l {
    outbounds = set_failed from id l.outbounds;
    dead_letters = l.dead_letters ++ record { source_id = id; reason = duplicate_send } ∷ [];
  },
)
send_row from id msg false l = (1, record l { outbounds = set_sent from id msg l.outbounds })

-- mark_outbound_sent and mark_outbound_sent_inline differ in the status that they start from; the
-- second gives the number of rows. Without a row to update the unique index is not consulted.
unfoldable pub mark_sent_from : (OutboundStatus → Bool) → ℕ → ℕ → Ledger → ℕ × Ledger
unfolding id_taken send_row
mark_sent_from from id msg l =
    let moved = send_row from id msg (id_taken id msg l.outbounds) l in
    if row_test (λ o. from o.status) (get id l.outbounds) then moved else (0, l)

unfoldable pub mark_outbound_sent : ℕ → ℕ → Ledger → Ledger
unfolding mark_sent_from
mark_outbound_sent id msg l = (mark_sent_from is_claimed id msg l).1

unfoldable pub mark_outbound_sent_inline : ℕ → ℕ → Ledger → ℕ × Ledger
unfolding mark_sent_from
mark_outbound_sent_inline id msg l = mark_sent_from is_pending id msg l

-- CASE WHEN tries >= $2 THEN 'failed' ELSE 'pending' END
unfoldable pub retry_row : Outbound → Outbound
retry_row o = record o {
  status = if leb outbound_max_tries o.tries then undeliverable else pending;
}

unfoldable pub mark_outbound_failed : ℕ → Ledger → Ledger
unfolding retry_row
mark_outbound_failed id l =
    let t = update_where (λ i o. i == id && is_claimed o.status) retry_row l.outbounds in
    if row_test (λ o. is_claimed o.status && leb outbound_max_tries o.tries) (get id l.outbounds)
    then record l {
      outbounds = t;
      dead_letters = l.dead_letters ++ record { source_id = id; reason = undelivered } ∷ [];
    }
    else record l { outbounds = t }
