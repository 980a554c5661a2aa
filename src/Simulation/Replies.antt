-- ===== src/Simulation/Replies.antt =====
-- The replies of the outbox (src/runtime/ledger/postgres_store.py) over a whole run.
use myndaix_runtime.Prelude.{ℕ, ◌+◌, ◌≤◌, ◌≡◌, refl, some, arith}
use myndaix_runtime.Prelude.Table.{get, count}
use myndaix_runtime.Contracts.{Registry, sent}
use myndaix_runtime.Ledger.State.{Outbound, Ledger, outbound_max_tries}
use myndaix_runtime.Simulation.{Step, Run, start, then, Step-Moves}
use myndaix_runtime.Simulation.Posted.{
  Moves-next_id, Outbox, Effect-Outbox, Effect-sent, reply_count, done_bit, done_stays,
  Effect-count,
}
use myndaix_runtime.Simulation.Effects.{by_hand, Step-Effect}
use myndaix_runtime.Simulation.Safety.{empty, reached}

empty-Outbox : Outbox empty
unfolding get
empty-Outbox = record { keyed = tt; fresh = λ k h. refl; quota = λ k o e. absurd (cc) }

-- How many replies the run queued by enqueue_outbound.
unfoldable pub enqueued : {registry : Registry} {cap : ℕ} {l m : Ledger} → Run registry cap l m → ℕ
unfolding by_hand
enqueued start = 0
enqueued (then r s) = enqueued r + by_hand s

module _ {registry : Registry} {cap : ℕ} where
  step-next_id :
      {l m : Ledger} → Run registry cap empty l → Step registry cap l m → l.next_id ≤ m.next_id
  step-next_id r s = Moves-next_id (Step-Moves s (reached r))

  reached-Outbox : {l : Ledger} → Run registry cap empty l → Outbox l
  reached-Outbox start = empty-Outbox
  reached-Outbox (then {m} {n} r s) =
      let h = reached-Outbox r in Effect-Outbox m n (step-next_id r s) (Step-Effect s h.keyed) h

  run-append : {l m n : Ledger} → Run registry cap l m → Run registry cap m n → Run registry cap l n
  run-append r start = r
  run-append r (then q s) = (then) (run-append r q) s

  -- On every reachable ledger a reply has been claimed for sending at most OUTBOUND_MAX_TRIES times.
  tries_bounded :
      {l : Ledger}
      → Run registry cap empty l
      → (k : ℕ) (o : Outbound) → get k l.outbounds ≡ some o
      → o.tries ≤ outbound_max_tries
  tries_bounded r k o g = omega (arith, (reached-Outbox r).quota k o g)

  -- Once a reply of a reachable ledger has been sent, no verb changes anything of its row, so that no
  -- sender claims it again.
  sent_stays :
      {l m : Ledger}
      → Run registry cap empty l
      → Run registry cap l m
      → (k : ℕ) (o : Outbound) → get k l.outbounds ≡ some o
      → o.status ≡ sent
      → get k m.outbounds ≡ some o
  sent_stays r start k o g e = g
  sent_stays r (then {m} {n} q s) k o g e =
      Effect-sent m n k o (Step-Effect s (reached-Outbox (run-append r q)).keyed)
        (sent_stays r q k o g e) (rw e refl)

  -- A job has no more replies in the outbox than the verb enqueue_outbound queued in the whole run,
  -- and one more if the job is done: no completion queues a second reply for a job, and none queues
  -- one for a job that is not done.
  pub one_reply_per_job :
      {l : Ledger} (r : Run registry cap empty l) (k : ℕ)
      → reply_count l.outbounds k ≤ done_bit l k + enqueued r
  unfolding enqueued
  one_reply_per_job start k = unfold reply_count count in omega arith
  one_reply_per_job (then {m} {n} r s) k =
      Effect-count m n k (enqueued r) (done_stays m n k (Step-Moves s (reached r)))
        (Step-Effect s (reached-Outbox r).keyed) (one_reply_per_job r k)
