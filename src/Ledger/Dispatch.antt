-- ===== src/Ledger/Dispatch.antt =====
-- PostgresLedger.ingest_inbound, submit_job, append_log and dead_letter, with _utf8_safe
-- (postgres_store.py).
use myndaix_runtime.Prelude.{
  ℕ, suc, ◌+◌, Bool, false, not, ◌&&◌, ◌||◌, Option, none, some, [], ◌∷◌, ◌++◌, ltb, leb, ◌==◌,
  if◌then◌else◌, holds, map, is_some,
}
use myndaix_runtime.Prelude.Table.{Table, get, insert, count, select}
use myndaix_runtime.Contracts.{Text, JobStatus, queued, dead}
use myndaix_runtime.Ledger.State.{
  Job, InboundEvent, Core, Ledger, Outcome, ok, raise, unknown_parent, unique_violation,
  foreign_key_violation, Reason, parent_not_live, over_limit, is_live, is_queued, is_dead,
  max_depth, max_children,
}

-- The class [\x00\ud800-\udfff] of _UNSTORABLE_RE.
unfoldable pub unstorable : ℕ → Bool
unstorable c = c == 0 || (leb 0xd800 c && leb c 0xdfff)

unfoldable pub utf8_safe : Text → Text
unfolding unstorable
utf8_safe s = map (λ c. if unstorable c then 0xfffd else c) s

-- What the caller of ingest_inbound gives.
pub record TransportEnvelope : Type 0 where
  pub transport : ℕ
  pub reply_target : Text
  pub dedupe_key : ℕ

abbrev pub key_of {ℓ} : {V : Type ℓ} → Table V → Option ℕ
key_of [] = none
key_of ((k, _) ∷ _) = some k

unfoldable pub event_of_key : ℕ → Table InboundEvent → Option ℕ
event_of_key key events = key_of (select (λ _ e. e.dedupe_key == key) events)

-- A `_new_id` that no row uses.
abbrev pub skip_id : Ledger → Ledger
skip_id l = record l { core = record l.core { next_id = suc l.next_id } }

unfoldable pub ingest_row : TransportEnvelope → Text → Option ℕ → Ledger → ℕ × Ledger
ingest_row envelope body (some id) l = (id, skip_id l)
ingest_row envelope body none l = (
  l.next_id,
  record l {
    core = record l.core { next_id = suc l.next_id };
    inbound_events =
        insert l.next_id
          (record {
            transport = envelope.transport;
            reply_target = envelope.reply_target;
            body = utf8_safe body;
            dedupe_key = envelope.dedupe_key;
          })
          l.inbound_events;
  },
)

-- INSERT … ON CONFLICT (dedupe_key) DO UPDATE … RETURNING id: a duplicate gets the first id.
unfoldable pub ingest_inbound : TransportEnvelope → Text → Ledger → ℕ × Ledger
unfolding ingest_row
ingest_inbound envelope body l =
    ingest_row envelope body (event_of_key envelope.dedupe_key l.inbound_events) l

-- What the caller of submit_job gives.
pub record Request : Type 0 where
  pub to_agent : ℕ
  pub prompt : Text
  pub context : Text
  pub parent_id : Option ℕ
  pub inbound_event_id : Option ℕ
  pub created_by : Text
  pub repo_id : Option ℕ
  pub base_ref : Option Text
  pub priority : ℕ

-- SELECT count(*) FROM job WHERE parent_id = p AND status <> 'dead'
unfoldable pub child_count : Table Job → ℕ → ℕ
child_count jobs p = count (λ _ j. holds j.parent_id p && not (is_dead j.status)) jobs

-- The reason to reject a child, if any.
unfoldable pub admission : Table Job → ℕ → Job → Option Reason
unfolding child_count
admission jobs p parent =
    if not (is_queued parent.status || is_live parent.status)
    then some parent_not_live
    else if ltb max_depth (parent.depth + 1) || leb max_children (child_count jobs p)
    then some over_limit
    else none

abbrev pub inbound_of : Option ℕ → Job → Bool
inbound_of none j = false
inbound_of (some e) j = holds j.inbound_event_id e

-- SELECT id FROM job WHERE inbound_event_id = $1, the row that the unique index guards.
unfoldable pub job_of_event : Option ℕ → Table Job → Option ℕ
job_of_event e jobs = key_of (select (λ _ j. inbound_of e j) jobs)

abbrev pub event_missing : Option ℕ → Table InboundEvent → Bool
event_missing none events = false
event_missing (some e) events = not (is_some (get e events))

-- The row of the INSERT; the rejected one leaves repo_id and base_ref at NULL.
unfoldable pub new_job : Request → ℕ → ℕ → ℕ → JobStatus → Option ℕ → Option Text → Job
new_job q root depth now s repo base = record {
  parent_id = q.parent_id;
  root_id = root;
  depth = depth;
  created_by = q.created_by;
  inbound_event_id = q.inbound_event_id;
  to_agent = q.to_agent;
  body = utf8_safe q.prompt;
  context = q.context;
  priority = q.priority;
  status = s;
  repo_id = repo;
  base_ref = base;
  artifact_ref = none;
  created_at = now;
}

unfoldable pub add_job : ℕ → Job → Core → Core
add_job jid j c = record c { next_id = suc c.next_id; jobs = insert jid j c.jobs }

-- An INSERT into job under the unique index on inbound_event_id and its foreign key.
unfoldable pub insert_job : ℕ → Job → Ledger → Outcome Ledger
unfolding add_job job_of_event
insert_job jid j l =
    if is_some (job_of_event j.inbound_event_id l.jobs)
    then raise unique_violation
    else if event_missing j.inbound_event_id l.inbound_events
    then raise foreign_key_violation
    else ok (record l { core = add_job jid j l.core })

unfoldable pub rejected : ℕ → Reason → Outcome Ledger → Outcome (ℕ × Ledger)
rejected jid reason (raise e) = raise e
rejected jid reason (ok l) = ok (
  jid,
  record l { dead_letters = l.dead_letters ++ record { source_id = jid; reason = reason } ∷ [] },
)

-- The rejected job and its dead letter.
unfoldable pub reject_job : Request → ℕ → ℕ → ℕ → Reason → Ledger → Outcome (ℕ × Ledger)
unfolding rejected
reject_job q root depth now reason l =
    rejected l.next_id reason (insert_job l.next_id (new_job q root depth now dead none none) l)

unfoldable pub already_there : Option ℕ → Ledger → Outcome (ℕ × Ledger)
already_there (some id) l = ok (id, skip_id l)
already_there none l = raise unique_violation

unfoldable pub queued_or_found : Option ℕ → Ledger → Outcome Ledger → Outcome (ℕ × Ledger)
unfolding already_there
queued_or_found event l (ok l') = ok (l.next_id, l')
queued_or_found event l (raise unique_violation) = already_there (job_of_event event l.jobs) l
queued_or_found event l (raise e) = raise e

-- The savepoint around the INSERT: a unique violation gives the id of the job that is there.
unfoldable pub queue_job : Request → ℕ → ℕ → ℕ → Ledger → Outcome (ℕ × Ledger)
unfolding queued_or_found
queue_job q root depth now l =
    queued_or_found q.inbound_event_id l
      (insert_job l.next_id (new_job q root depth now queued q.repo_id q.base_ref) l)

unfoldable pub submit_child : Request → ℕ → Job → Option Reason → Ledger → Outcome (ℕ × Ledger)
submit_child q now parent (some reason) l =
    reject_job q parent.root_id (parent.depth + 1) now reason l
submit_child q now parent none l = queue_job q parent.root_id (parent.depth + 1) now l

unfoldable pub submit_parent : Request → ℕ → ℕ → Option Job → Ledger → Outcome (ℕ × Ledger)
submit_parent q now p none l = raise unknown_parent
submit_parent q now p (some parent) l = submit_child q now parent (admission l.jobs p parent) l

unfoldable pub submit_under : Request → ℕ → Option ℕ → Ledger → Outcome (ℕ × Ledger)
submit_under q now none l = queue_job q l.next_id 0 now l
submit_under q now (some p) l = submit_parent q now p (get p l.jobs) l

unfoldable pub submit_job : Request → ℕ → Ledger → Outcome (ℕ × Ledger)
unfolding submit_under submit_parent submit_child reject_job queue_job
submit_job q now l = submit_under q now q.parent_id l

unfoldable pub append_log : ℕ → Text → Text → Ledger → Ledger
append_log attempt_id stream chunk l = record l {
  attempt_log =
      l.attempt_log ++ record { attempt_id = attempt_id; stream = stream; chunk = chunk } ∷ [];
}

unfoldable pub dead_letter : ℕ → Reason → Ledger → Ledger
dead_letter source_id reason l = record l {
  dead_letters = l.dead_letters ++ record { source_id = source_id; reason = reason } ∷ [];
}
