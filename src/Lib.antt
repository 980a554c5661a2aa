-- ===== src/Lib.antt =====
-- MyndAIX Team Runtime: the durable job ledger of src/runtime and what stands around it.
--
-- The program hands jobs to agents. A message or an operator submits a job to the ledger, a worker
-- leases it, runs the agent in a process, and reports the result; janitors recover what crashed
-- workers leave. All shared state is in the tables of the ledger, and each verb of the ledger is one
-- transaction. Beside the jobs, the ledger keeps the cursors of the review loop and of the inbox, and
-- the candidates for new review skills, the outcomes of the findings of reviews, and an index of
-- documents. A controller decides which part of a watched branch is reviewed next, and a gate which pull
-- requests merge without a human.
--
-- Files, with the code that each models:
--   Prelude and its children: tables under a primary key, Boolean tests, shared lemmas.
--   Contracts: src/runtime/contracts.py, the roster of src/runtime/registry.py, _requeue_safe.
--   Ledger/State: the tables of src/runtime/ledger/schema.sql and the statements that verbs share.
--   Ledger/Lease, Finish, Janitor, Dispatch, Outbox: class PostgresLedger of
--     src/runtime/ledger/postgres_store.py, one definition per verb under the verb's name. A verb by
--     clauses on the rows it reads has helpers that are named for what they do. Ledger/Decisions: the
--     merge decisions of the same class. Ledger/Reconcile: the counters after the slow janitor;
--     Ledger/Order: the order of the PICK.
--   Machine and its children: an abstract machine of jobs and attempts, and what its moves keep.
--   Simulation and its children: the verbs as steps; that a step makes moves of the machine; and what
--     follows for every run, in Safety, Zombie, Reclaim, Worktrees and Replies. Routing and Redelivery
--     are about fail_attempt and about messages that come twice.
--   Cursor/Review, Cursor/Inbox, Capture: the cursors and the candidates of the same class, with the
--     thresholds of src/runtime/capture.py. Cursor/Row is the compare-and-swap that they share.
--   Outcomes: the table finding_outcome with the views finding_current and finding_labelqueue of
--     src/runtime/ledger/migrations. Labels has the verbs that label a finding and the sweep, Review
--     record_findings; Appends and Recorded say how they grow the table, Sticky that a human's row stays current,
--     Calls, Closes and Queue what follows.
--   Knowledge: the index of documents of the same class, with the fence of its walks
--     in Fence and what a sync leaves in Loops and Corpus.
--   Demo: class Ledger of src/runtime/ledger/sqlite_store.py.
--   Worker: src/runtime/worker.py over a record of the store's operations and promises, which
--     Worker/Postgres and Worker/Sqlite fill for the two ledgers.
--   Pool: the delay after faults of src/runtime/pool.py.
--   Automerge: the pure gate of src/runtime/automerge.py, with Python's strict decoders. Its child
--     Screen has the gates of evaluate_pr that only read, and Evaluate the rest of it, _charge,
--     _bump_attempt, _review_pass, _recheck and the loop of tick; Screened and Merges say what a
--     merge has passed, Effects and Ticks what a tick bounds, Heads what becomes of one head over many
--     ticks, Sizes how diffs and authors are read. The lists of merges and of transient reviews in
--     Evaluate's Books are a record of what was done, which the code does not keep.
--   Controller: src/runtime/controller.py. Config has the settings, Target _choose_review_target,
--     Site the files and rows of one repository and what the world answers, Repo process_repo, stage
--     by stage, and Tick the loop of tick. Steps is an abstract machine of permitted moves;
--     Steps/Passes, Stages and Refine show that process_repo makes only these, Steps/Laws what they
--     keep.
--   Tests: a run of two jobs, and the theorems at concrete inputs.
--
-- How the code is read. A uuid is a number and `next_id` the next fresh one. An instant is a number of
-- seconds, passed to the verb as `now`. Texts are lists of code points; an agent, a repository or a
-- commit is a number, since the code only compares them. A row lock that SKIP LOCKED passes over is
-- the argument `locked`, any predicate, so that a theorem holds whatever other transactions hold. A
-- transaction that raises is rolled back: the verb answers `raise` and no ledger. The transactions are
-- taken one after the other, as the row locks make them; the three statements of `cancel` are steps
-- of their own, since another verb may run between them. The statuses 'leased' and 'failed' of an
-- outbound row are the constructors claimed and undeliverable.
--
-- Bounds. lease_loop runs on fuel: LEASE_MAX_REPICKS, the bound of the code's own loop, after which
-- the code too answers None. Every other loop is structural.
--
-- The controller and the gate ask git, gh, the file system and the review worker: what these answer in
-- one evaluation is a record (Outside, Sizing, Host), any answers, so that a theorem holds whatever
-- they say. A call that the code makes twice takes the number of the call, and each use of a file or
-- of a marker in one pass has an answer of its own. In the controller a run of
-- git may raise, which leaves process_repo as the code's exception does.
--
-- Not modelled: the runner and its adapters, HTTP and the command line, the asyncio supervision of
-- the pool, the skill indexer of the controller, the locks and environments of the controller and
-- the gate, exceptions of git and gh in the gate, the table of skills, and the operational scripts.
-- The worker sends its heartbeats at the one instant of its store's record; the theorems on leases
-- are about any instants. str.lower and str.isspace are parameters, any functions; str.isdigit is
-- read on the ASCII digits that git prints.
mod Prelude
pub mod Contracts
pub mod Ledger
pub mod Machine
pub mod Simulation
pub mod Controller
pub mod Outcomes
pub mod Knowledge
pub mod Cursor
pub mod Capture
pub mod Automerge
pub mod Demo
pub mod Worker
pub mod Pool
mod Tests
