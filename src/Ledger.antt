-- ===== src/Ledger.antt =====
-- The Postgres ledger, src/runtime/ledger/postgres_store.py.
pub mod State
pub mod Lease
pub mod Finish
pub mod Janitor
pub mod Reconcile
pub mod Dispatch
pub mod Outbox
pub mod Decisions
pub mod Order
