-- ===== src/Cursor.antt =====
-- The two cursors of src/runtime/ledger/postgres_store.py: of the review scheduler, one for each
-- repository and ref, and of the inbox assistant, one for each account.
pub mod Row
pub mod Review
pub mod Inbox
