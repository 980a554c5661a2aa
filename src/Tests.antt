-- ===== src/Tests.antt =====
-- Runs of the model on concrete ledgers, and the theorems at them.
mod Runs
mod Safety
mod Leases
mod Verbs
mod Cursors
mod Gates
mod Captures
mod Controllers
mod Merges
mod Findings
mod Documents
