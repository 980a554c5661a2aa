-- ===== src/Pool.antt =====
-- The pace of src/runtime/pool.py: the checks of WorkerPool's constructor and the delay after faults.
-- Delays are whole milliseconds where the code has floats.
use myndaix_runtime.Prelude.{ℕ, zero, suc, ◌*◌, ◌^◌, ◌≤◌, ltb, if◌then◌else◌, arith}

-- FAULT_BACKOFF_CAP_S
abbrev pub fault_backoff_cap : ℕ
fault_backoff_cap = 30 * 1000

abbrev pub max : ℕ → ℕ → ℕ
max a b = if ltb a b then b else a

abbrev pub min : ℕ → ℕ → ℕ
min a b = if ltb b a then b else a

-- WorkerPool._fault_backoff
unfoldable pub fault_backoff : ℕ → ℕ → ℕ
fault_backoff base zero = base
fault_backoff base (suc n) = max base (min (base * 2 ^ min (suc n) 30) fault_backoff_cap)

-- In a streak of faults a loop never retries faster than at its healthy pace, and waits no longer
-- than the cap or that pace, whichever is longer.
backoff_is_bounded :
    (base streak : ℕ)
    → (base ≤ fault_backoff base streak) × (fault_backoff base streak ≤ max base fault_backoff_cap)
unfolding fault_backoff
backoff_is_bounded base zero = (omega arith, ground arith)
backoff_is_bounded base (suc n) = (ground arith, ground arith)
