-- ===== src/Controller/Config.antt =====
-- The environment of src/runtime/controller.py: the strict reader of number settings, and the
-- settings that are derived from it. A text is its list of code points.
pub mod Decimal
use myndaix_runtime.Prelude.{
  ℕ, ◌+◌, ◌-◌, ◌*◌, Bool, true, false, ◌&&◌, Option, none, some, List, [], ◌∷◌, leb, ltb, ◌==◌,
  if◌then◌else◌, length,
}
use myndaix_runtime.Contracts.{Text}
use myndaix_runtime.Pool.{max, min}

-- [0-9]
abbrev pub is_digit : ℕ → Bool
is_digit c = leb 48 c && leb c 57

unfoldable pub digits : Text → Bool
digits [] = true
digits (c ∷ s) = is_digit c && digits s

-- re.fullmatch(r"[0-9]+", val)
unfoldable pub is_number : Text → Bool
unfolding digits
is_number [] = false
is_number (c ∷ s) = digits (c ∷ s)

-- int(val) of a text of digits, after the digits that `acc` holds.
unfoldable pub decimal : ℕ → Text → ℕ
decimal acc [] = acc
decimal acc (c ∷ s) = decimal (acc * 10 + (c - 48)) s

-- val.lstrip("0")
unfoldable pub lstrip_zeros : Text → Text
lstrip_zeros [] = []
lstrip_zeros (c ∷ s) = if c == 48 then lstrip_zeros s else c ∷ s

abbrev pub or_zero : Text → Text
or_zero [] = 48 ∷ []
or_zero (c ∷ s) = c ∷ s

-- 2**31 - 1
abbrev pub int_max : ℕ
int_max = 2147483647

unfoldable pub capped : Text → ℕ
unfolding decimal
capped val = if ltb 10 (length val) then int_max else min (decimal 0 val) int_max

unfoldable pub int_env : Option Text → ℕ → ℕ
unfolding is_number lstrip_zeros capped
int_env none default = default
int_env (some val) default = if is_number val then capped (or_zero (lstrip_zeros val)) else default

unfoldable pub worker_lock_floor : ℕ → ℕ
worker_lock_floor rct = 3 * 180 + 3 * rct + 360

-- PENDING_STALE, from MYNDAIX_CONTROLLER_PENDING_STALE, PLAY_REVIEW_CALL_TIMEOUT and PLAY_STALE
unfoldable pub pending_stale : Option Text → Option Text → Option Text → ℕ
unfolding worker_lock_floor
pending_stale own rct stale =
    max (max (int_env own 7200) (worker_lock_floor (int_env rct 1200))) (int_env stale 0)

-- if MAX_REVIEW_LINES < 1: …
unfoldable pub at_least_one : ℕ → ℕ → ℕ
at_least_one n default = if ltb n 1 then default else n

-- MAX_REVIEW_LINES, MAX_REVIEW_BYTES and CHUNK_WALK_CAP
unfoldable pub max_review_lines : Option Text → ℕ
unfolding at_least_one int_env
max_review_lines env = at_least_one (int_env env 1500) 1500

unfoldable pub max_review_bytes : Option Text → ℕ
unfolding at_least_one int_env
max_review_bytes env = at_least_one (int_env env 262144) 262144

unfoldable pub chunk_walk_cap : Option Text → ℕ
unfolding at_least_one int_env
chunk_walk_cap env = at_least_one (int_env env 200) 200
