-- ===== src/Cursor/Review.antt =====
-- The review cursor: get_cursor, upsert_baseline, claim_dispatch, release_dispatch,
-- forgive_transient, advance_cursor, skip_to and mark_blocked of
-- src/runtime/ledger/postgres_store.py. Every statement names the primary key (repo_id, ref), so a
-- verb is a function on that key's row; `now` is the instant of now().
pub mod Shape
pub mod Gate
use myndaix_runtime.Prelude.{
  ℕ, ◌+◌, ◌-◌, Bool, true, false, not, ◌&&◌, ◌||◌, Option, none, some, ltb, leb, ◌==◌, holds, same,
  is_none, if◌then◌else◌, List, [], ◌∷◌,
}
use myndaix_runtime.Cursor.Row.{cas}

pub data CursorState : Type 0 where
  baseline dispatching delivered blocked : CursorState

pub record ReviewCursor : Type 0 where
  pub baseline_sha : ℕ
  pub reviewed_sha : ℕ
  pub pending_sha : Option ℕ
  pub state : CursorState
  pub attempts : ℕ
  pub updated_at : ℕ

abbrev pub is_blocked : CursorState → Bool
is_blocked blocked = true
is_blocked _ = false

abbrev pub is_dispatching : CursorState → Bool
is_dispatching dispatching = true
is_dispatching _ = false

unfoldable get_cursor : Option ReviewCursor → Option ReviewCursor
get_cursor row = row

-- INSERT … ON CONFLICT DO NOTHING
unfoldable pub upsert_baseline : ℕ → ℕ → Option ReviewCursor → Bool × Option ReviewCursor
upsert_baseline head now (some c) = (false, some c)
upsert_baseline head now none = (
  true,
  some (record {
    baseline_sha = head;
    reviewed_sha = head;
    pending_sha = none;
    state = baseline;
    attempts = 0;
    updated_at = now;
  }),
)

-- NOT (state = 'blocked' AND pending_sha = head); a NULL pending_sha makes it NULL in a blocked row.
abbrev pub not_blocked_for : CursorState → Option ℕ → ℕ → Bool
not_blocked_for blocked none head = false
not_blocked_for blocked (some p) head = not (p == head)
not_blocked_for _ p head = true

unfoldable pub may_claim : ℕ → ℕ → ReviewCursor → Bool
may_claim head stale_before c =
    not (c.reviewed_sha == head)
    && (not_blocked_for c.state c.pending_sha head
        && (is_none c.pending_sha || (is_blocked c.state || ltb c.updated_at stale_before)))

unfoldable pub claimed_row : ℕ → ℕ → ReviewCursor → ReviewCursor
claimed_row head now c = record c {
  pending_sha = some head;
  state = dispatching;
  attempts = if not (same c.pending_sha (some head)) then 1 else c.attempts + 1;
  updated_at = now;
}

unfoldable pub claim_dispatch : ℕ → ℕ → ℕ → Option ReviewCursor → Bool × Option ReviewCursor
unfolding cas may_claim claimed_row
claim_dispatch head stale_before now = cas (may_claim head stale_before) (claimed_row head now)

unfoldable pub release_dispatch : ℕ → Option ReviewCursor → Bool × Option ReviewCursor
unfolding cas
release_dispatch head =
    cas (λ c. holds c.pending_sha head && is_dispatching c.state) (λ c. record c { updated_at = 0 })

unfoldable pub forgive_transient : ℕ → Option ReviewCursor → Bool × Option ReviewCursor
unfolding cas
forgive_transient head =
    cas (λ c. holds c.pending_sha head && (is_dispatching c.state || is_blocked c.state))
      (λ c. record c { updated_at = 0; attempts = c.attempts - 1; state = dispatching })

abbrev pub delivered_row : ℕ → ℕ → ReviewCursor → ReviewCursor
delivered_row head now c = record c {
  reviewed_sha = head;
  pending_sha = none;
  state = delivered;
  attempts = 0;
  updated_at = now;
}

unfoldable pub advance_cursor : ℕ → ℕ → Option ReviewCursor → Bool × Option ReviewCursor
unfolding cas
advance_cursor head now = cas (λ c. holds c.pending_sha head) (delivered_row head now)

unfoldable pub skip_to : ℕ → ℕ → Option ReviewCursor → Bool × Option ReviewCursor
unfolding cas
skip_to head now = cas (λ c. not (c.reviewed_sha == head)) (delivered_row head now)

unfoldable pub mark_blocked : ℕ → ℕ → ℕ → Option ReviewCursor → Bool × Option ReviewCursor
unfolding cas
mark_blocked head max_attempts now =
    cas (λ c. holds c.pending_sha head && (leb max_attempts c.attempts && is_dispatching c.state))
      (λ c. record c { state = blocked; updated_at = now })

-- One call of a verb on the row, with the instant at which it runs.
pub data Call : Type 0 where
  seeds advances skips : ℕ → Call
  claims : ℕ → ℕ → Call
  releases forgives : ℕ → Call
  blocks : ℕ → ℕ → Call

unfoldable pub call : ℕ → Call → Option ReviewCursor → Bool × Option ReviewCursor
unfolding upsert_baseline claim_dispatch release_dispatch forgive_transient advance_cursor skip_to
    mark_blocked
call now (seeds head) = upsert_baseline head now
call now (claims head stale_before) = claim_dispatch head stale_before now
call now (releases head) = release_dispatch head
call now (forgives head) = forgive_transient head
call now (advances head) = advance_cursor head now
call now (skips head) = skip_to head now
call now (blocks head max_attempts) = mark_blocked head max_attempts now

unfoldable pub run : List (ℕ × Call) → Option ReviewCursor → Option ReviewCursor
run [] row = row
run ((now, c) ∷ cs) row = run cs (call now c row).1
