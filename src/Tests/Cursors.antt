-- ===== src/Tests/Cursors.antt =====
-- The theorems on the review cursor, the inbox cursor and the capture candidates at concrete rows.
use myndaix_runtime.Prelude.{◌≡◌, refl, false, none, some, arith}
use myndaix_runtime.Cursor.Row.{cas}
use myndaix_runtime.Cursor.Review.{
  ReviewCursor, dispatching, blocked, baseline, claim_dispatch, may_claim, claimed_row,
}
use myndaix_runtime.Cursor.Review.Gate.{claim_shuts_gate}
use myndaix_runtime.Cursor.Inbox.{
  InboxCursor, active, mark_error, read, inbox_advance_cursor, inbox_mark_cursor_error,
}
use myndaix_runtime.Cursor.Inbox.Races.{slow_tick_loses}

-- A row that was reviewed at 1, with head 2 in flight since instant 50.
abbrev in_flight : ReviewCursor
in_flight = record {
  baseline_sha = 1;
  reviewed_sha = 1;
  pending_sha = some 2;
  state = dispatching;
  attempts = 1;
  updated_at = 50;
}

abbrev idle : ReviewCursor
idle = record in_flight { pending_sha = none; state = baseline; attempts = 0; updated_at = 10 }

abbrev stuck : ReviewCursor
stuck = record in_flight { state = blocked; attempts = 3 }

claim_shuts_gate_example : claim_dispatch 3 40 60 (some in_flight) ≡ (false, some in_flight)
unfolding claim_dispatch cas may_claim claimed_row
claim_shuts_gate_example =
    claim_shuts_gate 2 3 20 50 60 40 (some idle) (some in_flight) refl (omega arith)

-- An account at history id 7, and the row of a tick that advanced it to 8.
abbrev at_7 : InboxCursor
at_7 = record { history_id = some 7; state = active; attempts = 0; updated_at = 5 }

abbrev at_8 : InboxCursor
at_8 = record at_7 { history_id = some 8; updated_at = 6 }

slow_tick_loses_example :
    (inbox_advance_cursor 9 (some 7) 10 (some at_8) ≡ (false, some at_8))
    × (inbox_mark_cursor_error mark_error (read 7) 10 (some at_8) ≡ (false, some at_8))
unfolding inbox_advance_cursor cas
slow_tick_loses_example =
    slow_tick_loses 7 8 9 6 10 mark_error (some at_7) (some at_8) refl
      (λ e. absurd (omega (arith, e)))
