-- ===== src/Cursor/Inbox/Races.antt =====
-- Ticks that race on one account's inbox cursor.
use myndaix_runtime.Prelude.{ℕ, ◌≡◌, ◌≢◌, true, false, Option, none, some, arith}
use myndaix_runtime.Cursor.Inbox.{
  InboxCursor, active, MarkState, read, no_row, inbox_advance_cursor, inbox_mark_cursor_error,
}

-- Of two ticks that read the same history id, the one that advances first to a new id makes the
-- other's advance and the other's error mark answer False and change nothing.
pub slow_tick_loses :
    (old new other now later : ℕ) (m : MarkState) (row row' : Option InboxCursor)
    → inbox_advance_cursor new (some old) now row ≡ (true, row')
    → new ≢ old
    → (inbox_advance_cursor other (some old) later row' ≡ (false, row'))
      × (inbox_mark_cursor_error m (read old) later row' ≡ (false, row'))
unfolding inbox_advance_cursor inbox_mark_cursor_error
slow_tick_loses old new other now later m none row' e n = (ground arith, ground arith)
slow_tick_loses old new other now later m (some c) row' e n = (ground arith, ground arith)

-- After a seed for an unseen account, a first tick's advance still finds its row and resets it,
-- whatever number of failed first ticks came before.
first_tick_heals :
    (new now later : ℕ) (m : MarkState) (c : InboxCursor)
    → c.history_id ≡ none
    → inbox_advance_cursor new none later (inbox_mark_cursor_error m no_row now (some c)).1 ≡ (
      true,
      some (record { history_id = some new; state = active; attempts = 0; updated_at = later }),
    )
unfolding inbox_advance_cursor inbox_mark_cursor_error
first_tick_heals new now later m c e = ground arith
