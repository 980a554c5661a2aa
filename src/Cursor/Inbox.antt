-- ===== src/Cursor/Inbox.antt =====
-- The inbox cursor of one account: inbox_get_cursor, inbox_advance_cursor and
-- inbox_mark_cursor_error of src/runtime/ledger/postgres_store.py.
pub mod Races
use myndaix_runtime.Prelude.{
  ℕ, ◌+◌, Bool, true, false, Option, none, some, same, is_none, if◌then◌else◌,
}
use myndaix_runtime.Cursor.Row.{cas}

pub data InboxState : Type 0 where
  active error stale : InboxState

-- The states that a failed tick may record; any other raises ValueError before the statement.
pub data MarkState : Type 0 where
  mark_error mark_stale : MarkState

abbrev pub marked : MarkState → InboxState
marked mark_error = error
marked mark_stale = stale

pub record InboxCursor : Type 0 where
  pub history_id : Option ℕ
  pub state : InboxState
  pub attempts : ℕ
  pub updated_at : ℕ

unfoldable inbox_get_cursor : Option InboxCursor → Option InboxCursor
inbox_get_cursor row = row

-- INSERT … ON CONFLICT (account_id) DO UPDATE … WHERE history_id IS NOT DISTINCT FROM expected. The
-- insert takes the table's defaults: active, no attempts.
unfoldable pub inbox_advance_cursor :
    ℕ → Option ℕ → ℕ → Option InboxCursor → Bool × Option InboxCursor
unfolding cas
inbox_advance_cursor history expected now none = (
  true,
  some (record { history_id = some history; state = active; attempts = 0; updated_at = now }),
)
inbox_advance_cursor history expected now (some c) =
    cas (λ c. same c.history_id expected)
      (λ c. record { history_id = some history; state = active; attempts = 0; updated_at = now })
      (some c)

-- What the failed tick read: nothing (_UNBOUND), no row, or a history id.
pub data Expected : Type 0 where
  unbound no_row : Expected
  read : ℕ → Expected

abbrev pub fail_row : MarkState → ℕ → InboxCursor → InboxCursor
fail_row state now c = record c {
  state = marked state;
  attempts = c.attempts + 1;
  updated_at = now;
}

unfoldable pub inbox_mark_cursor_error :
    MarkState → Expected → ℕ → Option InboxCursor → Bool × Option InboxCursor
unfolding cas
inbox_mark_cursor_error state unbound now row = cas (λ _. true) (fail_row state now) row
inbox_mark_cursor_error state no_row now none = (
  true,
  some (record { history_id = none; state = marked state; attempts = 1; updated_at = now }),
)
inbox_mark_cursor_error state no_row now (some c) =
    cas (λ c. is_none c.history_id) (fail_row state now) (some c)
inbox_mark_cursor_error state (read h) now row =
    cas (λ c. same c.history_id (some h)) (fail_row state now) row
