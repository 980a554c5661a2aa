-- ===== src/Controller/Site.antt =====
-- What one tick of src/runtime/controller.py reads and writes for a repository, and what the world
-- answers: git, the file system, the worker's markers. Every file is the state of this repository's
-- (repo_id, ref); a commit is a number and an absent counter file is 0.
use myndaix_runtime.Prelude.{
  ℕ, ◌+◌, Bool, true, false, not, ◌&&◌, ◌||◌, Option, none, some, List, [], ◌∷◌, ◌==◌,
  if◌then◌else◌, mem,
}
use myndaix_runtime.Prelude.Texts.{codes, starts_with}
use myndaix_runtime.Contracts.{Text}
use myndaix_runtime.Cursor.Review.{ReviewCursor, forgive_transient}
use myndaix_runtime.Controller.Target.{Sizing, Limits}

-- The module-level settings.
pub record Settings : Type 0 where
  pub dry_run : Bool
  pub test_mode : Bool
  pub override : Bool
  pub max_dispatch_per_tick : ℕ
  pub max_dispatch_per_day : ℕ
  pub max_attempts : ℕ
  pub transient_alert_streak : ℕ
  pub defer_alert_streak : ℕ
  pub pending_stale : ℕ
  pub limits : Limits

-- An alert in the inbox, by its subject.
pub data Alert : Type 0 where
  canary_failures : Alert
  stalled too_large blocked_after : ℕ → Alert

-- A run of git: its exit code, or an exception that leaves process_repo.
pub data Ran : Type 0 where
  zero_exit nonzero_exit raised : Ran

-- The part of process_repo that looks at a marker or writes an alert: the passes over the pending
-- head, or the decision.
pub data Part : Type 0 where
  in_passes in_decision : Part

-- Each use that process_repo makes of a counter file.
pub data FileUse : Type 0 where
  streak_bump : Part → FileUse
  streak_reset defer_bump defer_reset day_gate day_charge : FileUse

-- The anchor of a delivered review, of a commit that is seeded or passed, and of a dispatch.
pub data PinRef : Type 0 where
  advance_pin reviewed_pin pending_pin : PinRef

-- The ledger's calls that stamp a row.
pub data Stamp : Type 0 where
  advancing seeding skipping blocking claiming : Stamp

-- lstat of play-review.sh
pub record Script : Type 0 where
  pub is_link : Bool
  pub is_regular : Bool
  pub is_ours : Bool
  pub others_write : Bool
  pub executable : Bool

-- What the world answers in one tick. `head` is the fetched head, if it is a well-formed sha; `front`
-- is the exit code of play-review.sh, none where it timed out or could not be started.
pub record Outside : Type 0 where
  pub remote : Option Text
  pub fetched : Bool
  pub head : Option ℕ
  pub has_commit : ℕ → Bool
  pub no_diff : ℕ → ℕ → Ran
  pub sizing : ℕ → Sizing
  pub pin : PinRef → ℕ → Ran
  pub done_since : ℕ → Bool
  pub transient_since : Part → ℕ → Bool
  pub unlinks : Part → ℕ → Bool
  pub state_reads : FileUse → Bool
  pub state_writes : FileUse → Bool
  pub alert_writes : Part → Alert → Bool
  pub script : Option Script
  pub front : Option ℕ
  pub now : Stamp → ℕ
  pub clock : ℕ

-- The cursor's row, the worker's markers, the streak files, the inbox, the pinned refs, the reviews
-- that were started, the counter of the day and the dispatches of this tick.
pub record Site : Type 0 where
  pub row : Option ReviewCursor
  pub done : List ℕ
  pub transient : List ℕ
  pub streak : ℕ
  pub defer_streak : ℕ
  pub alerts : List Alert
  pub reviewed_ref : Option ℕ
  pub pending_ref : Option ℕ
  pub triggered : List (ℕ × ℕ)
  pub day : ℕ
  pub budget : ℕ

-- A stage of process_repo returns early or raises, or goes on.
pub data Flow : Type 0 where
  stopped going : Site → Flow

abbrev pub after : Flow → (Site → Site) → Site
after (stopped s) f = s
after (going s) f = f s

-- A counter file that cannot be read counts as 0, and one that cannot be written stays.
abbrev pub read_count : Outside → FileUse → ℕ → ℕ
read_count o u n = if o.state_reads u then n else 0

abbrev pub written : Outside → FileUse → ℕ → ℕ → ℕ
written o u n old = if o.state_writes u then n else old

-- _alert_jefe
unfoldable pub alert_jefe : Outside → Part → Alert → Site → Bool × Site
alert_jefe o part a s =
    if o.alert_writes part a then (true, record s { alerts = a ∷ s.alerts }) else (false, s)

unfoldable pub removed : ℕ → List ℕ → List ℕ
removed k [] = []
removed k (x ∷ xs) = let rest = removed k xs in if x == k then rest else x ∷ rest

-- _bump_transient_streak and the alert at the threshold.
unfoldable pub bump_transient : Settings → Outside → Part → Site → Site
unfolding alert_jefe
bump_transient c o part s =
    let n = read_count o (streak_bump part) s.streak + 1 in
    let s' = record s { streak = written o (streak_bump part) n s.streak } in
    if n == c.transient_alert_streak then (alert_jefe o part canary_failures s').1 else s'

abbrev pub forgiven : Settings → Outside → Part → Site → Bool × Option ReviewCursor → Bool × Site
forgiven c o part s (true, row) = (true, bump_transient c o part (record s { row = row }))
forgiven c o part s (false, row) = (false, record s { row = row })

-- The worker may have written a marker since the tick began.
abbrev pub transient_landed : Outside → Part → ℕ → Site → Site
transient_landed o part sha s =
    if o.transient_since part sha then record s { transient = sha ∷ s.transient } else s

abbrev pub done_landed : Outside → ℕ → Site → Site
done_landed o sha s = if o.done_since sha then record s { done = sha ∷ s.done } else s

-- The marker is consumed first, so that it can forgive one dispatch only.
unfoldable pub consume_marker : Settings → Outside → Part → ℕ → Site → Bool × Site
unfolding bump_transient removed
consume_marker c o part sha s =
    if not (mem sha s.transient)
    then (false, s)
    else if not (o.unlinks part sha)
    then (false, s)
    else forgiven c o part (record s { transient = removed sha s.transient })
        (forgive_transient sha s.row)

unfoldable pub try_forgive_transient : Settings → Outside → Part → ℕ → Site → Bool × Site
unfolding consume_marker
try_forgive_transient c o part sha s = consume_marker c o part sha (transient_landed o part sha s)

-- "::" in url
unfoldable pub has_double_colon : Text → Bool
has_double_colon [] = false
has_double_colon (c ∷ []) = false
has_double_colon (c ∷ d ∷ s) = (c == 58 && d == 58) || has_double_colon (d ∷ s)

-- remote_url gives a url; the text is what `git config` printed, stripped.
unfoldable pub remote_ok : Option Text → Bool
unfolding has_double_colon starts_with
remote_ok none = false
remote_ok (some []) = false
remote_ok (some (c ∷ s)) =
    not (has_double_colon (c ∷ s))
    && (starts_with (codes "https://") (c ∷ s)
        || (starts_with (codes "ssh://") (c ∷ s)
            || (starts_with (codes "file://") (c ∷ s) || starts_with (codes "git@") (c ∷ s))))

unfoldable pub trusted_script : Option Script → Bool
trusted_script none = false
trusted_script (some p) =
    not p.is_link && (p.is_regular && (p.is_ours && (not p.others_write && p.executable)))

abbrev pub front_ok : Option ℕ → Bool
front_ok none = false
front_ok (some rc) = rc == 0

-- trigger_review: whether the review was started, or was recorded for a test.
unfoldable pub trigger_review : Settings → Outside → Bool
unfolding trusted_script
trigger_review c o =
    if c.test_mode && c.override
    then true
    else if c.override && not c.test_mode
    then false
    else trusted_script o.script && front_ok o.front
