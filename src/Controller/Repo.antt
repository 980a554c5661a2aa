-- ===== src/Controller/Repo.antt =====
-- process_repo of src/runtime/controller.py, stage by stage. The skill indexer that runs between the
-- fetch and the decision works on other files and tables, and what it raises is swallowed there.
use myndaix_runtime.Prelude.{
  ℕ, ◌+◌, ◌-◌, Bool, true, false, not, ◌&&◌, ◌||◌, Option, none, some, ◌∷◌, leb, ltb, ◌==◌, holds,
  if◌then◌else◌, mem,
}
use myndaix_runtime.Cursor.Review.{
  ReviewCursor, is_blocked, upsert_baseline, claim_dispatch, release_dispatch, advance_cursor,
  skip_to, mark_blocked,
}
use myndaix_runtime.Controller.Target.{Target, dispatch, advance, defer, choose_review_target}
use myndaix_runtime.Controller.Site.{
  Settings, Outside, Site, Flow, stopped, going, after, stalled, too_large, blocked_after, Ran,
  zero_exit, nonzero_exit, raised, advance_pin, reviewed_pin, pending_pin, in_passes, in_decision,
  streak_reset, defer_bump, defer_reset, day_gate, day_charge, done_landed, advancing, seeding,
  skipping, blocking, claiming, read_count, written, alert_jefe, try_forgive_transient, remote_ok,
  trigger_review,
}

module _ (c : Settings) (o : Outside) where
  -- A delivered review moves the cursor, and a success ends the streak.
  abbrev pub delivered : ℕ → Site → Bool × Option ReviewCursor → Site
  delivered ps s (true, row) = record s {
    reviewed_ref = some ps;
    row = row;
    streak = written o streak_reset 0 s.streak;
  }
  delivered ps s (false, row) = record s { reviewed_ref = some ps; row = row }

  abbrev pub pinned_advance : ℕ → Site → Ran → Flow
  pinned_advance ps s zero_exit = going (delivered ps s (advance_cursor ps (o.now advancing) s.row))
  pinned_advance ps s nonzero_exit = going s
  pinned_advance ps s raised = stopped s

  abbrev pub advance_pending : Option ℕ → Site → Flow
  advance_pending none s = going s
  advance_pending (some ps) s =
      if mem ps s.done then pinned_advance ps s (o.pin advance_pin ps) else going s

  abbrev pub pending_of : Option ReviewCursor → Option ℕ
  pending_of none = none
  pending_of (some cur) = cur.pending_sha

  unfoldable pub advance_pass : Site → Flow
  advance_pass s = advance_pending (pending_of s.row) s

  abbrev pub forgive_pending : Option ℕ → Site → Site
  forgive_pending none s = s
  forgive_pending (some ps) s =
      let s' = done_landed o ps s in
      if mem ps s'.done then s' else (try_forgive_transient c o in_passes ps s').1

  unfoldable pub transient_pass : Site → Site
  transient_pass s = forgive_pending (pending_of s.row) s

  unfoldable pub observe : Option ℕ
  observe = if remote_ok o.remote && o.fetched then o.head else none

  -- First sight: the head is the baseline and is not reviewed.
  abbrev pub pinned_seed : ℕ → Site → Ran → Site
  pinned_seed head s zero_exit = record s {
    reviewed_ref = some head;
    row = (upsert_baseline head (o.now seeding) s.row).1;
  }
  pinned_seed head s nonzero_exit = s
  pinned_seed head s raised = s

  unfoldable pub seed : ℕ → Site → Site
  seed head s = if c.dry_run then s else pinned_seed head s (o.pin reviewed_pin head)

  -- skip_to on a pinned commit.
  abbrev pub pinned_skip : ℕ → Site → Ran → Site
  pinned_skip sha s zero_exit = record s {
    reviewed_ref = some sha;
    row = (skip_to sha (o.now skipping) s.row).1;
  }
  pinned_skip sha s nonzero_exit = s
  pinned_skip sha s raised = s

  unfoldable pub skip_pinned : ℕ → Site → Site
  skip_pinned sha s = pinned_skip sha s (o.pin reviewed_pin sha)

  unfoldable pub skip_empty : ℕ → Site → Site
  unfolding skip_pinned
  skip_empty head s = if c.dry_run then s else skip_pinned head s

  unfoldable pub on_defer : ℕ → Site → Site
  unfolding alert_jefe
  on_defer sha s =
      let n = read_count o defer_bump s.defer_streak + 1 in
      let s' = record s { defer_streak = written o defer_bump n s.defer_streak } in
      if n == c.defer_alert_streak && not c.dry_run
      then (alert_jefe o in_decision (stalled sha) s').1
      else s'

  abbrev pub over : ℕ → Option ℕ → Bool
  over budget none = false
  over budget (some n) = ltb budget n

  abbrev pub is_unknown : Option ℕ → Bool
  is_unknown none = true
  is_unknown (some n) = false

  unfoldable pub oversized : Target → Bool
  oversized t =
      over c.limits.max_lines t.lines || (over c.limits.max_bytes t.bytes || is_unknown t.bytes)

  -- The flag first: without it the cursor does not move.
  abbrev pub flagged : ℕ → Bool × Site → Site
  flagged sha (true, s) = skip_pinned sha s
  flagged sha (false, s) = s

  unfoldable pub advance_past : Target → Site → Site
  unfolding oversized alert_jefe skip_pinned
  advance_past t s =
      if c.dry_run
      then s
      else if oversized t
      then flagged t.sha (alert_jefe o in_decision (too_large t.sha) s)
      else skip_pinned t.sha s

  unfoldable pub day_count : Site → ℕ
  day_count s = read_count o day_gate s.day

  unfoldable pub charge_day : Site → Site
  charge_day s = record s { day = written o day_charge (read_count o day_charge s.day + 1) s.day }

  abbrev pub released : ℕ → Site → Site
  released sha s = record s { row = (release_dispatch sha s.row).1 }

  abbrev pub pinned_dispatch : ℕ → ℕ → Site → Ran → Site
  pinned_dispatch base sha s zero_exit =
      let s' = record s { pending_ref = some sha } in
      if trigger_review c o
      then charge_day (record s' { budget = s'.budget + 1; triggered = (base, sha) ∷ s'.triggered })
      else released sha s'
  pinned_dispatch base sha s nonzero_exit = released sha s
  pinned_dispatch base sha s raised = s

  abbrev pub claimed : ℕ → ℕ → Site → Bool × Option ReviewCursor → Site
  claimed base sha s (true, row) =
      pinned_dispatch base sha (record s { row = row }) (o.pin pending_pin sha)
  claimed base sha s (false, row) = record s { row = row }

  unfoldable pub claim_and_trigger : ℕ → ℕ → Site → Site
  unfolding charge_day
  claim_and_trigger base sha s =
      claimed base sha s (claim_dispatch sha (o.clock - c.pending_stale) (o.now claiming) s.row)

  unfoldable pub within_budgets : ℕ → ℕ → Site → Site
  unfolding day_count claim_and_trigger
  within_budgets base sha s =
      if leb c.max_dispatch_per_tick s.budget
      then s
      else if not c.dry_run && leb c.max_dispatch_per_day (day_count s)
      then s
      else if c.dry_run
      then s
      else claim_and_trigger base sha s

  abbrev pub marked : ℕ → Site → Bool × Option ReviewCursor → Site
  marked sha s (true, row) =
      if not c.dry_run
      then (alert_jefe o in_decision (blocked_after sha) (record s { row = row })).1
      else record s { row = row }
  marked sha s (false, row) = record s { row = row }

  unfoldable pub block_target : ℕ → Site → Site
  unfolding alert_jefe
  block_target sha s = marked sha s (mark_blocked sha c.max_attempts (o.now blocking) s.row)

  -- A marker that came after the transient pass is consumed here instead of blocking.
  abbrev pub rescued : ℕ → ℕ → Bool × Site → Site
  rescued base sha (true, s) = within_budgets base sha s
  rescued base sha (false, s) = block_target sha s

  abbrev pub at_ceiling : ReviewCursor → ℕ → Bool
  at_ceiling cur sha =
      holds cur.pending_sha sha && (leb c.max_attempts cur.attempts && not (is_blocked cur.state))

  unfoldable pub dispatch_target : ReviewCursor → ℕ → Site → Site
  unfolding within_budgets block_target
  dispatch_target cur sha s =
      if at_ceiling cur sha
      then rescued cur.reviewed_sha sha (try_forgive_transient c o in_decision sha s)
      else within_budgets cur.reviewed_sha sha s

  abbrev pub defer_ended : Site → Site
  defer_ended s = record s { defer_streak = written o defer_reset 0 s.defer_streak }

  unfoldable pub on_target : ReviewCursor → Target → Site → Site
  unfolding on_defer advance_past dispatch_target
  on_target cur t s = elim t.mode [
    | defer ↦ on_defer t.sha s
    | advance ↦ advance_past t (defer_ended s)
    | dispatch ↦ dispatch_target cur t.sha (defer_ended s)
  ]

  abbrev pub on_diff : ReviewCursor → ℕ → Site → Ran → Site
  on_diff cur head s zero_exit = skip_empty head s
  on_diff cur head s nonzero_exit =
      on_target cur (choose_review_target (o.sizing cur.reviewed_sha) c.limits head) s
  on_diff cur head s raised = s

  unfoldable pub decide_row : ReviewCursor → ℕ → Site → Site
  unfolding skip_empty on_target
  decide_row cur head s =
      if head == cur.reviewed_sha
      then s
      else if not (o.has_commit head && o.has_commit cur.reviewed_sha)
      then s
      else on_diff cur head s (o.no_diff cur.reviewed_sha head)

  abbrev pub decide_on : Option ReviewCursor → ℕ → Site → Site
  decide_on none head s = seed head s
  decide_on (some cur) head s = decide_row cur head s

  abbrev pub on_head : Option ℕ → Site → Site
  on_head none s = s
  on_head (some head) s = decide_on s.row head s

  unfoldable pub decide : Site → Site
  unfolding seed decide_row observe
  decide s = on_head observe s

  unfoldable pub process_repo : Site → Site
  unfolding advance_pass transient_pass decide
  process_repo s = after (advance_pass s) (λ s. decide (transient_pass s))
