-- ===== src/Controller/Steps/Refine.antt =====
-- process_repo of src/runtime/controller.py only makes moves of the abstract machine.
use myndaix_runtime.Prelude.{
  ℕ, ◌-◌, ◌≡◌, refl, sym, ◌∙◌, ap, subst, Bool, true, false, not, ◌&&◌, Option, none, some, ◌∷◌,
  mem, holds, ◌||◌, ◌==◌, if◌then◌else◌, arith,
}
use myndaix_runtime.Cursor.Review.{
  ReviewCursor, dispatching, is_dispatching, is_blocked, forgive_transient,
}
use myndaix_runtime.Controller.Target.{Target, Mode, dispatch, advance, defer, choose_review_target}
use myndaix_runtime.Controller.Site.{
  Settings, Outside, Site, Flow, stopped, going, after, Alert, Ran, zero_exit, nonzero_exit, raised,
  Part, in_decision, defer_reset, consume_marker, written, removed, alert_jefe, bump_transient,
  try_forgive_transient, forgiven, remote_ok,
}
use myndaix_runtime.Controller.Repo.{
  advance_pass, transient_pass, observe, on_defer, advance_past, within_budgets, rescued,
  at_ceiling, dispatch_target, defer_ended, on_target, on_diff, decide_row, decide_on, on_head,
  decide, process_repo,
}
use myndaix_runtime.Controller.Steps.{Steps, counts, here, ReviewedAt, IsChosen}
use myndaix_runtime.Controller.Steps.Passes.{
  Moves, one, chain, advance-Moves, forgive-Moves, transient-Moves,
}
use myndaix_runtime.Controller.Steps.Stages.{
  seed-Moves, empty-Moves, defer-Moves, past-Moves, budget-Moves, block-Moves,
}

forgive_reviewed :
    (sha base : ℕ) (row : Option ReviewCursor)
    → ReviewedAt row base
    → ReviewedAt (forgive_transient sha row).1 base
unfolding forgive_transient
forgive_reviewed sha base row (cur, e, r) =
    rw e (go (holds cur.pending_sha sha && (is_dispatching cur.state || is_blocked cur.state)))
  where
    freed : ReviewCursor
    freed = record cur { updated_at = 0; attempts = cur.attempts - 1; state = dispatching }

    go :
        (b : Bool)
        → ReviewedAt
            (if◌then◌else◌ {A = Bool × Option ReviewCursor} b
              (true, some freed)
              (false, some cur)).1
            base
    go true = (freed, refl, r)
    go false = (cur, refl, r)

module _ (c : Settings) (o : Outside) where
  alert_row : (part : Part) (a : Alert) (s : Site) → (alert_jefe o part a s).1.row ≡ s.row
  unfolding alert_jefe
  alert_row part a s = ground arith

  bump_row : (part : Part) (s : Site) → (bump_transient c o part s).row ≡ s.row
  unfolding bump_transient
  bump_row part s = ground arith

  consume_reviewed :
      (part : Part) (sha base : ℕ) (s : Site)
      → ReviewedAt s.row base
      → ReviewedAt (consume_marker c o part sha s).1.row base
  unfolding consume_marker
  consume_reviewed part sha base s h = go (mem sha s.transient) (o.unlinks part sha)
    where
      s' : Site
      s' = record s { transient = removed sha s.transient }

      row_reviewed :
          (r : Bool × Option ReviewCursor)
          → r ≡ forgive_transient sha s.row
          → ReviewedAt (forgiven c o part s' r).1.row base
      row_reviewed (true, row) e =
          subst (λ x. ReviewedAt x base)
            (sym (bump_row part (record s' { row = row }) ∙ ap (λ r. r.1) e))
            (forgive_reviewed sha base s.row h)
      row_reviewed (false, row) e =
          subst (λ x. ReviewedAt x base) (sym (ap (λ r. r.1) e)) (forgive_reviewed sha base s.row h)

      go :
          (b u : Bool)
          → ReviewedAt
              (if◌then◌else◌ {A = Bool × Site}
                (not b)
                (false, s)
                (if◌then◌else◌ {A = Bool × Site}
                  (not u)
                  (false, s)
                  (forgiven c o part s' (forgive_transient sha s.row)))).1.row
              base
      go false u = h
      go true false = h
      go true true = row_reviewed (forgive_transient sha s.row) refl

  rescue_reviewed :
      (part : Part) (sha base : ℕ) (s : Site)
      → ReviewedAt s.row base
      → ReviewedAt (try_forgive_transient c o part sha s).1.row base
  unfolding try_forgive_transient
  rescue_reviewed part sha base s h = go (o.transient_since part sha)
    where
      go :
          (b : Bool)
          → ReviewedAt
              (consume_marker c o part sha
                (if b then record s { transient = sha ∷ s.transient } else s)).1.row
              base
      go true = consume_reviewed part sha base (record s { transient = sha ∷ s.transient }) h
      go false = consume_reviewed part sha base s h

  dispatch-Moves :
      (cur : ReviewCursor) (sha : ℕ) (s : Site)
      → s.row ≡ some cur
      → IsChosen c o cur.reviewed_sha sha
      → Moves c o s (dispatch_target c o cur sha s)
  unfolding dispatch_target
  dispatch-Moves cur sha s e i = go (at_ceiling c o cur sha)
    where
      rescue :
          (r : Bool × Site)
          → Moves c o s r.1
          → ReviewedAt r.1.row cur.reviewed_sha
          → Moves c o s (rescued c o cur.reviewed_sha sha r)
      rescue (true, t) m h = chain m (budget-Moves c o cur.reviewed_sha sha t h i)
      rescue (false, t) m h = chain m (block-Moves c o sha t)

      go :
          (b : Bool)
          → Moves c o s (
              if b
              then rescued c o cur.reviewed_sha sha (try_forgive_transient c o in_decision sha s)
              else within_budgets c o cur.reviewed_sha sha s)
      go true =
          rescue (try_forgive_transient c o in_decision sha s) (forgive-Moves c o in_decision sha s)
            (rescue_reviewed in_decision sha cur.reviewed_sha s (cur, e, refl))
      go false = budget-Moves c o cur.reviewed_sha sha s (cur, e, refl) i

  ended-Moves : (s : Site) → Moves c o s (defer_ended c o s)
  ended-Moves s = one (counts s s.streak (written o defer_reset 0 s.defer_streak))

  target-Moves :
      (cur : ReviewCursor) (head : ℕ) (s : Site)
      → o.head ≡ some head
      → s.row ≡ some cur
      → Moves c o s
          (on_target c o cur (choose_review_target (o.sizing cur.reviewed_sha) c.limits head) s)
  unfolding on_target
  target-Moves cur head s h e = go t.mode refl
    where
      t : Target
      t = choose_review_target (o.sizing cur.reviewed_sha) c.limits head

      go :
          (m : Mode)
          → t.mode ≡ m
          → Moves c o s (elim m [
            | defer ↦ on_defer c o t.sha s
            | advance ↦ advance_past c o t (defer_ended c o s)
            | dispatch ↦ dispatch_target c o cur t.sha (defer_ended c o s)
          ])
      go defer k = defer-Moves c o t.sha s
      go advance k =
          chain (ended-Moves s)
            (past-Moves c o cur.reviewed_sha head (defer_ended c o s) h (cur, e, refl) k)
      go dispatch k =
          chain (ended-Moves s) (dispatch-Moves cur t.sha (defer_ended c o s) e (head, h, k, refl))

  row-Moves :
      (cur : ReviewCursor) (head : ℕ) (s : Site)
      → o.head ≡ some head
      → s.row ≡ some cur
      → Moves c o s (decide_row c o cur head s)
  unfolding decide_row
  row-Moves cur head s h e =
      go (head == cur.reviewed_sha) (not (o.has_commit head && o.has_commit cur.reviewed_sha))
    where
      on_ran :
          (r : Ran) → o.no_diff cur.reviewed_sha head ≡ r → Moves c o s (on_diff c o cur head s r)
      on_ran zero_exit d = empty-Moves c o cur.reviewed_sha head s (cur, e, refl) d
      on_ran nonzero_exit d = target-Moves cur head s h e
      on_ran raised d = here s

      go :
          (a b : Bool)
          → Moves c o s (
              if a
              then s
              else if b
              then s
              else on_diff c o cur head s (o.no_diff cur.reviewed_sha head))
      go true b = here s
      go false true = here s
      go false false = on_ran (o.no_diff cur.reviewed_sha head) refl

  decide-Moves : (s : Site) → Moves c o s (decide c o s)
  unfolding decide observe
  decide-Moves s = seen (remote_ok o.remote && o.fetched)
    where
      on_row :
          (head : ℕ) (r : Option ReviewCursor)
          → o.head ≡ some head
          → s.row ≡ r
          → Moves c o s (decide_on c o r head s)
      on_row head none h e = seed-Moves c o head s e
      on_row head (some cur) h e = row-Moves cur head s h e

      go : (h : Option ℕ) → o.head ≡ h → Moves c o s (on_head c o h s)
      go none e = here s
      go (some head) e = on_row head s.row e refl

      seen : (b : Bool) → Moves c o s (on_head c o (if b then o.head else none) s)
      seen true = go o.head refl
      seen false = here s

  -- Whatever git, the files and the worker's markers answer, what process_repo does to a
  -- repository is a chain of permitted moves: an attempt is given back only for a marker that
  -- could be consumed; the reviewed sha moves onto a commit that has a done marker, or onto one
  -- with an empty diff, or past one that the chooser gave up and, if it is oversized, only with
  -- the alert about it written to the inbox just before; the commit is pinned first; and a review
  -- is started only in a real run, within both budgets, on what the chooser dispatches from the
  -- reviewed sha, with the claim won.
  pub process_repo_moves : (s : Site) → Steps c o s (process_repo c o s)
  unfolding process_repo
  process_repo_moves s = go (advance_pass c o s) (advance-Moves c o s)
    where
      rest : (t : Site) → Moves c o t (decide c o (transient_pass c o t))
      rest t = chain (transient-Moves c o t) (decide-Moves (transient_pass c o t))

      go :
          (f : Flow)
          → Moves c o s (after f (λ s. s))
          → Moves c o s (after f (λ s. decide c o (transient_pass c o s)))
      go (stopped t) m = m
      go (going t) m = chain m (rest t)
