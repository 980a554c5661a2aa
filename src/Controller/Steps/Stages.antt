-- ===== src/Controller/Steps/Stages.antt =====
-- The stages of process_repo in src/runtime/controller.py that act on a target only make moves.
use myndaix_runtime.Prelude.{
  ℕ, ◌+◌, ◌-◌, ◌<◌, ◌≡◌, refl, sym, ap, subst, inl, inr, Bool, true, false, not, ◌&&◌, Option, none,
  some, ◌∷◌, leb, ◌==◌, if◌then◌else◌, arith,
}
use myndaix_runtime.Cursor.Review.{ReviewCursor, claim_dispatch, mark_blocked}
use myndaix_runtime.Controller.Target.{Target, advance, choose_review_target}
use myndaix_runtime.Controller.Site.{
  Settings, Outside, Site, too_large, stalled, blocked_after, Ran, zero_exit, nonzero_exit, raised,
  in_decision, defer_bump, day_gate, reviewed_pin, pending_pin, blocking, claiming, read_count,
  written, alert_jefe, trigger_review,
}
use myndaix_runtime.Controller.Repo.{
  pinned_seed, seed, pinned_skip, skip_pinned, skip_empty, on_defer, oversized, flagged,
  advance_past, charge_day, day_count, released, pinned_dispatch, claimed, claim_and_trigger,
  within_budgets, marked, block_target,
}
use myndaix_runtime.Controller.Steps.{
  counts, alerts, seeds, passes, blocks, fails_to_start, starts, here, ReviewedAt, IsChosen,
  MayPass,
}
use myndaix_runtime.Controller.Steps.Passes.{Moves, one, chain, alert-Moves}

claim_lost :
    (sha stale now : ℕ) (row row' : Option ReviewCursor)
    → claim_dispatch sha stale now row ≡ (false, row')
    → row' ≡ row
unfolding claim_dispatch
claim_lost sha stale now none row' e = sym (ap (λ r. r.1) e)
claim_lost sha stale now (some v) row' e = ground arith

module _ (c : Settings) (o : Outside) where
  pub seed-Moves : (head : ℕ) (s : Site) → s.row ≡ none → Moves c o s (seed c o head s)
  unfolding seed
  seed-Moves head s n = go c.dry_run refl
    where
      pin :
          (r : Ran)
          → c.dry_run ≡ false
          → o.pin reviewed_pin head ≡ r
          → Moves c o s (pinned_seed c o head s r)
      pin zero_exit d e = one (seeds s head _ refl d n e)
      pin nonzero_exit d e = here s
      pin raised d e = here s

      go :
          (b : Bool)
          → c.dry_run ≡ b
          → Moves c o s (if b then s else pinned_seed c o head s (o.pin reviewed_pin head))
      go true d = here s
      go false d = pin (o.pin reviewed_pin head) d refl

  skip-Moves :
      (base sha : ℕ) (s : Site)
      → c.dry_run ≡ false
      → ReviewedAt s.row base
      → MayPass c o base sha s.alerts
      → Moves c o s (skip_pinned c o sha s)
  unfolding skip_pinned
  skip-Moves base sha s d r m = go (o.pin reviewed_pin sha) refl
    where
      go : (p : Ran) → o.pin reviewed_pin sha ≡ p → Moves c o s (pinned_skip c o sha s p)
      go zero_exit e = one (passes s base sha _ refl d r m e)
      go nonzero_exit e = here s
      go raised e = here s

  pub empty-Moves :
      (base head : ℕ) (s : Site)
      → ReviewedAt s.row base
      → o.no_diff base head ≡ zero_exit
      → Moves c o s (skip_empty c o head s)
  unfolding skip_empty
  empty-Moves base head s r z = go c.dry_run refl
    where
      go : (b : Bool) → c.dry_run ≡ b → Moves c o s (if b then s else skip_pinned c o head s)
      go true d = here s
      go false d = skip-Moves base head s d r (inl z)

  pub defer-Moves : (sha : ℕ) (s : Site) → Moves c o s (on_defer c o sha s)
  unfolding on_defer
  defer-Moves sha s =
      go (read_count o defer_bump s.defer_streak + 1 == c.defer_alert_streak && not c.dry_run)
    where
      n : ℕ
      n = written o defer_bump (read_count o defer_bump s.defer_streak + 1) s.defer_streak

      s' : Site
      s' = record s { defer_streak = n }

      noted : Moves c o s s'
      noted = one (counts s s.streak n)

      go :
          (b : Bool) → Moves c o s (if b then (alert_jefe o in_decision (stalled sha) s').1 else s')
      go true = chain noted (alert-Moves c o in_decision (stalled sha) s')
      go false = noted

  pub past-Moves :
      (base head : ℕ) (s : Site)
      → o.head ≡ some head
      → ReviewedAt s.row base
      → (choose_review_target (o.sizing base) c.limits head).mode ≡ advance
      → Moves c o s (advance_past c o (choose_review_target (o.sizing base) c.limits head) s)
  unfolding advance_past
  past-Moves base head s h r m = go c.dry_run (oversized c o t) refl refl
    where
      t : Target
      t = choose_review_target (o.sizing base) c.limits head

      flag :
          (b : Bool)
          → c.dry_run ≡ false
          → o.alert_writes in_decision (too_large t.sha) ≡ b
          → Moves c o s (
              flagged c o t.sha (
                if◌then◌else◌ {A = Bool × Site} b
                  (true, record s { alerts = too_large t.sha ∷ s.alerts })
                  (false, s)))
      flag true d w = chain (one (alerts s in_decision (too_large t.sha) w)) (
          skip-Moves base t.sha (record s { alerts = too_large t.sha ∷ s.alerts }) d r
            (inr (head, h, m, refl, inr (s.alerts, refl, w))))
      flag false d w = here s

      go :
          (d v : Bool)
          → c.dry_run ≡ d
          → oversized c o t ≡ v
          → Moves c o s (
              if d
              then s
              else if v
              then flagged c o t.sha (alert_jefe o in_decision (too_large t.sha) s)
              else skip_pinned c o t.sha s)
      go true v e z = here s
      go false true e z =
          unfold alert_jefe in flag (o.alert_writes in_decision (too_large t.sha)) e refl
      go false false e z = skip-Moves base t.sha s e r (inr (head, h, m, refl, inl z))

  claim-Moves :
      (base sha : ℕ) (s : Site)
      → c.dry_run ≡ false
      → s.budget < c.max_dispatch_per_tick
      → read_count o day_gate s.day < c.max_dispatch_per_day
      → ReviewedAt s.row base
      → IsChosen c o base sha
      → Moves c o s (claim_and_trigger c o base sha s)
  unfolding claim_and_trigger charge_day
  claim-Moves base sha s d b y r i =
      go (claim_dispatch sha (o.clock - c.pending_stale) (o.now claiming) s.row) refl
    where
      claim : Bool × Option ReviewCursor
      claim = claim_dispatch sha (o.clock - c.pending_stale) (o.now claiming) s.row

      fire :
          (row : Option ReviewCursor) (f : Bool)
          → trigger_review c o ≡ f
          → claim ≡ (true, row)
          → o.pin pending_pin sha ≡ zero_exit
          → Moves c o s (
              if f
              then charge_day c o (record s {
                row = row;
                pending_ref = some sha;
                budget = s.budget + 1;
                triggered = (base, sha) ∷ s.triggered;
              })
              else released c o sha (record s { row = row; pending_ref = some sha }))
      fire row true f e p = one (starts s base sha row d b y r i e p f)
      fire row false f e p = one (fails_to_start s sha row _ (some sha) d e (inr refl))

      pin :
          (row : Option ReviewCursor) (r : Ran)
          → o.pin pending_pin sha ≡ r
          → claim ≡ (true, row)
          → Moves c o s (pinned_dispatch c o base sha (record s { row = row }) r)
      pin row zero_exit p e = fire row (trigger_review c o) refl e p
      pin row nonzero_exit p e = one (fails_to_start s sha row _ s.pending_ref d e (inr refl))
      pin row raised p e = one (fails_to_start s sha row row s.pending_ref d e (inl refl))

      go : (r : Bool × Option ReviewCursor) → claim ≡ r → Moves c o s (claimed c o base sha s r)
      go (true, row) e = pin row (o.pin pending_pin sha) refl e
      go (false, row) e =
          subst (λ r. Moves c o s (record s { row = r })) (sym (claim_lost sha _ _ s.row row e))
            (here s)

  pub budget-Moves :
      (base sha : ℕ) (s : Site)
      → ReviewedAt s.row base
      → IsChosen c o base sha
      → Moves c o s (within_budgets c o base sha s)
  unfolding within_budgets day_count
  budget-Moves base sha s r i =
      go (leb c.max_dispatch_per_tick s.budget)
        (leb c.max_dispatch_per_day (read_count o day_gate s.day)) c.dry_run refl refl refl
    where
      go :
          (b y d : Bool)
          → leb c.max_dispatch_per_tick s.budget ≡ b
          → leb c.max_dispatch_per_day (read_count o day_gate s.day) ≡ y
          → c.dry_run ≡ d
          → Moves c o s (
              if b
              then s
              else if not d && y
              then s
              else if d
              then s
              else claim_and_trigger c o base sha s)
      go true y d p q e = here s
      go false true false p q e = here s
      go false y true p q e = here s
      go false false false p q e = claim-Moves base sha s e (ground arith) (ground arith) r i

  pub block-Moves : (sha : ℕ) (s : Site) → Moves c o s (block_target c o sha s)
  unfolding block_target
  block-Moves sha s = go (mark_blocked sha c.max_attempts (o.now blocking) s.row) refl
    where
      alerted :
          (row : Option ReviewCursor) (b : Bool)
          → Moves c o s (record s { row = row })
          → Moves c o s (
              if b
              then (alert_jefe o in_decision (blocked_after sha) (record s { row = row })).1
              else record s { row = row })
      alerted row true m =
          chain m (alert-Moves c o in_decision (blocked_after sha) (record s { row = row }))
      alerted row false m = m

      go :
          (r : Bool × Option ReviewCursor)
          → r ≡ mark_blocked sha c.max_attempts (o.now blocking) s.row
          → Moves c o s (marked c o sha s r)
      go (true, row) e = alerted row (not c.dry_run) (one (blocks s sha row (ap (λ r. r.1) e)))
      go (false, row) e = one (blocks s sha row (ap (λ r. r.1) e))
