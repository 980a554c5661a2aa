-- ===== src/Controller/Steps.antt =====
-- The moves that the controller may make on a repository, each with the facts that permit it: an
-- abstract machine for process_repo of src/runtime/controller.py.
pub mod Passes
pub mod Stages
pub mod Refine
pub mod Laws
use myndaix_runtime.Prelude.{
  ℕ, ◌+◌, ◌-◌, ◌<◌, ◌≡◌, ◌⊎◌, Bool, true, false, Option, none, some, List, [], ◌∷◌, mem,
}
use myndaix_runtime.Cursor.Review.{
  ReviewCursor, upsert_baseline, claim_dispatch, release_dispatch, forgive_transient,
  advance_cursor, skip_to, mark_blocked,
}
use myndaix_runtime.Controller.Target.{Target, dispatch, advance, choose_review_target}
use myndaix_runtime.Controller.Site.{
  Settings, Outside, Site, Alert, too_large, zero_exit, Part, in_decision, day_gate, day_charge,
  advance_pin, reviewed_pin, pending_pin, advancing, seeding, skipping, blocking, claiming,
  read_count, written, removed, trigger_review,
}
use myndaix_runtime.Controller.Repo.{oversized}

-- A row whose reviewed sha is `base`.
abbrev pub ReviewedAt : Option ReviewCursor → ℕ → Type 0
ReviewedAt row base = (cur : ReviewCursor) × (row ≡ some cur) × (cur.reviewed_sha ≡ base)

module _ (c : Settings) (o : Outside) where
  abbrev pub target_of : ℕ → ℕ → Target
  target_of base head = choose_review_target (o.sizing base) c.limits head

  -- The commit is what the chooser says to dispatch from `base`.
  abbrev pub IsChosen : ℕ → ℕ → Type 0
  IsChosen base sha =
      (head : ℕ) × (o.head ≡ some head)
      × ((target_of base head).mode ≡ dispatch)
      × ((target_of base head).sha ≡ sha)

  -- Why a commit may be passed without a review: its diff is empty, or the chooser gave it up, and
  -- then its size is within the budgets or the alert about it could be written and is the last in
  -- the inbox.
  abbrev pub MayPass : ℕ → ℕ → List Alert → Type 0
  MayPass base sha alerts =
      (o.no_diff base sha ≡ zero_exit)
      ⊎ ((head : ℕ) × (o.head ≡ some head)
          × ((target_of base head).mode ≡ advance)
          × ((target_of base head).sha ≡ sha)
          × ((oversized c o (target_of base head) ≡ false)
              ⊎ ((rest : List Alert) × (alerts ≡ too_large sha ∷ rest)
                  × (o.alert_writes in_decision (too_large sha) ≡ true))))

  pub data Step : Site → Site → Type 0 where
    -- the counters of failures
    counts :
        (s : Site) (streak defer_streak : ℕ)
        → Step s (record s { streak = streak; defer_streak = defer_streak })
    -- an alert that could be written
    alerts :
        (s : Site) (part : Part) (a : Alert)
        → o.alert_writes part a ≡ true
        → Step s (record s { alerts = a ∷ s.alerts })
    -- a marker that the worker has written since the tick began
    transient_lands :
        (s : Site) (part : Part) (sha : ℕ)
        → o.transient_since part sha ≡ true
        → Step s (record s { transient = sha ∷ s.transient })
    done_lands :
        (s : Site) (sha : ℕ) → o.done_since sha ≡ true → Step s (record s { done = sha ∷ s.done })
    -- a delivered review
    delivers :
        (s : Site) (ps streak : ℕ) (row : Option ReviewCursor)
        → row ≡ (advance_cursor ps (o.now advancing) s.row).1
        → mem ps s.done ≡ true
        → o.pin advance_pin ps ≡ zero_exit
        → Step s (record s { reviewed_ref = some ps; row = row; streak = streak })
    -- a transient failure, for which a marker was there and could be consumed
    forgives :
        (s : Site) (part : Part) (sha : ℕ) (row : Option ReviewCursor)
        → row ≡ (forgive_transient sha s.row).1
        → mem sha s.transient ≡ true
        → o.unlinks part sha ≡ true
        → Step s (record s { transient = removed sha s.transient; row = row })
    -- first sight
    seeds :
        (s : Site) (head : ℕ) (row : Option ReviewCursor)
        → row ≡ (upsert_baseline head (o.now seeding) s.row).1
        → c.dry_run ≡ false
        → s.row ≡ none
        → o.pin reviewed_pin head ≡ zero_exit
        → Step s (record s { reviewed_ref = some head; row = row })
    -- a commit that is passed without a review
    passes :
        (s : Site) (base sha : ℕ) (row : Option ReviewCursor)
        → row ≡ (skip_to sha (o.now skipping) s.row).1
        → c.dry_run ≡ false
        → ReviewedAt s.row base
        → MayPass base sha s.alerts
        → o.pin reviewed_pin sha ≡ zero_exit
        → Step s (record s { reviewed_ref = some sha; row = row })
    -- the ceiling
    blocks :
        (s : Site) (sha : ℕ) (row : Option ReviewCursor)
        → row ≡ (mark_blocked sha c.max_attempts (o.now blocking) s.row).1
        → Step s (record s { row = row })
    -- a claim that starts no review, released or, where git raised, left as it is
    fails_to_start :
        (s : Site) (sha : ℕ) (row row' : Option ReviewCursor) (ref : Option ℕ)
        → c.dry_run ≡ false
        → claim_dispatch sha (o.clock - c.pending_stale) (o.now claiming) s.row ≡ (true, row)
        → (row' ≡ row) ⊎ (row' ≡ (release_dispatch sha row).1)
        → Step s (record s { row = row'; pending_ref = ref })
    -- a claim, pinned, and the review of the range
    starts :
        (s : Site) (base sha : ℕ) (row : Option ReviewCursor)
        → c.dry_run ≡ false
        → s.budget < c.max_dispatch_per_tick
        → read_count o day_gate s.day < c.max_dispatch_per_day
        → ReviewedAt s.row base
        → IsChosen base sha
        → claim_dispatch sha (o.clock - c.pending_stale) (o.now claiming) s.row ≡ (true, row)
        → o.pin pending_pin sha ≡ zero_exit
        → trigger_review c o ≡ true
        → Step s (record s {
          row = row;
          pending_ref = some sha;
          budget = s.budget + 1;
          triggered = (base, sha) ∷ s.triggered;
          day = written o day_charge (read_count o day_charge s.day + 1) s.day;
        })

  pub data Steps : Site → Site → Type 0 where
    here : (s : Site) → Steps s s
    next : {s t u : Site} → Step s t → Steps t u → Steps s u
