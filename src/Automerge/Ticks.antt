-- ===== src/Automerge/Ticks.antt =====
-- What the looks of the tick of src/runtime/automerge.py keep, and the merges that a tick makes.
use myndaix_runtime.Prelude.{
  ℕ, ◌+◌, ◌≤◌, ◌≡◌, refl, inl, inr, Bool, true, false, ◌&&◌, Option, none, some, List, [], ◌∷◌, leb,
  if◌then◌else◌, length, arith,
}
use myndaix_runtime.Contracts.{Text}
use myndaix_runtime.Ledger.Decisions.{Decision, PrHead, Seen, automerge_decision}
use myndaix_runtime.Automerge.Screen.{Reason, PullRequest, Host, Policy}
use myndaix_runtime.Automerge.Evaluate.{
  Books, Outcome, bump_attempt, evaluate_pr, Desk, recorded, unless_decided, on_sha, look, run_prs,
  tick, is_looked_at, reviewed_in_vain,
}
use myndaix_runtime.Automerge.Effects.{Left, evaluate-Left, charge_budget, charge_merges}

bump_budget : (w : Host) (n h : ℕ) (s : Books) → (bump_attempt w n h s).1.budget ≡ s.budget
unfolding bump_attempt
bump_budget w n h s = ground arith

pub bump_merges : (w : Host) (n h : ℕ) (s : Books) → (bump_attempt w n h s).1.merges ≡ s.merges
unfolding bump_attempt
bump_merges w n h s = ground arith

-- A sequence of ticks, each with what the world answers in it.
abbrev pub ticks :
    (p : Policy) (rid : ℕ)
    → (Option Reason → Text)
    → List (Bool × List (Host × PullRequest))
    → Desk
    → Desk
ticks p rid describe [] t = t
ticks p rid describe ((armed, prs) ∷ rest) t =
    ticks p rid describe rest (tick p rid describe armed prs t)

-- What every look keeps is kept by the loop, by a tick and by a sequence of ticks.
module _ (p : Policy) (rid : ℕ) (describe : Option Reason → Text) (P : Desk → Type 0)
    (kept : (w : Host) (pr : PullRequest) (t : Desk) → P t → P (look p rid describe w pr t)) where
  pub run_prs-keep :
      (prs : List (Host × PullRequest)) (t : Desk) → P t → P (run_prs p rid describe prs t)
  unfolding run_prs
  run_prs-keep [] t h = h
  run_prs-keep ((w, pr) ∷ rest) t h =
      pick
        (is_looked_at p rid describe pr pr.head t
          && leb p.max_per_tick (look p rid describe w pr t).books.budget)
        (kept w pr t h) (run_prs-keep rest (look p rid describe w pr t) (kept w pr t h))
    where
      pick :
          (b : Bool)
          → P (look p rid describe w pr t)
          → P (run_prs p rid describe rest (look p rid describe w pr t))
          → P (
              if b
              then look p rid describe w pr t
              else run_prs p rid describe rest (look p rid describe w pr t))
      pick true x y = x
      pick false x y = y

  module _ (reset : (t : Desk) → P t → P (record t { books = record t.books { budget = 0 } })) where
    tick-keep :
        (armed : Bool) (prs : List (Host × PullRequest)) (t : Desk)
        → P t
        → P (tick p rid describe armed prs t)
    unfolding tick
    tick-keep true prs t h =
        run_prs-keep prs (record t { books = record t.books { budget = 0 } }) (reset t h)
    tick-keep false prs t h = h

    pub ticks-keep :
        (rounds : List (Bool × List (Host × PullRequest))) (t : Desk)
        → P t
        → P (ticks p rid describe rounds t)
    ticks-keep [] t h = h
    ticks-keep ((armed, prs) ∷ rest) t h =
        ticks-keep rest (tick p rid describe armed prs t) (tick-keep armed prs t h)

-- A look evaluates the pull request or leaves the desk as it is.
pub look-keep :
    (p : Policy) (rid : ℕ) (describe : Option Reason → Text) (P : Desk → Type 0) (w : Host)
    (pr : PullRequest) (t : Desk)
    → P t
    → ((x : ℕ)
        → pr.head ≡ some x
        → automerge_decision (record { repo_id = rid; pr_number = pr.number; head_sha = x }) t.seen
          ≡ none
        → P (
            recorded p rid describe
              (record { repo_id = rid; pr_number = pr.number; head_sha = x })
              (evaluate_pr p w pr t.books)
              t.seen))
    → P (look p rid describe w pr t)
unfolding look
look-keep p rid describe P w pr t b f = head pr.head refl
  where
    of : ℕ → PrHead
    of x = record { repo_id = rid; pr_number = pr.number; head_sha = x }

    decide :
        (x : ℕ) (o : Option Decision)
        → pr.head ≡ some x
        → automerge_decision (of x) t.seen ≡ o
        → P (unless_decided p rid describe w pr (of x) o t)
    decide x (some d) e k = b
    decide x none e k = f x e k

    head : (o : Option ℕ) → pr.head ≡ o → P (on_sha p rid describe w pr o t)
    head none e = b
    head (some x) e = decide x (automerge_decision (of x) t.seen) e refl

pub recorded_books :
    (p : Policy) (rid : ℕ) (describe : Option Reason → Text) (k : PrHead) (x : Outcome)
    (seen : List Seen)
    → (recorded p rid describe k x seen).books ≡ x.1
recorded_books p rid describe k (none, s) seen = refl
recorded_books p rid describe k (some (d, why), s) seen = refl

module _ (p : Policy) where
  -- The merges against those of a start `z`, and the budget.
  abbrev pub IsBudgeted : Books → Books → Type 0
  IsBudgeted z s =
      (s.budget ≤ p.max_per_tick) × (length s.merges + z.budget ≡ length z.merges + s.budget)

  evaluate-IsBudgeted :
      (w : Host) (pr : PullRequest) (z s : Books)
      → IsBudgeted z s
      → IsBudgeted z (evaluate_pr p w pr s).1
  evaluate-IsBudgeted w pr z s h = go (evaluate_pr p w pr s) (evaluate-Left p w pr s)
    where
      go : (x : Outcome) → Left p w pr s x → IsBudgeted z x.1
      go x (inl u) = rw (u.0, u.1) h
      go x (inr (inl (r, k, e, b))) =
          rw e
            (rw (charge_budget p w pr s, charge_merges p w pr s) (omega arith, omega (arith, h.1)))
      go x (inr (inr (r, k, e))) = rw e (
          rw
            (
              bump_budget w pr.number r.head (reviewed_in_vain p w pr r s),
              bump_merges w pr.number r.head (reviewed_in_vain p w pr r s),
            )
            h)

  module _ (rid : ℕ) (describe : Option Reason → Text) where
    look-IsBudgeted :
        (z : Books) (w : Host) (pr : PullRequest) (t : Desk)
        → IsBudgeted z t.books
        → IsBudgeted z (look p rid describe w pr t).books
    look-IsBudgeted z w pr t h =
        look-keep p rid describe (λ t. IsBudgeted z t.books) w pr t h
          (λ x e k.
            rw
              (recorded_books p rid describe
                (record { repo_id = rid; pr_number = pr.number; head_sha = x })
                (evaluate_pr p w pr t.books) t.seen)
              (evaluate-IsBudgeted w pr z t.books h))

    -- One tick merges at most MAX_PER_TICK pull requests.
    pub tick_merges_bounded :
        (armed : Bool) (prs : List (Host × PullRequest)) (t : Desk)
        → length (tick p rid describe armed prs t).books.merges
          ≤ length t.books.merges + p.max_per_tick
    unfolding tick
    tick_merges_bounded true prs t =
        let b =
          run_prs-keep p rid describe (λ u. IsBudgeted (record t.books { budget = 0 }) u.books)
            (look-IsBudgeted (record t.books { budget = 0 })) prs
            (record t { books = record t.books { budget = 0 } }) (omega arith, refl) in
        omega arith
    tick_merges_bounded false prs t = omega arith
