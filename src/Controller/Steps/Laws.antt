-- ===== src/Controller/Steps/Laws.antt =====
-- What process_repo of src/runtime/controller.py keeps, read off the moves that it may make.
use myndaix_runtime.Prelude.{
  ℕ, ◌+◌, ◌-◌, ◌≤◌, ◌<◌, ◌≡◌, refl, sym, ap, subst, ◌⊎◌, inl, inr, Bool, true, false, Option, some,
  List, [], ◌∷◌, length, arith,
}
use myndaix_runtime.Cursor.Row.{RowHolds}
use myndaix_runtime.Cursor.Review.{
  ReviewCursor, Call, seeds, claims, releases, forgives, advances, skips, blocks, call,
}
use myndaix_runtime.Cursor.Review.Shape.{IsShaped, call-IsShaped}
use myndaix_runtime.Controller.Target.{diff_lines, diff_bytes}
use myndaix_runtime.Controller.Target.Sized.{dispatch_fits}
use myndaix_runtime.Controller.Site.{
  Settings, Outside, Site, advancing, seeding, skipping, blocking, claiming, read_count, written,
  day_gate, day_charge,
}
use myndaix_runtime.Controller.Repo.{process_repo}
use myndaix_runtime.Controller.Steps.{Step, Steps, here, next, IsChosen}
use myndaix_runtime.Controller.Steps.Refine.{process_repo_moves}

module _ (c : Settings) (o : Outside) where
  -- A predicate that each move keeps is kept by process_repo.
  Steps-keep {ℓ} :
      (P : Site → Type ℓ)
      → ((s t : Site) → Step c o s t → P s → P t)
      → {s t : Site} → Steps c o s t
      → P s
      → P t
  Steps-keep P k (here s) h = h
  Steps-keep P k (next {s} {t} st p) h = Steps-keep P k p (k s t st h)

  verb-IsShaped :
      (now : ℕ) (k : Call) (row row' : Option ReviewCursor)
      → row' ≡ (call now k row).1
      → RowHolds IsShaped row
      → RowHolds IsShaped row'
  verb-IsShaped now k row row' e h = subst (RowHolds IsShaped) (sym e) (call-IsShaped now k row h)

  step-IsShaped : (s t : Site) → Step c o s t → RowHolds IsShaped s.row → RowHolds IsShaped t.row
  unfolding call
  step-IsShaped s t (Step.counts _ a b) h = h
  step-IsShaped s t (Step.alerts _ a b e) h = h
  step-IsShaped s t (Step.transient_lands _ a b e) h = h
  step-IsShaped s t (Step.done_lands _ a e) h = h
  step-IsShaped s t (Step.delivers _ ps k row e d p) h =
      verb-IsShaped (o.now advancing) (advances ps) s.row row e h
  step-IsShaped s t (Step.forgives _ part sha row e m u) h =
      verb-IsShaped 0 (forgives sha) s.row row e h
  step-IsShaped s t (Step.seeds _ head row e d n p) h =
      verb-IsShaped (o.now seeding) (seeds head) s.row row e h
  step-IsShaped s t (Step.passes _ base sha row e d r m p) h =
      verb-IsShaped (o.now skipping) (skips sha) s.row row e h
  step-IsShaped s t (Step.blocks _ sha row e) h =
      verb-IsShaped (o.now blocking) (blocks sha c.max_attempts) s.row row e h
  step-IsShaped s t (Step.fails_to_start _ sha row row' ref d e k) h =
      let won : RowHolds IsShaped row =
        verb-IsShaped (o.now claiming) (claims sha (o.clock - c.pending_stale)) s.row row
          (sym (ap (λ x. x.1) e)) h in
      elim k [
        | inl same ↦ subst (RowHolds IsShaped) (sym same) won
        | inr freed ↦ verb-IsShaped 0 (releases sha) row row' freed won
      ]
  step-IsShaped s t (Step.starts _ base sha row d b y r i e p f) h =
      verb-IsShaped (o.now claiming) (claims sha (o.clock - c.pending_stale)) s.row row
        (sym (ap (λ x. x.1) e)) h

  -- A row that has its shape keeps it over process_repo: a head is pending exactly in the states
  -- 'dispatching' and 'blocked', and a row in another state has no attempts.
  process_repo-IsShaped :
      (s : Site) → RowHolds IsShaped s.row → RowHolds IsShaped (process_repo c o s).row
  process_repo-IsShaped s h =
      Steps-keep (λ s. RowHolds IsShaped s.row) step-IsShaped (process_repo_moves c o s) h

  -- git gave the range base..sha a size in lines and one in bytes, and both are within the budgets.
  abbrev pub FitsReview : ℕ × ℕ → Type 0
  FitsReview (base, sha) =
      (n : ℕ) × (b : ℕ) × (i : ℕ) × (j : ℕ) × (diff_lines ((o.sizing base).numstat i sha) ≡ some n)
      × (diff_bytes ((o.sizing base).patch j sha) ≡ some b)
      × (n ≤ c.limits.max_lines)
      × (b ≤ c.limits.max_bytes)

  abbrev pub AllFit : List (ℕ × ℕ) → Type 0
  AllFit [] = Unit
  AllFit (r ∷ rs) = FitsReview r × AllFit rs

  chosen_fits : (base sha : ℕ) → IsChosen c o base sha → FitsReview (base, sha)
  chosen_fits base sha (head, h, m, e) =
      let f =
        dispatch_fits (o.sizing base)
          (λ c' a. (i : ℕ) × (diff_lines ((o.sizing base).numstat i c') ≡ a))
          (λ c' a. (i : ℕ) × (diff_bytes ((o.sizing base).patch i c') ≡ a)) (λ i c'. (i, refl))
          (λ i c'. (i, refl)) c.limits head m in
      subst (λ x. FitsReview (base, x)) e (f.0, f.1, f.4.0, f.5.0, f.4.1, f.5.1, f.6, f.7)

  step_fits : (s t : Site) → Step c o s t → AllFit s.triggered → AllFit t.triggered
  step_fits s t (Step.counts _ a b) h = h
  step_fits s t (Step.alerts _ a b e) h = h
  step_fits s t (Step.transient_lands _ a b e) h = h
  step_fits s t (Step.done_lands _ a e) h = h
  step_fits s t (Step.delivers _ ps k row e d p) h = h
  step_fits s t (Step.forgives _ part sha row e m u) h = h
  step_fits s t (Step.seeds _ head row e d n p) h = h
  step_fits s t (Step.passes _ base sha row e d r m p) h = h
  step_fits s t (Step.blocks _ sha row e) h = h
  step_fits s t (Step.fails_to_start _ sha row row' ref d e k) h = h
  step_fits s t (Step.starts _ base sha row d b y r i e p f) h = (chosen_fits base sha i, h)

  -- No review is started blind: git sized the range of each review that process_repo starts, and both
  -- sizes are within the budgets that the worker enforces.
  pub started_review_fits : (s : Site) → AllFit s.triggered → AllFit (process_repo c o s).triggered
  started_review_fits s h =
      Steps-keep (λ s. AllFit s.triggered) step_fits (process_repo_moves c o s) h

  -- The count of reviews and the shared counters, against those of a start `z`. The counter of the day
  -- may pass its bound only where the file could not be read at the gate.
  abbrev pub IsBounded : Site → Site → Type 0
  IsBounded z s =
      (s.budget ≤ c.max_dispatch_per_tick)
      × ((s.day ≤ z.day) ⊎ ((s.day ≤ c.max_dispatch_per_day) ⊎ (o.state_reads day_gate ≡ false)))
      × (length s.triggered + z.budget ≡ length z.triggered + s.budget)

  charged_bounded :
      (d y m : ℕ)
      → read_count o day_gate d < m
      → (d ≤ y) ⊎ ((d ≤ m) ⊎ (o.state_reads day_gate ≡ false))
      → (written o day_charge (read_count o day_charge d + 1) d ≤ y)
        ⊎ ((written o day_charge (read_count o day_charge d + 1) d ≤ m)
            ⊎ (o.state_reads day_gate ≡ false))
  charged_bounded d y m h k = go (o.state_reads day_gate) refl
    where
      go :
          (b : Bool)
          → o.state_reads day_gate ≡ b
          → (written o day_charge (read_count o day_charge d + 1) d ≤ y)
            ⊎ ((written o day_charge (read_count o day_charge d + 1) d ≤ m)
                ⊎ (o.state_reads day_gate ≡ false))
      go false e = inr (inr e)
      go true e = let r : d < m = rw e at h in inr (inl (ground (arith, r)))

  step-IsBounded : (z s t : Site) → Step c o s t → IsBounded z s → IsBounded z t
  step-IsBounded z s t (Step.counts _ a b) h = h
  step-IsBounded z s t (Step.alerts _ a b e) h = h
  step-IsBounded z s t (Step.transient_lands _ a b e) h = h
  step-IsBounded z s t (Step.done_lands _ a e) h = h
  step-IsBounded z s t (Step.delivers _ ps k row e d p) h = h
  step-IsBounded z s t (Step.forgives _ part sha row e m u) h = h
  step-IsBounded z s t (Step.seeds _ head row e d n p) h = h
  step-IsBounded z s t (Step.passes _ base sha row e d r m p) h = h
  step-IsBounded z s t (Step.blocks _ sha row e) h = h
  step-IsBounded z s t (Step.fails_to_start _ sha row row' ref d e k) h = h
  step-IsBounded z s t (Step.starts _ base sha row d b y r i e p f) h =
      (omega arith, charged_bounded s.day z.day c.max_dispatch_per_day y h.1, omega (arith, h.2))

  pub process_repo-IsBounded :
      (s : Site) → s.budget ≤ c.max_dispatch_per_tick → IsBounded s (process_repo c o s)
  process_repo-IsBounded s h =
      Steps-keep (IsBounded s) (step-IsBounded s) (process_repo_moves c o s)
        (h, inl (omega arith), refl)

  -- In a dry run.
  abbrev pub IsDry : Site → Site → Type 0
  IsDry z s =
      (s.triggered ≡ z.triggered)
      × (s.pending_ref ≡ z.pending_ref)
      × (s.budget ≡ z.budget)
      × (s.day ≡ z.day)

  step-IsDry : c.dry_run ≡ true → (z s t : Site) → Step c o s t → IsDry z s → IsDry z t
  step-IsDry w z s t (Step.counts _ a b) h = h
  step-IsDry w z s t (Step.alerts _ a b e) h = h
  step-IsDry w z s t (Step.transient_lands _ a b e) h = h
  step-IsDry w z s t (Step.done_lands _ a e) h = h
  step-IsDry w z s t (Step.delivers _ ps k row e d p) h = h
  step-IsDry w z s t (Step.forgives _ part sha row e m u) h = h
  step-IsDry w z s t (Step.seeds _ head row e d n p) h = absurd (cc)
  step-IsDry w z s t (Step.passes _ base sha row e d r m p) h = absurd (cc)
  step-IsDry w z s t (Step.blocks _ sha row e) h = h
  step-IsDry w z s t (Step.fails_to_start _ sha row row' ref d e k) h = absurd (cc)
  step-IsDry w z s t (Step.starts _ base sha row d b y r i e p f) h = absurd (cc)

  -- A dry run starts no review and spends no budget.
  dry_run_starts_nothing : c.dry_run ≡ true → (s : Site) → IsDry s (process_repo c o s)
  dry_run_starts_nothing w s =
      Steps-keep (IsDry s) (step-IsDry w s) (process_repo_moves c o s) (refl, refl, refl, refl)
