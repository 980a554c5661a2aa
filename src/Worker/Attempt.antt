-- ===== src/Worker/Attempt.antt =====
-- What process_attempt (src/runtime/worker.py) does on every way out.
use myndaix_runtime.Prelude.{
  ℕ, ◌+◌, ◌≡◌, refl, sym, ◌∙◌, Bool, true, false, ◌&&◌, Option, none, some, List, [], ◌∷◌, ◌++◌,
  arith, Bool-cases, inl, inr, if◌then◌else◌, is_some,
}
use myndaix_runtime.Contracts.{Registry, Result, ResultStatus}
use myndaix_runtime.Ledger.State.{Outcome, ok, raise, lost_lease, Error}
use myndaix_runtime.Worker.{
  WorkerLedger, WorkerJob, returned, Act, create, capture_diff, cleanup, unlink, Report, Round,
  process_attempt, process_job, bracketed, in_worktree, run_agent, after_invoke, report_result,
  reported, invoke, needs_worktree, is_ok, with_diff, unlinked, captured,
}

-- How often a worktree was made, and how often it was cleaned up.
unfoldable pub made : List Act → ℕ
made [] = 0
made (create ∷ acts) = 1 + made acts
made (_ ∷ acts) = made acts

unfoldable pub cleaned : List Act → ℕ
cleaned [] = 0
cleaned (cleanup ∷ acts) = 1 + cleaned acts
cleaned (_ ∷ acts) = cleaned acts

-- Calls that neither make a worktree nor clean one up.
abbrev Neutral : List Act → Type 0
Neutral acts = (made acts ≡ 0) × (cleaned acts ≡ 0)

unlinked-Neutral : (r : Result) → Neutral (unlinked r)
unfolding made cleaned
unlinked-Neutral r = elim (Bool-cases (is_some r.artifact_ref)) [
  | inl b ↦ rw b (refl, refl)
  | inr b ↦ rw b (refl, refl)
]

captured-Neutral :
    (worktree : Bool) (round : Round) (acts : List Act)
    → Neutral acts
    → Neutral (captured worktree round ++ acts)
unfolding made cleaned
captured-Neutral worktree round acts n = elim (Bool-cases (worktree && is_ok round.result.status)) [
  | inl b ↦ rw b n
  | inr b ↦ rw b n
]

-- A worktree around calls that are neutral.
bracket :
    (acts : List Act)
    → Neutral acts
    → cleaned (create ∷ (acts ++ cleanup ∷ [])) ≡ made (create ∷ (acts ++ cleanup ∷ []))
unfolding made cleaned
bracket acts n = omega (arith, n, cleaned-append acts, made-append acts)
  where
    cleaned-append : (acts : List Act) → cleaned (acts ++ cleanup ∷ []) ≡ cleaned acts + 1
    cleaned-append [] = unfold cleaned in refl
    cleaned-append (create ∷ acts) = unfold cleaned in cleaned-append acts
    cleaned-append (capture_diff ∷ acts) = unfold cleaned in cleaned-append acts
    cleaned-append (unlink ∷ acts) = unfold cleaned in cleaned-append acts
    cleaned-append (cleanup ∷ acts) = unfold cleaned in omega (arith, cleaned-append acts)

    made-append : (acts : List Act) → made (acts ++ cleanup ∷ []) ≡ made acts
    made-append [] = unfold made in refl
    made-append (create ∷ acts) = unfold made in omega (arith, made-append acts)
    made-append (capture_diff ∷ acts) = unfold made in made-append acts
    made-append (unlink ∷ acts) = unfold made in made-append acts
    made-append (cleanup ∷ acts) = unfold made in made-append acts

module _ {S : Type 0} (store : WorkerLedger S) where
  -- The report of a run says that the attempt ended only if it is closed.
  abbrev Honest : ℕ → Report S → Type 0
  Honest k r =
      (x : ResultStatus) → r.exit ≡ returned (some x) → store.get_attempt_job k r.ledger ≡ none

  reported-Honest :
      (k : ℕ) (r : Result) (s : S) (o : Outcome S)
      → ((t : S) → o ≡ ok t → store.get_attempt_job k t ≡ none)
      → Honest k (reported store r s o)
  unfolding reported
  reported-Honest k r s (ok t) h x e = h t refl
  reported-Honest k r s (raise lost_lease) h x e = absurd (cc)
  reported-Honest k r s (raise _) h x e = absurd (cc)

  report_result-Honest : (k : ℕ) (r : Result) (s : S) → Honest k (report_result store k r s)
  unfolding report_result
  report_result-Honest k r s = reported-Honest k r s _ (closes (is_ok r.status))
    where
      closes :
          (b : Bool) (t : S)
          → (if b then store.complete_attempt k r s else store.fail_attempt k r s) ≡ ok t
          → store.get_attempt_job k t ≡ none
      closes true t e = store.complete_closes k r s t e
      closes false t e = store.fail_closes k r s t e

  after_invoke-Honest :
      (worktree : Bool) (round : Round) (k : ℕ) (o : Option Error × S)
      → Honest k (after_invoke store worktree round k o)
  unfolding after_invoke
  after_invoke-Honest worktree round k (some lost_lease, s) x e = absurd (cc)
  after_invoke-Honest worktree round k (some _, s) x e = absurd (cc)
  after_invoke-Honest worktree round k (none, s) x e =
      report_result-Honest k (with_diff worktree round) s x e

  in_worktree-Honest :
      (others : ℕ → S → S) (worktree : Bool) (round : Round) (k : ℕ) (s : S)
      → Honest k (in_worktree store others worktree round k s)
  unfolding in_worktree run_agent
  in_worktree-Honest others false round k s = after_invoke-Honest false round k _
  in_worktree-Honest others true round k s =
      git round.git_works (run_agent store others true round k s)
        (after_invoke-Honest true round k (invoke store others k round.beats s))
    where
      git : (b : Bool) (r : Report S) → Honest k r → Honest k (bracketed store b s r)
      git true r h x e = h x (unfold bracketed in e)
      git false r h x e = absurd (unfold bracketed in cc)

  -- When process_attempt says how an attempt ended, the attempt is closed in the ledger that it
  -- leaves: its worker gets no job for it again.
  pub reported_is_closed :
      (registry : Registry) (others : ℕ → S → S) (round : Round) (k : ℕ) (s : S) (x : ResultStatus)
      → (process_attempt store registry others round k s).exit ≡ returned (some x)
      → store.get_attempt_job k (process_attempt store registry others round k s).ledger ≡ none
  unfolding process_attempt
  reported_is_closed registry others round k s x e = of_job (store.get_attempt_job k s) x e
    where
      of_job : (o : Option WorkerJob) → Honest k (process_job store registry others round k o s)
      of_job none x e = absurd (unfold process_job in cc)
      of_job (some j) x e =
          in_worktree-Honest others (needs_worktree registry j) round k s x
            (unfold process_job in e)

  report_result-Neutral : (k : ℕ) (r : Result) (s : S) → Neutral (report_result store k r s).acts
  unfolding report_result
  report_result-Neutral k r s = go _
    where
      go : (o : Outcome S) → Neutral (reported store r s o).acts
      go (ok t) = unfold reported made cleaned in (refl, refl)
      go (raise lost_lease) = unfold reported in unlinked-Neutral r
      go (raise _) = unfold reported made cleaned in (refl, refl)

  after_invoke-Neutral :
      (worktree : Bool) (round : Round) (k : ℕ) (o : Option Error × S)
      → Neutral (after_invoke store worktree round k o).acts
  unfolding after_invoke made cleaned
  after_invoke-Neutral worktree round k (some lost_lease, s) = (refl, refl)
  after_invoke-Neutral worktree round k (some _, s) = (refl, refl)
  after_invoke-Neutral worktree round k (none, s) =
      captured-Neutral worktree round _ (report_result-Neutral k (with_diff worktree round) s)

  in_worktree-cleaned :
      (others : ℕ → S → S) (worktree : Bool) (round : Round) (k : ℕ) (s : S)
      → cleaned (in_worktree store others worktree round k s).acts
        ≡ made (in_worktree store others worktree round k s).acts
  unfolding in_worktree run_agent
  in_worktree-cleaned others false round k s =
      let n = after_invoke-Neutral false round k (invoke store others k round.beats s) in
      n.1 ∙ sym n.0
  in_worktree-cleaned others true round k s =
      git round.git_works (run_agent store others true round k s)
        (after_invoke-Neutral true round k (invoke store others k round.beats s))
    where
      git :
          (b : Bool) (r : Report S)
          → Neutral r.acts
          → cleaned (bracketed store b s r).acts ≡ made (bracketed store b s r).acts
      git true r n = unfold bracketed in bracket r.acts n
      git false r n = unfold bracketed made cleaned in refl

  -- On every way out of process_attempt a worktree that was made has been cleaned up: by a return, a
  -- lost lease, an exception of the ledger, or a git that failed half way.
  worktree_is_cleaned :
      (registry : Registry) (others : ℕ → S → S) (round : Round) (k : ℕ) (s : S)
      → cleaned (process_attempt store registry others round k s).acts
        ≡ made (process_attempt store registry others round k s).acts
  unfolding process_attempt
  worktree_is_cleaned registry others round k s = of_job (store.get_attempt_job k s)
    where
      of_job :
          (o : Option WorkerJob)
          → cleaned (process_job store registry others round k o s).acts
            ≡ made (process_job store registry others round k o s).acts
      of_job none = unfold process_job made cleaned in refl
      of_job (some j) = unfold process_job in in_worktree-cleaned others _ round k s
