-- ===== src/Automerge/Merges.antt =====
-- What a pull request has passed that the gate of src/runtime/automerge.py merges.
use myndaix_runtime.Prelude.{◌<◌, ◌≡◌, true, false, Option, some}
use myndaix_runtime.Prelude.Texts.{codes, same_text}
use myndaix_runtime.Contracts.{Text}
use myndaix_runtime.Ledger.Decisions.{merged}
use myndaix_runtime.Automerge.Screen.{Reason, PullRequest, Host, VerdictFile, Policy, is_dry, Range}
use myndaix_runtime.Automerge.Evaluate.{count, Books, Outcome, recheck, is_fresh, merging}

module _ (p : Policy) (w : Host) (pr : PullRequest) (s s' : Books) (why : Option Reason) where
  abbrev IsMerge : Outcome → Type 0
  IsMerge x = x ≡ (some (merged, why), s')

  -- What the last gate has seen.
  abbrev pub FinishPasses : Range → Type 0
  FinishPasses r =
      (is_dry p ≡ false)
      × (recheck p w r ≡ true)
      × (w.merges ≡ true)
      × (s' ≡ (merging p w pr r s).1)

  -- Room under the caps of the tick, the day and the author.
  abbrev pub HasRoom : Type 0
  HasRoom =
      (s.budget < p.max_per_tick)
      × (count s.day < p.max_per_day)
      × (count (s.authors pr.author) < p.max_per_author_day)

  -- The worker exited with 0 and left a verdict PASS for this very run and range.
  abbrev pub ReviewPasses : Range → Type 0
  ReviewPasses r =
      (v : VerdictFile) × (w.exit_code ≡ some 0)
      × (w.verdict_file ≡ some v)
      × (is_fresh p w r v ≡ true)
      × (same_text v.verdict (codes "PASS") ≡ true)

  abbrev Passing : Text → Type 0
  Passing t = (same_text t (codes "transient") ≡ false) × (same_text t (codes "needs_fix") ≡ false)
