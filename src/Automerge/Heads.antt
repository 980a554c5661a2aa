-- ===== src/Automerge/Heads.antt =====
-- What an evaluation of another pull request leaves of one head of a pull request in
-- src/runtime/automerge.py.
pub mod Decided
pub mod Reviews
use myndaix_runtime.Prelude.{
  ℕ, ◌+◌, ◌≤◌, ◌<◌, ◌≡◌, refl, sym, ◌∙◌, ap, ◌⊎◌, inl, inr, Bool, true, false, ◌&&◌, Option, none,
  some, List, [], ◌∷◌, leb, ◌==◌, if◌then◌else◌, arith, ==→eq, ==_refl,
}
use myndaix_runtime.Prelude.Options.{some-injective-path}
use myndaix_runtime.Contracts.{Text}
use myndaix_runtime.Ledger.Decisions.{
  Decision, skipped, PrHead, Seen, automerge_decision, record_automerge, same_head,
  decision_is_last,
}
use myndaix_runtime.Automerge.Screen.{Reason, review_transient, PullRequest, Host, Policy, Range}
use myndaix_runtime.Automerge.Evaluate.{
  counts, count, Books, Outcome, bump_attempt, tried, evaluate_pr, Desk, recorded, look,
  set_attempt, reviewed_in_vain, charge,
}
use myndaix_runtime.Automerge.Effects.{
  Left, evaluate-Left, charge_attempts, charge_merges, charge_transients,
}
use myndaix_runtime.Automerge.Ticks.{ticks, ticks-keep, look-keep, recorded_books, bump_merges}

pub both-true : (a b : Bool) → (a && b) ≡ true → (a ≡ true) × (b ≡ true)
both-true a b h = (ground arith, ground arith)

-- How often a pull request and head stands in a list.
unfoldable pub times : ℕ → ℕ → List (ℕ × ℕ) → ℕ
times n h [] = 0
times n h ((m, x) ∷ rest) = let k = times n h rest in if n == m && h == x then k + 1 else k

pub bump_transients :
    (w : Host) (n h : ℕ) (s : Books) → (bump_attempt w n h s).1.transients ≡ s.transients
unfolding bump_attempt
bump_transients w n h s = ground arith

module _ (p : Policy) (rid : ℕ) (describe : Option Reason → Text) (n h : ℕ) where
  abbrev pub key : PrHead
  key = record { repo_id = rid; pr_number = n; head_sha = h }

  abbrev pub of : ℕ → ℕ → PrHead
  of m x = record { repo_id = rid; pr_number = m; head_sha = x }

  bump_other :
      (w : Host) (m x : ℕ) (s : Books)
      → (n == m && h == x) ≡ false
      → (bump_attempt w m x s).1.attempts n h ≡ s.attempts n h
  unfolding bump_attempt
  bump_other w m x s e = go w.writes_attempt
    where
      k : ℕ
      k = count (s.attempts m x) + 1

      go :
          (b : Bool)
          → (if◌then◌else◌ {A = ℕ × Books} b
                (k, record s { attempts = set_attempt m x (counts k) s.attempts })
                (1073741824, s)).1.attempts
              n h
            ≡ s.attempts n h
      go true = rw e refl
      go false = refl

  times_other :
      (m x : ℕ) (rest : List (ℕ × ℕ))
      → (n == m && h == x) ≡ false
      → times n h ((m, x) ∷ rest) ≡ times n h rest
  unfolding times
  times_other m x rest e = rw e refl

  pub self_head : same_head key key ≡ true
  unfolding same_head
  self_head = ground arith

  pub other_head : (m x : ℕ) → (n == m && h == x) ≡ false → same_head (of m x) key ≡ false
  unfolding same_head
  other_head m x e = ground arith

  pub decided_key :
      (d : Decision) (why : Option Text) (seen : List Seen)
      → automerge_decision key (record_automerge key d why seen) ≡ some d
  decided_key d why seen = decision_is_last key key d why seen ∙ rw self_head refl

  pub recorded_other :
      (k : PrHead) (x : Outcome) (seen : List Seen)
      → same_head k key ≡ false
      → automerge_decision key (recorded p rid describe k x seen).seen ≡ automerge_decision key seen
  recorded_other k (none, s) seen e = refl
  recorded_other k (some (d, why), s) seen e =
      decision_is_last k key d (some (describe why)) seen ∙ rw e refl

  -- What the books say of this head.
  abbrev pub Same : Books → Books → Type 0
  Same z s =
      (s.attempts n h ≡ z.attempts n h)
      × (times n h s.merges ≡ times n h z.merges)
      × (times n h s.transients ≡ times n h z.transients)

  -- An evaluation of another pull request or head leaves that.
  pub other-Same :
      (w : Host) (pr : PullRequest) (x : ℕ) (s : Books) (y : Outcome)
      → (n == pr.number && h == x) ≡ false
      → pr.head ≡ some x
      → Left p w pr s y
      → Same s y.1
  other-Same w pr x s y o e (inl u) = rw (u.1, u.2, u.3) (refl, refl, refl)
  other-Same w pr x s y o e (inr (inl (r, k, q, b))) =
      let same : x ≡ r.head = some-injective-path (sym e ∙ k) in
      let away : (n == pr.number && h == r.head) ≡ false = rw (sym same) o in
      rw q (
        rw
          (
            charge_attempts p w pr s pr.author
                (record s { budget = s.budget + 1; merges = (pr.number, r.head) ∷ s.merges }),
            charge_merges p w pr s pr.author
                (record s { budget = s.budget + 1; merges = (pr.number, r.head) ∷ s.merges }),
            charge_transients p w pr s pr.author
                (record s { budget = s.budget + 1; merges = (pr.number, r.head) ∷ s.merges }),
          )
          (refl, times_other pr.number r.head s.merges away, refl))
  other-Same w pr x s y o e (inr (inr (r, k, q))) =
      let same : x ≡ r.head = some-injective-path (sym e ∙ k) in
      let away : (n == pr.number && h == r.head) ≡ false = rw (sym same) o in
      let s' = reviewed_in_vain p w pr r s in
      rw q (
        rw
          (
            bump_other w pr.number r.head s' away,
            bump_merges w pr.number r.head s',
            bump_transients w pr.number r.head s',
          )
          (refl, refl, times_other pr.number r.head s.transients away))
