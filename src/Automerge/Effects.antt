-- ===== src/Automerge/Effects.antt =====
-- What evaluate_pr of src/runtime/automerge.py leaves in the counter files and the list of merges.
use myndaix_runtime.Prelude.{
  ◌<◌, ◌≡◌, refl, ◌⊎◌, inl, inr, Bool, true, false, not, ◌&&◌, none, some, ◌==◌, if◌then◌else◌,
  arith,
}
use myndaix_runtime.Prelude.Texts.{codes, same_text}
use myndaix_runtime.Contracts.{Text}
use myndaix_runtime.Ledger.Decisions.{needs_fix}
use myndaix_runtime.Automerge.Screen.{
  Gate, pass, wait, refuse, PullRequest, Host, Policy, is_dry, Range, screen,
}
use myndaix_runtime.Automerge.Evaluate.{
  Books, Outcome, charge, bump_attempt, review_pass, finish, dried, recheck, tried,
  reviewed_in_vain, on_verdict, is_capped, screened, evaluate_pr, merging,
}
use myndaix_runtime.Automerge.Screened.{screen-passes}

module _ (p : Policy) (w : Host) (pr : PullRequest) (s : Books) where
  pub charge_budget : (a : Text) (t : Books) → (charge w a t).budget ≡ t.budget
  unfolding charge
  charge_budget a t = ground arith

  pub charge_merges : (a : Text) (t : Books) → (charge w a t).merges ≡ t.merges
  unfolding charge
  charge_merges a t = ground arith

  pub charge_attempts : (a : Text) (t : Books) → (charge w a t).attempts ≡ t.attempts
  unfolding charge
  charge_attempts a t = ground arith

  pub charge_transients : (a : Text) (t : Books) → (charge w a t).transients ≡ t.transients
  unfolding charge
  charge_transients a t = ground arith

  -- How an evaluation leaves the books: a merge, a try that is counted, or no merge and no count.
  abbrev pub Untouched : Books → Type 0
  Untouched t =
      (t.budget ≡ s.budget)
      × (t.merges ≡ s.merges)
      × (t.attempts ≡ s.attempts)
      × (t.transients ≡ s.transients)

  abbrev pub Left : Outcome → Type 0
  Left x =
      Untouched x.1
      ⊎ (((r : Range) × (pr.head ≡ some r.head)
            × (x ≡ merging p w pr r s)
            × (s.budget < p.max_per_tick))
          ⊎ ((r : Range) × (pr.head ≡ some r.head)
              × (x ≡ tried p w pr (bump_attempt w pr.number r.head (reviewed_in_vain p w pr r s)))))

  finish-Left :
      (r : Range) → pr.head ≡ some r.head → s.budget < p.max_per_tick → Left (finish p w pr r s)
  unfolding finish
  finish-Left r h b = go (is_dry p) (p.test_mode && p.merge_override) (not (recheck p w r)) w.merges
    where
      dry :
          (z : Bool)
          → Untouched (
              if z
              then record s {
                shadow =
                    λ n h. if n == pr.number && h == p.prefix r.head then true else s.shadow n h;
              }
              else s)
      dry true = (refl, refl, refl, refl)
      dry false = (refl, refl, refl, refl)

      go :
          (d k c m : Bool)
          → Left (
              if◌then◌else◌ {A = Outcome} d
                (none, dried p w pr r s)
                (if◌then◌else◌ {A = Outcome} k (merging p w pr r s) (
                  if◌then◌else◌ {A = Outcome} c
                    (none, s)
                    (if◌then◌else◌ {A = Outcome} m (merging p w pr r s) (none, s)))))
      go true k c m = inl (dry p.shadow_code)
      go false true c m = inr (inl (r, h, refl, b))
      go false false true m = inl (refl, refl, refl, refl)
      go false false false true = inr (inl (r, h, refl, b))
      go false false false false = inl (refl, refl, refl, refl)

  verdict-Left :
      (v : Text) (r : Range)
      → pr.head ≡ some r.head
      → s.budget < p.max_per_tick
      → Left (on_verdict p w pr v r s)
  unfolding on_verdict
  verdict-Left v r h b = go (same_text v (codes "transient")) (same_text v (codes "needs_fix"))
    where
      go :
          (x y : Bool)
          → Left (
              if◌then◌else◌ {A = Outcome} x
                (tried p w pr (bump_attempt w pr.number r.head (reviewed_in_vain p w pr r s)))
                (if◌then◌else◌ {A = Outcome} y (some (needs_fix, none), s) (finish p w pr r s)))
      go true y = inr (inr (r, h, refl))
      go false true = inl (refl, refl, refl, refl)
      go false false = finish-Left r h b

  capped_room : (r : Range) → is_capped p w pr r s ≡ false → s.budget < p.max_per_tick
  unfolding is_capped
  capped_room r c = ground arith

  pub evaluate-Left : Left (evaluate_pr p w pr s)
  unfolding evaluate_pr
  evaluate-Left = gate (screen p w pr) refl
    where
      capped :
          (r : Range) (b : Bool)
          → screen p w pr ≡ pass r
          → is_capped p w pr r s ≡ b
          → Left
              (if◌then◌else◌ {A = Outcome} b (none, s) (on_verdict p w pr (review_pass p w r) r s))
      capped r true g c = inl (refl, refl, refl, refl)
      capped r false g c =
          verdict-Left (review_pass p w r) r (screen-passes p w pr r g).0 (capped_room r c)

      gate : (g : Gate Range) → screen p w pr ≡ g → Left (screened p w pr g s)
      gate wait g = inl (refl, refl, refl, refl)
      gate (refuse x) g = inl (refl, refl, refl, refl)
      gate (pass r) g = capped r (is_capped p w pr r s) g refl
