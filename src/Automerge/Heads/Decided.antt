-- ===== src/Automerge/Heads/Decided.antt =====
-- A decided head over the ticks of src/runtime/automerge.py.
use myndaix_runtime.Prelude.{
  ℕ, ◌≡◌, refl, ◌∙◌, ap, Bool, true, false, ◌&&◌, Option, none, some, List, ◌==◌, ==→eq,
}
use myndaix_runtime.Contracts.{Text}
use myndaix_runtime.Ledger.Decisions.{Decision, PrHead, automerge_decision, record_automerge}
use myndaix_runtime.Automerge.Screen.{Reason, PullRequest, Host, Policy}
use myndaix_runtime.Automerge.Evaluate.{
  Books, Outcome, evaluate_pr, Desk, recorded, look, on_sha, unless_decided,
}
use myndaix_runtime.Automerge.Effects.{evaluate-Left}
use myndaix_runtime.Automerge.Ticks.{ticks, ticks-keep, look-keep, recorded_books}
use myndaix_runtime.Automerge.Heads.{
  both-true, times, key, of, other_head, decided_key, recorded_other, Same, other-Same,
}

module _ (p : Policy) (rid : ℕ) (describe : Option Reason → Text) (n h : ℕ) where
  -- A decision on this head stands, and the books say of it what those of a start `z` say.
  abbrev Stands : Decision → Books → Desk → Type 0
  Stands d z t =
      (automerge_decision (key p rid describe n h) t.seen ≡ some d)
      × Same p rid describe n h z t.books

  Same-trans :
      (a b c : Books)
      → Same p rid describe n h a b
      → Same p rid describe n h b c
      → Same p rid describe n h a c
  Same-trans a b c (x, y, z) (x', y', z') = (x' ∙ x, y' ∙ y, z' ∙ z)

  look-Stands :
      (d : Decision) (z : Books) (w : Host) (pr : PullRequest) (t : Desk)
      → Stands d z t
      → Stands d z (look p rid describe w pr t)
  look-Stands d z w pr t k =
      look-keep p rid describe (Stands d z) w pr t k
        (λ x e u. evaluated x e u (n == pr.number && h == x) refl)
    where
      my : ℕ → PrHead
      my x = of p rid describe n h pr.number x

      evaluated :
          (x : ℕ)
          → pr.head ≡ some x
          → automerge_decision (my x) t.seen ≡ none
          → (b : Bool) → (n == pr.number && h == x) ≡ b
          → Stands d z (recorded p rid describe (my x) (evaluate_pr p w pr t.books) t.seen)
      evaluated x e u true o =
          let (i, j) = both-true (n == pr.number) _ o in
          let same : automerge_decision (key p rid describe n h) t.seen ≡ none =
            rw (==→eq n pr.number i, ==→eq h x j) u in
          absurd (cc (k.0))
      evaluated x e u false o = (
        recorded_other p rid describe n h (my x) (evaluate_pr p w pr t.books) t.seen
              (other_head p rid describe n h pr.number x o)
            ∙ k.0,
        rw (recorded_books p rid describe (my x) (evaluate_pr p w pr t.books) t.seen) (
            Same-trans z t.books (evaluate_pr p w pr t.books).1 k.1 (
              other-Same p rid describe n h w pr x t.books (evaluate_pr p w pr t.books) o e
                (evaluate-Left p w pr t.books))),
      )

  look_undecided :
      (w : Host) (pr : PullRequest) (t : Desk) (x : Outcome)
      → pr.number ≡ n
      → pr.head ≡ some h
      → automerge_decision (key p rid describe n h) t.seen ≡ none
      → evaluate_pr p w pr t.books ≡ x
      → look p rid describe w pr t ≡ recorded p rid describe (key p rid describe n h) x t.seen
  unfolding look
  look_undecided w pr t x m e s v =
      ap (λ o. on_sha p rid describe w pr o t) e
      ∙ ap
          (λ i.
            unless_decided p rid describe w pr (of p rid describe n h i h)
              (automerge_decision (of p rid describe n h i h) t.seen) t)
          m
      ∙ ap (λ o. unless_decided p rid describe w pr (key p rid describe n h) o t) s
      ∙ ap (λ y. recorded p rid describe (key p rid describe n h) y t.seen) v

  -- A terminal decision ends the evaluations of a head: a look at an undecided pull request whose
  -- evaluation gives a decision puts it into the table, and after any sequence of ticks from there,
  -- over any pull requests and whatever git and GitHub then answer, the decision is the same, the
  -- counter of the attempts at that pull request and head is what it was, and the head has been merged
  -- and has been reviewed to a transient verdict no more often.
  pub decided_head_is_left :
      (w : Host) (pr : PullRequest) (d : Decision) (why : Option Reason) (s : Books) (t : Desk)
      (rounds : List (Bool × List (Host × PullRequest)))
      → pr.number ≡ n
      → pr.head ≡ some h
      → automerge_decision (key p rid describe n h) t.seen ≡ none
      → evaluate_pr p w pr t.books ≡ (some (d, why), s)
      → let z = look p rid describe w pr t in
        let u = ticks p rid describe rounds z in
        (automerge_decision (key p rid describe n h) z.seen ≡ some d)
        × (automerge_decision (key p rid describe n h) u.seen ≡ some d)
        × (u.books.attempts n h ≡ s.attempts n h)
        × (times n h u.books.merges ≡ times n h s.merges)
        × (times n h u.books.transients ≡ times n h s.transients)
  decided_head_is_left w pr d why s t rounds m e k v =
      let (a, (b, c, e2)) =
        ticks-keep p rid describe (Stands d s) (look-Stands d s) (λ t q. q) rounds after
          (found, (refl, refl, refl)) in
      rw (look_undecided w pr t (some (d, why), s) m e k v) (found, a, b, c, e2)
    where
      after : Desk
      after = record {
        seen = record_automerge (key p rid describe n h) d (some (describe why)) t.seen;
        books = s;
      }

      found : automerge_decision (key p rid describe n h) after.seen ≡ some d
      found = decided_key p rid describe n h d (some (describe why)) t.seen
