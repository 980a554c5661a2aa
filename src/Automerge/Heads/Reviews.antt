-- ===== src/Automerge/Heads/Reviews.antt =====
-- How often the ticks of src/runtime/automerge.py review one head in vain.
use myndaix_runtime.Prelude.{
  ℕ, ◌+◌, ◌≤◌, ◌<◌, ◌≡◌, refl, sym, ◌∙◌, ap, ◌⊎◌, inl, inr, Bool, true, false, ◌&&◌, Option, none,
  some, List, ◌∷◌, leb, ◌==◌, if◌then◌else◌, arith, ==→eq, ==_refl,
}
use myndaix_runtime.Prelude.Options.{some-injective-path}
use myndaix_runtime.Contracts.{Text}
use myndaix_runtime.Ledger.Decisions.{Decision, skipped, PrHead, Seen, automerge_decision}
use myndaix_runtime.Automerge.Screen.{Reason, review_transient, PullRequest, Host, Policy}
use myndaix_runtime.Automerge.Evaluate.{
  count, Books, Outcome, bump_attempt, tried, evaluate_pr, Desk, recorded, look,
}
use myndaix_runtime.Automerge.Effects.{Left, evaluate-Left, charge_attempts, charge_transients}
use myndaix_runtime.Automerge.Ticks.{ticks, ticks-keep, look-keep, recorded_books}
use myndaix_runtime.Automerge.Heads.{
  both-true, times, bump_transients, key, of, other_head, decided_key, recorded_other, Same,
  other-Same,
}

times_self : (n h : ℕ) (rest : List (ℕ × ℕ)) → times n h ((n, h) ∷ rest) ≡ times n h rest + 1
unfolding times
times_self n h rest = rw (==_refl n, ==_refl h) refl

leb-false : (a b : ℕ) → leb a b ≡ false → b < a
leb-false a b e = ground arith

-- A try is counted in the file, or is over the ceiling.
bump_counts :
    (w : Host) (n h m : ℕ) (s : Books)
    → m ≤ 1073741824
    → (bump_attempt w n h s).0 < m
    → ((bump_attempt w n h s).0 ≡ count (s.attempts n h) + 1)
      × (count ((bump_attempt w n h s).1.attempts n h) ≡ count (s.attempts n h) + 1)
unfolding bump_attempt
bump_counts w n h m s c e = (ground arith, ground arith)

module _ (p : Policy) (rid : ℕ) (describe : Option Reason → Text) (n h : ℕ)
    (ceiling : p.max_review_attempts ≤ 1073741824) where
  abbrev pub in_vain : Books → ℕ
  in_vain s = times n h s.transients

  -- The counter file covers the reviews in vain and is below the ceiling.
  abbrev pub IsCounted : Books → Type 0
  IsCounted s =
      (in_vain s ≤ count (s.attempts n h)) × (count (s.attempts n h) < p.max_review_attempts)

  abbrev pub IsDecided : Desk → Type 0
  IsDecided t = (d : Decision) × (automerge_decision (key p rid describe n h) t.seen ≡ some d)

  abbrev pub IsBelow : Desk → Type 0
  IsBelow t = (in_vain t.books ≤ p.max_review_attempts) × (IsDecided t ⊎ IsCounted t.books)

  counted-IsBelow : (t : Desk) → IsCounted t.books → IsBelow t
  counted-IsBelow t (a, b) = (omega arith, inr (a, b))

  recorded_counted :
      (k : PrHead) (x : Outcome) (seen : List Seen)
      → IsCounted x.1
      → IsBelow (recorded p rid describe k x seen)
  recorded_counted k x seen c =
      counted-IsBelow (recorded p rid describe k x seen)
        (rw (recorded_books p rid describe k x seen) c)

  tried-IsBelow :
      (w : Host) (pr : PullRequest) (s : Books) (seen : List Seen)
      → IsCounted s
      → IsBelow (
          recorded p rid describe
            (key p rid describe n h)
            (tried p w pr (bump_attempt w n h (record s { transients = (n, h) ∷ s.transients })))
            seen)
  tried-IsBelow w pr s seen (a, b) = go (leb p.max_review_attempts (bump_attempt w n h s').0) refl
    where
      s' : Books
      s' = record s { transients = (n, h) ∷ s.transients }

      x : ℕ × Books
      x = bump_attempt w n h s'

      more : in_vain x.1 ≡ in_vain s + 1
      more = ap (times n h) (bump_transients w n h s') ∙ times_self n h s.transients

      go :
          (b : Bool)
          → leb p.max_review_attempts x.0 ≡ b
          → IsBelow (
              recorded p rid describe
                (key p rid describe n h)
                (if b then some (skipped, some (review_transient x.0)) else none, x.1)
                seen)
      go true e = (
        omega (arith, more),
        inl (
          skipped,
          decided_key p rid describe n h skipped (some (describe (some (review_transient x.0))))
              seen,
        ),
      )
      go false e =
          let (i, j) = bump_counts w n h p.max_review_attempts s' ceiling (ground arith) in
          counted-IsBelow (record { seen = seen; books = x.1 })
            (
              omega (arith, more, i, j),
              omega (arith, i, j, leb-false (p.max_review_attempts) x.0 e),
            )

  -- A try at this very head.
  at_key :
      (w : Host) (pr : PullRequest) (t : Desk) (m x : ℕ)
      → n ≡ m
      → h ≡ x
      → IsCounted t.books
      → IsBelow (
          recorded p rid describe
            (of p rid describe n h m x)
            (tried p w pr
              (bump_attempt w m x (record t.books { transients = (m, x) ∷ t.books.transients })))
            t.seen)
  at_key w pr t m x y z c = rw (sym y, sym z) (tried-IsBelow w pr t.books t.seen c)

  look-IsBelow :
      (w : Host) (pr : PullRequest) (t : Desk) → IsBelow t → IsBelow (look p rid describe w pr t)
  look-IsBelow w pr t k =
      look-keep p rid describe IsBelow w pr t k
        (λ x e u. evaluated x e u (n == pr.number && h == x) refl)
    where
      my : ℕ → PrHead
      my x = of p rid describe n h pr.number x

      out : Outcome
      out = evaluate_pr p w pr t.books

      here :
          (x : ℕ) (y : Outcome)
          → pr.head ≡ some x
          → n ≡ pr.number
          → h ≡ x
          → IsCounted t.books
          → Left p w pr t.books y
          → IsBelow (recorded p rid describe (my x) y t.seen)
      here x y e i j c (inl u) = recorded_counted (my x) y t.seen (rw (u.2, u.3) c)
      here x y e i j c (inr (inl (r, f, q, b))) =
          let s' : Books = record t.books {
            budget = t.books.budget + 1;
            merges = (pr.number, r.head) ∷ t.books.merges;
          } in
          recorded_counted (my x) y t.seen (
            rw
              (
                q,
                charge_attempts p w pr t.books pr.author s',
                charge_transients p w pr t.books pr.author s',
              )
              c)
      here x y e i j c (inr (inr (r, f, q))) =
          let same : x ≡ r.head = some-injective-path (sym e ∙ f) in
          rw (q, same) (at_key w pr t pr.number r.head i (j ∙ same) c)

      away :
          (x : ℕ)
          → (n == pr.number && h == x) ≡ false
          → Same p rid describe n h t.books out.1
          → IsDecided t ⊎ IsCounted t.books
          → IsBelow (recorded p rid describe (my x) out t.seen)
      away x o (i, _, j) (inr c) = recorded_counted (my x) out t.seen (rw (i, j) c)
      away x o (i, _, j) (inl (d, q)) = (
        rw (recorded_books p rid describe (my x) out t.seen, j) k.0,
        inl (
          d,
          recorded_other p rid describe n h (my x) out t.seen
                (other_head p rid describe n h pr.number x o)
              ∙ q,
        ),
      )

      open_key :
          automerge_decision (key p rid describe n h) t.seen ≡ none
          → IsDecided t ⊎ IsCounted t.books
          → IsCounted t.books
      open_key u (inl (d, q)) = absurd (cc)
      open_key u (inr c) = c

      evaluated :
          (x : ℕ)
          → pr.head ≡ some x
          → automerge_decision (my x) t.seen ≡ none
          → (b : Bool) → (n == pr.number && h == x) ≡ b
          → IsBelow (recorded p rid describe (my x) out t.seen)
      evaluated x e u true o =
          let (a, b) = both-true (n == pr.number) _ o in
          let i = ==→eq n pr.number a in
          let j = ==→eq h x b in
          here x out e i j (open_key (rw (i, j) u) k.1) (evaluate-Left p w pr t.books)
      evaluated x e u false o =
          away x o
            (other-Same p rid describe n h w pr x t.books out o e (evaluate-Left p w pr t.books))
            k.1

  -- The paid reviews of one head that end in a transient verdict are bounded. With MAX_REVIEW_ATTEMPTS
  -- at most 2^30, let the counter file of the head cover those made so far and be below
  -- MAX_REVIEW_ATTEMPTS. Then after any sequence of ticks, whatever the world answers in them and
  -- whether or not the counter file can be written, there have been at most MAX_REVIEW_ATTEMPTS of
  -- them, and the head is decided or the file still covers them and is below the ceiling.
  pub vain_reviews_are_bounded :
      (rounds : List (Bool × List (Host × PullRequest))) (t : Desk)
      → in_vain t.books ≤ count (t.books.attempts n h)
      → count (t.books.attempts n h) < p.max_review_attempts
      → (in_vain (ticks p rid describe rounds t).books ≤ p.max_review_attempts)
        × (IsDecided (ticks p rid describe rounds t)
            ⊎ IsCounted (ticks p rid describe rounds t).books)
  vain_reviews_are_bounded rounds t a b =
      ticks-keep p rid describe IsBelow look-IsBelow (λ t k. k) rounds t (counted-IsBelow t (a, b))
