-- ===== src/Cursor/Review/Shape.antt =====
-- What the verbs keep of a review cursor's row.
use myndaix_runtime.Prelude.{
  ℕ, ◌≡◌, refl, Bool, true, false, Option, none, some, List, [], ◌∷◌, arith, is_none, not, ◌⊎◌, inl,
  inr,
}
use myndaix_runtime.Cursor.Row.{cas-keeps, RowHolds}
use myndaix_runtime.Cursor.Review.{
  ReviewCursor, CursorState, baseline, dispatching, delivered, blocked, Call, seeds, claims,
  releases, forgives, advances, skips, blocks, call, run,
}

-- A head is pending exactly in the states 'dispatching' and 'blocked'.
abbrev pub waits_for_head : CursorState → Bool
waits_for_head dispatching = true
waits_for_head blocked = true
waits_for_head baseline = false
waits_for_head delivered = false

-- The shape of a row: a head is pending exactly while one is in flight or blocked, and the other
-- states have no attempts.
abbrev pub IsShaped : ReviewCursor → Type 0
IsShaped c =
    (waits_for_head c.state ≡ not (is_none c.pending_sha))
    × ((c.attempts ≡ 0) ⊎ (waits_for_head c.state ≡ true))

pub call-IsShaped :
    (now : ℕ) (k : Call) (row : Option ReviewCursor)
    → RowHolds IsShaped row
    → RowHolds IsShaped (call now k row).1
unfolding call
call-IsShaped now (seeds h) none s = (refl, inl refl)
call-IsShaped now (seeds h) (some c) s = s
call-IsShaped now (claims h b) row s = cas-keeps IsShaped _ _ row (λ c t p. (refl, inr refl)) s
call-IsShaped now (releases h) row s = cas-keeps IsShaped _ _ row (λ c t p. p) s
call-IsShaped now (forgives h) row s =
    cas-keeps IsShaped _ _ row (λ c t p. (ground arith, inr refl)) s
call-IsShaped now (advances h) row s = cas-keeps IsShaped _ _ row (λ c t p. (refl, inl refl)) s
call-IsShaped now (skips h) row s = cas-keeps IsShaped _ _ row (λ c t p. (refl, inl refl)) s
call-IsShaped now (blocks h m) row s =
    cas-keeps IsShaped _ _ row (λ c t p. (ground arith, inr refl)) s

run_from-IsShaped :
    (cs : List (ℕ × Call)) (row : Option ReviewCursor)
    → RowHolds IsShaped row
    → RowHolds IsShaped (run cs row)
unfolding run
run_from-IsShaped [] row h = h
run_from-IsShaped ((now, c) ∷ cs) row h =
    run_from-IsShaped cs (call now c row).1 (call-IsShaped now c row h)

-- After any calls on an unseen ref, a head is pending exactly in the states 'dispatching' and
-- 'blocked', and a row in another state has no attempts.
run-IsShaped : (cs : List (ℕ × Call)) → RowHolds IsShaped (run cs none)
run-IsShaped cs = run_from-IsShaped cs none tt
