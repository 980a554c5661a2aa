-- ===== src/Cursor/Review/Gate.antt =====
-- claim_dispatch as a gate: who may dispatch a head, and when.
use myndaix_runtime.Prelude.{
  ℕ, ◌+◌, ◌≤◌, ◌<◌, ◌≡◌, ◌≢◌, refl, true, false, Option, none, some, arith,
}
use myndaix_runtime.Cursor.Review.{
  ReviewCursor, dispatching, blocked, claim_dispatch, forgive_transient, mark_blocked,
  advance_cursor,
}

-- A won claim shuts the gate for every head, as long as callers call a dispatch stale only if it
-- began before the claim.
pub claim_shuts_gate :
    (head other stale now later stale' : ℕ) (row row' : Option ReviewCursor)
    → claim_dispatch head stale now row ≡ (true, row')
    → stale' ≤ now
    → claim_dispatch other stale' later row' ≡ (false, row')
unfolding claim_dispatch
claim_shuts_gate head other stale now later stale' none row' e s = absurd (cc)
claim_shuts_gate head other stale now later stale' (some c) row' e s = ground arith

-- A head that is blocked is never claimed again, at any instant; a new head that is not yet reviewed
-- is, with one attempt.
blocked_is_sticky :
    (head other stale now : ℕ) (c : ReviewCursor)
    → c.state ≡ blocked
    → c.pending_sha ≡ some head
    → other ≢ head
    → other ≢ c.reviewed_sha
    → ((claim_dispatch head stale now (some c)).0 ≡ false)
      × (claim_dispatch other stale now (some c) ≡ (
        true,
        some (record c {
          pending_sha = some other;
          state = dispatching;
          attempts = 1;
          updated_at = now;
        }),
      ))
unfolding claim_dispatch
blocked_is_sticky head other stale now c b p n r = (ground arith, ground arith)

-- A transient failure is free: forgiving the dispatch of a head and claiming it again leaves the
-- number of its attempts as it was.
forgive_refunds :
    (head stale now : ℕ) (c : ReviewCursor)
    → c.state ≡ dispatching
    → c.pending_sha ≡ some head
    → c.reviewed_sha ≢ head
    → 0 < c.attempts
    → 0 < stale
    → claim_dispatch head stale now (forgive_transient head (some c)).1
      ≡ (true, some (record c { updated_at = now }))
unfolding claim_dispatch forgive_transient
forgive_refunds head stale now c d p r a s = ground arith

-- The blocked ceiling: from a dispatch of `head` that has not been forgiven, each further stale claim
-- of it costs one attempt, and once max_attempts are used mark_blocked takes the row.
reclaim_counts :
    (head stale now max now' : ℕ) (c : ReviewCursor)
    → c.pending_sha ≡ some head
    → c.state ≡ dispatching
    → c.reviewed_sha ≢ head
    → c.updated_at < stale
    → max ≤ c.attempts + 1
    → mark_blocked head max now' (claim_dispatch head stale now (some c)).1
      ≡ (true, some (record c { state = blocked; attempts = c.attempts + 1; updated_at = now' }))
unfolding claim_dispatch mark_blocked
reclaim_counts head stale now max now' c p d r s m = ground arith

-- A review is recorded for a head only while that head is pending, and then the row is delivered
-- with no attempts; otherwise advance_cursor changes nothing.
pub advance_needs_pending :
    (head now : ℕ) (row : Option ReviewCursor) (c' : ReviewCursor)
    → advance_cursor head now row ≡ (true, some c')
    → (c : ReviewCursor) × (row ≡ some c)
      × (c.pending_sha ≡ some head)
      × (c'.reviewed_sha ≡ head)
      × (c'.pending_sha ≡ none)
      × (c'.attempts ≡ 0)
unfolding advance_cursor
advance_needs_pending head now none c' e = absurd (cc)
advance_needs_pending head now (some c) c' e =
    (c, refl, ground arith, ground arith, ground arith, ground arith)
