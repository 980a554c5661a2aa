-- ===== src/Capture/Fencing.antt =====
-- Two proposers on one candidate (src/runtime/ledger/postgres_store.py).
use myndaix_runtime.Prelude.{
  ℕ, ◌≡◌, ◌⊎◌, inl, inr, Bool-cases, ◌&&◌, ◌==◌, true, false, Option, none, some, arith,
}
use myndaix_runtime.Capture.{
  Candidate, proposing, claim_for_proposing, mark_capture_proposed, release_proposing, released,
}

-- A proposer whose claim was reaped, and whose candidate another proposer then claimed, is fenced by
-- the branch and the draft of the two claims and by nothing else: where these are the same, its late
-- mark and its late release take effect on the claim of the other; where either differs, both answer
-- False and the row stays.
pub reaped_claim_is_fenced :
    (branch draft branch' draft' pr now later : ℕ) (c : Candidate)
    → c.state ≡ proposing
    → let row = (claim_for_proposing branch' draft' now (some (released c))).1 in
      (((branch == branch' && draft == draft') ≡ true)
        × ((mark_capture_proposed branch draft pr later row).0 ≡ true)
        × ((release_proposing branch draft row).0 ≡ true))
      ⊎ (((branch == branch' && draft == draft') ≡ false)
          × (mark_capture_proposed branch draft pr later row ≡ (false, row))
          × (release_proposing branch draft row ≡ (false, row)))
unfolding claim_for_proposing mark_capture_proposed release_proposing
reaped_claim_is_fenced branch draft branch' draft' pr now later c s =
    elim (Bool-cases (branch == branch' && draft == draft')) [
      | inl e ↦ inl (e, ground arith, ground arith)
      | inr e ↦ inr (e, ground arith, ground arith)
    ]

-- Of two proposers that claim one candidate, the second gets False and changes nothing.
claim_once :
    (branch draft branch' draft' now later : ℕ) (row row' : Option Candidate)
    → claim_for_proposing branch draft now row ≡ (true, row')
    → claim_for_proposing branch' draft' later row' ≡ (false, row')
unfolding claim_for_proposing
claim_once branch draft branch' draft' now later none row' e = absurd (cc)
claim_once branch draft branch' draft' now later (some c) row' e = ground arith
