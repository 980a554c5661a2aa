-- ===== src/Tests/Captures.antt =====
-- The theorems on the capture candidates at concrete rows.
use myndaix_runtime.Prelude.{◌≤◌, ◌≡◌, ◌⊎◌, true, refl, true, false, none, some, [], ◌∷◌, length}
use myndaix_runtime.Capture.{
  Candidate, CaptureState, accumulating, ready, proposing, Sighting, Thresholds, Occurrence,
  sighted, record_capture, eff_recur, may_ready, distinct_by, claim_for_proposing,
  mark_capture_proposed, release_proposing, released, judged, is_ready, recurrence_ready, seen,
  add_occurrence,
}
use myndaix_runtime.Capture.Fencing.{reaped_claim_is_fenced}
use myndaix_runtime.Capture.Recurrence.{ready_has_signal}

abbrev limits : Thresholds
limits = record { min_recur = 2; min_events = 2; min_authors = 1; repropose_mult = 2 }

abbrev once : Occurrence
once = record { commit_sha = 11; event_id = 21; author = 31 }

abbrev candidate : CaptureState → Candidate
candidate s = record {
  state = s;
  path_glob = none;
  branch = none;
  draft_sha = none;
  pr_number = none;
  proposed_at = none;
  decline_count = 0;
  occurrences = once ∷ [];
}

abbrev again : Sighting
again = record {
  commit_sha = 12;
  event_id = 22;
  author = 31;
  path_glob = none;
  cross_family = true;
  tag_allowed = true;
  tag_has_slug = true;
  from_skills = false;
}

abbrev readied : Candidate
readied = record (candidate ready) {
  occurrences = once ∷ record { commit_sha = 12; event_id = 22; author = 31 } ∷ [];
}

ready_has_signal_example :
    (again.cross_family ≡ true)
    × (may_ready (sighted again (some (candidate accumulating))).state ≡ true)
    × (readied.state ≡ ready)
    × (eff_recur limits (sighted again (some (candidate accumulating)))
        ≤ length readied.occurrences)
    × (2 ≤ length (distinct_by (λ o. o.event_id) readied.occurrences))
    × (1 ≤ length (distinct_by (λ o. o.author) readied.occurrences))
unfolding record_capture judged is_ready recurrence_ready sighted add_occurrence seen distinct_by
    eff_recur
ready_has_signal_example =
    ready_has_signal limits again (some (candidate accumulating)) readied refl

reaped_claim_is_fenced_example :
    let row = (claim_for_proposing 1 3 10 (some (released (candidate proposing)))).1 in
    ((false ≡ true)
      × ((mark_capture_proposed 1 2 7 20 row).0 ≡ true)
      × ((release_proposing 1 2 row).0 ≡ true))
    ⊎ ((false ≡ false)
        × (mark_capture_proposed 1 2 7 20 row ≡ (false, row))
        × (release_proposing 1 2 row ≡ (false, row)))
reaped_claim_is_fenced_example = reaped_claim_is_fenced 1 2 1 3 7 10 20 (candidate proposing) refl

abbrev claimed : Candidate
claimed = record (candidate proposing) {
  branch = some 1;
  draft_sha = some 2;
  proposed_at = some 10;
}
