-- ===== src/Capture/Recurrence.antt =====
-- When a class of findings becomes ready (record_capture in src/runtime/ledger/postgres_store.py).
use myndaix_runtime.Prelude.{
  ℕ, ◌+◌, ◌≤◌, ◌*◌, ◌^◌, ◌≡◌, refl, true, Option, none, some, List, [], ◌∷◌, ◌++◌, arith, length,
  sym, subst, leb, ◌&&◌, ◌≢◌, inl, inr, Bool-cases,
}
use myndaix_runtime.Cursor.Row.{cas}
use myndaix_runtime.Capture.{
  Candidate, ready, Occurrence, Sighting, Thresholds, sighted, judged, is_ready, eff_recur,
  recurrence_ready, reready_threshold, record_capture, seen, add_occurrence, distinct_by, may_ready,
  resolve_capture, CaptureOutcome, closed, expired, merged, resolution,
}

judged-ready :
    (t : Thresholds) (c c' : Candidate)
    → judged t c ≡ (true, c')
    → (may_ready c.state ≡ true) × (is_ready t c ≡ true) × (c' ≡ record c { state = ready })
unfolding judged
judged-ready t c c' e = (ground arith, ground arith, ground arith)

is_ready-counts :
    (t : Thresholds) (c : Candidate)
    → is_ready t c ≡ true
    → (eff_recur t c ≤ length c.occurrences)
      × (t.min_events ≤ length (distinct_by (λ o. o.event_id) c.occurrences))
      × (t.min_authors ≤ length (distinct_by (λ o. o.author) c.occurrences))
is_ready-counts t c e = counts (unfold is_ready recurrence_ready in e)
  where
    counts :
        (leb (eff_recur t c) (length c.occurrences)
            && (leb t.min_events (length (distinct_by (λ o. o.event_id) c.occurrences))
                && leb t.min_authors (length (distinct_by (λ o. o.author) c.occurrences))))
          ≡ true
        → (eff_recur t c ≤ length c.occurrences)
          × (t.min_events ≤ length (distinct_by (λ o. o.event_id) c.occurrences))
          × (t.min_authors ≤ length (distinct_by (λ o. o.author) c.occurrences))
    counts h = (ground arith, ground arith, ground arith)

record_capture-judged :
    (t : Thresholds) (s : Sighting) (row : Option Candidate) (c : Candidate)
    → record_capture t s row ≡ (true, some c)
    → (s.cross_family ≡ true) × (judged t (sighted s row) ≡ (true, c))
unfolding record_capture
record_capture-judged t s row c e = (ground arith, ground arith)

-- record_capture answers that a class became ready only for a sighting that both families agree on
-- and from a state that may become ready, with at least the required commits, events and authors;
-- the row then is 'ready'.
pub ready_has_signal :
    (t : Thresholds) (s : Sighting) (row : Option Candidate) (c : Candidate)
    → record_capture t s row ≡ (true, some c)
    → (s.cross_family ≡ true)
      × (may_ready (sighted s row).state ≡ true)
      × (c.state ≡ ready)
      × (eff_recur t (sighted s row) ≤ length c.occurrences)
      × (t.min_events ≤ length (distinct_by (λ o. o.event_id) c.occurrences))
      × (t.min_authors ≤ length (distinct_by (λ o. o.author) c.occurrences))
ready_has_signal t s row c e =
    let (x, j) = record_capture-judged t s row c e in
    let (m, r, q) = judged-ready t (sighted s row) c j in
    let (n, v, a) = is_ready-counts t (sighted s row) r in (x, m, rw q refl, rw q n, rw q v, rw q a)

seen-append :
    (k : ℕ) (os : List Occurrence) (o : Occurrence)
    → o.commit_sha ≡ k
    → seen k (os ++ o ∷ []) ≡ true
unfolding seen
seen-append k [] o e = ground arith
seen-append k (x ∷ os) o e = ground (arith, seen-append k os o e)

seen-add_occurrence :
    (s : Sighting) (os : List Occurrence) → seen s.commit_sha (add_occurrence s os) ≡ true
unfolding add_occurrence
seen-add_occurrence s os = elim (Bool-cases (seen s.commit_sha os)) [
  | inl e ↦ rw e e
  | inr e ↦ rw e (seen-append s.commit_sha os _ refl)
]

seen-sighted :
    (s : Sighting) (row : Option Candidate) → seen s.commit_sha (sighted s row).occurrences ≡ true
unfolding sighted
seen-sighted s none = seen-add_occurrence s []
seen-sighted s (some c) = seen-add_occurrence s c.occurrences

sighted-again :
    (s : Sighting) (c : Candidate)
    → seen s.commit_sha c.occurrences ≡ true
    → (sighted s (some c)).occurrences ≡ c.occurrences
unfolding sighted add_occurrence
sighted-again s c e = rw e refl

-- A commit counts once: a further sighting of a commit that the class has adds no occurrence, from
-- whatever event or author.
same_commit_counts_once :
    (s s' : Sighting) (row : Option Candidate)
    → s'.commit_sha ≡ s.commit_sha
    → (sighted s' (some (sighted s row))).occurrences ≡ (sighted s row).occurrences
same_commit_counts_once s s' row e =
    sighted-again s' (sighted s row)
      (subst (λ k. seen k (sighted s row).occurrences ≡ true) (sym e) (seen-sighted s row))

resolve_capture-row :
    (x : CaptureOutcome) (c c' : Candidate)
    → resolve_capture x (some c) ≡ (true, some c')
    → c' ≡ resolution x c
unfolding resolve_capture cas
resolve_capture-row x c c' e = ground arith

eff_recur-resolution :
    (t : Thresholds) (x : CaptureOutcome) (c : Candidate)
    → x ≢ merged
    → eff_recur t (resolution x c) ≡ t.min_recur * t.repropose_mult ^ (c.decline_count + 1)
unfolding eff_recur reready_threshold
eff_recur-resolution t merged c n = absurd (n refl)
eff_recur-resolution t closed c n = refl
eff_recur-resolution t expired c n = refl

-- A class that was turned down n times needs min_recur * mult ^ n distinct commits to come back: the
-- next time it is turned down the threshold is multiplied again.
decline_raises_threshold :
    (t : Thresholds) (x : CaptureOutcome) (c c' : Candidate)
    → x ≢ merged
    → resolve_capture x (some c) ≡ (true, some c')
    → eff_recur t c' ≡ t.min_recur * t.repropose_mult ^ (c.decline_count + 1)
decline_raises_threshold t x c c' n e =
    rw (resolve_capture-row x c c' e) (eff_recur-resolution t x c n)
