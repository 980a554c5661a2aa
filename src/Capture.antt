-- ===== src/Capture.antt =====
-- The auto-capture state machine: record_capture and the proposer's verbs of
-- src/runtime/ledger/postgres_store.py, with the thresholds of src/runtime/capture.py. A candidate is
-- the row of one fingerprint, with the occurrences that its fingerprint has. The tests of the tag and
-- of the path (is_allowed_tag, slug, the prefix skills/) come as their answers in `Sighting`.
pub mod Recurrence
pub mod Fencing
use myndaix_runtime.Prelude.{
  ℕ, suc, ◌+◌, ◌-◌, ◌*◌, ◌^◌, Bool, true, false, not, ◌&&◌, ◌||◌, Option, none, some, List, [], ◌∷◌,
  ◌++◌, ltb, leb, ◌==◌, holds, mem, length, if◌then◌else◌,
}
use myndaix_runtime.Prelude.Table.{Table, update_where, count}
use myndaix_runtime.Cursor.Row.{cas}

pub data CaptureState : Type 0 where
  new accumulating ready proposing proposed promoted declined stale error : CaptureState

pub record Occurrence : Type 0 where
  pub commit_sha : ℕ
  pub event_id : ℕ
  pub author : ℕ

pub record Candidate : Type 0 where
  pub state : CaptureState
  pub path_glob : Option ℕ
  pub branch : Option ℕ
  pub draft_sha : Option ℕ
  pub pr_number : Option ℕ
  pub proposed_at : Option ℕ
  pub decline_count : ℕ
  pub occurrences : List Occurrence

-- One sighting, with what the guards of record_capture found of it.
pub record Sighting : Type 0 where
  pub commit_sha : ℕ
  pub event_id : ℕ
  pub author : ℕ
  pub path_glob : Option ℕ
  pub cross_family : Bool
  pub tag_allowed : Bool
  pub tag_has_slug : Bool
  pub from_skills : Bool

pub record Thresholds : Type 0 where
  pub min_recur : ℕ
  pub min_events : ℕ
  pub min_authors : ℕ
  pub repropose_mult : ℕ

-- capture.recurrence_ready
unfoldable pub recurrence_ready : ℕ → ℕ → ℕ → ℕ → ℕ → ℕ → Bool
recurrence_ready commits events authors min_recur min_events min_authors =
    leb min_recur commits && (leb min_events events && leb min_authors authors)

-- capture.reready_threshold
unfoldable pub reready_threshold : ℕ → ℕ → ℕ → ℕ
reready_threshold decline_count min_recur mult = min_recur * mult ^ decline_count

-- count(DISTINCT f)
unfoldable pub distinct_by : (Occurrence → ℕ) → List Occurrence → List ℕ
distinct_by f [] = []
distinct_by f (o ∷ os) = let rest = distinct_by f os in if mem (f o) rest then rest else f o ∷ rest

unfoldable pub seen : ℕ → List Occurrence → Bool
seen commit [] = false
seen commit (o ∷ os) = if o.commit_sha == commit then true else seen commit os

-- INSERT INTO capture_occurrence … ON CONFLICT (fingerprint, commit_sha) DO NOTHING
unfoldable pub add_occurrence : Sighting → List Occurrence → List Occurrence
unfolding seen
add_occurrence s os =
    if seen s.commit_sha os
    then os
    else os ++ record { commit_sha = s.commit_sha; event_id = s.event_id; author = s.author } ∷ []

abbrev pub coalesce : Option ℕ → Option ℕ → Option ℕ
coalesce (some a) b = some a
coalesce none b = b

-- The two upserts.
unfoldable pub sighted : Sighting → Option Candidate → Candidate
unfolding add_occurrence
sighted s none = record {
  state = new;
  path_glob = s.path_glob;
  branch = none;
  draft_sha = none;
  pr_number = none;
  proposed_at = none;
  decline_count = 0;
  occurrences = add_occurrence s [];
}
sighted s (some c) = record c {
  path_glob = coalesce s.path_glob c.path_glob;
  occurrences = add_occurrence s c.occurrences;
}

-- The commits that a class must show: more if it was declined or went stale.
unfoldable pub eff_recur : Thresholds → Candidate → ℕ
unfolding reready_threshold
eff_recur t c = elim c.state [
  | declined ↦ reready_threshold c.decline_count t.min_recur t.repropose_mult
  | stale ↦ reready_threshold c.decline_count t.min_recur t.repropose_mult
  | _ ↦ t.min_recur
]

abbrev pub may_ready : CaptureState → Bool
may_ready new = true
may_ready accumulating = true
may_ready declined = true
may_ready stale = true
may_ready _ = false

unfoldable pub is_ready : Thresholds → Candidate → Bool
unfolding eff_recur recurrence_ready distinct_by
is_ready t c =
    recurrence_ready (length c.occurrences) (length (distinct_by (λ o. o.event_id) c.occurrences))
      (length (distinct_by (λ o. o.author) c.occurrences)) (eff_recur t c) t.min_events
      t.min_authors

abbrev pub started : CaptureState → CaptureState
started new = accumulating
started s = s

-- The candidate after its counts were taken, and whether this call readied it.
unfoldable pub judged : Thresholds → Candidate → Bool × Candidate
judged t c =
    if may_ready c.state && is_ready t c
    then (true, record c { state = ready })
    else (false, record c { state = started c.state })

unfoldable pub record_capture : Thresholds → Sighting → Option Candidate → Bool × Option Candidate
record_capture t s row =
    if not s.cross_family || (not s.tag_allowed || (not s.tag_has_slug || s.from_skills))
    then (false, row)
    else let (answer, c) = judged t (sighted s row) in (answer, some c)

abbrev pub is_state : CaptureState → CaptureState → Bool
is_state ready ready = true
is_state proposing proposing = true
is_state proposed proposed = true
is_state _ _ = false

unfoldable pub claim_for_proposing : ℕ → ℕ → ℕ → Option Candidate → Bool × Option Candidate
unfolding cas
claim_for_proposing branch draft now =
    cas (λ c. is_state ready c.state)
      (λ c. record c {
        branch = some branch;
        draft_sha = some draft;
        state = proposing;
        proposed_at = some now;
      })

-- proposed_at IS NOT NULL AND proposed_at < now() - interval
abbrev pub older_than : ℕ → ℕ → Option ℕ → Bool
older_than now age none = false
older_than now age (some t) = ltb (t + age) now

abbrev pub released : Candidate → Candidate
released c = record c { state = ready; branch = none; draft_sha = none }

unfoldable pub is_stuck : ℕ → ℕ → Candidate → Bool
is_stuck timeout now c = is_state proposing c.state && older_than now timeout c.proposed_at

unfoldable pub reap_stuck_proposing : ℕ → ℕ → Table Candidate → ℕ × Table Candidate
unfolding is_stuck
reap_stuck_proposing timeout now t = (
  count (λ _ c. is_stuck timeout now c) t,
  update_where (λ _ c. is_stuck timeout now c) released t,
)

-- state = 'proposing' AND branch = $2 AND draft_sha = $3
abbrev pub owns : ℕ → ℕ → Candidate → Bool
owns branch draft c =
    is_state proposing c.state && (holds c.branch branch && holds c.draft_sha draft)

unfoldable pub mark_capture_proposed : ℕ → ℕ → ℕ → ℕ → Option Candidate → Bool × Option Candidate
unfolding cas
mark_capture_proposed branch draft pr now =
    cas (owns branch draft)
      (λ c. record c { state = proposed; pr_number = some pr; proposed_at = some now })

unfoldable pub release_proposing : ℕ → ℕ → Option Candidate → Bool × Option Candidate
unfolding cas
release_proposing branch draft = cas (owns branch draft) released

-- The outcomes that resolve_capture accepts; any other raises ValueError.
pub data CaptureOutcome : Type 0 where
  merged closed expired : CaptureOutcome

abbrev pub turned_down : CaptureState → Candidate → Candidate
turned_down s c = record c {
  state = s;
  decline_count = c.decline_count + 1;
  branch = none;
  draft_sha = none;
  pr_number = none;
  proposed_at = none;
}

abbrev pub resolution : CaptureOutcome → Candidate → Candidate
resolution merged c = record c { state = promoted }
resolution closed c = turned_down declined c
resolution expired c = turned_down stale c

unfoldable pub resolve_capture : CaptureOutcome → Option Candidate → Bool × Option Candidate
unfolding cas
resolve_capture outcome = cas (λ c. is_state proposed c.state) (resolution outcome)

unfoldable pub is_due : ℕ → ℕ → Candidate → Bool
is_due ttl now c = is_state proposed c.state && older_than now ttl c.proposed_at

unfoldable pub expire_stale_captures : ℕ → ℕ → Table Candidate → Table Candidate
unfolding is_due
expire_stale_captures ttl now t = update_where (λ _ c. is_due ttl now c) (turned_down stale) t

unfoldable pub count_open_proposals : Table Candidate → ℕ
count_open_proposals t = count (λ _ c. is_state proposing c.state || is_state proposed c.state) t
