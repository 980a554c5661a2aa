-- ===== src/Outcomes.antt =====
-- The outcomes of review findings: record_findings, human_dismiss, expire_open, confirm_outcome,
-- record_exec_prior and propose_outcome of src/runtime/ledger/postgres_store.py, on the append-only
-- table finding_outcome and its views of src/runtime/ledger/migrations. The rows stand with the highest
-- seq first; a repository, ref, tag, path or hash of a line is a number, a key or a tip its text.

pub mod Appends
pub mod Calls
pub mod Closes
pub mod Queue
pub mod Labels
pub mod Review
mod Sticky
mod Recorded
use myndaix_runtime.Prelude.{
  ℕ, ◌+◌, ◌*◌, Bool, true, false, not, ◌&&◌, ◌||◌, Option, none, some, List, [], ◌∷◌, ltb, leb,
  ◌==◌, bit, if◌then◌else◌, mem, length, is_some,
}
use myndaix_runtime.Prelude.Texts.{codes, same_text, starts_with, member}
use myndaix_runtime.Contracts.{Text}
use myndaix_runtime.Controller.Target.{take}
use myndaix_runtime.Pool.{max}
use myndaix_runtime.Automerge.Screen.{rstrip, lstrip}

pub data Family : Type 0 where
  kilabz oracle : Family

abbrev pub same_family : Family → Family → Bool
same_family kilabz kilabz = true
same_family kilabz oracle = false
same_family oracle kilabz = false
same_family oracle oracle = true

-- The column outcome; the value 'open' is opened here.
pub data Label : Type 0 where
  opened applied_fixed dismissed_false_positive dismissed_wontfix reverted expired : Label
  confirmed_real panel_real panel_fp exec_real_prior : Label

abbrev pub label_code : Label → ℕ
label_code opened = 0
label_code applied_fixed = 1
label_code dismissed_false_positive = 2
label_code dismissed_wontfix = 3
label_code reverted = 4
label_code expired = 5
label_code confirmed_real = 6
label_code panel_real = 7
label_code panel_fp = 8
label_code exec_real_prior = 9

pub data Source : Type 0 where
  review_raised auto_fix_landed auto_git_revert by_human_dismiss ttl_sweep human_confirm : Source
  panel_proposed exec_verified : Source

abbrev pub source_code : Source → ℕ
source_code review_raised = 0
source_code auto_fix_landed = 1
source_code auto_git_revert = 2
source_code by_human_dismiss = 3
source_code ttl_sweep = 4
source_code human_confirm = 5
source_code panel_proposed = 6
source_code exec_verified = 7

-- The CHECK finding_outcome_source_outcome_pair.
abbrev pub is_pair : Source → Label → Bool
is_pair review_raised l = label_code l == 0
is_pair auto_fix_landed l = label_code l == 1
is_pair auto_git_revert l = label_code l == 4
is_pair by_human_dismiss l = label_code l == 2 || label_code l == 3
is_pair ttl_sweep l = label_code l == 5
is_pair human_confirm l = label_code l == 6
is_pair exec_verified l = label_code l == 9
is_pair panel_proposed l = label_code l == 7 || label_code l == 8

pub data Kind : Type 0 where
  real fp wontfix : Kind

abbrev pub kind_code : Kind → ℕ
kind_code real = 0
kind_code fp = 1
kind_code wontfix = 2

-- 'review:<play>', 'human:<key12>:<kind>', 'sweep:<utcday>', 'probe:<utcday>:<tip12>', 'panel:<play>'
pub data SourceEvent : Type 0 where
  review : ℕ → SourceEvent
  human : Text → Kind → SourceEvent
  sweep : ℕ → SourceEvent
  probe : ℕ → Text → SourceEvent
  panel : ℕ → SourceEvent

unfoldable pub same_event : SourceEvent → SourceEvent → Bool
same_event (review a) (review b) = a == b
same_event (human k a) (human l b) = same_text k l && kind_code a == kind_code b
same_event (sweep a) (sweep b) = a == b
same_event (probe d t) (probe e u) = d == e && same_text t u
same_event (panel a) (panel b) = a == b
same_event _ _ = false

-- A row of finding_outcome; its seq is its place.
pub record FindingOutcome : Type 0 where
  pub finding_key : Text
  pub repo_id : ℕ
  pub ref : ℕ
  pub rule_tag : ℕ
  pub reviewer_family : Family
  pub path : ℕ
  pub line_hash : ℕ
  pub source_event : SourceEvent
  pub tip_sha : Text
  pub outcome : Label
  pub outcome_source : Source
  pub created_at : ℕ

abbrev pub Outcomes : Type 0
Outcomes = List FindingOutcome

abbrev pub is_human : Source → Bool
is_human by_human_dismiss = true
is_human human_confirm = true
is_human _ = false

-- The newest row that satisfies a condition.
unfoldable pub latest : (FindingOutcome → Bool) → Outcomes → Option FindingOutcome
latest p [] = none
latest p (r ∷ t) = if p r then some r else latest p t

unfoldable pub is_of : Text → Family → FindingOutcome → Bool
is_of k f r = same_text r.finding_key k && same_family r.reviewer_family f

abbrev pub or_else : Option FindingOutcome → Option FindingOutcome → Option FindingOutcome
or_else none y = y
or_else (some r) y = some r

-- The view finding_current: any human row is terminal, then the latest row.
unfoldable pub finding_current : Text → Family → Outcomes → Option FindingOutcome
unfolding latest is_of
finding_current k f t =
    or_else (latest (λ r. is_of k f r && is_human r.outcome_source) t) (latest (is_of k f) t)

abbrev pub is_toggle : Source → Bool
is_toggle review_raised = true
is_toggle ttl_sweep = true
is_toggle _ = false

abbrev pub is_expired : Option FindingOutcome → Bool
is_expired none = false
is_expired (some r) = label_code r.outcome == 5

-- Whether the view finding_labelqueue has a row of the finding.
unfoldable pub in_labelqueue : Text → Family → Outcomes → Bool
unfolding latest is_of
in_labelqueue k f t =
    is_some (latest (is_of k f) t)
    && (not (is_some (latest (λ r. is_of k f r && is_human r.outcome_source) t))
        && not (is_expired (latest (λ r. is_of k f r && is_toggle r.outcome_source) t)))

-- The unique index finding_outcome_event_src_once.
unfoldable pub same_tuple : FindingOutcome → FindingOutcome → Bool
unfolding is_of same_event
same_tuple r s =
    is_of r.finding_key r.reviewer_family s
    && (label_code s.outcome == label_code r.outcome
        && (source_code s.outcome_source == source_code r.outcome_source
            && same_event s.source_event r.source_event))

unfoldable pub any_row : (FindingOutcome → Bool) → Outcomes → Bool
any_row p [] = false
any_row p (r ∷ t) = p r || any_row p t

-- INSERT … ON CONFLICT DO NOTHING RETURNING id
unfoldable pub insert_row : FindingOutcome → Outcomes → Bool × Outcomes
unfolding any_row same_tuple
insert_row r t = if any_row (same_tuple r) t then (false, t) else (true, r ∷ t)

-- The findings that have rows, each once.
abbrev add_pair : Text → Family → List (Text × Family) → List (Text × Family)
add_pair k f [] = (k, f) ∷ []
add_pair k f ((l, g) ∷ ps) =
    let rest = add_pair k f ps in
    if same_text l k && same_family g f then (l, g) ∷ ps else (l, g) ∷ rest

unfoldable pub findings_of : Outcomes → List (Text × Family)
unfolding same_text
findings_of [] = []
findings_of (r ∷ t) = add_pair r.finding_key r.reviewer_family (findings_of t)
