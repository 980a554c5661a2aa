-- ===== src/Outcomes/Review.antt =====
-- record_findings of src/runtime/ledger/postgres_store.py: what one delivered review closes and opens.
-- sha256 is a parameter.
use myndaix_runtime.Prelude.{
  ℕ, ◌+◌, Bool, true, false, not, ◌&&◌, ◌||◌, Option, none, some, List, [], ◌∷◌, ◌++◌, ◌≡◌, ◌==◌,
  bit, if◌then◌else◌, mem,
}
use myndaix_runtime.Prelude.Texts.{same_text}
use myndaix_runtime.Contracts.{Text}
use myndaix_runtime.Outcomes.{
  Family, same_family, opened, applied_fixed, label_code, review_raised, auto_fix_landed, review,
  FindingOutcome, Outcomes, is_of, finding_current, insert_row, findings_of,
}

-- One review: its arguments, and finding_key of src/runtime/outcomes.py.
pub record Review : Type 0 where
  pub repo_id : ℕ
  pub ref : ℕ
  pub tip_sha : Text
  pub play : ℕ
  pub changed_paths : List ℕ
  pub present_hashes : ℕ → Option (List ℕ)
  pub key_of : ℕ → ℕ → ℕ → ℕ → Text
  pub now : ℕ

-- An entry of open_findings.
pub record Found : Type 0 where
  pub tag : ℕ
  pub path : ℕ
  pub line_hash : ℕ
  pub reviewer_family : Family

-- by_key[(fk, fam)] = …
abbrev pub put : Text → Found → List (Text × Found) → List (Text × Found)
put k f [] = (k, f) ∷ []
put k f ((l, g) ∷ fs) =
    let rest = put k f fs in
    if same_text l k && same_family g.reviewer_family f.reviewer_family
    then (k, f) ∷ fs
    else (l, g) ∷ rest

unfoldable pub by_key : (Found → Text) → List Found → List (Text × Found) → List (Text × Found)
unfolding same_text
by_key key [] fs = fs
by_key key (f ∷ rest) fs = by_key key rest (put (key f) f fs)

abbrev pub is_open : FindingOutcome → Bool
is_open r = label_code r.outcome == 0

-- The earliest 'open' row of a finding: the last in the list.
unfoldable pub origin : Text → Family → Outcomes → Option FindingOutcome
unfolding is_of
origin k f [] = none
origin k f (r ∷ t) = elim (origin k f t) [
  | none ↦ if is_of k f r && is_open r then some r else none
  | some o ↦ some o
]

abbrev pub has_ref : ℕ → Option FindingOutcome → Bool
has_ref ref none = false
has_ref ref (some r) = r.ref == ref

-- A human label is sticky.
abbrev pub is_sticky : Option FindingOutcome → Bool
is_sticky none = false
is_sticky (some r) =
    label_code r.outcome == 2 || (label_code r.outcome == 3 || label_code r.outcome == 6)

-- The dictionary that record_findings returns.
pub record Tally : Type 0 where
  pub closed : ℕ
  pub opened_count : ℕ
  pub skipped : ℕ
  pub opened_rows : List FindingOutcome

module _ (v : Review) where
  abbrev pub may_close : Option FindingOutcome → Outcomes → Bool
  may_close none t = false
  may_close (some r) t =
      r.repo_id == v.repo_id
      && (is_open r
          && (mem r.path v.changed_paths
              && has_ref v.ref (origin r.finding_key r.reviewer_family t)))

  -- The current row of a finding, which may be closed.
  abbrev pub MayClose : Outcomes → FindingOutcome → Type 0
  MayClose t r =
      (k : Text) × (f : Family) × (finding_current k f t ≡ some r) × (may_close (some r) t ≡ true)

  -- open_rows
  unfoldable pub open_rows : List (Text × Family) → Outcomes → List FindingOutcome
  unfolding finding_current origin
  open_rows [] t = []
  open_rows ((k, f) ∷ ps) t =
      let rest = open_rows ps t in
      elim (finding_current k f t) [
        | none ↦ rest
        | some r ↦ if may_close (some r) t then r ∷ rest else rest
      ]

  abbrev pub closing : FindingOutcome → FindingOutcome
  closing r = record r {
    repo_id = v.repo_id;
    ref = v.ref;
    source_event = review v.play;
    tip_sha = v.tip_sha;
    outcome = applied_fixed;
    outcome_source = auto_fix_landed;
    created_at = v.now;
  }

  -- Presence that is not known closes nothing.
  abbrev pub is_gone : ℕ → Option (List ℕ) → Bool
  is_gone h none = false
  is_gone h (some hashes) = not (mem h hashes)

  unfoldable pub close_each : List FindingOutcome → Outcomes → ℕ × Outcomes
  unfolding insert_row
  close_each [] t = (0, t)
  close_each (r ∷ rs) t =
      let w =
        if is_gone r.line_hash (v.present_hashes r.path)
        then insert_row (closing r) t
        else (false, t) in
      let rest = close_each rs w.1 in (bit w.0 + rest.0, rest.1)

  abbrev pub raised_row : Text → Found → FindingOutcome
  raised_row k f = record {
    finding_key = k;
    repo_id = v.repo_id;
    ref = v.ref;
    rule_tag = f.tag;
    reviewer_family = f.reviewer_family;
    path = f.path;
    line_hash = f.line_hash;
    source_event = review v.play;
    tip_sha = v.tip_sha;
    outcome = opened;
    outcome_source = review_raised;
    created_at = v.now;
  }

  abbrev pub counted_open : FindingOutcome → Bool → Tally → Tally
  counted_open r true n = record n {
    opened_count = n.opened_count + 1;
    opened_rows = n.opened_rows ++ r ∷ [];
  }
  counted_open r false n = n

  unfoldable pub open_each : List (Text × Found) → Tally × Outcomes → Tally × Outcomes
  unfolding finding_current insert_row
  open_each [] s = s
  open_each ((k, f) ∷ fs) (n, t) =
      if is_sticky (finding_current k f.reviewer_family t)
      then open_each fs (record n { skipped = n.skipped + 1 }, t)
      else let w = insert_row (raised_row k f) t in
        open_each fs (counted_open (raised_row k f) w.0 n, w.1)

  unfoldable pub record_findings : List Found → Outcomes → Tally × Outcomes
  unfolding open_rows close_each open_each by_key findings_of
  record_findings found t =
      let c = close_each (open_rows (findings_of t) t) t in
      open_each (by_key (λ f. v.key_of v.repo_id f.tag f.path f.line_hash) found [])
        (record { closed = c.0; opened_count = 0; skipped = 0; opened_rows = [] }, c.1)
