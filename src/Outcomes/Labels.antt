-- ===== src/Outcomes/Labels.antt =====
-- The verbs that label a finding: human_dismiss, confirm_outcome, record_exec_prior, propose_outcome and
-- the sweep expire_open of src/runtime/ledger/postgres_store.py.
use myndaix_runtime.Prelude.{
  ℕ, ◌+◌, ◌*◌, Bool, true, false, not, ◌&&◌, ◌||◌, Option, none, some, List, [], ◌∷◌, ltb, leb,
  ◌==◌, bit, if◌then◌else◌, length,
}
use myndaix_runtime.Prelude.Texts.{codes, starts_with, member}
use myndaix_runtime.Contracts.{Text}
use myndaix_runtime.Controller.Target.{take}
use myndaix_runtime.Pool.{max}
use myndaix_runtime.Automerge.Screen.{rstrip, lstrip}
use myndaix_runtime.Outcomes.{
  Family, kilabz, oracle, Label, opened, dismissed_false_positive, dismissed_wontfix, expired,
  confirmed_real, panel_real, panel_fp, exec_real_prior, Source, by_human_dismiss, ttl_sweep,
  human_confirm, panel_proposed, exec_verified, source_code, Kind, real, fp, wontfix, SourceEvent,
  human, sweep, probe, panel, FindingOutcome, Outcomes, latest, is_of, finding_current,
  in_labelqueue, insert_row, findings_of,
}

-- principal_role
pub data Role : Type 0 where
  human_role admin exec_oracle labeler other_role : Role

abbrev pub is_human_role : Role → Bool
is_human_role human_role = true
is_human_role admin = true
is_human_role _ = false

abbrev pub is_exec_role : Role → Bool
is_exec_role exec_oracle = true
is_exec_role _ = false

abbrev pub is_labeler : Role → Bool
is_labeler labeler = true
is_labeler _ = false

-- What a verb answers: an exception, an error with the colliding keys, or the number of rows written.
pub data Answer : Type 0 where
  raises bad_prefix unknown_prefix no_such_finding : Answer
  ambiguous : List Text → Answer
  wrote : ℕ → Answer

-- family_or_all
pub data Families : Type 0 where
  all_families bad_family : Families
  one_family : Family → Families

abbrev pub families_of : Families → Option (List Family)
families_of all_families = some (kilabz ∷ oracle ∷ [])
families_of bad_family = none
families_of (one_family f) = some (f ∷ [])

-- A new row for the finding of an old one.
abbrev pub stamped : SourceEvent → Text → Label → Source → ℕ → FindingOutcome → FindingOutcome
stamped e tip l s now r = record r {
  source_event = e;
  tip_sha = tip;
  outcome = l;
  outcome_source = s;
  created_at = now;
}

abbrev hex_digits : Text
hex_digits = codes "0123456789abcdef"

unfoldable pub all_hex : Text → Bool
all_hex [] = true
all_hex (c ∷ s) = ((leb 48 c && leb c 57) || (leb 97 c && leb c 102)) && all_hex s

-- SELECT DISTINCT finding_key … LIKE prefix || '%'
abbrev pub add_key : Text → List Text → List Text
add_key k ks = if member k ks then ks else k ∷ ks

unfoldable pub matching_keys : Text → Outcomes → List Text
unfolding starts_with member
matching_keys prefix [] = []
matching_keys prefix (r ∷ t) =
    let rest = matching_keys prefix t in
    if starts_with prefix r.finding_key then add_key r.finding_key rest else rest

-- What human_dismiss may correct.
abbrev pub is_dismissable : Label → Bool
is_dismissable opened = true
is_dismissable dismissed_false_positive = true
is_dismissable dismissed_wontfix = true
is_dismissable _ = false

abbrev pub label_row :
    (Label → Bool)
    → SourceEvent
    → Label
    → Source
    → ℕ
    → Option FindingOutcome
    → Outcomes
    → Bool × Outcomes
label_row may e l s now none t = (false, t)
label_row may e l s now (some r) t =
    if may r.outcome then insert_row (stamped e r.tip_sha l s now r) t else (false, t)

-- One row per family.
unfoldable pub label_families :
    (Label → Bool) → Text → SourceEvent → Label → Source → ℕ → List Family → Outcomes → ℕ × Outcomes
unfolding finding_current insert_row
label_families may k e l s now [] t = (0, t)
label_families may k e l s now (f ∷ fs) t =
    let w = label_row may e l s now (finding_current k f t) t in
    let rest = label_families may k e l s now fs w.1 in (bit w.0 + rest.0, rest.1)

abbrev pub counted_rows : ℕ × Outcomes → Answer × Outcomes
counted_rows (n, t) = (wrote n, t)

abbrev pub label_key :
    (Label → Bool)
    → Kind
    → Label
    → Source
    → ℕ
    → List Family
    → List Text
    → Outcomes
    → Answer × Outcomes
label_key may kind l s now fs [] t = (unknown_prefix, t)
label_key may kind l s now fs (k ∷ []) t =
    counted_rows (label_families may k (human (take 12 k) kind) l s now fs t)
label_key may kind l s now fs (k ∷ k' ∷ ks) t = (ambiguous (k ∷ k' ∷ ks), t)

abbrev pub label_all :
    (Label → Bool)
    → Text
    → Kind
    → Label
    → Source
    → ℕ
    → Option (List Family)
    → Outcomes
    → Answer × Outcomes
label_all may prefix kind l s now none t = (raises, t)
label_all may prefix kind l s now (some fs) t =
    label_key may kind l s now fs (matching_keys prefix t) t

unfoldable pub good_prefix : Text → Bool
unfolding all_hex
good_prefix prefix = not (ltb (length prefix) 12) && all_hex prefix

-- str.isspace and str.lower
module _ (is_space : ℕ → Bool) (lower : Text → Text) where
  -- (finding_key_prefix or "").strip().lower()
  abbrev pub cleaned : Text → Text
  cleaned prefix = lower (rstrip is_space (lstrip is_space prefix))

  -- A kind that is neither is none.
  abbrev pub dismiss_kind : Text → Families → ℕ → Option Kind → Outcomes → Answer × Outcomes
  dismiss_kind prefix families now none t = (raises, t)
  dismiss_kind prefix families now (some real) t = (raises, t)
  dismiss_kind prefix families now (some fp) t =
      label_all is_dismissable prefix fp dismissed_false_positive by_human_dismiss now
        (families_of families) t
  dismiss_kind prefix families now (some wontfix) t =
      label_all is_dismissable prefix wontfix dismissed_wontfix by_human_dismiss now
        (families_of families) t

  unfoldable pub human_dismiss :
      Role → Text → Families → Option Kind → ℕ → Outcomes → Answer × Outcomes
  unfolding label_families matching_keys good_prefix rstrip lstrip
  human_dismiss role prefix families kind now t =
      if not (is_human_role role)
      then (raises, t)
      else if not (good_prefix (cleaned prefix))
      then (bad_prefix, t)
      else dismiss_kind (cleaned prefix) families now kind t

  abbrev pub confirm_as : Text → Families → ℕ → Kind → Label → Source → Outcomes → Answer × Outcomes
  confirm_as prefix families now kind l s t =
      if not (good_prefix prefix)
      then (bad_prefix, t)
      else label_all (λ _. true) prefix kind l s now (families_of families) t

  abbrev pub confirm_kind : Text → Families → ℕ → Option Kind → Outcomes → Answer × Outcomes
  confirm_kind prefix families now none t = (raises, t)
  confirm_kind prefix families now (some real) t =
      confirm_as prefix families now real confirmed_real human_confirm t
  confirm_kind prefix families now (some fp) t =
      confirm_as prefix families now fp dismissed_false_positive by_human_dismiss t
  confirm_kind prefix families now (some wontfix) t =
      confirm_as prefix families now wontfix dismissed_wontfix by_human_dismiss t

  unfoldable pub confirm_outcome :
      Role → Text → Families → Option Kind → ℕ → Outcomes → Answer × Outcomes
  unfolding label_families matching_keys good_prefix rstrip lstrip
  confirm_outcome role prefix families kind now t =
      if not (is_human_role role)
      then (raises, t)
      else confirm_kind (cleaned prefix) families now kind t

abbrev pub machine_row :
    SourceEvent
    → Option Text
    → Label
    → Source
    → ℕ
    → Option FindingOutcome
    → Outcomes
    → Answer × Outcomes
machine_row e tip l s now none t = (no_such_finding, t)
machine_row e none l s now (some r) t =
    let w = insert_row (stamped e r.tip_sha l s now r) t in (wrote (bit w.0), w.1)
machine_row e (some tip) l s now (some r) t =
    let w = insert_row (stamped e tip l s now r) t in (wrote (bit w.0), w.1)

unfoldable pub record_exec_prior :
    Text → Family → Role → Text → ℕ → ℕ → Outcomes → Answer × Outcomes
unfolding finding_current insert_row
record_exec_prior k f role tip day now t =
    if not (is_exec_role role)
    then (raises, t)
    else if ltb (length tip) 12
    then (raises, t)
    else machine_row (probe day (take 12 tip)) (some tip) exec_real_prior exec_verified now
        (finding_current k f t) t

abbrev pub propose_as : Text → Family → ℕ → ℕ → Option Kind → Outcomes → Answer × Outcomes
propose_as k f play now none t = (raises, t)
propose_as k f play now (some real) t =
    machine_row (panel play) none panel_real panel_proposed now (finding_current k f t) t
propose_as k f play now (some fp) t =
    machine_row (panel play) none panel_fp panel_proposed now (finding_current k f t) t
propose_as k f play now (some wontfix) t = (raises, t)

unfoldable pub propose_outcome :
    Text → Family → Option Kind → Role → ℕ → ℕ → Outcomes → Answer × Outcomes
unfolding finding_current insert_row
propose_outcome k f verdict role play now t =
    if not (is_labeler role) then (raises, t) else propose_as k f play now verdict t

abbrev pub later : ℕ → Option ℕ → Option ℕ
later n none = some n
later n (some m) = some (max n m)

-- max(created_at) of the review_raised rows
unfoldable pub raised_at : Text → Family → Outcomes → Option ℕ
unfolding is_of
raised_at k f [] = none
raised_at k f (r ∷ t) =
    let rest = raised_at k f t in
    if is_of k f r && source_code r.outcome_source == 0 then later r.created_at rest else rest

abbrev pub is_old : ℕ → ℕ → Option ℕ → Bool
is_old ttl_days now none = false
is_old ttl_days now (some at) = ltb (at + ttl_days * 86400) now

abbrev pub expire_row : ℕ → ℕ → Option FindingOutcome → Outcomes → Bool × Outcomes
expire_row day now none t = (false, t)
expire_row day now (some r) t = insert_row (stamped (sweep day) r.tip_sha expired ttl_sweep now r) t

-- One statement: the view is read on the table `before` it.
unfoldable pub expire_each : ℕ → ℕ → ℕ → Outcomes → List (Text × Family) → Outcomes → ℕ × Outcomes
unfolding latest is_of raised_at in_labelqueue insert_row
expire_each day ttl_days now before [] t = (0, t)
expire_each day ttl_days now before ((k, f) ∷ ps) t =
    let w =
      if in_labelqueue k f before && is_old ttl_days now (raised_at k f before)
      then expire_row day now (latest (is_of k f) before) t
      else (false, t) in
    let rest = expire_each day ttl_days now before ps w.1 in (bit w.0 + rest.0, rest.1)

unfoldable pub expire_open : ℕ → ℕ → ℕ → Outcomes → ℕ × Outcomes
unfolding expire_each findings_of
expire_open day ttl_days now t = expire_each day ttl_days now t (findings_of t) t
