-- ===== src/Outcomes/Calls.antt =====
-- The verbs on finding_outcome, called one after the other: what a human has labelled stays labelled, and
-- no event is recorded twice.
use myndaix_runtime.Prelude.{
  ℕ, ◌≡◌, refl, Bool, true, false, not, Option, none, some, List, [], ◌∷◌, arith,
}
use myndaix_runtime.Contracts.{Text}
use myndaix_runtime.Outcomes.{
  Family, Label, Source, SourceEvent, Kind, real, fp, wontfix, human_confirm, by_human_dismiss,
  confirmed_real, dismissed_wontfix, dismissed_false_positive, FindingOutcome, Outcomes, is_human,
  is_pair, finding_current, any_row, same_tuple,
}
use myndaix_runtime.Outcomes.Labels.{
  Role, Answer, Families, is_human_role, families_of, stamped, is_dismissable, dismiss_kind,
  human_dismiss, confirm_as, confirm_kind, confirm_outcome, record_exec_prior, propose_outcome,
  expire_open, good_prefix, cleaned,
}
use myndaix_runtime.Outcomes.Review.{Review, Found, record_findings}
use myndaix_runtime.Outcomes.Appends.{
  Grows, stays, adds, Grows-trans, refuse-Grows, label_all-Grows, record_exec_prior-Grows,
  propose_outcome-Grows, expire_open-Grows,
}
use myndaix_runtime.Outcomes.Recorded.{record_findings-Grows}
use myndaix_runtime.Outcomes.Sticky.{ByMachine, machine-current}

pub data Call : Type 0 where
  reviews : Review → List Found → Call
  dismisses confirms : Role → Text → Families → Option Kind → ℕ → Call
  probes : Text → Family → Role → Text → ℕ → ℕ → Call
  proposes : Text → Family → Option Kind → Role → ℕ → ℕ → Call
  expires : ℕ → ℕ → ℕ → Call

-- The principal of the call may label.
abbrev pub by_human : Call → Bool
by_human (dismisses role p fs kind now) = is_human_role role
by_human (confirms role p fs kind now) = is_human_role role
by_human _ = false

module _ (is_space : ℕ → Bool) (lower : Text → Text) where
  unfoldable pub call : Call → Outcomes → Outcomes
  call (reviews v found) t = (record_findings v found t).1
  call (dismisses role p fs kind now) t = (human_dismiss is_space lower role p fs kind now t).1
  call (confirms role p fs kind now) t = (confirm_outcome is_space lower role p fs kind now t).1
  call (probes k f role tip day now) t = (record_exec_prior k f role tip day now t).1
  call (proposes k f verdict role play now) t = (propose_outcome k f verdict role play now t).1
  call (expires day ttl_days now) t = (expire_open day ttl_days now t).1

  unfoldable pub run : List Call → Outcomes → Outcomes
  unfolding call
  run [] t = t
  run (c ∷ cs) t = run cs (call c t)

  module _ (P : FindingOutcome → Type 0) where
    -- Rows that a human writes.
    abbrev HumanRows : ℕ → Type 0
    HumanRows now =
        (e : SourceEvent) (l : Label) (tip : Text) (r : FindingOutcome)
        → (is_pair by_human_dismiss l ≡ true → P (stamped e tip l by_human_dismiss now r))
          × (is_pair human_confirm l ≡ true → P (stamped e tip l human_confirm now r))

    human_dismiss-Grows :
        (role : Role) (p : Text) (fs : Families) (kind : Option Kind) (now : ℕ) (t : Outcomes)
        → (is_human_role role ≡ true → HumanRows now)
        → Grows P t (human_dismiss is_space lower role p fs kind now t).1
    unfolding human_dismiss
    human_dismiss-Grows role p fs kind now t h =
        refuse-Grows P (not (is_human_role role)) Answer.raises t _ (λ e.
          refuse-Grows P (not (good_prefix (cleaned is_space lower p))) Answer.bad_prefix t _
            (λ _. go kind (h (ground (arith, e)))))
      where
        go :
            (x : Option Kind)
            → HumanRows now
            → Grows P t (dismiss_kind is_space lower (cleaned is_space lower p) fs now x t).1
        go none h = stays
        go (some real) h = stays
        go (some fp) h =
            label_all-Grows P is_dismissable _ fp dismissed_false_positive by_human_dismiss now
              (λ e tip r. (h e dismissed_false_positive tip r).0 refl) (families_of fs) t
        go (some wontfix) h =
            label_all-Grows P is_dismissable _ wontfix dismissed_wontfix by_human_dismiss now
              (λ e tip r. (h e dismissed_wontfix tip r).0 refl) (families_of fs) t

    confirm_outcome-Grows :
        (role : Role) (p : Text) (fs : Families) (kind : Option Kind) (now : ℕ) (t : Outcomes)
        → (is_human_role role ≡ true → HumanRows now)
        → Grows P t (confirm_outcome is_space lower role p fs kind now t).1
    unfolding confirm_outcome
    confirm_outcome-Grows role p fs kind now t h =
        refuse-Grows P (not (is_human_role role)) Answer.raises t _
          (λ e. go kind (h (ground (arith, e))))
      where
        labelled :
            (x : Kind) (l : Label) (s : Source)
            → ((e : SourceEvent) (tip : Text) (r : FindingOutcome) → P (stamped e tip l s now r))
            → Grows P t (confirm_as is_space lower (cleaned is_space lower p) fs now x l s t).1
        labelled x l s h =
            refuse-Grows P (not (good_prefix (cleaned is_space lower p))) Answer.bad_prefix t _
              (λ _. label_all-Grows P (λ _. true) _ x l s now h (families_of fs) t)

        go :
            (x : Option Kind)
            → HumanRows now
            → Grows P t (confirm_kind is_space lower (cleaned is_space lower p) fs now x t).1
        go none h = stays
        go (some real) h =
            labelled real confirmed_real human_confirm
              (λ e tip r. (h e confirmed_real tip r).1 refl)
        go (some fp) h =
            labelled fp dismissed_false_positive by_human_dismiss
              (λ e tip r. (h e dismissed_false_positive tip r).0 refl)
        go (some wontfix) h =
            labelled wontfix dismissed_wontfix by_human_dismiss
              (λ e tip r. (h e dismissed_wontfix tip r).0 refl)

    -- Only a human's call may write a row that is not P.
    call-Grows :
        (c : Call) (t : Outcomes)
        → ((r : FindingOutcome)
            → is_human r.outcome_source ≡ false
            → is_pair r.outcome_source r.outcome ≡ true
            → P r)
        → (by_human c ≡ true
            → (r : FindingOutcome) → is_pair r.outcome_source r.outcome ≡ true
            → P r)
        → Grows P t (call c t)
    unfolding call
    call-Grows (reviews v found) t m h =
        record_findings-Grows P v found t (λ r _ _. m _ refl refl) (λ k f u _ _ _. m _ refl refl)
    call-Grows (dismisses role p fs kind now) t m h =
        human_dismiss-Grows role p fs kind now t (λ w e l tip r. (h w _, h w _))
    call-Grows (confirms role p fs kind now) t m h =
        confirm_outcome-Grows role p fs kind now t (λ w e l tip r. (h w _, h w _))
    call-Grows (probes k f role tip day now) t m h =
        record_exec_prior-Grows P k f role tip day now t (λ e tip r. m _ refl refl)
    call-Grows (proposes k f verdict role play now) t m h =
        propose_outcome-Grows P k f verdict role play now t (λ e l tip r i. m _ refl i)
    call-Grows (expires day ttl_days now) t m h =
        expire_open-Grows P day ttl_days now t (λ e tip r. m _ refl refl)

  -- No principal of the calls may label.
  abbrev pub NoneHuman : List Call → Type 0
  NoneHuman [] = Unit
  NoneHuman (c ∷ cs) = (by_human c ≡ false) × NoneHuman cs

  run-Grows : (cs : List Call) (t : Outcomes) → NoneHuman cs → Grows ByMachine t (run cs t)
  unfolding run
  run-Grows [] t n = stays
  run-Grows (c ∷ cs) t n =
      Grows-trans ByMachine (call-Grows ByMachine c t (λ r e _. e) (λ w. absurd (cc)))
        (run-Grows cs (call c t) n.1)

  -- A human label is sticky: whatever calls follow whose principal is not a human or an admin, reviews
  -- that raise or close the finding again, sweeps, probes and proposals, and refused attempts to label,
  -- the current row of the finding stays the row that the human wrote.
  pub human_label_stays :
      (cs : List Call) (k : Text) (f : Family) (t : Outcomes) (r : FindingOutcome)
      → NoneHuman cs
      → finding_current k f t ≡ some r
      → is_human r.outcome_source ≡ true
      → finding_current k f (run cs t) ≡ some r
  human_label_stays cs k f t r n e h = machine-current k f r (run-Grows cs t n) e h

  -- No two rows share a tuple of the unique index.
  abbrev IsUnique : Outcomes → Type 0
  IsUnique [] = Unit
  IsUnique (r ∷ t) = (any_row (same_tuple r) t ≡ false) × IsUnique t

  Grows-IsUnique :
      {P : FindingOutcome → Type 0} {t u : Outcomes} → Grows P t u → IsUnique t → IsUnique u
  Grows-IsUnique stays h = h
  Grows-IsUnique (adds r u p n g) h = (n, Grows-IsUnique g h)

  -- After any calls on an empty table no two rows share finding, family, outcome, source and event.
  run-IsUnique : (cs : List Call) → IsUnique (run cs [])
  unfolding run
  run-IsUnique cs = from cs [] tt
    where
      from : (cs : List Call) (t : Outcomes) → IsUnique t → IsUnique (run cs t)
      from [] t h = h
      from (c ∷ cs) t h =
          from cs (call c t)
            (Grows-IsUnique (call-Grows (λ _. Unit) c t (λ r e _. tt) (λ w r _. tt)) h)

  -- The rows that the verbs write satisfy the CHECK on the pair of source and outcome.
  abbrev pub AllPairs : Outcomes → Type 0
  AllPairs [] = Unit
  AllPairs (r ∷ t) = (is_pair r.outcome_source r.outcome ≡ true) × AllPairs t

  abbrev IsPaired : FindingOutcome → Type 0
  IsPaired r = is_pair r.outcome_source r.outcome ≡ true

  Grows-AllPairs : {t u : Outcomes} → Grows IsPaired t u → AllPairs t → AllPairs u
  Grows-AllPairs stays h = h
  Grows-AllPairs (adds r u p n g) h = (p, Grows-AllPairs g h)

  -- After any calls on an empty table every row pairs its outcome with a source that may write it, as
  -- the table's CHECK demands: a human's outcomes come only from the sources of human verbs, and only
  -- the sweep lets a finding expire.
  pub run-AllPairs : (cs : List Call) → AllPairs (run cs [])
  unfolding run
  run-AllPairs cs = from cs [] tt
    where
      from : (cs : List Call) (t : Outcomes) → AllPairs t → AllPairs (run cs t)
      from [] t h = h
      from (c ∷ cs) t h =
          from cs (call c t) (Grows-AllPairs (call-Grows IsPaired c t (λ r e p. p) (λ w r p. p)) h)
