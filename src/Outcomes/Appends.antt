-- ===== src/Outcomes/Appends.antt =====
-- How the verbs on finding_outcome grow the table, row by row.
use myndaix_runtime.Prelude.{
  ℕ, ◌≡◌, refl, Bool, true, false, not, ◌&&◌, Option, none, some, List, [], ◌∷◌, ltb, if◌then◌else◌,
  length,
}
use myndaix_runtime.Contracts.{Text}
use myndaix_runtime.Controller.Target.{take}
use myndaix_runtime.Outcomes.{
  Family, Label, Source, SourceEvent, Kind, real, fp, wontfix, human, panel, probe, sweep,
  panel_real, panel_fp, panel_proposed, exec_real_prior, exec_verified, expired, ttl_sweep,
  FindingOutcome, Outcomes, is_pair, latest, is_of, finding_current, any_row, same_tuple,
  insert_row, in_labelqueue, findings_of,
}
use myndaix_runtime.Outcomes.Labels.{
  Role, Answer, is_exec_role, is_labeler, stamped, label_row, label_families, label_key, label_all,
  matching_keys, machine_row, record_exec_prior, propose_as, propose_outcome, expire_row,
  expire_each, expire_open, is_old, raised_at,
}

-- A table that grew by rows, none of which broke the unique index, and of each of which P is known.
pub data Grows (P : FindingOutcome → Type 0) (t : Outcomes) : Outcomes → Type 0 where
  stays : Grows P t t
  adds :
      (r : FindingOutcome) (u : Outcomes)
      → P r
      → any_row (same_tuple r) u ≡ false
      → Grows P t u
      → Grows P t (r ∷ u)

module _ (P : FindingOutcome → Type 0) where
  pub Grows-trans : {t u v : Outcomes} → Grows P t u → Grows P u v → Grows P t v
  Grows-trans g stays = g
  Grows-trans g (adds r u p n h) = adds r u p n (Grows-trans g h)

  pub insert-Grows : (r : FindingOutcome) (t : Outcomes) → P r → Grows P t (insert_row r t).1
  unfolding insert_row
  insert-Grows r t p = go (any_row (same_tuple r) t) refl
    where
      go :
          (b : Bool)
          → any_row (same_tuple r) t ≡ b
          → Grows P t (if◌then◌else◌ {A = Bool × Outcomes} b (false, t) (true, r ∷ t)).1
      go true e = stays
      go false e = adds r t p e stays

  -- A condition of a verb.
  pub when-Grows :
      (b : Bool) (t : Outcomes) (x : Bool × Outcomes)
      → (b ≡ true → Grows P t x.1)
      → Grows P t (if b then x else (false, t)).1
  when-Grows true t x g = g refl
  when-Grows false t x g = stays

  module _ (e : SourceEvent) (l : Label) (s : Source) (now : ℕ)
      (h : (tip : Text) (r : FindingOutcome) → P (stamped e tip l s now r)) where
    label_row-Grows :
        (may : Label → Bool) (o : Option FindingOutcome) (t : Outcomes)
        → Grows P t (label_row may e l s now o t).1
    label_row-Grows may none t = stays
    label_row-Grows may (some r) t =
        when-Grows (may r.outcome) t (insert_row (stamped e r.tip_sha l s now r) t)
          (λ _. insert-Grows (stamped e r.tip_sha l s now r) t (h r.tip_sha r))

    label_families-Grows :
        (may : Label → Bool) (k : Text) (fs : List Family) (t : Outcomes)
        → Grows P t (label_families may k e l s now fs t).1
    unfolding label_families
    label_families-Grows may k [] t = stays
    label_families-Grows may k (f ∷ fs) t =
        Grows-trans (label_row-Grows may (finding_current k f t) t)
          (label_families-Grows may k fs (label_row may e l s now (finding_current k f t) t).1)

    machine_row-Grows :
        (tip : Option Text) (o : Option FindingOutcome) (t : Outcomes)
        → Grows P t (machine_row e tip l s now o t).1
    machine_row-Grows tip none t = stays
    machine_row-Grows none (some r) t =
        insert-Grows (stamped e r.tip_sha l s now r) t (h r.tip_sha r)
    machine_row-Grows (some tip) (some r) t = insert-Grows (stamped e tip l s now r) t (h tip r)

  -- A verb that may refuse.
  pub refuse-Grows :
      (b : Bool) (a : Answer) (t : Outcomes) (x : Answer × Outcomes)
      → (b ≡ false → Grows P t x.1)
      → Grows P t (if b then (a, t) else x).1
  refuse-Grows true a t x g = stays
  refuse-Grows false a t x g = g refl

  label_key-Grows :
      (may : Label → Bool) (kind : Kind) (l : Label) (s : Source) (now : ℕ)
      (h : (e : SourceEvent) (tip : Text) (r : FindingOutcome) → P (stamped e tip l s now r))
      (fs : List Family) (ks : List Text) (t : Outcomes)
      → Grows P t (label_key may kind l s now fs ks t).1
  label_key-Grows may kind l s now h fs [] t = stays
  label_key-Grows may kind l s now h fs (k ∷ []) t =
      label_families-Grows (human (take 12 k) kind) l s now (h (human (take 12 k) kind)) may k fs t
  label_key-Grows may kind l s now h fs (k ∷ k' ∷ ks) t = stays

  pub label_all-Grows :
      (may : Label → Bool) (prefix : Text) (kind : Kind) (l : Label) (s : Source) (now : ℕ)
      (h : (e : SourceEvent) (tip : Text) (r : FindingOutcome) → P (stamped e tip l s now r))
      (fs : Option (List Family)) (t : Outcomes)
      → Grows P t (label_all may prefix kind l s now fs t).1
  label_all-Grows may prefix kind l s now h none t = stays
  label_all-Grows may prefix kind l s now h (some fs) t =
      label_key-Grows may kind l s now h fs (matching_keys prefix t) t

  pub record_exec_prior-Grows :
      (k : Text) (f : Family) (role : Role) (tip : Text) (day now : ℕ) (t : Outcomes)
      → ((e : SourceEvent) (tip : Text) (r : FindingOutcome)
          → P (stamped e tip exec_real_prior exec_verified now r))
      → Grows P t (record_exec_prior k f role tip day now t).1
  unfolding record_exec_prior
  record_exec_prior-Grows k f role tip day now t h =
      refuse-Grows (not (is_exec_role role)) Answer.raises t _ (λ _.
        refuse-Grows (ltb (length tip) 12) Answer.raises t _ (λ _.
          machine_row-Grows (probe day (take 12 tip)) exec_real_prior exec_verified now
            (h (probe day (take 12 tip))) (some tip) (finding_current k f t) t))

  pub propose_outcome-Grows :
      (k : Text) (f : Family) (verdict : Option Kind) (role : Role) (play now : ℕ) (t : Outcomes)
      → ((e : SourceEvent) (l : Label) (tip : Text) (r : FindingOutcome)
          → is_pair panel_proposed l ≡ true
          → P (stamped e tip l panel_proposed now r))
      → Grows P t (propose_outcome k f verdict role play now t).1
  unfolding propose_outcome
  propose_outcome-Grows k f verdict role play now t h =
      refuse-Grows (not (is_labeler role)) Answer.raises t _ (λ _. go verdict)
    where
      go : (v : Option Kind) → Grows P t (propose_as k f play now v t).1
      go none = stays
      go (some real) =
          machine_row-Grows (panel play) panel_real panel_proposed now
            (λ tip r. h (panel play) panel_real tip r refl) none (finding_current k f t) t
      go (some fp) =
          machine_row-Grows (panel play) panel_fp panel_proposed now
            (λ tip r. h (panel play) panel_fp tip r refl) none (finding_current k f t) t
      go (some wontfix) = stays

  pub expire_open-Grows :
      (day ttl_days now : ℕ) (t : Outcomes)
      → ((e : SourceEvent) (tip : Text) (r : FindingOutcome)
          → P (stamped e tip expired ttl_sweep now r))
      → Grows P t (expire_open day ttl_days now t).1
  unfolding expire_open expire_each
  expire_open-Grows day ttl_days now t h = each (findings_of t) t
    where
      row : (o : Option FindingOutcome) (u : Outcomes) → Grows P u (expire_row day now o u).1
      row none u = stays
      row (some r) u =
          insert-Grows (stamped (sweep day) r.tip_sha expired ttl_sweep now r) u
            (h (sweep day) r.tip_sha r)

      each :
          (ps : List (Text × Family)) (u : Outcomes)
          → Grows P u (expire_each day ttl_days now t ps u).1
      each [] u = stays
      each ((k, f) ∷ ps) u =
          Grows-trans
            (when-Grows (in_labelqueue k f t && is_old ttl_days now (raised_at k f t)) u
              (expire_row day now (latest (is_of k f) t) u) (λ _. row (latest (is_of k f) t) u))
            (each ps _)
