-- ===== src/Outcomes/Queue.antt =====
-- Which verbs move a finding into or out of the queue of findings that await a human.
use myndaix_runtime.Prelude.{
  ℕ, ◌≡◌, refl, sym, ◌∙◌, ap, Bool, true, false, not, ◌&&◌, Option, none, some, [], ◌∷◌, ltb,
  if◌then◌else◌, is_some, length, arith,
}
use myndaix_runtime.Prelude.Options.{some-injective-path}
use myndaix_runtime.Contracts.{Text}
use myndaix_runtime.Controller.Target.{take}
use myndaix_runtime.Outcomes.{
  Family, Label, Source, SourceEvent, Kind, real, fp, wontfix, probe, panel, panel_real, panel_fp,
  panel_proposed, exec_real_prior, exec_verified, FindingOutcome, Outcomes, is_human, is_toggle,
  is_expired, latest, is_of, or_else, finding_current, in_labelqueue, any_row, same_tuple,
  insert_row,
}
use myndaix_runtime.Outcomes.Labels.{
  Role, Answer, is_exec_role, is_labeler, stamped, machine_row, record_exec_prior, propose_as,
  propose_outcome,
}

latest-finds :
    (p q : FindingOutcome → Bool) (t : Outcomes) (r : FindingOutcome)
    → latest p t ≡ some r
    → q r ≡ true
    → is_some (latest q t) ≡ true
unfolding latest
latest-finds p q [] r e h = absurd (cc)
latest-finds p q (s ∷ t) r e h = go (p s) (q s) refl refl (latest-finds p q t r)
  where
    go :
        (a b : Bool)
        → p s ≡ a
        → q s ≡ b
        → (latest p t ≡ some r → q r ≡ true → is_some (latest q t) ≡ true)
        → is_some (if b then some s else latest q t) ≡ true
    go a true x y i = refl
    go true false x y i =
        let z : s ≡ r = some-injective-path (rw x at e) in
        let x : q r ≡ false = sym (ap q z) ∙ y in absurd (cc)
    go false false x y i = i (rw x at e) h

module _ (k : Text) (f : Family) where
  current-finds :
      (j : Text) (g : Family) (t : Outcomes) (r : FindingOutcome)
      → finding_current j g t ≡ some r
      → is_of k f r ≡ true
      → is_some (latest (is_of k f) t) ≡ true
  unfolding finding_current
  current-finds j g t r e h = go (latest (λ r. is_of j g r && is_human r.outcome_source) t) refl e
    where
      go :
          (o : Option FindingOutcome)
          → latest (λ r. is_of j g r && is_human r.outcome_source) t ≡ o
          → or_else o (latest (is_of j g) t) ≡ some r
          → is_some (latest (is_of k f) t) ≡ true
      go none x e = latest-finds (is_of j g) (is_of k f) t r e h
      go (some s) x e =
          latest-finds (λ r. is_of j g r && is_human r.outcome_source) (is_of k f) t r (x ∙ e) h

  module _ (e : SourceEvent) (l : Label) (s : Source) (now : ℕ) (w : is_human s ≡ false)
      (y : is_toggle s ≡ false) where
    stamped-in_labelqueue :
        (j : Text) (g : Family) (t : Outcomes) (r : FindingOutcome) (tip : Text)
        → finding_current j g t ≡ some r
        → in_labelqueue k f (stamped e tip l s now r ∷ t) ≡ in_labelqueue k f t
    unfolding in_labelqueue latest is_of
    stamped-in_labelqueue j g t r tip c =
        let n : (is_of k f r && is_human s) ≡ false = ground (arith, w) in
        let m : (is_of k f r && is_toggle s) ≡ false = ground (arith, y) in
        rw (n, m)
          (ap
            (λ z.
              z
              && (not (is_some (latest (λ r. is_of k f r && is_human r.outcome_source) t))
                  && not (is_expired (latest (λ r. is_of k f r && is_toggle r.outcome_source) t))))
            (go (is_of k f r) refl))
      where
        go :
            (b : Bool)
            → is_of k f r ≡ b
            → is_some (if b then some (stamped e tip l s now r) else latest (is_of k f) t)
              ≡ is_some (latest (is_of k f) t)
        go true x = sym (current-finds j g t r c x)
        go false x = refl

    insert-in_labelqueue :
        (j : Text) (g : Family) (t : Outcomes) (r : FindingOutcome) (tip : Text)
        → finding_current j g t ≡ some r
        → in_labelqueue k f (insert_row (stamped e tip l s now r) t).1 ≡ in_labelqueue k f t
    unfolding insert_row
    insert-in_labelqueue j g t r tip c = go (any_row (same_tuple (stamped e tip l s now r)) t)
      where
        go :
            (b : Bool)
            → in_labelqueue k f
                (if◌then◌else◌ {A = Bool × Outcomes} b
                  (false, t)
                  (true, stamped e tip l s now r ∷ t)).1
              ≡ in_labelqueue k f t
        go true = refl
        go false = stamped-in_labelqueue j g t r tip c

    machine_row-in_labelqueue :
        (j : Text) (g : Family) (tip : Option Text) (t : Outcomes)
        → in_labelqueue k f (machine_row e tip l s now (finding_current j g t) t).1
          ≡ in_labelqueue k f t
    machine_row-in_labelqueue j g tip t = go tip (finding_current j g t) refl
      where
        go :
            (tip : Option Text) (o : Option FindingOutcome)
            → finding_current j g t ≡ o
            → in_labelqueue k f (machine_row e tip l s now o t).1 ≡ in_labelqueue k f t
        go tip none c = refl
        go none (some r) c = insert-in_labelqueue j g t r r.tip_sha c
        go (some tip) (some r) c = insert-in_labelqueue j g t r tip c

  refused :
      (b : Bool) (a : Answer) (t : Outcomes) (x : Answer × Outcomes)
      → in_labelqueue k f x.1 ≡ in_labelqueue k f t
      → in_labelqueue k f (if b then (a, t) else x).1 ≡ in_labelqueue k f t
  refused true a t x h = refl
  refused false a t x h = h

  -- The fence: neither a probe nor a proposal, by whatever principals and on whatever finding, moves any
  -- finding into or out of the queue of findings that await a human.
  pub machine_labels_keep_queue :
      (j : Text) (g : Family) (role role' : Role) (tip : Text) (verdict : Option Kind)
      (day play now : ℕ) (t : Outcomes)
      → (in_labelqueue k f (record_exec_prior j g role tip day now t).1 ≡ in_labelqueue k f t)
        × (in_labelqueue k f (propose_outcome j g verdict role' play now t).1 ≡ in_labelqueue k f t)
  unfolding record_exec_prior propose_outcome
  machine_labels_keep_queue j g role role' tip verdict day play now t = (
    refused (not (is_exec_role role)) Answer.raises t _ (
        refused (ltb (length tip) 12) Answer.raises t _ (
          machine_row-in_labelqueue (probe day (take 12 tip)) exec_real_prior exec_verified now refl
            refl j g (some tip) t)),
    refused (not (is_labeler role')) Answer.raises t _ (go verdict),
  )
    where
      go :
          (v : Option Kind)
          → in_labelqueue k f (propose_as j g play now v t).1 ≡ in_labelqueue k f t
      go none = refl
      go (some real) =
          machine_row-in_labelqueue (panel play) panel_real panel_proposed now refl refl j g none t
      go (some fp) =
          machine_row-in_labelqueue (panel play) panel_fp panel_proposed now refl refl j g none t
      go (some wontfix) = refl
