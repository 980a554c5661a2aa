-- ===== src/Outcomes/Recorded.antt =====
-- How record_findings of src/runtime/ledger/postgres_store.py grows the table: the rows that it closes
-- and the entries that it raises.
use myndaix_runtime.Prelude.{
  ◌+◌, ◌≡◌, refl, ◌⊎◌, inl, inr, Bool, true, false, ◌&&◌, Option, none, some, List, [], ◌∷◌,
  if◌then◌else◌,
}
use myndaix_runtime.Prelude.Texts.{same_text}
use myndaix_runtime.Contracts.{Text}
use myndaix_runtime.Outcomes.{
  Family, same_family, FindingOutcome, Outcomes, finding_current, insert_row, findings_of,
}
use myndaix_runtime.Outcomes.Review.{
  Review, Found, Tally, MayClose, may_close, open_rows, closing, close_each, is_gone, raised_row,
  is_sticky, counted_open, open_each, record_findings, put, by_key,
}
use myndaix_runtime.Outcomes.Appends.{Grows, stays, Grows-trans, insert-Grows, when-Grows}

abbrev pub IsIn : Found → List Found → Type 0
IsIn f [] = ⊥
IsIn f (g ∷ fs) = (f ≡ g) ⊎ IsIn f fs

module _ (P : FindingOutcome → Type 0) (v : Review) where
  abbrev AllClose : Outcomes → List FindingOutcome → Type 0
  AllClose t [] = Unit
  AllClose t (r ∷ rs) = MayClose v t r × AllClose t rs

  open_rows-AllClose : (ps : List (Text × Family)) (t : Outcomes) → AllClose t (open_rows v ps t)
  unfolding open_rows
  open_rows-AllClose [] t = tt
  open_rows-AllClose ((k, f) ∷ ps) t =
      row (finding_current k f t) (open_rows v ps t) refl (open_rows-AllClose ps t)
    where
      pick :
          (b : Bool) (r : FindingOutcome) (rest : List FindingOutcome)
          → finding_current k f t ≡ some r
          → may_close v (some r) t ≡ b
          → AllClose t rest
          → AllClose t (if b then r ∷ rest else rest)
      pick true r rest c e h = ((k, f, c, e), h)
      pick false r rest c e h = h

      row :
          (o : Option FindingOutcome) (rest : List FindingOutcome)
          → finding_current k f t ≡ o
          → AllClose t rest
          → AllClose t
              (elim o [ none ↦ rest | some r ↦ if may_close v (some r) t then r ∷ rest else rest ])
      row none rest c h = h
      row (some r) rest c h = pick (may_close v (some r) t) r rest c refl h

  close_each-Grows :
      (z : Outcomes) (rs : List FindingOutcome) (t : Outcomes)
      → AllClose z rs
      → ((r : FindingOutcome)
          → MayClose v z r
          → is_gone v r.line_hash (v.present_hashes r.path) ≡ true
          → P (closing v r))
      → Grows P t (close_each v rs t).1
  unfolding close_each
  close_each-Grows z [] t a h = stays
  close_each-Grows z (r ∷ rs) t a h =
      Grows-trans P
        (when-Grows P (is_gone v r.line_hash (v.present_hashes r.path)) t
          (insert_row (closing v r) t) (λ g. insert-Grows P (closing v r) t (h r a.0 g)))
        (close_each-Grows z rs _ a.1 h)

  -- What each entry of the dictionary by_key satisfies.
  abbrev pub AllEntries : (Text → Found → Type 0) → List (Text × Found) → Type 0
  AllEntries E [] = Unit
  AllEntries E ((k, f) ∷ fs) = E k f × AllEntries E fs

  module _ (E : Text → Found → Type 0) where
    put-AllEntries :
        (k : Text) (f : Found) (fs : List (Text × Found))
        → E k f
        → AllEntries E fs
        → AllEntries E (put k f fs)
    put-AllEntries k f [] e a = (e, tt)
    put-AllEntries k f ((l, g) ∷ fs) e a =
        go (same_text l k && same_family g.reviewer_family f.reviewer_family)
          (put-AllEntries k f fs e a.1)
      where
        go :
            (b : Bool)
            → AllEntries E (put k f fs)
            → AllEntries E (if b then (k, f) ∷ fs else (l, g) ∷ put k f fs)
        go true h = (e, a.1)
        go false h = (a.0, h)

    by_key-AllEntries :
        (key : Found → Text) (found : List Found) (fs : List (Text × Found))
        → ((f : Found) → IsIn f found → E (key f) f)
        → AllEntries E fs
        → AllEntries E (by_key key found fs)
    unfolding by_key
    by_key-AllEntries key [] fs h a = a
    by_key-AllEntries key (f ∷ rest) fs h a =
        by_key-AllEntries key rest (put (key f) f fs) (λ g i. h g (inr i))
          (put-AllEntries (key f) f fs (h f (inl refl)) a)

    -- An entry raises its row unless a human label is current.
    open_each-Grows :
        (fs : List (Text × Found)) (n : Tally) (t : Outcomes)
        → AllEntries E fs
        → ((k : Text) (f : Found) (u : Outcomes)
            → E k f
            → Grows P t u
            → is_sticky (finding_current k f.reviewer_family u) ≡ false
            → P (raised_row v k f))
        → Grows P t (open_each v fs (n, t)).1
    unfolding open_each
    open_each-Grows [] n t a h = stays
    open_each-Grows ((k, f) ∷ fs) n t a h =
        go (is_sticky (finding_current k f.reviewer_family t)) refl
          (λ m u g. open_each-Grows fs m u a.1 (λ l e w i q s. h l e w i (Grows-trans P g q) s))
      where
        go :
            (b : Bool)
            → is_sticky (finding_current k f.reviewer_family t) ≡ b
            → ((m : Tally) (u : Outcomes) → Grows P t u → Grows P u (open_each v fs (m, u)).1)
            → Grows P t
                (if b
                  then open_each v fs (record n { skipped = n.skipped + 1 }, t)
                  else open_each v fs (
                    counted_open v (raised_row v k f) (insert_row (raised_row v k f) t).0 n,
                    (insert_row (raised_row v k f) t).1,
                  )).1
        go true e rest = rest _ t stays
        go false e rest =
            let g = insert-Grows P (raised_row v k f) t (h k f t a.0 stays e) in
            Grows-trans P g (rest _ _ g)

  -- The key of a finding of the review, which raises it.
  abbrev pub KeyOf : List Found → Text → Found → Type 0
  KeyOf found k f = (k ≡ v.key_of v.repo_id f.tag f.path f.line_hash) × IsIn f found

  pub record_findings-Grows :
      (found : List Found) (t : Outcomes)
      → ((r : FindingOutcome)
          → MayClose v t r
          → is_gone v r.line_hash (v.present_hashes r.path) ≡ true
          → P (closing v r))
      → ((k : Text) (f : Found) (u : Outcomes)
          → KeyOf found k f
          → Grows P t u
          → is_sticky (finding_current k f.reviewer_family u) ≡ false
          → P (raised_row v k f))
      → Grows P t (record_findings v found t).1
  unfolding record_findings
  record_findings-Grows found t c o =
      let g =
        close_each-Grows t (open_rows v (findings_of t) t) t (open_rows-AllClose (findings_of t) t)
          c in
      Grows-trans P g (
        open_each-Grows (KeyOf found) _ _ _
          (by_key-AllEntries (KeyOf found) (λ f. v.key_of v.repo_id f.tag f.path f.line_hash) found
            [] (λ f i. (refl, i)) tt)
          (λ k f u e q s. o k f u e (Grows-trans P g q) s))
