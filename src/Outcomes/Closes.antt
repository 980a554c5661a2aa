-- ===== src/Outcomes/Closes.antt =====
-- What record_findings of src/runtime/ledger/postgres_store.py adds, and why.
use myndaix_runtime.Prelude.{
  ℕ, ◌≡◌, refl, ap, Bool, ◌&&◌, ◌⊎◌, inl, inr, true, false, Option, none, some, List, [], ◌∷◌, ◌++◌,
  mem, arith, ==→eq,
}
use myndaix_runtime.Contracts.{Text}
use myndaix_runtime.Outcomes.{Family, FindingOutcome, Outcomes, is_human, finding_current}
use myndaix_runtime.Outcomes.Recorded.{IsIn, record_findings-Grows}
use myndaix_runtime.Outcomes.Sticky.{ByMachine, machine-current}
use myndaix_runtime.Outcomes.Review.{
  Review, Found, is_open, has_ref, origin, MayClose, closing, is_gone, raised_row, is_sticky,
  record_findings,
}
use myndaix_runtime.Outcomes.Appends.{Grows, stays, adds}

abbrev pub AllRows : (FindingOutcome → Type 0) → Outcomes → Type 0
AllRows P [] = Unit
AllRows P (r ∷ t) = P r × AllRows P t

Grows-added :
    {P : FindingOutcome → Type 0} {t u : Outcomes}
    → Grows P t u
    → (new : Outcomes) × (u ≡ new ++ t) × AllRows P new
Grows-added stays = ([], refl, tt)
Grows-added (adds r u p n g) =
    let (new, e, a) = Grows-added g in (r ∷ new, ap (λ u. r ∷ u) e, (p, a))

module _ (v : Review) (t : Outcomes) where
  -- A row that closes the current open row of a finding of this repository: the path was changed, the
  -- finding was first raised on the ref of the review, and the hashes of the file are known and do not
  -- hold the line of the finding.
  abbrev pub Closes : FindingOutcome → Type 0
  Closes r =
      (o : FindingOutcome) × (k : Text) × (f : Family) × (hashes : List ℕ) × (r ≡ closing v o)
      × (finding_current k f t ≡ some o)
      × (is_open o ≡ true)
      × (o.repo_id ≡ v.repo_id)
      × (mem o.path v.changed_paths ≡ true)
      × (has_ref v.ref (origin o.finding_key o.reviewer_family t) ≡ true)
      × (v.present_hashes o.path ≡ some hashes)
      × (mem o.line_hash hashes ≡ false)

  abbrev is_labelled : Option FindingOutcome → Bool
  is_labelled none = false
  is_labelled (some r) = is_human r.outcome_source && is_sticky (some r)

  -- A row that raises a finding of this review under its key, where before the review no human label on
  -- that key and family was the current row.
  abbrev pub Raises : List Found → FindingOutcome → Type 0
  Raises found r =
      (f : Found) × (k : Text) × IsIn f found
      × (k ≡ v.key_of v.repo_id f.tag f.path f.line_hash)
      × (r ≡ raised_row v k f)
      × (is_labelled (finding_current k f.reviewer_family t) ≡ false)

  -- A human label that was current before the review is current when the entry is looked at.
  unsticky-unlabelled :
      (k : Text) (f : Family) (u : Outcomes)
      → Grows ByMachine t u
      → is_sticky (finding_current k f u) ≡ false
      → is_labelled (finding_current k f t) ≡ false
  unsticky-unlabelled k f u g e = go (finding_current k f t) refl
    where
      go : (o : Option FindingOutcome) → finding_current k f t ≡ o → is_labelled o ≡ false
      go none c = refl
      go (some r) c = at (is_human r.outcome_source) refl
        where
          at : (b : Bool) → is_human r.outcome_source ≡ b → (b && is_sticky (some r)) ≡ false
          at false h = refl
          at true h = rw (machine-current k f r g c h) at e

  gone :
      (h : ℕ) (o : Option (List ℕ))
      → is_gone v h o ≡ true
      → (hashes : List ℕ) × (o ≡ some hashes) × (mem h hashes ≡ false)
  gone h none e = absurd (cc)
  gone h (some hashes) e = (hashes, refl, ground (arith, e))

  MayClose-Closes :
      (r : FindingOutcome)
      → MayClose v t r
      → is_gone v r.line_hash (v.present_hashes r.path) ≡ true
      → Closes (closing v r)
  MayClose-Closes r (k, f, c, m) g =
      let (hashes, p, q) = gone r.line_hash (v.present_hashes r.path) g in
      (
        r,
        k,
        f,
        hashes,
        refl,
        c,
        ground (arith, m),
        ==→eq r.repo_id v.repo_id (ground (arith, m)),
        ground (arith, m),
        ground (arith, m),
        p,
        q,
      )

  abbrev Added : List Found → FindingOutcome → Type 0
  Added found r = (Raises found r ⊎ Closes r) × ByMachine r

  Added-machine :
      (found : List Found) {a b : Outcomes} → Grows (Added found) a b → Grows ByMachine a b
  Added-machine found stays = stays
  Added-machine found (adds r u p n g) = adds r u p.1 n (Added-machine found g)

  -- A review only adds rows, and each row that it adds either raises a finding that the review found,
  -- under the key of its tag, path and line, where before the review no human label on that key and
  -- family was current; or closes one: the current open row of a finding in a changed path of this
  -- repository that was first raised on this very ref, and whose line is known to be gone from the
  -- file. Where presence is not known nothing is closed.
  pub review_adds :
      (found : List Found)
      → (new : Outcomes) × ((record_findings v found t).1 ≡ new ++ t)
        × AllRows (λ r. Raises found r ⊎ Closes r) new
  review_adds found = Grows-added (
      forget (
        record_findings-Grows (Added found) v found t (λ r m g. (inr (MayClose-Closes r m g), refl))
          (λ k f u e g s. (
            inl (
              f,
              k,
              e.1,
              e.0,
              refl,
              unsticky-unlabelled k f.reviewer_family u (Added-machine found g) s,
            ),
            refl,
          ))))
    where
      forget :
          {a b : Outcomes} → Grows (Added found) a b → Grows (λ r. Raises found r ⊎ Closes r) a b
      forget stays = stays
      forget (adds r u p n g) = adds r u p.0 n (forget g)
