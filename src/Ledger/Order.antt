-- ===== src/Ledger/Order.antt =====
-- The order in which lease_job (postgres_store.py) picks: priority descending, then created_at,
-- then id.
use myndaix_runtime.Prelude.{
  ℕ, ◌≡◌, refl, Bool, true, false, Option, none, some, List, [], ◌∷◌, if◌then◌else◌, arith,
  Bool-cases, inl, inr, ap, subst, ◌∙◌, sym, ◌⊎◌, ◌<◌, ◌≤◌, ltb, mem,
}
use myndaix_runtime.Prelude.Options.{some-injective-path}
use myndaix_runtime.Prelude.Table.{Table, select}
use myndaix_runtime.Ledger.State.{Job, Ledger, is_queued, open_count}
use myndaix_runtime.Ledger.Lease.{before, first_row, pick, eligible, active, soft_filter}

module _ (a b c : ℕ × Job) where
  before_irrefl : before a a ≡ false
  unfolding before
  before_irrefl = ground arith

  before_asym : before a b ≡ true → before b a ≡ false
  unfolding before
  before_asym h = ground arith

  before_negtrans : before a b ≡ false → before b c ≡ false → before a c ≡ false
  unfolding before
  before_negtrans h k = ground arith

-- The better of a row and the best of the rest.
better : ℕ × Job → Option (ℕ × Job) → ℕ × Job
better row none = row
better row (some best) = if before best row then best else row

first_row-better :
    (row : ℕ × Job) (t : Table Job) → first_row (row ∷ t) ≡ some (better row (first_row t))
unfolding first_row better
first_row-better row t = go (first_row t)
  where
    go :
        (o : Option (ℕ × Job))
        → (elim o as (λ _. Option (ℕ × Job)) [
          | none ↦ some row
          | some best ↦ some (if before best row then best else row)
        ])
          ≡ some (better row o)
    go none = refl
    go (some best) = refl

better_self : (row : ℕ × Job) (o : Option (ℕ × Job)) → before row (better row o) ≡ false
unfolding better
better_self row none = before_irrefl row row row
better_self row (some best) = elim (Bool-cases (before best row)) [
  | inl e ↦ rw e (before_asym best row row e)
  | inr e ↦ rw e (before_irrefl row row row)
]

better_rest :
    (row a best : ℕ × Job) → before a best ≡ false → before a (better row (some best)) ≡ false
unfolding better
better_rest row a best h = elim (Bool-cases (before best row)) [
  | inl e ↦ rw e h
  | inr e ↦ rw e (before_negtrans a best row h e)
]

abbrev pub IsRow : ℕ × Job → Table Job → Type 0
IsRow r [] = ⊥
IsRow r (s ∷ t) = (r ≡ s) ⊎ IsRow r t

first_row-IsRow : (t : Table Job) (r : ℕ × Job) → first_row t ≡ some r → IsRow r t
unfolding better first_row
first_row-IsRow [] r e = absurd (cc)
first_row-IsRow (s ∷ t) r e = go (first_row t) (first_row-IsRow t) (sym (first_row-better s t) ∙ e)
  where
    go :
        (o : Option (ℕ × Job))
        → ((q : ℕ × Job) → o ≡ some q → IsRow q t)
        → some (better s o) ≡ some r
        → (r ≡ s) ⊎ IsRow r t
    go none h f = inl (sym (some-injective-path f))
    go (some q) h f = pick_one (before q s) (some-injective-path f)
      where
        pick_one : (b : Bool) → (if b then q else s) ≡ r → (r ≡ s) ⊎ IsRow r t
        pick_one true x = inr (h r (ap (λ y. some y) x))
        pick_one false x = inl (sym x)

select-IsRow :
    (p : ℕ → Job → Bool) (t : Table Job) (r : ℕ × Job)
    → IsRow r (select p t)
    → IsRow r t × (p r.0 r.1 ≡ true)
unfolding select
select-IsRow p [] r h = absurd h
select-IsRow p ((k, j) ∷ t) r h = go (p k j) refl (select-IsRow p t r) h
  where
    go :
        (b : Bool)
        → p k j ≡ b
        → (IsRow r (select p t) → IsRow r t × (p r.0 r.1 ≡ true))
        → IsRow r (if b then (k, j) ∷ select p t else select p t)
        → IsRow r ((k, j) ∷ t) × (p r.0 r.1 ≡ true)
    go true e f (inl q) = (inl q, ap (λ (s : ℕ × Job). p s.0 s.1) q ∙ e)
    go true e f (inr q) = let (a, b) = f q in (inr a, b)
    go false e f q = let (a, b) = f q in (inr a, b)

IsRow-select :
    (p : ℕ → Job → Bool) (t : Table Job) (r : ℕ × Job)
    → IsRow r t
    → p r.0 r.1 ≡ true
    → IsRow r (select p t)
unfolding select
IsRow-select p [] r h e = absurd h
IsRow-select p ((k, j) ∷ t) r h e = go (p k j) refl (λ q. IsRow-select p t r q e) h
  where
    go :
        (b : Bool)
        → p k j ≡ b
        → (IsRow r t → IsRow r (select p t))
        → IsRow r ((k, j) ∷ t)
        → IsRow r (if b then (k, j) ∷ select p t else select p t)
    go true x f (inl q) = inl q
    go true x f (inr q) = inr (f q)
    go false x f (inl q) = absurd (clash (sym e ∙ ap (λ (s : ℕ × Job). p s.0 s.1) q ∙ x))
      where
        clash : true ≡ false → ⊥
        clash c = absurd (cc)
    go false x f (inr q) = f q

-- A table with a row has a first row, and none of its rows comes before it.
first_row-least :
    (x : ℕ × Job) (t : Table Job)
    → IsRow x t
    → (r : ℕ × Job) × (first_row t ≡ some r) × (before x r ≡ false)
first_row-least x [] g = absurd g
first_row-least x (s ∷ t) (inl q) = (
  better s (first_row t),
  first_row-better s t,
  subst (λ (r : ℕ × Job). before r (better s (first_row t)) ≡ false) (sym q)
      (better_self s (first_row t)),
)
first_row-least x (s ∷ t) (inr q) =
    let (r, f, b) = first_row-least x t q in
    (better s (some r), first_row-better s t ∙ ap (λ o. some (better s o)) f, better_rest s x r b)

-- The repository of a job has room by the soft counter, and is not excluded; a job without one is
-- exempt.
abbrev pub RepoFits : ℕ → List ℕ → Table ℕ → Option ℕ → Type 0
RepoFits cap skip rc none = Unit
RepoFits cap skip rc (some r) = (active rc r < cap) × (mem r skip ≡ false)

-- A job that the PICK may take: queued, without an open attempt, of a repository that fits, and not
-- locked by another transaction.
abbrev pub MayPick : ℕ → (ℕ → Bool) → List ℕ → Ledger → ℕ → Job → Type 0
MayPick cap locked skip l k j =
    (is_queued j.status ≡ true)
    × (open_count l.attempts k ≡ 0)
    × RepoFits cap skip l.repo_concurrency j.repo_id
    × (locked k ≡ false)

-- Job j under the id k does not stand after job x under the id i: its priority is higher, or is the
-- same and it was created earlier, or at the same instant and its id is not greater.
abbrev pub NotAfter : ℕ → Job → ℕ → Job → Type 0
NotAfter k j i x =
    (x.priority < j.priority)
    ⊎ ((x.priority ≡ j.priority)
        × ((j.created_at < x.created_at) ⊎ ((j.created_at ≡ x.created_at) × (k ≤ i))))

soft_filter-RepoFits :
    (cap : ℕ) (skip : List ℕ) (rc : Table ℕ) (o : Option ℕ)
    → soft_filter cap skip rc o ≡ true
    → RepoFits cap skip rc o
unfolding soft_filter
soft_filter-RepoFits cap skip rc none e = tt
soft_filter-RepoFits cap skip rc (some r) e = (ground arith, ground arith)

RepoFits-soft_filter :
    (cap : ℕ) (skip : List ℕ) (rc : Table ℕ) (o : Option ℕ)
    → RepoFits cap skip rc o
    → soft_filter cap skip rc o ≡ true
unfolding soft_filter
RepoFits-soft_filter cap skip rc none e = refl
RepoFits-soft_filter cap skip rc (some r) (a, b) = ground (arith, a, b)

module _ (cap : ℕ) (locked : ℕ → Bool) (skip : List ℕ) (l : Ledger) where
  eligible-MayPick :
      (k : ℕ) (j : Job) → eligible cap locked skip l k j ≡ true → MayPick cap locked skip l k j
  unfolding eligible
  eligible-MayPick k j e = (
    ground arith,
    ground arith,
    soft_filter-RepoFits cap skip l.repo_concurrency j.repo_id (ground arith),
    ground arith,
  )

  MayPick-eligible :
      (k : ℕ) (j : Job) → MayPick cap locked skip l k j → eligible cap locked skip l k j ≡ true
  unfolding eligible
  MayPick-eligible k j (a, b, c, d) =
      let s = RepoFits-soft_filter cap skip l.repo_concurrency j.repo_id c in ground (arith, s)

  before-NotAfter : (k i : ℕ) (j x : Job) → before (i, x) (k, j) ≡ false → NotAfter k j i x
  unfolding before
  before-NotAfter k i j x e = elim (Bool-cases (ltb x.priority j.priority)) [
    | inl a ↦ inl (ground arith)
    | inr a ↦ elim (Bool-cases (ltb j.created_at x.created_at)) [
      | inl b ↦ inr (ground arith, inl (ground arith))
      | inr b ↦ inr (ground arith, inr (ground arith, ground arith))
    ]
  ]

  -- Whenever a job of the ledger may be picked, the PICK of lease_job finds a job of the ledger
  -- that may be picked, and that one stands in front of every job that may: its priority is higher,
  -- or is the same and it was created earlier, or at the same instant and its id is not greater.
  pub pick_is_first :
      (i : ℕ) (x : Job)
      → IsRow (i, x) l.jobs
      → MayPick cap locked skip l i x
      → (k : ℕ) × (j : Job) × (pick cap locked skip l ≡ some (k, j))
        × IsRow (k, j) l.jobs
        × MayPick cap locked skip l k j
        × NotAfter k j i x
  unfolding pick
  pick_is_first i x g e =
      let p = eligible cap locked skip l in
      let (r, f, b) =
        first_row-least (i, x) (select p l.jobs)
          (IsRow-select p l.jobs (i, x) g (MayPick-eligible i x e)) in
      let (q, h) = select-IsRow p l.jobs r (first_row-IsRow (select p l.jobs) r f) in
      (r.0, r.1, f, q, eligible-MayPick r.0 r.1 h, before-NotAfter r.0 i r.1 x b)
