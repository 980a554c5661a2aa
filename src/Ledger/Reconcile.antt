-- ===== src/Ledger/Reconcile.antt =====
-- The soft counters after reconcile_repo_concurrency (postgres_store.py).
use myndaix_runtime.Prelude.{
  ℕ, ◌≡◌, refl, Bool, true, false, not, ◌&&◌, Option, none, some, List, [], ◌∷◌, ◌==◌, arith, mem,
  bit, if◌then◌else◌, Bool-cases, inl, inr, ◌∙◌, ==→eq, sym, ap,
}
use myndaix_runtime.Prelude.Table.{
  Table, get, select, count, get-update_where, get-insert, updated, or_row,
}
use myndaix_runtime.Ledger.State.{
  Job, Attempt, Ledger, is_open, is_live, job_test, live_in_repo, live_count,
}
use myndaix_runtime.Ledger.Lease.{active, set_active, holds_lease}
use myndaix_runtime.Ledger.Janitor.{
  repos_of, repo_of, add_repo, distinct, upsert_row, upsert_active, upsert_all, zero_idle,
  reconcile_repo_concurrency, heal_orphans,
}

get-upsert_row :
    (r n i : ℕ) (o : Option ℕ) (rc : Table ℕ)
    → get r rc ≡ o
    → get i (upsert_row r n o rc) ≡ (if r == i then some n else get i rc)
unfolding upsert_row set_active
get-upsert_row r n i none rc e = rw get-insert (elim (Bool-cases (r == i)) [
  | inl h ↦ rw (h, sym (ap (λ k. get k rc) (==→eq r i h)) ∙ e) refl
  | inr h ↦ rw h (or_row_none (get i rc))
])
  where
    or_row_none : (o : Option ℕ) → or_row o false n ≡ o
    or_row_none none = refl
    or_row_none (some m) = refl
get-upsert_row r n i (some m) rc e = rw get-update_where (elim (Bool-cases (r == i)) [
  | inl h ↦ rw (sym (ap (λ k. get k rc) (==→eq r i h)) ∙ e) (ground (arith, h, ==→eq r i))
  | inr h ↦ other (get i rc) h
])
  where
    other :
        (o : Option ℕ)
        → (r == i) ≡ false
        → updated (λ k _. k == r) (λ _. n) i o ≡ (if r == i then some n else o)
    other none h = rw h refl
    other (some x) h = rw h (ground arith)

get-upsert_all :
    (truth : ℕ → ℕ) (rs : List ℕ) (i : ℕ) (rc : Table ℕ)
    → get i (upsert_all truth rs rc) ≡ (if mem i rs then some (truth i) else get i rc)
unfolding upsert_all upsert_active
get-upsert_all truth [] i rc = refl
get-upsert_all truth (r ∷ rs) i rc =
    rw
      (
        get-upsert_all truth rs i (upsert_active r (truth r) rc),
        get-upsert_row r (truth r) i (get r rc) rc refl,
      )
      (ground (arith, ==→eq r i))

mem-distinct : (k : ℕ) (xs : List ℕ) → mem k (distinct xs) ≡ mem k xs
unfolding distinct
mem-distinct k [] = refl
mem-distinct k (x ∷ xs) = ground (arith, mem-distinct k xs, mem-distinct x xs, ==→eq x k)

row_counts :
    (r : ℕ) (b : Bool) (o : Option Job)
    → (b && job_test (λ j. is_live j.status) o) ≡ false
    → bit (b && job_test (live_in_repo r) o) ≡ 0
row_counts r b none h = ground arith
row_counts r b (some j) h = ground arith

row_repo :
    (r : ℕ) (b : Bool) (o : Option Job) (rest : List ℕ)
    → mem r (add_repo (repo_of o) rest) ≡ false
    → (mem r rest ≡ false) × (bit (b && job_test (live_in_repo r) o) ≡ 0)
row_repo r b none rest h = (h, ground arith)
row_repo r b (some j) rest h = of_repo j.repo_id refl h
  where
    of_repo :
        (x : Option ℕ)
        → j.repo_id ≡ x
        → mem r (add_repo x rest) ≡ false
        → (mem r rest ≡ false) × (bit (b && job_test (live_in_repo r) (some j)) ≡ 0)
    of_repo none e h = (h, rw e (ground arith))
    of_repo (some y) e h = (ground arith, rw e (ground arith))

-- A repository that no leased attempt names has no live attempt.
live_count-idle :
    (jobs : Table Job) (t : Table Attempt) (r : ℕ)
    → mem r (repos_of jobs (select (λ _ a. holds_lease jobs a) t)) ≡ false
    → live_count jobs t r ≡ 0
unfolding live_count count select repos_of
live_count-idle jobs [] r h = refl
live_count-idle jobs ((i, a) ∷ t) r h = elim (Bool-cases (holds_lease jobs a)) [
  | inl e ↦
      let (m, z) = row_repo r (is_open a.status) (get a.job_id jobs) _ (rw e at h) in
      rw (z, live_count-idle jobs t r m) refl
  | inr e ↦
      rw
        (
          row_counts r (is_open a.status) (get a.job_id jobs) e,
          live_count-idle jobs t r (rw e at h),
        )
        refl
]

abbrev value : Option ℕ → ℕ
value none = 0
value (some n) = n

settled :
    (r n : ℕ) (b : Bool) (o : Option ℕ)
    → (b ≡ false → n ≡ 0)
    → value (updated (λ i m. not (m == 0) && n == 0) (λ _. 0) r (if b then some n else o)) ≡ n
settled r n true o h = ground arith
settled r n false none h = ground (arith, h refl)
settled r n false (some m) h = ground (arith, h refl)

active-value : (rc : Table ℕ) (r : ℕ) → active rc r ≡ value (get r rc)
unfolding active
active-value rc r = go (get r rc)
  where
    go : (o : Option ℕ) → (elim o [ none ↦ 0 | some n ↦ n ]) ≡ value o
    go none = refl
    go (some n) = refl

exact :
    (jobs : Table Job) (t : Table Attempt) (rc : Table ℕ) (r : ℕ)
    → active
        (zero_idle (live_count jobs t) (
          upsert_all
            (live_count jobs t)
            (distinct (repos_of jobs (select (λ _ a. holds_lease jobs a) t)))
            rc))
        r
      ≡ live_count jobs t r
unfolding zero_idle
exact jobs t rc r =
    let repos = repos_of jobs (select (λ _ a. holds_lease jobs a) t) in
    active-value _ r
    ∙ ap value (
        get-update_where (λ i m. not (m == 0) && live_count jobs t i == 0) (λ _. 0) r _
        ∙ ap (updated (λ i m. not (m == 0) && live_count jobs t i == 0) (λ _. 0) r)
            (get-upsert_all (live_count jobs t) (distinct repos) r rc))
    ∙ settled r (live_count jobs t r) (mem r (distinct repos)) (get r rc)
        (λ e. live_count-idle jobs t r (sym (mem-distinct r repos) ∙ e))

-- After reconcile_repo_concurrency on any ledger, the soft counter of every repository is the number
-- of open attempts on live jobs that the ledger then has for it.
pub reconcile_is_exact :
    (locked : ℕ → Bool) (now : ℕ) (l : Ledger) (r : ℕ)
    → active (reconcile_repo_concurrency locked now l).1.repo_concurrency r
      ≡ live_count
          (reconcile_repo_concurrency locked now l).1.jobs
          (reconcile_repo_concurrency locked now l).1.attempts
          r
unfolding reconcile_repo_concurrency
reconcile_is_exact locked now l r =
    let c = heal_orphans locked now l.core in exact c.jobs c.attempts l.repo_concurrency r
