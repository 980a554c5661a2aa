-- ===== src/Machine/Counts.antt =====
-- How the counts of attempts change under each statement of the verbs.
use myndaix_runtime.Prelude.{
  ℕ, ◌+◌, ◌≤◌, ◌≡◌, refl, Bool, true, false, ◌&&◌, ◌==◌, arith, bit, if◌then◌else◌, fun_ext,
  Bool-cases, inl, inr, ap,
}
use myndaix_runtime.Prelude.Table.{
  Table, get, update_where, insert, count, count-update_where, count-insert, count_mono, count_or,
}
use myndaix_runtime.Ledger.State.{
  Job, Attempt, is_open, live_count, open_count, attempt_count, live_in_repo, job_test,
}
use myndaix_runtime.Machine.{Closes}

abbrev row_after : (ℕ → Attempt → Bool) → (Attempt → Attempt) → ℕ → Attempt → Attempt
row_after p f k a = if p k a then f a else a

-- An update of attempts that opens none.
module _ (p : ℕ → Attempt → Bool) (f : Attempt → Attempt) (closes : (a : Attempt) → Closes a (f a))
    (t : Table Attempt) where
  Closes-row_after : (k : ℕ) (a : Attempt) → Closes a (row_after p f k a)
  Closes-row_after k a = elim (Bool-cases (p k a)) [
    | inl e ↦ rw e (closes a)
    | inr e ↦ rw e (record { job = refl; shut = λ h. h })
  ]

  pub live_count-close :
      (jobs : Table Job) (r : ℕ) → live_count jobs (update_where p f t) r ≤ live_count jobs t r
  unfolding live_count
  live_count-close jobs r =
      rw count-update_where (count_mono _ _ t λ k a e. row k a (Closes-row_after k a) e)
    where
      row :
          (k : ℕ) (a : Attempt)
          → Closes a (row_after p f k a)
          → (is_open (row_after p f k a).status
              && job_test (live_in_repo r) (get (row_after p f k a).job_id jobs))
            ≡ true
          → (is_open a.status && job_test (live_in_repo r) (get a.job_id jobs)) ≡ true
      row k a c e = ground (arith, c.job, c.shut)

  pub open_count-close : (j : ℕ) → open_count (update_where p f t) j ≤ open_count t j
  unfolding open_count
  open_count-close j =
      rw count-update_where (count_mono _ _ t λ k a e. row k a (Closes-row_after k a) e)
    where
      row :
          (k : ℕ) (a : Attempt)
          → Closes a (row_after p f k a)
          → (is_open (row_after p f k a).status && (row_after p f k a).job_id == j) ≡ true
          → (is_open a.status && a.job_id == j) ≡ true
      row k a c e = ground (arith, c.job, c.shut)

  pub attempt_count-close : (j : ℕ) → attempt_count (update_where p f t) j ≡ attempt_count t j
  unfolding attempt_count
  attempt_count-close j = rw count-update_where (
      ap (λ (q : ℕ → Attempt → Bool). count q t)
        (fun_ext λ k. fun_ext λ a. ap (λ i. i == j) (Closes-row_after k a).job))

-- A change of the jobs after which no job is live that was not.
pub live_count_mono :
    (jobs jobs' : Table Job) (t : Table Attempt) (r : ℕ)
    → ((k : ℕ)
        → job_test (live_in_repo r) (get k jobs') ≡ true
        → job_test (live_in_repo r) (get k jobs) ≡ true)
    → live_count jobs' t r ≤ live_count jobs t r
unfolding live_count
live_count_mono jobs jobs' t r h = count_mono _ _ t λ k a e. ground (arith, h a.job_id)

-- A job that becomes live brings at most its open attempts.
pub live_count_gain :
    (jobs jobs' : Table Job) (t : Table Attempt) (r i : ℕ)
    → ((k : ℕ)
        → (k == i) ≡ false
        → job_test (live_in_repo r) (get k jobs') ≡ true
        → job_test (live_in_repo r) (get k jobs) ≡ true)
    → live_count jobs' t r ≤ live_count jobs t r + open_count t i
unfolding live_count open_count
live_count_gain jobs jobs' t r i h = count_or _ _ _ t λ k a. ground (arith, h a.job_id)

pub live_count-insert :
    (jobs : Table Job) (i : ℕ) (a : Attempt) (t : Table Attempt) (r : ℕ)
    → live_count jobs (insert i a t) r
      ≡ live_count jobs t r
        + bit (is_open a.status && job_test (live_in_repo r) (get a.job_id jobs))
unfolding live_count
live_count-insert jobs i a t r = count-insert _ i a t

pub open_count-insert :
    (i : ℕ) (a : Attempt) (t : Table Attempt) (k : ℕ)
    → open_count (insert i a t) k ≡ open_count t k + bit (is_open a.status && a.job_id == k)
unfolding open_count
open_count-insert i a t k = count-insert _ i a t

pub attempt_count-insert :
    (i : ℕ) (a : Attempt) (t : Table Attempt) (k : ℕ)
    → attempt_count (insert i a t) k ≡ attempt_count t k + bit (a.job_id == k)
unfolding attempt_count
attempt_count-insert i a t k = count-insert _ i a t
