-- ===== src/Demo/Contract.antt =====
-- The worker's contract on the demo ledger (src/runtime/ledger/sqlite_store.py).
use myndaix_runtime.Prelude.{
  ℕ, ◌≡◌, refl, true, false, Option, none, some, [], ◌∷◌, ◌==◌, inl, inr, ◌⊎◌, sym, ap, ◌∙◌,
  ==_refl,
}
use myndaix_runtime.Prelude.Table.{
  Table, get, update_where, select, get-update_where, get-insert, updated,
}
use myndaix_runtime.Prelude.Keyed.{IsKeyed, select-IsRow}
use myndaix_runtime.Prelude.Options.{some-injective-path}
use myndaix_runtime.Contracts.{Result, leased}
use myndaix_runtime.Ledger.State.{Outcome, ok, raise, lost_lease, is_open, is_queued}
use myndaix_runtime.Demo.{
  DemoJob, DemoAttempt, DemoLedger, lease_job, lease_row, first_key, is_demo_queued,
  get_attempt_job, attempt_job, leased_job, complete_attempt, complete_open, reply_with, finish_job,
  open_job, fail_attempt, fail_open,
}

first_key-row :
    (k : ℕ) (t : Table DemoJob) → first_key t ≡ some k → (j : DemoJob) × (get k t ≡ some j)
unfolding get
first_key-row k [] e = absurd (cc)
first_key-row k ((i, j) ∷ t) e = (j, rw (some-injective-path e, ==_refl k) refl)

leased-get :
    (worker k : ℕ) (l : DemoLedger) (j : DemoJob)
    → get l.next_id l.attempt ≡ none
    → get k l.job ≡ some j
    → get_attempt_job l.next_id (lease_row worker (some k) l).1
      ≡ some (k, record j { status = leased })
unfolding lease_row get_attempt_job attempt_job leased_job
leased-get worker k l j f g =
    rw (get-insert, f, ==_refl l.next_id, get-update_where, g, ==_refl k) refl

-- When lease_job leases, on a ledger whose keys are distinct and whose next key is fresh, the job
-- was queued, and get_attempt_job of the attempt that it returns gives that job, now leased.
demo_lease_gives_job :
    (worker a : ℕ) (l : DemoLedger)
    → IsKeyed l.job
    → get l.next_id l.attempt ≡ none
    → (lease_job worker l).0 ≡ some a
    → (k : ℕ) × (j : DemoJob) × (get k l.job ≡ some j)
      × (is_queued j.status ≡ true)
      × (get_attempt_job a (lease_job worker l).1 ≡ some (k, record j { status = leased }))
unfolding lease_job
demo_lease_gives_job worker a l h f e = row (first_key (select is_demo_queued l.job)) refl e
  where
    row :
        (x : Option ℕ)
        → first_key (select is_demo_queued l.job) ≡ x
        → (lease_row worker x l).0 ≡ some a
        → (k : ℕ) × (j : DemoJob) × (get k l.job ≡ some j)
          × (is_queued j.status ≡ true)
          × (get_attempt_job a (lease_row worker x l).1 ≡ some (k, record j { status = leased }))
    row none q w = absurd (unfold lease_row in cc)
    row (some k) q w =
        let (j, g) = first_key-row k (select is_demo_queued l.job) q in
        let (r, s) = select-IsRow is_demo_queued k j l.job h g in
        let n : l.next_id ≡ a = unfold lease_row in some-injective-path w in
        (k, j, r, s, rw (← n) (leased-get worker k l j f r))

closed_job :
    (k : ℕ) (f : DemoAttempt → DemoAttempt) (t : Table DemoAttempt)
    → ((a : DemoAttempt) → is_open (f a).status ≡ false)
    → open_job (get k (update_where (λ i _. i == k) f t)) ≡ none
closed_job k f t h = rw get-update_where (go (get k t))
  where
    go : (x : Option DemoAttempt) → open_job (updated (λ i _. i == k) f k x) ≡ none
    go none = unfold open_job in refl
    go (some a) = unfold open_job in rw (==_refl k, h a) refl

-- The job that the attempt holds after a verb; none if it raised.
abbrev held_after : ℕ → Outcome DemoLedger → Option ℕ
held_after k (raise e) = none
held_after k (ok l) = open_job (get k l.attempt)

reply_with-closed :
    (k i : ℕ) (result : Result) (x : Option DemoJob) (l : DemoLedger)
    → open_job (get k l.attempt) ≡ none
    → held_after k (reply_with i result x l) ≡ none
unfolding reply_with
reply_with-closed k i result none l h = refl
reply_with-closed k i result (some j) l h = h

complete_open-closed :
    (k : ℕ) (result : Result) (x : Option ℕ) (l : DemoLedger)
    → held_after k (complete_open k result x l) ≡ none
unfolding complete_open
complete_open-closed k result none l = refl
complete_open-closed k result (some i) l =
    reply_with-closed k i result (get i (finish_job i result l.job)) _
      (closed_job k _ l.attempt (λ a. refl))

fail_open-closed :
    (k : ℕ) (result : Result) (x : Option ℕ) (l : DemoLedger)
    → held_after k (fail_open k result x l) ≡ none
unfolding fail_open
fail_open-closed k result none l = refl
fail_open-closed k result (some i) l = closed_job k _ l.attempt (λ a. refl)

pub reported-closed :
    (k : ℕ) (result : Result) (l m : DemoLedger)
    → (complete_attempt k result l ≡ ok m) ⊎ (fail_attempt k result l ≡ ok m)
    → open_job (get k m.attempt) ≡ none
reported-closed k result l m (inl e) =
    ap (λ (o : Outcome DemoLedger). held_after k o) (sym e)
    ∙ (unfold complete_attempt in complete_open-closed k result (open_job (get k l.attempt)) l)
reported-closed k result l m (inr e) =
    ap (λ (o : Outcome DemoLedger). held_after k o) (sym e)
    ∙ (unfold fail_attempt in fail_open-closed k result (open_job (get k l.attempt)) l)

-- A second report on an attempt of the demo ledger raises LostLease: once complete_attempt or
-- fail_attempt has returned, both raise for the same attempt.
demo_reports_once :
    (k : ℕ) (result again : Result) (l m : DemoLedger)
    → (complete_attempt k result l ≡ ok m) ⊎ (fail_attempt k result l ≡ ok m)
    → (complete_attempt k again m ≡ raise lost_lease) × (fail_attempt k again m ≡ raise lost_lease)
unfolding complete_attempt complete_open fail_attempt fail_open
demo_reports_once k result again l m e =
    let h = reported-closed k result l m e in (rw h refl, rw h refl)
