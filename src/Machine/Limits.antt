-- ===== src/Machine/Limits.antt =====
-- What every move of the job state machine keeps: the per-repository cap, one open attempt for a
-- job, and the budget of attempts.
use myndaix_runtime.Prelude.{
  ℕ, suc, ◌+◌, ◌≤◌, ◌<◌, ◌≡◌, refl, Bool, true, false, ◌&&◌, Option, none, some, holds, ◌==◌, arith,
  bit, if◌then◌else◌, Bool-cases, ==→eq, inl, inr,
}
use native.Mathlib.Nat.{add-zero}
use myndaix_runtime.Prelude.Table.{
  get, update_where, insert, get-update_where, get-insert, updated, or_row, update_where-row,
  insert-row,
}
use myndaix_runtime.Prelude.Keyed.{IsKeyed, update_where-IsKeyed, insert-IsKeyed}
use myndaix_runtime.Contracts.{Registry, requeue_safe, queued, leased}
use myndaix_runtime.Ledger.State.{
  Job, Attempt, Core, is_live, is_queued, live_count, open_count, attempt_count, live_in_repo,
  job_test, max_attempts, set_status_where,
}
use myndaix_runtime.Ledger.Lease.{claimed}
use myndaix_runtime.Ledger.Dispatch.{add_job}
use myndaix_runtime.Machine.{
  Closes, MayAdmit, Move, take_id, touch, settle, requeue, lease, admit, Moves, none_left, more,
}
use myndaix_runtime.Machine.Claim.{
  live_count-claimed, open_count-claimed, attempt_count-claimed, claimed-row, missing_claimed,
  next_id-claimed, claimed-IsKeyed,
}
use myndaix_runtime.Machine.Counts.{
  live_count-close, open_count-close, attempt_count-close, live_count_mono,
}

-- What a job may have used of its attempts.
pub record Budget (registry : Registry) (n : ℕ) (j : Job) : Type 0 where
  pub bounded : n ≤ max_attempts
  pub once : requeue_safe registry j.to_agent ≡ false → n ≤ 1
  pub room : is_queued j.status ≡ true → n < max_attempts
  pub untried : is_queued j.status ≡ true → requeue_safe registry j.to_agent ≡ false → n ≡ 0

pub record Limits (registry : Registry) (cap : ℕ) (c : Core) : Type 0 where
  pub capped : (r : ℕ) → live_count c.jobs c.attempts r ≤ cap
  pub one_open : (k : ℕ) → open_count c.attempts k ≤ 1
  pub keyed : IsKeyed c.jobs
  pub fresh_job : (k : ℕ) → c.next_id ≤ k → get k c.jobs ≡ none
  pub fresh_attempt : (k : ℕ) → c.next_id ≤ k → attempt_count c.attempts k ≡ 0
  pub budget :
      (k : ℕ) (j : Job) → get k c.jobs ≡ some j → Budget registry (attempt_count c.attempts k) j

-- A row that a statement left, or changed so that it is queued only with room.
jobs-Budget :
    {registry : Registry} {n : ℕ} (f : Job → Job) (b : Bool) (i : Job)
    → (f i).to_agent ≡ i.to_agent
    → (b ≡ true
        → is_queued (f i).status ≡ true
        → (requeue_safe registry i.to_agent ≡ true) × (n < max_attempts))
    → Budget registry n i
    → Budget registry n (if b then f i else i)
jobs-Budget f false i a h l = l
jobs-Budget f true i a h l = record {
  bounded = l.bounded;
  once = λ e. l.once (rw (← a) e);
  room = λ q. (h refl q).1;
  untried = λ q e. absurd (ground (arith, h refl q, a));
}

-- No job is live that was not.
still_live :
    (p : ℕ → Job → Bool) (f : Job → Job)
    → ((j : Job) → is_live (f j).status ≡ false)
    → (r k : ℕ) (o : Option Job) → job_test (live_in_repo r) (updated p f k o) ≡ true
    → job_test (live_in_repo r) o ≡ true
still_live p f idle r k none h = h
still_live p f idle r k (some j) h = ground (arith, idle j)

not_live :
    (r : ℕ) (b : Bool) (j : Job)
    → is_live j.status ≡ false
    → (o : Option Job) → job_test (live_in_repo r) (or_row o b j) ≡ true
    → job_test (live_in_repo r) o ≡ true
not_live r true j w none h = ground arith
not_live r false j w none h = h
not_live r b j w (some i) h = h

-- A claimed job has used one more attempt; the other jobs none.
claimed-Budget :
    {registry : Registry} {n : ℕ} (i k : ℕ) (u : Job)
    → Budget registry n u
    → (i ≡ k → is_queued u.status ≡ true)
    → Budget registry
        (n + bit (k == i))
        (if i == k && is_queued u.status then record u { status = leased } else u)
claimed-Budget i k u b h = elim (Bool-cases (i == k)) [
  | inl e ↦
      let q = h (==→eq i k e) in
      rw (e, q)
        (record {
          bounded = ground (arith, b.room q);
          once = λ s. ground (arith, b.untried q s);
          room = λ s. cc;
          untried = λ s. cc;
        })
  | inr e ↦ let z : bit (k == i) ≡ 0 = ground arith in rw (e, z) (rw add-zero b)
]

module _ {registry : Registry} {cap : ℕ} where
  present_below :
      (c : Core) (k : ℕ) (j : Job) → Limits registry cap c → get k c.jobs ≡ some j → k < c.next_id
  present_below c k j l g = ground (arith, l.fresh_job k)

  take_id-Limits :
      (c : Core)
      → Limits registry cap c
      → Limits registry cap (record c { next_id = suc c.next_id })
  take_id-Limits c l = record {
    capped = l.capped;
    one_open = l.one_open;
    keyed = l.keyed;
    fresh_job = λ k h. l.fresh_job k (omega arith);
    fresh_attempt = λ k h. l.fresh_attempt k (omega arith);
    budget = l.budget;
  }

  touch-Limits :
      (c : Core) (p : ℕ → Attempt → Bool) (f : Attempt → Attempt)
      → ((a : Attempt) → Closes a (f a))
      → Limits registry cap c
      → Limits registry cap (record c { attempts = update_where p f c.attempts })
  touch-Limits c p f closes l = record {
    capped = λ r. omega (arith, live_count-close p f closes c.attempts c.jobs r, l.capped r);
    one_open = λ k. omega (arith, open_count-close p f closes c.attempts k, l.one_open k);
    keyed = l.keyed;
    fresh_job = l.fresh_job;
    fresh_attempt =
        λ k h. omega (arith, attempt_count-close p f closes c.attempts k, l.fresh_attempt k h);
    budget = λ k j e. rw (attempt_count-close p f closes c.attempts k) (l.budget k j e);
  }

  -- A change of jobs that keeps the agents, makes none live and none queued without room.
  module _ (c : Core) (p : ℕ → Job → Bool) (f : Job → Job)
      (agent : (j : Job) → (f j).to_agent ≡ j.to_agent)
      (idle : (j : Job) → is_live (f j).status ≡ false)
      (room : (k : ℕ) (j : Job)
        → get k c.jobs ≡ some j
        → p k j ≡ true
        → is_queued (f j).status ≡ true
        → (requeue_safe registry j.to_agent ≡ true)
          × (attempt_count c.attempts k < max_attempts)) where
    jobs-Limits :
        Limits registry cap c → Limits registry cap (record c { jobs = update_where p f c.jobs })
    jobs-Limits l = record {
      capped = λ r. omega (arith, live_count_mono c.jobs _ c.attempts r (live r), l.capped r);
      one_open = l.one_open;
      keyed = update_where-IsKeyed p f c.jobs l.keyed;
      fresh_job = λ k h. rw (get-update_where, l.fresh_job k h) refl;
      fresh_attempt = l.fresh_attempt;
      budget = λ k j e.
          let (i, g, q) = update_where-row p f k c.jobs j e in
          rw q (jobs-Budget f (p k i) i (agent i) (room k i g) (l.budget k i g));
    }
      where
        live :
            (r k : ℕ)
            → job_test (live_in_repo r) (get k (update_where p f c.jobs)) ≡ true
            → job_test (live_in_repo r) (get k c.jobs) ≡ true
        live r k = rw get-update_where (still_live p f idle r k (get k c.jobs))

  lease-Limits :
      (c : Core) (k worker now : ℕ) (j : Job)
      → get k c.jobs ≡ some j
      → is_queued j.status ≡ true
      → open_count c.attempts k ≡ 0
      → ((r : ℕ) → holds j.repo_id r ≡ true → live_count c.jobs c.attempts r < cap)
      → Limits registry cap c
      → Limits registry cap (claimed k c.next_id worker now (record c { next_id = suc c.next_id }))
  lease-Limits c k worker now j g q o r l =
      let d : Core = record c { next_id = suc c.next_id } in
      record {
        capped = λ s.
            ground (arith, live_count-claimed d k c.next_id worker now j g q s, l.capped s, r s, o);
        one_open = λ i.
            ground (arith, open_count-claimed d k c.next_id worker now j g q i, l.one_open i, o);
        keyed = claimed-IsKeyed d k c.next_id worker now j g q l.keyed;
        fresh_job = λ i h.
            missing_claimed d k c.next_id worker now j g q i
              (l.fresh_job i (omega (arith, next_id-claimed d k c.next_id worker now j g q)));
        fresh_attempt = λ i h. ground (
          arith,
          attempt_count-claimed d k c.next_id worker now j g q i,
          next_id-claimed d k c.next_id worker now j g q,
          l.fresh_attempt i,
          present_below c k j l g,
        );
        budget = λ i v e.
            let (u, gu, ev) = claimed-row d k c.next_id worker now j g q i v e in
            rw (ev, attempt_count-claimed d k c.next_id worker now j g q i)
              (claimed-Budget i k u (l.budget i u gu) (ground arith));
      }

  admit-Limits :
      (c : Core) (j : Job)
      → MayAdmit c j
      → Limits registry cap c
      → Limits registry cap (add_job c.next_id j c)
  unfolding add_job
  admit-Limits c j m l = record {
    capped = λ r. omega (arith, live_count_mono c.jobs _ c.attempts r (live r), l.capped r);
    one_open = l.one_open;
    keyed = insert-IsKeyed c.next_id j c.jobs (l.fresh_job c.next_id (omega arith)) l.keyed;
    fresh_job = λ k h. rw (get-insert, l.fresh_job k (omega arith)) (ground arith);
    fresh_attempt = λ k h. l.fresh_attempt k (omega arith);
    budget = λ k i e. elim (insert-row k c.next_id j c.jobs i e) [
      | inl g ↦ l.budget k i g
      | inr (n, v) ↦
          let z = l.fresh_attempt k (omega arith) in
          rw z (record {
            bounded = omega arith;
            once = λ _. omega arith;
            room = λ _. omega arith;
            untried = λ _ _. refl;
          })
    ];
  }
    where
      live :
          (r k : ℕ)
          → job_test (live_in_repo r) (get k (insert c.next_id j c.jobs)) ≡ true
          → job_test (live_in_repo r) (get k c.jobs) ≡ true
      live r k =
          rw get-insert (not_live r (c.next_id == k) j (ground (arith, m.waits)) (get k c.jobs))

  pub Move-Limits :
      {c d : Core} → Move registry cap c d → Limits registry cap c → Limits registry cap d
  unfolding set_status_where
  Move-Limits (take_id c) l = take_id-Limits c l
  Move-Limits (touch c p f h) l = touch-Limits c p f h l
  Move-Limits (settle c p f h g) l =
      jobs-Limits c p f (λ j. (h j).agent) (λ j. ground (arith, (h j).terminal))
        (λ k j _ _ q. ground (arith, (h j).terminal)) l
  Move-Limits (requeue c p w h) l =
      jobs-Limits c p (λ j. record j { status = queued }) (λ j. refl) (λ j. refl)
        (λ k j g e _. ((h k j g e).safe, (h k j g e).room)) l
  Move-Limits (lease c k w n j g q o r) l = lease-Limits c k w n j g q o r l
  Move-Limits (admit c j h) l = admit-Limits c j h l

  pub Moves-Limits :
      {c d : Core} → Moves registry cap c d → Limits registry cap c → Limits registry cap d
  Moves-Limits none_left l = l
  Moves-Limits (more m s) l = Move-Limits s (Moves-Limits m l)
