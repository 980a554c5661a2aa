-- ===== src/Simulation/Reclaim.antt =====
-- The reclaim of expired leases (reclaim_expired in src/runtime/ledger/postgres_store.py) against an
-- attempt whose lease is still running.
use myndaix_runtime.Prelude.{
  ℕ, zero, suc, ◌+◌, ◌<◌, ◌≡◌, refl, sym, Bool, true, false, ◌&&◌, none, some, mem, leb, not, arith,
  ◌∙◌, ◌∷◌, [], Bool-cases, inl, inr, List, ap, Option, if◌then◌else◌, ==_refl,
}
use myndaix_runtime.Prelude.Table.{Table, get, select, get-update_where}
use myndaix_runtime.Prelude.Keyed.{IsKeyed, update_where-IsKeyed}
use myndaix_runtime.Prelude.Options.{some-injective-path}
use myndaix_runtime.Contracts.{Registry, terminal, retryable, ErrorClass}
use myndaix_runtime.Ledger.State.{
  Attempt, Job, is_open, is_live, job_test, raise, Core, Ledger, close_where, set_status_where,
  reclaim_batch, heartbeat_seconds, ok, lost_lease, guarded-ok,
}
use myndaix_runtime.Ledger.Lease.{holds_lease, heartbeat_attempt, beat, attempt_test}
use myndaix_runtime.Ledger.Janitor.{
  keys, limit, heal_orphans, expired_batch, reclaim_batch_of, reclaim_expired, move_jobs, is_orphan,
  repos_of,
}
use myndaix_runtime.Simulation.{Run, then, heartbeat}
use myndaix_runtime.Simulation.Safety.{empty}
use myndaix_runtime.Simulation.Worktrees.{filed, mem-select}

mem-limit {ℓ} :
    {V : Type ℓ} (n k : ℕ) (t : Table V) → mem k (keys (limit n t)) ≡ true → mem k (keys t) ≡ true
unfolding limit keys
mem-limit zero k t e = absurd (cc)
mem-limit (suc n) k [] e = absurd (cc)
mem-limit (suc n) k ((i, v) ∷ t) e = ground (arith, mem-limit n k t)

-- A close that passes over the attempt.
close_where-kept :
    (p : ℕ → Attempt → Bool) (x : ErrorClass) (now k : ℕ) (a : Attempt) (c : Core)
    → get k c.attempts ≡ some a
    → p k a ≡ false
    → get k (close_where p x now c).attempts ≡ some a
unfolding close_where
close_where-kept p x now k a c g e = rw (get-update_where, g, e) refl

close_where-IsKeyed :
    (p : ℕ → Attempt → Bool) (x : ErrorClass) (now : ℕ) (c : Core)
    → IsKeyed c.attempts
    → IsKeyed (close_where p x now c).attempts
unfolding close_where
close_where-IsKeyed p x now c h = update_where-IsKeyed p _ c.attempts h

-- The attempt is not in the batch.
not_expired :
    (locked : ℕ → Bool) (now k : ℕ) (a : Attempt) (c : Core)
    → IsKeyed c.attempts
    → get k c.attempts ≡ some a
    → now < a.lease_expires_at
    → mem k (keys (expired_batch locked now c)) ≡ false
not_expired locked now k a c h g late =
    elim (Bool-cases (mem k (keys (expired_batch locked now c)))) [
      | inr e ↦ e
      | inl e ↦
          let (b, f, q) =
            mem-select (λ k a. holds_lease c.jobs a && leb a.lease_expires_at now && not (locked k))
              k c.attempts h (mem-limit reclaim_batch k _ (unfold expired_batch in e)) in
          let same : b ≡ a = some-injective-path (sym f ∙ g) in
          let t : b.lease_expires_at ≡ a.lease_expires_at =
            ap (λ (x : Attempt). x.lease_expires_at) same in
          absurd (ground arith)
    ]

move_jobs-attempts : (xs ys : List ℕ) (c : Core) → (move_jobs xs ys c).attempts ≡ c.attempts
unfolding move_jobs set_status_where
move_jobs-attempts xs ys c = refl

reclaim_batch_of-attempts :
    (registry : Registry) (now : ℕ) (batch : Table Attempt) (repos : List ℕ) (l : Ledger)
    → (reclaim_batch_of registry now batch repos l).1.attempts
      ≡ (close_where (λ k _. mem k (keys batch)) retryable now l.core).attempts
unfolding reclaim_batch_of
reclaim_batch_of-attempts registry now batch repos l = move_jobs-attempts _ _ _

not_orphan :
    (b x : Bool) (o : Option Job)
    → (b && job_test (λ j. is_live j.status) o) ≡ true
    → ((b && job_test (λ j. not (is_live j.status)) o) && x) ≡ false
not_orphan b x none e = absurd (ground arith)
not_orphan b x (some j) e = ground arith

heal_orphans-kept :
    (locked : ℕ → Bool) (now k : ℕ) (a : Attempt) (c : Core)
    → get k c.attempts ≡ some a
    → holds_lease c.jobs a ≡ true
    → get k (heal_orphans locked now c).attempts ≡ some a
unfolding heal_orphans
heal_orphans-kept locked now k a c g e =
    close_where-kept (λ i b. is_orphan c.jobs b && not (locked i)) terminal now k a c g
      (not_orphan (is_open a.status) (not (locked k)) (get a.job_id c.jobs) e)

heal_orphans-IsKeyed :
    (locked : ℕ → Bool) (now : ℕ) (c : Core)
    → IsKeyed c.attempts
    → IsKeyed (heal_orphans locked now c).attempts
unfolding heal_orphans
heal_orphans-IsKeyed locked now c h = close_where-IsKeyed _ terminal now c h

reclaim_expired-kept :
    (registry : Registry) (locked : ℕ → Bool) (now k : ℕ) (a : Attempt) (l : Ledger)
    → IsKeyed l.attempts
    → get k l.attempts ≡ some a
    → holds_lease l.jobs a ≡ true
    → now < a.lease_expires_at
    → get k (reclaim_expired registry locked now l).1.attempts ≡ some a
unfolding reclaim_expired
reclaim_expired-kept registry locked now k a l h g lease late =
    let healed = heal_orphans locked now l.core in
    let g' = heal_orphans-kept locked now k a l.core g lease in
    let h' = heal_orphans-IsKeyed locked now l.core h in
    ap (λ t. get k t)
      (reclaim_batch_of-attempts registry now (expired_batch locked now healed)
        (repos_of l.jobs (select (λ i b. is_orphan l.jobs b && not (locked i)) l.attempts))
        (record l { core = healed }))
    ∙ close_where-kept (λ i _. mem i (keys (expired_batch locked now healed))) retryable now k a
        healed g' (not_expired locked now k a healed h' g' late)

-- The reclaim of expired leases, at any instant and whatever other transactions hold, leaves an
-- attempt of a reachable ledger as it is while its lease runs and its job is live.
pub running_lease_survives :
    {registry : Registry} {cap : ℕ} {l : Ledger}
    → Run registry cap empty l
    → (locked : ℕ → Bool) (now k : ℕ) (a : Attempt) → get k l.attempts ≡ some a
    → holds_lease l.jobs a ≡ true
    → now < a.lease_expires_at
    → get k (reclaim_expired registry locked now l).1.attempts ≡ some a
running_lease_survives {registry} {cap} {l} r locked now k a g e late =
    reclaim_expired-kept registry locked now k a l (filed r).keyed g e late

-- What a heartbeat has seen and done.
record Beat (k now : ℕ) (l m : Ledger) : Type 0 where
  a : Attempt
  held : get k l.attempts ≡ some a
  lease : holds_lease l.jobs a ≡ true
  core : m ≡ record l { core = beat k now l.core }

heartbeat_attempt-Beat :
    (k now : ℕ) (l m : Ledger) → heartbeat_attempt k now l ≡ ok m → Beat k now l m
heartbeat_attempt-Beat k now l m e = go (get k l.attempts) refl (unfold heartbeat_attempt in e)
  where
    go :
        (o : Option Attempt)
        → get k l.attempts ≡ o
        → (if attempt_test (holds_lease l.jobs) o
            then ok (record l { core = beat k now l.core })
            else raise lost_lease)
          ≡ ok m
        → Beat k now l m
    go none g q = absurd (cc)
    go (some a) g q =
        let (b, s) = guarded-ok (holds_lease l.jobs a) _ m lost_lease q in
        record { a = a; held = g; lease = b; core = sym s }

beaten :
    (k now : ℕ) (a : Attempt) (c : Core)
    → get k c.attempts ≡ some a
    → get k (beat k now c).attempts ≡ some (record a { lease_expires_at = now + heartbeat_seconds })
unfolding beat
beaten k now a c g = rw (get-update_where, g, ==_refl k) refl

beat-jobs : (k now : ℕ) (c : Core) → (beat k now c).jobs ≡ c.jobs
unfolding beat
beat-jobs k now c = refl

-- A worker whose heartbeat was accepted at `now` keeps its attempt through any reclaim that runs
-- within the next HEARTBEAT_SECONDS: the reclaim leaves it open, under the extended lease.
pub heartbeat_protects :
    {registry : Registry} {cap : ℕ} {l m : Ledger}
    → Run registry cap empty l
    → (k now : ℕ) → heartbeat_attempt k now l ≡ ok m
    → (locked : ℕ → Bool) (later : ℕ) → later < now + heartbeat_seconds
    → (a : Attempt) × (get k l.attempts ≡ some a)
      × (get k (reclaim_expired registry locked later m).1.attempts
          ≡ some (record a { lease_expires_at = now + heartbeat_seconds }))
heartbeat_protects {registry} {cap} {l} {m} r k now e locked later late =
    let b = heartbeat_attempt-Beat k now l m e in
    let s = (then) r (heartbeat k now l e) in
    (
      b.a,
      b.held,
      running_lease_survives s locked later k
          (record b.a { lease_expires_at = now + heartbeat_seconds })
          (rw b.core (beaten k now b.a l.core b.held)) (rw (b.core, beat-jobs) b.lease) late,
    )
