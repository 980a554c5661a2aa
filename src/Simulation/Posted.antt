-- ===== src/Simulation/Posted.antt =====
-- The replies of the outbox (src/runtime/ledger/postgres_store.py) over one step.
use myndaix_runtime.Prelude.{
  ℕ, suc, ◌+◌, ◌≤◌, ◌≡◌, refl, ap, ◌∙◌, sym, true, Option, none, some, ◌==◌, arith, Bool-cases, inl,
  inr, if◌then◌else◌, bit, ==→eq, fun_ext,
}
use myndaix_runtime.Prelude.Table.{
  Table, get, update_where, insert, count, count-update_where, count-insert, get-update_where,
  get-insert, update_where-row, insert-row,
}
use myndaix_runtime.Prelude.Keyed.{
  IsKeyed, update_where-IsKeyed, update_where-missing, insert-IsKeyed,
}
use myndaix_runtime.Contracts.{Registry}
use myndaix_runtime.Ledger.State.{Job, Outbound, Core, Ledger, job_test, set_status_where}
use myndaix_runtime.Ledger.Lease.{claimed}
use myndaix_runtime.Ledger.Dispatch.{add_job}
use myndaix_runtime.Machine.{
  Move, take_id, touch, settle, requeue, lease, admit, Moves, none_left, more,
}
use myndaix_runtime.Machine.Terminal.{Moves-terminal}
use myndaix_runtime.Simulation.Sending.{Changed, idle, change, Quota, is_sent}
use myndaix_runtime.Simulation.Effects.{is_done, Fresh, Effect, quiet, completes, queues}

-- Ids only grow.
pub Moves-next_id :
    {registry : Registry} {cap : ℕ} {c d : Core} → Moves registry cap c d → c.next_id ≤ d.next_id
Moves-next_id none_left = omega arith
Moves-next_id (more m s) = omega (arith, Moves-next_id m, step s)
  where
    step :
        {registry : Registry} {cap : ℕ} {c d : Core} → Move registry cap c d → c.next_id ≤ d.next_id
    step (take_id c) = omega arith
    step (touch c p f h) = omega arith
    step (settle c p f h w) = omega arith
    step (requeue c p w h) = unfold set_status_where in omega arith
    step (lease c i w n m _ _ _ _) = unfold claimed in omega arith
    step (admit c m h) = unfold add_job in omega arith

pub record Outbox (l : Ledger) : Type 0 where
  pub keyed : IsKeyed l.outbounds
  pub fresh : (k : ℕ) → l.next_id ≤ k → get k l.outbounds ≡ none
  pub quota : (k : ℕ) (o : Outbound) → get k l.outbounds ≡ some o → Quota o

queued-Outbox :
    (l l' : Ledger) (k : ℕ) (o : Outbound)
    → l'.outbounds ≡ insert l.next_id o l.outbounds
    → l'.next_id ≡ suc l.next_id
    → Fresh k o
    → Outbox l
    → Outbox l'
queued-Outbox l l' k o t n f h = record {
  keyed = rw t (insert-IsKeyed l.next_id o l.outbounds (h.fresh l.next_id (omega arith)) h.keyed);
  fresh = λ i m. rw (t, get-insert, h.fresh i (omega (arith, n))) (ground (arith, n));
  quota = λ i x g. elim (insert-row i l.next_id o l.outbounds x (sym (ap (λ t. get i t) t) ∙ g)) [
    | inl q ↦ h.quota i x q
    | inr (_, q) ↦ rw (q, f.unsent, f.waits) (omega arith)
  ];
}

changed-Outbox :
    (l l' : Ledger)
    → l.next_id ≤ l'.next_id
    → (t : Table Outbound) → Changed l.outbounds t
    → t ≡ l'.outbounds
    → Outbox l
    → Outbox l'
changed-Outbox l l' n t idle e h = record {
  keyed = rw (← e) h.keyed;
  fresh = λ k m. rw (← e) (h.fresh k (omega (arith, n, m)));
  quota = λ k o g. h.quota k o (rw (← e) at g);
}
changed-Outbox l l' n t (change p f j c) e h = record {
  keyed = rw (← e) (update_where-IsKeyed p f l.outbounds h.keyed);
  fresh =
      λ k m. rw (← e) (update_where-missing p f k l.outbounds (h.fresh k (omega (arith, n, m))));
  quota = λ k o g. quota k o (rw (← e) at g);
}
  where
    quota : (k : ℕ) (o : Outbound) → get k (update_where p f l.outbounds) ≡ some o → Quota o
    quota k o g =
        let (u, m, q) = update_where-row p f k l.outbounds o g in
        elim (Bool-cases (p k u)) [
          | inl b ↦ rw (q, b) ((c k u m b).quota (h.quota k u m))
          | inr b ↦ rw (q, b) (h.quota k u m)
        ]

pub Effect-Outbox :
    {n : ℕ} (l l' : Ledger) → l.next_id ≤ l'.next_id → Effect l l' n → Outbox l → Outbox l'
Effect-Outbox l l' m (quiet c) h = changed-Outbox l l' m l'.outbounds c refl h
Effect-Outbox l l' m (completes k o t n f _ _) h = queued-Outbox l l' k o t n f h
Effect-Outbox l l' m (queues k o t n f) h = queued-Outbox l l' k o t n f h

-- A row that was sent.
pub Effect-sent :
    {n : ℕ} (l l' : Ledger) (k : ℕ) (o : Outbound)
    → Effect l l' n
    → get k l.outbounds ≡ some o
    → is_sent o.status ≡ true
    → get k l'.outbounds ≡ some o
Effect-sent l l' k o (quiet c) g e = go l'.outbounds c
  where
    go : (t : Table Outbound) → Changed l.outbounds t → get k t ≡ some o
    go t idle = g
    go t (change p f j c) = elim (Bool-cases (p k o)) [
      | inl b ↦ absurd (ground (arith, (c k o g b).unsent, e))
      | inr b ↦ rw (get-update_where, g, b) refl
    ]
Effect-sent l l' k o (completes i r t n f _ _) g e = rw (t, get-insert, g) refl
Effect-sent l l' k o (queues i r t n f) g e = rw (t, get-insert, g) refl

-- SELECT count(*) FROM outbound WHERE job_id = k
unfoldable pub reply_count : Table Outbound → ℕ → ℕ
reply_count t k = count (λ _ o. o.job_id == k) t

abbrev pub done_bit : Ledger → ℕ → ℕ
done_bit l k = bit (job_test is_done (get k l.jobs))

reply_count-Changed :
    (k : ℕ) (t u : Table Outbound) → Changed t u → reply_count u k ≡ reply_count t k
unfolding reply_count
reply_count-Changed k t u idle = refl
reply_count-Changed k t u (change p f j c) =
    count-update_where (λ _ o. o.job_id == k) p f t
    ∙ ap (λ q. count q t) (fun_ext (λ i. fun_ext (λ o. same i o)))
  where
    same : (i : ℕ) (o : Outbound) → ((if p i o then f o else o).job_id == k) ≡ (o.job_id == k)
    same i o = elim (Bool-cases (p i o)) [ inl b ↦ rw (b, j o) refl | inr b ↦ rw b refl ]

reply_count-insert :
    (k i job : ℕ) (o : Outbound) (t : Table Outbound)
    → Fresh job o
    → reply_count (insert i o t) k ≡ reply_count t k + bit (job == k)
unfolding reply_count
reply_count-insert k i job o t f =
    count-insert _ i o t ∙ ap (λ x. count (λ _ o. o.job_id == k) t + bit (x == k)) f.owner

-- A job that is done stays done.
pub done_stays :
    {registry : Registry} {cap : ℕ} (l l' : Ledger) (k : ℕ)
    → Moves registry cap l.core l'.core
    → done_bit l k ≤ done_bit l' k
done_stays l l' k m = go (get k l.jobs) refl
  where
    go : (x : Option Job) → get k l.jobs ≡ x → bit (job_test is_done x) ≤ done_bit l' k
    go none g = omega arith
    go (some j) g = elim (Bool-cases (is_done j)) [
      | inl d ↦ rw (Moves-terminal k j (ground arith) m g) (omega arith)
      | inr d ↦ rw d (omega arith)
    ]

-- The replies of a job after a step.
pub Effect-count :
    {n : ℕ} (l l' : Ledger) (k x : ℕ)
    → done_bit l k ≤ done_bit l' k
    → Effect l l' n
    → reply_count l.outbounds k ≤ done_bit l k + x
    → reply_count l'.outbounds k ≤ done_bit l' k + (x + n)
Effect-count l l' k x d (quiet c) h =
    omega (arith, d, h, reply_count-Changed k l.outbounds l'.outbounds c)
Effect-count l l' k x d (queues i o t n f) h =
    rw t (ground (arith, d, h, reply_count-insert k l.next_id i o l.outbounds f))
Effect-count l l' k x d (completes i o t n f u v) h = elim (Bool-cases (i == k)) [
  | inl b ↦ rw (t, reply_count-insert k l.next_id i o l.outbounds f, b) (one (==→eq i k b))
  | inr b ↦ rw (t, reply_count-insert k l.next_id i o l.outbounds f, b) (omega (arith, d, h))
]
  where
    one : i ≡ k → reply_count l.outbounds k + 1 ≤ done_bit l' k + (x + 0)
    one e =
        let a : done_bit l k ≡ 0 = rw (← e, u) refl in
        let b : done_bit l' k ≡ 1 = rw (← e, v) refl in omega (arith, a, b, h)
