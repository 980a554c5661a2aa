-- ===== src/Simulation/Sending.antt =====
-- What the verbs of src/runtime/ledger/postgres_store.py do to the outbox, row by row.
use myndaix_runtime.Prelude.{
  ℕ, ◌+◌, ◌≤◌, ◌≡◌, refl, ap, ◌∙◌, sym, subst, [], ◌∷◌, ltb, Bool, true, false, Option, none, some,
  ◌&&◌, ◌==◌, not, arith, if◌then◌else◌, bit, ==→eq,
}
use myndaix_runtime.Prelude.Table.{Table, get, update_where, select}
use myndaix_runtime.Prelude.Options.{some-injective-path}
use myndaix_runtime.Prelude.Keyed.{IsKeyed, select-IsRow, select-IsKeyed}
use myndaix_runtime.Contracts.{OutboundStatus, claimed, sent}
use myndaix_runtime.Ledger.State.{Outbound, Ledger, outbound_max_tries}
use myndaix_runtime.Ledger.Outbox.{
  is_pending, is_claimed, claim_outbound, next_outbound, least, lesser, claim_row, mark_sent_from,
  send_row, set_sent, set_failed, row_test, id_taken, mark_outbound_sent, mark_outbound_sent_inline,
  mark_outbound_failed, retry_row,
}

abbrev pub is_sent : OutboundStatus → Bool
is_sent sent = true
is_sent _ = false

-- A pending row may be claimed once more.
abbrev pub Quota : Outbound → Type 0
Quota o = o.tries + bit (is_pending o.status) ≤ outbound_max_tries

-- A change of a row that has not been sent.
pub record Changes (a b : Outbound) : Type 0 where
  pub unsent : is_sent a.status ≡ false
  pub quota : Quota a → Quota b

pub data Changed (t : Table Outbound) : Table Outbound → Type 0 where
  idle : Changed t t
  change :
      (p : ℕ → Outbound → Bool) (f : Outbound → Outbound)
      → ((o : Outbound) → (f o).job_id ≡ o.job_id)
      → ((k : ℕ) (o : Outbound) → get k t ≡ some o → p k o ≡ true → Changes o (f o))
      → Changed t (update_where p f t)

pub same_outbox : {t t' : Table Outbound} → t' ≡ t → Changed t t'
same_outbox {t} e = subst (λ (x : Table Outbound). Changed t x) (sym e) idle

-- The row of the least key is one of the two.
lesser-row :
    (t : Table Outbound) (i : ℕ) (a : Outbound) (x : Option (ℕ × Outbound))
    → get i t ≡ none
    → ((m : ℕ) (b : Outbound) → x ≡ some (m, b) → get m t ≡ some b)
    → get (lesser (i, a) x).0 ((i, a) ∷ t) ≡ some (lesser (i, a) x).1
unfolding lesser get
lesser-row t i a none e h = ground arith
lesser-row t i a (some (m, b)) e h = chosen (ltb m i) refl
  where
    found : get m t ≡ some b
    found = h m b refl

    chosen :
        (c : Bool)
        → ltb m i ≡ c
        → get (if◌then◌else◌ {A = ℕ × Outbound} c (m, b) (i, a)).0 ((i, a) ∷ t)
          ≡ some (if◌then◌else◌ {A = ℕ × Outbound} c (m, b) (i, a)).1
    chosen true w = ground (arith, found)
    chosen false w = ground arith

least-row :
    (t : Table Outbound) (row : ℕ × Outbound)
    → IsKeyed t
    → least t ≡ some row
    → get row.0 t ≡ some row.1
unfolding least
least-row [] row h e = absurd (cc)
least-row ((i, a) ∷ t) row h e =
    subst (λ (r : ℕ × Outbound). get r.0 ((i, a) ∷ t) ≡ some r.1) (some-injective-path e)
      (lesser-row t i a (least t) h.0 (λ m b q. least-row t (m, b) h.1 q))

module _ (from : OutboundStatus → Bool)
    (unsent : (s : OutboundStatus) → from s ≡ true → is_sent s ≡ false) where
  mark_sent_from-Changed :
      (id msg : ℕ) (l : Ledger) → Changed l.outbounds (mark_sent_from from id msg l).1.outbounds
  unfolding mark_sent_from
  mark_sent_from-Changed id msg l =
      found (row_test (λ o. from o.status) (get id l.outbounds)) (id_taken id msg l.outbounds)
    where
      ended :
          (k : ℕ) (a b : Outbound)
          → (k == id && from a.status) ≡ true
          → b.tries ≡ a.tries
          → is_pending b.status ≡ false
          → Changes a b
      ended k a b h t e = record {
        unsent = unsent a.status (ground arith);
        quota = λ q. rw (e, t) (omega arith);
      }

      row : (taken : Bool) → Changed l.outbounds (send_row from id msg taken l).1.outbounds
      row true =
          unfold send_row set_failed in change _ _ (λ o. refl) (λ k o g h. ended k o _ h refl refl)
      row false =
          unfold send_row set_sent in change _ _ (λ o. refl) (λ k o g h. ended k o _ h refl refl)

      found :
          (b taken : Bool)
          → Changed l.outbounds (if b then send_row from id msg taken l else (0, l)).1.outbounds
      found true taken = row taken
      found false taken = idle

pub mark_outbound_sent-Changed :
    (id msg : ℕ) (l : Ledger) → Changed l.outbounds (mark_outbound_sent id msg l).outbounds
unfolding mark_outbound_sent
mark_outbound_sent-Changed id msg l =
    mark_sent_from-Changed is_claimed (λ s e. ground arith) id msg l

pub mark_outbound_sent_inline-Changed :
    (id msg : ℕ) (l : Ledger) → Changed l.outbounds (mark_outbound_sent_inline id msg l).1.outbounds
unfolding mark_outbound_sent_inline
mark_outbound_sent_inline-Changed id msg l =
    mark_sent_from-Changed is_pending (λ s e. ground arith) id msg l

retry_row-Changes : (o : Outbound) → is_claimed o.status ≡ true → Changes o (retry_row o)
unfolding retry_row
retry_row-Changes o e = record { unsent = ground arith; quota = λ q. ground arith }

retry_row-job : (o : Outbound) → (retry_row o).job_id ≡ o.job_id
unfolding retry_row
retry_row-job o = refl

outbounds-mark_outbound_failed :
    (id : ℕ) (l : Ledger)
    → (mark_outbound_failed id l).outbounds
      ≡ update_where (λ i o. i == id && is_claimed o.status) retry_row l.outbounds
unfolding mark_outbound_failed
outbounds-mark_outbound_failed id l = ground arith

pub mark_outbound_failed-Changed :
    (id : ℕ) (l : Ledger) → Changed l.outbounds (mark_outbound_failed id l).outbounds
mark_outbound_failed-Changed id l =
    subst (λ (t : Table Outbound). Changed l.outbounds t)
      (sym (outbounds-mark_outbound_failed id l))
      (change _ retry_row retry_row-job (λ k o g h. retry_row-Changes o (ground arith)))

next_outbound-row :
    (transport : ℕ) (locked : ℕ → Bool) (t : Table Outbound) (row : ℕ × Outbound)
    → IsKeyed t
    → next_outbound transport locked t ≡ some row
    → (get row.0 t ≡ some row.1) × (is_pending row.1.status ≡ true)
unfolding next_outbound
next_outbound-row transport locked t row h e =
    let p : ℕ → Outbound → Bool =
      λ k o. o.transport == transport && is_pending o.status && not (locked k) in
    let g = least-row (select p t) row (select-IsKeyed p t h) e in
    let (r, q) = select-IsRow p row.0 row.1 t h g in (r, ground arith)

pub claim_outbound-Changed :
    (transport : ℕ) (locked : ℕ → Bool) (l : Ledger)
    → IsKeyed l.outbounds
    → Changed l.outbounds (claim_outbound transport locked l).1.outbounds
unfolding claim_outbound
claim_outbound-Changed transport locked l h = go (next_outbound transport locked l.outbounds) refl
  where
    claimable :
        (i k : ℕ) (o u : Outbound)
        → get i l.outbounds ≡ some u
        → is_pending u.status ≡ true
        → get k l.outbounds ≡ some o
        → (k == i) ≡ true
        → Changes o (record o { status = claimed; tries = o.tries + 1 })
    claimable i k o u g p f e =
        let same : o ≡ u =
          some-injective-path (sym f ∙ ap (λ j. get j l.outbounds) (==→eq k i e) ∙ g) in
        record {
          unsent = rw same (ground arith);
          quota = λ q. ground (arith, ap (λ (x : Outbound). is_pending x.status) same);
        }

    go :
        (x : Option (ℕ × Outbound))
        → next_outbound transport locked l.outbounds ≡ x
        → Changed l.outbounds (claim_row x l).1.outbounds
    go none e = idle
    go (some (i, u)) e =
        let (g, p) = next_outbound-row transport locked l.outbounds (i, u) h e in
        change (λ k _. k == i) (λ o. record o { status = claimed; tries = o.tries + 1 }) (λ o. refl)
          (λ k o f q. claimable i k o u g p f q)
