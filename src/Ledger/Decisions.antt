-- ===== src/Ledger/Decisions.antt =====
-- The decisions on pull requests: automerge_decision and record_automerge of
-- src/runtime/ledger/postgres_store.py, on the table under the key (repo_id, pr_number, head_sha).
use myndaix_runtime.Prelude.{
  ℕ, ◌≡◌, refl, Bool, true, false, ◌&&◌, Option, none, some, List, [], ◌∷◌, ◌==◌, if◌then◌else◌,
  arith, Bool-cases, inl, inr, ==→eq,
}
use myndaix_runtime.Contracts.{Text}

-- The decisions that the table's CHECK admits.
pub data Decision : Type 0 where
  merged needs_fix skipped error : Decision

pub record PrHead : Type 0 where
  pub repo_id : ℕ
  pub pr_number : ℕ
  pub head_sha : ℕ

pub record Seen : Type 0 where
  pub key : PrHead
  pub decision : Decision
  pub reason : Option Text

unfoldable pub same_head : PrHead → PrHead → Bool
same_head a b = a.repo_id == b.repo_id && (a.pr_number == b.pr_number && a.head_sha == b.head_sha)

unfoldable pub automerge_decision : PrHead → List Seen → Option Decision
unfolding same_head
automerge_decision k [] = none
automerge_decision k (s ∷ ss) =
    if same_head s.key k then some s.decision else automerge_decision k ss

-- INSERT … ON CONFLICT … DO UPDATE
unfoldable pub record_automerge : PrHead → Decision → Option Text → List Seen → List Seen
unfolding same_head
record_automerge k d reason [] = record { key = k; decision = d; reason = reason } ∷ []
record_automerge k d reason (s ∷ ss) =
    let rest = record_automerge k d reason ss in
    if same_head s.key k then record s { decision = d; reason = reason } ∷ ss else s ∷ rest

same_head-moves : (a b c : PrHead) → same_head a b ≡ true → same_head a c ≡ same_head b c
unfolding same_head
same_head-moves a b c e =
    let (r, q) = both (a.repo_id == b.repo_id) _ e in
    let (p, h) = both (a.pr_number == b.pr_number) _ q in
    rw (==→eq a.repo_id b.repo_id r, ==→eq a.pr_number b.pr_number p, ==→eq a.head_sha b.head_sha h)
      refl
  where
    both : (x y : Bool) → (x && y) ≡ true → (x ≡ true) × (y ≡ true)
    both x y e = (ground arith, ground arith)

-- Two heads that are the same as a third are the same.
apart : (a b c : PrHead) → same_head a c ≡ true → same_head b c ≡ true → same_head a b ≡ false → ⊥
unfolding same_head
apart a b c p q e = ground arith

-- The decision on a head is the one recorded last for it, and recording one leaves the decision on
-- every other head as it was.
pub decision_is_last :
    (k i : PrHead) (d : Decision) (reason : Option Text) (t : List Seen)
    → automerge_decision i (record_automerge k d reason t)
      ≡ (if same_head k i then some d else automerge_decision i t)
unfolding automerge_decision record_automerge
decision_is_last k i d reason [] = refl
decision_is_last k i d reason (s ∷ ss) = elim (Bool-cases (same_head s.key k)) [
  | inl e ↦
      rw (e, same_head-moves s.key k i e) (twice (same_head k i) (some d) (automerge_decision i ss))
  | inr e ↦
      rw (e, decision_is_last k i d reason ss)
        (other (same_head s.key i) (same_head k i) refl refl e)
]
  where
    twice :
        (b : Bool) (x y : Option Decision)
        → (if b then x else y) ≡ (if b then x else if b then some s.decision else y)
    twice true x y = refl
    twice false x y = refl

    other :
        (a b : Bool)
        → same_head s.key i ≡ a
        → same_head k i ≡ b
        → same_head s.key k ≡ false
        → (if a then some s.decision else if b then some d else automerge_decision i ss)
          ≡ (if b then some d else if a then some s.decision else automerge_decision i ss)
    other true true p q e = absurd (apart s.key k i p q e)
    other true false p q e = refl
    other false b p q e = refl
