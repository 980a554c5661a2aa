-- ===== src/Outcomes/Sticky.antt =====
-- The rows of finding_outcome that no human wrote leave the human's row the current one, as the view
-- finding_current of src/runtime/ledger/migrations puts human rows first.
use myndaix_runtime.Prelude.{
  ◌≡◌, refl, ◌∙◌, ap, Bool, true, false, ◌&&◌, Option, none, some, [], ◌∷◌, arith,
}
use myndaix_runtime.Prelude.Options.{some-injective-path}
use myndaix_runtime.Contracts.{Text}
use myndaix_runtime.Outcomes.{
  Family, FindingOutcome, Outcomes, is_human, latest, is_of, or_else, finding_current,
}
use myndaix_runtime.Outcomes.Appends.{Grows, stays, adds}

abbrev pub ByMachine : FindingOutcome → Type 0
ByMachine r = is_human r.outcome_source ≡ false

abbrev human_row : Text → Family → Outcomes → Option FindingOutcome
human_row k f t = latest (λ r. is_of k f r && is_human r.outcome_source) t

machine-human_row :
    (k : Text) (f : Family) {t u : Outcomes}
    → Grows ByMachine t u
    → human_row k f u ≡ human_row k f t
unfolding latest
machine-human_row k f stays = refl
machine-human_row k f (adds r u p n g) =
    let z : (is_of k f r && is_human r.outcome_source) ≡ false = ground (arith, p) in
    rw z (machine-human_row k f g)

-- The newest of the rows p is the newest of the rows p and q, where it is q itself.
latest-both :
    (p q : FindingOutcome → Bool) (t : Outcomes) (r : FindingOutcome)
    → latest p t ≡ some r
    → q r ≡ true
    → latest (λ r. p r && q r) t ≡ some r
unfolding latest
latest-both p q [] r e h = absurd (cc)
latest-both p q (s ∷ t) r e h = go (p s) refl (latest-both p q t r)
  where
    go :
        (a : Bool)
        → p s ≡ a
        → (latest p t ≡ some r → q r ≡ true → latest (λ r. p r && q r) t ≡ some r)
        → latest (λ r. p r && q r) (s ∷ t) ≡ some r
    go true x i =
        let z : s ≡ r = some-injective-path (rw x at e) in
        let y : q s ≡ true = rw z h in
        let w : (p s && q s) ≡ true = ground (arith, x, y) in rw w (ap (λ r. some r) z)
    go false x i = let w : (p s && q s) ≡ false = ground (arith, x) in rw w (i (rw x at e) h)

current-human_row :
    (k : Text) (f : Family) (t : Outcomes) (r : FindingOutcome)
    → finding_current k f t ≡ some r
    → is_human r.outcome_source ≡ true
    → human_row k f t ≡ some r
unfolding finding_current
current-human_row k f t r e h = go (human_row k f t) refl
  where
    go : (o : Option FindingOutcome) → human_row k f t ≡ o → human_row k f t ≡ some r
    go none x = latest-both (is_of k f) (λ r. is_human r.outcome_source) t r (rw x at e) h
    go (some s) x = x ∙ (rw x at e)

pub machine-current :
    (k : Text) (f : Family) (r : FindingOutcome) {t u : Outcomes}
    → Grows ByMachine t u
    → finding_current k f t ≡ some r
    → is_human r.outcome_source ≡ true
    → finding_current k f u ≡ some r
unfolding finding_current
machine-current k f r {t} {u} g e h =
    ap (λ o. or_else o (latest (is_of k f) u))
      (machine-human_row k f g ∙ current-human_row k f t r e h)
