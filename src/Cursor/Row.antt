-- ===== src/Cursor/Row.antt =====
-- A status-guarded compare-and-swap on the one row of a primary key: UPDATE … WHERE … RETURNING.
-- The answer is whether a row came back.
use myndaix_runtime.Prelude.{◌≡◌, refl, Bool, true, false, Option, none, some, if◌then◌else◌}

unfoldable pub cas {ℓ} : {V : Type ℓ} → (V → Bool) → (V → V) → Option V → Bool × Option V
cas test change none = (false, none)
cas test change (some v) = if test v then (true, some (change v)) else (false, some v)

abbrev pub RowHolds {ℓ κ} : {V : Type ℓ} → (V → Type κ) → Option V → Type κ
RowHolds P none = Unit
RowHolds P (some v) = P v

-- What a change keeps under its guard, the swap keeps.
pub cas-keeps {ℓ κ} :
    {V : Type ℓ} (P : V → Type κ) (test : V → Bool) (change : V → V) (row : Option V)
    → ((v : V) → test v ≡ true → P v → P (change v))
    → RowHolds P row
    → RowHolds P (cas test change row).1
unfolding cas
cas-keeps {V} P test change none k h = tt
cas-keeps {V} P test change (some v) k h = go (test v) (k v) h
  where
    go :
        (b : Bool)
        → (b ≡ true → P v → P (change v))
        → P v
        → RowHolds P
            (if◌then◌else◌ {A = Bool × Option V} b (true, some (change v)) (false, some v)).1
    go true k h = k refl h
    go false k h = h
