-- ===== src/Prelude/Keyed.antt =====
-- Tables in which no key stands twice, as a primary key demands.
use myndaix_runtime.Prelude.Tests.{==→eq, Bool-cases}
use Prim.Native.Nat.{ℕ}
use mathlib.Core.Path.{◌≡◌, refl}
use mathlib.Core.Logic.{inl, inr}
use mathlib.Core.Bool.{Bool, true}
use mathlib.Core.Option.{none, some}
use mathlib.Core.List.{[], ◌∷◌}
use native.Mathlib.Omega.{arith}
use myndaix_runtime.Prelude.Table.{
  Table, get, update_where, insert, select, get-update_where, get-insert,
}

module _ {ℓ} {V : Type ℓ} where
  abbrev pub IsKeyed : Table V → Type ℓ
  IsKeyed [] = Unit
  IsKeyed ((k, _) ∷ t) = (get k t ≡ none) × IsKeyed t

  pub update_where-missing :
      (p : ℕ → V → Bool) (f : V → V) (k : ℕ) (t : Table V)
      → get k t ≡ none
      → get k (update_where p f t) ≡ none
  update_where-missing p f k t e = rw (get-update_where, e) refl

  pub update_where-IsKeyed :
      (p : ℕ → V → Bool) (f : V → V) (t : Table V) → IsKeyed t → IsKeyed (update_where p f t)
  unfolding update_where
  update_where-IsKeyed p f [] h = tt
  update_where-IsKeyed p f ((k, v) ∷ t) h =
      (update_where-missing p f k t h.0, update_where-IsKeyed p f t h.1)

  pub insert-IsKeyed :
      (k : ℕ) (v : V) (t : Table V) → get k t ≡ none → IsKeyed t → IsKeyed (insert k v t)
  unfolding insert get
  insert-IsKeyed k v [] e h = (refl, tt)
  insert-IsKeyed k v ((i, w) ∷ t) e h =
      (ground (arith, get-insert i k v t, h.0), insert-IsKeyed k v t (ground arith) h.1)

  pub select-missing :
      (p : ℕ → V → Bool) (k : ℕ) (t : Table V) → get k t ≡ none → get k (select p t) ≡ none
  unfolding select get
  select-missing p k [] e = refl
  select-missing p k ((i, v) ∷ t) e = ground (arith, select-missing p k t)

  pub select-IsKeyed : (p : ℕ → V → Bool) (t : Table V) → IsKeyed t → IsKeyed (select p t)
  unfolding select
  select-IsKeyed p [] h = tt
  select-IsKeyed p ((k, v) ∷ t) h = elim (Bool-cases (p k v)) [
    | inl e ↦ rw e (select-missing p k t h.0, select-IsKeyed p t h.1)
    | inr e ↦ rw e (select-IsKeyed p t h.1)
  ]

  -- A selected row is a row of the table that passes the test.
  pub select-IsRow :
      (p : ℕ → V → Bool) (k : ℕ) (v : V) (t : Table V)
      → IsKeyed t
      → get k (select p t) ≡ some v
      → (get k t ≡ some v) × (p k v ≡ true)
  unfolding select get
  select-IsRow p k v [] h e = absurd (cc)
  select-IsRow p k v ((i, w) ∷ t) h e =
      ground (arith, select-IsRow p k v t h.1, select-missing p k t, ==→eq i k, h.0)
