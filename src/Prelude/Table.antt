-- ===== src/Prelude/Table.antt =====
-- A database table: rows under a primary key, in the order of insertion. `UPDATE … WHERE` is
-- `update_where`, an `INSERT` of a fresh key is `insert`, and `count(*) … WHERE` is `count`.
use Prim.Native.Nat.{ℕ, ◌+◌, ◌≤◌}
use mathlib.Core.Path.{◌≡◌, refl, sym, ap, ◌∙◌}
use mathlib.Core.Logic.{◌⊎◌, inl, inr}
use mathlib.Core.Bool.{Bool, true, false}
use mathlib.Core.Option.{Option, none, some}
use mathlib.Core.List.{List, [], ◌∷◌, ◌++◌}
use native.Mathlib.Omega.{arith}
use myndaix_runtime.Prelude.Tests.{◌==◌, if◌then◌else◌, bit, ==→eq}

abbrev pub Table {ℓ} : Type ℓ → Type ℓ
Table V = List (ℕ × V)

module _ {ℓ} {V : Type ℓ} where
  unfoldable pub get : ℕ → Table V → Option V
  get k [] = none
  get k ((j, v) ∷ t) = if j == k then some v else get k t

  unfoldable pub update_where : (ℕ → V → Bool) → (V → V) → Table V → Table V
  update_where p f [] = []
  update_where p f ((j, v) ∷ t) = (j, if p j v then f v else v) ∷ update_where p f t

  unfoldable pub insert : ℕ → V → Table V → Table V
  insert k v t = t ++ (k, v) ∷ []

  unfoldable pub count : (ℕ → V → Bool) → Table V → ℕ
  count p [] = 0
  count p ((j, v) ∷ t) = bit (p j v) + count p t

  unfoldable pub select : (ℕ → V → Bool) → Table V → Table V
  select p [] = []
  select p ((j, v) ∷ t) = let rest = select p t in if p j v then (j, v) ∷ rest else rest

  -- `f` on the rows that satisfy `p`, `none` where there is no row.
  abbrev pub updated : (ℕ → V → Bool) → (V → V) → ℕ → Option V → Option V
  updated p f k none = none
  updated p f k (some v) = some (if p k v then f v else v)

  abbrev pub or_row : Option V → Bool → V → Option V
  or_row none true v = some v
  or_row none false v = none
  or_row (some w) b v = some w

  pub get-update_where :
      (p : ℕ → V → Bool) (f : V → V) (k : ℕ) (t : Table V)
      → get k (update_where p f t) ≡ updated p f k (get k t)
  unfolding get update_where
  get-update_where p f k [] = refl
  get-update_where p f k ((j, v) ∷ t) = ground (arith, get-update_where p f k t)

  pub get-insert :
      (k j : ℕ) (v : V) (t : Table V) → get k (insert j v t) ≡ or_row (get k t) (j == k) v
  unfolding get insert
  get-insert k j v [] = ground arith
  get-insert k j v ((i, w) ∷ t) = ground (arith, get-insert k j v t)

  pub count-update_where :
      (p q : ℕ → V → Bool) (f : V → V) (t : Table V)
      → count p (update_where q f t) ≡ count (λ k v. p k (if q k v then f v else v)) t
  unfolding count update_where
  count-update_where p q f [] = refl
  count-update_where p q f ((j, v) ∷ t) =
      ap (λ n. bit (p j (if q j v then f v else v)) + n) (count-update_where p q f t)

  pub count-insert :
      (p : ℕ → V → Bool) (j : ℕ) (v : V) (t : Table V)
      → count p (insert j v t) ≡ count p t + bit (p j v)
  unfolding count insert
  count-insert p j v [] = omega arith
  count-insert p j v ((i, w) ∷ t) = omega (arith, count-insert p j v t)

  pub count_mono :
      (p q : ℕ → V → Bool) (t : Table V)
      → ((k : ℕ) (v : V) → p k v ≡ true → q k v ≡ true)
      → count p t ≤ count q t
  unfolding count
  count_mono p q [] h = omega arith
  count_mono p q ((j, v) ∷ t) h = ground (arith, h j v, count_mono p q t h)

  pub count_zero :
      (p : ℕ → V → Bool) (t : Table V) → ((k : ℕ) (v : V) → p k v ≡ false) → count p t ≡ 0
  unfolding count
  count_zero p [] h = refl
  count_zero p ((j, v) ∷ t) h = ground (arith, h j v, count_zero p t h)

  -- A count splits along any test.
  pub count_or :
      (p q r : ℕ → V → Bool) (t : Table V)
      → ((k : ℕ) (v : V) → bit (p k v) ≤ bit (q k v) + bit (r k v))
      → count p t ≤ count q t + count r t
  unfolding count
  count_or p q r [] h = omega arith
  count_or p q r ((j, v) ∷ t) h = omega (arith, h j v, count_or p q r t h)

  -- Where a row of an updated table comes from.
  pub update_where-row :
      (p : ℕ → V → Bool) (f : V → V) (k : ℕ) (t : Table V) (v : V)
      → get k (update_where p f t) ≡ some v
      → (u : V) × (get k t ≡ some u) × (v ≡ (if p k u then f u else u))
  update_where-row p f k t v h = go (get k t) refl (sym (get-update_where p f k t) ∙ h)
    where
      go :
          (o : Option V)
          → get k t ≡ o
          → updated p f k o ≡ some v
          → (u : V) × (get k t ≡ some u) × (v ≡ (if p k u then f u else u))
      go none e h = absurd (cc)
      go (some u) e h = (u, e, cc)

  -- Where a row of a table with one more row comes from.
  pub insert-row :
      (k j : ℕ) (w : V) (t : Table V) (v : V)
      → get k (insert j w t) ≡ some v
      → (get k t ≡ some v) ⊎ ((j ≡ k) × (v ≡ w))
  insert-row k j w t v h = go (get k t) (j == k) refl refl (sym (get-insert k j w t) ∙ h)
    where
      go :
          (o : Option V) (b : Bool)
          → get k t ≡ o
          → (j == k) ≡ b
          → or_row o b w ≡ some v
          → (get k t ≡ some v) ⊎ ((j ≡ k) × (v ≡ w))
      go none true e b h = inr (==→eq j k b, cc)
      go none false e b h = absurd (cc)
      go (some u) b e _ h = inl (e ∙ h)
