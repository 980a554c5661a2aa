-- ===== src/Controller/Config/Decimal.antt =====
-- What the reader of number settings computes.
use myndaix_runtime.Prelude.{
  ℕ, zero, suc, ◌+◌, ◌-◌, ◌*◌, ◌≤◌, ◌<◌, ◌≡◌, refl, ◌∙◌, true, ◌⊎◌, inl, inr, some, [], ◌∷◌, ◌==◌,
  if◌then◌else◌, length, arith, Bool-cases, ==→eq, ap, Option,
}
use myndaix_runtime.Contracts.{Text}
use myndaix_runtime.Pool.{min}
use myndaix_runtime.Controller.Config.{
  digits, is_number, decimal, lstrip_zeros, or_zero, capped, int_env, int_max, pending_stale,
}

-- `b` followed by `k` zeros.
shifted : ℕ → ℕ → ℕ
shifted zero b = b
shifted (suc k) b = shifted k (b * 10)

decimal-le : (k b acc : ℕ) (s : Text) → k ≤ length s → b ≤ acc → shifted k b ≤ decimal acc s
unfolding decimal shifted
decimal-le zero b acc [] l h = h
decimal-le zero b acc (c ∷ s) l h =
    decimal-le zero b (acc * 10 + (c - 48)) s (omega arith) (omega arith)
decimal-le (suc k) b acc [] l h = absurd (omega arith)
decimal-le (suc k) b acc (c ∷ s) l h =
    decimal-le k (b * 10) (acc * 10 + (c - 48)) s (omega arith) (omega arith)

-- Leading zeros do not change the number, and what follows them does not begin with one.
decimal-lstrip_zeros : (s : Text) → decimal 0 (lstrip_zeros s) ≡ decimal 0 s
unfolding decimal lstrip_zeros
decimal-lstrip_zeros [] = refl
decimal-lstrip_zeros (c ∷ s) = elim (Bool-cases (c == 48)) [
  | inl e ↦ rw e (let z : c ≡ 48 = ==→eq c 48 e in rw z (decimal-lstrip_zeros s))
  | inr e ↦ rw e refl
]

lstrip_zeros-first :
    (s : Text)
    → digits s ≡ true
    → (lstrip_zeros s ≡ []) ⊎ ((c : ℕ) × (t : Text) × (lstrip_zeros s ≡ c ∷ t) × (1 ≤ c - 48))
unfolding lstrip_zeros digits
lstrip_zeros-first [] d = inl refl
lstrip_zeros-first (c ∷ s) d = elim (Bool-cases (c == 48)) [
  | inl e ↦ rw e (lstrip_zeros-first s (ground arith))
  | inr e ↦ rw e (inr (c, s, refl, ground arith))
]

is_number-digits : (s : Text) → is_number s ≡ true → digits s ≡ true
unfolding is_number
is_number-digits [] h = absurd (cc)
is_number-digits (c ∷ s) h = h

-- More than ten digits of which the first is not zero exceed every capped value.
decimal-long : (c : ℕ) (t : Text) → 1 ≤ c - 48 → 10 < length (c ∷ t) → int_max ≤ decimal 0 (c ∷ t)
unfolding decimal shifted
decimal-long c t p l =
    omega (arith, decimal-le 10 1 (0 * 10 + (c - 48)) t (omega arith) (omega arith))

capped-is-min :
    (s : Text)
    → (s ≡ []) ⊎ ((c : ℕ) × (t : Text) × (s ≡ c ∷ t) × (1 ≤ c - 48))
    → capped (or_zero s) ≡ min (decimal 0 s) int_max
unfolding capped
capped-is-min s (inl e) = rw e refl
capped-is-min s (inr (c, t, e, p)) = rw e (ground (arith, decimal-long c t p))

-- A setting of digits is read as its value, whatever zeros it begins with, or as the largest signed
-- 32-bit number where it is greater than that; any other setting gives the default.
int_env-is-value :
    (val : Text) (default : ℕ)
    → int_env (some val) default ≡ (if is_number val then min (decimal 0 val) int_max else default)
unfolding int_env
int_env-is-value val default = elim (Bool-cases (is_number val)) [
  | inl e ↦ rw e (
      capped-is-min (lstrip_zeros val) (lstrip_zeros-first val (is_number-digits val e))
      ∙ ap (λ v. min v int_max) (decimal-lstrip_zeros val))
  | inr e ↦ rw e refl
]

-- A dispatch counts as stale only after the longest time for which a worker may hold its lock, which
-- is three canaries of 180 s, three calls of the set length and a margin, and never before the
-- worker's own bound PLAY_STALE or the controller's setting.
stale_outlives_worker :
    (own rct stale : Option Text)
    → (3 * 180 + 3 * int_env rct 1200 + 360 ≤ pending_stale own rct stale)
      × (int_env stale 0 ≤ pending_stale own rct stale)
      × (int_env own 7200 ≤ pending_stale own rct stale)
unfolding pending_stale
stale_outlives_worker own rct stale = (ground arith, ground arith, ground arith)
