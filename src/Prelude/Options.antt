-- ===== src/Prelude/Options.antt =====
-- Facts on options and number tests that several components share.
use Prim.Native.Nat.{ℕ}
use mathlib.Core.Path.{◌≡◌, ap}
use mathlib.Core.Option.{some, get_or}
use mathlib.Core.Bool.{true}
use native.Mathlib.Omega.{arith}
use myndaix_runtime.Prelude.Tests.{◌==◌}

pub some-injective-path {ℓ} : {A : Type ℓ} {a b : A} → some a ≡ some b → a ≡ b
some-injective-path {a = a} e = ap (λ o. get_or o a) e

pub ==_of : {i k : ℕ} → i ≡ k → (i == k) ≡ true
==_of e = ground arith
