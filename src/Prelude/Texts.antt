-- ===== src/Prelude/Texts.antt =====
-- Texts as lists of numbers, with the methods of Python's str and bytes that the code uses.
use Prim.Native.Char.{code}
use Prim.Native.Nat.{ℕ}
use Prim.Native.String.{String}
use mathlib.Core.Bool.{Bool, true, false, ◌&&◌, ◌||◌}
use mathlib.Core.List.{List, [], ◌∷◌}
use myndaix_runtime.Prelude.Tests.{◌==◌, if◌then◌else◌}

-- The code points of a text.
abbrev pub codes : String → List ℕ
codes String.[] = []
codes (String.◌∷◌ c s) = code c ∷ codes s

-- ==, str.startswith and str.endswith
unfoldable pub same_text : List ℕ → List ℕ → Bool
same_text [] [] = true
same_text [] (_ ∷ _) = false
same_text (_ ∷ _) [] = false
same_text (a ∷ x) (b ∷ y) = a == b && same_text x y

unfoldable pub starts_with : List ℕ → List ℕ → Bool
starts_with [] s = true
starts_with (_ ∷ _) [] = false
starts_with (a ∷ x) (b ∷ y) = a == b && starts_with x y

unfoldable pub ends_with : List ℕ → List ℕ → Bool
unfolding same_text
ends_with suffix [] = same_text suffix []
ends_with suffix (c ∷ s) = same_text suffix (c ∷ s) || ends_with suffix s

unfoldable pub member : List ℕ → List (List ℕ) → Bool
unfolding same_text
member s [] = false
member s (t ∷ ts) = same_text s t || member s ts

abbrev push : ℕ → List (List ℕ) → List (List ℕ)
push c [] = (c ∷ []) ∷ []
push c (s ∷ ss) = (c ∷ s) ∷ ss

-- str.split(sep) and bytes.split(sep) for one character.
unfoldable pub split : ℕ → List ℕ → List (List ℕ)
split sep [] = [] ∷ []
split sep (c ∷ s) = let rest = split sep s in if c == sep then [] ∷ rest else push c rest

-- parts[-1] and parts[:-1]; a split is never empty.
unfoldable pub last : List (List ℕ) → List ℕ
last [] = []
last (s ∷ []) = s
last (_ ∷ t ∷ ts) = last (t ∷ ts)

unfoldable pub init : List (List ℕ) → List (List ℕ)
init [] = []
init (s ∷ []) = []
init (s ∷ t ∷ ts) = s ∷ init (t ∷ ts)

unfoldable pub any_member : List (List ℕ) → List (List ℕ) → Bool
unfolding member
any_member [] set = false
any_member (s ∷ ss) set = member s set || any_member ss set
