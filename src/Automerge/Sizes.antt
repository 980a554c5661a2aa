-- ===== src/Automerge/Sizes.antt =====
-- The size of a diff as src/runtime/automerge.py and src/runtime/controller.py count it, and the authors
-- that the former admits.
use myndaix_runtime.Prelude.{ℕ, ◌+◌, ◌≡◌, refl, ◌∙◌, Bool, false, some, List, [], ◌∷◌, arith}
use myndaix_runtime.Prelude.Texts.{member, split}
use myndaix_runtime.Contracts.{Text}
use myndaix_runtime.Ledger.Decisions.{skipped}
use myndaix_runtime.Controller.Target.{total_lines, row_lines}
use myndaix_runtime.Automerge.Screen.{
  unknown_author, PullRequest, Host, Policy, screen, screen_scope, parse_authors, stripped_names,
  with_author, rstrip, lstrip, numstat_lines,
}
use myndaix_runtime.Automerge.Evaluate.{Books, evaluate_pr}

numstat_lines-from : (n : ℕ) (rows : List (List Text)) → numstat_lines n rows ≡ n + total_lines rows
unfolding numstat_lines total_lines
numstat_lines-from n [] = omega arith
numstat_lines-from n ([] ∷ rows) = omega (arith, numstat_lines-from (n + 0) rows)
numstat_lines-from n ((a ∷ []) ∷ rows) = omega (arith, numstat_lines-from (n + 0) rows)
numstat_lines-from n ((a ∷ b ∷ []) ∷ rows) = omega (arith, numstat_lines-from (n + 0) rows)
numstat_lines-from n ((a ∷ b ∷ c ∷ r) ∷ rows) =
    omega (arith, numstat_lines-from (n + row_lines (a ∷ b ∷ c ∷ r)) rows)

-- The gate and the controller count the changed lines of a diff alike.
numstat_lines-is-total : (rows : List (List Text)) → numstat_lines 0 rows ≡ total_lines rows
numstat_lines-is-total rows = numstat_lines-from 0 rows ∙ omega arith

member-with_author :
    (sp : ℕ → Bool) (a : Text) (names : List Text)
    → member [] names ≡ false
    → member [] (with_author sp a names) ≡ false
unfolding member
member-with_author sp [] names h = h
member-with_author sp (c ∷ s) names h = h

member-stripped : (sp : ℕ → Bool) (names : List Text) → member [] (stripped_names sp names) ≡ false
unfolding stripped_names member
member-stripped sp [] = refl
member-stripped sp (a ∷ names) =
    member-with_author sp (rstrip sp (lstrip sp a)) (stripped_names sp names)
      (member-stripped sp names)

-- Whatever the setting of the allowed authors is, a pull request with no author's name is left to a
-- human.
pub nameless_author_is_refused :
    (p : Policy) (w : Host) (pr : PullRequest) (s : Books) (h m : ℕ)
    → pr.head ≡ some h
    → pr.base ≡ some m
    → pr.is_draft ≡ false
    → pr.is_cross ≡ false
    → pr.author ≡ []
    → evaluate_pr p w pr s ≡ (some (skipped, some unknown_author), s)
unfolding evaluate_pr screen screen_scope parse_authors
nameless_author_is_refused p w pr s h m ph pm d x a =
    rw (ph, pm, d, x, a, member-stripped p.is_space (split 44 p.authors)) refl
