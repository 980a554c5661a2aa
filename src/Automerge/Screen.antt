-- ===== src/Automerge/Screen.antt =====
-- The gates of evaluate_pr in src/runtime/automerge.py that only read: the scope of a pull request,
-- git's view of it, the diff and the checks of its head. What git and GitHub answer is a parameter; a
-- commit is a number, and a sha that is not well formed is none.
use myndaix_runtime.Prelude.{
  ℕ, ◌+◌, Bool, true, false, not, ◌||◌, Option, none, some, List, [], ◌∷◌, leb, if◌then◌else◌,
  holds,
}
use myndaix_runtime.Prelude.Texts.{codes, same_text, member, split}
use myndaix_runtime.Contracts.{Text}
use myndaix_runtime.Controller.Config.{is_number, decimal}
use myndaix_runtime.Controller.Target.{rstrip_newlines, diff_bytes}
use myndaix_runtime.Automerge.{
  Entry, Parsed, parsed, refused, parse_raw_z, Verdict, docs_only, classify_diff,
}

-- Why a pull request is left to a human, for as long as its head stays.
pub data Reason : Type 0 where
  fork unknown_author unparseable not_docs too_many_bytes too_many_lines ci_failed : Reason
  review_transient : ℕ → Reason

-- A gate passes with a value, waits for the next tick, or refuses the head.
pub data Gate {ℓ} (A : Type ℓ) : Type ℓ where
  pass : A → Gate A
  wait : Gate A
  refuse : Reason → Gate A

infixl 5 ◌>>=◌ ◌>>◌
abbrev pub ◌>>=◌ {ℓ κ} : {A : Type ℓ} {B : Type κ} → Gate A → (A → Gate B) → Gate B
pass a >>= f = f a
wait >>= f = wait
refuse r >>= f = refuse r

abbrev pub ◌>>◌ {ℓ} : {B : Type ℓ} → Gate (Unit {0}) → Gate B → Gate B
m >> k = m >>= λ _. k

abbrev pub or_wait : Bool → Gate (Unit {0})
or_wait true = pass tt
or_wait false = wait

abbrev pub or_refuse : Reason → Bool → Gate (Unit {0})
or_refuse r true = pass tt
or_refuse r false = refuse r

abbrev pub need {ℓ} : {A : Type ℓ} → Option A → Gate A
need none = wait
need (some a) = pass a

-- One row of `gh pr list`.
pub record PullRequest : Type 0 where
  pub number : ℕ
  pub head : Option ℕ
  pub base : Option ℕ
  pub author : Text
  pub is_draft : Bool
  pub is_cross : Bool
  pub merge_state : Text

-- A check run named `test`, as gh prints it.
pub data CheckRun : Type 0 where
  garbled : CheckRun
  check_run : Option Text → Option Text → CheckRun

-- What `gh pr view` shows before the merge.
pub record View : Type 0 where
  pub head : Option ℕ
  pub base : Option ℕ
  pub state : Text
  pub merge_state : Text

pub record VerdictFile : Type 0 where
  pub run_id : ℕ
  pub base : ℕ
  pub head : ℕ
  pub verdict : Text

-- git, gh and the worker, in one evaluation. `rules` and `checks` are asked twice, the second time just
-- before the merge; `rules` holds the types of the rules of the branch. `gate_dir` is whether the
-- directory of the verdict could be made, `exit_code` none where the worker timed out.
pub record Host : Type 0 where
  pub rules : ℕ → Option (List (Option Text))
  pub fetched : Bool
  pub head_pin : Option ℕ
  pub main_pin : Option ℕ
  pub merge_base : ℕ → ℕ → Option ℕ
  pub raw_diff : ℕ → ℕ → Option Text
  pub content_diff : ℕ → ℕ → Option Text
  pub numstat : ℕ → ℕ → Option (List (List Text))
  pub checks : ℕ → Option (List CheckRun)
  pub gate_dir : Bool
  pub run_id : ℕ
  pub exit_code : Option ℕ
  pub verdict_file : Option VerdictFile
  pub view : Option View
  pub merges : Bool
  pub writes_day : Bool
  pub writes_author : Bool
  pub writes_attempt : Bool

-- The module-level settings, with str.lower, the first 16 digits of a sha and str.isspace; DRY_RUN is
-- forced by SHADOW_CODE.
pub record Policy : Type 0 where
  pub lower : Text → Text
  pub prefix : ℕ → ℕ
  pub is_space : ℕ → Bool
  pub authors : Text
  pub dry_run : Bool
  pub shadow_code : Bool
  pub test_mode : Bool
  pub merge_override : Bool
  pub fake_verdict : Text
  pub review_max_diff : ℕ
  pub review_max_diff_lines : ℕ
  pub max_per_tick : ℕ
  pub max_per_day : ℕ
  pub max_per_author_day : ℕ
  pub max_review_attempts : ℕ

abbrev pub is_dry : Policy → Bool
is_dry p = p.dry_run || p.shadow_code

module _ (is_space : ℕ → Bool) where
  abbrev drop_space : ℕ → Text → Text
  drop_space c [] = if is_space c then [] else c ∷ []
  drop_space c (d ∷ s) = c ∷ d ∷ s

  unfoldable pub rstrip : Text → Text
  rstrip [] = []
  rstrip (c ∷ s) = drop_space c (rstrip s)

  unfoldable pub lstrip : Text → Text
  lstrip [] = []
  lstrip (c ∷ s) = let rest = lstrip s in if is_space c then rest else c ∷ s

  abbrev pub with_author : Text → List Text → List Text
  with_author [] names = names
  with_author (c ∷ s) names = (c ∷ s) ∷ names

  unfoldable pub stripped_names : List Text → List Text
  unfolding rstrip lstrip
  stripped_names [] = []
  stripped_names (a ∷ names) = with_author (rstrip (lstrip a)) (stripped_names names)

  -- _parse_authors
  unfoldable pub parse_authors : Text → List Text
  unfolding stripped_names split
  parse_authors raw = stripped_names (split 44 raw)

abbrev pub reads : Option Text → Text → Bool
reads none t = false
reads (some s) t = same_text s t

-- _merge_queue
abbrev any_queue : List (Option Text) → Bool
any_queue [] = false
any_queue (r ∷ rs) = reads r (codes "merge_queue") || any_queue rs

unfoldable pub merge_queue : Option (List (Option Text)) → Option Bool
unfolding same_text
merge_queue none = none
merge_queue (some rules) = some (any_queue rules)

abbrev pub is_false : Option Bool → Bool
is_false (some false) = true
is_false (some true) = false
is_false none = false

abbrev pub is_true : Option Bool → Bool
is_true (some true) = true
is_true (some false) = false
is_true none = false

-- _ci_green, run by run.
abbrev judge_run : Option Text → Option Text → Option Bool → Option Bool
judge_run status conclusion rest =
    if not (reads status (codes "completed"))
    then none
    else if not (reads conclusion (codes "success"))
    then some false
    else rest

unfoldable pub judge_runs : List CheckRun → Option Bool
unfolding same_text
judge_runs [] = some true
judge_runs (garbled ∷ rs) = none
judge_runs (check_run status conclusion ∷ rs) = judge_run status conclusion (judge_runs rs)

unfoldable pub ci_green : Option (List CheckRun) → Option Bool
unfolding judge_runs
ci_green none = none
ci_green (some []) = none
ci_green (some (r ∷ rs)) = judge_runs (r ∷ rs)

abbrev digit_value : Text → ℕ
digit_value p = if is_number p then decimal 0 p else 0

abbrev row_sum : List Text → ℕ
row_sum [] = 0
row_sum (_ ∷ []) = 0
row_sum (_ ∷ _ ∷ []) = 0
row_sum (a ∷ d ∷ _ ∷ _) = digit_value a + digit_value d

-- nlines += sum(…), row by row
unfoldable pub numstat_lines : ℕ → List (List Text) → ℕ
unfolding is_number decimal
numstat_lines n [] = n
numstat_lines n (row ∷ rows) = numstat_lines (n + row_sum row) rows

abbrev pub mergeable : Text → Bool
mergeable t = same_text t (codes "CLEAN") || same_text t (codes "BEHIND")

abbrev pub entries_of : Parsed (List Entry) → Gate (List Entry)
entries_of (parsed es) = pass es
entries_of (refused x) = refuse unparseable

abbrev pub is_docs_only : Verdict → Bool
is_docs_only docs_only = true
is_docs_only _ = false

abbrev pub ci_gate : Option Bool → Gate (Unit {0})
ci_gate (some true) = pass tt
ci_gate (some false) = refuse ci_failed
ci_gate none = wait

-- The range that is judged: the head, the base of the pull request and their merge base.
pub record Range : Type 0 where
  pub head : ℕ
  pub main : ℕ
  pub base : ℕ

module _ (p : Policy) (w : Host) where
  -- Gate 2 and the two caps, on the range B..H.
  unfoldable pub screen_diff : ℕ → ℕ → Gate (Unit {0})
  unfolding parse_raw_z classify_diff rstrip_newlines numstat_lines diff_bytes
  screen_diff b h = do
    out ← need (w.raw_diff b h)
    es ← entries_of (parse_raw_z out)
    or_refuse not_docs (is_docs_only (classify_diff p.lower es) || p.shadow_code)
    cbytes ← need (diff_bytes (w.content_diff b h))
    or_refuse too_many_bytes (leb cbytes p.review_max_diff)
    rows ← need (w.numstat b h)
    or_refuse too_many_lines (leb (numstat_lines 0 rows) p.review_max_diff_lines)

  -- The terminal skips, and the states that may change without a new head.
  unfoldable pub screen_scope : PullRequest → Gate (Unit {0})
  unfolding parse_authors member same_text merge_queue
  screen_scope pr = do
    or_wait (not pr.is_draft)
    or_refuse fork (not pr.is_cross)
    or_refuse unknown_author (member pr.author (parse_authors p.is_space p.authors))
    or_wait (mergeable pr.merge_state)
    or_wait (is_false (merge_queue (w.rules 0)))

  -- The head and main in refs of our own, and the range between them.
  unfoldable pub screen_range : ℕ → ℕ → Gate Range
  screen_range h m = do
    or_wait w.fetched
    or_wait (holds w.head_pin h)
    main ← need w.main_pin
    b ← need (w.merge_base main h)
    pass (record { head = h; main = m; base = b })

  -- evaluate_pr up to gate 3.
  unfoldable pub screen : PullRequest → Gate Range
  unfolding screen_diff screen_scope screen_range ci_green
  screen pr = do
    h ← need pr.head
    m ← need pr.base
    screen_scope pr
    r ← screen_range h m
    screen_diff r.base r.head
    ci_gate (ci_green (w.checks 0))
    pass r
