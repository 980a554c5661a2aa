-- ===== src/Tests/Merges.antt =====
-- The theorems on the evaluation of pull requests at a concrete one.
use myndaix_runtime.Prelude.{
  ◌+◌, ◌≤◌, ◌≡◌, ◌⊎◌, refl, Bool, List, true, false, none, some, Option, [], ◌∷◌, ◌++◌, ◌==◌,
  length, arith,
}
use myndaix_runtime.Prelude.Texts.{
  codes, starts_with, ends_with, same_text, member, any_member, split, last, init,
}
use myndaix_runtime.Contracts.{Text}
use myndaix_runtime.Ledger.Decisions.{PrHead, merged, skipped, automerge_decision}
use myndaix_runtime.Controller.Config.{is_number, digits, decimal}
use myndaix_runtime.Controller.Target.{rstrip_newlines, diff_bytes}
use myndaix_runtime.Automerge.{
  parse_raw_z, parse_from, parse_info, parse_fields, info_of, decode_paths, drop_final,
  classify_diff, judge_entries, judge_entry, all_docs, doc_path, is_denylisted, status_ok, modes_ok,
}
use myndaix_runtime.Automerge.Utf8.{decode_ascii, decode_utf8, decode_from, next_byte, first_byte}
use myndaix_runtime.Automerge.Screen.{
  Reason, Policy, Host, PullRequest, Range, check_run, unknown_author, rstrip, lstrip,
  stripped_names, parse_authors, merge_queue, judge_runs, ci_green, numstat_lines, screen_diff,
  screen_scope, screen_range, screen,
}
use myndaix_runtime.Automerge.Evaluate.{
  absent, Books, Desk, evaluate_pr, is_capped, on_verdict, review_pass, finish, recheck, look,
  charge, tick, merging,
}
use myndaix_runtime.Automerge.Heads.{times}
use myndaix_runtime.Automerge.Heads.Decided.{decided_head_is_left}
use myndaix_runtime.Automerge.Heads.Reviews.{IsDecided, IsCounted, vain_reviews_are_bounded}
use myndaix_runtime.Automerge.Ticks.{ticks, tick_merges_bounded}
use myndaix_runtime.Automerge.Sizes.{nameless_author_is_refused}

abbrev policy : Policy
policy = record {
  lower = λ s. s;
  prefix = λ h. h;
  is_space = λ c. c == 32;
  authors = codes "redeyefit";
  dry_run = false;
  shadow_code = false;
  test_mode = false;
  merge_override = false;
  fake_verdict = [];
  review_max_diff = 262144;
  review_max_diff_lines = 2000;
  max_per_tick = 1;
  max_per_day = 3;
  max_per_author_day = 1;
  max_review_attempts = 3;
}

-- One modified file a.md.
abbrev raw : Text
raw = codes ":100644 100644 a b M" ++ 0 ∷ codes "a.md" ++ 0 ∷ []

abbrev host : Host
host = record {
  rules = λ i. some [];
  fetched = true;
  head_pin = some 8;
  main_pin = some 6;
  merge_base = λ m h. some 5;
  raw_diff = λ b h. some raw;
  content_diff = λ b h. some (65 ∷ 10 ∷ []);
  numstat = λ b h. some ((codes "3" ∷ codes "4" ∷ codes "a.md" ∷ []) ∷ []);
  checks = λ i. some (check_run (some (codes "completed")) (some (codes "success")) ∷ []);
  gate_dir = true;
  run_id = 77;
  exit_code = some 0;
  verdict_file = some (record { run_id = 77; base = 5; head = 8; verdict = codes "PASS" });
  view =
      some (record {
        head = some 8;
        base = some 6;
        state = codes "OPEN";
        merge_state = codes "CLEAN";
      });
  merges = true;
  writes_day = true;
  writes_author = true;
  writes_attempt = true;
}

abbrev pull : PullRequest
pull = record {
  number = 4;
  head = some 8;
  base = some 6;
  author = codes "redeyefit";
  is_draft = false;
  is_cross = false;
  merge_state = codes "CLEAN";
}

abbrev books : Books
books = record {
  day = absent;
  authors = λ a. absent;
  attempts = λ n h. absent;
  shadow = λ n h. false;
  merges = [];
  transients = [];
  budget = 0;
}

abbrev range : Range
range = record { head = 8; main = 6; base = 5 }

merges_4 : evaluate_pr policy host pull books ≡ merging policy host pull range books
unfolding evaluate_pr screen screen_scope screen_range screen_diff parse_authors stripped_names
    rstrip lstrip split member same_text merge_queue parse_raw_z drop_final parse_from parse_info
    parse_fields info_of decode_paths decode_ascii decode_utf8 decode_from next_byte first_byte
    classify_diff judge_entries judge_entry all_docs doc_path is_denylisted status_ok modes_ok
    ends_with starts_with any_member last init diff_bytes rstrip_newlines numstat_lines is_number
    digits decimal ci_green judge_runs is_capped on_verdict review_pass finish recheck
merges_4 = refl

abbrev describe : Option Reason → Text
describe r = []

abbrev desk : Desk
desk = record { seen = []; books = books }

tick_merges_bounded_example :
    length (tick policy 1 describe true ((host, pull) ∷ []) desk).books.merges ≤ 0 + 1
tick_merges_bounded_example = tick_merges_bounded policy 1 describe true ((host, pull) ∷ []) desk

-- A host whose reviews time out.
abbrev slow : Host
slow = record host { exit_code = none }

-- Three ticks with two slow looks each.
abbrev slow_ticks : List (Bool × List (Host × PullRequest))
slow_ticks =
    (true, (slow, pull) ∷ (slow, pull) ∷ [])
    ∷ (true, (slow, pull) ∷ (slow, pull) ∷ [])
    ∷ (true, (slow, pull) ∷ (slow, pull) ∷ [])
    ∷ []

vain_reviews_are_bounded_example :
    (times 4 8 (ticks policy 1 describe slow_ticks desk).books.transients ≤ 3)
    × (IsDecided policy 1 describe 4 8 (omega arith) (ticks policy 1 describe slow_ticks desk)
        ⊎ IsCounted policy 1 describe 4 8
            (omega arith)
            (ticks policy 1 describe slow_ticks desk).books)
unfolding times
vain_reviews_are_bounded_example =
    vain_reviews_are_bounded policy 1 describe 4 8 (omega arith) slow_ticks desk (omega arith)
      (omega arith)

decided_head_is_left_example :
    let z = look policy 1 describe host pull desk in
    let u = ticks policy 1 describe slow_ticks z in
    let k : PrHead = record { repo_id = 1; pr_number = 4; head_sha = 8 } in
    (automerge_decision k z.seen ≡ some merged)
    × (automerge_decision k u.seen ≡ some merged)
    × (u.books.attempts 4 8 ≡ absent)
    × (times 4 8 u.books.merges ≡ 1)
    × (times 4 8 u.books.transients ≡ 0)
unfolding automerge_decision times charge
decided_head_is_left_example =
    decided_head_is_left policy 1 describe 4 8 host pull merged none
      (merging policy host pull range books).1 desk slow_ticks refl refl refl merges_4

nameless_author_is_refused_example :
    evaluate_pr (record policy { authors = codes "," }) host (record pull { author = [] }) books
    ≡ (some (skipped, some unknown_author), books)
nameless_author_is_refused_example =
    nameless_author_is_refused (record policy { authors = codes "," }) host
      (record pull { author = [] }) books 8 6 refl refl refl refl refl
