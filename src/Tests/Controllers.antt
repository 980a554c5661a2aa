-- ===== src/Tests/Controllers.antt =====
-- The theorems on the controller at a concrete repository.
use myndaix_runtime.Prelude.{
  ◌+◌, ◌≤◌, ◌≡◌, refl, ◌⊎◌, true, false, none, some, List, [], ◌∷◌, arith,
}
use myndaix_runtime.Prelude.Texts.{codes}
use myndaix_runtime.Prelude.Table.{get}
use myndaix_runtime.Cursor.Review.{ReviewCursor, delivered}
use myndaix_runtime.Controller.Config.{is_number, digits, decimal}
use myndaix_runtime.Controller.Target.{
  Sizing, Limits, Target, dispatch, advance, diff_lines, diff_bytes, total_lines, row_lines,
  rstrip_newlines, choose_review_target, chunk, walk, take, try_commit, dl, db,
}
use myndaix_runtime.Controller.Target.Causes.{advance_has_cause, IsOver, IsEmptyDiff, CanFail}
use myndaix_runtime.Controller.Target.Reference.{reference_target, choose-is-reference}
use myndaix_runtime.Controller.Site.{Settings, Outside, Site, zero_exit, nonzero_exit}
use myndaix_runtime.Controller.Repo.{process_repo}
use myndaix_runtime.Controller.Steps.{Steps}
use myndaix_runtime.Controller.Steps.Refine.{process_repo_moves}
use myndaix_runtime.Controller.Steps.Laws.{AllFit, started_review_fits}
use myndaix_runtime.Controller.Tick.{tick, sites_of}
use myndaix_runtime.Controller.Tick.Bounds.{tick_bounded, misses, all_triggered}

abbrev limits : Limits
limits = record { max_lines = 1500; max_bytes = 262144; walk_cap = 200 }

-- Every range has 7 changed lines and a patch of one byte.
abbrev small : Sizing
small = record {
  numstat = λ i c. some ((codes "3" ∷ codes "4" ∷ codes "f" ∷ []) ∷ []);
  patch = λ i c. some (65 ∷ 10 ∷ []);
  rev_list = none;
}

abbrev settings : Settings
settings = record {
  dry_run = false;
  test_mode = false;
  override = false;
  max_dispatch_per_tick = 3;
  max_dispatch_per_day = 20;
  max_attempts = 3;
  transient_alert_streak = 3;
  defer_alert_streak = 3;
  pending_stale = 7200;
  limits = limits;
}

-- Head 8 is fetched, and everything works.
abbrev outside : Outside
outside = record {
  remote = some (codes "https://x");
  fetched = true;
  head = some 8;
  has_commit = λ s. true;
  no_diff = λ b s. nonzero_exit;
  sizing = λ b. small;
  pin = λ r s. zero_exit;
  done_since = λ s. false;
  transient_since = λ k s. false;
  unlinks = λ k s. true;
  state_reads = λ u. true;
  state_writes = λ u. true;
  alert_writes = λ k a. true;
  script = some (record {
    is_link = false;
    is_regular = true;
    is_ours = true;
    others_write = false;
    executable = true;
  });
  front = some 0;
  now = λ s. 9000;
  clock = 9000;
}

abbrev reviewed_7 : ReviewCursor
reviewed_7 = record {
  baseline_sha = 7;
  reviewed_sha = 7;
  pending_sha = none;
  state = delivered;
  attempts = 0;
  updated_at = 100;
}

abbrev site : Site
site = record {
  row = some reviewed_7;
  done = [];
  transient = [];
  streak = 0;
  defer_streak = 0;
  alerts = [];
  reviewed_ref = some 7;
  pending_ref = none;
  triggered = [];
  day = 2;
  budget = 0;
}

abbrev whole_range : Target
whole_range = record { mode = dispatch; sha = 8; lines = some 7; bytes = some 1 }

chosen : choose_review_target small limits 8 ≡ whole_range
unfolding choose_review_target dl db get diff_lines diff_bytes total_lines row_lines is_number
    digits decimal rstrip_newlines
chosen = refl

process_repo_moves_example : Steps settings outside site (process_repo settings outside site)
process_repo_moves_example = process_repo_moves settings outside site

started_review_fits_example : AllFit settings outside (process_repo settings outside site).triggered
started_review_fits_example = started_review_fits settings outside site tt

abbrev watched : List (Outside × Site)
watched = (outside, site) ∷ (outside, site) ∷ []

tick_bounded_example :
    ((tick settings true true watched 2).1.budget ≤ 3)
    × (((tick settings true true watched 2).1.day ≤ 2)
        ⊎ (((tick settings true true watched 2).1.day ≤ 20) ⊎ (misses watched ≡ true)))
    × (all_triggered (tick settings true true watched 2).0
        ≡ all_triggered (sites_of settings watched) + (tick settings true true watched 2).1.budget)
    × ((true ≡ true)
        ⊎ (all_triggered (tick settings true true watched 2).0
            ≡ all_triggered (sites_of settings watched)))
tick_bounded_example = tick_bounded settings true true watched 2

-- One commit of 2000 lines and then the head.
abbrev huge : Sizing
huge = record small {
  numstat = λ i c. some ((codes "2000" ∷ codes "-" ∷ codes "f" ∷ []) ∷ []);
  rev_list = some (5 ∷ 8 ∷ []);
}

huge_is_given_up : (choose_review_target huge limits 8).mode ≡ advance
unfolding choose_review_target chunk walk take try_commit dl db get diff_lines diff_bytes
    total_lines row_lines is_number digits decimal rstrip_newlines
huge_is_given_up = refl

advance_has_cause_example :
    IsOver limits (choose_review_target huge limits 8)
    ⊎ (IsEmptyDiff (choose_review_target huge limits 8)
        ⊎ CanFail huge (choose_review_target huge limits 8).sha)
advance_has_cause_example = advance_has_cause huge limits 8 (omega arith) huge_is_given_up

choose-is-reference_example :
    choose_review_target huge limits 8
    ≡ reference_target limits 8 (λ c. some 2000) (λ c. some 1) huge.rev_list
unfolding diff_lines diff_bytes total_lines row_lines is_number digits decimal rstrip_newlines
choose-is-reference_example =
    choose-is-reference limits 8 (λ c. some 2000) (λ c. some 1) huge (λ i c. refl) (λ i c. refl)
