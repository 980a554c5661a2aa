-- ===== src/Tests/Gates.antt =====
-- The theorems on the gate, the worker and the demo ledger at concrete inputs.
use myndaix_runtime.Prelude.{◌≡◌, refl, true, false, none, some, [], ◌∷◌, ◌++◌}
use myndaix_runtime.Prelude.Table.{get, insert, update_where, select}
use myndaix_runtime.Contracts.{Text, Registry, workspace_actor, Result, ok_result}
use myndaix_runtime.Ledger.State.{ok}
use myndaix_runtime.Automerge.{
  Entry, classify_diff, judge_entries, judge_entry, all_docs, doc_path, is_denylisted, status_ok,
  modes_ok, md_suffix, regular, Info, parsed, parse_from, info_line, parse_info, parse_fields,
  info_of, decode_paths, entry_of,
}
use myndaix_runtime.Prelude.Texts.{
  ends_with, starts_with, same_text, member, any_member, split, last, init,
}
use myndaix_runtime.Automerge.Utf8.{decode_ascii, decode_utf8, decode_from, next_byte, first_byte}
use myndaix_runtime.Automerge.Gate.{accepted_is_inert, Regular}
use myndaix_runtime.Automerge.Parser.{Spells, with_one, nothing_more, parse_complete, parse_sound}
use myndaix_runtime.Demo.{
  DemoLedger, DemoRequest, submit_job, lease_job, lease_row, get_attempt_job, attempt_job,
  leased_job, complete_attempt, complete_open, open_job, finish_job, reply_with,
}
use myndaix_runtime.Worker.{
  Round, process_attempt, process_job, in_worktree, bracketed, run_agent, invoke, beaten,
  after_invoke, report_result, reported, needs_worktree, with_diff,
}
use myndaix_runtime.Worker.Sqlite.{sqlite_worker}
use myndaix_runtime.Worker.Attempt.{reported_is_closed}

-- "a.md"
abbrev name : Text
name = 97 ∷ md_suffix

-- ":100644 100644 a b M"
abbrev info : Text
info = 58 ∷ regular ++ 32 ∷ regular ++ 32 ∷ 97 ∷ 32 ∷ 98 ∷ 32 ∷ 77 ∷ []

abbrev entry : Entry
entry = record { omode = regular; nmode = regular; status = 77 ∷ []; paths = name ∷ [] }

accepted_is_inert_example :
    Regular regular regular
    × (ends_with md_suffix name ≡ true)
    × (is_denylisted (λ s. s) name ≡ false)
unfolding classify_diff judge_entries judge_entry all_docs doc_path is_denylisted status_ok modes_ok
    ends_with starts_with same_text member any_member split last init
accepted_is_inert_example =
    accepted_is_inert (λ s. s) (entry ∷ []) [] [] entry [] [] name refl refl refl

abbrev m_info : Info
m_info = record { omode = regular; nmode = regular; status = 77 ∷ [] }

spelt : Spells (info ∷ name ∷ []) (entry_of m_info (name ∷ []) ∷ [])
unfolding parse_info parse_fields info_of split decode_ascii decode_paths decode_utf8 decode_from
    next_byte first_byte
spelt = with_one m_info info name (name ∷ []) refl refl refl nothing_more

parse_complete_example :
    parse_from info_line (info ∷ name ∷ []) ≡ parsed (entry_of m_info (name ∷ []) ∷ [])
parse_complete_example = parse_complete spelt

parse_sound_example : Spells (info ∷ name ∷ []) (entry_of m_info (name ∷ []) ∷ [])
parse_sound_example =
    parse_sound (info ∷ name ∷ []) (entry_of m_info (name ∷ []) ∷ []) parse_complete_example

abbrev fresh : DemoLedger
fresh = record { next_id = 0; job = []; attempt = []; outbound = [] }

abbrev demo_request : DemoRequest
demo_request = record {
  to_agent = 1;
  prompt = 112 ∷ [];
  reply_target = 100 ∷ [];
  context = [];
  parent_id = none;
  repo_id = some 7;
  base_ref = none;
}

abbrev with_job : DemoLedger
with_job = (submit_job demo_request fresh).1

abbrev with_lease : DemoLedger
with_lease = (lease_job 5 with_job).1

abbrev good : Result
good = record { status = ok_result; text = 121 ∷ []; error_class = none; artifact_ref = none }

abbrev reported_once : DemoLedger
reported_once = elim (complete_attempt 1 good with_lease) [ ok m ↦ m | _ ↦ with_lease ]

abbrev actors : Registry
actors _ = some (record { authority = workspace_actor; non_idempotent = false })

abbrev round : Round
round = record { beats = 2; result = good; git_works = true; diff = some (100 ∷ []) }

reported_is_closed_example :
    sqlite_worker.get_attempt_job 1
      (process_attempt sqlite_worker actors (λ _ s. s) round 1 with_lease).ledger
    ≡ none
unfolding submit_job lease_job lease_row select get insert update_where complete_attempt
    complete_open open_job finish_job reply_with process_attempt process_job in_worktree bracketed
    run_agent invoke beaten after_invoke report_result reported needs_worktree with_diff
    get_attempt_job attempt_job leased_job
reported_is_closed_example =
    reported_is_closed sqlite_worker actors (λ _ s. s) round 1 with_lease ok_result refl
