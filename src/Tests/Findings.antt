-- ===== src/Tests/Findings.antt =====
-- The theorems on the outcomes of findings at a concrete table.
use myndaix_runtime.Prelude.{◌≡◌, refl, ◌⊎◌, some, List, [], ◌∷◌, ◌++◌, ◌==◌}
use myndaix_runtime.Prelude.Texts.{codes, same_text}
use myndaix_runtime.Contracts.{Text}
use myndaix_runtime.Outcomes.{
  kilabz, opened, dismissed_false_positive, review_raised, by_human_dismiss, real, fp, review,
  human, findings_of, insert_row, any_row, same_tuple, same_event, FindingOutcome, Outcomes, latest,
  is_of, finding_current, in_labelqueue,
}
use myndaix_runtime.Outcomes.Labels.{
  labeler, exec_oracle, other_role, all_families, record_exec_prior, propose_outcome,
}
use myndaix_runtime.Outcomes.Review.{
  Review, Found, record_findings, open_rows, close_each, open_each, by_key, origin,
}
use myndaix_runtime.Outcomes.Closes.{AllRows, Raises, Closes, review_adds}
use myndaix_runtime.Outcomes.Calls.{
  Call, reviews, confirms, proposes, expires, run, AllPairs, run-AllPairs, human_label_stays,
}
use myndaix_runtime.Outcomes.Queue.{machine_labels_keep_queue}

abbrev key : Text
key = codes "0123456789abcdef"

abbrev raised : FindingOutcome
raised = record {
  finding_key = key;
  repo_id = 1;
  ref = 1;
  rule_tag = 2;
  reviewer_family = kilabz;
  path = 3;
  line_hash = 50;
  source_event = review 7;
  tip_sha = codes "aaaaaaaaaaaaaaaa";
  outcome = opened;
  outcome_source = review_raised;
  created_at = 100;
}

abbrev dismissed : FindingOutcome
dismissed = record raised {
  source_event = human (codes "0123456789ab") fp;
  outcome = dismissed_false_positive;
  outcome_source = by_human_dismiss;
}

-- A review of path 3, in which line 50 is gone, that raises the finding again.
abbrev next_review : Review
next_review = record {
  repo_id = 1;
  ref = 1;
  tip_sha = codes "bbbbbbbbbbbbbbbb";
  play = 8;
  changed_paths = 3 ∷ [];
  present_hashes = λ p. some (51 ∷ []);
  key_of = λ r t p h. key;
  now = 200;
}

abbrev found : Found
found = record { tag = 2; path = 3; line_hash = 50; reviewer_family = kilabz }

abbrev machine_calls : List Call
machine_calls =
    reviews next_review (found ∷ [])
    ∷ expires 9 0 5000
    ∷ proposes key kilabz (some real) labeler 8 300
    ∷ confirms other_role key all_families (some real) 400
    ∷ []

human_label_stays_example :
    finding_current key kilabz (run (λ c. c == 32) (λ s. s) machine_calls (dismissed ∷ raised ∷ []))
    ≡ some dismissed
unfolding finding_current latest is_of same_text
human_label_stays_example =
    human_label_stays (λ c. c == 32) (λ s. s) machine_calls key kilabz (dismissed ∷ raised ∷ [])
      dismissed (refl, (refl, (refl, (refl, tt)))) refl refl

run-AllPairs_example :
    AllPairs (λ c. c == 32) (λ s. s) (run (λ c. c == 32) (λ s. s) machine_calls [])
run-AllPairs_example = run-AllPairs (λ c. c == 32) (λ s. s) machine_calls

review_adds_example :
    (new : Outcomes) × ((record_findings next_review (found ∷ []) (raised ∷ [])).1
      ≡ new ++ raised ∷ [])
    × AllRows
        (λ r. Raises next_review (raised ∷ []) (found ∷ []) r ⊎ Closes next_review (raised ∷ []) r)
        new
review_adds_example = review_adds next_review (raised ∷ []) (found ∷ [])

machine_labels_keep_queue_example :
    (in_labelqueue key kilabz
        (record_exec_prior key kilabz exec_oracle (codes "bbbbbbbbbbbbbbbb") 9 300 (raised ∷ [])).1
      ≡ in_labelqueue key kilabz (raised ∷ []))
    × (in_labelqueue key kilabz (propose_outcome key kilabz (some fp) labeler 8 300 (raised ∷ [])).1
        ≡ in_labelqueue key kilabz (raised ∷ []))
machine_labels_keep_queue_example =
    machine_labels_keep_queue key kilabz key kilabz exec_oracle labeler (codes "bbbbbbbbbbbbbbbb")
      (some fp) 9 8 300 (raised ∷ [])

-- The review closes the finding whose line is gone and raises it again.
closes_and_raises : (record_findings next_review (found ∷ []) (raised ∷ [])).0.closed ≡ 1
unfolding record_findings open_rows close_each open_each by_key findings_of finding_current latest
    is_of insert_row any_row same_tuple same_event origin same_text
closes_and_raises = refl
