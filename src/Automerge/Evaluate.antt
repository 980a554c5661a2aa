-- ===== src/Automerge/Evaluate.antt =====
-- evaluate_pr of src/runtime/automerge.py after its gates: the caps, the review, the recheck and the
-- merge; and the loop of its tick. An exception of git or gh ends a tick and is not modelled.
use myndaix_runtime.Prelude.{
  ℕ, ◌+◌, Bool, true, false, not, ◌&&◌, ◌||◌, Option, none, some, List, [], ◌∷◌, leb, is_none, ◌==◌,
  holds, if◌then◌else◌,
}
use myndaix_runtime.Prelude.Texts.{codes, same_text}
use myndaix_runtime.Contracts.{Text}
use myndaix_runtime.Ledger.Decisions.{
  Decision, merged, needs_fix, skipped, PrHead, Seen, automerge_decision, record_automerge,
}
use myndaix_runtime.Automerge.Screen.{
  Reason, review_transient, Gate, pass, wait, refuse, PullRequest, View, VerdictFile, Host, Policy,
  is_dry, Range, screen, merge_queue, ci_green, is_false, is_true, mergeable,
}

-- A counter file.
pub data Counter : Type 0 where
  absent corrupt : Counter
  counts : ℕ → Counter

-- _count: what cannot be read is over every cap.
abbrev pub count : Counter → ℕ
count absent = 0
count corrupt = 1073741824
count (counts n) = n

-- The counter files, the shadow marks, the merges, the paid reviews that ended in a transient verdict and
-- the merges of this tick.
pub record Books : Type 0 where
  pub day : Counter
  pub authors : Text → Counter
  pub attempts : ℕ → ℕ → Counter
  pub shadow : ℕ → ℕ → Bool
  pub merges : List (ℕ × ℕ)
  pub transients : List (ℕ × ℕ)
  pub budget : ℕ

-- A terminal decision, or none to look again at the next tick.
abbrev pub Outcome : Type 0
Outcome = Option (Decision × Option Reason) × Books

abbrev pub charged_author : Text → (Text → Counter) → Text → Counter
charged_author a f b = if same_text b a then counts (count (f a) + 1) else f b

-- _charge: the file of the day is written before that of the author, and what the first write raises
-- ends both.
unfoldable pub charge : Host → Text → Books → Books
unfolding same_text
charge w author s =
    if not w.writes_day
    then s
    else let s' = record s { day = counts (count s.day + 1) } in
      if w.writes_author then record s' { authors = charged_author author s.authors } else s'

abbrev pub set_attempt : ℕ → ℕ → Counter → (ℕ → ℕ → Counter) → ℕ → ℕ → Counter
set_attempt n h v f n' h' = if n' == n && h' == h then v else f n' h'

-- _bump_attempt: a count that cannot be kept is over the ceiling.
unfoldable pub bump_attempt : Host → ℕ → ℕ → Books → ℕ × Books
bump_attempt w n h s =
    let k = count (s.attempts n h) + 1 in
    if w.writes_attempt
    then (k, record s { attempts = set_attempt n h (counts k) s.attempts })
    else (1073741824, s)

module _ (p : Policy) (w : Host) where
  abbrev pub is_fresh : Range → VerdictFile → Bool
  is_fresh r v = v.run_id == w.run_id && (v.base == r.base && v.head == r.head)

  abbrev pub judged : Range → ℕ → Option VerdictFile → Text
  judged r rc none = codes "transient"
  judged r rc (some v) =
      if rc == 0 && (is_fresh r v && same_text v.verdict (codes "PASS"))
      then codes "pass"
      else if rc == 1 && (is_fresh r v && same_text v.verdict (codes "NEEDS-FIX"))
      then codes "needs_fix"
      else codes "transient"

  abbrev pub worker_verdict : Range → Option ℕ → Text
  worker_verdict r none = codes "transient"
  worker_verdict r (some rc) = judged r rc w.verdict_file

  unfoldable pub review_pass : Range → Text
  unfolding same_text
  review_pass r =
      if p.test_mode
      then p.fake_verdict
      else if not w.gate_dir
      then codes "transient"
      else worker_verdict r w.exit_code

  abbrev pub view_ok : Range → Option View → Bool
  view_ok r none = false
  view_ok r (some v) =
      same_text v.state (codes "OPEN")
      && (holds v.head r.head && (holds v.base r.main && mergeable v.merge_state))

  unfoldable pub recheck : Range → Bool
  unfolding same_text merge_queue ci_green
  recheck r =
      view_ok r w.view && (is_false (merge_queue (w.rules 1)) && is_true (ci_green (w.checks 1)))

  module _ (pr : PullRequest) where
    abbrev pub merging : Range → Books → Outcome
    merging r s = (
      some (merged, none),
      charge w pr.author
          (record s { budget = s.budget + 1; merges = (pr.number, r.head) ∷ s.merges }),
    )

    -- A dry run merges nothing; a shadow run marks the head.
    abbrev pub dried : Range → Books → Books
    dried r s =
        if p.shadow_code
        then record s {
          shadow = λ n h. if n == pr.number && h == p.prefix r.head then true else s.shadow n h;
        }
        else s

    unfoldable pub finish : Range → Books → Outcome
    unfolding recheck charge
    finish r s =
        if is_dry p
        then (none, dried r s)
        else if p.test_mode && p.merge_override
        then merging r s
        else if not (recheck r)
        then (none, s)
        else if w.merges
        then merging r s
        else (none, s)

    abbrev pub tried : ℕ × Books → Outcome
    tried (k, s) =
        (if leb p.max_review_attempts k then some (skipped, some (review_transient k)) else none, s)

    abbrev pub reviewed_in_vain : Range → Books → Books
    reviewed_in_vain r s = record s { transients = (pr.number, r.head) ∷ s.transients }

    -- Gate 5 and after, by the verdict.
    unfoldable pub on_verdict : Text → Range → Books → Outcome
    unfolding finish bump_attempt same_text
    on_verdict v r s =
        if same_text v (codes "transient")
        then tried (bump_attempt w pr.number r.head (reviewed_in_vain r s))
        else if same_text v (codes "needs_fix")
        then (some (needs_fix, none), s)
        else finish r s

    -- Gate 4: what only waits.
    unfoldable pub is_capped : Range → Books → Bool
    is_capped r s =
        leb p.max_per_tick s.budget
        || ((not (is_dry p) && leb p.max_per_day (count s.day))
            || ((not (is_dry p) && leb p.max_per_author_day (count (s.authors pr.author)))
                || (p.shadow_code && s.shadow pr.number (p.prefix r.head))))

    abbrev pub screened : Gate Range → Books → Outcome
    screened wait s = (none, s)
    screened (refuse r) s = (some (skipped, some r), s)
    screened (pass r) s = if is_capped r s then (none, s) else on_verdict (review_pass r) r s

    unfoldable pub evaluate_pr : Books → Outcome
    unfolding screen is_capped on_verdict review_pass
    evaluate_pr s = screened (screen p w pr) s

-- What a tick holds: the table of decisions and the books.
pub record Desk : Type 0 where
  pub seen : List Seen
  pub books : Books

module _ (p : Policy) (rid : ℕ) (describe : Option Reason → Text) where
  abbrev pub recorded : PrHead → Outcome → List Seen → Desk
  recorded k (none, s) seen = record { seen = seen; books = s }
  recorded k (some (d, why), s) seen = record {
    seen = record_automerge k d (some (describe why)) seen;
    books = s;
  }

  abbrev pub unless_decided : Host → PullRequest → PrHead → Option Decision → Desk → Desk
  unless_decided w pr k (some d) t = t
  unless_decided w pr k none t = recorded k (evaluate_pr p w pr t.books) t.seen

  abbrev pub on_sha : Host → PullRequest → Option ℕ → Desk → Desk
  on_sha w pr none t = t
  on_sha w pr (some h) t =
      let k : PrHead = record { repo_id = rid; pr_number = pr.number; head_sha = h } in
      unless_decided w pr k (automerge_decision k t.seen) t

  -- The body of tick's loop.
  unfoldable pub look : Host → PullRequest → Desk → Desk
  unfolding evaluate_pr automerge_decision record_automerge
  look w pr t = on_sha w pr pr.head t

  -- Whether the body of the loop reaches its end: it goes on to the next pull request before that where
  -- the head is malformed or decided.
  abbrev pub is_looked_at : PullRequest → Option ℕ → Desk → Bool
  is_looked_at pr none t = false
  is_looked_at pr (some h) t =
      is_none
        (automerge_decision (record { repo_id = rid; pr_number = pr.number; head_sha = h }) t.seen)

  -- The loop stops at the end of a body once the budget of the tick is spent.
  unfoldable pub run_prs : List (Host × PullRequest) → Desk → Desk
  unfolding look automerge_decision
  run_prs [] t = t
  run_prs ((w, pr) ∷ rest) t =
      let t' = look w pr t in
      let more = run_prs rest t' in
      if is_looked_at pr pr.head t && leb p.max_per_tick t'.books.budget then t' else more

  -- `armed` is whether the repository resolves, the flag stands, the rate is above the floor, the lock is
  -- taken and the list of pull requests could be read.
  unfoldable pub tick : Bool → List (Host × PullRequest) → Desk → Desk
  unfolding run_prs
  tick armed prs t =
      if armed then run_prs prs (record t { books = record t.books { budget = 0 } }) else t
