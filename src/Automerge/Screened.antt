-- ===== src/Automerge/Screened.antt =====
-- What the gates of evaluate_pr of src/runtime/automerge.py up to the checks have seen of a pull
-- request that passes them.
use myndaix_runtime.Prelude.{
  ℕ, ◌≤◌, ◌≡◌, refl, sym, ◌∙◌, ap, subst, ◌⊎◌, inl, inr, Bool, true, false, not, ◌&&◌, ◌||◌, Option,
  none, some, List, holds, arith, Bool-cases,
}
use myndaix_runtime.Prelude.Texts.{member}
use myndaix_runtime.Contracts.{Text}
use myndaix_runtime.Controller.Target.{diff_bytes}
use myndaix_runtime.Automerge.{
  Entry, Parsed, parsed, refused, parse_raw_z, Verdict, docs_only, classify_diff,
}
use myndaix_runtime.Automerge.Screen.{
  Reason, Gate, pass, wait, refuse, ◌>>=◌, ◌>>◌, or_wait, or_refuse, need, PullRequest, Host,
  Policy, Range, screen, screen_diff, screen_scope, screen_range, ci_green, ci_gate, entries_of,
  is_docs_only, parse_authors, merge_queue, is_false, mergeable, numstat_lines, not_docs,
  too_many_bytes, too_many_lines, fork, unknown_author,
}

-- Inversion of a gate that passed.
>>=-pass {ℓ κ} :
    {A : Type ℓ} {B : Type κ} (m : Gate A) (f : A → Gate B) {b : B}
    → (m >>= f) ≡ pass b
    → (a : A) × (m ≡ pass a) × (f a ≡ pass b)
>>=-pass (pass a) f h = (a, refl, h)
>>=-pass wait f h = absurd (cc)
>>=-pass (refuse r) f h = absurd (cc)

>>-or_wait {ℓ} :
    {B : Type ℓ} (t : Bool) (k : Gate B) {b : B}
    → (or_wait t >> k) ≡ pass b
    → (t ≡ true) × (k ≡ pass b)
>>-or_wait true k h = (refl, h)
>>-or_wait false k h = absurd (cc)

>>-or_refuse {ℓ} :
    {B : Type ℓ} (r : Reason) (t : Bool) (k : Gate B) {b : B}
    → (or_refuse r t >> k) ≡ pass b
    → (t ≡ true) × (k ≡ pass b)
>>-or_refuse r true k h = (refl, h)
>>-or_refuse r false k h = absurd (cc)

>>=-need {ℓ κ} :
    {A : Type ℓ} {B : Type κ} (o : Option A) (f : A → Gate B) {b : B}
    → (need o >>= f) ≡ pass b
    → (a : A) × (o ≡ some a) × (f a ≡ pass b)
>>=-need none f h = absurd (cc)
>>=-need (some a) f h = (a, refl, h)

entries_of-pass :
    (x : Parsed (List Entry)) (es : List Entry) → entries_of x ≡ pass es → x ≡ parsed es
entries_of-pass (parsed fs) es h = cc
entries_of-pass (refused x) es h = absurd (cc)

or_refuse-pass : (r : Reason) (t : Bool) → or_refuse r t ≡ pass tt → t ≡ true
or_refuse-pass r true h = refl
or_refuse-pass r false h = absurd (cc)

docs_only-true : (v : Verdict) → is_docs_only v ≡ true → v ≡ docs_only
docs_only-true docs_only h = refl
docs_only-true Verdict.empty_changeset h = absurd (cc)
docs_only-true Verdict.unsupported_status h = absurd (cc)
docs_only-true Verdict.non_doc_path h = absurd (cc)
docs_only-true Verdict.unsafe_modes h = absurd (cc)

pub both-true : (a b : Bool) → (a && b) ≡ true → (a ≡ true) × (b ≡ true)
both-true a b h = (ground arith, ground arith)

module _ (p : Policy) (w : Host) where
  -- The diff of the range is docs only and within both caps.
  abbrev pub DiffPasses : ℕ → ℕ → Type 0
  DiffPasses b h =
      (out : Text) × (es : List Entry) × (size : ℕ) × (rows : List (List Text)) × (w.raw_diff b h
        ≡ some out)
      × (parse_raw_z out ≡ parsed es)
      × ((classify_diff p.lower es ≡ docs_only) ⊎ (p.shadow_code ≡ true))
      × (diff_bytes (w.content_diff b h) ≡ some size)
      × (size ≤ p.review_max_diff)
      × (w.numstat b h ≡ some rows)
      × (numstat_lines 0 rows ≤ p.review_max_diff_lines)

  docs_or_shadow :
      (v : Verdict)
      → (is_docs_only v || p.shadow_code) ≡ true
      → (v ≡ docs_only) ⊎ (p.shadow_code ≡ true)
  docs_or_shadow v h = elim (Bool-cases (is_docs_only v)) [
    | inl d ↦ inl (docs_only-true v d)
    | inr d ↦ inr (rw d at h)
  ]

  screen_diff-passes : (b h : ℕ) → screen_diff p w b h ≡ pass tt → DiffPasses b h
  unfolding screen_diff
  screen_diff-passes b h e =
      let (out, o, e1) = >>=-need (w.raw_diff b h) _ e in
      let (es, g, e2) = >>=-pass (entries_of (parse_raw_z out)) _ e1 in
      let (d, e3) = >>-or_refuse not_docs _ _ e2 in
      let (size, s, e4) = >>=-need (diff_bytes (w.content_diff b h)) _ e3 in
      let (k, e5) = >>-or_refuse too_many_bytes _ _ e4 in
      let (rows, r, e6) = >>=-need (w.numstat b h) _ e5 in
      let l = or_refuse-pass too_many_lines _ e6 in
      (
        out,
        es,
        size,
        rows,
        o,
        entries_of-pass _ es g,
        docs_or_shadow (classify_diff p.lower es) d,
        s,
        ground arith,
        r,
        ground arith,
      )

  abbrev pub ScopePasses : PullRequest → Type 0
  ScopePasses pr =
      (pr.is_draft ≡ false)
      × (pr.is_cross ≡ false)
      × (member pr.author (parse_authors p.is_space p.authors) ≡ true)
      × (mergeable pr.merge_state ≡ true)
      × (is_false (merge_queue (w.rules 0)) ≡ true)

  not-true : (b : Bool) → not b ≡ true → b ≡ false
  not-true b h = ground arith

  or_wait-pass : (t : Bool) → or_wait t ≡ pass tt → t ≡ true
  or_wait-pass true h = refl
  or_wait-pass false h = absurd (cc)

  screen_scope-passes : (pr : PullRequest) → screen_scope p w pr ≡ pass tt → ScopePasses pr
  unfolding screen_scope
  screen_scope-passes pr e =
      let (d, e1) = >>-or_wait (not pr.is_draft) _ e in
      let (x, e2) = >>-or_refuse fork (not pr.is_cross) _ e1 in
      let (a, e3) =
        >>-or_refuse unknown_author (member pr.author (parse_authors p.is_space p.authors)) _ e2 in
      let (m, e4) = >>-or_wait (mergeable pr.merge_state) _ e3 in
      (not-true _ d, not-true _ x, a, m, or_wait-pass _ e4)

  -- git has the very head and the merge base of it with main.
  abbrev pub RangePasses : ℕ → ℕ → Range → Type 0
  RangePasses h m r =
      (main : ℕ) × (holds w.head_pin h ≡ true)
      × (w.main_pin ≡ some main)
      × (w.merge_base main h ≡ some r.base)
      × (r.head ≡ h)
      × (r.main ≡ m)

  pass-injective : (a b : Range) → pass a ≡ pass b → a ≡ b
  pass-injective a b h = cc

  screen_range-passes : (h m : ℕ) (r : Range) → screen_range p w h m ≡ pass r → RangePasses h m r
  unfolding screen_range
  screen_range-passes h m r e =
      let (f, e1) = >>-or_wait w.fetched _ e in
      let (k, e2) = >>-or_wait (holds w.head_pin h) _ e1 in
      let (main, n, e3) = >>=-need w.main_pin _ e2 in
      let (b, c, e4) = >>=-need (w.merge_base main h) _ e3 in
      let same = pass-injective (record { head = h; main = m; base = b }) r e4 in
      (
        main,
        k,
        n,
        c ∙ ap (λ x. some x.base) same,
        sym (ap (λ x. x.head) same),
        sym (ap (λ x. x.main) same),
      )

  range_self : (h m : ℕ) (r : Range) → RangePasses h m r → RangePasses r.head r.main r
  range_self h m r (main, k, n, c, e, f) = (main, rw e k, n, rw e c, refl, refl)

  ci_gate-pass : (o : Option Bool) → ci_gate o ≡ pass tt → o ≡ some true
  ci_gate-pass (some true) h = refl
  ci_gate-pass (some false) h = absurd (cc)
  ci_gate-pass none h = absurd (cc)

  -- What the gates up to the checks have seen of a pull request and the range that they pass.
  abbrev pub ScreenPasses : PullRequest → Range → Type 0
  ScreenPasses pr r =
      (pr.head ≡ some r.head)
      × (pr.base ≡ some r.main)
      × ScopePasses pr
      × RangePasses r.head r.main r
      × DiffPasses r.base r.head
      × (ci_green (w.checks 0) ≡ some true)

  pub screen-passes : (pr : PullRequest) (r : Range) → screen p w pr ≡ pass r → ScreenPasses pr r
  unfolding screen
  screen-passes pr r e =
      let (h, ph, e1) = >>=-need pr.head _ e in
      let (m, pm, e2) = >>=-need pr.base _ e1 in
      let (_, sc, e3) = >>=-pass (screen_scope p w pr) _ e2 in
      let (a, ra, e4) = >>=-pass (screen_range p w h m) _ e3 in
      let (_, di, e5) = >>=-pass (screen_diff p w a.base a.head) _ e4 in
      let (_, ci, e6) = >>=-pass (ci_gate (ci_green (w.checks 0))) _ e5 in
      let g = screen_range-passes h m a ra in
      subst (ScreenPasses pr) (pass-injective a r e6) (
        ph ∙ ap (λ x. some x) (sym g.4),
        pm ∙ ap (λ x. some x) (sym g.5),
        screen_scope-passes pr sc,
        range_self h m a g,
        screen_diff-passes a.base a.head di,
        ci_gate-pass _ ci,
      )
