-- ===== src/Automerge/Gate.antt =====
-- What passes the gate of src/runtime/automerge.py.
use myndaix_runtime.Prelude.{
  ℕ, ◌≡◌, refl, sym, subst, Bool, true, false, not, ◌&&◌, List, [], ◌∷◌, ◌++◌, arith, ◌==◌,
  if◌then◌else◌, ==→eq,
}
use myndaix_runtime.Contracts.{Text}
use myndaix_runtime.Automerge.{
  Entry, Verdict, docs_only, empty_changeset, unsupported_status, non_doc_path, unsafe_modes,
  first_refusal, classify_diff, judge_entries, judge_entry, all_docs, doc_path, status_ok, modes_ok,
  code_of, absent, regular, is_denylisted, md_suffix,
}
use myndaix_runtime.Prelude.Texts.{same_text, ends_with}

same_text-eq : (a b : Text) → same_text a b ≡ true → a ≡ b
unfolding same_text
same_text-eq [] [] e = refl
same_text-eq [] (c ∷ b) e = absurd (cc)
same_text-eq (c ∷ a) [] e = absurd (cc)
same_text-eq (c ∷ a) (d ∷ b) e = rw (==→eq c d (ground arith), same_text-eq a b (ground arith)) refl

first_refusal-docs_only :
    (v r : Verdict) → first_refusal v r ≡ docs_only → (v ≡ docs_only) × (r ≡ docs_only)
first_refusal-docs_only docs_only r h = (refl, h)
first_refusal-docs_only empty_changeset r h = absurd (cc)
first_refusal-docs_only unsupported_status r h = absurd (cc)
first_refusal-docs_only non_doc_path r h = absurd (cc)
first_refusal-docs_only unsafe_modes r h = absurd (cc)

both_true : (a b : Bool) → (a && b) ≡ true → (a ≡ true) × (b ≡ true)
both_true a b h = (ground arith, ground arith)

-- Both sides of an entry that passes are nothing or a regular file that is not executable.
pub data Regular : Text → Text → Type 0 where
  added : Regular absent regular
  deleted : Regular regular absent
  changed : Regular regular regular

modes_ok-Regular : (code : ℕ) (o n : Text) → modes_ok code o n ≡ true → Regular o n
modes_ok-Regular code o n e = go (code == 65) (code == 68) (unfold modes_ok in e)
  where
    both : (a b : Text) → Regular a b → (same_text o a && same_text n b) ≡ true → Regular o n
    both a b r h =
        subst (λ x. Regular x n) (sym (same_text-eq o a (ground arith)))
          (subst (λ y. Regular a y) (sym (same_text-eq n b (ground arith))) r)

    go :
        (x y : Bool)
        → (if x
            then same_text o absent && same_text n regular
            else if y
            then same_text o regular && same_text n absent
            else same_text o regular && same_text n regular)
          ≡ true
        → Regular o n
    go true y h = both absent regular added h
    go false true h = both regular absent deleted h
    go false false h = both regular regular changed h

module _ (lower : Text → Text) where
  -- An entry that passes.
  pub record Inert (e : Entry) : Type 0 where
    pub known : status_ok e.status ≡ true
    pub docs : all_docs lower e.paths ≡ true
    pub modes : Regular e.omode e.nmode

  judge_entry-Inert : (e : Entry) → judge_entry lower e ≡ docs_only → Inert e
  judge_entry-Inert e h =
      go (status_ok e.status) (all_docs lower e.paths) (modes_ok (code_of e.status) e.omode e.nmode)
        refl refl refl (unfold judge_entry in h)
    where
      go :
          (a b c : Bool)
          → status_ok e.status ≡ a
          → all_docs lower e.paths ≡ b
          → modes_ok (code_of e.status) e.omode e.nmode ≡ c
          → (if not a
              then unsupported_status
              else if not b
              then non_doc_path
              else if c
              then docs_only
              else unsafe_modes)
            ≡ docs_only
          → Inert e
      go true true true p q r h = record {
        known = p;
        docs = q;
        modes = modes_ok-Regular (code_of e.status) _ _ r;
      }
      go false b c p q r h = absurd (cc)
      go true false c p q r h = absurd (cc)
      go true true false p q r h = absurd (cc)

  judge_entries-each :
      (before after : List Entry) (e : Entry)
      → judge_entries lower (before ++ e ∷ after) ≡ docs_only
      → judge_entry lower e ≡ docs_only
  unfolding judge_entries
  judge_entries-each [] after e h = (first_refusal-docs_only _ _ h).0
  judge_entries-each (b ∷ before) after e h =
      judge_entries-each before after e (first_refusal-docs_only (judge_entry lower b) _ h).1

  classify_diff-judged :
      (es : List Entry) → classify_diff lower es ≡ docs_only → judge_entries lower es ≡ docs_only
  unfolding classify_diff
  classify_diff-judged [] h = absurd (cc)
  classify_diff-judged (e ∷ es) h = h

  all_docs-each :
      (before after : List Text) (p : Text)
      → all_docs lower (before ++ p ∷ after) ≡ true
      → doc_path lower p ≡ true
  unfolding all_docs
  all_docs-each [] after p h = (both_true _ _ h).0
  all_docs-each (b ∷ before) after p h =
      all_docs-each before after p (both_true (doc_path lower b) _ h).1

  doc_path-both :
      (p : Text)
      → doc_path lower p ≡ true
      → (ends_with md_suffix p ≡ true) × (is_denylisted lower p ≡ false)
  unfolding doc_path
  doc_path-both p h = (ground arith, ground arith)

  -- A diff that classify_diff accepts holds nothing but inert documents, whatever str.lower does: each
  -- of its entries adds, deletes or changes a regular file that is not executable, and each path on
  -- either side of it ends in .md and is not on the denylist.
  pub accepted_is_inert :
      (es before after : List Entry) (e : Entry) (left right : List Text) (p : Text)
      → classify_diff lower es ≡ docs_only
      → es ≡ before ++ e ∷ after
      → e.paths ≡ left ++ p ∷ right
      → Regular e.omode e.nmode × (ends_with md_suffix p ≡ true) × (is_denylisted lower p ≡ false)
  accepted_is_inert es before after e left right p h m q =
      let j = classify_diff-judged es h in
      let i = judge_entry-Inert e (judge_entries-each before after e (rw m at j)) in
      let (d, n) = doc_path-both p (all_docs-each left right p (rw q at i.docs)) in (i.modes, d, n)
