-- ===== src/Automerge.antt =====
-- The gate of src/runtime/automerge.py that decides whether a pull request is docs only: the parser
-- of `git diff --raw -z`, and the test of its entries. Bytes and texts are lists of numbers;
-- `lower` is Python's str.lower, whose table of code points stays a parameter.
pub mod Utf8
pub mod Gate
pub mod Parser
pub mod Screen
pub mod Evaluate
pub mod Screened
pub mod Merges
pub mod Effects
pub mod Ticks
pub mod Heads
pub mod Sizes
use myndaix_runtime.Prelude.{
  ℕ, zero, suc, ◌+◌, ◌-◌, Bool, true, false, not, ◌&&◌, ◌||◌, Option, none, some, List, [], ◌∷◌,
  ◌++◌, leb, ltb, ◌==◌, if◌then◌else◌, length,
}
use myndaix_runtime.Prelude.Texts.{
  codes, same_text, starts_with, ends_with, member, split, last, init, any_member,
}
use myndaix_runtime.Contracts.{Text}
use Utf8.{decode_utf8, decode_ascii}

-- The words of the source.
abbrev pub deny_dirs : List Text
deny_dirs =
    codes ".github"
    ∷ codes ".claude"
    ∷ codes ".codex"
    ∷ codes ".cursor"
    ∷ codes ".agents"
    ∷ codes "rules"
    ∷ codes "skills"
    ∷ codes "prompts"
    ∷ codes "substrate"
    ∷ []

abbrev pub deny_basenames : List Text
deny_basenames =
    codes "CLAUDE.md"
    ∷ codes "AGENTS.md"
    ∷ codes "GEMINI.md"
    ∷ codes "CODEOWNERS"
    ∷ codes "DESIGN.md"
    ∷ codes ".cursorrules"
    ∷ []

abbrev pub copilot : Text
copilot = codes "copilot"

abbrev pub security : Text
security = codes "security"

abbrev pub md_suffix : Text
md_suffix = codes ".md"

abbrev pub design_suffix : Text
design_suffix = codes "-design.md"

abbrev pub spec_suffix : Text
spec_suffix = codes "-spec.md"

abbrev pub operating : Text
operating = codes "docs/OPERATING.md"

-- path.split("/")
abbrev pub slash : ℕ
slash = 47

module _ (lower : Text → Text) where
  unfoldable pub is_denylisted : Text → Bool
  unfolding split last init any_member member starts_with ends_with same_text
  is_denylisted path =
      let parts = split slash path in
      let base = last parts in
      let low = lower base in
      any_member (init parts) deny_dirs
      || (member base deny_basenames
          || (((starts_with copilot low || starts_with security low) && ends_with md_suffix low)
              || ((ends_with design_suffix low || ends_with spec_suffix low)
                  || same_text path operating)))

  unfoldable pub doc_path : Text → Bool
  unfolding is_denylisted
  doc_path path = ends_with md_suffix path && not (is_denylisted path)

-- An entry of the diff; `paths` are two for a rename or a copy.
pub record Entry : Type 0 where
  pub omode : Text
  pub nmode : Text
  pub status : Text
  pub paths : List Text

abbrev pub is_digit : ℕ → Bool
is_digit c = leb 48 c && leb c 57

-- `\d{1,3}$`, where `$` also stands before a last newline.
unfoldable pub digits_end : ℕ → Text → Bool
digits_end n [] = false
digits_end zero (_ ∷ _) = false
digits_end (suc n) (c ∷ []) = is_digit c
digits_end (suc n) (c ∷ d ∷ s) =
    let rest = digits_end n (d ∷ s) in is_digit c && (rest || same_text (10 ∷ []) (d ∷ s))

-- `$` after a bare letter.
abbrev pub at_end : Text → Bool
at_end [] = true
at_end (c ∷ []) = c == 10
at_end (_ ∷ _ ∷ _) = false

-- _STATUS_RE: A, D, M bare; R and C with a score.
unfoldable pub status_ok : Text → Bool
unfolding digits_end
status_ok [] = false
status_ok (c ∷ s) =
    if c == 65 || (c == 68 || c == 77)
    then at_end s
    else if c == 82 || c == 67
    then digits_end 3 s
    else false

-- "000000" and "100644"
abbrev pub absent : Text
absent = 48 ∷ 48 ∷ 48 ∷ 48 ∷ 48 ∷ 48 ∷ []

abbrev pub regular : Text
regular = 49 ∷ 48 ∷ 48 ∷ 54 ∷ 52 ∷ 52 ∷ []

-- The modes that the letter of a status allows.
unfoldable pub modes_ok : ℕ → Text → Text → Bool
modes_ok code omode nmode =
    if code == 65
    then same_text omode absent && same_text nmode regular
    else if code == 68
    then same_text omode regular && same_text nmode absent
    else same_text omode regular && same_text nmode regular

-- status[:1]
abbrev pub code_of : Text → ℕ
code_of [] = 0
code_of (c ∷ _) = c

-- What classify_diff says: the reason, which the caller records.
pub data Verdict : Type 0 where
  docs_only empty_changeset unsupported_status non_doc_path unsafe_modes : Verdict

abbrev pub first_refusal : Verdict → Verdict → Verdict
first_refusal docs_only rest = rest
first_refusal v rest = v

module _ (lower : Text → Text) where
  unfoldable pub all_docs : List Text → Bool
  unfolding doc_path
  all_docs [] = true
  all_docs (p ∷ ps) = doc_path lower p && all_docs ps

  unfoldable pub judge_entry : Entry → Verdict
  unfolding status_ok modes_ok all_docs
  judge_entry e =
      if not (status_ok e.status)
      then unsupported_status
      else if not (all_docs e.paths)
      then non_doc_path
      else if modes_ok (code_of e.status) e.omode e.nmode
      then docs_only
      else unsafe_modes

  -- The first entry that is refused ends the loop.
  unfoldable pub judge_entries : List Entry → Verdict
  unfolding judge_entry
  judge_entries [] = docs_only
  judge_entries (e ∷ es) = first_refusal (judge_entry e) (judge_entries es)

  unfoldable pub classify_diff : List Entry → Verdict
  unfolding judge_entries
  classify_diff [] = empty_changeset
  classify_diff (e ∷ es) = judge_entries (e ∷ es)

-- ValueError, by its message.
pub data ParseError : Type 0 where
  no_info_line wrong_fields non_ascii truncated non_utf8 : ParseError

pub data Parsed {ℓ} (A : Type ℓ) : Type ℓ where
  parsed : A → Parsed A
  refused : ParseError → Parsed A

-- toks[:-1] if toks[-1] == b""
unfoldable pub drop_final : List Text → List Text
drop_final [] = []
drop_final ([] ∷ []) = []
drop_final ((c ∷ s) ∷ []) = (c ∷ s) ∷ []
drop_final (s ∷ t ∷ ts) = s ∷ drop_final (t ∷ ts)

-- The three fields that the parser keeps, decoded.
pub record Info : Type 0 where
  pub omode : Text
  pub nmode : Text
  pub status : Text

unfoldable pub info_of : Option Text → Option Text → Option Text → Parsed Info
info_of (some o) (some n) (some s) = parsed (record { omode = o; nmode = n; status = s })
info_of _ _ _ = refused non_ascii

unfoldable pub parse_fields : List Text → Parsed Info
unfolding info_of
parse_fields (o ∷ n ∷ _ ∷ _ ∷ s ∷ []) = info_of (decode_ascii o) (decode_ascii n) (decode_ascii s)
parse_fields _ = refused wrong_fields

-- A token `:… … … … …`.
unfoldable pub parse_info : Text → Parsed Info
unfolding split parse_fields
parse_info [] = refused no_info_line
parse_info (c ∷ s) = if c == 58 then parse_fields (split 32 s) else refused no_info_line

abbrev pub two_paths : Info → Bool
two_paths i = code_of i.status == 82 || code_of i.status == 67

unfoldable pub entry_of : Info → List Text → Entry
entry_of i paths = record { omode = i.omode; nmode = i.nmode; status = i.status; paths = paths }

abbrev pub add_entry : Entry → Parsed (List Entry) → Parsed (List Entry)
add_entry e (parsed es) = parsed (e ∷ es)
add_entry e (refused x) = refused x

unfoldable pub decode_paths : List Text → Option (List Text)
decode_paths [] = some []
decode_paths (p ∷ ps) = elim (decode_utf8 p) [
  | none ↦ none
  | some s ↦ elim (decode_paths ps) [ none ↦ none | some ss ↦ some (s ∷ ss) ]
]

-- What the loop expects at `toks[i]`.
pub data Expect : Type 0 where
  info_line : Expect
  first_of_two : Info → Expect
  last_path : Info → List Text → Expect

abbrev pub expect_paths : Info → Expect
expect_paths i = if two_paths i then first_of_two i else last_path i []

unfoldable pub with_paths : Info → Option (List Text) → Parsed (List Entry) → Parsed (List Entry)
unfolding entry_of
with_paths i none rest = refused non_utf8
with_paths i (some ps) rest = add_entry (entry_of i ps) rest

-- The loop of parse_raw_z. The paths of an entry are counted before they are decoded.
unfoldable pub parse_from : Expect → List Text → Parsed (List Entry)
unfolding decode_paths with_paths
parse_from info_line [] = parsed []
parse_from (first_of_two i) [] = refused truncated
parse_from (last_path i raw) [] = refused truncated
parse_from info_line (t ∷ ts) = elim (parse_info t) [
  | refused x ↦ refused x
  | parsed i ↦ parse_from (expect_paths i) ts
]
parse_from (first_of_two i) (p ∷ ts) = parse_from (last_path i (p ∷ [])) ts
parse_from (last_path i raw) (p ∷ ts) =
    with_paths i (decode_paths (raw ++ p ∷ [])) (parse_from info_line ts)

unfoldable pub parse_raw_z : Text → Parsed (List Entry)
unfolding parse_from drop_final split
parse_raw_z [] = parsed []
parse_raw_z (c ∷ out) = parse_from info_line (drop_final (split 0 (c ∷ out)))
