-- ===== src/Automerge/Parser.antt =====
-- The grammar of `git diff --raw -z` that parse_raw_z (src/runtime/automerge.py) accepts.
use myndaix_runtime.Prelude.{
  ◌≡◌, refl, sym, ap, subst, Bool, true, false, Option, none, some, List, [], ◌∷◌, Bool-cases, inl,
  inr, if◌then◌else◌,
}
use myndaix_runtime.Contracts.{Text}
use myndaix_runtime.Automerge.{
  Info, Entry, Parsed, parsed, refused, parse_info, two_paths, decode_paths, entry_of, info_line,
  first_of_two, last_path, expect_paths, with_paths, parse_from,
}

-- The tokens of a diff and the entries that they spell: an info line and its one path, or two paths
-- after a rename or a copy, over and over.
pub data Spells : List Text → List Entry → Type 0 where
  nothing_more : Spells [] []
  with_one :
      (i : Info) (t p : Text) (ps : List Text) {ts : List Text} {es : List Entry}
      → parse_info t ≡ parsed i
      → two_paths i ≡ false
      → decode_paths (p ∷ []) ≡ some ps
      → Spells ts es
      → Spells (t ∷ p ∷ ts) (entry_of i ps ∷ es)
  with_two :
      (i : Info) (t p q : Text) (ps : List Text) {ts : List Text} {es : List Entry}
      → parse_info t ≡ parsed i
      → two_paths i ≡ true
      → decode_paths (p ∷ q ∷ []) ≡ some ps
      → Spells ts es
      → Spells (t ∷ p ∷ q ∷ ts) (entry_of i ps ∷ es)

-- Every diff of the grammar is parsed into its entries.
pub parse_complete :
    {ts : List Text} {es : List Entry} → Spells ts es → parse_from info_line ts ≡ parsed es
unfolding parse_from with_paths
parse_complete nothing_more = refl
parse_complete (with_one i t p ps e o d s) =
    rw (e, o, parse_from, d, with_paths, parse_complete s) refl
parse_complete (with_two i t p q ps e o d s) =
    rw (e, o, parse_from, d, with_paths, parse_complete s) refl

-- A parse that went on after an entry.
record Split (i : Info) (raw : List Text) (ts : List Text) (es : List Entry) : Type 0 where
  ps : List Text
  rest : List Entry
  decoded : decode_paths raw ≡ some ps
  tail : parse_from info_line ts ≡ parsed rest
  whole : es ≡ entry_of i ps ∷ rest

parsed-injective : {a b : List Entry} → parsed a ≡ parsed b → a ≡ b
parsed-injective {a} e = ap (λ (o : Parsed (List Entry)). elim o [ parsed x ↦ x | refused _ ↦ a ]) e

with_paths-Split :
    (i : Info) (raw ts : List Text) (es : List Entry)
    → with_paths i (decode_paths raw) (parse_from info_line ts) ≡ parsed es
    → Split i raw ts es
with_paths-Split i raw ts es e = go (decode_paths raw) (parse_from info_line ts) refl refl e
  where
    go :
        (d : Option (List Text)) (r : Parsed (List Entry))
        → decode_paths raw ≡ d
        → parse_from info_line ts ≡ r
        → with_paths i d r ≡ parsed es
        → Split i raw ts es
    go none r q w h = absurd (unfold with_paths in cc)
    go (some ps) (refused x) q w h = absurd (unfold with_paths in cc)
    go (some ps) (parsed rest) q w h = record {
      ps = ps;
      rest = rest;
      decoded = q;
      tail = w;
      whole = sym (unfold with_paths in parsed-injective h);
    }

-- What a parse has made of its first token.
first_info :
    (t : Text) (ts : List Text) (es : List Entry)
    → parse_from info_line (t ∷ ts) ≡ parsed es
    → (i : Info) × (parse_info t ≡ parsed i) × (parse_from (expect_paths i) ts ≡ parsed es)
first_info t ts es e = go (parse_info t) refl (unfold parse_from in e)
  where
    go :
        (r : Parsed Info)
        → parse_info t ≡ r
        → (elim r as (λ _. Parsed (List Entry)) [
          | refused x ↦ refused x
          | parsed i ↦ parse_from (expect_paths i) ts
        ])
          ≡ parsed es
        → (i : Info) × (parse_info t ≡ parsed i) × (parse_from (expect_paths i) ts ≡ parsed es)
    go (refused x) q h = absurd (cc)
    go (parsed i) q h = (i, q, h)

expect_one : (i : Info) → two_paths i ≡ false → expect_paths i ≡ last_path i []
expect_one i b = rw b refl

expect_two : (i : Info) → two_paths i ≡ true → expect_paths i ≡ first_of_two i
expect_two i b = rw b refl

-- The tokens cannot end before the paths.
cut : (i : Info) (es : List Entry) → parse_from (expect_paths i) [] ≡ parsed es → ⊥
cut i es h = go (two_paths i) h
  where
    go : (b : Bool) → parse_from (if b then first_of_two i else last_path i []) [] ≡ parsed es → ⊥
    go true h = unfold parse_from in absurd (cc)
    go false h = unfold parse_from in absurd (cc)

module _ (i : Info) (p : Text) (ts : List Text) (es : List Entry) where
  after_one :
      two_paths i ≡ false
      → parse_from (expect_paths i) (p ∷ ts) ≡ parsed es
      → Split i (p ∷ []) ts es
  unfolding parse_from
  after_one b h = with_paths-Split i (p ∷ []) ts es (rw (expect_one i b) at h)

  after_two :
      (q : Text)
      → two_paths i ≡ true
      → parse_from (expect_paths i) (p ∷ q ∷ ts) ≡ parsed es
      → Split i (p ∷ q ∷ []) ts es
  unfolding parse_from
  after_two q b h = with_paths-Split i (p ∷ q ∷ []) ts es (rw (expect_two i b) at h)

not_two :
    (i : Info) (p : Text) (es : List Entry)
    → two_paths i ≡ true
    → parse_from (expect_paths i) (p ∷ []) ≡ parsed es
    → ⊥
unfolding parse_from
not_two i p es b h = let k = rw (expect_two i b) at h in absurd (cc)

-- Tokens that are parsed into entries spell them: no token is passed over, and every path of every
-- info line is in the entry that it belongs to.
pub parse_sound :
    (ts : List Text) (es : List Entry) → parse_from info_line ts ≡ parsed es → Spells ts es
parse_sound [] es e =
    let q : [] ≡ es = unfold parse_from in parsed-injective e in
    subst (λ x. Spells [] x) q nothing_more
parse_sound (t ∷ []) es e = let (i, q, h) = first_info t [] es e in absurd (cut i es h)
parse_sound (t ∷ p ∷ []) es e =
    let (i, q, h) = first_info t (p ∷ []) es e in
    elim (Bool-cases (two_paths i)) [
      | inl b ↦ absurd (not_two i p es b h)
      | inr b ↦
          let s = after_one i p [] es b h in
          subst (λ x. Spells (t ∷ p ∷ []) x) (sym s.whole)
            (with_one i t p s.ps q b s.decoded (parse_sound [] s.rest s.tail))
    ]
parse_sound (t ∷ p ∷ x ∷ ts) es e =
    let (i, q, h) = first_info t (p ∷ x ∷ ts) es e in
    elim (Bool-cases (two_paths i)) [
      | inl b ↦
          let s = after_two i p ts es x b h in
          subst (λ y. Spells (t ∷ p ∷ x ∷ ts) y) (sym s.whole)
            (with_two i t p x s.ps q b s.decoded (parse_sound ts s.rest s.tail))
      | inr b ↦
          let s = after_one i p (x ∷ ts) es b h in
          subst (λ y. Spells (t ∷ p ∷ x ∷ ts) y) (sym s.whole)
            (with_one i t p s.ps q b s.decoded (parse_sound (x ∷ ts) s.rest s.tail))
    ]
