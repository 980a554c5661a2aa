-- ===== src/Controller/Target.antt =====
-- _choose_review_target of src/runtime/controller.py, with _diff_lines and _diff_bytes: which part of
-- a range one dispatch reviews. What git answers is a parameter; a commit is a number.
pub mod Sized
pub mod Memory
pub mod Causes
pub mod Reference
use myndaix_runtime.Prelude.{
  ℕ, zero, suc, ◌+◌, Bool, true, false, ◌&&◌, ◌||◌, Option, none, some, List, [], ◌∷◌, leb, ltb,
  ◌==◌, is_none, if◌then◌else◌, length,
}
use myndaix_runtime.Prelude.Table.{Table, get}
use myndaix_runtime.Contracts.{Text}
use myndaix_runtime.Controller.Config.{is_number, decimal}

-- if p.isdigit(): total += int(p)
abbrev pub counted : Text → ℕ
counted p = if is_number p then decimal 0 p else 0

unfoldable pub row_lines : List Text → ℕ
row_lines [] = 0
row_lines (_ ∷ []) = 0
row_lines (_ ∷ _ ∷ []) = 0
row_lines (added ∷ deleted ∷ _ ∷ _) = counted added + counted deleted

unfoldable pub total_lines : List (List Text) → ℕ
unfolding row_lines is_number decimal
total_lines [] = 0
total_lines (row ∷ rows) = row_lines row + total_lines rows

-- What git printed, as rows of fields; none where the call failed or timed out.
unfoldable pub diff_lines : Option (List (List Text)) → Option ℕ
diff_lines none = none
diff_lines (some rows) = some (total_lines rows)

abbrev drop_newline : ℕ → Text → Text
drop_newline c [] = if c == 10 then [] else c ∷ []
drop_newline c (d ∷ s) = c ∷ d ∷ s

-- bytes.rstrip(b"\n")
unfoldable pub rstrip_newlines : Text → Text
rstrip_newlines [] = []
rstrip_newlines (c ∷ s) = drop_newline c (rstrip_newlines s)

unfoldable pub diff_bytes : Option Text → Option ℕ
diff_bytes none = none
diff_bytes (some out) = some (length (rstrip_newlines out))

-- git, asked about one base. The answer to a sizing call may depend on how many were made before.
pub record Sizing : Type 0 where
  pub numstat : ℕ → ℕ → Option (List (List Text))
  pub patch : ℕ → ℕ → Option Text
  pub rev_list : Option (List ℕ)

-- MAX_REVIEW_LINES, MAX_REVIEW_BYTES and CHUNK_WALK_CAP
pub record Limits : Type 0 where
  pub max_lines : ℕ
  pub max_bytes : ℕ
  pub walk_cap : ℕ

-- _lc and _bc, and the number of sizing calls that were made.
pub record Memo : Type 0 where
  pub asked : ℕ
  pub lc : Table ℕ
  pub bc : Table ℕ

abbrev pub no_memo : Memo
no_memo = record { asked = 0; lc = []; bc = [] }

-- A None is not remembered: the next call asks again.
abbrev pub remember : ℕ → Option ℕ → Table ℕ → Table ℕ
remember c none t = t
remember c (some n) t = (c, n) ∷ t

pub data Mode : Type 0 where
  dispatch advance defer : Mode

-- What the function returns; none stands for -1.
pub record Target : Type 0 where
  pub mode : Mode
  pub sha : ℕ
  pub lines : Option ℕ
  pub bytes : Option ℕ

unfoldable pub take : ℕ → List ℕ → List ℕ
take zero cs = []
take (suc k) [] = []
take (suc k) (c ∷ cs) = c ∷ take k cs

abbrev pub deferred : ℕ → Option ℕ → Target
deferred c n = record { mode = defer; sha = c; lines = n; bytes = none }

abbrev pub fits_both : Limits → ℕ → Option ℕ → Bool
fits_both l n none = false
fits_both l n (some b) = leb n l.max_lines && leb b l.max_bytes

-- The last lines of the function: the first commit past the base, which does not fit.
abbrev pub forced : ℕ → Option ℕ → Option ℕ → Target
forced c none b = deferred c none
forced c (some n) none = deferred c none
forced c (some n) (some b) =
    if b == 0
    then record { mode = advance; sha = c; lines = some 0; bytes = some 0 }
    else record { mode = advance; sha = c; lines = some n; bytes = some b }

-- The body of the walk once the bytes are known.
abbrev pub better : Limits → ℕ → ℕ → Option ℕ → Option (ℕ × ℕ × ℕ) → Option (ℕ × ℕ × ℕ)
better l c n none best = best
better l c n (some b) best = if b == 0 || ltb l.max_bytes b then best else some (c, n, b)

module _ (g : Sizing) where
  abbrev asked_lines : ℕ → Memo → Option ℕ → Option ℕ × Memo
  asked_lines c m (some n) = (some n, m)
  asked_lines c m none =
      let r = diff_lines (g.numstat m.asked c) in
      (r, record m { asked = suc m.asked; lc = remember c r m.lc })

  abbrev asked_bytes : ℕ → Memo → Option ℕ → Option ℕ × Memo
  asked_bytes c m (some b) = (some b, m)
  asked_bytes c m none =
      let r = diff_bytes (g.patch m.asked c) in
      (r, record m { asked = suc m.asked; bc = remember c r m.bc })

  -- dl and db
  unfoldable pub dl : ℕ → Memo → Option ℕ × Memo
  unfolding get
  dl c m = asked_lines c m (get c m.lc)

  unfoldable pub db : ℕ → Memo → Option ℕ × Memo
  unfolding get
  db c m = asked_bytes c m (get c m.bc)

  module _ (l : Limits) where
    abbrev try_bytes : ℕ → ℕ → Option (ℕ × ℕ × ℕ) → Option ℕ × Memo → Option (ℕ × ℕ × ℕ) × Memo
    try_bytes c n best (b, m) = (better l c n b best, m)

    abbrev try_lines : ℕ → Option (ℕ × ℕ × ℕ) → Option ℕ × Memo → Option (ℕ × ℕ × ℕ) × Memo
    try_lines c best (none, m) = (best, m)
    try_lines c best (some n, m) =
        if ltb l.max_lines n then (best, m) else try_bytes c n best (db c m)

    unfoldable pub try_commit : ℕ → Option (ℕ × ℕ × ℕ) → Memo → Option (ℕ × ℕ × ℕ) × Memo
    unfolding dl db
    try_commit c best m = try_lines c best (dl c m)

    module _ (head : ℕ) where
      unfoldable pub walk : List ℕ → Option (ℕ × ℕ × ℕ) × Memo → Option (ℕ × ℕ × ℕ) × Memo
      unfolding try_commit
      walk [] r = r
      walk (c ∷ cs) r = walk cs (if c == head then r else try_commit c r.0 r.1)

      abbrev force_bytes : ℕ → Option ℕ → Option ℕ × Memo → Target
      force_bytes c n (b, m) = forced c n b

      abbrev force_lines : ℕ → Option ℕ × Memo → Target
      force_lines c (n, m) = force_bytes c n (db c m)

      abbrev best_or_first : ℕ → Option (ℕ × ℕ × ℕ) × Memo → Target
      best_or_first first (some (c, n, b), m) = record {
        mode = dispatch;
        sha = c;
        lines = some n;
        bytes = some b;
      }
      best_or_first first (none, m) = force_lines first (dl first m)

      unfoldable pub chunk : ℕ → Option ℕ → Memo → Option (List ℕ) → Target
      unfolding walk take dl db
      chunk n b m none = deferred head none
      chunk n b m (some []) = record { mode = advance; sha = head; lines = some n; bytes = b }
      chunk n b m (some (first ∷ rest)) =
          best_or_first first (walk (take l.walk_cap (first ∷ rest)) (none, m))

      abbrev sized : ℕ → Option ℕ × Memo → Target
      sized n (b, m) =
          if fits_both l n b
          then record { mode = dispatch; sha = head; lines = some n; bytes = b }
          else if is_none b && leb n l.max_lines
          then deferred head (some n)
          else chunk n b m g.rev_list

      abbrev with_lines : Option ℕ × Memo → Target
      with_lines (none, m) = deferred head none
      with_lines (some n, m) = sized n (db head m)

      unfoldable pub choose_review_target : Target
      unfolding chunk dl db
      choose_review_target = with_lines (dl head no_memo)
