-- ===== src/Controller/Target/Sized.antt =====
-- What the chooser knows of the sizes on which it decides: the answers that git gave for that commit.
use myndaix_runtime.Prelude.{
  ℕ, ◌≤◌, ◌≡◌, ◌≢◌, refl, Bool, true, false, Option, none, some, List, [], ◌∷◌, leb, ltb, ◌==◌,
  ◌||◌, ◌&&◌, if◌then◌else◌, arith, subst, inl, inr, Bool-cases, ==→eq,
}
use myndaix_runtime.Prelude.Table.{Table, get}
use myndaix_runtime.Controller.Target.{
  Sizing, Limits, Memo, Target, dispatch, defer, diff_lines, diff_bytes, dl, db, asked_lines,
  asked_bytes, try_commit, try_lines, try_bytes, better, walk, chunk, take, remember, no_memo,
  choose_review_target, with_lines, sized, best_or_first, force_lines, forced,
}

forced_never : (c : ℕ) (n b : Option ℕ) → (forced c n b).mode ≢ dispatch
forced_never c none b e = cc
forced_never c (some n) none e = cc
forced_never c (some n) (some b) e = ground arith

-- `Q c o` says that `o` is a size in lines of the commit `c`, `R c o` one in bytes.
module _ (g : Sizing) (Q R : ℕ → Option ℕ → Type 0)
    (hq : (i c : ℕ) → Q c (diff_lines (g.numstat i c)))
    (hr : (i c : ℕ) → R c (diff_bytes (g.patch i c))) where
  abbrev pub IsSound : Memo → Type 0
  IsSound m =
      ((c n : ℕ) → get c m.lc ≡ some n → Q c (some n))
      × ((c b : ℕ) → get c m.bc ≡ some b → R c (some b))

  pub no_memo-IsSound : IsSound no_memo
  unfolding get
  no_memo-IsSound = (λ c n e. absurd (cc), λ c b e. absurd (cc))

  remembered :
      (P : ℕ → Option ℕ → Type 0) (t : Table ℕ) (c : ℕ) (o : Option ℕ)
      → P c o
      → ((d n : ℕ) → get d t ≡ some n → P d (some n))
      → (d n : ℕ) → get d (remember c o t) ≡ some n
      → P d (some n)
  unfolding get
  remembered P t c none p h d n e = h d n e
  remembered P t c (some k) p h d n e = elim (Bool-cases (c == d)) [
    | inl s ↦ subst (λ x. P x (some n)) (==→eq c d s) (subst (P c) (rw s at e) p)
    | inr s ↦ h d n (rw s at e)
  ]

  pub dl-IsSound : (c : ℕ) (m : Memo) → IsSound m → Q c (dl g c m).0 × IsSound (dl g c m).1
  unfolding dl
  dl-IsSound c m s = go (get c m.lc) refl
    where
      go :
          (o : Option ℕ)
          → get c m.lc ≡ o
          → Q c (asked_lines g c m o).0 × IsSound (asked_lines g c m o).1
      go (some n) e = (s.0 c n e, s)
      go none e = (hq m.asked c, (remembered Q m.lc c _ (hq m.asked c) s.0, s.1))

  pub db-IsSound : (c : ℕ) (m : Memo) → IsSound m → R c (db g c m).0 × IsSound (db g c m).1
  unfolding db
  db-IsSound c m s = go (get c m.bc) refl
    where
      go :
          (o : Option ℕ)
          → get c m.bc ≡ o
          → R c (asked_bytes g c m o).0 × IsSound (asked_bytes g c m o).1
      go (some n) e = (s.1 c n e, s)
      go none e = (hr m.asked c, (s.0, remembered R m.bc c _ (hr m.asked c) s.1))

  module _ (l : Limits) (head : ℕ) where
    -- A prefix that fits both budgets and is not empty.
    abbrev pub IsFit : Option (ℕ × ℕ × ℕ) → Type 0
    IsFit none = Unit
    IsFit (some (c, n, b)) =
        Q c (some n) × R c (some b) × (n ≤ l.max_lines) × (b ≤ l.max_bytes) × (b ≢ 0)

    better-IsFit :
        (c n : ℕ) (o : Option ℕ) (best : Option (ℕ × ℕ × ℕ))
        → n ≤ l.max_lines
        → Q c (some n)
        → R c o
        → IsFit best
        → IsFit (better l c n o best)
    better-IsFit c n none best k q r f = f
    better-IsFit c n (some b) best k q r f = elim (Bool-cases (b == 0 || ltb l.max_bytes b)) [
      | inl e ↦ rw e f
      | inr e ↦ rw e (q, r, k, ground arith, λ z. ground arith)
    ]

    try-IsSound :
        (c : ℕ) (best : Option (ℕ × ℕ × ℕ)) (m : Memo)
        → IsFit best
        → IsSound m
        → IsFit (try_commit g l c best m).0 × IsSound (try_commit g l c best m).1
    unfolding try_commit
    try-IsSound c best m f s = go (dl g c m) (dl-IsSound c m s)
      where
        go2 :
            (n : ℕ) (r : Option ℕ × Memo)
            → n ≤ l.max_lines
            → Q c (some n)
            → R c r.0 × IsSound r.1
            → IsFit (try_bytes g l c n best r).0 × IsSound (try_bytes g l c n best r).1
        go2 n (b, m') k q h = (better-IsFit c n b best k q h.0 f, h.1)

        go :
            (r : Option ℕ × Memo)
            → Q c r.0 × IsSound r.1
            → IsFit (try_lines g l c best r).0 × IsSound (try_lines g l c best r).1
        go (none, m') h = (f, h.1)
        go (some n, m') h = elim (Bool-cases (ltb l.max_lines n)) [
          | inl e ↦ rw e (f, h.1)
          | inr e ↦ rw e (go2 n (db g c m') (ground arith) h.0 (db-IsSound c m' h.1))
        ]

    pub walk-IsSound :
        (cs : List ℕ) (r : Option (ℕ × ℕ × ℕ) × Memo)
        → IsFit r.0 × IsSound r.1
        → IsFit (walk g l head cs r).0 × IsSound (walk g l head cs r).1
    unfolding walk
    walk-IsSound [] r h = h
    walk-IsSound (c ∷ cs) r h = walk-IsSound cs _ (step (c == head))
      where
        step :
            (same : Bool)
            → IsFit (if same then r else try_commit g l c r.0 r.1).0
              × IsSound (if same then r else try_commit g l c r.0 r.1).1
        step true = h
        step false = try-IsSound c r.0 r.1 h.0 h.1

    abbrev pub FitsBudget : Target → Type 0
    FitsBudget t =
        (n : ℕ) × (b : ℕ) × (t.lines ≡ some n)
        × (t.bytes ≡ some b)
        × Q t.sha (some n)
        × R t.sha (some b)
        × (n ≤ l.max_lines)
        × (b ≤ l.max_bytes)

    force_lines_never : (c : ℕ) (r : Option ℕ × Memo) → (force_lines g l head c r).mode ≢ dispatch
    force_lines_never c (n, m) e = forced_never c n (db g c m).0 (e)

    best_sound :
        (c : ℕ) (r : Option (ℕ × ℕ × ℕ) × Memo)
        → IsFit r.0
        → (best_or_first g l head c r).mode ≡ dispatch
        → FitsBudget (best_or_first g l head c r)
    best_sound c (some (d, n, b), m) f e = (n, b, refl, refl, f.0, f.1, f.2, f.3)
    best_sound c (none, m) f e = absurd (force_lines_never c (dl g c m) e)

    chunk_sound :
        (n : ℕ) (b : Option ℕ) (m : Memo) (o : Option (List ℕ))
        → IsSound m
        → (chunk g l head n b m o).mode ≡ dispatch
        → FitsBudget (chunk g l head n b m o)
    unfolding chunk
    chunk_sound n b m none s e = absurd (cc)
    chunk_sound n b m (some []) s e = absurd (cc)
    chunk_sound n b m (some (c ∷ cs)) s e =
        best_sound c _ (walk-IsSound (take l.walk_cap (c ∷ cs)) (none, m) (tt, s)).0 e

    sized_sound :
        (n : ℕ) (r : Option ℕ × Memo)
        → Q head (some n)
        → R head r.0 × IsSound r.1
        → (sized g l head n r).mode ≡ dispatch
        → FitsBudget (sized g l head n r)
    sized_sound n (none, m) q h e = elim (Bool-cases (leb n l.max_lines)) [
      | inl k ↦ let z : defer ≡ dispatch = rw k at e in absurd (cc)
      | inr k ↦ rw k (chunk_sound n none m g.rev_list h.1 (rw k at e))
    ]
    sized_sound n (some b, m) q h e = elim (Bool-cases (leb n l.max_lines && leb b l.max_bytes)) [
      | inl k ↦ rw k (n, b, refl, refl, q, h.0, ground arith, ground arith)
      | inr k ↦ rw k (chunk_sound n (some b) m g.rev_list h.1 (rw k at e))
    ]

    -- Nothing is dispatched blind: a range that is dispatched has sizes that git gave for it, and both
    -- are within the budgets.
    pub dispatch_fits :
        (choose_review_target g l head).mode ≡ dispatch → FitsBudget (choose_review_target g l head)
    unfolding choose_review_target
    dispatch_fits e = go (dl g head no_memo) (dl-IsSound head no_memo no_memo-IsSound) e
      where
        go :
            (r : Option ℕ × Memo)
            → Q head r.0 × IsSound r.1
            → (with_lines g l head r).mode ≡ dispatch
            → FitsBudget (with_lines g l head r)
        go (none, m) h e = absurd (cc)
        go (some n, m) h e = sized_sound n (db g head m) h.0 (db-IsSound head m h.1) e
