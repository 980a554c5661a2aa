-- ===== src/Controller/Target/Causes.antt =====
-- When the chooser gives a range up: it is too large, it is empty, or git failed to size it.
use myndaix_runtime.Prelude.{
  ℕ, zero, suc, ◌-◌, ◌≤◌, ◌<◌, ◌≡◌, refl, sym, ◌∙◌, ap, subst, ◌⊎◌, Bool, true, false, Option, none,
  some, List, [], ◌∷◌, leb, ltb, ◌==◌, ◌&&◌, if◌then◌else◌, arith, inl, inr, Bool-cases, ==→eq,
}
use myndaix_runtime.Prelude.Table.{get}
use myndaix_runtime.Controller.Target.{
  Sizing, Limits, Memo, Target, dispatch, advance, diff_lines, diff_bytes, dl, db, try_commit,
  try_lines, try_bytes, better, walk, chunk, take, no_memo, choose_review_target, with_lines, sized,
  best_or_first, force_lines, forced, deferred,
}
use myndaix_runtime.Controller.Target.Memory.{
  Extends, dl-Extends, db-Extends, dl_again, db_again, dl_stored, db_stored, dl-none, db-none,
  walk-Extends, walk-none,
}

-- What process_repo calls oversized.
abbrev pub IsOver : Limits → Target → Type 0
IsOver l t =
    ((n : ℕ) × (t.lines ≡ some n) × (l.max_lines < n))
    ⊎ ((b : ℕ) × (t.bytes ≡ some b) × (l.max_bytes < b))

abbrev pub IsEmptyDiff : Target → Type 0
IsEmptyDiff t = t.bytes ≡ some 0

-- git failed to size the commit, in this or another call.
abbrev pub CanFail : Sizing → ℕ → Type 0
CanFail g c = (i : ℕ) × ((diff_lines (g.numstat i c) ≡ none) ⊎ (diff_bytes (g.patch i c) ≡ none))

abbrev AdvanceCause : Sizing → Limits → Target → Type 0
AdvanceCause g l t = IsOver l t ⊎ (IsEmptyDiff t ⊎ CanFail g t.sha)

abbrev IsBad : Limits → Option ℕ → Option ℕ → Type 0
IsBad l n b =
    ((k : ℕ) × (n ≡ some k) × (l.max_lines < k))
    ⊎ ((k : ℕ) × (b ≡ some k) × ((k ≡ 0) ⊎ (l.max_bytes < k)))

forced_cause :
    (l : Limits) (c : ℕ) (n b : Option ℕ)
    → IsBad l n b
    → (forced c n b).mode ≡ advance
    → IsOver l (forced c n b) ⊎ IsEmptyDiff (forced c n b)
forced_cause l c none b h e = absurd (cc)
forced_cause l c (some n) none h e = absurd (cc)
forced_cause l c (some n) (some b) h e = elim (Bool-cases (b == 0)) [
  | inl z ↦ rw z (inr refl)
  | inr z ↦ rw z (inl (over z h))
]
  where
    over :
        (b == 0) ≡ false
        → IsBad l (some n) (some b)
        → IsOver l (record { mode = advance; sha = c; lines = some n; bytes = some b })
    over z (inl (k, p, q)) = inl (n, refl, ground arith)
    over z (inr (k, p, inl q)) = absurd (ground arith)
    over z (inr (k, p, inr q)) = inr (b, refl, ground arith)

forced_sha : (c : ℕ) (n b : Option ℕ) → (forced c n b).sha ≡ c
forced_sha c none b = refl
forced_sha c (some n) none = refl
forced_sha c (some n) (some b) = ground arith

take_first : (k c : ℕ) (cs : List ℕ) → 1 ≤ k → take k (c ∷ cs) ≡ c ∷ take (k - 1) cs
unfolding take
take_first zero c cs h = absurd (omega arith)
take_first (suc k) c cs h = let z : suc k - 1 ≡ k = omega arith in rw z refl

take_nil : (k : ℕ) → take k [] ≡ []
unfolding take
take_nil zero = refl
take_nil (suc k) = refl

module _ (g : Sizing) (l : Limits) (head : ℕ) where
  -- What the memo knows against a commit.
  abbrev KnownBad : ℕ → Memo → Type 0
  KnownBad c m = IsBad l (get c m.lc) (get c m.bc)

  KnownBad-Extends : (c : ℕ) (m m' : Memo) → Extends m m' → KnownBad c m → KnownBad c m'
  KnownBad-Extends c m m' x (inl (k, p, q)) = inl (k, x.0 c k p, q)
  KnownBad-Extends c m m' x (inr (k, p, q)) = inr (k, x.1 c k p, q)

  force-IsBad : (c : ℕ) (m : Memo) → KnownBad c m → IsBad l (dl g c m).0 (db g c (dl g c m).1).0
  force-IsBad c m (inl (k, p, q)) = inl (k, dl_again g c m k p, q)
  force-IsBad c m (inr (k, p, q)) =
      inr (k, db_again g c (dl g c m).1 k ((dl-Extends g c m).1 c k p), q)

  -- The first step of the walk on a commit leaves it as the best, or the memo knows why not, or git
  -- failed.
  try_bytes_cause :
      (c n : ℕ) (m : Memo)
      → (try_bytes g l c n none (db g c m)).0 ≡ none
      → KnownBad c (try_bytes g l c n none (db g c m)).1 ⊎ CanFail g c
  try_bytes_cause c n m e = go (db g c m).0 refl e
    where
      go :
          (o : Option ℕ)
          → (db g c m).0 ≡ o
          → better l c n o none ≡ none
          → KnownBad c (db g c m).1 ⊎ CanFail g c
      go none s h = inr ((db-none g c m s).0, inr (db-none g c m s).1)
      go (some b) s h = inl (inr (b, db_stored g c m b s, ground arith))

  try_cause :
      (c : ℕ) (m : Memo)
      → (try_commit g l c none m).0 ≡ none
      → KnownBad c (try_commit g l c none m).1 ⊎ CanFail g c
  unfolding try_commit
  try_cause c m = go (dl g c m).0 refl
    where
      pick :
          (t : Bool) (n : ℕ)
          → ltb l.max_lines n ≡ t
          → (dl g c m).0 ≡ some n
          → (if◌then◌else◌ {A = Option (ℕ × ℕ × ℕ) × Memo} t
              (none, (dl g c m).1)
              (try_bytes g l c n none (db g c (dl g c m).1))).0
            ≡ none
          → KnownBad c
              (if◌then◌else◌ {A = Option (ℕ × ℕ × ℕ) × Memo} t
                (none, (dl g c m).1)
                (try_bytes g l c n none (db g c (dl g c m).1))).1
            ⊎ CanFail g c
      pick true n k s h = inl (inl (n, dl_stored g c m n s, ground arith))
      pick false n k s h = try_bytes_cause c n (dl g c m).1 h

      go :
          (o : Option ℕ)
          → (dl g c m).0 ≡ o
          → (try_lines g l c none (o, (dl g c m).1)).0 ≡ none
          → KnownBad c (try_lines g l c none (o, (dl g c m).1)).1 ⊎ CanFail g c
      go none s h = inr ((dl-none g c m s).0, inl (dl-none g c m s).1)
      go (some n) s h = pick (ltb l.max_lines n) n refl s h

  -- After the walk, the first commit is known to be bad, unless git failed on it.
  first_step :
      (c : ℕ) (cs : List ℕ) (m : Memo)
      → KnownBad head m
      → (walk g l head (c ∷ cs) (none, m)).0 ≡ none
      → KnownBad c (walk g l head (c ∷ cs) (none, m)).1 ⊎ CanFail g c
  unfolding walk
  first_step c cs m k h =
      go (c == head) refl (walk-none g l head cs _ h) (walk-Extends g l head cs _)
    where
      go :
          (t : Bool)
          → (c == head) ≡ t
          → (if◌then◌else◌ {A = Option (ℕ × ℕ × ℕ) × Memo} t (none, m) (try_commit g l c none m)).0
            ≡ none
          → Extends
              (if◌then◌else◌ {A = Option (ℕ × ℕ × ℕ) × Memo} t
                (none, m)
                (try_commit g l c none m)).1
              (walk g l head (c ∷ cs) (none, m)).1
          → KnownBad c (walk g l head (c ∷ cs) (none, m)).1 ⊎ CanFail g c
      go true e s x = inl (
          KnownBad-Extends c m (walk g l head (c ∷ cs) (none, m)).1 x
            (subst (λ d. KnownBad d m) (sym (==→eq c head e)) k))
      go false e s x = elim (try_cause c m s) [
        | inl p ↦ inl (
            KnownBad-Extends c (try_commit g l c none m).1 (walk g l head (c ∷ cs) (none, m)).1 x p)
        | inr f ↦ inr f
      ]

  force_cause :
      (c : ℕ) (m : Memo)
      → KnownBad c m ⊎ CanFail g c
      → (force_lines g l head c (dl g c m)).mode ≡ advance
      → AdvanceCause g l (force_lines g l head c (dl g c m))
  force_cause c m (inr f) e =
      inr (inr (subst (CanFail g) (sym (forced_sha c (dl g c m).0 (db g c (dl g c m).1).0)) f))
  force_cause c m (inl k) e =
      elim (forced_cause l c (dl g c m).0 (db g c (dl g c m).1).0 (force-IsBad c m k) e) [
        | inl o ↦ inl o
        | inr z ↦ inr (inl z)
      ]

  best_cause :
      (c : ℕ) (r : Option (ℕ × ℕ × ℕ) × Memo)
      → (r.0 ≡ none → KnownBad c r.1 ⊎ CanFail g c)
      → (best_or_first g l head c r).mode ≡ advance
      → AdvanceCause g l (best_or_first g l head c r)
  best_cause c (some (d, n, b), m) k e = absurd (cc)
  best_cause c (none, m) k e = force_cause c m (k refl) e

  chunk_cause :
      (n : ℕ) (b : Option ℕ) (m : Memo) (o : Option (List ℕ))
      → 1 ≤ l.walk_cap
      → KnownBad head m
      → IsBad l (some n) b
      → (chunk g l head n b m o).mode ≡ advance
      → AdvanceCause g l (chunk g l head n b m o)
  unfolding chunk
  chunk_cause n b m none w k bad e = absurd (cc)
  chunk_cause n b m (some []) w k (inl (x, p, q)) e = inl (inl (x, p, q))
  chunk_cause n b m (some []) w k (inr (x, p, inl z)) e = inr (inl (p ∙ ap some z))
  chunk_cause n b m (some []) w k (inr (x, p, inr q)) e = inl (inr (x, p, q))
  chunk_cause n b m (some (c ∷ cs)) w k bad e =
      best_cause c (walk g l head (take l.walk_cap (c ∷ cs)) (none, m))
        (rw (take_first l.walk_cap c cs w) (first_step c (take (l.walk_cap - 1) cs) m k)) e

  sized_cause :
      (n : ℕ) (m : Memo)
      → 1 ≤ l.walk_cap
      → get head m.lc ≡ some n
      → (sized g l head n (db g head m)).mode ≡ advance
      → AdvanceCause g l (sized g l head n (db g head m))
  sized_cause n m w k = go (db g head m).0 refl ((db-Extends g head m).0 head n k)
    where
      over_lines :
          get head (db g head m).1.lc ≡ some n
          → (t : Bool) → leb n l.max_lines ≡ t
          → (if t
              then deferred head (some n)
              else chunk g l head n none (db g head m).1 g.rev_list).mode
            ≡ advance
          → AdvanceCause g l (
              if t
              then deferred head (some n)
              else chunk g l head n none (db g head m).1 g.rev_list)
      over_lines k true z e = absurd (cc)
      over_lines k false z e =
          chunk_cause n none (db g head m).1 g.rev_list w (inl (n, k, ground arith))
            (inl (n, refl, ground arith)) e

      over_either :
          (b : ℕ)
          → get head (db g head m).1.lc ≡ some n
          → get head (db g head m).1.bc ≡ some b
          → (t : Bool) → (leb n l.max_lines && leb b l.max_bytes) ≡ t
          → (if t
              then record { mode = dispatch; sha = head; lines = some n; bytes = some b }
              else chunk g l head n (some b) (db g head m).1 g.rev_list).mode
            ≡ advance
          → AdvanceCause g l (
              if t
              then record { mode = dispatch; sha = head; lines = some n; bytes = some b }
              else chunk g l head n (some b) (db g head m).1 g.rev_list)
      over_either b k j true z e = absurd (cc)
      over_either b k j false z e = elim (Bool-cases (ltb l.max_lines n)) [
        | inl p ↦
            chunk_cause n (some b) (db g head m).1 g.rev_list w (inl (n, k, ground arith))
              (inl (n, refl, ground arith)) e
        | inr p ↦
            chunk_cause n (some b) (db g head m).1 g.rev_list w (inr (b, j, inr (ground arith)))
              (inr (b, refl, inr (ground arith))) e
      ]

      go :
          (o : Option ℕ)
          → (db g head m).0 ≡ o
          → get head (db g head m).1.lc ≡ some n
          → (sized g l head n (o, (db g head m).1)).mode ≡ advance
          → AdvanceCause g l (sized g l head n (o, (db g head m).1))
      go none s k e = over_lines k (leb n l.max_lines) refl e
      go (some b) s k e =
          over_either b k (db_stored g head m b s) (leb n l.max_lines && leb b l.max_bytes) refl e

  -- The chooser gives a commit up only where its size is over a budget, its diff is empty, or git
  -- failed to size that very commit in some call.
  pub advance_has_cause :
      1 ≤ l.walk_cap
      → (choose_review_target g l head).mode ≡ advance
      → IsOver l (choose_review_target g l head)
        ⊎ (IsEmptyDiff (choose_review_target g l head)
            ⊎ CanFail g (choose_review_target g l head).sha)
  unfolding choose_review_target
  advance_has_cause w = go (dl g head no_memo).0 refl
    where
      go :
          (o : Option ℕ)
          → (dl g head no_memo).0 ≡ o
          → (with_lines g l head (o, (dl g head no_memo).1)).mode ≡ advance
          → AdvanceCause g l (with_lines g l head (o, (dl g head no_memo).1))
      go none s e = absurd (cc)
      go (some n) s e = sized_cause n (dl g head no_memo).1 w (dl_stored g head no_memo n s) e
