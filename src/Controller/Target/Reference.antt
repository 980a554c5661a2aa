-- ===== src/Controller/Target/Reference.antt =====
-- The chooser with no memo: a plain function of the sizes of the commits.
use myndaix_runtime.Prelude.{
  ℕ, ◌≡◌, refl, ◌∙◌, ap, Bool, true, false, Option, none, some, List, [], ◌∷◌, leb, ltb, ◌==◌, ◌&&◌,
  is_none, if◌then◌else◌,
}
use myndaix_runtime.Controller.Target.{
  Sizing, Limits, Memo, Target, dispatch, advance, diff_lines, diff_bytes, dl, db, try_commit,
  try_lines, try_bytes, better, walk, chunk, take, no_memo, choose_review_target, with_lines, sized,
  best_or_first, force_lines, forced, deferred, fits_both,
}
use myndaix_runtime.Controller.Target.Sized.{IsSound, no_memo-IsSound, dl-IsSound, db-IsSound}

module _ (l : Limits) (head : ℕ) (lines bytes : ℕ → Option ℕ) where
  abbrev fit_lines : ℕ → Option ℕ → Option (ℕ × ℕ × ℕ) → Option (ℕ × ℕ × ℕ)
  fit_lines c none best = best
  fit_lines c (some n) best = if ltb l.max_lines n then best else better l c n (bytes c) best

  -- The last commit but the head that fits both budgets and is not empty.
  unfoldable pub last_fit : List ℕ → Option (ℕ × ℕ × ℕ) → Option (ℕ × ℕ × ℕ)
  last_fit [] best = best
  last_fit (c ∷ cs) best = last_fit cs (if c == head then best else fit_lines c (lines c) best)

  abbrev fit_or_first : ℕ → Option (ℕ × ℕ × ℕ) → Target
  fit_or_first first (some (c, n, b)) = record {
    mode = dispatch;
    sha = c;
    lines = some n;
    bytes = some b;
  }
  fit_or_first first none = forced first (lines first) (bytes first)

  abbrev in_window : ℕ → Option ℕ → Option (List ℕ) → Target
  in_window n b none = deferred head none
  in_window n b (some []) = record { mode = advance; sha = head; lines = some n; bytes = b }
  in_window n b (some (first ∷ rest)) =
      fit_or_first first (last_fit (take l.walk_cap (first ∷ rest)) none)

  -- What one dispatch reviews: the whole range if it fits, nothing if it cannot be sized, and else the
  -- last prefix that fits.
  unfoldable pub reference_lines : Option (List ℕ) → Option ℕ → Target
  unfolding last_fit
  reference_lines commits none = deferred head none
  reference_lines commits (some n) =
      if fits_both l n (bytes head)
      then record { mode = dispatch; sha = head; lines = some n; bytes = bytes head }
      else if is_none (bytes head) && leb n l.max_lines
      then deferred head (some n)
      else in_window n (bytes head) commits

  unfoldable pub reference_target : Option (List ℕ) → Target
  unfolding reference_lines
  reference_target commits = reference_lines commits (lines head)

  module _ (g : Sizing) (steady_lines : (i c : ℕ) → diff_lines (g.numstat i c) ≡ lines c)
      (steady_bytes : (i c : ℕ) → diff_bytes (g.patch i c) ≡ bytes c) where
    abbrev OfLines : ℕ → Option ℕ → Type 0
    OfLines c o = o ≡ lines c

    abbrev OfBytes : ℕ → Option ℕ → Type 0
    OfBytes c o = o ≡ bytes c

    abbrev Sound : Memo → Type 0
    Sound = IsSound g OfLines OfBytes steady_lines steady_bytes

    lines_of : (c : ℕ) (m : Memo) → Sound m → ((dl g c m).0 ≡ lines c) × Sound (dl g c m).1
    lines_of = dl-IsSound g OfLines OfBytes steady_lines steady_bytes

    bytes_of : (c : ℕ) (m : Memo) → Sound m → ((db g c m).0 ≡ bytes c) × Sound (db g c m).1
    bytes_of = db-IsSound g OfLines OfBytes steady_lines steady_bytes

    try_step :
        (c : ℕ) (best : Option (ℕ × ℕ × ℕ)) (m : Memo)
        → Sound m
        → ((try_commit g l c best m).0 ≡ fit_lines c (lines c) best)
          × Sound (try_commit g l c best m).1
    unfolding try_commit
    try_step c best m s = go (dl g c m) (lines_of c m s)
      where
        pick :
            (t : Bool) (n : ℕ) (m' : Memo)
            → Sound m'
            → ((if◌then◌else◌ {A = Option (ℕ × ℕ × ℕ) × Memo} t
                  (best, m')
                  (try_bytes g l c n best (db g c m'))).0
                ≡ (if t then best else better l c n (bytes c) best))
              × Sound
                  (if◌then◌else◌ {A = Option (ℕ × ℕ × ℕ) × Memo} t
                    (best, m')
                    (try_bytes g l c n best (db g c m'))).1
        pick true n m' s = (refl, s)
        pick false n m' s = (ap (λ o. better l c n o best) (bytes_of c m' s).0, (bytes_of c m' s).1)

        go :
            (r : Option ℕ × Memo)
            → (r.0 ≡ lines c) × Sound r.1
            → ((try_lines g l c best r).0 ≡ fit_lines c (lines c) best)
              × Sound (try_lines g l c best r).1
        go (none, m') h = (rw (← h.0) refl, h.1)
        go (some n, m') h =
            let p = pick (ltb l.max_lines n) n m' h.1 in (p.0 ∙ rw (← h.0) refl, p.1)

    walk_step :
        (cs : List ℕ) (r : Option (ℕ × ℕ × ℕ) × Memo)
        → Sound r.1
        → ((walk g l head cs r).0 ≡ last_fit cs r.0) × Sound (walk g l head cs r).1
    unfolding walk last_fit
    walk_step [] r s = (refl, s)
    walk_step (c ∷ cs) r s =
        let p = step (c == head) in
        let q = walk_step cs (if c == head then r else try_commit g l c r.0 r.1) p.1 in
        (q.0 ∙ ap (last_fit cs) p.0, q.1)
      where
        step :
            (t : Bool)
            → ((if t then r else try_commit g l c r.0 r.1).0
                ≡ (if t then r.0 else fit_lines c (lines c) r.0))
              × Sound (if t then r else try_commit g l c r.0 r.1).1
        step true = (refl, s)
        step false = try_step c r.0 r.1 s

    force_step :
        (c : ℕ) (m : Memo)
        → Sound m
        → force_lines g l head c (dl g c m) ≡ forced c (lines c) (bytes c)
    force_step c m s =
        let p = lines_of c m s in
        ap (λ o. forced c o (db g c (dl g c m).1).0) p.0
        ∙ ap (forced c (lines c)) (bytes_of c (dl g c m).1 p.1).0

    best_step :
        (c : ℕ) (r : Option (ℕ × ℕ × ℕ) × Memo)
        → Sound r.1
        → best_or_first g l head c r ≡ fit_or_first c r.0
    best_step c (some (d, n, b), m) s = refl
    best_step c (none, m) s = force_step c m s

    chunk_step :
        (n : ℕ) (b : Option ℕ) (m : Memo) (o : Option (List ℕ))
        → Sound m
        → chunk g l head n b m o ≡ in_window n b o
    unfolding chunk
    chunk_step n b m none s = refl
    chunk_step n b m (some []) s = refl
    chunk_step n b m (some (c ∷ cs)) s =
        let p = walk_step (take l.walk_cap (c ∷ cs)) (none, m) s in
        best_step c (walk g l head (take l.walk_cap (c ∷ cs)) (none, m)) p.1
        ∙ ap (fit_or_first c) p.0

    sized_step :
        (n : ℕ) (r : Option ℕ × Memo)
        → (r.0 ≡ bytes head) × Sound r.1
        → sized g l head n r ≡ reference_lines g.rev_list (some n)
    unfolding reference_lines
    sized_step n (b, m) h = rw (← h.0) (
        ap
          (λ t.
            if fits_both l n b
            then record { mode = dispatch; sha = head; lines = some n; bytes = b }
            else if is_none b && leb n l.max_lines
            then deferred head (some n)
            else t)
          (chunk_step n b m g.rev_list h.1))

    -- The memo, and the order in which sizes are asked for, do not show: where git gives each commit
    -- one size, the chooser is the plain function of these sizes.
    pub choose-is-reference : choose_review_target g l head ≡ reference_target g.rev_list
    unfolding choose_review_target reference_target
    choose-is-reference = go (dl g head no_memo) (lines_of head no_memo no_memo-Sound)
      where
        no_memo-Sound : Sound no_memo
        no_memo-Sound = no_memo-IsSound g OfLines OfBytes steady_lines steady_bytes

        go :
            (r : Option ℕ × Memo)
            → (r.0 ≡ lines head) × Sound r.1
            → with_lines g l head r ≡ reference_lines g.rev_list (lines head)
        go (none, m) h = rw (← h.0) refl
        go (some n, m) h =
            sized_step n (db g head m) (bytes_of head m h.1) ∙ ap (reference_lines g.rev_list) h.0
