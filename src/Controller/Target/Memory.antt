-- ===== src/Controller/Target/Memory.antt =====
-- What the chooser's memo keeps: a size that git once gave is the one that every later call sees.
use myndaix_runtime.Prelude.{
  ℕ, ◌≡◌, refl, ◌∙◌, subst, Bool, true, false, Option, none, some, List, [], ◌∷◌, ltb, ◌==◌,
  if◌then◌else◌, arith, inl, inr, Bool-cases, ==→eq,
}
use myndaix_runtime.Prelude.Table.{Table, get}
use myndaix_runtime.Controller.Target.{
  Sizing, Limits, Memo, diff_lines, diff_bytes, dl, db, asked_lines, asked_bytes, try_commit,
  try_lines, try_bytes, better, walk, remember,
}

-- `m'` knows every size that `m` knows.
abbrev pub Extends : Memo → Memo → Type 0
Extends m m' =
    ((d k : ℕ) → get d m.lc ≡ some k → get d m'.lc ≡ some k)
    × ((d k : ℕ) → get d m.bc ≡ some k → get d m'.bc ≡ some k)

pub Extends-refl : (m : Memo) → Extends m m
Extends-refl m = (λ d k e. e, λ d k e. e)

pub Extends-trans : (m m' m'' : Memo) → Extends m m' → Extends m' m'' → Extends m m''
Extends-trans m m' m'' p q = (λ d k e. q.0 d k (p.0 d k e), λ d k e. q.1 d k (p.1 d k e))

get-remember :
    (t : Table ℕ) (c : ℕ) (o : Option ℕ)
    → get c t ≡ none
    → (d k : ℕ) → get d t ≡ some k
    → get d (remember c o t) ≡ some k
unfolding get
get-remember t c none h d k e = e
get-remember t c (some n) h d k e = elim (Bool-cases (c == d)) [
  | inl s ↦ let z : get d t ≡ none = subst (λ x. get x t ≡ none) (==→eq c d s) h in absurd (cc)
  | inr s ↦ rw s e
]

get-remember_self : (t : Table ℕ) (c k : ℕ) → get c (remember c (some k) t) ≡ some k
unfolding get
get-remember_self t c k = ground arith

module _ (g : Sizing) (c : ℕ) where
  pub dl-Extends : (m : Memo) → Extends m (dl g c m).1
  unfolding dl
  dl-Extends m = go (get c m.lc) refl
    where
      go : (o : Option ℕ) → get c m.lc ≡ o → Extends m (asked_lines g c m o).1
      go (some n) e = Extends-refl m
      go none e = (get-remember m.lc c _ e, λ d k h. h)

  pub db-Extends : (m : Memo) → Extends m (db g c m).1
  unfolding db
  db-Extends m = go (get c m.bc) refl
    where
      go : (o : Option ℕ) → get c m.bc ≡ o → Extends m (asked_bytes g c m o).1
      go (some n) e = Extends-refl m
      go none e = (λ d k h. h, get-remember m.bc c _ e)

  pub dl_again : (m : Memo) (n : ℕ) → get c m.lc ≡ some n → (dl g c m).0 ≡ some n
  unfolding dl
  dl_again m n e = rw e refl

  pub db_again : (m : Memo) (n : ℕ) → get c m.bc ≡ some n → (db g c m).0 ≡ some n
  unfolding db
  db_again m n e = rw e refl

  -- What a call returned is remembered; where it returned nothing, git failed.
  pub dl_stored : (m : Memo) (n : ℕ) → (dl g c m).0 ≡ some n → get c (dl g c m).1.lc ≡ some n
  unfolding dl
  dl_stored m n = go (get c m.lc) refl
    where
      fresh : (r : Option ℕ) → r ≡ some n → get c (remember c r m.lc) ≡ some n
      fresh none e = absurd (cc)
      fresh (some k) e = get-remember_self m.lc c k ∙ e

      go :
          (o : Option ℕ)
          → get c m.lc ≡ o
          → (asked_lines g c m o).0 ≡ some n
          → get c (asked_lines g c m o).1.lc ≡ some n
      go (some k) e h = e ∙ h
      go none e h = fresh _ h

  pub db_stored : (m : Memo) (n : ℕ) → (db g c m).0 ≡ some n → get c (db g c m).1.bc ≡ some n
  unfolding db
  db_stored m n = go (get c m.bc) refl
    where
      fresh : (r : Option ℕ) → r ≡ some n → get c (remember c r m.bc) ≡ some n
      fresh none e = absurd (cc)
      fresh (some k) e = get-remember_self m.bc c k ∙ e

      go :
          (o : Option ℕ)
          → get c m.bc ≡ o
          → (asked_bytes g c m o).0 ≡ some n
          → get c (asked_bytes g c m o).1.bc ≡ some n
      go (some k) e h = e ∙ h
      go none e h = fresh _ h

  pub dl-none : (m : Memo) → (dl g c m).0 ≡ none → (i : ℕ) × (diff_lines (g.numstat i c) ≡ none)
  unfolding dl
  dl-none m = go (get c m.lc)
    where
      go :
          (o : Option ℕ)
          → (asked_lines g c m o).0 ≡ none
          → (i : ℕ) × (diff_lines (g.numstat i c) ≡ none)
      go (some k) h = absurd (cc)
      go none h = (m.asked, h)

  pub db-none : (m : Memo) → (db g c m).0 ≡ none → (i : ℕ) × (diff_bytes (g.patch i c) ≡ none)
  unfolding db
  db-none m = go (get c m.bc)
    where
      go :
          (o : Option ℕ)
          → (asked_bytes g c m o).0 ≡ none
          → (i : ℕ) × (diff_bytes (g.patch i c) ≡ none)
      go (some k) h = absurd (cc)
      go none h = (m.asked, h)

module _ (g : Sizing) (l : Limits) (head : ℕ) where
  try-Extends :
      (c : ℕ) (best : Option (ℕ × ℕ × ℕ)) (m : Memo) → Extends m (try_commit g l c best m).1
  unfolding try_commit
  try-Extends c best m = go (dl g c m) (dl-Extends g c m)
    where
      pick :
          (b : Bool) (n : ℕ) (m' : Memo)
          → Extends m m'
          → Extends m
              (if◌then◌else◌ {A = Option (ℕ × ℕ × ℕ) × Memo} b
                (best, m')
                (try_bytes g l c n best (db g c m'))).1
      pick true n m' h = h
      pick false n m' h = Extends-trans m m' (db g c m').1 h (db-Extends g c m')

      go : (r : Option ℕ × Memo) → Extends m r.1 → Extends m (try_lines g l c best r).1
      go (none, m') h = h
      go (some n, m') h = pick (ltb l.max_lines n) n m' h

  pub walk-Extends :
      (cs : List ℕ) (r : Option (ℕ × ℕ × ℕ) × Memo) → Extends r.1 (walk g l head cs r).1
  unfolding walk
  walk-Extends [] r = Extends-refl r.1
  walk-Extends (c ∷ cs) r =
      Extends-trans r.1 (if c == head then r else try_commit g l c r.0 r.1).1
        (walk g l head (c ∷ cs) r).1 (step (c == head))
        (walk-Extends cs (if c == head then r else try_commit g l c r.0 r.1))
    where
      step : (b : Bool) → Extends r.1 (if b then r else try_commit g l c r.0 r.1).1
      step true = Extends-refl r.1
      step false = try-Extends c r.0 r.1

  try_none :
      (c : ℕ) (best : Option (ℕ × ℕ × ℕ)) (m : Memo)
      → (try_commit g l c best m).0 ≡ none
      → best ≡ none
  unfolding try_commit
  try_none c best m = go (dl g c m)
    where
      kept : (n : ℕ) (o : Option ℕ) → better l c n o best ≡ none → best ≡ none
      kept n none h = h
      kept n (some b) h = ground arith

      pick :
          (b : Bool) (n : ℕ) (m' : Memo)
          → (if◌then◌else◌ {A = Option (ℕ × ℕ × ℕ) × Memo} b
              (best, m')
              (try_bytes g l c n best (db g c m'))).0
            ≡ none
          → best ≡ none
      pick true n m' h = h
      pick false n m' h = kept n (db g c m').0 h

      go : (r : Option ℕ × Memo) → (try_lines g l c best r).0 ≡ none → best ≡ none
      go (none, m') h = h
      go (some n, m') h = pick (ltb l.max_lines n) n m' h

  -- A walk that ends with no prefix began with none.
  pub walk-none :
      (cs : List ℕ) (r : Option (ℕ × ℕ × ℕ) × Memo) → (walk g l head cs r).0 ≡ none → r.0 ≡ none
  unfolding walk
  walk-none [] r h = h
  walk-none (c ∷ cs) r h = step (c == head) (walk-none cs _ h)
    where
      step : (b : Bool) → (if b then r else try_commit g l c r.0 r.1).0 ≡ none → r.0 ≡ none
      step true h = h
      step false h = try_none c r.0 r.1 h
