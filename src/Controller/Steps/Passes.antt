-- ===== src/Controller/Steps/Passes.antt =====
-- The passes of process_repo in src/runtime/controller.py over a pending head only make moves.
use myndaix_runtime.Prelude.{
  ℕ, ◌+◌, ◌≡◌, refl, ap, Bool, true, false, not, Option, none, some, ◌∷◌, mem, ◌==◌, if◌then◌else◌,
}
use myndaix_runtime.Cursor.Review.{ReviewCursor, forgive_transient, advance_cursor}
use myndaix_runtime.Controller.Site.{
  Settings, Outside, Site, going, after, Alert, canary_failures, Ran, zero_exit, nonzero_exit,
  raised, Part, in_passes, streak_bump, streak_reset, advance_pin, done_landed, consume_marker,
  advancing, read_count, written, removed, alert_jefe, bump_transient, try_forgive_transient,
  forgiven,
}
use myndaix_runtime.Controller.Repo.{
  delivered, pinned_advance, advance_pending, advance_pass, pending_of, forgive_pending,
  transient_pass,
}
use myndaix_runtime.Controller.Steps.{
  Step, Steps, counts, alerts, transient_lands, done_lands, delivers, forgives, here, next,
}

abbrev pub Moves : Settings → Outside → Site → Site → Type 0
Moves c o = Steps c o

pub one : {c : Settings} {o : Outside} {s t : Site} → Step c o s t → Steps c o s t
one {t = t} st = next st (here t)

pub chain :
    {c : Settings} {o : Outside} {s t u : Site} → Steps c o s t → Steps c o t u → Steps c o s u
chain (here s) q = q
chain (next st p) q = next st (chain p q)

module _ (c : Settings) (o : Outside) where
  pub alert-Moves : (part : Part) (a : Alert) (s : Site) → Moves c o s (alert_jefe o part a s).1
  unfolding alert_jefe
  alert-Moves part a s = go (o.alert_writes part a) refl
    where
      go :
          (b : Bool)
          → o.alert_writes part a ≡ b
          → Moves c o s
              (if◌then◌else◌ {A = Bool × Site} b
                (true, record s { alerts = a ∷ s.alerts })
                (false, s)).1
      go true e = one (alerts s part a e)
      go false e = here s

  pub advance-Moves : (s : Site) → Moves c o s (after (advance_pass c o s) (λ s. s))
  unfolding advance_pass
  advance-Moves s = go (pending_of c o s.row)
    where
      row-Moves :
          (ps : ℕ) (r : Bool × Option ReviewCursor)
          → r ≡ advance_cursor ps (o.now advancing) s.row
          → mem ps s.done ≡ true
          → o.pin advance_pin ps ≡ zero_exit
          → Moves c o s (delivered c o ps s r)
      row-Moves ps (true, row) e d p =
          one (delivers s ps (written o streak_reset 0 s.streak) row (ap (λ r. r.1) e) d p)
      row-Moves ps (false, row) e d p = one (delivers s ps s.streak row (ap (λ r. r.1) e) d p)

      pin_moves :
          (ps : ℕ) (r : Ran)
          → mem ps s.done ≡ true
          → o.pin advance_pin ps ≡ r
          → Moves c o s (after (pinned_advance c o ps s r) (λ s. s))
      pin_moves ps zero_exit d e = row-Moves ps _ refl d e
      pin_moves ps nonzero_exit d e = here s
      pin_moves ps raised d e = here s

      done_moves :
          (ps : ℕ) (b : Bool)
          → mem ps s.done ≡ b
          → Moves c o s (
              after
                (if b then pinned_advance c o ps s (o.pin advance_pin ps) else going s)
                (λ s. s))
      done_moves ps true d = pin_moves ps (o.pin advance_pin ps) d refl
      done_moves ps false d = here s

      go : (p : Option ℕ) → Moves c o s (after (advance_pending c o p s) (λ s. s))
      go none = here s
      go (some ps) = done_moves ps (mem ps s.done) refl

  bump-Moves : (part : Part) (s : Site) → Moves c o s (bump_transient c o part s)
  unfolding bump_transient
  bump-Moves part s = go (read_count o (streak_bump part) s.streak + 1 == c.transient_alert_streak)
    where
      s' : Site
      s' = record s {
        streak =
            written o (streak_bump part) (read_count o (streak_bump part) s.streak + 1) s.streak;
      }

      noted : Moves c o s s'
      noted = one (
          counts s
            (written o (streak_bump part) (read_count o (streak_bump part) s.streak + 1) s.streak)
            s.defer_streak)

      go : (b : Bool) → Moves c o s (if b then (alert_jefe o part canary_failures s').1 else s')
      go true = chain noted (alert-Moves part canary_failures s')
      go false = noted

  consume-Moves : (part : Part) (sha : ℕ) (s : Site) → Moves c o s (consume_marker c o part sha s).1
  unfolding consume_marker
  consume-Moves part sha s = go (mem sha s.transient) (o.unlinks part sha) refl refl
    where
      s' : Site
      s' = record s { transient = removed sha s.transient }

      row-Moves :
          (r : Bool × Option ReviewCursor)
          → r ≡ forgive_transient sha s.row
          → mem sha s.transient ≡ true
          → o.unlinks part sha ≡ true
          → Moves c o s (forgiven c o part s' r).1
      row-Moves (true, row) e m u =
          chain (one (forgives s part sha row (ap (λ r. r.1) e) m u))
            (bump-Moves part (record s' { row = row }))
      row-Moves (false, row) e m u = one (forgives s part sha row (ap (λ r. r.1) e) m u)

      go :
          (b u : Bool)
          → mem sha s.transient ≡ b
          → o.unlinks part sha ≡ u
          → Moves c o s
              (if◌then◌else◌ {A = Bool × Site}
                (not b)
                (false, s)
                (if◌then◌else◌ {A = Bool × Site}
                  (not u)
                  (false, s)
                  (forgiven c o part s' (forgive_transient sha s.row)))).1
      go false u m k = here s
      go true false m k = here s
      go true true m k = row-Moves (forgive_transient sha s.row) refl m k

  pub forgive-Moves :
      (part : Part) (sha : ℕ) (s : Site) → Moves c o s (try_forgive_transient c o part sha s).1
  unfolding try_forgive_transient
  forgive-Moves part sha s = go (o.transient_since part sha) refl
    where
      go :
          (b : Bool)
          → o.transient_since part sha ≡ b
          → Moves c o s
              (consume_marker c o part sha
                (if b then record s { transient = sha ∷ s.transient } else s)).1
      go true e =
          chain (one (transient_lands s part sha e))
            (consume-Moves part sha (record s { transient = sha ∷ s.transient }))
      go false e = consume-Moves part sha s

  pub transient-Moves : (s : Site) → Moves c o s (transient_pass c o s)
  unfolding transient_pass
  transient-Moves s = go (pending_of c o s.row)
    where
      pick :
          (ps : ℕ) (t : Site) (b : Bool)
          → Moves c o t (if b then t else (try_forgive_transient c o in_passes ps t).1)
      pick ps t true = here t
      pick ps t false = forgive-Moves in_passes ps t

      landed :
          (ps : ℕ) (b : Bool)
          → o.done_since ps ≡ b
          → Moves c o s (if b then record s { done = ps ∷ s.done } else s)
      landed ps true e = one (done_lands s ps e)
      landed ps false e = here s

      go : (p : Option ℕ) → Moves c o s (forgive_pending c o p s)
      go none = here s
      go (some ps) =
          let t = done_landed o ps s in
          chain (landed ps (o.done_since ps) refl) (pick ps t (mem ps t.done))
