-- ===== src/Controller/Tick/Bounds.antt =====
-- How many reviews a tick of src/runtime/controller.py starts.
use myndaix_runtime.Prelude.{
  ℕ, ◌+◌, ◌≤◌, ◌≡◌, refl, ◌⊎◌, inl, inr, Bool, true, false, not, ◌&&◌, ◌||◌, List, [], ◌∷◌, length,
  if◌then◌else◌, arith,
}
use myndaix_runtime.Controller.Site.{Settings, Outside, Site, day_gate}
use myndaix_runtime.Controller.Repo.{process_repo}
use myndaix_runtime.Controller.Steps.Laws.{process_repo-IsBounded}
use myndaix_runtime.Controller.Tick.{Shared, entering, run_repos, sites_of, tick}

-- All reviews that were ever started.
abbrev pub all_triggered : List Site → ℕ
all_triggered [] = 0
all_triggered (s ∷ rest) = length s.triggered + all_triggered rest

-- Whether some repository finds the counter of the day unreadable when it is compared with the limit.
abbrev pub misses : List (Outside × Site) → Bool
misses [] = false
misses ((o, s) ∷ rest) = not (o.state_reads day_gate) || misses rest

-- The counter of the day is at most what it was, or the limit, or was unreadable.
abbrev pub IsLow : ℕ → ℕ → Bool → ℕ → Type 0
IsLow day m b d = (d ≤ day) ⊎ ((d ≤ m) ⊎ (b ≡ true))

still-IsLow :
    (d d' y m : ℕ) (b r : Bool)
    → (d' ≤ d) ⊎ ((d' ≤ m) ⊎ (r ≡ false))
    → IsLow y m b d
    → IsLow y m (b || not r) d'
still-IsLow d d' y m b r (inl p) (inl q) = inl (omega arith)
still-IsLow d d' y m b r (inl p) (inr (inl q)) = inr (inl (omega arith))
still-IsLow d d' y m b r (inl p) (inr (inr q)) = inr (inr (ground arith))
still-IsLow d d' y m b r (inr (inl p)) k = inr (inl p)
still-IsLow d d' y m b r (inr (inr e)) k = inr (inr (ground arith))

regrouped :
    (d y m : ℕ) (b r k : Bool) → IsLow y m ((b || not r) || k) d → IsLow y m (b || (not r || k)) d
regrouped d y m b r k (inl p) = inl p
regrouped d y m b r k (inr (inl p)) = inr (inl p)
regrouped d y m b r k (inr (inr e)) = inr (inr (ground arith))

module _ (c : Settings) where
  abbrev TickBound : ℕ → Bool → Shared → List Site → List Site × Shared → Type 0
  TickBound day b g before r =
      (r.1.budget ≤ c.max_dispatch_per_tick)
      × IsLow day c.max_dispatch_per_day b r.1.day
      × (all_triggered r.0 + g.budget ≡ all_triggered before + r.1.budget)

  idle-IsLow : (d y m : ℕ) (b : Bool) → IsLow y m b d → IsLow y m (b || false) d
  idle-IsLow d y m b (inl p) = inl p
  idle-IsLow d y m b (inr (inl p)) = inr (inl p)
  idle-IsLow d y m b (inr (inr e)) = inr (inr (ground arith))

  run_repos_bounded :
      (repos : List (Outside × Site)) (g : Shared) (day : ℕ) (b : Bool)
      → g.budget ≤ c.max_dispatch_per_tick
      → IsLow day c.max_dispatch_per_day b g.day
      → TickBound day (b || misses repos) g (sites_of c repos) (run_repos c repos g)
  unfolding run_repos
  run_repos_bounded [] g day b h y = (h, idle-IsLow g.day day c.max_dispatch_per_day b y, refl)
  run_repos_bounded ((o, s) ∷ rest) g day b h y =
      let k = process_repo-IsBounded c o (entering g s) h in
      let s' = process_repo c o (entering g s) in
      let r =
        run_repos_bounded rest (record { day = s'.day; budget = s'.budget }) day
          (b || not (o.state_reads day_gate)) k.0
          (still-IsLow g.day s'.day day c.max_dispatch_per_day b (o.state_reads day_gate) k.1 y) in
      (
        r.0,
        regrouped _ day c.max_dispatch_per_day b (o.state_reads day_gate) (misses rest) r.1,
        omega (arith, k.2, r.2),
      )

  -- One tick starts at most MAX_DISPATCH_PER_TICK reviews over all repositories, and its budget counts
  -- them. The counter of the day rises to at most MAX_DISPATCH_PER_DAY, unless the counter file could
  -- not be read when some repository compared it with the limit, since it then counts as 0. A tick
  -- without the lock or the schema starts none.
  pub tick_bounded :
      (locked migrated : Bool) (repos : List (Outside × Site)) (day : ℕ)
      → ((tick c locked migrated repos day).1.budget ≤ c.max_dispatch_per_tick)
        × (((tick c locked migrated repos day).1.day ≤ day)
            ⊎ (((tick c locked migrated repos day).1.day ≤ c.max_dispatch_per_day)
                ⊎ (misses repos ≡ true)))
        × (all_triggered (tick c locked migrated repos day).0
            ≡ all_triggered (sites_of c repos) + (tick c locked migrated repos day).1.budget)
        × (((locked && (c.dry_run || migrated)) ≡ true)
            ⊎ (all_triggered (tick c locked migrated repos day).0
                ≡ all_triggered (sites_of c repos)))
  unfolding tick
  tick_bounded locked migrated repos day = go (not locked || (not c.dry_run && not migrated)) refl
    where
      run :
          TickBound day
            (misses repos)
            (record { day = day; budget = 0 })
            (sites_of c repos)
            (run_repos c repos (record { day = day; budget = 0 }))
      run =
          run_repos_bounded repos (record { day = day; budget = 0 }) day false (omega arith)
            (inl (omega arith))

      go :
          (b : Bool)
          → (not locked || (not c.dry_run && not migrated)) ≡ b
          → let r =
              if◌then◌else◌ {A = List Site × Shared} b
                (sites_of c repos, record { day = day; budget = 0 })
                (run_repos c repos (record { day = day; budget = 0 })) in
            (r.1.budget ≤ c.max_dispatch_per_tick)
            × ((r.1.day ≤ day) ⊎ ((r.1.day ≤ c.max_dispatch_per_day) ⊎ (misses repos ≡ true)))
            × (all_triggered r.0 ≡ all_triggered (sites_of c repos) + r.1.budget)
            × (((locked && (c.dry_run || migrated)) ≡ true)
                ⊎ (all_triggered r.0 ≡ all_triggered (sites_of c repos)))
      go true e = (omega arith, inl (omega arith), omega arith, inr refl)
      go false e = (run.0, run.1, omega (arith, run.2), inl (ground arith))
