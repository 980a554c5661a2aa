-- ===== src/Controller/Tick.antt =====
-- tick of src/runtime/controller.py: one pass over the watched repositories.
pub mod Bounds
use myndaix_runtime.Prelude.{ℕ, Bool, not, ◌&&◌, ◌||◌, List, [], ◌∷◌, if◌then◌else◌}
use myndaix_runtime.Controller.Site.{Settings, Outside, Site}
use myndaix_runtime.Controller.Repo.{process_repo}

-- The counter file of the day and the dispatches of this tick are shared.
pub record Shared : Type 0 where
  pub day : ℕ
  pub budget : ℕ

abbrev pub entering : Shared → Site → Site
entering g s = record s { day = g.day; budget = g.budget }

module _ (c : Settings) where
  unfoldable pub run_repos : List (Outside × Site) → Shared → List Site × Shared
  run_repos [] g = ([], g)
  run_repos ((o, s) ∷ rest) g =
      let s' = process_repo c o (entering g s) in
      let r = run_repos rest (record { day = s'.day; budget = s'.budget }) in (s' ∷ r.0, r.1)

  abbrev pub sites_of : List (Outside × Site) → List Site
  sites_of [] = []
  sites_of ((o, s) ∷ rest) = s ∷ sites_of rest

  -- `locked` is whether the lock was taken, `migrated` whether migrate() returned.
  unfoldable pub tick : Bool → Bool → List (Outside × Site) → ℕ → List Site × Shared
  unfolding run_repos
  tick locked migrated repos day =
      if not locked || (not c.dry_run && not migrated)
      then (sites_of repos, record { day = day; budget = 0 })
      else run_repos repos (record { day = day; budget = 0 })
