-- ===== src/Knowledge/Corpus.antt =====
-- What an accepted knowledge_sync of src/runtime/ledger/postgres_store.py leaves in the index.
use myndaix_runtime.Prelude.{
  ℕ, ◌+◌, ◌≡◌, Bool, true, false, Option, none, some, List, [], ◌∷◌, ◌==◌, if◌then◌else◌, mem,
}
use myndaix_runtime.Knowledge.{
  Doc, DocRow, Knowledge, current, active_row, is_unchanged, Synced, insert_active, counted_insert,
  paths_seen,
}

module _ (oversize : Doc → Bool) (s : ℕ) where
  -- What a document should be recalled under: its digest, unless postgres cannot index it and has not
  -- indexed that digest before.
  abbrev pub wanted_doc : List DocRow → Doc → Option ℕ
  wanted_doc before d =
      if is_unchanged d (current s d.path before)
      then some d.content_sha
      else if oversize d
      then none
      else some d.content_sha

  -- What a path should be recalled under.
  unfoldable pub wanted : List DocRow → List Doc → ℕ → Option ℕ
  unfolding current
  wanted before [] p = none
  wanted before (d ∷ ds) p =
      let rest = wanted before ds p in if d.path == p then wanted_doc before d else rest

  -- No path stands twice.
  abbrev pub AreDistinct : List Doc → Type 0
  AreDistinct [] = Unit
  AreDistinct (d ∷ ds) = (mem d.path (paths_seen oversize s ds) ≡ false) × AreDistinct ds

  -- One document of the first loop.
  abbrev doc_step : List DocRow → Doc → Synced → Knowledge → Synced × Knowledge
  doc_step before d n k =
      if is_unchanged d (current s d.path before)
      then (record n { unchanged = n.unchanged + 1 }, k)
      else counted_insert oversize s d (active_row (current s d.path before)) n
          (insert_active oversize s d k)

  -- The remaining documents have not been touched.
  abbrev Untouched : List DocRow → List Doc → Knowledge → Type 0
  Untouched before ds k =
      (q : ℕ) → mem q (paths_seen oversize s ds) ≡ true → current s q k.rows ≡ current s q before
