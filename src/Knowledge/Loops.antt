-- ===== src/Knowledge/Loops.antt =====
-- What the two loops of knowledge_sync in src/runtime/ledger/postgres_store.py do to one path.
use myndaix_runtime.Prelude.{
  ℕ, ◌+◌, ◌≡◌, refl, ◌∙◌, Bool, true, false, not, ◌&&◌, Option, none, some, List, [], ◌∷◌, ◌==◌,
  if◌then◌else◌, mem, arith, ==→eq, Bool-cases, inl, inr,
}
use myndaix_runtime.Knowledge.{
  Doc, DocRow, Knowledge, current, paths_of, insert_doc, tombstone, active_row, is_unchanged,
  Synced, insert_active, counted_insert, sync_docs, paths_seen, drop_missing,
}

-- The digest under which a row can be recalled.
abbrev pub recalled : Option DocRow → Option ℕ
recalled none = none
recalled (some r) = if r.is_active then r.content_sha else none

module _ (oversize : Doc → Bool) (s : ℕ) where
  module _ (p : ℕ) where
    insert_doc-elsewhere :
        (d : Doc) (k : Knowledge)
        → (d.path == p) ≡ false
        → current s p (insert_doc s d k).rows ≡ current s p k.rows
    unfolding current insert_doc
    insert_doc-elsewhere d k e = ground (arith, e)

    tombstone-elsewhere :
        (q : ℕ) (k : Knowledge)
        → (q == p) ≡ false
        → current s p (tombstone s q k).rows ≡ current s p k.rows
    unfolding current tombstone
    tombstone-elsewhere q k e = ground (arith, e)

    pub tombstone-recalled : (k : Knowledge) → recalled (current s p (tombstone s p k).rows) ≡ none
    unfolding current tombstone
    tombstone-recalled k = ground arith

    pub counted-elsewhere :
        (d : Doc) (b : Bool) (n : Synced) (k : Knowledge)
        → (d.path == p) ≡ false
        → current s p (counted_insert oversize s d b n (insert_active oversize s d k)).1.rows
          ≡ current s p k.rows
    counted-elsewhere d b n k e = go (oversize d) b
      where
        go :
            (o b : Bool)
            → current s p
                (counted_insert oversize s d b n (
                  if◌then◌else◌ {A = Bool × Knowledge} o
                    (false, record k { next_seq = k.next_seq + 1 })
                    (true, insert_doc s d k))).1.rows
              ≡ current s p k.rows
        go false b = insert_doc-elsewhere d k e
        go true false = refl
        go true true = tombstone-elsewhere d.path (record k { next_seq = k.next_seq + 1 }) e

    pub sync_docs-elsewhere :
        (before : List DocRow) (ds : List Doc) (n : Synced) (k : Knowledge)
        → mem p (paths_seen oversize s ds) ≡ false
        → current s p (sync_docs oversize s before ds (n, k)).1.rows ≡ current s p k.rows
    unfolding sync_docs
    sync_docs-elsewhere before [] n k e = refl
    sync_docs-elsewhere before (d ∷ ds) n k e =
        go (is_unchanged d (current s d.path before))
          (λ m j. sync_docs-elsewhere before ds m j (ground (arith, e)))
      where
        apart : (d.path == p) ≡ false
        apart = ground (arith, e)

        go :
            (b : Bool)
            → ((m : Synced) (j : Knowledge)
                → current s p (sync_docs oversize s before ds (m, j)).1.rows ≡ current s p j.rows)
            → current s p
                (if b
                  then sync_docs oversize s before ds (record n { unchanged = n.unchanged + 1 }, k)
                  else sync_docs oversize s before ds (
                      counted_insert oversize s d
                        (active_row (current s d.path before))
                        n
                        (insert_active oversize s d k))).1.rows
              ≡ current s p k.rows
        go true rest = rest _ k
        go false rest =
            rest _ _ ∙ counted-elsewhere d (active_row (current s d.path before)) n k apart

    -- Dropping leaves alone what is seen or was not active.
    pub drop_missing-keeps :
        (before : List DocRow) (seen ps : List ℕ) (n : Synced) (k : Knowledge)
        → (active_row (current s p before) && not (mem p seen)) ≡ false
        → current s p (drop_missing oversize s before seen ps (n, k)).1.rows ≡ current s p k.rows
    unfolding drop_missing
    drop_missing-keeps before seen [] n k e = refl
    drop_missing-keeps before seen (q ∷ ps) n k e =
        go (active_row (current s q before) && not (mem q seen)) refl
          (λ m j. drop_missing-keeps before seen ps m j e)
      where
        apart : (active_row (current s q before) && not (mem q seen)) ≡ true → (q == p) ≡ false
        apart h = elim (Bool-cases (q == p)) [
          | inl i ↦
              let h' : (active_row (current s p before) && not (mem p seen)) ≡ true =
                rw (==→eq q p i) at h in
              absurd (cc)
          | inr i ↦ i
        ]

        go :
            (b : Bool)
            → (active_row (current s q before) && not (mem q seen)) ≡ b
            → ((m : Synced) (j : Knowledge)
                → current s p (drop_missing oversize s before seen ps (m, j)).1.rows
                  ≡ current s p j.rows)
            → current s p
                (if b
                  then drop_missing oversize s before seen ps
                      (record n { tombstoned = n.tombstoned + 1 }, tombstone s q k)
                  else drop_missing oversize s before seen ps (n, k)).1.rows
              ≡ current s p k.rows
        go true h rest = rest _ _ ∙ tombstone-elsewhere q k (apart h)
        go false h rest = rest n k

    tombstone-stays :
        (q : ℕ) (k : Knowledge)
        → recalled (current s p k.rows) ≡ none
        → recalled (current s p (tombstone s q k).rows) ≡ none
    unfolding current tombstone
    tombstone-stays q k e = ground (arith, e)

    drop_missing-stays :
        (before : List DocRow) (seen ps : List ℕ) (n : Synced) (k : Knowledge)
        → recalled (current s p k.rows) ≡ none
        → recalled (current s p (drop_missing oversize s before seen ps (n, k)).1.rows) ≡ none
    unfolding drop_missing
    drop_missing-stays before seen [] n k e = e
    drop_missing-stays before seen (q ∷ ps) n k e =
        go (active_row (current s q before) && not (mem q seen))
          (λ m j. drop_missing-stays before seen ps m j)
      where
        go :
            (b : Bool)
            → ((m : Synced) (j : Knowledge)
                → recalled (current s p j.rows) ≡ none
                → recalled (current s p (drop_missing oversize s before seen ps (m, j)).1.rows)
                  ≡ none)
            → recalled (
                current s p
                  (if b
                    then drop_missing oversize s before seen ps
                        (record n { tombstoned = n.tombstoned + 1 }, tombstone s q k)
                    else drop_missing oversize s before seen ps (n, k)).1.rows)
              ≡ none
        go true rest = rest _ _ (tombstone-stays q k e)
        go false rest = rest n k e

    pub drop_missing-drops :
        (before : List DocRow) (seen ps : List ℕ) (n : Synced) (k : Knowledge)
        → (active_row (current s p before) && not (mem p seen)) ≡ true
        → mem p ps ≡ true
        → recalled (current s p (drop_missing oversize s before seen ps (n, k)).1.rows) ≡ none
    unfolding drop_missing
    drop_missing-drops before seen [] n k e h = absurd (cc)
    drop_missing-drops before seen (q ∷ ps) n k e h = elim (Bool-cases (q == p)) [
      | inl i ↦
          let z : q ≡ p = ==→eq q p i in
          rw (z, e)
            (drop_missing-stays before seen ps (record n { tombstoned = n.tombstoned + 1 })
              (tombstone s p k) (tombstone-recalled k))
      | inr i ↦
          go (active_row (current s q before) && not (mem q seen))
            (λ m j. drop_missing-drops before seen ps m j e (ground (arith, h, i)))
    ]
      where
        go :
            (b : Bool)
            → ((m : Synced) (j : Knowledge)
                → recalled (current s p (drop_missing oversize s before seen ps (m, j)).1.rows)
                  ≡ none)
            → recalled (
                current s p
                  (if b
                    then drop_missing oversize s before seen ps
                        (record n { tombstoned = n.tombstoned + 1 }, tombstone s q k)
                    else drop_missing oversize s before seen ps (n, k)).1.rows)
              ≡ none
        go true rest = rest _ _
        go false rest = rest n k

    pub current-path :
        (rows : List DocRow) → active_row (current s p rows) ≡ true → mem p (paths_of s rows) ≡ true
    unfolding current paths_of
    current-path [] e = absurd (cc)
    current-path (r ∷ rs) e = ground (arith, current-path rs, e)
