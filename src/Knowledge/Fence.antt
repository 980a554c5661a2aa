-- ===== src/Knowledge/Fence.antt =====
-- The fence of the walks: a walk whose commit another writer has overtaken is turned away.
use myndaix_runtime.Prelude.{
  ℕ, ◌+◌, ◌≤◌, ◌<◌, ◌≡◌, refl, Bool, true, false, not, ◌&&◌, Option, some, List, [], ◌∷◌, ◌==◌,
  if◌then◌else◌, mem, arith, ==→eq,
}
use myndaix_runtime.Knowledge.{
  Doc, DocRow, Knowledge, max_seq, knowledge_fence, bump_gen, current, paths_of, insert_doc,
  tombstone, active_row, is_unchanged, Synced, nothing_yet, conflicting, is_stale, insert_active,
  counted_insert, sync_docs, paths_seen, drop_missing, sync_accepted, knowledge_sync, drop_all,
  insert_all, knowledge_rebuild,
}

pub data Call : Type 0 where
  syncs : ℕ → List Doc → Bool → Option ℕ → Call
  rebuilds : ℕ → List Doc → Option ℕ → Call

-- A call on the scope that is not turned away.
abbrev pub accepted_on : ℕ → Call → Knowledge → Bool
accepted_on s (syncs t docs missing expect) k = t == s && not (is_stale t expect k)
accepted_on s (rebuilds t docs expect) k = t == s && not (is_stale t expect k)

module _ (oversize : Doc → Bool) where
  unfoldable pub call : Call → Knowledge → Knowledge
  call (syncs t docs missing expect) k = (knowledge_sync oversize t docs missing expect k).1
  call (rebuilds t docs expect) k = (knowledge_rebuild oversize t docs expect k).1

  unfoldable pub run : List Call → Knowledge → Knowledge
  unfolding call
  run [] k = k
  run (c ∷ cs) k = run cs (call c k)

  module _ (s : ℕ) where
    insert_doc_fence :
        (t : ℕ) (d : Doc) (k : Knowledge)
        → knowledge_fence s k ≤ knowledge_fence s (insert_doc t d k)
    unfolding knowledge_fence insert_doc max_seq
    insert_doc_fence t d k = ground arith

    tombstone_fence :
        (t p : ℕ) (k : Knowledge) → knowledge_fence s k ≤ knowledge_fence s (tombstone t p k)
    unfolding knowledge_fence tombstone max_seq
    tombstone_fence t p k = ground arith

    spent_fence :
        (k : Knowledge)
        → knowledge_fence s k ≤ knowledge_fence s (record k { next_seq = k.next_seq + 1 })
    unfolding knowledge_fence
    spent_fence k = omega arith

    counted_fence :
        (t : ℕ) (d : Doc) (b : Bool) (n : Synced) (k : Knowledge)
        → knowledge_fence s k
          ≤ knowledge_fence s (counted_insert oversize t d b n (insert_active oversize t d k)).1
    counted_fence t d b n k = go (oversize d) b
      where
        go :
            (o b : Bool)
            → knowledge_fence s k
              ≤ knowledge_fence s
                  (counted_insert oversize t d b n (
                    if◌then◌else◌ {A = Bool × Knowledge} o
                      (false, record k { next_seq = k.next_seq + 1 })
                      (true, insert_doc t d k))).1
        go false b = insert_doc_fence t d k
        go true false = spent_fence k
        go true true = omega (
          arith,
          spent_fence k,
          tombstone_fence t d.path (record k { next_seq = k.next_seq + 1 }),
        )

    sync_docs_fence :
        (t : ℕ) (before : List DocRow) (ds : List Doc) (n : Synced) (k : Knowledge)
        → knowledge_fence s k ≤ knowledge_fence s (sync_docs oversize t before ds (n, k)).1
    unfolding sync_docs
    sync_docs_fence t before [] n k = omega arith
    sync_docs_fence t before (d ∷ ds) n k =
        go (is_unchanged d (current t d.path before)) (λ m j. sync_docs_fence t before ds m j)
      where
        step : Synced × Knowledge
        step =
            counted_insert oversize t d (active_row (current t d.path before)) n
              (insert_active oversize t d k)

        go :
            (b : Bool)
            → ((m : Synced) (j : Knowledge)
                → knowledge_fence s j ≤ knowledge_fence s (sync_docs oversize t before ds (m, j)).1)
            → knowledge_fence s k
              ≤ knowledge_fence s
                  (if b
                    then sync_docs oversize t before ds
                        (record n { unchanged = n.unchanged + 1 }, k)
                    else sync_docs oversize t before ds (
                        counted_insert oversize t d
                          (active_row (current t d.path before))
                          n
                          (insert_active oversize t d k))).1
        go true rest = rest _ k
        go false rest = omega (
          arith,
          counted_fence t d (active_row (current t d.path before)) n k,
          rest step.0 step.1,
        )

    dropped_fence :
        (t : ℕ) (b : Bool) (p : ℕ) (n : Synced) (k : Knowledge)
        (f : Synced × Knowledge → Synced × Knowledge)
        → ((m : Synced) (j : Knowledge) → knowledge_fence s j ≤ knowledge_fence s (f (m, j)).1)
        → knowledge_fence s k
          ≤ knowledge_fence s
              (if b
                then f (record n { tombstoned = n.tombstoned + 1 }, tombstone t p k)
                else f (n, k)).1
    dropped_fence t true p n k f rest = omega (
      arith,
      tombstone_fence t p k,
      rest (record n { tombstoned = n.tombstoned + 1 }) (tombstone t p k),
    )
    dropped_fence t false p n k f rest = rest n k

    drop_missing_fence :
        (t : ℕ) (before : List DocRow) (seen ps : List ℕ) (n : Synced) (k : Knowledge)
        → knowledge_fence s k ≤ knowledge_fence s (drop_missing oversize t before seen ps (n, k)).1
    unfolding drop_missing
    drop_missing_fence t before seen [] n k = omega arith
    drop_missing_fence t before seen (p ∷ ps) n k =
        dropped_fence t (active_row (current t p before) && not (mem p seen)) p n k
          (drop_missing oversize t before seen ps) (drop_missing_fence t before seen ps)

    drop_all_fence :
        (t : ℕ) (before : List DocRow) (ps : List ℕ) (n : Synced) (k : Knowledge)
        → knowledge_fence s k ≤ knowledge_fence s (drop_all oversize t before ps (n, k)).1
    unfolding drop_all
    drop_all_fence t before [] n k = omega arith
    drop_all_fence t before (p ∷ ps) n k =
        dropped_fence t (active_row (current t p before)) p n k (drop_all oversize t before ps)
          (drop_all_fence t before ps)

    insert_all_fence :
        (t : ℕ) (ds : List Doc) (n : Synced) (k : Knowledge)
        → knowledge_fence s k ≤ knowledge_fence s (insert_all oversize t ds (n, k)).1
    unfolding insert_all
    insert_all_fence t [] n k = omega arith
    insert_all_fence t (d ∷ ds) n k =
        let x = counted_insert oversize t d false n (insert_active oversize t d k) in
        omega (arith, counted_fence t d false n k, insert_all_fence t ds x.0 x.1)

    bump_gen_fence :
        (t : ℕ) (k : Knowledge) → knowledge_fence s k ≤ knowledge_fence s (bump_gen t k)
    unfolding knowledge_fence bump_gen
    bump_gen_fence t k = ground arith

    bump_gen-moves : (k : Knowledge) → knowledge_fence s k < knowledge_fence s (bump_gen s k)
    unfolding knowledge_fence bump_gen
    bump_gen-moves k = ground arith

    sync_accepted_fence :
        (t : ℕ) (docs : List Doc) (missing : Bool) (before : List DocRow) (k : Knowledge)
        → knowledge_fence s k ≤ knowledge_fence s (sync_accepted oversize t docs missing before k).1
    sync_accepted_fence t docs missing before k = go missing
      where
        x : Synced × Knowledge
        x = sync_docs oversize t before docs (nothing_yet, k)

        go :
            (b : Bool)
            → knowledge_fence s k
              ≤ knowledge_fence s
                  (if b
                    then drop_missing oversize t before
                        (paths_seen oversize t docs)
                        (paths_of t before)
                        (sync_docs oversize t before docs (nothing_yet, k))
                    else sync_docs oversize t before docs (nothing_yet, k)).1
        go true = omega (
          arith,
          sync_docs_fence t before docs nothing_yet k,
          drop_missing_fence t before (paths_seen oversize t docs) (paths_of t before) x.0 x.1,
        )
        go false = sync_docs_fence t before docs nothing_yet k

    rebuilt_fence :
        (t : ℕ) (docs : List Doc) (before : List DocRow) (k : Knowledge)
        → knowledge_fence s k
          ≤ knowledge_fence s
              (insert_all oversize t docs
                (drop_all oversize t before (paths_of t before) (nothing_yet, k))).1
    rebuilt_fence t docs before k =
        let x = drop_all oversize t before (paths_of t before) (nothing_yet, k) in
        omega (
          arith,
          drop_all_fence t before (paths_of t before) nothing_yet k,
          insert_all_fence t docs x.0 x.1,
        )

    -- What an accepted commit leaves, after the bump of its scope.
    abbrev committed : Call → Knowledge → Knowledge
    committed (syncs t docs missing expect) k =
        (sync_accepted oversize t docs missing k.rows (bump_gen t k)).1
    committed (rebuilds t docs expect) k =
        (insert_all oversize t docs
          (drop_all oversize t k.rows (paths_of t k.rows) (nothing_yet, bump_gen t k))).1

    abbrev scope_of : Call → ℕ
    scope_of (syncs t docs missing expect) = t
    scope_of (rebuilds t docs expect) = t

    committed_fence :
        (c : Call) (k : Knowledge)
        → knowledge_fence s (bump_gen (scope_of c) k) ≤ knowledge_fence s (committed c k)
    committed_fence (syncs t docs missing expect) k =
        sync_accepted_fence t docs missing k.rows (bump_gen t k)
    committed_fence (rebuilds t docs expect) k = rebuilt_fence t docs k.rows (bump_gen t k)

    if_stale :
        (b : Bool) (k : Knowledge) (x : Synced × Knowledge)
        → (if b then (conflicting, k) else x).1 ≡ (if b then k else x.1)
    if_stale true k x = refl
    if_stale false k x = refl

    abbrev stale_call : Call → Knowledge → Bool
    stale_call (syncs t docs missing expect) k = is_stale t expect k
    stale_call (rebuilds t docs expect) k = is_stale t expect k

    call-cases :
        (c : Call) (k : Knowledge) → call c k ≡ (if stale_call c k then k else committed c k)
    unfolding call knowledge_sync knowledge_rebuild
    call-cases (syncs t docs missing expect) k = if_stale (is_stale t expect k) k _
    call-cases (rebuilds t docs expect) k = if_stale (is_stale t expect k) k _

    call_fence : (c : Call) (k : Knowledge) → knowledge_fence s k ≤ knowledge_fence s (call c k)
    call_fence c k = rw (call-cases c k) (go (stale_call c k))
      where
        go : (b : Bool) → knowledge_fence s k ≤ knowledge_fence s (if b then k else committed c k)
        go true = omega arith
        go false = omega (arith, bump_gen_fence (scope_of c) k, committed_fence c k)

    accepted-cases :
        (c : Call) (k : Knowledge)
        → accepted_on s c k ≡ true
        → (scope_of c ≡ s) × (stale_call c k ≡ false)
    accepted-cases (syncs t docs missing expect) k e =
        (==→eq t s (ground (arith, e)), ground (arith, e))
    accepted-cases (rebuilds t docs expect) k e = (==→eq t s (ground (arith, e)), ground (arith, e))

    -- Every commit that is accepted moves the fence of its scope up, one that writes no row too.
    pub accepted_moves_fence :
        (c : Call) (k : Knowledge)
        → accepted_on s c k ≡ true
        → knowledge_fence s k < knowledge_fence s (call c k)
    accepted_moves_fence c k e =
        let (t, n) = accepted-cases c k e in
        let b : knowledge_fence s k < knowledge_fence s (bump_gen (scope_of c) k) =
          rw t (bump_gen-moves k) in
        rw (call-cases c k, n) (omega (arith, b, committed_fence c k))

    run_fence :
        (cs : List Call) (k : Knowledge) → knowledge_fence s k ≤ knowledge_fence s (run cs k)
    unfolding run
    run_fence [] k = omega arith
    run_fence (c ∷ cs) k = omega (arith, call_fence c k, run_fence cs (call c k))

    moved_is_stale :
        (fence : ℕ) (k : Knowledge) → fence < knowledge_fence s k → is_stale s (some fence) k ≡ true
    unfolding is_stale
    moved_is_stale fence k h = ground (arith, h)

    -- A walk is stamped with the fence of its scope before it starts. If any commit on the scope is
    -- accepted before the walk's own, among any other calls, then both a sync and a rebuild with the
    -- stamp answer a conflict and write nothing: a stale walk never brings a deleted document back.
    pub stale_walk_is_rejected :
        (k : Knowledge) (earlier later : List Call) (c : Call) (docs : List Doc) (missing : Bool)
        → accepted_on s c (run earlier k) ≡ true
        → let fence = knowledge_fence s k in
          let now = run later (call c (run earlier k)) in
          (knowledge_sync oversize s docs missing (some fence) now ≡ (conflicting, now))
          × (knowledge_rebuild oversize s docs (some fence) now ≡ (conflicting, now))
    unfolding knowledge_sync knowledge_rebuild
    stale_walk_is_rejected k earlier later c docs missing e =
        let stale = moved_is_stale (knowledge_fence s k) (run later (call c (run earlier k))) (
          omega (
            arith,
            run_fence earlier k,
            accepted_moves_fence c (run earlier k) e,
            run_fence later (call c (run earlier k)),
          )) in
        (rw stale refl, rw stale refl)
