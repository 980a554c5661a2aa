-- ===== src/Knowledge.antt =====
-- The derived index of documents: knowledge_fence, knowledge_sync and knowledge_rebuild of
-- src/runtime/ledger/postgres_store.py, on the append-only table knowledge_doc and the counters of
-- knowledge_scope_gen. The rows stand with the newest first; a scope, a path and a digest are numbers,
-- and the digest of a tombstone is none. Which documents postgres cannot index is a parameter.
pub mod Fence
pub mod Loops
pub mod Corpus
use myndaix_runtime.Prelude.{
  ℕ, ◌+◌, Bool, true, false, not, ◌&&◌, ◌||◌, Option, none, some, List, [], ◌∷◌, ◌++◌, ◌==◌,
  if◌then◌else◌, mem,
}
use myndaix_runtime.Pool.{max}

-- knowledge.DocRecord; `content` is its title, tags, date, body and whether it is lossy.
pub record Doc : Type 0 where
  pub path : ℕ
  pub content_sha : ℕ
  pub content : ℕ

pub record DocRow : Type 0 where
  pub seq : ℕ
  pub scope : ℕ
  pub path : ℕ
  pub content : ℕ
  pub content_sha : Option ℕ
  pub is_active : Bool

-- The table, the sequence of its seq, and the generations; a scope without one has 0.
pub record Knowledge : Type 0 where
  pub next_seq : ℕ
  pub rows : List DocRow
  pub gen : ℕ → ℕ

-- COALESCE(MAX(seq), 0) … WHERE scope = $1
unfoldable pub max_seq : ℕ → List DocRow → ℕ
max_seq s [] = 0
max_seq s (r ∷ rs) = let rest = max_seq s rs in if r.scope == s then max r.seq rest else rest

unfoldable pub knowledge_fence : ℕ → Knowledge → ℕ
unfolding max_seq
knowledge_fence s k = k.gen s + max_seq s k.rows

-- _KNOWLEDGE_GEN_BUMP_SQL
unfoldable pub bump_gen : ℕ → Knowledge → Knowledge
bump_gen s k = record k { gen = λ t. if t == s then k.gen t + 1 else k.gen t }

-- The view knowledge_doc_current.
unfoldable pub current : ℕ → ℕ → List DocRow → Option DocRow
current s p [] = none
current s p (r ∷ rs) =
    let rest = current s p rs in if r.scope == s && r.path == p then some r else rest

-- The paths of a scope, each once.
unfoldable pub paths_of : ℕ → List DocRow → List ℕ
paths_of s [] = []
paths_of s (r ∷ rs) =
    let rest = paths_of s rs in
    if r.scope == s && not (mem r.path rest) then r.path ∷ rest else rest

-- INSERT; a seq is spent even if the row is rolled back.
unfoldable pub insert_doc : ℕ → Doc → Knowledge → Knowledge
insert_doc s d k = record k {
  next_seq = k.next_seq + 1;
  rows =
      record {
        seq = k.next_seq;
        scope = s;
        path = d.path;
        content = d.content;
        content_sha = some d.content_sha;
        is_active = true;
      }
      ∷ k.rows;
}

unfoldable pub tombstone : ℕ → ℕ → Knowledge → Knowledge
tombstone s p k = record k {
  next_seq = k.next_seq + 1;
  rows =
      record {
        seq = k.next_seq;
        scope = s;
        path = p;
        content = 0;
        content_sha = none;
        is_active = false;
      }
      ∷ k.rows;
}

abbrev pub active_row : Option DocRow → Bool
active_row none = false
active_row (some r) = r.is_active

abbrev pub has_sha : ℕ → Option ℕ → Bool
has_sha h none = false
has_sha h (some g) = g == h

-- prev == (d["content_sha"], "active")
abbrev pub is_unchanged : Doc → Option DocRow → Bool
is_unchanged d none = false
is_unchanged d (some r) = r.is_active && has_sha d.content_sha r.content_sha

-- What the verbs answer.
pub record Synced : Type 0 where
  pub conflict : Bool
  pub inserted : ℕ
  pub tombstoned : ℕ
  pub unchanged : ℕ
  pub skipped_oversize : List ℕ

abbrev pub nothing_yet : Synced
nothing_yet = record {
  conflict = false;
  inserted = 0;
  tombstoned = 0;
  unchanged = 0;
  skipped_oversize = [];
}

abbrev pub conflicting : Synced
conflicting = record nothing_yet { conflict = true }

-- expect_fence is given and the fence has moved.
unfoldable pub is_stale : ℕ → Option ℕ → Knowledge → Bool
unfolding knowledge_fence
is_stale s none k = false
is_stale s (some fence) k = not (knowledge_fence s k == fence)

module _ (oversize : Doc → Bool) (s : ℕ) where
  -- _insert_active_knowledge_doc
  abbrev pub insert_active : Doc → Knowledge → Bool × Knowledge
  insert_active d k =
      if oversize d
      then (false, record k { next_seq = k.next_seq + 1 })
      else (true, insert_doc s d k)

  abbrev pub counted_insert : Doc → Bool → Synced → Bool × Knowledge → Synced × Knowledge
  counted_insert d was_active n (true, k) = (record n { inserted = n.inserted + 1 }, k)
  counted_insert d true n (false, k) = (
    record n {
      skipped_oversize = n.skipped_oversize ++ d.path ∷ [];
      tombstoned = n.tombstoned + 1;
    },
    tombstone s d.path k,
  )
  counted_insert d false n (false, k) =
      (record n { skipped_oversize = n.skipped_oversize ++ d.path ∷ [] }, k)

  -- The first loop; `before` is the table when `cur` was read.
  unfoldable pub sync_docs : List DocRow → List Doc → Synced × Knowledge → Synced × Knowledge
  unfolding current insert_doc tombstone
  sync_docs before [] x = x
  sync_docs before (d ∷ ds) (n, k) =
      if is_unchanged d (current s d.path before)
      then sync_docs before ds (record n { unchanged = n.unchanged + 1 }, k)
      else sync_docs before ds
          (counted_insert d (active_row (current s d.path before)) n (insert_active d k))

  abbrev pub paths_seen : List Doc → List ℕ
  paths_seen [] = []
  paths_seen (d ∷ ds) = d.path ∷ paths_seen ds

  -- The loop over cur.items().
  unfoldable pub drop_missing :
      List DocRow → List ℕ → List ℕ → Synced × Knowledge → Synced × Knowledge
  unfolding current tombstone
  drop_missing before seen [] x = x
  drop_missing before seen (p ∷ ps) (n, k) =
      if active_row (current s p before) && not (mem p seen)
      then drop_missing before seen ps (record n { tombstoned = n.tombstoned + 1 }, tombstone s p k)
      else drop_missing before seen ps (n, k)

  abbrev pub sync_accepted : List Doc → Bool → List DocRow → Knowledge → Synced × Knowledge
  sync_accepted docs tombstone_missing before k =
      let x = sync_docs before docs (nothing_yet, k) in
      if tombstone_missing then drop_missing before (paths_seen docs) (paths_of s before) x else x

  unfoldable pub knowledge_sync : List Doc → Bool → Option ℕ → Knowledge → Synced × Knowledge
  unfolding is_stale bump_gen sync_docs drop_missing paths_of
  knowledge_sync docs tombstone_missing expect k =
      if is_stale s expect k
      then (conflicting, k)
      else sync_accepted docs tombstone_missing k.rows (bump_gen s k)

  unfoldable pub drop_all : List DocRow → List ℕ → Synced × Knowledge → Synced × Knowledge
  unfolding current tombstone
  drop_all before [] x = x
  drop_all before (p ∷ ps) (n, k) =
      if active_row (current s p before)
      then drop_all before ps (record n { tombstoned = n.tombstoned + 1 }, tombstone s p k)
      else drop_all before ps (n, k)

  unfoldable pub insert_all : List Doc → Synced × Knowledge → Synced × Knowledge
  unfolding insert_doc
  insert_all [] x = x
  insert_all (d ∷ ds) (n, k) = insert_all ds (counted_insert d false n (insert_active d k))

  unfoldable pub knowledge_rebuild : List Doc → Option ℕ → Knowledge → Synced × Knowledge
  unfolding is_stale bump_gen drop_all insert_all paths_of
  knowledge_rebuild docs expect k =
      if is_stale s expect k
      then (conflicting, k)
      else insert_all docs (drop_all k.rows (paths_of s k.rows) (nothing_yet, bump_gen s k))
