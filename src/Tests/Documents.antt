-- ===== src/Tests/Documents.antt =====
-- The theorems on the index of documents at a concrete table.
use myndaix_runtime.Prelude.{◌≡◌, refl, true, false, none, some, [], ◌∷◌}
use myndaix_runtime.Knowledge.{
  Doc, Knowledge, conflicting, knowledge_fence, knowledge_sync, knowledge_rebuild, is_stale,
}
use myndaix_runtime.Knowledge.Fence.{syncs, call, run, stale_walk_is_rejected}

abbrev empty : Knowledge
empty = record { next_seq = 1; rows = []; gen = λ s. 0 }

abbrev doc : Doc
doc = record { path = 5; content_sha = 70; content = 700 }

-- Document 5 was created and deleted again before the other writer walked: a commit without a row.
abbrev overtaken : Knowledge
overtaken = call (λ d. false) (syncs 2 [] true none) empty

stale_walk_is_rejected_example :
    (knowledge_sync (λ d. false) 2 (doc ∷ []) true (some (knowledge_fence 2 empty)) overtaken
      ≡ (conflicting, overtaken))
    × (knowledge_rebuild (λ d. false) 2 (doc ∷ []) (some (knowledge_fence 2 empty)) overtaken
        ≡ (conflicting, overtaken))
unfolding run is_stale
stale_walk_is_rejected_example =
    stale_walk_is_rejected (λ d. false) 2 empty [] [] (syncs 2 [] true none) (doc ∷ []) true refl

abbrev second_doc : Doc
second_doc = record { path = 6; content_sha = 80; content = 800 }

-- Document 5 is in the index, then a walk finds only document 6.
abbrev with_5 : Knowledge
with_5 = call (λ d. false) (syncs 2 (doc ∷ []) true none) empty
