-- ===== src/MeaningPolicy/Tests.antt =====
-- Runs of the policy and of the batches, and the theorems at those inputs.
use skillcdn.Common.{◌≡◌, refl, List, true, false, [], ◌∷◌, none, some, All}
use skillcdn.Text.{Text, codes, same, last_index_of}
use skillcdn.MeaningPolicy.{
  PolicyEntry, Embedder, meaning_search_of, manifests_of, directory_of, decide_from, set_manifest,
  get_manifest, embedding_batches, batch_from, finish_batches, add_text, close_batch, is_full,
}
use skillcdn.MeaningPolicy.Nearest.{Decides, meaning_search_of-Decides}
use skillcdn.MeaningPolicy.Bounds.{IsCall, size_at, embedding_batches-IsCall}

run : Unit {0}
unfolding meaning_search_of manifests_of directory_of decide_from set_manifest get_manifest same
    last_index_of embedding_batches batch_from finish_batches add_text close_batch is_full
run = tt

abbrev entries : List PolicyEntry
entries =
    record { path = codes "SKILLCDN.md"; kind = codes "manifest"; meaning = some false }
    ∷ record { path = codes "docs/SKILLCDN.md"; kind = codes "manifest"; meaning = none }
    ∷ []

nearer : meaning_search_of entries (codes "docs/api/a.md") ≡ true
unfolding run
nearer = refl

root : meaning_search_of entries (codes "x/a.md") ≡ false
unfolding run
root = refl

abbrev embedder : Embedder
embedder = record { max_texts = 2; max_batch_chars = 5; max_text_chars = 4 }

abbrev texts : List Text
texts = codes "abcdef" ∷ codes "x" ∷ codes "y" ∷ []

calls : embedding_batches texts embedder ≡ (0 ∷ 1 ∷ []) ∷ (2 ∷ []) ∷ []
unfolding run
calls = refl

meaning_search_of-Decides_example :
    Decides entries
      (directory_of (codes "docs/api/a.md"))
      (meaning_search_of entries (codes "docs/api/a.md"))
meaning_search_of-Decides_example = meaning_search_of-Decides entries (codes "docs/api/a.md")

embedding_batches-IsCall_example :
    All (IsCall embedder (size_at embedder texts)) (embedding_batches texts embedder)
embedding_batches-IsCall_example = embedding_batches-IsCall texts embedder
