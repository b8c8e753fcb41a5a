-- ===== src/MeaningPolicy.antt =====
-- packages/core/src/search/meaning-policy.ts: which documents are embedded, and in which calls.
pub mod Words
pub mod Nearest
pub mod Batches
pub mod Bounds
mod Tests
use skillcdn.Common.{
  ℕ, zero, suc, ◌+◌, Bool, true, false, ◌&&◌, ◌||◌, not, List, [], ◌∷◌, ◌++◌, Option, none, some,
  ltb, leb, if◌then◌else◌, length, is_empty, take, min,
}
use skillcdn.Text.{Text, codes, slash, same, last_index_of}

-- `meaning` is `frontMatter?.search?.meaning`.
pub record PolicyEntry : Type 0 where
  pub path : Text
  pub kind : Text
  pub meaning : Option Bool

unfoldable pub directory_of : Text → Text
directory_of path = elim (last_index_of slash path) [ none ↦ [] | some i ↦ take i path ]

-- `meaning !== false`.
abbrev pub is_on : Option Bool → Bool
is_on (some false) = false
is_on (some true) = true
is_on none = true

-- `manifests.set` and `manifests.get`.
unfoldable pub set_manifest : List (Text × Bool) → Text → Bool → List (Text × Bool)
set_manifest [] key value = (key, value) ∷ []
set_manifest ((k, v) ∷ manifests) key value =
    let rest = set_manifest manifests key value in
    if same k key then (k, value) ∷ manifests else (k, v) ∷ rest

unfoldable pub get_manifest : List (Text × Bool) → Text → Option Bool
get_manifest [] key = none
get_manifest ((k, v) ∷ manifests) key = if same k key then some v else get_manifest manifests key

-- The loop over the entries.
unfoldable pub manifests_of : List (Text × Bool) → List PolicyEntry → List (Text × Bool)
unfolding directory_of set_manifest
manifests_of manifests [] = manifests
manifests_of manifests (entry ∷ entries) =
    manifests_of
      (if same entry.kind (codes "manifest")
        then set_manifest manifests (directory_of entry.path) (is_on entry.meaning)
        else manifests)
      entries

-- The loop up the directories. Each round shortens the directory, so that a fuel above its length is
-- enough.
unfoldable pub decide_from : ℕ → List (Text × Bool) → Text → Bool
unfolding get_manifest directory_of
decide_from zero manifests directory = true
decide_from (suc fuel) manifests directory =
    let rest = decide_from fuel manifests (directory_of directory) in
    elim (get_manifest manifests directory) [
      | some decided ↦ decided
      | none ↦ if is_empty directory then true else rest
    ]

unfoldable pub meaning_search_of : List PolicyEntry → Text → Bool
unfolding manifests_of decide_from directory_of
meaning_search_of entries path =
    decide_from (suc (length (directory_of path))) (manifests_of [] entries) (directory_of path)

unfoldable pub embeddable : Text → Bool → Bool
embeddable kind searchable =
    searchable && (same kind (codes "markdown") || same kind (codes "skill"))

pub record Embedder : Type 0 where
  pub max_texts : ℕ
  pub max_batch_chars : ℕ
  pub max_text_chars : ℕ

-- What the loop over the texts keeps.
pub record Batching : Type 0 where
  pub batches : List (List ℕ)
  pub batch : List ℕ
  pub chars : ℕ

abbrev pub counted : Embedder → Text → ℕ
counted e text = min (length text) e.max_text_chars

-- Whether the batch is closed before the next text.
unfoldable pub is_full : Embedder → Batching → ℕ → Bool
is_full e s size =
    not (is_empty s.batch)
    && (leb e.max_texts (length s.batch) || ltb e.max_batch_chars (s.chars + size))

unfoldable pub close_batch : Embedder → Batching → ℕ → Batching
unfolding is_full
close_batch e s size =
    if is_full e s size
    then record { batches = s.batches ++ (s.batch ∷ []); batch = []; chars = 0 }
    else s

unfoldable pub add_text : Embedder → Batching → ℕ → Text → Batching
unfolding close_batch
add_text e s at text =
    let t = close_batch e s (counted e text) in
    record { batches = t.batches; batch = t.batch ++ (at ∷ []); chars = t.chars + counted e text }

unfoldable pub batch_from : Embedder → Batching → ℕ → List Text → Batching
unfolding add_text
batch_from e s at [] = s
batch_from e s at (text ∷ texts) = batch_from e (add_text e s at text) (suc at) texts

unfoldable pub finish_batches : Batching → List (List ℕ)
finish_batches s = if is_empty s.batch then s.batches else s.batches ++ (s.batch ∷ [])

unfoldable pub embedding_batches : List Text → Embedder → List (List ℕ)
unfolding batch_from finish_batches
embedding_batches texts e =
    finish_batches (batch_from e (record { batches = []; batch = []; chars = 0 }) 0 texts)
