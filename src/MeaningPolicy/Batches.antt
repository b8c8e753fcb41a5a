-- ===== src/MeaningPolicy/Batches.antt =====
-- The calls of an embedder: every text in one of them, in order, and each within the limits.
use skillcdn.Common.{
  ℕ, suc, ◌≡◌, sym, ap, ◌∙◌, inl, inr, List, [], ◌∷◌, ◌++◌, is_empty, Bool-cases, if◌then◌else◌,
  append_assoc, append-nil,
}
use skillcdn.Text.{Text}
use skillcdn.MeaningPolicy.{
  Embedder, Batching, counted, is_full, close_batch, add_text, batch_from, finish_batches,
  embedding_batches,
}

-- The batches one after another.
abbrev pub concat : List (List ℕ) → List ℕ
concat [] = []
concat (b ∷ bs) = b ++ concat bs

-- The numbers from `at` on, as many as there are texts.
abbrev pub count_from : ℕ → List Text → List ℕ
count_from at [] = []
count_from at (text ∷ texts) = at ∷ count_from (suc at) texts

concat-append : (bs : List (List ℕ)) (b : List ℕ) → concat (bs ++ (b ∷ [])) ≡ concat bs ++ b
concat-append [] b = append-nil b
concat-append (c ∷ bs) b = rw (concat-append bs b) (sym (append_assoc c (concat bs) b))

-- All indexes so far.
abbrev all_of : Batching → List ℕ
all_of s = concat s.batches ++ s.batch

all_of-close : (e : Embedder) (s : Batching) (size : ℕ) → all_of (close_batch e s size) ≡ all_of s
unfolding close_batch
all_of-close e s size = elim (Bool-cases (is_full e s size)) [
  | inl full ↦ rw full (append-nil _ ∙ concat-append s.batches s.batch)
  | inr room ↦ rw room
]

all_of-add :
    (e : Embedder) (s : Batching) (at : ℕ) (text : Text)
    → all_of (add_text e s at text) ≡ all_of s ++ (at ∷ [])
unfolding add_text
all_of-add e s at text =
    sym (append_assoc _ (close_batch e s (counted e text)).batch (at ∷ []))
    ∙ ap (λ x. x ++ (at ∷ [])) (all_of-close e s (counted e text))

all_of-batch :
    (e : Embedder) (s : Batching) (at : ℕ) (texts : List Text)
    → all_of (batch_from e s at texts) ≡ all_of s ++ count_from at texts
unfolding batch_from
all_of-batch e s at [] = sym (append-nil _)
all_of-batch e s at (text ∷ texts) =
    all_of-batch e (add_text e s at text) (suc at) texts
    ∙ ap (λ x. x ++ count_from (suc at) texts) (all_of-add e s at text)
    ∙ append_assoc (all_of s) (at ∷ []) (count_from (suc at) texts)

concat-finish : (s : Batching) → concat (finish_batches s) ≡ all_of s
unfolding finish_batches
concat-finish s = go s.batch
  where
    go :
        (b : List ℕ)
        → concat (if is_empty b then s.batches else s.batches ++ (b ∷ [])) ≡ concat s.batches ++ b
    go [] = sym (append-nil _)
    go (x ∷ b) = concat-append s.batches (x ∷ b)

-- The calls take the texts one after another: joined, they are the indexes of all of them in order.
pub concat-embedding_batches :
    (texts : List Text) (e : Embedder) → concat (embedding_batches texts e) ≡ count_from 0 texts
unfolding embedding_batches
concat-embedding_batches texts e =
    concat-finish (batch_from e (record { batches = []; batch = []; chars = 0 }) 0 texts)
    ∙ all_of-batch e (record { batches = []; batch = []; chars = 0 }) 0 texts
