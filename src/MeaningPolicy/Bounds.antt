-- ===== src/MeaningPolicy/Bounds.antt =====
-- The calls of an embedder are within what it takes at once.
use skillcdn.Common.{
  ℕ, suc, ◌+◌, ◌≤◌, ◌<◌, ◌≡◌, refl, sym, ap, ◌∙◌, ◌≢◌, ◌⊎◌, inl, inr, true, false, ◌&&◌, ◌||◌, not,
  List, [], ◌∷◌, ◌++◌, arith, length, is_empty, Bool-cases, if◌then◌else◌, All, All-append,
  length-append, get_elem?, leb, ltb, some, none, append_assoc,
}
use skillcdn.Text.{Text}
use skillcdn.MeaningPolicy.{
  Embedder, Batching, counted, is_full, close_batch, add_text, batch_from, finish_batches,
  embedding_batches,
}

-- The characters of a batch, by the size of each of its texts.
abbrev pub chars_of : (ℕ → ℕ) → List ℕ → ℕ
chars_of size [] = 0
chars_of size (i ∷ is) = size i + chars_of size is

-- A call within the limits, or of one text alone.
pub record IsCall (e : Embedder) (size : ℕ → ℕ) (batch : List ℕ) : Type 0 where
  pub some_text : batch ≢ []
  pub few : (length batch ≤ e.max_texts) ⊎ (length batch ≡ 1)
  pub short : (chars_of size batch ≤ e.max_batch_chars) ⊎ (length batch ≡ 1)

chars_of-append :
    (size : ℕ → ℕ) (is : List ℕ) (i : ℕ)
    → chars_of size (is ++ (i ∷ [])) ≡ chars_of size is + size i
chars_of-append size [] i = omega arith
chars_of-append size (j ∷ is) i = omega (arith, chars_of-append size is i)

record IsBatching (e : Embedder) (size : ℕ → ℕ) (s : Batching) : Type 0 where
  closed : All (IsCall e size) s.batches
  open_batch : (s.batch ≡ []) ⊎ IsCall e size s.batch
  counts : s.chars ≡ chars_of size s.batch

-- A batch that has room for one more text.
abbrev HasRoom : Embedder → Batching → ℕ → Type 0
HasRoom e s n =
    (s.batch ≡ []) ⊎ ((length s.batch < e.max_texts) × (s.chars + n ≤ e.max_batch_chars))

room_of : (e : Embedder) (s : Batching) (n : ℕ) → is_full e s n ≡ false → HasRoom e s n
unfolding is_full
room_of e s n h = go s.batch refl h
  where
    go :
        (b : List ℕ)
        → s.batch ≡ b
        → (not (is_empty b) && (leb e.max_texts (length b) || ltb e.max_batch_chars (s.chars + n)))
          ≡ false
        → HasRoom e s n
    go [] q h = inl q
    go (x ∷ b) q h = inr (rw q (ground arith), ground arith)

close-IsBatching :
    (e : Embedder) (size : ℕ → ℕ) (s : Batching) (n : ℕ)
    → IsBatching e size s
    → IsBatching e size (close_batch e s n) × HasRoom e (close_batch e s n) n
unfolding close_batch is_full
close-IsBatching e size s n h = elim (Bool-cases (is_full e s n)) [
  | inr room ↦ rw room (h, room_of e s n room)
  | inl full ↦ rw full (
    record {
      closed = All-append (IsCall e size) s.batches _ h.closed (last_call h.open_batch full, tt);
      open_batch = inl refl;
      counts = refl;
    },
    inl refl,
  )
]
  where
    last_call :
        (s.batch ≡ []) ⊎ IsCall e size s.batch → is_full e s n ≡ true → IsCall e size s.batch
    last_call (inl q) full = cc (rw q at full)
    last_call (inr c) full = c

append_one-ne-nil : (is : List ℕ) (i : ℕ) → is ++ (i ∷ []) ≢ []
append_one-ne-nil [] i = λ e. cc
append_one-ne-nil (j ∷ is) i = λ e. cc

add_one :
    (e : Embedder) (size : ℕ → ℕ) (s : Batching) (at n : ℕ)
    → n ≡ size at
    → IsBatching e size s
    → HasRoom e s n
    → IsCall e size (s.batch ++ (at ∷ []))
add_one e size s at n q h (inl empty) = record {
  some_text = append_one-ne-nil s.batch at;
  few = inr (rw empty (omega arith));
  short = inr (rw empty (omega arith));
}
add_one e size s at n q h (inr (few, short)) = record {
  some_text = append_one-ne-nil s.batch at;
  few = inl (omega (arith, length-append s.batch (at ∷ [])));
  short = inl (omega (arith, chars_of-append size s.batch at, h.counts));
}

add-IsBatching :
    (e : Embedder) (size : ℕ → ℕ) (s : Batching) (at : ℕ) (text : Text)
    → counted e text ≡ size at
    → IsBatching e size s
    → IsBatching e size (add_text e s at text)
unfolding add_text
add-IsBatching e size s at text q h =
    let (k, room) = close-IsBatching e size s (counted e text) h in
    record {
      closed = k.closed;
      open_batch =
          inr (add_one e size (close_batch e s (counted e text)) at (counted e text) q k room);
      counts =
          ap (λ x. x + counted e text) k.counts
          ∙ ap (λ x. chars_of size (close_batch e s (counted e text)).batch + x) q
          ∙ sym (chars_of-append size (close_batch e s (counted e text)).batch at);
    }

-- The sizes of the texts from a place on.
abbrev Sizes : Embedder → (ℕ → ℕ) → ℕ → List Text → Type 0
Sizes e size at [] = Unit
Sizes e size at (text ∷ texts) = (counted e text ≡ size at) × Sizes e size (suc at) texts

batch-IsBatching :
    (e : Embedder) (size : ℕ → ℕ) (s : Batching) (at : ℕ) (texts : List Text)
    → Sizes e size at texts
    → IsBatching e size s
    → IsBatching e size (batch_from e s at texts)
unfolding batch_from
batch-IsBatching e size s at [] q h = h
batch-IsBatching e size s at (text ∷ texts) (q, qs) h =
    batch-IsBatching e size (add_text e s at text) (suc at) texts qs
      (add-IsBatching e size s at text q h)

finish-All :
    (e : Embedder) (size : ℕ → ℕ) (s : Batching)
    → IsBatching e size s
    → All (IsCall e size) (finish_batches s)
unfolding finish_batches
finish-All e size s h = go s.batch h.open_batch
  where
    go :
        (b : List ℕ)
        → (b ≡ []) ⊎ IsCall e size b
        → All (IsCall e size) (if is_empty b then s.batches else s.batches ++ (b ∷ []))
    go [] k = h.closed
    go (x ∷ b) (inl q) = cc
    go (x ∷ b) (inr c) = All-append (IsCall e size) s.batches _ h.closed (c, tt)

-- The size of the text at a place, as the embedder cuts it.
abbrev pub size_at : Embedder → List Text → ℕ → ℕ
size_at e texts i = elim (get_elem? texts i) [ none ↦ 0 | some text ↦ counted e text ]

get-append :
    (pre : List Text) (t : Text) (ts : List Text)
    → get_elem? (pre ++ (t ∷ ts)) (length pre) ≡ some t
get-append [] t ts = refl
get-append (p ∷ pre) t ts = get-append pre t ts

size_at-Sizes :
    (e : Embedder) (whole pre texts : List Text)
    → whole ≡ pre ++ texts
    → Sizes e (size_at e whole) (length pre) texts
size_at-Sizes e whole pre [] q = tt
size_at-Sizes e whole pre (t ∷ ts) q =
    let found : get_elem? whole (length pre) ≡ some t =
      ap (λ x. get_elem? x (length pre)) q ∙ get-append pre t ts in
    let next : length (pre ++ (t ∷ [])) ≡ suc (length pre) =
      omega (arith, length-append pre (t ∷ [])) in
    (
      rw (found, size_at) refl,
      rw next at
          (size_at-Sizes e whole (pre ++ (t ∷ [])) ts (q ∙ sym (append_assoc pre (t ∷ []) ts))),
    )

-- Every call holds a text, and is of at most as many texts and characters as the embedder takes at
-- once, each text counted as it is cut; only a call of one text alone may be over a limit.
pub embedding_batches-IsCall :
    (texts : List Text) (e : Embedder)
    → All (IsCall e (size_at e texts)) (embedding_batches texts e)
unfolding embedding_batches
embedding_batches-IsCall texts e = finish-All e (size_at e texts) _ (
    batch-IsBatching e (size_at e texts) (record { batches = []; batch = []; chars = 0 }) 0 texts
      (size_at-Sizes e texts [] texts refl)
      (record { closed = tt; open_batch = inl refl; counts = refl }))
