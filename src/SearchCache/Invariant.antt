-- ===== src/SearchCache/Invariant.antt =====
-- What holds of the cache in every state that it reaches, in whatever order searches are asked,
-- answered and finished.
use skillcdn.Common.{
  ℕ, ◌+◌, ◌≤◌, ◌<◌, ◌≡◌, refl, true, false, ◌||◌, List, [], ◌∷◌, some, ltb, leb, ◌==◌, arith,
  length, Bool-cases, inl, inr, Option-cases, length-append,
}
use skillcdn.Text.{Text}
use skillcdn.SearchCache.{
  SearchCacheOptions, Kept, State, found, get, delete, put_last, remember, start, ask, answered,
  finished,
}
use skillcdn.SearchCache.Entries.{
  HasDistinctKeys, delete-HasDistinctKeys, delete-Misses, length-delete, length-delete-get,
  append-HasDistinctKeys, put_last-HasDistinctKeys, get-none-Misses, evict-HasDistinctKeys,
  length-evict, evict-append,
}

module _ {Answer : Type 0} (o : SearchCacheOptions) where
  -- One event.
  pub data Step (s : State Answer) : State Answer → Type 0 where
    asks : (now : ℕ) (key : Text) → Step s (ask o now key s).0
    answers :
        (now : ℕ) (key : Text) (value : Answer)
        → get s.pending key ≡ some tt
        → Step s (answered o now key value s)
    finishes : (key : Text) → get s.pending key ≡ some tt → Step s (finished key s)

  abbrev pub empty_state : State Answer
  empty_state = record { kept = []; pending = []; active = 0 }

  pub data Reachable : State Answer → Type 0 where
    begins : Reachable empty_state
    continues : (s t : State Answer) → Reachable s → Step s t → Reachable t

  -- At most as many answers as allowed are kept, each of a question of its own; the searches that
  -- run are counted, are at most as many as allowed, and no two are of the same question.
  pub record IsBounded (s : State Answer) : Type 0 where
    pub kept_few : length s.kept ≤ o.entries
    pub kept_distinct : HasDistinctKeys s.kept
    pub running_counted : s.active ≡ length s.pending
    pub running_few : s.active ≤ o.concurrency
    pub running_distinct : HasDistinctKeys s.pending

  start-IsBounded : (key : Text) (s : State Answer) → IsBounded s → IsBounded (start o key s).0
  unfolding start
  start-IsBounded key s h = elim (Option-cases (get s.pending key)) [
    | inr (r, e) ↦ rw (e, start) h
    | inl e ↦ elim (Bool-cases (leb o.concurrency s.active)) [
      | inl full ↦ rw (e, start, full) h
      | inr room ↦
          let grows = length-append s.pending ((key, tt) ∷ []) in
          let counted = h.running_counted in
          rw (e, start, room)
            (record {
              kept_few = h.kept_few;
              kept_distinct = h.kept_distinct;
              running_counted = omega arith;
              running_few = ground arith;
              running_distinct =
                  append-HasDistinctKeys s.pending key tt h.running_distinct
                    (get-none-Misses s.pending key e);
            })
    ]
  ]

  length-put_last-get :
      (map : List (Text × Kept Answer)) (key : Text) (v w : Kept Answer)
      → HasDistinctKeys map
      → get map key ≡ some v
      → length (put_last map key w) ≡ length map
  unfolding put_last
  length-put_last-get map key v w h e =
      omega (arith, length-append (delete map key) ((key, w) ∷ []), length-delete-get map key v h e)

  ask-IsBounded :
      (now : ℕ) (key : Text) (s : State Answer) → IsBounded s → IsBounded (ask o now key s).0
  unfolding ask
  ask-IsBounded now key s h = elim (Option-cases (get s.kept key)) [
    | inl e ↦ rw (e, ask) (start-IsBounded key s h)
    | inr (entry, e) ↦ elim (Bool-cases (ltb now entry.until)) [
      | inl live ↦
          let size = length-put_last-get s.kept key entry entry h.kept_distinct e in
          let few = h.kept_few in
          rw (e, ask, live)
            (record {
              kept_few = omega arith;
              kept_distinct = put_last-HasDistinctKeys s.kept key entry h.kept_distinct;
              running_counted = h.running_counted;
              running_few = h.running_few;
              running_distinct = h.running_distinct;
            })
      | inr over ↦
          let few = h.kept_few in
          rw (e, ask, over)
            (start-IsBounded key _ (record {
              kept_few = omega (arith, length-delete s.kept key);
              kept_distinct = delete-HasDistinctKeys s.kept key h.kept_distinct;
              running_counted = h.running_counted;
              running_few = h.running_few;
              running_distinct = h.running_distinct;
            }))
    ]
  ]

  answered-IsBounded :
      (now : ℕ) (key : Text) (value : Answer) (s : State Answer)
      → IsBounded s
      → IsBounded (answered o now key value s)
  unfolding answered remember
  answered-IsBounded now key value s h = elim (Bool-cases (o.ttl_ms == 0 || o.entries == 0)) [
    | inl nothing ↦ rw nothing h
    | inr keeps ↦
        let stored = put_last s.kept key (record { until = now + o.ttl_ms; value = value }) in
        rw keeps (record {
          kept_few = length-evict (length stored) o.entries stored (omega arith);
          kept_distinct =
              evict-HasDistinctKeys _ o.entries _
                (put_last-HasDistinctKeys s.kept key _ h.kept_distinct);
          running_counted = h.running_counted;
          running_few = h.running_few;
          running_distinct = h.running_distinct;
        })
  ]

  finished-IsBounded :
      (key : Text) (s : State Answer)
      → get s.pending key ≡ some tt
      → IsBounded s
      → IsBounded (finished key s)
  unfolding finished
  finished-IsBounded key s e h =
      let size = length-delete-get s.pending key tt h.running_distinct e in
      let counted = h.running_counted in
      let few = h.running_few in
      record {
        kept_few = h.kept_few;
        kept_distinct = h.kept_distinct;
        running_counted = omega arith;
        running_few = omega arith;
        running_distinct = delete-HasDistinctKeys s.pending key h.running_distinct;
      }

  -- In every state that the cache reaches, whatever is asked, answered and finished in whatever
  -- order, no more answers are kept than allowed and no two of one question, the count of running
  -- searches is the number of pending questions, which is within the allowed concurrency, and no
  -- question is being answered twice.
  pub Reachable-IsBounded : (s : State Answer) → Reachable s → IsBounded s
  Reachable-IsBounded _ begins = record {
    kept_few = omega arith;
    kept_distinct = tt;
    running_counted = refl;
    running_few = omega arith;
    running_distinct = tt;
  }
  Reachable-IsBounded _ (continues s _ r (asks now key)) =
      ask-IsBounded now key s (Reachable-IsBounded s r)
  Reachable-IsBounded _ (continues s _ r (answers now key value e)) =
      answered-IsBounded now key value s (Reachable-IsBounded s r)
  Reachable-IsBounded _ (continues s _ r (finishes key e)) =
      finished-IsBounded key s e (Reachable-IsBounded s r)

  kept_value :
      (s : State Answer) (now until : ℕ) (key : Text) (value : Answer)
      → get s.kept key ≡ some (record { until = until; value = value })
      → now < until
      → (ask o now key s).1 ≡ found value
  unfolding ask
  kept_value s now until key value e h =
      let live : ltb now until ≡ true = ground arith in rw (e, ask, live) refl

  -- An answer is given to the next who asks the same within the time it is kept, where answers are
  -- kept at all.
  pub ask-answered :
      (s : State Answer) (stored_at now : ℕ) (key : Text) (value : Answer)
      → 0 < o.ttl_ms
      → 0 < o.entries
      → now < stored_at + o.ttl_ms
      → (ask o now key (answered o stored_at key value s)).1 ≡ found value
  unfolding answered remember put_last
  ask-answered s stored_at now key value t n h =
      let keeps : (o.ttl_ms == 0 || o.entries == 0) ≡ false = ground arith in
      kept_value (answered o stored_at key value s) now (stored_at + o.ttl_ms) key value
        (rw keeps (evict-append _ o.entries (delete s.kept key) key _ n (delete-Misses s.kept key)))
        h
