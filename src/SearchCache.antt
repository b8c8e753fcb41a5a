-- ===== src/SearchCache.antt =====
-- apps/server/src/search/cache.ts: a search cached, coalesced and bounded. The searches that run at
-- once are events: one is asked, and later the search it started answers or fails.
pub mod Entries
pub mod Invariant
mod Tests
use skillcdn.Common.{
  ℕ, zero, suc, ◌+◌, ◌-◌, Bool, true, false, ◌&&◌, ◌||◌, not, List, [], ◌∷◌, ◌++◌, Option, none,
  some, ltb, leb, ◌==◌, if◌then◌else◌, length, drop,
}
use skillcdn.Text.{Text, same}

pub record SearchCacheOptions : Type 0 where
  pub ttl_ms : ℕ
  pub entries : ℕ
  pub concurrency : ℕ

pub record Kept (Answer : Type 0) : Type 0 where
  pub until : ℕ
  pub value : Answer

module _ {V : Type 0} where
  -- A map by its entries, the oldest first.
  unfoldable pub get : List (Text × V) → Text → Option V
  get [] key = none
  get ((k, v) ∷ map) key = if same k key then some v else get map key

  unfoldable pub delete : List (Text × V) → Text → List (Text × V)
  delete [] key = []
  delete ((k, v) ∷ map) key =
      let rest = delete map key in if same k key then rest else (k, v) ∷ rest

  -- `map.set` of a key that was deleted before: the entry goes to the end.
  unfoldable pub put_last : List (Text × V) → Text → V → List (Text × V)
  unfolding delete
  put_last map key value = delete map key ++ ((key, value) ∷ [])

  -- The loop that deletes the oldest while the map is too large; each round deletes one, so that the
  -- size is enough fuel.
  unfoldable pub evict : ℕ → ℕ → List (Text × V) → List (Text × V)
  evict zero entries kept = kept
  evict (suc fuel) entries [] = []
  evict (suc fuel) entries (oldest ∷ kept) = elim (ltb entries (length (oldest ∷ kept))) [
    | true ↦ evict fuel entries kept
    | false ↦ oldest ∷ kept
  ]

-- What the process keeps; `pending` holds the keys whose searches run.
pub record State (Answer : Type 0) : Type 0 where
  pub kept : List (Text × Kept Answer)
  pub pending : List (Text × Unit {0})
  pub active : ℕ

-- What a search meets: an answer kept, a search of the same question that it waits for, a refusal,
-- or a search of its own.
pub data Outcome (Answer : Type 0) : Type 0 where
  found : Answer → Outcome Answer
  joins : Outcome Answer
  busy : Outcome Answer
  started : Outcome Answer

module _ {Answer : Type 0} where
  unfoldable pub remember :
      SearchCacheOptions → ℕ → Text → Answer → List (Text × Kept Answer) → List (Text × Kept Answer)
  unfolding put_last evict
  remember o now key value kept =
      if o.ttl_ms == 0 || o.entries == 0
      then kept
      else let kept' = put_last kept key (record { until = now + o.ttl_ms; value = value }) in
        evict (length kept') o.entries kept'

  -- The part of `search` behind the answers kept.
  unfoldable pub start : SearchCacheOptions → Text → State Answer → State Answer × Outcome Answer
  unfolding get
  start o key s = elim (get s.pending key) [
    | some running ↦ (s, joins)
    | none ↦
        if leb o.concurrency s.active
        then (s, busy)
        else (record s { pending = s.pending ++ ((key, tt) ∷ []); active = s.active + 1 }, started)
  ]

  -- `search`, up to the first await.
  unfoldable pub ask : SearchCacheOptions → ℕ → Text → State Answer → State Answer × Outcome Answer
  unfolding get put_last delete start
  ask o now key s = elim (get s.kept key) [
    | none ↦ start o key s
    | some entry ↦
        if ltb now entry.until
        then (record s { kept = put_last s.kept key entry }, found entry.value)
        else start o key (record s { kept = delete s.kept key })
  ]

  -- The search of a key has answered.
  unfoldable pub answered : SearchCacheOptions → ℕ → Text → Answer → State Answer → State Answer
  unfolding remember
  answered o now key value s = record s { kept = remember o now key value s.kept }

  -- The `finally` of the search of a key, which answered or failed.
  unfoldable pub finished : Text → State Answer → State Answer
  unfolding delete
  finished key s = record s { pending = delete s.pending key; active = s.active - 1 }
