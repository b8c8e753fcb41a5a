-- ===== src/SearchCache/Tests.antt =====
-- A run of the cache, and the theorems at inputs where their hypotheses hold.
use skillcdn.Common.{ℕ, ◌≡◌, refl, [], ◌∷◌, arith}
use skillcdn.Text.{Text, codes, same}
use skillcdn.SearchCache.{
  SearchCacheOptions, State, found, joins, busy, started, get, delete, put_last, evict, remember,
  start, ask, answered, finished,
}
use skillcdn.SearchCache.Invariant.{
  begins, continues, asks, IsBounded, empty_state, Reachable-IsBounded, ask-answered,
}

run : Unit {0}
unfolding get delete put_last evict remember start ask answered finished same
run = tt

abbrev options : SearchCacheOptions
options = record { ttl_ms = 1000; entries = 2; concurrency = 1 }

abbrev question : Text
question = codes "docs"

abbrev asked : State ℕ
asked = record { kept = []; pending = (question, tt) ∷ []; active = 1 }

first_ask : ask options 0 question (empty_state {Answer = ℕ} options) ≡ (asked, started)
unfolding run
first_ask = refl

joined : (ask options 5 question asked).1 ≡ joins
unfolding run
joined = refl

refused : (ask options 5 (codes "other") asked).1 ≡ busy
unfolding run
refused = refl

Reachable-IsBounded_example :
    IsBounded {Answer = ℕ} options (ask options 0 question (empty_state options)).0
Reachable-IsBounded_example =
    Reachable-IsBounded options (ask options 0 question (empty_state options)).0 (
      continues (empty_state options) (ask options 0 question (empty_state options)).0 begins
        (asks 0 question))

ask-answered_example : (ask options 500 question (answered options 10 question 7 asked)).1 ≡ found 7
ask-answered_example =
    ask-answered options asked 10 500 question 7 (omega arith) (omega arith) (omega arith)
