-- ===== src/UsageRecorder/Repos.antt =====
-- No count of a public repository is lost or made up, and none of another one is kept.
use skillcdn.Common.{
  ℕ, ◌+◌, ◌≡◌, refl, ap, ◌∙◌, Bool, true, false, ◌&&◌, List, [], ◌∷◌, ltb, if◌then◌else◌, length,
  arith, Bool-cases, inl, inr, is_empty, Option, none, some, ==_iff,
}
use skillcdn.Text.{Text}
use skillcdn.Text.Compare.{same→eq}
use skillcdn.UsageRecorder.{
  Platform, UsageDay, usage_day_of, CountedMetric, metric_code, is_public, RecordedMount,
  UsageIncrement, max_subject_length, UsageRecorderOptions, UsageRecorder, Report, flush,
}
use skillcdn.UsageRecorder.Counters.{same_repo_counter, add_repo, repo_one, add_count, count}
use skillcdn.UsageRecorder.Clients.{
  client, add_client, note_client, note_service_client, forget_days_before,
}
use skillcdn.UsageRecorder.Sums.{
  IsCounter, total, total-add_to, reported, reported_if, total_of_first,
}
use skillcdn.UsageRecorder.Events.{
  Event, counted, seen, ticked, started, closed, step, run, start, close,
}

same_repo_counter-agrees :
    (a b k : UsageIncrement)
    → same_repo_counter a b ≡ true
    → same_repo_counter a k ≡ same_repo_counter b k
unfolding same_repo_counter
same_repo_counter-agrees a b k h = ground (
  arith,
  same→eq a.scope.repo_id b.scope.repo_id,
  same→eq a.day b.day,
  same→eq a.subject b.subject,
  ==_iff (metric_code a.metric) (metric_code b.metric),
)

same_repo_counter-IsCounter :
    IsCounter same_repo_counter (λ a. a.count) (λ n a. record a { count = n })
unfolding same_repo_counter
same_repo_counter-IsCounter = record {
  counts = λ n a. refl;
  keeps_key = λ n a k. refl;
  agrees = same_repo_counter-agrees;
}

abbrev pub repo_total : UsageIncrement → List UsageIncrement → ℕ
repo_total = total same_repo_counter (λ a. a.count)

abbrev pub repo_reported : UsageIncrement → List Report → ℕ
repo_reported = reported same_repo_counter (λ a. a.count) (λ r. r.increments)

-- What a recorder holds of a key, in its buffer and in the writes that it asked for.
abbrev pub kept : UsageIncrement → UsageRecorder → ℕ
kept key s = repo_total key s.buffer + repo_reported key s.writing

-- How often some events count under a key.
module _ (p : Platform) where
  abbrev pub repo_counts_as : UsageIncrement → Event → ℕ
  repo_counts_as key (counted now later mount metric subject) =
      if ltb max_subject_length (length subject)
      then 0
      else if is_public mount.visibility
          && same_repo_counter (repo_one mount (usage_day_of p now) metric subject) key
      then 1
      else 0
  repo_counts_as key (seen now later mount address app) = 0
  repo_counts_as key (ticked now) = 0
  repo_counts_as key started = 0
  repo_counts_as key (closed now) = 0

  abbrev pub repo_counts_in : UsageIncrement → List Event → ℕ
  repo_counts_in key [] = 0
  repo_counts_in key (e ∷ es) = repo_counts_as key e + repo_counts_in key es

flush-kept :
    (p : Platform) (now : ℕ) (key : UsageIncrement) (s : UsageRecorder)
    → kept key (flush p now s) ≡ kept key s
unfolding flush
flush-kept p now key s = omega (
  arith,
  reported_if same_repo_counter (λ a. a.count) (λ r. r.increments) _ key s.writing _
      (total_of_first same_repo_counter (λ a. a.count) key (is_empty s.service_buffer)
        (is_empty s.clients) (is_empty s.service_clients) _ s.buffer),
)

flush_if-kept :
    (b : Bool) (p : Platform) (now : ℕ) (key : UsageIncrement) (s : UsageRecorder)
    → kept key (if b then flush p now s else s) ≡ kept key s
flush_if-kept true p now key s = flush-kept p now key s
flush_if-kept false p now key s = refl

add_count-kept :
    (key : UsageIncrement) (day : UsageDay) (mount : RecordedMount) (metric : CountedMetric)
    (subject : Text) (s : UsageRecorder)
    → kept key (add_count day mount metric subject s)
      ≡ kept key s
        + (if is_public mount.visibility
              && same_repo_counter (repo_one mount day metric subject) key
            then 1
            else 0)
unfolding add_count add_repo
add_count-kept key day mount metric subject s = ground (
  arith,
  total-add_to same_repo_counter (λ a. a.count) _ same_repo_counter-IsCounter key
      (repo_one mount day metric subject) s.buffer refl,
)

count-kept :
    (p : Platform) (o : UsageRecorderOptions) (now later : ℕ) (mount : RecordedMount)
    (metric : CountedMetric) (subject : Text) (key : UsageIncrement) (s : UsageRecorder)
    → kept key (count p o now later mount metric subject s)
      ≡ kept key s + repo_counts_as p key (counted now later mount metric subject)
unfolding count
count-kept p o now later mount metric subject key s =
    elim (Bool-cases (ltb max_subject_length (length subject))) [
      | inl long ↦ rw long (omega arith)
      | inr fits ↦ rw fits (
          flush_if-kept _ p later key _
          ∙ add_count-kept key (usage_day_of p now) mount metric subject s)
    ]

-- The calls that note a client leave the counters alone.
abbrev SameRepoCounters : UsageRecorder → UsageRecorder → Type 0
SameRepoCounters s t = (s.buffer ≡ t.buffer) × (s.writing ≡ t.writing)

add_client-SameRepoCounters :
    (p : Platform) (secret : Text) (day : UsageDay) (mount : RecordedMount) (address : Text)
    (app : Option Text) (s : UsageRecorder)
    → SameRepoCounters (add_client p secret day mount address app s) s
unfolding add_client note_client note_service_client forget_days_before
add_client-SameRepoCounters p secret day mount address app s = ground arith

client-kept :
    (p : Platform) (o : UsageRecorderOptions) (now later : ℕ) (mount : RecordedMount)
    (address app : Option Text) (key : UsageIncrement) (s : UsageRecorder)
    → kept key (client p o now later mount address app s) ≡ kept key s
unfolding client
client-kept p o now later mount none app key s = refl
client-kept p o now later mount (some address) app key s = elim (Bool-cases (is_empty address)) [
  | inl e ↦ rw e refl
  | inr n ↦
      let (same_buffer, same_writing) =
        add_client-SameRepoCounters p o.secret (usage_day_of p now) mount address app s in
      let s' = add_client p o.secret (usage_day_of p now) mount address app s in
      rw n (
        flush_if-kept _ p later key s'
        ∙ omega (arith, ap (repo_total key) same_buffer, ap (repo_reported key) same_writing))
]

step-kept :
    (p : Platform) (o : UsageRecorderOptions) (key : UsageIncrement) (e : Event) (s : UsageRecorder)
    → kept key (step p o e s) ≡ kept key s + repo_counts_as p key e
unfolding step start close
step-kept p o key (counted now later mount metric subject) s =
    count-kept p o now later mount metric subject key s
step-kept p o key (seen now later mount address app) s =
    omega (arith, client-kept p o now later mount address app key s)
step-kept p o key (ticked now) s = omega (arith, flush-kept p now key s)
step-kept p o key started s = omega arith
step-kept p o key (closed now) s = omega (arith, flush-kept p now key (record s { timer = false }))

-- Whatever happens to a recorder, in whatever order, what it holds of a counter of a repository, in
-- its buffer and in the writes that it asked for, grows by the number of the calls that count under
-- its key, with a subject that is not too long, for a mount whose repository is public: no such
-- count is lost or made up, and a call for any other repository counts for none.
pub run-kept :
    (p : Platform) (o : UsageRecorderOptions) (key : UsageIncrement) (events : List Event)
    (s : UsageRecorder)
    → kept key (run p o events s) ≡ kept key s + repo_counts_in p key events
unfolding run
run-kept p o key [] s = omega arith
run-kept p o key (e ∷ es) s =
    omega (arith, run-kept p o key es (step p o e s), step-kept p o key e s)
