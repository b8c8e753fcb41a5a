-- ===== src/UsageRecorder/Totals.antt =====
-- No count of the deployment is lost or made up between two writes.
use skillcdn.Common.{
  ℕ, ◌+◌, ◌≡◌, refl, ap, ◌∙◌, Bool, true, false, List, [], ◌∷◌, ltb, if◌then◌else◌, length, arith,
  Bool-cases, inl, inr, is_empty, Option, none, some, ==_iff,
}
use skillcdn.Text.{Text}
use skillcdn.Text.Compare.{same→eq}
use skillcdn.UsageRecorder.{
  Platform, UsageDay, usage_day_of, CountedMetric, metric_code, RecordedMount,
  ServiceUsageIncrement, max_subject_length, UsageRecorderOptions, UsageRecorder, Report, flush,
}
use skillcdn.UsageRecorder.Counters.{same_counter, add_service, service_one, add_count, count}
use skillcdn.UsageRecorder.Clients.{
  client, add_client, note_client, note_service_client, forget_days_before,
}
use skillcdn.UsageRecorder.Sums.{
  IsCounter, total, total-add_to, reported, reported_if, total_of_empty,
}
use skillcdn.UsageRecorder.Events.{
  Event, counted, seen, ticked, started, closed, step, run, start, close,
}

same_counter-agrees :
    (a b k : ServiceUsageIncrement) → same_counter a b ≡ true → same_counter a k ≡ same_counter b k
unfolding same_counter
same_counter-agrees a b k h = ground (
  arith,
  same→eq a.day b.day,
  same→eq a.subject b.subject,
  ==_iff (metric_code a.metric) (metric_code b.metric),
)

same_counter-IsCounter : IsCounter same_counter (λ a. a.count) (λ n a. record a { count = n })
unfolding same_counter
same_counter-IsCounter = record {
  counts = λ n a. refl;
  keeps_key = λ n a k. refl;
  agrees = same_counter-agrees;
}

abbrev pub service_total : ServiceUsageIncrement → List ServiceUsageIncrement → ℕ
service_total = total same_counter (λ a. a.count)

abbrev pub service_reported : ServiceUsageIncrement → List Report → ℕ
service_reported = reported same_counter (λ a. a.count) (λ r. r.service_increments)

-- What a recorder holds of a key, in its buffer and in the writes that it asked for.
abbrev pub held : ServiceUsageIncrement → UsageRecorder → ℕ
held key s = service_total key s.service_buffer + service_reported key s.writing

-- How often some events count under a key.
module _ (p : Platform) where
  abbrev pub counts_as : ServiceUsageIncrement → Event → ℕ
  counts_as key (counted now later mount metric subject) =
      if ltb max_subject_length (length subject)
      then 0
      else if same_counter (service_one (usage_day_of p now) metric subject) key
      then 1
      else 0
  counts_as key (seen now later mount address app) = 0
  counts_as key (ticked now) = 0
  counts_as key started = 0
  counts_as key (closed now) = 0

  abbrev pub counts_in : ServiceUsageIncrement → List Event → ℕ
  counts_in key [] = 0
  counts_in key (e ∷ es) = counts_as key e + counts_in key es

flush-held :
    (p : Platform) (now : ℕ) (key : ServiceUsageIncrement) (s : UsageRecorder)
    → held key (flush p now s) ≡ held key s
unfolding flush
flush-held p now key s = omega (
  arith,
  reported_if same_counter (λ a. a.count) (λ r. r.service_increments) _ key s.writing _
      (total_of_empty same_counter (λ a. a.count) key (is_empty s.buffer) (is_empty s.clients)
        (is_empty s.service_clients) _ s.service_buffer),
)

flush_if-held :
    (b : Bool) (p : Platform) (now : ℕ) (key : ServiceUsageIncrement) (s : UsageRecorder)
    → held key (if b then flush p now s else s) ≡ held key s
flush_if-held true p now key s = flush-held p now key s
flush_if-held false p now key s = refl

add_count-held :
    (key : ServiceUsageIncrement) (day : UsageDay) (mount : RecordedMount) (metric : CountedMetric)
    (subject : Text) (s : UsageRecorder)
    → held key (add_count day mount metric subject s)
      ≡ held key s + (if same_counter (service_one day metric subject) key then 1 else 0)
unfolding add_count add_service
add_count-held key day mount metric subject s = omega (
  arith,
  total-add_to same_counter (λ a. a.count) _ same_counter-IsCounter key
      (service_one day metric subject) s.service_buffer refl,
)

count-held :
    (p : Platform) (o : UsageRecorderOptions) (now later : ℕ) (mount : RecordedMount)
    (metric : CountedMetric) (subject : Text) (key : ServiceUsageIncrement) (s : UsageRecorder)
    → held key (count p o now later mount metric subject s)
      ≡ held key s + counts_as p key (counted now later mount metric subject)
unfolding count
count-held p o now later mount metric subject key s =
    elim (Bool-cases (ltb max_subject_length (length subject))) [
      | inl long ↦ rw long (omega arith)
      | inr fits ↦ rw fits (
          flush_if-held _ p later key _
          ∙ add_count-held key (usage_day_of p now) mount metric subject s)
    ]

-- The calls that note a client leave the counters alone.
abbrev SameCounters : UsageRecorder → UsageRecorder → Type 0
SameCounters s t = (s.service_buffer ≡ t.service_buffer) × (s.writing ≡ t.writing)

add_client-SameCounters :
    (p : Platform) (secret : Text) (day : UsageDay) (mount : RecordedMount) (address : Text)
    (app : Option Text) (s : UsageRecorder)
    → SameCounters (add_client p secret day mount address app s) s
unfolding add_client note_client note_service_client forget_days_before
add_client-SameCounters p secret day mount address app s = ground arith

client-held :
    (p : Platform) (o : UsageRecorderOptions) (now later : ℕ) (mount : RecordedMount)
    (address app : Option Text) (key : ServiceUsageIncrement) (s : UsageRecorder)
    → held key (client p o now later mount address app s) ≡ held key s
unfolding client
client-held p o now later mount none app key s = refl
client-held p o now later mount (some address) app key s = elim (Bool-cases (is_empty address)) [
  | inl e ↦ rw e refl
  | inr n ↦
      let (same_buffer, same_writing) =
        add_client-SameCounters p o.secret (usage_day_of p now) mount address app s in
      let s' = add_client p o.secret (usage_day_of p now) mount address app s in
      rw n (
        flush_if-held _ p later key s'
        ∙ omega (arith, ap (service_total key) same_buffer, ap (service_reported key) same_writing))
]

step-held :
    (p : Platform) (o : UsageRecorderOptions) (key : ServiceUsageIncrement) (e : Event)
    (s : UsageRecorder)
    → held key (step p o e s) ≡ held key s + counts_as p key e
unfolding step start close
step-held p o key (counted now later mount metric subject) s =
    count-held p o now later mount metric subject key s
step-held p o key (seen now later mount address app) s =
    omega (arith, client-held p o now later mount address app key s)
step-held p o key (ticked now) s = omega (arith, flush-held p now key s)
step-held p o key started s = omega arith
step-held p o key (closed now) s = omega (arith, flush-held p now key (record s { timer = false }))

-- Whatever happens to a recorder, in whatever order, what it holds of a counter of the deployment, in
-- its buffer and in the writes that it asked for, grows by the number of the calls that count under
-- its key with a subject that is not too long: no count is lost, none is made up and none is
-- counted twice.
pub run-held :
    (p : Platform) (o : UsageRecorderOptions) (key : ServiceUsageIncrement) (events : List Event)
    (s : UsageRecorder)
    → held key (run p o events s) ≡ held key s + counts_in p key events
unfolding run
run-held p o key [] s = omega arith
run-held p o key (e ∷ es) s =
    omega (arith, run-held p o key es (step p o e s), step-held p o key e s)
