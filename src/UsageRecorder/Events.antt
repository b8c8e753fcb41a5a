-- ===== src/UsageRecorder/Events.antt =====
-- What happens to a recorder, as a list of events: calls of `count` and `client`, the timer, which
-- calls `flush`, `start` and `close`.
use skillcdn.Common.{ℕ, true, false, List, [], ◌∷◌, Option}
use skillcdn.Text.{Text}
use skillcdn.UsageRecorder.{
  Platform, UsageRecorderOptions, CountedMetric, RecordedMount, UsageRecorder, flush,
}
use skillcdn.UsageRecorder.Counters.{count}
use skillcdn.UsageRecorder.Clients.{client}

pub data Event : Type 0 where
  counted : ℕ → ℕ → RecordedMount → CountedMetric → Text → Event
  seen : ℕ → ℕ → RecordedMount → Option Text → Option Text → Event
  ticked : ℕ → Event
  started : Event
  closed : ℕ → Event

unfoldable pub start : UsageRecorder → UsageRecorder
start s = record s { timer = true }

unfoldable pub close : Platform → ℕ → UsageRecorder → UsageRecorder
unfolding flush
close p now s = flush p now (record s { timer = false })

unfoldable pub step : Platform → UsageRecorderOptions → Event → UsageRecorder → UsageRecorder
unfolding count client flush start close
step p o (counted now later mount metric subject) s = count p o now later mount metric subject s
step p o (seen now later mount address app) s = client p o now later mount address app s
step p o (ticked now) s = flush p now s
step p o started s = start s
step p o (closed now) s = close p now s

unfoldable pub run : Platform → UsageRecorderOptions → List Event → UsageRecorder → UsageRecorder
unfolding step
run p o [] s = s
run p o (e ∷ es) s = run p o es (step p o e s)
