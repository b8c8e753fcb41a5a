-- ===== src/UsageRecorder/Tests.antt =====
-- A recorder at work, and the theorems at inputs where their hypotheses hold.
use skillcdn.Common.{◌+◌, ◌≡◌, refl, false, List, [], ◌∷◌, some, take, arith, map, length}
use skillcdn.Text.{codes, same, has}
use skillcdn.TextSafety.{code_points, is_high_surrogate, is_low_surrogate, pair_point}
use skillcdn.Percent.Points.{from_points}
use skillcdn.Percent.{utf16}
use skillcdn.License.Words.{is_space, squeeze, skip_spaces, trim, trim_end}
use skillcdn.UsageRecorder.{
  Platform, public, private, tool_call, file_read, RecordedMount, UsageIncrement,
  ServiceUsageIncrement, UsageRecorderOptions, new_recorder, flush, normalize_client_app,
  client_hash, statements_of,
}
use skillcdn.UsageRecorder.Counters.{
  count, add_count, add_service, add_repo, add_to, same_counter, same_repo_counter, service_one,
  repo_one,
}
use skillcdn.UsageRecorder.Clients.{
  client, add_client, note_client, note_service_client, forget_days_before, app_of, known_with_app,
  set_known, set_service_client, set_client, is_key,
}
use skillcdn.UsageRecorder.Events.{Event, counted, seen, closed, step, run, start, close}
use skillcdn.UsageRecorder.Totals.{run-held, held, counts_in}
use skillcdn.UsageRecorder.Repos.{run-kept, kept, repo_counts_in}
use skillcdn.UsageRecorder.Bounds.{IsBounded, run-IsBounded}

computed : Unit {0}
unfolding same has code_points is_high_surrogate is_low_surrogate pair_point from_points utf16
    is_space squeeze skip_spaces trim flush normalize_client_app trim_end client_hash statements_of
    count add_count add_service add_repo add_to same_counter same_repo_counter client add_client
    note_client note_service_client forget_days_before app_of known_with_app set_known
    set_service_client set_client is_key step run start close
computed = tt

-- A platform whose days have ten instants, and whose hashes are short.
abbrev platform : Platform
platform = record {
  to_iso_string = λ instant. codes "2026-01-01T00";
  hmac_sha256 = λ key text. take 2 text;
  hex = λ digest. digest;
  is_other = λ c. false;
  lower = λ text. text;
}

abbrev options : UsageRecorderOptions
options = record { secret = codes "s"; max_buffered = some 3 }

abbrev shown : RecordedMount
shown = record { account_id = codes "a"; repo_id = codes "r"; visibility = public }

abbrev hidden : RecordedMount
hidden = record { account_id = codes "a"; repo_id = codes "q"; visibility = private }

abbrev events : List Event
events =
    counted 1 1 shown tool_call (codes "find")
    ∷ counted 2 2 hidden file_read (codes "notes.md")
    ∷ seen 3 3 shown (some (codes "::1")) (some (codes "  Agent \n X "))
    ∷ counted 4 4 shown tool_call (codes "find")
    ∷ closed 9
    ∷ []

app_name : normalize_client_app platform (some (codes "  Agent \n X ")) ≡ codes "Agent X"
unfolding computed
app_name = refl

abbrev find_counter : ServiceUsageIncrement
find_counter = service_one (codes "2026-01-01") tool_call (codes "find")

abbrev find_of_shown : UsageIncrement
find_of_shown = repo_one shown (codes "2026-01-01") tool_call (codes "find")

-- The call that is counted third reaches the limit and writes early.
writes :
    map (λ r. length (statements_of r)) (run platform options events new_recorder).writing
    ≡ 4 ∷ 4 ∷ []
unfolding computed
writes = refl

run-held_example :
    held find_counter (run platform options events new_recorder)
    ≡ held find_counter new_recorder + counts_in platform find_counter events
run-held_example = run-held platform options find_counter events new_recorder

two_finds : counts_in platform find_counter events ≡ 2
unfolding computed
two_finds = refl

run-kept_example :
    kept find_of_shown (run platform options events new_recorder)
    ≡ kept find_of_shown new_recorder + repo_counts_in platform find_of_shown events
run-kept_example = run-kept platform options find_of_shown events new_recorder

run-IsBounded_example : IsBounded options (run platform options events new_recorder)
run-IsBounded_example = run-IsBounded platform options events {s = new_recorder} (omega arith)
