-- ===== src/UsageRecorder/Counters.antt =====
-- `count` of apps/server/src/stats/usage-recorder.ts: the counters of the deployment and those of a
-- public repository.
use skillcdn.Common.{ℕ, ◌+◌, Bool, ◌&&◌, List, [], ◌∷◌, ltb, leb, ◌==◌, if◌then◌else◌, length}
use skillcdn.Text.{Text, same}
use skillcdn.UsageRecorder.{
  Platform, UsageDay, usage_day_of, CountedMetric, connection, tool_call, skill_load, file_read,
  metric_code, is_public, RecordedMount, RepoScope, UsageIncrement, ServiceUsageIncrement,
  max_subject_length, UsageRecorderOptions, max_buffered_of, UsageRecorder, flush,
}

-- `map.set(key, { …one, count: (map.get(key)?.count ?? 0) + 1 })`, of a `one` whose count is 1.
module _ {A : Type 0} (same_key : A → A → Bool) (count_of : A → ℕ) (with_count : ℕ → A → A) where
  unfoldable pub add_to : A → List A → List A
  add_to one [] = one ∷ []
  add_to one (a ∷ buffer) =
      let rest = add_to one buffer in
      if same_key a one then with_count (count_of a + 1) one ∷ buffer else a ∷ rest

-- Whether two increments have one key: `[day, metric, subject]`.
unfoldable pub same_counter : ServiceUsageIncrement → ServiceUsageIncrement → Bool
unfolding same
same_counter a b =
    same a.day b.day && metric_code a.metric == metric_code b.metric && same a.subject b.subject

-- The map's value of the key of `one`, whose count is 1, goes up by one.
-- `[repo.id, day, metric, subject]`.
unfoldable pub same_repo_counter : UsageIncrement → UsageIncrement → Bool
unfolding same
same_repo_counter a b =
    same a.scope.repo_id b.scope.repo_id
    && same a.day b.day
    && metric_code a.metric == metric_code b.metric
    && same a.subject b.subject

abbrev pub service_subject : CountedMetric → Text → Text
service_subject connection subject = []
service_subject tool_call subject = subject
service_subject skill_load subject = []
service_subject file_read subject = []

abbrev pub service_one : UsageDay → CountedMetric → Text → ServiceUsageIncrement
service_one day metric subject = record {
  day = day;
  metric = metric;
  subject = service_subject metric subject;
  count = 1;
}

abbrev pub scope_of : RecordedMount → RepoScope
scope_of mount = record { account_id = mount.account_id; repo_id = mount.repo_id }

abbrev pub repo_one : RecordedMount → UsageDay → CountedMetric → Text → UsageIncrement
repo_one mount day metric subject = record {
  scope = scope_of mount;
  day = day;
  metric = metric;
  subject = subject;
  count = 1;
}

unfoldable pub add_service :
    ServiceUsageIncrement → List ServiceUsageIncrement → List ServiceUsageIncrement
unfolding add_to same_counter
add_service = add_to same_counter (λ a. a.count) (λ n a. record a { count = n })

unfoldable pub add_repo : UsageIncrement → List UsageIncrement → List UsageIncrement
unfolding add_to same_repo_counter
add_repo = add_to same_repo_counter (λ a. a.count) (λ n a. record a { count = n })

-- The two `set`s of `count`.
unfoldable pub add_count :
    UsageDay → RecordedMount → CountedMetric → Text → UsageRecorder → UsageRecorder
unfolding add_service add_repo
add_count day mount metric subject s = record s {
  service_buffer = add_service (service_one day metric subject) s.service_buffer;
  buffer =
      if is_public mount.visibility
      then add_repo (repo_one mount day metric subject) s.buffer
      else s.buffer;
}

-- The clock is asked again where `count` writes early, `later`.
unfoldable pub count :
    Platform
    → UsageRecorderOptions
    → ℕ
    → ℕ
    → RecordedMount
    → CountedMetric
    → Text
    → UsageRecorder
    → UsageRecorder
unfolding add_count flush
count p o now later mount metric subject s =
    if ltb max_subject_length (length subject)
    then s
    else let s' = add_count (usage_day_of p now) mount metric subject s in
      if leb (max_buffered_of o) (length s'.buffer + length s'.service_buffer)
      then flush p later s'
      else s'
