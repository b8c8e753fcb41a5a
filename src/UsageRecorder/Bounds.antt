-- ===== src/UsageRecorder/Bounds.antt =====
-- What a recorder keeps is bounded.
use skillcdn.Common.{
  ℕ, suc, ◌+◌, ◌-◌, ◌≤◌, ◌≡◌, refl, ap, Bool, true, false, List, [], ◌∷◌, ltb, leb, if◌then◌else◌,
  not, length, length-append, arith, Bool-cases, inl, inr, is_empty, Option, none, some,
}
use skillcdn.Text.{Text}
use skillcdn.UsageRecorder.{
  Platform, UsageDay, usage_day_of, CountedMetric, RecordedMount, UsageClient, ServiceUsageClient,
  KnownClient, max_remembered_clients, max_apps_per_day, max_subject_length, UsageRecorderOptions,
  max_buffered_of, UsageRecorder, flush, client_hash, normalize_client_app, is_public,
}
use skillcdn.UsageRecorder.Counters.{count, add_count}
use skillcdn.UsageRecorder.Clients.{
  client, add_client, note_client, note_service_client, forget_days_before, app_of, set_known,
}
use skillcdn.UsageRecorder.Events.{
  Event, counted, seen, ticked, started, closed, step, run, start, close,
}

-- The bounds between two calls: with a limit of 0 nothing stays in the buffers.
pub record IsBounded (o : UsageRecorderOptions) (s : UsageRecorder) : Type 0 where
  pub counters : length s.buffer + length s.service_buffer ≤ max_buffered_of o - 1
  pub noted : length s.clients + length s.service_clients ≤ max_buffered_of o - 1
  pub known : length s.remembered ≤ max_remembered_clients
  pub service_known : length s.service_remembered ≤ max_remembered_clients
  pub names : length s.apps ≤ max_apps_per_day

module _ {o : UsageRecorderOptions} (p : Platform) where
  flush-IsBounded : (now : ℕ) {s : UsageRecorder} → IsBounded o s → IsBounded o (flush p now s)
  unfolding flush
  flush-IsBounded now v = record {
    counters = omega arith;
    noted = omega arith;
    known = v.known;
    service_known = v.service_known;
    names = v.names;
  }

-- The sets of what was written today, which no write empties.
pub record IsRemembering (s : UsageRecorder) : Type 0 where
  pub known : length s.remembered ≤ max_remembered_clients
  pub service_known : length s.service_remembered ≤ max_remembered_clients
  pub names : length s.apps ≤ max_apps_per_day

length-set_known-le :
    (one : KnownClient) (known : List KnownClient)
    → length (set_known one known) ≤ suc (length known)
unfolding set_known
length-set_known-le one [] = omega arith
length-set_known-le one (k ∷ known) = ground (arith, length-set_known-le one known)

forget-IsRemembering :
    (day : UsageDay) {s : UsageRecorder}
    → IsRemembering s
    → IsRemembering (forget_days_before day s)
unfolding forget_days_before
forget-IsRemembering day v = ground arith

length-app_of-le :
    (p : Platform) (name : Option Text) (apps : List Text)
    → length apps ≤ max_apps_per_day
    → length (app_of p name apps).0 ≤ max_apps_per_day
unfolding app_of
length-app_of-le p name apps h =
    ground (arith, length-append apps (normalize_client_app p name ∷ []))

note_client-IsRemembering :
    (one : UsageClient) {s : UsageRecorder} → IsRemembering s → IsRemembering (note_client one s)
unfolding note_client
note_client-IsRemembering one {s} v = ground (
  arith,
  length-append s.remembered
      (record { repo_id = one.scope.repo_id; day = one.day; client = one.client } ∷ []),
)

note_service_client-IsRemembering :
    (one : ServiceUsageClient) {s : UsageRecorder}
    → IsRemembering s
    → IsRemembering (note_service_client one s)
unfolding note_service_client
note_service_client-IsRemembering seen_one {s} v =
    let one : KnownClient = record {
      day = seen_one.day;
      client = seen_one.client;
      with_app = not (is_empty seen_one.app);
    } in
    ground (arith, length-set_known-le one s.service_remembered, length-set_known-le one [])

add_client-IsRemembering :
    (p : Platform) (secret : Text) (day : UsageDay) (mount : RecordedMount) (address : Text)
    (app : Option Text) {s : UsageRecorder}
    → IsRemembering s
    → IsRemembering (add_client p secret day mount address app s)
unfolding add_client
add_client-IsRemembering p secret day mount address app {s} v = go (is_public mount.visibility)
  where
    s1 : UsageRecorder
    s1 = forget_days_before day s

    s2 : UsageRecorder
    s2 =
        note_service_client
          (record {
            day = day;
            client = client_hash p secret day address;
            app = (app_of p app s1.apps).1;
          })
          (record s1 { apps = (app_of p app s1.apps).0 })

    forgotten : IsRemembering s1
    forgotten = forget-IsRemembering day v

    noted : IsRemembering s2
    noted = note_service_client-IsRemembering _ (record {
      known = forgotten.known;
      service_known = forgotten.service_known;
      names = length-app_of-le p app s1.apps forgotten.names;
    })

    go :
        (b : Bool)
        → IsRemembering (
            if b
            then note_client
                (record {
                  scope = record { account_id = mount.account_id; repo_id = mount.repo_id };
                  day = day;
                  client = client_hash p secret day address;
                })
                s2
            else s2)
    go true = note_client-IsRemembering _ noted
    go false = noted

add_client-counters :
    (p : Platform) (secret : Text) (day : UsageDay) (mount : RecordedMount) (address : Text)
    (app : Option Text) (s : UsageRecorder)
    → ((add_client p secret day mount address app s).buffer ≡ s.buffer)
      × ((add_client p secret day mount address app s).service_buffer ≡ s.service_buffer)
unfolding add_client note_client note_service_client forget_days_before
add_client-counters p secret day mount address app s = ground arith

abbrev remembering :
    {o : UsageRecorderOptions} {s : UsageRecorder} → IsBounded o s → IsRemembering s
remembering v = record { known = v.known; service_known = v.service_known; names = v.names }

-- What an early write leaves is empty; without one, the test says that the buffers are small.
written_early :
    (o : UsageRecorderOptions) (p : Platform) (later : ℕ) (s : UsageRecorder) (b : Bool)
    → IsRemembering s
    → (b ≡ false → length s.buffer + length s.service_buffer ≤ max_buffered_of o - 1)
    → (b ≡ false → length s.clients + length s.service_clients ≤ max_buffered_of o - 1)
    → IsBounded o (if b then flush p later s else s)
unfolding flush
written_early o p later s true v h k = record {
  counters = omega arith;
  noted = omega arith;
  known = v.known;
  service_known = v.service_known;
  names = v.names;
}
written_early o p later s false v h k = record {
  counters = h refl;
  noted = k refl;
  known = v.known;
  service_known = v.service_known;
  names = v.names;
}

below_limit : (limit n : ℕ) → leb limit n ≡ false → n ≤ limit - 1
below_limit limit n h = ground arith

module _ (o : UsageRecorderOptions) (p : Platform) {s : UsageRecorder} (v : IsBounded o s) where
  count-IsBounded :
      (now later : ℕ) (mount : RecordedMount) (metric : CountedMetric) (subject : Text)
      → IsBounded o (count p o now later mount metric subject s)
  unfolding count
  count-IsBounded now later mount metric subject =
      elim (Bool-cases (ltb max_subject_length (length subject))) [
        | inl long ↦ rw long v
        | inr fits ↦ rw fits (
            counted_once (add_count (usage_day_of p now) mount metric subject s) refl refl refl refl
              refl)
      ]
    where
      counted_once :
          (s' : UsageRecorder)
          → s'.clients ≡ s.clients
          → s'.service_clients ≡ s.service_clients
          → s'.remembered ≡ s.remembered
          → s'.service_remembered ≡ s.service_remembered
          → s'.apps ≡ s.apps
          → IsBounded o (
              if leb (max_buffered_of o) (length s'.buffer + length s'.service_buffer)
              then flush p later s'
              else s')
      counted_once s' a b c d e =
          written_early o p later s' _
            (record {
              known = rw c v.known;
              service_known = rw d v.service_known;
              names = rw e v.names;
            })
            (below_limit (max_buffered_of o) _) (λ _. rw (a, b) v.noted)

  client-IsBounded :
      (now later : ℕ) (mount : RecordedMount) (address app : Option Text)
      → IsBounded o (client p o now later mount address app s)
  unfolding client
  client-IsBounded now later mount none app = v
  client-IsBounded now later mount (some address) app = elim (Bool-cases (is_empty address)) [
    | inl e ↦ rw e v
    | inr n ↦
        let day = usage_day_of p now in
        let (a, b) = add_client-counters p o.secret day mount address app s in
        rw n (
          written_early o p later (add_client p o.secret day mount address app s) _
            (add_client-IsRemembering p o.secret day mount address app (remembering v))
            (λ _. omega (arith, v.counters, ap length a, ap length b))
            (below_limit (max_buffered_of o) _))
  ]

step-IsBounded :
    (p : Platform) (o : UsageRecorderOptions) (e : Event) {s : UsageRecorder}
    → IsBounded o s
    → IsBounded o (step p o e s)
unfolding step start close
step-IsBounded p o (counted now later mount metric subject) v =
    count-IsBounded o p v now later mount metric subject
step-IsBounded p o (seen now later mount address app) v =
    client-IsBounded o p v now later mount address app
step-IsBounded p o (ticked now) v = flush-IsBounded p now v
step-IsBounded p o started v = ground arith
step-IsBounded p o (closed now) {s} v =
    flush-IsBounded p now {s = record s { timer = false }} (ground arith)

-- After every list of events a recorder holds fewer counters, and fewer clients, than the limit at
-- which it writes early (none, for a limit of 0), it remembers no more clients than it may, and it
-- knows no more names of apps than are written down in a day.
pub run-IsBounded :
    (p : Platform) (o : UsageRecorderOptions) (events : List Event) {s : UsageRecorder}
    → IsBounded o s
    → IsBounded o (run p o events s)
unfolding run
run-IsBounded p o [] v = v
run-IsBounded p o (e ∷ es) v = run-IsBounded p o es (step-IsBounded p o e v)
