-- ===== src/UsageRecorder/Clients.antt =====
-- `client` of apps/server/src/stats/usage-recorder.ts: the hashed clients of a day.
use skillcdn.Common.{
  ℕ, ◌+◌, Bool, true, false, ◌&&◌, ◌||◌, not, List, [], ◌∷◌, ◌++◌, Option, none, some, leb,
  if◌then◌else◌, length, is_empty, any, is_empty,
}
use skillcdn.Text.{Text, same, has}
use skillcdn.UsageRecorder.{
  Platform, UsageDay, usage_day_of, is_public, RecordedMount, UsageClient, ServiceUsageClient,
  RepoClientKey, KnownClient, max_remembered_clients, max_apps_per_day, other_app, client_hash,
  normalize_client_app, UsageRecorderOptions, max_buffered_of, UsageRecorder, flush, other_day,
}
use skillcdn.UsageRecorder.Counters.{scope_of}

unfoldable pub forget_days_before : UsageDay → UsageRecorder → UsageRecorder
unfolding same
forget_days_before day s =
    if other_day s.remembered_day day
    then record s { remembered = []; service_remembered = []; apps = []; remembered_day = some day }
    else s

-- The names known today and the name that is written down.
unfoldable pub app_of : Platform → Option Text → List Text → List Text × Text
unfolding normalize_client_app has
app_of p name apps =
    let app = normalize_client_app p name in
    if is_empty app || has apps app
    then (apps, app)
    else if leb max_apps_per_day (length apps)
    then (apps, other_app)
    else (apps ++ (app ∷ []), app)

unfoldable pub is_key : RepoClientKey → UsageClient → Bool
unfolding same
is_key key seen =
    same key.repo_id seen.scope.repo_id && same key.day seen.day && same key.client seen.client

-- `clients.set(key, seen)`: a key that is there keeps its place.
unfoldable pub set_client : UsageClient → List UsageClient → List UsageClient
unfolding same
set_client seen [] = seen ∷ []
set_client seen (a ∷ clients) =
    let rest = set_client seen clients in
    if same a.scope.repo_id seen.scope.repo_id && same a.day seen.day && same a.client seen.client
    then seen ∷ clients
    else a ∷ rest

unfoldable pub note_client : UsageClient → UsageRecorder → UsageRecorder
unfolding is_key set_client
note_client seen s =
    if any (λ key. is_key key seen) s.remembered
    then s
    else let kept = if leb max_remembered_clients (length s.remembered) then [] else s.remembered in
      record s {
        remembered =
            kept
            ++ (record { repo_id = seen.scope.repo_id; day = seen.day; client = seen.client } ∷ []);
        clients = set_client seen s.clients;
      }

-- `serviceRemembered.get(key)`.
unfoldable pub known_with_app : ServiceUsageClient → List KnownClient → Option Bool
unfolding same
known_with_app seen [] = none
known_with_app seen (k ∷ known) =
    if same k.day seen.day && same k.client seen.client
    then some k.with_app
    else known_with_app seen known

unfoldable pub set_known : KnownClient → List KnownClient → List KnownClient
unfolding same
set_known one [] = one ∷ []
set_known one (k ∷ known) =
    let rest = set_known one known in
    if same k.day one.day && same k.client one.client then one ∷ known else k ∷ rest

unfoldable pub set_service_client :
    ServiceUsageClient → List ServiceUsageClient → List ServiceUsageClient
unfolding same
set_service_client seen [] = seen ∷ []
set_service_client seen (a ∷ clients) =
    let rest = set_service_client seen clients in
    if same a.day seen.day && same a.client seen.client then seen ∷ clients else a ∷ rest

-- `knownWithApp === true || (knownWithApp === false && seen.app === "")`.
abbrev pub is_done : Option Bool → Text → Bool
is_done none app = false
is_done (some true) app = true
is_done (some false) app = is_empty app

unfoldable pub note_service_client : ServiceUsageClient → UsageRecorder → UsageRecorder
unfolding known_with_app set_known set_service_client
note_service_client seen s =
    if is_done (known_with_app seen s.service_remembered) seen.app
    then s
    else let kept =
        if leb max_remembered_clients (length s.service_remembered)
        then []
        else s.service_remembered in
      record s {
        service_remembered =
            set_known
              (record { day = seen.day; client = seen.client; with_app = not (is_empty seen.app) })
              kept;
        service_clients = set_service_client seen s.service_clients;
      }

-- `client` up to the test of the size, for an address that is known.
unfoldable pub add_client :
    Platform → Text → UsageDay → RecordedMount → Text → Option Text → UsageRecorder → UsageRecorder
unfolding forget_days_before app_of note_client note_service_client client_hash
add_client p secret day mount address app s =
    let s1 = forget_days_before day s in
    let hash = client_hash p secret day address in
    let (apps, name) = app_of p app s1.apps in
    let s2 =
      note_service_client (record { day = day; client = hash; app = name })
        (record s1 { apps = apps }) in
    if is_public mount.visibility
    then note_client (record { scope = scope_of mount; day = day; client = hash }) s2
    else s2

unfoldable pub client :
    Platform
    → UsageRecorderOptions
    → ℕ
    → ℕ
    → RecordedMount
    → Option Text
    → Option Text
    → UsageRecorder
    → UsageRecorder
unfolding add_client flush
client p o now later mount none app s = s
client p o now later mount (some address) app s =
    if is_empty address
    then s
    else let s' = add_client p o.secret (usage_day_of p now) mount address app s in
      if leb (max_buffered_of o) (length s'.clients + length s'.service_clients)
      then flush p later s'
      else s'
