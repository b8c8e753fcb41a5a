-- ===== src/UsageRecorder.antt =====
-- apps/server/src/stats/usage-recorder.ts: the counts that a process keeps between two writes. A map
-- whose keys are the JSON texts of what its values hold is the list of its values, which are
-- compared by what the keys are made of. The chain of writes is the list of the reports asked for.
pub mod Counters
pub mod Clients
pub mod Events
pub mod Sums
pub mod Totals
pub mod Repos
pub mod Bounds
mod Tests
use skillcdn.Common.{
  ℕ, zero, suc, ◌+◌, Bool, true, false, ◌&&◌, ◌||◌, not, List, [], ◌∷◌, ◌++◌, Option, none, some,
  ltb, leb, ◌==◌, if◌then◌else◌, length, is_empty, take,
}
use skillcdn.Text.{Text, codes, same, has}
use skillcdn.TextSafety.{code_points}
use skillcdn.License.Words.{is_space, squeeze, trim, trim_end}
use skillcdn.Percent.Points.{from_points}

-- What the recorder asks of the platform: the text of an instant, hashes, the hexadecimal text of
-- a digest, the code points of the category C, and `toLowerCase`.
pub record Platform : Type 0 where
  pub to_iso_string : ℕ → Text
  pub hmac_sha256 : Text → Text → Text
  pub hex : Text → Text
  pub is_other : ℕ → Bool
  pub lower : Text → Text

abbrev pub UsageDay : Type 0
UsageDay = Text

abbrev pub usage_day_of : Platform → ℕ → UsageDay
usage_day_of p instant = take 10 (p.to_iso_string instant)

pub data CountedMetric : Type 0 where
  connection tool_call skill_load file_read : CountedMetric

abbrev pub metric_code : CountedMetric → ℕ
metric_code connection = 0
metric_code tool_call = 1
metric_code skill_load = 2
metric_code file_read = 3

pub data Visibility : Type 0 where
  public private : Visibility

abbrev pub is_public : Visibility → Bool
is_public public = true
is_public private = false

-- What the recorder reads of a mount: `repo.accountId`, `repo.id` and `repo.repository.visibility`.
pub record RecordedMount : Type 0 where
  pub account_id : Text
  pub repo_id : Text
  pub visibility : Visibility

pub record RepoScope : Type 0 where
  pub account_id : Text
  pub repo_id : Text

pub record UsageIncrement : Type 0 where
  pub scope : RepoScope
  pub day : UsageDay
  pub metric : CountedMetric
  pub subject : Text
  pub count : ℕ

pub record ServiceUsageIncrement : Type 0 where
  pub day : UsageDay
  pub metric : CountedMetric
  pub subject : Text
  pub count : ℕ

pub record UsageClient : Type 0 where
  pub scope : RepoScope
  pub day : UsageDay
  pub client : Text

pub record ServiceUsageClient : Type 0 where
  pub day : UsageDay
  pub client : Text
  pub app : Text

abbrev pub default_max_buffered : ℕ
default_max_buffered = 10000

abbrev pub max_subject_length : ℕ
max_subject_length = 1024

abbrev pub max_remembered_clients : ℕ
max_remembered_clients = 200000

abbrev pub client_hash_length : ℕ
client_hash_length = 32

abbrev pub max_app_length : ℕ
max_app_length = 64

abbrev pub max_apps_per_day : ℕ
max_apps_per_day = 200

abbrev pub other_app : Text
other_app = codes "other"

unfoldable pub client_hash : Platform → Text → UsageDay → Text → Text
client_hash p secret day address =
    take client_hash_length (p.hex (p.hmac_sha256 (p.hmac_sha256 secret day) address))

-- `none` is a name that is no text.
unfoldable pub normalize_client_app : Platform → Option Text → Text
unfolding code_points squeeze is_space trim trim_end from_points
normalize_client_app p none = []
normalize_client_app p (some name) =
    let blank = λ (c : ℕ). p.is_other c || is_space c in
    let cleaned = p.lower (trim (from_points (squeeze b' ' blank false (code_points name)))) in
    if ltb max_app_length (length cleaned) then trim_end (take max_app_length cleaned) else cleaned

pub record UsageRecorderOptions : Type 0 where
  pub secret : Text
  pub max_buffered : Option ℕ

abbrev pub max_buffered_of : UsageRecorderOptions → ℕ
max_buffered_of o = elim o.max_buffered [ none ↦ default_max_buffered | some n ↦ n ]

-- What one write takes along; `fold` is the day before which the clients are folded.
pub record Report : Type 0 where
  pub clients : List UsageClient
  pub service_clients : List ServiceUsageClient
  pub increments : List UsageIncrement
  pub service_increments : List ServiceUsageIncrement
  pub fold : Option UsageDay

-- The keys of the sets and maps of what was written today.
pub record RepoClientKey : Type 0 where
  pub repo_id : Text
  pub day : UsageDay
  pub client : Text

pub record KnownClient : Type 0 where
  pub day : UsageDay
  pub client : Text
  pub with_app : Bool

pub record UsageRecorder : Type 0 where
  pub buffer : List UsageIncrement
  pub service_buffer : List ServiceUsageIncrement
  pub writing : List Report
  pub timer : Bool
  pub clients : List UsageClient
  pub service_clients : List ServiceUsageClient
  pub remembered : List RepoClientKey
  pub service_remembered : List KnownClient
  pub remembered_day : Option UsageDay
  pub apps : List Text
  pub folded_before : Option UsageDay

abbrev pub new_recorder : UsageRecorder
new_recorder = record {
  buffer = [];
  service_buffer = [];
  writing = [];
  timer = false;
  clients = [];
  service_clients = [];
  remembered = [];
  service_remembered = [];
  remembered_day = none;
  apps = [];
  folded_before = none;
}

-- A day that may be missing is another day.
abbrev pub other_day : Option UsageDay → UsageDay → Bool
other_day none day = true
other_day (some known) day = not (same known day)

-- `flush` at an instant.
unfoldable pub flush : Platform → ℕ → UsageRecorder → UsageRecorder
unfolding same
flush p now s =
    let today = usage_day_of p now in
    let fold = other_day s.folded_before today in
    let report : Report = record {
      clients = s.clients;
      service_clients = s.service_clients;
      increments = s.buffer;
      service_increments = s.service_buffer;
      fold = if fold then some today else none;
    } in
    let nothing =
      is_empty s.buffer
      && is_empty s.service_buffer
      && is_empty s.clients
      && is_empty s.service_clients
      && not fold in
    record s {
      buffer = [];
      service_buffer = [];
      clients = [];
      service_clients = [];
      folded_before = some today;
      writing = if nothing then s.writing else s.writing ++ (report ∷ []);
    }

-- The statements of one write, in their order.
pub data Statement : Type 0 where
  add_usage_clients : List UsageClient → Statement
  add_service_usage_clients : List ServiceUsageClient → Statement
  add_usage : List UsageIncrement → Statement
  add_service_usage : List ServiceUsageIncrement → Statement
  fold_usage_clients : UsageDay → Statement
  fold_service_usage_clients : UsageDay → Statement

abbrev pub statement_of {ℓ} : {A : Type ℓ} → (List A → Statement) → List A → List Statement
statement_of f items = if is_empty items then [] else f items ∷ []

unfoldable pub statements_of : Report → List Statement
statements_of r =
    statement_of add_usage_clients r.clients
    ++ (statement_of add_service_usage_clients r.service_clients
        ++ (statement_of add_usage r.increments
            ++ (statement_of add_service_usage r.service_increments ++ elim r.fold [
              | none ↦ []
              | some day ↦ fold_usage_clients day ∷ fold_service_usage_clients day ∷ []
            ])))
