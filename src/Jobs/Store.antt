-- ===== src/Jobs/Store.antt =====
-- api/jobs/store.py: job records, their pure transitions, and the store with its event logs.
-- A method of `JobStore` takes the store and returns the changed one; an exception is an `err`.
pub mod Transitions
pub mod Valid
use minimax_music3_webui.Prelude.{
  ℕ, ◌+◌, ◌-◌, String, Bool, true, false, Option, none, some, List, [], ◌∷◌, ◌++◌, length, drop,
  ltb, str_eq, if◌then◌else◌,
}
use minimax_music3_webui.Prelude.Table.{Table, put, empty}
use minimax_music3_webui.Prelude.Result.{Result, ok, err, ◌>>=◌}
use minimax_music3_webui.Json.{Fields}
use minimax_music3_webui.Engine.{EngineResult}
use minimax_music3_webui.Jobs.Events.{JobEvent}

pub data JobStatus : Type 0 where
  queued running succeeded failed cancelled : JobStatus

-- JobStatus.value
abbrev pub value : JobStatus → String
value queued = "queued"
value running = "running"
value succeeded = "succeeded"
value failed = "failed"
value cancelled = "cancelled"

-- status in _TERMINAL
abbrev pub is_terminal : JobStatus → Bool
is_terminal queued = false
is_terminal running = false
is_terminal _ = true

abbrev pub is_queued : JobStatus → Bool
is_queued queued = true
is_queued _ = false

abbrev pub is_running : JobStatus → Bool
is_running running = true
is_running _ = false

abbrev pub is_cancelled : JobStatus → Bool
is_cancelled cancelled = true
is_cancelled _ = false

pub record Submission : Type 0 where
  pub input : String
  pub instructions : String
  pub seed : ℕ
  pub max_new_tokens : ℕ
  pub cloud : Option Fields

pub record JobRecord : Type 0 where
  pub id : String
  pub submission : Submission
  pub status : JobStatus
  pub submitted_at : String
  pub started_at : Option String
  pub ended_at : Option String
  pub engine : Option String
  pub model : Option String
  pub audio : Option (List ℕ)
  pub content_type : Option String
  pub generation_time : Option ℕ
  pub error : Option String

pub data JobError : Type 0 where
  job_not_found : String → JobError
  job_transition : JobStatus → JobStatus → JobError
  key_error : String → JobError

unfoldable pub to_running : String → JobRecord → Result JobError JobRecord
to_running now job =
    if is_queued job.status
    then ok (record job { status = running; started_at = some now })
    else err (job_transition job.status running)

unfoldable pub to_succeeded : EngineResult → String → JobRecord → Result JobError JobRecord
to_succeeded result now job =
    if is_running job.status
    then ok (record job {
      status = succeeded;
      ended_at = some now;
      engine = some result.engine;
      model = some result.model;
      audio = some result.audio;
      content_type = some result.content_type;
      generation_time = some result.generation_time;
    })
    else err (job_transition job.status succeeded)

unfoldable pub to_failed : String → String → JobRecord → Result JobError JobRecord
to_failed error now job =
    if is_terminal job.status
    then err (job_transition job.status failed)
    else ok (record job { status = failed; ended_at = some now; error = some error })

unfoldable pub to_cancelled : String → JobRecord → Result JobError JobRecord
to_cancelled now job =
    if is_terminal job.status
    then err (job_transition job.status cancelled)
    else ok (record job { status = cancelled; ended_at = some now })

pub record JobStore : Type 0 where
  pub jobs : Table JobRecord
  pub events : Table (List JobEvent)
  pub seq : Table ℕ
  pub event_log_limit : ℕ

-- JobStore(event_log_limit); `none` is the ValueError.
unfoldable pub new_store : ℕ → Option JobStore
new_store limit =
    if ltb limit 1
    then none
    else some (record { jobs = empty; events = empty; seq = empty; event_log_limit = limit })

-- `job_id or uuid.uuid4().hex`
abbrev id_or : Option String → String → String
id_or none uuid = uuid
id_or (some job_id) uuid = if str_eq job_id "" then uuid else job_id

unfoldable pub fresh_record : String → Submission → String → JobRecord
fresh_record job_id submission now = record {
  id = job_id;
  submission = submission;
  status = queued;
  submitted_at = now;
  started_at = none;
  ended_at = none;
  engine = none;
  model = none;
  audio = none;
  content_type = none;
  generation_time = none;
  error = none;
}

-- `uuid` is the value of `uuid.uuid4().hex`.
unfoldable pub create :
    Submission → String → Option String → (uuid : String) → JobStore → JobRecord × JobStore
unfolding fresh_record
create submission now job_id uuid s =
    let id = id_or job_id uuid in
    let job = fresh_record id submission now in
    (job, record s { jobs = put id job s.jobs; events = put id [] s.events; seq = put id 0 s.seq })

unfoldable pub get : String → JobStore → Result JobError JobRecord
get job_id s = elim (s.jobs job_id) [ none ↦ err (job_not_found job_id) | some job ↦ ok job ]

unfoldable pub update :
    String
    → (JobRecord → Result JobError JobRecord)
    → JobStore
    → Result JobError (JobRecord × JobStore)
unfolding get
update job_id fn s = do
  job ← get job_id s
  updated ← fn job
  ok (updated, record s { jobs = put job_id updated s.jobs })

-- `deque(maxlen=limit).append`: the oldest entries give way.
unfoldable pub append_bounded : ℕ → List JobEvent → JobEvent → List JobEvent
append_bounded limit log event =
    let longer = log ++ event ∷ [] in drop (length longer - limit) longer

unfoldable pub append_event :
    String → String → Fields → JobStore → Result JobError (JobEvent × JobStore)
unfolding append_bounded
append_event job_id event_type payload s = elim (s.events job_id) [
  | none ↦ err (job_not_found job_id)
  | some entries ↦ elim (s.seq job_id) [
    | none ↦ err (key_error job_id)
    | some n ↦
        let event : JobEvent = record { id = n + 1; type = event_type; payload = payload } in
        ok (
          event,
          record s {
            seq = put job_id (n + 1) s.seq;
            events = put job_id (append_bounded s.event_log_limit entries event) s.events;
          },
        )
  ]
]

unfoldable pub log : String → JobStore → Result JobError (List JobEvent)
log job_id s = elim (s.events job_id) [
  | none ↦ err (job_not_found job_id)
  | some entries ↦ ok entries
]
