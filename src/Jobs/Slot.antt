-- ===== src/Jobs/Slot.antt =====
-- The fields of `JobRunner` (api/jobs/runner.py) with the tasks that the event loop holds for it,
-- and the statements of its methods: they change this state and may raise.
use minimax_music3_webui.Prelude.{
  ℕ, String, Bool, false, Option, none, some, List, [], ◌==◌, if◌then◌else◌,
}
use minimax_music3_webui.Prelude.Result.{Result, ok, err}
use minimax_music3_webui.Json.{Fields}
use minimax_music3_webui.Engine.{EngineRequest, EngineResult}
use minimax_music3_webui.Jobs.Store.{JobRecord, JobStore, JobError}

-- How an awaited engine call ends: its value, its `EngineError`, or its `CancelledError`.
pub data Outcome : Type 0 where
  returned : EngineResult → Outcome
  engine_error : String → Outcome
  aborted : Outcome

-- A task of `asyncio.create_task(engine.generate(request))`. After `cancel` it still has to end.
pub data TaskState : Type 0 where
  pending cancelling : TaskState
  done : Outcome → TaskState

pub record Task : Type 0 where
  pub job : String
  pub request : EngineRequest
  pub state : TaskState

-- Where the worker coroutine stands: not started, at `queue.get`, at `ensure_ready`, at the engine
-- call, or ended.
pub data Worker : Type 0 where
  absent idle exited : Worker
  awaiting_ready : String → Worker
  awaiting_engine : String → EngineRequest → Worker

-- What `write_artifact` does: return, raise one of the three exceptions that the runner catches,
-- or raise another.
pub data Written : Type 0 where
  written crashed : Written
  refused : String → Written

pub record Settings (Disk : Type 0) : Type 0 where
  pub model : String
  pub artifacts_root : Option String
  pub write_artifact : String → JobRecord → Fields → Disk → Disk × Written

pub record Slot (Disk : Type 0) : Type 0 where
  pub store : JobStore
  pub queue : List String
  pub cancelled : List String
  pub current : Option String
  pub current_task : Option ℕ
  pub tasks : ℕ → Option Task
  pub created : ℕ
  pub worker : Worker
  pub must_cancel : Bool
  pub leases : ℕ
  pub disk : Disk

pub data Exc : Type 0 where
  job_error : JobError → Exc
  cancelled_error other_error : Exc

abbrev pub M : Type 0 → Type 0 → Type 0
M Disk A = Slot Disk → Result Exc A × Slot Disk

module _ {Disk : Type 0} where
  module _ {A : Type 0} where
    abbrev pub pure : A → M Disk A
    pure a s = (ok a, s)

    abbrev pub throw : Exc → M Disk A
    throw e s = (err e, s)

    -- A method of the store that returns a value and changes it.
    abbrev pub with_store : (JobStore → Result JobError (A × JobStore)) → M Disk A
    with_store f s = elim (f s.store) [
      | ok (a, store') ↦ (ok a, record s { store = store' })
      | err e ↦ (err (job_error e), s)
    ]

    -- A method of the store that only reads it.
    abbrev pub ask_store : (JobStore → Result JobError A) → M Disk A
    ask_store f s = elim (f s.store) [ ok a ↦ (ok a, s) | err e ↦ (err (job_error e), s) ]

    -- `try: body` / `finally: cleanup`, for a cleanup that only assigns.
    abbrev pub try_finally : M Disk A → (Slot Disk → Slot Disk) → M Disk A
    try_finally body cleanup s = let (r, s') = body s in (r, cleanup s')

  abbrev pub modify : (Slot Disk → Slot Disk) → M Disk (Unit {0})
  modify f s = (ok tt, f s)

  infixl 5 ◌>>=◌ ◌>>◌
  abbrev pub ◌>>=◌ : {A B : Type 0} → M Disk A → (A → M Disk B) → M Disk B
  ◌>>=◌ m f s = let (r, s') = m s in elim r [ ok a ↦ f a s' | err e ↦ (err e, s') ]

  abbrev pub ◌>>◌ : {A B : Type 0} → M Disk A → M Disk B → M Disk B
  m >> k = m >>= λ _. k

-- tasks[i] = t
abbrev pub put_task : ℕ → Task → (ℕ → Option Task) → ℕ → Option Task
put_task i t tasks j = if i == j then some t else tasks j

abbrev cancel_state : TaskState → TaskState
cancel_state pending = cancelling
cancel_state cancelling = cancelling
cancel_state (done o) = done o

-- task.cancel(): a task that is done stays as it is.
unfoldable pub cancel_task : ℕ → (ℕ → Option Task) → ℕ → Option Task
cancel_task i tasks = elim (tasks i) [
  | none ↦ tasks
  | some t ↦ put_task i (record t { state = cancel_state t.state }) tasks
]

abbrev pub no_tasks : ℕ → Option Task
no_tasks i = none

-- JobRunner(store, …), with nothing written yet but `disk`.
unfoldable pub new_runner : {Disk : Type 0} → JobStore → Disk → Slot Disk
new_runner store disk = record {
  store = store;
  queue = [];
  cancelled = [];
  current = none;
  current_task = none;
  tasks = no_tasks;
  created = 0;
  worker = absent;
  must_cancel = false;
  leases = 0;
  disk = disk;
}
