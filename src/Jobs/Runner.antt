-- ===== src/Jobs/Runner.antt =====
-- api/jobs/runner.py: the single-slot job runner. A coroutine runs without interruption from one
-- `await` to the next, so `_process` is cut there: `begin`, `after_ready` and `after_engine` are its
-- three stretches. The clock's readings are arguments.
use minimax_music3_webui.Prelude.{
  ℕ, ◌+◌, ◌-◌, String, Bool, true, false, Option, none, some, [], ◌∷◌, ◌++◌, str_eq, str_mem, ◌&&◌,
  ◌&◌, if◌then◌else◌,
}
use minimax_music3_webui.Prelude.Result.{ok, err}
use minimax_music3_webui.Json.{Fields, str, end, field}
use minimax_music3_webui.Engine.{EngineRequest, EngineResult, build_body}
use minimax_music3_webui.Lifecycle.Readiness
use minimax_music3_webui.Lifecycle.Readiness.{ReadinessState, ready, warming, unavailable}
use minimax_music3_webui.Jobs.Store.{
  JobStatus, queued, running, succeeded, failed, cancelled, value, is_terminal, is_running,
  JobRecord, job_transition, Submission, create, get, update, append_event, to_running,
  to_succeeded, to_failed, to_cancelled,
}
use minimax_music3_webui.Jobs.Slot.{
  Outcome, returned, engine_error, aborted, pending, Written, written, refused, crashed, Settings,
  Slot, job_error, cancelled_error, other_error, M, pure, throw, with_store, ask_store, try_finally,
  modify, put_task, cancel_task, ◌>>=◌, ◌>>◌,
}

-- What `ensure_ready()` gives: a state, with what `last_cause()` says then, or an exception.
pub data Answer : Type 0 where
  reported : ReadinessState → (cause : String) → Answer
  raised : Answer

-- How a stretch of `_process` ends: at its end, or at one of its two waits.
pub data Next : Type 0 where
  finished await_ready : Next
  await_engine : EngineRequest → Next

abbrev pub error_payload : String → Fields
error_payload message = field "error" (str message) end

abbrev pub not_ready_message : ReadinessState → String → String
not_ready_message state cause =
    "engine not ready: "
    & Readiness.value state
    & (if str_eq cause "" then "" else " (" & cause & ")")

abbrev pub is_ready : ReadinessState → Bool
is_ready ready = true
is_ready _ = false

-- option == some x, for texts
abbrev pub holds : Option String → String → Bool
holds none x = false
holds (some y) x = str_eq y x

module _ {Disk : Type 0} where
  -- _store.append_event(job_id, status.value, payload)
  abbrev pub emit : String → JobStatus → Fields → M Disk (Unit {0})
  emit job_id status payload = do with_store (append_event job_id (value status) payload); pure tt

  abbrev enter_queue : String → Slot Disk → Slot Disk
  enter_queue id s = record s { queue = s.queue ++ id ∷ [] }

  abbrev create_job : Submission → String → String → M Disk JobRecord
  create_job submission now uuid = with_store (λ store. ok (create submission now none uuid store))

  -- `uuid` is what `create` draws.
  unfoldable pub submit : Submission → String → String → M Disk JobRecord
  submit submission now uuid = do
    job ← create_job submission now uuid
    emit job.id queued end
    modify (enter_queue job.id)
    pure job

  abbrev pub abort_task : Option ℕ → Slot Disk → Slot Disk
  abort_task none s = s
  abort_task (some i) s = record s { tasks = cancel_task i s.tasks }

  -- The engine call is aborted if the job is running and holds the slot.
  abbrev pub abort_call : String → JobStatus → Slot Disk → Slot Disk
  abort_call job_id status s =
      if is_running status && holds s.current job_id then abort_task s.current_task s else s

  abbrev pub mark_cancelled : String → Slot Disk → Slot Disk
  mark_cancelled job_id s = record s { cancelled = job_id ∷ s.cancelled }

  unfoldable pub cancel : String → String → M Disk JobRecord
  cancel job_id now = do
    job ← ask_store (get job_id)
    if is_terminal job.status then throw (job_error (job_transition job.status cancelled)) else do
      modify (mark_cancelled job_id)
      modify (abort_call job_id job.status)
      updated ← with_store (update job_id (to_cancelled now))
      emit job_id cancelled end
      pure updated

  unfoldable pub ensure_cancelled : String → String → M Disk (Unit {0})
  ensure_cancelled job_id now = do
    job ← ask_store (get job_id)
    if is_terminal job.status
        then pure tt
        else do with_store (update job_id (to_cancelled now)); emit job_id cancelled end

  -- self._store.update(job_id, to_failed(message)); append_event(failed)
  unfoldable pub fail_job : String → String → String → M Disk Next
  fail_job job_id message now = do
    with_store (update job_id (to_failed message now))
    emit job_id failed (error_payload message)
    pure finished

  -- `if job_id in self._cancelled: self._ensure_cancelled(job_id); return`, else the rest.
  unfoldable pub unless_cancelled : String → String → M Disk Next → M Disk Next
  unfolding ensure_cancelled
  unless_cancelled job_id now rest s =
      if str_mem job_id s.cancelled
      then (do ensure_cancelled job_id now; pure finished) s
      else rest s

  unfoldable pub begin : String → String → M Disk Next
  unfolding unless_cancelled
  begin job_id now = unless_cancelled job_id now (pure await_ready)

  -- create_task(engine.generate(request)), the two assignments before it, and the entered lease.
  abbrev pub start_call : String → EngineRequest → Slot Disk → Slot Disk
  start_call job_id request s = record s {
    current = some job_id;
    current_task = some s.created;
    tasks =
        put_task s.created (record { job = job_id; request = request; state = pending }) s.tasks;
    created = s.created + 1;
    leases = s.leases + 1;
  }

  unfoldable pub run_job : Settings Disk → String → String → M Disk Next
  run_job settings job_id now = do
    with_store (update job_id (to_running now))
    emit job_id running end
    job ← ask_store (get job_id)
    let request : EngineRequest = record {
      model = settings.model;
      input = job.submission.input;
      instructions = job.submission.instructions;
      seed = job.submission.seed;
      max_new_tokens = job.submission.max_new_tokens;
    }
    modify (start_call job_id request)
    pure (await_engine request)

  unfoldable pub after_ready : Settings Disk → String → Answer → String → M Disk Next
  unfolding unless_cancelled fail_job run_job
  after_ready settings job_id raised now = throw other_error
  after_ready settings job_id (reported state cause) now = unless_cancelled job_id now (
      if is_ready state
      then run_job settings job_id now
      else fail_job job_id (not_ready_message state cause) now)

  -- The `except` of the write: false is the early return.
  abbrev pub after_write : String → String → Written → M Disk Bool
  after_write job_id later written = pure true
  after_write job_id later (refused exc) = do
    fail_job job_id ("artifact write failed: " & exc) later
    pure false
  after_write job_id later crashed = throw other_error

  -- Whether the record may be marked succeeded.
  unfoldable pub persist :
      Settings Disk
      → Option String
      → String
      → EngineResult
      → EngineRequest
      → (now later : String) → M Disk Bool
  unfolding fail_job
  persist settings none job_id result request now later = pure true
  persist settings (some root) job_id result request now later = do
    job ← ask_store (get job_id)
    completed ← ask_store (λ _. to_succeeded result now job)
    outcome ← (λ s.
        let (disk', w) = settings.write_artifact root completed (build_body request) s.disk in
        (ok w, record s { disk = disk' }))
    after_write job_id later outcome

  unfoldable pub persist_and_succeed :
      Settings Disk → String → EngineResult → EngineRequest → (now later : String) → M Disk Next
  unfolding persist
  persist_and_succeed settings job_id result request now later = do
    stored ← persist settings settings.artifacts_root job_id result request now later
    if stored
        then (do
          with_store (update job_id (to_succeeded result now))
          emit job_id succeeded end
          pure finished)
        else pure finished

  -- The worker's teardown: cancel the call and raise again.
  abbrev pub teardown : M Disk Next
  teardown s = (err cancelled_error, abort_task s.current_task s)

  -- The handlers behind the `await` of the engine call.
  unfoldable pub handle_outcome :
      Settings Disk → String → EngineRequest → Outcome → (now later : String) → M Disk Next
  unfolding unless_cancelled fail_job persist_and_succeed
  handle_outcome settings job_id request aborted now later = unless_cancelled job_id now teardown
  handle_outcome settings job_id request (engine_error message) now later =
      unless_cancelled job_id now (fail_job job_id message now)
  handle_outcome settings job_id request (returned result) now later =
      unless_cancelled job_id now (persist_and_succeed settings job_id result request now later)

  abbrev pub exit_lease : Slot Disk → Slot Disk
  exit_lease s = record s { leases = s.leases - 1 }

  abbrev pub clear_current : Slot Disk → Slot Disk
  clear_current s = record s { current = none; current_task = none }

  unfoldable pub after_engine :
      Settings Disk → String → EngineRequest → Outcome → (now later : String) → M Disk Next
  unfolding handle_outcome
  after_engine settings job_id request outcome now later =
      try_finally (do modify exit_lease; handle_outcome settings job_id request outcome now later)
        clear_current
