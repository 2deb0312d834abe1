-- ===== src/Jobs/Tests.antt =====
-- The theorems on the jobs at concrete runs of the program.
use minimax_music3_webui.Prelude.{
  ◌⊎◌, ℕ, ◌≡◌, refl, true, false, none, some, List, [], ◌∷◌, length, drop, last?, suc, ◌≤◌, ◌-◌,
  str_mem,
}
use minimax_music3_webui.Prelude.Result.{ok, err}
use minimax_music3_webui.Prelude.Table.{empty}
use minimax_music3_webui.Engine.{EngineRequest, EngineResult}
use minimax_music3_webui.Lifecycle.Readiness.{ready}
use minimax_music3_webui.Jobs.Events.{JobEvent, events_since, is_terminal_event}
use minimax_music3_webui.Jobs.Events.Replay.{Ascends}
use minimax_music3_webui.Jobs.Store.{
  JobStore, JobRecord, Submission, new_store, fresh_record, running, succeeded, cancelled, log,
  job_transition, to_running, to_succeeded, to_cancelled, get, create, update, append_event,
}
use minimax_music3_webui.Jobs.Store.Transitions.{Moves, Made, succeed, transition_exact}
use minimax_music3_webui.Jobs.Slot.{
  Settings, Slot, new_runner, written, returned, engine_error, aborted, Outcome, idle, exited,
  awaiting_engine, cancel_task,
}
use minimax_music3_webui.Jobs.Runner.{submit, cancel, reported}
use minimax_music3_webui.Jobs.Loop.{
  take, resume_ready, start, stop, end_call, awaited, resume_engine,
}
use minimax_music3_webui.Jobs.Steps.{
  is_live, Reach, initial, next, submits, cancels, takes, answers, ends, starts, stops,
}
use minimax_music3_webui.Jobs.SingleFlight.{single_flight}
use minimax_music3_webui.Jobs.Logs.{log_mirrors_status, replay_resumes}
use minimax_music3_webui.Jobs.Frozen.Runs.{Run, rest, further, finished_stays}
use minimax_music3_webui.Jobs.Frozen.Cancels.{cancel_is_final}
use minimax_music3_webui.Jobs.Steps.Starting.{failed_job_of}
use minimax_music3_webui.Jobs.Endings.{
  IsReleased, recorded, engine_failure_frees, artifact_first, shutdown_ends, cancelled_goes_on,
}

abbrev settings : Settings Unit
settings = record {
  model = "music3";
  artifacts_root = some "/srv";
  write_artifact = λ root job body disk. (disk, written);
}

abbrev pub submission : Submission
submission = record {
  input = "la la";
  instructions = "folk";
  seed = 7;
  max_new_tokens = 100;
  cloud = none;
}

abbrev pub store : JobStore
store = record { jobs = empty; events = empty; seq = empty; event_log_limit = 2 }

abbrev new : Slot Unit
new = new_runner store tt

abbrev submitted : Slot Unit
submitted = (submit submission "t1" "a" (start new)).1

abbrev calling : Slot Unit
calling = resume_ready settings (reported ready "") "t2" (take "t2" submitted)

pub new_store_eq : new_store 2 ≡ some store
unfolding new_store
new_store_eq = refl

unused : (start new).store.jobs "a" ≡ none
unfolding start new_runner
unused = refl

calling-Reach : Reach settings calling
calling-Reach =
    next
      (next
        (next (next (initial 2 store tt new_store_eq) starts) (submits submission "t1" "a" unused))
        (takes "t2"))
      (answers (reported ready "") "t2")

calling_live : is_live calling 0 ≡ true
unfolding resume_ready take submit start new_runner append_event create update to_running
calling_live = refl

single_flight_example :
    (0 ≡ (let n : ℕ = 0 in n)) × (calling.current_task ≡ some 0) × (calling.leases ≡ 1)
single_flight_example = single_flight settings calling 0 0 calling-Reach calling_live calling_live

abbrev pub request : EngineRequest
request = record {
  model = "music3";
  input = "la la";
  instructions = "folk";
  seed = 7;
  max_new_tokens = 100;
}

abbrev pub running_job : JobRecord
running_job = record (fresh_record "a" submission "t1") { status = running; started_at = some "t2" }

calling_job : calling.store.jobs "a" ≡ some running_job
unfolding resume_ready take submit start new_runner append_event create update to_running
    fresh_record
calling_job = refl

calling_at : calling.worker ≡ awaiting_engine "a" request
unfolding resume_ready take submit start new_runner append_event create update to_running
calling_at = refl

log_mirrors_status_example :
    (entries : List JobEvent) × (last : JobEvent) × (log "a" calling.store ≡ ok entries)
    × (last? entries ≡ some last)
    × (last.type ≡ "running")
    × (is_terminal_event last ≡ false)
    × (length entries ≤ calling.store.event_log_limit)
log_mirrors_status_example =
    log_mirrors_status settings calling "a" running_job calling-Reach calling_job

replay_resumes_example :
    (entries : List JobEvent) × (dropped : ℕ) × (log "a" calling.store ≡ ok entries)
    × Ascends (suc dropped) entries
    × ((last_id : ℕ) → events_since entries (some last_id) ≡ drop (last_id - dropped) entries)
replay_resumes_example = replay_resumes settings calling "a" running_job calling-Reach calling_job

-- The call ends in one of three ways.
abbrev pub result : EngineResult
result = record {
  audio = 1 ∷ 2 ∷ [];
  content_type = "audio/wav";
  engine = "sglang-omni";
  model = "music3";
  generation_time = 5;
}

abbrev over : Outcome → Slot Unit
over outcome = end_call 0 outcome calling

over-Reach : (outcome : Outcome) → Reach settings (over outcome)
over-Reach outcome = next calling-Reach (ends 0 outcome calling_live)

over_at : (outcome : Outcome) → (over outcome).worker ≡ awaiting_engine "a" request
unfolding end_call resume_ready take submit start new_runner append_event create update to_running
over_at outcome = refl

awaited-over : (outcome : Outcome) → awaited (over outcome) ≡ some outcome
unfolding awaited end_call resume_ready take submit start new_runner append_event create update
    to_running
awaited-over outcome = refl

over_job : (outcome : Outcome) → (over outcome).store.jobs "a" ≡ some running_job
unfolding end_call resume_ready take submit start new_runner append_event create update to_running
    fresh_record
over_job outcome = refl

over_kept : (outcome : Outcome) → str_mem "a" (over outcome).cancelled ≡ false
unfolding end_call resume_ready take submit start new_runner append_event create update to_running
over_kept outcome = refl

engine_failure_frees_example :
    IsReleased idle (resume_engine settings "t3" "t4" (over (engine_error "no")))
    × (job : JobRecord) × ((over (engine_error "no")).store.jobs "a" ≡ some job)
    × ((resume_engine settings "t3" "t4" (over (engine_error "no"))).store.jobs "a"
        ≡ some (failed_job_of "no" "t3" job))
engine_failure_frees_example =
    engine_failure_frees settings (over (engine_error "no")) "a" request "t3" "t4" "no"
      (over-Reach (engine_error "no")) (over_at (engine_error "no"))
      (awaited-over (engine_error "no")) (over_kept (engine_error "no"))

artifact_first_example :
    IsReleased idle (resume_engine settings "t3" "t4" (over (returned result)))
    × ((resume_engine settings "t3" "t4" (over (returned result))).disk ≡ tt)
    × ((resume_engine settings "t3" "t4" (over (returned result))).store.jobs "a"
        ≡ some (recorded result "t3" "t4" written running_job))
artifact_first_example =
    artifact_first settings (over (returned result)) "a" request "t3" "t4" result "/srv" tt written
      running_job (over-Reach (returned result)) (over_at (returned result))
      (awaited-over (returned result)) (over_kept (returned result)) refl
      (over_job (returned result)) refl

shutdown_ends_example :
    IsReleased exited (resume_engine settings "t3" "t4" (over aborted))
    × ((resume_engine settings "t3" "t4" (over aborted)).store ≡ (over aborted).store)
shutdown_ends_example =
    shutdown_ends settings (over aborted) "a" request "t3" "t4" (over-Reach aborted)
      (over_at aborted) (awaited-over aborted) (over_kept aborted)

-- The job is cancelled, the application is shut down, and the call is aborted.
abbrev stopped : Slot Unit
stopped = end_call 0 aborted (stop (cancel "a" "t3" calling).1)

stopped_live : is_live (stop (cancel "a" "t3" calling).1) 0 ≡ true
unfolding stop cancel cancel_task to_cancelled get resume_ready take submit start new_runner
    append_event create update to_running
stopped_live = refl

stopped-Reach : Reach settings stopped
stopped-Reach =
    next (next (next calling-Reach (cancels "a" "t3")) stops) (ends 0 aborted stopped_live)

stopped_at : stopped.worker ≡ awaiting_engine "a" request
unfolding end_call stop cancel cancel_task to_cancelled get resume_ready take submit start
    new_runner append_event create update to_running
stopped_at = refl

stopped-awaited : awaited stopped ≡ some aborted
unfolding awaited end_call stop cancel cancel_task to_cancelled get resume_ready take submit start
    new_runner append_event create update to_running
stopped-awaited = refl

stopped_cancelled : str_mem "a" stopped.cancelled ≡ true
unfolding end_call stop cancel cancel_task to_cancelled get resume_ready take submit start
    new_runner append_event create update to_running
stopped_cancelled = refl

cancelled_goes_on_example :
    IsReleased idle (resume_engine settings "t4" "t5" stopped)
    × ((resume_engine settings "t4" "t5" stopped).store ≡ stopped.store)
cancelled_goes_on_example =
    cancelled_goes_on settings stopped "a" request "t4" "t5" aborted stopped-Reach stopped_at
      stopped-awaited stopped_cancelled

-- The record of the cancelled job stays.
abbrev cancelled_job : JobRecord
cancelled_job = record running_job { status = cancelled; ended_at = some "t3" }

cancel_result : (cancel "a" "t3" calling).0 ≡ ok cancelled_job
unfolding cancel cancel_task to_cancelled get fresh_record resume_ready take submit start new_runner
    append_event create update to_running
cancel_result = refl

after_cancel-Run : Run settings (cancel "a" "t3" calling).1 stopped
after_cancel-Run = further (further rest stops) (ends 0 aborted stopped_live)

cancel_is_final_example : (stopped.store.jobs "a" ≡ some cancelled_job) × (cancelled ≡ cancelled)
cancel_is_final_example =
    cancel_is_final settings calling stopped "a" "t3" cancelled_job cancel_result after_cancel-Run

after_cancel_job : (cancel "a" "t3" calling).1.store.jobs "a" ≡ some cancelled_job
unfolding cancel cancel_task to_cancelled get fresh_record resume_ready take submit start new_runner
    append_event create update to_running
after_cancel_job = refl

finished_stays_example : stopped.store.jobs "a" ≡ some cancelled_job
finished_stays_example =
    finished_stays settings (cancel "a" "t3" calling).1 stopped "a" cancelled_job after_cancel-Run
      after_cancel_job refl

transition_exact_example :
    (Moves running succeeded × Made (succeed result "t3") running_job)
    ⊎ ((¬ Moves running succeeded)
        × (to_succeeded result "t3" running_job ≡ err (job_transition running succeeded)))
transition_exact_example = transition_exact (succeed result "t3") running_job
