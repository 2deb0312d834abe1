-- ===== src/Jobs/Steps/Ending.antt =====
-- The engine call ends and the worker goes on: what each outcome leaves behind.
use minimax_music3_webui.Prelude.{◌≡◌, refl, ap, String, true, false, none, some, arith, ◌&◌}
use minimax_music3_webui.Prelude.Result.{Result, ok, err}
use minimax_music3_webui.Json.{end}
use minimax_music3_webui.Engine.{EngineRequest, EngineResult, build_body}
use minimax_music3_webui.Jobs.Store.{
  JobStatus, running, succeeded, is_terminal, is_running, is_cancelled, JobRecord, to_succeeded,
  to_failed, get,
}
use minimax_music3_webui.Jobs.Store.Valid.{Advanced}
use minimax_music3_webui.Jobs.Slot.{
  Outcome, Written, written, refused, crashed, Settings, Slot, Exc, other_error,
}
use minimax_music3_webui.Jobs.Runner.{
  Next, finished, error_payload, persist_and_succeed, handle_outcome, exit_lease, clear_current,
  after_engine,
}
use minimax_music3_webui.Jobs.Loop.{settle}
use minimax_music3_webui.Jobs.Steps.Invariant.{can_run}
use minimax_music3_webui.Jobs.Steps.Starting.{failed_job_of}

abbrev pub succeeded_job_of : EngineResult → String → JobRecord → JobRecord
succeeded_job_of result now job = record job {
  status = succeeded;
  ended_at = some now;
  engine = some result.engine;
  model = some result.model;
  audio = some result.audio;
  content_type = some result.content_type;
  generation_time = some result.generation_time;
}

pub to_succeeded_ok :
    (result : EngineResult) (now : String) (job : JobRecord)
    → is_running job.status ≡ true
    → to_succeeded result now job ≡ ok (succeeded_job_of result now job)
unfolding to_succeeded
to_succeeded_ok result now job h = rw h

-- What can run and is not cancelled is running.
pub running_of :
    (status : JobStatus)
    → can_run status ≡ true
    → is_cancelled status ≡ false
    → (is_running status ≡ true) × (is_terminal status ≡ false)
running_of running w c = (refl, refl)
running_of _ w c = absurd (cc)

module _ {Disk : Type 0} (settings : Settings Disk) (id : String) (request : EngineRequest)
    (now later : String) where
  abbrev pub released : Slot Disk → Slot Disk
  released s = exit_lease (record s { must_cancel = false })

  pub settle_after :
      (outcome : Outcome) (s b : Slot Disk) (r : Result Exc Next)
      → handle_outcome settings id request outcome now later (released s) ≡ (r, b)
      → settle id
          (after_engine settings id request outcome now later (record s { must_cancel = false }))
        ≡ settle id (r, clear_current b)
  unfolding after_engine
  settle_after outcome s b r e =
      ap (λ (p : Result Exc Next × Slot Disk). settle id (p.0, clear_current p.1)) e

  -- The three ways in which a finished call with a result ends.
  pub succeed_eq :
      (s : Slot Disk) (result : EngineResult) (job' : JobRecord)
      (adv : Advanced s.store id (to_succeeded result now) "succeeded" end job')
      → settings.artifacts_root ≡ none
      → persist_and_succeed settings id result request now later s
        ≡ (ok finished, record s { store = adv.after })
  unfolding persist_and_succeed
  succeed_eq s result job' adv root = ground (arith, adv.updated, adv.appended)

  module _ (s : Slot Disk) (result : EngineResult) (job : JobRecord) (root : String) (disk' : Disk)
      (has_root : settings.artifacts_root ≡ some root) (at_id : s.store.jobs id ≡ some job)
      (runs : is_running job.status ≡ true) where
    abbrev pub job'' : JobRecord
    job'' = succeeded_job_of result now job

    abbrev pub Writes : Written → Type 0
    Writes w = settings.write_artifact root job'' (build_body request) s.disk ≡ (disk', w)

    pub written_eq :
        (adv : Advanced s.store id (to_succeeded result now) "succeeded" end job'')
        → Writes written
        → persist_and_succeed settings id result request now later s
          ≡ (ok finished, record s { disk = disk'; store = adv.after })
    unfolding persist_and_succeed get
    written_eq adv w =
        ground (arith, adv.updated, adv.appended, to_succeeded_ok result now job runs)

    pub refused_eq :
        (exc : String)
        (adv : Advanced s.store id
          (to_failed ("artifact write failed: " & exc) later)
          "failed"
          (error_payload ("artifact write failed: " & exc))
          (failed_job_of ("artifact write failed: " & exc) later job))
        → Writes (refused exc)
        → persist_and_succeed settings id result request now later s
          ≡ (ok finished, record s { disk = disk'; store = adv.after })
    unfolding persist_and_succeed get
    refused_eq exc adv w =
        ground (arith, adv.updated, adv.appended, to_succeeded_ok result now job runs)

    pub crashed_eq :
        Writes crashed
        → persist_and_succeed settings id result request now later s
          ≡ (err other_error, record s { disk = disk' })
    unfolding persist_and_succeed get
    crashed_eq w = ground (arith, to_succeeded_ok result now job runs)
