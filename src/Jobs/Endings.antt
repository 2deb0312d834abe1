-- ===== src/Jobs/Endings.antt =====
-- What `_process` leaves behind when the engine call that it waits for has ended.
use minimax_music3_webui.Prelude.{
  ◌-◌, ◌≡◌, refl, sym, ap, subst, String, true, false, none, some, str_mem, arith, ◌∙◌, ◌&◌,
}
use minimax_music3_webui.Prelude.Table.{put_self}
use minimax_music3_webui.Prelude.Result.{Result, ok, err}
use minimax_music3_webui.Json.{end}
use minimax_music3_webui.Engine.{EngineRequest, EngineResult, build_body}
use minimax_music3_webui.Jobs.Store.{
  is_terminal, is_running, is_cancelled, JobRecord, to_succeeded, to_failed,
}
use minimax_music3_webui.Jobs.Store.Valid.{advance}
use minimax_music3_webui.Jobs.Slot.{
  Outcome, returned, engine_error, aborted, Worker, idle, exited, awaiting_engine, Written, written,
  refused, crashed, Settings, Slot, Exc, cancelled_error,
}
use minimax_music3_webui.Jobs.Runner.{
  Next, finished, error_payload, fail_job, persist_and_succeed, teardown, handle_outcome,
  clear_current, after_engine,
}
use minimax_music3_webui.Jobs.Loop.{settle, awaited, resume_engine}
use minimax_music3_webui.Jobs.Steps.{Reach}
use minimax_music3_webui.Jobs.Steps.Invariant.{status_is, can_run, AtWorker, IsBusy}
use minimax_music3_webui.Jobs.Steps.Change.{abort_task-Signalled}
use minimax_music3_webui.Jobs.Steps.Kept.{Reach-IsSound}
use minimax_music3_webui.Jobs.Steps.Waking.{
  status_is-some, unless_cancelled_stop, unless_cancelled_go,
}
use minimax_music3_webui.Jobs.Steps.Starting.{failed_job_of, to_failed_ok, fail_job_eq}
use minimax_music3_webui.Jobs.Steps.Ending.{
  succeeded_job_of, to_succeeded_ok, running_of, released, settle_after, written_eq, refused_eq,
  crashed_eq,
}

-- The slot is free again, and the worker stands at `w`.
pub record IsReleased {Disk : Type 0} (w : Worker) (t : Slot Disk) : Type 0 where
  pub at_worker : t.worker ≡ w
  pub no_lease : t.leases ≡ 0
  pub no_current : t.current ≡ none
  pub no_task : t.current_task ≡ none

-- What becomes of a job, and of the worker, when the write of its artifact ends so.
abbrev pub recorded : EngineResult → (now later : String) → Written → JobRecord → JobRecord
recorded result now later written job = succeeded_job_of result now job
recorded result now later (refused exc) job =
    failed_job_of ("artifact write failed: " & exc) later job
recorded result now later crashed job = job

abbrev pub worker_after : Written → Worker
worker_after crashed = exited
worker_after _ = idle

module _ {Disk : Type 0} (settings : Settings Disk) (s : Slot Disk) (id : String)
    (request : EngineRequest) (now later : String) where
  resumed_eq :
      (outcome : Outcome)
      → s.worker ≡ awaiting_engine id request
      → awaited s ≡ some outcome
      → resume_engine settings now later s
        ≡ settle id
            (after_engine settings id request outcome now later (record s { must_cancel = false }))
  unfolding resume_engine
  resumed_eq outcome w o = ground arith

  IsBusy-at : Reach settings s → s.worker ≡ awaiting_engine id request → IsBusy id s
  IsBusy-at r w = subst (λ w. AtWorker w s) w (Reach-IsSound settings r).at_worker

  one_lease : Reach settings s → s.worker ≡ awaiting_engine id request → s.leases - 1 ≡ 0
  one_lease r w = let b = IsBusy-at r w in omega (arith, b.one_lease)

  -- The job of a worker at the engine call, if it is not cancelled.
  running_job :
      Reach settings s
      → s.worker ≡ awaiting_engine id request
      → str_mem id s.cancelled ≡ false
      → (job : JobRecord) × (s.store.jobs id ≡ some job)
        × (is_running job.status ≡ true)
        × (is_terminal job.status ≡ false)
  running_job r w m =
      let sound = Reach-IsSound settings r in
      let (job, at_id, may_run) =
        status_is-some can_run (s.store.jobs id) (IsBusy-at r w).may_run in
      let was : is_cancelled job.status ≡ false =
        subst (λ o. status_is is_cancelled o ≡ false) at_id (sym (sound.cancelled_agree id) ∙ m) in
      let (runs, open_job) = running_of job.status may_run was in (job, at_id, runs, open_job)

  cancelled_eq :
      (outcome : Outcome)
      → Reach settings s
      → str_mem id s.cancelled ≡ true
      → handle_outcome settings id request outcome now later
          (released settings id request now later s)
        ≡ (ok finished, released settings id request now later s)
  unfolding handle_outcome
  cancelled_eq aborted r m =
      unless_cancelled_stop id now teardown (released settings id request now later s) m
        ((Reach-IsSound settings r).cancelled_agree id)
  cancelled_eq (engine_error message) r m =
      unless_cancelled_stop id now (fail_job id message now)
        (released settings id request now later s) m ((Reach-IsSound settings r).cancelled_agree id)
  cancelled_eq (returned result) r m =
      unless_cancelled_stop id now (persist_and_succeed settings id result request now later)
        (released settings id request now later s) m ((Reach-IsSound settings r).cancelled_agree id)

  -- In a state that can be reached, when the job at the engine call has been cancelled and the wait
  -- is over, the worker goes back to its queue with the slot released and the store unchanged,
  -- whatever the wait ended with: the engine's result, its error, or a `CancelledError`, the one of
  -- a shutdown included.
  pub cancelled_goes_on :
      (outcome : Outcome)
      → Reach settings s
      → s.worker ≡ awaiting_engine id request
      → awaited s ≡ some outcome
      → str_mem id s.cancelled ≡ true
      → IsReleased idle (resume_engine settings now later s)
        × ((resume_engine settings now later s).store ≡ s.store)
  unfolding settle
  cancelled_goes_on outcome r w o m =
      let free = one_lease r w in
      let e =
        resumed_eq outcome w o
        ∙ settle_after settings id request now later outcome s _ _ (cancelled_eq outcome r m) in
      rw e (record { at_worker = refl; no_lease = free; no_current = refl; no_task = refl }, refl)

  -- In a state that can be reached, when the job at the engine call has not been cancelled and the
  -- wait ended with a `CancelledError`, the worker ends, with the slot released and the store
  -- unchanged.
  pub shutdown_ends :
      Reach settings s
      → s.worker ≡ awaiting_engine id request
      → awaited s ≡ some aborted
      → str_mem id s.cancelled ≡ false
      → IsReleased exited (resume_engine settings now later s)
        × ((resume_engine settings now later s).store ≡ s.store)
  unfolding settle handle_outcome
  shutdown_ends r w o m =
      let base = released settings id request now later s in
      let sig = abort_task-Signalled s.current_task base in
      let free = one_lease r w in
      let e =
        resumed_eq aborted w o
        ∙ settle_after settings id request now later aborted s (record base { tasks = sig.tasks })
            (err cancelled_error)
            (unless_cancelled_go id now teardown base m
              ∙ ap (λ b. (err cancelled_error, b)) sig.is_state) in
      rw e (record { at_worker = refl; no_lease = free; no_current = refl; no_task = refl }, refl)

  -- In a state that can be reached, when the job at the engine call has not been cancelled and the
  -- engine failed, the worker goes back to its queue with the slot released, and the job's record is
  -- the one that it had, failed with the engine's message.
  pub engine_failure_frees :
      (message : String)
      → Reach settings s
      → s.worker ≡ awaiting_engine id request
      → awaited s ≡ some (engine_error message)
      → str_mem id s.cancelled ≡ false
      → IsReleased idle (resume_engine settings now later s)
        × (job : JobRecord) × (s.store.jobs id ≡ some job)
        × ((resume_engine settings now later s).store.jobs id
            ≡ some (failed_job_of message now job))
  unfolding settle handle_outcome
  engine_failure_frees message r w o m =
      let (job, at_id, runs, open_job) = running_job r w m in
      let base = released settings id request now later s in
      let free = one_lease r w in
      let adv =
        advance s.store id (to_failed message now) (error_payload message) job
          (failed_job_of message now job) (Reach-IsSound settings r).valid at_id
          (to_failed_ok message now job open_job) in
      let e =
        resumed_eq (engine_error message) w o
        ∙ settle_after settings id request now later (engine_error message) s _ (ok finished) (
            unless_cancelled_go id now (fail_job id message now) base m
            ∙ fail_job_eq base id message now _ adv) in
      rw e (
        record { at_worker = refl; no_lease = free; no_current = refl; no_task = refl },
        job,
        at_id,
        rw adv.jobs_after (put_self id (failed_job_of message now job) s.store.jobs),
      )

  -- The same for a result, by what the write of its artifact ended with.
  module _ (result : EngineResult) (root : String) (disk' : Disk) (job : JobRecord)
      (r : Reach settings s) (w : s.worker ≡ awaiting_engine id request)
      (o : awaited s ≡ some (returned result)) (m : str_mem id s.cancelled ≡ false)
      (has_root : settings.artifacts_root ≡ some root) (at_id : s.store.jobs id ≡ some job)
      (runs : is_running job.status ≡ true) (open_job : is_terminal job.status ≡ false) where
    abbrev base : Slot Disk
    base = released settings id request now later s

    -- The state from what `_persist_and_succeed` leaves.
    returned_eq :
        (p : Result Exc Next × Slot Disk)
        → persist_and_succeed settings id result request now later base ≡ p
        → resume_engine settings now later s ≡ settle id (p.0, clear_current p.1)
    unfolding handle_outcome
    returned_eq p e =
        resumed_eq (returned result) w o
        ∙ settle_after settings id request now later (returned result) s p.1 p.0 (
            unless_cancelled_go id now (persist_and_succeed settings id result request now later)
              base m
            ∙ e)

    abbrev Writes : Written → Type 0
    Writes outcome =
        settings.write_artifact root (succeeded_job_of result now job) (build_body request) s.disk
        ≡ (disk', outcome)

    abbrev Completed : Written → Slot Disk → Type 0
    Completed outcome t =
        IsReleased (worker_after outcome) t
        × (t.disk ≡ disk')
        × (t.store.jobs id ≡ some (recorded result now later outcome job))

    Completed-by :
        (outcome : Written)
        → Writes outcome
        → Completed outcome (resume_engine settings now later s)
    unfolding settle
    Completed-by written e =
        let job' = succeeded_job_of result now job in
        let free = one_lease r w in
        let adv =
          advance s.store id (to_succeeded result now) end job job' (Reach-IsSound settings r).valid
            at_id (to_succeeded_ok result now job runs) in
        rw
          (returned_eq _ (
            written_eq settings id request now later base result job root disk' has_root at_id runs
              adv e))
          (
            record { at_worker = refl; no_lease = free; no_current = refl; no_task = refl },
            refl,
            rw adv.jobs_after (put_self id job' s.store.jobs),
          )
    Completed-by (refused exc) e =
        let message = "artifact write failed: " & exc in
        let job' = failed_job_of message later job in
        let free = one_lease r w in
        let adv =
          advance s.store id (to_failed message later) (error_payload message) job job'
            (Reach-IsSound settings r).valid at_id (to_failed_ok message later job open_job) in
        rw
          (returned_eq _ (
            refused_eq settings id request now later base result job root disk' has_root at_id runs
              exc adv e))
          (
            record { at_worker = refl; no_lease = free; no_current = refl; no_task = refl },
            refl,
            rw adv.jobs_after (put_self id job' s.store.jobs),
          )
    Completed-by crashed e =
        let free = one_lease r w in
        rw
          (returned_eq _ (
            crashed_eq settings id request now later base result job root disk' has_root at_id runs
              e))
          (
            record { at_worker = refl; no_lease = free; no_current = refl; no_task = refl },
            refl,
            at_id,
          )

  -- In a state that can be reached, with an artifacts root, when the job at the engine call has not
  -- been cancelled and the engine returned a result: the artifact is written first, from the record
  -- that the job would have when it has succeeded, and the slot is released. If the write returned,
  -- the job has that record; if it raised a caught exception, the job is failed with its message;
  -- in both cases the worker goes on. If it raised another exception, the job stays as it was and the
  -- worker ends.
  pub artifact_first :
      (result : EngineResult) (root : String) (disk' : Disk) (outcome : Written) (job : JobRecord)
      → Reach settings s
      → s.worker ≡ awaiting_engine id request
      → awaited s ≡ some (returned result)
      → str_mem id s.cancelled ≡ false
      → settings.artifacts_root ≡ some root
      → s.store.jobs id ≡ some job
      → settings.write_artifact root (succeeded_job_of result now job) (build_body request) s.disk
        ≡ (disk', outcome)
      → IsReleased (worker_after outcome) (resume_engine settings now later s)
        × ((resume_engine settings now later s).disk ≡ disk')
        × ((resume_engine settings now later s).store.jobs id
            ≡ some (recorded result now later outcome job))
  artifact_first result root disk' outcome job r w o m has_root at_id e =
      let (job', at_id', runs, open_job) = running_job r w m in
      let same : job' ≡ job = cc (at_id, at_id') in
      Completed-by result root disk' job r w o m has_root at_id
        (subst (λ j. is_running j.status ≡ true) same runs)
        (subst (λ j. is_terminal j.status ≡ false) same open_job) outcome e
