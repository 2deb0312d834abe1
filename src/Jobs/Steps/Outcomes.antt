-- ===== src/Jobs/Steps/Outcomes.antt =====
-- Whatever the engine call ends with, and whatever becomes of the write, the invariant is kept.
use minimax_music3_webui.Prelude.{
  ℕ, ◌-◌, ◌≡◌, refl, sym, ap, subst, String, true, false, Option, none, some, str_mem, arith, inl,
  inr, Bool-cases, ◌∙◌, ◌&◌,
}
use minimax_music3_webui.Prelude.Result.{ok, err}
use minimax_music3_webui.Json.{end}
use minimax_music3_webui.Engine.{EngineRequest, EngineResult, build_body}
use minimax_music3_webui.Jobs.Store.{
  JobStatus, running, is_terminal, is_running, is_cancelled, JobRecord, to_succeeded, to_failed,
}
use minimax_music3_webui.Jobs.Store.Valid.{Advanced, advance}
use minimax_music3_webui.Jobs.Slot.{
  Outcome, returned, engine_error, aborted, idle, exited, Written, written, refused, crashed,
  Settings, Slot, cancelled_error, other_error,
}
use minimax_music3_webui.Jobs.Runner.{
  finished, error_payload, fail_job, persist_and_succeed, teardown, handle_outcome, clear_current,
  after_engine,
}
use minimax_music3_webui.Jobs.Loop.{settle}
use minimax_music3_webui.Jobs.Steps.{is_live}
use minimax_music3_webui.Jobs.Steps.Invariant.{
  status_is, can_run, IsFree, IsBusy, NoneRuns, AtWorker, IsSound,
}
use minimax_music3_webui.Jobs.Steps.Change.{abort_task-Signalled}
use minimax_music3_webui.Jobs.Steps.Waking.{
  status_is-some, unless_cancelled_stop, unless_cancelled_go,
}
use minimax_music3_webui.Jobs.Steps.Settling.{settled-IsSound}
use minimax_music3_webui.Jobs.Steps.Starting.{failed_job_of, to_failed_ok, fail_job_eq}
use minimax_music3_webui.Jobs.Steps.Ending.{
  succeeded_job_of, to_succeeded_ok, running_of, released, settle_after, succeed_eq, written_eq,
  refused_eq, crashed_eq,
}

not_both : (status : JobStatus) → is_cancelled status ≡ true → is_running status ≡ true → ⊥
not_both running c r = cc
not_both _ c r = cc

module _ {Disk : Type 0} (settings : Settings Disk) (id : String) (request : EngineRequest)
    (now later : String) (s : Slot Disk) (sound : IsSound s) (busy : IsBusy id s)
    (over : is_live s busy.task ≡ false) where
  abbrev base : Slot Disk
  base = released settings id request now later s

  none_live : (i : ℕ) → is_live s i ≡ false
  none_live i = elim (Bool-cases (is_live s i)) [
    | inl l ↦
        let at : is_live s i ≡ false =
          subst (λ k. is_live s k ≡ false) (sym (busy.only_live i l)) over in
        at
    | inr n ↦ n
  ]

  -- The state with the slot given back, over any store and disk.
  given_back :
      (t : Slot Disk)
      → t.leases ≡ s.leases - 1
      → t.must_cancel ≡ false
      → ((i : ℕ) → is_live t i ≡ is_live s i)
      → IsFree t
  given_back t l m live = record {
    no_lease = omega (arith, busy.one_lease);
    calm = m;
    none_live = λ i. live i ∙ none_live i;
  }

  -- Nothing is changed but the slot: the job was cancelled meanwhile, or the worker ends.
  cleared-IsSound :
      (t : Slot Disk)
      → t.store ≡ s.store
      → t.queue ≡ s.queue
      → t.cancelled ≡ s.cancelled
      → t.created ≡ s.created
      → ((i : ℕ) → s.tasks i ≡ none → t.tasks i ≡ none)
      → AtWorker t.worker t
      → IsSound t
  cleared-IsSound t store queue cancelled created tasks at = record {
    valid = rw store sound.valid;
    cancelled_agree = λ j. rw (store, cancelled) (sound.cancelled_agree j);
    waiting = λ j m. rw store (sound.waiting j (rw queue at m));
    distinct = rw queue sound.distinct;
    unmade = λ i h. tasks i (sound.unmade i (rw created at h));
    at_worker = at;
  }

  exit-IsSound :
      (disk' : Disk)
      → IsSound (record (clear_current (record base { disk = disk' })) { worker = exited })
  exit-IsSound disk' =
      cleared-IsSound _ refl refl refl refl (λ _ h. h) (given_back _ refl refl (λ _. refl))

  module _ (job : JobRecord) (at_id : s.store.jobs id ≡ some job)
      (was : is_cancelled job.status ≡ false) (runs : is_running job.status ≡ true)
      (open_job : is_terminal job.status ≡ false) where
    fail_adv :
        (message instant : String)
        → Advanced s.store id
            (to_failed message instant)
            "failed"
            (error_payload message)
            (failed_job_of message instant job)
    fail_adv message instant =
        advance s.store id (to_failed message instant) (error_payload message) job
          (failed_job_of message instant job) sound.valid at_id
          (to_failed_ok message instant job open_job)

    succeed_adv :
        (result : EngineResult)
        → Advanced s.store id
            (to_succeeded result now)
            "succeeded"
            end
            (succeeded_job_of result now job)
    succeed_adv result =
        advance s.store id (to_succeeded result now) end job (succeeded_job_of result now job)
          sound.valid at_id (to_succeeded_ok result now job runs)

    failed-IsSound :
        (message instant : String) (disk' : Disk)
        → IsSound (record (clear_current (record base { disk = disk' })) {
          store = (fail_adv message instant).after;
          worker = idle;
        })
    failed-IsSound message instant disk' =
        let adv = fail_adv message instant in
        settled-IsSound s sound id job (failed_job_of message instant job) at_id was refl refl
          busy.left_queue busy.only_running adv.after _ adv.jobs_after adv.valid_after refl refl
          refl refl refl refl (given_back _ refl refl (λ _. refl))

    succeeded-IsSound :
        (result : EngineResult) (disk' : Disk)
        → IsSound (record (clear_current (record base { disk = disk' })) {
          store = (succeed_adv result).after;
          worker = idle;
        })
    succeeded-IsSound result disk' =
        let adv = succeed_adv result in
        settled-IsSound s sound id job (succeeded_job_of result now job) at_id was refl refl
          busy.left_queue busy.only_running adv.after _ adv.jobs_after adv.valid_after refl refl
          refl refl refl refl (given_back _ refl refl (λ _. refl))

    returned-IsSound :
        (result : EngineResult) (root : Option String)
        → settings.artifacts_root ≡ root
        → str_mem id s.cancelled ≡ false
        → IsSound (
            settle id (
              after_engine settings id request
                (returned result)
                now
                later
                (record s { must_cancel = false })))
    unfolding handle_outcome settle
    returned-IsSound result none no_root m =
        let adv = succeed_adv result in
        subst IsSound
          (sym (
            settle_after settings id request now later (returned result) s _ (ok finished) (
              unless_cancelled_go id now (persist_and_succeed settings id result request now later)
                base m
              ∙ succeed_eq settings id request now later base result _ adv no_root)))
          (succeeded-IsSound result s.disk)
    returned-IsSound result (some root) has_root m =
        let job' = succeeded_job_of result now job in
        let (disk', w) = settings.write_artifact root job' (build_body request) s.disk in
        at_write disk' w refl
      where
        at_write :
            (disk' : Disk) (w : Written)
            → settings.write_artifact root
                (succeeded_job_of result now job)
                (build_body request)
                s.disk
              ≡ (disk', w)
            → IsSound (
                settle id (
                  after_engine settings id request
                    (returned result)
                    now
                    later
                    (record s { must_cancel = false })))
        at_write disk' written e =
            let adv = succeed_adv result in
            subst IsSound
              (sym (
                settle_after settings id request now later (returned result) s _ (ok finished) (
                  unless_cancelled_go id now
                    (persist_and_succeed settings id result request now later) base m
                  ∙ written_eq settings id request now later base result job root disk' has_root
                      at_id runs adv e)))
              (succeeded-IsSound result disk')
        at_write disk' (refused exc) e =
            let message = "artifact write failed: " & exc in
            let adv = fail_adv message later in
            subst IsSound
              (sym (
                settle_after settings id request now later (returned result) s _ (ok finished) (
                  unless_cancelled_go id now
                    (persist_and_succeed settings id result request now later) base m
                  ∙ refused_eq settings id request now later base result job root disk' has_root
                      at_id runs exc adv e)))
              (failed-IsSound message later disk')
        at_write disk' crashed e =
            subst IsSound
              (sym (
                settle_after settings id request now later (returned result) s _ (err other_error) (
                  unless_cancelled_go id now
                    (persist_and_succeed settings id result request now later) base m
                  ∙ crashed_eq settings id request now later base result job root disk' has_root
                      at_id runs e)))
              (exit-IsSound disk')

    failed_call-IsSound :
        (message : String)
        → str_mem id s.cancelled ≡ false
        → IsSound (
            settle id (
              after_engine settings id request
                (engine_error message)
                now
                later
                (record s { must_cancel = false })))
    unfolding handle_outcome settle
    failed_call-IsSound message m =
        let adv = fail_adv message now in
        subst IsSound
          (sym (
            settle_after settings id request now later (engine_error message) s _ (ok finished) (
              unless_cancelled_go id now (fail_job id message now) base m
              ∙ fail_job_eq base id message now _ adv)))
          (failed-IsSound message now s.disk)

  torn_down-IsSound :
      str_mem id s.cancelled ≡ false
      → IsSound (
          settle id
            (after_engine settings id request aborted now later (record s { must_cancel = false })))
  unfolding handle_outcome settle
  torn_down-IsSound m =
      let sig = abort_task-Signalled s.current_task base in
      subst IsSound
        (sym (
          settle_after settings id request now later aborted s (record base { tasks = sig.tasks })
            (err cancelled_error)
            (unless_cancelled_go id now teardown base m
              ∙ ap (λ b. (err cancelled_error, b)) sig.is_state)))
        (cleared-IsSound _ refl refl refl refl sig.same_none (given_back _ refl refl sig.same_live))

  stopped_eq :
      (outcome : Outcome)
      → str_mem id s.cancelled ≡ true
      → handle_outcome settings id request outcome now later base ≡ (ok finished, base)
  unfolding handle_outcome
  stopped_eq aborted m = unless_cancelled_stop id now teardown base m (sound.cancelled_agree id)
  stopped_eq (engine_error message) m =
      unless_cancelled_stop id now (fail_job id message now) base m (sound.cancelled_agree id)
  stopped_eq (returned result) m =
      unless_cancelled_stop id now (persist_and_succeed settings id result request now later) base m
        (sound.cancelled_agree id)

  pub outcome-IsSound :
      (outcome : Outcome)
      → IsSound (
          settle id
            (after_engine settings id request outcome now later (record s { must_cancel = false })))
  unfolding settle
  outcome-IsSound outcome = elim (Bool-cases (str_mem id s.cancelled)) [
    | inl m ↦
        subst IsSound
          (sym (
            settle_after settings id request now later outcome s base (ok finished)
              (stopped_eq outcome m)))
          (cleared-IsSound (record (clear_current base) { worker = idle }) refl refl refl refl
            (λ _ h. h) (given_back _ refl refl (λ _. refl), quiet m))
    | inr m ↦
        let (job, at_id, may_run) = status_is-some can_run (s.store.jobs id) busy.may_run in
        let was : is_cancelled job.status ≡ false =
          subst (λ o. status_is is_cancelled o ≡ false) at_id
            (sym (sound.cancelled_agree id) ∙ m) in
        let (runs, open_job) = running_of job.status may_run was in
        by_outcome outcome m job at_id was runs open_job
  ]
    where
      quiet : str_mem id s.cancelled ≡ true → NoneRuns s
      quiet m j = elim (Bool-cases (status_is is_running (s.store.jobs j))) [
        | inl r ↦
            let (job, at_id, c) =
              status_is-some is_cancelled (s.store.jobs id) (sym (sound.cancelled_agree id) ∙ m) in
            let r' : is_running job.status ≡ true =
              subst (λ o. status_is is_running o ≡ true) at_id
                (subst (λ k. status_is is_running (s.store.jobs k) ≡ true) (busy.only_running j r)
                  r) in
            absurd (not_both job.status c r')
        | inr n ↦ n
      ]

      by_outcome :
          (o : Outcome)
          → str_mem id s.cancelled ≡ false
          → (job : JobRecord) → s.store.jobs id ≡ some job
          → is_cancelled job.status ≡ false
          → is_running job.status ≡ true
          → is_terminal job.status ≡ false
          → IsSound (
              settle id
                (after_engine settings id request o now later (record s { must_cancel = false })))
      by_outcome aborted m job at_id was runs open_job = torn_down-IsSound m
      by_outcome (engine_error message) m job at_id was runs open_job =
          failed_call-IsSound job at_id was runs open_job message m
      by_outcome (returned result) m job at_id was runs open_job =
          returned-IsSound job at_id was runs open_job result settings.artifacts_root refl m
