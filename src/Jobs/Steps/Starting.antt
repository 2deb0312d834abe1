-- ===== src/Jobs/Steps/Starting.antt =====
-- The worker goes on when readiness has answered.
use minimax_music3_webui.Prelude.{
  ◌≡◌, refl, sym, subst, String, true, false, some, str_mem, arith, inl, inr, Bool-cases, ◌∙◌,
  str_eq, eq_iff, if◌then◌else◌,
}
use minimax_music3_webui.Prelude.Table.{put_self, put_ind}
use minimax_music3_webui.Prelude.Result.{ok}
use minimax_music3_webui.Json.{end}
use minimax_music3_webui.Engine.{EngineRequest}
use minimax_music3_webui.Lifecycle.Readiness.{ReadinessState, ready}
use minimax_music3_webui.Jobs.Store.{
  JobStatus, queued, running, failed, is_queued, is_terminal, is_cancelled, JobRecord, to_running,
  to_failed, get,
}
use minimax_music3_webui.Jobs.Store.Valid.{Advanced, advance}
use minimax_music3_webui.Jobs.Slot.{
  Worker, absent, idle, exited, awaiting_ready, awaiting_engine, Settings, Slot,
}
use minimax_music3_webui.Jobs.Runner.{
  Answer, reported, raised, finished, await_engine, error_payload, is_ready, not_ready_message,
  start_call, fail_job, run_job, after_ready,
}
use minimax_music3_webui.Jobs.Loop.{resume_ready, settle}
use minimax_music3_webui.Jobs.Steps.Invariant.{
  status_is, can_wait, IsFree, IsBusy, NoneRuns, AtWorker, IsSound, IsFree-cast,
}
use minimax_music3_webui.Jobs.Steps.Change.{status_is-put_same}
use minimax_music3_webui.Jobs.Steps.Waking.{
  status_is-some, unless_cancelled_stop, unless_cancelled_go,
}
use minimax_music3_webui.Jobs.Steps.Settling.{settled-IsSound, NoneRuns-OnlyRuns}

abbrev pub failed_job_of : String → String → JobRecord → JobRecord
failed_job_of message now job = record job {
  status = failed;
  ended_at = some now;
  error = some message;
}

abbrev pub running_job_of : String → JobRecord → JobRecord
running_job_of now job = record job { status = running; started_at = some now }

pub to_failed_ok :
    (message now : String) (job : JobRecord)
    → is_terminal job.status ≡ false
    → to_failed message now job ≡ ok (failed_job_of message now job)
unfolding to_failed
to_failed_ok message now job h = rw h

to_running_ok :
    (now : String) (job : JobRecord)
    → is_queued job.status ≡ true
    → to_running now job ≡ ok (running_job_of now job)
unfolding to_running
to_running_ok now job h = rw h

module _ {Disk : Type 0} where
  pub fail_job_eq :
      (s : Slot Disk) (id message now : String) (job' : JobRecord)
      (adv : Advanced s.store id (to_failed message now) "failed" (error_payload message) job')
      → fail_job id message now s ≡ (ok finished, record s { store = adv.after })
  unfolding fail_job
  fail_job_eq s id message now job' adv = ground (arith, adv.updated, adv.appended)

  abbrev request_of : Settings Disk → JobRecord → EngineRequest
  request_of settings job = record {
    model = settings.model;
    input = job.submission.input;
    instructions = job.submission.instructions;
    seed = job.submission.seed;
    max_new_tokens = job.submission.max_new_tokens;
  }

  run_job_eq :
      (settings : Settings Disk) (s : Slot Disk) (id now : String) (job' : JobRecord)
      (adv : Advanced s.store id (to_running now) "running" end job')
      → adv.after.jobs id ≡ some job'
      → run_job settings id now s ≡ (
        ok (await_engine (request_of settings job')),
        start_call id (request_of settings job') (record s { store = adv.after }),
      )
  unfolding run_job get
  run_job_eq settings s id now job' adv at_id = ground (arith, adv.updated, adv.appended)

-- What can wait and is not cancelled is queued.
queued_of :
    (status : JobStatus)
    → can_wait status ≡ true
    → is_cancelled status ≡ false
    → (is_queued status ≡ true) × (is_terminal status ≡ false)
queued_of queued w c = (refl, refl)
queued_of _ w c = absurd (cc)

module _ {Disk : Type 0} (settings : Settings Disk) (s : Slot Disk) (sound : IsSound s)
    (free : IsFree s) (quiet : NoneRuns s) (id now : String) (job : JobRecord)
    (at_id : s.store.jobs id ≡ some job) (left : str_mem id s.queue ≡ false)
    (was : is_cancelled job.status ≡ false) where
  -- Not ready: the job fails, and the worker is idle.
  refused-IsSound :
      (message : String)
      → is_terminal job.status ≡ false
      → IsSound (settle id (fail_job id message now s))
  unfolding settle
  refused-IsSound message open_job =
      let job' = failed_job_of message now job in
      let adv =
        advance s.store id (to_failed message now) (error_payload message) job job' sound.valid
          at_id (to_failed_ok message now job open_job) in
      subst (λ r. IsSound (settle id r)) (sym (fail_job_eq s id message now job' adv))
        (settled-IsSound s sound id job job' at_id was refl refl left (NoneRuns-OnlyRuns id s quiet)
          adv.after (record s { store = adv.after; worker = idle }) adv.jobs_after adv.valid_after
          refl refl refl refl refl refl (IsFree-cast s _ refl refl (λ _. refl) free))

  module _ (adv : Advanced s.store id (to_running now) "running" end (running_job_of now job))
      (request : EngineRequest) where
    abbrev begun : Slot Disk
    begun = record (start_call id request (record s { store = adv.after })) {
      worker = awaiting_engine id request;
    }

    begun-IsBusy : IsBusy id begun
    begun-IsBusy = record {
      task = s.created;
      is_current = refl;
      is_task = refl;
      one_lease = omega (arith, free.no_lease);
      only_live = λ i l. ground (arith, free.none_live i);
      only_running = λ j r. elim (Bool-cases (str_eq id j)) [
        | inl same ↦ sym ((eq_iff id j).0 same)
        | inr other ↦ let r' = rw (adv.jobs_after, other) at r in absurd (cc (quiet j))
      ];
      may_run = rw (adv.jobs_after, put_self id (running_job_of now job) s.store.jobs) refl;
      left_queue = left;
      ended_first = λ m. absurd (cc free.calm);
    }

    begun-IsSound : IsSound begun
    begun-IsSound = record {
      valid = adv.valid_after;
      cancelled_agree = λ j. rw adv.jobs_after (
          sound.cancelled_agree j
          ∙ sym (
              status_is-put_same is_cancelled s.store.jobs id (running_job_of now job) job j at_id
                (sym was)));
      waiting = λ j m. rw adv.jobs_after (
          put_ind (λ k o. str_mem k s.queue ≡ true → status_is can_wait o ≡ true) id
            (running_job_of now job) s.store.jobs j (λ h. absurd (cc left))
            (λ _ h. sound.waiting j h) m);
      distinct = sound.distinct;
      unmade = λ i h. ground (arith, sound.unmade i (omega arith));
      at_worker = begun-IsBusy;
    }

  -- Ready: the call is made, and the job holds the slot.
  run_job-IsSound : is_queued job.status ≡ true → IsSound (settle id (run_job settings id now s))
  unfolding settle
  run_job-IsSound q =
      let job' = running_job_of now job in
      let adv =
        advance s.store id (to_running now) end job job' sound.valid at_id
          (to_running_ok now job q) in
      let there : adv.after.jobs id ≡ some job' =
        rw adv.jobs_after (put_self id job' s.store.jobs) in
      subst (λ r. IsSound (settle id r)) (sym (run_job_eq settings s id now job' adv there))
        (begun-IsSound adv (request_of settings job'))

  after_ready-IsSound :
      (state : ReadinessState) (cause : String)
      → is_queued job.status ≡ true
      → is_terminal job.status ≡ false
      → str_mem id s.cancelled ≡ false
      → IsSound (settle id (after_ready settings id (reported state cause) now s))
  unfolding after_ready
  after_ready-IsSound ready cause q open_job m =
      subst (λ r. IsSound (settle id r))
        (sym (unless_cancelled_go id now (run_job settings id now) s m)) (run_job-IsSound q)
  after_ready-IsSound state cause q open_job m =
      subst (λ r. IsSound (settle id r))
        (sym (unless_cancelled_go id now (fail_job id (not_ready_message state cause) now) s m))
        (refused-IsSound (not_ready_message state cause) open_job)

module _ {Disk : Type 0} where
  pub idle_after :
      (s : Slot Disk) → IsSound s → IsFree s → NoneRuns s → IsSound (record s { worker = idle })
  idle_after s sound free quiet = record {
    valid = sound.valid;
    cancelled_agree = sound.cancelled_agree;
    waiting = sound.waiting;
    distinct = sound.distinct;
    unmade = sound.unmade;
    at_worker = (IsFree-cast s _ refl refl (λ _. refl) free, quiet);
  }

  pub exited_after : (s : Slot Disk) → IsSound s → IsFree s → IsSound (record s { worker = exited })
  exited_after s sound free = record {
    valid = sound.valid;
    cancelled_agree = sound.cancelled_agree;
    waiting = sound.waiting;
    distinct = sound.distinct;
    unmade = sound.unmade;
    at_worker = IsFree-cast s _ refl refl (λ _. refl) free;
  }

module _ {Disk : Type 0} (settings : Settings Disk) (now : String) where
  answered-IsSound :
      (s : Slot Disk) (id : String) (answer : Answer)
      → IsSound s
      → AtWorker (awaiting_ready id) s
      → IsSound (settle id (after_ready settings id answer now s))
  unfolding after_ready settle
  answered-IsSound s id raised sound (free, quiet, w, left) = exited_after s sound free
  answered-IsSound s id (reported state cause) sound (free, quiet, w, left) =
      elim (Bool-cases (str_mem id s.cancelled)) [
        | inl m ↦
            subst (λ r. IsSound (settle id r))
              (sym (
                unless_cancelled_stop id now
                  (if is_ready state
                    then run_job settings id now
                    else fail_job id (not_ready_message state cause) now)
                  s m (sound.cancelled_agree id)))
              (idle_after s sound free quiet)
        | inr m ↦
            let (job, at_id, waits) = status_is-some can_wait (s.store.jobs id) w in
            let was : is_cancelled job.status ≡ false =
              subst (λ o. status_is is_cancelled o ≡ false) at_id
                (sym (sound.cancelled_agree id) ∙ m) in
            let (q, open_job) = queued_of job.status waits was in
            after_ready-IsSound settings s sound free quiet id now job at_id left was state cause q
              open_job m
      ]

  resume_at :
      (answer : Answer) (w : Worker) (s : Slot Disk)
      → IsSound s
      → s.worker ≡ w
      → AtWorker w s
      → IsSound (resume_ready settings answer now s)
  unfolding resume_ready
  resume_at answer (awaiting_ready id) s sound e at =
      rw (e, resume_ready) (answered-IsSound s id answer sound at)
  resume_at answer idle s sound e at = rw (e, resume_ready) sound
  resume_at answer absent s sound e at = rw (e, resume_ready) sound
  resume_at answer exited s sound e at = rw (e, resume_ready) sound
  resume_at answer (awaiting_engine id request) s sound e at = rw (e, resume_ready) sound

  pub resume_ready-IsSound :
      (answer : Answer) (s : Slot Disk) → IsSound s → IsSound (resume_ready settings answer now s)
  resume_ready-IsSound answer s sound = resume_at answer s.worker s sound refl sound.at_worker
