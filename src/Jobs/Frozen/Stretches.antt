-- ===== src/Jobs/Frozen/Stretches.antt =====
-- Each method of the runner, and each stretch of its worker, keeps the finished records.
use minimax_music3_webui.Prelude.{
  ℕ, ◌≡◌, refl, String, Bool, true, false, Option, none, some, arith, inl, inr, Bool-cases,
  if◌then◌else◌, str_mem,
}
use minimax_music3_webui.Prelude.Result.{Result, ok, Result-cases}
use minimax_music3_webui.Json.{Fields}
use minimax_music3_webui.Engine.{EngineRequest, EngineResult}
use minimax_music3_webui.Jobs.Store.{JobStatus, JobRecord, JobStore, JobError, update, append_event}
use minimax_music3_webui.Jobs.Slot.{
  Outcome, returned, engine_error, aborted, Written, written, refused, crashed, Settings, Slot, Exc,
  other_error, M, pure, throw, with_store, ask_store, modify, ◌>>=◌, ◌>>◌,
}
use minimax_music3_webui.Jobs.Runner.{
  Answer, reported, raised, Next, finished, abort_task, abort_call, cancel, ensure_cancelled,
  fail_job, unless_cancelled, start_call, mark_cancelled, after_write, teardown, exit_lease, begin,
  run_job, after_ready, persist, persist_and_succeed, handle_outcome, after_engine,
}
use minimax_music3_webui.Jobs.Frozen.{
  Kept, Refuses, to_running-Refuses, to_succeeded-Refuses, to_failed-Refuses, to_cancelled-Refuses,
  update-Kept, append_event-Kept,
}

-- `m` keeps the finished records, whether it returns or raises.
pub record Keeps {Disk A : Type 0} (m : M Disk A) : Type 0 where
  pub at : (s : Slot Disk) → Kept s.store.jobs (m s).1.store.jobs

module _ {Disk : Type 0} where
  Keeps-pure : {A : Type 0} (a : A) → Keeps (pure {Disk = Disk} a)
  Keeps-pure a = record { at = λ s id job h o. h }

  Keeps-throw : {A : Type 0} (e : Exc) → Keeps (throw {Disk = Disk} {A = A} e)
  Keeps-throw e = record { at = λ s id job h o. h }

  Keeps-modify :
      (f : Slot Disk → Slot Disk) → ((s : Slot Disk) → (f s).store ≡ s.store) → Keeps (modify f)
  Keeps-modify f same = record { at = λ s id job h o. rw (same s) h }

  ask_store-state :
      {A : Type 0} (f : JobStore → Result JobError A) (s : Slot Disk) → (ask_store f s).1 ≡ s
  ask_store-state f s = ground arith

  Keeps-ask : {A : Type 0} (f : JobStore → Result JobError A) → Keeps (ask_store {Disk = Disk} f)
  Keeps-ask f = record { at = λ s id job h o. rw (ask_store-state f s) h }

  Keeps-with :
      {A : Type 0} (f : JobStore → Result JobError (A × JobStore))
      → ((s s' : JobStore) (a : A) → f s ≡ ok (a, s') → Kept s.jobs s'.jobs)
      → Keeps (with_store {Disk = Disk} f)
  Keeps-with f keeps = record {
    at = λ s id job h o. elim (Result-cases (f s.store)) [
      | inl ((a, s'), e) ↦ rw (e, with_store) (keeps s.store s' a e id job h o)
      | inr (x, e) ↦ rw (e, with_store) h
    ];
  }

  Keeps-update :
      (id : String) (fn : JobRecord → Result JobError JobRecord)
      → Refuses fn
      → Keeps (with_store {Disk = Disk} (update id fn))
  Keeps-update id fn refuses =
      Keeps-with (update id fn) (λ s s' a. update-Kept id fn s s' a refuses)

  Keeps-append :
      (id type : String) (payload : Fields)
      → Keeps (with_store {Disk = Disk} (append_event id type payload))
  Keeps-append id type payload =
      Keeps-with (append_event id type payload)
        (λ s s' a e job old h o. rw (append_event-Kept id type payload s s' a e) h)

  Keeps-bind :
      {A B : Type 0} (m : M Disk A) (f : A → M Disk B)
      → Keeps m
      → ((a : A) → Keeps (f a))
      → Keeps (m >>= f)
  Keeps-bind m f km kf = record {
    at = λ s id job h o. elim (Result-cases (m s).0) [
      | inl (a, e) ↦ rw (e, ◌>>=◌) ((kf a).at (m s).1 id job (km.at s id job h o) o)
      | inr (x, e) ↦ rw (e, ◌>>=◌) (km.at s id job h o)
    ];
  }

  Keeps-if :
      {A : Type 0} (b : Bool) (m n : M Disk A) → Keeps m → Keeps n → Keeps (if b then m else n)
  Keeps-if true m n km kn = km
  Keeps-if false m n km kn = kn

  ruleset keeps_rules = (
    Keeps-pure, Keeps-throw, Keeps-ask, Keeps-update, Keeps-append, Keeps-bind, Keeps-if,
    to_running-Refuses, to_succeeded-Refuses, to_failed-Refuses, to_cancelled-Refuses,
  )

  pub ensure_cancelled-Keeps : (id now : String) → Keeps (ensure_cancelled {Disk = Disk} id now)
  unfolding ensure_cancelled
  ensure_cancelled-Keeps id now = search keeps_rules

  pub fail_job-Keeps : (id message now : String) → Keeps (fail_job {Disk = Disk} id message now)
  unfolding fail_job
  fail_job-Keeps id message now = search keeps_rules

  pub abort_call-store :
      (id : String) (status : JobStatus) (s : Slot Disk) → (abort_call id status s).store ≡ s.store
  abort_call-store id status s = ground arith

  pub cancel-Keeps : (id now : String) → Keeps (cancel {Disk = Disk} id now)
  unfolding cancel
  cancel-Keeps id now =
      search
        (
          keeps_rules,
          λ (job : String). Keeps-modify (mark_cancelled job) (λ _. refl),
          λ (job : String) (status : JobStatus).
              Keeps-modify (abort_call job status) (abort_call-store job status),
        )
        depth 9

  unless_cancelled-Keeps :
      (id now : String) (rest : M Disk Next) → Keeps rest → Keeps (unless_cancelled id now rest)
  unfolding unless_cancelled
  unless_cancelled-Keeps id now rest k = record {
    at = λ s. elim (Bool-cases (str_mem id s.cancelled)) [
      | inl m ↦
          let stop : Keeps {Disk = Disk} (ensure_cancelled id now >> pure finished) =
            search (keeps_rules, ensure_cancelled-Keeps) in
          rw m (stop.at s)
      | inr m ↦ rw m (k.at s)
    ];
  }

  pub begin-Keeps : (id now : String) → Keeps (begin {Disk = Disk} id now)
  unfolding begin
  begin-Keeps id now = search (unless_cancelled-Keeps, Keeps-pure)

  module _ (settings : Settings Disk) (id : String) where
    run_job-Keeps : (now : String) → Keeps (run_job settings id now)
    unfolding run_job
    run_job-Keeps now =
        search (keeps_rules, λ (r : EngineRequest). Keeps-modify (start_call id r) (λ _. refl))
          depth 9

    pub after_ready-Keeps :
        (answer : Answer) (now : String) → Keeps (after_ready settings id answer now)
    unfolding after_ready
    after_ready-Keeps raised now = Keeps-throw other_error
    after_ready-Keeps (reported state cause) now =
        search (unless_cancelled-Keeps, Keeps-if, run_job-Keeps, fail_job-Keeps)

    after_write-Keeps :
        (later : String) (w : Written) → Keeps (after_write {Disk = Disk} id later w)
    after_write-Keeps later written = Keeps-pure true
    after_write-Keeps later crashed = Keeps-throw other_error
    after_write-Keeps later (refused exc) = search (keeps_rules, fail_job-Keeps)

    write-Keeps :
        (root : String) (record_ : JobRecord) (body : Fields)
        → Keeps {Disk = Disk} (λ s.
          let (disk', w) = settings.write_artifact root record_ body s.disk in
          (ok w, record s { disk = disk' }))
    write-Keeps root record_ body = record { at = λ s job r h o. h }

    persist-Keeps :
        (root : Option String) (result : EngineResult) (request : EngineRequest)
        (now later : String)
        → Keeps (persist settings root id result request now later)
    unfolding persist
    persist-Keeps none result request now later = Keeps-pure true
    persist-Keeps (some root) result request now later =
        search (keeps_rules, write-Keeps, after_write-Keeps) depth 9

    persist_and_succeed-Keeps :
        (result : EngineResult) (request : EngineRequest) (now later : String)
        → Keeps (persist_and_succeed settings id result request now later)
    unfolding persist_and_succeed
    persist_and_succeed-Keeps result request now later = search (keeps_rules, persist-Keeps) depth 9

    abort_task-store : (o : Option ℕ) (s : Slot Disk) → (abort_task o s).store ≡ s.store
    abort_task-store none s = refl
    abort_task-store (some i) s = refl

    teardown-Keeps : Keeps (teardown {Disk = Disk})
    teardown-Keeps = record { at = λ s job r h o. rw (abort_task-store s.current_task s) h }

    handle_outcome-Keeps :
        (request : EngineRequest) (outcome : Outcome) (now later : String)
        → Keeps (handle_outcome settings id request outcome now later)
    unfolding handle_outcome
    handle_outcome-Keeps request aborted now later = search (unless_cancelled-Keeps, teardown-Keeps)
    handle_outcome-Keeps request (engine_error message) now later =
        search (unless_cancelled-Keeps, fail_job-Keeps)
    handle_outcome-Keeps request (returned result) now later =
        search (unless_cancelled-Keeps, persist_and_succeed-Keeps)

    pub after_engine-Keeps :
        (request : EngineRequest) (outcome : Outcome) (now later : String)
        → Keeps (after_engine settings id request outcome now later)
    unfolding after_engine
    after_engine-Keeps request outcome now later = record {
      at = λ s. (handle_outcome-Keeps request outcome now later).at (exit_lease s);
    }
