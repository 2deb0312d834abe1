-- ===== src/Jobs/Frozen.antt =====
-- No stretch of the program changes the record of a job whose status is terminal, in any state.
pub mod Stretches
pub mod Runs
pub mod Cancels
use minimax_music3_webui.Prelude.{
  ℕ, ◌≡◌, ◌≢◌, refl, sym, subst, String, Bool, true, false, Option, none, some, List, [], ◌∷◌,
  arith, inl, inr, Bool-cases, Option-cases, ◌∙◌, if◌then◌else◌, str_mem, eq_iff, str_eq,
}
use minimax_music3_webui.Prelude.Table.{Table, put, put_ind, is_some}
use minimax_music3_webui.Prelude.Result
use minimax_music3_webui.Prelude.Result.{Result, ok, err, >>=-eq-ok}
use minimax_music3_webui.Jobs.Events.{JobEvent}
use minimax_music3_webui.Json.{Fields}
use minimax_music3_webui.Engine.{EngineRequest, EngineResult}
use minimax_music3_webui.Jobs.Store.{
  JobStatus, is_terminal, is_queued, is_running, JobRecord, JobStore, JobError, Submission, create,
  get, update, append_event, to_running, to_succeeded, to_failed, to_cancelled,
}
use minimax_music3_webui.Jobs.Slot.{
  Outcome, returned, engine_error, aborted, Settings, Slot, Exc, M, pure, throw, with_store,
  ask_store, try_finally, modify, ◌>>=◌, ◌>>◌,
}

-- Every finished record of the first table stands in the second.
abbrev pub Kept : Table JobRecord → Table JobRecord → Type 0
Kept old new =
    (id : String) (job : JobRecord)
    → old id ≡ some job
    → is_terminal job.status ≡ true
    → new id ≡ some job

-- A transition that a finished record refuses.
abbrev pub Refuses : (JobRecord → Result JobError JobRecord) → Type 0
Refuses fn = (job job' : JobRecord) → is_terminal job.status ≡ true → fn job ≢ ok job'

pub to_running-Refuses : (now : String) → Refuses (to_running now)
unfolding to_running
to_running-Refuses now job job' h e = ground arith

pub to_succeeded-Refuses :
    (result : EngineResult) (now : String) → Refuses (to_succeeded result now)
unfolding to_succeeded
to_succeeded-Refuses result now job job' h e = ground arith

pub to_failed-Refuses : (message now : String) → Refuses (to_failed message now)
unfolding to_failed
to_failed-Refuses message now job job' h e = ground arith

pub to_cancelled-Refuses : (now : String) → Refuses (to_cancelled now)
unfolding to_cancelled
to_cancelled-Refuses now job job' h e = ground arith

-- What an update that succeeds has read, and what it writes.
pub update_parts :
    (id : String) (fn : JobRecord → Result JobError JobRecord) (s s' : JobStore) (job : JobRecord)
    → update id fn s ≡ ok (job, s')
    → (first : JobRecord) × (s.jobs id ≡ some first)
      × (fn first ≡ ok job)
      × (s'.jobs ≡ put id job s.jobs)
unfolding update get
update_parts id fn s s' job e =
    let written = λ (first updated : JobRecord).
      let r : Result JobError (JobRecord × JobStore) =
        ok (updated, record s { jobs = put id updated s.jobs }) in
      r in
    let (first, found, rest) =
      >>=-eq-ok (get id s) (λ first. Result.◌>>=◌ (fn first) (written first)) e in
    let (second, done, made) = >>=-eq-ok (fn first) (written first) rest in
    (first, ground arith, ground arith, ground arith)

pub update-Kept :
    (id : String) (fn : JobRecord → Result JobError JobRecord) (s s' : JobStore) (job : JobRecord)
    → Refuses fn
    → update id fn s ≡ ok (job, s')
    → Kept s.jobs s'.jobs
update-Kept id fn s s' job refuses e other old at over =
    let (first, at_id, done, written) = update_parts id fn s s' job e in
    rw written (
      put_ind (λ k o. s.jobs k ≡ some old → o ≡ some old) id job s.jobs other
        (λ here. absurd (refuses old job over (let p : first ≡ old = cc in rw (← p) done)))
        (λ _ h. h) at)

pub append_event-Kept :
    (id type : String) (payload : Fields) (s s' : JobStore) (event : JobEvent)
    → append_event id type payload s ≡ ok (event, s')
    → s'.jobs ≡ s.jobs
unfolding append_event
append_event-Kept id type payload s s' event e = ground arith
