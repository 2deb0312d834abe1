-- ===== src/Jobs/Frozen/Runs.antt =====
-- Finished records over any sequence of steps of the runner, from any state.
use minimax_music3_webui.Prelude.{
  ℕ, ◌≡◌, refl, String, true, false, Option, none, some, List, [], ◌∷◌, arith,
}
use minimax_music3_webui.Prelude.Table.{put, put_self, put_ind}
use minimax_music3_webui.Prelude.Result.{Result}
use minimax_music3_webui.Jobs.Store.{
  is_terminal, JobRecord, JobStore, Submission, create, fresh_record, append_event,
}
use minimax_music3_webui.Jobs.Slot.{
  Outcome, Worker, idle, awaiting_ready, awaiting_engine, Settings, Slot, Exc,
}
use minimax_music3_webui.Jobs.Runner.{Answer, Next, submit, begin, after_ready, after_engine}
use minimax_music3_webui.Jobs.Loop.{
  take, take_from, resume_ready, end_call, resume_engine, start, stop, settle, awaited,
}
use minimax_music3_webui.Jobs.Steps.{
  Step, submits, cancels, takes, answers, ends, resumes, starts, stops,
}
use minimax_music3_webui.Jobs.Frozen.{Kept}
use minimax_music3_webui.Jobs.Frozen.Stretches.{
  cancel-Keeps, begin-Keeps, after_ready-Keeps, after_engine-Keeps,
}

-- Any number of steps.
pub data Run {Disk : Type 0} (settings : Settings Disk) (s : Slot Disk) : Slot Disk → Type 0 where
  rest : Run settings s s
  further : {t u : Slot Disk} → Run settings s t → Step settings t u → Run settings s u

same-Kept : (s : JobStore) → Kept s.jobs s.jobs
same-Kept s id job h over = h

module _ {Disk : Type 0} where
  settle-store :
      (id : String) (r : Result Exc Next) (s : Slot Disk) → (settle id (r, s)).store ≡ s.store
  unfolding settle
  settle-store id r s = ground arith

  settle-Kept :
      (id : String) (old : JobStore) (p : Result Exc Next × Slot Disk)
      → Kept old.jobs p.1.store.jobs
      → Kept old.jobs (settle id p).store.jobs
  settle-Kept id old p k = rw (settle-store id p.0 p.1) k

  submit-store :
      (submission : Submission) (now uuid : String) (s : Slot Disk)
      → (submit submission now uuid s).1.store.jobs
        ≡ put uuid (fresh_record uuid submission now) s.store.jobs
  unfolding submit create append_event
  submit-store submission now uuid s =
      ground (arith, put_self uuid [] s.store.events, put_self uuid 0 s.store.seq)

  submit-Kept :
      (submission : Submission) (now uuid : String) (s : Slot Disk)
      → s.store.jobs uuid ≡ none
      → Kept s.store.jobs (submit submission now uuid s).1.store.jobs
  submit-Kept submission now uuid s fresh id job at_id over =
      rw (submit-store submission now uuid s) (
        put_ind (λ k o. s.store.jobs k ≡ some job → o ≡ some job) uuid
          (fresh_record uuid submission now) s.store.jobs id (λ e. absurd (cc)) (λ _ h. h) at_id)

  take_from-Kept :
      (now : String) (line : List String) (s : Slot Disk)
      → Kept s.store.jobs (take_from line now s).store.jobs
  unfolding take_from
  take_from-Kept now [] s = same-Kept s.store
  take_from-Kept now (first ∷ line) s =
      settle-Kept first s.store (begin first now (record s { queue = line }))
        ((begin-Keeps first now).at (record s { queue = line }))

  -- A stretch that starts from where the worker stands.
  take-Kept :
      (now : String) (w : Worker) (s : Slot Disk)
      → s.worker ≡ w
      → Kept s.store.jobs (take now s).store.jobs
  unfolding take
  take-Kept now idle s e = rw (e, take) (take_from-Kept now s.queue s)
  take-Kept now _ s e = rw (e, take) (same-Kept s.store)

  ready-Kept :
      (settings : Settings Disk) (answer : Answer) (now : String) (w : Worker) (s : Slot Disk)
      → s.worker ≡ w
      → Kept s.store.jobs (resume_ready settings answer now s).store.jobs
  unfolding resume_ready
  ready-Kept settings answer now (awaiting_ready id) s e =
      rw (e, resume_ready)
        (settle-Kept id s.store (after_ready settings id answer now s)
          ((after_ready-Keeps settings id answer now).at s))
  ready-Kept settings answer now _ s e = rw (e, resume_ready) (same-Kept s.store)

  engine-Kept :
      (settings : Settings Disk) (now later : String) (w : Worker) (s : Slot Disk)
      → s.worker ≡ w
      → Kept s.store.jobs (resume_engine settings now later s).store.jobs
  unfolding resume_engine
  engine-Kept settings now later (awaiting_engine id request) s e =
      rw (e, resume_engine) (woken (awaited s))
    where
      woken :
          (o : Option Outcome)
          → Kept s.store.jobs
              (elim o as (λ _. Slot Disk) [
                | none ↦ s
                | some outcome ↦ settle id (
                    after_engine settings id request outcome now later
                      (record s { must_cancel = false }))
              ]).store.jobs
      woken none = same-Kept s.store
      woken (some outcome) =
          settle-Kept id s.store
            (after_engine settings id request outcome now later (record s { must_cancel = false }))
            ((after_engine-Keeps settings id request outcome now later).at
              (record s { must_cancel = false }))
  engine-Kept settings now later _ s e = rw (e, resume_engine) (same-Kept s.store)

  end_call-store :
      (i : ℕ) (outcome : Outcome) (s : Slot Disk) → (end_call i outcome s).store ≡ s.store
  unfolding end_call
  end_call-store i outcome s = ground arith

  start-store : (s : Slot Disk) → (start s).store ≡ s.store
  unfolding start
  start-store s = ground arith

  stop-store : (s : Slot Disk) → (stop s).store ≡ s.store
  unfolding stop
  stop-store s = ground arith

  pub Step-Kept :
      {settings : Settings Disk} {s t : Slot Disk}
      → Step settings s t
      → Kept s.store.jobs t.store.jobs
  Step-Kept {s = s} (submits submission now uuid fresh) = submit-Kept submission now uuid s fresh
  Step-Kept {s = s} (cancels id now) = (cancel-Keeps id now).at s
  Step-Kept {s = s} (takes now) = take-Kept now s.worker s refl
  Step-Kept {settings} {s} (answers answer now) = ready-Kept settings answer now s.worker s refl
  Step-Kept {s = s} (ends i outcome l) = λ id job h o. rw (end_call-store i outcome s) h
  Step-Kept {settings} {s} (resumes now later) = engine-Kept settings now later s.worker s refl
  Step-Kept {s = s} starts = λ id job h o. rw (start-store s) h
  Step-Kept {s = s} stops = λ id job h o. rw (stop-store s) h

  pub Run-Kept :
      {settings : Settings Disk} {s t : Slot Disk}
      → Run settings s t
      → Kept s.store.jobs t.store.jobs
  Run-Kept rest id job h o = h
  Run-Kept (further r step) id job h o = Step-Kept step id job (Run-Kept r id job h o) o

  -- Once a record has a terminal status, no steps of the runner change it or remove it, from
  -- whatever state they start.
  pub finished_stays :
      (settings : Settings Disk) (s t : Slot Disk) (id : String) (job : JobRecord)
      → Run settings s t
      → s.store.jobs id ≡ some job
      → is_terminal job.status ≡ true
      → t.store.jobs id ≡ some job
  finished_stays settings s t id job r h o = Run-Kept r id job h o
