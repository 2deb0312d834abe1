-- ===== src/Jobs/Steps/Change.antt =====
-- What a change of one record, or of one task, does to the statuses of all jobs and to the calls
-- that are under way.
use minimax_music3_webui.Prelude.{
  ℕ, ◌≡◌, ◌≢◌, refl, String, Bool, true, false, Option, none, some, arith, if◌then◌else◌,
}
use minimax_music3_webui.Prelude.Table.{Table, put, put_ind}
use minimax_music3_webui.Jobs.Store.{JobStatus, JobRecord}
use minimax_music3_webui.Jobs.Slot.{Task, Slot, cancel_task}
use minimax_music3_webui.Jobs.Runner.{abort_task, abort_call}
use minimax_music3_webui.Jobs.Steps.{task_live}
use minimax_music3_webui.Jobs.Steps.Invariant.{status_is}

module _ (p : JobStatus → Bool) (jobs : Table JobRecord) (id : String) (job' : JobRecord) where
  -- A test that the new status passes.
  pub status_is-put-true :
      (j : String)
      → p job'.status ≡ true
      → status_is p (jobs j) ≡ true
      → status_is p (put id job' jobs j) ≡ true
  status_is-put-true j new =
      put_ind (λ k o. status_is p (jobs k) ≡ true → status_is p o ≡ true) id job' jobs j (λ _. new)
        (λ _ h. h)

  -- A test that the new status does not pass, and that only `id` could pass.
  pub status_is-put-false :
      (j : String)
      → p job'.status ≡ false
      → (id ≢ j → status_is p (jobs j) ≡ false)
      → status_is p (put id job' jobs j) ≡ false
  status_is-put-false j new old =
      put_ind (λ k o. (id ≢ k → status_is p (jobs k) ≡ false) → status_is p o ≡ false) id job' jobs
        j (λ _. new) (λ n h. h n) old

  -- A test that does not tell the new status from the old.
  pub status_is-put_same :
      (job : JobRecord) (j : String)
      → jobs id ≡ some job
      → p job'.status ≡ p job.status
      → status_is p (put id job' jobs j) ≡ status_is p (jobs j)
  status_is-put_same job j at_id new =
      put_ind (λ k o. status_is p o ≡ status_is p (jobs k)) id job' jobs j (rw at_id new)
        (λ _. refl)

pub task_live-cancel :
    (i : ℕ) (tasks : ℕ → Option Task) (j : ℕ)
    → task_live (cancel_task i tasks j) ≡ task_live (tasks j)
unfolding cancel_task
task_live-cancel i tasks j = ground arith

pub cancel_task-none :
    (i : ℕ) (tasks : ℕ → Option Task) (j : ℕ) → tasks j ≡ none → cancel_task i tasks j ≡ none
unfolding cancel_task
cancel_task-none i tasks j h = ground arith

-- The tasks after a cancellation that may or may not reach one.
pub record Signalled {Disk : Type 0} (s t : Slot Disk) : Type 0 where
  pub tasks : ℕ → Option Task
  pub is_state : t ≡ record s { tasks = tasks }
  pub same_live : (i : ℕ) → task_live (tasks i) ≡ task_live (s.tasks i)
  pub same_none : (i : ℕ) → s.tasks i ≡ none → tasks i ≡ none

module _ {Disk : Type 0} where
  Signalled-none : (s : Slot Disk) → Signalled s s
  Signalled-none s = record {
    tasks = s.tasks;
    is_state = refl;
    same_live = λ _. refl;
    same_none = λ _ h. h;
  }

  pub abort_task-Signalled : (o : Option ℕ) (s : Slot Disk) → Signalled s (abort_task o s)
  abort_task-Signalled none s = Signalled-none s
  abort_task-Signalled (some i) s = record {
    tasks = cancel_task i s.tasks;
    is_state = refl;
    same_live = task_live-cancel i s.tasks;
    same_none = cancel_task-none i s.tasks;
  }

  Signalled-if : (b : Bool) (s t : Slot Disk) → Signalled s t → Signalled s (if b then t else s)
  Signalled-if true s t h = h
  Signalled-if false s t h = Signalled-none s

  pub abort_call-Signalled :
      (id : String) (status : JobStatus) (s : Slot Disk) → Signalled s (abort_call id status s)
  abort_call-Signalled id status s =
      Signalled-if _ s (abort_task s.current_task s) (abort_task-Signalled s.current_task s)
