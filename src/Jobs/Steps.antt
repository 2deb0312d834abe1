-- ===== src/Jobs/Steps.antt =====
-- The runner under every interleaving: requests that submit and cancel, the worker's stretches,
-- engine calls that end when they like, and the shutdown, one step of the event loop at a time.
pub mod Invariant
pub mod Change
pub mod Requests
pub mod Waking
pub mod Settling
pub mod Starting
pub mod Ending
pub mod Outcomes
pub mod Kept
pub mod Cancelling
use minimax_music3_webui.Prelude.{ℕ, ◌≡◌, String, Bool, true, false, Option, none, some}
use minimax_music3_webui.Jobs.Store.{JobStatus, JobRecord, JobStore, Submission, new_store}
use minimax_music3_webui.Jobs.Slot.{
  Outcome, Task, TaskState, pending, cancelling, done, Settings, Slot, new_runner,
}
use minimax_music3_webui.Jobs.Runner.{Answer, submit, cancel}
use minimax_music3_webui.Jobs.Loop.{take, resume_ready, end_call, resume_engine, start, stop}

abbrev pub is_done : TaskState → Bool
is_done (done o) = true
is_done _ = false

abbrev pub task_live : Option Task → Bool
task_live none = false
task_live (some t) = elim (is_done t.state) [ true ↦ false | false ↦ true ]

-- An engine call that has not come to its end.
abbrev pub is_live : {Disk : Type 0} → Slot Disk → ℕ → Bool
is_live s i = task_live (s.tasks i)

module _ {Disk : Type 0} (settings : Settings Disk) where
  -- `uuid4` draws an id that no job has.
  pub data Step (s : Slot Disk) : Slot Disk → Type 0 where
    submits :
        (submission : Submission) (now uuid : String)
        → s.store.jobs uuid ≡ none
        → Step s (submit submission now uuid s).1
    cancels : (job_id now : String) → Step s (cancel job_id now s).1
    takes : (now : String) → Step s (take now s)
    answers : (answer : Answer) (now : String) → Step s (resume_ready settings answer now s)
    ends : (i : ℕ) (outcome : Outcome) → is_live s i ≡ true → Step s (end_call i outcome s)
    resumes : (now later : String) → Step s (resume_engine settings now later s)
    starts : Step s (start s)
    stops : Step s (stop s)

  -- What can be reached from a new runner over a new store.
  pub data Reach : Slot Disk → Type 0 where
    initial :
        (limit : ℕ) (store : JobStore) (disk : Disk)
        → new_store limit ≡ some store
        → Reach (new_runner store disk)
    next : {s t : Slot Disk} → Reach s → Step s t → Reach t
