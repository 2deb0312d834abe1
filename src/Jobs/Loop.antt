-- ===== src/Jobs/Loop.antt =====
-- api/jobs/runner.py: `_loop`, the worker coroutine, and `start` and `stop`. Each function is what
-- happens between two waits of the worker; it does nothing where the worker stands elsewhere.
use minimax_music3_webui.Prelude.{
  ℕ, String, true, false, Option, none, some, List, [], ◌∷◌, if◌then◌else◌,
}
use minimax_music3_webui.Prelude.Table.{is_some}
use minimax_music3_webui.Prelude.Result.{Result, ok, err}
use minimax_music3_webui.Jobs.Store.{job_transition}
use minimax_music3_webui.Jobs.Slot.{
  Outcome, aborted, Task, done, absent, idle, exited, awaiting_ready, awaiting_engine, Settings,
  Slot, Exc, job_error, put_task,
}
use minimax_music3_webui.Jobs.Runner.{
  Answer, Next, finished, await_ready, await_engine, abort_task, begin, after_ready, after_engine,
}

abbrev pub ended : Option Task → Option Outcome
ended none = none
ended (some t) = elim t.state [ done outcome ↦ some outcome | _ ↦ none ]

module _ {Disk : Type 0} where
  -- `_loop` round `_process`: a JobTransitionError is logged and the loop goes on; any other
  -- exception ends the worker.
  unfoldable pub settle : String → Result Exc Next × Slot Disk → Slot Disk
  settle job_id (ok finished, s) = record s { worker = idle }
  settle job_id (ok await_ready, s) = record s { worker = awaiting_ready job_id }
  settle job_id (ok (await_engine request), s) = record s {
    worker = awaiting_engine job_id request;
  }
  settle job_id (err (job_error (job_transition a b)), s) = record s { worker = idle }
  settle job_id (err _, s) = record s { worker = exited }

  -- The worker gets the next job id.
  unfoldable pub take_from : List String → String → Slot Disk → Slot Disk
  unfolding begin settle
  take_from [] now s = s
  take_from (id ∷ rest) now s = settle id (begin id now (record s { queue = rest }))

  unfoldable pub take : String → Slot Disk → Slot Disk
  unfolding take_from
  take now s = elim s.worker [ idle ↦ take_from s.queue now s | _ ↦ s ]

  unfoldable pub resume_ready : Settings Disk → Answer → String → Slot Disk → Slot Disk
  unfolding after_ready settle
  resume_ready settings answer now s = elim s.worker [
    | awaiting_ready id ↦ settle id (after_ready settings id answer now s)
    | _ ↦ s
  ]

  -- The engine call of task `i` comes to its end.
  unfoldable pub end_call : ℕ → Outcome → Slot Disk → Slot Disk
  end_call i outcome s = elim (s.tasks i) [
    | none ↦ s
    | some t ↦ record s { tasks = put_task i (record t { state = done outcome }) s.tasks }
  ]

  abbrev pub task_at : Option ℕ → Slot Disk → Option Task
  task_at none s = none
  task_at (some i) s = s.tasks i

  -- What `await self._current_task` ends with; `none` as long as it waits.
  unfoldable pub awaited : Slot Disk → Option Outcome
  awaited s = if s.must_cancel then some aborted else ended (task_at s.current_task s)

  unfoldable pub resume_engine : Settings Disk → (now later : String) → Slot Disk → Slot Disk
  unfolding after_engine settle
  resume_engine settings now later s = elim s.worker [
    | awaiting_engine id request ↦ elim (awaited s) [
      | none ↦ s
      | some outcome ↦
          settle id
            (after_engine settings id request outcome now later (record s { must_cancel = false }))
    ]
    | _ ↦ s
  ]

  -- The application starts its runner once: a start after a `stop`, which would make a new worker, is
  -- outside the model, so a worker that has ended stays so.
  unfoldable pub start : Slot Disk → Slot Disk
  start s = elim s.worker [ absent ↦ record s { worker = idle } | _ ↦ s ]

  -- `self._worker.cancel()`: at the engine call it cancels the child that is waited for, or, if that
  -- has ended already, makes the wait itself raise; at the other waits the worker unwinds at once.
  unfoldable pub stop : Slot Disk → Slot Disk
  stop s = elim s.worker [
    | idle ↦ record s { worker = exited }
    | awaiting_ready id ↦ record s { worker = exited }
    | awaiting_engine id request ↦
        if is_some (ended (task_at s.current_task s))
        then record s { must_cancel = true }
        else abort_task s.current_task s
    | _ ↦ s
  ]
