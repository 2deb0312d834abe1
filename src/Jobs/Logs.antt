-- ===== src/Jobs/Logs.antt =====
-- The event log of a job in every state that the runner reaches, as a listener reads it.
use minimax_music3_webui.Prelude.{ℕ, suc, ◌-◌, ◌≤◌, ◌≡◌, String, some, List, length, drop, last?}
use minimax_music3_webui.Prelude.Result.{ok}
use minimax_music3_webui.Jobs.Events.{JobEvent, events_since, is_terminal_event}
use minimax_music3_webui.Jobs.Events.Replay.{Ascends, newer_than-drop}
use minimax_music3_webui.Jobs.Store.{
  JobStatus, queued, running, succeeded, failed, cancelled, value, is_terminal, JobRecord, JobStore,
  log,
}
use minimax_music3_webui.Jobs.Store.Valid.{Entry, IsValid-Entry}
use minimax_music3_webui.Jobs.Slot.{Settings, Slot}
use minimax_music3_webui.Jobs.Steps.{Reach}
use minimax_music3_webui.Jobs.Steps.Kept.{Reach-IsSound}

terminal_types :
    (event : JobEvent) (status : JobStatus)
    → event.type ≡ value status
    → is_terminal_event event ≡ is_terminal status
unfolding is_terminal_event
terminal_types event queued e = rw e
terminal_types event running e = rw e
terminal_types event succeeded e = rw e
terminal_types event failed e = rw e
terminal_types event cancelled e = rw e

log_lem :
    (id : String) (s : JobStore) (entries : List JobEvent)
    → s.events id ≡ some entries
    → log id s ≡ ok entries
unfolding log
log_lem id s entries e = rw (e, log)

module _ {Disk : Type 0} (settings : Settings Disk) (s : Slot Disk) (id : String)
    (job : JobRecord) where
  entry : Reach settings s → s.store.jobs id ≡ some job → Entry s.store id job
  entry r e = IsValid-Entry s.store id job (Reach-IsSound settings r).valid e

  -- In every state that can be reached, each job has an event log; its last event names the job's
  -- status, so a listener's end test on that event is true exactly if the status is terminal, and
  -- the log holds no more events than its limit.
  pub log_mirrors_status :
      Reach settings s
      → s.store.jobs id ≡ some job
      → (entries : List JobEvent) × (last : JobEvent) × (log id s.store ≡ ok entries)
        × (last? entries ≡ some last)
        × (last.type ≡ value job.status)
        × (is_terminal_event last ≡ is_terminal job.status)
        × (length entries ≤ s.store.event_log_limit)
  log_mirrors_status r e =
      let entry = entry r e in
      let l = entry.logged in
      (
        entry.log,
        l.last,
        log_lem id s.store entry.log entry.log_at,
        l.is_last,
        l.last_type,
        terminal_types l.last job.status l.last_type,
        l.bounded,
      )

  -- In every state that can be reached, the ids in a job's log count up by one from the first that
  -- was not dropped, and a listener that has seen the events up to `last_id` is sent exactly what is
  -- left of the log without its first `last_id - dropped` events.
  pub replay_resumes :
      Reach settings s
      → s.store.jobs id ≡ some job
      → (entries : List JobEvent) × (dropped : ℕ) × (log id s.store ≡ ok entries)
        × Ascends (suc dropped) entries
        × ((last_id : ℕ) → events_since entries (some last_id) ≡ drop (last_id - dropped) entries)
  unfolding events_since
  replay_resumes r e =
      let entry = entry r e in
      let l = entry.logged in
      (
        entry.log,
        l.dropped,
        log_lem id s.store entry.log entry.log_at,
        l.ascends,
        λ last_id. newer_than-drop last_id l.dropped entry.log l.ascends,
      )
