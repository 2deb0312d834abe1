-- ===== src/Routes/Native.antt =====
-- api/app/routes/jobs.py: the native job API and the event stream of a job.
pub mod Stream
use minimax_music3_webui.Prelude.{
  ℕ, ◌+◌, ◌-◌, String, Bool, true, false, Option, none, some, List, [], ◌∷◌, ◌++◌, leb, ltb, ◌||◌,
  map, if◌then◌else◌,
}
use minimax_music3_webui.Prelude.Int.{pos}
use minimax_music3_webui.Prelude.Result.{Result, ok, err}
use minimax_music3_webui.Json.{Value, str, int, obj, null, Fields, end, field}
use minimax_music3_webui.Engine.{max_new_tokens_ceiling}
use minimax_music3_webui.Artifacts.Sidecar.{text_or_null}
use minimax_music3_webui.Jobs.Events.{JobEvent, events_since, is_terminal_event}
use minimax_music3_webui.Jobs.Store.{
  JobStatus, value, JobRecord, JobStore, JobError, job_not_found, job_transition, key_error, get,
}

unfoldable pub job_view : JobRecord → Fields
job_view job = field "id" (str job.id) (
    field "status" (str (value job.status)) (
      field "params"
        (obj (
          field "input" (str job.submission.input) (
            field "instructions" (str job.submission.instructions) (
              field "seed" (int (pos job.submission.seed))
                (field "max_new_tokens" (int (pos job.submission.max_new_tokens)) end)))))
        (field "submitted_at" (str job.submitted_at) (
          field "started_at" (text_or_null job.started_at) (
            field "ended_at" (text_or_null job.ended_at) (
              field "engine" (text_or_null job.engine) (
                field "model" (text_or_null job.model)
                  (field "error" (text_or_null job.error) end))))))))

-- The status code with the view, or with none.
abbrev pub Reply : Type 0
Reply = ℕ × Option Fields

-- A KeyError is not caught.
unfoldable pub get_job : String → JobStore → Reply
unfolding get job_view
get_job job_id store = elim (get job_id store) [
  | ok job ↦ (200, some (job_view job))
  | err (job_not_found id) ↦ (404, none)
  | err (job_transition from to) ↦ (500, none)
  | err (key_error id) ↦ (500, none)
]

-- The reply to what `runner.cancel` returns or raises.
unfoldable pub cancel_reply : Result JobError JobRecord → Reply
unfolding job_view
cancel_reply (ok job) = (200, some (job_view job))
cancel_reply (err (job_not_found id)) = (404, none)
cancel_reply (err (job_transition from to)) = (409, none)
cancel_reply (err (key_error id)) = (500, none)

-- What a listener is sent.
pub data Piece : Type 0 where
  event : JobEvent → Piece
  heartbeat : Piece

-- One round of the stream's loop: the log that it finds, whether the client has gone, and the clock.
pub record Round : Type 0 where
  pub log : List JobEvent
  pub disconnected : Bool
  pub now : ℕ

-- The events of one round, up to a terminal one: the last id, the pieces, and whether the stream has ended.
unfoldable pub send_events : Option ℕ → List JobEvent → Option ℕ × List JobEvent × Bool
send_events last_id [] = (last_id, [], false)
send_events last_id (e ∷ events) =
    let (last, sent, ended) = send_events (some e.id) events in
    if is_terminal_event e then (some e.id, e ∷ [], true) else (last, e ∷ sent, ended)

-- The pieces of a stream: a heartbeat is due when that much time has passed since the last one. The rounds
-- are those that the loop makes; `true` is a stream that has ended by itself.
unfoldable pub event_stream :
    (heartbeat_time : ℕ) → (last_beat : ℕ) → Option ℕ → List Round → List Piece × Bool
unfolding events_since send_events
event_stream period last_beat last_id [] = ([], false)
event_stream period last_beat last_id (round ∷ rounds) =
    let (last, sent, ended) = send_events last_id (events_since round.log last_id) in
    let due = leb period (round.now - last_beat) in
    let next = event_stream period (if due then round.now else last_beat) last rounds in
    let beat : List Piece = if due then heartbeat ∷ [] else [] in
    if ended || round.disconnected
    then (map event sent, true)
    else (map event sent ++ (beat ++ next.0), next.1)

-- What the counter of live streams is while a stream runs and when it has ended, in whichever way.
abbrev pub stream_counter : (ended : Bool) → ℕ → ℕ
stream_counter ended count = let during = count + 1 in if ended then during - 1 else during
