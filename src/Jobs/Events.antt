-- ===== src/Jobs/Events.antt =====
-- api/jobs/events.py: progress events, the selection that a listener replays, and their rendering.
pub mod Replay
use minimax_music3_webui.Prelude.{
  ℕ, String, Bool, Option, none, some, List, [], ◌∷◌, ltb, str_mem, ◌&◌, show, if◌then◌else◌,
}
use minimax_music3_webui.Json.{Fields}

abbrev pub terminal_event_types : List String
terminal_event_types = "succeeded" ∷ "failed" ∷ "cancelled" ∷ []

pub record JobEvent : Type 0 where
  pub id : ℕ
  pub type : String
  pub payload : Fields

-- `[event for event in log if event.id > last_id]`
unfoldable pub newer_than : ℕ → List JobEvent → List JobEvent
newer_than last_id [] = []
newer_than last_id (event ∷ log) =
    let rest = newer_than last_id log in if ltb last_id event.id then event ∷ rest else rest

unfoldable pub events_since : List JobEvent → Option ℕ → List JobEvent
unfolding newer_than
events_since log none = log
events_since log (some last_id) = newer_than last_id log

-- `dumps` is `json.dumps`.
unfoldable pub render_sse : (dumps : Fields → String) → JobEvent → String
render_sse dumps event =
    "id: " & show event.id & "\nevent: " & event.type & "\ndata: " & dumps event.payload & "\n\n"

unfoldable pub is_terminal_event : JobEvent → Bool
is_terminal_event event = str_mem event.type terminal_event_types
