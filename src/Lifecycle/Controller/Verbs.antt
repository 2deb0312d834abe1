-- ===== src/Lifecycle/Controller/Verbs.antt =====
-- What the verbs report of a container that the Docker API handles as it documents.
use minimax_music3_webui.Prelude.{ℕ, ◌≡◌, String, Bool, true, false, Option, none, some}
use minimax_music3_webui.Prelude.Result.{Result, ok, err}
use minimax_music3_webui.Json.{Fields, get, or_null}
use minimax_music3_webui.Lifecycle.Controller.{
  ContainerState, running, stopped, missing, Answer, answered, raised, Call, start_call, stop_call,
  status_call, status, runs, ControllerError,
}

abbrev pub is_ok : {E A : Type 0} → Result E A → Bool
is_ok (ok a) = true
is_ok (err e) = false

abbrev pub code_of : Answer → Option ℕ
code_of (answered code body parse_error) = some code
code_of (raised exc) = none

-- What a verb does to the container, and what is logged of it.
abbrev pub after_start : ContainerState → ContainerState
after_start missing = missing
after_start _ = running

abbrev pub after_stop : ContainerState → ContainerState
after_stop missing = missing
after_stop _ = stopped

abbrev pub start_outcome : ContainerState → String
start_outcome stopped = "started"
start_outcome running = "already_running"
start_outcome missing = "error"

abbrev pub stop_outcome : ContainerState → String
stop_outcome running = "stopped"
stop_outcome stopped = "already_stopped"
stop_outcome missing = "absent"

abbrev pub is_there : ContainerState → Bool
is_there missing = false
is_there _ = true

-- The documented codes: 204 for a change, 304 for none, 404 for no such container.
abbrev pub start_code : ContainerState → ℕ
start_code running = 304
start_code stopped = 204
start_code missing = 404

abbrev pub stop_code : ContainerState → ℕ
stop_code running = 204
stop_code stopped = 304
stop_code missing = 404

-- The answer to an inspection: 404, or 200 with a JSON object that says whether the container runs.
abbrev pub Inspected : ContainerState → Answer → Type 0
Inspected missing a = code_of a ≡ some 404
Inspected running a =
    (body : Fields) × (text : String) × (a ≡ answered 200 (some body) text)
    × (runs (or_null (get body "State")) ≡ true)
Inspected stopped a =
    (body : Fields) × (text : String) × (a ≡ answered 200 (some body) text)
    × (runs (or_null (get body "State")) ≡ false)

-- A daemon that answers one call on the container and changes its state, as the Docker API documents.
pub record IsDocumented (daemon : ContainerState → Call → Answer × ContainerState) : Type 0 where
  pub start_codes : (s : ContainerState) → code_of (daemon s start_call).0 ≡ some (start_code s)
  pub starts : (s : ContainerState) → (daemon s start_call).1 ≡ after_start s
  pub stop_codes : (s : ContainerState) → code_of (daemon s stop_call).0 ≡ some (stop_code s)
  pub stops : (s : ContainerState) → (daemon s stop_call).1 ≡ after_stop s
  pub inspected : (s : ContainerState) → Inspected s (daemon s status_call).0

module _ (daemon : ContainerState → Call → Answer × ContainerState) where
  -- The answers while the container is in this state.
  abbrev pub docker : ContainerState → Call → Answer
  docker s call = (daemon s call).0

  -- The state that is reported next.
  abbrev pub reported : ContainerState → Result ControllerError ContainerState
  reported s = status (docker s)
