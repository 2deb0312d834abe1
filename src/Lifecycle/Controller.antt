-- ===== src/Lifecycle/Controller.antt =====
-- api/lifecycle/controller.py: status, start and stop of the one container over the Docker Engine API,
-- and the parsing of the lifecycle settings. What one HTTP call comes back with is an argument, and so
-- are `float(text)` and the tests on floats, and the `repr` of a text.
pub mod Verbs
use minimax_music3_webui.Prelude.{
  ℕ, ◌/◌, ◌==◌, String, Bool, true, false, not, Option, none, some, List, [], ◌∷◌, ◌&&◌, str_eq,
  str_mem, nat_mem, ◌&◌, show, if◌then◌else◌,
}
use minimax_music3_webui.Prelude.Table.{Table}
use minimax_music3_webui.Prelude.Result.{Result, ok, err, ◌>>=◌}
use minimax_music3_webui.Json.{Value, null, bool, obj, PyFloat, Fields, get, or_null}

abbrev pub container_name : String
container_name = "minimax-music3-sglang"

abbrev pub default_socket : String
default_socket = "/var/run/docker.sock"

pub data ContainerState : Type 0 where
  running stopped missing : ContainerState

-- `ControllerUnavailable` is a `ControllerError`.
pub data ControllerError : Type 0 where
  unavailable : String → ControllerError
  refused : String → ControllerError

abbrev is_true : Value → Bool
is_true (bool b) = b
is_true _ = false

abbrev pub runs : Value → Bool
runs (obj state) = is_true (or_null (get state "Running"))
runs _ = false

unfoldable pub parse_container_state : Fields → ContainerState
unfolding get
parse_container_state inspect = if runs (or_null (get inspect "State")) then running else stopped

-- A call's answer: the status code and the body as a JSON object (`none` where it does not parse, with
-- the text of the exception), or an `httpx.HTTPError` with its `repr`.
pub data Answer : Type 0 where
  answered : ℕ → Option Fields → (parse_error : String) → Answer
  raised : String → Answer

abbrev get_path : String
get_path = "/containers/" & container_name & "/json"

abbrev start_path : String
start_path = "/containers/" & container_name & "/start"

abbrev stop_path : String
stop_path = "/containers/" & container_name & "/stop"

-- An operation of the Docker API.
pub data Call : Type 0 where
  http_get http_post : String → Call

abbrev pub status_call : Call
status_call = http_get get_path

abbrev pub start_call : Call
start_call = http_post start_path

abbrev pub stop_call : Call
stop_call = http_post stop_path

unfoldable pub status : (Call → Answer) → Result ControllerError ContainerState
unfolding parse_container_state
status docker = elim (docker status_call) [
  | raised exc ↦ err (unavailable ("docker inspect failed: " & exc))
  | answered code body parse_error ↦
      if code == 404
      then ok missing
      else if not (code / 100 == 2)
      then err (unavailable ("docker inspect returned status " & show code))
      else elim body [
        | none ↦ err (unavailable ("docker inspect returned a non-JSON body: " & parse_error))
        | some inspect ↦ ok (parse_container_state inspect)
      ]
]

-- The audit line that `finally` logs: the verb and the outcome.
pub record Audit : Type 0 where
  pub verb : String
  pub outcome : String

abbrev post : (Call → Answer) → Call → String → Result ControllerError ℕ
post docker call path = elim (docker call) [
  | raised exc ↦ err (unavailable ("docker POST " & path & " failed: " & exc))
  | answered code body parse_error ↦ ok code
]

-- The outcome that is logged, and what the call returns or raises.
abbrev start_result : Result ControllerError ℕ → String × Result ControllerError (Unit {0})
start_result (err e) = ("error", err e)
start_result (ok code) =
    if nat_mem code (204 ∷ 304 ∷ [])
    then (if code == 204 then "started" else "already_running", ok tt)
    else (
      "error",
      if code == 404
          then err (
              refused
                ("container '" & container_name & "' is not defined (404); refusing to create it"))
          else err (unavailable ("docker start returned status " & show code)),
    )

unfoldable pub start : (Call → Answer) → Audit × Result ControllerError (Unit {0})
start docker =
    let (outcome, result) = start_result (post docker start_call start_path) in
    (record { verb = "start"; outcome = outcome }, result)

abbrev stop_result : Result ControllerError ℕ → String × Result ControllerError (Unit {0})
stop_result (err e) = ("error", err e)
stop_result (ok code) =
    if nat_mem code (204 ∷ 304 ∷ 404 ∷ [])
    then (
      if code == 204 then "stopped" else if code == 304 then "already_stopped" else "absent",
      ok tt,
    )
    else ("error", err (unavailable ("docker stop returned status " & show code)))

unfoldable pub stop : (Call → Answer) → Audit × Result ControllerError (Unit {0})
stop docker =
    let (outcome, result) = stop_result (post docker stop_call stop_path) in
    (record { verb = "stop"; outcome = outcome }, result)

pub record LifecycleConfig : Type 0 where
  pub socket : String
  pub readiness_timeout_seconds : PyFloat
  pub idle_timeout_seconds : PyFloat
  pub poll_seconds : PyFloat

-- What is used of the texts and the floats: `strip().lower()`, `float(text)` (`none` is its
-- ValueError), `repr`, `x > 0`, `x >= 0` and `math.isfinite`.
pub record Parsing : Type 0 where
  pub normal : String → String
  pub parse_float : String → Option PyFloat
  pub repr : String → String
  pub is_positive : PyFloat → Bool
  pub is_not_negative : PyFloat → Bool
  pub is_finite : PyFloat → Bool

abbrev or_text : Option String → String → String
or_text none default = default
or_text (some s) default = s

module _ (p : Parsing) where
  abbrev pub truthy : Option String → Bool
  truthy value = str_mem (p.normal (or_text value "")) ("1" ∷ "true" ∷ "yes" ∷ "on" ∷ [])

  abbrev pub floor_ok : Bool → PyFloat → Bool
  floor_ok allow_zero value = if allow_zero then p.is_not_negative value else p.is_positive value

  abbrev checked : String → String → Bool → Option PyFloat → Result String PyFloat
  checked key raw allow_zero none = err ("could not convert string to float: " & p.repr raw)
  checked key raw allow_zero (some value) =
      if p.is_finite value && floor_ok allow_zero value
      then ok value
      else err (
          key
          & " must be a finite number "
          & (if allow_zero then ">= 0" else "> 0")
          & "; got "
          & p.repr raw)

  unfoldable pub duration :
      Table String → String → String → (allow_zero : Bool) → Result String PyFloat
  duration env key default allow_zero =
      let raw = or_text (env key) default in checked key raw allow_zero (p.parse_float raw)

  -- `none` is lifecycle off; an error is the ValueError.
  unfoldable pub lifecycle_config_from_env : Table String → Result String (Option LifecycleConfig)
  unfolding duration
  lifecycle_config_from_env env =
      if not (truthy (env "MUSIC3_LIFECYCLE_ENABLED")) then ok none else do
        readiness ← duration env "MUSIC3_READINESS_TIMEOUT_SECONDS" "180" false
        idle ← duration env "MUSIC3_IDLE_TIMEOUT_SECONDS" "600" true
        poll ← duration env "MUSIC3_READINESS_POLL_SECONDS" "3" false
        ok (
            some (record {
              socket = or_text (env "MUSIC3_DOCKER_SOCKET") default_socket;
              readiness_timeout_seconds = readiness;
              idle_timeout_seconds = idle;
              poll_seconds = poll;
            }))
