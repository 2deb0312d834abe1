-- ===== src/Lifecycle/Tests.antt =====
-- The theorems on the container's controller and on idling at concrete answers, settings and states.
use minimax_music3_webui.Prelude.{
  ◌⊎◌, Bool, ◌*◌, not, [], ◌∷◌, arith, ◌≤◌, ◌+◌, ◌-◌, ℕ, ◌≡◌, refl, true, false, none, some, str_eq,
  if◌then◌else◌,
}
use minimax_music3_webui.Prelude.Table.{is_some}
use minimax_music3_webui.Prelude.Result.{ok}
use minimax_music3_webui.Json.{Fields, obj, bool, field, end}
use minimax_music3_webui.Lifecycle.Readiness.{
  Readiness, ReadinessState, ready, warming, unavailable, unreachable, is_ready, fresh_ready,
  last_known, sleep, idle_turn,
}
use minimax_music3_webui.Lifecycle.Readiness.Idling.{idle_turn-sleep}
use minimax_music3_webui.Lifecycle.Readiness.ColdStart.{
  Engine, Container, Driven, asks_status, starts, drive_readiness,
}
use minimax_music3_webui.Lifecycle.Readiness.ColdStart.Bounded.{
  Ticks, Calls, drive_ends, drive_reports,
}
use minimax_music3_webui.Lifecycle.Readiness.Lock.{
  Shared, checking, stopping, checked, drive_done, new_readiness, Reach, initial, next, wakes,
  checks,
}
use minimax_music3_webui.Lifecycle.Readiness.Lock.Leased.{stop_excludes_leases, last_known_ready}
use minimax_music3_webui.Lifecycle.Controller
use minimax_music3_webui.Lifecycle.Controller.{
  ContainerState, running, missing, Answer, answered, Call, http_get, http_post, start, status,
}

-- A daemon that holds the container's state.
abbrev inspect_body : Bool → Fields
inspect_body b = field "State" (obj (field "Running" (bool b) end)) end

abbrev inspect : ContainerState → Answer
inspect running = answered 200 (some (inspect_body true)) ""
inspect Controller.stopped = answered 200 (some (inspect_body false)) ""
inspect missing = answered 404 none ""

abbrev posted : (start : Bool) → ContainerState → Answer × ContainerState
posted true running = (answered 304 none "", running)
posted true Controller.stopped = (answered 204 none "", running)
posted true missing = (answered 404 none "", missing)
posted false running = (answered 204 none "", Controller.stopped)
posted false Controller.stopped = (answered 304 none "", Controller.stopped)
posted false missing = (answered 404 none "", missing)

abbrev daemon : ContainerState → Call → Answer × ContainerState
daemon s (http_get path) = (inspect s, s)
daemon s (http_post path) = posted (str_eq path "/containers/minimax-music3-sglang/start") s

abbrev unused : Readiness
unused = record {
  cache_time = 5;
  cached = some (ready, 90);
  idle_interval = 600;
  poll_time = 3;
  leases = 0;
  last_activity = 100;
  last_cause = "";
}

unused_sleeps : idle_turn 400 unused ≡ sleep 300
unfolding idle_turn
unused_sleeps = refl

idle_turn-sleep_example : (3 ≤ 300) × (300 ≤ 3 + (600 - (400 - 100)))
idle_turn-sleep_example = idle_turn-sleep 400 300 unused unused_sleeps

-- A container that is stopped, an engine that never answers, and a clock that goes on by three.
abbrev silent : Engine
silent = record { probe = λ n. unreachable; clock = λ n. n * 3; timeout_text = "6" }

abbrev asleep : Container
asleep = record { status = ok Controller.stopped; start = ok tt }

silent-Ticks : Ticks silent 3
silent-Ticks n = omega arith

drive_ends_example : (d : Driven) × (drive_readiness silent 2 6 (some asleep) ≡ some d)
drive_ends_example = drive_ends silent 3 6 silent-Ticks (some asleep) 1 (omega arith)

abbrev timed_out : Driven
timed_out = record {
  state = unavailable;
  cause = some "engine did not become ready within 6s (last state=unavailable)";
  calls = asks_status ∷ starts ∷ [];
}

timed_out_eq : drive_readiness silent 2 6 (some asleep) ≡ some timed_out
unfolding drive_readiness
timed_out_eq = refl

drive_reports_example :
    Calls asleep timed_out.calls × (is_some timed_out.cause ≡ not (is_ready timed_out.state))
drive_reports_example = drive_reports silent 2 6 asleep timed_out timed_out_eq

-- A runner that has been idle for long enough: the idle loop begins to stop the engine.
abbrev fresh : Shared
fresh = new_readiness 5 600 3 0

abbrev woken : Shared
woken = record fresh { phase = checking }

abbrev ending : Shared
ending = checked true 700 woken.state

ending-Reach : Reach ending
unfolding new_readiness idle_turn
ending-Reach =
    next (next (initial 5 600 3 0) (wakes 700 fresh.state refl)) (checks true 700 woken.state)

ending_stops : ending.phase ≡ stopping
unfolding new_readiness checked
ending_stops = refl

stop_excludes_leases_example :
    (ending.state.leases ≡ 0) × ((later : ℕ) → fresh_ready later ending.state ≡ none)
stop_excludes_leases_example = stop_excludes_leases ending ending-Reach ending_stops

last_known_ready_example :
    (((ending.state.cached ≡ none) × (last_known ending.state ≡ warming))
      ⊎ ((since : ℕ) × (ending.state.cached ≡ some (ready, since))
          × (last_known ending.state ≡ ready)))
    × ((enters : Bool) (state : ReadinessState) (now : ℕ)
        → last_known (drive_done enters state now ending.state).state
          ≡ (if is_ready state then ready else last_known ending.state))
last_known_ready_example = last_known_ready ending ending-Reach
