-- ===== src/Lifecycle/Readiness/ColdStart.antt =====
-- api/lifecycle/readiness.py: `_drive_readiness` and `_poll_until_ready`. The n-th probe and the clock's
-- reading after it are functions of n; what the controller answers, and the text of the timeout in
-- seconds, are arguments.
pub mod Bounded
use minimax_music3_webui.Prelude.{
  ℕ, zero, suc, ◌+◌, String, Bool, true, false, Option, none, some, List, [], ◌∷◌, leb, ◌&◌,
  if◌then◌else◌,
}
use minimax_music3_webui.Prelude.Result.{Result, ok, err}
use minimax_music3_webui.Lifecycle.Controller.{
  ContainerState, running, stopped, missing, ControllerError, unavailable, refused,
}
use minimax_music3_webui.Lifecycle.Readiness.{
  ReadinessState, ready, warming, unavailable as is_unavailable, value, ProbeOutcome,
  classify_readiness, is_ready,
}

-- A call of the controller.
pub data Verb : Type 0 where
  asks_status starts : Verb

-- What `_drive_readiness` ends with: the state, what it assigned to `_last_cause`, and its calls.
pub record Driven : Type 0 where
  pub state : ReadinessState
  pub cause : Option String
  pub calls : List Verb

pub record Engine : Type 0 where
  pub probe : ℕ → ProbeOutcome
  pub clock : ℕ → ℕ
  pub timeout_text : String

-- What the controller's `status()` and `start()` give.
pub record Container : Type 0 where
  pub status : Result ControllerError ContainerState
  pub start : Result ControllerError (Unit {0})

abbrev timeout_cause : Engine → ReadinessState → String
timeout_cause engine state =
    "engine did not become ready within "
    & engine.timeout_text
    & "s (last state="
    & value state
    & ")"

-- The loop from the probe `n` on; none where the fuel runs out.
unfoldable pub poll_until_ready :
    Engine → (fuel n deadline : ℕ) → Option (ReadinessState × Option String)
poll_until_ready engine zero n deadline = none
poll_until_ready engine (suc fuel) n deadline =
    let rest = poll_until_ready engine fuel (suc n) deadline in
    let state = classify_readiness (engine.probe n) in
    if is_ready state
    then some (state, none)
    else if leb deadline (engine.clock n)
    then some (state, some (timeout_cause engine state))
    else rest

abbrev polled : List Verb → Option (ReadinessState × Option String) → Option Driven
polled calls none = none
polled calls (some (state, cause)) = some (record { state = state; cause = cause; calls = calls })

abbrev absent_cause : String
absent_cause = "engine container is absent (not defined by compose); cannot start"

abbrev error_text : ControllerError → String
error_text (unavailable text) = text
error_text (refused text) = text

abbrev denied : List Verb → ControllerError → Option Driven
denied calls e = some (record {
  state = is_unavailable;
  cause = some ("lifecycle controller unavailable: " & error_text e);
  calls = calls;
})

module _ (engine : Engine) (fuel deadline : ℕ) where
  abbrev after_start : Result ControllerError (Unit {0}) → Option Driven
  after_start (err e) = denied (asks_status ∷ starts ∷ []) e
  after_start (ok u) = polled (asks_status ∷ starts ∷ []) (poll_until_ready engine fuel 1 deadline)

  abbrev by_status : Container → Result ControllerError ContainerState → Option Driven
  by_status container (err e) = denied (asks_status ∷ []) e
  by_status container (ok missing) =
      some (record { state = is_unavailable; cause = some absent_cause; calls = asks_status ∷ [] })
  by_status container (ok stopped) = after_start container.start
  by_status container (ok running) =
      polled (asks_status ∷ []) (poll_until_ready engine fuel 1 deadline)

  abbrev unless_ready : Option Container → ReadinessState → Option Driven
  unless_ready controller ready = some (record { state = ready; cause = none; calls = [] })
  unless_ready none state = some (record { state = state; cause = none; calls = [] })
  unless_ready (some container) state = by_status container container.status

-- `deadline` is the clock's reading at the start, plus the readiness timeout.
unfoldable pub drive_readiness : Engine → (fuel deadline : ℕ) → Option Container → Option Driven
unfolding poll_until_ready classify_readiness
drive_readiness engine fuel deadline controller =
    unless_ready engine fuel deadline controller (classify_readiness (engine.probe 0))
