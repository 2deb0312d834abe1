-- ===== src/Lifecycle/Readiness.antt =====
-- api/lifecycle/readiness.py: the readiness states, the probe, the cached answer, the lease, and the
-- decisions of the idle loop. Times are whole nanoseconds of the monotonic clock.
pub mod Idling
pub mod ColdStart
pub mod Lock
use minimax_music3_webui.Prelude.{
  ℕ, ◌+◌, ◌-◌, ◌/◌, ◌==◌, String, Bool, true, false, Option, none, some, ltb, leb, ◌&&◌,
  if◌then◌else◌,
}

pub data ReadinessState : Type 0 where
  ready warming unavailable : ReadinessState

-- ReadinessState.value
abbrev pub value : ReadinessState → String
value ready = "ready"
value warming = "warming"
value unavailable = "unavailable"

pub data ProbeOutcome : Type 0 where
  models_available loading unreachable : ProbeOutcome

unfoldable pub classify_readiness : ProbeOutcome → ReadinessState
classify_readiness models_available = ready
classify_readiness loading = warming
classify_readiness unreachable = unavailable

-- The answer to one `GET /v1/models`: its status code, or none for an `httpx.HTTPError`.
unfoldable pub probe_outcome : Option ℕ → ProbeOutcome
probe_outcome none = unreachable
probe_outcome (some status_code) = if status_code / 100 == 2 then models_available else loading

unfoldable pub should_idle_down : (leases idle_for idle_interval : ℕ) → (running : Bool) → Bool
should_idle_down leases idle_for idle_interval running =
    leases == 0 && leb idle_interval idle_for && running

-- max(poll_seconds, idle_interval - idle_for), where a negative difference gives way to the other.
unfoldable pub next_idle_sleep : (idle_for idle_interval poll_seconds : ℕ) → ℕ
next_idle_sleep idle_for idle_interval poll_seconds =
    let left = idle_interval - idle_for in if ltb poll_seconds left then left else poll_seconds

-- The fields that the leases, the cache and the idle loop use.
pub record Readiness : Type 0 where
  pub cache_time : ℕ
  pub cached : Option (ReadinessState × ℕ)
  pub idle_interval : ℕ
  pub poll_time : ℕ
  pub leases : ℕ
  pub last_activity : ℕ
  pub last_cause : String

abbrev pub is_ready : ReadinessState → Bool
is_ready ready = true
is_ready _ = false

abbrev fresh_of : (cache_time now : ℕ) → Option (ReadinessState × ℕ) → Option ReadinessState
fresh_of cache_time now none = none
fresh_of cache_time now (some (state, since)) =
    if is_ready state && ltb (now - since) cache_time then some state else none

unfoldable pub fresh_ready : (now : ℕ) → Readiness → Option ReadinessState
fresh_ready now s = fresh_of s.cache_time now s.cached

-- `ensure_ready` after `_drive_readiness` has given `state`.
unfoldable pub driven : ReadinessState → (now : ℕ) → Readiness → Readiness
driven state now s =
    if is_ready state
    then record s { cached = some (state, now); last_activity = now; last_cause = "" }
    else s

unfoldable pub enter_lease : Readiness → Readiness
enter_lease s = record s { leases = s.leases + 1 }

unfoldable pub exit_lease : (now : ℕ) → Readiness → Readiness
exit_lease now s = record s { leases = s.leases - 1; last_activity = now }

-- What one turn of the idle loop does: try to idle down, or sleep.
pub data Turn : Type 0 where
  idle_down : Turn
  sleep : ℕ → Turn

unfoldable pub idle_turn : (now : ℕ) → Readiness → Turn
unfolding next_idle_sleep
idle_turn now s =
    let idle_for = now - s.last_activity in
    if s.leases == 0 && leb s.idle_interval idle_for
    then idle_down
    else sleep (next_idle_sleep idle_for s.idle_interval s.poll_time)

-- The decision under the lock, with the cleared cache where the stop is called; `running` is whether
-- the controller's status is RUNNING.
unfoldable pub maybe_idle_down : (running : Bool) → (now : ℕ) → Readiness → Bool × Readiness
unfolding should_idle_down
maybe_idle_down running now s =
    if should_idle_down s.leases (now - s.last_activity) s.idle_interval running
    then (true, record s { cached = none })
    else (false, s)

abbrev pub known : Option (ReadinessState × ℕ) → ReadinessState
known none = warming
known (some (state, since)) = state

unfoldable pub last_known : Readiness → ReadinessState
last_known s = known s.cached
