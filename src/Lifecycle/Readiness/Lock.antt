-- ===== src/Lifecycle/Readiness/Lock.antt =====
-- api/lifecycle/readiness.py: the shared lock under every interleaving of the callers of `ensure_ready`
-- and the idle loop, one stretch between two waits at a time. A caller that gets READY enters its lease
-- in the same stretch, as the runner does, or lets it be. What a drive assigns to `_last_cause` before it
-- ends is left to the module ColdStart.
pub mod Leased
use minimax_music3_webui.Prelude.{ℕ, ◌≤◌, ◌≡◌, Bool, true, false, Option, none, some, if◌then◌else◌}
use minimax_music3_webui.Lifecycle.Readiness.{
  ReadinessState, ready, Readiness, fresh_ready, driven, enter_lease, exit_lease, idle_down,
  idle_turn, maybe_idle_down, is_ready,
}

-- Who holds the lock: nobody, a caller that drives the readiness, or the idle loop before its status
-- answer or before the end of its stop.
pub data Phase : Type 0 where
  free driving checking stopping : Phase

pub record Shared : Type 0 where
  pub phase : Phase
  pub state : Readiness

-- Readiness(…), before anything was asked.
unfoldable pub new_readiness : (cache_time idle_interval poll_time now : ℕ) → Shared
new_readiness cache_time idle_interval poll_time now = record {
  phase = free;
  state = record {
    cache_time = cache_time;
    cached = none;
    idle_interval = idle_interval;
    poll_time = poll_time;
    leases = 0;
    last_activity = now;
    last_cause = "";
  };
}

-- The first lines of `ensure_ready`: any activity restarts the idle timer.
unfoldable pub touch : ℕ → Readiness → Readiness
touch now s = record s { last_activity = now }

abbrev leased : Bool → Readiness → Readiness
leased enters s = if enters then enter_lease s else s

-- A caller that has just been answered; it enters a lease only if the answer is READY.
abbrev pub answered : (enters : Bool) → ReadinessState → Readiness → Readiness
answered enters state s = if is_ready state then leased enters s else s

-- A caller at the lock: a fresh answer suffices, or it begins to drive.
abbrev entered : (enters : Bool) → Readiness → Option ReadinessState → Shared
entered enters s (some state) = record { phase = free; state = answered enters state s }
entered enters s none = record { phase = driving; state = s }

unfoldable pub acquire : (enters : Bool) → (now : ℕ) → Readiness → Shared
unfolding fresh_ready
acquire enters now s = entered enters s (fresh_ready now s)

unfoldable pub drive_done : (enters : Bool) → ReadinessState → (now : ℕ) → Readiness → Shared
unfolding driven
drive_done enters state now s = record {
  phase = free;
  state = answered enters state (driven state now s);
}

abbrev decided : Bool × Readiness → Shared
decided (stops, s) = record { phase = if stops then stopping else free; state = s }

-- The idle loop has the controller's answer, whether the container is running.
unfoldable pub checked : (running : Bool) → (now : ℕ) → Readiness → Shared
unfolding maybe_idle_down
checked running now s = decided (maybe_idle_down running now s)

pub data Step : Shared → Shared → Type 0 where
  asks :
      (now : ℕ) (p : Phase) (s : Readiness)
      → Step (record { phase = p; state = s }) (record { phase = p; state = touch now s })
  passes :
      (enters : Bool) (now : ℕ) (state : ReadinessState) (p : Phase) (s : Readiness)
      → fresh_ready now s ≡ some state
      → Step
          (record { phase = p; state = s })
          (record { phase = p; state = answered enters state s })
  acquires :
      (enters : Bool) (now : ℕ) (s : Readiness)
      → Step (record { phase = free; state = s }) (acquire enters now s)
  drives :
      (enters : Bool) (state : ReadinessState) (now : ℕ) (s : Readiness)
      → Step (record { phase = driving; state = s }) (drive_done enters state now s)
  gives_up :
      (s : Readiness)
      → Step (record { phase = driving; state = s }) (record { phase = free; state = s })
  wakes :
      (now : ℕ) (s : Readiness)
      → idle_turn now s ≡ idle_down
      → Step (record { phase = free; state = s }) (record { phase = checking; state = s })
  checks :
      (running : Bool) (now : ℕ) (s : Readiness)
      → Step (record { phase = checking; state = s }) (checked running now s)
  fails :
      (s : Readiness)
      → Step (record { phase = checking; state = s }) (record { phase = free; state = s })
  stops :
      (s : Readiness)
      → Step (record { phase = stopping; state = s }) (record { phase = free; state = s })
  leaves :
      (now : ℕ) (p : Phase) (s : Readiness)
      → 1 ≤ s.leases
      → Step (record { phase = p; state = s }) (record { phase = p; state = exit_lease now s })

pub data Reach : Shared → Type 0 where
  initial :
      (cache_time idle_interval poll_time now : ℕ)
      → Reach (new_readiness cache_time idle_interval poll_time now)
  next : {s t : Shared} → Reach s → Step s t → Reach t
