-- ===== src/Lifecycle/Readiness/Idling.antt =====
-- How long the idle loop sleeps.
use minimax_music3_webui.Prelude.{ℕ, ◌+◌, ◌-◌, ◌≤◌, ◌≡◌, arith}
use minimax_music3_webui.Lifecycle.Readiness.{Readiness, sleep, next_idle_sleep, idle_turn}

-- Whatever the state and the clock, each turn of the idle loop that does not try to idle down sleeps
-- at least the poll interval, and not past the end of the idle interval by more than that.
pub idle_turn-sleep :
    (now time : ℕ) (s : Readiness)
    → idle_turn now s ≡ sleep time
    → (s.poll_time ≤ time) × (time ≤ s.poll_time + (s.idle_interval - (now - s.last_activity)))
unfolding idle_turn next_idle_sleep
idle_turn-sleep now time s e = ground arith
