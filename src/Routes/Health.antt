-- ===== src/Routes/Health.antt =====
-- api/app/health.py: the passive view of the engine's readiness.
use minimax_music3_webui.Json.{Fields, str, end, field}
use minimax_music3_webui.Lifecycle.Readiness.{Readiness, value, last_known}

-- `last_cause()` reads the field; no probe is made.
unfoldable pub health : Readiness → Fields
unfolding last_known
health readiness = field "status" (str "ok") (
    field "engine" (str (value (last_known readiness)))
      (field "engine_cause" (str readiness.last_cause) end))
