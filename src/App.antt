-- ===== src/App.antt =====
-- api/app/main.py: the configuration, the startup line, and the store that the application is made with.
-- `int(text)` and `float(text)` are arguments; `none` is their ValueError.
pub mod Limits
use minimax_music3_webui.Prelude.{ℕ, String, Bool, Option, none, some, str_eq, ◌&◌, if◌then◌else◌}
use minimax_music3_webui.Prelude.Int.{ℤ, pos, negsuc, is_below}
use minimax_music3_webui.Prelude.Table.{Table}
use minimax_music3_webui.Prelude.Result.{Result, ok, err, ◌>>=◌}
use minimax_music3_webui.Json.{PyFloat}
use minimax_music3_webui.Jobs.Store.{JobStore, new_store}

pub record Config : Type 0 where
  pub bind_addr : String
  pub app_port : ℤ
  pub engine_base_url : String
  pub engine_model : String
  pub engine_read_timeout_seconds : PyFloat
  pub readiness_probe_timeout_seconds : PyFloat
  pub readiness_cache_seconds : PyFloat
  pub sse_heartbeat_seconds : PyFloat
  pub event_log_limit : ℤ
  pub artifacts_dir : Option String

-- env.get(key, default)
abbrev pub get_or : Table String → (key default : String) → String
get_or env key default = elim (env key) [ none ↦ default | some text ↦ text ]

-- A value that is not the empty text.
abbrev pub non_empty : Option String → Option String
non_empty none = none
non_empty (some text) = if str_eq text "" then none else some text

-- The message of a ValueError of `int` or `float` is not modelled.
abbrev pub or_raise : {A : Type 0} → Option A → Result String A
or_raise none = err "ValueError"
or_raise (some a) = ok a

module _ (to_int : String → Option ℤ) (to_float : String → Option PyFloat)
    (show_int : ℤ → String) where
  unfoldable pub config_from_env : Table String → Result String Config
  config_from_env env = do
    limit ← or_raise (to_int (get_or env "MUSIC3_EVENT_LOG_LIMIT" "1024"))
    if is_below limit 1
        then err ("MUSIC3_EVENT_LOG_LIMIT must be >= 1; got " & show_int limit)
        else do
          port ← or_raise (to_int (get_or env "MUSIC3_APP_PORT" "8080"))
          read ← or_raise (to_float (get_or env "MUSIC3_ENGINE_READ_TIMEOUT_SECONDS" "1200"))
          probe ← or_raise (to_float (get_or env "MUSIC3_READINESS_PROBE_TIMEOUT_SECONDS" "10"))
          cache ← or_raise (to_float (get_or env "MUSIC3_READINESS_CACHE_SECONDS" "5"))
          beat ← or_raise (to_float (get_or env "MUSIC3_SSE_HEARTBEAT_SECONDS" "15"))
          ok (record {
            bind_addr = get_or env "MUSIC3_BIND_ADDR" "0.0.0.0";
            app_port = port;
            engine_base_url = get_or env "MUSIC3_ENGINE_BASE_URL" "http://sglang:8000";
            engine_model = get_or env "MUSIC3_ENGINE_MODEL" "MiniMaxAI/MiniMax-Music3";
            engine_read_timeout_seconds = read;
            readiness_probe_timeout_seconds = probe;
            readiness_cache_seconds = cache;
            sse_heartbeat_seconds = beat;
            event_log_limit = limit;
            artifacts_dir = non_empty (env "MUSIC3_ARTIFACTS_DIR");
          })

  unfoldable pub startup_banner : Config → String
  startup_banner config =
      "MiniMax-Music3 API listening on "
      & config.bind_addr
      & ":"
      & show_int config.app_port
      & " — UNAUTHENTICATED (LAN-exposed by owner decision D5; accepted risk R-09)"

-- A negative limit is below one, too.
abbrev pub store_with : ℤ → Option JobStore
store_with (pos limit) = new_store limit
store_with (negsuc n) = none

-- JobStore(event_log_limit=config.event_log_limit)
unfoldable pub store_of : Config → Option JobStore
store_of config = store_with config.event_log_limit
