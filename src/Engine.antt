-- ===== src/Engine.antt =====
-- api/engines/sglang/client.py: the engine's wire protocol. The HTTP library is a parameter of
-- `generate`: what one POST of a JSON body came back with. Times are whole nanoseconds.
use minimax_music3_webui.Prelude.{
  ℕ, ◌-◌, ◌/◌, String, false, Option, none, some, List, ◌==◌, leb, ◌&◌, show, if◌then◌else◌,
}
use minimax_music3_webui.Prelude.Int.{pos}
use minimax_music3_webui.Prelude.Result.{Result, ok, err, ◌>>=◌}
use minimax_music3_webui.Json.{Fields, str, int, bool, end, field}

abbrev pub engine_name : String
engine_name = "sglang-omni"

abbrev pub response_format : String
response_format = "wav"

abbrev pub max_new_tokens_ceiling : ℕ
max_new_tokens_ceiling = 9000

-- 1200 seconds.
abbrev pub read_timeout_floor : ℕ
read_timeout_floor = 1200_000_000_000

pub record EngineRequest : Type 0 where
  pub model : String
  pub input : String
  pub instructions : String
  pub seed : ℕ
  pub max_new_tokens : ℕ

-- `audio` holds bytes, `generation_time` nanoseconds.
pub record EngineResult : Type 0 where
  pub audio : List ℕ
  pub content_type : String
  pub engine : String
  pub model : String
  pub generation_time : ℕ

unfoldable pub build_body : EngineRequest → Fields
build_body r = field "model" (str r.model) (
    field "input" (str r.input) (
      field "instructions" (str r.instructions) (
        field "response_format" (str response_format) (
          field "seed" (int (pos r.seed)) (
            field "max_new_tokens" (int (pos r.max_new_tokens))
              (field "stream" (bool false) end))))))

-- What `client.post` returns, or the text of the exception that it raises.
pub record Response : Type 0 where
  pub status_code : ℕ
  pub content : List ℕ
  pub content_type : Option String

pub data Reply : Type 0 where
  answered : Response → Reply
  raised : String → Reply

-- The message of an `EngineError`.
abbrev pub EngineError : Type 0
EngineError = String

pub record SglangClient : Type 0 where
  pub model : String
  pub read_timeout : ℕ

-- `max(READ_TIMEOUT_FLOOR_SECONDS, float(read_timeout))`
unfoldable pub new_client : String → ℕ → SglangClient
new_client model read_timeout = record {
  model = model;
  read_timeout = if leb read_timeout read_timeout_floor then read_timeout_floor else read_timeout;
}

abbrev content_type_or_wav : Option String → String
content_type_or_wav none = "audio/wav"
content_type_or_wav (some t) = t

-- The `try` of `generate`: any exception of the call becomes the one engine error.
call_engine : (Fields → Reply) → EngineRequest → Result EngineError Response
call_engine post request = elim (post (build_body request)) [
  | raised exc ↦ err ("engine call failed: " & exc)
  | answered response ↦
      if response.status_code / 100 == 2
      then ok response
      else err ("engine returned HTTP " & show response.status_code)
]

-- `start` and `stop` are the two readings of `time.monotonic`.
unfoldable pub generate :
    SglangClient
    → (Fields → Reply)
    → (start stop : ℕ) → EngineRequest
    → Result EngineError EngineResult
unfolding call_engine
generate client post start stop request = do
  response ← call_engine post request
  ok (record {
    audio = response.content;
    content_type = content_type_or_wav response.content_type;
    engine = engine_name;
    model = client.model;
    generation_time = stop - start;
  })
