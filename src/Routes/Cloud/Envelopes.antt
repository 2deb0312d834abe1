-- ===== src/Routes/Cloud/Envelopes.antt =====
-- Which status and code each reply of the cloud edge has, and that it keeps nothing open.
use minimax_music3_webui.Prelude.{ℕ, ◌≡◌, ◌⊎◌, Bool, true, false, Option, none, some}
use minimax_music3_webui.Prelude.Int.{pos}
use minimax_music3_webui.Prelude.Result.{Result, err}
use minimax_music3_webui.Json.{Value, int, obj, Fields, get}
use minimax_music3_webui.Transcode.Measure.{Failure, uncaught}
use minimax_music3_webui.Routes.Cloud.{Response, json, hex_stream}
use minimax_music3_webui.Routes.Body.{BodyError, refused_with, escaped}

-- body["base_resp"]["status_code"]
abbrev pub code_in : Option Value → Option Value
code_in (some (obj base)) = get base "status_code"
code_in _ = none

abbrev pub HasCode : Fields → ℕ → Type 0
HasCode body code = code_in (get body "base_resp") ≡ some (int (pos code))

-- A JSON reply is a success, a refusal or a local failure; the audio is streamed only in a success.
abbrev pub IsEnvelope : Response → Type 0
IsEnvelope (json status_code body) =
    ((status_code ≡ 200) × HasCode body 0)
    ⊎ (((status_code ≡ 400) × HasCode body 2013) ⊎ ((status_code ≡ 503) × HasCode body 5000))
IsEnvelope (hex_stream template file) = HasCode template 0
IsEnvelope _ = Unit {0}

abbrev pub is_handled : Response → Bool
is_handled (json status_code body) = true
is_handled (hex_stream template file) = true
is_handled _ = false

-- Whether the call raises an exception that is neither a TranscodeError nor an OSError.
abbrev pub escapes : {A : Type 0} → Result Failure A → Bool
escapes (err uncaught) = true
escapes _ = false

abbrev pub Answered : Response → Type 0
Answered r = (is_handled r ≡ true) × IsEnvelope r

-- A refusal has the code of invalid parameters.
abbrev Coded : {A : Type 0} → Result BodyError A → Type 0
Coded (err (refused_with e)) = e.code ≡ 2013
Coded _ = Unit {0}

-- Whether an exception comes out that the route does not handle.
abbrev pub body_escapes : {A : Type 0} → Result BodyError A → Bool
body_escapes (err escaped) = true
body_escapes _ = false
