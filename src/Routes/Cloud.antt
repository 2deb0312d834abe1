-- ===== src/Routes/Cloud.antt =====
-- api/app/routes/music.py: the blocking cloud edge and its `url` delivery. What the runner, the file system,
-- ffmpeg and ffprobe come back with is a record of answers.
pub mod Envelopes
pub mod Released
pub mod Delivered
use minimax_music3_webui.Prelude.{
  ℕ, ◌+◌, ◌-◌, String, Bool, true, false, Option, none, some, List, [], ◌∷◌, str_eq, ◌&◌,
  if◌then◌else◌,
}
use minimax_music3_webui.Prelude.Result.{Result, ok, err, ◌>>=◌}
use minimax_music3_webui.Json.{Value, obj, str, int, float, bool, arr, null, Fields, get, or_null}
use minimax_music3_webui.Compat.Errors.{CompatError, local_failure, error_envelope}
use minimax_music3_webui.Compat.Translate.{LocalRequest, translate, response_envelope}
use minimax_music3_webui.Transcode.Floats.{FloatOps}
use minimax_music3_webui.Routes.Body.{
  BodyError, refused_with, escaped, Loaded, as_body_error, read_json_body,
}
use minimax_music3_webui.Transcode.{TranscodePlan}
use minimax_music3_webui.Transcode.Measure.{
  Failure, transcode_error, uncaught, AudioFacts, extra_info,
}
use minimax_music3_webui.Jobs.Store.{JobStatus, succeeded, is_terminal, value, Submission}

-- `unhandled` is an exception that no handler of the route catches.
pub data Response : Type 0 where
  json : (status_code : ℕ) → Fields → Response
  hex_stream : (template : Fields) → (file : List ℕ) → Response
  file_stream : (media_type : Option String) → (file : List ℕ) → Response
  not_found unhandled : Response
  -- The polls so far have found the job under way: there is no reply yet.
  waiting : Response

-- What the process holds: open descriptors and temporary files; and whether `os.unlink` goes well.
pub record Held : Type 0 where
  pub open_fds : ℕ
  pub temps : ℕ
  pub unlinks : Bool

abbrev pub opened : Held → Held
opened h = record h { open_fds = h.open_fds + 1 }

abbrev pub close : Held → Held
close h = record h { open_fds = h.open_fds - 1 }

abbrev pub added : Held → Held
added h = record h { temps = h.temps + 1 }

-- An OSError of `os.unlink` is swallowed, and the file stays.
abbrev pub safe_unlink : Held → Held
safe_unlink h = if h.unlinks then record h { temps = h.temps - 1 } else h

abbrev pub refused : CompatError → Response
refused e = json 400 (error_envelope e.code e.message none)

abbrev pub local_failed : String → String → Response
local_failed trace_id message = json 503 (error_envelope local_failure message (some trace_id))

-- The status that ends the polling, of those that the polls find; `none` while the job is not over.
unfoldable pub await_terminal : (polls : List JobStatus) → Option JobStatus
await_terminal [] = none
await_terminal (status ∷ polls) =
    let rest = await_terminal polls in if is_terminal status then some status else rest

-- `mkstemp` is its OSError, `transcoded` the file that ffmpeg has written or its failure; the handlers of
-- an OSError and of a TranscodeError are the same. The descriptor is closed in each case.
unfoldable pub transcode_to_temp :
    (mkstemp : Option String)
    → (transcoded : Result Failure (List ℕ)) → Held
    → Result Failure (List ℕ) × Held
transcode_to_temp (some message) transcoded h = (err (transcode_error message), close h)
transcode_to_temp none (ok file) h = (ok file, close (added h))
transcode_to_temp none (err failure) h = (err failure, close (safe_unlink (added h)))

-- What the route is answered: the record's error, the artifacts root, the bytes that `_open_or_none` has
-- opened, how the temporary file, ffmpeg and the measuring go, and the OSError of `os.path.getsize`.
pub record Answers : Type 0 where
  pub trace_id : String
  pub error : Option String
  pub root : Option String
  pub audio : Option (List ℕ)
  pub mkstemp : Option String
  pub transcoded : TranscodePlan → List ℕ → Result Failure (List ℕ)
  pub measured : TranscodePlan → List ℕ → Result Failure AudioFacts
  pub result_url : String
  pub getsize : Option String

abbrev pub error_or : Option String → JobStatus → String
error_or none status = "job " & value status
error_or (some message) status = if str_eq message "" then "job " & value status else message

-- `except (TranscodeError, OSError)`
abbrev pub failed_with : (trace_id message : String) → Failure → Response
failed_with trace_id message (transcode_error detail) = local_failed trace_id message
failed_with trace_id message uncaught = unhandled

-- The temporary file is removed where the failure is one that is caught.
abbrev pub after_failure : Failure → Held → Held
after_failure (transcode_error detail) h = safe_unlink h
after_failure uncaught h = h

abbrev pub envelope_for : (url : Bool) → Answers → Fields → List ℕ → Held → Response × Held
envelope_for true a info file h =
    (json 200 (response_envelope a.trace_id a.result_url 2 info), safe_unlink h)
envelope_for false a info file h =
    (hex_stream (response_envelope a.trace_id "S4HEXAUDIOPLACEHOLDER" 2 info) file, h)

abbrev pub measured_for :
    LocalRequest → Answers → List ℕ → Result Failure AudioFacts → Held → Response × Held
measured_for request a file (err failure) h =
    (failed_with a.trace_id "audio post-processing failed" failure, after_failure failure h)
measured_for request a file (ok facts) h =
    envelope_for (str_eq request.output_format "url") a (extra_info facts) file h

abbrev pub transcoded_for :
    LocalRequest → Answers → Result Failure (List ℕ) × Held → Response × Held
transcoded_for request a (err failure, h) =
    (failed_with a.trace_id "audio post-processing failed" failure, h)
transcoded_for request a (ok file, h) = measured_for request a file (a.measured request.plan file) h

abbrev pub opened_for : LocalRequest → Answers → Option (List ℕ) → Held → Response × Held
opened_for request a none h = (local_failed a.trace_id "generated artifact not found on disk", h)
opened_for request a (some audio) h =
    transcoded_for request a
      (transcode_to_temp a.mkstemp (a.transcoded request.plan audio) (opened h))

abbrev is_succeeded : JobStatus → Bool
is_succeeded succeeded = true
is_succeeded _ = false

abbrev pub rooted_for : LocalRequest → Answers → Option String → Held → Response × Held
rooted_for request a none h = (local_failed a.trace_id "artifacts directory is not configured", h)
rooted_for request a (some root) h = opened_for request a a.audio h

-- The route from the end of the job on.
unfoldable pub deliver : LocalRequest → Answers → JobStatus → Held → Response × Held
unfolding transcode_to_temp extra_info response_envelope error_envelope
deliver request a status h =
    if is_succeeded status
    then rooted_for request a a.root h
    else (local_failed a.trace_id (error_or a.error status), h)

-- Submission(…)
unfoldable pub submission_of : LocalRequest → Submission
submission_of request = record {
  input = request.input;
  instructions = request.instructions;
  seed = request.seed;
  max_new_tokens = request.max_new_tokens;
  cloud = some request.cloud;
}

abbrev pub awaited_for : LocalRequest → Answers → Option JobStatus → Held → Response × Held
awaited_for request a none h = (waiting, h)
awaited_for request a (some status) h = deliver request a status h

abbrev pub translated_for :
    Result BodyError LocalRequest → Answers → (polls : List JobStatus) → Held → Response × Held
translated_for (err (refused_with e)) a polls h = (refused e, h)
translated_for (err escaped) a polls h = (unhandled, h)
translated_for (ok request) a polls h = awaited_for request a (await_terminal polls) h

-- The route, from the reading of the body on; `polls` are the statuses that the polling finds.
unfoldable pub music_generation :
    (repr : Value → String) (ops : FloatOps) (ceiling : ℕ)
    → (loads : List ℕ → Loaded) → (declared : Option String) → (chunks : List (List ℕ)) → Answers
    → (polls : List JobStatus) → Held
    → Response × Held
unfolding read_json_body translate await_terminal deliver error_envelope
music_generation repr ops ceiling loads declared chunks a polls h =
    translated_for
      (read_json_body loads declared chunks >>= λ body.
        as_body_error (translate repr ops ceiling body))
      a polls h

-- A document that has no method `get` raises an AttributeError, which the route does not handle.
pub data NoSetting : Type 0 where
  absent no_object : NoSetting

abbrev pub setting_in : Option Value → Result NoSetting Value
setting_in (some (obj cloud)) = ok (or_null (get cloud "audio_setting"))
setting_in _ = err absent

abbrev pub cloud_in : Option Value → Option Value
cloud_in (some (obj request)) = get request "cloud"
cloud_in _ = none

-- `loaded` is the parsed sidecar, `none` where no member is served, the read fails, or it is no JSON.
unfoldable pub recorded_audio_setting : (loaded : Option Value) → Result NoSetting Value
recorded_audio_setting none = err absent
recorded_audio_setting (some (obj sidecar)) = setting_in (cloud_in (get sidecar "request"))
recorded_audio_setting (some _) = err no_object

abbrev pub file_for :
    (media : TranscodePlan → Option String)
    → TranscodePlan
    → Answers
    → Result Failure (List ℕ) × Held
    → Response × Held
file_for media plan a (err failure, h) =
    (failed_with a.trace_id "delivery transcode failed" failure, h)
file_for media plan a (ok file, h) = elim a.getsize [
  | none ↦ (file_stream (media plan) file, h)
  | some message ↦ (unhandled, h)
]

abbrev pub result_opened :
    (media : TranscodePlan → Option String)
    → TranscodePlan
    → Answers
    → Option (List ℕ)
    → Held
    → Response × Held
result_opened media plan a none h = (not_found, h)
result_opened media plan a (some audio) h =
    file_for media plan a (transcode_to_temp a.mkstemp (a.transcoded plan audio) (opened h))

abbrev pub result_planned :
    (media : TranscodePlan → Option String)
    → Answers
    → Result CompatError TranscodePlan
    → Held
    → Response × Held
result_planned media a (err e) h =
    (local_failed a.trace_id "recorded delivery settings are invalid", h)
result_planned media a (ok plan) h = result_opened media plan a a.audio h

module _ (resolve : Value → Result CompatError TranscodePlan)
    (media : TranscodePlan → Option String) (a : Answers) where
  abbrev pub result_set : Result NoSetting Value → Held → Response × Held
  result_set (err absent) h = (not_found, h)
  result_set (err no_object) h = (unhandled, h)
  result_set (ok setting) h = result_planned media a (resolve setting) h

  abbrev pub result_rooted : Option String → Result NoSetting Value → Held → Response × Held
  result_rooted none recorded h = (not_found, h)
  result_rooted (some root) recorded h = result_set recorded h

  -- GET /v1/music_generation/result/{trace_id}: `resolve` is resolve_transcode, `media` the media type.
  unfoldable pub music_result : (loaded : Option Value) → Held → Response × Held
  unfolding recorded_audio_setting transcode_to_temp error_envelope
  music_result loaded h = result_rooted a.root (recorded_audio_setting loaded) h

-- A generator that was started removes its temporary file at its end, and when the client goes before; of
-- one that was never started no line runs.
abbrev pub ended : (started : Bool) → Held → Held
ended started h = if started then safe_unlink h else h

-- When the reply has been sent, or the client has gone.
abbrev pub sent : (started : Bool) → Response → Held → Held
sent started (json status_code body) h = h
sent started (hex_stream template file) h = ended started h
sent started (file_stream media_type file) h = ended started h
sent started not_found h = h
sent started unhandled h = h
sent started waiting h = h
