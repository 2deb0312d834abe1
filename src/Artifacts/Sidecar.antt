-- ===== src/Artifacts/Sidecar.antt =====
-- api/jobs/artifacts.py: what is measured of an audio file and what the sidecar next to it says. The WAV
-- parser, the hash, `datetime` and `json.dumps` are arguments.
use minimax_music3_webui.Prelude.{
  ℕ, String, Option, none, some, List, length, ◌==◌, str_eq, ◌||◌, ◌&◌, if◌then◌else◌,
}
use minimax_music3_webui.Prelude.Int.{pos}
use minimax_music3_webui.Prelude.Table.{Table}
use minimax_music3_webui.Prelude.Result.{Result, ok, err, ◌>>=◌}
use minimax_music3_webui.Json.{Fields, Value, PyFloat, str, int, float, obj, null, end, field}
use minimax_music3_webui.Transcode.Floats.{FloatOps}
use minimax_music3_webui.Jobs.Store.{JobRecord, Submission}
use minimax_music3_webui.Artifacts.Disk.{DiskError, wave_error}

-- What the header of a WAV file says.
pub record WavHeader : Type 0 where
  pub framerate : ℕ
  pub channels : ℕ
  pub frames : ℕ

-- The code that the module calls. `elapsed` is the difference of two ISO instants, `seconds` a time in
-- nanoseconds as Python's seconds.
pub record Outside : Type 0 where
  pub repr : String → String
  pub realpath : String → String
  pub read_wav : List ℕ → Result String WavHeader
  pub sha256 : List ℕ → String
  pub floats : FloatOps
  pub elapsed : (start stop : String) → Result DiskError PyFloat
  pub seconds : ℕ → PyFloat
  pub dumps : Fields → Result DiskError (List ℕ)

pub record WavFacts : Type 0 where
  pub sample_rate : ℕ
  pub channels : ℕ
  pub duration_seconds : PyFloat
  pub byte_size : ℕ
  pub content_hash : String

pub record Deployment : Type 0 where
  pub version : String
  pub image_digest : Value
  pub model_path : Value

-- env.get(key) or None
abbrev set_or_none : Option String → Value
set_or_none none = null
set_or_none (some text) = if str_eq text "" then null else str text

abbrev set_or : Option String → String → String
set_or none default = default
set_or (some text) default = if str_eq text "" then default else text

unfoldable pub deployment_facts_from_env : Table String → Deployment
deployment_facts_from_env env = record {
  version = set_or (env "MUSIC3_ENGINE_VERSION") "unpinned-dev";
  image_digest = set_or_none (env "MUSIC3_IMAGE_DIGEST");
  model_path = set_or_none (env "MUSIC3_MODEL_PATH");
}

abbrev pub text_or_null : Option String → Value
text_or_null none = null
text_or_null (some text) = str text

abbrev with_cloud : Option Fields → Fields
with_cloud none = end
with_cloud (some cloud) = field "cloud" (obj cloud) end

unfoldable pub request_object : Submission → (translated : Fields) → Fields
request_object submission translated = field "input" (str submission.input) (
    field "instructions" (str submission.instructions) (
      field "seed" (int (pos submission.seed)) (
        field "max_new_tokens" (int (pos submission.max_new_tokens))
          (field "translated" (obj translated) (with_cloud submission.cloud)))))

module _ (outside : Outside) where
  abbrev pub facts_of : WavHeader → List ℕ → WavFacts
  facts_of header audio = record {
    sample_rate = header.framerate;
    channels = header.channels;
    duration_seconds =
        if header.framerate == 0
        then outside.floats.of_nat 0
        else outside.floats.quot header.frames header.framerate;
    byte_size = length audio;
    content_hash = outside.sha256 audio;
  }

  abbrev pub facts_if : Result String WavHeader → List ℕ → Result DiskError WavFacts
  facts_if (err exc) audio = err (wave_error ("not a parseable WAV: " & exc))
  facts_if (ok header) audio = ok (facts_of header audio)

  unfoldable pub measure_wav : List ℕ → Result DiskError WavFacts
  measure_wav audio = facts_if (outside.read_wav audio) audio

  abbrev seconds_between : (start stop : String) → Result DiskError Value
  seconds_between start stop =
      if str_eq start "" || str_eq stop ""
      then ok null
      else (outside.elapsed start stop >>= λ x. ok (float x))

  unfoldable pub delta_seconds : (start stop : Option String) → Result DiskError Value
  delta_seconds (some start) (some stop) = seconds_between start stop
  delta_seconds (some start) none = ok null
  delta_seconds none stop = ok null

  abbrev seconds_or_null : Option ℕ → Value
  seconds_or_null none = null
  seconds_or_null (some time) = float (outside.seconds time)

  unfoldable pub build_sidecar :
      JobRecord → Deployment → WavFacts → (translated : Fields) → Result DiskError Fields
  unfolding request_object delta_seconds
  build_sidecar job deployment facts translated = do
    queue ← delta_seconds (some job.submitted_at) job.started_at
    total ← delta_seconds (some job.submitted_at) job.ended_at
    let engine : Fields = field "name" (text_or_null job.engine) (
        field "version" (str deployment.version) (field "image_digest" deployment.image_digest end))
    let timings : Fields = field "submitted_at" (str job.submitted_at) (
        field "started_at" (text_or_null job.started_at) (
          field "ended_at" (text_or_null job.ended_at) (
            field "generation_seconds" (seconds_or_null job.generation_time)
              (field "queue_seconds" queue (field "total_seconds" total end)))))
    let output : Fields = field "sample_rate" (int (pos facts.sample_rate)) (
        field "channels" (int (pos facts.channels)) (
          field "duration_seconds" (float facts.duration_seconds) (
            field "byte_size" (int (pos facts.byte_size)) (
              field "content_hash" (str facts.content_hash)
                (field "content_type" (text_or_null job.content_type) end)))))
    ok (
        field "sidecar_version" (str "1") (
          field "job_id" (str job.id) (
            field "trace_id" (str job.id) (
              field "engine" (obj engine) (
                field "model"
                  (obj
                    (field "id" (text_or_null job.model) (field "path" deployment.model_path end)))
                  (field "request" (obj (request_object job.submission translated))
                    (field "timings" (obj timings) (field "output" (obj output) end))))))))
