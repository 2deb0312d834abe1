-- ===== src/Transcode/Measure.antt =====
-- api/transcode/ffmpeg.py: running ffmpeg and ffprobe, and the facts measured of the delivered file.
use minimax_music3_webui.Prelude.{
  ℕ, ◌+◌, ◌*◌, ◌==◌, String, Bool, false, Option, none, some, str_eq, ◌&◌, show, if◌then◌else◌,
}
use minimax_music3_webui.Prelude.Int.{ℤ, pos, negsuc, is_zero}
use minimax_music3_webui.Prelude.Result.{Result, ok, err, ◌>>=◌}
use minimax_music3_webui.Json.{
  Value, int, float, str, arr, obj, PyFloat, Fields, end, field, Items, no_items, item, get,
  or_default, or_null, truthy,
}
use minimax_music3_webui.Transcode.{TranscodePlan, bytes_per_sample}
use minimax_music3_webui.Transcode.Floats.{FloatOps}

-- What `subprocess.run` comes back with: FileNotFoundError, or the exit code, stdout as JSON (`none`
-- where it does not parse) and the first 500 characters of stderr.
pub data Process : Type 0 where
  not_found : Process
  exited : (returncode : ℤ) (stdout : Option Value) (detail : String) → Process

-- A `TranscodeError`, or an exception that the function does not catch.
pub data Failure : Type 0 where
  transcode_error : String → Failure
  uncaught : Failure

abbrev show_int : ℤ → String
show_int (pos n) = show n
show_int (negsuc n) = "-" & show (n + 1)

unfoldable pub transcode_result : Process → Result Failure (Unit {0})
transcode_result not_found = err (transcode_error "ffmpeg not found")
transcode_result (exited returncode stdout detail) =
    if is_zero returncode
    then ok tt
    else err (transcode_error ("ffmpeg exited " & show_int returncode & ": " & detail))

unfoldable pub ffprobe_result : Process → Result Failure Value
ffprobe_result not_found = err (transcode_error "ffprobe not found")
ffprobe_result (exited returncode stdout detail) =
    if is_zero returncode
    then elim stdout [
      | none ↦ err (transcode_error ("ffprobe emitted unparseable JSON: " & detail))
      | some info ↦ ok info
    ]
    else err (transcode_error ("ffprobe exited " & show_int returncode))

pub record AudioFacts : Type 0 where
  pub duration_seconds : PyFloat
  pub sample_rate : ℤ
  pub channels : ℤ
  pub bitrate : ℤ
  pub size : ℕ

unfoldable pub extra_info : AudioFacts → Fields
extra_info facts = field "music_duration" (float facts.duration_seconds) (
    field "music_sample_rate" (int facts.sample_rate) (
      field "music_channel" (int facts.channels)
        (field "bitrate" (int facts.bitrate) (field "music_size" (int (pos facts.size)) end))))

-- `a or b`
abbrev or_else : Option Value → Value → Value
or_else none w = w
or_else (some v) w = if truthy v then v else w

abbrev is_audio : Value → Bool
is_audio (str s) = str_eq s "audio"
is_audio _ = false

-- The first stream whose `codec_type` is audio, else an empty one; a stream has to be an object.
unfoldable pub first_audio : Items → Result Failure Fields
unfolding get
first_audio no_items = ok end
first_audio (item (obj stream) streams) =
    let later = first_audio streams in
    if is_audio (or_null (get stream "codec_type")) then ok stream else later
first_audio (item _ streams) = err uncaught

abbrev streams_of : Value → Result Failure Items
streams_of (arr streams) = ok streams
streams_of (obj end) = ok no_items
streams_of (str s) = if str_eq s "" then ok no_items else err uncaught
streams_of _ = err uncaught

abbrev object_of : Value → Result Failure Fields
object_of (obj fields) = ok fields
object_of _ = err uncaught

abbrev int_of : Option ℤ → Result Failure ℤ
int_of none = err uncaught
int_of (some z) = ok z

abbrev float_of : Option PyFloat → Result Failure PyFloat
float_of none = err uncaught
float_of (some x) = ok x

-- `to_int` and `to_float` are `int(…)` and `float(…)` of a JSON value, `times` is `*` on `int`s.
module _ (ops : FloatOps) (to_int : Value → Option ℤ) (to_float : Value → Option PyFloat)
    (times : ℤ → ℤ → ℤ) where
  -- pcm has no header: its facts follow from its size and the plan.
  unfoldable pub pcm_facts : ℕ → TranscodePlan → AudioFacts
  pcm_facts size plan =
      let frame_bytes = plan.sample_rate * plan.channels * bytes_per_sample in
      record {
        duration_seconds = if frame_bytes == 0 then ops.of_nat 0 else ops.quot size frame_bytes;
        sample_rate = pos plan.sample_rate;
        channels = pos plan.channels;
        bitrate = pos (plan.sample_rate * plan.channels * 16);
        size = size;
      }

  unfoldable pub probed_facts : ℕ → TranscodePlan → Value → Result Failure AudioFacts
  unfolding first_audio get
  probed_facts size plan answer = do
    info ← object_of answer
    streams ← streams_of (or_default (arr no_items) (get info "streams"))
    stream ← first_audio streams
    fmt ← object_of (or_default (obj end) (get info "format"))
    sample_rate ← int_of (to_int (or_else (get stream "sample_rate") (int (pos plan.sample_rate))))
    channels ← int_of (to_int (or_else (get stream "channels") (int (pos plan.channels))))
    duration ← float_of (
        to_float
          (or_else (get fmt "duration") (or_else (get stream "duration") (float (ops.of_nat 0)))))
    bitrate ←
        int_of
          (to_int (or_else (get fmt "bit_rate") (or_else (get stream "bit_rate") (int (pos 0)))))
    ok (record {
      duration_seconds = duration;
      sample_rate = sample_rate;
      channels = channels;
      bitrate = if is_zero bitrate then times (times sample_rate channels) (pos 16) else bitrate;
      size = size;
    })

  -- `probe` is the run of ffprobe on the file.
  unfoldable pub measure :
      (size : ℕ) → TranscodePlan → (probe : Process) → Result Failure AudioFacts
  unfolding ffprobe_result probed_facts pcm_facts
  measure size plan probe =
      if str_eq plan.container "pcm"
      then ok (pcm_facts size plan)
      else ffprobe_result probe >>= probed_facts size plan
