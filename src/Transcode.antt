-- ===== src/Transcode.antt =====
-- api/transcode/ffmpeg.py: which delivery an `audio_setting` asks for, how ffmpeg is called for it, and
-- what is measured of the delivered file. `repr`, the processes and the parsing of numbers are arguments.
pub mod Floats
pub mod Plans
pub mod Refusals
pub mod Measure
use minimax_music3_webui.Prelude.{
  ℕ, ◌*◌, ◌==◌, String, Bool, true, false, Option, none, some, List, [], ◌∷◌, ◌++◌, str_eq, str_mem,
  nat_mem, ◌&◌, show, if◌then◌else◌,
}
use minimax_music3_webui.Prelude.Int.{ℤ, pos, negsuc, is_zero}
use minimax_music3_webui.Prelude.Result.{Result, ok, err, ◌>>=◌}
use minimax_music3_webui.Json.{
  Value, null, int, float, str, arr, obj, PyFloat, Fields, end, field, get, has, or_default,
  or_null, truthy,
}
use minimax_music3_webui.Compat.Errors.{CompatError, invalid_params}
use minimax_music3_webui.Transcode.Floats.{FloatOps}

abbrev pub native_sample_rate : ℕ
native_sample_rate = 32000

abbrev pub native_channels : ℕ
native_channels = 2

abbrev pub bytes_per_sample : ℕ
bytes_per_sample = 2

abbrev pub sample_rate_enum : List ℕ
sample_rate_enum = 16000 ∷ 24000 ∷ 32000 ∷ 44100 ∷ []

abbrev pub bitrate_enum : List ℕ
bitrate_enum = 32000 ∷ 64000 ∷ 128000 ∷ 256000 ∷ []

abbrev pub format_enum : List String
format_enum = "mp3" ∷ "wav" ∷ "pcm" ∷ []

abbrev pub default_mp3_bitrate : ℕ
default_mp3_bitrate = 128000

pub record TranscodePlan : Type 0 where
  pub container : String
  pub sample_rate : ℕ
  pub channels : ℕ
  pub bitrate : Option ℕ

-- The look-up in the dictionary of the three containers; `none` is the KeyError.
unfoldable pub media_type : TranscodePlan → Option String
media_type plan =
    if str_eq plan.container "mp3"
    then some "audio/mpeg"
    else if str_eq plan.container "wav"
    then some "audio/wav"
    else if str_eq plan.container "pcm"
    then some "application/octet-stream"
    else none

unfoldable pub file_ext : TranscodePlan → Option String
file_ext plan = if str_mem plan.container format_enum then some plan.container else none

abbrev pub refuse : {A : Type 0} → String → String → Result CompatError A
refuse name message = err (record { code = invalid_params; named = some name; message = message })

-- `_is_int(value)` and `value in enum`, with the number.
abbrev pub enum_member : List ℕ → Value → Option ℕ
enum_member enum (int (pos n)) = if nat_mem n enum then some n else none
enum_member enum _ = none

module _ (repr : Value → String) where
  abbrev pub settings_of : Value → Result CompatError Fields
  settings_of null = ok end
  settings_of (obj fields) = ok fields
  settings_of _ = refuse "audio_setting" "audio_setting must be an object"

  abbrev pub format_error : Value → Result CompatError String
  format_error v =
      refuse "format" ("audio_setting.format must be one of ['mp3', 'pcm', 'wav']; got " & repr v)

  abbrev pub check_format : Value → Result CompatError String
  check_format (str s) = if str_mem s format_enum then ok s else format_error (str s)
  check_format v = format_error v

  abbrev pub check_sample_rate : Value → Result CompatError ℕ
  check_sample_rate v = elim (enum_member sample_rate_enum v) [
    | some n ↦ ok n
    | none ↦
        refuse "sample_rate"
          ("audio_setting.sample_rate must be one of [16000, 24000, 32000, 44100]; got " & repr v)
  ]

  abbrev pub check_bitrate : Value → Result CompatError (Option ℕ)
  check_bitrate v = elim (enum_member bitrate_enum v) [
    | some n ↦ ok (some n)
    | none ↦
        refuse "bitrate"
          ("audio_setting.bitrate must be one of [32000, 64000, 128000, 256000]; got " & repr v)
  ]

  abbrev pub bitrate_for : String → Fields → Result CompatError (Option ℕ)
  bitrate_for fmt fields =
      if str_mem fmt ("wav" ∷ "pcm" ∷ [])
      then if has fields "bitrate"
        then refuse "bitrate"
            ("bitrate is meaningless with format " & repr (str fmt) & " and is refused")
        else ok none
      else check_bitrate (or_default (int (pos default_mp3_bitrate)) (get fields "bitrate"))

  abbrev pub resolve_fields : Fields → Result CompatError TranscodePlan
  resolve_fields fields = do
    fmt ← check_format (or_default (str "wav") (get fields "format"))
    sample_rate ←
        check_sample_rate (or_default (int (pos native_sample_rate)) (get fields "sample_rate"))
    bitrate ← bitrate_for fmt fields
    ok (record {
      container = fmt;
      sample_rate = sample_rate;
      channels = native_channels;
      bitrate = bitrate;
    })

  -- `None` is `null`.
  unfoldable pub resolve_transcode : Value → Result CompatError TranscodePlan
  unfolding get
  resolve_transcode audio_setting = do fields ← settings_of audio_setting; resolve_fields fields

-- str(bitrate), where `None` reads "None".
abbrev show_bitrate : Option ℕ → String
show_bitrate none = "None"
show_bitrate (some n) = show n

unfoldable pub output_args : TranscodePlan → List String
output_args plan =
    let common =
      "-map_metadata" ∷ "-1" ∷ "-ar" ∷ show plan.sample_rate ∷ "-ac" ∷ show plan.channels ∷ [] in
    if str_eq plan.container "mp3"
    then common ++ "-c:a" ∷ "libmp3lame" ∷ "-b:a" ∷ show_bitrate plan.bitrate ∷ "-f" ∷ "mp3" ∷ []
    else if str_eq plan.container "wav"
    then common ++ "-c:a" ∷ "pcm_s16le" ∷ "-f" ∷ "wav" ∷ []
    else common ++ "-c:a" ∷ "pcm_s16le" ∷ "-f" ∷ "s16le" ∷ []

unfoldable pub transcode_command : ℕ → TranscodePlan → String → List String
unfolding output_args
transcode_command input_fd plan out_path =
    "ffmpeg"
    ∷ "-nostdin"
    ∷ "-loglevel"
    ∷ "error"
    ∷ "-y"
    ∷ "-i"
    ∷ ("/proc/self/fd/" & show input_fd)
    ∷ (output_args plan ++ out_path ∷ [])
