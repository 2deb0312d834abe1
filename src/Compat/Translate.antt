-- ===== src/Compat/Translate.antt =====
-- api/compat/minimax.py: the translation of a cloud request into the local one, its refusals, and the
-- envelope of a success. `repr` and the float operations are arguments.
pub mod Ceiling
pub mod Accepted
pub mod Refused
use Prim.Native.String.{count}
use minimax_music3_webui.Prelude.{
  ℕ, ◌*◌, String, Bool, true, false, not, Option, none, some, List, [], ◌∷◌, ◌&&◌, ◌||◌, ltb, leb,
  str_eq, str_mem, ◌&◌, show, is_some, if◌then◌else◌,
}
use minimax_music3_webui.Prelude.Int.{ℤ, pos, negsuc, is_below, is_above}
use minimax_music3_webui.Prelude.Result.{Result, ok, err, ◌>>=◌, ◌>>◌}
use minimax_music3_webui.Json.{
  Value, null, int, str, obj, Fields, end, field, get, has, or_default, or_null, truthy,
}
use minimax_music3_webui.Compat.Errors.{CompatError, invalid_params, success_code, base_resp}
use minimax_music3_webui.Transcode.{TranscodePlan, refuse, resolve_transcode}
use minimax_music3_webui.Transcode.Floats.{FloatOps}

abbrev pub model_id : String
model_id = "music-3.0"

abbrev pub max_prompt_chars : ℕ
max_prompt_chars = 2000

abbrev pub max_lyrics_chars : ℕ
max_lyrics_chars = 3500

abbrev pub default_seed : ℕ
default_seed = 0

abbrev pub default_max_new_tokens : ℕ
default_max_new_tokens = 9000

abbrev pub max_new_tokens_ceiling : ℕ
max_new_tokens_ceiling = 9000

abbrev pub frames_per_second : ℕ
frames_per_second = 25

abbrev pub bytes_per_sample : ℕ
bytes_per_sample = 2

abbrev pub hex_max_body_bytes : ℕ
hex_max_body_bytes = 200 * 1024 * 1024

abbrev pub recorded_cloud_fields : List String
recorded_cloud_fields =
    "model" ∷ "prompt" ∷ "lyrics" ∷ "stream" ∷ "lyrics_optimizer" ∷ "is_instrumental"
    ∷ "output_format" ∷ "seed" ∷ "max_new_tokens" ∷ "audio_setting" ∷ []

abbrev pub boolean_flags : List String
boolean_flags = "stream" ∷ "lyrics_optimizer" ∷ "is_instrumental" ∷ []

abbrev pub cover_fields : List String
cover_fields = "cover_feature_id" ∷ "audio_url" ∷ "audio_base64" ∷ []

pub record LocalRequest : Type 0 where
  pub input : String
  pub instructions : String
  pub seed : ℕ
  pub max_new_tokens : ℕ
  pub output_format : String
  pub plan : TranscodePlan
  pub cloud : Fields

-- The text of the bound that a number has to keep.
abbrev bound_text : ℕ → Option ℕ → String
bound_text low none = ">= " & show low
bound_text low (some high) = show low & ".." & show high

abbrev above : ℤ → Option ℕ → Bool
above z none = false
above z (some high) = is_above z high

abbrev bad_int : {A : Type 0} → String → ℕ → Option ℕ → Result CompatError A
bad_int name low high = refuse name (name & " must be an integer " & bound_text low high)

-- A `bool` is another constructor than an `int`; a bound from below is a natural number.
abbrev pub check_int : String → ℕ → Option ℕ → Value → Result CompatError ℕ
check_int name low high (int (pos n)) =
    if is_below (pos n) low || above (pos n) high then bad_int name low high else ok n
check_int name low high _ = bad_int name low high

unfoldable pub validate_int : Fields → String → ℕ → ℕ → Option ℕ → Result CompatError ℕ
unfolding get
validate_int body name default low high =
    check_int name low high (or_default (int (pos default)) (get body name))

-- The loop over the boolean flags.
unfoldable pub check_flags : Fields → List String → Result CompatError (Unit {0})
unfolding get
check_flags body [] = ok tt
check_flags body (flag ∷ flags) =
    let rest = check_flags body flags in
    if truthy (or_null (get body flag))
    then refuse flag (flag & " is not supported by the local engine")
    else rest

unfoldable pub check_covers : Fields → List String → Result CompatError (Unit {0})
unfolding get
check_covers body [] = ok tt
check_covers body (cover ∷ covers) =
    let rest = check_covers body covers in
    if has body cover
    then refuse cover (cover & " (cover flow) is not supported by the local engine")
    else rest

-- `isinstance(text, str) and 1 <= len(text) <= limit`
abbrev pub check_text : String → ℕ → Option Value → Result CompatError String
check_text name limit (some (str s)) =
    if leb 1 (count s) && leb (count s) limit
    then ok s
    else refuse name (name & " must be a string of 1-" & show limit & " characters")
check_text name limit _ =
    refuse name (name & " must be a string of 1-" & show limit & " characters")

abbrev bad_output_format : {A : Type 0} → Result CompatError A
bad_output_format = refuse "output_format" "output_format must be 'hex' or 'url'"

abbrev pub check_output_format : Value → Result CompatError String
check_output_format (str s) = if str_mem s ("hex" ∷ "url" ∷ []) then ok s else bad_output_format
check_output_format _ = bad_output_format

-- `{key: body[key] for key in keys if key in body}`
unfoldable pub record_fields : List String → Fields → Fields
unfolding get
record_fields [] body = end
record_fields (key ∷ keys) body =
    let rest = record_fields keys body in
    elim (get body key) [ none ↦ rest | some v ↦ field key v rest ]

abbrev is_model : Option Value → Bool
is_model (some (str s)) = str_eq s model_id
is_model _ = false

module _ (ops : FloatOps) where
  -- An mp3 plan always has a bitrate; without one the source raises a TypeError, here it counts 0.
  abbrev bitrate_of : Option ℕ → ℕ
  bitrate_of none = 0
  bitrate_of (some n) = n

  unfoldable pub estimate_hex_bytes : ℕ → TranscodePlan → ℕ
  estimate_hex_bytes max_new_tokens plan =
      let duration = ops.quot max_new_tokens frames_per_second in
      let audio_bytes =
        if str_eq plan.container "mp3"
        then ops.mul (ops.quot (bitrate_of plan.bitrate) 8) duration
        else ops.mul
            (ops.mul (ops.mul duration (ops.of_nat plan.sample_rate)) (ops.of_nat plan.channels))
            (ops.of_nat bytes_per_sample) in
      ops.trunc (ops.mul audio_bytes (ops.of_nat 2))

module _ (repr : Value → String) (ops : FloatOps) where
  abbrev pub check_ceiling : String → ℕ → ℕ → Result CompatError (Unit {0})
  check_ceiling output_format estimate ceiling =
      if str_eq output_format "hex" && ltb ceiling estimate
      then refuse "output_format" (
          "hex body ~"
          & show estimate
          & " bytes exceeds the "
          & show ceiling
          & "-byte ceiling; use output_format 'url'")
      else ok tt

  abbrev pub check_model : Fields → Result CompatError (Unit {0})
  check_model body =
      if is_model (get body "model")
      then ok tt
      else refuse "model" ("model must be 'music-3.0'; got " & repr (or_null (get body "model")))

  unfoldable pub translate_fields : ℕ → Fields → Result CompatError LocalRequest
  unfolding get check_flags check_covers validate_int record_fields estimate_hex_bytes
  translate_fields hex_ceiling_bytes body = do
    check_model body
    check_flags body boolean_flags
    check_covers body cover_fields
    prompt ← check_text "prompt" max_prompt_chars (get body "prompt")
    lyrics ← check_text "lyrics" max_lyrics_chars (get body "lyrics")
    output_format ← check_output_format (or_default (str "hex") (get body "output_format"))
    seed ← validate_int body "seed" default_seed 0 none
    max_new_tokens ←
        validate_int body "max_new_tokens" default_max_new_tokens 1 (some max_new_tokens_ceiling)
    plan ← resolve_transcode repr (or_null (get body "audio_setting"))
    check_ceiling output_format (estimate_hex_bytes ops max_new_tokens plan) hex_ceiling_bytes
    ok (record {
      input = lyrics;
      instructions = prompt;
      seed = seed;
      max_new_tokens = max_new_tokens;
      output_format = output_format;
      plan = plan;
      cloud = record_fields recorded_cloud_fields body;
    })

  unfoldable pub translate : (hex_ceiling_bytes : ℕ) → Value → Result CompatError LocalRequest
  unfolding translate_fields
  translate hex_ceiling_bytes (obj body) = translate_fields hex_ceiling_bytes body
  translate hex_ceiling_bytes _ = err (record {
    code = invalid_params;
    named = none;
    message = "request body must be a JSON object";
  })

unfoldable pub response_envelope : String → String → ℕ → Fields → Fields
unfolding base_resp
response_envelope trace_id audio status extra_info =
    field "data" (obj (field "audio" (str audio) (field "status" (int (pos status)) end))) (
      field "trace_id" (str trace_id) (
        field "extra_info" (obj extra_info) (
          field "analysis_info" null
            (field "base_resp" (obj (base_resp success_code "success")) end))))
