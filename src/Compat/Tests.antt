-- ===== src/Compat/Tests.antt =====
-- The theorems on the cloud edge at concrete requests.
use native.Mathlib.Nat.{div-le_of_le-mul, mul-le-mul, mul_comm}
use minimax_music3_webui.Prelude.{ℕ, ◌*◌, ◌/◌, ◌≤◌, ◌≡◌, refl, String, some, arith, subst}
use minimax_music3_webui.Prelude.Int.{pos}
use minimax_music3_webui.Prelude.Result.{ok, err}
use minimax_music3_webui.Json.{PyFloat, finite, Value, int, str, obj, Fields, end, field}
use minimax_music3_webui.Compat.Errors.{CompatError}
use minimax_music3_webui.Transcode.{TranscodePlan, resolve_transcode}
use minimax_music3_webui.Transcode.Floats.{FloatOps, FloatLaws}
use minimax_music3_webui.Transcode.Plans.{
  IsValidPlan, resolved-IsValidPlan, setting_of, resolve-setting_of,
}
use minimax_music3_webui.Transcode.Refusals.{IsRefusal, SettingFault, resolve_transcode-IsRefusal}
use minimax_music3_webui.Compat.Translate.{
  LocalRequest, translate, estimate_hex_bytes, hex_max_body_bytes,
}
use minimax_music3_webui.Compat.Translate.Ceiling.{default_ceiling_admits}
use minimax_music3_webui.Compat.Translate.Accepted.{IsAccepted, translated-IsAccepted}
use minimax_music3_webui.Compat.Translate.Refused.{RequestFault, translate-IsRefusal}

abbrev pub repr : Value → String
repr v = "…"

-- Whole numbers in place of the floats: a quotient is cut off.
abbrev whole : PyFloat → ℕ
whole (finite (pos n) e) = n
whole _ = 0

abbrev of_whole : ℕ → PyFloat
of_whole n = finite (pos n) (pos 0)

abbrev pub whole_ops : FloatOps
whole_ops = record {
  quot = λ a c. of_whole (a / c);
  mul = λ x y. of_whole (whole x * whole y);
  of_nat = of_whole;
  trunc = whole;
}

abbrev WholeLe : PyFloat → PyFloat → Type 0
WholeLe x y = whole x ≤ whole y

quot_bound : (a b c : ℕ) → 1 ≤ c → a ≤ b * c → a / c ≤ b
quot_bound a b c p h =
    div-le_of_le-mul c (let q : a ≤ c * b = subst (λ k. a ≤ k) (mul_comm b c) h in q)

mul_bound : (a b c d : ℕ) → a ≤ b → c ≤ d → a * c ≤ b * d
mul_bound a b c d h k = mul-le-mul h k

whole_laws : FloatLaws whole_ops WholeLe
whole_laws = record {
  whole_below = λ a b h s. (omega arith, h);
  quot_below = λ a b c p h s t. (omega arith, quot_bound a b c p h);
  mul_below = λ x y a b p q s. (omega arith, mul_bound (whole x) a (whole y) b p.1 q.1);
  trunc_below = λ x a p s. p.1;
}

abbrev mp3_setting : Value
mp3_setting = obj (field "format" (str "mp3") end)

abbrev pub mp3_plan : TranscodePlan
mp3_plan = record { container = "mp3"; sample_rate = 32000; channels = 2; bitrate = some 128000 }

mp3_resolved : resolve_transcode repr mp3_setting ≡ ok mp3_plan
unfolding resolve_transcode
mp3_resolved = refl

resolved_example : IsValidPlan mp3_plan
resolved_example = resolved-IsValidPlan repr mp3_setting mp3_plan mp3_resolved

mp3_valid : IsValidPlan mp3_plan
mp3_valid = record { container = refl; sample_rate = refl; channels = refl; bitrate = refl }

setting_of_example : resolve_transcode repr (setting_of mp3_plan) ≡ ok mp3_plan
setting_of_example = resolve-setting_of repr mp3_plan mp3_valid

abbrev wav_setting : Value
wav_setting = obj (field "bitrate" (int (pos 128000)) end)

abbrev wav_error : CompatError
wav_error = record {
  code = 2013;
  named = some "bitrate";
  message = "bitrate is meaningless with format … and is refused";
}

wav_refused : resolve_transcode repr wav_setting ≡ err wav_error
unfolding resolve_transcode
wav_refused = refl

setting-IsRefusal_example : IsRefusal (SettingFault wav_setting) wav_error
setting-IsRefusal_example = resolve_transcode-IsRefusal repr wav_setting wav_error wav_refused

default_ceiling_example :
    (estimate_hex_bytes whole_ops 9000 mp3_plan ≤ 127008000)
    × (estimate_hex_bytes whole_ops 9000 mp3_plan ≤ hex_max_body_bytes)
default_ceiling_example =
    default_ceiling_admits whole_ops WholeLe whole_laws 9000 mp3_plan (omega arith) mp3_valid

abbrev pub body : Fields
body = field "model" (str "music-3.0") (
    field "prompt" (str "folk") (
      field "lyrics" (str "la la")
        (field "audio_setting" mp3_setting (field "seed" (int (pos 7)) end))))

abbrev pub accepted : LocalRequest
accepted = record {
  input = "la la";
  instructions = "folk";
  seed = 7;
  max_new_tokens = 9000;
  output_format = "hex";
  plan = mp3_plan;
  cloud = field "model" (str "music-3.0") (
      field "prompt" (str "folk") (
        field "lyrics" (str "la la")
          (field "seed" (int (pos 7)) (field "audio_setting" mp3_setting end))));
}

pub body-accepted : translate repr whole_ops hex_max_body_bytes (obj body) ≡ ok accepted
unfolding translate resolve_transcode
body-accepted = refl

accepted_example : IsAccepted repr whole_ops hex_max_body_bytes body accepted
accepted_example =
    translated-IsAccepted repr whole_ops hex_max_body_bytes body accepted body-accepted

abbrev streamed : Fields
streamed = field "model" (str "music-3.0") (field "stream" (int (pos 1)) end)

abbrev stream_error : CompatError
stream_error = record {
  code = 2013;
  named = some "stream";
  message = "stream is not supported by the local engine";
}

streamed_refused : translate repr whole_ops hex_max_body_bytes (obj streamed) ≡ err stream_error
unfolding translate
streamed_refused = refl

refused_example : IsRefusal (RequestFault repr whole_ops hex_max_body_bytes streamed) stream_error
refused_example =
    translate-IsRefusal repr whole_ops hex_max_body_bytes streamed stream_error streamed_refused
