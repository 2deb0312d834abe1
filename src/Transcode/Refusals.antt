-- ===== src/Transcode/Refusals.antt =====
-- What the refusals of the cloud edge carry.
use minimax_music3_webui.Prelude.{
  ℕ, ◌≡◌, ◌≢◌, refl, subst, ap, nat_mem, String, Bool, true, false, Option, none, some, List, [],
  ◌∷◌, str_mem, ◌&◌, arith, if◌then◌else◌,
}
use minimax_music3_webui.Prelude.Result.{Result, ok, err, ◌>>=◌}
use minimax_music3_webui.Json.{
  Value, null, int, str, obj, float, bool, arr, Fields, end, get, has, or_default,
}
use minimax_music3_webui.Prelude.Int.{pos}
use minimax_music3_webui.Compat.Errors.{CompatError, invalid_params}
use minimax_music3_webui.Transcode.{
  format_enum, resolve_fields, sample_rate_enum, bitrate_enum, enum_member, refuse, settings_of,
  check_format, check_sample_rate, bitrate_for, resolve_transcode,
}

-- What a refusal carries: the code of invalid parameters, and the name of a field that is at fault.
pub record IsRefusal (Fault : String → Type 0) (e : CompatError) : Type 0 where
  pub code : e.code ≡ invalid_params
  pub name : String
  pub is_named : e.named ≡ some name
  pub at_fault : Fault name

-- Every error of `r` is such a refusal.
pub record Refuses (Fault : String → Type 0) {A : Type 0} (r : Result CompatError A) : Type 0 where
  pub at : (e : CompatError) → r ≡ err e → IsRefusal Fault e

module _ (Fault : String → Type 0) where
  pub Refuses-ok : {A : Type 0} (a : A) → Refuses Fault (let r : Result CompatError A = ok a in r)
  Refuses-ok a = record { at = λ e h. absurd (cc) }

  pub Refuses-refuse :
      {A : Type 0} (name message : String)
      → Fault name
      → Refuses Fault (refuse {A = A} name message)
  Refuses-refuse name message m = record {
    at = λ e h. record { code = ground arith; name = name; is_named = ground arith; at_fault = m };
  }

  pub Refuses-bind :
      {A B : Type 0} (r : Result CompatError A) (f : A → Result CompatError B)
      → Refuses Fault r
      → ((a : A) → r ≡ ok a → Refuses Fault (f a))
      → Refuses Fault (r >>= f)
  Refuses-bind (ok a) f kr kf = kf a refl
  Refuses-bind (err x) f kr kf = record {
    at = λ e h. let same : x ≡ e = cc in subst (IsRefusal Fault) same (kr.at x refl);
  }

  pub Refuses-if :
      {A : Type 0} (b : Bool) (r r' : Result CompatError A)
      → (b ≡ true → Refuses Fault r)
      → (b ≡ false → Refuses Fault r')
      → Refuses Fault (if b then r else r')
  Refuses-if true r r' k k' = k refl
  Refuses-if false r r' k k' = k' refl

-- The fields of a setting; `null` has none.
abbrev pub fields_in : Value → Option Fields
fields_in null = some end
fields_in (obj fields) = some fields
fields_in _ = none

abbrev pub format_in : Fields → Value
format_in fields = or_default (str "wav") (get fields "format")

abbrev pub sample_rate_in : Fields → Value
sample_rate_in fields = or_default (int (pos 32000)) (get fields "sample_rate")

abbrev pub bitrate_in : Fields → Value
bitrate_in fields = or_default (int (pos 128000)) (get fields "bitrate")

-- Which field of an `audio_setting` is at fault, and why.
pub data SettingFault (setting : Value) : String → Type 0 where
  no_object : fields_in setting ≡ none → SettingFault setting "audio_setting"
  bad_format :
      (fields : Fields)
      → fields_in setting ≡ some fields
      → ((s : String) → str_mem s ("mp3" ∷ "wav" ∷ "pcm" ∷ []) ≡ true → format_in fields ≢ str s)
      → SettingFault setting "format"
  bad_sample_rate :
      (fields : Fields)
      → fields_in setting ≡ some fields
      → ((n : ℕ)
          → nat_mem n (16000 ∷ 24000 ∷ 32000 ∷ 44100 ∷ []) ≡ true
          → sample_rate_in fields ≢ int (pos n))
      → SettingFault setting "sample_rate"
  bad_bitrate :
      (fields : Fields)
      → fields_in setting ≡ some fields
      → ((n : ℕ)
          → nat_mem n (32000 ∷ 64000 ∷ 128000 ∷ 256000 ∷ []) ≡ true
          → bitrate_in fields ≢ int (pos n))
      → SettingFault setting "bitrate"
  needless_bitrate :
      (fields : Fields) (fmt : String)
      → fields_in setting ≡ some fields
      → format_in fields ≡ str fmt
      → str_mem fmt ("wav" ∷ "pcm" ∷ []) ≡ true
      → has fields "bitrate" ≡ true
      → SettingFault setting "bitrate"

module _ (repr : Value → String) where
  formats : (v : Value) (fmt : String) → check_format repr v ≡ ok fmt → v ≡ str fmt
  formats (str s) fmt e = ap str (ground arith)
  formats _ fmt e = absurd cc

  format-Refuses :
      (Fault : String → Type 0) (v : Value)
      → (((s : String) → str_mem s format_enum ≡ true → v ≢ str s) → Fault "format")
      → Refuses Fault (check_format repr v)
  format-Refuses Fault (str s) m =
      Refuses-if Fault (str_mem s format_enum) _ _ (λ _. Refuses-ok Fault s)
        λ other. Refuses-refuse Fault "format" _ (m λ u known same. ground arith)
  format-Refuses Fault null m = Refuses-refuse Fault "format" _ (m λ u known same. cc)
  format-Refuses Fault (obj fields) m = Refuses-refuse Fault "format" _ (m λ u known same. cc)
  format-Refuses Fault (int z) m = Refuses-refuse Fault "format" _ (m λ u known same. cc)
  format-Refuses Fault (float x) m = Refuses-refuse Fault "format" _ (m λ u known same. cc)
  format-Refuses Fault (bool b) m = Refuses-refuse Fault "format" _ (m λ u known same. cc)
  format-Refuses Fault (arr vs) m = Refuses-refuse Fault "format" _ (m λ u known same. cc)

  not_member :
      (enum : List ℕ) (v : Value)
      → enum_member enum v ≡ none
      → (n : ℕ) → nat_mem n enum ≡ true
      → v ≢ int (pos n)
  not_member enum v out n known same =
      let no' = subst (λ x. enum_member enum x ≡ none) same out in ground arith

  member-Refuses :
      {A : Type 0} (Fault : String → Type 0) (name message : String) (f : ℕ → A) (o : Option ℕ)
      → (o ≡ none → Fault name)
      → Refuses Fault
          (elim o as (λ _. Result CompatError A) [ some n ↦ ok (f n) | none ↦ refuse name message ])
  member-Refuses Fault name message f (some n) m = Refuses-ok Fault (f n)
  member-Refuses Fault name message f none m = Refuses-refuse Fault name message (m refl)

  settings-Refuses :
      (Fault : String → Type 0) (v : Value)
      → (fields_in v ≡ none → Fault "audio_setting")
      → Refuses Fault (settings_of repr v)
  settings-Refuses Fault null m = Refuses-ok Fault end
  settings-Refuses Fault (obj fields) m = Refuses-ok Fault fields
  settings-Refuses Fault _ m = Refuses-refuse Fault "audio_setting" _ (m refl)

  settings_lem :
      (v : Value) (fields : Fields) → settings_of repr v ≡ ok fields → fields_in v ≡ some fields
  settings_lem null fields e = ap some (ground arith)
  settings_lem (obj found) fields e = ap some (ground arith)
  settings_lem _ fields e = absurd cc

module _ (repr : Value → String) (setting : Value) (fields : Fields)
    (found : fields_in setting ≡ some fields) (Fault : String → Type 0)
    (faults : (name : String) → SettingFault setting name → Fault name) where
  rate-Refuses : Refuses Fault (check_sample_rate repr (sample_rate_in fields))
  rate-Refuses =
      member-Refuses repr Fault "sample_rate"
        ("audio_setting.sample_rate must be one of [16000, 24000, 32000, 44100]; got "
          & repr (sample_rate_in fields))
        (λ n. n) (enum_member sample_rate_enum (sample_rate_in fields))
        λ out. faults "sample_rate" (
          bad_sample_rate fields found
            (not_member repr sample_rate_enum (sample_rate_in fields) out))

  bitrate-Refuses :
      (fmt : String) → format_in fields ≡ str fmt → Refuses Fault (bitrate_for repr fmt fields)
  bitrate-Refuses fmt is_fmt =
      Refuses-if Fault (str_mem fmt ("wav" ∷ "pcm" ∷ [])) _ _
        (λ plain.
          Refuses-if Fault (has fields "bitrate") _ _
            (λ given.
              Refuses-refuse Fault "bitrate"
                ("bitrate is meaningless with format " & repr (str fmt) & " and is refused")
                (faults "bitrate" (needless_bitrate fields fmt found is_fmt plain given)))
            λ _. Refuses-ok Fault none)
        λ _.
          member-Refuses repr Fault "bitrate"
            ("audio_setting.bitrate must be one of [32000, 64000, 128000, 256000]; got "
              & repr (bitrate_in fields))
            some (enum_member bitrate_enum (bitrate_in fields))
            λ out.
              faults "bitrate"
                (bad_bitrate fields found (not_member repr bitrate_enum (bitrate_in fields) out))

  resolve_fields-Refuses : Refuses Fault (resolve_fields repr fields)
  resolve_fields-Refuses =
      Refuses-bind Fault (check_format repr (format_in fields)) _
        (format-Refuses repr Fault (format_in fields)
          λ bad. faults "format" (bad_format fields found bad))
        λ fmt is_ok.
          Refuses-bind Fault (check_sample_rate repr (sample_rate_in fields)) _ rate-Refuses
            λ rate _.
              Refuses-bind Fault (bitrate_for repr fmt fields) _
                (bitrate-Refuses fmt (formats repr (format_in fields) fmt is_ok))
                λ bitrate _. search (Refuses-ok Fault)

pub resolve_transcode-Refuses :
    (repr : Value → String) (setting : Value) (Fault : String → Type 0)
    → ((name : String) → SettingFault setting name → Fault name)
    → Refuses Fault (resolve_transcode repr setting)
unfolding resolve_transcode
resolve_transcode-Refuses repr setting Fault faults =
    Refuses-bind Fault (settings_of repr setting) (resolve_fields repr)
      (settings-Refuses repr Fault setting
        λ none_there. faults "audio_setting" (no_object none_there))
      λ fields is_ok.
        resolve_fields-Refuses repr setting fields (settings_lem repr setting fields is_ok) Fault
          faults

-- Whatever the setting, a refusal of `resolve_transcode` has the code of invalid parameters and names
-- the field that is at fault: `audio_setting` if it is no object, `format`, `sample_rate` or `bitrate` if
-- its value, or its default, is none of the allowed ones, or `bitrate` if it is given for wav or pcm.
pub resolve_transcode-IsRefusal :
    (repr : Value → String) (audio_setting : Value) (e : CompatError)
    → resolve_transcode repr audio_setting ≡ err e
    → IsRefusal (SettingFault audio_setting) e
resolve_transcode-IsRefusal repr audio_setting e h =
    let all =
      resolve_transcode-Refuses repr audio_setting (SettingFault audio_setting) (λ name f. f) in
    all.at e h
