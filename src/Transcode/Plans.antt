-- ===== src/Transcode/Plans.antt =====
-- Which plans `resolve_transcode` makes, which it can make, and what its refusals carry.
use minimax_music3_webui.Prelude.{
  ℕ, ◌≡◌, refl, sym, ap, ◌∙◌, subst, eq_iff, String, Bool, true, false, Option, none, some, List,
  [], ◌∷◌, str_mem, str_eq, nat_mem, arith, inl, inr, Bool-cases, Option-cases,
}
use minimax_music3_webui.Prelude.Int.{pos}
use minimax_music3_webui.Prelude.Result.{Result, ok, >>=-eq-ok, ◌>>=◌}
use minimax_music3_webui.Json.{Value, int, str, obj, Fields, end, field, get, or_default}
use minimax_music3_webui.Compat.Errors.{CompatError}
use minimax_music3_webui.Transcode.{
  TranscodePlan, native_channels, sample_rate_enum, bitrate_enum, format_enum, enum_member,
  check_format, check_sample_rate, check_bitrate, bitrate_for, settings_of, native_sample_rate,
  default_mp3_bitrate, resolve_fields, resolve_transcode,
}

-- A bitrate belongs to mp3, and only to it.
abbrev pub HasBitrate : Bool → Option ℕ → Type 0
HasBitrate true (some n) = nat_mem n bitrate_enum ≡ true
HasBitrate true none = ⊥
HasBitrate false o = o ≡ none

pub record IsValidPlan (plan : TranscodePlan) : Type 0 where
  pub container : str_mem plan.container format_enum ≡ true
  pub sample_rate : nat_mem plan.sample_rate sample_rate_enum ≡ true
  pub channels : plan.channels ≡ native_channels
  pub bitrate : HasBitrate (str_eq plan.container "mp3") plan.bitrate

enum_member_lem :
    (enum : List ℕ) (v : Value) (n : ℕ) → enum_member enum v ≡ some n → nat_mem n enum ≡ true
enum_member_lem enum v n e = ground arith

ok-injective :
    (a b : TranscodePlan) → (let x : Result CompatError TranscodePlan = ok a in x) ≡ ok b → a ≡ b
ok-injective a b e = cc

module _ (repr : Value → String) where
  format_lem :
      (v : Value) (fmt : String) → check_format repr v ≡ ok fmt → str_mem fmt format_enum ≡ true
  format_lem (str s) fmt e = ground arith
  format_lem _ fmt e = cc

  sample_rate_lem :
      (v : Value) (n : ℕ) → check_sample_rate repr v ≡ ok n → nat_mem n sample_rate_enum ≡ true
  sample_rate_lem v n e = elim (Option-cases (enum_member sample_rate_enum v)) [
    | inl none_there ↦ absurd (ground arith)
    | inr (m, found) ↦
        let same : m ≡ n = ground arith in enum_member_lem sample_rate_enum v n (ground arith)
  ]

  -- The three containers, of which only mp3 has a bitrate.
  not_mp3 :
      (fmt : String)
      → str_mem fmt format_enum ≡ true
      → str_mem fmt ("wav" ∷ "pcm" ∷ []) ≡ false
      → str_eq fmt "mp3" ≡ true
  not_mp3 fmt m n = ground arith

  is_mp3 : (fmt : String) → str_mem fmt ("wav" ∷ "pcm" ∷ []) ≡ true → str_eq fmt "mp3" ≡ false
  is_mp3 fmt m = elim (Bool-cases (str_eq fmt "mp3")) [
    | inl e ↦
        let is : fmt ≡ "mp3" = (eq_iff fmt "mp3").0 e in
        absurd (cc (subst (λ f. str_mem f ("wav" ∷ "pcm" ∷ []) ≡ true) is m))
    | inr e ↦ e
  ]

  check_bitrate_lem : (v : Value) (o : Option ℕ) → check_bitrate repr v ≡ ok o → HasBitrate true o
  check_bitrate_lem v o e = elim (Option-cases (enum_member bitrate_enum v)) [
    | inl none_there ↦ absurd (ground arith)
    | inr (n, found) ↦
        let same : some n ≡ o = ground arith in
        subst (HasBitrate true) same (enum_member_lem bitrate_enum v n found)
  ]

  bitrate_lem :
      (fmt : String) (fields : Fields) (o : Option ℕ)
      → str_mem fmt format_enum ≡ true
      → bitrate_for repr fmt fields ≡ ok o
      → HasBitrate (str_eq fmt "mp3") o
  bitrate_lem fmt fields o m e = elim (Bool-cases (str_mem fmt ("wav" ∷ "pcm" ∷ []))) [
    | inl plain ↦ let no_bitrate : none ≡ o = ground arith in rw (is_mp3 fmt plain) (sym no_bitrate)
    | inr mp3 ↦ rw (not_mp3 fmt m mp3) (
        check_bitrate_lem (or_default (int (pos default_mp3_bitrate)) (get fields "bitrate")) o
          (rw mp3 at e))
  ]

  -- Whatever the setting, a plan that is made names one of the three containers, one of the four
  -- sample rates and the two native channels, and has a bitrate of the enumeration exactly if it is
  -- an mp3 plan.
  pub resolved-IsValidPlan :
      (audio_setting : Value) (plan : TranscodePlan)
      → resolve_transcode repr audio_setting ≡ ok plan
      → IsValidPlan plan
  unfolding resolve_transcode
  resolved-IsValidPlan audio_setting plan e =
      let (fields, is_fields, e1) =
        >>=-eq-ok (settings_of repr audio_setting) (resolve_fields repr) e in
      let (fmt, is_fmt, e2) =
        >>=-eq-ok (check_format repr (or_default (str "wav") (get fields "format"))) _ e1 in
      let (rate, is_rate, e3) =
        >>=-eq-ok
          (check_sample_rate repr
            (or_default (int (pos native_sample_rate)) (get fields "sample_rate")))
          _ e2 in
      let (bitrate, is_bitrate, e4) = >>=-eq-ok (bitrate_for repr fmt fields) _ e3 in
      let m = format_lem (or_default (str "wav") (get fields "format")) fmt is_fmt in
      let built : TranscodePlan = record {
        container = fmt;
        sample_rate = rate;
        channels = native_channels;
        bitrate = bitrate;
      } in
      let same : built ≡ plan = ok-injective built plan e4 in
      subst IsValidPlan same (record {
        container = m;
        sample_rate =
            sample_rate_lem (or_default (int (pos native_sample_rate)) (get fields "sample_rate"))
              rate is_rate;
        channels = refl;
        bitrate = bitrate_lem fmt fields bitrate m is_bitrate;
      })

-- The setting that asks for a plan.
abbrev pub bitrate_field : Option ℕ → Fields
bitrate_field none = end
bitrate_field (some n) = field "bitrate" (int (pos n)) end

abbrev pub setting_of : TranscodePlan → Value
setting_of plan = obj (
    field "format" (str plan.container)
      (field "sample_rate" (int (pos plan.sample_rate)) (bitrate_field plan.bitrate)))

module _ (repr : Value → String) where
  mp3_alone : (c : String) → str_eq c "mp3" ≡ true → str_mem c ("wav" ∷ "pcm" ∷ []) ≡ false
  mp3_alone c e = elim (Bool-cases (str_mem c ("wav" ∷ "pcm" ∷ []))) [
    | inl m ↦ absurd (cc (is_mp3 repr c m))
    | inr n ↦ n
  ]

  bitrate_ok :
      (n : ℕ) → nat_mem n bitrate_enum ≡ true → check_bitrate repr (int (pos n)) ≡ ok (some n)
  bitrate_ok n h = ground arith

  sample_rate_ok :
      (n : ℕ) → nat_mem n sample_rate_enum ≡ true → check_sample_rate repr (int (pos n)) ≡ ok n
  sample_rate_ok n h = ground arith

  abbrev plan_of : String → ℕ → Option ℕ → Result CompatError TranscodePlan
  plan_of fmt rate bitrate = ok (record {
    container = fmt;
    sample_rate = rate;
    channels = native_channels;
    bitrate = bitrate;
  })

  -- A resolution by its three checks.
  resolve_fields_lem :
      (fields : Fields) (fmt : String) (rate : ℕ) (bitrate : Option ℕ)
      → check_format repr (or_default (str "wav") (get fields "format")) ≡ ok fmt
      → check_sample_rate repr
          (or_default (int (pos native_sample_rate)) (get fields "sample_rate"))
        ≡ ok rate
      → bitrate_for repr fmt fields ≡ ok bitrate
      → resolve_fields repr fields
        ≡ ok (record {
          container = fmt;
          sample_rate = rate;
          channels = native_channels;
          bitrate = bitrate;
        })
  resolve_fields_lem fields fmt rate bitrate f r b =
      ap
        (λ (x : Result CompatError String). x >>= λ fmt.
          check_sample_rate repr
            (or_default (int (pos native_sample_rate)) (get fields "sample_rate"))
          >>= λ rate. bitrate_for repr fmt fields >>= λ bitrate. plan_of fmt rate bitrate)
        f
      ∙ ap
          (λ (x : Result CompatError ℕ).
            x >>= λ rate. bitrate_for repr fmt fields >>= λ bitrate. plan_of fmt rate bitrate)
          r
      ∙ ap (λ (x : Result CompatError (Option ℕ)). x >>= λ bitrate. plan_of fmt rate bitrate) b

  asked_bitrate :
      (c : String) (rate : ℕ) (o : Option ℕ)
      → str_mem c format_enum ≡ true
      → HasBitrate (str_eq c "mp3") o
      → bitrate_for repr c
          (field "format" (str c) (field "sample_rate" (int (pos rate)) (bitrate_field o)))
        ≡ ok o
  unfolding get
  asked_bitrate c rate none m h = elim (Bool-cases (str_eq c "mp3")) [
    | inl mp3 ↦ absurd (rw mp3 at h)
    | inr other ↦ let plain : str_mem c ("wav" ∷ "pcm" ∷ []) ≡ true = ground arith in rw plain
  ]
  asked_bitrate c rate (some n) m h = elim (Bool-cases (str_eq c "mp3")) [
    | inl mp3 ↦
        let known : nat_mem n bitrate_enum ≡ true = rw mp3 at h in
        rw (mp3_alone c mp3) (bitrate_ok n known)
    | inr other ↦ let none_there : some n ≡ none = rw other at h in absurd (cc)
  ]

  -- Every valid plan is made from some setting, the one that spells it out.
  pub resolve-setting_of :
      (plan : TranscodePlan) → IsValidPlan plan → resolve_transcode repr (setting_of plan) ≡ ok plan
  unfolding resolve_transcode get
  resolve-setting_of plan v =
      let fields =
        field "format" (str plan.container)
          (field "sample_rate" (int (pos plan.sample_rate)) (bitrate_field plan.bitrate)) in
      let asked =
        asked_bitrate plan.container plan.sample_rate plan.bitrate v.container v.bitrate in
      resolve_fields_lem fields plan.container plan.sample_rate plan.bitrate (rw v.container refl)
        (sample_rate_ok plan.sample_rate v.sample_rate) asked
      ∙ rw v.channels refl
