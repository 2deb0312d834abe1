-- ===== src/Compat/Translate/Refused.antt =====
-- What the refusal of a request names.
use minimax_music3_webui.Prelude.{
  ℕ, ◌≤◌, ◌≡◌, ◌≢◌, ◌∙◌, eq_iff, refl, ap, subst, String, true, false, Option, none, some, List, [],
  ◌∷◌, str_mem, str_eq, ltb, leb, arith, ◌&◌, ◌&&◌,
}
use Prim.Native.String.{count}
use minimax_music3_webui.Prelude.Int.{pos}
use minimax_music3_webui.Prelude.Result.{Result, err, ok, ◌>>=◌}
use minimax_music3_webui.Json.{
  Value, null, int, str, float, bool, arr, obj, Fields, get, or_null, or_default, has, truthy,
}
use minimax_music3_webui.Compat.Errors.{CompatError}
use minimax_music3_webui.Transcode.{TranscodePlan, resolve_transcode}
use minimax_music3_webui.Transcode.Floats.{FloatOps}
use minimax_music3_webui.Transcode.Refusals.{
  IsRefusal, Refuses, Refuses-ok, Refuses-refuse, Refuses-bind, Refuses-if, SettingFault,
  resolve_transcode-Refuses,
}
use minimax_music3_webui.Compat.Translate.{
  boolean_flags, cover_fields, check_flags, check_covers, check_text, check_output_format,
  check_model, check_int, max_prompt_chars, max_lyrics_chars, estimate_hex_bytes, check_ceiling,
  validate_int, translate_fields, translate, is_model, record_fields, recorded_cloud_fields,
}

module _ (repr : Value → String) (ops : FloatOps) (ceiling : ℕ) (body : Fields) where
  -- Which field of a request is at fault, and why.
  pub data RequestFault : String → Type 0 where
    bad_model : get body "model" ≢ some (str "music-3.0") → RequestFault "model"
    bad_flag :
        (flag : String)
        → str_mem flag ("stream" ∷ "lyrics_optimizer" ∷ "is_instrumental" ∷ []) ≡ true
        → truthy (or_null (get body flag)) ≡ true
        → RequestFault flag
    cover_flow :
        (cover : String)
        → str_mem cover ("cover_feature_id" ∷ "audio_url" ∷ "audio_base64" ∷ []) ≡ true
        → has body cover ≡ true
        → RequestFault cover
    bad_prompt :
        ((s : String) → 1 ≤ count s → count s ≤ 2000 → get body "prompt" ≢ some (str s))
        → RequestFault "prompt"
    bad_lyrics :
        ((s : String) → 1 ≤ count s → count s ≤ 3500 → get body "lyrics" ≢ some (str s))
        → RequestFault "lyrics"
    bad_format :
        ((s : String)
          → str_mem s ("hex" ∷ "url" ∷ []) ≡ true
          → or_default (str "hex") (get body "output_format") ≢ str s)
        → RequestFault "output_format"
    bad_seed :
        ((n : ℕ) → or_default (int (pos 0)) (get body "seed") ≢ int (pos n)) → RequestFault "seed"
    bad_tokens :
        ((n : ℕ)
          → 1 ≤ n
          → n ≤ 9000
          → or_default (int (pos 9000)) (get body "max_new_tokens") ≢ int (pos n))
        → RequestFault "max_new_tokens"
    bad_setting :
        (name : String) → SettingFault (or_null (get body "audio_setting")) name → RequestFault name
    too_long :
        (tokens : ℕ) (plan : TranscodePlan)
        → or_default (str "hex") (get body "output_format") ≡ str "hex"
        → or_default (int (pos 9000)) (get body "max_new_tokens") ≡ int (pos tokens)
        → resolve_transcode repr (or_null (get body "audio_setting")) ≡ ok plan
        → ltb ceiling (estimate_hex_bytes ops tokens plan) ≡ true
        → RequestFault "output_format"

-- All of the first list stand in the second.
abbrev AllIn : List String → List String → Type 0
AllIn [] names = Unit
AllIn (x ∷ xs) names = (str_mem x names ≡ true) × AllIn xs names

module _ (Fault : String → Type 0) where
  flags-Refuses :
      (body : Fields) (flags : List String)
      → AllIn flags boolean_flags
      → ((flag : String)
          → str_mem flag boolean_flags ≡ true
          → truthy (or_null (get body flag)) ≡ true
          → Fault flag)
      → Refuses Fault (check_flags body flags)
  unfolding check_flags
  flags-Refuses body [] a m = Refuses-ok Fault tt
  flags-Refuses body (flag ∷ flags) a m =
      Refuses-if Fault (truthy (or_null (get body flag))) _ _
        (λ set.
          Refuses-refuse Fault flag (flag & " is not supported by the local engine")
            (m flag a.0 set))
        λ _. flags-Refuses body flags a.1 m

  covers-Refuses :
      (body : Fields) (covers : List String)
      → AllIn covers cover_fields
      → ((cover : String) → str_mem cover cover_fields ≡ true → has body cover ≡ true → Fault cover)
      → Refuses Fault (check_covers body covers)
  unfolding check_covers
  covers-Refuses body [] a m = Refuses-ok Fault tt
  covers-Refuses body (cover ∷ covers) a m =
      Refuses-if Fault (has body cover) _ _
        (λ given.
          Refuses-refuse Fault cover (cover & " (cover flow) is not supported by the local engine")
            (m cover a.0 given))
        λ _. covers-Refuses body covers a.1 m

  text-Refuses :
      (name : String) (limit : ℕ) (v : Option Value)
      → (((s : String) → 1 ≤ count s → count s ≤ limit → v ≢ some (str s)) → Fault name)
      → Refuses Fault (check_text name limit v)
  text-Refuses name limit (some (str s)) m =
      Refuses-if Fault (leb 1 (count s) && leb (count s) limit) _ _ (λ _. Refuses-ok Fault s)
        λ long.
          Refuses-refuse Fault name _ (m λ u low high same. let is : s ≡ u = cc in ground arith)
  text-Refuses name limit none m = Refuses-refuse Fault name _ (m λ u low high same. cc)
  text-Refuses name limit (some null) m = Refuses-refuse Fault name _ (m λ u low high same. cc)
  text-Refuses name limit (some (obj x)) m = Refuses-refuse Fault name _ (m λ u low high same. cc)
  text-Refuses name limit (some (arr x)) m = Refuses-refuse Fault name _ (m λ u low high same. cc)
  text-Refuses name limit (some (int x)) m = Refuses-refuse Fault name _ (m λ u low high same. cc)
  text-Refuses name limit (some (float x)) m = Refuses-refuse Fault name _ (m λ u low high same. cc)
  text-Refuses name limit (some (bool x)) m = Refuses-refuse Fault name _ (m λ u low high same. cc)

  output_format-Refuses :
      (v : Value)
      → (((s : String) → str_mem s ("hex" ∷ "url" ∷ []) ≡ true → v ≢ str s) → Fault "output_format")
      → Refuses Fault (check_output_format v)
  output_format-Refuses (str s) m =
      Refuses-if Fault (str_mem s ("hex" ∷ "url" ∷ [])) _ _ (λ _. Refuses-ok Fault s)
        λ other. Refuses-refuse Fault "output_format" _ (m λ u known same. ground arith)
  output_format-Refuses null m = Refuses-refuse Fault "output_format" _ (m λ u known same. cc)
  output_format-Refuses (obj x) m = Refuses-refuse Fault "output_format" _ (m λ u known same. cc)
  output_format-Refuses (arr x) m = Refuses-refuse Fault "output_format" _ (m λ u known same. cc)
  output_format-Refuses (int x) m = Refuses-refuse Fault "output_format" _ (m λ u known same. cc)
  output_format-Refuses (float x) m = Refuses-refuse Fault "output_format" _ (m λ u known same. cc)
  output_format-Refuses (bool x) m = Refuses-refuse Fault "output_format" _ (m λ u known same. cc)

  -- What `check_int` refuses is no natural number that is in the range.
  not_in_range :
      (name : String) (low : ℕ) (high : Option ℕ) (v : Value) (e : CompatError)
      → check_int name low high v ≡ err e
      → (n : ℕ) → (check_int name low high (int (pos n)) ≡ ok n)
      → v ≢ int (pos n)
  not_in_range name low high v e h n fits same =
      cc (subst (λ x. check_int name low high x ≡ err e) same h)

  int-Refuses :
      (name : String) (low : ℕ) (high : Option ℕ) (v : Value)
      → ((e : CompatError) → check_int name low high v ≡ err e → Fault name)
      → Refuses Fault (check_int name low high v)
  int-Refuses name low high v m = record {
    at = λ e h. record {
      code = ground arith;
      name = name;
      is_named = ground arith;
      at_fault = m e h;
    };
  }

module _ (repr : Value → String) (ops : FloatOps) (ceiling : ℕ) (body : Fields) where
  abbrev AtFault : String → Type 0
  AtFault = RequestFault repr ops ceiling body

  model_lem : is_model (get body "model") ≡ false → get body "model" ≢ some (str "music-3.0")
  model_lem other same = let other' = subst (λ o. is_model o ≡ false) same other in cc

  model-Refuses : Refuses AtFault (check_model repr ops body)
  model-Refuses =
      Refuses-if AtFault (is_model (get body "model")) _ _ (λ _. Refuses-ok AtFault tt)
        λ other. Refuses-refuse AtFault "model" _ (bad_model (model_lem other))

  seed-Refuses : Refuses AtFault (validate_int body "seed" 0 0 none)
  unfolding validate_int
  seed-Refuses =
      let v = or_default (int (pos 0)) (get body "seed") in
      int-Refuses AtFault "seed" 0 none v
        λ e h. bad_seed λ n. not_in_range AtFault "seed" 0 none v e h n (ground arith)

  tokens-Refuses : Refuses AtFault (validate_int body "max_new_tokens" 9000 1 (some 9000))
  unfolding validate_int
  tokens-Refuses =
      let v = or_default (int (pos 9000)) (get body "max_new_tokens") in
      int-Refuses AtFault "max_new_tokens" 1 (some 9000) v λ e h.
        bad_tokens
          λ n low high. not_in_range AtFault "max_new_tokens" 1 (some 9000) v e h n (ground arith)

  int_lem :
      (name : String) (low : ℕ) (high : Option ℕ) (v : Value) (n : ℕ)
      → check_int name low high v ≡ ok n
      → v ≡ int (pos n)
  int_lem name low high (int (pos m)) n e = ap (λ k. int (pos k)) (ground arith)
  int_lem name low high _ n e = absurd cc

  format_lem :
      (v : Value) (s : String)
      → check_output_format v ≡ ok s
      → str_eq s "hex" ≡ true
      → v ≡ str "hex"
  format_lem (str t) s e h = let same : t ≡ s = ground arith in ap str (same ∙ (eq_iff s "hex").0 h)
  format_lem _ s e h = absurd cc

  ceiling-Refuses :
      (format : String) (tokens : ℕ) (plan : TranscodePlan)
      → check_output_format (or_default (str "hex") (get body "output_format")) ≡ ok format
      → validate_int body "max_new_tokens" 9000 1 (some 9000) ≡ ok tokens
      → resolve_transcode repr (or_null (get body "audio_setting")) ≡ ok plan
      → Refuses AtFault (check_ceiling repr ops format (estimate_hex_bytes ops tokens plan) ceiling)
  unfolding validate_int
  ceiling-Refuses format tokens plan f t p =
      Refuses-if AtFault (str_eq format "hex" && ltb ceiling (estimate_hex_bytes ops tokens plan)) _
        _
        (λ above. Refuses-refuse AtFault "output_format" _ (
          too_long tokens plan
            (format_lem (or_default (str "hex") (get body "output_format")) format f (ground arith))
            (int_lem "max_new_tokens" 1 (some 9000)
              (or_default (int (pos 9000)) (get body "max_new_tokens")) tokens t)
            p (ground arith)))
        λ _. Refuses-ok AtFault tt

  -- From the number of tokens on, which the estimate depends on.
  delivery-Refuses :
      {A : Type 0} (format : String)
      → check_output_format (or_default (str "hex") (get body "output_format")) ≡ ok format
      → (built : ℕ → TranscodePlan → A)
      → Refuses AtFault (
          validate_int body "max_new_tokens" 9000 1 (some 9000) >>= λ tokens.
          resolve_transcode repr (or_null (get body "audio_setting")) >>= λ plan.
          check_ceiling repr ops format (estimate_hex_bytes ops tokens plan) ceiling >>= λ _.
          let r : Result CompatError A = ok (built tokens plan) in r)
  delivery-Refuses format f built =
      Refuses-bind AtFault (validate_int body "max_new_tokens" 9000 1 (some 9000)) _ tokens-Refuses
        λ tokens t.
          Refuses-bind AtFault (resolve_transcode repr (or_null (get body "audio_setting"))) _
            (resolve_transcode-Refuses repr (or_null (get body "audio_setting")) AtFault
              bad_setting)
            λ plan p.
              Refuses-bind AtFault
                (check_ceiling repr ops format (estimate_hex_bytes ops tokens plan) ceiling) _
                (ceiling-Refuses format tokens plan f t p)
                λ _ _. Refuses-ok AtFault (built tokens plan)

  translate_fields-Refuses : Refuses AtFault (translate_fields repr ops ceiling body)
  unfolding translate_fields
  translate_fields-Refuses = Refuses-bind AtFault (check_model repr ops body) _ model-Refuses λ _ _.
      Refuses-bind AtFault (check_flags body boolean_flags) _
        (flags-Refuses AtFault body boolean_flags (refl, (refl, (refl, tt))) bad_flag)
        λ _ _.
          Refuses-bind AtFault (check_covers body cover_fields) _
            (covers-Refuses AtFault body cover_fields (refl, (refl, (refl, tt))) cover_flow)
            λ _ _.
              Refuses-bind AtFault (check_text "prompt" max_prompt_chars (get body "prompt")) _
                (text-Refuses AtFault "prompt" max_prompt_chars (get body "prompt") bad_prompt)
                λ prompt _.
                  Refuses-bind AtFault (check_text "lyrics" max_lyrics_chars (get body "lyrics")) _
                    (text-Refuses AtFault "lyrics" max_lyrics_chars (get body "lyrics") bad_lyrics)
                    λ lyrics _.
                      Refuses-bind AtFault
                        (check_output_format (or_default (str "hex") (get body "output_format"))) _
                        (output_format-Refuses AtFault
                          (or_default (str "hex") (get body "output_format")) bad_format)
                        λ format f.
                          Refuses-bind AtFault (validate_int body "seed" 0 0 none) _ seed-Refuses
                            λ seed _. delivery-Refuses format f λ tokens plan. record {
                              input = lyrics;
                              instructions = prompt;
                              seed = seed;
                              max_new_tokens = tokens;
                              output_format = format;
                              plan = plan;
                              cloud = record_fields recorded_cloud_fields body;
                            }

  -- Whatever the JSON object, a refusal of `translate` has the code of invalid parameters and names a field
  -- that is at fault: the model if it is another; a boolean flag that is set; a cover field that is given; the
  -- prompt or the lyrics if it is no string within its limits; the output format if it is neither of the two,
  -- or is hex while the estimate of the body exceeds the ceiling; the seed or the number of tokens if it is
  -- no integer in its range; or the field of the `audio_setting` that is at fault there.
  pub translate-IsRefusal :
      (e : CompatError) → translate repr ops ceiling (obj body) ≡ err e → IsRefusal AtFault e
  unfolding translate
  translate-IsRefusal e h = translate_fields-Refuses.at e h
