-- ===== src/Compat/Translate/Accepted.antt =====
-- What an accepted request promises, and what a refused one names.
use Prim.Native.String.{count}
use minimax_music3_webui.Prelude.{
  ℕ, ◌≤◌, ◌≡◌, refl, sym, subst, String, false, Option, none, some, List, [], ◌∷◌, str_mem, arith,
  inl, inr, Bool-cases, if◌then◌else◌,
}
use minimax_music3_webui.Prelude.Result.{Result, ok, >>=-eq-ok}
use minimax_music3_webui.Json.{Value, int, str, obj, Fields, get, has, or_default, or_null, truthy}
use minimax_music3_webui.Prelude.Table.{str_eq-cases, str_eq_ne, str_eq_self}
use minimax_music3_webui.Prelude.Int.{pos}
use minimax_music3_webui.Compat.Errors.{CompatError}
use minimax_music3_webui.Transcode.{TranscodePlan, resolve_transcode}
use minimax_music3_webui.Transcode.Floats.{FloatOps}
use minimax_music3_webui.Transcode.Plans.{IsValidPlan, resolved-IsValidPlan}
use minimax_music3_webui.Compat.Translate.{
  LocalRequest, max_prompt_chars, max_lyrics_chars, max_new_tokens_ceiling, recorded_cloud_fields,
  boolean_flags, cover_fields, check_flags, check_covers, check_text, check_output_format,
  check_model, check_int, check_ceiling, validate_int, record_fields, estimate_hex_bytes, translate,
}

-- A recorded entry is the received one, for the keys that are recorded.
record_fields_lem :
    (keys : List String) (body : Fields) (key : String)
    → get (record_fields keys body) key ≡ (if str_mem key keys then get body key else none)
unfolding record_fields get
record_fields_lem [] body key = refl
record_fields_lem (k ∷ keys) body key = elim (str_eq-cases k key) [
  | yes e ↦
      subst
        (λ j.
          get (record_fields (k ∷ keys) body) j
          ≡ (if str_mem j (k ∷ keys) then get body j else none))
        e (ground (arith, record_fields_lem keys body k, str_eq_self k))
  | no n ↦
      ground (
        arith,
        record_fields_lem keys body key,
        str_eq_ne k key n,
        str_eq_ne key k (λ e. n (sym e)),
      )
]

text_lem :
    (name : String) (limit : ℕ) (v : Option Value) (s : String)
    → check_text name limit v ≡ ok s
    → (1 ≤ count s) × (count s ≤ limit) × (v ≡ some (str s))
text_lem name limit (some (str t)) s e =
    let p : (1 ≤ count t) × (count t ≤ limit) × (t ≡ s) = ground arith in
    let (low, high, same) = p in
    subst (λ u. (1 ≤ count u) × (count u ≤ limit) × (some (str t) ≡ some (str u))) same
      (low, high, refl)
text_lem name limit _ s e = absurd (cc)

int_lem :
    (name : String) (low high : ℕ) (v : Value) (n : ℕ)
    → check_int name low (some high) v ≡ ok n
    → (low ≤ n) × (n ≤ high)
int_lem name low high (int (pos m)) n e = ground arith
int_lem name low high _ n e = absurd (cc)

-- None of the flags is set, and none of the fields is present.
abbrev pub AllOff : Fields → List String → Type 0
AllOff body [] = Unit
AllOff body (flag ∷ flags) = (truthy (or_null (get body flag)) ≡ false) × AllOff body flags

abbrev pub NonePresent : Fields → List String → Type 0
NonePresent body [] = Unit
NonePresent body (name ∷ names) = (has body name ≡ false) × NonePresent body names

flags-AllOff :
    (body : Fields) (flags : List String) (u : Unit {0})
    → check_flags body flags ≡ ok u
    → AllOff body flags
unfolding check_flags get
flags-AllOff body [] u e = tt
flags-AllOff body (flag ∷ flags) u e = elim (Bool-cases (truthy (or_null (get body flag)))) [
  | inl on ↦ absurd (ground arith)
  | inr off ↦ (off, flags-AllOff body flags u (rw off at e))
]

covers-NonePresent :
    (body : Fields) (covers : List String) (u : Unit {0})
    → check_covers body covers ≡ ok u
    → NonePresent body covers
unfolding check_covers get
covers-NonePresent body [] u e = tt
covers-NonePresent body (cover ∷ covers) u e = elim (Bool-cases (has body cover)) [
  | inl on ↦ absurd (ground arith)
  | inr off ↦ (off, covers-NonePresent body covers u (rw off at e))
]

ok-injective :
    (a b : LocalRequest) → (let x : Result CompatError LocalRequest = ok a in x) ≡ ok b → a ≡ b
ok-injective a b e = cc

-- What is promised of an accepted request.
pub record IsAccepted (repr : Value → String) (ops : FloatOps) (ceiling : ℕ) (body : Fields)
    (request : LocalRequest) : Type 0 where
  pub flags_off : AllOff body boolean_flags
  pub no_covers : NonePresent body cover_fields
  pub lyrics : get body "lyrics" ≡ some (str request.input)
  pub lyrics_size : (1 ≤ count request.input) × (count request.input ≤ max_lyrics_chars)
  pub prompt : get body "prompt" ≡ some (str request.instructions)
  pub prompt_size :
      (1 ≤ count request.instructions) × (count request.instructions ≤ max_prompt_chars)
  pub tokens : (1 ≤ request.max_new_tokens) × (request.max_new_tokens ≤ max_new_tokens_ceiling)
  pub plan_valid : IsValidPlan request.plan
  pub resolved_again :
      resolve_transcode repr (or_null (get request.cloud "audio_setting")) ≡ ok request.plan
  pub recorded :
      (key : String)
      → get request.cloud key ≡ (if str_mem key recorded_cloud_fields then get body key else none)

module _ (repr : Value → String) (ops : FloatOps) (ceiling : ℕ) (body : Fields) where
  accepted :
      (u2 u3 : Unit {0}) (prompt lyrics format : String) (seed tokens : ℕ) (plan : TranscodePlan)
      → check_flags body boolean_flags ≡ ok u2
      → check_covers body cover_fields ≡ ok u3
      → check_text "prompt" max_prompt_chars (get body "prompt") ≡ ok prompt
      → check_text "lyrics" max_lyrics_chars (get body "lyrics") ≡ ok lyrics
      → validate_int body "max_new_tokens" 9000 1 (some 9000) ≡ ok tokens
      → resolve_transcode repr (or_null (get body "audio_setting")) ≡ ok plan
      → (request : LocalRequest)
      → (let r : Result CompatError LocalRequest = ok (record {
        input = lyrics;
        instructions = prompt;
        seed = seed;
        max_new_tokens = tokens;
        output_format = format;
        plan = plan;
        cloud = record_fields recorded_cloud_fields body;
      }) in
          r)
        ≡ ok request
      → IsAccepted repr ops ceiling body request
  unfolding validate_int
  accepted u2 u3 prompt lyrics format seed tokens plan f c p l t r request e =
      let (pl, ph, pe) = text_lem "prompt" max_prompt_chars (get body "prompt") prompt p in
      let (ll, lh, le) = text_lem "lyrics" max_lyrics_chars (get body "lyrics") lyrics l in
      let (tl, th) =
        int_lem "max_new_tokens" 1 9000 (or_default (int (pos 9000)) (get body "max_new_tokens"))
          tokens t in
      let again = record_fields_lem recorded_cloud_fields body in
      subst (IsAccepted repr ops ceiling body) (ok-injective _ request e) (record {
        flags_off = flags-AllOff body boolean_flags u2 f;
        no_covers = covers-NonePresent body cover_fields u3 c;
        lyrics = le;
        lyrics_size = (ll, lh);
        prompt = pe;
        prompt_size = (pl, ph);
        tokens = (tl, th);
        plan_valid = resolved-IsValidPlan repr (or_null (get body "audio_setting")) plan r;
        resolved_again = rw (again "audio_setting") r;
        recorded = again;
      })

  -- What an accepted request promises: the boolean flags are absent or false, no cover field is
  -- present, the lyrics and the prompt are the texts of the body, within their character limits, the
  -- number of tokens is within its range, the plan is valid, the cloud record holds each recorded
  -- field as it was received and no other, and resolving the recorded `audio_setting` again gives
  -- the same plan.
  pub translated-IsAccepted :
      (request : LocalRequest)
      → translate repr ops ceiling (obj body) ≡ ok request
      → IsAccepted repr ops ceiling body request
  unfolding translate
  translated-IsAccepted request e =
      let (u1, model, e1) = >>=-eq-ok (check_model repr ops body) _ e in
      let (u2, flags, e2) = >>=-eq-ok (check_flags body boolean_flags) _ e1 in
      let (u3, covers, e3) = >>=-eq-ok (check_covers body cover_fields) _ e2 in
      let (prompt, is_prompt, e4) =
        >>=-eq-ok (check_text "prompt" max_prompt_chars (get body "prompt")) _ e3 in
      let (lyrics, is_lyrics, e5) =
        >>=-eq-ok (check_text "lyrics" max_lyrics_chars (get body "lyrics")) _ e4 in
      let (format, is_format, e6) =
        >>=-eq-ok (check_output_format (or_default (str "hex") (get body "output_format"))) _ e5 in
      let (seed, is_seed, e7) = >>=-eq-ok (validate_int body "seed" 0 0 none) _ e6 in
      let (tokens, is_tokens, e8) =
        >>=-eq-ok (validate_int body "max_new_tokens" 9000 1 (some 9000)) _ e7 in
      let (plan, is_plan, e9) =
        >>=-eq-ok (resolve_transcode repr (or_null (get body "audio_setting"))) _ e8 in
      let (u4, small, e10) =
        >>=-eq-ok (check_ceiling repr ops format (estimate_hex_bytes ops tokens plan) ceiling) _
          e9 in
      accepted u2 u3 prompt lyrics format seed tokens plan flags covers is_prompt is_lyrics
        is_tokens is_plan request e10
