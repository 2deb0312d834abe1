-- ===== src/Artifacts/Writing/Prepared.antt =====
-- What `write_artifact` has checked and measured before its first system call, and that it writes.
use minimax_music3_webui.Prelude.{
  ℕ, ◌≡◌, ◌≤◌, refl, sym, String, true, Option, none, some, List, [], ◌∷◌, length, arith, ap, subst,
}
use minimax_music3_webui.Prelude.Int.{pos}
use minimax_music3_webui.Prelude.Table.{Table}
use minimax_music3_webui.Prelude.Result.{Result, ok, err, >>=-eq-ok}
use minimax_music3_webui.Json.{Fields, str, int, float, obj, get}
use minimax_music3_webui.Jobs.Store.{JobRecord}
use minimax_music3_webui.Artifacts.Ids.{is_job_id, validate_job_id}
use minimax_music3_webui.Artifacts.Paths.{is_within, resolve_within, path_join}
use minimax_music3_webui.Artifacts.Sidecar.{
  Outside, WavHeader, WavFacts, Deployment, facts_of, facts_if, measure_wav,
  deployment_facts_from_env, build_sidecar, delta_seconds,
}
use minimax_music3_webui.Artifacts.Writing.{prepare, audio_of, as_value_error, untrusted}

pub ok-injective : {E A : Type 0} {a b : A} → (let r : Result E A = ok a in r) ≡ ok b → a ≡ b
ok-injective e = cc

audio_of-eq_ok :
    (o : Option (List ℕ)) {audio : List ℕ}
    → audio_of o ≡ ok audio
    → (o ≡ some audio) × (1 ≤ length audio)
audio_of-eq_ok none e = absurd cc
audio_of-eq_ok (some []) e = absurd cc
audio_of-eq_ok (some (byte ∷ bytes)) {audio = audio} e =
    let same : byte ∷ bytes ≡ audio = cc in
    (ap some same, subst (λ xs. 1 ≤ length xs) same (omega arith))

module _ (outside : Outside) where
  validated :
      (job_id : String) {id : String}
      → as_value_error (validate_job_id outside.repr job_id) ≡ ok id
      → (id ≡ job_id) × (is_job_id id ≡ true)
  unfolding validate_job_id
  validated job_id {id = id} e =
      let same : job_id ≡ id = ground arith in
      let good : is_job_id job_id ≡ true = ground arith in
      (sym same, subst (λ i. is_job_id i ≡ true) same good)

  resolved :
      (path root : String) {dir : String}
      → untrusted outside.repr (resolve_within outside.realpath path root) ≡ ok dir
      → (dir ≡ outside.realpath path) × (is_within dir (outside.realpath root) ≡ true)
  unfolding resolve_within
  resolved path root {dir = dir} e =
      let same : outside.realpath path ≡ dir = ground arith in
      let inside : is_within (outside.realpath path) (outside.realpath root) ≡ true =
        ground arith in
      (sym same, subst (λ d. is_within d (outside.realpath root) ≡ true) same inside)

  measured :
      (audio : List ℕ) {facts : WavFacts}
      → measure_wav outside audio ≡ ok facts
      → (header : WavHeader) × (outside.read_wav audio ≡ ok header)
        × (facts_of outside header audio ≡ facts)
  unfolding measure_wav
  measured audio {facts = facts} e = go (outside.read_wav audio) refl e
    where
      go :
          (r : Result String WavHeader)
          → outside.read_wav audio ≡ r
          → facts_if outside r audio ≡ ok facts
          → (header : WavHeader) × (outside.read_wav audio ≡ ok header)
            × (facts_of outside header audio ≡ facts)
      go (ok header) r e = (header, r, cc)
      go (err x) r e = absurd cc

  -- The output part of a sidecar holds these facts.
  abbrev pub IsOutput : WavFacts → Fields → Type 0
  IsOutput facts output =
      (get output "sample_rate" ≡ some (int (pos facts.sample_rate)))
      × (get output "channels" ≡ some (int (pos facts.channels)))
      × (get output "duration_seconds" ≡ some (float facts.duration_seconds))
      × (get output "byte_size" ≡ some (int (pos facts.byte_size)))
      × (get output "content_hash" ≡ some (str facts.content_hash))

  -- What a sidecar says of the job and of its output.
  abbrev pub Describes : JobRecord → WavFacts → Fields → Type 0
  Describes job facts sidecar =
      (get sidecar "trace_id" ≡ some (str job.id))
      × (output : Fields) × (get sidecar "output" ≡ some (obj output))
      × IsOutput facts output

  described :
      (job : JobRecord) (deployment : Deployment) (facts : WavFacts) (translated : Fields)
      {sidecar : Fields}
      → build_sidecar outside job deployment facts translated ≡ ok sidecar
      → Describes job facts sidecar
  unfolding build_sidecar get
  described job deployment facts translated e =
      let (queue, q, e') =
        >>=-eq-ok (delta_seconds outside (some job.submitted_at) job.started_at) _ e in
      let (total, t, e'') =
        >>=-eq-ok (delta_seconds outside (some job.submitted_at) job.ended_at) _ e' in
      subst (Describes job facts) (ok-injective e'') (refl, _, refl, (refl, refl, refl, refl, refl))

  -- What holds of the directory, the audio and the sidecar that are to be written.
  abbrev pub IsPrepared : JobRecord → (root : String) → (String × List ℕ × Fields) → Type 0
  IsPrepared job root (dir, audio, sidecar) =
      (job.audio ≡ some audio)
      × (1 ≤ length audio)
      × (is_job_id job.id ≡ true)
      × (dir ≡ outside.realpath (path_join root job.id))
      × (is_within dir (outside.realpath root) ≡ true)
      × (header : WavHeader) × (outside.read_wav audio ≡ ok header)
      × Describes job (facts_of outside header audio) sidecar

  -- What is written is the job's audio, which is not empty; it goes to a path inside of the root, and the
  -- sidecar names the job and gives the facts that were measured of the audio.
  pub prepare-IsPrepared :
      (job : JobRecord) (root : String) (translated : Fields) (env : Table String) (dir : String)
      (audio : List ℕ) (sidecar : Fields)
      → prepare outside job root translated env ≡ ok (dir, audio, sidecar)
      → IsPrepared job root (dir, audio, sidecar)
  unfolding prepare
  prepare-IsPrepared job root translated env dir audio sidecar e =
      let (a, ha, e₁) = >>=-eq-ok (audio_of job.audio) _ e in
      let (id, hi, e₂) = >>=-eq-ok (as_value_error (validate_job_id outside.repr job.id)) _ e₁ in
      let (d, hd, e₃) =
        >>=-eq-ok
          (untrusted outside.repr (resolve_within outside.realpath (path_join root id) root)) _
          e₂ in
      let (facts, hf, e₄) = >>=-eq-ok (measure_wav outside a) _ e₃ in
      let (sc, hs, e₅) =
        >>=-eq-ok (build_sidecar outside job (deployment_facts_from_env env) facts translated) _
          e₄ in
      let (is_audio, filled) = audio_of-eq_ok job.audio ha in
      let (same, valid) = validated job.id hi in
      let (at_path, inside) = resolved (path_join root id) root hd in
      let (header, hh, is_facts) = measured a hf in
      subst (IsPrepared job root) (ok-injective e₅) (
        is_audio,
        filled,
        subst (λ i. is_job_id i ≡ true) same valid,
        subst (λ i. d ≡ outside.realpath (path_join root i)) same at_path,
        inside,
        header,
        hh,
        subst (λ f. Describes job f sc) (sym is_facts) (described job _ facts translated hs),
      )
