-- ===== src/Artifacts/Writing.antt =====
-- api/jobs/artifacts.py: `write_artifact` with its atomic writes.
pub mod Calls
pub mod Atomic
pub mod Pair
pub mod Prepared
pub mod Returns
use minimax_music3_webui.Prelude.{
  ℕ, ◌≡◌, ◌≢◌, refl, sym, ◌∙◌, String, Bool, true, false, Option, none, some, List, [], ◌∷◌, length,
  ◌&◌,
}
use minimax_music3_webui.Prelude.Table.{Table}
use minimax_music3_webui.Prelude.Result
use minimax_music3_webui.Prelude.Result.{Result, ok, err}
use minimax_music3_webui.Json.{Fields, Value, obj}
use minimax_music3_webui.Jobs.Store.{JobRecord}
use minimax_music3_webui.Jobs.Slot.{Written, written, refused, crashed}
use minimax_music3_webui.Artifacts.Ids.{validate_job_id}
use minimax_music3_webui.Artifacts.Paths.{UntrustedPathError, resolve_within, path_join}
use minimax_music3_webui.Artifacts.Sidecar.{
  Outside, measure_wav, deployment_facts_from_env, build_sidecar,
}
use minimax_music3_webui.Artifacts.Disk.{
  DiskError, os_error, value_error, wave_error, uncaught, World, W, give, fail, attempt, opened,
  with_open, mkdir, create, write, fsync, replace, ◌>>=◌, ◌>>◌,
}

abbrev pub audio_name : String
audio_name = "audio.wav"

abbrev pub sidecar_name : String
sidecar_name = "sidecar.json"

-- The job's directory is a path and the names are constants: the two are kept apart instead of joined.
unfoldable pub atomic_write_bytes : (job_dir name : String) → List ℕ → W (Unit {0})
atomic_write_bytes job_dir name content = do
  with_open (create job_dir (name & ".tmp")) (do write job_dir (name & ".tmp") content; fsync)
  replace job_dir (name & ".tmp") name

-- os.open(job_dir, os.O_RDONLY)
abbrev pub open_dir : W (Unit {0})
open_dir = attempt (λ w. (ok tt, opened w))

unfoldable pub fsync_dir : W (Unit {0})
fsync_dir = with_open open_dir fsync

-- An exception that is raised before the first system call.
abbrev pub lift : {A : Type 0} → Result DiskError A → W A
lift r w = (r, w)

abbrev pub as_value_error : {A : Type 0} → Result String A → Result DiskError A
as_value_error (ok a) = ok a
as_value_error (err message) = err (value_error message)

abbrev pub untrusted :
    (repr : String → String) → Result UntrustedPathError String → Result DiskError String
untrusted repr (ok path) = ok path
untrusted repr (err e) =
    err (value_error ("path " & repr e.candidate & " is outside the artifacts root " & repr e.root))

-- `not record.audio`
abbrev pub audio_of : Option (List ℕ) → Result DiskError (List ℕ)
audio_of none = err (value_error "no audio to write")
audio_of (some []) = err (value_error "no audio to write")
audio_of (some (byte ∷ bytes)) = ok (byte ∷ bytes)

-- What is done once everything is known that is to be written. `dumps` fails where the sidecar has a value
-- that JSON has not; it is evaluated after the audio has been written.
unfoldable pub store_pair :
    (job_dir : String) (audio : List ℕ) (dumped : Result DiskError (List ℕ)) → W (Unit {0})
store_pair job_dir audio dumped = do
  mkdir job_dir
  atomic_write_bytes job_dir audio_name audio
  bytes ← lift dumped
  atomic_write_bytes job_dir sidecar_name bytes
  fsync_dir

module _ (outside : Outside) where
  -- The checks and the calculations before the first system call: where the job's directory is, the audio,
  -- and the sidecar.
  unfoldable pub prepare :
      JobRecord
      → (root : String) → (translated : Fields) → Table String
      → Result DiskError (String × List ℕ × Fields)
  prepare job root translated env = Result.◌>>=◌ (audio_of job.audio) λ audio.
      Result.◌>>=◌ (as_value_error (validate_job_id outside.repr job.id)) λ job_id.
        Result.◌>>=◌
          (untrusted outside.repr (resolve_within outside.realpath (path_join root job_id) root))
          λ job_dir. Result.◌>>=◌ (measure_wav outside audio) λ facts.
            Result.◌>>=◌
              (build_sidecar outside job (deployment_facts_from_env env) facts translated)
              λ sidecar. ok (job_dir, audio, sidecar)

  unfoldable pub write_artifact :
      JobRecord → (root : String) → (translated : Fields) → Table String → W String
  unfolding prepare store_pair
  write_artifact job root translated env = do
    let prepared = prepare job root translated env
    (job_dir, audio, sidecar) ← lift prepared
    store_pair job_dir audio (outside.dumps sidecar)
    give job_dir

-- What the runner's handler makes of the end of the write: it catches OSError, ValueError and wave.Error.
unfoldable pub caught : {A : Type 0} → Result DiskError A → Written
caught (ok a) = written
caught (err (os_error message)) = refused message
caught (err (value_error message)) = refused message
caught (err (wave_error message)) = refused message
caught (err (uncaught message)) = crashed
