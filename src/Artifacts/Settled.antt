-- ===== src/Artifacts/Settled.antt =====
-- api/jobs/runner.py with api/jobs/artifacts.py: the runner whose artifacts are written to the disk.
mod Tests
use minimax_music3_webui.Prelude.{
  ℕ, ◌≡◌, ◌⊎◌, inl, inr, refl, sym, ◌∙◌, ap, subst, String, Bool, true, false, Option, none, some,
  List, str_mem, ◌&◌,
}
use minimax_music3_webui.Prelude.Table.{Table}
use minimax_music3_webui.Prelude.Result.{Result, ok, err}
use minimax_music3_webui.Json.{Fields}
use minimax_music3_webui.Engine.{EngineRequest, EngineResult, build_body}
use minimax_music3_webui.Jobs.Store.{JobRecord}
use minimax_music3_webui.Jobs.Slot.{
  Settings, Slot, awaiting_engine, exited, returned, Written, written, refused, crashed,
}
use minimax_music3_webui.Jobs.Loop.{awaited, resume_engine}
use minimax_music3_webui.Jobs.Steps.{Reach}
use minimax_music3_webui.Jobs.Steps.Starting.{failed_job_of}
use minimax_music3_webui.Jobs.Steps.Ending.{succeeded_job_of}
use minimax_music3_webui.Jobs.Endings.{IsReleased, recorded, worker_after, artifact_first}
use minimax_music3_webui.Artifacts.Sidecar.{Outside}
use minimax_music3_webui.Artifacts.Disk.{
  DiskError, os_error, value_error, wave_error, uncaught, World,
}
use minimax_music3_webui.Artifacts.Writing.{
  audio_name, sidecar_name, prepare, write_artifact, caught,
}
use minimax_music3_webui.Artifacts.Writing.Calls.{FileIs}
use minimax_music3_webui.Artifacts.Writing.Pair.{ArtifactState, write_artifact-ArtifactState}
use minimax_music3_webui.Artifacts.Writing.Prepared.{prepare-IsPrepared}

-- The runner's settings with this writer; an artifacts root is configured.
unfoldable pub disk_settings :
    Outside → (env : Table String) → (model root : String) → Settings World
disk_settings outside env model root = record {
  model = model;
  artifacts_root = some root;
  write_artifact = λ path job translated disk.
      let (r, disk') = write_artifact outside job path translated env disk in (disk', caught r);
}

module _ (outside : Outside) (env : Table String) (root : String) where
  -- Both files of the job are on the disk: the audio that the engine has returned, and a sidecar.
  abbrev pub StoredFor : (result : EngineResult) → World → Type 0
  StoredFor result w =
      (dir : String) × (bytes : List ℕ) × FileIs dir audio_name result.audio w.nodes
      × FileIs dir sidecar_name bytes w.nodes

  -- What `write_artifact` has done when it has returned.
  returned-StoredFor :
      (job : JobRecord) (result : EngineResult) (translated : Fields) (w : World) (path : String)
      → job.audio ≡ some result.audio
      → (write_artifact outside job root translated env w).0 ≡ ok path
      → StoredFor result (write_artifact outside job root translated env w).1
  returned-StoredFor job result translated w path at_audio r =
      elim (write_artifact-ArtifactState outside job root translated env w) [
        | inl (raised, same, fds) ↦ absurd (cc (raised, r))
        | inr (dir, audio, sidecar, p, inl (raised, same, fds)) ↦ absurd (cc (raised, r))
        | inr (dir, audio, sidecar, p, inr (new, confined, inl (raised, missing))) ↦
            absurd (cc (raised, r))
        | inr
              (
                dir,
                audio,
                sidecar,
                p,
                inr (new, confined, inr (bytes, dumped, is_sidecar, is_audio)),
              ) ↦
            let (a, filled, valid, at_real, inside, header, read, says) =
              prepare-IsPrepared outside job root translated env dir audio sidecar p in
            let same : audio ≡ result.audio = cc (a, at_audio) in
            (
              dir,
              bytes,
              subst
                  (λ x.
                    FileIs dir audio_name x
                      (write_artifact outside job root translated env w).1.nodes)
                  same is_audio,
              is_sidecar,
            )
      ]

  module _ (model id : String) (request : EngineRequest) (now later : String)
      (result : EngineResult) (job : JobRecord) (s : Slot World) where
    abbrev settings : Settings World
    settings = disk_settings outside env model root

    -- What becomes of the job: it has succeeded and both its files are on the disk; or it has failed with
    -- the message of the write; or it is as it was and the worker has ended.
    abbrev pub IsSettled : Slot World → Type 0
    IsSettled t =
        ((t.store.jobs id ≡ some (succeeded_job_of result now job)) × StoredFor result t.disk)
        ⊎ (((exc : String) × (t.store.jobs id
                ≡ some (failed_job_of ("artifact write failed: " & exc) later job)))
            ⊎ ((t.store.jobs id ≡ some job) × (t.worker ≡ exited)))

    -- In a state that can be reached, with this writer, when the call of a job that was not cancelled has
    -- returned: whatever system calls of the write fail, the job is marked succeeded only with the whole
    -- audio and a sidecar on the disk; else it is failed with the message of the write, or it is as it was
    -- and the worker has ended.
    pub resume_engine-IsSettled :
        Reach settings s
        → s.worker ≡ awaiting_engine id request
        → awaited s ≡ some (returned result)
        → str_mem id s.cancelled ≡ false
        → s.store.jobs id ≡ some job
        → IsSettled (resume_engine settings now later s)
    unfolding disk_settings caught
    resume_engine-IsSettled reached w o m at_id = go p.0 refl (
        artifact_first settings s id request now later result root p.1 (caught p.0) job reached w o
          m refl at_id refl)
      where
        done : JobRecord
        done = succeeded_job_of result now job

        p : Result DiskError String × World
        p = write_artifact outside done root (build_body request) env s.disk

        t : Slot World
        t = resume_engine settings now later s

        go :
            (r : Result DiskError String)
            → p.0 ≡ r
            → IsReleased (worker_after (caught r)) t
              × (t.disk ≡ p.1)
              × (t.store.jobs id ≡ some (recorded result now later (caught r) job))
            → IsSettled t
        go (ok path) r (free, disk, at) = inl (
          at,
          subst (StoredFor result) (sym disk)
              (returned-StoredFor done result (build_body request) s.disk path refl r),
        )
        go (err (os_error exc)) r (free, disk, at) = inr (inl (exc, at))
        go (err (value_error exc)) r (free, disk, at) = inr (inl (exc, at))
        go (err (wave_error exc)) r (free, disk, at) = inr (inl (exc, at))
        go (err (uncaught exc)) r (free, disk, at) = inr (inr (at, free.at_worker))
