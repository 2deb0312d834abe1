-- ===== src/Routes/Cloud/Delivered.antt =====
-- The plan that the delivery route reads from the sidecar is the one that the cloud request was made with.
use minimax_music3_webui.Prelude.{ℕ, ◌≡◌, refl, subst, String, some}
use minimax_music3_webui.Prelude.Result.{ok, >>=-eq-ok}
use minimax_music3_webui.Json.{Value, obj, Fields, get, or_null}
use minimax_music3_webui.Compat.Translate.{LocalRequest, translate}
use minimax_music3_webui.Compat.Translate.Accepted.{translated-IsAccepted}
use minimax_music3_webui.Transcode.{resolve_transcode}
use minimax_music3_webui.Transcode.Floats.{FloatOps}
use minimax_music3_webui.Jobs.Store.{JobRecord}
use minimax_music3_webui.Artifacts.Sidecar.{
  Outside, Deployment, WavFacts, request_object, delta_seconds, build_sidecar,
}
use minimax_music3_webui.Artifacts.Writing.Prepared.{ok-injective}
use minimax_music3_webui.Routes.Cloud.{submission_of, recorded_audio_setting}

-- From a cloud request that was accepted, through its submission and the sidecar of the job, to the setting
-- that the delivery route finds in the sidecar again: it resolves to the plan of the request.
pub recorded_audio_setting-resolve :
    (repr : Value → String) (ops : FloatOps) (ceiling : ℕ) (body : Fields) (request : LocalRequest)
    (outside : Outside) (job : JobRecord) (deployment : Deployment) (facts : WavFacts)
    (translated sidecar : Fields)
    → translate repr ops ceiling (obj body) ≡ ok request
    → job.submission ≡ submission_of request
    → build_sidecar outside job deployment facts translated ≡ ok sidecar
    → (setting : Value) × (recorded_audio_setting (some (obj sidecar)) ≡ ok setting)
      × (resolve_transcode repr setting ≡ ok request.plan)
unfolding recorded_audio_setting build_sidecar submission_of request_object get
recorded_audio_setting-resolve repr ops ceiling body request outside job deployment facts translated
      sidecar t s b =
    let accepted = translated-IsAccepted repr ops ceiling body request t in
    let (queue, q, b') =
      >>=-eq-ok (delta_seconds outside (some job.submitted_at) job.started_at) _ b in
    let (total, u, b'') =
      >>=-eq-ok (delta_seconds outside (some job.submitted_at) job.ended_at) _ b' in
    (
      or_null (get request.cloud "audio_setting"),
      subst
          (λ d.
            recorded_audio_setting (some (obj d))
            ≡ ok (or_null (get request.cloud "audio_setting")))
          (ok-injective b'') (rw s refl),
      accepted.resolved_again,
    )
