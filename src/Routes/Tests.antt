-- ===== src/Routes/Tests.antt =====
-- The theorems on the HTTP routes at concrete requests, answers and logs.
use minimax_music3_webui.Prelude.{
  ℕ, ◌≡◌, ◌++◌, refl, String, true, false, length, none, some, List, [], ◌∷◌, arith,
}
use minimax_music3_webui.Prelude.Int.{pos}
use minimax_music3_webui.Prelude.Result.{Result, ok, err}
use minimax_music3_webui.Json.{Value, Fields, obj, end, finite}
use minimax_music3_webui.Compat.Translate.{hex_max_body_bytes}
use minimax_music3_webui.Compat.Tests.{repr, whole_ops, body, accepted, body-accepted}
use minimax_music3_webui.Transcode.{TranscodePlan, resolve_transcode}
use minimax_music3_webui.Transcode.Measure.{Failure, AudioFacts}
use minimax_music3_webui.Jobs.Store.{JobRecord, JobStatus, running, succeeded}
use minimax_music3_webui.Jobs.Events.{JobEvent}
use minimax_music3_webui.Artifacts.Sidecar.{WavFacts, deployment_facts_from_env, build_sidecar}
use minimax_music3_webui.Artifacts.Disk.{DiskError}
use minimax_music3_webui.Artifacts.Tests.{job, outside, no_env}
use minimax_music3_webui.Artifacts.Writing.Returns.{calm}
use minimax_music3_webui.Artifacts.Tests.{stored, audio}
use minimax_music3_webui.Artifacts.Writing.{audio_name}
use minimax_music3_webui.Artifacts.Paths.{path_join}
use minimax_music3_webui.Artifacts.Ids.{all_id_chars}
use minimax_music3_webui.Prelude.Table.{empty}
use minimax_music3_webui.Routes.Files.{get_artifact, streamed, media_type_of, stream_fd}
use minimax_music3_webui.Routes.Files.Served.{
  IsServed, get_artifact-IsServed, get_artifact_complete,
}
use minimax_music3_webui.Routes.Body.{Loaded, loaded, read_chunks, hex_body, hexlify}
use minimax_music3_webui.Routes.Body.Bounded.{join, read_chunks-join, hex_body-join}
use minimax_music3_webui.Routes.Cloud.{
  Held, Answers, music_generation, submission_of, recorded_audio_setting,
}
use minimax_music3_webui.Routes.Cloud.Released.{Restored, music_generation-Restored}
use minimax_music3_webui.Routes.Cloud.Delivered.{recorded_audio_setting-resolve}
use minimax_music3_webui.Routes.Native.{Round, event_stream}
use minimax_music3_webui.Routes.Native.Stream.{Ascends, events_of, event_stream-Ascends}

-- Two chunks of three bytes together, under a limit of four.
read_chunks-join_example : read_chunks 4 0 ((1 ∷ 2 ∷ []) ∷ (3 ∷ []) ∷ []) ≡ ok (1 ∷ 2 ∷ 3 ∷ [])
read_chunks-join_example = read_chunks-join 4 0 ((1 ∷ 2 ∷ []) ∷ (3 ∷ []) ∷ []) (omega arith)

hex_body-join_example :
    join (hex_body (123 ∷ []) (125 ∷ []) (255 ∷ 16 ∷ []))
    ≡ (123 ∷ []) ++ hexlify (255 ∷ 16 ∷ []) ++ (125 ∷ [])
hex_body-join_example = hex_body-join (123 ∷ []) (125 ∷ []) (255 ∷ 16 ∷ [])

-- A job that has succeeded, whose audio ffmpeg copies.
abbrev facts : AudioFacts
facts = record {
  duration_seconds = finite (pos 1) (pos 0);
  sample_rate = pos 32000;
  channels = pos 2;
  bitrate = pos 128000;
  size = 4;
}

abbrev copied : TranscodePlan → List ℕ → Result Failure (List ℕ)
copied plan audio = ok audio

abbrev measured : TranscodePlan → List ℕ → Result Failure AudioFacts
measured plan file = ok facts

abbrev answers : Answers
answers = record {
  trace_id = "job_1";
  error = none;
  root = some "/a";
  audio = some (82 ∷ 73 ∷ 70 ∷ 70 ∷ []);
  mkstemp = none;
  transcoded = copied;
  measured = measured;
  result_url = "http://h/v1/music_generation/result/job_1";
  getsize = none;
}

abbrev held : Held
held = record { open_fds = 3; temps = 0; unlinks = true }

-- A body of two bytes that parses to the request, and a job that succeeds at the second poll.
abbrev loads : List ℕ → Loaded
loads bytes = loaded (obj body)

abbrev sent_body : List (List ℕ)
sent_body = (123 ∷ 125 ∷ []) ∷ []

abbrev polls : List JobStatus
polls = running ∷ succeeded ∷ []

music_generation-Restored_example : Restored held (
    music_generation repr whole_ops hex_max_body_bytes loads
      (some "2")
      sent_body
      answers
      polls
      held)
music_generation-Restored_example =
    music_generation-Restored repr whole_ops hex_max_body_bytes loads (some "2") sent_body answers
      polls held refl (λ plan file. refl)

-- The sidecar of the job that this request makes.
abbrev cloud_job : JobRecord
cloud_job = record job { submission = submission_of accepted }

abbrev wav_facts : WavFacts
wav_facts = record {
  sample_rate = 44100;
  channels = 2;
  duration_seconds = finite (pos 1) (pos 0);
  byte_size = 4;
  content_hash = "00";
}

abbrev sidecar_in : Result DiskError Fields → Fields
sidecar_in (ok sidecar) = sidecar
sidecar_in (err e) = end

abbrev cloud_sidecar : Fields
cloud_sidecar =
    sidecar_in (build_sidecar outside cloud_job (deployment_facts_from_env no_env) wav_facts end)

cloud_sidecar_eq :
    build_sidecar outside cloud_job (deployment_facts_from_env no_env) wav_facts end
    ≡ ok cloud_sidecar
unfolding build_sidecar
cloud_sidecar_eq = refl

recorded_audio_setting-resolve_example :
    (setting : Value) × (recorded_audio_setting (some (obj cloud_sidecar)) ≡ ok setting)
    × (resolve_transcode repr setting ≡ ok (accepted.plan))
recorded_audio_setting-resolve_example =
    recorded_audio_setting-resolve repr whole_ops hex_max_body_bytes body accepted outside cloud_job
      (deployment_facts_from_env no_env) wav_facts end cloud_sidecar body-accepted refl
      cloud_sidecar_eq

-- A listener that has seen the first event finds two, and then the same with a third.
abbrev told : ℕ → String → JobEvent
told id type = record { id = id; type = type; payload = end }

abbrev rounds : List Round
rounds =
    record { log = told 1 "queued" ∷ told 2 "running" ∷ []; disconnected = false; now = 0 }
    ∷ record {
      log = told 1 "queued" ∷ told 2 "running" ∷ told 3 "succeeded" ∷ [];
      disconnected = false;
      now = 20;
    }
    ∷ []

event_stream-Ascends_example : Ascends 1 (events_of (event_stream 15 0 (some 1) rounds).0)
event_stream-Ascends_example =
    event_stream-Ascends 15 0 (some 1) rounds
      ((omega arith, (omega arith, tt)), ((omega arith, (omega arith, (omega arith, tt))), tt))

get_artifact-IsServed_example :
    IsServed
      (λ text. text)
      "/a"
      "job_1"
      "audio.wav"
      2
      (calm stored 3)
      (get_artifact (λ text. text) (some "/a") "job_1" "audio.wav" (calm stored 3))
get_artifact-IsServed_example =
    get_artifact-IsServed (λ text. text) "/a" "job_1" "audio.wav" 2 (calm stored 3)

get_artifact_complete_example :
    ((get_artifact (λ text. text) (some "/a") "job_1" audio_name (calm stored 3)).0
      ≡ streamed (media_type_of audio_name) (length audio) audio)
    × (join
          (stream_fd true
            (length audio)
            audio
            (get_artifact (λ text. text) (some "/a") "job_1" audio_name (calm stored 3)).1).0
        ≡ audio)
unfolding path_join all_id_chars
get_artifact_complete_example =
    get_artifact_complete (λ text. text) "/a" "job_1" audio_name stored 3 0 empty audio
      (123 ∷ 125 ∷ []) (length audio) refl refl refl refl refl (omega arith)
