-- ===== src/Artifacts/Tests.antt =====
-- The theorems on artifacts at a concrete job, root and disk.
use minimax_music3_webui.Prelude.{ℕ, ◌≡◌, refl, String, none, some, List, [], ◌∷◌}
use minimax_music3_webui.Prelude.Int.{pos}
use minimax_music3_webui.Prelude.Table.{Table, put, empty}
use minimax_music3_webui.Prelude.Result.{Result, ok, err}
use minimax_music3_webui.Json.{PyFloat, finite, Fields, end, obj}
use minimax_music3_webui.Transcode.Floats.{FloatOps}
use minimax_music3_webui.Jobs.Store.{JobRecord, succeeded}
use minimax_music3_webui.Artifacts.Ids.{validate_job_id, all_id_chars}
use minimax_music3_webui.Artifacts.Paths.{resolve_within, path_join}
use minimax_music3_webui.Artifacts.Sidecar.{Outside, measure_wav, build_sidecar}
use minimax_music3_webui.Artifacts.Disk.{
  DiskError, Node, directory, regular, fine, cut_short, World, Entry, mkdir, create, write, fsync,
  replace,
}
use minimax_music3_webui.Artifacts.Writing.{
  audio_name, sidecar_name, prepare, store_pair, atomic_write_bytes, fsync_dir, write_artifact,
}
use minimax_music3_webui.Artifacts.Writing.Pair.{ArtifactState, write_artifact-ArtifactState}
use minimax_music3_webui.Artifacts.Writing.Prepared.{IsPrepared, prepare-IsPrepared}
use minimax_music3_webui.Artifacts.Writing.Returns.{calm, Complete, write_artifact_returns}
use minimax_music3_webui.Artifacts.Serving.{
  open_member, open_pair, open_job_dir_fd, open_regular_member_fd,
}
use minimax_music3_webui.Artifacts.Serving.Members.{Serves, open_member-Serves}
use minimax_music3_webui.Artifacts.Crash.{
  open_member_complete, written_world, write_artifact-open_member,
}
use minimax_music3_webui.Artifacts.Listing.{scan_listing}
use minimax_music3_webui.Artifacts.Listing.Leaving.{Leaves}
use minimax_music3_webui.Artifacts.Listing.Sound.{NewestFirst, AllServed, scan_listing-Leaves}

abbrev repr : String → String
repr s = s

abbrev no_time : PyFloat
no_time = finite (pos 0) (pos 0)

abbrev pub floats : FloatOps
floats = record {
  quot = λ a b. no_time;
  mul = λ x y. no_time;
  of_nat = λ n. no_time;
  trunc = λ x. 0;
}

abbrev pub outside : Outside
outside = record {
  repr = repr;
  realpath = λ path. path;
  read_wav = λ audio. ok (record { framerate = 44100; channels = 2; frames = 4 });
  sha256 = λ audio. "00";
  floats = floats;
  elapsed = λ start stop. ok no_time;
  seconds = λ time. no_time;
  dumps = λ sidecar. ok (123 ∷ 125 ∷ []);
}

abbrev pub audio : List ℕ
audio = 82 ∷ 73 ∷ 70 ∷ 70 ∷ []

abbrev pub job : JobRecord
job = record {
  id = "job_1";
  submission = record {
    input = "la";
    instructions = "pop";
    seed = 0;
    max_new_tokens = 100;
    cloud = none;
  };
  status = succeeded;
  submitted_at = "t0";
  started_at = some "t1";
  ended_at = some "t2";
  engine = some "sglang-omni";
  model = some "m";
  audio = some audio;
  content_type = some "audio/wav";
  generation_time = some 5;
  error = none;
}

abbrev pub no_env : Table String
no_env = empty

abbrev nodes : Table Node
nodes = put "/a" (directory 0 empty) empty

-- The disk is full in the middle of the sidecar.
abbrev pub failing : World
failing = record {
  nodes = nodes;
  faults = fine ∷ fine ∷ fine ∷ fine ∷ fine ∷ fine ∷ cut_short 1 "No space left" ∷ [];
  open_fds = 3;
}

write_artifact-ArtifactState_example :
    ArtifactState outside job "/a" end no_env failing
      (write_artifact outside job "/a" end no_env failing)
write_artifact-ArtifactState_example =
    write_artifact-ArtifactState outside job "/a" end no_env failing

abbrev sidecar_in : Result DiskError (String × List ℕ × Fields) → Fields
sidecar_in (ok (dir, bytes, sidecar)) = sidecar
sidecar_in (err e) = end

abbrev sidecar : Fields
sidecar = sidecar_in (prepare outside job "/a" end no_env)

prepared : prepare outside job "/a" end no_env ≡ ok ("/a/job_1", audio, sidecar)
unfolding prepare validate_job_id resolve_within measure_wav build_sidecar path_join
prepared = refl

prepare-IsPrepared_example : IsPrepared outside job "/a" ("/a/job_1", audio, sidecar)
prepare-IsPrepared_example =
    prepare-IsPrepared outside job "/a" end no_env "/a/job_1" audio sidecar prepared

write_artifact_returns_example :
    ((write_artifact outside job "/a" end no_env (calm nodes 3)).0 ≡ ok "/a/job_1")
    × Complete "/a/job_1" audio
        (123 ∷ 125 ∷ [])
        nodes
        3
        (write_artifact outside job "/a" end no_env (calm nodes 3)).1
write_artifact_returns_example =
    write_artifact_returns outside job "/a" end no_env nodes 3 "/a/job_1" audio sidecar
      (123 ∷ 125 ∷ []) prepared refl refl

-- A disk with one complete artifact.
abbrev pair : Table Entry
pair = put audio_name (regular audio) (put sidecar_name (regular (123 ∷ 125 ∷ [])) empty)

abbrev pub stored : Table Node
stored = put "/a/job_1" (directory 7 pair) nodes

open_member-Serves_example :
    Serves repr "/a" "job_1" audio_name
      (calm stored 3)
      (open_member repr "/a" "job_1" audio_name (calm stored 3))
open_member-Serves_example = open_member-Serves repr "/a" "job_1" audio_name (calm stored 3)

open_member_complete_example :
    (open_member repr "/a" "job_1" audio_name (calm stored 3)).0 ≡ ok (some audio)
unfolding path_join all_id_chars
open_member_complete_example =
    open_member_complete repr "/a" "job_1" audio_name stored 3 0 empty audio (123 ∷ 125 ∷ []) refl
      refl refl refl refl

served :
    (open_member repr "/a" "job_1" audio_name
      (written_world outside job "/a" end no_env (calm nodes 3) "/a/job_1" audio sidecar [])).0
    ≡ ok (some audio)
unfolding open_member open_pair open_job_dir_fd open_regular_member_fd write_artifact store_pair
    atomic_write_bytes fsync_dir mkdir create write fsync replace prepare validate_job_id
    resolve_within measure_wav build_sidecar path_join
served = refl

write_artifact-open_member_example : some audio ≡ some (let bytes : List ℕ = audio in bytes)
unfolding path_join
write_artifact-open_member_example =
    write_artifact-open_member outside job "/a" end no_env (calm nodes 3) "/a/job_1" audio sidecar
      [] audio prepared refl refl served

scan_listing-Leaves_example :
    Leaves
      (λ ls. NewestFirst ls × AllServed "/a" stored ls)
      (calm stored 3)
      (scan_listing repr (λ bytes. some (obj end)) "/a" (some ("job_1" ∷ [])) (calm stored 3))
scan_listing-Leaves_example =
    scan_listing-Leaves repr (λ bytes. some (obj end)) "/a" (some ("job_1" ∷ [])) (calm stored 3)
