-- ===== src/Routes/Files.antt =====
-- api/app/routes/artifacts.py: the listing and the serving of artifacts.
pub mod Served
use minimax_music3_webui.Prelude.{
  ℕ, zero, suc, String, Bool, true, false, Option, none, some, List, [], ◌∷◌, length, take, drop,
  str_eq, if◌then◌else◌,
}
use minimax_music3_webui.Prelude.Result.{Result, ok, err}
use minimax_music3_webui.Json.{Value}
use minimax_music3_webui.Artifacts.Disk.{
  DiskError, os_error, value_error, wave_error, uncaught, World, W, give, close, Fault, fine, fails,
  cut_short, next_fault, after_fault,
}
use minimax_music3_webui.Artifacts.Writing.{audio_name}
use minimax_music3_webui.Artifacts.Serving.{open_member}
use minimax_music3_webui.Artifacts.Listing.{Listed, scan_listing}

unfoldable pub list_artifacts :
    (repr : String → String)
    → (load : List ℕ → Option Value) → (artifacts_dir : Option String)
    → (names : Option (List String)) → W (List Listed)
unfolding scan_listing
list_artifacts repr load none names = give []
list_artifacts repr load (some root) names = scan_listing repr load root names

-- A stream of a descriptor's bytes with the length that the header gives; 404; or an exception that the
-- route does not handle.
pub data Reply : Type 0 where
  streamed : (media_type : String) → (content_length : ℕ) → (bytes : List ℕ) → Reply
  not_found unhandled : Reply

abbrev pub chunk_size : ℕ
chunk_size = 65536

abbrev pub media_type_of : (name : String) → String
media_type_of name = if str_eq name audio_name then "audio/wav" else "application/json"

-- A JobIdError is a ValueError.
abbrev pub reply_of : (name : String) → Result DiskError (Option (List ℕ)) → Reply
reply_of name (ok none) = not_found
reply_of name (ok (some bytes)) = streamed (media_type_of name) (length bytes) bytes
reply_of name (err (value_error message)) = not_found
reply_of name (err (os_error message)) = unhandled
reply_of name (err (wave_error message)) = unhandled
reply_of name (err (uncaught message)) = unhandled

unfoldable pub get_artifact :
    (repr : String → String)
    → (artifacts_dir : Option String) → (job_id name : String) → World
    → Reply × World
unfolding open_member
get_artifact repr none job_id name w = (not_found, w)
get_artifact repr (some root) job_id name w =
    let opened = open_member repr root job_id name w in (reply_of name opened.0, opened.1)

abbrev pub if_fine : {A : Type 0} → Fault → A → A → A
if_fine fine a b = a
if_fine (fails message) a b = b
if_fine (cut_short n message) a b = b

-- The reads of the loop, for a client that takes at most so many pieces; a read that raises ends the stream.
unfoldable pub send_chunks : (size pieces : ℕ) → List ℕ → World → List (List ℕ) × World
send_chunks size zero bytes w = ([], w)
send_chunks size (suc pieces) [] w = ([], after_fault w)
send_chunks size (suc pieces) (byte ∷ bytes) w =
    let rest = send_chunks size pieces (drop size (byte ∷ bytes)) (after_fault w) in
    if_fine (next_fault w) (take size (byte ∷ bytes) ∷ rest.0, rest.1) ([], after_fault w)

abbrev pub closed : List (List ℕ) × World → List (List ℕ) × World
closed s = (s.0, close s.1)

-- The pieces that are sent, and what is left open: of a generator that was never started no line runs, and
-- an `os.fdopen` that raises leaves the descriptor as it was.
unfoldable pub stream_fd : (started : Bool) (pieces : ℕ) → List ℕ → World → List (List ℕ) × World
unfolding send_chunks
stream_fd false pieces bytes w = ([], w)
stream_fd true pieces bytes w =
    if_fine (next_fault w) (closed (send_chunks chunk_size pieces bytes (after_fault w)))
      ([], after_fault w)

-- What follows a reply.
abbrev pub sent : (started : Bool) (pieces : ℕ) → Reply → World → List (List ℕ) × World
sent started pieces (streamed media_type content_length bytes) w = stream_fd started pieces bytes w
sent started pieces not_found w = ([], w)
sent started pieces unhandled w = ([], w)
