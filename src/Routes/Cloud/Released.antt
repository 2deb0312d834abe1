-- ===== src/Routes/Cloud/Released.antt =====
-- Which descriptors and temporary files the cloud edge still holds when its reply is over.
use minimax_music3_webui.Prelude.{
  ℕ, ◌+◌, ◌≤◌, ◌≡◌, String, Bool, true, false, Option, none, some, List, str_eq, arith,
  if◌then◌else◌,
}
use minimax_music3_webui.Prelude.Result.{Result, ok, err, ◌>>=◌}
use minimax_music3_webui.Json.{Value}
use minimax_music3_webui.Compat.Errors.{CompatError}
use minimax_music3_webui.Compat.Translate.{LocalRequest, translate}
use minimax_music3_webui.Transcode.{TranscodePlan}
use minimax_music3_webui.Transcode.Measure.{
  Failure, transcode_error, uncaught, AudioFacts, extra_info,
}
use minimax_music3_webui.Jobs.Store.{JobStatus}
use minimax_music3_webui.Routes.Cloud.{
  Response, Held, opened, close, added, Answers, transcode_to_temp, deliver, music_generation,
  NoSetting, absent, no_object, recorded_audio_setting, local_failed, measured_for, transcoded_for,
  opened_for, rooted_for, envelope_for, sent, error_or, is_succeeded, music_result, result_rooted,
  result_planned, result_opened, file_for, translated_for, awaited_for, await_terminal,
}
use minimax_music3_webui.Transcode.Floats.{FloatOps}
use minimax_music3_webui.Routes.Body.{
  BodyError, refused_with, escaped, Loaded, as_body_error, read_json_body,
}
use minimax_music3_webui.Routes.Cloud.Envelopes.{escapes}

-- As many are open, and as many exist, as before; at most one more exists if the reply's generator was never
-- started.
abbrev pub Restored : Held → Response × Held → Type 0
Restored h p =
    ((sent true p.0 p.1).open_fds ≡ h.open_fds)
    × ((sent true p.0 p.1).temps ≡ h.temps)
    × ((sent false p.0 p.1).open_fds ≡ h.open_fds)
    × ((sent false p.0 p.1).temps ≤ h.temps + 1)

module _ (request : LocalRequest) (a : Answers)
    (measure_handled : (plan : TranscodePlan) (file : List ℕ)
      → escapes (a.measured plan file) ≡ false)
    (h : Held) (removes : h.unlinks ≡ true) where
  envelope_for-Restored :
      (file : List ℕ) (facts : AudioFacts) (url : Bool)
      → Restored h (envelope_for url a (extra_info facts) file (close (added (opened h))))
  envelope_for-Restored file facts true = ground arith
  envelope_for-Restored file facts false = ground arith

  measured_for-Restored :
      (file : List ℕ) (r : Result Failure AudioFacts)
      → escapes r ≡ false
      → Restored h (measured_for request a file r (close (added (opened h))))
  measured_for-Restored file (err (transcode_error m)) e = ground arith
  measured_for-Restored file (err uncaught) e = absurd cc
  measured_for-Restored file (ok facts) e =
      envelope_for-Restored file facts (str_eq request.output_format "url")

  transcoded_for-Restored :
      (mkstemp : Option String) (r : Result Failure (List ℕ))
      → Restored h (transcoded_for request a (transcode_to_temp mkstemp r (opened h)))
  unfolding transcode_to_temp
  transcoded_for-Restored (some m) r = ground arith
  transcoded_for-Restored none (err (transcode_error m)) = ground arith
  transcoded_for-Restored none (err uncaught) = ground arith
  transcoded_for-Restored none (ok file) =
      measured_for-Restored file (a.measured request.plan file) (measure_handled request.plan file)

  opened_for-Restored : (o : Option (List ℕ)) → Restored h (opened_for request a o h)
  opened_for-Restored none = ground arith
  opened_for-Restored (some audio) =
      transcoded_for-Restored a.mkstemp (a.transcoded request.plan audio)

  deliver-Restored : (status : JobStatus) → Restored h (deliver request a status h)
  unfolding deliver
  deliver-Restored status = go (is_succeeded status) a.root
    where
      go :
          (b : Bool) (root : Option String)
          → Restored h (
              if b
              then rooted_for request a root h
              else (local_failed a.trace_id (error_or a.error status), h))
      go false root = ground arith
      go true none = ground arith
      go true (some root) = opened_for-Restored a.audio

untranslated-Restored :
    (e : BodyError) (a : Answers) (polls : List JobStatus) (h : Held)
    → Restored h (translated_for (err e) a polls h)
untranslated-Restored (refused_with e) a polls h = ground arith
untranslated-Restored escaped a polls h = ground arith

awaited-Restored :
    (request : LocalRequest) (a : Answers) (status : Option JobStatus) (h : Held)
    → h.unlinks ≡ true
    → ((plan : TranscodePlan) (file : List ℕ) → escapes (a.measured plan file) ≡ false)
    → Restored h (awaited_for request a status h)
awaited-Restored request a none h u m = ground arith
awaited-Restored request a (some status) h u m = deliver-Restored request a m h u status

-- Where the removal of a temporary file goes well, and the measuring raises no exception but a TranscodeError
-- or an OSError: when the reply of a cloud request has been sent, or its client has gone while the
-- reply was streamed, as many descriptors are open and as many temporary files exist as before the
-- request. If the stream was never started, no more descriptors are open, and at most one file is left.
pub music_generation-Restored :
    (repr : Value → String) (ops : FloatOps) (ceiling : ℕ) (loads : List ℕ → Loaded)
    (declared : Option String) (chunks : List (List ℕ)) (a : Answers) (polls : List JobStatus)
    (h : Held)
    → h.unlinks ≡ true
    → ((plan : TranscodePlan) (file : List ℕ) → escapes (a.measured plan file) ≡ false)
    → Restored h (music_generation repr ops ceiling loads declared chunks a polls h)
unfolding music_generation
music_generation-Restored repr ops ceiling loads declared chunks a polls h u m = go (
    read_json_body loads declared chunks >>= λ body.
    as_body_error (translate repr ops ceiling body))
  where
    go : (r : Result BodyError LocalRequest) → Restored h (translated_for r a polls h)
    go (err e) = untranslated-Restored e a polls h
    go (ok request) = awaited-Restored request a (await_terminal polls) h u m

module _ (media : TranscodePlan → Option String) (a : Answers) (sized : a.getsize ≡ none) (h : Held)
    (removes : h.unlinks ≡ true) where
  file_for-Restored :
      (plan : TranscodePlan) (mkstemp : Option String) (r : Result Failure (List ℕ))
      → Restored h (file_for media plan a (transcode_to_temp mkstemp r (opened h)))
  unfolding transcode_to_temp
  file_for-Restored plan (some m) r = ground arith
  file_for-Restored plan none (err (transcode_error m)) = ground arith
  file_for-Restored plan none (err uncaught) = ground arith
  file_for-Restored plan none (ok file) = ground arith

  result_opened-Restored :
      (plan : TranscodePlan) (o : Option (List ℕ)) → Restored h (result_opened media plan a o h)
  result_opened-Restored plan none = ground arith
  result_opened-Restored plan (some audio) =
      file_for-Restored plan a.mkstemp (a.transcoded plan audio)

  result_planned-Restored :
      (r : Result CompatError TranscodePlan) → Restored h (result_planned media a r h)
  result_planned-Restored (err e) = ground arith
  result_planned-Restored (ok plan) = result_opened-Restored plan a.audio

  result_rooted-Restored :
      (resolve : Value → Result CompatError TranscodePlan) (root : Option String)
      (r : Result NoSetting Value)
      → Restored h (result_rooted resolve media a root r h)
  result_rooted-Restored resolve none r = ground arith
  result_rooted-Restored resolve (some root) (err absent) = ground arith
  result_rooted-Restored resolve (some root) (err no_object) = ground arith
  result_rooted-Restored resolve (some root) (ok setting) =
      result_planned-Restored (resolve setting)

-- Where the removal of a temporary file goes well and its size is read: when the reply of the delivery route
-- has been sent, or its client has gone while the reply was streamed, as many descriptors are open and as
-- many temporary files exist as before, for every sidecar and however the transcoding goes.
pub music_result-Restored :
    (resolve : Value → Result CompatError TranscodePlan) (media : TranscodePlan → Option String)
    (a : Answers) (loaded : Option Value) (h : Held)
    → a.getsize ≡ none
    → h.unlinks ≡ true
    → Restored h (music_result resolve media a loaded h)
unfolding music_result
music_result-Restored resolve media a loaded h g u =
    result_rooted-Restored media a g h u resolve a.root (recorded_audio_setting loaded)
