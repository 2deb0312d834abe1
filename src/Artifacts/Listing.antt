-- ===== src/Artifacts/Listing.antt =====
-- api/jobs/artifacts.py: `scan_listing`. What `os.scandir` yields and what `json.load` makes of a file are
-- arguments; a modification time is a whole number of nanoseconds.
pub mod Order
pub mod Leaving
pub mod Sound
use minimax_music3_webui.Prelude.{
  ℕ, String, Bool, true, false, not, Option, none, some, List, [], ◌∷◌, leb, ◌&◌, if◌then◌else◌,
}
use minimax_music3_webui.Prelude.Result.{Result, ok, err}
use minimax_music3_webui.Json.{Fields, Value, obj, end, field, get, or_null}
use minimax_music3_webui.Artifacts.Ids.{is_job_id}
use minimax_music3_webui.Artifacts.Paths.{path_join}
use minimax_music3_webui.Artifacts.Disk.{
  DiskError, uncaught, Node, directory, not_directory, World, W, give, fail, attempt, finally,
  close, ◌>>=◌, ◌>>◌,
}
use minimax_music3_webui.Artifacts.Writing.{audio_name, sidecar_name}
use minimax_music3_webui.Artifacts.Serving.{try_os, open_member}

-- An entry of the list that is returned; `summary` holds the four fields of the sidecar, or nothing.
pub record Listed : Type 0 where
  pub job_id : String
  pub audio_url : String
  pub sidecar_url : String
  pub mtime : ℕ
  pub summary : Fields

-- {key: sidecar.get(key) for key in (…)}
abbrev pub pick : List String → Fields → Fields
pick [] sidecar = end
pick (key ∷ keys) sidecar = field key (or_null (get sidecar key)) (pick keys sidecar)

abbrev pub summary_keys : List String
summary_keys = "engine" ∷ "model" ∷ "output" ∷ "timings" ∷ []

-- The read may fail, or the bytes are no JSON: nothing. A document that is no object has no `get`.
abbrev pub summary_of : Option (Option Value) → W Fields
summary_of (some (some (obj sidecar))) = give (pick summary_keys sidecar)
summary_of (some (some v)) = fail (uncaught "AttributeError")
summary_of (some none) = give end
summary_of none = give end

unfoldable pub listing_summary : (load : List ℕ → Option Value) → List ℕ → W Fields
listing_summary load bytes = do
  read ← finally (try_os (attempt (give (load bytes)))) close
  summary_of read

abbrev pub mtime_if : Option Node → Option ℕ
mtime_if (some (directory mtime entries)) = some mtime
mtime_if _ = none

-- An entry that is no directory, or whose name is no job's id, is skipped; of the others
-- `entry.stat(follow_symlinks=False)` is called.
abbrev pub add_candidate : String → W (List (ℕ × String)) → Option ℕ → W (List (ℕ × String))
add_candidate name rest none = rest
add_candidate name rest (some mtime) =
    if not (is_job_id name)
    then rest
    else do attempt (give tt); others ← rest; give ((mtime, name) ∷ others)

unfoldable pub candidates : (root : String) → List String → W (List (ℕ × String))
candidates root [] w = (ok [], w)
candidates root (name ∷ names) w =
    add_candidate name (candidates root names) (mtime_if (w.nodes (path_join root name))) w

-- candidates.sort(key=mtime, reverse=True): of two with one time the earlier stays the earlier.
abbrev pub insert : ℕ × String → List (ℕ × String) → List (ℕ × String)
insert c [] = c ∷ []
insert c (d ∷ ds) = let rest = insert c ds in if leb d.0 c.0 then c ∷ d ∷ ds else d ∷ rest

abbrev pub sort : List (ℕ × String) → List (ℕ × String)
sort [] = []
sort (c ∷ cs) = insert c (sort cs)

abbrev pub listed : ℕ × String → Fields → Listed
listed (mtime, job_id) summary = record {
  job_id = job_id;
  audio_url = "/artifacts/" & job_id & "/" & audio_name;
  sidecar_url = "/artifacts/" & job_id & "/" & sidecar_name;
  mtime = mtime;
  summary = summary;
}

module _ (repr : String → String) (load : List ℕ → Option Value) (root : String) where
  abbrev pub list_opened : ℕ × String → W (List Listed) → Option (List ℕ) → W (List Listed)
  list_opened c rest none = rest
  list_opened c rest (some bytes) = do
    summary ← listing_summary load bytes
    others ← rest
    give (listed c summary ∷ others)

  unfoldable pub list_candidates : List (ℕ × String) → W (List Listed)
  list_candidates [] = give []
  list_candidates (c ∷ cs) = do
    let rest = list_candidates cs
    opened ← open_member repr root c.1 sidecar_name
    list_opened c rest opened

  -- `none` is a root that is missing or no directory.
  unfoldable pub scan_listing : (names : Option (List String)) → W (List Listed)
  unfolding candidates list_candidates
  scan_listing none = give []
  scan_listing (some names) = do cs ← candidates root names; list_candidates (sort cs)
