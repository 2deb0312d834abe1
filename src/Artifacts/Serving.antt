-- ===== src/Artifacts/Serving.antt =====
-- api/jobs/artifacts.py: `open_member` and what it calls. A directory's descriptor is modelled by the path
-- under which it was found, a file's by the bytes.
pub mod Probes
pub mod Members
use minimax_music3_webui.Prelude.{
  ℕ, String, Bool, true, false, not, Option, none, some, List, [], ◌∷◌, str_eq, str_mem,
  if◌then◌else◌,
}
use minimax_music3_webui.Prelude.Result.{Result, ok, err}
use minimax_music3_webui.Artifacts.Ids.{validate_job_id}
use minimax_music3_webui.Artifacts.Paths.{path_join}
use minimax_music3_webui.Artifacts.Disk.{
  DiskError, os_error, value_error, Node, directory, Entry, regular, symlink, special, World, W,
  give, attempt, finally, close, opened, entry, ◌>>=◌, ◌>>◌,
}
use minimax_music3_webui.Artifacts.Writing.{audio_name, sidecar_name, lift, as_value_error}

abbrev pub servable : List String
servable = audio_name ∷ sidecar_name ∷ []

-- try: … except OSError: None
abbrev pub absent_if : {A : Type 0} → Result DiskError A → Result DiskError (Option A)
absent_if (ok a) = ok (some a)
absent_if (err (os_error message)) = ok none
absent_if (err e) = err e

abbrev pub try_os : {A : Type 0} → W A → W (Option A)
try_os m w = (absent_if (m w).0, (m w).1)

-- `case none: return None` and otherwise the rest
abbrev pub if_found : {A B : Type 0} → (A → W (Option B)) → Option A → W (Option B)
if_found rest none = give none
if_found rest (some a) = rest a

abbrev pub close_fd : W (Unit {0})
close_fd w = (ok tt, close w)

-- os.open(path, O_RDONLY | O_DIRECTORY); with O_NOFOLLOW a symbolic link is refused as a file is.
abbrev pub directory_if : (path : String) → Option Node → W String
directory_if path (some (directory mtime entries)) w = (ok path, opened w)
directory_if path _ w = (err (os_error "Not a directory"), w)

abbrev pub directory_now : (path : String) → W String
directory_now path w = directory_if path (w.nodes path) w

abbrev pub open_directory : (path : String) → W String
open_directory path = attempt (directory_now path)

unfoldable pub open_job_dir_fd : (repr : String → String) (root job_id : String) → W (Option String)
open_job_dir_fd repr root job_id = do
  valid ← lift (as_value_error (validate_job_id repr job_id))
  root_fd ← try_os (open_directory root)
  if_found (λ fd. finally (try_os (open_directory (path_join fd valid))) close) root_fd

-- os.open(name, O_RDONLY | O_NOFOLLOW, dir_fd=…)
abbrev pub entry_if : Option Entry → W Entry
entry_if (some (regular bytes)) w = (ok (regular bytes), opened w)
entry_if (some special) w = (ok special, opened w)
entry_if (some symlink) w = (err (os_error "Too many levels of symbolic links"), w)
entry_if none w = (err (os_error "No such file or directory"), w)

abbrev pub entry_now : (dir name : String) → W Entry
entry_now dir name w = entry_if (entry w dir name) w

abbrev pub open_entry : (dir name : String) → W Entry
open_entry dir name = attempt (entry_now dir name)

-- What os.fstat says of the open file: it is kept if it is a regular one.
abbrev pub keep_regular : Entry → Option (Unit {0}) → W (Option (List ℕ))
keep_regular (regular bytes) (some info) = give (some bytes)
keep_regular _ _ = do close_fd; give none

abbrev pub fstat : W (Unit {0})
fstat = attempt (give tt)

unfoldable pub open_regular_member_fd : (dir name : String) → W (Option (List ℕ))
open_regular_member_fd dir name = do
  found ← try_os (open_entry dir name)
  if_found (λ file. do info ← try_os fstat; keep_regular file info) found

-- Both members are open: the other one is closed again. One is: it is closed.
abbrev pub choose : (name : String) (audio sidecar : Option (List ℕ)) → W (Option (List ℕ))
choose name (some audio) (some sidecar) = do
  close_fd
  give (some (if str_eq name audio_name then audio else sidecar))
choose name (some audio) none = do close_fd; give none
choose name none (some sidecar) = do close_fd; give none
choose name none none = give none

unfoldable pub open_pair : (dir name : String) → W (Option (List ℕ))
open_pair dir name = do
  audio ← open_regular_member_fd dir audio_name
  sidecar ← open_regular_member_fd dir sidecar_name
  choose name audio sidecar

unfoldable pub open_member :
    (repr : String → String) (root job_id name : String) → W (Option (List ℕ))
unfolding open_pair open_job_dir_fd
open_member repr root job_id name = if not (str_mem name servable) then give none else do
  job_fd ← open_job_dir_fd repr root job_id
  if_found (λ dir. finally (open_pair dir name) close) job_fd
