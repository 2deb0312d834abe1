-- ===== src/Artifacts/Writing/Returns.antt =====
-- `write_artifact` returns if no system call fails.
use minimax_music3_webui.Prelude.{ℕ, ◌≡◌, refl, String, none, List, []}
use minimax_music3_webui.Prelude.Table.{Table, str_eq_self}
use minimax_music3_webui.Prelude.Result.{ok}
use minimax_music3_webui.Json.{Fields}
use minimax_music3_webui.Jobs.Store.{JobRecord}
use minimax_music3_webui.Artifacts.Sidecar.{Outside}
use minimax_music3_webui.Artifacts.Disk.{Node, World, mkdir, create, write, fsync, replace}
use minimax_music3_webui.Artifacts.Writing.{
  audio_name, sidecar_name, atomic_write_bytes, fsync_dir, store_pair, prepare, write_artifact,
}
use minimax_music3_webui.Artifacts.Writing.Calls.{FileIs}

abbrev pub calm : Table Node → ℕ → World
calm nodes open_fds = record { nodes = nodes; faults = []; open_fds = open_fds }

module _ (dir : String) (audio bytes : List ℕ) (nodes : Table Node) (open_fds : ℕ) where
  abbrev pub Complete : World → Type 0
  Complete w = FileIs dir audio_name audio w.nodes × FileIs dir sidecar_name bytes w.nodes

  store_pair_calm :
      nodes dir ≡ none
      → ((store_pair dir audio (ok bytes) (calm nodes open_fds)).0 ≡ ok tt)
        × Complete (store_pair dir audio (ok bytes) (calm nodes open_fds)).1
  unfolding store_pair atomic_write_bytes fsync_dir mkdir create write fsync replace
  store_pair_calm e =
      let s = str_eq_self dir in (simp (e, s) refl, (simp (e, s) refl, simp (e, s) refl))

-- If no system call fails, the job's directory is new, and the sidecar can be dumped, then the writing of an
-- artifact returns the directory, and both files are there, complete.
pub write_artifact_returns :
    (outside : Outside) (job : JobRecord) (root : String) (translated : Fields) (env : Table String)
    (nodes : Table Node) (open_fds : ℕ) (dir : String) (audio : List ℕ) (sidecar : Fields)
    (bytes : List ℕ)
    → prepare outside job root translated env ≡ ok (dir, audio, sidecar)
    → outside.dumps sidecar ≡ ok bytes
    → nodes dir ≡ none
    → ((write_artifact outside job root translated env (calm nodes open_fds)).0 ≡ ok dir)
      × Complete dir audio bytes nodes open_fds
          (write_artifact outside job root translated env (calm nodes open_fds)).1
unfolding write_artifact
write_artifact_returns outside job root translated env nodes open_fds dir audio sidecar bytes p d
      e =
    let (r, files) = store_pair_calm dir audio bytes nodes open_fds e in rw (p, d, r) (refl, files)
