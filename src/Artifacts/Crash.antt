-- ===== src/Artifacts/Crash.antt =====
-- `write_artifact` and `open_member` together: what can be served after a write that may have failed.
use minimax_music3_webui.Prelude.{
  ℕ, ◌≡◌, refl, sym, ◌∙◌, ap, subst, String, true, none, some, List, str_eq, str_mem, inl, inr,
  if◌then◌else◌,
}
use minimax_music3_webui.Prelude.Table.{Table}
use minimax_music3_webui.Prelude.Result.{ok}
use minimax_music3_webui.Json.{Fields}
use minimax_music3_webui.Jobs.Store.{JobRecord}
use minimax_music3_webui.Artifacts.Ids.{is_job_id, validate_job_id}
use minimax_music3_webui.Artifacts.Paths.{path_join}
use minimax_music3_webui.Artifacts.Sidecar.{Outside}
use minimax_music3_webui.Artifacts.Disk.{Node, Fault, directory, Entry, regular, World, entry_in}
use minimax_music3_webui.Artifacts.Writing.{audio_name, sidecar_name, prepare, write_artifact}
use minimax_music3_webui.Artifacts.Writing.Calls.{FileIs, entry-IsIn}
use minimax_music3_webui.Artifacts.Writing.Pair.{WriteState, write_artifact-ArtifactState}
use minimax_music3_webui.Artifacts.Writing.Prepared.{prepare-IsPrepared, ok-injective}
use minimax_music3_webui.Artifacts.Writing.Returns.{calm}
use minimax_music3_webui.Artifacts.Serving.{
  servable, open_job_dir_fd, open_regular_member_fd, open_pair, open_member,
}
use minimax_music3_webui.Artifacts.Serving.Members.{IsPair, open_member-Serves}

-- If no system call fails, the member that is asked for is served wherever both members are regular files
-- of the job's directory.
pub open_member_complete :
    (repr : String → String) (root job_id name : String) (nodes : Table Node) (open_fds mtime : ℕ)
    (entries : Table Entry) (audio sidecar : List ℕ)
    → str_mem name servable ≡ true
    → is_job_id job_id ≡ true
    → nodes root ≡ some (directory mtime entries)
    → FileIs (path_join root job_id) audio_name audio nodes
    → FileIs (path_join root job_id) sidecar_name sidecar nodes
    → (open_member repr root job_id name (calm nodes open_fds)).0
      ≡ ok (some (if str_eq name audio_name then audio else sidecar))
unfolding open_member open_pair open_job_dir_fd open_regular_member_fd validate_job_id
open_member_complete repr root job_id name nodes open_fds mtime entries audio sidecar known valid
      at_root a s =
    let (m, es, e, at_name) =
      entry-IsIn (path_join root job_id) audio_name (calm nodes open_fds) a in
    let b : es sidecar_name ≡ some (regular sidecar) =
      subst (λ n. entry_in n sidecar_name ≡ some (regular sidecar)) e s in
    simp (known, valid, at_root, e, at_name, b) refl

module _ (outside : Outside) (job : JobRecord) (root : String) (translated : Fields)
    (env : Table String) (w : World) (dir : String) (audio : List ℕ) (sidecar : Fields) where
  -- The tree after the write, for a call with faults of its own.
  abbrev pub written_world : List Fault → World
  written_world faults = record (write_artifact outside job root translated env w).1 {
    faults = faults;
  }

  only_written :
      (faults : List Fault) (bytes : List ℕ)
      → w.nodes dir ≡ none
      → WriteState dir audio
          (outside.dumps sidecar)
          w
          (write_artifact outside job root translated env w)
      → IsPair dir audio_name (written_world faults).nodes bytes
      → bytes ≡ audio
  only_written faults bytes new (inl (r, same, fds)) (a, s, at_audio, at_sidecar, e) =
      absurd (cc (subst (λ t. entry_in (t dir) audio_name ≡ some (regular a)) same at_audio, new))
  only_written faults bytes new (inr (new', confined, inl (r, missing)))
        (a, s, at_audio, at_sidecar, e) =
      absurd (cc (missing, at_sidecar))
  only_written faults bytes new (inr (new', confined, inr (b, d, is_sidecar, is_audio)))
        (a, s, at_audio, at_sidecar, e) =
      (let same : a ≡ audio = cc (at_audio, is_audio) in e ∙ same)

  -- After a write of a new artifact, in which any system call may have failed or been the last one before a
  -- crash, a request for the audio, whatever fails in it, is served the whole audio of the job or nothing,
  -- where the job's path is a real path already.
  pub write_artifact-open_member :
      (faults : List Fault) (bytes : List ℕ)
      → prepare outside job root translated env ≡ ok (dir, audio, sidecar)
      → dir ≡ path_join root job.id
      → w.nodes dir ≡ none
      → (open_member outside.repr root job.id audio_name (written_world faults)).0 ≡ ok (some bytes)
      → job.audio ≡ some bytes
  write_artifact-open_member faults bytes p at_path new served =
      let (is_audio, filled, valid, at_real, inside, header, read, says) =
        prepare-IsPrepared outside job root translated env dir audio sidecar p in
      let same : bytes ≡ audio =
        elim (write_artifact-ArtifactState outside job root translated env w) [
          | inl nothing ↦ found (inl nothing)
          | inr (dir', audio', sidecar', p', state) ↦
              let eq : (dir', audio', sidecar') ≡ (dir, audio, sidecar) =
                ok-injective (sym p' ∙ p) in
              found (
                subst
                  (λ t.
                    WriteState t.0 t.1 (outside.dumps t.2) w
                      (write_artifact outside job root translated env w))
                  eq state)
        ] in
      is_audio ∙ ap some (sym same)
    where
      found :
          WriteState dir audio
            (outside.dumps sidecar)
            w
            (write_artifact outside job root translated env w)
          → bytes ≡ audio
      found state =
          elim (open_member-Serves outside.repr root job.id audio_name (written_world faults)) [
            | inl (m, r, invalid, same) ↦ absurd (cc (r, served))
            | inr (inr (r, s)) ↦ absurd (cc (r, served))
            | inr (inl (bytes', r, (known, valid, pair), s)) ↦ only_written faults bytes new state (
                subst (λ d. IsPair d audio_name (written_world faults).nodes bytes) (sym at_path)
                  (subst (IsPair (path_join root job.id) audio_name (written_world faults).nodes)
                    (cc (r, served)) pair))
          ]
