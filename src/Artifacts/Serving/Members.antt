-- ===== src/Artifacts/Serving/Members.antt =====
-- What `open_member` serves, and which descriptors it leaves open.
use minimax_music3_webui.Prelude.{
  ℕ, ◌≡◌, ◌⊎◌, inl, inr, refl, ◌∙◌, subst, String, true, false, Option, none, some, List, str_eq,
  str_mem, arith, if◌then◌else◌, Bool-cases,
}
use minimax_music3_webui.Prelude.Table.{Table}
use minimax_music3_webui.Prelude.Result.{Result, err}
use minimax_music3_webui.Artifacts.Ids.{is_job_id, validate_job_id}
use minimax_music3_webui.Artifacts.Paths.{path_join}
use minimax_music3_webui.Artifacts.Disk.{
  DiskError, value_error, Node, World, W, finally, close, ◌>>=◌,
}
use minimax_music3_webui.Artifacts.Writing.{audio_name, sidecar_name}
use minimax_music3_webui.Artifacts.Writing.Calls.{FileIs}
use minimax_music3_webui.Artifacts.Serving.{
  servable, try_os, open_directory, open_job_dir_fd, open_regular_member_fd, choose, open_pair,
  open_member,
}
use minimax_music3_webui.Artifacts.Serving.Probes.{
  Same, Probes, open_directory-Probes, open_regular-Probes,
}

-- Both members are regular files, and this is the one that was asked for.
abbrev pub IsPair : (dir name : String) → Table Node → List ℕ → Type 0
IsPair dir name nodes bytes =
    (audio : List ℕ) × (sidecar : List ℕ) × FileIs dir audio_name audio nodes
    × FileIs dir sidecar_name sidecar nodes
    × (bytes ≡ (if str_eq name audio_name then audio else sidecar))

module _ (dir name : String) (w u : World) where
  abbrev then_sidecar : Option (List ℕ) → W (Option (List ℕ))
  then_sidecar audio = do
    sidecar ← open_regular_member_fd dir sidecar_name
    choose name audio sidecar

  -- The second member, when the first has been found, and when not.
  with_audio :
      (a : List ℕ)
      → FileIs dir audio_name a w.nodes
      → Same 1 w u
      → Probes (IsPair dir name) w (then_sidecar (some a) u)
  with_audio a found s = elim (open_regular-Probes dir sidecar_name u) [
    | inl (b, r, good, s') ↦ rw r (
        inl (
          _,
          refl,
          (a, b, found, subst (λ nodes. FileIs dir sidecar_name b nodes) s.nodes good, refl),
          record { nodes = s'.nodes ∙ s.nodes; fds = omega (arith, s.fds, s'.fds) },
        ))
    | inr (r, s') ↦
        rw r (inr (refl, record { nodes = s'.nodes ∙ s.nodes; fds = omega (arith, s.fds, s'.fds) }))
  ]

  without_audio : Same 0 w u → Probes (IsPair dir name) w (then_sidecar none u)
  without_audio s = elim (open_regular-Probes dir sidecar_name u) [
    | inl (b, r, good, s') ↦
        rw r (inr (refl, record { nodes = s'.nodes ∙ s.nodes; fds = omega (arith, s.fds, s'.fds) }))
    | inr (r, s') ↦
        rw r (inr (refl, record { nodes = s'.nodes ∙ s.nodes; fds = omega (arith, s.fds, s'.fds) }))
  ]

open_pair-Probes :
    (dir name : String) (w : World) → Probes (IsPair dir name) w (open_pair dir name w)
unfolding open_pair
open_pair-Probes dir name w = elim (open_regular-Probes dir audio_name w) [
  | inl (a, r, found, s) ↦
      rw r (with_audio dir name w (open_regular_member_fd dir audio_name w).1 a found s)
  | inr (r, s) ↦ rw r (without_audio dir name w (open_regular_member_fd dir audio_name w).1 s)
]

module _ (repr : String → String) (root job_id name : String) where
  -- The directory of the job, under the root.
  abbrev job_dir : String
  job_dir = path_join root job_id

  -- An id that is refused before any system call.
  abbrev pub Refuses : {A : Type 0} → World → Result DiskError A × World → Type 0
  Refuses w p =
      (message : String) × (p.0 ≡ err (value_error message))
      × (is_job_id job_id ≡ false)
      × (p.1 ≡ w)

  abbrev IsJobDir : Table Node → String → Type 0
  IsJobDir nodes fd = (is_job_id job_id ≡ true) × (fd ≡ job_dir)

  open_job_dir_fd-Probes :
      (w : World)
      → Refuses w (open_job_dir_fd repr root job_id w)
        ⊎ Probes IsJobDir w (open_job_dir_fd repr root job_id w)
  unfolding open_job_dir_fd validate_job_id
  open_job_dir_fd-Probes w = elim (Bool-cases (is_job_id job_id)) [
    | inr invalid ↦ rw invalid (inl (_, refl, refl, refl))
    | inl valid ↦ elim (open_directory-Probes root w) [
      | inr (r, s) ↦ rw (valid, r) (inr (inr (refl, s)))
      | inl (fd, r, at_root, s) ↦
          rw (valid, r, at_root) (inr (below (true ≡ true) refl (open_directory root w).1 s))
    ]
  ]
    where
      below :
          (Valid : Type 0)
          → Valid
          → (u : World) → Same 1 w u
          → Probes
              (λ nodes fd. Valid × (fd ≡ job_dir))
              w
              (finally (try_os (open_directory job_dir)) close u)
      below Valid valid u s = elim (open_directory-Probes job_dir u) [
        | inl (fd, r, at_path, s') ↦ rw r (
            inl (
              fd,
              refl,
              (valid, at_path),
              record { nodes = s'.nodes ∙ s.nodes; fds = omega (arith, s.fds, s'.fds) },
            ))
        | inr (r, s') ↦
            rw r (
              inr (refl, record { nodes = s'.nodes ∙ s.nodes; fds = omega (arith, s.fds, s'.fds) }))
      ]

  -- What open_member does: it raises, for an id that is not one, before any system call; or it finds
  -- nothing; or it has opened the member that was asked for of a complete pair.
  abbrev pub Serves : World → Result DiskError (Option (List ℕ)) × World → Type 0
  Serves w p =
      Refuses w p
      ⊎ Probes
          (λ nodes bytes.
            (str_mem name servable ≡ true)
            × (is_job_id job_id ≡ true)
            × IsPair job_dir name nodes bytes)
          w p

  -- A call of open_member raises only for an id that is not a job's, and then before any system call.
  -- Otherwise it changes no file, and whatever system call fails: either it returns nothing and leaves as
  -- many descriptors open as there were; or it returns the bytes of the member that was asked for and leaves
  -- one more open, where the name is one of the two, the id is a job's, and both members are regular files.
  pub open_member-Serves : (w : World) → Serves w (open_member repr root job_id name w)
  unfolding open_member
  open_member-Serves w = elim (Bool-cases (str_mem name servable)) [
    | inr other ↦ rw other (inr (inr (refl, record { nodes = refl; fds = omega arith })))
    | inl known ↦ elim (open_job_dir_fd-Probes w) [
      | inl (message, r, invalid, w') ↦ rw (known, r) (inl (message, refl, invalid, w'))
      | inr (inr (r, s)) ↦ rw (known, r) (inr (inr (refl, s)))
      | inr (inl (fd, r, (valid, at_path), s)) ↦
          rw (known, r, at_path)
            (inr (serve (true ≡ true) refl valid (open_job_dir_fd repr root job_id w).1 s))
    ]
  ]
    where
      serve :
          (Known : Type 0)
          → Known
          → is_job_id job_id ≡ true
          → (u : World) → Same 1 w u
          → Probes
              (λ nodes bytes. Known × (is_job_id job_id ≡ true) × IsPair job_dir name nodes bytes)
              w
              (finally (open_pair job_dir name) close u)
      serve Known known valid u s = elim (open_pair-Probes job_dir name u) [
        | inl (bytes, r, good, s') ↦ rw r (
            inl (
              bytes,
              refl,
              (known, valid, subst (λ nodes. IsPair job_dir name nodes bytes) s.nodes good),
              record { nodes = s'.nodes ∙ s.nodes; fds = omega (arith, s.fds, s'.fds) },
            ))
        | inr (r, s') ↦
            rw r (
              inr (refl, record { nodes = s'.nodes ∙ s.nodes; fds = omega (arith, s.fds, s'.fds) }))
      ]
