-- ===== src/Artifacts/Writing/Pair.antt =====
-- What a crash or an OSError at any system call of `write_artifact` leaves on the disk.
use minimax_music3_webui.Prelude.{
  ℕ, ◌≡◌, ◌≢◌, ◌⊎◌, inl, inr, refl, sym, ◌∙◌, String, Bool, true, false, Option, none, some, List,
  str_eq, arith, ◌&◌,
}
use minimax_music3_webui.Prelude.Table.{Table, put_self, put_ne, empty}
use minimax_music3_webui.Prelude.Result.{Result, ok, err, Result-cases}
use minimax_music3_webui.Json.{Fields}
use minimax_music3_webui.Jobs.Store.{JobRecord}
use minimax_music3_webui.Artifacts.Sidecar.{Outside}
use minimax_music3_webui.Artifacts.Disk.{
  DiskError, Node, directory, World, W, entry_in, ◌>>=◌, go_on, give, fsync, mkdir, mkdir_now,
  mkdir_if, attempt_if, next_fault, Fault, fine, fails, cut_short, after_fault, ◌>>◌,
}
use minimax_music3_webui.Artifacts.Writing.{
  atomic_write_bytes, fsync_dir, open_dir, lift, prepare, write_artifact, store_pair, audio_name,
  sidecar_name,
}
use minimax_music3_webui.Artifacts.Writing.Atomic.{with_open-Ends, atomic_write_bytes-Ends}
use minimax_music3_webui.Artifacts.Writing.Calls.{Only, Only-refl, FileIs, attempt-Ends, fsync-Ends}

-- The directory has no file of this name.
abbrev pub NoFile : (dir name : String) → Table Node → Type 0
NoFile dir name t = entry_in (t dir) name ≡ none

-- The call has raised.
abbrev pub is_err : {A : Type 0} → Result DiskError A → Bool
is_err (ok a) = false
is_err (err e) = true

module _ (dir : String) (audio : List ℕ) (dumped : Result DiskError (List ℕ)) where
  -- The directory is there without a sidecar, and the call has raised; or the pair is complete.
  abbrev pub PairState : {A : Type 0} → Result DiskError A × World → Type 0
  PairState (r, w') =
      ((is_err r ≡ true) × NoFile dir sidecar_name w'.nodes)
      ⊎ ((bytes : List ℕ) × (dumped ≡ ok bytes)
          × FileIs dir sidecar_name bytes w'.nodes
          × FileIs dir audio_name audio w'.nodes)

  -- Outside of the directory nothing has changed, and no descriptor stays open.
  pub record IsConfined (w w' : World) : Type 0 where
    pub others : (path : String) → path ≢ dir → w'.nodes path ≡ w.nodes path
    pub fds : w'.open_fds ≡ w.open_fds

  abbrev Stored : World → Result DiskError (Unit {0}) × World → Type 0
  Stored w p = IsConfined w p.1 × PairState p

  IsConfined-by :
      {names : String → Bool} {w w' : World}
      → Only dir names w.nodes w'.nodes
      → w'.open_fds ≡ w.open_fds
      → IsConfined w w'
  IsConfined-by only fds = record { others = only.others; fds = fds }

  Stored-trans :
      (w v : World) (p : Result DiskError (Unit {0}) × World)
      → IsConfined w v
      → Stored v p
      → Stored w p
  Stored-trans w v p first (then, state) = (
    record {
      others = λ path n. then.others path n ∙ first.others path n;
      fds = then.fds ∙ first.fds;
    },
    state,
  )

  abbrev sidecar_tmp : String
  sidecar_tmp = sidecar_name & ".tmp"

  synced :
      (bytes : List ℕ) (w : World)
      → dumped ≡ ok bytes
      → FileIs dir sidecar_name bytes w.nodes
      → FileIs dir audio_name audio w.nodes
      → Stored w (fsync_dir w)
  unfolding fsync_dir
  synced bytes w d sidecar sound =
      elim (with_open-Ends dir sidecar_tmp (λ t. Unit {0}) (λ t. Unit {0}) open_dir fsync w
        (attempt-Ends dir sidecar_tmp (str_eq sidecar_tmp) 1 (λ t. Unit {0}) _ w
          (inl (refl, tt, Only-refl dir (str_eq sidecar_tmp) w.nodes, refl)))
        (λ v done. fsync-Ends dir sidecar_tmp (λ t. Unit {0}) v tt)) [
          | inl (r, done, only, fds) ↦ (
            IsConfined-by only (omega (arith, fds)),
            inr (
              bytes,
              d,
              only.kept sidecar_name refl ∙ sidecar,
              only.kept audio_name refl ∙ sound,
            ),
          )
          | inr (e, r, only, fds) ↦ (
            IsConfined-by only fds,
            inr (
              bytes,
              d,
              only.kept sidecar_name refl ∙ sidecar,
              only.kept audio_name refl ∙ sound,
            ),
          )
        ]

  both-Stored :
      (bytes : List ℕ) (w : World)
      → dumped ≡ ok bytes
      → NoFile dir sidecar_name w.nodes
      → FileIs dir audio_name audio w.nodes
      → Stored w ((do atomic_write_bytes dir sidecar_name bytes; fsync_dir) w)
  both-Stored bytes w d missing sound =
      elim (atomic_write_bytes-Ends dir sidecar_name bytes w refl) [
        | inl (r, done, only, fds) ↦ rw r (
            Stored-trans w (atomic_write_bytes dir sidecar_name bytes w).1 _
              (IsConfined-by only (omega (arith, fds)))
              (synced bytes (atomic_write_bytes dir sidecar_name bytes w).1 d done
                (only.kept audio_name refl ∙ sound)))
        | inr (e, r, only, fds) ↦
            rw r (IsConfined-by only fds, inl (refl, only.kept sidecar_name refl ∙ missing))
      ]

  sidecar-Stored :
      (d : Result DiskError (List ℕ)) (w : World)
      → dumped ≡ d
      → NoFile dir sidecar_name w.nodes
      → FileIs dir audio_name audio w.nodes
      → Stored w ((lift d >>= λ bytes. do atomic_write_bytes dir sidecar_name bytes; fsync_dir) w)
  sidecar-Stored (ok bytes) w d missing sound = both-Stored bytes w d missing sound
  sidecar-Stored (err e) w d missing sound =
      (record { others = λ path n. refl; fds = refl }, inl (refl, missing))

  abbrev after_mkdir : W (Unit {0})
  after_mkdir = do
    atomic_write_bytes dir audio_name audio
    bytes ← lift dumped
    atomic_write_bytes dir sidecar_name bytes
    fsync_dir

  audio-Stored : (w : World) → NoFile dir sidecar_name w.nodes → Stored w (after_mkdir w)
  audio-Stored w missing = elim (atomic_write_bytes-Ends dir audio_name audio w refl) [
    | inl (r, done, only, fds) ↦ rw r (
        Stored-trans w (atomic_write_bytes dir audio_name audio w).1 _
          (IsConfined-by only (omega (arith, fds)))
          (sidecar-Stored dumped (atomic_write_bytes dir audio_name audio w).1 refl
            (only.kept sidecar_name refl ∙ missing) done))
    | inr (e, r, only, fds) ↦
        rw r (IsConfined-by only fds, inl (refl, only.kept sidecar_name refl ∙ missing))
  ]

  -- A directory that has been made is new.
  made_dir :
      (w : World)
      → ((mkdir dir w).0 ≡ ok tt)
          × (w.nodes dir ≡ none)
          × IsConfined w (mkdir dir w).1
          × NoFile dir sidecar_name (mkdir dir w).1.nodes
        ⊎ ((e : DiskError) × ((mkdir dir w).0 ≡ err e)
            × ((mkdir dir w).1.nodes ≡ w.nodes)
            × ((mkdir dir w).1.open_fds ≡ w.open_fds))
  unfolding mkdir
  made_dir w = by_fault (next_fault w) refl
    where
      v : World
      v = after_fault w

      Made : Result DiskError (Unit {0}) × World → Type 0
      Made p =
          (p.0 ≡ ok tt)
            × (w.nodes dir ≡ none)
            × IsConfined w p.1
            × NoFile dir sidecar_name p.1.nodes
          ⊎ ((e : DiskError) × (p.0 ≡ err e) × (p.1.nodes ≡ w.nodes) × (p.1.open_fds ≡ w.open_fds))

      at_node : (o : Option Node) → w.nodes dir ≡ o → Made (mkdir_if dir o v)
      at_node none e = inl (
        refl,
        e,
        record {
          others = λ path n. put_ne dir path (directory 0 empty) w.nodes (λ same. n (sym same));
          fds = refl;
        },
        rw (put_self dir (directory 0 empty) w.nodes) refl,
      )
      at_node (some node) e = inr (_, refl, refl, refl)

      by_fault : (f : Fault) → next_fault w ≡ f → Made (attempt_if f (mkdir_now dir) v)
      by_fault fine e = at_node (w.nodes dir) refl
      by_fault (fails m) e = inr (_, refl, refl, refl)
      by_fault (cut_short n m) e = inr (_, refl, refl, refl)

  -- Nothing has changed and the call has raised; or the directory is a new one, without a sidecar or with
  -- a complete pair, and the call has raised if the sidecar is missing.
  abbrev pub WriteState : {A : Type 0} → World → Result DiskError A × World → Type 0
  WriteState w p =
      (is_err p.0 ≡ true) × (p.1.nodes ≡ w.nodes) × (p.1.open_fds ≡ w.open_fds)
      ⊎ (w.nodes dir ≡ none) × IsConfined w p.1 × PairState p

  pub store_pair-WriteState : (w : World) → WriteState w (store_pair dir audio dumped w)
  unfolding store_pair
  store_pair-WriteState w = elim (made_dir w) [
    | inr (e, r, same, fds) ↦ rw r (inl (refl, same, fds))
    | inl (r, new, first, missing) ↦ rw r (
        let (confined, state) =
          Stored-trans w (mkdir dir w).1 (after_mkdir (mkdir dir w).1) first
            (audio-Stored (mkdir dir w).1 missing) in
        inr (new, confined, state))
  ]

  -- A value that is returned behind it changes nothing of this.
  pub WriteState-give :
      {A B : Type 0} (m : W A) (b : B) (w : World)
      → WriteState w (m w)
      → WriteState w ((m >> give b) w)
  WriteState-give {A = A} {B = B} m b w h = go (m w).0 h
    where
      go :
          (r : Result DiskError A)
          → WriteState w (r, (m w).1)
          → WriteState w (go_on (λ a. give b) r (m w).1)
      go (ok a) h = h
      go (err e) h = h

module _ (outside : Outside) (job : JobRecord) (root : String) (translated : Fields)
    (env : Table String) where
  -- How the writing of an artifact can end.
  abbrev pub ArtifactState : World → Result DiskError String × World → Type 0
  ArtifactState w p =
      ((is_err p.0 ≡ true) × (p.1.nodes ≡ w.nodes) × (p.1.open_fds ≡ w.open_fds))
      ⊎ ((dir : String) × (audio : List ℕ) × (sidecar : Fields) × (prepare outside job root
              translated env
            ≡ ok (dir, audio, sidecar))
          × WriteState dir audio (outside.dumps sidecar) w p)

  -- Whatever system call of the writing of an artifact fails, or is the last one before a crash: either the
  -- call has raised and the tree is as it was, or the job's directory is a new one, in which the sidecar is
  -- missing and the call has raised, or the audio and the sidecar are complete. No other path has changed,
  -- and no descriptor stays open.
  pub write_artifact-ArtifactState :
      (w : World) → ArtifactState w (write_artifact outside job root translated env w)
  unfolding write_artifact
  write_artifact-ArtifactState w = elim (Result-cases (prepare outside job root translated env)) [
    | inr (e, p) ↦ rw p (inl (refl, refl, refl))
    | inl ((dir, audio, sidecar), p) ↦ rw p (
        inr (
          dir,
          audio,
          sidecar,
          refl,
          WriteState-give dir audio (outside.dumps sidecar)
              (store_pair dir audio (outside.dumps sidecar)) dir w
              (store_pair-WriteState dir audio (outside.dumps sidecar) w),
        ))
  ]
