-- ===== src/Routes/Files/Served.antt =====
-- What the artifact route answers and sends, and what it keeps open.
use mathlib.Core.List.{append_assoc}
use minimax_music3_webui.Prelude.{
  ℕ, zero, suc, ◌+◌, ◌≤◌, ◌≡◌, ◌⊎◌, inl, inr, refl, ap, ◌∙◌, subst, String, true, some, List, [],
  ◌∷◌, ◌++◌, length, length-drop, take, drop, str_mem, str_eq, arith, if◌then◌else◌,
}
use minimax_music3_webui.Prelude.Table.{Table}
use minimax_music3_webui.Artifacts.Ids.{is_job_id, validate_job_id}
use minimax_music3_webui.Artifacts.Paths.{path_join}
use minimax_music3_webui.Artifacts.Disk.{
  World, Node, directory, Entry, regular, entry_in, Fault, fine, fails, cut_short, next_fault,
  after_fault, tail_faults,
}
use minimax_music3_webui.Artifacts.Writing.{audio_name, sidecar_name}
use minimax_music3_webui.Artifacts.Writing.Returns.{calm}
use minimax_music3_webui.Artifacts.Writing.Calls.{FileIs, entry-IsIn}
use minimax_music3_webui.Artifacts.Crash.{open_member_complete}
use minimax_music3_webui.Artifacts.Serving.{
  servable, open_member, open_pair, open_job_dir_fd, open_regular_member_fd,
}
use minimax_music3_webui.Artifacts.Serving.Members.{IsPair, open_member-Serves}
use minimax_music3_webui.Routes.Body.Bounded.{join, take-append-drop}
use minimax_music3_webui.Routes.Files.{
  Reply, streamed, not_found, media_type_of, get_artifact, chunk_size, send_chunks, stream_fd, sent,
  if_fine,
}

-- What was sent is the beginning of the file.
abbrev pub IsPrefix : List (List ℕ) → List ℕ → Type 0
IsPrefix pieces bytes = (rest : List ℕ) × (join pieces ++ rest ≡ bytes)

if_fine-by :
    {A : Type 0} (Q : A → Type 0) (fault : Fault) (a b : A) → Q a → Q b → Q (if_fine fault a b)
if_fine-by Q fine a b p q = p
if_fine-by Q (fails message) a b p q = q
if_fine-by Q (cut_short n message) a b p q = q

IsPrefix-next :
    (n : ℕ) (bytes : List ℕ) (pieces : List (List ℕ))
    → IsPrefix pieces (drop n bytes)
    → IsPrefix (take n bytes ∷ pieces) bytes
IsPrefix-next n bytes pieces (rest, e) = (
  rest,
  append_assoc (take n bytes) (join pieces) rest
      ∙ ap (λ b. take n bytes ++ b) e
      ∙ take-append-drop n bytes,
)

-- The files and the descriptors are as they were.
abbrev Kept : World → List (List ℕ) × World → Type 0
Kept w s = (s.1.nodes ≡ w.nodes) × (s.1.open_fds ≡ w.open_fds)

send_chunks_lem :
    (size pieces : ℕ) (bytes : List ℕ) (w : World)
    → IsPrefix (send_chunks size pieces bytes w).0 bytes × Kept w (send_chunks size pieces bytes w)
unfolding send_chunks
send_chunks_lem size zero bytes w = ((bytes, refl), (refl, refl))
send_chunks_lem size (suc pieces) [] w = (([], refl), (refl, refl))
send_chunks_lem size (suc pieces) (byte ∷ bytes) w =
    let (is_prefix, kept) =
      send_chunks_lem size pieces (drop size (byte ∷ bytes)) (after_fault w) in
    if_fine-by (λ s. IsPrefix s.0 (byte ∷ bytes) × Kept w s) (next_fault w) _ _
      (
        IsPrefix-next size (byte ∷ bytes)
            (send_chunks size pieces (drop size (byte ∷ bytes)) (after_fault w)).0 is_prefix,
        kept,
      )
      ((byte ∷ bytes, refl), (refl, refl))

-- After a stream that was started, as many descriptors are open as before the request, or nothing was sent,
-- where the descriptor could not be made a file.
abbrev pub Released : World → List (List ℕ) × World → Type 0
Released w s =
    (s.1.nodes ≡ w.nodes)
    × ((s.1.open_fds ≡ w.open_fds) ⊎ ((s.0 ≡ []) × (s.1.open_fds ≡ w.open_fds + 1)))

stream_fd_lem :
    (pieces : ℕ) (bytes : List ℕ) (w u : World)
    → u.nodes ≡ w.nodes
    → u.open_fds ≡ w.open_fds + 1
    → IsPrefix (stream_fd true pieces bytes u).0 bytes × Released w (stream_fd true pieces bytes u)
unfolding stream_fd
stream_fd_lem pieces bytes w u n f =
    let (is_prefix, (same, fds)) = send_chunks_lem chunk_size pieces bytes (after_fault u) in
    if_fine-by (λ s. IsPrefix s.0 bytes × Released w s) (next_fault u) _ _
      (is_prefix, (same ∙ n, inl (omega (arith, fds, f)))) ((bytes, refl), (n, inr (refl, f)))

module _ (repr : String → String) (root job_id name : String) (pieces : ℕ) where
  -- 404 and nothing sent, or a canonical member of a complete pair, with its length and its type, of which a
  -- beginning is sent.
  abbrev pub IsServed : World → Reply × World → Type 0
  IsServed w p =
      ((p.0 ≡ not_found)
        ⊎ ((bytes : List ℕ) × (p.0 ≡ streamed (media_type_of name) (length bytes) bytes)
            × (str_mem name servable ≡ true)
            × (is_job_id job_id ≡ true)
            × IsPair (path_join root job_id) name w.nodes bytes
            × IsPrefix (sent true pieces p.0 p.1).0 bytes))
      × Released w (sent true pieces p.0 p.1)

  -- With an artifacts root, whatever system call fails, and however many pieces the client takes, a request
  -- for an artifact's file is answered with 404, or with the member that it names, with its length and its
  -- type, where the id is a job's and both members are regular files; what is sent then is a beginning of
  -- that member. When a reply whose stream was started is over, no file is changed, and as many
  -- descriptors are open as before, or nothing was sent and the one descriptor is left open.
  pub get_artifact-IsServed : (w : World) → IsServed w (get_artifact repr (some root) job_id name w)
  unfolding get_artifact
  get_artifact-IsServed w = elim (open_member-Serves repr root job_id name w) [
    | inl (message, r, invalid, same) ↦
        rw r (inl refl, (ap (λ v. v.nodes) same, inl (ap (λ v. v.open_fds) same)))
    | inr (inr (r, s)) ↦ rw r (inl refl, (s.nodes, inl (omega (arith, s.fds))))
    | inr (inl (bytes, r, (known, valid, pair), s)) ↦
        let (is_prefix, released) =
          stream_fd_lem pieces bytes w (open_member repr root job_id name w).1 s.nodes
            (omega (arith, s.fds)) in
        rw r (inr (bytes, refl, known, valid, pair, is_prefix), released)
  ]

if_fine-eq : {A : Type 0} (fault : Fault) (a b : A) → fault ≡ fine → if_fine fault a b ≡ a
if_fine-eq fault a b e = ap (λ f. if_fine f a b) e

next_fine : (w : World) → w.faults ≡ [] → next_fault w ≡ fine
next_fine w f = ground arith

send_chunks_complete :
    (size pieces : ℕ) (bytes : List ℕ) (w : World)
    → 1 ≤ size
    → w.faults ≡ []
    → length bytes ≤ pieces
    → join (send_chunks size pieces bytes w).0 ≡ bytes
unfolding send_chunks
send_chunks_complete size zero [] w p f h = refl
send_chunks_complete size zero (byte ∷ bytes) w p f h = absurd (omega (arith, h))
send_chunks_complete size (suc pieces) [] w p f h = refl
send_chunks_complete size (suc pieces) (byte ∷ bytes) w p f h =
    ap (λ (s : List (List ℕ) × World). join s.0)
      (if_fine-eq (next_fault w) _ ([], after_fault w) (next_fine w f))
    ∙ ap (λ b. take size (byte ∷ bytes) ++ b)
        (send_chunks_complete size pieces (drop size (byte ∷ bytes)) (after_fault w) p
          (ap tail_faults f) (omega (arith, h, p, length-drop size (byte ∷ bytes))))
    ∙ take-append-drop size (byte ∷ bytes)

stream_fd_complete :
    (pieces : ℕ) (bytes : List ℕ) (w : World)
    → w.faults ≡ []
    → length bytes ≤ pieces
    → join (stream_fd true pieces bytes w).0 ≡ bytes
unfolding stream_fd
stream_fd_complete pieces bytes w f h =
    ap (λ (s : List (List ℕ) × World). join s.0)
      (if_fine-eq (next_fault w) _ ([], after_fault w) (next_fine w f))
    ∙ send_chunks_complete chunk_size pieces bytes (after_fault w) (omega arith) (ap tail_faults f)
        h

module _ (repr : String → String) (root job_id name : String) (nodes : Table Node)
    (open_fds mtime : ℕ) (entries : Table Entry) (audio sidecar : List ℕ) where
  abbrev member : List ℕ
  member = if str_eq name audio_name then audio else sidecar

  -- A call in which nothing fails leaves no fault for the stream.
  open_member_calm :
      str_mem name servable ≡ true
      → is_job_id job_id ≡ true
      → nodes root ≡ some (directory mtime entries)
      → FileIs (path_join root job_id) audio_name audio nodes
      → FileIs (path_join root job_id) sidecar_name sidecar nodes
      → (open_member repr root job_id name (calm nodes open_fds)).1.faults ≡ []
  unfolding open_member open_pair open_job_dir_fd open_regular_member_fd validate_job_id
  open_member_calm known valid at_root a s =
      let (m, es, e, at_name) =
        entry-IsIn (path_join root job_id) audio_name (calm nodes open_fds) a in
      let b : es sidecar_name ≡ some (regular sidecar) =
        subst (λ n. entry_in n sidecar_name ≡ some (regular sidecar)) e s in
      simp (known, valid, at_root, e, at_name, b) refl

  -- If no system call fails and the client takes all the pieces, then wherever both members are regular files of
  -- the job's directory, the member that is asked for is sent whole, announced with its length and its type.
  pub get_artifact_complete :
      (pieces : ℕ)
      → str_mem name servable ≡ true
      → is_job_id job_id ≡ true
      → nodes root ≡ some (directory mtime entries)
      → FileIs (path_join root job_id) audio_name audio nodes
      → FileIs (path_join root job_id) sidecar_name sidecar nodes
      → length member ≤ pieces
      → ((get_artifact repr (some root) job_id name (calm nodes open_fds)).0
          ≡ streamed (media_type_of name) (length member) member)
        × (join
              (stream_fd true pieces member
                (get_artifact repr (some root) job_id name (calm nodes open_fds)).1).0
            ≡ member)
  unfolding get_artifact
  get_artifact_complete pieces known valid at_root a s all =
      let whole =
        open_member_complete repr root job_id name nodes open_fds mtime entries audio sidecar known
          valid at_root a s in
      (
        rw whole refl,
        stream_fd_complete pieces member
            (get_artifact repr (some root) job_id name (calm nodes open_fds)).1
            (open_member_calm known valid at_root a s) all,
      )
