-- ===== src/Artifacts/Writing/Atomic.antt =====
-- How `_atomic_write_bytes` ends, from how its system calls end.
use minimax_music3_webui.Prelude.{
  ℕ, ◌≡◌, inl, inr, refl, String, Bool, false, List, [], str_eq, arith, ◌&◌,
}
use minimax_music3_webui.Prelude.Table.{Table}
use minimax_music3_webui.Prelude.Result.{Result}
use minimax_music3_webui.Artifacts.Disk.{
  DiskError, Node, World, W, close, with_open, create, write, fsync, replace, ◌>>◌,
}
use minimax_music3_webui.Artifacts.Writing.{atomic_write_bytes}
use minimax_music3_webui.Artifacts.Writing.Calls.{
  Only-trans, Only-more, Ends, FileIs, create-Ends, write-Ends, fsync-Ends, replace-Ends, pair,
}

module _ (dir tmp : String) where
  abbrev pub Scratch :
      ℕ → (Table Node → Type 0) → World → Result DiskError (Unit {0}) × World → Type 0
  Scratch = Ends dir tmp (str_eq tmp)

  then-Ends :
      (names : String → Bool) (sub : (n : String) → names n ≡ false → str_eq tmp n ≡ false)
      (Done After : Table Node → Type 0) (m k : W (Unit {0})) (w : World)
      → Scratch 0 Done w (m w)
      → ((v : World) → Done v.nodes → Ends dir tmp names 0 After v (k v))
      → Ends dir tmp names 0 After w ((m >> k) w)
  then-Ends names sub Done After m k w (inr (e, raised, only, fds)) next =
      rw raised (inr (e, refl, only, fds))
  then-Ends names sub Done After m k w (inl (returned, done, only, fds)) next =
      rw returned (go (next (m w).1 done))
    where
      v : World
      v = (m w).1

      go : Ends dir tmp names 0 After v (k v) → Ends dir tmp names 0 After w (k v)
      go (inl (r, done', only', fds')) = inl (
        r,
        done',
        Only-trans dir names (Only-more dir (str_eq tmp) names sub only) only',
        omega arith,
      )
      go (inr (e, r, only', fds')) = inr (e, r, Only-trans dir (str_eq tmp) only only', omega arith)

  -- The file is closed whether the body returned or raised.
  pub with_open-Ends :
      (Done After : Table Node → Type 0) (enter body : W (Unit {0})) (w : World)
      → Scratch 1 Done w (enter w)
      → ((v : World) → Done v.nodes → Scratch 0 After v (body v))
      → Scratch 0 After w (with_open enter body w)
  with_open-Ends Done After enter body w (inr (e, raised, only, fds)) next =
      rw raised (inr (e, refl, only, fds))
  with_open-Ends Done After enter body w (inl (returned, done, only, fds)) next =
      rw returned (go (next (enter w).1 done))
    where
      v : World
      v = (enter w).1

      go : Scratch 0 After v (body v) → Scratch 0 After w ((body v).0, close (body v).1)
      go (inl (r, done', only', fds')) =
          inl (r, done', Only-trans dir (str_eq tmp) only only', omega arith)
      go (inr (e, r, only', fds')) = inr (e, r, Only-trans dir (str_eq tmp) only only', omega arith)

module _ (dir name : String) (content : List ℕ) where
  abbrev tmp_of : String
  tmp_of = name & ".tmp"

  -- An atomic write either leaves the whole file, or raises and leaves its name as it was.
  pub atomic_write_bytes-Ends :
      (w : World)
      → str_eq tmp_of name ≡ false
      → Ends dir tmp_of
          (pair dir tmp_of name)
          0
          (FileIs dir name content)
          w
          (atomic_write_bytes dir name content w)
  unfolding atomic_write_bytes
  atomic_write_bytes-Ends w ne =
      then-Ends dir tmp_of (pair dir tmp_of name) (λ n h. ground arith) (FileIs dir tmp_of content)
        (FileIs dir name content)
        (with_open (create dir tmp_of) (do write dir tmp_of content; fsync))
        (replace dir tmp_of name) w
        (with_open-Ends dir tmp_of (FileIs dir tmp_of []) (FileIs dir tmp_of content)
          (create dir tmp_of) (do write dir tmp_of content; fsync) w (create-Ends dir tmp_of w)
          (λ v made.
            then-Ends dir tmp_of (str_eq tmp_of) (λ n h. h) (FileIs dir tmp_of content)
              (FileIs dir tmp_of content) (write dir tmp_of content) fsync v
              (write-Ends dir tmp_of content v made)
              (λ u there. fsync-Ends dir tmp_of (FileIs dir tmp_of content) u there)))
        (λ v there. replace-Ends dir tmp_of name content v ne there)
