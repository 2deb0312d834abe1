-- ===== src/Artifacts/Serving/Probes.antt =====
-- What the calls of `open_member` that open something find, and how many descriptors they leave open.
use minimax_music3_webui.Prelude.{
  ℕ, ◌+◌, ◌≡◌, ◌⊎◌, inl, inr, refl, ◌∙◌, String, Option, none, some, List, arith,
}
use minimax_music3_webui.Prelude.Table.{Table}
use minimax_music3_webui.Prelude.Result.{Result, ok}
use minimax_music3_webui.Artifacts.Disk.{
  DiskError, Node, directory, not_directory, Entry, regular, symlink, special, Fault, fine, fails,
  cut_short, World, W, give, attempt, attempt_if, next_fault, after_fault, close, entry, entry_in,
  go_on, ◌>>=◌,
}
use minimax_music3_webui.Artifacts.Writing.Calls.{FileIs}
use minimax_music3_webui.Artifacts.Serving.{
  try_os, open_directory, directory_if, directory_now, entry_if, entry_now, open_entry,
  keep_regular, fstat, open_regular_member_fd,
}

-- The tree is unchanged, and either nothing was found and as many descriptors are open as before, or
-- something that is good was found and one more is open.
pub record Same (gain : ℕ) (w w' : World) : Type 0 where
  pub nodes : w'.nodes ≡ w.nodes
  pub fds : w'.open_fds ≡ w.open_fds + gain

abbrev pub Probes :
    {A : Type 0} → (Table Node → A → Type 0) → World → Result DiskError (Option A) × World → Type 0
Probes {A = A} Good w p =
    ((a : A) × (p.0 ≡ ok (some a)) × Good w.nodes a × Same 1 w p.1)
    ⊎ ((p.0 ≡ ok none) × Same 0 w p.1)

pub same : (w : World) → Same 0 w (after_fault w)
same w = record { nodes = refl; fds = omega arith }

pub Same-trans : (i j k : ℕ) {u v w : World} → k ≡ i + j → Same i u v → Same j v w → Same k u w
Same-trans i j k e p q = record { nodes = q.nodes ∙ p.nodes; fds = omega (arith, p.fds, q.fds, e) }

module _ {A : Type 0} (Good : Table Node → A → Type 0) where
  -- One system call that opens something.
  pub attempt-Probes :
      (act : W A) (w : World)
      → Probes Good (after_fault w) (try_os act (after_fault w))
      → Probes Good w (try_os (attempt act) w)
  attempt-Probes act w h = go (next_fault w) h
    where
      widen :
          Probes Good (after_fault w) (try_os act (after_fault w))
          → Probes Good w (try_os act (after_fault w))
      widen (inl (a, r, good, s)) = inl (a, r, good, record { nodes = s.nodes; fds = s.fds })
      widen (inr (r, s)) = inr (r, record { nodes = s.nodes; fds = s.fds })

      go :
          (f : Fault)
          → Probes Good (after_fault w) (try_os act (after_fault w))
          → Probes Good w (try_os (attempt_if f act) (after_fault w))
      go fine h = widen h
      go (fails m) h = inr (refl, same w)
      go (cut_short n m) h = inr (refl, same w)

abbrev pub IsDirectory : String → Table Node → String → Type 0
IsDirectory path nodes fd = fd ≡ path

pub open_directory-Probes :
    (path : String) (w : World) → Probes (IsDirectory path) w (try_os (open_directory path) w)
open_directory-Probes path w =
    attempt-Probes (IsDirectory path) (directory_now path) w (go (w.nodes path))
  where
    v : World
    v = after_fault w

    go : (o : Option Node) → Probes (IsDirectory path) v (try_os (directory_if path o) v)
    go none = inr (refl, record { nodes = refl; fds = omega arith })
    go (some not_directory) = inr (refl, record { nodes = refl; fds = omega arith })
    go (some (directory mtime entries)) =
        inl (path, refl, refl, record { nodes = refl; fds = refl })

abbrev pub IsEntry : (dir name : String) → Table Node → Entry → Type 0
IsEntry dir name nodes file = entry_in (nodes dir) name ≡ some file

pub open_entry-Probes :
    (dir name : String) (w : World) → Probes (IsEntry dir name) w (try_os (open_entry dir name) w)
open_entry-Probes dir name w =
    attempt-Probes (IsEntry dir name) (entry_now dir name) w (go (entry w dir name) refl)
  where
    v : World
    v = after_fault w

    go :
        (o : Option Entry)
        → entry w dir name ≡ o
        → Probes (IsEntry dir name) v (try_os (entry_if o) v)
    go none e = inr (refl, record { nodes = refl; fds = omega arith })
    go (some symlink) e = inr (refl, record { nodes = refl; fds = omega arith })
    go (some special) e = inl (special, refl, e, record { nodes = refl; fds = refl })
    go (some (regular bytes)) e = inl (regular bytes, refl, e, record { nodes = refl; fds = refl })

abbrev pub IsFile : (dir name : String) → Table Node → List ℕ → Type 0
IsFile dir name nodes bytes = FileIs dir name bytes nodes

-- The descriptor of a file that is open already is kept exactly if the file is a regular one.
pub kept-Probes :
    (dir name : String) (file : Entry) (w v : World)
    → IsEntry dir name w.nodes file
    → Same 1 w v
    → Probes (IsFile dir name) w ((do info ← try_os fstat; keep_regular file info) v)
kept-Probes dir name file w v good s = go file (next_fault v) good
  where
    u : World
    u = after_fault v

    closed : Same 0 w (close u)
    closed = record { nodes = s.nodes; fds = omega (arith, s.fds) }

    go :
        (file : Entry) (f : Fault)
        → IsEntry dir name w.nodes file
        → Probes (IsFile dir name) w (
            go_on
              (keep_regular file)
              (try_os (attempt_if f (give tt)) u).0
              (try_os (attempt_if f (give tt)) u).1)
    go (regular bytes) fine good = inl (bytes, refl, good, record { nodes = s.nodes; fds = s.fds })
    go (regular bytes) (fails m) good = inr (refl, closed)
    go (regular bytes) (cut_short n m) good = inr (refl, closed)
    go symlink fine good = inr (refl, closed)
    go symlink (fails m) good = inr (refl, closed)
    go symlink (cut_short n m) good = inr (refl, closed)
    go special fine good = inr (refl, closed)
    go special (fails m) good = inr (refl, closed)
    go special (cut_short n m) good = inr (refl, closed)

pub open_regular-Probes :
    (dir name : String) (w : World) → Probes (IsFile dir name) w (open_regular_member_fd dir name w)
unfolding open_regular_member_fd
open_regular-Probes dir name w = elim (open_entry-Probes dir name w) [
  | inr (r, s) ↦ rw r (inr (refl, s))
  | inl (file, r, good, s) ↦ rw r (kept-Probes dir name file w (open_entry dir name w).1 good s)
]
