-- ===== src/Artifacts/Writing/Calls.antt =====
-- What the system calls of an atomic write change in the directory that they work in.
use minimax_music3_webui.Prelude.{
  ℕ, ◌+◌, ◌≡◌, ◌≢◌, ◌⊎◌, inl, inr, refl, sym, ◌∙◌, String, Bool, false, Option, none, some, List,
  [], take, ◌||◌, str_eq, arith,
}
use minimax_music3_webui.Prelude.Table.{Table, put, put_self, put_ne, str_eq_self}
use minimax_music3_webui.Prelude.Result.{Result, ok, err}
use minimax_music3_webui.Artifacts.Disk.{
  DiskError, os_error, create_now, create_if, create_over, replace_now, write_if, attempt_if, give,
  Node, directory, not_directory, Entry, regular, symlink, special, Fault, fine, fails, cut_short,
  World, W, next_fault, after_fault, attempt, opened, entry, entry_in, change_nodes, change_node,
  change_dir, drop_entry, create, write, fsync, replace,
}

-- From the one state to the other nothing has changed but, in the directory, what has one of the names.
pub record Only (dir : String) (names : String → Bool) (t t' : Table Node) : Type 0 where
  pub others : (path : String) → path ≢ dir → t' path ≡ t path
  pub kept : (name : String) → names name ≡ false → entry_in (t' dir) name ≡ entry_in (t dir) name

module _ (dir : String) (names : String → Bool) where
  pub Only-refl : (t : Table Node) → Only dir names t t
  Only-refl t = record { others = λ path n. refl; kept = λ name n. refl }

  pub Only-trans :
      {t u v : Table Node} → Only dir names t u → Only dir names u v → Only dir names t v
  Only-trans p q = record {
    others = λ path n. q.others path n ∙ p.others path n;
    kept = λ name n. q.kept name n ∙ p.kept name n;
  }

  pub Only-more :
      {t t' : Table Node} (more : String → Bool)
      → ((name : String) → more name ≡ false → names name ≡ false)
      → Only dir names t t'
      → Only dir more t t'
  Only-more more sub p = record { others = p.others; kept = λ name n. p.kept name (sub name n) }

  -- A change of the directory's entries that leaves those of other names.
  pub Only-change :
      (f : Table Entry → Table Entry) (t : Table Node)
      → ((entries : Table Entry) (name : String)
          → names name ≡ false
          → f entries name ≡ entries name)
      → Only dir names t (change_nodes dir f (t dir) t)
  Only-change f t h = go (t dir) refl
    where
      changed_in :
          (node : Node) (name : String)
          → names name ≡ false
          → entry_in (some (change_node f node)) name ≡ entry_in (some node) name
      changed_in (directory mtime entries) name n = h entries name n
      changed_in not_directory name n = refl

      go : (o : Option Node) → t dir ≡ o → Only dir names t (change_nodes dir f o t)
      go none e = Only-refl t
      go (some node) e = record {
        others = λ path n. put_ne dir path (change_node f node) t (λ same. n (sym same));
        kept = λ name n. rw (put_self dir (change_node f node) t, e) (changed_in node name n);
      }

-- The entries of the directory after a change.
pub entry-change_dir :
    (dir : String) (f : Table Entry → Table Entry) (w : World) {mtime : ℕ} {entries : Table Entry}
    → w.nodes dir ≡ some (directory mtime entries)
    → (change_dir dir f w).nodes dir ≡ some (directory mtime (f entries))
entry-change_dir dir f w {mtime = mtime} {entries = entries} e =
    rw e (put_self dir (directory mtime (f entries)) w.nodes)

-- An entry stands in a directory.
pub entry-IsIn :
    (dir name : String) (w : World) {found : Entry}
    → entry w dir name ≡ some found
    → (mtime : ℕ) × (entries : Table Entry) × (w.nodes dir ≡ some (directory mtime entries))
      × (entries name ≡ some found)
entry-IsIn dir name w {found = found} e = go (w.nodes dir) refl e
  where
    go :
        (o : Option Node)
        → w.nodes dir ≡ o
        → entry_in o name ≡ some found
        → (mtime : ℕ) × (entries : Table Entry) × (w.nodes dir ≡ some (directory mtime entries))
          × (entries name ≡ some found)
    go none e f = absurd cc
    go (some not_directory) e f = absurd cc
    go (some (directory mtime entries)) e f = (mtime, entries, e, f)

-- How a part of the writing of a file ends: it has returned, with a property of the tree, something
-- changed under the given names and some descriptors more open; or it has raised, and only the temporary
-- file may have changed.
abbrev pub Ends :
    (dir tmp : String) (names : String → Bool) (gain : ℕ) (Done : Table Node → Type 0) (w : World)
    → Result DiskError (Unit {0}) × World
    → Type 0
Ends dir tmp names gain Done w (r, w') =
    ((r ≡ ok tt)
      × Done w'.nodes
      × Only dir names w.nodes w'.nodes
      × (w'.open_fds ≡ w.open_fds + gain))
    ⊎ ((e : DiskError) × (r ≡ err e)
        × Only dir (str_eq tmp) w.nodes w'.nodes
        × (w'.open_fds ≡ w.open_fds))

abbrev pub FileIs : (dir name : String) → List ℕ → Table Node → Type 0
FileIs dir name content t = entry_in (t dir) name ≡ some (regular content)

module _ (dir tmp : String) where
  module _ (names : String → Bool) (gain : ℕ) (Done : Table Node → Type 0) where
    pub raised-Ends : (e : DiskError) (w : World) → Ends dir tmp names gain Done w (err e, w)
    raised-Ends e w = inr (e, refl, Only-refl dir (str_eq tmp) w.nodes, refl)

    pub attempt-Ends :
        (act : W (Unit {0})) (w : World)
        → Ends dir tmp names gain Done (after_fault w) (act (after_fault w))
        → Ends dir tmp names gain Done w (attempt act w)
    attempt-Ends act w h = go (next_fault w)
      where
        go : (f : Fault) → Ends dir tmp names gain Done w (attempt_if f act (after_fault w))
        go fine = h
        go (fails m) = raised-Ends (os_error m) (after_fault w)
        go (cut_short n m) = raised-Ends (os_error m) (after_fault w)

  put-FileIs :
      (content : List ℕ) (w : World) {mtime : ℕ} {entries : Table Entry}
      → w.nodes dir ≡ some (directory mtime entries)
      → FileIs dir tmp content (change_dir dir (put tmp (regular content)) w).nodes
  put-FileIs content w {entries = entries} e =
      rw (entry-change_dir dir (put tmp (regular content)) w e)
        (put_self tmp (regular content) entries)

  put-Only :
      (content : List ℕ) (w : World)
      → Only dir (str_eq tmp) w.nodes (change_dir dir (put tmp (regular content)) w).nodes
  put-Only content w =
      Only-change dir (str_eq tmp) (put tmp (regular content)) w.nodes (λ entries name n. rw n refl)

  pub create-Ends :
      (w : World) → Ends dir tmp (str_eq tmp) 1 (FileIs dir tmp []) w (create dir tmp w)
  unfolding create
  create-Ends w =
      attempt-Ends (str_eq tmp) 1 (FileIs dir tmp []) (create_now dir tmp) w
        (at_node (w.nodes dir) refl)
    where
      v : World
      v = after_fault w

      Made : Result DiskError (Unit {0}) × World → Type 0
      Made = Ends dir tmp (str_eq tmp) 1 (FileIs dir tmp []) v

      made :
          {mtime : ℕ} {entries : Table Entry}
          → w.nodes dir ≡ some (directory mtime entries)
          → Made (ok tt, opened (change_dir dir (put tmp (regular [])) v))
      made e = inl (refl, put-FileIs [] v e, put-Only [] v, refl)

      no : (e : DiskError) → Made (err e, v)
      no e = raised-Ends (str_eq tmp) 1 (FileIs dir tmp []) e v

      over :
          {mtime : ℕ} {entries : Table Entry} (o : Option Entry)
          → w.nodes dir ≡ some (directory mtime entries)
          → Made (create_over dir tmp o v)
      over none e = made e
      over (some (regular bytes)) e = made e
      over (some symlink) e = no _
      over (some special) e = no _

      at_node : (o : Option Node) → w.nodes dir ≡ o → Made (create_if dir tmp o v)
      at_node none e = no _
      at_node (some not_directory) e = no _
      at_node (some (directory mtime entries)) e = over (entries tmp) e

  pub write-Ends :
      (content : List ℕ) (w : World) {found : Entry}
      → entry w dir tmp ≡ some found
      → Ends dir tmp (str_eq tmp) 0 (FileIs dir tmp content) w (write dir tmp content w)
  unfolding write
  write-Ends content w there = go (next_fault w)
    where
      v : World
      v = after_fault w

      go :
          (f : Fault)
          → Ends dir tmp (str_eq tmp) 0 (FileIs dir tmp content) w (write_if f dir tmp content v)
      go fine =
          let (mtime, entries, e, at_name) = entry-IsIn dir tmp w there in
          inl (refl, put-FileIs content v e, put-Only content v, omega arith)
      go (fails m) = raised-Ends (str_eq tmp) 0 (FileIs dir tmp content) (os_error m) v
      go (cut_short n m) = inr (os_error m, refl, put-Only (take n content) v, refl)

  pub fsync-Ends :
      (Done : Table Node → Type 0) (w : World)
      → Done w.nodes
      → Ends dir tmp (str_eq tmp) 0 Done w (fsync w)
  unfolding fsync
  fsync-Ends Done w h =
      attempt-Ends (str_eq tmp) 0 Done (give tt) w
        (inl (refl, h, Only-refl dir (str_eq tmp) w.nodes, omega arith))

  abbrev pub pair : String → String → Bool
  pair name n = str_eq tmp n || str_eq name n

  pub replace-Ends :
      (name : String) (content : List ℕ) (w : World)
      → str_eq tmp name ≡ false
      → FileIs dir tmp content w.nodes
      → Ends dir tmp (pair name) 0 (FileIs dir name content) w (replace dir tmp name w)
  unfolding replace
  replace-Ends name content w ne there =
      attempt-Ends (pair name) 0 (FileIs dir name content) (replace_now dir tmp name) w
        (rw there (inl (refl, moved, Only-change dir (pair name) step w.nodes same, omega arith)))
    where
      step : Table Entry → Table Entry
      step entries = drop_entry tmp (put name (regular content) entries)

      same : (entries : Table Entry) (n : String) → pair name n ≡ false → step entries n ≡ entries n
      same entries n h = ground arith

      moved : FileIs dir name content (change_dir dir step (after_fault w)).nodes
      moved =
          let (mtime, entries, e, at_name) = entry-IsIn dir tmp w there in
          rw (entry-change_dir dir step (after_fault w) e, ne, str_eq_self name) refl
