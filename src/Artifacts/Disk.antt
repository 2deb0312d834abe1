-- ===== src/Artifacts/Disk.antt =====
-- What api/jobs/artifacts.py uses of the file system: each call of `os` but `close` may raise an OSError, which
-- an argument of the model decides, and a crash is a call that raises and that nothing follows.
use minimax_music3_webui.Prelude.{
  ℕ, ◌+◌, ◌-◌, ◌≡◌, refl, String, Option, none, some, List, [], ◌∷◌, take, str_eq, if◌then◌else◌,
}
use minimax_music3_webui.Prelude.Table.{Table, put, empty}
use minimax_music3_webui.Prelude.Result.{Result, ok, err}

-- An entry of a job's directory.
pub data Entry : Type 0 where
  regular : (bytes : List ℕ) → Entry
  symlink special : Entry

-- What a path of the artifacts root names.
pub data Node : Type 0 where
  directory : (mtime : ℕ) (entries : Table Entry) → Node
  not_directory : Node

-- How the next system call goes: as it should, or with an OSError, where a write has stored some bytes.
pub data Fault : Type 0 where
  fine : Fault
  fails : String → Fault
  cut_short : ℕ → String → Fault

pub data DiskError : Type 0 where
  os_error value_error wave_error uncaught : String → DiskError

-- `open_fds` counts the descriptors that are open; no more faults means that all calls go well.
pub record World : Type 0 where
  pub nodes : Table Node
  pub faults : List Fault
  pub open_fds : ℕ

abbrev pub W : Type 0 → Type 0
W A = World → Result DiskError A × World

abbrev pub next_fault : World → Fault
next_fault w = elim w.faults [ [] ↦ fine | fault ∷ rest ↦ fault ]

abbrev pub tail_faults : List Fault → List Fault
tail_faults [] = []
tail_faults (fault ∷ rest) = rest

abbrev pub after_fault : World → World
after_fault w = record w { faults = tail_faults w.faults }

module _ {A : Type 0} where
  abbrev pub give : A → W A
  give a w = (ok a, w)

  abbrev pub fail : DiskError → W A
  fail e w = (err e, w)

  abbrev pub attempt_if : Fault → W A → W A
  attempt_if fine act w = act w
  attempt_if (fails message) act w = (err (os_error message), w)
  attempt_if (cut_short n message) act w = (err (os_error message), w)

  -- One system call: what it does if it goes well.
  abbrev pub attempt : W A → W A
  attempt act w = attempt_if (next_fault w) act (after_fault w)

  -- Code that runs at the end of a `with` or in a `finally`, and only changes the state.
  abbrev pub finally : W A → (World → World) → W A
  finally act cleanup w = ((act w).0, cleanup (act w).1)

abbrev pub go_on : {A B : Type 0} → (A → W B) → Result DiskError A → W B
go_on k (ok a) w = k a w
go_on k (err e) w = (err e, w)

infixl 5 ◌>>=◌ ◌>>◌
abbrev pub ◌>>=◌ : {A B : Type 0} → W A → (A → W B) → W B
◌>>=◌ m k w = go_on k (m w).0 (m w).1

abbrev pub ◌>>◌ : {A B : Type 0} → W A → W B → W B
m >> k = m >>= λ _. k

-- What holds of both ways in which the first part ends holds of the whole.
pub >>=-by :
    {A B : Type 0} (Q : Result DiskError B × World → Type 0) (m : W A) (k : A → W B) (w : World)
    → ((e : DiskError) → (m w).0 ≡ err e → Q (err e, (m w).1))
    → ((a : A) → (m w).0 ≡ ok a → Q (k a (m w).1))
    → Q ((m >>= k) w)
>>=-by {A = A} Q m k w raised went_on = go (m w).0 refl
  where
    go : (r : Result DiskError A) → (m w).0 ≡ r → Q (go_on k r (m w).1)
    go (ok a) e = went_on a e
    go (err x) e = raised x e

-- os.close(fd); that it raises is not modelled.
abbrev pub close : World → World
close w = record w { open_fds = w.open_fds - 1 }

abbrev pub opened : World → World
opened w = record w { open_fds = w.open_fds + 1 }

abbrev pub entry_in : Option Node → String → Option Entry
entry_in (some (directory mtime entries)) name = entries name
entry_in _ name = none

-- The entry of this name in the directory at this path.
abbrev pub entry : World → (path name : String) → Option Entry
entry w path name = entry_in (w.nodes path) name

abbrev pub change_node : (Table Entry → Table Entry) → Node → Node
change_node f (directory mtime entries) = directory mtime (f entries)
change_node f not_directory = not_directory

abbrev pub change_nodes :
    String → (Table Entry → Table Entry) → Option Node → Table Node → Table Node
change_nodes path f none nodes = nodes
change_nodes path f (some node) nodes = put path (change_node f node) nodes

abbrev pub change_dir : String → (Table Entry → Table Entry) → World → World
change_dir path f w = record w { nodes = change_nodes path f (w.nodes path) w.nodes }

abbrev pub drop_entry : String → Table Entry → Table Entry
drop_entry name entries j = if str_eq name j then none else entries j

-- os.mkdir(path). A parent that is missing is one of the faults.
abbrev pub mkdir_if : String → Option Node → W (Unit {0})
mkdir_if path none w = (ok tt, record w { nodes = put path (directory 0 empty) w.nodes })
mkdir_if path (some node) w = (err (os_error "File exists"), w)

abbrev pub mkdir_now : String → W (Unit {0})
mkdir_now path w = mkdir_if path (w.nodes path) w

unfoldable pub mkdir : String → W (Unit {0})
mkdir path = attempt (mkdir_now path)

-- open(path/name, "wb"): a file that is there is emptied. The calls open new names of a new directory; an entry
-- that is no regular file, which the call would follow if it is a link, raises here.
abbrev pub create_over : (path name : String) → Option Entry → W (Unit {0})
create_over path name none w = (ok tt, opened (change_dir path (put name (regular [])) w))
create_over path name (some (regular bytes)) w =
    (ok tt, opened (change_dir path (put name (regular [])) w))
create_over path name (some symlink) w = (err (os_error "Is a symbolic link"), w)
create_over path name (some special) w = (err (os_error "Is a directory"), w)

abbrev pub create_if : (path name : String) → Option Node → W (Unit {0})
create_if path name (some (directory mtime entries)) w = create_over path name (entries name) w
create_if path name _ w = (err (os_error "No such file or directory"), w)

abbrev pub create_now : (path name : String) → W (Unit {0})
create_now path name w = create_if path name (w.nodes path) w

unfoldable pub create : (path name : String) → W (Unit {0})
create path name = attempt (create_now path name)

-- handle.write(data) and handle.flush(), of a file that has just been created.
abbrev pub write_if : Fault → (path name : String) → List ℕ → W (Unit {0})
write_if fine path name content w = (ok tt, change_dir path (put name (regular content)) w)
write_if (fails message) path name content w = (err (os_error message), w)
write_if (cut_short n message) path name content w =
    (err (os_error message), change_dir path (put name (regular (take n content))) w)

unfoldable pub write : (path name : String) → List ℕ → W (Unit {0})
write path name content w = write_if (next_fault w) path name content (after_fault w)

-- os.fsync(fd)
unfoldable pub fsync : W (Unit {0})
fsync = attempt (give tt)

-- os.replace(path/old, path/new)
abbrev pub replace_if : (path old new : String) → Option Entry → W (Unit {0})
replace_if path old new none w = (err (os_error "No such file or directory"), w)
replace_if path old new (some found) w =
    (ok tt, change_dir path (λ entries. drop_entry old (put new found entries)) w)

abbrev pub replace_now : (path old new : String) → W (Unit {0})
replace_now path old new w = replace_if path old new (entry w path old) w

unfoldable pub replace : (path old new : String) → W (Unit {0})
replace path old new = attempt (replace_now path old new)

-- `with open(…): body`, or `os.open` with `os.close` in a `finally`.
abbrev pub with_open : W (Unit {0}) → W (Unit {0}) → W (Unit {0})
with_open enter body = do enter; finally body close
