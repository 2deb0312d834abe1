-- ===== src/Artifacts/Listing/Leaving.antt =====
-- Code that leaves the files and the open descriptors as they were: the search for candidates.
use minimax_music3_webui.Prelude.{
  ℕ, ◌≡◌, ◌⊎◌, inl, inr, refl, ◌∙◌, String, Option, none, some, List, [], ◌∷◌, Bool-cases,
}
use minimax_music3_webui.Prelude.Result.{Result, ok, err}
use minimax_music3_webui.Artifacts.Ids.{is_job_id}
use minimax_music3_webui.Artifacts.Paths.{path_join}
use minimax_music3_webui.Artifacts.Disk.{
  DiskError, os_error, Fault, fine, fails, cut_short, World, W, give, attempt_if, next_fault,
  after_fault, go_on, ◌>>=◌,
}
use minimax_music3_webui.Artifacts.Listing.{mtime_if, add_candidate, candidates}

-- The tree and the number of open descriptors are as before; a value that is returned is good.
pub record Leaves {A : Type 0} (Good : A → Type 0) (w : World) (p : Result DiskError A × World)
    : Type 0 where
  pub nodes : p.1.nodes ≡ w.nodes
  pub fds : p.1.open_fds ≡ w.open_fds
  pub good : ((e : DiskError) × (p.0 ≡ err e)) ⊎ ((a : A) × (p.0 ≡ ok a) × Good a)

module _ {A : Type 0} (Good : A → Type 0) where
  pub Leaves-after :
      (w v : World) (p : Result DiskError A × World)
      → v.nodes ≡ w.nodes
      → v.open_fds ≡ w.open_fds
      → Leaves Good v p
      → Leaves Good w p
  Leaves-after w v p n f l = record { nodes = l.nodes ∙ n; fds = l.fds ∙ f; good = l.good }

  pub Leaves-map :
      (Other : A → Type 0)
      → ((a : A) → Good a → Other a)
      → (w : World) (p : Result DiskError A × World) → Leaves Good w p
      → Leaves Other w p
  Leaves-map Other h w p l = elim (l.good) [
    | inl fault ↦ record { nodes = l.nodes; fds = l.fds; good = inl fault }
    | inr (a, r, g) ↦ record { nodes = l.nodes; fds = l.fds; good = inr (a, r, h a g) }
  ]

  pub Leaves-err :
      (e : DiskError) (w v : World)
      → v.nodes ≡ w.nodes
      → v.open_fds ≡ w.open_fds
      → Leaves Good w (err e, v)
  Leaves-err e w v n f = record { nodes = n; fds = f; good = inl (e, refl) }

  pub Leaves-give :
      {B : Type 0} (Other : B → Type 0) (f : A → B) (rest : W A) (w v : World)
      → ((a : A) → Good a → Other (f a))
      → v.nodes ≡ w.nodes
      → v.open_fds ≡ w.open_fds
      → Leaves Good v (rest v)
      → Leaves Other w ((do a ← rest; give (f a)) v)
  Leaves-give Other f rest w v h n fds l = elim (l.good) [
    | inl (e, r) ↦ rw r (record { nodes = l.nodes ∙ n; fds = l.fds ∙ fds; good = inl (e, refl) })
    | inr (a, r, g) ↦
        rw r (record { nodes = l.nodes ∙ n; fds = l.fds ∙ fds; good = inr (f a, refl, h a g) })
  ]

abbrev pub Any : {A : Type 0} → A → Type 0
Any a = Unit {0}

pub add_candidate-Leaves :
    (name : String) (rest : W (List (ℕ × String))) (o : Option ℕ) (w : World)
    → ((v : World) → Leaves Any v (rest v))
    → Leaves Any w (add_candidate name rest o w)
add_candidate-Leaves name rest none w h = h w
add_candidate-Leaves name rest (some mtime) w h = elim (Bool-cases (is_job_id name)) [
  | inr e ↦ rw e (h w)
  | inl e ↦ rw e (stat (next_fault w))
]
  where
    v : World
    v = after_fault w

    more : W (List (ℕ × String))
    more = do others ← rest; give ((mtime, name) ∷ others)

    stat :
        (f : Fault)
        → Leaves Any w (go_on (λ _. more) (attempt_if f (give tt) v).0 (attempt_if f (give tt) v).1)
    stat fine =
        Leaves-give Any Any (λ others. (mtime, name) ∷ others) rest w v (λ a g. tt) refl refl (h v)
    stat (fails m) = Leaves-err Any (os_error m) w v refl refl
    stat (cut_short n m) = Leaves-err Any (os_error m) w v refl refl

pub candidates-Leaves :
    (root : String) (names : List String) (w : World) → Leaves Any w (candidates root names w)
unfolding candidates
candidates-Leaves root [] w = record { nodes = refl; fds = refl; good = inr ([], refl, tt) }
candidates-Leaves root (name ∷ names) w =
    add_candidate-Leaves name (candidates root names) (mtime_if (w.nodes (path_join root name))) w
      (candidates-Leaves root names)
