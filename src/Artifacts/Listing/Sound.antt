-- ===== src/Artifacts/Listing/Sound.antt =====
-- What `scan_listing` returns, in which order, and which descriptors it leaves open.
use minimax_music3_webui.Prelude.{
  ℕ, ◌-◌, ◌≤◌, ◌≡◌, inl, inr, refl, ◌∙◌, ap, subst, String, true, Option, none, some, List, [], ◌∷◌,
  str_mem, arith,
}
use minimax_music3_webui.Prelude.Table.{Table}
use minimax_music3_webui.Prelude.Result.{Result, Result-cases}
use minimax_music3_webui.Json.{Fields, Value, str, int, float, bool, obj, arr, null}
use minimax_music3_webui.Artifacts.Ids.{is_job_id}
use minimax_music3_webui.Artifacts.Paths.{path_join}
use minimax_music3_webui.Artifacts.Disk.{
  DiskError, value_error, Node, Fault, fine, fails, cut_short, World, give, attempt_if, next_fault,
  after_fault, finally, close, go_on,
}
use minimax_music3_webui.Artifacts.Writing.{sidecar_name}
use minimax_music3_webui.Artifacts.Serving.{servable, try_os, open_member}
use minimax_music3_webui.Artifacts.Serving.Members.{IsPair, open_member-Serves}
use minimax_music3_webui.Artifacts.Serving.Probes.{Same}
use minimax_music3_webui.Artifacts.Listing.{
  Listed, summary_of, listing_summary, candidates, sort, listed, list_opened, list_candidates,
  scan_listing,
}
use minimax_music3_webui.Artifacts.Listing.Order.{Below, Sorted, sort-Sorted}
use minimax_music3_webui.Artifacts.Listing.Leaving.{
  Leaves, candidates-Leaves, Leaves-after, Leaves-map, Leaves-err, Leaves-give,
}

-- The listing runs from the newest to the oldest.
abbrev pub AtMost : ℕ → List Listed → Type 0
AtMost m [] = Unit {0}
AtMost m (l ∷ ls) = (l.mtime ≤ m) × AtMost m ls

abbrev pub NewestFirst : List Listed → Type 0
NewestFirst [] = Unit {0}
NewestFirst (l ∷ ls) = AtMost l.mtime ls × NewestFirst ls

-- Each entry names a job whose two members are regular files.
abbrev pub AllServed : (root : String) → Table Node → List Listed → Type 0
AllServed root nodes [] = Unit {0}
AllServed root nodes (l ∷ ls) =
    ((is_job_id l.job_id ≡ true)
      × (bytes : List ℕ) × IsPair (path_join root l.job_id) sidecar_name nodes bytes)
    × AllServed root nodes ls

-- The descriptor of the sidecar is closed, whatever the file holds.
record IsClosed (w : World) (p : Result DiskError Fields × World) : Type 0 where
  nodes : p.1.nodes ≡ w.nodes
  fds : p.1.open_fds ≡ w.open_fds - 1

listing_summary-IsClosed :
    (load : List ℕ → Option Value) (bytes : List ℕ) (w : World)
    → IsClosed w (listing_summary load bytes w)
unfolding listing_summary
listing_summary-IsClosed load bytes w = go (next_fault w)
  where
    v : World
    v = after_fault w

    end_of : (read : Option (Option Value)) → IsClosed w (summary_of read (close v))
    end_of none = record { nodes = refl; fds = refl }
    end_of (some none) = record { nodes = refl; fds = refl }
    end_of (some (some (obj d))) = record { nodes = refl; fds = refl }
    end_of (some (some (str s))) = record { nodes = refl; fds = refl }
    end_of (some (some (int z))) = record { nodes = refl; fds = refl }
    end_of (some (some (float x))) = record { nodes = refl; fds = refl }
    end_of (some (some (bool b))) = record { nodes = refl; fds = refl }
    end_of (some (some (arr a))) = record { nodes = refl; fds = refl }
    end_of (some (some null)) = record { nodes = refl; fds = refl }

    go :
        (f : Fault)
        → IsClosed w (
            go_on summary_of
              (finally (try_os (attempt_if f (give (load bytes)))) close v).0
              (finally (try_os (attempt_if f (give (load bytes)))) close v).1)
    go fine = end_of (some (load bytes))
    go (fails m) = end_of none
    go (cut_short n m) = end_of none

module _ (repr : String → String) (load : List ℕ → Option Value) (root : String)
    (nodes : Table Node) where
  -- A listing made of these candidates.
  abbrev IsListing : List (ℕ × String) → List Listed → Type 0
  IsListing cs ls = ((m : ℕ) → Below m cs → AtMost m ls) × NewestFirst ls × AllServed root nodes ls

  -- A candidate that is not listed, and one that is.
  IsListing-skip :
      (c : ℕ × String) (cs : List (ℕ × String)) (ls : List Listed)
      → IsListing cs ls
      → IsListing (c ∷ cs) ls
  IsListing-skip c cs ls (below, first, all) = ((λ m b. below m b.1), first, all)

  IsListing-add :
      (c : ℕ × String) (cs : List (ℕ × String)) (summary : Fields) (bytes : List ℕ)
      → Below c.0 cs
      → is_job_id c.1 ≡ true
      → IsPair (path_join root c.1) sidecar_name nodes bytes
      → (ls : List Listed) → IsListing cs ls
      → IsListing (c ∷ cs) (listed c summary ∷ ls)
  IsListing-add c cs summary bytes b valid pair ls (below, first, all) =
      ((λ m h. (h.0, below m h.1)), (below c.0 b, first), ((valid, bytes, pair), all))

  list_candidates-Leaves :
      (cs : List (ℕ × String)) (w : World)
      → Sorted cs
      → w.nodes ≡ nodes
      → Leaves (IsListing cs) w (list_candidates repr load root cs w)
  unfolding list_candidates
  list_candidates-Leaves [] w s n = record {
    nodes = refl;
    fds = refl;
    good = inr ([], refl, ((λ m b. tt), tt, tt));
  }
  list_candidates-Leaves (c ∷ cs) w (b, s) n =
      elim (open_member-Serves repr root c.1 sidecar_name w) [
        | inl (m, r, invalid, same) ↦ rw r (
            Leaves-err (IsListing (c ∷ cs)) (value_error m) w u (ap (λ w. w.nodes) same)
              (ap (λ w. w.open_fds) same))
        | inr (inr (r, same)) ↦ rw r (
            Leaves-map (IsListing cs) (IsListing (c ∷ cs)) (IsListing-skip c cs) w _ (
              Leaves-after (IsListing cs) w u _ same.nodes (omega (arith, same.fds))
                (list_candidates-Leaves cs u s (same.nodes ∙ n))))
        | inr (inl (bytes, r, good, same)) ↦
            rw r (add bytes good same (λ v m. list_candidates-Leaves cs v s m))
      ]
    where
      u : World
      u = (open_member repr root c.1 sidecar_name w).1

      add :
          (bytes : List ℕ)
          → (str_mem sidecar_name servable ≡ true)
            × (is_job_id c.1 ≡ true)
            × IsPair (path_join root c.1) sidecar_name w.nodes bytes
          → Same 1 w u
          → ((v : World)
              → v.nodes ≡ nodes
              → Leaves (IsListing cs) v (list_candidates repr load root cs v))
          → Leaves
              (IsListing (c ∷ cs))
              w
              (list_opened repr load root c (list_candidates repr load root cs) (some bytes) u)
      add bytes (known, valid, pair) same rest =
          let closed = listing_summary-IsClosed load bytes u in
          let v = (listing_summary load bytes u).1 in
          elim (Result-cases (listing_summary load bytes u).0) [
            | inr (e, r) ↦ rw r (
                Leaves-err (IsListing (c ∷ cs)) e w v (closed.nodes ∙ same.nodes)
                  (omega (arith, closed.fds, same.fds)))
            | inl (summary, r) ↦ rw r (
                Leaves-give (IsListing cs) (IsListing (c ∷ cs)) (λ ls. listed c summary ∷ ls)
                  (list_candidates repr load root cs) w v
                  (IsListing-add c cs summary bytes b valid
                    (subst (λ t. IsPair (path_join root c.1) sidecar_name t bytes) n pair))
                  (closed.nodes ∙ same.nodes) (omega (arith, closed.fds, same.fds))
                  (rest v (closed.nodes ∙ same.nodes ∙ n)))
          ]

-- A listing that is returned runs from the newest entry to the oldest and each of its entries names a job
-- whose two members are regular files. Whatever system call fails, and whatever the sidecars hold, the
-- files and the number of open descriptors are as before.
pub scan_listing-Leaves :
    (repr : String → String) (load : List ℕ → Option Value) (root : String)
    (names : Option (List String)) (w : World)
    → Leaves
        (λ ls. NewestFirst ls × AllServed root w.nodes ls)
        w
        (scan_listing repr load root names w)
unfolding scan_listing
scan_listing-Leaves repr load root none w = record {
  nodes = refl;
  fds = refl;
  good = inr ([], refl, (tt, tt));
}
scan_listing-Leaves repr load root (some names) w =
    let first = candidates-Leaves root names w in
    let v = (candidates root names w).1 in
    elim (first.good) [
      | inl (e, r) ↦ rw r (record { nodes = first.nodes; fds = first.fds; good = inl (e, refl) })
      | inr (cs, r, g) ↦ rw r (
          Leaves-after _ w v _ first.nodes first.fds (
            Leaves-map (IsListing repr load root w.nodes (sort cs)) _ (λ ls h. (h.1, h.2)) v _
              (list_candidates-Leaves repr load root w.nodes (sort cs) v (sort-Sorted cs)
                first.nodes)))
    ]
