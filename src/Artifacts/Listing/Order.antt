-- ===== src/Artifacts/Listing/Order.antt =====
-- The candidates of a listing, sorted from the newest to the oldest.
use minimax_music3_webui.Prelude.{
  ℕ, ◌≤◌, inl, inr, String, List, [], ◌∷◌, leb, leb→le, arith, Bool-cases,
}
use minimax_music3_webui.Artifacts.Listing.{insert, sort}

-- All of these are at most this new.
abbrev pub Below : ℕ → List (ℕ × String) → Type 0
Below m [] = Unit {0}
Below m (c ∷ cs) = (c.0 ≤ m) × Below m cs

abbrev pub Sorted : List (ℕ × String) → Type 0
Sorted [] = Unit {0}
Sorted (c ∷ cs) = Below c.0 cs × Sorted cs

pub Below-trans : (m n : ℕ) (cs : List (ℕ × String)) → m ≤ n → Below m cs → Below n cs
Below-trans m n [] h b = tt
Below-trans m n (c ∷ cs) h (b, bs) = (omega (arith, h, b), Below-trans m n cs h bs)

pub Below-insert :
    (m : ℕ) (c : ℕ × String) (cs : List (ℕ × String)) → c.0 ≤ m → Below m cs → Below m (insert c cs)
Below-insert m c [] h b = (h, tt)
Below-insert m c (d ∷ ds) h (b, bs) = elim (Bool-cases (leb d.0 c.0)) [
  | inl e ↦ rw e (h, (b, bs))
  | inr e ↦ rw e (b, Below-insert m c ds h bs)
]

pub insert-Sorted : (c : ℕ × String) (cs : List (ℕ × String)) → Sorted cs → Sorted (insert c cs)
insert-Sorted c [] s = (tt, tt)
insert-Sorted c (d ∷ ds) (b, s) = elim (Bool-cases (leb d.0 c.0)) [
  | inl e ↦
      rw e ((omega (arith, leb→le d.0 c.0 e), Below-trans d.0 c.0 ds (leb→le d.0 c.0 e) b), (b, s))
  | inr e ↦ rw e (Below-insert d.0 c ds (ground arith) b, insert-Sorted c ds s)
]

pub sort-Sorted : (cs : List (ℕ × String)) → Sorted (sort cs)
sort-Sorted [] = tt
sort-Sorted (c ∷ cs) = insert-Sorted c (sort cs) (sort-Sorted cs)
