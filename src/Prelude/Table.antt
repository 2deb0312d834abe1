-- ===== src/Prelude/Table.antt =====
-- A `dict` with text keys over which the program never iterates.
use Prim.Native.String.{String}
use mathlib.Core.Path.{◌≡◌, refl, sym, subst}
use mathlib.Core.Logic.{◌≢◌}
use mathlib.Core.Bool.{Bool, true, false, ◌||◌}
use mathlib.Core.List.{List, [], ◌∷◌, ◌++◌}
use mathlib.Core.Option.{Option, none, some}
use text.Mathlib.TextEquality.{eq_iff}
use text.Mathlib.TextPositions.{eq_refl}
use native.Mathlib.Omega.{arith}
use minimax_music3_webui.Prelude.Tests.{str_eq, str_mem, if◌then◌else◌}

abbrev pub Table {ℓ} : Type ℓ → Type ℓ
Table V = String → Option V

-- d[k] = v
abbrev pub put {ℓ} : {V : Type ℓ} → String → V → Table V → Table V
put k v d j = if str_eq k j then some v else d j

abbrev pub empty {ℓ} : {V : Type ℓ} → Table V
empty j = none

-- `k in d`
abbrev pub is_some {ℓ} : {A : Type ℓ} → Option A → Bool
is_some none = false
is_some (some a) = true

pub put_self {ℓ} : {V : Type ℓ} (k : String) (v : V) (d : Table V) → put k v d k ≡ some v
put_self k v d = rw (eq_refl k)

pub str_eq_self : (k : String) → str_eq k k ≡ true
str_eq_self k = eq_refl k

pub str_eq_ne : (k j : String) → k ≢ j → str_eq k j ≡ false
str_eq_ne k j h = ground (arith, eq_iff k j)

pub put_ne {ℓ} : {V : Type ℓ} (k j : String) (v : V) (d : Table V) → k ≢ j → put k v d j ≡ d j
put_ne k j v d h = rw (str_eq_ne k j h)

pub str_eq-cases : (k j : String) → Dec (k ≡ j)
str_eq-cases k j = go (str_eq k j) refl
  where
    go : (b : Bool) → str_eq k j ≡ b → Dec (k ≡ j)
    go true e = yes ((eq_iff k j).0 e)
    go false e = no (λ p. ground (arith, eq_iff k j))

-- What holds of the new value at its key, and of the old ones elsewhere, holds of every entry.
pub put_ind {ℓ κ} :
    {V : Type ℓ} (P : String → Option V → Type κ) (k : String) (v : V) (d : Table V) (j : String)
    → P k (some v)
    → (k ≢ j → P j (d j))
    → P j (put k v d j)
put_ind P k v d j new old = elim (str_eq-cases k j) [
  | yes e ↦ subst (λ i. P i (put k v d i)) e (rw (str_eq_self k) new)
  | no n ↦ rw (str_eq_ne k j n) (old n)
]

pub str_mem_cons_ne : (x y : String) (ys : List String) → y ≢ x → str_mem x (y ∷ ys) ≡ str_mem x ys
str_mem_cons_ne x y ys n = rw (str_eq_ne x y (λ e. n (sym e)))

pub str_mem_concat :
    (x y : String) (ys : List String) → str_mem x (ys ++ y ∷ []) ≡ (str_eq x y || str_mem x ys)
str_mem_concat x y [] = refl
str_mem_concat x y (z ∷ zs) = ground (arith, str_mem_concat x y zs)
