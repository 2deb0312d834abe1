-- ===== src/Transcode/Floats.antt =====
-- Python's float arithmetic, as far as the program uses it: the operations are given, with what IEEE 754
-- states of them on the numbers that occur.
use minimax_music3_webui.Prelude.{ℕ, ◌*◌, ◌^◌, ◌≤◌}
use minimax_music3_webui.Json.{PyFloat}

-- `a / b` of two `int`s, `a * b`, `float(n)` and `int(x)`.
pub record FloatOps : Type 0 where
  pub quot : ℕ → ℕ → PyFloat
  pub mul : PyFloat → PyFloat → PyFloat
  pub of_nat : ℕ → PyFloat
  pub trunc : PyFloat → ℕ

-- A float from 0 to the whole number `a`, by the order of the floats.
abbrev pub Within : FloatOps → (PyFloat → PyFloat → Type 0) → PyFloat → ℕ → Type 0
Within ops Le x a = Le (ops.of_nat 0) x × Le x (ops.of_nat a)

-- Rounding respects the order, and whole numbers up to 2 ^ 53 are exact: a result whose exact value is
-- within such a number is within it.
pub record FloatLaws (ops : FloatOps) (Le : PyFloat → PyFloat → Type 0) : Type 0 where
  pub whole_below : (a b : ℕ) → a ≤ b → b ≤ 2 ^ 53 → Within ops Le (ops.of_nat a) b
  pub quot_below :
      (a b c : ℕ) → 1 ≤ c → a ≤ b * c → a ≤ 2 ^ 53 → b ≤ 2 ^ 53 → Within ops Le (ops.quot a c) b
  pub mul_below :
      (x y : PyFloat) (a b : ℕ)
      → Within ops Le x a
      → Within ops Le y b
      → a * b ≤ 2 ^ 53
      → Within ops Le (ops.mul x y) (a * b)
  pub trunc_below : (x : PyFloat) (a : ℕ) → Within ops Le x a → a ≤ 2 ^ 53 → ops.trunc x ≤ a
