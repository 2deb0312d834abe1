-- ===== src/Prelude/Text.antt =====
-- Texts as the program formats them: `+` on `str`, and `str(n)` of a natural number.
use Prim.Native.Nat.{ℕ, zero, suc, ◌/◌, ◌%◌}
use Prim.Native.String
use Prim.Native.String.{String}
use minimax_music3_webui.Prelude.Tests.{ltb, ◌==◌, if◌then◌else◌}

infixr 65 ◌&◌
abbrev pub ◌&◌ : String → String → String
s & t = String.◌++◌ s t

-- The decimal digit of a number below ten.
digit : ℕ → String
digit n =
    if n == 0
    then "0"
    else if n == 1
    then "1"
    else if n == 2
    then "2"
    else if n == 3
    then "3"
    else if n == 4
    then "4"
    else if n == 5
    then "5"
    else if n == 6
    then "6"
    else if n == 7
    then "7"
    else if n == 8
    then "8"
    else "9"

-- A number has no more digits than its successor counts.
show_digits : ℕ → ℕ → String
unfolding digit
show_digits zero n = ""
show_digits (suc f) n =
    let front = show_digits f (n / 10) in if ltb n 10 then digit n else front & digit (n % 10)

unfoldable pub show : ℕ → String
unfolding show_digits
show n = show_digits (suc n) n
