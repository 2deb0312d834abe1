-- ===== src/Routes/Header.antt =====
-- api/app/routes/jobs.py: the reading of a `Last-Event-ID` header. The `content-length` of api/app/routes/music.py
-- is read by the same two calls.
use Prim.Native.Char.{Char, code}
use Prim.Native.String.{[], ◌∷◌, count}
use minimax_music3_webui.Prelude.{
  ℕ, ◌+◌, ◌*◌, ◌-◌, String, Bool, true, false, Option, none, some, leb, ltb, ◌==◌, ◌&&◌, ◌||◌,
  if◌then◌else◌,
}
use minimax_music3_webui.Prelude.Result.{Result, ok, err, ◌>>=◌}

-- str.isdigit of one character of a header, which has a code below 256: the superscripts count.
abbrev pub is_ascii_digit : Char → Bool
is_ascii_digit c = leb 48 (code c) && leb (code c) 57

abbrev pub is_digit : Char → Bool
is_digit c = is_ascii_digit c || (code c == 178 || code c == 179 || code c == 185)

abbrev pub all_digits : String → Bool
all_digits [] = true
all_digits (c ∷ s) = is_digit c && all_digits s

abbrev pub isdigit : String → Bool
isdigit [] = false
isdigit (c ∷ s) = is_digit c && all_digits s

-- int(raw) of digits; `none` is the ValueError that a superscript raises.
abbrev pub int_from : (front : ℕ) → String → Option ℕ
int_from front [] = some front
int_from front (c ∷ s) =
    let rest = int_from (front * 10 + (code c - 48)) s in if is_ascii_digit c then rest else none

-- More digits than the interpreter's default limit raise a ValueError too.
abbrev pub max_str_digits : ℕ
max_str_digits = 4300

abbrev pub int_or_raise : String → Result (Unit {0}) ℕ
int_or_raise raw =
    if ltb max_str_digits (count raw)
    then err tt
    else elim (int_from 0 raw) [ none ↦ err tt | some n ↦ ok n ]

-- The error is a ValueError.
unfoldable pub parse_last_event_id : Option String → Result (Unit {0}) (Option ℕ)
parse_last_event_id none = ok none
parse_last_event_id (some raw) =
    if isdigit raw then (int_or_raise raw >>= λ n. ok (some n)) else ok none
