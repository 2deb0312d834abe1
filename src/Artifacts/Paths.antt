-- ===== src/Artifacts/Paths.antt =====
-- api/jobs/artifacts.py: `is_within` and `resolve_within`. `os.path.realpath` is an argument.
use Prim.Native.Char.{Char, code}
use Prim.Native.String.{[], ◌∷◌}
use text.Mathlib.Text.{starts_with}
use text.Mathlib.TextEquality.{starts_with_iff}
use minimax_music3_webui.Prelude.{
  ◌≡◌, ◌↔◌, ◌⊎◌, inl, inr, sym, String, Bool, true, false, ◌&&◌, ◌||◌, leb, ◌==◌, str_eq, eq_iff,
  ◌&◌, if◌then◌else◌, arith, Bool-cases,
}
use minimax_music3_webui.Prelude.Result.{Result, ok, err}
use minimax_music3_webui.Artifacts.Ids.{has_code}

unfoldable pub is_within : (candidate_real root_real : String) → Bool
is_within candidate_real root_real =
    str_eq candidate_real root_real || starts_with candidate_real (root_real & "/")

abbrev letter : Char → Bool
letter c = (leb 65 (code c) && leb (code c) 90) || (leb 97 (code c) && leb (code c) 122)

abbrev scheme_char : Char → Bool
scheme_char c =
    letter c || (leb 48 (code c) && leb (code c) 57) || code c == 43 || code c == 46 || code c == 45

unfoldable scheme_rest : String → Bool
scheme_rest [] = false
scheme_rest (c ∷ s) =
    let rest = scheme_rest s in if scheme_char c then rest else starts_with (c ∷ s) "://"

-- The match of `^[a-zA-Z][a-zA-Z0-9+.\-]*://`; a colon is no character of the middle part.
unfoldable pub has_url_scheme : String → Bool
unfolding scheme_rest
has_url_scheme [] = false
has_url_scheme (c ∷ s) = letter c && scheme_rest s

pub record UntrustedPathError : Type 0 where
  pub candidate : String
  pub root : String

unfoldable pub resolve_within :
    (realpath : String → String) → (candidate root : String) → Result UntrustedPathError String
unfolding is_within has_url_scheme has_code
resolve_within realpath candidate root =
    let refusal : Result UntrustedPathError String =
      err (record { candidate = candidate; root = root }) in
    if has_code 0 candidate || has_url_scheme candidate
    then refusal
    else if is_within (realpath candidate) (realpath root)
    then ok (realpath candidate)
    else refusal

unfoldable ends_with_slash : String → Bool
ends_with_slash [] = false
ends_with_slash (c ∷ []) = code c == 47
ends_with_slash (c ∷ d ∷ s) = ends_with_slash (d ∷ s)

-- os.path.join(root, name)
unfoldable pub path_join : String → String → String
unfolding ends_with_slash
path_join root name =
    if starts_with name "/"
    then name
    else if str_eq root "" || ends_with_slash root
    then root & name
    else root & "/" & name

-- A path is within a root exactly if it is the root, or the root, a slash, and a rest: a sibling whose
-- name begins with the root's is not.
pub is_within_iff :
    (candidate root : String)
    → (is_within candidate root ≡ true)
      ↔ ((candidate ≡ root) ⊎ ((rest : String) × (candidate ≡ (root & "/") & rest)))
unfolding is_within
is_within_iff candidate root =
    let (to_prefix, of_prefix) = starts_with_iff candidate (root & "/") in
    (
      λ h. elim (Bool-cases (str_eq candidate root)) [
        | inl same ↦ inl ((eq_iff candidate root).0 same)
        | inr other ↦ inr (let (rest, e) = to_prefix (ground arith) in (rest, sym e))
      ],
      λ h. elim h [
        | inl same ↦ ground (arith, (eq_iff candidate root).1 same)
        | inr (rest, e) ↦ ground (arith, of_prefix (rest, sym e))
      ],
    )
