-- ===== src/Artifacts/Ids.antt =====
-- api/jobs/artifacts.py: `validate_job_id`, the gate on what a client may name.
use Prim.Native.Char.{Char, code}
use Prim.Native.String.{[], ◌∷◌}
use Prim.Native.String.{count}
use minimax_music3_webui.Prelude.{
  ℕ, ◌≤◌, ◌≡◌, refl, String, Bool, true, false, ◌&&◌, ◌||◌, leb, ◌==◌, ◌&◌, if◌then◌else◌, arith,
  subst,
}
use minimax_music3_webui.Prelude.Result.{Result, ok, err}

abbrev between : ℕ → ℕ → Char → Bool
between low high c = leb low (code c) && leb (code c) high

-- [A-Za-z0-9_-]
abbrev pub is_id_char : Char → Bool
is_id_char c =
    between 65 90 c || between 97 122 c || between 48 57 c || code c == 95 || code c == 45

unfoldable pub all_id_chars : String → Bool
all_id_chars [] = true
all_id_chars (c ∷ s) = is_id_char c && all_id_chars s

-- The match of `\A[A-Za-z0-9_-]{1,128}\Z`.
abbrev pub is_job_id : String → Bool
is_job_id job_id = leb 1 (count job_id) && leb (count job_id) 128 && all_id_chars job_id

-- The error is the JobIdError's message; `repr` is Python's.
unfoldable pub validate_job_id : (repr : String → String) → String → Result String String
unfolding all_id_chars
validate_job_id repr job_id =
    if is_job_id job_id then ok job_id else err ("invalid job id: " & repr job_id)

-- Whether the character with this number stands in the text.
unfoldable pub has_code : ℕ → String → Bool
has_code n [] = false
has_code n (c ∷ s) = code c == n || has_code n s

has_code_lem :
    (n : ℕ) (s : String)
    → ((c : Char) → code c ≡ n → is_id_char c ≡ false)
    → all_id_chars s ≡ true
    → has_code n s ≡ false
unfolding has_code all_id_chars
has_code_lem n [] out h = refl
has_code_lem n (c ∷ s) out h = ground (arith, out c, has_code_lem n s out)

-- An id that is let through is returned as it came, has from 1 to 128 characters, and contains no
-- slash, no dot and no NUL: it is a single path component, and neither `.` nor `..`.
pub validate_job_id_safe :
    (repr : String → String) (job_id id : String)
    → validate_job_id repr job_id ≡ ok id
    → (id ≡ job_id)
      × (1 ≤ count id)
      × (count id ≤ 128)
      × (has_code 47 id ≡ false)
      × (has_code 46 id ≡ false)
      × (has_code 0 id ≡ false)
unfolding validate_job_id
validate_job_id_safe repr job_id id e =
    let same : job_id ≡ id = ground arith in
    let good : is_job_id job_id ≡ true = ground arith in
    let chars : all_id_chars job_id ≡ true = ground arith in
    subst
      (λ i.
        (i ≡ job_id)
        × (1 ≤ count i)
        × (count i ≤ 128)
        × (has_code 47 i ≡ false)
        × (has_code 46 i ≡ false)
        × (has_code 0 i ≡ false))
      same
      (
        refl,
        ground arith,
        ground arith,
        has_code_lem 47 job_id (λ c h. ground arith) chars,
        has_code_lem 46 job_id (λ c h. ground arith) chars,
        has_code_lem 0 job_id (λ c h. ground arith) chars,
      )
