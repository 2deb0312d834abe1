-- ===== src/Routes/Body.antt =====
-- api/app/routes/music.py: the reading of a request's body, and the hex text that a reply carries.
pub mod Bounded
use minimax_music3_webui.Prelude.{
  ℕ, zero, suc, ◌+◌, ◌*◌, ◌-◌, ◌/◌, ◌%◌, String, Bool, true, false, Option, none, some, List, [],
  ◌∷◌, ◌++◌, length, take, drop, ltb, leb, ◌&◌, show, if◌then◌else◌,
}
use minimax_music3_webui.Prelude.Result.{Result, ok, err, ◌>>=◌}
use minimax_music3_webui.Json.{Value, null}
use minimax_music3_webui.Compat.Errors.{CompatError, invalid_params}
use minimax_music3_webui.Routes.Header.{isdigit, int_or_raise}

abbrev pub max_request_body_bytes : ℕ
max_request_body_bytes = 1 * 1024 * 1024

abbrev pub refused_body : String → CompatError
refused_body message = record { code = invalid_params; named = none; message = message }

abbrev pub too_large : CompatError
too_large = refused_body ("request body exceeds " & show max_request_body_bytes & " bytes")

-- The chunks of the stream one by one; `total` bytes have been read before them.
unfoldable pub read_chunks : (limit total : ℕ) → List (List ℕ) → Result CompatError (List ℕ)
read_chunks limit total [] = ok []
read_chunks limit total (chunk ∷ chunks) =
    let rest = read_chunks limit (total + length chunk) chunks in
    if ltb limit (total + length chunk)
    then err too_large
    else (rest >>= λ bytes. ok (chunk ++ bytes))

-- What the reading raises: a CompatError, or an exception that the route does not handle.
pub data BodyError : Type 0 where
  refused_with : CompatError → BodyError
  escaped : BodyError

-- How `json.loads` ends: with a value, a ValueError, or another exception, as a RecursionError.
pub data Loaded : Type 0 where
  loaded : Value → Loaded
  value_error other_error : Loaded

abbrev pub parsed : Loaded → Result BodyError Value
parsed (loaded v) = ok v
parsed value_error = err (refused_with (refused_body "request body must be valid JSON"))
parsed other_error = err escaped

-- json.loads(bytes or b"null")
abbrev pub parse_body : (loads : List ℕ → Loaded) → List ℕ → Result BodyError Value
parse_body loads [] = ok null
parse_body loads (byte ∷ bytes) = parsed (loads (byte ∷ bytes))

-- `declared.isdigit() and int(declared) > MAX_REQUEST_BODY_BYTES`, where `int` may raise a ValueError.
abbrev pub over : Option String → Result BodyError Bool
over none = ok false
over (some raw) =
    if isdigit raw
    then elim (int_or_raise raw) [ err e ↦ err escaped | ok n ↦ ok (ltb max_request_body_bytes n) ]
    else ok false

abbrev pub as_body_error : {A : Type 0} → Result CompatError A → Result BodyError A
as_body_error (ok a) = ok a
as_body_error (err e) = err (refused_with e)

-- `declared` is the `content-length` header.
unfoldable pub read_json_body :
    (loads : List ℕ → Loaded) → (declared : Option String) → List (List ℕ) → Result BodyError Value
unfolding read_chunks
read_json_body loads declared chunks = do
  too_long ← over declared
  bytes ←
      as_body_error
        (if too_long then err too_large else read_chunks max_request_body_bytes 0 chunks)
  parse_body loads bytes

abbrev pub chunk_size : ℕ
chunk_size = 65536

-- The character of a digit below sixteen.
abbrev pub hex_digit : ℕ → ℕ
hex_digit d = if ltb d 10 then 48 + d else 87 + d

-- binascii.hexlify
unfoldable pub hexlify : List ℕ → List ℕ
hexlify [] = []
hexlify (byte ∷ bytes) = hex_digit (byte / 16) ∷ hex_digit (byte % 16) ∷ hexlify bytes

-- `while chunk := handle.read(_CHUNK): yield …`; a file of n bytes is read in at most n rounds.
unfoldable pub hex_chunks : (size rounds : ℕ) → List ℕ → List (List ℕ)
unfolding hexlify
hex_chunks size rounds [] = []
hex_chunks size zero (byte ∷ bytes) = []
hex_chunks size (suc rounds) (byte ∷ bytes) =
    hexlify (take size (byte ∷ bytes)) ∷ hex_chunks size rounds (drop size (byte ∷ bytes))

-- The pieces that `_hex_body` yields.
unfoldable pub hex_body : (prefix suffix : List ℕ) → (file : List ℕ) → List (List ℕ)
unfolding hex_chunks
hex_body prefix suffix file = (prefix ∷ hex_chunks chunk_size (length file) file) ++ suffix ∷ []
