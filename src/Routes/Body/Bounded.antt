-- ===== src/Routes/Body/Bounded.antt =====
-- The body is read within its bound, and the hex text is that of the whole file.
use minimax_music3_webui.Prelude.{
  ℕ, zero, suc, ◌+◌, ◌≤◌, ◌≡◌, refl, sym, ◌∙◌, ap, List, [], ◌∷◌, ◌++◌, length, length-append,
  length-drop, take, drop, ltb, leb, le→leb, arith, if◌then◌else◌, inl, inr, Bool-cases,
}
use mathlib.Core.List.{append_assoc, append-nil}
use minimax_music3_webui.Prelude.Result.{ok, err}
use minimax_music3_webui.Routes.Body.{
  too_large, read_chunks, chunk_size, hexlify, hex_chunks, hex_body,
}

-- The pieces one after the other.
abbrev pub join : List (List ℕ) → List ℕ
join [] = []
join (piece ∷ pieces) = piece ++ join pieces

-- The check of each chunk as it arrives is a check of the whole body: where no more than the limit has been
-- read before, the chunks are joined if with them it is no more, and refused otherwise.
pub read_chunks-join :
    (limit total : ℕ) (chunks : List (List ℕ))
    → total ≤ limit
    → read_chunks limit total chunks
      ≡ (if leb (total + length (join chunks)) limit then ok (join chunks) else err too_large)
unfolding read_chunks
read_chunks-join limit total [] h = rw (le→leb (total + 0) limit (omega arith)) refl
read_chunks-join limit total (chunk ∷ chunks) h =
    elim (Bool-cases (ltb limit (total + length chunk))) [
      | inl e ↦ rw e (ground (arith, length-append chunk (join chunks)))
      | inr e ↦ rw e (
          let same : total + length (chunk ++ join chunks)
              ≡ total + length chunk + length (join chunks) =
            omega (arith, length-append chunk (join chunks)) in
          rw (read_chunks-join limit (total + length chunk) chunks (ground arith), same)
            (elim (Bool-cases (leb (total + length chunk + length (join chunks)) limit)) [
              | inl small ↦ rw small refl
              | inr large ↦ rw large refl
            ]))
    ]

hexlify-append : (xs ys : List ℕ) → hexlify (xs ++ ys) ≡ hexlify xs ++ hexlify ys
unfolding hexlify
hexlify-append [] ys = refl
hexlify-append (x ∷ xs) ys = rw (hexlify-append xs ys) refl

pub take-append-drop : (n : ℕ) (xs : List ℕ) → take n xs ++ drop n xs ≡ xs
take-append-drop zero xs = refl
take-append-drop (suc n) [] = refl
take-append-drop (suc n) (x ∷ xs) = ap (λ ys. x ∷ ys) (take-append-drop n xs)

hex_chunks-join :
    (size rounds : ℕ) (file : List ℕ)
    → 1 ≤ size
    → length file ≤ rounds
    → join (hex_chunks size rounds file) ≡ hexlify file
unfolding hex_chunks hexlify
hex_chunks-join size rounds [] p h = refl
hex_chunks-join size zero (byte ∷ bytes) p h = absurd (omega (arith, h))
hex_chunks-join size (suc rounds) (byte ∷ bytes) p h =
    rw
      (hex_chunks-join size rounds (drop size (byte ∷ bytes)) p
        (omega (arith, h, p, length-drop size (byte ∷ bytes))))
      (sym (hexlify-append (take size (byte ∷ bytes)) (drop size (byte ∷ bytes)))
        ∙ ap hexlify (take-append-drop size (byte ∷ bytes)))

join-concat : (xs : List (List ℕ)) (y : List ℕ) → join (xs ++ y ∷ []) ≡ join xs ++ y
join-concat [] y = append-nil y
join-concat (x ∷ xs) y = rw (join-concat xs y) (sym (append_assoc x (join xs) y))

-- The pieces that are sent, read in chunks of 65536 bytes, are together the prefix, the hex text of the
-- whole file, and the suffix.
pub hex_body-join :
    (prefix suffix file : List ℕ)
    → join (hex_body prefix suffix file) ≡ prefix ++ hexlify file ++ suffix
unfolding hex_body
hex_body-join prefix suffix file =
    rw
      (
        join-concat (hex_chunks chunk_size (length file) file) suffix,
        hex_chunks-join chunk_size (length file) file (omega arith) (omega arith),
      )
      (sym (append_assoc prefix (hexlify file) suffix))
