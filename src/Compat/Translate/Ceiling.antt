-- ===== src/Compat/Translate/Ceiling.antt =====
-- The estimate of the hex body, and the ceiling it is held against before anything is generated.
use minimax_music3_webui.Prelude.{
  ℕ, ◌*◌, ◌^◌, ◌≤◌, ◌≡◌, refl, true, Option, none, some, str_eq, nat_mem, arith, inl, inr,
  Bool-cases,
}
use minimax_music3_webui.Json.{PyFloat}
use minimax_music3_webui.Transcode.{TranscodePlan, sample_rate_enum}
use minimax_music3_webui.Transcode.Floats.{FloatOps, FloatLaws, Within}
use minimax_music3_webui.Transcode.Plans.{IsValidPlan, HasBitrate}
use minimax_music3_webui.Compat.Translate.{
  hex_max_body_bytes, max_new_tokens_ceiling, estimate_hex_bytes,
}

largest_rate : (n : ℕ) → nat_mem n sample_rate_enum ≡ true → n ≤ 44100
largest_rate n h = ground arith

largest_bitrate : (o : Option ℕ) → HasBitrate true o → (n : ℕ) × (o ≡ some n) × (n ≤ 256000)
largest_bitrate none h = absurd h
largest_bitrate (some n) h = let p : n ≤ 256000 = ground arith in (n, refl, p)

module _ (ops : FloatOps) (Le : PyFloat → PyFloat → Type 0) (laws : FloatLaws ops Le) where
  duration_lem : (n : ℕ) → n ≤ 9000 → Within ops Le (ops.quot n 25) 360
  duration_lem n h =
      laws.quot_below n 360 25 (omega arith) (omega arith) (omega arith) (omega arith)

  whole : (n b : ℕ) → n ≤ b → b ≤ 2 ^ 53 → Within ops Le (ops.of_nat n) b
  whole = laws.whole_below

  mp3_lem :
      (n m : ℕ)
      → n ≤ 9000
      → m ≤ 256000
      → ops.trunc (ops.mul (ops.mul (ops.quot m 8) (ops.quot n 25)) (ops.of_nat 2)) ≤ 23040000
  mp3_lem n m h b =
      laws.trunc_below _ (32000 * 360 * 2)
        (laws.mul_below _ _ (32000 * 360) 2
          (laws.mul_below _ _ 32000 360
            (laws.quot_below m 32000 8 (omega arith) (omega arith) (omega arith) (omega arith))
            (duration_lem n h) (omega arith))
          (whole 2 2 (omega arith) (omega arith)) (omega arith))
        (omega arith)

  plain_lem :
      (n r c : ℕ)
      → n ≤ 9000
      → r ≤ 44100
      → c ≤ 2
      → ops.trunc (
          ops.mul
            (ops.mul
              (ops.mul (ops.mul (ops.quot n 25) (ops.of_nat r)) (ops.of_nat c))
              (ops.of_nat 2))
            (ops.of_nat 2))
        ≤ 127008000
  plain_lem n r c h br bc =
      laws.trunc_below _ (360 * 44100 * 2 * 2 * 2)
        (laws.mul_below _ _ (360 * 44100 * 2 * 2) 2
          (laws.mul_below _ _ (360 * 44100 * 2) 2
            (laws.mul_below _ _ (360 * 44100) 2
              (laws.mul_below _ _ 360 44100 (duration_lem n h) (whole r 44100 br (omega arith))
                (omega arith))
              (whole c 2 bc (omega arith)) (omega arith))
            (whole 2 2 (omega arith) (omega arith)) (omega arith))
          (whole 2 2 (omega arith) (omega arith)) (omega arith))
        (omega arith)

  estimate_lem :
      (n : ℕ) (plan : TranscodePlan)
      → n ≤ 9000
      → IsValidPlan plan
      → estimate_hex_bytes ops n plan ≤ 127008000
  unfolding estimate_hex_bytes
  estimate_lem n plan h v = elim (Bool-cases (str_eq plan.container "mp3")) [
    | inl mp3 ↦
        let (m, is_m, small) = largest_bitrate plan.bitrate (rw mp3 at v.bitrate) in
        let bound = mp3_lem n m h small in
        rw (mp3, estimate_hex_bytes) (rw (is_m, estimate_hex_bytes) (omega arith))
    | inr other ↦
        rw (other, estimate_hex_bytes)
          (plain_lem n plan.sample_rate plan.channels h
            (largest_rate plan.sample_rate v.sample_rate) (omega (arith, v.channels)))
  ]

  -- For each valid plan and each accepted number of tokens, the estimate of the hex body is at most
  -- 127008000 bytes, hence below the default ceiling, if float arithmetic rounds by the laws of `FloatLaws`: the default ceiling refuses no request that is valid otherwise.
  pub default_ceiling_admits :
      (max_new_tokens : ℕ) (plan : TranscodePlan)
      → max_new_tokens ≤ max_new_tokens_ceiling
      → IsValidPlan plan
      → (estimate_hex_bytes ops max_new_tokens plan ≤ 127008000)
        × (estimate_hex_bytes ops max_new_tokens plan ≤ hex_max_body_bytes)
  default_ceiling_admits n plan h v = let bound = estimate_lem n plan h v in (bound, omega arith)
