-- ===== src/Dac/Scale.antt =====
-- dac_write of dac.c: the code that it writes, and its buffer.
use jabi.Prelude.{
  ℕ, ◌-◌, ◌*◌, ◌/◌, ◌%◌, ◌^◌, ◌≤◌, ◌<◌, ◌≡◌, refl, arith, true, List, ◌++◌, some, if◌then◌else◌,
  get_elem?, All, lt→ltb, Option-cases, inl, inr,
}
use native.Mathlib.Nat.{mul-le-mul_left, div-le_self, div-le_of_le-mul, mul_comm}
use jabi.Bytes.{le_bytes32, le32_value}
use jabi.Periph.{IsFit, FitsHandler, done, fail, peripheral_err}
use jabi.Dac.{DacDev, DacEnv, code_of, dac_write, dac_periph_api}

module _ (e : DacEnv) where
  abbrev pub AnyDac : e.Hw → Type 0
  AnyDac hw = Unit {0}

  write-IsFit :
      (hw : e.Hw) (idx : ℕ) (req : List ℕ) (n : ℕ) → IsFit e.target (dac_write e hw idx req n).1
  unfolding dac_write
  write-IsFit hw idx req n = elim (Option-cases (get_elem? e.dac_devs idx)) [
    | inl missing ↦ rw (missing, dac_write) (omega arith)
    | inr (dac, found) ↦ rw (found, dac_write) (ground arith)
  ]

  pub dac_periph_api-Fits : (num : ℕ) → All (FitsHandler e.target AnyDac) (dac_periph_api e num).fns
  unfolding dac_periph_api
  dac_periph_api-Fits num = ((λ s idx req n _ h l. (write-IsFit s idx req n, tt)), tt)

  -- A voltage within the reference does not overflow.
  code_of-exact :
      (dac : DacDev) (mv : ℕ)
      → mv ≤ dac.vref
      → dac.vref < 2 ^ 31
      → (2 ^ dac.resolution - 1) * dac.vref < 2 ^ 31
      → code_of e dac mv ≡ (2 ^ dac.resolution - 1) * mv / dac.vref
  code_of-exact dac mv below vref_fits small =
      let k = 2 ^ dac.resolution - 1 in
      let less : k * mv ≤ k * dac.vref = mul-le-mul_left k below in
      let lower : k * mv / dac.vref ≤ k * mv = div-le_self (k * mv) dac.vref in
      let same : k * mv / dac.vref % 2 ^ 32 ≡ k * mv / dac.vref = omega arith in
      rw (lt→ltb mv (2 ^ 31) (omega arith), lt→ltb (k * mv) (2 ^ 31) (omega arith), same)

  -- The scaled voltage against full scale.
  scaled_le : (k mv vref : ℕ) → mv ≤ vref → 0 < vref → k * mv / vref ≤ k
  scaled_le k mv vref below positive =
      div-le_of_le-mul vref (omega (arith, mul-le-mul_left k below, mul_comm k vref))

  -- If the voltage is at most a positive reference, full scale times the reference fits an int
  -- and the channel can be set up, dac_write writes full scale times the voltage by the
  -- reference, rounded down, which is at most full scale, and answers whether the driver took
  -- it.
  pub dac_write-in_scale :
      (hw : e.Hw) (idx : ℕ) (dac : DacDev) (mv : ℕ) (rest : List ℕ)
      → get_elem? e.dac_devs idx ≡ some dac
      → mv ≤ dac.vref
      → 0 < dac.vref
      → dac.vref < 2 ^ 31
      → (2 ^ dac.resolution - 1) * dac.vref < 2 ^ 31
      → (e.channel_setup hw dac).0 ≡ true
      → (dac_write e hw idx (le_bytes32 mv ++ rest) 4 ≡ (
          let code = (2 ^ dac.resolution - 1) * mv / dac.vref in
          let out = e.write_value (e.channel_setup hw dac).1 dac code in
          (out.1, if out.0 then done else fail peripheral_err)))
        × ((2 ^ dac.resolution - 1) * mv / dac.vref ≤ 2 ^ dac.resolution - 1)
  unfolding dac_write
  dac_write-in_scale hw idx dac mv rest found below positive vref_fits small ready = (
    rw
        (
          found,
          dac_write,
          e.le32_to_cpu-load32 (mv % 256) (mv / 256 % 256) (mv / 65536 % 256) (mv / 16777216 % 256)
              (omega arith) (omega arith) (omega arith) (omega arith),
          le32_value mv (omega arith),
          code_of-exact dac mv below vref_fits small,
          ready,
        )
        refl,
    scaled_le (2 ^ dac.resolution - 1) mv dac.vref below positive,
  )
