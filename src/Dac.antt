-- ===== src/Dac.antt =====
-- firmware/src/peripherals/dac.c. Zephyr's DAC driver is a parameter.
pub mod Scale
use jabi.Prelude.{
  ℕ, ◌+◌, ◌-◌, ◌*◌, ◌/◌, ◌%◌, ◌^◌, Bool, not, ◌&&◌, Option, none, some, List, [], ◌∷◌, ltb, ◌==◌,
  if◌then◌else◌, get_elem?, suc,
}
use jabi.Packet.{Target, le32_at}
use jabi.Periph.{Reply, Api, fail, done, uninitialized_err, invalid_args_format_err, peripheral_err}

-- A C int, before it is known to fit its 32 bits; `negsuc n` is -(n + 1).
pub data ℤ : Type 0 where
  pos : ℕ → ℤ
  negsuc : ℕ → ℤ

-- The magnitude of a negative number.
abbrev pub neg_of : ℕ → ℤ
neg_of n = if n == 0 then pos 0 else negsuc (n - 1)

-- The int32_t of a 32-bit pattern, and the uint32_t of an int.
abbrev pub int_of : ℕ → ℤ
int_of p = if ltb p (2 ^ 31) then pos p else negsuc (2 ^ 32 - 1 - p)

abbrev pub uint32_of : ℤ → ℕ
uint32_of (pos n) = n % 2 ^ 32
uint32_of (negsuc n) = 2 ^ 32 - 1 - n % 2 ^ 32

abbrev pub in_int : ℤ → Bool
in_int (pos n) = ltb n (2 ^ 31)
in_int (negsuc n) = ltb n (2 ^ 31)

-- A product with, and C's quotient by, a number that is not negative.
abbrev pub times : ℕ → ℤ → ℤ
times k (pos n) = pos (k * n)
times k (negsuc n) = neg_of (k * suc n)

abbrev pub quotient : ℤ → ℕ → ℤ
quotient (pos n) k = pos (n / k)
quotient (negsuc n) k = neg_of (suc n / k)

-- dac_dev_data_t; `vref` is the positive number of millivolts of the devicetree.
pub record DacDev : Type 0 where
  pub dev : ℕ
  pub channel : ℕ
  pub resolution : ℕ
  pub vref : ℕ

-- dac_channel_setup and dac_write_value; false is an error. C leaves a product that does not fit
-- an int undefined: `overflowed` is what the build makes of it.
pub record DacEnv : Type 1 where
  pub target : Target
  pub open target use *
  pub dac_devs : List DacDev
  pub Hw : Type 0
  pub channel_setup : Hw → DacDev → Bool × Hw
  pub write_value : Hw → DacDev → ℕ → Bool × Hw
  pub overflowed : ℤ → ℤ

module _ (e : DacEnv) where
  -- ((1 << resolution) - 1) * mv / vref, as dac_write_value gets it
  abbrev pub code_of : DacDev → ℕ → ℕ
  code_of dac mv =
      let product = times (2 ^ dac.resolution - 1) (int_of mv) in
      uint32_of (quotient (if in_int product then product else e.overflowed product) dac.vref)

  unfoldable pub dac_write : e.Hw → ℕ → List ℕ → ℕ → e.Hw × Reply
  dac_write hw idx req req_len = elim (get_elem? e.dac_devs idx) [
    | none ↦ (hw, fail uninitialized_err)
    | some dac ↦
        let (ok, hw1) = e.channel_setup hw dac in
        let (written, hw2) = e.write_value hw1 dac (code_of dac (le32_at e.target req 0)) in
        if not (req_len == 4)
        then (hw, fail invalid_args_format_err)
        else if not ok
        then (hw1, fail peripheral_err)
        else (hw2, if written then done else fail peripheral_err)
  ]

  -- dac_periph_fns and dac_periph_api; dac_init does nothing.
  unfoldable pub dac_periph_api : ℕ → Api e.Hw
  dac_periph_api num = record { num_idx = num; fns = dac_write ∷ [] }
