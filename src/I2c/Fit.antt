-- ===== src/I2c/Fit.antt =====
-- The functions of i2c.c and their buffers.
use jabi.Prelude.{ℕ, ◌-◌, arith, List, take, drop, All}
use jabi.Packet.{le16_at}
use jabi.Periph.{Reply, IsFit, FitsHandler, on_device}
use jabi.Periph.Device.{FitsDevice, on_device-Fits}
use jabi.I2c.{I2cEnv, i2c_set_freq, i2c_write_j, i2c_read_j, i2c_transceive, i2c_periph_api}

module _ (e : I2cEnv) where
  abbrev pub AnyBus : e.Bus → Type 0
  AnyBus bus = Unit {0}

  i2c-IsFit :
      (bus : e.Bus) (req : List ℕ) (n : ℕ)
      → IsFit e.target (i2c_set_freq e bus req n).1
        × IsFit e.target (i2c_write_j e bus req n).1
        × IsFit e.target (i2c_read_j e bus req n).1
        × IsFit e.target (i2c_transceive e bus req n).1
  unfolding i2c_set_freq i2c_write_j i2c_read_j i2c_transceive
  i2c-IsFit bus req n =
      let addr = le16_at e.target req 0 in
      let size = le16_at e.target req 2 in
      (
        ground arith,
        ground arith,
        ground (arith, e.length-read bus size addr),
        ground (arith, e.length-write_read bus addr (take (n - 4) (drop 4 req)) size),
      )

  -- Every I2C function writes within the response array and announces only what it wrote, for
  -- every request and whatever the bus answers.
  pub i2c_periph_api-Fits :
      (num : ℕ) → All (FitsHandler e.target (All AnyBus)) (i2c_periph_api e num).fns
  unfolding i2c_periph_api
  i2c_periph_api-Fits num = (
    lift (i2c_set_freq e) (λ s r n _ h l. ((i2c-IsFit s r n).0, tt)),
    (
      lift (i2c_write_j e) (λ s r n _ h l. ((i2c-IsFit s r n).1, tt)),
      (
        lift (i2c_read_j e) (λ s r n _ h l. ((i2c-IsFit s r n).2, tt)),
        (lift (i2c_transceive e) (λ s r n _ h l. ((i2c-IsFit s r n).3, tt)), tt),
      ),
    ),
  )
    where
      lift :
          (f : e.Bus → List ℕ → ℕ → e.Bus × Reply)
          → FitsDevice e.target AnyBus f
          → FitsHandler e.target (All AnyBus) (on_device f)
      lift = on_device-Fits e.target AnyBus
