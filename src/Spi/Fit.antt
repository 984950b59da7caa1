-- ===== src/Spi/Fit.antt =====
-- The functions of spi.c and their buffers.
use jabi.Prelude.{ℕ, ◌≤◌, ◌≡◌, arith, List, length, take, length-take, All}
use jabi.Packet.{le16_at}
use jabi.Periph.{Reply, IsFit, FitsHandler, on_device}
use jabi.Periph.Device.{FitsDevice, on_device-Fits}
use jabi.Spi.Driver.{SpiOp, receives, exchanges, rx_size, SpiEnv}
use jabi.Spi.Device.{
  Spi, current, spi_set_freq, spi_set_mode, spi_set_bitorder, spi_update_config, run_transfer,
  spi_write_j, spi_read_j, spi_transceive_j, spi_periph_api,
}

module _ (e : SpiEnv) where
  -- No invariant is needed: the configurations are no indices.
  abbrev pub AnySpi : Spi e → Type 0
  AnySpi spi = Unit {0}

  length-run_transfer : (spi : Spi e) (op : SpiOp) → length (run_transfer e spi op).1 ≡ rx_size op
  unfolding run_transfer
  length-run_transfer spi op =
      let u = spi_update_config e spi in e.rx-length u.bus op u.curr_cfg (current e u)

  config-IsFit :
      (spi : Spi e) (req : List ℕ) (n : ℕ)
      → IsFit e.target (spi_set_freq e spi req n).1
        × IsFit e.target (spi_set_mode e spi req n).1
        × IsFit e.target (spi_set_bitorder e spi req n).1
        × IsFit e.target (spi_write_j e spi req n).1
  unfolding spi_set_freq spi_set_mode spi_set_bitorder spi_write_j
  config-IsFit spi req n = (ground arith, ground arith, ground arith, ground arith)

  read_j-IsFit : (spi : Spi e) (req : List ℕ) (n : ℕ) → IsFit e.target (spi_read_j e spi req n).1
  unfolding spi_read_j
  read_j-IsFit spi req n =
      ground (arith, length-run_transfer spi (receives (le16_at e.target req 0)))

  transceive_j-IsFit :
      (spi : Spi e) (req : List ℕ) (n : ℕ)
      → length req ≡ e.req_max
      → n ≤ e.req_max
      → IsFit e.target (spi_transceive_j e spi req n).1
  unfolding spi_transceive_j
  transceive_j-IsFit spi req n h small =
      ground (arith, length-run_transfer spi (exchanges (take n req)), length-take n req)

  -- Every function of the SPI table writes within the response array and announces only what it
  -- wrote, for every request that fits the request array and whatever the bus answers.
  pub spi_periph_api-Fits :
      (num : ℕ) → All (FitsHandler e.target (All AnySpi)) (spi_periph_api e num).fns
  unfolding spi_periph_api
  spi_periph_api-Fits num = (
    lift (spi_set_freq e) (λ s r n _ h l. ((config-IsFit s r n).0, tt)),
    (
      lift (spi_set_mode e) (λ s r n _ h l. ((config-IsFit s r n).1, tt)),
      (
        lift (spi_set_bitorder e) (λ s r n _ h l. ((config-IsFit s r n).2, tt)),
        (
          lift (spi_write_j e) (λ s r n _ h l. ((config-IsFit s r n).3, tt)),
          (
            lift (spi_read_j e) (λ s r n _ h l. (read_j-IsFit s r n, tt)),
            (lift (spi_transceive_j e) (λ s r n _ h l. (transceive_j-IsFit s r n h l, tt)), tt),
          ),
        ),
      ),
    ),
  )
    where
      lift :
          (f : Spi e → List ℕ → ℕ → Spi e × Reply)
          → FitsDevice e.target AnySpi f
          → FitsHandler e.target (All AnySpi) (on_device f)
      lift = on_device-Fits e.target AnySpi
