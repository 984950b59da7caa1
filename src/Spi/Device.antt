-- ===== src/Spi/Device.antt =====
-- spi_dev_data_t and the functions of spi.c.
use jabi.Prelude.{
  ℕ, Bool, true, false, not, List, [], ◌∷◌, ltb, ◌==◌, if◌then◌else◌, get_or, take, Option, none,
  some,
}
use jabi.Packet.{le16_at, le32_at}
use jabi.Periph.{
  Reply, Api, on_device, no_err, fail, done, invalid_args_format_err, invalid_args_err,
  peripheral_err,
}
use jabi.Spi.Driver.{SpiConfig, SpiOp, sends, receives, exchanges, SpiEnv}

-- `configs[2]` is the two fields.
pub record Spi (e : SpiEnv) : Type 0 where
  pub bus : e.Bus
  pub config0 : SpiConfig
  pub config1 : SpiConfig
  pub curr_cfg : ℕ
  pub stale : Bool

-- The mode bits of the modes 0 to 3.
abbrev pub mode_bits : ℕ → Option (Bool × Bool)
mode_bits mode =
    if mode == 0
    then some (false, false)
    else if mode == 1
    then some (false, true)
    else if mode == 2
    then some (true, false)
    else if mode == 3
    then some (true, true)
    else none

module _ (e : SpiEnv) where
  -- &spi->configs[spi->curr_cfg]
  abbrev pub current : Spi e → SpiConfig
  current spi = if spi.curr_cfg == 0 then spi.config0 else spi.config1

  unfoldable pub spi_init : Spi e → Spi e
  spi_init spi = record spi { config1 = spi.config0 }

  unfoldable pub spi_set_freq : Spi e → List ℕ → ℕ → Spi e × Reply
  spi_set_freq spi req req_len =
      let freq = le32_at e.target req 0 in
      if not (req_len == 4) then (spi, fail invalid_args_format_err) else (
        record spi {
          config0 = record spi.config0 { frequency = freq };
          config1 = record spi.config1 { frequency = freq };
          stale = true;
        },
        done,
      )

  -- The mode bits of configs[0] are cleared before the mode is looked at.
  unfoldable pub spi_set_mode : Spi e → List ℕ → ℕ → Spi e × Reply
  spi_set_mode spi req req_len =
      let cleared = record spi.config0 { cpol = false; cpha = false } in
      if not (req_len == 1)
      then (spi, fail invalid_args_format_err)
      else elim (mode_bits (get_or req 0 0)) [
        | none ↦ (record spi { config0 = cleared }, fail invalid_args_err)
        | some (cpol, cpha) ↦ (
          record spi {
            config0 = record cleared { cpol = cpol; cpha = cpha };
            config1 = record spi.config1 {
              cpol = cpol;
              cpha = cpha;
              lsb_first = spi.config0.lsb_first;
            };
            stale = true;
          },
          done,
        )
      ]

  unfoldable pub spi_set_bitorder : Spi e → List ℕ → ℕ → Spi e × Reply
  spi_set_bitorder spi req req_len =
      let lsb = get_or req 0 0 == 0 in
      if not (req_len == 1) then (spi, fail invalid_args_format_err) else (
        record spi {
          config0 = record spi.config0 { lsb_first = lsb };
          config1 = record spi.config1 {
            cpol = spi.config0.cpol;
            cpha = spi.config0.cpha;
            lsb_first = lsb;
          };
          stale = true;
        },
        done,
      )

  unfoldable pub spi_update_config : Spi e → Spi e
  spi_update_config spi =
      if spi.stale
      then record spi { curr_cfg = if spi.curr_cfg == 0 then 1 else 0; stale = false }
      else spi

  -- The transfer with the current configuration, after spi_update_config.
  unfoldable pub run_transfer : Spi e → SpiOp → Bool × List ℕ × Spi e
  run_transfer spi op =
      let spi' = spi_update_config spi in
      let (ok, rx, bus) = e.transfer spi'.bus op spi'.curr_cfg (current spi') in
      (ok, rx, record spi' { bus = bus })

  unfoldable pub spi_write_j : Spi e → List ℕ → ℕ → Spi e × Reply
  spi_write_j spi req req_len =
      let (ok, rx, spi') = run_transfer spi (sends (take req_len req)) in
      if not ok then (spi', fail peripheral_err) else (spi', done)

  unfoldable pub spi_read_j : Spi e → List ℕ → ℕ → Spi e × Reply
  spi_read_j spi req req_len =
      let data_len = le16_at e.target req 0 in
      let (ok, rx, spi') = run_transfer spi (receives data_len) in
      if not (req_len == 2)
      then (spi, fail invalid_args_format_err)
      else if ltb e.resp_max data_len
      then (spi, fail invalid_args_err)
      else if not ok
      then (spi', fail peripheral_err)
      else (spi', record { retcode = no_err; resp = rx; resp_len = data_len })

  unfoldable pub spi_transceive_j : Spi e → List ℕ → ℕ → Spi e × Reply
  spi_transceive_j spi req req_len =
      let (ok, rx, spi') = run_transfer spi (exchanges (take req_len req)) in
      if ltb e.resp_max req_len
      then (spi, fail invalid_args_err)
      else if not ok
      then (spi', fail peripheral_err)
      else (spi', record { retcode = no_err; resp = rx; resp_len = req_len })

  -- spi_periph_fns and spi_periph_api
  unfoldable pub spi_periph_api : ℕ → Api (List (Spi e))
  spi_periph_api num = record {
    num_idx = num;
    fns =
        on_device spi_set_freq
        ∷ on_device spi_set_mode
        ∷ on_device spi_set_bitorder
        ∷ on_device spi_write_j
        ∷ on_device spi_read_j
        ∷ on_device spi_transceive_j
        ∷ [];
  }
