-- ===== src/Spi/Rejected.antt =====
-- spi_set_mode of spi.c with a mode that it rejects.
use jabi.Prelude.{ℕ, ◌<◌, ◌≡◌, arith, true, false, List, get_or}
use jabi.Periph.{invalid_args_err}
use jabi.Spi.Driver.{SpiOp, SpiEnv, ComparesPointers}
use jabi.Spi.Device.{Spi, spi_set_freq, spi_set_mode, spi_update_config, run_transfer}
use jabi.Spi.Config.{IsSynced}

module _ (e : SpiEnv) (p : ComparesPointers e) (spi : Spi e) (bad freq : List ℕ) where
  open p use {active}

  -- The device after a request with a bad mode and one that changes the frequency.
  abbrev pub misled : Spi e
  misled = (spi_set_freq e (spi_set_mode e spi bad 1).0 freq 4).0

  -- On a device in step whose second slot is in use, a mode above 3 is answered with
  -- JABI_INVALID_ARGS_ERR, and yet the next successful transfer after a change of frequency
  -- runs in mode 0, whatever mode the device was in.
  pub set_mode_rejected_leaks :
      (op : SpiOp)
      → IsSynced e p spi
      → spi.curr_cfg ≡ 1
      → 3 < get_or bad 0 0
      → (run_transfer e misled op).0 ≡ true
      → ((spi_set_mode e spi bad 1).1.retcode ≡ invalid_args_err)
        × ((active (run_transfer e misled op).2.bus).cpol ≡ false)
        × ((active (run_transfer e misled op).2.bus).cpha ≡ false)
  unfolding run_transfer spi_update_config spi_set_freq spi_set_mode
  set_mode_rejected_leaks op h c m ok =
      ground (arith, p.active-other misled.bus op 0 misled.config0)
