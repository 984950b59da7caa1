-- ===== src/Spi/Config.antt =====
-- The two slots of spi.c and the driver's configuration: the slots and the stale flag serve a
-- driver that compares pointers.
use jabi.Prelude.{
  ℕ, ◌≤◌, ◌≡◌, ◌≢◌, ◌⊎◌, inl, inr, arith, true, false, List, none, some, get_or, Bool-cases,
}
use jabi.Spi.Driver.{SpiOp, SpiEnv, ComparesPointers}
use jabi.Spi.Device.{
  Spi, current, spi_set_freq, spi_set_mode, spi_set_bitorder, spi_update_config, run_transfer,
}

module _ (e : SpiEnv) (p : ComparesPointers e) where
  open p use {last, active}

  -- The slots agree, and where the driver would keep its configuration, it keeps the right one.
  pub record IsSynced (spi : Spi e) : Type 0 where
    pub agree : spi.config1 ≡ spi.config0
    pub slot_exists : spi.curr_cfg ≤ 1
    pub known : (last spi.bus ≡ none) ⊎ (last spi.bus ≡ some spi.curr_cfg)
    pub fresh : spi.stale ≡ false → last spi.bus ≡ some spi.curr_cfg → active spi.bus ≡ spi.config0

  pub set_freq-IsSynced :
      (spi : Spi e) (req : List ℕ) (req_len : ℕ)
      → IsSynced spi
      → IsSynced (spi_set_freq e spi req req_len).0
  unfolding spi_set_freq
  set_freq-IsSynced spi req req_len h = ground arith

  -- Provided that the mode is one of the four.
  pub set_mode-IsSynced :
      (spi : Spi e) (req : List ℕ) (req_len : ℕ)
      → get_or req 0 0 ≤ 3
      → IsSynced spi
      → IsSynced (spi_set_mode e spi req req_len).0
  unfolding spi_set_mode
  set_mode-IsSynced spi req req_len valid h = ground arith

  pub set_bitorder-IsSynced :
      (spi : Spi e) (req : List ℕ) (req_len : ℕ)
      → IsSynced spi
      → IsSynced (spi_set_bitorder e spi req req_len).0
  unfolding spi_set_bitorder
  set_bitorder-IsSynced spi req req_len h = ground arith

  -- After spi_update_config the slot in use holds the configuration asked for, and either the
  -- driver was configured from another slot or it runs that configuration already.
  record IsUpdated (spi updated : Spi e) : Type 0 where
    same0 : updated.config0 ≡ spi.config0
    same1 : updated.config1 ≡ spi.config0
    uses : current e updated ≡ spi.config0
    slot_exists : updated.curr_cfg ≤ 1
    not_stale : updated.stale ≡ false
    choice :
        (last updated.bus ≢ some updated.curr_cfg)
        ⊎ ((last updated.bus ≡ some updated.curr_cfg) × (active updated.bus ≡ spi.config0))

  update-choice :
      (spi : Spi e)
      → IsSynced spi
      → (last (spi_update_config e spi).bus ≢ some (spi_update_config e spi).curr_cfg)
        ⊎ ((last (spi_update_config e spi).bus ≡ some (spi_update_config e spi).curr_cfg)
            × (active (spi_update_config e spi).bus ≡ spi.config0))
  unfolding spi_update_config
  update-choice spi h = elim h.known [
    | inl none_yet ↦ inl (λ q. ground arith)
    | inr here ↦ elim (Bool-cases spi.stale) [
      | inl old ↦ inl (λ q. ground arith)
      | inr new ↦ inr (ground arith, ground arith)
    ]
  ]

  update-IsUpdated : (spi : Spi e) → IsSynced spi → IsUpdated spi (spi_update_config e spi)
  unfolding spi_update_config
  update-IsUpdated spi h = record {
    same0 = ground arith;
    same1 = ground arith;
    uses = ground arith;
    slot_exists = ground arith;
    not_stale = ground arith;
    choice = update-choice spi h;
  }

  -- A successful transfer runs with the configuration asked for, and the device stays in step.
  pub run_transfer-active :
      (spi : Spi e) (op : SpiOp)
      → IsSynced spi
      → (run_transfer e spi op).0 ≡ true
      → (active (run_transfer e spi op).2.bus ≡ spi.config0)
        × IsSynced (run_transfer e spi op).2
        × ((run_transfer e spi op).2.config0 ≡ spi.config0)
  unfolding run_transfer
  run_transfer-active spi op h ok =
      let u = spi_update_config e spi in
      ground (
        arith,
        update-IsUpdated spi h,
        p.last-transfer u.bus op u.curr_cfg (current e u),
        p.active-same u.bus op u.curr_cfg (current e u),
        p.active-other u.bus op u.curr_cfg (current e u),
      )
