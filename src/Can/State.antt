-- ===== src/Can/State.antt =====
-- can_dev_data_t and can_init.
use jabi.Prelude.{ℕ, Bool, true, false, not, ◌||◌, ◌==◌, if◌then◌else◌}
use jabi.Periph.{JabiErr, no_err, peripheral_err}
use jabi.Can.Driver.{SlotId, slot, enospc, failed, Filter, normal, CanEnv}

-- can_filter_data_t
pub record FilterData : Type 0 where
  pub filter : Filter
  pub id : SlotId

-- CAN_STD_ID_MASK
abbrev pub can_std_id_mask : ℕ
can_std_id_mask = 0x7ff

-- sizeof(can_write_req_t) and sizeof(can_read_resp_t), less the flexible array
abbrev pub write_hdr : ℕ
write_hdr = 9

abbrev pub read_hdr : ℕ
read_hdr = 11

abbrev pub nonzero : ℕ → Bool
nonzero n = not (n == 0)

abbrev pub is_enospc : SlotId → Bool
is_enospc enospc = true
is_enospc (slot n) = false
is_enospc failed = false

-- can_dev_data_t; `ctl` is the state of the controller behind `dev`.
pub record Can (e : CanEnv) : Type 0 where
  pub ctl : e.Ctl
  pub filter_std : FilterData
  pub filter_ext : FilterData
  pub msgq : e.Msgq
  pub tx_lock : e.Sem
  pub tx_was_busy : Bool

module _ (e : CanEnv) where
  -- can_init, on the device as GEN_CAN_DEV_DATA sets it up.
  unfoldable pub can_init : Can e → Can e × JabiErr
  can_init can =
      let (mode_ok, ctl1) = e.set_mode can.ctl normal e.fd_mode in
      let (start_ok, ctl2) = e.start ctl1 in
      let (std_id, ctl3) = e.add_rx_filter ctl2 can.filter_std.filter in
      let (ext_id, ctl4) = e.add_rx_filter ctl3 can.filter_ext.filter in
      let with_filters = record can {
        ctl = ctl4;
        filter_std = record { filter = can.filter_std.filter; id = std_id };
        filter_ext = record { filter = can.filter_ext.filter; id = ext_id };
      } in
      if not mode_ok
      then (record can { ctl = ctl1 }, peripheral_err)
      else if not start_ok
      then (record can { ctl = ctl2 }, peripheral_err)
      else if is_enospc std_id || is_enospc ext_id
      then (with_filters, peripheral_err)
      else (record with_filters { tx_lock = e.sem_init 0 1 }, no_err)
