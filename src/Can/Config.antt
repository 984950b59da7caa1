-- ===== src/Can/Config.antt =====
-- can_set_filter, can_set_rate, can_set_style and can_state.
use jabi.Prelude.{
  ℕ, Bool, true, false, not, ◌||◌, Option, none, some, List, [], ◌∷◌, leb, ◌==◌, if◌then◌else◌,
  get_or, ◌%◌,
}
use jabi.Packet.{le32_at}
use jabi.Periph.{
  Reply, fail, done, reply_with, invalid_args_format_err, peripheral_err, invalid_args_err,
}
use jabi.Can.Driver.{Filter, Style, normal, loopback, listen_only, CanEnv, SlotId}
use jabi.Can.State.{Can, FilterData, can_std_id_mask, is_enospc}

abbrev pub style_of : ℕ → Option Style
style_of mode =
    if mode == 0
    then some normal
    else if mode == 1
    then some loopback
    else if mode == 2
    then some listen_only
    else none

module _ (e : CanEnv) where
  -- The standard filter is added again only if the mask fits 11 bits; otherwise `id` keeps the
  -- number of the filter just removed.
  unfoldable pub add_std : e.Ctl → FilterData → SlotId × e.Ctl
  add_std ctl f =
      if leb f.filter.mask can_std_id_mask then e.add_rx_filter ctl f.filter else (f.id, ctl)

  unfoldable pub can_set_filter : Can e → List ℕ → ℕ → Can e × Reply
  unfolding add_std
  can_set_filter can req req_len =
      let id = le32_at e.target req 0 in
      let id_mask = le32_at e.target req 4 in
      let removed =
        e.remove_rx_filter (e.remove_rx_filter can.ctl can.filter_std.id) can.filter_ext.id in
      let std : Filter = record { id = id; mask = id_mask; ide = false } in
      let ext : Filter = record { id = id; mask = id_mask; ide = true } in
      let (std_id, ctl1) = add_std removed (record { filter = std; id = can.filter_std.id }) in
      let (ext_id, ctl2) = e.add_rx_filter ctl1 ext in
      let can' = record can {
        ctl = ctl2;
        filter_std = record { filter = std; id = std_id };
        filter_ext = record { filter = ext; id = ext_id };
      } in
      if not (req_len == 8)
      then (can, fail invalid_args_format_err)
      else if is_enospc std_id || is_enospc ext_id
      then (can', fail peripheral_err)
      else (can', done)

  -- CONFIG_CAN_FD_MODE compiles the call of can_set_bitrate_data in or out.
  unfoldable pub set_data_rate : e.Ctl → ℕ → Bool × e.Ctl
  set_data_rate ctl bitrate_data =
      if e.fd_mode then e.set_bitrate_data ctl bitrate_data else (true, ctl)

  unfoldable pub can_set_rate : Can e → List ℕ → ℕ → Can e × Reply
  unfolding set_data_rate
  can_set_rate can req req_len =
      let bitrate = le32_at e.target req 0 in
      let bitrate_data = le32_at e.target req 4 in
      let (stop_ok, ctl1) = e.stop can.ctl in
      let (rate_ok, ctl2) = e.set_bitrate ctl1 bitrate in
      let (data_ok, ctl3) = set_data_rate ctl2 bitrate_data in
      let (start_ok, ctl4) = e.start ctl3 in
      if not (req_len == 8)
      then (can, fail invalid_args_format_err)
      else if not stop_ok
      then (record can { ctl = ctl1 }, fail peripheral_err)
      else if not rate_ok
      then (record can { ctl = ctl2 }, fail peripheral_err)
      else if not data_ok
      then (record can { ctl = ctl3 }, fail peripheral_err)
      else if not start_ok
      then (record can { ctl = ctl4 }, fail peripheral_err)
      else (record can { ctl = ctl4 }, done)

  unfoldable pub apply_style : Can e → Style → Can e × Reply
  apply_style can style =
      let (stop_ok, ctl1) = e.stop can.ctl in
      let (mode_ok, ctl2) = e.set_mode ctl1 style e.fd_mode in
      let (start_ok, ctl3) = e.start ctl2 in
      if not stop_ok
      then (record can { ctl = ctl1 }, fail peripheral_err)
      else if not mode_ok
      then (record can { ctl = ctl2 }, fail peripheral_err)
      else if not start_ok
      then (record can { ctl = ctl3 }, fail peripheral_err)
      else (record can { ctl = ctl3 }, done)

  unfoldable pub can_set_style : Can e → List ℕ → ℕ → Can e × Reply
  unfolding apply_style
  can_set_style can req req_len =
      if not (req_len == 1)
      then (can, fail invalid_args_format_err)
      else elim (style_of (get_or req 0 0)) [
        | none ↦ (can, fail invalid_args_err)
        | some style ↦ apply_style can style
      ]

  unfoldable pub can_state : Can e → List ℕ → ℕ → Can e × Reply
  can_state can req req_len =
      if not (req_len == 0)
      then (can, fail invalid_args_format_err)
      else elim (e.get_state can.ctl) [
        | none ↦ (can, fail peripheral_err)
        | some b ↦ (can, reply_with (b.state % 256 ∷ b.tx_err_cnt % 256 ∷ b.rx_err_cnt % 256 ∷ []))
      ]
