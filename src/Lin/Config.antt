-- ===== src/Lin/Config.antt =====
-- lin_set_mode_j, lin_set_rate, lin_set_filter, lin_mode and lin_status.
use jabi.Prelude.{
  ℕ, ◌%◌, not, ◌&&◌, ◌||◌, Option, none, some, List, [], ◌∷◌, ltb, leb, ◌==◌, if◌then◌else◌, get_or,
  set,
}
use jabi.Packet.{le32_at}
use jabi.Periph.{
  Reply, fail, done, reply_with, uninitialized_err, invalid_args_format_err, invalid_args_err,
  peripheral_err,
}
use jabi.Lin.Driver.{
  Checksum, classic, enhanced, auto_checksum, BusMode, commander, responder, LinEnv,
}
use jabi.Lin.Device.{Filter, Lin, deactivate}

abbrev pub mode_of : ℕ → Option BusMode
mode_of m = if m == 0 then some commander else if m == 1 then some responder else none

abbrev pub filter_type_of : ℕ → Option Checksum
filter_type_of c =
    if c == 0
    then some classic
    else if c == 1
    then some enhanced
    else if c == 2
    then some auto_checksum
    else none

module _ (e : LinEnv) where
  -- The change from responder to commander drops all messages.
  abbrev pub enter_mode : Lin e → ℕ → Lin e
  enter_mode lin m =
      if lin.mode == 1 && m == 0
      then record lin { mode = m; tx_msgs = deactivate lin.tx_msgs; rx_msgs = e.purge lin.rx_msgs }
      else record lin { mode = m }

  unfoldable pub lin_set_mode_j : Lin e → List ℕ → ℕ → Lin e × Reply
  lin_set_mode_j lin req req_len =
      let m = get_or req 0 0 in
      if not (req_len == 1) then (lin, fail invalid_args_format_err) else elim (mode_of m) [
        | none ↦ (lin, fail invalid_args_err)
        | some mode ↦
            let (ok, ctl) = e.set_mode lin.ctl mode in
            if not ok
            then (record lin { ctl = ctl }, fail peripheral_err)
            else (enter_mode (record lin { ctl = ctl }) m, done)
      ]

  unfoldable pub lin_set_rate : Lin e → List ℕ → ℕ → Lin e × Reply
  lin_set_rate lin req req_len =
      let (ok, ctl) = e.set_bitrate lin.ctl (le32_at e.target req 0) in
      if not (req_len == 4)
      then (lin, fail invalid_args_format_err)
      else (record lin { ctl = ctl }, if ok then done else fail peripheral_err)

  -- From k_sem_take on. Where K_FOREVER would wait for ever, the model answers uninitialized_err.
  unfoldable pub store_filter : Lin e → ℕ → Filter → Lin e × Reply
  store_filter lin id filter = elim (e.take_now lin.msg_lock) [
    | none ↦ (lin, fail uninitialized_err)
    | some lock ↦ (record lin { msg_lock = e.give lock; filters = set lin.filters id filter }, done)
  ]

  unfoldable pub lin_set_filter : Lin e → List ℕ → ℕ → Lin e × Reply
  lin_set_filter lin req req_len =
      let id = get_or req 0 0 in
      let data_len = get_or req 2 0 in
      if not (req_len == 3)
      then (lin, fail invalid_args_format_err)
      else if leb e.num_id id || ltb e.max_dlen data_len
      then (lin, fail invalid_args_err)
      else elim (filter_type_of (get_or req 1 0)) [
        | none ↦ (lin, fail invalid_args_err)
        | some type ↦ store_filter lin id (record { type = type; len = data_len })
      ]

  unfoldable pub lin_mode : Lin e → List ℕ → ℕ → Lin e × Reply
  lin_mode lin req req_len = (
    lin,
    if not (req_len == 0) then fail invalid_args_format_err else reply_with (lin.mode % 256 ∷ []),
  )

  unfoldable pub lin_status : Lin e → List ℕ → ℕ → Lin e × Reply
  lin_status lin req req_len = (
    lin,
    if not (req_len == 0)
        then fail invalid_args_format_err
        else reply_with (lin.status_id % 256 ∷ e.store16 (e.cpu_to_le16 lin.status_retcode)),
  )
