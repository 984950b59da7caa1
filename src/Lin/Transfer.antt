-- ===== src/Lin/Transfer.antt =====
-- lin_write, lin_read and the table lin_periph_api.
use jabi.Prelude.{
  ℕ, ◌+◌, ◌-◌, ◌%◌, ◌^◌, true, not, ◌||◌, Option, none, some, List, [], ◌∷◌, ◌++◌, ltb, leb, ◌==◌,
  if◌then◌else◌, get_elem?, get_or, set, take, drop, replicate,
}
use jabi.Periph.{
  Reply, Api, fail, done, no_err, uninitialized_err, invalid_args_format_err, invalid_args_err,
  peripheral_err, timeout_err, on_device,
}
use jabi.Lin.Driver.{Checksum, classic, enhanced, auto_checksum, Frame, LinEnv}
use jabi.Lin.Device.{Filter, Lin, lin_tx_cb, lin_rx_cb}
use jabi.Lin.Config.{lin_set_mode_j, lin_set_rate, lin_set_filter, lin_mode, lin_status}

abbrev pub frame_type_of : ℕ → Option Checksum
frame_type_of c = if c == 0 then some classic else if c == 1 then some enhanced else none

-- `msg.type == LIN_CHECKSUM_CLASSIC ? 0 : 1`
abbrev pub type_code : Checksum → ℕ
type_code classic = 0
type_code enhanced = 1
type_code auto_checksum = 1

module _ (e : LinEnv) where
  -- From `if (lin->status.retcode)` on.
  abbrev pub command_reply : ℕ → Reply
  command_reply retcode = if retcode == 0 then done else fail peripheral_err

  -- The branch of a commander. Where K_FOREVER would wait for ever, the model answers
  -- uninitialized_err.
  unfoldable pub send_command : Lin e → Frame → Lin e × Reply
  send_command lin msg =
      let (ok, ctl) = e.lin_send lin.ctl msg in
      let (error, ctl') = e.tx_result ctl in
      let sent = lin_tx_cb e (record lin { ctl = ctl' }) error in
      if not ok
      then (record lin { ctl = ctl }, fail invalid_args_err)
      else elim (e.take_now sent.cmd_lock) [
        | none ↦ (sent, fail uninitialized_err)
        | some lock ↦ (record sent { cmd_lock = lock }, command_reply sent.status_retcode)
      ]

  -- The branch of a responder.
  unfoldable pub store_response : Lin e → Frame → Lin e × Reply
  store_response lin msg = elim (e.take_now lin.msg_lock) [
    | none ↦ (lin, fail uninitialized_err)
    | some lock ↦ (
      record lin {
        msg_lock = e.give lock;
        tx_msgs = set lin.tx_msgs msg.id (record { active = true; msg = msg });
      },
      done,
    )
  ]

  -- The frame of a request; the rest of its array is zero.
  abbrev pub frame_of : List ℕ → ℕ → Checksum → Frame
  frame_of req data_len type = record {
    id = get_or req 0 0;
    len = data_len;
    type = type;
    bytes = take data_len (drop 2 req) ++ replicate (e.max_dlen - data_len) 0;
  }

  unfoldable pub write_frame : Lin e → Frame → Lin e × Reply
  write_frame lin msg = if lin.mode == 0 then send_command lin msg else store_response lin msg

  unfoldable pub lin_write : Lin e → List ℕ → ℕ → Lin e × Reply
  lin_write lin req req_len =
      if leb req_len 2 || ltb (2 + e.max_dlen) req_len
      then (lin, fail invalid_args_format_err)
      else if leb e.num_id (get_or req 0 0)
      then (lin, fail invalid_args_err)
      else elim (frame_type_of (get_or req 1 0)) [
        | none ↦ (lin, fail invalid_args_err)
        | some type ↦ write_frame lin (frame_of req (req_len - 2) type)
      ]

  -- From `ret->num_left` on; `left` is k_msgq_num_used_get after the frame was taken.
  unfoldable pub read_resp : ℕ → Frame → Reply
  read_resp left msg = record {
    retcode = no_err;
    resp =
        e.store16 (e.cpu_to_le16 (left % 2 ^ 16))
        ++ (msg.id % 256 ∷ type_code msg.type ∷ [])
        ++ take msg.len msg.bytes;
    resp_len = 4 + msg.len;
  }

  -- k_msgq_get, and the answer if there is no frame.
  unfoldable pub take_frame : Lin e → Reply → Lin e × Reply
  take_frame lin missing = elim (e.get lin.rx_msgs) [
    | none ↦ (lin, missing)
    | some (msg, rest) ↦ (record lin { rx_msgs = rest }, read_resp (e.num_used rest) msg)
  ]

  -- The branch of a commander, from k_sem_take on.
  unfoldable pub await_frame : Lin e → Lin e × Reply
  await_frame lin =
      let (error, msg, ctl) = e.rx_result lin.ctl in
      let heard = lin_rx_cb e (record lin { ctl = ctl }) error msg in
      elim (e.take_now heard.cmd_lock) [
        | none ↦ (heard, fail uninitialized_err)
        | some lock ↦
            let free : Lin e = record heard { cmd_lock = lock } in
            if not (heard.status_retcode == 0)
            then (free, fail timeout_err)
            else take_frame free (fail peripheral_err)
      ]

  -- The branch of a commander from lin_receive on.
  unfoldable pub poll_frame : Lin e → ℕ → Filter → Lin e × Reply
  poll_frame lin id filter =
      let (ok, ctl) = e.lin_receive lin.ctl id filter.type filter.len in
      if not ok
      then (record lin { ctl = ctl }, fail invalid_args_err)
      else await_frame (record lin { ctl = ctl })

  unfoldable pub lin_read : Lin e → List ℕ → ℕ → Lin e × Reply
  lin_read lin req req_len =
      let id = get_or req 0 0 in
      if not (req_len == 1)
      then (lin, fail invalid_args_format_err)
      else if lin.mode == 0
      then (if leb e.num_id id
          then (lin, fail invalid_args_err)
          else elim (get_elem? lin.filters id) [
            | none ↦ (lin, fail invalid_args_err)
            | some filter ↦ poll_frame lin id filter
          ])
      else take_frame lin done

  -- lin_periph_fns and lin_periph_api; `num` is the length of lin_devs.
  unfoldable pub lin_periph_api : ℕ → Api (List (Lin e))
  lin_periph_api num = record {
    num_idx = num;
    fns =
        on_device (lin_set_mode_j e)
        ∷ on_device (lin_set_rate e)
        ∷ on_device (lin_set_filter e)
        ∷ on_device (lin_mode e)
        ∷ on_device (lin_status e)
        ∷ on_device lin_write
        ∷ on_device lin_read
        ∷ [];
  }
