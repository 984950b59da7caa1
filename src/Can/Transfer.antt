-- ===== src/Can/Transfer.antt =====
-- can_write_cb, can_write and can_read.
use jabi.Prelude.{
  ℕ, zero, suc, ◌+◌, ◌-◌, ◌%◌, ◌^◌, Bool, true, false, not, none, some, List, [], ◌∷◌, ◌++◌, ltb,
  ◌==◌, if◌then◌else◌, get_or, take, drop, replicate,
}
use jabi.Packet.{le32_at}
use jabi.Periph.{
  Reply, no_err, fail, done, invalid_args_format_err, not_supported_err, peripheral_err, busy_err,
}
use jabi.Can.Driver.{Frame, CanEnv}
use jabi.Can.State.{Can, write_hdr, read_hdr, nonzero}

module _ (e : CanEnv) where
  -- can_write_cb, called `n` times
  unfoldable pub can_write_cb : ℕ → e.Sem → e.Sem
  can_write_cb zero lock = lock
  can_write_cb (suc n) lock = can_write_cb n (e.give lock)

  -- k_sem_take(&can->tx_lock, SEND_TIMEOUT): at once, or after what the controller does meanwhile.
  unfoldable pub wait_sent : Can e → Bool × Can e
  wait_sent can = elim (e.take_now can.tx_lock) [
    | some lock ↦ (true, record can { tx_lock = lock })
    | none ↦
        let (n, ctl) = e.run can.ctl in
        let given = can_write_cb n can.tx_lock in
        elim (e.take_now given) [
          | some lock ↦ (true, record can { ctl = ctl; tx_lock = lock })
          | none ↦ (false, record can { ctl = ctl; tx_lock = given })
        ]
  ]

  -- From can_send on.
  unfoldable pub send_frame : Can e → Frame → Can e × Reply
  send_frame can msg =
      let (ok, ctl) = e.send can.ctl msg in
      if not ok
      then (record can { ctl = ctl }, fail peripheral_err)
      else (let (sent, can') = wait_sent (record can { ctl = ctl }) in
          if sent
          then (record can' { tx_was_busy = false }, done)
          else (record can' { tx_was_busy = true }, fail busy_err))

  -- k_sem_take(&can->tx_lock, K_NO_WAIT), after a write that was not confirmed in time.
  unfoldable pub claim_lock : Can e → Frame → Can e × Reply
  claim_lock can msg = elim (e.take_now can.tx_lock) [
    | none ↦ (can, fail busy_err)
    | some lock ↦ send_frame (record can { tx_lock = lock }) msg
  ]

  -- From `if (can->tx_was_busy)` on.
  unfoldable pub queue_frame : Can e → Frame → Can e × Reply
  queue_frame can msg = if can.tx_was_busy then claim_lock can msg else send_frame can msg

  -- The frame of a request: the data are padded with zeros up to the size of the length code, and
  -- the rest of the array is zero as well.
  unfoldable pub frame_of : List ℕ → Frame
  frame_of req =
      let data_len = get_or req 8 0 in
      let dlc = e.bytes_to_dlc data_len in
      record {
        id = le32_at e.target req 0;
        dlc = dlc;
        ide = nonzero (get_or req 4 0);
        rtr = nonzero (get_or req 7 0);
        fdf = nonzero (get_or req 5 0);
        brs = nonzero (get_or req 6 0);
        bytes =
            take (e.dlc_to_bytes dlc)
              (take data_len (drop write_hdr req) ++ replicate (e.dlc_to_bytes dlc - data_len) 0)
            ++ replicate (e.max_dlen - e.dlc_to_bytes dlc) 0;
      }

  unfoldable pub can_write : Can e → List ℕ → ℕ → Can e × Reply
  can_write can req req_len =
      let data_len = get_or req 8 0 in
      if not (req_len == write_hdr + (if nonzero (get_or req 7 0) then 0 else data_len))
      then (can, fail invalid_args_format_err)
      else if ltb e.max_dlen data_len
      then (can, fail not_supported_err)
      else queue_frame can (frame_of req)

  -- `msg.flags & BIT`
  abbrev pub bit_of : Bool → ℕ → ℕ
  bit_of set bit = if set then bit % 256 else 0

  -- The response to a frame, with uint16_t and uint32_t fields; `left` is k_msgq_num_used_get after the frame was taken.
  unfoldable pub read_resp : ℕ → Frame → Reply
  read_resp left msg =
      let data_len = e.dlc_to_bytes msg.dlc in
      let header =
        e.store16 (e.cpu_to_le16 (left % 2 ^ 16))
        ++ (e.store32 (e.cpu_to_le32 (msg.id % 2 ^ 32))
            ++ (bit_of msg.ide e.ide_bit
                ∷ bit_of msg.fdf e.fdf_bit
                ∷ bit_of msg.brs e.brs_bit
                ∷ bit_of msg.rtr e.rtr_bit
                ∷ data_len
                ∷ [])) in
      if bit_of msg.rtr e.rtr_bit == 0
      then record {
        retcode = no_err;
        resp = header ++ take data_len msg.bytes;
        resp_len = read_hdr + data_len;
      }
      else record { retcode = no_err; resp = header; resp_len = read_hdr }

  -- From k_msgq_get on.
  unfoldable pub next_frame : Can e → Can e × Reply
  next_frame can = elim (e.get can.msgq) [
    | none ↦ (can, done)
    | some (msg, rest) ↦ (record can { msgq = rest }, read_resp (e.num_used rest) msg)
  ]

  unfoldable pub can_read : Can e → List ℕ → ℕ → Can e × Reply
  can_read can req req_len =
      if not (req_len == 0) then (can, fail invalid_args_format_err) else next_frame can
