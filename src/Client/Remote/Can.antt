-- ===== src/Client/Remote/Can.antt =====
-- can_write of the client on a CAN device of the board.
use jabi.Prelude.{
  Bool, true, false, if◌then◌else◌, ℕ, ◌+◌, ◌-◌, ◌%◌, ◌^◌, ◌≤◌, ◌<◌, ◌≡◌, refl, ap, ◌∙◌, arith,
  Bool, true, false, some, List, ◌++◌, ◌==◌, ltb, ltb-false, length, get_elem?, set, replicate, All,
  Option-cases, inl, inr,
}
use jabi.Bytes.{IsByte}
use jabi.Periph.{Handler, on_device}
use jabi.Serve.Answer.{KeepsOrder}
use jabi.Board.{Board, Devices, on_part, peripherals}
use jabi.Board.Fit.{IsBoard, AreSound}
use jabi.Can.Driver.{Frame, CanEnv}
use jabi.Can.State.{Can, nonzero}
use jabi.Can.Transfer.{wait_sent, send_frame, claim_lock, queue_frame, frame_of, can_write}
use jabi.Can.Table.{can_periph_api}
use jabi.Can.Frames.{Message, encode_message, frame_of-encode_message}
use jabi.Client.{Endian, put32-le}
use jabi.Client.Interface.{Interface, request}
use jabi.Client.Link.{Firmware, IsReady}
use jabi.Client.Routed.{reply_result}
use jabi.Client.Routed.{refused}
use jabi.Client.Remote.{
  Fits, request-Refused, device, request-Done, finish, outcome, finish-outcome,
}
use jabi.Client.Can as HostCan
use jabi.Client.Can.{CanMessage, byte_of, can_max_len}

-- The frame that stands for a message with data.
abbrev pub frame_for : CanEnv → CanMessage → Frame
frame_for e msg = record {
  id = msg.id;
  dlc = e.bytes_to_dlc (length msg.bytes);
  ide = msg.ext;
  rtr = false;
  fdf = msg.fd;
  brs = msg.brs;
  bytes = msg.bytes ++ replicate (e.max_dlen - length msg.bytes) 0;
}

-- A message with data that both ends can carry.
pub record IsCanMessage (e : CanEnv) (msg : CanMessage) : Type 0 where
  pub is_data : msg.rtr ≡ false
  pub id_fits : msg.id < 2 ^ 32
  pub bytes_fit : length msg.bytes ≤ e.max_dlen
  pub are_bytes : All IsByte msg.bytes

abbrev message_of : CanMessage → Message
message_of msg = record {
  id = msg.id;
  id_type = byte_of msg.ext;
  fd = byte_of msg.fd;
  brs = byte_of msg.brs;
  payload = msg.bytes;
}

nonzero-byte_of : (v : Bool) → nonzero (byte_of v) ≡ v
nonzero-byte_of true = refl
nonzero-byte_of false = refl

byte_of-IsByte : (v : Bool) → IsByte (byte_of v)
byte_of-IsByte true = omega arith
byte_of-IsByte false = omega arith

module _ (e : CanEnv) where
  payload-encode_message :
      {W : Type 0} (i : Interface W) (msg : CanMessage)
      → IsCanMessage e msg
      → HostCan.can_write_payload i msg ≡ encode_message (message_of msg)
  payload-encode_message i msg h =
      let short : length msg.bytes % 2 ^ 8 ≡ length msg.bytes =
        omega (arith, h.bytes_fit, e.max_dlen-le) in
      rw (put32-le i.endian msg.id h.id_fits, h.is_data, short) refl

  -- Sending answers without data.
  send_frame-empty : (can : Can e) (m : Frame) → (send_frame e can m).1.resp_len ≡ 0
  unfolding send_frame wait_sent
  send_frame-empty can m = ground arith

  claim_lock-empty : (can : Can e) (m : Frame) → (claim_lock e can m).1.resp_len ≡ 0
  unfolding claim_lock
  claim_lock-empty can m = elim (Option-cases (e.take_now can.tx_lock)) [
    | inl full ↦ rw (full, claim_lock) refl
    | inr (lock, got) ↦ rw (got, claim_lock) (send_frame-empty (record can { tx_lock = lock }) m)
  ]

  queue_frame-empty : (can : Can e) (m : Frame) → (queue_frame e can m).1.resp_len ≡ 0
  unfolding queue_frame
  queue_frame-empty can m = ground (arith, claim_lock-empty can m, send_frame-empty can m)

  can_write-empty : (can : Can e) (req : List ℕ) (n : ℕ) → (can_write e can req n).1.resp_len ≡ 0
  unfolding can_write
  can_write-empty can req n = ground (arith, queue_frame-empty can (frame_of e req))

  on_device-empty :
      (cans : List (Can e)) (idx : ℕ) (req : List ℕ) (n : ℕ)
      → (on_device (can_write e) cans idx req n).1.resp_len ≡ 0
  on_device-empty cans idx req n = elim (Option-cases (get_elem? cans idx)) [
    | inl missing ↦ rw (missing, on_device) refl
    | inr (can, found) ↦ rw (found, on_device) (can_write-empty can req n)
  ]

  -- The firmware's side of the call.
  can_write-frame_for :
      (can : Can e) (msg : CanMessage) (rest : List ℕ)
      → IsCanMessage e msg
      → can_write e can
          (encode_message (message_of msg) ++ rest)
          (length (encode_message (message_of msg)))
        ≡ queue_frame e can (frame_for e msg)
  unfolding can_write
  can_write-frame_for can msg rest h =
      let whole : (length (encode_message (message_of msg)) == 9 + length msg.bytes) ≡ true =
        ground arith in
      let frame =
        frame_of-encode_message e (message_of msg) rest
          (record { id_fits = h.id_fits; payload_fits = h.bytes_fit }) in
      rw
        (
          frame,
          nonzero-byte_of msg.ext,
          nonzero-byte_of msg.fd,
          nonzero-byte_of msg.brs,
          ltb-false e.max_dlen (length msg.bytes) h.bytes_fit,
          whole,
        )
        refl

  message-bytes :
      (msg : CanMessage) → IsCanMessage e msg → All IsByte (encode_message (message_of msg))
  message-bytes msg h =
      let small : IsByte (length msg.bytes) = omega (arith, h.bytes_fit, e.max_dlen-le) in
      let ext = byte_of-IsByte msg.ext in
      let fd = byte_of-IsByte msg.fd in
      let brs = byte_of-IsByte msg.brs in
      (
        omega arith,
        (
          omega arith,
          (omega arith, (omega arith, (ext, (fd, (brs, (omega arith, (small, h.are_bytes))))))),
        ),
      )

module _ (b : Board) (is_board : IsBoard b) (keeps_order : KeepsOrder b.metadata.target)
    (e : Endian) (packet_size : ℕ) (positive : 0 < packet_size) (req_max resp_max : ℕ) where
  abbrev on_usb : Bool → Interface (Firmware (Devices b))
  on_usb = device b is_board keeps_order e packet_size positive req_max resp_max

  abbrev on_can : Handler (Devices b)
  on_can = on_part (λ d. d.can) (λ s d. record d { can = s }) (on_device (can_write b.can))

  message-Fits :
      (idx : ℕ) (msg : CanMessage)
      → idx < b.can_num
      → idx < 2 ^ 16
      → 9 + length msg.bytes ≤ req_max
      → IsCanMessage b.can msg
      → Fits b is_board keeps_order e packet_size positive req_max resp_max 1 idx 4
          (encode_message (message_of msg))
          on_can
  unfolding peripherals can_periph_api
  message-Fits idx msg exists small room h = record {
    reaches = record {
      api = _;
      known = omega arith;
      listed = refl;
      instance_exists = exists;
      offered = refl;
    };
    id_fits = omega arith;
    idx_fits = small;
    fn_fits = omega arith;
    sent = omega (arith, room);
    received = omega (arith, h.bytes_fit, b.can.max_dlen-le, b.metadata.target.req_max-ge);
    bytes = message-bytes b.can msg h;
    short = λ d array.
        omega
          (arith, on_device-empty b.can d.can idx array (length (encode_message (message_of msg))));
  }

  -- On a little-endian board, one build with its whole table of peripherals, whose arrays have
  -- their sizes, whose devices are in order, which exchanges packets of a positive size with
  -- the host and has only empty transfers pending and none begun, can_write of the client, with
  -- a data message that the device and the client's requests can carry, does to that CAN device
  -- what queue_frame does with the frame of the message, its id, its flags and its bytes filled
  -- up with zeros, and nothing to the rest of the board; it returns if that answers without
  -- error, and throws its error code otherwise. All this holds if the lock of the device is
  -- taken in time; otherwise the call throws the code of JABI_BUSY_ERR, and the board's
  -- peripherals stay as they are.
  pub can_write-frame :
      (taken : Bool) (w : Firmware (Devices b)) (idx : ℕ) (can : Can b.can) (msg : CanMessage)
      → IsReady b.metadata.target (AreSound b) w
      → idx < b.can_num
      → idx < 2 ^ 16
      → 9 + length msg.bytes ≤ req_max
      → get_elem? w.state.can idx ≡ some can
      → IsCanMessage b.can msg
      → let ran = queue_frame b.can can (frame_for b.can msg) in
        let out = HostCan.can_write (on_usb taken) msg idx w in
        (out.0 ≡ (if taken then outcome ran.1 else refused))
        × (out.1.state
            ≡ (if taken then record w.state { can = set w.state.can idx ran.0 } else w.state))
  unfolding HostCan.can_write
  can_write-frame true w idx can msg ready exists small room found h =
      let payload = encode_message (message_of msg) in
      let d =
        request-Done b is_board keeps_order e packet_size positive req_max resp_max w 1 idx 4
          payload on_can ready (message-Fits idx msg exists small room h) in
      let ran = queue_frame b.can can (frame_for b.can msg) in
      let side : on_can w.state idx (payload ++ d.rest) (length payload)
          ≡ (record w.state { can = set w.state.can idx ran.0 }, ran.1) =
        rw (found, on_device, can_write-frame_for b.can can msg d.rest h) refl in
      let after = (on_usb true).send_request (request 1 idx 4 payload) w in
      let ends =
        ap (λ q. finish q after.1) (d.result ∙ ap (λ p. reply_result p.1) side)
        ∙ finish-outcome ran.1 after.1 (queue_frame-empty b.can can (frame_for b.can msg)) in
      let guard : ltb can_max_len (length msg.bytes) ≡ false =
        ltb-false can_max_len (length msg.bytes) (omega (arith, h.bytes_fit, b.can.max_dlen-le)) in
      rw (guard, payload-encode_message b.can (on_usb true) msg h)
        (ap (λ p. p.0) ends, ap (λ p. p.1.state) ends ∙ d.state ∙ ap (λ p. p.0) side)
  can_write-frame false w idx can msg ready exists small room found h =
      let payload = encode_message (message_of msg) in
      let d =
        request-Refused b is_board keeps_order e packet_size positive req_max resp_max w 1 idx 4
          payload on_can ready (message-Fits idx msg exists small room h) in
      let after = (on_usb false).send_request (request 1 idx 4 payload) w in
      let ends = ap (λ q. finish q after.1) d.result in
      let guard : ltb can_max_len (length msg.bytes) ≡ false =
        ltb-false can_max_len (length msg.bytes) (omega (arith, h.bytes_fit, b.can.max_dlen-le)) in
      rw (guard, payload-encode_message b.can (on_usb false) msg h)
        (ap (λ p. p.0) ends, ap (λ p. p.1.state) ends ∙ d.state)
