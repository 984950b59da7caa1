-- ===== src/Client/Can.antt =====
-- clients/cpp/libjabi/peripherals/can.cpp, and the CAN types of device.h.
use jabi.Prelude.{
  ℕ, ◌+◌, ◌/◌, ◌%◌, ◌^◌, Bool, true, false, not, ◌&&◌, ◌||◌, Option, none, some, List, [], ◌∷◌,
  ◌++◌, ltb, ◌==◌, if◌then◌else◌, length, get_or, take, drop, replicate,
}
use jabi.Client.{put32, at16, at32}
use jabi.Client.Interface.{
  Action, Interface, pure, ◌>>=◌, ◌>>◌, throw_if, request, expect_size, expect_empty, data_too_long,
  unexpected_payload_length,
}

-- enum class CANMode
pub data CanMode : Type 0 where
  normal loopback listenonly : CanMode

abbrev pub can_mode_code : CanMode → ℕ
can_mode_code normal = 0
can_mode_code loopback = 1
can_mode_code listenonly = 2

-- struct CANState
pub record CanState : Type 0 where
  pub state : ℕ
  pub tx_err : ℕ
  pub rx_err : ℕ

-- struct CANMessage
pub record CanMessage : Type 0 where
  pub id : ℕ
  pub ext : Bool
  pub fd : Bool
  pub brs : Bool
  pub rtr : Bool
  pub bytes : List ℕ

-- `id & ~0x7FF`, of the 32-bit pattern
abbrev pub is_ext : ℕ → Bool
is_ext id = not (id % 2 ^ 32 / 2 ^ 11 == 0)

-- The constructors of CANMessage: none, a remote request, a message with data.
abbrev pub empty_message : CanMessage
empty_message = record { id = 0; ext = false; fd = false; brs = false; rtr = false; bytes = [] }

abbrev pub remote_message : ℕ → ℕ → Bool → Bool → CanMessage
remote_message id req_len fd brs = record {
  id = id;
  ext = is_ext id;
  fd = fd;
  brs = brs;
  rtr = true;
  bytes = replicate req_len 0;
}

abbrev pub bytes_message : ℕ → List ℕ → Bool → Bool → CanMessage
bytes_message id bytes fd brs = record {
  id = id;
  ext = is_ext id;
  fd = fd;
  brs = brs;
  rtr = false;
  bytes = bytes;
}

abbrev pub can_max_len : ℕ
can_max_len = 64

-- `static_cast<uint8_t>` of a bool
abbrev pub byte_of : Bool → ℕ
byte_of b = if b then 1 else 0

module _ {W : Type 0} (i : Interface W) where
  unfoldable pub can_set_filter : ℕ → ℕ → ℕ → Action W (Unit {0})
  can_set_filter id id_mask idx = do
    resp ← i.send_request (request 1 idx 0 (put32 i.endian id ++ put32 i.endian id_mask))
    expect_empty resp

  unfoldable pub can_set_rate : ℕ → ℕ → ℕ → Action W (Unit {0})
  can_set_rate bitrate bitrate_data idx = do
    resp ← i.send_request (request 1 idx 1 (put32 i.endian bitrate ++ put32 i.endian bitrate_data))
    expect_empty resp

  unfoldable pub can_set_mode : CanMode → ℕ → Action W (Unit {0})
  can_set_mode mode idx = do
    resp ← i.send_request (request 1 idx 2 (can_mode_code mode ∷ []))
    expect_empty resp

  unfoldable pub can_state : ℕ → Action W CanState
  can_state idx = do
    resp ← i.send_request (request 1 idx 3 [])
    ret ← expect_size 3 resp
    pure (record { state = get_or ret 0 0; tx_err = get_or ret 1 0; rx_err = get_or ret 2 0 })

  -- The payload of can_write: the data follow unless it is a remote request.
  abbrev pub can_write_payload : CanMessage → List ℕ
  can_write_payload msg =
      put32 i.endian msg.id
      ++ (byte_of msg.ext
          ∷ byte_of msg.fd
          ∷ byte_of msg.brs
          ∷ byte_of msg.rtr
          ∷ length msg.bytes % 2 ^ 8
          ∷ [])
      ++ (if msg.rtr then [] else msg.bytes)

  unfoldable pub can_write : CanMessage → ℕ → Action W (Unit {0})
  can_write msg idx = do
    throw_if (ltb can_max_len (length msg.bytes)) data_too_long
    resp ← i.send_request (request 1 idx 4 (can_write_payload msg))
    expect_empty resp

  -- What can_read makes of a response that is not empty: the message and `num_left`.
  unfoldable pub decode_message : List ℕ → Action W (ℕ × CanMessage)
  decode_message ret = do
    let rtr = not (get_or ret 9 0 == 0)
    let data_len = get_or ret 10 0
    throw_if (ltb (length ret) 11) unexpected_payload_length
    throw_if
        (rtr && not (length ret == 11)
          || not rtr && not (length ret == 11 + data_len)
          || ltb can_max_len data_len)
        unexpected_payload_length
    pure (
      at16 i.endian ret 0,
      record {
        id = at32 i.endian ret 2;
        ext = not (get_or ret 6 0 == 0);
        fd = not (get_or ret 7 0 == 0);
        brs = not (get_or ret 8 0 == 0);
        rtr = rtr;
        bytes = if rtr then replicate data_len 0 else take data_len (drop 11 ret);
      },
    )

  -- `none` is the return value -1.
  unfoldable pub can_read : ℕ → Action W (Option (ℕ × CanMessage))
  unfolding decode_message
  can_read idx = do
    resp ← i.send_request (request 1 idx 5 [])
    if length resp.payload == 0
        then pure none
        else decode_message resp.payload >>= λ m. pure (some m)
