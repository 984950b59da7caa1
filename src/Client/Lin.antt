-- ===== src/Client/Lin.antt =====
-- clients/cpp/libjabi/peripherals/lin.cpp, and the LIN types of device.h.
use jabi.Prelude.{
  ℕ, ◌-◌, ◌%◌, ◌^◌, Bool, Option, none, some, List, [], ◌∷◌, ◌++◌, ltb, ◌==◌, if◌then◌else◌, length,
  get_or, take, drop,
}
use jabi.Client.{put32, at16}
use jabi.Client.Interface.{
  Action, Interface, pure, ◌>>=◌, ◌>>◌, throw_if, request, expect_size, expect_empty, data_too_long,
  unexpected_payload_length,
}

-- enum class LINMode
pub data LinMode : Type 0 where
  commander responder : LinMode

abbrev pub lin_mode_code : LinMode → ℕ
lin_mode_code commander = 0
lin_mode_code responder = 1

-- enum class LINChecksum; a value that comes back is kept as its number.
pub data LinChecksum : Type 0 where
  classic enhanced automatic : LinChecksum

abbrev pub lin_checksum_code : LinChecksum → ℕ
lin_checksum_code classic = 0
lin_checksum_code enhanced = 1
lin_checksum_code automatic = 2

-- struct LINStatus
pub record LinStatus : Type 0 where
  pub id : ℕ
  pub success : Bool

-- struct LINMessage; `checksum` is the number of the field `type`.
pub record LinMessage : Type 0 where
  pub id : ℕ
  pub checksum : ℕ
  pub bytes : List ℕ

-- The constructors of LINMessage
abbrev pub empty_message : LinMessage
empty_message = record { id = 0; checksum = lin_checksum_code classic; bytes = [] }

abbrev pub lin_message : ℕ → List ℕ → LinChecksum → LinMessage
lin_message id bytes type = record { id = id; checksum = lin_checksum_code type; bytes = bytes }

abbrev pub lin_max_len : ℕ
lin_max_len = 8

module _ {W : Type 0} (i : Interface W) where
  unfoldable pub lin_set_mode : LinMode → ℕ → Action W (Unit {0})
  lin_set_mode mode idx = do
    resp ← i.send_request (request 9 idx 0 (lin_mode_code mode ∷ []))
    expect_empty resp

  unfoldable pub lin_set_rate : ℕ → ℕ → Action W (Unit {0})
  lin_set_rate bitrate idx = do
    resp ← i.send_request (request 9 idx 1 (put32 i.endian bitrate))
    expect_empty resp

  unfoldable pub lin_set_filter : ℕ → ℕ → LinChecksum → ℕ → Action W (Unit {0})
  lin_set_filter id len type idx = do
    let args = id % 2 ^ 8 ∷ lin_checksum_code type ∷ len % 2 ^ 8 ∷ []
    resp ← i.send_request (request 9 idx 2 args)
    expect_empty resp

  -- The number of the LINMode
  unfoldable pub lin_mode : ℕ → Action W ℕ
  lin_mode idx = do
    resp ← i.send_request (request 9 idx 3 [])
    ret ← expect_size 1 resp
    pure (get_or ret 0 0)

  unfoldable pub lin_status : ℕ → Action W LinStatus
  lin_status idx = do
    resp ← i.send_request (request 9 idx 4 [])
    ret ← expect_size 3 resp
    pure (record { id = get_or ret 0 0; success = at16 i.endian ret 1 == 0 })

  unfoldable pub lin_write : LinMessage → ℕ → Action W (Unit {0})
  lin_write msg idx = do
    throw_if (ltb lin_max_len (length msg.bytes)) data_too_long
    resp ←
        i.send_request (request 9 idx 5 ((msg.id % 2 ^ 8 ∷ msg.checksum % 2 ^ 8 ∷ []) ++ msg.bytes))
    expect_empty resp

  -- What lin_read makes of a response that is not empty.
  unfoldable pub decode_message : List ℕ → Action W (ℕ × LinMessage)
  decode_message ret = do
    let data_len = length ret - 4
    throw_if (ltb (length ret) 4) unexpected_payload_length
    throw_if (ltb lin_max_len data_len) unexpected_payload_length
    pure (
      at16 i.endian ret 0,
      record { id = get_or ret 2 0; checksum = get_or ret 3 0; bytes = take data_len (drop 4 ret) },
    )

  -- `none` is the return value -1.
  unfoldable pub lin_read : ℕ → ℕ → Action W (Option (ℕ × LinMessage))
  unfolding decode_message
  lin_read id idx = do
    resp ← i.send_request (request 9 idx 6 (id % 2 ^ 8 ∷ []))
    if length resp.payload == 0
        then pure none
        else decode_message resp.payload >>= λ m. pure (some m)
