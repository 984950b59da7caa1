-- ===== src/Lin/Driver.antt =====
-- What lin.c uses of the LIN driver, zephyrboards/drivers/lin.h, which is not part of the
-- repository.
use jabi.Prelude.{ℕ, ◌≤◌, ◌≡◌, Bool, List, length}
use jabi.Packet.{Target}
use jabi.Kernel.{SemApi, MsgqApi}

-- enum lin_checksum
pub data Checksum : Type 0 where
  classic enhanced auto_checksum : Checksum

-- enum lin_mode
pub data BusMode : Type 0 where
  commander responder : BusMode

-- What the header callback answers: LIN_ACTION_NONE, LIN_ACTION_SEND and LIN_ACTION_RECEIVE.
pub data Action : Type 0 where
  no_action send receive : Action

-- struct lin_frame; `bytes` is the array `data`, of LIN_MAX_DLEN bytes.
pub record Frame : Type 0 where
  pub id : ℕ
  pub len : ℕ
  pub type : Checksum
  pub bytes : List ℕ

-- A Boolean is true for success. A command that the driver accepts ends with one call of the
-- callback: `tx_result` and `rx_result` say with which error, the pattern of an int16_t, and
-- with which frame.
pub record LinDriver : Type 1 where
  pub Ctl : Type 0
  pub set_mode : Ctl → BusMode → Bool × Ctl
  pub set_callbacks : Ctl → Bool × Ctl
  pub set_bitrate : Ctl → ℕ → Bool × Ctl
  pub lin_send : Ctl → Frame → Bool × Ctl
  pub lin_receive : Ctl → ℕ → Checksum → ℕ → Bool × Ctl
  pub tx_result : Ctl → ℕ × Ctl
  pub rx_result : Ctl → ℕ × Frame × Ctl
  -- LIN_NUM_ID, LIN_MAX_DLEN and the number of LIN_MODE_RESPONDER
  pub num_id : ℕ
  pub max_dlen : ℕ
  pub mode_responder : ℕ
  pub num_id-le : num_id ≤ 64
  pub max_dlen-le : max_dlen ≤ 8
  pub rx_result-sized : (c : Ctl) → (rx_result c).1.len ≤ max_dlen
  pub rx_result-array : (c : Ctl) → length (rx_result c).1.bytes ≡ max_dlen
  pub mode_responder-one : mode_responder ≡ 1

pub record LinEnv : Type 1 where
  pub target : Target
  pub open target use *
  pub sems : SemApi
  pub open sems use *
  pub frames : MsgqApi Frame
  pub open frames use *
  pub driver : LinDriver
  pub open driver use *
