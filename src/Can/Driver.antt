-- ===== src/Can/Driver.antt =====
-- What can.c uses of Zephyr: the CAN driver's calls, the data-length codes and the flag bits.
use jabi.Prelude.{ℕ, ◌≤◌, ◌≢◌, Bool, Option, List}
use jabi.Packet.{Target}
use jabi.Kernel.{SemApi, MsgqApi}

-- The int of can_add_rx_filter_msgq: a filter number, -ENOSPC or another error.
pub data SlotId : Type 0 where
  slot : ℕ → SlotId
  enospc failed : SlotId

-- struct can_frame; the flags are single bits, kept apart, and `bytes` is the array `data`, of
-- CAN_MAX_DLEN bytes.
pub record Frame : Type 0 where
  pub id : ℕ
  pub dlc : ℕ
  pub ide : Bool
  pub rtr : Bool
  pub fdf : Bool
  pub brs : Bool
  pub bytes : List ℕ

-- struct can_filter; `ide` is CAN_FILTER_IDE.
pub record Filter : Type 0 where
  pub id : ℕ
  pub mask : ℕ
  pub ide : Bool

pub data Style : Type 0 where
  normal loopback listen_only : Style

-- What can_get_state reports.
pub record BusState : Type 0 where
  pub state : ℕ
  pub tx_err_cnt : ℕ
  pub rx_err_cnt : ℕ

-- A controller with state `Ctl`. A Boolean result is true for success, and for can_start and
-- can_stop for any result but -EIO.
pub record CanDriver : Type 1 where
  pub Ctl : Type 0
  pub set_mode : Ctl → Style → Bool → Bool × Ctl
  pub start : Ctl → Bool × Ctl
  pub stop : Ctl → Bool × Ctl
  pub set_bitrate : Ctl → ℕ → Bool × Ctl
  pub set_bitrate_data : Ctl → ℕ → Bool × Ctl
  pub add_rx_filter : Ctl → Filter → SlotId × Ctl
  pub remove_rx_filter : Ctl → SlotId → Ctl
  pub get_state : Ctl → Option BusState
  pub send : Ctl → Frame → Bool × Ctl
  -- The controller at work while can_write waits at most SEND_TIMEOUT, and how many times it
  -- calls can_write_cb in that time.
  pub run : Ctl → ℕ × Ctl
  -- CAN_MAX_DLEN, and the documented length codes: a frame has room for the bytes asked for, and
  -- no more than the largest frame.
  pub max_dlen : ℕ
  pub bytes_to_dlc : ℕ → ℕ
  pub dlc_to_bytes : ℕ → ℕ
  pub max_dlen-le : max_dlen ≤ 64
  pub dlc_room : (n : ℕ) → n ≤ max_dlen → n ≤ dlc_to_bytes (bytes_to_dlc n)
  pub dlc_size : (n : ℕ) → n ≤ max_dlen → dlc_to_bytes (bytes_to_dlc n) ≤ max_dlen
  -- CAN_FRAME_IDE, CAN_FRAME_RTR, CAN_FRAME_FDF and CAN_FRAME_BRS, bits of a uint8_t.
  pub ide_bit : ℕ
  pub rtr_bit : ℕ
  pub fdf_bit : ℕ
  pub brs_bit : ℕ
  pub ide_bit-pos : ide_bit ≢ 0
  pub rtr_bit-pos : rtr_bit ≢ 0

-- A build: its target, whether CONFIG_CAN_FD_MODE is set, the kernel and the driver.
pub record CanEnv : Type 1 where
  pub target : Target
  pub open target use *
  pub fd_mode : Bool
  pub sems : SemApi
  pub open sems use *
  pub frames : MsgqApi Frame
  pub open frames use *
  pub driver : CanDriver
  pub open driver use *
