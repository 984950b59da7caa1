-- ===== src/Tests/CanBus.antt =====
-- A CAN controller that accepts every frame but those with id 0 and sends them when it runs.
use jabi.Prelude.{
  ℕ, ◌+◌, ◌≡◌, ◌≢◌, refl, arith, Bool, true, false, List, [], ◌∷◌, ◌++◌, none, ◌==◌, if◌then◌else◌,
  All,
}
use jabi.Kernel.Models.{counting, fifo}
use jabi.Periph.{no_err, peripheral_err}
use jabi.Can.Driver.{slot, enospc, Frame, CanDriver, CanEnv}
use jabi.Can.State.{Can}
use jabi.Can.Config.{can_set_filter}
use jabi.Can.Transfer.{can_write, frame_of, read_resp}
use jabi.Can.Busy.{Reports, InOrder, can_write-InOrder}
use jabi.Can.Frames.{Message, encode_message, IsMessage, read_resp-frame_of}
use jabi.Can.Filters.{can_set_filter-stays_enospc}
use jabi.Can.Lockout.{writes, elapses, answers, can_write_locks_out}
use jabi.Tests.{small, zeros}

abbrev try_send : ℕ → Frame → Bool × ℕ
try_send ctl m = if m.id == 0 then (false, ctl) else (true, ctl + 1)

abbrev driver : CanDriver
driver = record {
  Ctl = ℕ;
  set_mode = λ ctl style fd. (true, ctl);
  start = λ ctl. (true, ctl);
  stop = λ ctl. (true, ctl);
  set_bitrate = λ ctl rate. (true, ctl);
  set_bitrate_data = λ ctl rate. (true, ctl);
  add_rx_filter = λ ctl f. (slot 1, ctl);
  remove_rx_filter = λ ctl id. ctl;
  get_state = λ ctl. none;
  send = try_send;
  run = λ ctl. (ctl, 0);
  max_dlen = 8;
  bytes_to_dlc = λ n. n;
  dlc_to_bytes = λ n. n;
  max_dlen-le = omega arith;
  dlc_room = λ n h. omega arith;
  dlc_size = λ n h. h;
  ide_bit = 1;
  rtr_bit = 2;
  fdf_bit = 4;
  brs_bit = 8;
  ide_bit-pos = λ q. omega (arith, q);
  rtr_bit-pos = λ q. omega (arith, q);
}

abbrev pub env : CanEnv
env = record {
  target = small;
  fd_mode = false;
  sems = counting;
  frames = fifo Frame;
  driver = driver;
}

try_send-accepted : (ctl : ℕ) (m : Frame) → (try_send ctl m).0 ≡ true → (try_send ctl m).1 ≡ ctl + 1
try_send-accepted ctl m h = ground arith

try_send-refused : (ctl : ℕ) (m : Frame) → (try_send ctl m).0 ≡ false → (try_send ctl m).1 ≡ ctl
try_send-refused ctl m h = ground arith

abbrev reports : Reports env
reports = record {
  pending = λ ctl. ctl;
  send-accepted = try_send-accepted;
  send-refused = try_send-refused;
  run-reports = λ ctl. omega arith;
}

abbrev pub can_device : Can env
can_device = record {
  ctl = 0;
  filter_std = record { filter = record { id = 0; mask = 0; ide = false }; id = enospc };
  filter_ext = record { filter = record { id = 0; mask = 0; ide = true }; id = slot 1 };
  msgq = record { items = []; bound = 4 };
  tx_lock = record { now = 0; most = 1 };
  tx_was_busy = false;
}

abbrev message : Message
message = record { id = 5; id_type = 0; fd = 0; brs = 0; payload = 1 ∷ 2 ∷ [] }

device-InOrder : InOrder env reports can_device
device-InOrder = record { binary = refl; one_frame = omega arith; settled = λ _. refl }

can_write-InOrder_example :
    InOrder env reports (can_write env can_device (encode_message message ++ zeros) 11).0
can_write-InOrder_example =
    can_write-InOrder env reports can_device (encode_message message ++ zeros) 11 device-InOrder

message-IsMessage : IsMessage env message
message-IsMessage = record { id_fits = omega arith; payload_fits = omega arith }

read_resp-frame_of_example :
    read_resp env 3 (frame_of env (encode_message message ++ zeros)) ≡ record {
      retcode = no_err;
      resp = 3 ∷ 0 ∷ 5 ∷ 0 ∷ 0 ∷ 0 ∷ 0 ∷ 0 ∷ 0 ∷ 0 ∷ 2 ∷ 1 ∷ 2 ∷ [];
      resp_len = 13;
    }
read_resp-frame_of_example = read_resp-frame_of env message zeros 3 message-IsMessage

-- A filter for an extended id, on the device whose standard filter was not added.
abbrev extended : List ℕ
extended = 0 ∷ 0 ∷ 1 ∷ 0 ∷ 255 ∷ 255 ∷ 1 ∷ 0 ∷ []

can_set_filter-stays_enospc_example :
    ((can_set_filter env can_device extended 8).1.retcode ≡ peripheral_err)
    × ((can_set_filter env can_device extended 8).0.filter_std.id ≡ enospc)
can_set_filter-stays_enospc_example =
    can_set_filter-stays_enospc env can_device extended refl (omega arith)

-- A write timed out, its frame went out later, and the controller refuses the next one.
abbrev unconfirmed : Can env
unconfirmed = record can_device { tx_lock = record { now = 1; most = 1 }; tx_was_busy = true }

abbrev refused : List ℕ
refused = encode_message (record message { id = 0 })

no_send : (try_send 0 (frame_of env refused)).0 ≡ false
unfolding frame_of
no_send = refl

can_write_locks_out_example :
    ((can_write env unconfirmed refused 11).1.retcode ≡ peripheral_err)
    × All
        (λ r. r ≢ no_err)
        (answers env
          (can_write env unconfirmed refused 11).0
          (writes (encode_message message) 11 ∷ elapses ∷ writes (encode_message message) 11 ∷ []))
can_write_locks_out_example =
    can_write_locks_out env reports unconfirmed refused 11
      (writes (encode_message message) 11 ∷ elapses ∷ writes (encode_message message) 11 ∷ [])
      (refl, omega arith) refl refl refl no_send
