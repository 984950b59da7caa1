-- ===== src/Tests/LinBus.antt =====
-- A LIN controller that accepts every command and answers each with the same frame.
use jabi.Prelude.{
  ℕ, ◌+◌, ◌≡◌, ◌≢◌, refl, arith, true, List, [], ◌∷◌, ◌++◌, replicate, get_elem?, some,
}
use jabi.Kernel.Models.{counting, fifo}
use jabi.Periph.{done, no_err}
use jabi.Lin.Driver.{classic, enhanced, auto_checksum, send, receive, Frame, LinDriver, LinEnv}
use jabi.Lin.Device.{Lin, lin_header_cb, lin_init}
use jabi.Lin.Config.{lin_set_mode_j}
use jabi.Lin.Transfer.{lin_write, lin_read, read_resp}
use jabi.Lin.Sound.{IsFrame, IsSound}
use jabi.Lin.Callbacks.{IsBuilt, lin_init-IsSound}
use jabi.Lin.Fine.{Fine, lin_set_mode_j-Fine}
use jabi.Lin.Bus.{encode_write, lin_read_own_frame, lin_write-header}
use jabi.Lin.Run.{set_mode, write, call, start, after, called, Reach-call-Fine}
use jabi.Tests.{small, zeros}

abbrev answer : Frame
answer = record { id = 2; len = 3; type = enhanced; bytes = 5 ∷ 6 ∷ 7 ∷ replicate 5 0 }

abbrev driver : LinDriver
driver = record {
  Ctl = ℕ;
  set_mode = λ ctl mode. (true, ctl);
  set_callbacks = λ ctl. (true, ctl);
  set_bitrate = λ ctl rate. (true, ctl);
  lin_send = λ ctl m. (true, ctl + 1);
  lin_receive = λ ctl id type len. (true, ctl + 1);
  tx_result = λ ctl. (0, ctl);
  rx_result = λ ctl. (0, answer, ctl);
  num_id = 4;
  max_dlen = 8;
  mode_responder = 1;
  num_id-le = omega arith;
  max_dlen-le = omega arith;
  rx_result-sized = λ ctl. omega arith;
  rx_result-array = λ ctl. refl;
  mode_responder-one = refl;
}

abbrev pub lin_env : LinEnv
lin_env = record { target = small; sems = counting; frames = fifo Frame; driver = driver }

abbrev nothing : Frame
nothing = record { id = 0; len = 0; type = classic; bytes = replicate 8 0 }

abbrev built : Lin lin_env
built = record {
  ctl = 0;
  mode = 0;
  filters = [];
  tx_msgs = replicate 4 (record { active = true; msg = nothing });
  rx_msgs = record { items = []; bound = 4 };
  status_id = 0;
  status_retcode = 0;
  msg_lock = record { now = 0; most = 0 };
  cmd_lock = record { now = 0; most = 0 };
}

init-no_err : (lin_init lin_env built).1 ≡ no_err
unfolding lin_init
init-no_err = refl

built-IsBuilt : IsBuilt lin_env built
built-IsBuilt =
    let fits : IsFrame lin_env nothing = record { array = refl; sized = omega arith } in
    record {
      tx_size = refl;
      tx_frames = (fits, (fits, (fits, (fits, tt))));
      rx_frames = tt;
      rx_room = omega arith;
    }

-- The responder that lin_init leaves, and the commander that a request makes of it.
abbrev listening : Lin lin_env
listening = (lin_init lin_env built).0

abbrev commanding : Lin lin_env
commanding = (lin_set_mode_j lin_env listening (0 ∷ replicate 127 0) 1).0

abbrev pub bus_device : Lin lin_env
bus_device = listening

pub bus_device-IsSound : IsSound lin_env bus_device
bus_device-IsSound = lin_init-IsSound lin_env built built-IsBuilt init-no_err

commanding-IsSound : IsSound lin_env commanding
commanding-IsSound =
    (lin_set_mode_j-Fine lin_env listening (0 ∷ replicate 127 0) 1 bus_device-IsSound).sound

listening-responds : listening.mode ≢ 0
unfolding lin_init
listening-responds = λ q. omega (arith, q)

commanding-mode : commanding.mode ≡ 0
unfolding lin_init lin_set_mode_j
commanding-mode = refl

commanding-filters :
    get_elem? commanding.filters 2 ≡ some (record { type = auto_checksum; len = 0 })
unfolding lin_init lin_set_mode_j
commanding-filters = refl

lin_read_own_frame_example :
    ((lin_read lin_env commanding (2 ∷ zeros) 1).1 ≡ read_resp lin_env 0 answer)
    × ((lin_read lin_env commanding (2 ∷ zeros) 1).0.rx_msgs.items ≡ [])
lin_read_own_frame_example =
    lin_read_own_frame lin_env commanding 2 zeros (record { type = auto_checksum; len = 0 })
      commanding-IsSound commanding-mode (omega arith) commanding-filters refl refl

abbrev header : Frame
header = record nothing { id = 2 }

abbrev response : List ℕ
response = encode_write 2 1 ((9 ∷ 8 ∷ []) ++ replicate 124 0)

lin_write-header_example :
    let written = lin_write lin_env listening response 4 in
    (written.1 ≡ done)
    × (sent : Lin lin_env) × (lin_header_cb lin_env written.0 header
        ≡ some (
          sent,
          send,
          record { id = 2; len = 2; type = enhanced; bytes = 9 ∷ 8 ∷ replicate 6 0 },
        ))
    × (heard : Lin lin_env) × (m : Frame) × (lin_header_cb lin_env sent header
        ≡ some (heard, receive, m))
lin_write-header_example =
    lin_write-header lin_env listening 2 1 enhanced (9 ∷ 8 ∷ []) (replicate 124 0) header header
      bus_device-IsSound listening-responds (omega arith) refl (omega arith) (omega arith) refl refl
      refl

-- A commander, after a request for the mode.
Reach-call-Fine_example : Fine lin_env (call lin_env write commanding response 4)
Reach-call-Fine_example =
    Reach-call-Fine lin_env built commanding write response 4 built-IsBuilt
      (after (start init-no_err) (called set_mode listening (0 ∷ replicate 127 0) 1 refl)) refl
