-- ===== src/Tests/SerialLine.antt =====
-- A client on a serial port that takes and brings one byte at a time, and the firmware's UART.
use jabi.Prelude.{
  ℕ, zero, suc, ◌≡◌, ◌≢◌, refl, ap, arith, true, false, List, [], ◌∷◌, ◌++◌, none, some, length,
  take, drop, replicate, length-append,
}
use jabi.Kernel.Models.{counting, fifo}
use jabi.Packet.{Resp, encode_call, encode_resp}
use jabi.Usb.Send.{IsResp}
use jabi.Board.{Devices, peripherals}
use jabi.Board.Fit.{AreSound, peripherals-Fits}
use jabi.UartIface.{IfaceEnv, Event, irq, go, elapse, UartIface, uart_get_req}
use jabi.UartIface.Bytewise.{AtRest, Ready}
use jabi.UartIface.Recv.{Asks}
use jabi.UartIface.Serve.{Answered, serve_uart, serve_uart-Answered}
use jabi.UartIface.Resync.{uart_get_req_resyncs}
use jabi.Client.{little}
use jabi.Client.Link.{dynamic_req, client_result}
use jabi.Client.Serial.{Port, UartInterface, uart_send_request}
use jabi.Client.Serial.Exchange.{Moves, uart_send_request-answer}
use jabi.Client.Cable.{
  Station, Timing, turn, sent_by, Delivers, IsIdle, OverCable, uart_send_request-OverCable,
}
use jabi.Tests.{small, zeros, blank, hello, hello-IsCall}
use jabi.Tests.WholeBoard.{board, board_state, board-IsBoard, board_state-AreSound}

-- The serial line: what has been written to it, and what has been read of the answer.
record Wire : Type 0 where
  line : List ℕ
  heard : List ℕ

one_byte : (xs : List ℕ) → xs ≢ [] → length (take 1 xs) ≡ 1
one_byte [] h = absurd (h refl)
one_byte (x ∷ xs) h = refl

drop-suc : (n : ℕ) (xs : List ℕ) → drop n xs ≡ take 1 (drop n xs) ++ drop (suc n) xs
drop-suc zero [] = refl
drop-suc zero (x ∷ xs) = refl
drop-suc (suc n) [] = refl
drop-suc (suc n) (x ∷ xs) = drop-suc n xs

-- `reply` is the answer to what has been written.
module _ (reply : List ℕ → List ℕ) where
  abbrev stream : Wire → List ℕ
  stream w = drop (length w.heard) (reply w.line)

  abbrev bytewise : Port Wire
  bytewise = record {
    write = λ bytes w. (some 1, record w { line = w.line ++ take 1 bytes });
    read = λ n w. (some (take 1 (stream w)), record w { heard = w.heard ++ take 1 (stream w) });
    now = λ w. 0;
  }

  abbrev serial : UartInterface Wire
  serial = record { endian = little; port = bytewise; req_max_size = 128; resp_max_size = 128 }

  one_more :
      (w : Wire)
      → stream w ≢ []
      → stream w ≡ take 1 (stream w) ++ stream (record w { heard = w.heard ++ take 1 (stream w) })
  one_more w left =
      let next : length (w.heard ++ take 1 (stream w)) ≡ suc (length w.heard) =
        omega (arith, length-append w.heard (take 1 (stream w)), one_byte (stream w) left) in
      rw next (drop-suc (length w.heard) (reply w.line))

  serial-Moves : Moves bytewise (λ w. w.line) (λ w. w.heard) stream
  serial-Moves = record {
    accepted = λ bytes w. 1;
    accepted-pos = λ x xs w. omega arith;
    writes = λ x xs w. refl;
    written = λ x xs w. refl;
    unheard = λ x xs w. refl;
    came = λ n w. take 1 (stream w);
    reads = λ n w left. refl;
    came-pos = λ n w left. omega (arith, one_byte (stream w) left);
    came-le = λ n w left. omega (arith, one_byte (stream w) left);
    consumed = λ n w left. one_more w left;
    in_time = λ v w. omega arith;
  }

  silent-stream : (w : Wire) → w.heard ≡ [] → stream w ≡ reply w.line
  silent-stream w silent = ap (λ (l : List ℕ). drop (length l) (reply w.line)) silent

abbrev fresh : Wire
fresh = record { line = []; heard = [] }

abbrev echoed : Resp
echoed = record { retcode = 0; payload_len = 3; payload = 7 ∷ 8 ∷ 9 ∷ replicate 125 0 }

echoed-IsResp : IsResp small echoed
echoed-IsResp = record { retcode_fits = omega arith; len_fits = omega arith; buffer = refl }

abbrev always : List ℕ → List ℕ
always bytes = encode_resp echoed

uart_send_request-answer_example :
    (after : Wire) × (uart_send_request (serial always) 264 (dynamic_req hello) fresh
      ≡ some (client_result echoed, after))
uart_send_request-answer_example =
    uart_send_request-answer (serial always) (λ w. w.line) (λ w. w.heard) (stream always)
      (serial-Moves always) small 264 hello echoed fresh hello-IsCall echoed-IsResp (omega arith)
      (omega arith) (omega arith) refl refl (λ w sent silent. silent-stream always w silent)

-- The firmware's end, on the whole board.
abbrev iface_env : IfaceEnv
iface_env = record { target = small; sems = counting; queue = fifo ℕ }

abbrev brings : List ℕ → Event
brings bytes = irq (record { rx_ready = true; received = some bytes; tx_ready = false; filled = 0 })

abbrev sends : Event
sends = irq (record { rx_ready = false; received = none; tx_ready = true; filled = 16 })

abbrev idle : UartIface iface_env
idle = record {
  rx = record { items = []; bound = 136 };
  tx_lock = record { now = 0; most = 1 };
  tx_len = 0;
  tx_buf = [];
  irq_tx = false;
  line = [];
}

idle-AtRest : AtRest iface_env [] 136 idle
idle-AtRest = record { off = refl; taken = refl; one = refl; said = refl; size = refl }

abbrev arrival : List Event
arrival =
    brings (take 5 (encode_call hello)) ∷ go ∷ brings (drop 5 (encode_call hello)) ∷ replicate 11 go

arrival-Ready : Ready iface_env [] 136 (encode_call hello ++ []) idle arrival
arrival-Ready = record {
  rest = idle-AtRest;
  in_time = omega arith;
  bytes_left = refl;
  room = omega arith;
}

abbrev drains : List Event
drains = replicate 140 sends

-- Five bytes of a packet, a pause, and the packet again.
abbrev noise : List Event
noise = brings (take 5 (encode_call hello)) ∷ replicate 5 go

noise-Ready : Ready iface_env [] 136 (take 5 (encode_call hello)) idle noise
noise-Ready = record {
  rest = idle-AtRest;
  in_time = omega arith;
  bytes_left = refl;
  room = omega arith;
}

uart_get_req_resyncs_example :
    Asks iface_env [] 136 hello [] [] 11
      (uart_get_req iface_env blank idle (noise ++ (elapse ∷ (arrival ++ []))))
uart_get_req_resyncs_example =
    uart_get_req_resyncs iface_env [] 136 hello hello (take 5 (encode_call hello))
      (drop 5 (encode_call hello)) blank [] idle noise arrival [] hello-IsCall hello-IsCall refl
      noise-Ready refl (omega arith) (omega arith) (omega arith) (omega arith) refl (omega arith)
      (omega arith)

serve_uart-Answered_example :
    Answered iface_env
      (AreSound board)
      (peripherals board)
      (peripherals-Fits board board-IsBoard)
      true
      []
      136
      hello
      []
      zeros
      board_state
      (serve_uart iface_env
        (peripherals board)
        true
        blank
        zeros
        board_state
        idle
        (arrival ++ (drains ++ (go ∷ []))))
serve_uart-Answered_example =
    serve_uart-Answered iface_env (AreSound board) (peripherals board)
      (peripherals-Fits board board-IsBoard) true [] 136 hello blank zeros board_state [] idle
      arrival drains [] hello-IsCall refl refl board_state-AreSound arrival-Ready (omega arith)
      (omega arith) (omega arith)

abbrev station : Station iface_env (Devices board)
station = record { iface = idle; req = blank; buffer = zeros; state = board_state }

abbrev all_at_once : List ℕ → Timing
all_at_once bytes = record { front = brings bytes ∷ replicate 136 go; busy = drains; back = [] }

station-IsIdle : IsIdle iface_env (AreSound board) 136 station
station-IsIdle = record {
  rest = idle-AtRest;
  none_queued = refl;
  req_array = refl;
  resp_array = refl;
  keeps = board_state-AreSound;
}

hello-Delivers : Delivers iface_env (encode_call hello) (all_at_once (encode_call hello))
hello-Delivers = record {
  in_time = omega arith;
  brings = refl;
  goes = omega arith;
  quiet = refl;
  turns = omega arith;
}

abbrev over_cable : List ℕ → List ℕ
over_cable bytes =
    sent_by iface_env (turn iface_env (peripherals board) true station (all_at_once bytes))

uart_send_request-OverCable_example :
    OverCable iface_env
      (AreSound board)
      (peripherals board)
      true
      hello
      station
      (all_at_once (encode_call hello))
      (uart_send_request (serial over_cable) 264 (dynamic_req hello) fresh)
uart_send_request-OverCable_example =
    uart_send_request-OverCable iface_env (AreSound board) (peripherals board)
      (peripherals-Fits board board-IsBoard) true (serial over_cable) (λ w. w.line) (λ w. w.heard)
      (stream over_cable) (serial-Moves over_cable) 136 264 hello station all_at_once fresh
      station-IsIdle hello-IsCall (omega arith) (omega arith) (omega arith) (omega arith)
      hello-Delivers refl refl (silent-stream over_cable)
