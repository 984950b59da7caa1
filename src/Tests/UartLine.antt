-- ===== src/Tests/UartLine.antt =====
-- A UART whose transmitter takes two bytes at a time, with three bytes received.
use jabi.Prelude.{ℕ, ◌≡◌, refl, arith, true, false, [], ◌∷◌, ◌++◌, none, some}
use jabi.Bytes.{le_bytes16}
use jabi.Kernel.Models.{counting, fifo}
use jabi.Periph.{reply_with, no_err}
use jabi.Uart.Driver.{IsrTurn, UartEnv}
use jabi.Uart.Device.{Uart, isr_turn, uart_handler, start_write, uart_write, uart_read}
use jabi.Uart.Order.{IsBetween, uart_handler-IsBetween}
use jabi.Uart.Write.{uart_write-IsBetween, uart_write_sends_all}
use jabi.Uart.Read.{uart_read_oldest}
use jabi.Tests.{small, zeros}

abbrev sends_two : IsrTurn
sends_two = record { tx_ready = true; filled = some 2; rx_ready = false; received = none }

abbrev pub uart_env : UartEnv
uart_env = record {
  target = small;
  sems = counting;
  rx = fifo ℕ;
  Port = Unit {0};
  uart_configure = λ p cfg. (true, p);
  wait_tx = λ p. (sends_two ∷ sends_two ∷ sends_two ∷ [], p);
  wait_rx = λ p. ([], p);
}

abbrev pub uart_device : Uart uart_env
uart_device = record {
  port = tt;
  tx_lock = record { now = 0; most = 1 };
  tx_was_busy = false;
  tx_buf = zeros;
  tx_len = 0;
  tx_off = 0;
  rx_msgq = record { items = 7 ∷ 8 ∷ 9 ∷ []; bound = 16 };
  irq_tx = false;
  line = [];
}

uart_device-IsBetween : IsBetween uart_env [] uart_device
uart_device-IsBetween = record {
  ordered = record {
    in_order = refl;
    idle = λ _. refl;
    under_way = λ on. refl;
    binary = refl;
    at_most_one = omega arith;
  };
  settled = λ _. (refl, refl);
}

uart_write-IsBetween_example :
    IsBetween uart_env (1 ∷ 2 ∷ 3 ∷ []) (uart_write uart_env uart_device (1 ∷ 2 ∷ 3 ∷ zeros) 3).0
uart_write-IsBetween_example =
    uart_write-IsBetween uart_env [] uart_device (1 ∷ 2 ∷ 3 ∷ zeros) 3 uart_device-IsBetween

uart_write-no_err : (uart_write uart_env uart_device (1 ∷ 2 ∷ 3 ∷ zeros) 3).1.retcode ≡ no_err
unfolding uart_write start_write uart_handler isr_turn
uart_write-no_err = refl

uart_write_sends_all_example :
    (uart_write uart_env uart_device (1 ∷ 2 ∷ 3 ∷ zeros) 3).0.line ≡ 1 ∷ 2 ∷ 3 ∷ []
uart_write_sends_all_example =
    uart_write_sends_all uart_env [] uart_device (1 ∷ 2 ∷ 3 ∷ zeros) 3 uart_device-IsBetween
      uart_write-no_err

uart_handler-IsBetween_example :
    IsBetween uart_env [] (uart_handler uart_env uart_device (sends_two ∷ sends_two ∷ []))
uart_handler-IsBetween_example =
    uart_handler-IsBetween uart_env [] uart_device (sends_two ∷ sends_two ∷ [])
      uart_device-IsBetween

uart_read_oldest_example :
    ((uart_read uart_env uart_device (le_bytes16 2 ++ zeros) 2).1 ≡ reply_with (7 ∷ 8 ∷ []))
    × ((uart_read uart_env uart_device (le_bytes16 2 ++ zeros) 2).0.rx_msgq.items ≡ 9 ∷ [])
uart_read_oldest_example =
    uart_read_oldest uart_env uart_device (7 ∷ 8 ∷ []) (9 ∷ []) zeros refl (omega arith)
