-- ===== src/Tests/Host.antt =====
-- A client on that board.
use jabi.Prelude.{◌<◌, ℕ, ◌*◌, ◌≡◌, refl, arith, Bool, true, false, [], ◌∷◌, some}
use jabi.Gpio.{open_drain}
use jabi.Can.Transfer.{queue_frame}
use jabi.Board.{Devices, peripherals}
use jabi.Board.Fit.{AreSound, peripherals-Fits}
use jabi.Client.{little}
use jabi.Client.Interface.{ok}
use jabi.Client.Usb.{usb_send_request}
use jabi.Client.Link.{dynamic_req, Firmware, host, IsReady, Served}
use jabi.Client.Served.{usb_send_request-Served}
use jabi.Client.Can.{CanMessage}
use jabi.Client.Can as HostCan
use jabi.Client.Gpio as HostGpio
use jabi.Client.Connect.{connect_usb}
use jabi.Client.Remote.{device, outcome, answer_for}
use jabi.Client.Remote.Spi.{spi_transceive-run_transfer}
use jabi.Client.Spi as HostSpi
use jabi.Spi.Driver.{exchanges}
use jabi.Spi.Device.{run_transfer}
use jabi.Tests.SpiBus as SpiBus
use jabi.Client.Remote.Can.{IsCanMessage, frame_for, can_write-frame}
use jabi.Client.Remote.Gpio.{gpio_set_mode-flags}
use jabi.Client.Remote.Connect.{connect_usb-sizes}
use jabi.Tests.{small, zeros, blank, hello, hello-IsCall}
use jabi.Tests.Pins.{led, fan}
use jabi.Client.Remote.I2c.{i2c_transceive-write_read}
use jabi.Client.Remote.Pwm.{pwm_write-pwm_set}
use jabi.Client.Analog.{Seconds}
use jabi.Client.Analog as HostAnalog
use jabi.Client.I2c as HostI2c
use jabi.Tests.CanBus as CanBus
use jabi.Tests.WholeBoard.{board, board_state, board-IsBoard, board_state-AreSound}

pub sized : 0 < 64
sized = omega arith

-- The board with an empty transfer that an earlier request left.
abbrev pub connected : Firmware (Devices board)
connected = record {
  state = board_state;
  req = blank;
  buffer = zeros;
  pending = some [] ∷ [];
  begun = [];
}

pub connected-IsReady : IsReady small (AreSound board) connected
connected-IsReady = record {
  keeps = board_state-AreSound;
  req_array = refl;
  resp_array = refl;
  quiet = (tt, tt);
  none_begun = refl;
}

usb_send_request-Served_example :
    Served small (AreSound board) (peripherals board) true hello connected (
      usb_send_request
        (host small (peripherals board) true little 64 128 128)
        (dynamic_req hello)
        connected)
usb_send_request-Served_example =
    usb_send_request-Served small (AreSound board) (peripherals board)
      (peripherals-Fits board board-IsBoard) (λ n. refl) true little 64 sized 128 128 connected
      hello (omega arith) connected-IsReady hello-IsCall (omega arith)

abbrev no_reset : Firmware (Devices board) → Bool × Firmware (Devices board)
no_reset w = (false, w)

connect_usb-sizes_example :
    let out =
      connect_usb
        (λ a b. device board board-IsBoard (λ n. refl) little 64 sized a b true)
        no_reset
        connected in
    (out.0 ≡ some (128, 128)) × (out.1.state ≡ board_state) × IsReady small (AreSound board) out.1
connect_usb-sizes_example =
    connect_usb-sizes board board-IsBoard (λ n. refl) little 64 sized no_reset connected
      connected-IsReady

abbrev greeting : CanMessage
greeting = record { id = 5; ext = false; fd = false; brs = false; rtr = false; bytes = 1 ∷ 2 ∷ [] }

greeting-IsCanMessage : IsCanMessage CanBus.env greeting
greeting-IsCanMessage = record {
  is_data = refl;
  id_fits = omega arith;
  bytes_fit = omega arith;
  are_bytes = (omega arith, (omega arith, tt));
}

can_write-frame_example :
    let ran = queue_frame CanBus.env CanBus.can_device (frame_for CanBus.env greeting) in
    let out =
      HostCan.can_write
        (device board board-IsBoard (λ n. refl) little 64 sized 128 128 true)
        greeting
        0
        connected in
    (out.0 ≡ outcome ran.1) × (out.1.state ≡ record board_state { can = ran.0 ∷ [] })
can_write-frame_example =
    can_write-frame board board-IsBoard (λ n. refl) little 64 sized 128 128 true connected 0
      CanBus.can_device greeting connected-IsReady (omega arith) (omega arith) (omega arith) refl
      greeting-IsCanMessage

gpio_set_mode-flags_example :
    let out =
      HostGpio.gpio_set_mode
        (device board board-IsBoard (λ n. refl) little 64 sized 128 128 true)
        0
        HostGpio.GpioDir.open_drain
        HostGpio.GpioPull.up
        true
        connected in
    (out.0 ≡ ok tt)
    × (out.1.state ≡ record board_state {
      gpio =
          record { direction = open_drain; pull_up = true; pull_down = false; initial = some true }
          ∷ [];
    })
gpio_set_mode-flags_example =
    gpio_set_mode-flags board board-IsBoard (λ n. refl) little 64 sized 128 128 true connected 0 led
      HostGpio.GpioDir.open_drain HostGpio.GpioPull.up true connected-IsReady (omega arith)
      (omega arith) (omega arith) refl

i2c_transceive-write_read_example :
    let out =
      HostI2c.i2c_transceive
        (device board board-IsBoard (λ n. refl) little 64 sized 128 128 true)
        80
        (7 ∷ [])
        3
        0
        connected in
    (out.0 ≡ ok (0 ∷ 0 ∷ 0 ∷ [])) × (out.1.state ≡ record board_state { i2c = (80 ∷ 7 ∷ []) ∷ [] })
i2c_transceive-write_read_example =
    i2c_transceive-write_read board board-IsBoard (λ n. refl) little 64 sized 128 128 true connected
      0 [] 80 3 (7 ∷ []) connected-IsReady (omega arith) (omega arith) refl (omega arith)
      (omega arith) (omega arith) (omega arith) (omega arith) (omega arith, tt)

-- Times in microseconds.
abbrev microseconds : Seconds
microseconds = record { Double = ℕ; lround_ns = λ n. n * 1000 }

pwm_write-pwm_set_example :
    let out =
      HostAnalog.pwm_write
        (device board board-IsBoard (λ n. refl) little 64 sized 128 128 true)
        microseconds
        0
        1
        20
        connected in
    (out.0 ≡ ok tt) × (out.1.state ≡ record board_state { pwm = (20000, 1000) })
pwm_write-pwm_set_example =
    pwm_write-pwm_set board board-IsBoard (λ n. refl) little 64 sized 128 128 true connected 0 fan
      microseconds 1 20 connected-IsReady (omega arith) (omega arith) (omega arith) refl
      (omega arith) (omega arith)

spi_transceive-run_transfer_example :
    let ran = run_transfer SpiBus.spi_env SpiBus.fresh (exchanges (1 ∷ 2 ∷ [])) in
    let out =
      HostSpi.spi_transceive
        (device board board-IsBoard (λ n. refl) little 64 sized 128 128 true)
        (1 ∷ 2 ∷ [])
        0
        connected in
    (out.0 ≡ answer_for ran.0 ran.1) × (out.1.state ≡ record board_state { spi = ran.2 ∷ [] })
spi_transceive-run_transfer_example =
    spi_transceive-run_transfer board board-IsBoard (λ n. refl) little 64 sized 128 128 true
      connected 0 SpiBus.fresh (1 ∷ 2 ∷ []) connected-IsReady (omega arith) (omega arith) refl
      (omega arith) (omega arith) (omega arith) (omega arith) (omega arith, (omega arith, tt))
