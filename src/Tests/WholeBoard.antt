-- ===== src/Tests/WholeBoard.antt =====
-- A board with a device of each kind, and its DAC.
use jabi.Prelude.{ℕ, ◌≤◌, ◌≡◌, refl, arith, true, [], ◌∷◌, ◌++◌}
use jabi.Bytes.{le_bytes32}
use jabi.Periph.{done}
use jabi.Dispatch.Bounds.{FitsApis}
use jabi.Dac.{DacDev, DacEnv, dac_write}
use jabi.Dac.Scale.{dac_write-in_scale}
use jabi.Board.{Board, Devices, peripherals}
use jabi.Board.Fit.{IsBoard, AreSound, peripherals-Fits}
use jabi.Tests.{small, zeros}
use jabi.Tests.Pins.{i2c_env, gpio_env, pwm_env, adc_env}
use jabi.Tests.CanBus as CanBus
use jabi.Tests.SpiBus.{spi_env, fresh}
use jabi.Tests.UartLine.{uart_env, uart_device}
use jabi.Tests.LinBus.{lin_env, bus_device, bus_device-IsSound}

-- The controller keeps the last code.
abbrev speaker : DacDev
speaker = record { dev = 0; channel = 0; resolution = 12; vref = 3300 }

abbrev dac_env : DacEnv
dac_env = record {
  target = small;
  dac_devs = speaker ∷ [];
  Hw = ℕ;
  channel_setup = λ hw dac. (true, hw);
  write_value = λ hw dac code. (true, code);
  overflowed = λ n. n;
}

dac_write-in_scale_example :
    (dac_write dac_env 7 0 (le_bytes32 1100 ++ zeros) 4 ≡ (1365, done)) × (1365 ≤ 4095)
dac_write-in_scale_example =
    dac_write-in_scale dac_env 7 0 speaker 1100 zeros refl (omega arith) (omega arith) (omega arith)
      (omega arith) refl

abbrev pub board : Board
board = record {
  metadata = record {
    target = small;
    serial_bytes = 74 ∷ 49 ∷ [];
    num_idxs = 1 ∷ 1 ∷ 1 ∷ 1 ∷ 1 ∷ 1 ∷ 1 ∷ 1 ∷ 1 ∷ 1 ∷ [];
  };
  can = CanBus.env;
  i2c = i2c_env;
  gpio = gpio_env;
  pwm = pwm_env;
  adc = adc_env;
  dac = dac_env;
  spi = spi_env;
  uart = uart_env;
  lin = lin_env;
  can_num = 1;
  i2c_num = 1;
  gpio_num = 1;
  pwm_num = 1;
  adc_num = 1;
  dac_num = 1;
  spi_num = 1;
  uart_num = 1;
  lin_num = 1;
}

abbrev pub board_state : Devices board
board_state = record {
  can = CanBus.can_device ∷ [];
  i2c = [] ∷ [];
  gpio = [];
  pwm = (0, 0);
  adc = 0;
  dac = 0;
  spi = fresh ∷ [];
  uart = uart_device ∷ [];
  lin = bus_device ∷ [];
}

pub board-IsBoard : IsBoard board
board-IsBoard = record {
  is_build = record { serial_fits = omega arith };
  can = refl;
  i2c = refl;
  gpio = refl;
  pwm = refl;
  adc = refl;
  dac = refl;
  spi = refl;
  uart = refl;
  lin = refl;
  num_idxs = refl;
}

pub board_state-AreSound : AreSound board board_state
board_state-AreSound = ((tt, tt), (tt, tt), (tt, tt), (tt, tt), (bus_device-IsSound, tt))

peripherals-Fits_example : FitsApis small (AreSound board) (peripherals board)
peripherals-Fits_example = peripherals-Fits board board-IsBoard
