-- ===== src/Board.antt =====
-- firmware/src/peripherals/common.c: the table of all peripherals, over the state of a whole board.
pub mod Fit
use jabi.Prelude.{ℕ, List, [], ◌∷◌}
use jabi.Packet.{Target}
use jabi.Periph.{Reply, Handler, Api}
use jabi.Metadata.{Build, metadata_periph_api}
use jabi.Can.Driver.{CanEnv}
use jabi.Can.State.{Can}
use jabi.Can.Table.{can_periph_api}
use jabi.I2c.{I2cEnv, i2c_periph_api}
use jabi.Gpio.{GpioEnv, gpio_periph_api}
use jabi.Pwm.{PwmEnv, pwm_periph_api}
use jabi.Adc.{AdcEnv, adc_periph_api}
use jabi.Dac.{DacEnv, dac_periph_api}
use jabi.Spi.Driver.{SpiEnv}
use jabi.Spi.Device.{Spi, spi_periph_api}
use jabi.Uart.Driver.{UartEnv}
use jabi.Uart.Device.{Uart, uart_periph_api}
use jabi.Lin.Driver.{LinEnv}
use jabi.Lin.Device.{Lin}
use jabi.Lin.Transfer.{lin_periph_api}

-- The build of each peripheral, and how many instances the devicetree lists. A peripheral that
-- the devicetree leaves out has none.
pub record Board : Type 1 where
  pub metadata : Build
  pub can : CanEnv
  pub i2c : I2cEnv
  pub gpio : GpioEnv
  pub pwm : PwmEnv
  pub adc : AdcEnv
  pub dac : DacEnv
  pub spi : SpiEnv
  pub uart : UartEnv
  pub lin : LinEnv
  pub can_num : ℕ
  pub i2c_num : ℕ
  pub gpio_num : ℕ
  pub pwm_num : ℕ
  pub adc_num : ℕ
  pub dac_num : ℕ
  pub spi_num : ℕ
  pub uart_num : ℕ
  pub lin_num : ℕ

-- The static data of the peripherals' files, and the hardware behind them.
pub record Devices (b : Board) : Type 0 where
  pub can : List (Can b.can)
  pub i2c : List b.i2c.Bus
  pub gpio : b.gpio.Hw
  pub pwm : b.pwm.Hw
  pub adc : b.adc.Hw
  pub dac : b.dac.Hw
  pub spi : List (Spi b.spi)
  pub uart : List (Uart b.uart)
  pub lin : List (Lin b.lin)

module _ {S D : Type 0} (get : D → S) (put : S → D → D) where
  -- A function of one peripheral leaves the others alone.
  abbrev pub on_part : Handler S → Handler D
  on_part f d idx req req_len = let (s', reply) = f (get d) idx req req_len in (put s' d, reply)

  abbrev pub on_parts : List (Handler S) → List (Handler D)
  on_parts [] = []
  on_parts (f ∷ fs) = on_part f ∷ on_parts fs

  abbrev pub api_of : Api S → Api D
  api_of api = record { num_idx = api.num_idx; fns = on_parts api.fns }

-- peripherals
unfoldable pub peripherals : (b : Board) → List (Api (Devices b))
peripherals b =
    metadata_periph_api b.metadata
    ∷ api_of (λ d. d.can) (λ s d. record d { can = s }) (can_periph_api b.can b.can_num)
    ∷ api_of (λ d. d.i2c) (λ s d. record d { i2c = s }) (i2c_periph_api b.i2c b.i2c_num)
    ∷ api_of (λ d. d.gpio) (λ s d. record d { gpio = s }) (gpio_periph_api b.gpio b.gpio_num)
    ∷ api_of (λ d. d.pwm) (λ s d. record d { pwm = s }) (pwm_periph_api b.pwm b.pwm_num)
    ∷ api_of (λ d. d.adc) (λ s d. record d { adc = s }) (adc_periph_api b.adc b.adc_num)
    ∷ api_of (λ d. d.dac) (λ s d. record d { dac = s }) (dac_periph_api b.dac b.dac_num)
    ∷ api_of (λ d. d.spi) (λ s d. record d { spi = s }) (spi_periph_api b.spi b.spi_num)
    ∷ api_of (λ d. d.uart) (λ s d. record d { uart = s }) (uart_periph_api b.uart b.uart_num)
    ∷ api_of (λ d. d.lin) (λ s d. record d { lin = s }) (lin_periph_api b.lin b.lin_num)
    ∷ []
