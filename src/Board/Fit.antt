-- ===== src/Board/Fit.antt =====
-- The functions of every peripheral in the table of common.c, and their buffers.
use jabi.Prelude.{◌≡◌, List, [], ◌∷◌, All}
use mathlib.Core.Path.{subst}
use jabi.Packet.{Target}
use jabi.Periph.{Handler, FitsHandler}
use jabi.Dispatch.Bounds.{FitsApis}
use jabi.Board.{Board, Devices, on_part, on_parts, peripherals}
use jabi.Can.Table.{can_periph_api}
use jabi.I2c.{i2c_periph_api}
use jabi.Gpio.{gpio_periph_api}
use jabi.Pwm.{pwm_periph_api}
use jabi.Adc.{adc_periph_api}
use jabi.Dac.{dac_periph_api}
use jabi.Spi.Device.{spi_periph_api}
use jabi.Uart.Device.{uart_periph_api}
use jabi.Lin.Transfer.{lin_periph_api}
use jabi.Metadata.Fit.{IsBuild, metadata_periph_api-Fits}
use jabi.Can.Fit.{AllHaveFrames, can_periph_api-Fits}
use jabi.I2c.Fit.{AnyBus, i2c_periph_api-Fits}
use jabi.Gpio.Modes.{AnyHw, gpio_periph_api-Fits}
use jabi.Pwm.Fit.{AnyPwm, pwm_periph_api-Fits}
use jabi.Adc.Fit.{AnyAdc, adc_periph_api-Fits}
use jabi.Dac.Scale.{AnyDac, dac_periph_api-Fits}
use jabi.Spi.Fit.{AnySpi, spi_periph_api-Fits}
use jabi.Uart.Fit.{AnyUart, uart_periph_api-Fits}
use jabi.Lin.Fit.{AllSound, lin_periph_api-Fits}

-- One build: the peripherals share its target, the serial number fits, and metadata reports the
-- instances that there are.
pub record IsBoard (b : Board) : Type 0 where
  pub is_build : IsBuild b.metadata
  pub can : b.can.target ≡ b.metadata.target
  pub i2c : b.i2c.target ≡ b.metadata.target
  pub gpio : b.gpio.target ≡ b.metadata.target
  pub pwm : b.pwm.target ≡ b.metadata.target
  pub adc : b.adc.target ≡ b.metadata.target
  pub dac : b.dac.target ≡ b.metadata.target
  pub spi : b.spi.target ≡ b.metadata.target
  pub uart : b.uart.target ≡ b.metadata.target
  pub lin : b.lin.target ≡ b.metadata.target
  pub num_idxs :
      b.metadata.num_idxs
      ≡ 1 ∷ b.can_num ∷ b.i2c_num ∷ b.gpio_num ∷ b.pwm_num ∷ b.adc_num ∷ b.dac_num ∷ b.spi_num
        ∷ b.uart_num ∷ b.lin_num ∷ []

-- What the functions rely on, and keep, of the devices.
abbrev pub AreSound : (b : Board) → Devices b → Type 0
AreSound b d =
    AllHaveFrames b.can d.can
    × All (AnyBus b.i2c) d.i2c
    × All (AnySpi b.spi) d.spi
    × All (AnyUart b.uart) d.uart
    × AllSound b.lin d.lin

module _ (t : Target) {S D : Type 0} (get : D → S) (put : S → D → D) (Inv : S → Type 0)
    (All_inv : D → Type 0) (part : (d : D) → All_inv d → Inv (get d))
    (keep : (s : S) (d : D) → All_inv d → Inv s → All_inv (put s d)) where
  on_part-Fits : (f : Handler S) → FitsHandler t Inv f → FitsHandler t All_inv (on_part get put f)
  on_part-Fits f fits d idx req n inv h small =
      let (fit, kept) = fits (get d) idx req n (part d inv) h small in
      (fit, keep (f (get d) idx req n).0 d inv kept)

  on_parts-Fits :
      (t' : Target) (fs : List (Handler S))
      → t' ≡ t
      → All (FitsHandler t' Inv) fs
      → All (FitsHandler t All_inv) (on_parts get put fs)
  on_parts-Fits t' [] e h = tt
  on_parts-Fits t' (f ∷ fs) e h =
      (on_part-Fits f (subst (λ k. FitsHandler k Inv f) e h.0), on_parts-Fits t' fs e h.1)

module _ (b : Board) where
  abbrev t : Target
  t = b.metadata.target

  can-Fits :
      IsBoard b
      → All
          (FitsHandler t (AreSound b))
          (on_parts (λ d. d.can) (λ s d. record d { can = s }) (can_periph_api b.can b.can_num).fns)
  can-Fits h =
      on_parts-Fits t (λ d. d.can) (λ s d. record d { can = s }) (AllHaveFrames b.can) (AreSound b)
        (λ d i. i.0) (λ s d i k. (k, i.1, i.2, i.3, i.4)) b.can.target
        (can_periph_api b.can b.can_num).fns h.can (can_periph_api-Fits b.can b.can_num)

  i2c-Fits :
      IsBoard b
      → All
          (FitsHandler t (AreSound b))
          (on_parts (λ d. d.i2c) (λ s d. record d { i2c = s }) (i2c_periph_api b.i2c b.i2c_num).fns)
  i2c-Fits h =
      on_parts-Fits t (λ d. d.i2c) (λ s d. record d { i2c = s }) (All (AnyBus b.i2c)) (AreSound b)
        (λ d i. i.1) (λ s d i k. (i.0, k, i.2, i.3, i.4)) b.i2c.target
        (i2c_periph_api b.i2c b.i2c_num).fns h.i2c (i2c_periph_api-Fits b.i2c b.i2c_num)

  gpio-Fits :
      IsBoard b
      → All (FitsHandler t (AreSound b)) (
          on_parts
            (λ d. d.gpio)
            (λ s d. record d { gpio = s })
            (gpio_periph_api b.gpio b.gpio_num).fns)
  gpio-Fits h =
      on_parts-Fits t (λ d. d.gpio) (λ s d. record d { gpio = s }) (AnyHw b.gpio) (AreSound b)
        (λ d i. tt) (λ s d i k. i) b.gpio.target (gpio_periph_api b.gpio b.gpio_num).fns h.gpio
        (gpio_periph_api-Fits b.gpio b.gpio_num)

  pwm-Fits :
      IsBoard b
      → All
          (FitsHandler t (AreSound b))
          (on_parts (λ d. d.pwm) (λ s d. record d { pwm = s }) (pwm_periph_api b.pwm b.pwm_num).fns)
  pwm-Fits h =
      on_parts-Fits t (λ d. d.pwm) (λ s d. record d { pwm = s }) (AnyPwm b.pwm) (AreSound b)
        (λ d i. tt) (λ s d i k. i) b.pwm.target (pwm_periph_api b.pwm b.pwm_num).fns h.pwm
        (pwm_periph_api-Fits b.pwm b.pwm_num)

  adc-Fits :
      IsBoard b
      → All
          (FitsHandler t (AreSound b))
          (on_parts (λ d. d.adc) (λ s d. record d { adc = s }) (adc_periph_api b.adc b.adc_num).fns)
  adc-Fits h =
      on_parts-Fits t (λ d. d.adc) (λ s d. record d { adc = s }) (AnyAdc b.adc) (AreSound b)
        (λ d i. tt) (λ s d i k. i) b.adc.target (adc_periph_api b.adc b.adc_num).fns h.adc
        (adc_periph_api-Fits b.adc b.adc_num)

  dac-Fits :
      IsBoard b
      → All
          (FitsHandler t (AreSound b))
          (on_parts (λ d. d.dac) (λ s d. record d { dac = s }) (dac_periph_api b.dac b.dac_num).fns)
  dac-Fits h =
      on_parts-Fits t (λ d. d.dac) (λ s d. record d { dac = s }) (AnyDac b.dac) (AreSound b)
        (λ d i. tt) (λ s d i k. i) b.dac.target (dac_periph_api b.dac b.dac_num).fns h.dac
        (dac_periph_api-Fits b.dac b.dac_num)

  spi-Fits :
      IsBoard b
      → All
          (FitsHandler t (AreSound b))
          (on_parts (λ d. d.spi) (λ s d. record d { spi = s }) (spi_periph_api b.spi b.spi_num).fns)
  spi-Fits h =
      on_parts-Fits t (λ d. d.spi) (λ s d. record d { spi = s }) (All (AnySpi b.spi)) (AreSound b)
        (λ d i. i.2) (λ s d i k. (i.0, i.1, k, i.3, i.4)) b.spi.target
        (spi_periph_api b.spi b.spi_num).fns h.spi (spi_periph_api-Fits b.spi b.spi_num)

  uart-Fits :
      IsBoard b
      → All (FitsHandler t (AreSound b)) (
          on_parts
            (λ d. d.uart)
            (λ s d. record d { uart = s })
            (uart_periph_api b.uart b.uart_num).fns)
  uart-Fits h =
      on_parts-Fits t (λ d. d.uart) (λ s d. record d { uart = s }) (All (AnyUart b.uart))
        (AreSound b) (λ d i. i.3) (λ s d i k. (i.0, i.1, i.2, k, i.4)) b.uart.target
        (uart_periph_api b.uart b.uart_num).fns h.uart (uart_periph_api-Fits b.uart b.uart_num)

  lin-Fits :
      IsBoard b
      → All
          (FitsHandler t (AreSound b))
          (on_parts (λ d. d.lin) (λ s d. record d { lin = s }) (lin_periph_api b.lin b.lin_num).fns)
  lin-Fits h =
      on_parts-Fits t (λ d. d.lin) (λ s d. record d { lin = s }) (AllSound b.lin) (AreSound b)
        (λ d i. i.4) (λ s d i k. (i.0, i.1, i.2, i.3, k)) b.lin.target
        (lin_periph_api b.lin b.lin_num).fns h.lin (lin_periph_api-Fits b.lin b.lin_num)

  -- On a board whose peripherals share one target, and whose serial number fits the response,
  -- every function of the table of all peripherals writes within the response array and
  -- announces only what it wrote, for every request that fits the request array, and it keeps
  -- what the functions rely on: that frames fit their arrays, and that each LIN device has its
  -- tables and its locks in order.
  pub peripherals-Fits : IsBoard b → FitsApis t (AreSound b) (peripherals b)
  unfolding peripherals
  peripherals-Fits h = (
    metadata_periph_api-Fits b.metadata h.is_build (AreSound b),
    (
      can-Fits h,
      (
        i2c-Fits h,
        (
          gpio-Fits h,
          (pwm-Fits h, (adc-Fits h, (dac-Fits h, (spi-Fits h, (uart-Fits h, (lin-Fits h, tt)))))),
        ),
      ),
    ),
  )
