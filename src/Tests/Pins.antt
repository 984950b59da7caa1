-- ===== src/Tests/Pins.antt =====
-- I2C, GPIO, PWM and ADC drivers that keep what they were asked last.
use jabi.Prelude.{◌*◌, ◌/◌, ◌^◌, ℕ, true, List, [], ◌∷◌, some, replicate, length-replicate}
use jabi.I2c.{I2cEnv}
use jabi.Gpio.{Pin, GpioFlags, GpioEnv}
use jabi.Pwm.{PwmEnv, PwmChannel}
use jabi.Adc.{AdcDev, AdcEnv}
use jabi.Tests.{small}

abbrev pub i2c_env : I2cEnv
i2c_env = record {
  target = small;
  Bus = List ℕ;
  configure = λ b speed. (true, b);
  write = λ b tx addr. (true, addr ∷ tx);
  read = λ b n addr. (true, replicate n 0, b);
  write_read = λ b addr tx n. (true, replicate n 0, addr ∷ tx);
  length-read = λ b n addr. length-replicate n 0;
  length-write_read = λ b addr tx n. length-replicate n 0;
}

abbrev pub led : Pin
led = record { port = 0; pin = 13 }

abbrev pub gpio_env : GpioEnv
gpio_env = record {
  target = small;
  gpios = led ∷ [];
  Hw = List GpioFlags;
  pin_configure = λ hw pin flags. (true, flags ∷ hw);
  pin_set = λ hw pin level. (true, hw);
  pin_get = λ hw pin. (some 1, hw);
}

abbrev pub fan : PwmChannel
fan = record { dev = 0; channel = 2 }

abbrev pub pwm_env : PwmEnv
pwm_env = record {
  target = small;
  pwms = fan ∷ [];
  Hw = ℕ × ℕ;
  pwm_set = λ hw pwm period pulsewidth. (true, (period, pulsewidth));
}

abbrev thermistor : AdcDev
thermistor = record { dev = 0; channel = 1; resolution = 12; vref = 3300 }

abbrev pub adc_env : AdcEnv
adc_env = record {
  target = small;
  adc_devs = thermistor ∷ [];
  Hw = ℕ;
  channel_setup = λ hw adc. (true, hw);
  sample = λ hw adc. (some 2048, hw);
  raw_to_millivolts = λ adc raw. some (raw * adc.vref / 2 ^ adc.resolution);
}
