-- ===== src/Client/Gpio.antt =====
-- clients/cpp/libjabi/peripherals/gpio.cpp
use jabi.Prelude.{ℕ, Bool, not, [], ◌∷◌, ◌==◌, get_or}
use jabi.Client.Interface.{Action, Interface, pure, ◌>>=◌, request, expect_size, expect_empty}
use jabi.Client.Can.{byte_of}

-- enum class GPIODir
pub data GpioDir : Type 0 where
  input output open_drain open_source : GpioDir

-- enum class GPIOPull; `no_pull` is NONE.
pub data GpioPull : Type 0 where
  no_pull up down both : GpioPull

abbrev pub gpio_dir_code : GpioDir → ℕ
gpio_dir_code input = 0
gpio_dir_code output = 1
gpio_dir_code open_drain = 2
gpio_dir_code open_source = 3

abbrev pub gpio_pull_code : GpioPull → ℕ
gpio_pull_code no_pull = 0
gpio_pull_code up = 1
gpio_pull_code down = 2
gpio_pull_code both = 3

module _ {W : Type 0} (i : Interface W) where
  unfoldable pub gpio_set_mode : ℕ → GpioDir → GpioPull → Bool → Action W (Unit {0})
  gpio_set_mode idx dir pull init_val = do
    let args = gpio_dir_code dir ∷ gpio_pull_code pull ∷ byte_of init_val ∷ []
    resp ← i.send_request (request 3 idx 0 args)
    expect_empty resp

  unfoldable pub gpio_write : ℕ → Bool → Action W (Unit {0})
  gpio_write idx val = do
    resp ← i.send_request (request 3 idx 1 (byte_of val ∷ []))
    expect_empty resp

  unfoldable pub gpio_read : ℕ → Action W Bool
  gpio_read idx = do
    resp ← i.send_request (request 3 idx 2 [])
    ret ← expect_size 1 resp
    pure (not (get_or ret 0 0 == 0))
