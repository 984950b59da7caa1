-- ===== src/Client/Analog.antt =====
-- clients/cpp/libjabi/peripherals/pwm.cpp, adc.cpp and dac.cpp.
use jabi.Prelude.{ℕ, ◌++◌, []}
use jabi.Client.{put32, at32}
use jabi.Client.Interface.{Action, Interface, pure, ◌>>=◌, request, expect_size, expect_empty}

-- What pwm_write uses of C++'s floating point: the 32-bit pattern of std::lround(x * 1e9).
pub record Seconds : Type 1 where
  pub Double : Type 0
  pub lround_ns : Double → ℕ

module _ {W : Type 0} (i : Interface W) where
  unfoldable pub pwm_write : (d : Seconds) → ℕ → d.Double → d.Double → Action W (Unit {0})
  pwm_write d idx pulsewidth period = do
    let args = put32 i.endian (d.lround_ns pulsewidth) ++ put32 i.endian (d.lround_ns period)
    resp ← i.send_request (request 4 idx 0 args)
    expect_empty resp

  -- The pattern of an int32_t in millivolts.
  unfoldable pub adc_read : ℕ → Action W ℕ
  adc_read idx = do
    resp ← i.send_request (request 5 idx 0 [])
    ret ← expect_size 4 resp
    pure (at32 i.endian ret 0)

  unfoldable pub dac_write : ℕ → ℕ → Action W (Unit {0})
  dac_write idx mv = do
    resp ← i.send_request (request 6 idx 0 (put32 i.endian mv))
    expect_empty resp
