-- ===== src/Pwm/Decode.antt =====
-- What pwm_write asks of the controller, for the requests that pwm.h describes.
use jabi.Prelude.{ℕ, ◌/◌, ◌%◌, ◌^◌, ◌<◌, ◌≡◌, arith, List, ◌++◌, some, get_elem?, if◌then◌else◌}
use jabi.Bytes.{le32_value, le_bytes32}
use jabi.Periph.{done, fail, peripheral_err}
use jabi.Pwm.{PwmChannel, PwmEnv, pwm_write}

-- pwm_write gives its controller the period and the pulse width of the request, each in its
-- place, whatever the request buffer holds behind them.
pub pwm_write_lem :
    (e : PwmEnv) (hw : e.Hw) (idx : ℕ) (pwm : PwmChannel) (pulsewidth period : ℕ) (rest : List ℕ)
    → get_elem? e.pwms idx ≡ some pwm
    → pulsewidth < 2 ^ 32
    → period < 2 ^ 32
    → pwm_write e hw idx (le_bytes32 pulsewidth ++ (le_bytes32 period ++ rest)) 8 ≡ (
        let out = e.pwm_set hw pwm period pulsewidth in
        (out.1, if out.0 then done else fail peripheral_err))
unfolding pwm_write
pwm_write_lem e hw idx pwm pulsewidth period rest h w p = rw (
  h,
  pwm_write,
  e.le32_to_cpu-load32 (pulsewidth % 256) (pulsewidth / 256 % 256) (pulsewidth / 65536 % 256)
      (pulsewidth / 16777216 % 256) (omega arith) (omega arith) (omega arith) (omega arith),
  le32_value pulsewidth w,
  e.le32_to_cpu-load32 (period % 256) (period / 256 % 256) (period / 65536 % 256)
      (period / 16777216 % 256) (omega arith) (omega arith) (omega arith) (omega arith),
  le32_value period p,
)
