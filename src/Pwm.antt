-- ===== src/Pwm.antt =====
-- firmware/src/peripherals/pwm.c. The channels share the state of their controllers; Zephyr's PWM
-- driver is a parameter.
pub mod Decode
pub mod Fit
use jabi.Prelude.{ℕ, Bool, not, none, some, List, [], ◌∷◌, ◌==◌, if◌then◌else◌, get_elem?}
use jabi.Packet.{Target, le32_at}
use jabi.Periph.{
  Reply, Handler, Api, fail, done, uninitialized_err, invalid_args_format_err, peripheral_err,
}

-- struct pwm_dt_spec
pub record PwmChannel : Type 0 where
  pub dev : ℕ
  pub channel : ℕ

-- pwm_set takes the period and then the pulse width; true is success.
pub record PwmEnv : Type 1 where
  pub target : Target
  pub open target use *
  pub pwms : List PwmChannel
  pub Hw : Type 0
  pub pwm_set : Hw → PwmChannel → ℕ → ℕ → Bool × Hw

module _ (e : PwmEnv) where
  unfoldable pub pwm_write : e.Hw → ℕ → List ℕ → ℕ → e.Hw × Reply
  pwm_write hw idx req req_len = elim (get_elem? e.pwms idx) [
    | none ↦ (hw, fail uninitialized_err)
    | some pwm ↦
        let pulsewidth = le32_at e.target req 0 in
        let period = le32_at e.target req 4 in
        let (ok, hw') = e.pwm_set hw pwm period pulsewidth in
        if not (req_len == 8)
        then (hw, fail invalid_args_format_err)
        else (hw', if ok then done else fail peripheral_err)
  ]

  -- pwm_periph_fns and pwm_periph_api; pwm_init does nothing.
  unfoldable pub pwm_periph_api : ℕ → Api e.Hw
  pwm_periph_api num = record { num_idx = num; fns = pwm_write ∷ [] }
