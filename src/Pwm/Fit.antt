-- ===== src/Pwm/Fit.antt =====
-- pwm_write of pwm.c and its buffer.
use jabi.Prelude.{ℕ, arith, List, get_elem?, All, Option-cases, inl, inr}
use jabi.Periph.{IsFit, FitsHandler}
use jabi.Pwm.{PwmEnv, pwm_write, pwm_periph_api}

module _ (e : PwmEnv) where
  abbrev pub AnyPwm : e.Hw → Type 0
  AnyPwm hw = Unit {0}

  pwm_write-IsFit :
      (hw : e.Hw) (idx : ℕ) (req : List ℕ) (n : ℕ) → IsFit e.target (pwm_write e hw idx req n).1
  unfolding pwm_write
  pwm_write-IsFit hw idx req n = elim (Option-cases (get_elem? e.pwms idx)) [
    | inl missing ↦ rw (missing, pwm_write) (omega arith)
    | inr (pwm, found) ↦ rw (found, pwm_write) (ground arith)
  ]

  -- The function of the PWM table writes within the response array and announces only what it
  -- wrote, for every request and whatever the driver answers.
  pub pwm_periph_api-Fits : (num : ℕ) → All (FitsHandler e.target AnyPwm) (pwm_periph_api e num).fns
  unfolding pwm_periph_api
  pwm_periph_api-Fits num = ((λ s idx req n _ h l. (pwm_write-IsFit s idx req n, tt)), tt)
