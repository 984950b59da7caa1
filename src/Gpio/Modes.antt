-- ===== src/Gpio/Modes.antt =====
-- gpio_set_mode of gpio.c, and the functions of gpio.c and their buffers.
use jabi.Prelude.{
  ℕ, ◌/◌, ◌%◌, ◌<◌, ◌≡◌, ◌⊎◌, arith, not, none, some, List, [], ◌∷◌, ◌==◌, if◌then◌else◌, get_elem?,
  All, Option-cases, inl, inr,
}
use jabi.Periph.{Reply, IsFit, FitsHandler, fail, done, peripheral_err, invalid_args_err}
use jabi.Gpio.{
  Direction, input, output, open_drain, open_source, Pin, GpioEnv, on_pin, gpio_set_mode,
  gpio_write, gpio_read, gpio_periph_api,
}

-- The direction of each number, as gpio.h lists them.
abbrev pub directions : List Direction
directions = input ∷ output ∷ open_drain ∷ open_source ∷ []

module _ (e : GpioEnv) (pin : Pin) (hw : e.Hw) (d p v : ℕ) (rest : List ℕ) where
  -- gpio_set_mode with a direction up to 3 and a pull up to 3 configures the pin once: in the
  -- direction that the number names, pulled up by bit 0 and down by bit 1 of the pull, and
  -- driven to the initial value unless it is an input.
  pub gpio_set_mode_lem :
      (direction : Direction)
      → get_elem? directions d ≡ some direction
      → p < 4
      → (gpio_set_mode e pin hw (d ∷ p ∷ v ∷ rest) 3) ≡ (
          let out = e.pin_configure hw pin (record {
            direction = direction;
            pull_up = p % 2 == 1;
            pull_down = p / 2 == 1;
            initial = if d == 0 then none else some (not (v == 0));
          }) in
          (out.1, if out.0 then done else fail peripheral_err))
  unfolding gpio_set_mode
  gpio_set_mode_lem direction h small = ground arith

  -- With any other direction or pull it leaves the hardware alone.
  pub gpio_set_mode-rejects :
      (3 < d) ⊎ (3 < p) → gpio_set_mode e pin hw (d ∷ p ∷ v ∷ rest) 3 ≡ (hw, fail invalid_args_err)
  unfolding gpio_set_mode
  gpio_set_mode-rejects h = ground arith

module _ (e : GpioEnv) where
  gpio-IsFit :
      (pin : Pin) (hw : e.Hw) (req : List ℕ) (n : ℕ)
      → IsFit e.target (gpio_set_mode e pin hw req n).1
        × IsFit e.target (gpio_write e pin hw req n).1
        × IsFit e.target (gpio_read e pin hw req n).1
  unfolding gpio_set_mode gpio_write gpio_read
  gpio-IsFit pin hw req n = (ground arith, ground arith, ground (arith, e.resp_max-ge))

  abbrev pub AnyHw : e.Hw → Type 0
  AnyHw hw = Unit {0}

  on_pin-Fits :
      (f : Pin → e.Hw → List ℕ → ℕ → e.Hw × Reply)
      → ((pin : Pin) (hw : e.Hw) (req : List ℕ) (n : ℕ) → IsFit e.target (f pin hw req n).1)
      → FitsHandler e.target AnyHw (on_pin e f)
  on_pin-Fits f fits hw idx req n _ h small = elim (Option-cases (get_elem? e.gpios idx)) [
    | inl e' ↦ rw (e', on_pin) (omega arith, tt)
    | inr (pin, e') ↦ rw (e', on_pin) (fits pin hw req n, tt)
  ]

  -- Every function of the GPIO table writes within the response array and announces only what
  -- it wrote, for every request and whatever the driver answers.
  pub gpio_periph_api-Fits :
      (num : ℕ) → All (FitsHandler e.target AnyHw) (gpio_periph_api e num).fns
  unfolding gpio_periph_api
  gpio_periph_api-Fits num = (
    on_pin-Fits (gpio_set_mode e) (λ pin hw req n. (gpio-IsFit pin hw req n).0),
    (
      on_pin-Fits (gpio_write e) (λ pin hw req n. (gpio-IsFit pin hw req n).1),
      (on_pin-Fits (gpio_read e) (λ pin hw req n. (gpio-IsFit pin hw req n).2), tt),
    ),
  )
