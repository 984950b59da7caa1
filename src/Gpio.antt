-- ===== src/Gpio.antt =====
-- firmware/src/peripherals/gpio.c. Several entries of `gpios` may stand on one port, so the ports'
-- state is shared; Zephyr's GPIO driver over it is a parameter.
pub mod Modes
use jabi.Prelude.{
  ℕ, ◌%◌, Bool, true, false, not, Option, none, some, List, [], ◌∷◌, ◌==◌, if◌then◌else◌, get_elem?,
  get_or,
}
use jabi.Packet.{Target}
use jabi.Periph.{
  Reply, Handler, Api, fail, done, reply_with, uninitialized_err, invalid_args_format_err,
  invalid_args_err, peripheral_err,
}

-- GPIO_INPUT, GPIO_OUTPUT, GPIO_OPEN_DRAIN and GPIO_OPEN_SOURCE
pub data Direction : Type 0 where
  input output open_drain open_source : Direction

-- gpio_flags_t: the direction, the pull resistors, and GPIO_OUTPUT_HIGH (true) or GPIO_OUTPUT_LOW
-- (false), if either is set. GPIO_ACTIVE_HIGH is no bit.
pub record GpioFlags : Type 0 where
  pub direction : Direction
  pub pull_up : Bool
  pub pull_down : Bool
  pub initial : Option Bool

-- struct gpio_dt_spec
pub record Pin : Type 0 where
  pub port : ℕ
  pub pin : ℕ

-- A Boolean is true for success; `get` answers a level or an error.
pub record GpioEnv : Type 1 where
  pub target : Target
  pub open target use *
  pub gpios : List Pin
  pub Hw : Type 0
  pub pin_configure : Hw → Pin → GpioFlags → Bool × Hw
  pub pin_set : Hw → Pin → ℕ → Bool × Hw
  pub pin_get : Hw → Pin → Option ℕ × Hw

abbrev pub direction_of : ℕ → Option Direction
direction_of d =
    if d == 0
    then some input
    else if d == 1
    then some output
    else if d == 2
    then some open_drain
    else if d == 3
    then some open_source
    else none

-- GPIO_PULL_UP and GPIO_PULL_DOWN
abbrev pub pull_of : ℕ → Option (Bool × Bool)
pull_of p =
    if p == 0
    then some (false, false)
    else if p == 1
    then some (true, false)
    else if p == 2
    then some (false, true)
    else if p == 3
    then some (true, true)
    else none

-- A function of one pin, `gpios[idx]`, over all ports.
abbrev pub on_pin : (e : GpioEnv) → (Pin → e.Hw → List ℕ → ℕ → e.Hw × Reply) → Handler e.Hw
on_pin e f hw idx req req_len = elim (get_elem? e.gpios idx) [
  | none ↦ (hw, fail uninitialized_err)
  | some pin ↦ f pin hw req req_len
]

module _ (e : GpioEnv) where
  unfoldable pub gpio_set_mode : Pin → e.Hw → List ℕ → ℕ → e.Hw × Reply
  gpio_set_mode pin hw req req_len =
      if not (req_len == 3)
      then (hw, fail invalid_args_format_err)
      else elim (direction_of (get_or req 0 0)) [
        | none ↦ (hw, fail invalid_args_err)
        | some direction ↦ elim (pull_of (get_or req 1 0)) [
          | none ↦ (hw, fail invalid_args_err)
          | some (up, down) ↦
              let flags : GpioFlags = record {
                direction = direction;
                pull_up = up;
                pull_down = down;
                initial = if get_or req 0 0 == 0 then none else some (not (get_or req 2 0 == 0));
              } in
              let (ok, hw') = e.pin_configure hw pin flags in
              (hw', if ok then done else fail peripheral_err)
        ]
      ]

  unfoldable pub gpio_write : Pin → e.Hw → List ℕ → ℕ → e.Hw × Reply
  gpio_write pin hw req req_len =
      let (ok, hw') = e.pin_set hw pin (get_or req 0 0) in
      if not (req_len == 1)
      then (hw, fail invalid_args_format_err)
      else (hw', if ok then done else fail peripheral_err)

  unfoldable pub gpio_read : Pin → e.Hw → List ℕ → ℕ → e.Hw × Reply
  gpio_read pin hw req req_len =
      let (level, hw') = e.pin_get hw pin in
      if not (req_len == 0)
      then (hw, fail invalid_args_format_err)
      else (hw', elim level [ none ↦ fail peripheral_err | some r ↦ reply_with (r % 256 ∷ []) ])

  -- gpio_periph_fns and gpio_periph_api; gpio_init does nothing.
  unfoldable pub gpio_periph_api : ℕ → Api e.Hw
  gpio_periph_api num = record {
    num_idx = num;
    fns = on_pin e gpio_set_mode ∷ on_pin e gpio_write ∷ on_pin e gpio_read ∷ [];
  }
