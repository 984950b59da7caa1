-- ===== src/Client/Remote/Gpio.antt =====
-- gpio_set_mode of the client on a pin of the board.
use jabi.Prelude.{
  ℕ, ◌%◌, ◌/◌, ◌^◌, ◌≤◌, ◌<◌, ◌≡◌, refl, ap, ◌∙◌, arith, Bool, true, false, not, none, some, List,
  [], ◌∷◌, ◌==◌, if◌then◌else◌, get_elem?,
}
use jabi.Bytes.{IsByte}
use jabi.Periph.{Reply, Handler, done, fail, peripheral_err}
use jabi.Serve.Answer.{KeepsOrder}
use jabi.Board.{Board, Devices, on_part, peripherals}
use jabi.Board.Fit.{IsBoard, AreSound}
use jabi.Gpio.{Direction, Pin, GpioFlags, on_pin, gpio_set_mode, gpio_periph_api}
use jabi.Gpio.Modes.{gpio_set_mode_lem, directions}
use jabi.Client.{Endian}
use jabi.Client.Interface.{Result, ok, throw, bad_response, Interface, request}
use jabi.Client.Link.{Firmware, IsReady}
use jabi.Client.Routed.{reply_result, refused}
use jabi.Client.Remote.{Fits, request-Refused, device, request-Done, finish}
use jabi.Client.Can.{byte_of}
use jabi.Client
use jabi.Client.Gpio.{GpioDir, GpioPull, gpio_dir_code, gpio_pull_code}

-- What the pin is to become.
abbrev pub direction_for : GpioDir → Direction
direction_for GpioDir.input = Direction.input
direction_for GpioDir.output = Direction.output
direction_for GpioDir.open_drain = Direction.open_drain
direction_for GpioDir.open_source = Direction.open_source

abbrev pub is_input : GpioDir → Bool
is_input GpioDir.input = true
is_input _ = false

abbrev pub pulls_up : GpioPull → Bool
pulls_up GpioPull.up = true
pulls_up GpioPull.both = true
pulls_up _ = false

abbrev pub pulls_down : GpioPull → Bool
pulls_down GpioPull.down = true
pulls_down GpioPull.both = true
pulls_down _ = false

abbrev pub flags_for : GpioDir → GpioPull → Bool → GpioFlags
flags_for dir pull init_val = record {
  direction = direction_for dir;
  pull_up = pulls_up pull;
  pull_down = pulls_down pull;
  initial = if is_input dir then none else some init_val;
}

-- The reply that stands for a Boolean result of the driver.
abbrev reply_for : Bool → Reply
reply_for true = done
reply_for false = fail peripheral_err

abbrev result_for : Bool → Result (Unit {0})
result_for success = if success then ok tt else throw (bad_response 4)

dir-direction_for :
    (dir : GpioDir)
    → (get_elem? directions (gpio_dir_code dir) ≡ some (direction_for dir))
      × ((gpio_dir_code dir == 0) ≡ is_input dir)
dir-direction_for GpioDir.input = (refl, refl)
dir-direction_for GpioDir.output = (refl, refl)
dir-direction_for GpioDir.open_drain = (refl, refl)
dir-direction_for GpioDir.open_source = (refl, refl)

pull-bits :
    (pull : GpioPull)
    → (gpio_pull_code pull < 4)
      × ((gpio_pull_code pull % 2 == 1) ≡ pulls_up pull)
      × ((gpio_pull_code pull / 2 == 1) ≡ pulls_down pull)
pull-bits GpioPull.no_pull = (omega arith, refl, refl)
pull-bits GpioPull.up = (omega arith, refl, refl)
pull-bits GpioPull.down = (omega arith, refl, refl)
pull-bits GpioPull.both = (omega arith, refl, refl)

byte_of-bit : (v : Bool) → not (byte_of v == 0) ≡ v
byte_of-bit true = refl
byte_of-bit false = refl

-- The reply as the firmware writes it.
reply_for-if :
    (success : Bool) → (if success then done else fail peripheral_err) ≡ reply_for success
reply_for-if true = refl
reply_for-if false = refl

reply_for-result :
    {W : Type 0} (success : Bool) (w : W)
    → finish (reply_result (reply_for success)) w ≡ (result_for success, w)
reply_for-result true w = refl
reply_for-result false w = refl

module _ (b : Board) where
  abbrev on_board : Handler (Devices b)
  on_board =
      on_part (λ d. d.gpio) (λ s d. record d { gpio = s }) (on_pin b.gpio (gpio_set_mode b.gpio))

  abbrev configured : Devices b → Pin → GpioDir → GpioPull → Bool → Bool × b.gpio.Hw
  configured d pin dir pull init_val = b.gpio.pin_configure d.gpio pin (flags_for dir pull init_val)

  -- The firmware's side of the call.
  on_board-flags :
      (d : Devices b) (idx : ℕ) (pin : Pin) (dir : GpioDir) (pull : GpioPull) (init_val : Bool)
      (rest : List ℕ)
      → get_elem? b.gpio.gpios idx ≡ some pin
      → on_board d idx (gpio_dir_code dir ∷ gpio_pull_code pull ∷ byte_of init_val ∷ rest) 3 ≡ (
        record d { gpio = (configured d pin dir pull init_val).1 },
        reply_for (configured d pin dir pull init_val).0,
      )
  on_board-flags d idx pin dir pull init_val rest found =
      let (named, is_in) = dir-direction_for dir in
      let (small, up, down) = pull-bits pull in
      rw
        (
          found,
          on_pin,
          gpio_set_mode_lem b.gpio pin d.gpio (gpio_dir_code dir) (gpio_pull_code pull)
              (byte_of init_val) rest (direction_for dir) named small,
          is_in,
          up,
          down,
          byte_of-bit init_val,
          reply_for-if (configured d pin dir pull init_val).0,
        )
        refl

  byte_of-IsByte : (v : Bool) → IsByte (byte_of v)
  byte_of-IsByte true = omega arith
  byte_of-IsByte false = omega arith

  gpio_dir_code-IsByte : (dir : GpioDir) → IsByte (gpio_dir_code dir)
  gpio_dir_code-IsByte GpioDir.input = omega arith
  gpio_dir_code-IsByte GpioDir.output = omega arith
  gpio_dir_code-IsByte GpioDir.open_drain = omega arith
  gpio_dir_code-IsByte GpioDir.open_source = omega arith

  gpio_pull_code-IsByte : (pull : GpioPull) → IsByte (gpio_pull_code pull)
  gpio_pull_code-IsByte pull = omega (arith, (pull-bits pull).0)

  -- It answers without data.
  on_board-short :
      (idx n most : ℕ) (d : Devices b) (array : List ℕ) → (on_board d idx array n).1.resp_len ≤ most
  unfolding gpio_set_mode
  on_board-short idx n most d array = ground arith

module _ (b : Board) (is_board : IsBoard b) (keeps_order : KeepsOrder b.metadata.target)
    (e : Endian) (packet_size : ℕ) (positive : 0 < packet_size) (req_max resp_max : ℕ) where
  abbrev on_usb : Bool → Interface (Firmware (Devices b))
  on_usb = device b is_board keeps_order e packet_size positive req_max resp_max

  -- The payload of a request for these flags.
  abbrev flag_bytes : GpioDir → GpioPull → Bool → List ℕ
  flag_bytes dir pull init_val = gpio_dir_code dir ∷ gpio_pull_code pull ∷ byte_of init_val ∷ []

  flag_bytes-Fits :
      (idx : ℕ) (dir : GpioDir) (pull : GpioPull) (init_val : Bool)
      → idx < b.gpio_num
      → idx < 2 ^ 16
      → 3 ≤ req_max
      → Fits b is_board keeps_order e packet_size positive req_max resp_max 3 idx 0
          (flag_bytes dir pull init_val)
          (on_board b)
  unfolding peripherals gpio_periph_api
  flag_bytes-Fits idx dir pull init_val exists small room_for = record {
    reaches = record {
      api = _;
      known = omega arith;
      listed = refl;
      instance_exists = exists;
      offered = refl;
    };
    id_fits = omega arith;
    idx_fits = small;
    fn_fits = omega arith;
    sent = room_for;
    received = omega (arith, b.metadata.target.req_max-ge);
    bytes = (
      gpio_dir_code-IsByte b dir,
      (gpio_pull_code-IsByte b pull, (byte_of-IsByte b init_val, tt)),
    );
    short = on_board-short b idx 3 resp_max;
  }

  -- On a little-endian board, one build with its whole table of peripherals, whose arrays have
  -- their sizes, whose devices are in order, which exchanges packets of a positive size with
  -- the host and has only empty transfers pending and none begun, gpio_set_mode of the client
  -- configures the pin that the board lists under its index once, with the direction, the pulls
  -- and the initial level that the caller asked for (none for an input), and nothing else of
  -- the board; it returns if the driver succeeds and throws the code of a peripheral error
  -- otherwise. All this holds if the lock of the device is taken in time; otherwise the call
  -- throws the code of JABI_BUSY_ERR, and the board's peripherals stay as they are.
  pub gpio_set_mode-flags :
      (taken : Bool) (w : Firmware (Devices b)) (idx : ℕ) (pin : Pin) (dir : GpioDir)
      (pull : GpioPull) (init_val : Bool)
      → IsReady b.metadata.target (AreSound b) w
      → idx < b.gpio_num
      → idx < 2 ^ 16
      → 3 ≤ req_max
      → get_elem? b.gpio.gpios idx ≡ some pin
      → let out = Client.Gpio.gpio_set_mode (on_usb taken) idx dir pull init_val w in
        (out.0
          ≡ (if taken then result_for (configured b w.state pin dir pull init_val).0 else refused))
        × (out.1.state ≡ (
            if taken
            then record w.state { gpio = (configured b w.state pin dir pull init_val).1 }
            else w.state))
  unfolding Client.Gpio.gpio_set_mode
  gpio_set_mode-flags true w idx pin dir pull init_val ready exists small room_for found =
      let args = flag_bytes dir pull init_val in
      let success = (configured b w.state pin dir pull init_val).0 in
      let d =
        request-Done b is_board keeps_order e packet_size positive req_max resp_max w 3 idx 0 args
          (on_board b) ready (flag_bytes-Fits idx dir pull init_val exists small room_for) in
      let side = on_board-flags b w.state idx pin dir pull init_val d.rest found in
      let after = (on_usb true).send_request (request 3 idx 0 args) w in
      let ran : after.0 ≡ reply_result (reply_for success) =
        d.result ∙ ap (λ p. reply_result p.1) side in
      let ends = ap (λ q. finish q after.1) ran ∙ reply_for-result success after.1 in
      (ap (λ p. p.0) ends, ap (λ p. p.1.state) ends ∙ d.state ∙ ap (λ p. p.0) side)
  gpio_set_mode-flags false w idx pin dir pull init_val ready exists small room_for found =
      let args = flag_bytes dir pull init_val in
      let d =
        request-Refused b is_board keeps_order e packet_size positive req_max resp_max w 3 idx 0
          args (on_board b) ready (flag_bytes-Fits idx dir pull init_val exists small room_for) in
      let after = (on_usb false).send_request (request 3 idx 0 args) w in
      let ends = ap (λ q. finish q after.1) d.result in
      (ap (λ p. p.0) ends, ap (λ p. p.1.state) ends ∙ d.state)
