-- ===== src/Client/Remote/Pwm.antt =====
-- pwm_write of the client on a channel of the board.
use jabi.Prelude.{
  Bool, true, false, if◌then◌else◌, ℕ, ◌^◌, ◌≤◌, ◌<◌, ◌≡◌, refl, ap, ◌∙◌, arith, Bool, some, List,
  ◌++◌, get_elem?, if◌then◌else◌,
}
use jabi.Bytes.{le_bytes32}
use jabi.Periph.{Reply, Handler, done, fail, peripheral_err}
use jabi.Serve.Answer.{KeepsOrder}
use jabi.Board.{Board, Devices, on_part, peripherals}
use jabi.Board.Fit.{IsBoard, AreSound}
use jabi.Pwm.{PwmEnv, PwmChannel, pwm_write, pwm_periph_api}
use jabi.Pwm.Decode.{pwm_write_lem}
use jabi.Client.{Endian, put32-le}
use jabi.Client.Interface.{Interface, request}
use jabi.Client.Analog.{Seconds}
use jabi.Client.Analog as HostAnalog
use jabi.Client.Link.{Firmware, IsReady}
use jabi.Client.Routed.{reply_result}
use jabi.Client.Routed.{refused}
use jabi.Client.Remote.{
  Fits, request-Refused, device, request-Done, finish, outcome, finish-outcome,
}

pwm_write-empty :
    (e : PwmEnv) (hw : e.Hw) (idx : ℕ) (req : List ℕ) (n : ℕ)
    → (pwm_write e hw idx req n).1.resp_len ≡ 0
unfolding pwm_write
pwm_write-empty e hw idx req n = ground arith

-- The reply that stands for a Boolean result of the driver.
abbrev pub reply_for : Bool → Reply
reply_for success = if success then done else fail peripheral_err

reply_for-empty : (success : Bool) → (reply_for success).resp_len ≡ 0
reply_for-empty success = ground arith

module _ (b : Board) (is_board : IsBoard b) (keeps_order : KeepsOrder b.metadata.target)
    (e : Endian) (packet_size : ℕ) (positive : 0 < packet_size) (req_max resp_max : ℕ) where
  abbrev on_usb : Bool → Interface (Firmware (Devices b))
  on_usb = device b is_board keeps_order e packet_size positive req_max resp_max

  abbrev on_pwm : Handler (Devices b)
  on_pwm = on_part (λ d. d.pwm) (λ s d. record d { pwm = s }) (pwm_write b.pwm)

  -- The payload of a request for `pulsewidth` and `period`.
  abbrev waveform : ℕ → ℕ → List ℕ
  waveform pulsewidth period = le_bytes32 pulsewidth ++ le_bytes32 period

  waveform-Fits :
      (idx pulsewidth period : ℕ)
      → idx < b.pwm_num
      → idx < 2 ^ 16
      → 8 ≤ req_max
      → Fits b is_board keeps_order e packet_size positive req_max resp_max 4 idx 0
          (waveform pulsewidth period)
          on_pwm
  unfolding peripherals pwm_periph_api
  waveform-Fits idx pulsewidth period exists small room = record {
    reaches = record {
      api = _;
      known = omega arith;
      listed = refl;
      instance_exists = exists;
      offered = refl;
    };
    id_fits = omega arith;
    idx_fits = small;
    fn_fits = omega arith;
    sent = room;
    received = omega (arith, b.metadata.target.req_max-ge);
    bytes = (
      omega arith,
      (
        omega arith,
        (
          omega arith,
          (omega arith, (omega arith, (omega arith, (omega arith, (omega arith, tt))))),
        ),
      ),
    );
    short = λ d array. omega (arith, pwm_write-empty b.pwm d.pwm idx array 8);
  }

  -- On a little-endian board, one build with its whole table of peripherals, whose arrays have
  -- their sizes, whose devices are in order, which exchanges packets of a positive size with
  -- the host and has only empty transfers pending and none begun, pwm_write of the client gives
  -- the controller of the channel that its index names the caller's period and pulse width in
  -- nanoseconds, each in its place, and changes nothing else of the board; it returns if the
  -- driver succeeds and throws the code of a peripheral error otherwise. Both numbers of
  -- nanoseconds are below 2 ^ 32. All this holds if the lock of the device is taken in time;
  -- otherwise the call throws the code of JABI_BUSY_ERR, and the board's peripherals stay as
  -- they are.
  pub pwm_write-pwm_set :
      (taken : Bool) (w : Firmware (Devices b)) (idx : ℕ) (pwm : PwmChannel) (s : Seconds)
      (pulsewidth period : s.Double)
      → IsReady b.metadata.target (AreSound b) w
      → idx < b.pwm_num
      → idx < 2 ^ 16
      → 8 ≤ req_max
      → get_elem? b.pwm.pwms idx ≡ some pwm
      → s.lround_ns pulsewidth < 2 ^ 32
      → s.lround_ns period < 2 ^ 32
      → let ran = b.pwm.pwm_set w.state.pwm pwm (s.lround_ns period) (s.lround_ns pulsewidth) in
        let out = HostAnalog.pwm_write (on_usb taken) s idx pulsewidth period w in
        (out.0 ≡ (if taken then outcome (reply_for ran.0) else refused))
        × (out.1.state ≡ (if taken then record w.state { pwm = ran.1 } else w.state))
  unfolding HostAnalog.pwm_write
  pwm_write-pwm_set true w idx pwm s pulsewidth period ready exists small room found pulse_fits
        period_fits =
      let payload = waveform (s.lround_ns pulsewidth) (s.lround_ns period) in
      let d =
        request-Done b is_board keeps_order e packet_size positive req_max resp_max w 4 idx 0
          payload on_pwm ready (waveform-Fits idx _ _ exists small room) in
      let ran = b.pwm.pwm_set w.state.pwm pwm (s.lround_ns period) (s.lround_ns pulsewidth) in
      let side : on_pwm w.state idx (payload ++ d.rest) 8
          ≡ (record w.state { pwm = ran.1 }, reply_for ran.0) =
        rw
          (pwm_write_lem b.pwm w.state.pwm idx pwm (s.lround_ns pulsewidth) (s.lround_ns period)
            d.rest found pulse_fits period_fits)
          refl in
      let after = (on_usb true).send_request (request 4 idx 0 payload) w in
      let ends =
        ap (λ q. finish q after.1) (d.result ∙ ap (λ p. reply_result p.1) side)
        ∙ finish-outcome (reply_for ran.0) after.1 (reply_for-empty ran.0) in
      rw
        (
          put32-le e (s.lround_ns pulsewidth) pulse_fits,
          put32-le e (s.lround_ns period) period_fits,
        )
        (ap (λ p. p.0) ends, ap (λ p. p.1.state) ends ∙ d.state ∙ ap (λ p. p.0) side)
  pwm_write-pwm_set false w idx pwm s pulsewidth period ready exists small room found pulse_fits
        period_fits =
      let payload = waveform (s.lround_ns pulsewidth) (s.lround_ns period) in
      let d =
        request-Refused b is_board keeps_order e packet_size positive req_max resp_max w 4 idx 0
          payload on_pwm ready (waveform-Fits idx _ _ exists small room) in
      let after = (on_usb false).send_request (request 4 idx 0 payload) w in
      let ends = ap (λ q. finish q after.1) d.result in
      rw
        (
          put32-le e (s.lround_ns pulsewidth) pulse_fits,
          put32-le e (s.lround_ns period) period_fits,
        )
        (ap (λ p. p.0) ends, ap (λ p. p.1.state) ends ∙ d.state)
