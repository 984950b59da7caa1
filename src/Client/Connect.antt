-- ===== src/Client/Connect.antt =====
-- How a Device is set up once its interface is open: clients/cpp/libjabi/interfaces/usb.cpp, in
-- list_devices from make_device on, and uart.cpp, get_device.
use jabi.Prelude.{ℕ, Bool, Option, none, some, ltb, if◌then◌else◌}
use jabi.Client.Interface.{Failure, Result, ok, throw, Action, Interface, maximum_size_too_small}
use jabi.Client.Metadata.{req_max_size, resp_max_size}

-- REQ_PAYLOAD_MAX_SIZE and RESP_PAYLOAD_MAX_SIZE, as the client compiles interfaces.h
abbrev pub payload_max_size : ℕ
payload_max_size = 128

-- The interface's req_max_size and resp_max_size.
abbrev pub Sizes : Type 0
Sizes = ℕ × ℕ

-- What follows a call that returns, or throws.
abbrev pub after_call : {W A R : Type 0} → Result A × W → (A → W → R) → (Failure → W → R) → R
after_call (ok a, w) returned threw = returned a w
after_call (throw f, w) returned threw = threw f w

-- `make` is the interface with its two sizes.
module _ {W : Type 0} (make : ℕ → ℕ → Interface W) where
  -- The second request, for resp_max_size.
  abbrev pub attempt_resp : Sizes → W → Result (Unit {0}) × Sizes × W
  attempt_resp (a, b) w =
      after_call (resp_max_size (make a b) w)
        (λ b' w'.
          (if ltb b' payload_max_size then throw maximum_size_too_small else ok tt, (a, b'), w'))
        (λ f w'. (throw f, (a, b), w'))

  -- The two requests; a size that was assigned stays, also when the attempt throws.
  unfoldable pub attempt : Sizes → W → Result (Unit {0}) × Sizes × W
  attempt (a, b) w =
      after_call (req_max_size (make a b) w)
        (λ a' w'.
          if ltb a' payload_max_size
          then (throw maximum_size_too_small, (a', b), w')
          else attempt_resp (a', b) w')
        (λ f w'. (throw f, (a, b), w'))

  -- After an attempt that threw, `reset` and one more; `none` leaves the device out.
  unfoldable pub retry : (W → Bool × W) → Result (Unit {0}) × Sizes × W → Option Sizes × W
  unfolding attempt
  retry reset (ok _, sizes, w) = (some sizes, w)
  retry reset (throw _, sizes, w) =
      let (done, w1) = reset w in
      let (r, sizes', w2) = attempt sizes w1 in
      if done then (elim r [ ok _ ↦ some sizes' | throw _ ↦ none ], w2) else (none, w1)

  unfoldable pub connect_usb : (W → Bool × W) → W → Option Sizes × W
  unfolding attempt retry
  connect_usb reset w = retry reset (attempt (payload_max_size, payload_max_size) w)

  unfoldable pub connect_uart : Action W Sizes
  unfolding attempt
  connect_uart w =
      let (r, sizes, w1) = attempt (payload_max_size, payload_max_size) w in
      (elim r [ ok _ ↦ ok sizes | throw f ↦ throw f ], w1)
