-- ===== src/Client/Serial.antt =====
-- clients/cpp/libjabi/interfaces/uart.cpp, send_request on a POSIX serial port.
pub mod Exchange
use jabi.Prelude.{
  ℕ, zero, suc, ◌+◌, ◌-◌, Bool, Option, none, some, List, [], ◌∷◌, ◌++◌, not, ◌||◌, ltb, ◌==◌,
  if◌then◌else◌, length, take, drop,
}
use jabi.Packet.{resp_hdr_size}
use jabi.Client.{Endian, IfaceDynamicReq, IfaceDynamicResp, iface_req_htole, iface_resp_letoh}
use jabi.Client.Interface.{
  Result, ok, throw, Failure, request_payload_size, bad_response, write_failed, read_failed,
  uart_timeout,
}

-- write and read on the file descriptor, and the clock in milliseconds; `none` is a negative
-- return. `write` answers how many of the bytes were accepted, `read` the bytes that have come,
-- at most as many as asked for.
pub record Port (W : Type 0) : Type 0 where
  pub write : List ℕ → W → Option ℕ × W
  pub read : ℕ → W → Option (List ℕ) × W
  pub now : W → ℕ

-- UART_TIMEOUT
abbrev pub uart_timeout_ms : ℕ
uart_timeout_ms = 2000

-- class UARTInterface
pub record UartInterface (W : Type 0) : Type 0 where
  pub endian : Endian
  pub port : Port W
  pub req_max_size : ℕ
  pub resp_max_size : ℕ

-- `none`: the loop runs on.
abbrev pub Loop : Type 0 → Type 0 → Type 0
Loop W A = W → Option (Result A × W)

infixl 5 ◌>>=◌
abbrev pub ◌>>=◌ : {W A B : Type 0} → Loop W A → (A → Loop W B) → Loop W B
◌>>=◌ m f w = elim (m w) [
  | none ↦ none
  | some x ↦ elim x.0 [ ok a ↦ f a x.1 | throw e ↦ some (throw e, x.1) ]
]

abbrev pub guard : {W : Type 0} → Bool → Failure → Loop W (Unit {0})
guard c f w = some (if c then throw f else ok tt, w)

module _ {W : Type 0} (u : UartInterface W) where
  -- `while (len)` around write, for at most `fuel` turns.
  unfoldable pub write_all : ℕ → List ℕ → Loop W (Unit {0})
  write_all fuel [] w = some (ok tt, w)
  write_all zero (x ∷ xs) w = none
  write_all (suc fuel) (x ∷ xs) w =
      let (sent, w') = u.port.write (x ∷ xs) w in
      elim sent [
        | none ↦ some (throw write_failed, w')
        | some n ↦ write_all fuel (drop n (x ∷ xs)) w'
      ]

  -- `while (len)` around read, with the check of the time since `start`.
  unfoldable pub read_all : ℕ → ℕ → ℕ → Loop W (List ℕ)
  read_all fuel start zero w = some (ok [], w)
  read_all zero start (suc len) w = none
  read_all (suc fuel) start (suc len) w =
      let (received, w') = u.port.read (suc len) w in
      if ltb (start + uart_timeout_ms) (u.port.now w)
      then some (throw uart_timeout, w)
      else elim received [
        | none ↦ some (throw read_failed, w')
        | some bytes ↦ elim (read_all fuel start (suc len - length bytes) w') [
          | none ↦ none
          | some x ↦ some (elim x.0 [ ok more ↦ ok (bytes ++ more) | throw f ↦ throw f ], x.1)
        ]
      ]

  -- The response, from the header on.
  unfoldable pub receive : ℕ → ℕ → Loop W IfaceDynamicResp
  receive fuel start = read_all fuel start resp_hdr_size >>= λ bytes.
      let header = iface_resp_letoh u.endian bytes in
      guard (not (header.0 == 0) || ltb u.resp_max_size header.1) (bad_response header.0) >>= λ _.
      read_all fuel start header.1 >>= λ payload w.
      some (ok (record { retcode = header.0; payload_len = header.1; payload = payload }), w)

  unfoldable pub uart_send_request : ℕ → IfaceDynamicReq → Loop W IfaceDynamicResp
  uart_send_request fuel req =
      guard (ltb u.req_max_size req.payload_len || not (req.payload_len == length req.payload))
        request_payload_size
      >>= λ _. write_all fuel (iface_req_htole u.endian req) >>= λ _.
          write_all fuel req.payload >>= λ _ w. receive fuel (u.port.now w) w
