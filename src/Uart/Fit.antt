-- ===== src/Uart/Fit.antt =====
-- The functions of uart.c and their buffers.
use jabi.Prelude.{ℕ, zero, suc, ◌≤◌, arith, List, length, take, All, Option-cases, inl, inr}
use jabi.Packet.{le16_at}
use jabi.Periph.{Reply, IsFit, FitsHandler, on_device}
use jabi.Periph.Device.{FitsDevice, on_device-Fits}
use jabi.Uart.Driver.{UartEnv}
use jabi.Uart.Device.{
  Uart, uart_set_config, start_write, claim_write, uart_write, take_byte, waited, read_bytes,
  uart_read, uart_periph_api,
}

module _ (e : UartEnv) where
  abbrev pub AnyUart : Uart e → Type 0
  AnyUart u = Unit {0}

  length-read_bytes : (n : ℕ) (u : Uart e) → length (read_bytes e n u).0 ≤ n
  unfolding read_bytes
  length-read_bytes zero u = omega arith
  length-read_bytes (suc n) u = elim (Option-cases (take_byte e u)) [
    | inr (x, now) ↦ rw (now, read_bytes) (omega (arith, length-read_bytes n x.1))
    | inl not_yet ↦ elim (Option-cases (take_byte e (waited e u))) [
      | inr (x, later) ↦ rw (not_yet, later, read_bytes) (omega (arith, length-read_bytes n x.1))
      | inl timeout ↦ rw (not_yet, timeout, read_bytes) (omega arith)
    ]
  ]

  set_config-IsFit :
      (u : Uart e) (req : List ℕ) (n : ℕ) → IsFit e.target (uart_set_config e u req n).1
  unfolding uart_set_config
  set_config-IsFit u req n = ground arith

  start_write-IsFit : (u : Uart e) (bytes : List ℕ) → IsFit e.target (start_write e u bytes).1
  unfolding start_write
  start_write-IsFit u bytes = ground arith

  claim_write-IsFit : (u : Uart e) (bytes : List ℕ) → IsFit e.target (claim_write e u bytes).1
  unfolding claim_write
  claim_write-IsFit u bytes = elim (Option-cases (e.take_now u.tx_lock)) [
    | inl taken ↦ rw (taken, claim_write) (omega arith)
    | inr (lock, got) ↦
        rw (got, claim_write) (start_write-IsFit (record u { tx_lock = lock }) bytes)
  ]

  write-IsFit : (u : Uart e) (req : List ℕ) (n : ℕ) → IsFit e.target (uart_write e u req n).1
  unfolding uart_write
  write-IsFit u req n =
      ground (arith, claim_write-IsFit u (take n req), start_write-IsFit u (take n req))

  read-IsFit : (u : Uart e) (req : List ℕ) (n : ℕ) → IsFit e.target (uart_read e u req n).1
  unfolding uart_read
  read-IsFit u req n = ground (arith, length-read_bytes (le16_at e.target req 0) u)

  -- Every function of the UART table writes within the response array and announces only what
  -- it wrote, for every request and whatever interrupts arrive.
  pub uart_periph_api-Fits :
      (num : ℕ) → All (FitsHandler e.target (All AnyUart)) (uart_periph_api e num).fns
  unfolding uart_periph_api
  uart_periph_api-Fits num = (
    lift (uart_set_config e) (λ s r n _ h l. (set_config-IsFit s r n, tt)),
    (
      lift (uart_write e) (λ s r n _ h l. (write-IsFit s r n, tt)),
      (lift (uart_read e) (λ s r n _ h l. (read-IsFit s r n, tt)), tt),
    ),
  )
    where
      lift :
          (f : Uart e → List ℕ → ℕ → Uart e × Reply)
          → FitsDevice e.target AnyUart f
          → FitsHandler e.target (All AnyUart) (on_device f)
      lift = on_device-Fits e.target AnyUart
