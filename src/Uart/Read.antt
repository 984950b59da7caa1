-- ===== src/Uart/Read.antt =====
-- uart_read of uart.c and the bytes received.
use jabi.Prelude.{ℕ, ◌/◌, ◌%◌, ◌≤◌, ◌≡◌, refl, ap, arith, List, [], ◌∷◌, ◌++◌, length, ltb-false}
use jabi.Bytes.{le16_value, le_bytes16}
use jabi.Periph.{reply_with}
use jabi.Uart.Driver.{UartEnv}
use jabi.Uart.Device.{Uart, read_bytes, uart_read}

module _ (e : UartEnv) where
  read_bytes_oldest :
      (xs ys : List ℕ) (u : Uart e)
      → e.contents u.rx_msgq ≡ xs ++ ys
      → ((read_bytes e (length xs) u).0 ≡ xs)
        × (e.contents (read_bytes e (length xs) u).1.rx_msgq ≡ ys)
  unfolding read_bytes
  read_bytes_oldest [] ys u h = (refl, h)
  read_bytes_oldest (x ∷ xs) ys u h =
      let (q, got, left, _) = e.get-cons u.rx_msgq x (xs ++ ys) h in
      let next = read_bytes_oldest xs ys (record u { rx_msgq = q }) left in
      rw (got, read_bytes) (ap (◌∷◌ x) next.0, next.1)

  -- If at least as many bytes have been received as uart_read is asked for, and they fit the
  -- response, it answers the oldest of them, in order, and leaves the others in the queue,
  -- whatever stands behind the request.
  pub uart_read_oldest :
      (u : Uart e) (xs ys rest : List ℕ)
      → e.contents u.rx_msgq ≡ xs ++ ys
      → length xs ≤ e.resp_max
      → ((uart_read e u (le_bytes16 (length xs) ++ rest) 2).1 ≡ reply_with xs)
        × (e.contents (uart_read e u (le_bytes16 (length xs) ++ rest) 2).0.rx_msgq ≡ ys)
  unfolding uart_read
  uart_read_oldest u xs ys rest h small =
      let n = length xs in
      let next = read_bytes_oldest xs ys u h in
      rw
        (
          e.le16_to_cpu-load16 (n % 256) (n / 256 % 256) (omega arith) (omega arith),
          le16_value n (omega (arith, e.resp_max-lt)),
          ltb-false e.resp_max n small,
        )
        (ap reply_with next.0, next.1)
