-- ===== src/Uart/Write.antt =====
-- uart_write of uart.c and the bytes on the line.
use jabi.Prelude.{
  ℕ, ◌≡◌, refl, sym, ap, ◌∙◌, arith, Bool, true, false, List, [], ◌++◌, length, take, drop,
  overwrite, if◌then◌else◌, ltb, dec_lt, take-append_self, lt→ltb, ltb-false,
}
use mathlib.Core.List.{append-nil}
use jabi.Periph.{Reply, no_err}
use jabi.Uart.Driver.{UartEnv}
use jabi.Uart.Device.{Uart, uart_handler, finish_write, start_write, claim_write, uart_write}
use jabi.Uart.Order.{IsOrdered, IsBetween, uart_handler-IsOrdered}

module _ (e : UartEnv) where
  sent_all : (acc : List ℕ) (u : Uart e) → IsOrdered e acc u → u.tx_len ≡ 0 → u.line ≡ acc
  sent_all acc u h e' =
      let none_left : take u.tx_len (drop u.tx_off u.tx_buf) ≡ [] = rw e' in
      sym (append-nil u.line) ∙ ap (λ r. u.line ++ r) (sym none_left) ∙ h.in_order

  finish_write-IsBetween :
      (acc : List ℕ) (u : Uart e)
      → IsOrdered e acc u
      → IsBetween e acc (finish_write e u).0
        × ((finish_write e u).1.retcode ≡ no_err → (finish_write e u).0.line ≡ acc)
  finish_write-IsBetween acc u h = elim (dec_lt 0 (e.count u.tx_lock)) [
    | yes given ↦
        let (lock, got, less, lim) = e.take_now-some u.tx_lock given in
        let off : u.irq_tx ≡ false = ground arith in
        rw (got, finish_write)
          (
            record {
              ordered = record {
                in_order = h.in_order;
                idle = h.idle;
                under_way = λ on. cc;
                binary = omega arith;
                at_most_one = omega arith;
              };
              settled = λ _. (off, omega arith);
            },
            λ _. sent_all acc u h (h.idle off),
          )
    | no not_yet ↦
        rw (e.take_now-none u.tx_lock (omega arith), finish_write)
          (
            record {
              ordered = record {
                in_order = h.in_order;
                idle = h.idle;
                under_way = h.under_way;
                binary = h.binary;
                at_most_one = h.at_most_one;
              };
              settled = λ b. cc;
            },
            λ ok. cc,
          )
  ]

  -- A write that starts between two others, with the line caught up.
  start_write-IsBetween :
      (acc : List ℕ) (u : Uart e) (bytes : List ℕ)
      → IsOrdered e acc u
      → u.irq_tx ≡ false
      → e.count u.tx_lock ≡ 0
      → IsBetween e (acc ++ bytes) (start_write e u bytes).0
        × ((start_write e u bytes).1.retcode ≡ no_err
            → (start_write e u bytes).0.line ≡ acc ++ bytes)
  unfolding start_write
  start_write-IsBetween acc u bytes h off zero_count =
      let (turns, port) = e.wait_tx u.port in
      let started = record u {
        port = port;
        tx_buf = overwrite bytes u.tx_buf;
        tx_len = length bytes;
        tx_off = 0;
        irq_tx = true;
      } in
      finish_write-IsBetween (acc ++ bytes) (uart_handler e started turns) (
        uart_handler-IsOrdered e (acc ++ bytes) started turns (record {
          in_order = rw (
            take-append_self bytes (drop (length bytes) u.tx_buf),
            sent_all acc u h (h.idle off),
          );
          idle = λ q. cc;
          under_way = λ _. zero_count;
          binary = h.binary;
          at_most_one = h.at_most_one;
        }))

  -- What a write leaves that hands over `bytes` if it `starts`.
  abbrev pub Wrote : List ℕ → List ℕ → Bool → Uart e × Reply → Type 0
  Wrote acc bytes starts (u, reply) =
      IsBetween e (if starts then acc ++ bytes else acc) u
      × (reply.retcode ≡ no_err → u.line ≡ acc ++ bytes)

  claim_write-Wrote :
      (acc : List ℕ) (u : Uart e) (bytes : List ℕ)
      → IsBetween e acc u
      → Wrote acc bytes (ltb 0 (e.count u.tx_lock)) (claim_write e u bytes)
  unfolding claim_write
  claim_write-Wrote acc u bytes h = elim (dec_lt 0 (e.count u.tx_lock)) [
    | yes given ↦
        let (lock, got, less, lim) = e.take_now-some u.tx_lock given in
        let off : u.irq_tx ≡ false = ground arith in
        rw (got, claim_write, lt→ltb 0 (e.count u.tx_lock) given)
          (start_write-IsBetween acc (record u { tx_lock = lock }) bytes
            (record {
              in_order = h.ordered.in_order;
              idle = h.ordered.idle;
              under_way = λ on. cc;
              binary = omega (arith, h.ordered.binary);
              at_most_one = omega (arith, h.ordered.at_most_one);
            })
            off (omega (arith, h.ordered.at_most_one)))
    | no not_yet ↦
        rw
          (
            e.take_now-none u.tx_lock (omega arith),
            claim_write,
            ltb-false 0 (e.count u.tx_lock) (omega arith),
          )
          (h, λ ok. cc)
  ]

  -- Whether uart_write gets as far as its memcpy.
  abbrev pub starts : Uart e → Bool
  starts u = if u.tx_was_busy then ltb 0 (e.count u.tx_lock) else true

  either-Wrote :
      (acc : List ℕ) (u : Uart e) (bytes : List ℕ) (busy : Bool)
      → Wrote acc bytes (ltb 0 (e.count u.tx_lock)) (claim_write e u bytes)
      → (busy ≡ false → Wrote acc bytes true (start_write e u bytes))
      → Wrote acc bytes
          (if busy then ltb 0 (e.count u.tx_lock) else true)
          (if busy then claim_write e u bytes else start_write e u bytes)
  either-Wrote acc u bytes true claimed started = claimed
  either-Wrote acc u bytes false claimed started = started refl

  pub uart_write-Wrote :
      (acc : List ℕ) (u : Uart e) (req : List ℕ) (req_len : ℕ)
      → IsBetween e acc u
      → Wrote acc (take req_len req) (starts u) (uart_write e u req req_len)
  unfolding uart_write
  uart_write-Wrote acc u req req_len h =
      let bytes = take req_len req in
      either-Wrote acc u bytes u.tx_was_busy (claim_write-Wrote acc u bytes h)
        (λ free. start_write-IsBetween acc u bytes h.ordered (h.settled free).0 (h.settled free).1)

  -- Between two writes, the bytes on the line followed by those still to go out are all the
  -- bytes of the writes so far, in order; uart_write keeps this for every request and whatever
  -- interrupts arrive while it waits, and it adds its own bytes exactly if it gets as far as
  -- its memcpy: if no earlier write is unconfirmed or the semaphore has been given since.
  pub uart_write-IsBetween :
      (acc : List ℕ) (u : Uart e) (req : List ℕ) (req_len : ℕ)
      → IsBetween e acc u
      → IsBetween e
          (if starts u then acc ++ take req_len req else acc)
          (uart_write e u req req_len).0
  uart_write-IsBetween acc u req req_len h = (uart_write-Wrote acc u req req_len h).0

  -- If uart_write answers without error, in a device whose bytes are in order, then all the
  -- bytes of the earlier writes and its own are on the line, in order, whatever interrupts
  -- arrived while it waited.
  pub uart_write_sends_all :
      (acc : List ℕ) (u : Uart e) (req : List ℕ) (req_len : ℕ)
      → IsBetween e acc u
      → (uart_write e u req req_len).1.retcode ≡ no_err
      → (uart_write e u req req_len).0.line ≡ acc ++ take req_len req
  uart_write_sends_all acc u req req_len h = (uart_write-Wrote acc u req req_len h).1
