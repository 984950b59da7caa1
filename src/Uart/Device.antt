-- ===== src/Uart/Device.antt =====
-- uart_dev_data_t, the interrupt handler and the functions of uart.c.
use Prim.Native.Nat.{min}
use jabi.Prelude.{
  ℕ, zero, suc, ◌+◌, ◌-◌, Bool, true, false, not, ◌&&◌, Option, none, some, List, [], ◌∷◌, ◌++◌,
  ltb, ◌==◌, if◌then◌else◌, length, get_or, take, drop, overwrite,
}
use jabi.Packet.{le16_at, le32_at}
use jabi.Periph.{
  JabiErr, Reply, Api, on_device, no_err, fail, done, reply_with, invalid_args_format_err,
  invalid_args_err, peripheral_err, busy_err,
}
use jabi.Uart.Driver.{
  DataBits, bits5, bits6, bits7, bits8, bits9, Parity, parity_none, parity_odd, parity_even,
  parity_mark, parity_space, StopBits, stop_0_5, stop_1, stop_1_5, stop_2, UartConfig, IsrTurn,
  UartEnv,
}

-- `tx_off` is tx_ptr - tx_buf. `irq_tx` is what uart_irq_tx_enable and uart_irq_tx_disable set, and
-- `line` holds the bytes that uart_fifo_fill has accepted.
pub record Uart (e : UartEnv) : Type 0 where
  pub port : e.Port
  pub tx_lock : e.Sem
  pub tx_was_busy : Bool
  pub tx_buf : List ℕ
  pub tx_len : ℕ
  pub tx_off : ℕ
  pub rx_msgq : e.Msgq
  pub irq_tx : Bool
  pub line : List ℕ

abbrev pub data_bits_of : ℕ → Option DataBits
data_bits_of n =
    if n == 5
    then some bits5
    else if n == 6
    then some bits6
    else if n == 7
    then some bits7
    else if n == 8
    then some bits8
    else if n == 9
    then some bits9
    else none

abbrev pub parity_of : ℕ → Option Parity
parity_of n =
    if n == 0
    then some parity_none
    else if n == 1
    then some parity_odd
    else if n == 2
    then some parity_even
    else if n == 3
    then some parity_mark
    else if n == 4
    then some parity_space
    else none

abbrev pub stop_bits_of : ℕ → Option StopBits
stop_bits_of n =
    if n == 0
    then some stop_0_5
    else if n == 1
    then some stop_1
    else if n == 2
    then some stop_1_5
    else if n == 3
    then some stop_2
    else none

-- The three switches of uart_set_config.
abbrev pub uart_config_of : ℕ → ℕ → ℕ → ℕ → Option UartConfig
uart_config_of baud d p s = elim (data_bits_of d) [
  | none ↦ none
  | some data_bits ↦ elim (parity_of p) [
    | none ↦ none
    | some parity ↦ elim (stop_bits_of s) [
      | none ↦ none
      | some stop_bits ↦ some (record {
        baudrate = baud;
        data_bits = data_bits;
        parity = parity;
        stop_bits = stop_bits;
      })
    ]
  ]
]

module _ (e : UartEnv) where
  -- The loop that stores received bytes; a full queue is purged and the rest is dropped.
  unfoldable pub store_bytes : e.Msgq → List ℕ → e.Msgq
  store_bytes q [] = q
  store_bytes q (b ∷ bs) = elim (e.put q b) [ none ↦ e.purge q | some q' ↦ store_bytes q' bs ]

  abbrev pub receive : Uart e → IsrTurn → Uart e
  receive u i =
      if i.rx_ready
      then elim i.received [
        | none ↦ u
        | some bytes ↦ record u { rx_msgq = store_bytes u.rx_msgq bytes }
      ]
      else u

  -- uart_fifo_fill accepts `n` bytes.
  abbrev pub advance : Uart e → ℕ → Uart e
  advance u n = record u {
    line = u.line ++ take n (drop u.tx_off u.tx_buf);
    tx_len = u.tx_len - n;
    tx_off = u.tx_off + n;
  }

  abbrev pub transmit : Uart e → IsrTurn → Uart e
  transmit u i =
      if u.tx_len == 0
      then record u { irq_tx = false; tx_lock = e.give u.tx_lock }
      else elim i.filled [ none ↦ u | some n ↦ receive (advance u (min n u.tx_len)) i ]

  -- One turn of the loop. The driver reports a ready transmitter only while its interrupt is
  -- enabled, and accepts no more bytes than it is given.
  unfoldable pub isr_turn : Uart e → IsrTurn → Uart e
  isr_turn u i = if i.tx_ready && u.irq_tx then transmit u i else receive u i

  unfoldable pub uart_handler : Uart e → List IsrTurn → Uart e
  uart_handler u [] = u
  uart_handler u (i ∷ is) = uart_handler (isr_turn u i) is

  unfoldable pub uart_init : Uart e → Uart e × JabiErr
  uart_init u = (record u { tx_lock = e.sem_init 0 1 }, no_err)

  unfoldable pub uart_set_config : Uart e → List ℕ → ℕ → Uart e × Reply
  uart_set_config u req req_len =
      if not (req_len == 7)
      then (u, fail invalid_args_format_err)
      else elim (uart_config_of (le32_at e.target req 0) (get_or req 4 0) (get_or req 5 0)
          (get_or req 6 0)) [
            | none ↦ (u, fail invalid_args_err)
            | some cfg ↦
                let (ok, port) = e.uart_configure u.port cfg in
                (record u { port = port }, if ok then done else fail peripheral_err)
          ]

  -- k_sem_take(&tx_lock, TX_TIMEOUT) after the handler has run, and what follows.
  abbrev pub finish_write : Uart e → Uart e × Reply
  finish_write u = elim (e.take_now u.tx_lock) [
    | none ↦ (record u { tx_was_busy = true }, fail busy_err)
    | some lock ↦ (record u { tx_lock = lock; tx_was_busy = false }, done)
  ]

  -- From memcpy on.
  unfoldable pub start_write : Uart e → List ℕ → Uart e × Reply
  start_write u bytes =
      let (turns, port) = e.wait_tx u.port in
      let started = record u {
        port = port;
        tx_buf = overwrite bytes u.tx_buf;
        tx_len = length bytes;
        tx_off = 0;
        irq_tx = true;
      } in
      finish_write (uart_handler started turns)

  -- k_sem_take(&tx_lock, K_NO_WAIT), after a write that was not over in time.
  unfoldable pub claim_write : Uart e → List ℕ → Uart e × Reply
  claim_write u bytes = elim (e.take_now u.tx_lock) [
    | none ↦ (u, fail busy_err)
    | some lock ↦ start_write (record u { tx_lock = lock }) bytes
  ]

  unfoldable pub uart_write : Uart e → List ℕ → ℕ → Uart e × Reply
  uart_write u req req_len =
      if u.tx_was_busy then claim_write u (take req_len req) else start_write u (take req_len req)

  -- k_msgq_get(rx_msgq, &ret[i], RX_TIMEOUT): at once, or after what arrives meanwhile.
  abbrev pub take_byte : Uart e → Option (ℕ × Uart e)
  take_byte u = elim (e.get u.rx_msgq) [
    | none ↦ none
    | some (b, q) ↦ some (b, record u { rx_msgq = q })
  ]

  abbrev pub waited : Uart e → Uart e
  waited u = let (turns, port) = e.wait_rx u.port in uart_handler (record u { port = port }) turns

  unfoldable pub read_bytes : ℕ → Uart e → List ℕ × Uart e
  read_bytes zero u = ([], u)
  read_bytes (suc n) u = elim (take_byte u) [
    | some (b, u') ↦ let (bs, u'') = read_bytes n u' in (b ∷ bs, u'')
    | none ↦ elim (take_byte (waited u)) [
      | none ↦ ([], waited u)
      | some (b, u') ↦ let (bs, u'') = read_bytes n u' in (b ∷ bs, u'')
    ]
  ]

  unfoldable pub uart_read : Uart e → List ℕ → ℕ → Uart e × Reply
  uart_read u req req_len =
      let data_len = le16_at e.target req 0 in
      let (bytes, u') = read_bytes data_len u in
      if not (req_len == 2)
      then (u, fail invalid_args_format_err)
      else if ltb e.resp_max data_len
      then (u, fail invalid_args_err)
      else (u', reply_with bytes)

  -- uart_periph_fns and uart_periph_api
  unfoldable pub uart_periph_api : ℕ → Api (List (Uart e))
  uart_periph_api num = record {
    num_idx = num;
    fns = on_device uart_set_config ∷ on_device uart_write ∷ on_device uart_read ∷ [];
  }
