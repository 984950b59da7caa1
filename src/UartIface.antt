-- ===== src/UartIface.antt =====
-- firmware/src/interfaces/uart.c: requests and responses over a UART, for one instance of
-- CREATE_UART_API. The kernel's objects and the UART driver are parameters.
pub mod Bytewise
pub mod Recv
pub mod Send
pub mod Serve
pub mod Total
pub mod Resync
use Prim.Native.Nat.{min}
use jabi.Prelude.{
  ℕ, zero, suc, ◌+◌, ◌-◌, Bool, true, false, ◌&&◌, Option, none, some, List, [], ◌∷◌, ◌++◌, ltb,
  ◌==◌, if◌then◌else◌, length, take, drop, overwrite,
}
use jabi.Packet.{
  Target, Req, Resp, raw_req, iface_req_to_le, raw_resp, iface_resp_to_le, req_hdr_size,
  resp_hdr_size,
}
use jabi.Kernel.{SemApi, MsgqApi}

-- What one turn of the handler's loop finds: whether bytes have arrived and those that
-- uart_fifo_read gives, `none` for an error, whether the transmitter is ready, and how many bytes
-- uart_fifo_fill would accept.
pub record IsrTurn : Type 0 where
  pub rx_ready : Bool
  pub received : Option (List ℕ)
  pub tx_ready : Bool
  pub filled : ℕ

pub record IfaceEnv : Type 1 where
  pub target : Target
  pub open target use *
  pub sems : SemApi
  pub open sems use *
  pub queue : MsgqApi ℕ
  pub open queue use *

-- What happens while the thread of the interface waits, in its order: a turn of the handler, the
-- thread's turn to look at what it waits for, or the end of TIMEOUT. A byte that the kernel hands
-- to the waiting thread counts as queued until that thread's turn.
pub data Event : Type 0 where
  irq : IsrTurn → Event
  go : Event
  elapse : Event

-- The static data of the instance; `tx_buf` holds the bytes from the pointer of that name on,
-- `irq_tx` is what uart_irq_tx_enable and uart_irq_tx_disable set, and `line` holds the bytes that
-- uart_fifo_fill has accepted.
pub record UartIface (e : IfaceEnv) : Type 0 where
  pub rx : e.Msgq
  pub tx_lock : e.Sem
  pub tx_len : ℕ
  pub tx_buf : List ℕ
  pub irq_tx : Bool
  pub line : List ℕ

module _ (e : IfaceEnv) where
  -- The loop that stores received bytes; a full queue is purged and the rest is dropped.
  unfoldable pub store_bytes : e.Msgq → List ℕ → e.Msgq
  store_bytes q [] = q
  store_bytes q (b ∷ bs) = elim (e.put q b) [ none ↦ e.purge q | some q' ↦ store_bytes q' bs ]

  -- A ready transmitter: the response is over, or more of it is handed to the driver, which
  -- accepts no more than it is given.
  abbrev pub transmit : UartIface e → IsrTurn → UartIface e
  transmit u i =
      let n = min i.filled u.tx_len in
      if u.tx_len == 0 then record u { irq_tx = false; tx_lock = e.give u.tx_lock } else record u {
        line = u.line ++ take n u.tx_buf;
        tx_len = u.tx_len - n;
        tx_buf = drop n u.tx_buf;
      }

  -- The driver reports a ready transmitter only while its interrupt is enabled.
  abbrev pub tx_turn : UartIface e → IsrTurn → UartIface e
  tx_turn u i = if i.tx_ready && u.irq_tx then transmit u i else u

  -- One turn of the handler's loop; `continue` leaves the transmitter for the next one.
  unfoldable pub isr_turn : UartIface e → IsrTurn → UartIface e
  isr_turn u i =
      if i.rx_ready
      then elim i.received [
        | none ↦ u
        | some bytes ↦ tx_turn (record u { rx = store_bytes u.rx bytes }) i
      ]
      else tx_turn u i

  -- What k_msgq_get comes to: it still waits, it has timed out, or it has a byte.
  pub data Got : Type 0 where
    blocked : UartIface e → Got
    late : UartIface e → List Event → Got
    got : ℕ → UartIface e → List Event → Got

  -- k_msgq_get, with K_FOREVER or TIMEOUT.
  unfoldable pub get_byte : Bool → UartIface e → List Event → Got
  get_byte forever u [] = blocked u
  get_byte forever u (irq i ∷ es) = get_byte forever (isr_turn u i) es
  get_byte forever u (go ∷ es) = elim (e.get u.rx) [
    | none ↦ get_byte forever u es
    | some (b, q) ↦ got b (record u { rx = q }) es
  ]
  get_byte forever u (elapse ∷ es) = elim (e.get u.rx) [
    | none ↦ elim forever [ true ↦ get_byte forever u es | false ↦ late u es ]
    | some (b, q) ↦ got b (record u { rx = q }) es
  ]

  -- What read comes to, with the bytes that it has stored: it still waits, -1, or 0.
  pub data Read : Type 0 where
    starved : UartIface e → Read
    short : List ℕ → UartIface e → List Event → Read
    full : List ℕ → UartIface e → List Event → Read

  abbrev pub stored : ℕ → Read → Read
  stored b (starved u) = starved u
  stored b (short bs u es) = short (b ∷ bs) u es
  stored b (full bs u es) = full (b ∷ bs) u es

  unfoldable pub read : ℕ → Bool → UartIface e → List Event → Read
  read zero forever u es = full [] u es
  read (suc n) forever u es = elim (get_byte forever u es) [
    | blocked u' ↦ starved u'
    | late u' es' ↦ short [] u' es'
    | got b u' es' ↦ stored b (read n forever u' es')
  ]

  -- What get_req comes to.
  pub data Received : Type 0 where
    waiting : UartIface e → Received
    received : Req → UartIface e → List Event → Received
    out_of_fuel : Received

  -- The loop's body behind the last `read`; `again` is `continue`.
  abbrev pub payload_read : (List ℕ → UartIface e → List Event → Received) → Req → Read → Received
  payload_read again r (starved u) = waiting u
  payload_read again r (short bs u es) =
      again (raw_req e.target (record r { payload = overwrite bs r.payload })) u es
  payload_read again r (full bs u es) =
      received (record r { payload = overwrite bs r.payload }) u es

  -- From iface_req_to_le on.
  abbrev pub check_header :
      (List ℕ → UartIface e → List Event → Received) → Req → UartIface e → List Event → Received
  check_header again r u es =
      if ltb e.req_max r.payload_len
      then again (raw_req e.target r) (record u { rx = e.purge u.rx }) es
      else payload_read again r (read r.payload_len false u es)

  -- Behind the second `read`; `first` is what the first one stored.
  abbrev pub header_read :
      (List ℕ → UartIface e → List Event → Received) → List ℕ → List ℕ → Read → Received
  header_read again mem first (starved u) = waiting u
  header_read again mem first (short bs u es) = again (overwrite (first ++ bs) mem) u es
  header_read again mem first (full bs u es) =
      check_header again (iface_req_to_le e.target (overwrite (first ++ bs) mem)) u es

  -- Behind the first `read`, whose result is not looked at.
  abbrev pub first_read : (List ℕ → UartIface e → List Event → Received) → List ℕ → Read → Received
  first_read again mem (starved u) = waiting u
  first_read again mem (short bs u es) =
      header_read again mem bs (read (req_hdr_size - 1) false u es)
  first_read again mem (full bs u es) =
      header_read again mem bs (read (req_hdr_size - 1) false u es)

  -- `while (1)`, for at most `fuel` turns; `mem` is the request structure.
  unfoldable pub get_req_loop : ℕ → List ℕ → UartIface e → List Event → Received
  get_req_loop zero mem u es = out_of_fuel
  get_req_loop (suc fuel) mem u es = first_read (get_req_loop fuel) mem (read 1 true u es)

  -- uart_get_req: each turn but the last uses up an event.
  unfoldable pub uart_get_req : Req → UartIface e → List Event → Received
  uart_get_req r u es = get_req_loop (suc (length es)) (raw_req e.target r) u es

  -- k_sem_take with K_FOREVER; `none`: it still waits.
  unfoldable pub wait_sent : UartIface e → List Event → Option (UartIface e × List Event)
  wait_sent u [] = none
  wait_sent u (irq i ∷ es) = wait_sent (isr_turn u i) es
  wait_sent u (elapse ∷ es) = wait_sent u es
  wait_sent u (go ∷ es) = elim (e.take_now u.tx_lock) [
    | none ↦ wait_sent u es
    | some lock ↦ some (record u { tx_lock = lock }, es)
  ]

  unfoldable pub uart_send_resp :
      Resp → UartIface e → List Event → Option (UartIface e × List Event)
  uart_send_resp resp u es =
      if ltb e.resp_max resp.payload_len
      then some (u, es)
      else wait_sent
          (record u {
            tx_len = resp_hdr_size + resp.payload_len;
            tx_buf = raw_resp e.target (iface_resp_to_le e.target resp);
            irq_tx = true;
          })
          es
