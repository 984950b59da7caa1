-- ===== src/UartIface/Serve.antt =====
-- firmware/src/main.c, the body of the loop of process_interface, over the UART interface.
use jabi.Prelude.{
  ℕ, ◌+◌, ◌≤◌, ◌<◌, ◌≡◌, refl, ap, sym, ◌∙◌, arith, List, [], ◌∷◌, ◌++◌, Option, none, some, Bool,
  length,
}
use mathlib.Core.List.{append_assoc}
use jabi.Packet.{Req, Resp, Call, IsCall, call_of, encode_call, encode_resp}
use jabi.Periph.{Api}
use jabi.Usb.Buffer.{IsReq}
use jabi.Usb.Send.{IsResp}
use jabi.Dispatch.{process_request}
use jabi.Dispatch.Bounds.{FitsApis, process_request-IsResp}
use jabi.UartIface.{
  IfaceEnv, Event, irq, go, elapse, UartIface, waiting, received, out_of_fuel, uart_get_req,
  uart_send_resp,
}
use jabi.UartIface.Bytewise.{came, coming, pending, late_goes, AtRest, Ready}
use jabi.UartIface.Recv.{uart_get_req-Asks}
use jabi.UartIface.Send.{tx_turns, uart_send_resp-Sent}

-- What a turn leaves: the interface and the events still to come, the two structures, and the
-- state of the peripherals.
pub record After (e : IfaceEnv) (S : Type 0) : Type 0 where
  pub iface : UartIface e
  pub events : List Event
  pub req : Req
  pub resp : Resp
  pub state : S

-- `none` while the thread waits, for a request or for its response to be sent.
unfoldable pub serve_uart :
    (e : IfaceEnv) {S : Type 0}
    → List (Api S)
    → Bool
    → Req
    → List ℕ
    → S
    → UartIface e
    → List Event
    → Option (After e S)
serve_uart e apis taken req buffer s u es = elim (uart_get_req e req u es) [
  | waiting u' ↦ none
  | out_of_fuel ↦ none
  | received r u' es' ↦
      let (s', resp) = process_request apis taken r buffer s in
      elim (uart_send_resp e resp u' es') [
        | none ↦ none
        | some (u'', es'') ↦
            some (record { iface = u''; events = es''; req = r; resp = resp; state = s' })
      ]
]

coming-append : (xs ys : List Event) → coming (xs ++ ys) ≡ coming xs ++ coming ys
coming-append [] ys = refl
coming-append (irq i ∷ xs) ys =
    ap (λ l. came i ++ l) (coming-append xs ys)
    ∙ sym (append_assoc (came i) (coming xs) (coming ys))
coming-append (go ∷ xs) ys = coming-append xs ys
coming-append (elapse ∷ xs) ys = coming-append xs ys

tx_turns-append : (xs ys : List Event) → tx_turns (xs ++ ys) ≡ tx_turns xs + tx_turns ys
tx_turns-append [] ys = omega arith
tx_turns-append (irq i ∷ xs) ys = omega (arith, tx_turns-append xs ys)
tx_turns-append (go ∷ xs) ys = tx_turns-append xs ys
tx_turns-append (elapse ∷ xs) ys = tx_turns-append xs ys

module _ (e : IfaceEnv) {S : Type 0} (Inv : S → Type 0) (apis : List (Api S))
    (fits : FitsApis e.target Inv apis) (taken : Bool) where
  -- The answer to the call `c`, from the state `s` and the response array `buffer`.
  pub record Answered (line : List ℕ) (most : ℕ) (c : Call) (bytes buffer : List ℕ) (s : S)
      (out : Option (After e S)) : Type 0 where
    pub after : After e S
    pub same : out ≡ some after
    pub asks : call_of after.req ≡ c
    pub is_req : IsReq e.target after.req
    pub resp : after.resp ≡ (process_request apis taken after.req buffer s).1
    pub state : after.state ≡ (process_request apis taken after.req buffer s).0
    pub is_resp : IsResp e.target after.resp
    pub keeps : Inv after.state
    pub rest : AtRest e (line ++ encode_resp after.resp) most after.iface
    pub bytes_left : pending e after.iface after.events ≡ bytes

  -- On a target whose functions all stay inside their buffers, and in whatever order the turns
  -- of the interrupt handler and of the thread come, one turn over the UART ends: it runs
  -- process_request once, on a request that reads as the call whose packet is the first of the
  -- bytes in the queue or on their way, puts the whole packet of the response on the line
  -- behind what was there, and keeps every byte behind that call's packet for the next turn.
  -- This holds whatever bytes stood in the request and response arrays, if the arrays have
  -- their sizes, the invariant of the peripherals holds, nothing is being sent, the bytes in
  -- the queue and on their way fit the queue, TIMEOUT does not run out while they arrive, the
  -- thread gets a turn for each byte of the packet after the last has arrived, and afterwards
  -- the driver accepts bytes in more turns of the handler than the largest response has bytes,
  -- before the thread looks again.
  pub serve_uart-Answered :
      (line : List ℕ) (most : ℕ) (c : Call) (req : Req) (buffer : List ℕ) (s : S) (rest : List ℕ)
      (u : UartIface e) (front busy back : List Event)
      → IsCall e.target c
      → length req.payload ≡ e.req_max
      → length buffer ≡ e.resp_max
      → Inv s
      → Ready e line most (encode_call c ++ rest) u front
      → length (encode_call c) ≤ late_goes front
      → length (rest ++ coming (busy ++ (go ∷ back))) ≤ most
      → 4 + e.resp_max < tx_turns busy
      → Answered line most c
          (rest ++ coming (busy ++ (go ∷ back)))
          buffer
          s
          (serve_uart e apis taken req buffer s u (front ++ (busy ++ (go ∷ back))))
  unfolding serve_uart
  serve_uart-Answered line most c req buffer s rest u front busy back call array buffer_size inv
        ready soon room enough =
      let asked =
        uart_get_req-Asks e line most c req rest u front (busy ++ (go ∷ back)) call array ready
          soon in
      let (is_resp, keeps) =
        process_request-IsResp e.target Inv apis fits taken asked.req buffer s asked.is_req
          buffer_size inv in
      let (s', resp) = process_request apis taken asked.req buffer s in
      let later = busy ++ (go ∷ back) in
      let whole : asked.left ++ later ≡ (asked.left ++ busy) ++ (go ∷ back) =
        sym (append_assoc asked.left busy (go ∷ back)) in
      let left : pending e asked.after (asked.left ++ later) ≡ rest ++ coming later =
        ap (λ l. e.contents asked.after.rx ++ l) (coming-append asked.left later)
        ∙ sym (append_assoc (e.contents asked.after.rx) (coming asked.left) (coming later))
        ∙ ap (λ l. l ++ coming later) asked.ready.bytes_left in
      let sent =
        uart_send_resp-Sent e line most resp (rest ++ coming later) asked.after (asked.left ++ busy)
          back is_resp asked.ready.rest (ap (pending e asked.after) (sym whole) ∙ left) room
          (omega (arith, tx_turns-append asked.left busy, is_resp.len_fits)) in
      record {
        after = record {
          iface = sent.after;
          events = sent.left;
          req = asked.req;
          resp = resp;
          state = s';
        };
        same = rw (asked.same, serve_uart, whole, sent.same) refl;
        asks = asked.asks;
        is_req = asked.is_req;
        resp = refl;
        state = refl;
        is_resp = is_resp;
        keeps = keeps;
        rest = sent.rest;
        bytes_left = sent.bytes_left;
      }
