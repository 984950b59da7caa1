-- ===== src/Client/Cable.antt =====
-- interfaces/uart.cpp of the client joined to interfaces/uart.c and main.c of the firmware.
use jabi.Prelude.{
  ℕ, ◌+◌, ◌≤◌, ◌<◌, ◌≡◌, ap, sym, ◌∙◌, arith, List, [], ◌∷◌, ◌++◌, Option, none, some, Bool, length,
  All,
}
use mathlib.Core.List.{append-nil}
use jabi.Packet.{Req, Call, IsCall, call_of, encode_call}
use jabi.Periph.{Api}
use jabi.Usb.Buffer.{IsReq}
use jabi.Dispatch.{process_request}
use jabi.Dispatch.Bounds.{FitsApis}
use jabi.UartIface.{IfaceEnv, Event, go, UartIface}
use jabi.UartIface.Bytewise.{coming, late_goes, InTime, AtRest}
use jabi.UartIface.Send.{tx_turns}
use jabi.UartIface.Serve.{After, serve_uart, serve_uart-Answered}
use jabi.Client.Interface.{Result}
use jabi.Client.Link.{dynamic_req, client_result}
use jabi.Client.{IfaceDynamicResp}
use jabi.Client.Serial.{UartInterface, uart_send_request}
use jabi.Client.Serial.Exchange.{Moves, uart_send_request-answer}

-- The firmware before a turn: its interface, its two structures and its peripherals.
pub record Station (e : IfaceEnv) (S : Type 0) : Type 0 where
  pub iface : UartIface e
  pub req : Req
  pub buffer : List ℕ
  pub state : S

-- When the bytes of the host arrive, and what happens while the answer goes out.
pub record Timing : Type 0 where
  pub front : List Event
  pub busy : List Event
  pub back : List Event

-- One turn of process_interface over the UART.
abbrev pub turn :
    (e : IfaceEnv) {S : Type 0} → List (Api S) → Bool → Station e S → Timing → Option (After e S)
turn e apis taken f t =
    serve_uart e apis taken f.req f.buffer f.state f.iface (t.front ++ (t.busy ++ (go ∷ t.back)))

-- What the firmware has put on the line after it.
abbrev pub sent_by : (e : IfaceEnv) {S : Type 0} → Option (After e S) → List ℕ
sent_by e none = []
sent_by e (some a) = a.iface.line

-- The bytes arrive in time, and then the transmitter can send a whole response.
pub record Delivers (e : IfaceEnv) (bytes : List ℕ) (t : Timing) : Type 0 where
  pub in_time : All InTime t.front
  pub brings : coming t.front ≡ bytes
  pub goes : length bytes ≤ late_goes t.front
  pub quiet : coming (t.busy ++ (go ∷ t.back)) ≡ []
  pub turns : 4 + e.resp_max < tx_turns t.busy

-- The firmware between two requests, with nothing in its queue and nothing on the line.
pub record IsIdle (e : IfaceEnv) {S : Type 0} (Inv : S → Type 0) (most : ℕ) (f : Station e S)
    : Type 0 where
  pub rest : AtRest e [] most f.iface
  pub none_queued : e.contents f.iface.rx ≡ []
  pub req_array : length f.req.payload ≡ e.req_max
  pub resp_array : length f.buffer ≡ e.resp_max
  pub keeps : Inv f.state

-- The client's request `c` has been carried out over the cable.
pub record OverCable (e : IfaceEnv) {S : Type 0} (Inv : S → Type 0) (apis : List (Api S))
    (taken : Bool) (c : Call) (f : Station e S) (t : Timing) {W : Type 0}
    (out : Option (Result IfaceDynamicResp × W)) : Type 0 where
  pub req : Req
  pub asks : call_of req ≡ c
  pub is_req : IsReq e.target req
  pub after : W
  pub returns :
      out ≡ some (client_result (process_request apis taken req f.buffer f.state).1, after)
  pub firmware : After e S
  pub turned : turn e apis taken f t ≡ some firmware
  pub state : firmware.state ≡ (process_request apis taken req f.buffer f.state).0
  pub keeps : Inv firmware.state

module _ (e : IfaceEnv) {S : Type 0} (Inv : S → Type 0) (apis : List (Api S))
    (fits : FitsApis e.target Inv apis) (taken : Bool) {W : Type 0} (u : UartInterface W)
    (line heard stream : W → List ℕ) (moves : Moves u.port line heard stream) where
  -- With the client's serial port joined to the firmware's UART, send_request on the client is
  -- one run of process_request: it runs once, on a request that reads as the client's call, the
  -- client returns the response's data or throws its error code, and the peripherals are left
  -- in the state of that run, in their invariant. This holds for every call whose fields and
  -- payload fit both ends, with the conditions on the serial port of Client.Serial.Exchange and
  -- those on the events at the firmware of UartIface.Serve, if the firmware is between two
  -- requests and the port brings exactly what the firmware sends, in its turn, for the bytes
  -- that were written.
  pub uart_send_request-OverCable :
      (most fuel : ℕ) (c : Call) (f : Station e S) (timing : List ℕ → Timing) (w : W)
      → IsIdle e Inv most f
      → IsCall e.target c
      → length (encode_call c) ≤ most
      → length c.args ≤ u.req_max_size
      → e.resp_max ≤ u.resp_max_size
      → e.req_max + e.resp_max + 8 ≤ fuel
      → Delivers e (encode_call c) (timing (encode_call c))
      → line w ≡ []
      → heard w ≡ []
      → ((v : W) → heard v ≡ [] → stream v ≡ sent_by e (turn e apis taken f (timing (line v))))
      → OverCable e Inv apis taken c f
          (timing (encode_call c))
          (uart_send_request u fuel (dynamic_req c) w)
  uart_send_request-OverCable most fuel c f timing w idle call fits_queue small room enough on_time
        fresh silent cable =
      let t = timing (encode_call c) in
      let quiet : coming (t.busy ++ (go ∷ t.back)) ≡ [] = on_time.quiet in
      let none_left = ap length quiet in
      let a =
        serve_uart-Answered e Inv apis fits taken [] most c f.req f.buffer f.state [] f.iface
          t.front t.busy t.back call idle.req_array idle.resp_array idle.keeps
          (record {
            rest = idle.rest;
            in_time = on_time.in_time;
            bytes_left =
                ap (λ l. l ++ coming t.front) idle.none_queued
                ∙ on_time.brings
                ∙ sym (append-nil (encode_call c));
            room = omega (arith, ap length (append-nil (encode_call c)), fits_queue);
          })
          on_time.goes (omega (arith, none_left)) on_time.turns in
      let (after, ends) =
        uart_send_request-answer u line heard stream moves e.target fuel c a.after.resp w call
          a.is_resp small room (omega (arith, enough)) fresh silent
          (λ v whole unread.
            cable v unread
            ∙ ap (λ b. sent_by e (turn e apis taken f (timing b))) whole
            ∙ ap (sent_by e) a.same
            ∙ a.rest.said) in
      record {
        req = a.after.req;
        asks = a.asks;
        is_req = a.is_req;
        after = after;
        returns = ends ∙ ap (λ r. some (client_result r, after)) a.resp;
        firmware = a.after;
        turned = a.same;
        state = a.state;
        keeps = a.keeps;
      }
