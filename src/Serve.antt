-- ===== src/Serve.antt =====
-- firmware/src/main.c, the body of the loop of process_interface, over the USB interface: get_req,
-- the function of the request, send_resp.
pub mod Answer
pub mod Echo
use jabi.Prelude.{ℕ, List, Option, none, some, Bool}
use jabi.Packet.{Target, Req}
use jabi.Periph.{Api}
use jabi.Usb.{Transfer, usb_get_req, usb_send_resp}
use jabi.Dispatch.{process_request}

-- What one turn sends, the state that it leaves and the transfers still to come; `none` while it
-- waits for a request. `req` and `buffer` hold what earlier turns left there.
unfoldable pub serve_usb :
    (t : Target) {S : Type 0}
    → List (Api S)
    → Bool
    → Req
    → List ℕ
    → S
    → List Transfer
    → Option (List ℕ × S × List Transfer)
serve_usb t apis taken req buffer s xs = elim (usb_get_req t req xs) [
  | none ↦ none
  | some (r, rest) ↦
      let (s', resp) = process_request apis taken r buffer s in
      some (usb_send_resp t resp, s', rest)
]
