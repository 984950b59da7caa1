-- ===== src/Serve/Answer.antt =====
-- What a turn over USB answers to the transfers of the host.
use jabi.Prelude.{ℕ, ◌≡◌, ap, ◌∙◌, arith, List, Option, none, some, Bool, length, All}
use jabi.Packet.{Target, Req, Call, Resp, call_of, encode_resp}
use jabi.Periph.{Api}
use jabi.Usb.{Transfer, usb_get_req, usb_send_resp}
use jabi.Usb.Recv.{first_packet, IsTransfer, calls, usb_get_req-first_packet}
use jabi.Usb.Buffer.{IsReq, IsSized, usb_get_req-IsReq}
use jabi.Usb.Send.{IsResp, usb_send_resp-take}
use jabi.Dispatch.{process_request}
use jabi.Dispatch.Bounds.{FitsApis, process_request-IsResp}
use jabi.Serve.{serve_usb}

-- On a little-endian target the conversion of a 16-bit value does nothing.
abbrev pub KeepsOrder : Target → Type 0
KeepsOrder t = (n : ℕ) → t.cpu_to_le16 n ≡ n

-- What the host gets back for the call `c`.
pub record Answered (t : Target) {S : Type 0} (Inv : S → Type 0) (apis : List (Api S))
    (taken : Bool) (c : Call) (buffer : List ℕ) (s : S) (rest : List Transfer)
    (out : Option (List ℕ × S × List Transfer)) : Type 0 where
  pub req : Req
  pub is_req : IsReq t req
  pub asks : call_of req ≡ c
  pub is_resp : IsResp t (process_request apis taken req buffer s).1
  pub keeps : Inv (process_request apis taken req buffer s).0
  pub sends :
      out
      ≡ some (
        encode_resp (process_request apis taken req buffer s).1,
        (process_request apis taken req buffer s).0,
        rest,
      )

module _ (t : Target) where
  pub serve_resp : KeepsOrder t → (r : Resp) → IsResp t r → usb_send_resp t r ≡ encode_resp r
  serve_resp keeps_order r h = usb_send_resp-take t r h ∙ rw (keeps_order r.payload_len)

  pub calls-some :
      (o : Option (Req × List Transfer)) (c : Call) (rest : List Transfer)
      → calls t o ≡ some (c, rest)
      → (r : Req) × (o ≡ some (r, rest)) × (call_of r ≡ c)
  calls-some none c rest e = cc
  calls-some (some (r, xs)) c rest e = (r, ground arith, ground arith)

module _ (t : Target) {S : Type 0} (Inv : S → Type 0) (apis : List (Api S))
    (fits : FitsApis t Inv apis) (keeps_order : KeepsOrder t) where
  -- On a little-endian target whose functions all stay inside their buffers, one turn over USB
  -- answers the first packet that the protocol allows. It sends the packet of the response of
  -- process_request to a request that reads as this call, leaves the state of that call, in the
  -- invariant, and the transfers behind the packet. This holds whatever bytes stood in the
  -- request and response arrays, as long as the arrays have their sizes and no transfer is
  -- larger than the request structure.
  pub serve_usb-Answered :
      (taken : Bool) (req : Req) (buffer : List ℕ) (s : S) (xs : List Transfer) (c : Call)
      (rest : List Transfer)
      → length req.payload ≡ t.req_max
      → length buffer ≡ t.resp_max
      → Inv s
      → All (IsTransfer t) xs
      → All (IsSized t) xs
      → first_packet t.req_max xs ≡ some (c, rest)
      → Answered t Inv apis taken c buffer s rest (serve_usb t apis taken req buffer s xs)
  unfolding serve_usb
  serve_usb-Answered taken req buffer s xs c rest h b inv bytes sized first =
      let (r, got, asks) =
        calls-some t (usb_get_req t req xs) c rest
          (usb_get_req-first_packet t req xs bytes ∙ first) in
      let is_req = usb_get_req-IsReq t req xs r rest h sized got in
      let (is_resp, keeps) = process_request-IsResp t Inv apis fits taken r buffer s is_req b inv in
      record {
        req = r;
        is_req = is_req;
        asks = asks;
        is_resp = is_resp;
        keeps = keeps;
        sends =
            rw (got, serve_usb)
              (ap (λ p. some (p, (process_request apis taken r buffer s).0, rest))
                (serve_resp t keeps_order (process_request apis taken r buffer s).1 is_resp));
      }
