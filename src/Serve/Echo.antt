-- ===== src/Serve/Echo.antt =====
-- echo of metadata.c from the host and back.
use jabi.Prelude.{
  ℕ, ◌≤◌, ◌≡◌, refl, sym, ap, ◌∙◌, arith, Bool, true, false, [], if◌then◌else◌, List, ◌∷◌, some,
  length, take, drop, get_elem?, ltb-false, length-take, take-length, take-append_self, All,
}
use jabi.Packet.{Req, Resp, Call, IsCall, call_of, encode_call, encode_resp}
use jabi.Periph.{Api, code, busy_err}
use jabi.Usb.{Transfer}
use jabi.Usb.Recv.{IsTransfer, first_packet-encode_call, encode_call-bytes}
use jabi.Usb.Buffer.{IsReq, IsSized}
use jabi.Dispatch.{run_fn, process_request, respond}
use jabi.Dispatch.Bounds.{FitsApis, Routes, Routes-find_fn}
use jabi.Metadata.{Build, stateless, echo, metadata_periph_api}
use jabi.Serve.{serve_usb}
use jabi.Serve.Answer.{KeepsOrder, serve_usb-Answered}

-- The call of echo: PERIPH_METADATA_ID, instance 0, METADATA_ECHO_ID.
abbrev pub echo_call : List ℕ → Call
echo_call args = record { periph_id = 0; periph_idx = 0; periph_fn = 2; args = args }

abbrev pub echo_resp : List ℕ → Resp
echo_resp args = record { retcode = 0; payload_len = length args; payload = args }

-- The response to a request whose lock is taken: JABI_BUSY_ERR and no data.
abbrev pub busy_resp : Resp
busy_resp = record { retcode = code busy_err; payload_len = 0; payload = [] }

module _ (m : Build) {S : Type 0} (apis : List (Api S))
    (listed : get_elem? apis 0 ≡ some (metadata_periph_api m)) where
  echo-Routes :
      (req : Req) (args : List ℕ)
      → call_of req ≡ echo_call args
      → Routes apis req (stateless (echo m))
  unfolding metadata_periph_api
  echo-Routes req args asks =
      let id : req.periph_id ≡ 0 = ap (λ c. c.periph_id) asks in
      let idx : req.periph_idx ≡ 0 = ap (λ c. c.periph_idx) asks in
      let fn : req.periph_fn ≡ 2 = ap (λ c. c.periph_fn) asks in
      record {
        api = metadata_periph_api m;
        known = omega arith;
        listed = rw id listed;
        instance_exists = omega arith;
        offered = rw fn refl;
      }

  -- The response of echo, as process_interface completes it.
  echo-packet :
      (payload args buffer : List ℕ)
      → take (length args) payload ≡ args
      → length args ≤ m.resp_max
      → encode_resp (respond (echo m payload (length args)) buffer) ≡ encode_resp (echo_resp args)
  unfolding echo
  echo-packet payload args buffer same small = rw (
    ltb-false m.resp_max (length args) small,
    same,
    take-append_self args (drop (length args) buffer),
    take-length args,
  )

  echo-response :
      (taken : Bool) (req : Req) (args buffer : List ℕ) (s : S)
      → IsReq m.target req
      → call_of req ≡ echo_call args
      → length args ≤ m.resp_max
      → (encode_resp (process_request apis taken req buffer s).1
          ≡ encode_resp (if taken then echo_resp args else busy_resp))
        × ((process_request apis taken req buffer s).0 ≡ s)
  unfolding process_request run_fn
  echo-response true req args buffer s h asks small =
      let found = Routes-find_fn apis req (stateless (echo m)) (echo-Routes req args asks) in
      let same : take req.payload_len req.payload ≡ args = ap (λ c. c.args) asks in
      let size : req.payload_len ≡ length args = omega (
        arith,
        h.len_fits,
        h.buffer,
        ap length (sym same),
        length-take req.payload_len req.payload,
      ) in
      rw (found, process_request, size)
        (echo-packet req.payload args buffer (rw size at same) small, refl)
  echo-response false req args buffer s h asks small =
      let found = Routes-find_fn apis req (stateless (echo m)) (echo-Routes req args asks) in
      rw (found, process_request) (refl, refl)

module _ (m : Build) {S : Type 0} (Inv : S → Type 0) (apis : List (Api S))
    (fits : FitsApis m.target Inv apis) (listed : get_elem? apis 0 ≡ some (metadata_periph_api m))
    (keeps_order : KeepsOrder m.target) where
  -- On a little-endian target whose functions all stay inside their buffers, with metadata as
  -- the first peripheral, a host that sends the packet of an echo over USB gets a response
  -- without error that carries its bytes back if the lock of metadata is taken in time, and
  -- otherwise a response with JABI_BUSY_ERR and no payload, for every payload that both arrays
  -- hold and whatever bytes stood in the arrays; the state of the peripherals and the later
  -- transfers stay as they are.
  pub serve_usb-echo :
      (taken : Bool) (req : Req) (buffer : List ℕ) (s : S) (args : List ℕ) (rest : List Transfer)
      → length req.payload ≡ m.req_max
      → length buffer ≡ m.resp_max
      → Inv s
      → IsCall m.target (echo_call args)
      → length args ≤ m.resp_max
      → All (IsTransfer m.target) rest
      → All (IsSized m.target) rest
      → serve_usb m.target apis taken req buffer s (some (encode_call (echo_call args)) ∷ rest)
        ≡ some (encode_resp (if taken then echo_resp args else busy_resp), s, rest)
  serve_usb-echo taken req buffer s args rest h b inv call small bytes sized =
      let c = echo_call args in
      let a =
        serve_usb-Answered m.target Inv apis fits keeps_order taken req buffer s
          (some (encode_call c) ∷ rest) c rest h b inv (encode_call-bytes m.target c call, bytes)
          (omega (arith, call.args_fit), sized) (first_packet-encode_call m.target c rest call) in
      let (packet, same) =
        echo-response m apis listed taken a.req args buffer s a.is_req a.asks small in
      a.sends ∙ rw (packet, same)
