-- ===== src/Client/Served.antt =====
-- USBInterface::send_request of the client against the firmware.
use jabi.Prelude.{
  ℕ, ◌+◌, ◌%◌, ◌&&◌, ◌≤◌, ◌<◌, ◌≡◌, true, length-append, refl, ap, ◌∙◌, arith, List, [], ◌∷◌, ◌++◌,
  Option, none, some, Bool, false, ◌==◌, ltb-false, ==_refl, Bool-cases, inl, inr, if◌then◌else◌,
  length, All, All-append,
}
use mathlib.Core.List.{append_assoc, append-nil}
use jabi.Packet.{Target, Req, Call, IsCall, call_of, encode_call, encode_resp}
use jabi.Periph.{Api}
use jabi.Usb.{Transfer, usb_get_req}
use jabi.Usb.Send.{IsResp}
use jabi.Dispatch.Bounds.{FitsApis, process_request-IsResp}
use jabi.Client.{Endian, IfaceDynamicResp, iface_req_htole}
use jabi.Client.Interface.{
  Result, ok, Action, Failure, ◌>>=◌, throw_if, checked, transfer_response_failed,
}
use jabi.Client.Usb.{UsbInterface, send_out, check_in, usb_send_request}
use jabi.Client.Link.{
  Short, dynamic_req, client_result, Firmware, host, firmware_turn, gather, IsZlp, IsReady, Served,
}
use jabi.Usb.Recv.{
  first_packet, IsTransfer, first_packet-encode_call, encode_call-bytes, usb_get_req-first_packet,
}
use jabi.Usb.Buffer.{IsReq, IsSized, usb_get_req-IsReq}
use jabi.Serve.Answer.{KeepsOrder, serve_resp, calls-some}
use jabi.Dispatch.{process_request}
use jabi.Client.Wire.{request-encode_call, length-data, check_in-encode_resp}

pub bind-ok :
    {W A B : Type 0} (m : Action W A) (f : A → Action W B) (a : A) (w w' : W)
    → m w ≡ (ok a, w')
    → (m >>= f) w ≡ f a w'
bind-ok {W = W} {A = A} {B = B} m f a w w' e =
    ap (λ (p : Result A × W). ◌>>=◌ {W = W} {A = A} {B = B} (λ _. p) f w) e

checked-some :
    {W A : Type 0} (m : W → Option A × W) (f : Failure) (a : A) (w w' : W)
    → m w ≡ (some a, w')
    → checked m f w ≡ (ok a, w')
checked-some {W = W} {A = A} m f a w w' e = ap (λ (p : Option A × W). checked (λ _. p) f w) e

throw_if-false :
    {W : Type 0} (c : Bool) (f : Failure) (w : W) → c ≡ false → throw_if c f w ≡ (ok tt, w)
throw_if-false c f w e = rw e

-- Empty transfers are no packets.
first_packet-append :
    (limit : ℕ) (xs ys : List Transfer)
    → All IsZlp xs
    → first_packet limit (xs ++ ys) ≡ first_packet limit ys
first_packet-append limit [] ys h = refl
first_packet-append limit (none ∷ xs) ys h = elim h.0 [ ]
first_packet-append limit (some [] ∷ xs) ys h = first_packet-append limit xs ys h.1
first_packet-append limit (some (b ∷ bytes) ∷ xs) ys h = elim h.0 [ ]

module _ (t : Target) where
  IsZlp-IsTransfer : (xs : List Transfer) → All IsZlp xs → All (IsTransfer t) xs
  IsZlp-IsTransfer [] h = tt
  IsZlp-IsTransfer (none ∷ xs) h = elim h.0 [ ]
  IsZlp-IsTransfer (some [] ∷ xs) h = (tt, IsZlp-IsTransfer xs h.1)
  IsZlp-IsTransfer (some (b ∷ bytes) ∷ xs) h = elim h.0 [ ]

  IsZlp-IsSized : (xs : List Transfer) → All IsZlp xs → All (IsSized t) xs
  IsZlp-IsSized [] h = tt
  IsZlp-IsSized (none ∷ xs) h = elim h.0 [ ]
  IsZlp-IsSized (some [] ∷ xs) h = (omega arith, IsZlp-IsSized xs h.1)
  IsZlp-IsSized (some (b ∷ bytes) ∷ xs) h = elim h.0 [ ]

-- Bytes that leave room in the transfer stay open; those that fill it complete it.
gather-open :
    (size : ℕ) (begun bytes : List ℕ)
    → length begun + length bytes < size
    → gather size begun bytes ≡ ([], begun ++ bytes)
unfolding gather
gather-open size begun [] room = rw append-nil
gather-open size begun (b ∷ bs) room =
    let grown = length-append begun (b ∷ []) in
    let more : (length (begun ++ b ∷ []) == size) ≡ false = ground (arith, grown, room) in
    rw (more, gather)
      (gather-open size (begun ++ b ∷ []) bs (omega (arith, grown, room))
        ∙ ap (λ xs. ([], xs)) (append_assoc begun (b ∷ []) bs))

gather-full :
    (size : ℕ) (begun : List ℕ) (b : ℕ) (bs : List ℕ)
    → length begun + length (b ∷ bs) ≡ size
    → gather size begun (b ∷ bs) ≡ (some (begun ++ b ∷ bs) ∷ [], [])
unfolding gather
gather-full size begun b [] whole =
    let grown = length-append begun (b ∷ []) in
    let last : (length (begun ++ b ∷ []) == size) ≡ true = ground (arith, grown, whole) in
    rw (last, gather) refl
gather-full size begun b (b' ∷ bs) whole =
    let grown = length-append begun (b ∷ []) in
    let more : (length (begun ++ b ∷ []) == size) ≡ false = ground (arith, grown, whole) in
    rw (more, gather)
      (gather-full size (begun ++ b ∷ []) b' bs (omega (arith, grown, whole))
        ∙ ap (λ xs. (some xs ∷ [], [])) (append_assoc begun (b ∷ []) (b' ∷ bs)))

module _ (t : Target) {S : Type 0} (Inv : S → Type 0) (apis : List (Api S))
    (fits : FitsApis t Inv apis) (keeps_order : KeepsOrder t) (taken : Bool) (e : Endian)
    (packet_size : ℕ) (positive : 0 < packet_size) (req_max resp_max : ℕ) where
  -- What stands behind the request: a request that fills the structure is a transfer without the
  -- empty packet, which then is one of its own.
  abbrev zlp : List ℕ → List Transfer
  zlp bytes =
      if length bytes % packet_size == 0 && length bytes == 8 + t.req_max then some [] ∷ [] else []

  zlp-IsZlp : (bytes : List ℕ) → All IsZlp (zlp bytes)
  zlp-IsZlp bytes =
      elim (Bool-cases (length bytes % packet_size == 0 && length bytes == 8 + t.req_max)) [
        | inl e ↦ rw e (tt, tt)
        | inr e ↦ rw e tt
      ]

  abbrev u : UsbInterface (Firmware S)
  u = host t apis taken e packet_size req_max resp_max

  -- What send_out leaves for the firmware.
  send_out-pending :
      (b : ℕ) (bs : List ℕ) (w : Firmware S)
      → w.begun ≡ []
      → length (b ∷ bs) ≤ 8 + t.req_max
      → send_out u (b ∷ bs) w
        ≡ (ok tt, record w { pending = w.pending ++ (some (b ∷ bs) ∷ zlp (b ∷ bs)); begun = [] })
  unfolding send_out gather
  send_out-pending b bs w idle fits =
      let bytes = b ∷ bs in
      let sized : (packet_size == 0) ≡ false = ground (arith, positive) in
      elim (Bool-cases (length bytes == 8 + t.req_max)) [
        | inl full ↦
            let all : gather (8 + t.req_max) [] bytes ≡ (some bytes ∷ [], []) =
              gather-full (8 + t.req_max) [] b bs (ground (arith, full)) in
            elim (Bool-cases (length bytes % packet_size == 0)) [
              | inl whole ↦
                  rw (==_refl (length bytes), idle, all, sized, whole, full, append_assoc w.pending)
                    refl
              | inr part ↦ rw (==_refl (length bytes), idle, all, sized, part) refl
            ]
        | inr less ↦
            let all : gather (8 + t.req_max) [] bytes ≡ ([], bytes) =
              gather-open (8 + t.req_max) [] bytes (ground (arith, less, fits)) in
            elim (Bool-cases (length bytes % packet_size == 0)) [
              | inl whole ↦
                  rw (==_refl (length bytes), idle, all, sized, whole, less, append-nil w.pending)
                    refl
              | inr part ↦ rw (==_refl (length bytes), idle, all, sized, part) refl
            ]
      ]

  -- The transfers that the firmware finds.
  queue : Firmware S → Call → List Transfer
  queue w c = w.pending ++ (some (encode_call c) ∷ zlp (encode_call c))

  queue-taken :
      (w : Firmware S) (c : Call)
      → IsReady t Inv w
      → IsCall t c
      → (r : Req) × (usb_get_req t w.req (queue w c) ≡ some (r, zlp (encode_call c)))
        × (call_of r ≡ c)
        × IsReq t r
  unfolding queue
  queue-taken w c ready call =
      let rest = zlp (encode_call c) in
      let quiet = zlp-IsZlp (encode_call c) in
      let sized : length (encode_call c) ≤ 8 + t.req_max = omega (arith, call.args_fit) in
      let first =
        first_packet-append t.req_max w.pending (some (encode_call c) ∷ rest) ready.quiet
        ∙ first_packet-encode_call t c rest call in
      let read = usb_get_req-first_packet t w.req (queue w c) (
        All-append (IsTransfer t) w.pending (some (encode_call c) ∷ rest)
          (IsZlp-IsTransfer t w.pending ready.quiet)
          (encode_call-bytes t c call, IsZlp-IsTransfer t rest quiet)) in
      let (r, got, asks) = calls-some t (usb_get_req t w.req (queue w c)) c rest (read ∙ first) in
      (
        r,
        got,
        asks,
        usb_get_req-IsReq t w.req (queue w c) r rest ready.req_array
            (All-append (IsSized t) w.pending (some (encode_call c) ∷ rest)
              (IsZlp-IsSized t w.pending ready.quiet) (sized, IsZlp-IsSized t rest quiet))
            got,
      )

  -- The state of the firmware after the request `r`.
  abbrev after : Firmware S → Req → List Transfer → Firmware S
  after w r rest =
      let (s', resp) = process_request apis taken r w.buffer w.state in
      record { state = s'; req = r; buffer = resp.payload; pending = rest; begun = w.begun }

  firmware_turn-encode_resp :
      (w : Firmware S) (r : Req) (rest : List Transfer)
      → usb_get_req t w.req w.pending ≡ some (r, rest)
      → IsResp t (process_request apis taken r w.buffer w.state).1
      → (process_request apis taken r w.buffer w.state).1.payload_len ≤ resp_max
      → firmware_turn t apis taken (4 + resp_max) w
        ≡ (some (encode_resp (process_request apis taken r w.buffer w.state).1), after w r rest)
  unfolding firmware_turn
  firmware_turn-encode_resp w r rest got h room =
      let resp = (process_request apis taken r w.buffer w.state).1 in
      let fits : length (encode_resp resp) ≤ 4 + resp_max =
        omega (arith, length-data t resp h, room) in
      rw
        (
          got,
          firmware_turn,
          serve_resp t keeps_order resp h,
          ltb-false (4 + resp_max) (length (encode_resp resp)) fits,
        )
        refl

  abbrev receive : Action (Firmware S) IfaceDynamicResp
  receive = checked (u.libusb.bulk_in (4 + resp_max)) transfer_response_failed >>= λ received.
      check_in u received

  pub send_request-Served :
      (w : Firmware S) (c : Call)
      → IsReady t Inv w
      → IsCall t c
      → length c.args ≤ req_max
      → Short t apis taken resp_max w c
      → Served t Inv apis taken c w (usb_send_request u (dynamic_req c) w)
  unfolding usb_send_request queue
  send_request-Served w c ready call small short =
      let (r, got, asks, is_req) = queue-taken w c ready call in
      let room = short r is_req asks in
      let w1 : Firmware S = record w { pending = queue w c; begun = [] } in
      let (is_resp, keeps) =
        process_request-IsResp t Inv apis fits taken r w.buffer w.state is_req ready.resp_array
          ready.keeps in
      let resp = (process_request apis taken r w.buffer w.state).1 in
      let w2 = after w1 r (zlp (encode_call c)) in
      let bytes : List ℕ = iface_req_htole e (dynamic_req c) ++ c.args in
      let guard = ltb-false req_max (length c.args) small in
      let out : send_out u bytes w ≡ (ok tt, w1) =
        ap (λ xs. send_out u xs w) (request-encode_call t e c call)
        ∙ send_out-pending _ _ w ready.none_begun (omega (arith, call.args_fit)) in
      let turn = firmware_turn-encode_resp w1 r (zlp (encode_call c)) got is_resp room in
      let run : usb_send_request u (dynamic_req c) w ≡ (client_result resp, w2) =
        rw (guard, ==_refl (length c.args))
          (bind-ok (send_out u bytes) (λ _. receive) tt w w1 out
            ∙ bind-ok (checked (u.libusb.bulk_in (4 + resp_max)) transfer_response_failed)
                (check_in u) (encode_resp resp) w1 w2
                (checked-some (u.libusb.bulk_in (4 + resp_max)) transfer_response_failed
                  (encode_resp resp) w1 w2 turn)
            ∙ check_in-encode_resp t u resp w2 is_resp room) in
      record {
        req = r;
        is_req = is_req;
        asks = asks;
        replies = ap (λ p. p.0) run;
        state = ap (λ p. p.1.state) run;
        ready = rw run (record {
          keeps = keeps;
          req_array = is_req.buffer;
          resp_array = is_resp.buffer;
          quiet = zlp-IsZlp (encode_call c);
          none_begun = refl;
        });
      }

  -- With the client's libusb transfers joined to the firmware's, on a little-endian target
  -- whose functions all stay inside their buffers, where the firmware's transfer ends at a
  -- short packet or a full request structure, send_request over USB is one run of
  -- process_request: it runs once, on a request that reads as the client's call, the client
  -- returns the response's data or throws its error code, and the peripherals are left in the
  -- state of that run. This holds for every call whose fields and payload fit both ends, a
  -- client that takes every response of the firmware, either byte order of the host and any
  -- positive packet size that both ends share, if the firmware's arrays have their sizes, the
  -- invariant of its peripherals holds and only empty transfers are pending and none is begun;
  -- and all of this is so again afterwards.
  pub usb_send_request-Served :
      (w : Firmware S) (c : Call)
      → t.resp_max ≤ resp_max
      → IsReady t Inv w
      → IsCall t c
      → length c.args ≤ req_max
      → Served t Inv apis taken c w (usb_send_request u (dynamic_req c) w)
  usb_send_request-Served w c room ready call small =
      send_request-Served w c ready call small (λ r is_req asks.
        let resp =
          process_request-IsResp t Inv apis fits taken r w.buffer w.state is_req ready.resp_array
            ready.keeps in
        omega (arith, resp.0.len_fits))
