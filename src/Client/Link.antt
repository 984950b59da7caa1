-- ===== src/Client/Link.antt =====
-- interfaces/usb.cpp of the client joined to usb.c and main.c of the firmware: libusb's transfers are
-- the ones that the firmware receives, and its answers are the ones that the client reads.
use jabi.Prelude.{
  ◌≤◌, ℕ, ◌+◌, ◌%◌, not, true, false, ◌≡◌, List, [], ◌∷◌, ◌++◌, Option, none, some, Bool, ltb, ◌==◌,
  if◌then◌else◌, length, take, All,
}
use jabi.Packet.{Target, Req, Resp, Call, call_of, req_hdr_size}
use jabi.Periph.{Api}
use jabi.Usb.{Transfer, usb_get_req, usb_send_resp}
use jabi.Usb.Buffer.{IsReq}
use jabi.Dispatch.{process_request}
use jabi.Client.{Endian, IfaceDynamicReq, IfaceDynamicResp}
use jabi.Client.Interface.{Result, ok, throw, bad_response}
use jabi.Client.Usb.{Libusb, UsbInterface}

-- The firmware between two requests: the state of the peripherals, the two arrays with what
-- earlier turns left there, the transfers that it has not taken yet, and the bytes of the one that
-- is still open.
pub record Firmware (S : Type 0) : Type 0 where
  pub state : S
  pub req : Req
  pub buffer : List ℕ
  pub pending : List Transfer
  pub begun : List ℕ

-- usb_transfer_sync on the OUT endpoint gathers packets: the bytes of `begun` and of what comes
-- next fill transfers of `size` bytes, and the rest stays open.
unfoldable pub gather : ℕ → List ℕ → List ℕ → List Transfer × List ℕ
gather size begun [] = ([], begun)
gather size begun (b ∷ bs) = elim (length (begun ++ b ∷ []) == size) [
  | true ↦ let (full, open_bytes) = gather size [] bs in (some (begun ++ b ∷ []) ∷ full, open_bytes)
  | false ↦ gather size (begun ++ b ∷ []) bs
]

-- What the host sends at once ends with a packet shorter than the largest: an empty one, or the
-- last of a number of bytes that is not a whole number of packets. It closes the open transfer.
abbrev pub closes : ℕ → List ℕ → List ℕ → Bool
closes packet_size [] open_bytes = true
closes packet_size (b ∷ bs) [] = false
closes packet_size (b ∷ bs) (o ∷ os) = not (length (b ∷ bs) % packet_size == 0)

-- The transfers that are complete, and the bytes of the open one.
abbrev pub arrive : ℕ → ℕ → List ℕ → List ℕ → List Transfer × List ℕ
arrive size packet_size begun bytes =
    let (full, open_bytes) = gather size begun bytes in
    if closes packet_size bytes open_bytes
    then (full ++ (some open_bytes ∷ []), [])
    else (full, open_bytes)

-- A transfer that does not fit the host's buffer is LIBUSB_ERROR_OVERFLOW.
abbrev deliver : ℕ → List ℕ → Option (List ℕ)
deliver max bytes = if ltb max (length bytes) then none else some bytes

module _ (t : Target) {S : Type 0} (apis : List (Api S)) (taken : Bool) where
  -- The turn of process_interface that answers the request; `none`: it sends nothing in time.
  unfoldable pub firmware_turn : ℕ → Firmware S → Option (List ℕ) × Firmware S
  firmware_turn max w = elim (usb_get_req t w.req w.pending) [
    | none ↦ (none, w)
    | some (r, rest) ↦
        let (s', resp) = process_request apis taken r w.buffer w.state in
        let w' : Firmware S = record {
          state = s';
          req = r;
          buffer = resp.payload;
          pending = rest;
          begun = w.begun;
        } in
        (deliver max (usb_send_resp t resp), w')
  ]

  -- Both ends have packets of `packet_size` bytes, and the firmware waits for a request structure.
  abbrev pub usb_link : ℕ → Libusb (Firmware S)
  usb_link packet_size = record {
    bulk_out = λ bytes w.
        let (complete, open_bytes) = arrive (req_hdr_size + t.req_max) packet_size w.begun bytes in
        (some (length bytes), record w { pending = w.pending ++ complete; begun = open_bytes });
    bulk_in = firmware_turn;
  }

  -- The client's end of the link.
  abbrev pub host : Endian → ℕ → ℕ → ℕ → UsbInterface (Firmware S)
  host e packet_size req_max resp_max = record {
    endian = e;
    libusb = usb_link packet_size;
    w_max_packet_size = packet_size;
    req_max_size = req_max;
    resp_max_size = resp_max;
  }

-- The call of a client's request.
abbrev pub dynamic_req : Call → IfaceDynamicReq
dynamic_req c = record {
  periph_id = c.periph_id;
  periph_idx = c.periph_idx;
  periph_fn = c.periph_fn;
  payload_len = length c.args;
  payload = c.args;
}

-- What the client makes of a response: its data, or the error that its code stands for.
abbrev pub client_result : Resp → Result IfaceDynamicResp
client_result r =
    if r.retcode == 0
    then ok (record {
      retcode = r.retcode;
      payload_len = r.payload_len;
      payload = take r.payload_len r.payload;
    })
    else throw (bad_response r.retcode)

-- Only the empty transfer that the client sends behind a full request structure.
abbrev pub IsZlp : Transfer → Type 0
IsZlp (some []) = Unit {0}
IsZlp _ = ⊥

pub record IsReady (t : Target) {S : Type 0} (Inv : S → Type 0) (w : Firmware S) : Type 0 where
  pub keeps : Inv w.state
  pub req_array : length w.req.payload ≡ t.req_max
  pub resp_array : length w.buffer ≡ t.resp_max
  pub quiet : All IsZlp w.pending
  pub none_begun : w.begun ≡ []

-- The client's request `c` has been carried out by process_request.
pub record Served (t : Target) {S : Type 0} (Inv : S → Type 0) (apis : List (Api S)) (taken : Bool)
    (c : Call) (w : Firmware S) (out : Result IfaceDynamicResp × Firmware S) : Type 0 where
  pub req : Req
  pub is_req : IsReq t req
  pub asks : call_of req ≡ c
  pub replies : out.0 ≡ client_result (process_request apis taken req w.buffer w.state).1
  pub state : out.1.state ≡ (process_request apis taken req w.buffer w.state).0
  pub ready : IsReady t Inv out.1

-- The response to each request that reads as the call `c` fits the client's buffer.
abbrev pub Short : (t : Target) {S : Type 0} → List (Api S) → Bool → ℕ → Firmware S → Call → Type 0
Short t apis taken resp_max w c =
    (r : Req)
    → IsReq t r
    → call_of r ≡ c
    → (process_request apis taken r w.buffer w.state).1.payload_len ≤ resp_max
