-- ===== src/Client/Remote/Connect.antt =====
-- The client's set-up of a whole board over USB.
use jabi.Prelude.{
  true, ℕ, ◌^◌, ◌≤◌, ◌<◌, ◌≡◌, refl, ap, ◌∙◌, arith, Bool, some, List, [], ltb-false,
}
use jabi.Periph.{Reply, reply_with}
use jabi.Serve.Answer.{KeepsOrder}
use jabi.Metadata.{stateless, metadata_periph_api}
use jabi.Metadata
use jabi.Board.{Board, Devices, peripherals}
use jabi.Board.Fit.{IsBoard, AreSound}
use jabi.Client.{Endian, IfaceDynamicResp, at16}
use jabi.Client.Interface.{Result, ok, throw, raise, Interface, request}
use jabi.Client.Metadata as HostMetadata
use jabi.Client.Connect.{attempt, retry, connect_usb, payload_max_size}
use jabi.Client.Link.{Firmware, IsReady}
use jabi.Client.Wire.{load_le16}
use jabi.Client.Routed.{Reaches, reply_result}
use jabi.Client.Remote.{device, request-Done, call_to}

-- What the client makes of the response to a question for a size.
abbrev read_size : {W : Type 0} → Endian → Result IfaceDynamicResp → W → Result ℕ × W
read_size e r w = elim r [ ok resp ↦ (ok (at16 e resp.payload 0), w) | throw f ↦ raise f w ]

module _ (b : Board) (is_board : IsBoard b) (keeps_order : KeepsOrder b.metadata.target)
    (e : Endian) (packet_size : ℕ) (positive : 0 < packet_size) where
  read_size-le :
      {W : Type 0} (n : ℕ) (w : W)
      → n < 2 ^ 16
      → read_size e (reply_result (reply_with (b.metadata.store16 (b.metadata.cpu_to_le16 n)))) w
        ≡ (ok n, w)
  read_size-le n w h = rw (b.metadata.store16-cpu_to_le16 n h) (rw (load_le16 e n h) refl)

  -- The interface while the lock of the metadata peripheral is free.
  abbrev make : ℕ → ℕ → Interface (Firmware (Devices b))
  make req_max resp_max = device b is_board keeps_order e packet_size positive req_max resp_max true

  -- The answer to a question for a size, and the board after it.
  pub record Answer (n : ℕ) (w : Firmware (Devices b)) (out : Result ℕ × Firmware (Devices b))
      : Type 0 where
    pub after : Firmware (Devices b)
    pub same : out ≡ (ok n, after)
    pub state : after.state ≡ w.state
    pub ready : IsReady b.metadata.target (AreSound b) after

  size-Answer :
      (w : Firmware (Devices b)) (req_max resp_max fn n : ℕ) (f : List ℕ → ℕ → Reply)
      → IsReady b.metadata.target (AreSound b) w
      → 2 ≤ resp_max
      → fn < 2 ^ 16
      → n < 2 ^ 16
      → Reaches (peripherals b) (call_to 0 0 fn []) (stateless f)
      → ((array : List ℕ) → f array 0 ≡ reply_with (b.metadata.store16 (b.metadata.cpu_to_le16 n)))
      → let out = (make req_max resp_max).send_request (request 0 0 fn []) w in
        Answer n w (read_size e out.0 out.1)
  size-Answer w req_max resp_max fn n f ready room fn_fits small reaches replies =
      let size = b.metadata.length-store16 (b.metadata.cpu_to_le16 n) in
      let d =
        request-Done b is_board keeps_order e packet_size positive req_max resp_max w 0 0 fn []
          (stateless f) ready
          (record {
            reaches = reaches;
            id_fits = omega arith;
            idx_fits = omega arith;
            fn_fits = fn_fits;
            sent = omega arith;
            received = omega arith;
            bytes = tt;
            short = λ d array. rw (replies array) (omega (arith, size));
          }) in
      let out = (make req_max resp_max).send_request (request 0 0 fn []) w in
      let got = d.result ∙ ap reply_result (replies d.rest) in
      record {
        after = out.1;
        same = ap (λ q. read_size e q out.1) got ∙ read_size-le n out.1 small;
        state = d.state;
        ready = d.ready;
      }

  req_max_size-Answer :
      (w : Firmware (Devices b)) (req_max resp_max : ℕ)
      → IsReady b.metadata.target (AreSound b) w
      → 2 ≤ resp_max
      → Answer b.metadata.req_max w (HostMetadata.req_max_size (make req_max resp_max) w)
  unfolding peripherals metadata_periph_api HostMetadata.req_max_size Metadata.req_max_size
  req_max_size-Answer w req_max resp_max ready room =
      size-Answer w req_max resp_max 3 b.metadata.req_max (Metadata.req_max_size b.metadata) ready
        room (omega arith) b.metadata.target.req_max-lt
        (record {
          api = _;
          known = omega arith;
          listed = refl;
          instance_exists = omega arith;
          offered = refl;
        })
        (λ array. refl)

  resp_max_size-Answer :
      (w : Firmware (Devices b)) (req_max resp_max : ℕ)
      → IsReady b.metadata.target (AreSound b) w
      → 2 ≤ resp_max
      → Answer b.metadata.resp_max w (HostMetadata.resp_max_size (make req_max resp_max) w)
  unfolding peripherals metadata_periph_api HostMetadata.resp_max_size Metadata.resp_max_size
  resp_max_size-Answer w req_max resp_max ready room =
      size-Answer w req_max resp_max 4 b.metadata.resp_max (Metadata.resp_max_size b.metadata) ready
        room (omega arith) b.metadata.target.resp_max-lt
        (record {
          api = _;
          known = omega arith;
          listed = refl;
          instance_exists = omega arith;
          offered = refl;
        })
        (λ array. refl)

  attempt-sizes :
      (w w1 w2 : Firmware (Devices b))
      → HostMetadata.req_max_size (make payload_max_size payload_max_size) w
        ≡ (ok b.metadata.req_max, w1)
      → HostMetadata.resp_max_size (make b.metadata.req_max payload_max_size) w1
        ≡ (ok b.metadata.resp_max, w2)
      → attempt make (payload_max_size, payload_max_size) w
        ≡ (ok tt, (b.metadata.req_max, b.metadata.resp_max), w2)
  unfolding attempt
  attempt-sizes w w1 w2 first second =
      rw
        (
          first,
          attempt,
          second,
          ltb-false b.metadata.req_max payload_max_size b.metadata.target.req_max-ge,
          ltb-false b.metadata.resp_max payload_max_size b.metadata.target.resp_max-ge,
        )
        refl

  -- On a little-endian board, one build with its whole table of peripherals, whose arrays have
  -- their sizes, whose devices are in order, which exchanges packets of a positive size with
  -- the host and has only empty transfers pending and none begun, and whose lock of the
  -- metadata peripheral is free whenever the client asks, a client that connects over USB
  -- succeeds at the first attempt: it ends with the two largest payloads that the board was
  -- built with, the peripherals are as they were, and the board is ready for the next request
  -- in the same way.
  pub connect_usb-sizes :
      (reset : Firmware (Devices b) → Bool × Firmware (Devices b)) (w : Firmware (Devices b))
      → IsReady b.metadata.target (AreSound b) w
      → ((connect_usb make reset w).0 ≡ some (b.metadata.req_max, b.metadata.resp_max))
        × ((connect_usb make reset w).1.state ≡ w.state)
        × IsReady b.metadata.target (AreSound b) (connect_usb make reset w).1
  unfolding connect_usb retry
  connect_usb-sizes reset w ready =
      let first = req_max_size-Answer w payload_max_size payload_max_size ready (omega arith) in
      let second =
        resp_max_size-Answer first.after b.metadata.req_max payload_max_size first.ready
          (omega arith) in
      let tried = attempt-sizes w first.after second.after first.same second.same in
      rw (tried, connect_usb) (refl, second.state ∙ first.state, second.ready)
