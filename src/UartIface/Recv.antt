-- ===== src/UartIface/Recv.antt =====
-- uart_get_req on the bytes of a call.
use jabi.Prelude.{
  ℕ, suc, ◌+◌, ◌/◌, ◌%◌, ◌^◌, ◌≤◌, ◌<◌, ◌≡◌, refl, ap, sym, ◌∙◌, arith, true, false, List, [], ◌∷◌,
  ◌++◌, ltb-false, length, drop, overwrite, length-append, length-drop, take-append_self,
}
use mathlib.Core.Path.{subst}
use jabi.Bytes.{le_bytes16, le16_value}
use jabi.Packet.{Target, Req, Call, IsCall, call_of, encode_call, raw_req, iface_req_to_le}
use jabi.Usb.Buffer.{IsReq, length-raw_req}
use jabi.UartIface.{
  IfaceEnv, Event, UartIface, read, Received, received, payload_read, check_header, get_req_loop,
  uart_get_req,
}
use jabi.UartIface.Bytewise.{late_goes, Ready, read-Whole}

-- A little-endian number of a packet, as the CPU reads it.
wire16 : (t : Target) (n : ℕ) → n < 2 ^ 16 → t.le16_to_cpu (t.load16 (n % 256) (n / 256 % 256)) ≡ n
wire16 t n h =
    t.le16_to_cpu-load16 (n % 256) (n / 256 % 256) (omega arith) (omega arith) ∙ le16_value n h

-- The header of a call, and the request that it makes of the structure.
abbrev pub header_of : Call → List ℕ
header_of c =
    le_bytes16 c.periph_id
    ++ le_bytes16 c.periph_idx
    ++ le_bytes16 c.periph_fn
    ++ le_bytes16 (length c.args)

abbrev pub req_of : Call → List ℕ → Req
req_of c payload = record {
  periph_id = c.periph_id;
  periph_idx = c.periph_idx;
  periph_fn = c.periph_fn;
  payload_len = length c.args;
  payload = payload;
}

pub header-req :
    (t : Target) (c : Call) (mem : List ℕ)
    → IsCall t c
    → iface_req_to_le t (overwrite (header_of c) mem) ≡ req_of c (drop 8 mem)
header-req t c mem h = rw (
  wire16 t c.periph_id h.id_fits,
  wire16 t c.periph_idx h.idx_fits,
  wire16 t c.periph_fn h.fn_fits,
  wire16 t (length c.args) (omega (arith, t.req_max-lt, h.args_fit)),
)

module _ (e : IfaceEnv) (line : List ℕ) (most : ℕ) where
  -- A request that stands for the call `c`.
  pub record Asks (c : Call) (rest : List ℕ) (back : List Event) (n : ℕ) (out : Received e)
      : Type 0 where
    pub req : Req
    pub after : UartIface e
    pub left : List Event
    pub same : out ≡ received req after (left ++ back)
    pub asks : call_of req ≡ c
    pub is_req : IsReq e.target req
    pub ready : Ready e line most rest after left
    pub goes : n ≤ length (encode_call c) + late_goes left

  -- From the payload on.
  payload_read-Asks :
      (again : List ℕ → UartIface e → List Event → Received e) (c : Call) (payload rest : List ℕ)
      (u : UartIface e) (front back : List Event)
      → length c.args ≤ e.req_max
      → length payload ≡ e.req_max
      → Ready e line most (c.args ++ rest) u front
      → length c.args ≤ late_goes front
      → Asks c rest back
          (8 + late_goes front)
          (payload_read e again (req_of c payload) (read e (length c.args) false u (front ++ back)))
  payload_read-Asks again c payload rest u front back fits size ready soon =
      let last = read-Whole e line most false c.args rest u front back ready soon in
      record {
        req = req_of c (overwrite c.args payload);
        after = last.after;
        left = last.left;
        same = rw last.same refl;
        asks =
            ap (λ l. record c { args = l })
              (take-append_self c.args (drop (length c.args) payload));
        is_req = record {
          len_fits = fits;
          buffer = omega (
            arith,
            length-append c.args (drop (length c.args) payload),
            length-drop (length c.args) payload,
          );
        };
        ready = last.ready;
        goes = omega (arith, last.goes);
      }

  check_header-Asks :
      (again : List ℕ → UartIface e → List Event → Received e) (c : Call) (mem rest : List ℕ)
      (u : UartIface e) (front back : List Event)
      → IsCall e.target c
      → length mem ≡ 8 + e.req_max
      → Ready e line most (c.args ++ rest) u front
      → length c.args ≤ late_goes front
      → Asks c rest back (8 + late_goes front) (
          check_header e again
            (iface_req_to_le e.target (overwrite (header_of c) mem))
            u
            (front ++ back))
  check_header-Asks again c mem rest u front back call size ready soon =
      subst (λ r. Asks c rest back (8 + late_goes front) (check_header e again r u (front ++ back)))
        (sym (header-req e.target c mem call))
        (rw (ltb-false e.req_max (length c.args) call.args_fit) (
          payload_read-Asks again c (drop 8 mem) rest u front back call.args_fit
            (omega (arith, length-drop 8 mem)) ready soon))

  pub get_req_loop-Asks :
      (fuel : ℕ) (c : Call) (mem rest : List ℕ) (u : UartIface e) (front back : List Event)
      → IsCall e.target c
      → length mem ≡ 8 + e.req_max
      → Ready e line most (encode_call c ++ rest) u front
      → length (encode_call c) ≤ late_goes front
      → Asks c rest back (late_goes front) (get_req_loop e (suc fuel) mem u (front ++ back))
  unfolding get_req_loop
  get_req_loop-Asks fuel c mem rest u front back call size ready soon =
      let again = get_req_loop e fuel in
      let first = c.periph_id % 256 ∷ [] in
      let head = drop 1 (header_of c) in
      let one =
        read-Whole e line most true first (head ++ c.args ++ rest) u front back ready
          (omega arith) in
      let seven =
        read-Whole e line most false head (c.args ++ rest) one.after one.left back one.ready
          (omega (arith, one.goes)) in
      let found =
        check_header-Asks again c mem rest seven.after seven.left back call size seven.ready
          (omega (arith, one.goes, seven.goes)) in
      record {
        req = found.req;
        after = found.after;
        left = found.left;
        same = rw (one.same, get_req_loop) (rw seven.same found.same);
        asks = found.asks;
        is_req = found.is_req;
        ready = found.ready;
        goes = omega (arith, one.goes, seven.goes, found.goes);
      }

  -- uart_get_req returns the call.
  pub uart_get_req-Asks :
      (c : Call) (r : Req) (rest : List ℕ) (u : UartIface e) (front back : List Event)
      → IsCall e.target c
      → length r.payload ≡ e.req_max
      → Ready e line most (encode_call c ++ rest) u front
      → length (encode_call c) ≤ late_goes front
      → Asks c rest back (late_goes front) (uart_get_req e r u (front ++ back))
  unfolding uart_get_req
  uart_get_req-Asks c r rest u front back call size ready soon =
      get_req_loop-Asks (length (front ++ back)) c (raw_req e.target r) rest u front back call
        (omega (arith, length-raw_req e.target r, size)) ready soon
