-- ===== src/Client/Routed.antt =====
-- A request of the client to a function of the firmware that is there.
use jabi.Prelude.{
  ℕ, ◌≤◌, ◌<◌, ◌≡◌, ap, sym, ◌∙◌, refl, arith, List, some, true, false, ◌==◌, Bool-cases, inl, inr,
  if◌then◌else◌, length, get_elem?, take, drop, length-take, take-append-drop, ◌++◌, take-append_le,
}
use jabi.Packet.{Target, Req, Call, IsCall, call_of}
use jabi.Periph.{busy_err, code, Reply, Handler, Api, num_peripherals, IsFit}
use jabi.Dispatch.{run_fn, process_request, respond}
use jabi.Dispatch.Bounds.{FitsApis, Routes, Routes-find_fn, fits_of}
use jabi.Serve.Answer.{KeepsOrder}
use jabi.Client.{Endian, IfaceDynamicResp}
use jabi.Client.Interface.{Result, ok, throw, bad_response}
use jabi.Client.Usb.{usb_send_request}
use jabi.Client.Link.{Short, dynamic_req, client_result, Firmware, host, IsReady, Served}
use jabi.Client.Served.{send_request-Served}

-- What the client makes of the reply of a function.
abbrev pub reply_result : Reply → Result IfaceDynamicResp
reply_result r =
    if code r.retcode == 0
    then ok (record {
      retcode = code r.retcode;
      payload_len = r.resp_len;
      payload = take r.resp_len r.resp;
    })
    else throw (bad_response (code r.retcode))

respond-result :
    (t : Target) (r : Reply) (buffer : List ℕ)
    → IsFit t r
    → client_result (respond r buffer) ≡ reply_result r
respond-result t r buffer h = elim (Bool-cases (code r.retcode == 0)) [
  | inl e ↦ rw (e, take-append_le r.resp_len r.resp (drop (length r.resp) buffer) h.announced)
  | inr e ↦ rw e
]

respond-len :
    (r : Reply) (buffer : List ℕ) (most : ℕ)
    → r.resp_len ≤ most
    → (respond r buffer).payload_len ≤ most
respond-len r buffer most h = ground arith

-- Where a call goes.
pub record Reaches {S : Type 0} (apis : List (Api S)) (c : Call) (fn : Handler S) : Type 0 where
  pub api : Api S
  pub known : c.periph_id < num_peripherals
  pub listed : get_elem? apis c.periph_id ≡ some api
  pub instance_exists : c.periph_idx < api.num_idx
  pub offered : get_elem? api.fns c.periph_fn ≡ some fn

Reaches-Routes :
    {S : Type 0} (apis : List (Api S)) (c : Call) (fn : Handler S) (req : Req)
    → call_of req ≡ c
    → Reaches apis c fn
    → Routes apis req fn
Reaches-Routes apis c fn req asks h =
    let id : req.periph_id ≡ c.periph_id = ap (λ c. c.periph_id) asks in
    let idx : req.periph_idx ≡ c.periph_idx = ap (λ c. c.periph_idx) asks in
    let fn_id : req.periph_fn ≡ c.periph_fn = ap (λ c. c.periph_fn) asks in
    record {
      api = h.api;
      known = rw id h.known;
      listed = rw id h.listed;
      instance_exists = rw idx h.instance_exists;
      offered = rw fn_id h.offered;
    }

-- The function `fn` has carried out the call `c`: in the request array, `rest` stands behind the
-- arguments.
pub record Done (t : Target) {S : Type 0} (Inv : S → Type 0) (c : Call) (fn : Handler S)
    (w : Firmware S) (out : Result IfaceDynamicResp × Firmware S) : Type 0 where
  pub rest : List ℕ
  pub array_size : length (c.args ++ rest) ≡ t.req_max
  pub result : out.0 ≡ reply_result (fn w.state c.periph_idx (c.args ++ rest) (length c.args)).1
  pub state : out.1.state ≡ (fn w.state c.periph_idx (c.args ++ rest) (length c.args)).0
  pub ready : IsReady t Inv out.1

-- The result of a call that finds the device's lock taken.
abbrev pub refused : {A : Type 0} → Result A
refused = throw (bad_response (code busy_err))

pub record Refused (t : Target) {S : Type 0} (Inv : S → Type 0) (w : Firmware S)
    (out : Result IfaceDynamicResp × Firmware S) : Type 0 where
  pub result : out.0 ≡ refused
  pub state : out.1.state ≡ w.state
  pub ready : IsReady t Inv out.1

module _ (t : Target) {S : Type 0} (Inv : S → Type 0) (apis : List (Api S))
    (fits : FitsApis t Inv apis) where
  Served-Done :
      (w : Firmware S) (c : Call) (fn : Handler S) (out : Result IfaceDynamicResp × Firmware S)
      → IsReady t Inv w
      → Reaches apis c fn
      → Served t Inv apis true c w out
      → Done t Inv c fn w out
  unfolding process_request run_fn
  Served-Done w c fn out ready h served =
      let r = served.req in
      let routes = Reaches-Routes apis c fn r served.asks h in
      let found = Routes-find_fn apis r fn routes in
      let idx : r.periph_idx ≡ c.periph_idx = ap (λ c. c.periph_idx) served.asks in
      let args : take r.payload_len r.payload ≡ c.args = ap (λ c. c.args) served.asks in
      let size : r.payload_len ≡ length c.args = omega (
        arith,
        served.is_req.len_fits,
        served.is_req.buffer,
        ap length (sym args),
        length-take r.payload_len r.payload,
      ) in
      let reply = (fn w.state r.periph_idx r.payload r.payload_len).1 in
      let fit =
        (fits_of t Inv apis fits r routes w.state r.periph_idx r.payload r.payload_len ready.keeps
          served.is_req.buffer served.is_req.len_fits).0 in
      let result : out.0 ≡ reply_result reply =
        served.replies ∙ rw (found, process_request) (respond-result t reply w.buffer fit) in
      let state : out.1.state ≡ (fn w.state r.periph_idx r.payload r.payload_len).0 =
        served.state ∙ rw (found, process_request) refl in
      let rest = drop r.payload_len r.payload in
      let whole : r.payload ≡ c.args ++ rest =
        sym (take-append-drop r.payload_len r.payload) ∙ ap (λ xs. xs ++ rest) args in
      record {
        rest = rest;
        array_size = ap length (sym whole) ∙ served.is_req.buffer;
        result = rw (idx, size, whole) at result;
        state = rw (idx, size, whole) at state;
        ready = served.ready;
      }

  -- Where a call goes, the reply decides how long the response is.
  Reaches-Short :
      (resp_max : ℕ) (w : Firmware S) (c : Call) (fn : Handler S)
      → Reaches apis c fn
      → ((array : List ℕ) → (fn w.state c.periph_idx array (length c.args)).1.resp_len ≤ resp_max)
      → Short t apis true resp_max w c
  unfolding process_request run_fn
  Reaches-Short resp_max w c fn h short r is_req asks =
      let found = Routes-find_fn apis r fn (Reaches-Routes apis c fn r asks h) in
      let idx : r.periph_idx ≡ c.periph_idx = ap (λ c. c.periph_idx) asks in
      let args : take r.payload_len r.payload ≡ c.args = ap (λ c. c.args) asks in
      let size : r.payload_len ≡ length c.args = omega (
        arith,
        is_req.len_fits,
        is_req.buffer,
        ap length (sym args),
        length-take r.payload_len r.payload,
      ) in
      rw (found, process_request, idx, size)
        (respond-len (fn w.state c.periph_idx r.payload (length c.args)).1 w.buffer resp_max
          (short r.payload))

  module _ (keeps_order : KeepsOrder t) (e : Endian) (packet_size : ℕ) (positive : 0 < packet_size)
      (req_max resp_max : ℕ) where
    pub usb_send_request-Done :
        (w : Firmware S) (c : Call) (fn : Handler S)
        → IsReady t Inv w
        → IsCall t c
        → length c.args ≤ req_max
        → Reaches apis c fn
        → ((array : List ℕ) → (fn w.state c.periph_idx array (length c.args)).1.resp_len ≤ resp_max)
        → Done t Inv c fn w
            (usb_send_request (host t apis true e packet_size req_max resp_max) (dynamic_req c) w)
    usb_send_request-Done w c fn ready call small h short = Served-Done w c fn _ ready h (
        send_request-Served t Inv apis fits keeps_order true e packet_size positive req_max resp_max
          w c ready call small (Reaches-Short resp_max w c fn h short))

    -- Without the lock, the firmware answers JABI_BUSY_ERR and does nothing.
    pub usb_send_request-Refused :
        (w : Firmware S) (c : Call) (fn : Handler S)
        → IsReady t Inv w
        → IsCall t c
        → length c.args ≤ req_max
        → Reaches apis c fn
        → Refused t Inv w
            (usb_send_request (host t apis false e packet_size req_max resp_max) (dynamic_req c) w)
    unfolding process_request run_fn
    usb_send_request-Refused w c fn ready call small h =
        let found = λ (r : Req) (asks : call_of r ≡ c).
          Routes-find_fn apis r fn (Reaches-Routes apis c fn r asks h) in
        let served =
          send_request-Served t Inv apis fits keeps_order false e packet_size positive req_max
            resp_max w c ready call small
            (λ r is_req asks. rw (found r asks, process_request) (omega arith)) in
        let there = found served.req served.asks in
        record {
          result = served.replies ∙ rw (there, process_request) refl;
          state = served.state ∙ rw (there, process_request) refl;
          ready = served.ready;
        }
