-- ===== src/Client/Remote.antt =====
-- The functions of the client's Device on a whole board, over USB.
pub mod Gpio
pub mod Connect
pub mod Can
pub mod I2c
pub mod Pwm
pub mod Spi
use jabi.Prelude.{
  ==_refl, ℕ, ◌+◌, ◌%◌, ◌/◌, ◌^◌, ◌≤◌, ◌<◌, ◌≡◌, refl, sym, ap, ◌∙◌, arith, Bool, true, false, not,
  none, some, List, [], ◌∷◌, ◌++◌, ltb, ◌==◌, if◌then◌else◌, length, get_elem?, take, ltb-false,
  take-append_self, take-length, All, Bool-cases, Option-cases, inl, inr,
}
use jabi.Bytes.{IsByte}
use jabi.Packet.{Target, Call, IsCall}
use jabi.Periph.{Reply, Handler, code, done, fail, peripheral_err, no_err, on_device}
use jabi.Serve.Answer.{KeepsOrder}
use jabi.Board.{Board, Devices, on_part, peripherals}
use jabi.Board.Fit.{IsBoard, AreSound, peripherals-Fits}
use jabi.Client.{Endian, IfaceDynamicReq, IfaceDynamicResp}
use jabi.Client.Interface.{
  Result, ok, throw, raise, bad_response, Action, Interface, request, expect_empty, expect_size,
  ◌>>=◌,
}
use jabi.Client.Usb.{usb_interface, usb_send_request}
use jabi.Client.Link.{dynamic_req, Firmware, host, IsReady}
use jabi.Client.Served.{bind-ok}
use jabi.Client.Routed.{
  Reaches, Done, Refused, reply_result, usb_send_request-Done, usb_send_request-Refused,
}

-- The request that a function of Device builds, as a call.
abbrev pub call_to : ℕ → ℕ → ℕ → List ℕ → Call
call_to id idx fn payload = record {
  periph_id = id;
  periph_idx = idx;
  periph_fn = fn;
  args = payload;
}

pub request-dynamic_req :
    (id idx fn : ℕ) (payload : List ℕ)
    → idx < 2 ^ 16
    → length payload < 2 ^ 16
    → request id idx fn payload ≡ dynamic_req (call_to id idx fn payload)
request-dynamic_req id idx fn payload small h =
    let same_idx : idx % 2 ^ 16 ≡ idx = omega arith in
    let same : length payload % 2 ^ 16 ≡ length payload = omega arith in rw (same_idx, same)

-- What a function of Device without a result makes of the response.
abbrev pub finish : {W : Type 0} → Result IfaceDynamicResp → W → Result (Unit {0}) × W
finish r w = elim r [ ok resp ↦ expect_empty resp w | throw f ↦ raise f w ]

-- What a function without a result makes of the code of a reply.
abbrev pub outcome : Reply → Result (Unit {0})
outcome r = if code r.retcode == 0 then ok tt else throw (bad_response (code r.retcode))

pub finish-outcome :
    {W : Type 0} (r : Reply) (w : W) → r.resp_len ≡ 0 → finish (reply_result r) w ≡ (outcome r, w)
finish-outcome r w empty = elim (Bool-cases (code r.retcode == 0)) [
  | inl fine ↦ rw (fine, empty) refl
  | inr bad ↦ rw bad refl
]

-- What the client makes of the driver's answer.
abbrev pub answer_for : Bool → List ℕ → Result (List ℕ)
answer_for success rx = if success then ok rx else throw (bad_response 4)

-- What a function that asks for `n` bytes makes of the response.
abbrev pub finish_size : {W : Type 0} → ℕ → Result IfaceDynamicResp → W → Result (List ℕ) × W
finish_size n r w = elim r [ ok resp ↦ expect_size n resp w | throw f ↦ raise f w ]

-- The reply to a transfer.
abbrev pub data_reply : Bool → List ℕ → ℕ → Reply
data_reply success rx n =
    if success then record { retcode = no_err; resp = rx; resp_len = n } else fail peripheral_err

pub finish_size-data_reply :
    {W : Type 0} (success : Bool) (rx : List ℕ) (n : ℕ) (w : W)
    → length rx ≡ n
    → finish_size n (reply_result (data_reply success rx n)) w ≡ (answer_for success rx, w)
finish_size-data_reply true rx n w size =
    let whole : take n rx ≡ rx = ap (λ (k : ℕ). take k rx) (sym size) ∙ take-length rx in
    rw (whole, size, ==_refl n) refl
finish_size-data_reply false rx n w size = refl

-- A function whose replies announce at most `most` bytes, on a device of a list.
pub on_device-short :
    {D : Type 0} (f : D → List ℕ → ℕ → D × Reply) (most : ℕ)
    → ((d : D) (req : List ℕ) (n : ℕ) → (f d req n).1.resp_len ≤ most)
    → (devs : List D) (idx : ℕ) (req : List ℕ) (n : ℕ)
    → (on_device f devs idx req n).1.resp_len ≤ most
on_device-short f most short devs idx req n = elim (Option-cases (get_elem? devs idx)) [
  | inl missing ↦ rw (missing, on_device) (omega arith)
  | inr (d, found) ↦ rw (found, on_device) (short d req n)
]

module _ (b : Board) (is_board : IsBoard b) (keeps_order : KeepsOrder b.metadata.target)
    (e : Endian) (packet_size : ℕ) (positive : 0 < packet_size) (req_max resp_max : ℕ) where
  -- `taken` is what k_sem_take says of the lock of the device that is asked for.
  abbrev pub device : Bool → Interface (Firmware (Devices b))
  device taken =
      usb_interface (host b.metadata.target (peripherals b) taken e packet_size req_max resp_max)

  -- A request of the client that fits, to a function that is there.
  pub record Fits (id idx fn : ℕ) (payload : List ℕ) (f : Handler (Devices b)) : Type 0 where
    pub reaches : Reaches (peripherals b) (call_to id idx fn payload) f
    pub id_fits : id < 2 ^ 16
    pub idx_fits : idx < 2 ^ 16
    pub fn_fits : fn < 2 ^ 16
    pub sent : length payload ≤ req_max
    pub received : length payload ≤ b.metadata.req_max
    pub bytes : All IsByte payload
    pub short :
        (d : Devices b) (array : List ℕ) → (f d idx array (length payload)).1.resp_len ≤ resp_max

  Fits-IsCall :
      (id idx fn : ℕ) (payload : List ℕ) (f : Handler (Devices b))
      → Fits id idx fn payload f
      → IsCall b.metadata.target (call_to id idx fn payload)
        × (request id idx fn payload ≡ dynamic_req (call_to id idx fn payload))
  Fits-IsCall id idx fn payload f h =
      let t = b.metadata.target in
      (
        record {
          id_fits = h.id_fits;
          idx_fits = h.idx_fits;
          fn_fits = h.fn_fits;
          args_fit = h.received;
          args_bytes = h.bytes;
        },
        request-dynamic_req id idx fn payload h.idx_fits (omega (arith, t.req_max-lt, h.received)),
      )

  pub request-Done :
      (w : Firmware (Devices b)) (id idx fn : ℕ) (payload : List ℕ) (f : Handler (Devices b))
      → IsReady b.metadata.target (AreSound b) w
      → Fits id idx fn payload f
      → Done b.metadata.target
          (AreSound b)
          (call_to id idx fn payload)
          f
          w
          ((device true).send_request (request id idx fn payload) w)
  request-Done w id idx fn payload f ready h =
      let (call, same) = Fits-IsCall id idx fn payload f h in
      rw same (
        usb_send_request-Done b.metadata.target (AreSound b) (peripherals b)
          (peripherals-Fits b is_board) keeps_order e packet_size positive req_max resp_max w
          (call_to id idx fn payload) f ready call h.sent h.reaches (h.short w.state))

  pub request-Refused :
      (w : Firmware (Devices b)) (id idx fn : ℕ) (payload : List ℕ) (f : Handler (Devices b))
      → IsReady b.metadata.target (AreSound b) w
      → Fits id idx fn payload f
      → Refused b.metadata.target
          (AreSound b)
          w
          ((device false).send_request (request id idx fn payload) w)
  request-Refused w id idx fn payload f ready h =
      let (call, same) = Fits-IsCall id idx fn payload f h in
      rw same (
        usb_send_request-Refused b.metadata.target (AreSound b) (peripherals b)
          (peripherals-Fits b is_board) keeps_order e packet_size positive req_max resp_max w
          (call_to id idx fn payload) f ready call h.sent h.reaches)
