-- ===== src/Client/Wire.antt =====
-- The bytes that USBInterface::send_request sends and reads, against the protocol's packets.
use jabi.Bytes.{le16_value}
use jabi.Prelude.{
  ℕ, ◌+◌, ◌/◌, ◌%◌, ◌^◌, ◌≤◌, ◌<◌, ◌≡◌, sym, ap, ◌∙◌, arith, List, ◌++◌, ◌==◌, ltb-false, ==_refl,
  Bool-cases, inl, inr, length, take, length-take, take-append_self,
}
use jabi.Packet.{Target, Resp, Call, IsCall, encode_call, encode_resp}
use jabi.Usb.Send.{IsResp}
use jabi.Client.{Endian, order_of, letoh16, iface_req_htole, put16-le, load16-le}
use jabi.Client.Usb.{UsbInterface, check_resp, check_in}
use jabi.Client.Link.{dynamic_req, client_result}

pub load_le16 :
    (e : Endian) (n : ℕ)
    → n < 2 ^ 16
    → letoh16 e ((order_of e).load16 (n % 256) (n / 256 % 256)) ≡ n
load_le16 e n h = load16-le e (n % 256) (n / 256 % 256) (omega arith) (omega arith) ∙ le16_value n h

module _ (t : Target) where
  -- The bytes that the client sends are the packet of the call, in either byte order.
  pub request-encode_call :
      (e : Endian) (c : Call)
      → IsCall t c
      → iface_req_htole e (dynamic_req c) ++ c.args ≡ encode_call c
  request-encode_call e c h = rw (
    put16-le e c.periph_id h.id_fits,
    put16-le e c.periph_idx h.idx_fits,
    put16-le e c.periph_fn h.fn_fits,
    put16-le e (length c.args) (omega (arith, t.req_max-lt, h.args_fit)),
  )

  pub length-data : (r : Resp) → IsResp t r → length (take r.payload_len r.payload) ≡ r.payload_len
  length-data r h = omega (arith, h.len_fits, h.buffer, length-take r.payload_len r.payload)

  check_resp-result :
      {W : Type 0} (u : UsbInterface W) (r : Resp) (n : ℕ) (rest : List ℕ) (w : W)
      → IsResp t r
      → r.payload_len ≤ u.resp_max_size
      → n ≡ 4 + r.payload_len
      → check_resp u n r.retcode r.payload_len (take r.payload_len r.payload ++ rest) w
        ≡ (client_result r, w)
  unfolding check_resp
  check_resp-result u r n rest w h room whole =
      let bytes = take r.payload_len r.payload in
      let same : take r.payload_len (bytes ++ rest) ≡ bytes =
        ap (λ (k : ℕ). take k (bytes ++ rest)) (sym (length-data r h))
        ∙ take-append_self bytes rest in
      rw (whole, ==_refl (4 + r.payload_len), ltb-false u.resp_max_size r.payload_len room, same)
        (elim (Bool-cases (r.retcode == 0)) [ inl e ↦ rw e | inr e ↦ rw e ])

  -- The client reads the packet of a response as that response.
  pub check_in-encode_resp :
      {W : Type 0} (u : UsbInterface W) (r : Resp) (w : W)
      → IsResp t r
      → r.payload_len ≤ u.resp_max_size
      → check_in u (encode_resp r) w ≡ (client_result r, w)
  unfolding check_in
  check_in-encode_resp u r w h room =
      rw
        (
          load_le16 u.endian r.retcode h.retcode_fits,
          load_le16 u.endian r.payload_len (omega (arith, h.len_fits, t.resp_max-lt)),
        )
        (check_resp-result u r (length (encode_resp r)) _ w h room (omega (arith, length-data r h)))
