-- ===== src/Usb/Send.antt =====
-- usb_send_resp against the protocol's packet.
use jabi.Prelude.{
  ℕ, ◌+◌, ◌^◌, ◌≤◌, ◌<◌, ◌≡◌, ◌↔◌, ◌∙◌, ap, sym, suc, arith, List, ◌∷◌, ◌++◌, length, take,
  length-take,
}
use jabi.Bytes.{le_bytes16}
use jabi.Packet.{Target, Resp, raw_resp, iface_resp_to_le, encode_resp}
use jabi.Usb.{usb_send_resp}

-- A response that process_interface hands over: 16-bit header fields over the payload array.
pub record IsResp (t : Target) (r : Resp) : Type 0 where
  pub retcode_fits : r.retcode < 2 ^ 16
  pub len_fits : r.payload_len ≤ t.resp_max
  pub buffer : length r.payload ≡ t.resp_max

pub take-header :
    (n a b c d : ℕ) (xs : List ℕ) → take (4 + n) (a ∷ b ∷ c ∷ d ∷ xs) ≡ a ∷ b ∷ c ∷ d ∷ take n xs
take-header n a b c d xs = let four : 4 + n ≡ suc (suc (suc (suc n))) = omega arith in rw four

module _ (t : Target) (r : Resp) where
  pub raw_resp-le :
      IsResp t r
      → raw_resp t (iface_resp_to_le t r)
        ≡ le_bytes16 r.retcode ++ le_bytes16 r.payload_len ++ r.payload
  raw_resp-le h = rw (
    t.store16-cpu_to_le16 r.retcode h.retcode_fits,
    t.store16-cpu_to_le16 r.payload_len (omega (arith, t.resp_max-lt)),
  )

  -- The bytes that go out, by the length that the conversion leaves.
  pub usb_send_resp-take :
      IsResp t r
      → usb_send_resp t r
        ≡ le_bytes16 r.retcode
          ++ le_bytes16 r.payload_len
          ++ take (t.cpu_to_le16 r.payload_len) r.payload
  unfolding usb_send_resp
  usb_send_resp-take h =
      rw (raw_resp-le h) (take-header (t.cpu_to_le16 r.payload_len) _ _ _ _ r.payload)

  -- For a response with room left in its array, usb_send_resp sends the packet of the response
  -- exactly when the conversion to little-endian leaves the number of its length alone.
  pub usb_send_resp-encode_resp_iff :
      IsResp t r
      → r.payload_len < t.resp_max
      → (usb_send_resp t r ≡ encode_resp r) ↔ (t.cpu_to_le16 r.payload_len ≡ r.payload_len)
  usb_send_resp-encode_resp_iff h room = (
    λ e. omega (
      arith,
      ap length (sym (usb_send_resp-take h) ∙ e),
      length-take (t.cpu_to_le16 r.payload_len) r.payload,
      length-take r.payload_len r.payload,
    ),
    λ e. usb_send_resp-take h ∙ rw e,
  )
