-- ===== src/Usb.antt =====
-- firmware/src/interfaces/usb.c: requests and responses over a pair of bulk endpoints.
pub mod Recv
pub mod Send
pub mod Buffer
pub mod Descriptors
use jabi.Prelude.{
  ℕ, ◌+◌, ◌≡◌, List, [], ◌∷◌, ◌++◌, Option, none, some, Bool, true, false, ◌||◌, not, ltb, ◌==◌,
  if◌then◌else◌, length, take, overwrite,
}
use jabi.Packet.{
  Target, Req, Resp, raw_req, iface_req_to_le, raw_resp, iface_resp_to_le, req_hdr_size,
  resp_hdr_size,
}

-- What one usb_transfer_sync on the OUT endpoint brings: an error, or the bytes of one transfer.
abbrev pub Transfer : Type 0
Transfer = Option (List ℕ)

module _ (t : Target) where
  -- One turn of the loop: the packet that was accepted, or the buffer to go on with.
  pub data Turn : Type 0 where
    accept : Req → Turn
    retry : Req → Turn

  -- The checks behind a transfer of `len` bytes.
  unfoldable pub check_transfer : Req → ℕ → Turn
  check_transfer req len =
      if ltb t.req_max req.payload_len || not (len == req_hdr_size + req.payload_len)
      then retry req
      else accept req

  unfoldable pub usb_turn : Req → Transfer → Turn
  unfolding check_transfer
  usb_turn req none = retry (record req { payload_len = 0 })
  usb_turn req (some bytes) =
      let mem = overwrite bytes (raw_req t (record req { payload_len = 0 })) in
      check_transfer (iface_req_to_le t mem) (length bytes)

  -- usb_get_req over the transfers that the host sends. `none`: it still waits for a request.
  unfoldable pub usb_get_req : Req → List Transfer → Option (Req × List Transfer)
  usb_get_req req [] = none
  usb_get_req req (x ∷ xs) = elim (usb_turn req x) [
    | accept r ↦ some (r, xs)
    | retry r ↦ usb_get_req r xs
  ]

  -- usb_send_resp: the bytes that it hands to the IN endpoint. The length is computed from the
  -- field that iface_resp_to_le has already converted.
  unfoldable pub usb_send_resp : Resp → List ℕ
  usb_send_resp resp =
      let wire = iface_resp_to_le t resp in
      let expect_len = resp_hdr_size + wire.payload_len in take expect_len (raw_resp t wire)
