-- ===== src/Client/Usb.antt =====
-- clients/cpp/libjabi/interfaces/usb.cpp: USBInterface::send_request over libusb.
use jabi.Prelude.{
  ℕ, ◌+◌, ◌%◌, List, [], ◌++◌, Option, not, ◌||◌, ltb, ◌==◌, if◌then◌else◌, length, take, drop,
  replicate, overwrite,
}
use jabi.Packet.{resp_hdr_size}
use jabi.Client.{Endian, IfaceDynamicReq, IfaceDynamicResp, iface_req_htole, iface_resp_letoh}
use jabi.Client.Interface.{
  Action, Interface, pure, ◌>>=◌, ◌>>◌, throw_if, checked, request_payload_size,
  transfer_request_failed, wrong_request_length, division_by_zero, transfer_zlp_failed,
  transfer_response_failed, wrong_response_length, bad_response,
}

-- libusb_bulk_transfer on the two endpoints, within its timeout. OUT answers the number of bytes
-- sent, IN the bytes received into a buffer of the given size; `none` is a negative return.
pub record Libusb (W : Type 0) : Type 0 where
  pub bulk_out : List ℕ → W → Option ℕ × W
  pub bulk_in : ℕ → W → Option (List ℕ) × W

-- class USBInterface
pub record UsbInterface (W : Type 0) : Type 0 where
  pub endian : Endian
  pub libusb : Libusb W
  pub w_max_packet_size : ℕ
  pub req_max_size : ℕ
  pub resp_max_size : ℕ

module _ {W : Type 0} (u : UsbInterface W) where
  -- The transfer of the request, and the empty one behind a whole number of packets. The
  -- remainder by wMaxPacketSize is undefined for 0, which the model gives a failure of its own.
  unfoldable pub send_out : List ℕ → Action W (Unit {0})
  send_out bytes = do
    sent_len ← checked (u.libusb.bulk_out bytes) transfer_request_failed
    throw_if (not (sent_len == length bytes)) wrong_request_length
    throw_if (u.w_max_packet_size == 0) division_by_zero
    if length bytes % u.w_max_packet_size == 0
        then checked (u.libusb.bulk_out []) transfer_zlp_failed >> pure tt
        else pure tt

  -- The checks behind a transfer of `recv_len` bytes; `payload` is the whole array.
  unfoldable pub check_resp : ℕ → ℕ → ℕ → List ℕ → Action W IfaceDynamicResp
  check_resp recv_len retcode payload_len payload = do
    throw_if (not (recv_len == resp_hdr_size + payload_len)) wrong_response_length
    throw_if (not (retcode == 0) || ltb u.resp_max_size payload_len) (bad_response retcode)
    pure (record {
      retcode = retcode;
      payload_len = payload_len;
      payload = take payload_len payload;
    })

  -- The transfer lands in a zeroed buffer, whose header is then converted.
  unfoldable pub check_in : List ℕ → Action W IfaceDynamicResp
  unfolding check_resp
  check_in received =
      let resp_msg = overwrite received (replicate (resp_hdr_size + u.resp_max_size) 0) in
      let header = iface_resp_letoh u.endian resp_msg in
      check_resp (length received) header.0 header.1 (drop resp_hdr_size resp_msg)

  unfoldable pub usb_send_request : IfaceDynamicReq → Action W IfaceDynamicResp
  unfolding send_out check_in
  usb_send_request req = do
    throw_if (ltb u.req_max_size req.payload_len || not (req.payload_len == length req.payload))
        request_payload_size
    send_out (iface_req_htole u.endian req ++ req.payload)
    received ← checked (u.libusb.bulk_in (resp_hdr_size + u.resp_max_size)) transfer_response_failed
    check_in received

  abbrev pub usb_interface : Interface W
  usb_interface = record {
    endian = u.endian;
    req_max_size = u.req_max_size;
    resp_max_size = u.resp_max_size;
    send_request = usb_send_request;
  }
