-- ===== src/Client/Search/Attached.antt =====
-- list_devices on a host with a board attached.
use jabi.Prelude.{
  ℕ, ◌≤◌, ◌<◌, ◌≡◌, ◌≢◌, refl, sym, ap, ◌∙◌, true, Option, some, List, [], ◌∷◌, ◌++◌, All,
}
use mathlib.Core.Path.{subst}
use jabi.Serve.Answer.{KeepsOrder}
use jabi.Usb.Descriptors.{EndpointDesc, IfaceDesc, jabi_if_str, usb_if_desc}
use jabi.Board.{Board, Devices, peripherals}
use jabi.Board.Fit.{IsBoard, AreSound}
use jabi.Client.Interface.{ok, Interface}
use jabi.Client.Usb.{Libusb, usb_interface}
use jabi.Client.Link.{Firmware, usb_link, IsReady}
use jabi.Client.Connect.{connect_usb, Sizes}
use jabi.Client.Remote.{device}
use jabi.Client.Remote.Connect.{connect_usb-sizes}
use jabi.Client.Search.{
  UsbHost, found, Found, usb_device, unsized, probe_claimed, probe_opened, probe_interface,
  scan_devices, list_devices,
}
use jabi.Client.Search.Scan.{
  IsOther, HasOthers, endpoints_of-usb_if_desc, scan_devices-step, skip_devices, no_jabi_devices,
  scan_interfaces-found,
}

-- A host on which libusb works, with the board among its devices: its interface stands among
-- others', and its handle's transfers are those of the firmware, on which the lock of the metadata
-- peripheral is free.
pub record Attached (b : Board) (l : UsbHost (Firmware (Devices b))) : Type 1 where
  pub dev : l.UsbDevice
  pub devs_before : List l.UsbDevice
  pub devs_after : List l.UsbDevice
  pub others_before : All (HasOthers l) devs_before
  pub others_after : All (HasOthers l) devs_after
  pub inited : (w : Firmware (Devices b)) → l.init w ≡ (true, w)
  pub listed :
      (w : Firmware (Devices b))
      → l.get_device_list w ≡ (some (devs_before ++ (dev ∷ devs_after)), w)
  pub number : ℕ
  pub str_idx : ℕ
  pub ep_out : ℕ
  pub ep_in : ℕ
  pub mps : ℕ
  pub named : str_idx ≢ 0
  pub is_out : ep_out < 0x80
  pub is_inn : 0x80 ≤ ep_in
  pub in_byte : ep_in < 256
  pub positive : 0 < mps
  pub before : List (List IfaceDesc)
  pub after : List (List IfaceDesc)
  pub others : All IsOther before
  pub more : All IsOther after
  pub config :
      (w : Firmware (Devices b))
      → l.get_active_config dev w
        ≡ (some (before ++ ((usb_if_desc number str_idx ep_out ep_in mps ∷ []) ∷ after)), w)
  pub handle : l.Handle
  pub opens : (w : Firmware (Devices b)) → l.open_device dev w ≡ (some handle, w)
  pub string : (w : Firmware (Devices b)) → l.get_string handle str_idx w ≡ (some jabi_if_str, w)
  pub claims : (w : Firmware (Devices b)) → l.claim_interface handle number w ≡ (true, w)
  pub transfers :
      l.transfers handle ep_out ep_in ≡ usb_link b.metadata.target (peripherals b) true mps

module _ (b : Board) (is_board : IsBoard b) (keeps_order : KeepsOrder b.metadata.target)
    (l : UsbHost (Firmware (Devices b))) (at : Attached b l) where
  -- The device that list_devices finds.
  abbrev pub the_board : Found l
  the_board = record {
    handle = at.handle;
    interface_number = at.number;
    max_packet_size = at.mps;
    ep_out = at.ep_out;
    ep_in = at.ep_in;
    req_max_size = b.metadata.req_max;
    resp_max_size = b.metadata.resp_max;
  }

  abbrev out : EndpointDesc
  out = record { endpoint_address = at.ep_out; attributes = 2; max_packet_size = at.mps }

  abbrev inn : EndpointDesc
  inn = record { endpoint_address = at.ep_in; attributes = 2; max_packet_size = at.mps }

  abbrev desc : IfaceDesc
  desc = usb_if_desc at.number at.str_idx at.ep_out at.ep_in at.mps

  abbrev make : ℕ → ℕ → Interface (Firmware (Devices b))
  make req_max resp_max =
      usb_interface (usb_device l (unsized l desc (out, inn) at.handle req_max resp_max))

  make-device : make ≡ (λ req_max resp_max.
      device b is_board keeps_order l.endian at.mps at.positive req_max resp_max true)
  make-device =
      let over : Libusb (Firmware (Devices b)) → ℕ → ℕ → Interface (Firmware (Devices b)) =
        λ t req_max resp_max. usb_interface (record {
          endian = l.endian;
          libusb = t;
          w_max_packet_size = at.mps;
          req_max_size = req_max;
          resp_max_size = resp_max;
        }) in
      ap over at.transfers

  abbrev connected : Firmware (Devices b) → Option Sizes × Firmware (Devices b)
  connected = connect_usb make (l.reset_device at.handle)

  connected-sizes :
      (w : Firmware (Devices b))
      → IsReady b.metadata.target (AreSound b) w
      → ((connected w).0 ≡ some (b.metadata.req_max, b.metadata.resp_max))
        × ((connected w).1.state ≡ w.state)
        × IsReady b.metadata.target (AreSound b) (connected w).1
  connected-sizes w ready =
      subst
        (λ (m : ℕ → ℕ → Interface (Firmware (Devices b))).
          let out = connect_usb m (l.reset_device at.handle) w in
          (out.0 ≡ some (b.metadata.req_max, b.metadata.resp_max))
          × (out.1.state ≡ w.state)
          × IsReady b.metadata.target (AreSound b) out.1)
        (sym make-device)
        (connect_usb-sizes b is_board keeps_order l.endian at.mps at.positive
          (l.reset_device at.handle) w ready)

  probe_claimed-found :
      (w : Firmware (Devices b))
      → (connected w).0 ≡ some (b.metadata.req_max, b.metadata.resp_max)
      → probe_claimed l desc (out, inn) at.handle w ≡ (found the_board, (connected w).1)
  unfolding probe_claimed usb_if_desc
  probe_claimed-found w sized = rw (sized, probe_claimed) refl

  probe_opened-found :
      (w : Firmware (Devices b))
      → (connected w).0 ≡ some (b.metadata.req_max, b.metadata.resp_max)
      → probe_opened l desc (out, inn) at.handle w ≡ (found the_board, (connected w).1)
  unfolding probe_opened usb_if_desc
  probe_opened-found w sized =
      rw (at.string w, probe_opened)
        (rw (at.string w) (rw (at.claims w) (probe_claimed-found w sized)))

  probe_interface-found :
      (w : Firmware (Devices b))
      → (connected w).0 ≡ some (b.metadata.req_max, b.metadata.resp_max)
      → probe_interface l at.dev (desc ∷ []) w ≡ (found the_board, (connected w).1)
  unfolding probe_interface
  probe_interface-found w sized =
      let eps =
        endpoints_of-usb_if_desc at.number at.str_idx at.ep_out at.ep_in at.mps at.named at.is_out
          at.is_inn at.in_byte in
      rw (eps, probe_interface, at.opens w) (rw (at.opens w) (probe_opened-found w sized))

  -- On a host whose libusb calls succeed and whose bus has a little-endian board on it, one
  -- build with its whole table of peripherals, while no other interface, of the board or of
  -- another device, has a descriptor that JABI's checks accept, list_devices returns exactly
  -- one device: that of the board, with the endpoints and the packet size of the firmware's own
  -- descriptor and the two largest payloads that the board was built with. The peripherals are
  -- as they were and the board is ready for a request again. The lock of the board's metadata
  -- peripheral is free throughout. The board's arrays have their sizes, its devices are in
  -- order, its packet size is positive and it has only empty transfers pending and none begun;
  -- its string has an index and its endpoints have addresses of their directions.
  pub list_devices-board :
      (w : Firmware (Devices b))
      → IsReady b.metadata.target (AreSound b) w
      → ((list_devices l w).0 ≡ ok (the_board ∷ []))
        × ((list_devices l w).1.state ≡ w.state)
        × IsReady b.metadata.target (AreSound b) (list_devices l w).1
  unfolding list_devices
  list_devices-board w ready =
      let (sized, same, again) = connected-sizes w ready in
      let w' = (connected w).1 in
      let seen =
        scan_interfaces-found l at.dev at.before at.after (desc ∷ []) the_board w w' at.others
          at.more (probe_interface-found w sized) in
      let scanned : scan_devices l (at.devs_before ++ (at.dev ∷ at.devs_after)) [] w
          ≡ (the_board ∷ [], w') =
        skip_devices l at.devs_before (at.dev ∷ at.devs_after) [] w at.others_before
        ∙ scan_devices-step l at.dev at.devs_after (at.before ++ ((desc ∷ []) ∷ at.after)) []
            (the_board ∷ []) w w w' (at.config w) seen
        ∙ no_jabi_devices l at.devs_after (the_board ∷ []) w' at.others_after in
      rw (at.inited w, list_devices)
        (rw (at.listed w) (rw (at.inited w) (rw (at.listed w) (rw scanned (refl, same, again)))))
