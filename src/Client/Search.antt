-- ===== src/Client/Search.antt =====
-- clients/cpp/libjabi/interfaces/usb.cpp: USBInterface::list_devices over libusb.
pub mod Sizes
pub mod Scan
pub mod Attached
use jabi.Prelude.{
  ℕ, ◌%◌, Bool, true, false, not, ◌&&◌, ◌||◌, Option, none, some, List, [], ◌∷◌, ◌++◌, leb, ◌==◌,
  if◌then◌else◌,
}
use jabi.Usb.Descriptors.{EndpointDesc, IfaceDesc, jabi_if_str}
use jabi.Client.{Endian}
use jabi.Client.Interface.{
  Result, ok, Action, Interface, raise, libusb_init_failed, device_list_failed,
}
use jabi.Client.Usb.{Libusb, UsbInterface, usb_interface}
use jabi.Client.Connect.{connect_usb}

-- What list_devices uses of libusb. `none` and false are negative returns; `transfers` are the
-- bulk transfers on a handle's two endpoints. An interface that has altsettings lists them, its
-- default first; a string is its bytes up to the NUL.
pub record UsbHost (W : Type 0) : Type 1 where
  pub UsbDevice : Type 0
  pub Handle : Type 0
  pub endian : Endian
  pub init : W → Bool × W
  pub exit : W → W
  pub get_device_list : W → Option (List UsbDevice) × W
  pub get_active_config : UsbDevice → W → Option (List (List IfaceDesc)) × W
  pub open_device : UsbDevice → W → Option Handle × W
  pub get_string : Handle → ℕ → W → Option (List ℕ) × W
  pub claim_interface : Handle → ℕ → W → Bool × W
  pub release_interface : Handle → ℕ → W → W
  pub reset_device : Handle → W → Bool × W
  pub close : Handle → W → W
  pub transfers : Handle → ℕ → ℕ → Libusb W

-- `bEndpointAddress & 0x80`
abbrev pub is_in : EndpointDesc → Bool
is_in ep = leb 0x80 (ep.endpoint_address % 256)

abbrev pub differ : Bool → Bool → Bool
differ true b = not b
differ false b = b

-- `std::string(str) != "JABI USB"`
abbrev pub same_bytes : List ℕ → List ℕ → Bool
same_bytes [] [] = true
same_bytes (x ∷ xs) (y ∷ ys) = x == y && same_bytes xs ys
same_bytes _ _ = false

-- The two endpoints, OUT first, if they are bulk endpoints of both directions.
abbrev pub bulk_pair : List EndpointDesc → Option (EndpointDesc × EndpointDesc)
bulk_pair (ep0 ∷ ep1 ∷ eps) =
    if not (ep0.attributes % 4 == 2)
      || not (ep1.attributes % 4 == 2)
      || not (differ (is_in ep0) (is_in ep1))
    then none
    else some (if is_in ep0 then (ep1, ep0) else (ep0, ep1))
bulk_pair _ = none

-- The checks of the descriptor.
unfoldable pub endpoints_of : IfaceDesc → Option (EndpointDesc × EndpointDesc)
endpoints_of d =
    if not (d.interface_class == 0xff)
      || d.interface_string == 0
      || not (d.num_endpoints == 2)
      || not (d.alternate_setting == 0)
    then none
    else bulk_pair d.endpoints

-- `continue`, `break`, or push_back and on.
pub data Probe (A : Type 0) : Type 0 where
  next : Probe A
  stop : Probe A
  found : A → Probe A

module _ {W : Type 0} (l : UsbHost W) where
  -- The USBInterface of a Device.
  pub record Found : Type 0 where
    pub handle : l.Handle
    pub interface_number : ℕ
    pub max_packet_size : ℕ
    pub ep_out : ℕ
    pub ep_in : ℕ
    pub req_max_size : ℕ
    pub resp_max_size : ℕ

  abbrev pub usb_device : Found → UsbInterface W
  usb_device d = record {
    endian = l.endian;
    libusb = l.transfers d.handle d.ep_out d.ep_in;
    w_max_packet_size = d.max_packet_size;
    req_max_size = d.req_max_size;
    resp_max_size = d.resp_max_size;
  }

  -- The interface before its sizes are known.
  abbrev pub unsized : IfaceDesc → EndpointDesc × EndpointDesc → l.Handle → ℕ → ℕ → Found
  unsized d (out, inn) h req_max resp_max = record {
    handle = h;
    interface_number = d.interface_number;
    max_packet_size = out.max_packet_size;
    ep_out = out.endpoint_address;
    ep_in = inn.endpoint_address;
    req_max_size = req_max;
    resp_max_size = resp_max;
  }

  -- From make_device on; the destructor of USBInterface gives an interface back that is dropped.
  unfoldable pub probe_claimed :
      IfaceDesc → EndpointDesc × EndpointDesc → l.Handle → W → Probe Found × W
  probe_claimed d eps h w =
      let make : ℕ → ℕ → Interface W = λ a b. usb_interface (usb_device (unsized d eps h a b)) in
      let (sizes, w') = connect_usb make (l.reset_device h) w in
      elim sizes [
        | none ↦ (stop, l.close h (l.release_interface h d.interface_number w'))
        | some (a, b) ↦ (found (unsized d eps h a b), w')
      ]

  -- From libusb_get_string_descriptor_ascii on.
  unfoldable pub probe_opened :
      IfaceDesc → EndpointDesc × EndpointDesc → l.Handle → W → Probe Found × W
  probe_opened d eps h w =
      let (str, w1) = l.get_string h d.interface_string w in
      elim str [
        | none ↦ (stop, l.close h w1)
        | some s ↦
            let (claimed, w2) = l.claim_interface h d.interface_number w1 in
            if not (same_bytes s jabi_if_str)
            then (next, l.close h w1)
            else if claimed
            then probe_claimed d eps h w2
            else (next, l.close h w2)
      ]

  -- One turn of the loop over the interfaces.
  unfoldable pub probe_interface : l.UsbDevice → List IfaceDesc → W → Probe Found × W
  probe_interface dev [] w = (next, w)
  probe_interface dev (d ∷ others) w = elim (endpoints_of d) [
    | none ↦ (next, w)
    | some eps ↦
        let (opened, w1) = l.open_device dev w in
        elim opened [ none ↦ (stop, w1) | some h ↦ probe_opened d eps h w1 ]
  ]

  unfoldable pub scan_interfaces :
      l.UsbDevice → List (List IfaceDesc) → List Found → W → List Found × W
  scan_interfaces dev [] jabis w = (jabis, w)
  scan_interfaces dev (i ∷ is) jabis w =
      let (p, w') = probe_interface dev i w in
      elim p [
        | next ↦ scan_interfaces dev is jabis w'
        | stop ↦ (jabis, w')
        | found d ↦ scan_interfaces dev is (jabis ++ d ∷ []) w'
      ]

  unfoldable pub scan_devices : List l.UsbDevice → List Found → W → List Found × W
  scan_devices [] jabis w = (jabis, w)
  scan_devices (dev ∷ devs) jabis w =
      let (cfg, w1) = l.get_active_config dev w in
      elim cfg [
        | none ↦ scan_devices devs jabis w1
        | some interfaces ↦
            let (jabis', w2) = scan_interfaces dev interfaces jabis w1 in
            scan_devices devs jabis' w2
      ]

  unfoldable pub list_devices : Action W (List Found)
  list_devices w =
      let (ready, w1) = l.init w in
      let (list, w2) = l.get_device_list w1 in
      if not ready then raise libusb_init_failed w1 else elim list [
        | none ↦ raise device_list_failed (l.exit w2)
        | some devs ↦ let (jabis, w3) = scan_devices devs [] w2 in (ok jabis, w3)
      ]
