-- ===== src/Usb/Descriptors.antt =====
-- firmware/src/interfaces/usb.c: the interface's descriptors and its control requests.
use jabi.Prelude.{ℕ, ◌/◌, ◌%◌, Bool, ◌&&◌, List, [], ◌∷◌, ◌++◌, ◌==◌, if◌then◌else◌, replicate}

-- A USB endpoint descriptor and an interface descriptor with its endpoints; wMaxPacketSize is the
-- number that the descriptor holds in little-endian order.
pub record EndpointDesc : Type 0 where
  pub endpoint_address : ℕ
  pub attributes : ℕ
  pub max_packet_size : ℕ

pub record IfaceDesc : Type 0 where
  pub interface_number : ℕ
  pub alternate_setting : ℕ
  pub num_endpoints : ℕ
  pub interface_class : ℕ
  pub interface_string : ℕ
  pub endpoints : List EndpointDesc

-- JABI_IF_STR, in ASCII
abbrev pub jabi_if_str : List ℕ
jabi_if_str = 74 ∷ 65 ∷ 66 ∷ 73 ∷ 32 ∷ 85 ∷ 83 ∷ 66 ∷ []

abbrev pub jabi_vendor_code : ℕ
jabi_vendor_code = 0x69

-- usb_if_desc after usb_jabi_interface_config. Zephyr gives the interface its number, the string
-- its index and the endpoints their addresses; `mps` is CONFIG_JABI_USB_MPS.
unfoldable pub usb_if_desc : ℕ → ℕ → ℕ → ℕ → ℕ → IfaceDesc
usb_if_desc number str_idx ep_out ep_in mps = record {
  interface_number = number;
  alternate_setting = 0;
  num_endpoints = 2;
  interface_class = 0xff;
  interface_string = str_idx;
  endpoints =
      record { endpoint_address = ep_out; attributes = 2; max_packet_size = mps }
      ∷ record { endpoint_address = ep_in; attributes = 2; max_packet_size = mps }
      ∷ [];
}

-- struct usb_setup_packet; `to_device` is usb_reqtype_is_to_device.
pub record SetupPacket : Type 0 where
  pub to_device : Bool
  pub request : ℕ
  pub value : ℕ
  pub index : ℕ

-- What a handler of control requests comes to: the bytes of its answer, -ENOTSUP or -EINVAL.
pub data Handled : Type 0 where
  answer : List ℕ → Handled
  enotsup einval : Handled

abbrev pub msos1_str_desc : List ℕ
msos1_str_desc =
    0x12 ∷ 0x03 ∷ 0x4d ∷ 0 ∷ 0x53 ∷ 0 ∷ 0x46 ∷ 0 ∷ 0x54 ∷ 0 ∷ 0x31 ∷ 0 ∷ 0x30 ∷ 0 ∷ 0x30 ∷ 0
    ∷ jabi_vendor_code ∷ 0 ∷ []

-- `number` is usb_if_desc.if0.bInterfaceNumber.
abbrev pub msos1_compatid_desc : ℕ → List ℕ
msos1_compatid_desc number =
    (0x28 ∷ 0 ∷ 0 ∷ 0 ∷ 0 ∷ 1 ∷ 4 ∷ 0 ∷ 1 ∷ 0 ∷ 0 ∷ 0 ∷ 0 ∷ 0 ∷ 0 ∷ 0 ∷ [])
    ++ (number ∷ 1 ∷ 87 ∷ 73 ∷ 78 ∷ 85 ∷ 83 ∷ 66 ∷ 0 ∷ 0 ∷ [])
    ++ replicate 14 0

-- The type of a descriptor is the high byte of wValue, its index the low one.
unfoldable pub custom_handler : SetupPacket → Handled
custom_handler setup =
    if setup.to_device
    then enotsup
    else if setup.value / 256 == 3 && setup.value % 256 == 0xee
    then answer msos1_str_desc
    else einval

unfoldable pub vendor_handler : ℕ → SetupPacket → Handled
vendor_handler number setup =
    if setup.to_device
    then enotsup
    else if setup.request == jabi_vendor_code && setup.index == 4
    then answer (msos1_compatid_desc number)
    else einval
