-- ===== src/Tests/UsbBus.antt =====
-- A host whose USB has a keyboard, that board and a device without interfaces.
use jabi.Prelude.{ℕ, zero, suc, ◌≡◌, refl, arith, true, Option, some, List, [], ◌∷◌}
use jabi.Usb.Descriptors.{IfaceDesc, jabi_if_str, usb_if_desc}
use jabi.Board.{Devices, peripherals}
use jabi.Board.Fit.{AreSound}
use jabi.Client.{little}
use jabi.Client.Interface.{ok}
use jabi.Client.Link.{Firmware, usb_link, IsReady}
use jabi.Client.Search.{UsbHost, endpoints_of, list_devices}
use jabi.Client.Search.Attached.{Attached, the_board, list_devices-board}
use jabi.Client.Search.Sizes.{AllHaveSizes, list_devices-AllHaveSizes}
use jabi.Tests.{small}
use jabi.Tests.Host.{connected, connected-IsReady}
use jabi.Tests.WholeBoard.{board, board-IsBoard}

abbrev keyboard : List IfaceDesc
keyboard =
    record {
      interface_number = 0;
      alternate_setting = 0;
      num_endpoints = 1;
      interface_class = 3;
      interface_string = 0;
      endpoints = record { endpoint_address = 0x81; attributes = 3; max_packet_size = 8 } ∷ [];
    }
    ∷ []

-- The board has a console before its JABI interface, and an interface without settings after it.
abbrev config : ℕ → Option (List (List IfaceDesc))
config zero = some (keyboard ∷ [])
config (suc zero) = some (keyboard ∷ (usb_if_desc 1 4 0x02 0x82 64 ∷ []) ∷ [] ∷ [])
config _ = some []

abbrev bus : UsbHost (Firmware (Devices board))
bus = record {
  UsbDevice = ℕ;
  Handle = ℕ;
  endian = little;
  init = λ w. (true, w);
  exit = λ w. w;
  get_device_list = λ w. (some (0 ∷ 1 ∷ 2 ∷ []), w);
  get_active_config = λ d w. (config d, w);
  open_device = λ d w. (some d, w);
  get_string = λ h i w. (some jabi_if_str, w);
  claim_interface = λ h n w. (true, w);
  release_interface = λ h n w. w;
  reset_device = λ h w. (true, w);
  close = λ h w. w;
  transfers = λ h out inn. usb_link small (peripherals board) true 64;
}

bus-Attached : Attached board bus
unfolding endpoints_of
bus-Attached = record {
  dev = 1;
  devs_before = 0 ∷ [];
  devs_after = 2 ∷ [];
  others_before =
      (record { interfaces = keyboard ∷ []; config = λ w. refl; others = (refl, tt) }, tt);
  others_after = (record { interfaces = []; config = λ w. refl; others = tt }, tt);
  inited = λ w. refl;
  listed = λ w. refl;
  number = 1;
  str_idx = 4;
  ep_out = 0x02;
  ep_in = 0x82;
  mps = 64;
  named = omega arith;
  is_out = omega arith;
  is_inn = omega arith;
  in_byte = omega arith;
  positive = omega arith;
  before = keyboard ∷ [];
  after = [] ∷ [];
  others = (refl, tt);
  more = (tt, tt);
  config = λ w. refl;
  handle = 1;
  opens = λ w. refl;
  string = λ w. refl;
  claims = λ w. refl;
  transfers = refl;
}

list_devices-board_example :
    let out = list_devices bus connected in
    (out.0 ≡ ok (the_board board board-IsBoard (λ n. refl) bus bus-Attached ∷ []))
    × (out.1.state ≡ connected.state)
    × IsReady small (AreSound board) out.1
list_devices-board_example =
    list_devices-board board board-IsBoard (λ n. refl) bus bus-Attached connected connected-IsReady

list_devices-AllHaveSizes_example : AllHaveSizes bus (list_devices bus connected).0
list_devices-AllHaveSizes_example = list_devices-AllHaveSizes bus connected
