-- ===== src/Client/Search/Scan.antt =====
-- Running past the devices and interfaces that are not JABI's (list_devices' two loops).
use jabi.Prelude.{
  ℕ, ◌%◌, ◌≤◌, ◌<◌, ◌≡◌, ◌≢◌, refl, ap, ◌∙◌, arith, true, false, Option, none, some, List, [], ◌∷◌,
  ◌++◌, leb, ◌==◌, All,
}
use jabi.Usb.Descriptors.{IfaceDesc, usb_if_desc}
use jabi.Client.Search.{
  UsbHost, endpoints_of, Probe, next, stop, found, Found, probe_interface, scan_interfaces,
  scan_devices,
}

-- The firmware's descriptor passes the client's checks.
pub endpoints_of-usb_if_desc :
    (number str_idx ep_out ep_in mps : ℕ)
    → str_idx ≢ 0
    → ep_out < 0x80
    → 0x80 ≤ ep_in
    → ep_in < 256
    → endpoints_of (usb_if_desc number str_idx ep_out ep_in mps)
      ≡ some (
        record { endpoint_address = ep_out; attributes = 2; max_packet_size = mps },
        record { endpoint_address = ep_in; attributes = 2; max_packet_size = mps },
      )
unfolding endpoints_of usb_if_desc
endpoints_of-usb_if_desc number str_idx ep_out ep_in mps named low high byte =
    let there : (str_idx == 0) ≡ false = ground (arith, named) in
    let out : leb 0x80 (ep_out % 256) ≡ false = ground (arith, low) in
    let inn : leb 0x80 (ep_in % 256) ≡ true = ground (arith, high, byte) in
    rw (there, out, inn) refl

-- An interface that is not JABI's.
abbrev pub IsOther : List IfaceDesc → Type 0
IsOther [] = Unit {0}
IsOther (d ∷ alts) = endpoints_of d ≡ none

module _ {W : Type 0} (l : UsbHost W) where
  -- A device without an interface of JABI's.
  pub record HasOthers (dev : l.UsbDevice) : Type 0 where
    pub interfaces : List (List IfaceDesc)
    pub config : (w : W) → l.get_active_config dev w ≡ (some interfaces, w)
    pub others : All IsOther interfaces

  probe_interface-next :
      (dev : l.UsbDevice) (i : List IfaceDesc) (w : W)
      → IsOther i
      → probe_interface l dev i w ≡ (next, w)
  unfolding probe_interface
  probe_interface-next dev [] w h = refl
  probe_interface-next dev (d ∷ alts) w h = rw (h, probe_interface) refl

  scan_interfaces-probe :
      (dev : l.UsbDevice) (i : List IfaceDesc) (is : List (List IfaceDesc)) (jabis : List (Found l))
      (w : W) (p : Probe (Found l) × W)
      → probe_interface l dev i w ≡ p
      → let out : List (Found l) × W = elim p.0 [
        | next ↦ scan_interfaces l dev is jabis p.1
        | stop ↦ (jabis, p.1)
        | found d ↦ scan_interfaces l dev is (jabis ++ d ∷ []) p.1
      ] in
        scan_interfaces l dev (i ∷ is) jabis w ≡ out
  unfolding scan_interfaces
  scan_interfaces-probe dev i is jabis w p probed =
      ap
        (λ (q : Probe (Found l) × W).
          let out : List (Found l) × W = elim q.0 [
            | next ↦ scan_interfaces l dev is jabis q.1
            | stop ↦ (jabis, q.1)
            | found d ↦ scan_interfaces l dev is (jabis ++ d ∷ []) q.1
          ] in
          out)
        probed

  skip_interfaces :
      (dev : l.UsbDevice) (others is : List (List IfaceDesc)) (jabis : List (Found l)) (w : W)
      → All IsOther others
      → scan_interfaces l dev (others ++ is) jabis w ≡ scan_interfaces l dev is jabis w
  unfolding scan_interfaces
  skip_interfaces dev [] is jabis w h = refl
  skip_interfaces dev (i ∷ others) is jabis w h =
      scan_interfaces-probe dev i (others ++ is) jabis w (next, w)
        (probe_interface-next dev i w h.0)
      ∙ skip_interfaces dev others is jabis w h.1

  no_jabi_interfaces :
      (dev : l.UsbDevice) (others : List (List IfaceDesc)) (jabis : List (Found l)) (w : W)
      → All IsOther others
      → scan_interfaces l dev others jabis w ≡ (jabis, w)
  unfolding scan_interfaces
  no_jabi_interfaces dev [] jabis w h = refl
  no_jabi_interfaces dev (i ∷ others) jabis w h =
      scan_interfaces-probe dev i others jabis w (next, w) (probe_interface-next dev i w h.0)
      ∙ no_jabi_interfaces dev others jabis w h.1

  -- A device and what its interfaces bring.
  pub scan_devices-step :
      (dev : l.UsbDevice) (devs : List l.UsbDevice) (is : List (List IfaceDesc))
      (jabis jabis' : List (Found l)) (w w1 w2 : W)
      → l.get_active_config dev w ≡ (some is, w1)
      → scan_interfaces l dev is jabis w1 ≡ (jabis', w2)
      → scan_devices l (dev ∷ devs) jabis w ≡ scan_devices l devs jabis' w2
  unfolding scan_devices
  scan_devices-step dev devs is jabis jabis' w w1 w2 config scanned =
      ap
        (λ (p : Option (List (List IfaceDesc)) × W).
          let out : List (Found l) × W = elim p.0 [
            | none ↦ scan_devices l devs jabis p.1
            | some interfaces ↦
                let (js, v) = scan_interfaces l dev interfaces jabis p.1 in scan_devices l devs js v
          ] in
          out)
        config
      ∙ ap (λ (p : List (Found l) × W). scan_devices l devs p.0 p.1) scanned

  pub skip_devices :
      (others devs : List l.UsbDevice) (jabis : List (Found l)) (w : W)
      → All HasOthers others
      → scan_devices l (others ++ devs) jabis w ≡ scan_devices l devs jabis w
  skip_devices [] devs jabis w h = refl
  skip_devices (dev ∷ others) devs jabis w h =
      scan_devices-step dev (others ++ devs) h.0.interfaces jabis jabis w w w (h.0.config w)
        (no_jabi_interfaces dev h.0.interfaces jabis w h.0.others)
      ∙ skip_devices others devs jabis w h.1

  pub no_jabi_devices :
      (others : List l.UsbDevice) (jabis : List (Found l)) (w : W)
      → All HasOthers others
      → scan_devices l others jabis w ≡ (jabis, w)
  unfolding scan_devices
  no_jabi_devices [] jabis w h = refl
  no_jabi_devices (dev ∷ others) jabis w h =
      scan_devices-step dev others h.0.interfaces jabis jabis w w w (h.0.config w)
        (no_jabi_interfaces dev h.0.interfaces jabis w h.0.others)
      ∙ no_jabi_devices others jabis w h.1

  -- An interface of the device is found.
  pub scan_interfaces-found :
      (dev : l.UsbDevice) (before after : List (List IfaceDesc)) (i : List IfaceDesc) (d : Found l)
      (w w' : W)
      → All IsOther before
      → All IsOther after
      → probe_interface l dev i w ≡ (found d, w')
      → scan_interfaces l dev (before ++ (i ∷ after)) [] w ≡ (d ∷ [], w')
  scan_interfaces-found dev before after i d w w' others more probed =
      skip_interfaces dev before (i ∷ after) [] w others
      ∙ scan_interfaces-probe dev i after [] w (found d, w') probed
      ∙ no_jabi_interfaces dev after (d ∷ []) w' more
