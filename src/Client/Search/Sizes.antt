-- ===== src/Client/Search/Sizes.antt =====
-- The sizes that a listed device has agreed to.
use jabi.Prelude.{
  ℕ, ◌≤◌, arith, Bool, true, false, Option, none, some, List, [], ◌∷◌, ◌++◌, ltb, if◌then◌else◌,
  All, All-append, Bool-cases, Option-cases, inl, inr,
}
use jabi.Usb.Descriptors.{IfaceDesc, EndpointDesc, jabi_if_str}
use jabi.Client.Interface.{Failure, Result, ok, throw, Interface}
use jabi.Client.Metadata.{req_max_size, resp_max_size}
use jabi.Client.Usb.{usb_interface}
use jabi.Client.Connect.{
  payload_max_size, Sizes, after_call, attempt, attempt_resp, retry, connect_usb,
}
use jabi.Client.Search.{
  UsbHost, same_bytes, endpoints_of, Probe, next, stop, found, Found, usb_device, unsized,
  probe_claimed, probe_opened, probe_interface, scan_interfaces, scan_devices, list_devices,
}

-- At least the safe minimum.
abbrev pub AreSizes : Sizes → Type 0
AreSizes (a, b) = (payload_max_size ≤ a) × (payload_max_size ≤ b)

abbrev Tried : {W : Type 0} → Result (Unit {0}) × Sizes × W → Type 0
Tried (ok _, sizes, w) = AreSizes sizes
Tried (throw f, sizes, w) = Unit {0}

abbrev Agreed : {W : Type 0} → Option Sizes × W → Type 0
Agreed (none, w) = Unit {0}
Agreed (some sizes, w) = AreSizes sizes

after_call_lem :
    {W A R : Type 0} (P : R → Type 0) (x : Result A × W) (returned : A → W → R)
    (threw : Failure → W → R)
    → ((a : A) (w : W) → P (returned a w))
    → ((f : Failure) (w : W) → P (threw f w))
    → P (after_call x returned threw)
after_call_lem P (ok a, w) returned threw h k = h a w
after_call_lem P (throw f, w) returned threw h k = k f w

module _ {W : Type 0} (make : ℕ → ℕ → Interface W) where
  attempt_resp-Tried : (a b : ℕ) (w : W) → payload_max_size ≤ a → Tried (attempt_resp make (a, b) w)
  attempt_resp-Tried a b w enough =
      after_call_lem Tried (resp_max_size (make a b) w) _ _
        (λ b' w'. elim (Bool-cases (ltb b' payload_max_size)) [
          | inl small ↦ rw small tt
          | inr fits ↦ rw fits (enough, ground (arith, fits))
        ])
        (λ f w'. tt)

  attempt-Tried : (sizes : Sizes) (w : W) → Tried (attempt make sizes w)
  unfolding attempt
  attempt-Tried (a, b) w =
      after_call_lem Tried (req_max_size (make a b) w) _ _
        (λ a' w'. elim (Bool-cases (ltb a' payload_max_size)) [
          | inl small ↦ rw small tt
          | inr fits ↦ rw fits (attempt_resp-Tried a' b w' (ground (arith, fits)))
        ])
        (λ f w'. tt)

  again-Agreed :
      (w : W) (done : Bool) (x : Result (Unit {0}) × Sizes × W)
      → Tried x
      → Agreed (if done then (elim x.0 [ ok _ ↦ some x.1 | throw _ ↦ none ], x.2) else (none, w))
  again-Agreed w false x h = tt
  again-Agreed w true (ok _, sizes, w') h = h
  again-Agreed w true (throw _, sizes, w') h = tt

  retry-Agreed :
      (reset : W → Bool × W) (x : Result (Unit {0}) × Sizes × W)
      → Tried x
      → Agreed (retry make reset x)
  unfolding retry
  retry-Agreed reset (ok _, sizes, w) h = h
  retry-Agreed reset (throw _, sizes, w) h =
      again-Agreed (reset w).1 (reset w).0 (attempt make sizes (reset w).1)
        (attempt-Tried sizes (reset w).1)

  connect_usb-Agreed : (reset : W → Bool × W) (w : W) → Agreed (connect_usb make reset w)
  unfolding connect_usb
  connect_usb-Agreed reset w =
      retry-Agreed reset (attempt make (payload_max_size, payload_max_size) w)
        (attempt-Tried (payload_max_size, payload_max_size) w)

module _ {W : Type 0} (l : UsbHost W) where
  abbrev pub HasSizes : Found l → Type 0
  HasSizes d = AreSizes (d.req_max_size, d.resp_max_size)

  abbrev Probed : Probe (Found l) × W → Type 0
  Probed (found d, w) = HasSizes d
  Probed (next, w) = Unit {0}
  Probed (stop, w) = Unit {0}

  claimed-Probed :
      (d : IfaceDesc) (eps : EndpointDesc × EndpointDesc) (h : l.Handle) (drop : W → W)
      (x : Option Sizes × W)
      → Agreed x
      → Probed (elim x.0 [
        | none ↦ (stop, drop x.1)
        | some (a, b) ↦ (found (unsized l d eps h a b), x.1)
      ])
  claimed-Probed d eps h drop (none, w) agreed = tt
  claimed-Probed d eps h drop (some (a, b), w) agreed = agreed

  probe_claimed-Probed :
      (d : IfaceDesc) (eps : EndpointDesc × EndpointDesc) (h : l.Handle) (w : W)
      → Probed (probe_claimed l d eps h w)
  unfolding probe_claimed
  probe_claimed-Probed d eps h w =
      let make : ℕ → ℕ → Interface W =
        λ a b. usb_interface (usb_device l (unsized l d eps h a b)) in
      claimed-Probed d eps h (λ w'. l.close h (l.release_interface h d.interface_number w'))
        (connect_usb make (l.reset_device h) w) (connect_usb-Agreed make (l.reset_device h) w)

  probe_opened-Probed :
      (d : IfaceDesc) (eps : EndpointDesc × EndpointDesc) (h : l.Handle) (w : W)
      → Probed (probe_opened l d eps h w)
  unfolding probe_opened
  probe_opened-Probed d eps h w = elim (Option-cases (l.get_string h d.interface_string w).0) [
    | inl failed ↦ rw (failed, probe_opened) tt
    | inr (s, got) ↦
        let w1 = (l.get_string h d.interface_string w).1 in
        elim (Bool-cases (same_bytes s jabi_if_str)) [
          | inr other ↦ rw (got, probe_opened, other) tt
          | inl named ↦ elim (Bool-cases (l.claim_interface h d.interface_number w1).0) [
            | inr busy ↦ rw (got, probe_opened, named, busy) tt
            | inl claimed ↦ rw (got, probe_opened, named, claimed) (probe_claimed-Probed d eps h _)
          ]
        ]
  ]

  probe_interface-Probed :
      (dev : l.UsbDevice) (i : List IfaceDesc) (w : W) → Probed (probe_interface l dev i w)
  unfolding probe_interface
  probe_interface-Probed dev [] w = tt
  probe_interface-Probed dev (d ∷ others) w = elim (Option-cases (endpoints_of d)) [
    | inl none_there ↦ rw (none_there, probe_interface) tt
    | inr (eps, there) ↦ elim (Option-cases (l.open_device dev w).0) [
      | inl refused ↦ rw (there, probe_interface, refused) tt
      | inr (h, opened) ↦ rw (there, probe_interface, opened) (probe_opened-Probed d eps h _)
    ]
  ]

  after_probe :
      (jabis : List (Found l)) (p : Probe (Found l) × W)
      (more : List (Found l) → W → List (Found l) × W)
      → All HasSizes jabis
      → Probed p
      → ((js : List (Found l)) (w : W) → All HasSizes js → All HasSizes (more js w).0)
      → let out : List (Found l) × W = elim p.0 [
        | next ↦ more jabis p.1
        | stop ↦ (jabis, p.1)
        | found d ↦ more (jabis ++ d ∷ []) p.1
      ] in
        All HasSizes out.0
  after_probe jabis (next, w) more h k m = m jabis w h
  after_probe jabis (stop, w) more h k m = h
  after_probe jabis (found d, w) more h k m =
      m (jabis ++ d ∷ []) w (All-append HasSizes jabis (d ∷ []) h (k, tt))

  scan_interfaces-HasSizes :
      (dev : l.UsbDevice) (is : List (List IfaceDesc)) (jabis : List (Found l)) (w : W)
      → All HasSizes jabis
      → All HasSizes (scan_interfaces l dev is jabis w).0
  unfolding scan_interfaces
  scan_interfaces-HasSizes dev [] jabis w h = h
  scan_interfaces-HasSizes dev (i ∷ is) jabis w h =
      after_probe jabis (probe_interface l dev i w) (scan_interfaces l dev is) h
        (probe_interface-Probed dev i w) (scan_interfaces-HasSizes dev is)

  scan_devices-HasSizes :
      (devs : List l.UsbDevice) (jabis : List (Found l)) (w : W)
      → All HasSizes jabis
      → All HasSizes (scan_devices l devs jabis w).0
  unfolding scan_devices
  scan_devices-HasSizes [] jabis w h = h
  scan_devices-HasSizes (dev ∷ devs) jabis w h = elim (Option-cases (l.get_active_config dev w).0) [
    | inl none_there ↦ rw (none_there, scan_devices) (scan_devices-HasSizes devs jabis _ h)
    | inr (interfaces, there) ↦
        rw (there, scan_devices)
          (scan_devices-HasSizes devs _ _ (scan_interfaces-HasSizes dev interfaces jabis _ h))
  ]

  abbrev pub AllHaveSizes : Result (List (Found l)) → Type 0
  AllHaveSizes (ok jabis) = All HasSizes jabis
  AllHaveSizes (throw f) = Unit {0}

  -- Whatever libusb and the devices on the bus answer, every device that list_devices returns
  -- takes requests and responses of at least the sizes that include/jabi/interfaces.h
  -- guarantees to a client.
  pub list_devices-AllHaveSizes : (w : W) → AllHaveSizes (list_devices l w).0
  unfolding list_devices
  list_devices-AllHaveSizes w = elim (Bool-cases (l.init w).0) [
    | inr failed ↦ rw (failed, list_devices) tt
    | inl ready ↦ elim (Option-cases (l.get_device_list (l.init w).1).0) [
      | inl none_there ↦ rw (ready, list_devices, none_there) tt
      | inr (devs, there) ↦ rw (ready, list_devices, there) (scan_devices-HasSizes devs [] _ tt)
    ]
  ]
