-- ===== src/Periph/Device.antt =====
-- A function of one device fits over the array of devices, if it fits over each device.
use jabi.Prelude.{
  ℕ, ◌≤◌, ◌≡◌, arith, List, length, get_elem?, All, All-get_elem?, All-set, Option-cases, inl, inr,
}
use jabi.Packet.{Target}
use jabi.Periph.{Reply, IsFit, FitsHandler, on_device}

module _ (t : Target) {D : Type 0} (P : D → Type 0) (f : D → List ℕ → ℕ → D × Reply) where
  -- The same for one device.
  abbrev pub FitsDevice : Type 0
  FitsDevice =
      (d : D) (req : List ℕ) (req_len : ℕ)
      → P d
      → length req ≡ t.req_max
      → req_len ≤ t.req_max
      → IsFit t (f d req req_len).1 × P (f d req req_len).0

  pub on_device-Fits : FitsDevice → FitsHandler t (All P) (on_device f)
  on_device-Fits fits devs idx req req_len h len small = elim (Option-cases (get_elem? devs idx)) [
    | inl e ↦ rw (e, on_device) (omega arith, h)
    | inr (d, e) ↦
        let both = fits d req req_len (All-get_elem? P devs idx h e) len small in
        rw (e, on_device) (both.0, All-set P devs idx (f d req req_len).0 h both.1)
  ]
