-- ===== src/Can/Fit.antt =====
-- The functions of can.c and their buffers.
use jabi.Prelude.{
  ℕ, sym, ◌+◌, ◌-◌, ◌^◌, ◌%◌, ◌≤◌, ◌≡◌, refl, arith, List, [], ◌∷◌, ◌++◌, length, get_or, take,
  drop, replicate, All, length-append, length-take, length-drop, length-replicate, Option-cases,
  Bool-cases, inl, inr, if◌then◌else◌, ◌==◌,
}
use mathlib.Core.Path.{subst}
use jabi.Bytes.{le_bytes16, le_bytes32}
use jabi.Periph.{Reply, IsFit, no_err}
use jabi.Periph.{FitsHandler, on_device}
use jabi.Periph.Device.{FitsDevice, on_device-Fits}
use jabi.Can.Table.{can_periph_api}
use jabi.Can.Driver.{Frame, CanEnv}
use jabi.Can.State.{Can}
use jabi.Can.Config.{can_set_filter, can_set_rate, can_set_style, can_state}
use jabi.Can.Transfer.{
  frame_of, send_frame, claim_lock, queue_frame, wait_sent, can_write, read_resp, next_frame,
  can_read, bit_of,
}

module _ (e : CanEnv) where
  -- A frame whose length code fits its payload array.
  pub record IsFrame (m : Frame) : Type 0 where
    pub array : length m.bytes ≡ e.max_dlen
    pub sized : e.dlc_to_bytes m.dlc ≤ e.max_dlen

  abbrev pub HasFrames : Can e → Type 0
  HasFrames can = All IsFrame (e.contents can.msgq)

  -- The frame that can_write builds fills its array exactly: the copy of the padded payload stays
  -- inside the request buffer and inside the frame.
  pub frame_of-IsFrame :
      (req : List ℕ)
      → length req ≡ e.req_max
      → get_or req 8 0 ≤ e.max_dlen
      → IsFrame (frame_of e req)
  unfolding frame_of
  frame_of-IsFrame req h fits =
      let n = get_or req 8 0 in
      let size = e.dlc_to_bytes (e.bytes_to_dlc n) in
      let payload = take n (drop 9 req) in
      record {
        array = omega (
          arith,
          length-append (take size (payload ++ replicate (size - n) 0))
              (replicate (e.max_dlen - size) 0),
          length-take size (payload ++ replicate (size - n) 0),
          length-append payload (replicate (size - n) 0),
          length-take n (drop 9 req),
          length-drop 9 req,
          length-replicate {A = ℕ} (size - n) 0,
          length-replicate {A = ℕ} (e.max_dlen - size) 0,
          e.dlc_room n fits,
          e.dlc_size n fits,
          e.max_dlen-le,
          e.req_max-ge,
        );
        sized = e.dlc_size n fits;
      }

  -- Every function but can_read leaves the receive queue alone and answers without data, or with
  -- the three bytes of can_state.
  abbrev Quiet : Can e → Can e × Reply → Type 0
  Quiet can (can', r) = (can'.msgq ≡ can.msgq) × IsFit e.target r

  can_set_filter-Quiet :
      (can : Can e) (req : List ℕ) (req_len : ℕ) → Quiet can (can_set_filter e can req req_len)
  unfolding can_set_filter
  can_set_filter-Quiet can req req_len = ground arith

  can_set_rate-Quiet :
      (can : Can e) (req : List ℕ) (req_len : ℕ) → Quiet can (can_set_rate e can req req_len)
  unfolding can_set_rate
  can_set_rate-Quiet can req req_len = ground arith

  can_set_style-Quiet :
      (can : Can e) (req : List ℕ) (req_len : ℕ) → Quiet can (can_set_style e can req req_len)
  unfolding can_set_style
  can_set_style-Quiet can req req_len = ground arith

  can_state-Quiet :
      (can : Can e) (req : List ℕ) (req_len : ℕ) → Quiet can (can_state e can req req_len)
  unfolding can_state
  can_state-Quiet can req req_len = ground (arith, e.resp_max-ge)

  send_frame-Quiet : (can : Can e) (m : Frame) → Quiet can (send_frame e can m)
  unfolding send_frame wait_sent
  send_frame-Quiet can m = ground arith

  claim_lock-Quiet : (can : Can e) (m : Frame) → Quiet can (claim_lock e can m)
  unfolding claim_lock
  claim_lock-Quiet can m = elim (Option-cases (e.take_now can.tx_lock)) [
    | inl full ↦ rw (full, claim_lock) (refl, omega arith)
    | inr (lock, got) ↦ rw (got, claim_lock) (send_frame-Quiet (record can { tx_lock = lock }) m)
  ]

  queue_frame-Quiet : (can : Can e) (m : Frame) → Quiet can (queue_frame e can m)
  unfolding queue_frame
  queue_frame-Quiet can m = ground (arith, claim_lock-Quiet can m, send_frame-Quiet can m)

  can_write-Quiet :
      (can : Can e) (req : List ℕ) (req_len : ℕ) → Quiet can (can_write e can req req_len)
  unfolding can_write
  can_write-Quiet can req req_len = ground (arith, queue_frame-Quiet can (frame_of e req))

  -- The response to a frame, with its fields in the protocol's byte order.
  pub read_resp-le :
      (left : ℕ) (m : Frame)
      → read_resp e left m ≡ (
          let n = e.dlc_to_bytes m.dlc in
          let header =
            le_bytes16 (left % 2 ^ 16)
            ++ (le_bytes32 (m.id % 2 ^ 32)
                ++ (bit_of e m.ide e.ide_bit
                    ∷ bit_of e m.fdf e.fdf_bit
                    ∷ bit_of e m.brs e.brs_bit
                    ∷ bit_of e m.rtr e.rtr_bit
                    ∷ n
                    ∷ [])) in
          if bit_of e m.rtr e.rtr_bit == 0
          then record { retcode = no_err; resp = header ++ take n m.bytes; resp_len = 11 + n }
          else record { retcode = no_err; resp = header; resp_len = 11 })
  unfolding read_resp
  read_resp-le left m = rw (
    e.store16-cpu_to_le16 (left % 2 ^ 16) (omega arith),
    e.store32-cpu_to_le32 (m.id % 2 ^ 32) (omega arith),
  )

  read_resp-IsFit : (left : ℕ) (m : Frame) → IsFrame m → IsFit e.target (read_resp e left m)
  read_resp-IsFit left m h =
      rw (read_resp-le left m)
        (ground (arith, length-take (e.dlc_to_bytes m.dlc) m.bytes, e.max_dlen-le, e.resp_max-ge))

  next_frame-Fits :
      (can : Can e) (queue : List Frame)
      → e.contents can.msgq ≡ queue
      → All IsFrame queue
      → IsFit e.target (next_frame e can).1 × HasFrames (next_frame e can).0
  unfolding next_frame
  next_frame-Fits can [] eq h = rw (e.get-empty can.msgq eq, next_frame) (omega arith, rw eq tt)
  next_frame-Fits can (m ∷ rest) eq h =
      let (rest', got, left, _) = e.get-cons can.msgq m rest eq in
      rw (got, next_frame) (read_resp-IsFit (e.num_used rest') m h.0, rw left h.1)

  can_read-Fits :
      (can : Can e) (req : List ℕ) (req_len : ℕ)
      → HasFrames can
      → IsFit e.target (can_read e can req req_len).1 × HasFrames (can_read e can req req_len).0
  unfolding can_read
  can_read-Fits can req req_len h = elim (Bool-cases (req_len == 0)) [
    | inl ok ↦ rw (ok, can_read) (next_frame-Fits can _ refl h)
    | inr bad ↦ rw (bad, can_read) (omega arith, h)
  ]

  abbrev pub AllHaveFrames : List (Can e) → Type 0
  AllHaveFrames = All HasFrames

  Quiet-Fits :
      (can : Can e) (out : Can e × Reply)
      → Quiet can out
      → HasFrames can
      → IsFit e.target out.1 × HasFrames out.0
  Quiet-Fits can out quiet h = (quiet.1, subst (λ q. All IsFrame (e.contents q)) (sym quiet.0) h)

  -- Every function of the CAN table answers within the response array and announces only what
  -- it wrote, as long as the frames in the receive queues are sized by their length codes; and
  -- the queues stay so.
  pub can_periph_api-Fits :
      (num : ℕ) → All (FitsHandler e.target AllHaveFrames) (can_periph_api e num).fns
  unfolding can_periph_api
  can_periph_api-Fits num = (
    lift_quiet (can_set_filter e) can_set_filter-Quiet,
    (
      lift_quiet (can_set_rate e) can_set_rate-Quiet,
      (
        lift_quiet (can_set_style e) can_set_style-Quiet,
        (
          lift_quiet (can_state e) can_state-Quiet,
          (
            lift_quiet (can_write e) can_write-Quiet,
            (lift (can_read e) (λ can req n h _ _. can_read-Fits can req n h), tt),
          ),
        ),
      ),
    ),
  )
    where
      lift :
          (f : Can e → List ℕ → ℕ → Can e × Reply)
          → FitsDevice e.target HasFrames f
          → FitsHandler e.target AllHaveFrames (on_device f)
      lift = on_device-Fits e.target HasFrames

      lift_quiet :
          (f : Can e → List ℕ → ℕ → Can e × Reply)
          → ((can : Can e) (req : List ℕ) (n : ℕ) → Quiet can (f can req n))
          → FitsHandler e.target AllHaveFrames (on_device f)
      lift_quiet f quiet =
          lift f (λ can req n h _ _. Quiet-Fits can (f can req n) (quiet can req n) h)
