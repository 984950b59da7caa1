-- ===== src/Lin/Callbacks.antt =====
-- lin_header_cb, lin_tx_cb, lin_rx_cb and lin_init of lin.c, and the device between two calls.
use jabi.Prelude.{
  ℕ, ◌≤◌, ◌<◌, ◌≡◌, ◌≢◌, ◌⊎◌, inl, inr, refl, ◌∙◌, arith, Option, none, false, some, [], ◌∷◌,
  length, ◌==◌, All, All-append, Bool-cases, All-get_elem?, length-replicate, get_elem?, length-set,
  All-set, Option-cases,
}
use jabi.Periph.{no_err}
use mathlib.Core.Path.{subst}
use jabi.Lin.Driver.{Action, Frame, LinEnv, responder}
use jabi.Lin.Device.{Lin, store, lin_header_cb, lin_tx_cb, lin_rx_cb, lin_init}
use jabi.Lin.Sound.{length-deactivate, deactivate-frames, IsFrame, IsTxMsg, IsSound, borrow_token}

module _ (e : LinEnv) where
  -- What k_msgq_put leaves of the frames.
  pub store-frames :
      (q : e.Msgq) (m : Frame)
      → All (IsFrame e) (e.contents q)
      → IsFrame e m
      → All (IsFrame e) (e.contents (store e (e.put q m) q))
        × (e.max_msgs (store e (e.put q m) q) ≡ e.max_msgs q)
  store-frames q m h fits = elim (lt-cases (length (e.contents q)) (e.max_msgs q)) [
    | inl room ↦
        let (q', done, all, same) = e.put-room q m room in
        rw (done, store)
          (rw all (All-append (IsFrame e) (e.contents q) (m ∷ []) h (fits, tt)), same)
    | inr full ↦ rw (e.put-full q m full, store) (h, refl)
  ]
    where
      lt-cases : (a b : ℕ) → (a < b) ⊎ (b ≤ a)
      lt-cases a b = ground arith

  -- The callbacks of a responder.
  pub lin_tx_cb-IsSound :
      (lin : Lin e) (error : ℕ) → IsSound e lin → lin.mode ≢ 0 → IsSound e (lin_tx_cb e lin error)
  unfolding lin_tx_cb
  lin_tx_cb-IsSound lin error h responds =
      let no : (lin.mode == 0) ≡ false = ground arith in rw no h

  pub lin_rx_cb-IsSound :
      (lin : Lin e) (error : ℕ) (m : Frame)
      → IsSound e lin
      → lin.mode ≢ 0
      → IsFrame e m
      → IsSound e (lin_rx_cb e lin error m)
  unfolding lin_rx_cb
  lin_rx_cb-IsSound lin error m h responds fits =
      let no : (lin.mode == 0) ≡ false = ground arith in
      elim (Bool-cases (error == 0)) [
        | inl fine ↦
            let (frames, room) = store-frames lin.rx_msgs m h.rx_frames fits in
            rw (no, fine)
              (record {
                filters_size = h.filters_size;
                tx_size = h.tx_size;
                tx_frames = h.tx_frames;
                rx_frames = frames;
                rx_room = rw room h.rx_room;
                unlocked = h.unlocked;
                no_command = h.no_command;
                known_mode = h.known_mode;
                drained = inl responds;
              })
        | inr failed ↦ rw (no, failed) h
      ]

  -- A header inside the arrays leaves the device in order.
  abbrev Leaves : Option (Lin e × Action × Frame) → Type 0
  Leaves none = Unit {0}
  Leaves (some (lin, act, m)) = IsSound e lin

  -- The header callback borrows the lock, and clears at most the message that it sends.
  header-Leaves : (lin : Lin e) (hdr : Frame) → IsSound e lin → Leaves (lin_header_cb e lin hdr)
  unfolding lin_header_cb
  header-Leaves lin hdr h =
      let (lock, got, held) = borrow_token e lin.msg_lock h.unlocked in
      elim (Option-cases (get_elem? lin.tx_msgs hdr.id)) [
        | inl outside ↦ rw (got, lin_header_cb, outside) tt
        | inr (tx, found) ↦
            let frame : IsFrame e tx.msg =
              All-get_elem? (IsTxMsg e) lin.tx_msgs hdr.id h.tx_frames found in
            elim (Bool-cases tx.active) [
              | inl on ↦
                  rw (got, lin_header_cb, found, on)
                    (record {
                      filters_size = h.filters_size;
                      tx_size = length-set lin.tx_msgs hdr.id _ ∙ h.tx_size;
                      tx_frames = All-set (IsTxMsg e) lin.tx_msgs hdr.id _ h.tx_frames frame;
                      rx_frames = h.rx_frames;
                      rx_room = h.rx_room;
                      unlocked = held;
                      no_command = h.no_command;
                      known_mode = h.known_mode;
                      drained = h.drained;
                    })
              | inr off ↦ elim (Option-cases (get_elem? lin.filters hdr.id)) [
                | inl outside ↦ rw (got, lin_header_cb, found, off, outside) tt
                | inr (f, filter) ↦
                    rw (got, lin_header_cb, found, off, filter)
                      (record {
                        filters_size = h.filters_size;
                        tx_size = h.tx_size;
                        tx_frames = h.tx_frames;
                        rx_frames = h.rx_frames;
                        rx_room = h.rx_room;
                        unlocked = held;
                        no_command = h.no_command;
                        known_mode = h.known_mode;
                        drained = h.drained;
                      })
              ]
            ]
      ]

  pub lin_header_cb-IsSound :
      (lin lin' : Lin e) (hdr m : Frame) (act : Action)
      → IsSound e lin
      → lin_header_cb e lin hdr ≡ some (lin', act, m)
      → IsSound e lin'
  lin_header_cb-IsSound lin lin' hdr m act h ran = subst Leaves ran (header-Leaves lin hdr h)

  -- A device as the build sets it up, with an entry for every id in the message table.
  pub record IsBuilt (lin : Lin e) : Type 0 where
    pub tx_size : length lin.tx_msgs ≡ e.num_id
    pub tx_frames : All (IsTxMsg e) lin.tx_msgs
    pub rx_frames : All (IsFrame e) (e.contents lin.rx_msgs)
    pub rx_room : 0 < e.max_msgs lin.rx_msgs

  pub lin_init-IsSound :
      (lin : Lin e) → IsBuilt lin → (lin_init e lin).1 ≡ no_err → IsSound e (lin_init e lin).0
  unfolding lin_init
  lin_init-IsSound lin h fine = elim (Bool-cases (e.set_mode lin.ctl responder).0) [
    | inr bad ↦ absurd (ground arith)
    | inl mode_ok ↦ elim (Bool-cases (e.set_callbacks (e.set_mode lin.ctl responder).1).0) [
      | inr bad ↦ absurd (ground arith)
      | inl set_ok ↦
          rw (mode_ok, set_ok)
            (record {
              filters_size = length-replicate e.num_id _;
              tx_size = length-deactivate lin.tx_msgs ∙ h.tx_size;
              tx_frames = deactivate-frames e lin.tx_msgs h.tx_frames;
              rx_frames = h.rx_frames;
              rx_room = h.rx_room;
              unlocked = record { tokens = e.count-init 1 1; room = e.limit-init 1 1 };
              no_command = record { tokens = e.count-init 0 1; room = e.limit-init 0 1 };
              known_mode = inr e.mode_responder-one;
              drained = inl (omega (arith, e.mode_responder-one));
            })
    ]
  ]
