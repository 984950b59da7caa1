-- ===== src/Lin/Bus.antt =====
-- What lin_write and lin_read of lin.c do on the bus.
use jabi.Prelude.{
  ℕ, ◌+◌, ◌-◌, ◌≤◌, ◌<◌, ◌≡◌, ◌≢◌, refl, ap, ◌∙◌, arith, true, false, some, List, [], ◌∷◌, ◌++◌,
  length, get_elem?, set, replicate, ◌==◌, ltb, leb, ◌||◌, get_elem?-set_self, get_elem?-some-lt,
  take-append_self, get_elem?-lt-some,
}
use jabi.Periph.{done}
use jabi.Lin.Driver.{Checksum, send, receive, Frame, LinEnv}
use jabi.Lin.Device.{Filter, TxMsg, Lin, filtered, lin_header_cb}
use jabi.Lin.Transfer.{
  frame_type_of, write_frame, store_response, lin_write, read_resp, poll_frame, lin_read,
}
use jabi.Lin.Sound.{IsSound, borrow_token}
use jabi.Lin.Callbacks.{lin_header_cb-IsSound}
use jabi.Lin.Written.{lin_write-Fine}
use jabi.Lin.Received.{await_frame-received}

-- The request of lin_write, as lin.h lays it out, and the frame that it stands for.
abbrev pub encode_write : ℕ → ℕ → List ℕ → List ℕ
encode_write id type payload = id ∷ type ∷ payload

abbrev pub padded_frame : LinEnv → ℕ → Checksum → List ℕ → Frame
padded_frame e id type payload = record {
  id = id;
  len = length payload;
  type = type;
  bytes = payload ++ replicate (e.max_dlen - length payload) 0;
}

module _ (e : LinEnv) where
  -- If a commander in order asks for a valid id, and the driver accepts the command and ends it
  -- without error, then lin_read answers the frame of this command and leaves the queue empty.
  pub lin_read_own_frame :
      (lin : Lin e) (id : ℕ) (rest : List ℕ) (f : Filter)
      → IsSound e lin
      → lin.mode ≡ 0
      → id < e.num_id
      → get_elem? lin.filters id ≡ some f
      → (e.lin_receive lin.ctl id f.type f.len).0 ≡ true
      → ((e.rx_result (e.lin_receive lin.ctl id f.type f.len).1).0 == 0) ≡ true
      → ((lin_read e lin (id ∷ rest) 1).1
          ≡ read_resp e 0 (e.rx_result (e.lin_receive lin.ctl id f.type f.len).1).1)
        × (e.contents (lin_read e lin (id ∷ rest) 1).0.rx_msgs ≡ [])
  unfolding lin_read poll_frame
  lin_read_own_frame lin id rest f h commands small found accepted fine =
      let ctl = (e.lin_receive lin.ctl id f.type f.len).1 in
      let is : (lin.mode == 0) ≡ true = ground arith in
      let known : leb e.num_id id ≡ false = ground arith in
      let heard = await_frame-received e (record lin { ctl = ctl }) h commands fine in
      rw (is, lin_read, known, found, accepted) (rw heard.ends (refl, heard.empty))

  -- What the next header with the id of `tx` does.
  header_active :
      (lin : Lin e) (hdr : Frame) (tx : TxMsg)
      → IsSound e lin
      → get_elem? lin.tx_msgs hdr.id ≡ some tx
      → tx.active ≡ true
      → (lin' : Lin e) × (lin_header_cb e lin hdr ≡ some (lin', send, tx.msg))
        × (lin'.tx_msgs ≡ set lin.tx_msgs hdr.id (record tx { active = false }))
  unfolding lin_header_cb
  header_active lin hdr tx h found on =
      let (lock, got, held) = borrow_token e lin.msg_lock h.unlocked in
      let sent : Lin e = record lin {
        msg_lock = e.give lock;
        status_id = hdr.id;
        status_retcode = 0;
        tx_msgs = set lin.tx_msgs hdr.id (record tx { active = false });
      } in
      (sent, rw (got, lin_header_cb, found, on) refl, refl)

  header_inactive :
      (lin : Lin e) (hdr : Frame) (tx : TxMsg)
      → IsSound e lin
      → get_elem? lin.tx_msgs hdr.id ≡ some tx
      → tx.active ≡ false
      → (lin' : Lin e) × (m : Frame) × (lin_header_cb e lin hdr ≡ some (lin', receive, m))
  unfolding lin_header_cb
  header_inactive lin hdr tx h found off =
      let (lock, got, held) = borrow_token e lin.msg_lock h.unlocked in
      let small = get_elem?-some-lt lin.tx_msgs hdr.id {a = tx} found in
      let (f, filter) =
        get_elem?-lt-some lin.filters hdr.id (omega (arith, small, h.tx_size, h.filters_size)) in
      let heard : Lin e = record lin {
        msg_lock = e.give lock;
        status_id = hdr.id;
        status_retcode = 0;
      } in
      (heard, filtered e f hdr, rw (got, lin_header_cb, found, off, filter) refl)

  store_response-entry :
      (lin : Lin e) (m : Frame)
      → IsSound e lin
      → m.id < e.num_id
      → ((store_response e lin m).1 ≡ done)
        × (get_elem? (store_response e lin m).0.tx_msgs m.id
            ≡ some (record { active = true; msg = m }))
  unfolding store_response
  store_response-entry lin m h small =
      let (lock, got, held) = borrow_token e lin.msg_lock h.unlocked in
      rw (got, store_response)
        (refl, get_elem?-set_self lin.tx_msgs m.id _ (omega (arith, h.tx_size)))

  lin_write-store :
      (lin : Lin e) (id c : ℕ) (type : Checksum) (payload rest : List ℕ)
      → lin.mode ≢ 0
      → id < e.num_id
      → frame_type_of c ≡ some type
      → 0 < length payload
      → length payload ≤ e.max_dlen
      → lin_write e lin (encode_write id c (payload ++ rest)) (2 + length payload)
        ≡ store_response e lin (padded_frame e id type payload)
  unfolding lin_write write_frame
  lin_write-store lin id c type payload rest responds small known some_data fits =
      let n = length payload in
      let long : (leb (2 + n) 2 || ltb (2 + e.max_dlen) (2 + n)) ≡ false = ground arith in
      let valid : leb e.num_id id ≡ false = ground arith in
      let responder : (lin.mode == 0) ≡ false = ground arith in
      let size : 2 + n - 2 ≡ n = omega arith in
      rw (long, valid, known, responder, size, take-append_self payload rest) refl

  -- If lin_write on a responder in order stores a message of 1 to LIN_MAX_DLEN bytes under a
  -- valid id and checksum, then it answers without error, the next header with that id sends
  -- exactly this message, and the header after it receives instead.
  pub lin_write-header :
      (lin : Lin e) (id c : ℕ) (type : Checksum) (payload rest : List ℕ) (hdr again : Frame)
      → IsSound e lin
      → lin.mode ≢ 0
      → id < e.num_id
      → frame_type_of c ≡ some type
      → 0 < length payload
      → length payload ≤ e.max_dlen
      → length (encode_write id c (payload ++ rest)) ≡ e.req_max
      → hdr.id ≡ id
      → again.id ≡ id
      → let written = lin_write e lin (encode_write id c (payload ++ rest)) (2 + length payload) in
        (written.1 ≡ done)
        × (sent : Lin e) × (lin_header_cb e written.0 hdr
            ≡ some (sent, send, padded_frame e id type payload))
        × (heard : Lin e) × (m : Frame) × (lin_header_cb e sent again ≡ some (heard, receive, m))
  lin_write-header lin id c type payload rest hdr again h responds small known some_data fits size
        same same' =
      let m = padded_frame e id type payload in
      let written = lin_write e lin (encode_write id c (payload ++ rest)) (2 + length payload) in
      let stored = lin_write-store lin id c type payload rest responds small known some_data fits in
      let (reply, entry) = store_response-entry lin m h small in
      let sound = (lin_write-Fine e lin _ (2 + length payload) h size).sound in
      let here : get_elem? written.0.tx_msgs hdr.id ≡ some (record { active = true; msg = m }) =
        rw (stored, same) entry in
      let (sent, sends, left) = header_active written.0 hdr _ sound here refl in
      let off : TxMsg = record { active = false; msg = m } in
      let cleared : get_elem? sent.tx_msgs again.id ≡ some off =
        rw (left, same, same')
          (get_elem?-set_self written.0.tx_msgs id off (
            get_elem?-some-lt written.0.tx_msgs id {a = record { active = true; msg = m }}
              (rw stored entry))) in
      let (heard, frame, hears) =
        header_inactive sent again off
          (lin_header_cb-IsSound e written.0 sent hdr m send sound sends) cleared refl in
      (ap (λ p. p.1) stored ∙ reply, sent, sends, heard, frame, hears)
