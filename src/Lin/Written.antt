-- ===== src/Lin/Written.antt =====
-- lin_write of lin.c and the response to a frame: their buffers and their locks.
use jabi.Prelude.{
  ℕ, ◌+◌, ◌-◌, ◌%◌, ◌≤◌, ◌^◌, ◌≡◌, ◌∙◌, arith, true, some, List, length, get_or, take, drop,
  replicate, if◌then◌else◌, ◌==◌, ltb, leb, not, ◌||◌, All-set, length-set, length-append,
  length-take, length-drop, length-replicate,
}
use jabi.Periph.{IsFit}
use jabi.Lin.Driver.{Checksum, Frame, LinEnv}
use jabi.Lin.Device.{Lin, lin_tx_cb}
use jabi.Lin.Transfer.{
  send_command, store_response, frame_of, write_frame, frame_type_of, lin_write, read_resp,
}
use jabi.Lin.Sound.{IsFrame, IsTxMsg, Holds, IsSound, take_token, give_token, borrow_token}
use jabi.Lin.Fine.{Fine, Fine-if, Fine-elim, fail-Fine, done-Fine}

module _ (e : LinEnv) where
  -- A command's callback gives the token that the command waits for.
  pub token_given :
      (lin : Lin e)
      → IsSound e lin
      → lin.mode ≡ 0
      → (lock : e.Sem) × (e.take_now (if lin.mode == 0 then e.give lin.cmd_lock else lin.cmd_lock)
          ≡ some lock)
        × Holds e 0 lock
  token_given lin h commands =
      let is : (lin.mode == 0) ≡ true = ground arith in
      rw is (take_token e (e.give lin.cmd_lock) (give_token e lin.cmd_lock h.no_command))

  send_command-Fine :
      (lin : Lin e) (m : Frame) → IsSound e lin → lin.mode ≡ 0 → Fine e (send_command e lin m)
  unfolding send_command lin_tx_cb
  send_command-Fine lin m h commands =
      let ctl = (e.lin_send lin.ctl m).1 in
      let (lock, got, held) = token_given lin h commands in
      Fine-if e (not (e.lin_send lin.ctl m).0) (λ _. fail-Fine e _ _ h (λ q. cc))
        (λ _.
          rw (got, send_command)
            (record {
              fits = ground arith;
              sound = record {
                filters_size = h.filters_size;
                tx_size = h.tx_size;
                tx_frames = h.tx_frames;
                rx_frames = h.rx_frames;
                rx_room = h.rx_room;
                unlocked = h.unlocked;
                no_command = held;
                known_mode = h.known_mode;
                drained = h.drained;
              };
              returns = λ q. ground arith;
            }))

  store_response-Fine :
      (lin : Lin e) (m : Frame) → IsSound e lin → IsFrame e m → Fine e (store_response e lin m)
  unfolding store_response
  store_response-Fine lin m h fits =
      let (lock, got, held) = borrow_token e lin.msg_lock h.unlocked in
      rw (got, store_response)
        (done-Fine e _ (record {
          filters_size = h.filters_size;
          tx_size = length-set lin.tx_msgs m.id _ ∙ h.tx_size;
          tx_frames = All-set (IsTxMsg e) lin.tx_msgs m.id _ h.tx_frames fits;
          rx_frames = h.rx_frames;
          rx_room = h.rx_room;
          unlocked = held;
          no_command = h.no_command;
          known_mode = h.known_mode;
          drained = h.drained;
        }))

  pub frame_of-IsFrame :
      (req : List ℕ) (n : ℕ) (type : Checksum)
      → length req ≡ e.req_max
      → n ≤ e.max_dlen
      → IsFrame e (frame_of e req n type)
  frame_of-IsFrame req n type h small = record {
    array = omega (
      arith,
      length-append (take n (drop 2 req)) (replicate (e.max_dlen - n) 0),
      length-take n (drop 2 req),
      length-drop 2 req,
      length-replicate {A = ℕ} (e.max_dlen - n) 0,
      e.max_dlen-le,
      e.req_max-ge,
    );
    sized = small;
  }

  write_frame-Fine :
      (lin : Lin e) (m : Frame) → IsSound e lin → IsFrame e m → Fine e (write_frame e lin m)
  unfolding write_frame
  write_frame-Fine lin m h fits =
      Fine-if e (lin.mode == 0) (λ c. send_command-Fine lin m h (ground arith))
        (λ _. store_response-Fine lin m h fits)

  pub lin_write-Fine :
      (lin : Lin e) (req : List ℕ) (n : ℕ)
      → IsSound e lin
      → length req ≡ e.req_max
      → Fine e (lin_write e lin req n)
  unfolding lin_write
  lin_write-Fine lin req n h size =
      Fine-if e (leb n 2 || ltb (2 + e.max_dlen) n) (λ _. fail-Fine e lin _ h (λ q. cc))
        (λ in_range.
          Fine-if e (leb e.num_id (get_or req 0 0)) (λ _. fail-Fine e lin _ h (λ q. cc))
            (λ _.
              Fine-elim e (frame_type_of (get_or req 1 0)) (fail-Fine e lin _ h (λ q. cc))
                (λ type _.
                  write_frame-Fine lin _ h
                    (frame_of-IsFrame req (n - 2) type size (ground arith)))))

  pub read_resp-IsFit : (left : ℕ) (m : Frame) → IsFrame e m → IsFit e.target (read_resp e left m)
  unfolding read_resp
  read_resp-IsFit left m h =
      rw (e.store16-cpu_to_le16 (left % 2 ^ 16) (omega arith))
        (omega (arith, length-take m.len m.bytes, h.sized, h.array, e.max_dlen-le, e.resp_max-ge))
