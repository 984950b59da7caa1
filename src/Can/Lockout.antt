-- ===== src/Can/Lockout.antt =====
-- can_write of can.c over a history of writes and pauses.
use jabi.Prelude.{
  ℕ, ◌+◌, ◌≤◌, ◌≡◌, ◌≢◌, refl, arith, true, false, List, [], ◌∷◌, some, All, if◌then◌else◌, get_or,
}
use jabi.Periph.{JabiErr, no_err, peripheral_err, fail}
use jabi.Can.Driver.{Frame, CanEnv}
use jabi.Can.State.{Can, nonzero, write_hdr}
use jabi.Can.Transfer.{can_write_cb, send_frame, claim_lock, queue_frame, frame_of, can_write}
use jabi.Can.Busy.{Reports}

-- What a host and the controller do to a CAN device over time.
pub data Event : Type 0 where
  writes : List ℕ → ℕ → Event
  elapses : Event

module _ (e : CanEnv) where
  -- Time passes between two requests, with the callbacks that the controller makes.
  unfoldable pub elapse : Can e → Can e
  elapse can =
      let (n, ctl) = e.run can.ctl in
      record can { ctl = ctl; tx_lock = can_write_cb e n can.tx_lock }

  -- The answers to the writes of a history.
  unfoldable pub answers : Can e → List Event → List JabiErr
  answers can [] = []
  answers can (writes req req_len ∷ evs) =
      let (can', reply) = can_write e can req req_len in reply.retcode ∷ answers can' evs
  answers can (elapses ∷ evs) = answers (elapse can) evs

  -- The checks of can_write that stand before the frame is queued.
  abbrev pub IsAccepted : List ℕ → ℕ → Type 0
  IsAccepted req req_len =
      (req_len ≡ write_hdr + (if nonzero (get_or req 7 0) then 0 else get_or req 8 0))
      × (get_or req 8 0 ≤ e.max_dlen)

  pub can_write-queue_frame :
      (can : Can e) (req : List ℕ) (req_len : ℕ)
      → IsAccepted req req_len
      → can_write e can req req_len ≡ queue_frame e can (frame_of e req)
  unfolding can_write
  can_write-queue_frame can req req_len h = ground arith

  refused_frame :
      (can : Can e) (m : Frame) (lock : e.Sem)
      → can.tx_was_busy ≡ true
      → e.take_now can.tx_lock ≡ some lock
      → (e.send can.ctl m).0 ≡ false
      → queue_frame e can m
        ≡ (record can { ctl = (e.send can.ctl m).1; tx_lock = lock }, fail peripheral_err)
  unfolding queue_frame claim_lock send_frame
  refused_frame can m lock busy got refused = ground arith

  module _ (p : Reports e) where
    open p use {pending}

    -- can_write waits for a callback that cannot come.
    pub record IsLockedOut (can : Can e) : Type 0 where
      pub busy : can.tx_was_busy ≡ true
      pub no_count : e.count can.tx_lock ≡ 0
      pub no_frame : pending can.ctl ≡ 0

    write_locked_out :
        (can : Can e) (req : List ℕ) (req_len : ℕ)
        → IsLockedOut can
        → ((can_write e can req req_len).0 ≡ can)
          × ((can_write e can req req_len).1.retcode ≢ no_err)
    unfolding can_write queue_frame claim_lock
    write_locked_out can req req_len h =
        (ground (arith, e.take_now-none can.tx_lock), ground (arith, e.take_now-none can.tx_lock))

    elapse-IsLockedOut : (can : Can e) → IsLockedOut can → IsLockedOut (elapse can)
    unfolding elapse can_write_cb
    elapse-IsLockedOut can h =
        let quiet : (e.run can.ctl).0 ≡ 0 = omega (arith, p.run-reports can.ctl, h.no_frame) in
        record {
          busy = h.busy;
          no_count = rw quiet h.no_count;
          no_frame = omega (arith, p.run-reports can.ctl, h.no_frame);
        }

    answers_locked_out :
        (can : Can e) (evs : List Event) → IsLockedOut can → All (λ r. r ≢ no_err) (answers can evs)
    unfolding answers
    answers_locked_out can [] h = tt
    answers_locked_out can (writes req req_len ∷ evs) h =
        let (same, err) = write_locked_out can req req_len h in
        (err, rw same (answers_locked_out can evs h))
    answers_locked_out can (elapses ∷ evs) h =
        answers_locked_out (elapse can) evs (elapse-IsLockedOut can h)

    -- If the controller calls back once for each frame that it accepted, an earlier write
    -- timed out and its frame has gone out since, and the controller refuses the frame of an
    -- accepted request, then that write answers JABI_PERIPHERAL_ERR and no later write ever
    -- succeeds, however much time passes between.
    pub can_write_locks_out :
        (can : Can e) (req : List ℕ) (req_len : ℕ) (evs : List Event)
        → IsAccepted req req_len
        → can.tx_was_busy ≡ true
        → e.count can.tx_lock ≡ 1
        → pending can.ctl ≡ 0
        → (e.send can.ctl (frame_of e req)).0 ≡ false
        → ((can_write e can req req_len).1.retcode ≡ peripheral_err)
          × All (λ r. r ≢ no_err) (answers (can_write e can req req_len).0 evs)
    can_write_locks_out can req req_len evs ok busy one settled refused =
        let (lock, got, less, _) = e.take_now-some can.tx_lock (omega arith) in
        let m = frame_of e req in
        rw (can_write-queue_frame can req req_len ok, refused_frame can m lock busy got refused)
          (
            refl,
            answers_locked_out (record can { ctl = (e.send can.ctl m).1; tx_lock = lock }) evs
                (record {
                  busy = busy;
                  no_count = omega arith;
                  no_frame = omega (arith, p.send-refused can.ctl m refused, settled);
                }),
          )
