-- ===== src/Can/Busy.antt =====
-- can_write of can.c and the order of its frames.
use jabi.Prelude.{ℕ, zero, suc, ◌+◌, ◌≤◌, ◌≡◌, arith, Bool, true, false, List, none, some, dec_lt}
use jabi.Can.Driver.{Frame, CanEnv}
use jabi.Can.State.{Can}
use jabi.Can.Transfer.{
  can_write_cb, wait_sent, send_frame, claim_lock, queue_frame, frame_of, can_write,
}

-- What can_write relies on of the controller: it calls back once for each frame that it accepted,
-- and never otherwise. `pending` counts the frames it has accepted and not yet reported.
pub record Reports (e : CanEnv) : Type 0 where
  pub pending : e.Ctl → ℕ
  pub send-accepted :
      (ctl : e.Ctl) (m : Frame)
      → (e.send ctl m).0 ≡ true
      → pending (e.send ctl m).1 ≡ pending ctl + 1
  pub send-refused :
      (ctl : e.Ctl) (m : Frame) → (e.send ctl m).0 ≡ false → pending (e.send ctl m).1 ≡ pending ctl
  pub run-reports : (ctl : e.Ctl) → (e.run ctl).0 + pending (e.run ctl).1 ≡ pending ctl

module _ (e : CanEnv) (p : Reports e) where
  open p use {pending}

  -- The callback is either still to come or has been counted in the semaphore, and there is no
  -- callback to wait for once can_write has seen it.
  pub record InOrder (can : Can e) : Type 0 where
    pub binary : e.limit can.tx_lock ≡ 1
    pub one_frame : e.count can.tx_lock + pending can.ctl ≤ 1
    pub settled : can.tx_was_busy ≡ false → e.count can.tx_lock + pending can.ctl ≡ 0

  count-can_write_cb :
      (n : ℕ) (lock : e.Sem)
      → e.limit lock ≡ 1
      → e.count lock + n ≤ 1
      → (e.count (can_write_cb e n lock) ≡ e.count lock + n) × (e.limit (can_write_cb e n lock) ≡ 1)
  unfolding can_write_cb
  count-can_write_cb zero lock l h = (omega arith, l)
  count-can_write_cb (suc n) lock l h =
      ground (arith, e.count-give lock, e.limit-give lock, count-can_write_cb n (e.give lock))

  -- What a wait leaves: the frame is settled, or its callback is still to come.
  record Waited (before : Can e) (out : Bool × Can e) : Type 0 where
    binary : e.limit out.1.tx_lock ≡ 1
    none_left : e.count out.1.tx_lock ≡ 0
    sent : out.0 ≡ true → pending out.1.ctl ≡ 0
    unsent : out.0 ≡ false → pending out.1.ctl ≡ pending before.ctl

  -- After the controller has run: take the semaphore if it was given.
  taken-Waited :
      (can : Can e) (lock : e.Sem) (ctl : e.Ctl)
      → e.limit lock ≡ 1
      → e.count lock + pending ctl ≡ pending can.ctl
      → pending can.ctl ≤ 1
      → Waited can (elim (e.take_now lock) [
        | some lock' ↦ (true, record can { ctl = ctl; tx_lock = lock' })
        | none ↦ (false, record can { ctl = ctl; tx_lock = lock })
      ])
  taken-Waited can lock ctl l same h = elim (dec_lt 0 (e.count lock)) [
    | yes given ↦
        let (lock', eq, less, lim) = e.take_now-some lock given in
        rw eq (record {
          binary = omega arith;
          none_left = omega arith;
          sent = λ _. omega arith;
          unsent = λ f. cc;
        })
    | no idle ↦
        rw (e.take_now-none lock (omega arith)) (record {
          binary = l;
          none_left = omega arith;
          sent = λ f. cc;
          unsent = λ _. omega arith;
        })
  ]

  wait_sent-Waited :
      (can : Can e)
      → e.limit can.tx_lock ≡ 1
      → e.count can.tx_lock ≡ 0
      → pending can.ctl ≤ 1
      → Waited can (wait_sent e can)
  unfolding wait_sent
  wait_sent-Waited can l z h =
      let n = (e.run can.ctl).0 in
      let total = p.run-reports can.ctl in
      let given = count-can_write_cb n can.tx_lock l (omega arith) in
      rw (e.take_now-none can.tx_lock z, wait_sent)
        (taken-Waited can (can_write_cb e n can.tx_lock) (e.run can.ctl).1 given.1 (omega arith) h)

  -- A frame goes to the controller only when none of ours is with it, and afterwards either the
  -- frame is settled or can_write remembers that it is not.
  send_frame-InOrder :
      (can : Can e) (m : Frame)
      → e.limit can.tx_lock ≡ 1
      → e.count can.tx_lock ≡ 0
      → pending can.ctl ≡ 0
      → InOrder (send_frame e can m).0
  unfolding send_frame
  send_frame-InOrder can m l z h = ground (
    arith,
    p.send-accepted can.ctl m,
    p.send-refused can.ctl m,
    wait_sent-Waited (record can { ctl = (e.send can.ctl m).1 }) l z,
  )

  claim_lock-InOrder : (can : Can e) (m : Frame) → InOrder can → InOrder (claim_lock e can m).0
  unfolding claim_lock
  claim_lock-InOrder can m h = elim (dec_lt 0 (e.count can.tx_lock)) [
    | yes given ↦
        let (lock, eq, less, lim) = e.take_now-some can.tx_lock given in
        rw (eq, claim_lock)
          (send_frame-InOrder (record can { tx_lock = lock }) m (omega (arith, h.binary))
            (omega (arith, h.one_frame)) (omega (arith, h.one_frame)))
    | no idle ↦ rw (e.take_now-none can.tx_lock (omega arith), claim_lock) h
  ]

  queue_frame-InOrder : (can : Can e) (m : Frame) → InOrder can → InOrder (queue_frame e can m).0
  unfolding queue_frame
  queue_frame-InOrder can m h =
      ground (arith, claim_lock-InOrder can m h, send_frame-InOrder can m h.binary)

  -- If the controller calls back once for each frame that it accepted, can_write keeps the
  -- order of the frames, whatever the request: at most one accepted frame is unreported or
  -- reported and not yet waited for, and after a write that was confirmed there is none. So no
  -- frame is handed over while an earlier one is on its way.
  pub can_write-InOrder :
      (can : Can e) (req : List ℕ) (req_len : ℕ)
      → InOrder can
      → InOrder (can_write e can req req_len).0
  unfolding can_write
  can_write-InOrder can req req_len h = ground (arith, queue_frame-InOrder can (frame_of e req))

  -- A callback between two requests keeps the order as well, when it reports a frame.
  pub can_write_cb-InOrder :
      (can : Can e) (ctl : e.Ctl)
      → InOrder can
      → pending can.ctl ≡ pending ctl + 1
      → InOrder (record can { ctl = ctl; tx_lock = can_write_cb e 1 can.tx_lock })
  can_write_cb-InOrder can ctl h one = ground (arith, count-can_write_cb 1 can.tx_lock h.binary)
