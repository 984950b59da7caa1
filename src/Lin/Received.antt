-- ===== src/Lin/Received.antt =====
-- The frames that lin_read of lin.c takes: the oldest one, or the answer to a command.
use jabi.Prelude.{
  ℕ, ◌≡◌, ◌≢◌, inl, inr, refl, ap, ◌∙◌, arith, true, false, List, [], ◌∷◌, length, ◌==◌, All,
  Bool-cases,
}
use jabi.Periph.{Reply, IsFit, uninitialized_err, fail, done, timeout_err}
use jabi.Lin.Driver.{Frame, LinEnv}
use jabi.Lin.Device.{Lin, lin_rx_cb}
use jabi.Lin.Transfer.{read_resp, take_frame, await_frame}
use jabi.Lin.Sound.{IsFrame, Holds, IsSound}
use jabi.Lin.Fine.{Fine, done-Fine}
use jabi.Lin.Written.{token_given, read_resp-IsFit}

module _ (e : LinEnv) where
  pub read_resp-returns : (left : ℕ) (m : Frame) → (read_resp e left m).retcode ≢ uninitialized_err
  unfolding read_resp
  read_resp-returns left m q = cc

  -- A responder takes the oldest frame.
  pub take_frame-Fine :
      (lin : Lin e) (queue : List Frame)
      → e.contents lin.rx_msgs ≡ queue
      → All (IsFrame e) queue
      → IsSound e lin
      → lin.mode ≢ 0
      → Fine e (take_frame e lin done)
  unfolding take_frame
  take_frame-Fine lin [] eq fits h responds =
      rw (e.get-empty lin.rx_msgs eq, take_frame) (done-Fine e lin h)
  take_frame-Fine lin (m ∷ queue) eq fits h responds =
      let (rest, got, left, same) = e.get-cons lin.rx_msgs m queue eq in
      rw (got, take_frame)
        (record {
          fits = read_resp-IsFit e (e.num_used rest) m fits.0;
          sound = record {
            filters_size = h.filters_size;
            tx_size = h.tx_size;
            tx_frames = h.tx_frames;
            rx_frames = rw left fits.1;
            rx_room = rw same h.rx_room;
            unlocked = h.unlocked;
            no_command = h.no_command;
            known_mode = h.known_mode;
            drained = inl responds;
          };
          returns = read_resp-returns (e.num_used rest) m;
        })

  -- What is left behind by a command that received a frame, or failed.
  pub record Heard (lin : Lin e) (error : ℕ) (reply : Reply) (out : Lin e × Reply) : Type 0 where
    pub ctl : e.Ctl
    pub lock : e.Sem
    pub queue : e.Msgq
    pub ends : out ≡ (
      record lin { ctl = ctl; status_retcode = error; cmd_lock = lock; rx_msgs = queue },
      reply,
    )
    pub empty : e.contents queue ≡ []
    pub room : e.max_msgs queue ≡ e.max_msgs lin.rx_msgs
    pub no_command : Holds e 0 lock

  Heard-Fine :
      (lin : Lin e) (error : ℕ) (reply : Reply) (out : Lin e × Reply)
      → IsSound e lin
      → Heard lin error reply out
      → IsFit e.target reply
      → reply.retcode ≢ uninitialized_err
      → Fine e out
  Heard-Fine lin error reply out h heard fit ne = rw heard.ends (record {
    fits = fit;
    sound = record {
      filters_size = h.filters_size;
      tx_size = h.tx_size;
      tx_frames = h.tx_frames;
      rx_frames = rw heard.empty tt;
      rx_room = rw heard.room h.rx_room;
      unlocked = h.unlocked;
      no_command = heard.no_command;
      known_mode = h.known_mode;
      drained = inr heard.empty;
    };
    returns = ne;
  })

  pub drained_queue : (lin : Lin e) → IsSound e lin → lin.mode ≡ 0 → e.contents lin.rx_msgs ≡ []
  drained_queue lin h commands = ground arith

  pub await_frame-received :
      (lin : Lin e)
      → IsSound e lin
      → lin.mode ≡ 0
      → ((e.rx_result lin.ctl).0 == 0) ≡ true
      → Heard lin
          (e.rx_result lin.ctl).0
          (read_resp e 0 (e.rx_result lin.ctl).1)
          (await_frame e lin)
  unfolding await_frame lin_rx_cb take_frame
  await_frame-received lin h commands fine =
      let m = (e.rx_result lin.ctl).1 in
      let none_yet = drained_queue lin h commands in
      let (q, put, holds, room) =
        e.put-room lin.rx_msgs m (omega (arith, ap length none_yet, h.rx_room)) in
      let (rest, got, left, same) = e.get-cons q m [] (holds ∙ rw none_yet refl) in
      let (lock, taken, held) = token_given e lin h commands in
      let count : e.num_used rest ≡ 0 = e.num_used-length rest ∙ ap length left in
      record {
        ctl = (e.rx_result lin.ctl).2;
        lock = lock;
        queue = rest;
        ends = rw (taken, await_frame, fine, put, got, take_frame, count) refl;
        empty = left;
        room = same ∙ room;
        no_command = held;
      }

  await_frame-failed :
      (lin : Lin e)
      → IsSound e lin
      → lin.mode ≡ 0
      → ((e.rx_result lin.ctl).0 == 0) ≡ false
      → Heard lin (e.rx_result lin.ctl).0 (fail timeout_err) (await_frame e lin)
  unfolding await_frame lin_rx_cb
  await_frame-failed lin h commands bad =
      let (lock, taken, held) = token_given e lin h commands in
      record {
        ctl = (e.rx_result lin.ctl).2;
        lock = lock;
        queue = lin.rx_msgs;
        ends = rw (taken, await_frame, bad) refl;
        empty = drained_queue lin h commands;
        room = refl;
        no_command = held;
      }

  pub await_frame-Fine : (lin : Lin e) → IsSound e lin → lin.mode ≡ 0 → Fine e (await_frame e lin)
  await_frame-Fine lin h commands = elim (Bool-cases ((e.rx_result lin.ctl).0 == 0)) [
    | inl fine ↦
        let m = (e.rx_result lin.ctl).1 in
        let m_fits : IsFrame e m = record {
          array = e.rx_result-array lin.ctl;
          sized = e.rx_result-sized lin.ctl;
        } in
        Heard-Fine lin _ (read_resp e 0 m) _ h (await_frame-received lin h commands fine)
          (read_resp-IsFit e 0 m m_fits) (read_resp-returns 0 m)
    | inr bad ↦
        Heard-Fine lin _ (fail timeout_err) _ h (await_frame-failed lin h commands bad)
          (omega arith) (λ q. cc)
  ]
