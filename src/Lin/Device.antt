-- ===== src/Lin/Device.antt =====
-- lin_dev_data_t, lin_init and the driver's callbacks.
use jabi.Prelude.{
  ℕ, Bool, false, not, Option, none, some, List, [], ◌∷◌, ◌==◌, if◌then◌else◌, get_elem?, set,
  replicate,
}
use jabi.Periph.{JabiErr, no_err, peripheral_err}
use jabi.Lin.Driver.{
  Checksum, auto_checksum, responder, Action, no_action, send, receive, Frame, LinEnv,
}

-- An entry of `filters`
pub record Filter : Type 0 where
  pub type : Checksum
  pub len : ℕ

-- An entry of `tx_msgs`
pub record TxMsg : Type 0 where
  pub active : Bool
  pub msg : Frame

-- lin_dev_data_t; `ctl` is the state of the controller behind `dev`.
pub record Lin (e : LinEnv) : Type 0 where
  pub ctl : e.Ctl
  pub mode : ℕ
  pub filters : List Filter
  pub tx_msgs : List TxMsg
  pub rx_msgs : e.Msgq
  pub status_id : ℕ
  pub status_retcode : ℕ
  pub msg_lock : e.Sem
  pub cmd_lock : e.Sem

-- `tx_msgs[i].active = false` for every i
abbrev pub deactivate : List TxMsg → List TxMsg
deactivate [] = []
deactivate (tx ∷ txs) = record tx { active = false } ∷ deactivate txs

module _ (e : LinEnv) where
  -- What the callback answers for a header without a message: `msg` asks for the filter's frame.
  abbrev pub filtered : Filter → Frame → Frame
  filtered f msg = record msg { type = f.type; len = f.len }

  -- lin_header_cb. `none` is an access outside `tx_msgs` or `filters`, which the code does not
  -- exclude: nothing is said of what comes after it.
  unfoldable pub lin_header_cb : Lin e → Frame → Option (Lin e × Action × Frame)
  lin_header_cb lin msg = elim (e.take_now lin.msg_lock) [
    | none ↦ some (lin, no_action, msg)
    | some lock ↦
        let noted : Lin e = record lin {
          msg_lock = e.give lock;
          status_id = msg.id;
          status_retcode = 0;
        } in
        elim (get_elem? lin.tx_msgs msg.id) [
          | none ↦ none
          | some tx ↦
              if tx.active
              then some (
                record noted { tx_msgs = set lin.tx_msgs msg.id (record tx { active = false }) },
                send,
                tx.msg,
              )
              else elim (get_elem? lin.filters msg.id) [
                | none ↦ none
                | some f ↦ some (noted, receive, filtered f msg)
              ]
        ]
  ]

  -- `if (lin->mode == 0) k_sem_give(&lin->cmd_lock)`
  abbrev pub finish_command : Lin e → Lin e
  finish_command lin = record lin {
    cmd_lock = if lin.mode == 0 then e.give lin.cmd_lock else lin.cmd_lock;
  }

  unfoldable pub lin_tx_cb : Lin e → ℕ → Lin e
  lin_tx_cb lin error = finish_command (record lin { status_retcode = error })

  -- k_msgq_put; a full queue drops the frame.
  abbrev pub store : Option e.Msgq → e.Msgq → e.Msgq
  store none q = q
  store (some q') q = q'

  unfoldable pub lin_rx_cb : Lin e → ℕ → Frame → Lin e
  lin_rx_cb lin error msg = finish_command (record lin {
    status_retcode = error;
    rx_msgs = if error == 0 then store (e.put lin.rx_msgs msg) lin.rx_msgs else lin.rx_msgs;
  })

  -- lin_init; `set_callbacks` stands for the three calls that set them.
  unfoldable pub lin_init : Lin e → Lin e × JabiErr
  lin_init lin =
      let (mode_ok, ctl1) = e.set_mode lin.ctl responder in
      let (callbacks_ok, ctl2) = e.set_callbacks ctl1 in
      if not mode_ok
      then (record lin { ctl = ctl1; mode = e.mode_responder }, peripheral_err)
      else if not callbacks_ok
      then (record lin { ctl = ctl2; mode = e.mode_responder }, peripheral_err)
      else (
        record lin {
          ctl = ctl2;
          mode = e.mode_responder;
          filters = replicate e.num_id (record { type = auto_checksum; len = 0 });
          tx_msgs = deactivate lin.tx_msgs;
          status_id = 0xff;
          status_retcode = 0;
          msg_lock = e.sem_init 1 1;
          cmd_lock = e.sem_init 0 1;
        },
        no_err,
      )
