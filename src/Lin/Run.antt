-- ===== src/Lin/Run.antt =====
-- A LIN device of lin.c over its life: lin_init, then requests and the driver's callbacks in any
-- order.
use jabi.Prelude.{ℕ, ◌≡◌, ◌≢◌, List, length, some}
use jabi.Periph.{Reply, no_err}
use jabi.Lin.Driver.{Action, Frame, LinEnv}
use jabi.Lin.Device.{Lin, lin_header_cb, lin_tx_cb, lin_rx_cb, lin_init}
use jabi.Lin.Config.{lin_set_mode_j, lin_set_rate, lin_set_filter, lin_mode, lin_status}
use jabi.Lin.Transfer.{lin_write, lin_read}
use jabi.Lin.Sound.{IsFrame, IsSound}
use jabi.Lin.Callbacks.{
  IsBuilt, lin_header_cb-IsSound, lin_tx_cb-IsSound, lin_rx_cb-IsSound, lin_init-IsSound,
}
use jabi.Lin.Fine.{
  Fine, lin_set_mode_j-Fine, lin_set_rate-Fine, lin_set_filter-Fine, lin_mode-Fine, lin_status-Fine,
}
use jabi.Lin.Written.{lin_write-Fine}
use jabi.Lin.Fit.{lin_read-Fine}

-- The functions of lin_periph_fns
pub data LinFn : Type 0 where
  set_mode set_rate set_filter mode status write read : LinFn

module _ (e : LinEnv) where
  abbrev pub call : LinFn → Lin e → List ℕ → ℕ → Lin e × Reply
  call set_mode = lin_set_mode_j e
  call set_rate = lin_set_rate e
  call set_filter = lin_set_filter e
  call mode = lin_mode e
  call status = lin_status e
  call write = lin_write e
  call read = lin_read e

  -- One step. The callbacks that end a commander's command are part of the command, so the ones
  -- here are a responder's. A header has an id inside the device's arrays.
  pub data Step : Lin e → Lin e → Type 0 where
    called :
        (f : LinFn) (lin : Lin e) (req : List ℕ) (n : ℕ)
        → length req ≡ e.req_max
        → Step lin (call f lin req n).0
    header :
        (lin lin' : Lin e) (hdr m : Frame) (act : Action)
        → lin_header_cb e lin hdr ≡ some (lin', act, m)
        → Step lin lin'
    sent : (lin : Lin e) (error : ℕ) → lin.mode ≢ 0 → Step lin (lin_tx_cb e lin error)
    received :
        (lin : Lin e) (error : ℕ) (m : Frame)
        → lin.mode ≢ 0
        → IsFrame e m
        → Step lin (lin_rx_cb e lin error m)

  -- The states after lin_init has succeeded on the device as the build sets it up.
  pub data Reach (built : Lin e) : Lin e → Type 0 where
    start : (lin_init e built).1 ≡ no_err → Reach built (lin_init e built).0
    after : {lin lin' : Lin e} → Reach built lin → Step lin lin' → Reach built lin'

  call-Fine :
      (f : LinFn) (lin : Lin e) (req : List ℕ) (n : ℕ)
      → IsSound e lin
      → length req ≡ e.req_max
      → Fine e (call f lin req n)
  call-Fine set_mode lin req n h size = lin_set_mode_j-Fine e lin req n h
  call-Fine set_rate lin req n h size = lin_set_rate-Fine e lin req n h
  call-Fine set_filter lin req n h size = lin_set_filter-Fine e lin req n h
  call-Fine mode lin req n h size = lin_mode-Fine e lin req n h
  call-Fine status lin req n h size = lin_status-Fine e lin req n h
  call-Fine write lin req n h size = lin_write-Fine e lin req n h size
  call-Fine read lin req n h size = lin_read-Fine e lin req n h

  Step-IsSound : {lin lin' : Lin e} → IsSound e lin → Step lin lin' → IsSound e lin'
  Step-IsSound h (called f lin req n size) = (call-Fine f lin req n h size).sound
  Step-IsSound h (header lin lin' hdr m act ran) = lin_header_cb-IsSound e lin lin' hdr m act h ran
  Step-IsSound h (sent lin error responds) = lin_tx_cb-IsSound e lin error h responds
  Step-IsSound h (received lin error m responds fits) =
      lin_rx_cb-IsSound e lin error m h responds fits

  pub Reach-IsSound : (built lin : Lin e) → IsBuilt e built → Reach built lin → IsSound e lin
  Reach-IsSound built _ h (start fine) = lin_init-IsSound e built h fine
  Reach-IsSound built _ h (after r s) = Step-IsSound (Reach-IsSound built _ h r) s

  -- After lin_init has succeeded, whatever requests come and whatever headers with ids inside
  -- the device's tables, and results for a responder, the driver reports between them, in any
  -- order, every function of the LIN table writes within the response array, announces only
  -- what it wrote, leaves the device in order and never waits for ever for a lock. The received
  -- frames have to fit their arrays.
  pub Reach-call-Fine :
      (built lin : Lin e) (f : LinFn) (req : List ℕ) (n : ℕ)
      → IsBuilt e built
      → Reach built lin
      → length req ≡ e.req_max
      → Fine e (call f lin req n)
  Reach-call-Fine built lin f req n h r size =
      call-Fine f lin req n (Reach-IsSound built lin h r) size
