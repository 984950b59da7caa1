-- ===== src/Lin/Fit.antt =====
-- lin_read and the table of lin.c, their buffers and their locks.
use jabi.Prelude.{ℕ, ◌≡◌, refl, arith, List, length, get_elem?, get_or, ◌==◌, leb, not, All}
use jabi.Periph.{Reply, FitsHandler, on_device}
use jabi.Periph.Device.{on_device-Fits}
use jabi.Lin.Driver.{LinEnv}
use jabi.Lin.Device.{Filter, Lin}
use jabi.Lin.Config.{lin_set_mode_j, lin_set_rate, lin_set_filter, lin_mode, lin_status}
use jabi.Lin.Transfer.{lin_write, poll_frame, lin_read, lin_periph_api}
use jabi.Lin.Sound.{IsSound}
use jabi.Lin.Fine.{
  Fine, Fine-if, Fine-elim, fail-Fine, lin_set_mode_j-Fine, lin_set_rate-Fine, lin_set_filter-Fine,
  lin_mode-Fine, lin_status-Fine,
}
use jabi.Lin.Written.{lin_write-Fine}
use jabi.Lin.Received.{take_frame-Fine, await_frame-Fine}

module _ (e : LinEnv) where
  poll_frame-Fine :
      (lin : Lin e) (id : ℕ) (f : Filter)
      → IsSound e lin
      → lin.mode ≡ 0
      → Fine e (poll_frame e lin id f)
  unfolding poll_frame
  poll_frame-Fine lin id f h commands =
      Fine-if e (not (e.lin_receive lin.ctl id f.type f.len).0) (λ _. fail-Fine e _ _ h (λ q. cc))
        (λ _. await_frame-Fine e _ h commands)

  pub lin_read-Fine :
      (lin : Lin e) (req : List ℕ) (n : ℕ) → IsSound e lin → Fine e (lin_read e lin req n)
  unfolding lin_read
  lin_read-Fine lin req n h =
      Fine-if e (not (n == 1)) (λ _. fail-Fine e lin _ h (λ q. cc))
        (λ _.
          Fine-if e (lin.mode == 0)
            (λ c.
              Fine-if e (leb e.num_id (get_or req 0 0)) (λ _. fail-Fine e lin _ h (λ q. cc))
                (λ _.
                  Fine-elim e (get_elem? lin.filters (get_or req 0 0))
                    (fail-Fine e lin _ h (λ q. cc))
                    (λ f _. poll_frame-Fine lin (get_or req 0 0) f h (ground arith))))
            (λ c. take_frame-Fine e lin _ refl h.rx_frames h (ground arith)))

  abbrev pub AllSound : List (Lin e) → Type 0
  AllSound = All (IsSound e)

  lift :
      (f : Lin e → List ℕ → ℕ → Lin e × Reply)
      → ((lin : Lin e) (req : List ℕ) (n : ℕ)
          → IsSound e lin
          → length req ≡ e.req_max
          → Fine e (f lin req n))
      → FitsHandler e.target AllSound (on_device f)
  lift f fine =
      on_device-Fits e.target (IsSound e) f
        (λ lin req n h size _. let r = fine lin req n h size in (r.fits, r.sound))

  pub lin_periph_api-Fits :
      (num : ℕ) → All (FitsHandler e.target AllSound) (lin_periph_api e num).fns
  unfolding lin_periph_api
  lin_periph_api-Fits num = (
    lift (lin_set_mode_j e) (λ lin req n h _. lin_set_mode_j-Fine e lin req n h),
    (
      lift (lin_set_rate e) (λ lin req n h _. lin_set_rate-Fine e lin req n h),
      (
        lift (lin_set_filter e) (λ lin req n h _. lin_set_filter-Fine e lin req n h),
        (
          lift (lin_mode e) (λ lin req n h _. lin_mode-Fine e lin req n h),
          (
            lift (lin_status e) (λ lin req n h _. lin_status-Fine e lin req n h),
            (
              lift (lin_write e) (lin_write-Fine e),
              (lift (lin_read e) (λ lin req n h _. lin_read-Fine lin req n h), tt),
            ),
          ),
        ),
      ),
    ),
  )
