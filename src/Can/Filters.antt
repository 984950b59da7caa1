-- ===== src/Can/Filters.antt =====
-- can_set_filter of can.c: what it leaves in the device, and its errors.
use jabi.Prelude.{ℕ, ◌<◌, ◌≡◌, ◌≢◌, ◌↔◌, arith, Bool, true, false, List}
use jabi.Packet.{le32_at}
use jabi.Periph.{no_err, peripheral_err}
use jabi.Can.Driver.{Filter, enospc, CanEnv}
use jabi.Can.State.{Can, can_std_id_mask}
use jabi.Can.Config.{can_set_filter, add_std}

module _ (e : CanEnv) (can : Can e) (req : List ℕ) where
  -- The two filters that a request asks for.
  abbrev asked : Bool → Filter
  asked ide = record { id = le32_at e.target req 0; mask = le32_at e.target req 4; ide = ide }

  -- can_set_filter on a request of 8 bytes stores its id and mask in both filters, and answers
  -- without error exactly when neither stored filter number is -ENOSPC.
  can_set_filter_lem :
      ((can_set_filter e can req 8).0.filter_std.filter ≡ asked false)
      × ((can_set_filter e can req 8).0.filter_ext.filter ≡ asked true)
      × (((can_set_filter e can req 8).1.retcode ≡ no_err) ↔ (
          ((can_set_filter e can req 8).0.filter_std.id ≢ enospc)
          × ((can_set_filter e can req 8).0.filter_ext.id ≢ enospc)))
  unfolding can_set_filter
  can_set_filter_lem =
      (ground arith, ground arith, (λ h. (λ q. ground arith, λ q. ground arith), λ h. ground arith))

  -- Once a standard filter could not be added, a later request with a mask over 11 bits is
  -- answered with an error whatever the controller answers for the extended filter, and the
  -- number of the failed standard filter stays.
  pub can_set_filter-stays_enospc :
      can.filter_std.id ≡ enospc
      → can_std_id_mask < le32_at e.target req 4
      → ((can_set_filter e can req 8).1.retcode ≡ peripheral_err)
        × ((can_set_filter e can req 8).0.filter_std.id ≡ enospc)
  unfolding can_set_filter add_std
  can_set_filter-stays_enospc h wide = ground arith
