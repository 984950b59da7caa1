-- ===== src/Spi/History.antt =====
-- spi.c over a history of requests, against a device with one configuration.
use jabi.Prelude.{ℕ, ◌≤◌, ◌≡◌, refl, ap, ◌∙◌, arith, true, List, [], ◌∷◌, none, some, ◌==◌, get_or}
use mathlib.Core.Path.{ap₂}
use jabi.Packet.{le32_at}
use jabi.Spi.Driver.{SpiConfig, SpiOp, SpiEnv, ComparesPointers}
use jabi.Spi.Device.{Spi, mode_bits, spi_set_freq, spi_set_mode, spi_set_bitorder, run_transfer}
use jabi.Spi.Config.{
  IsSynced, set_freq-IsSynced, set_mode-IsSynced, set_bitorder-IsSynced, run_transfer-active,
}

-- What a host asks of an SPI device.
pub data Request : Type 0 where
  sets_freq sets_mode sets_order : List ℕ → Request
  moves : SpiOp → Request

-- The abstract device: one configuration.
abbrev pub want : SpiEnv → SpiConfig → Request → SpiConfig
want e c (sets_freq req) = record c { frequency = le32_at e.target req 0 }
want e c (sets_mode req) = elim (mode_bits (get_or req 0 0)) [
  | none ↦ c
  | some (cpol, cpha) ↦ record c { cpol = cpol; cpha = cpha }
]
want e c (sets_order req) = record c { lsb_first = get_or req 0 0 == 0 }
want e c (moves op) = c

-- The configurations that its transfers run with.
abbrev pub wanted : SpiEnv → SpiConfig → List Request → List SpiConfig
wanted e c [] = []
wanted e c (moves op ∷ rs) = c ∷ wanted e c rs
wanted e c (sets_freq req ∷ rs) = wanted e (want e c (sets_freq req)) rs
wanted e c (sets_mode req ∷ rs) = wanted e (want e c (sets_mode req)) rs
wanted e c (sets_order req ∷ rs) = wanted e (want e c (sets_order req)) rs

module _ (e : SpiEnv) (p : ComparesPointers e) where
  open p use {active}

  -- The device of spi.c after a request.
  unfoldable pub after : Spi e → Request → Spi e
  after spi (sets_freq req) = (spi_set_freq e spi req 4).0
  after spi (sets_mode req) = (spi_set_mode e spi req 1).0
  after spi (sets_order req) = (spi_set_bitorder e spi req 1).0
  after spi (moves op) = (run_transfer e spi op).2

  -- The configurations that the bus runs at the transfers of a history.
  unfoldable pub ran : Spi e → List Request → List SpiConfig
  ran spi [] = []
  ran spi (moves op ∷ rs) = let spi' = after spi (moves op) in active spi'.bus ∷ ran spi' rs
  ran spi (sets_freq req ∷ rs) = ran (after spi (sets_freq req)) rs
  ran spi (sets_mode req ∷ rs) = ran (after spi (sets_mode req)) rs
  ran spi (sets_order req ∷ rs) = ran (after spi (sets_order req)) rs

  -- Every mode is one of the four, and every transfer succeeds.
  abbrev pub Goes : Spi e → List Request → Type 0
  Goes spi [] = Unit {0}
  Goes spi (moves op ∷ rs) = ((run_transfer e spi op).0 ≡ true) × Goes (after spi (moves op)) rs
  Goes spi (sets_freq req ∷ rs) = Goes (after spi (sets_freq req)) rs
  Goes spi (sets_mode req ∷ rs) = (get_or req 0 0 ≤ 3) × Goes (after spi (sets_mode req)) rs
  Goes spi (sets_order req ∷ rs) = Goes (after spi (sets_order req)) rs

  freq-want :
      (spi : Spi e) (req : List ℕ)
      → (spi_set_freq e spi req 4).0.config0 ≡ want e spi.config0 (sets_freq req)
  unfolding spi_set_freq
  freq-want spi req = refl

  mode-want :
      (spi : Spi e) (req : List ℕ)
      → get_or req 0 0 ≤ 3
      → (spi_set_mode e spi req 1).0.config0 ≡ want e spi.config0 (sets_mode req)
  unfolding spi_set_mode
  mode-want spi req h = ground arith

  order-want :
      (spi : Spi e) (req : List ℕ)
      → (spi_set_bitorder e spi req 1).0.config0 ≡ want e spi.config0 (sets_order req)
  unfolding spi_set_bitorder
  order-want spi req = ground arith

  -- Over any history of valid requests whose transfers succeed, on a device whose two slots are
  -- in step with the driver, every transfer runs with exactly the configuration that the
  -- requests before it asked for.
  pub ran-wanted :
      (spi : Spi e) (rs : List Request)
      → IsSynced e p spi
      → Goes spi rs
      → ran spi rs ≡ wanted e spi.config0 rs
  unfolding ran after
  ran-wanted spi [] h g = refl
  ran-wanted spi (moves op ∷ rs) h g =
      let (runs, synced, same) = run_transfer-active e p spi op h g.0 in
      ap₂ ◌∷◌ runs
        (ran-wanted (run_transfer e spi op).2 rs synced g.1 ∙ ap (λ c. wanted e c rs) same)
  ran-wanted spi (sets_freq req ∷ rs) h g =
      rw (← freq-want spi req)
        (ran-wanted (spi_set_freq e spi req 4).0 rs (set_freq-IsSynced e p spi req 4 h) g)
  ran-wanted spi (sets_mode req ∷ rs) h g =
      rw (← mode-want spi req g.0)
        (ran-wanted (spi_set_mode e spi req 1).0 rs (set_mode-IsSynced e p spi req 1 g.0 h) g.1)
  ran-wanted spi (sets_order req ∷ rs) h g =
      rw (← order-want spi req)
        (ran-wanted (spi_set_bitorder e spi req 1).0 rs (set_bitorder-IsSynced e p spi req 1 h) g)
