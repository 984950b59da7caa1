-- ===== src/Spi/Driver.antt =====
-- What spi.c uses of Zephyr's SPI driver.
use jabi.Prelude.{ℕ, ◌≡◌, ◌≢◌, Bool, true, List, Option, some, length}
use jabi.Packet.{Target}

-- struct spi_config
pub record SpiConfig : Type 0 where
  pub frequency : ℕ
  pub cpol : Bool
  pub cpha : Bool
  pub lsb_first : Bool

-- spi_write, spi_read and spi_transceive with one buffer each way.
pub data SpiOp : Type 0 where
  sends : List ℕ → SpiOp
  receives : ℕ → SpiOp
  exchanges : List ℕ → SpiOp

abbrev pub rx_size : SpiOp → ℕ
rx_size (sends tx) = 0
rx_size (receives n) = n
rx_size (exchanges tx) = length tx

-- A transfer gets the address of a configuration, here its index in `configs`, and what stands
-- there. It answers whether it succeeded, what the receive buffer holds and the new bus state.
pub record SpiEnv : Type 1 where
  pub target : Target
  pub open target use *
  pub Bus : Type 0
  pub transfer : Bus → SpiOp → ℕ → SpiConfig → Bool × List ℕ × Bus
  pub rx-length :
      (b : Bus) (op : SpiOp) (at : ℕ) (c : SpiConfig) → length (transfer b op at c).1 ≡ rx_size op

-- The driver "uses pointer comparison to know when to update the config": it keeps the address it
-- was configured from, and configures the bus only when a transfer names another one.
pub record ComparesPointers (e : SpiEnv) : Type 0 where
  pub last : e.Bus → Option ℕ
  pub active : e.Bus → SpiConfig
  pub last-transfer :
      (b : e.Bus) (op : SpiOp) (at : ℕ) (c : SpiConfig)
      → (e.transfer b op at c).0 ≡ true
      → last (e.transfer b op at c).2 ≡ some at
  pub active-same :
      (b : e.Bus) (op : SpiOp) (at : ℕ) (c : SpiConfig)
      → (e.transfer b op at c).0 ≡ true
      → last b ≡ some at
      → active (e.transfer b op at c).2 ≡ active b
  pub active-other :
      (b : e.Bus) (op : SpiOp) (at : ℕ) (c : SpiConfig)
      → (e.transfer b op at c).0 ≡ true
      → last b ≢ some at
      → active (e.transfer b op at c).2 ≡ c
