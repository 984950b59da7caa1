-- ===== src/Tests/SpiBus.antt =====
-- An SPI bus that is configured when the address of the configuration changes.
use jabi.Prelude.{
  ℕ, ◌≡◌, ◌≢◌, inl, inr, refl, arith, Bool, true, false, List, [], ◌∷◌, Option, none, some, ◌==◌,
  if◌then◌else◌, replicate, length-replicate,
}
use jabi.Periph.{invalid_args_err}
use jabi.Spi.Driver.{SpiConfig, SpiOp, sends, receives, rx_size, SpiEnv, ComparesPointers}
use jabi.Spi.Device.{Spi, spi_set_mode, spi_set_freq, spi_set_bitorder, run_transfer}
use jabi.Spi.Config.{IsSynced}
use jabi.Spi.History.{
  Request, sets_freq, sets_mode, sets_order, moves, after, Goes, ran, ran-wanted,
}
use jabi.Spi.Rejected.{misled, set_mode_rejected_leaks}
use jabi.Tests.{small}

pub record Bus : Type 0 where
  pub last : Option ℕ
  pub active : SpiConfig

abbrev pub configure : Option ℕ → ℕ → SpiConfig → SpiConfig → SpiConfig
configure none at old new = new
configure (some l) at old new = if l == at then old else new

abbrev pub bus_transfer : Bus → SpiOp → ℕ → SpiConfig → Bool × List ℕ × Bus
bus_transfer b op at c = (
  true,
  replicate (rx_size op) 0,
  record { last = some at; active = configure b.last at b.active c },
)

abbrev pub spi_env : SpiEnv
spi_env = record {
  target = small;
  Bus = Bus;
  transfer = bus_transfer;
  rx-length = λ b op at c. length-replicate (rx_size op) 0;
}

pub configure-same :
    (l : Option ℕ) (at : ℕ) (old new : SpiConfig) → l ≡ some at → configure l at old new ≡ old
configure-same none at old new e = cc
configure-same (some l) at old new e = ground arith

pub configure-other :
    (l : Option ℕ) (at : ℕ) (old new : SpiConfig) → l ≢ some at → configure l at old new ≡ new
configure-other none at old new ne = refl
configure-other (some l) at old new ne = ground arith

abbrev pub pointers : ComparesPointers spi_env
pointers = record {
  last = λ b. b.last;
  active = λ b. b.active;
  last-transfer = λ b op at c ok. refl;
  active-same = λ b op at c ok e. configure-same b.last at b.active c e;
  active-other = λ b op at c ok ne. configure-other b.last at b.active c ne;
}

abbrev pub plain : SpiConfig
plain = record { frequency = 1000000; cpol = false; cpha = false; lsb_first = false }

abbrev pub fresh : Spi spi_env
fresh = record {
  bus = record { last = none; active = plain };
  config0 = plain;
  config1 = plain;
  curr_cfg = 0;
  stale = false;
}

pub fresh-IsSynced : IsSynced spi_env pointers fresh
fresh-IsSynced = record {
  agree = refl;
  slot_exists = omega arith;
  known = inl refl;
  fresh = λ _ _. refl;
}

abbrev history : List Request
history =
    moves (sends (1 ∷ []))
    ∷ sets_mode (3 ∷ [])
    ∷ moves (receives 2)
    ∷ sets_freq (0 ∷ 1 ∷ 0 ∷ 0 ∷ [])
    ∷ sets_order (0 ∷ [])
    ∷ moves (sends [])
    ∷ []

abbrev wide : SpiConfig
wide = record { frequency = 256; cpol = true; cpha = true; lsb_first = true }

history-Goes : Goes spi_env pointers fresh history
unfolding run_transfer spi_set_mode spi_set_freq spi_set_bitorder after
history-Goes = (refl, (omega arith, (refl, (refl, tt))))

ran-wanted_example :
    ran spi_env pointers fresh history
    ≡ plain ∷ record plain { cpol = true; cpha = true } ∷ wide ∷ []
ran-wanted_example = ran-wanted spi_env pointers fresh history fresh-IsSynced history-Goes

-- The device in mode 3 with its second slot in use.
abbrev in_mode3 : Spi spi_env
in_mode3 = record {
  bus = record { last = some 1; active = wide };
  config0 = wide;
  config1 = wide;
  curr_cfg = 1;
  stale = false;
}

in_mode3-IsSynced : IsSynced spi_env pointers in_mode3
in_mode3-IsSynced = record {
  agree = refl;
  slot_exists = omega arith;
  known = inr refl;
  fresh = λ _ _. refl;
}

abbrev misled3 : Spi spi_env
misled3 = misled spi_env pointers in_mode3 (9 ∷ []) (0 ∷ 2 ∷ 0 ∷ 0 ∷ [])

misled-moves : (run_transfer spi_env misled3 (sends [])).0 ≡ true
unfolding run_transfer
misled-moves = refl

set_mode_rejected_leaks_example :
    ((spi_set_mode spi_env in_mode3 (9 ∷ []) 1).1.retcode ≡ invalid_args_err)
    × ((run_transfer spi_env misled3 (sends [])).2.bus.active.cpol ≡ false)
    × ((run_transfer spi_env misled3 (sends [])).2.bus.active.cpha ≡ false)
set_mode_rejected_leaks_example =
    set_mode_rejected_leaks spi_env pointers in_mode3 (9 ∷ []) (0 ∷ 2 ∷ 0 ∷ 0 ∷ []) (sends [])
      in_mode3-IsSynced refl (omega arith) misled-moves
