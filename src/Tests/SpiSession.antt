-- ===== src/Tests/SpiSession.antt =====
-- A client's calls to the SPI device of that board.
use jabi.Prelude.{Bool, true, false, List, [], ◌∷◌}
use jabi.Spi.Driver.{SpiConfig}
use jabi.Client.Remote.Spi.Ask.{Ask, asks_freq, asks_mode, asks_order, asks_exchange}

-- Mode 3 at 500 kHz, an exchange, the other bit order after a refused attempt at mode 0, and an
-- exchange.
abbrev calls : List (Bool × Ask)
calls =
    (true, asks_mode 3)
    ∷ (true, asks_freq 500000)
    ∷ (true, asks_exchange (1 ∷ 2 ∷ []))
    ∷ (false, asks_mode 0)
    ∷ (true, asks_order false)
    ∷ (true, asks_exchange (3 ∷ []))
    ∷ []

abbrev mode3 : SpiConfig
mode3 = record { frequency = 500000; cpol = true; cpha = true; lsb_first = false }
