-- ===== src/Client/Remote/Spi/Session.antt =====
-- A client's calls to one SPI device of the board, one after the other.
use jabi.Prelude.{
  Bool, true, false, ℕ, ◌<◌, ◌≡◌, Bool, true, Option, none, some, List, [], ◌∷◌, get_elem?,
}
use jabi.Serve.Answer.{KeepsOrder}
use jabi.Board.{Board, Devices}
use jabi.Board.Fit.{IsBoard, AreSound}
use jabi.Spi.Driver.{SpiConfig, ComparesPointers}
use jabi.Spi.Device.{Spi}
use jabi.Spi.Config.{IsSynced}
use jabi.Client.{Endian, IfaceDynamicResp}
use jabi.Client.Interface.{Result}
use jabi.Client.Link.{Firmware, IsReady}
use jabi.Client.Remote.Spi.Ask.{Ask, asks_freq, asks_mode, asks_order, asks_exchange}
use jabi.Client.Remote.Spi.Calls as Calls

module _ (b : Board) (is_board : IsBoard b) (keeps_order : KeepsOrder b.metadata.target)
    (e : Endian) (packet_size : ℕ) (positive : 0 < packet_size) (req_max resp_max idx : ℕ)
    (p : ComparesPointers b.spi) where
  abbrev pub after : Bool → Ask → Firmware (Devices b) → Firmware (Devices b)
  after taken = Calls.after b is_board keeps_order e packet_size positive req_max resp_max idx taken

  abbrev sent :
      Bool → ℕ → List ℕ → Firmware (Devices b) → Result IfaceDynamicResp × Firmware (Devices b)
  sent taken = Calls.sent b is_board keeps_order e packet_size positive req_max resp_max idx taken

  -- The configuration that the device's bus was last run in.
  abbrev pub active_in : Firmware (Devices b) → Option SpiConfig
  active_in w = elim (get_elem? w.state.spi idx) [
    | none ↦ none
    | some spi ↦ some (p.active spi.bus)
  ]

  -- The configurations in which the exchanges of a session run. Each call comes with what
  -- k_sem_take says of the device's lock; without the lock there is no exchange.
  unfoldable pub session : List (Bool × Ask) → Firmware (Devices b) → List (Option SpiConfig)
  session [] w = []
  session ((false, ask) ∷ asks) w = session asks (after false ask w)
  session ((true, asks_exchange bytes) ∷ asks) w =
      let w' = after true (asks_exchange bytes) w in active_in w' ∷ session asks w'
  session ((true, asks_freq f) ∷ asks) w = session asks (after true (asks_freq f) w)
  session ((true, asks_mode m) ∷ asks) w = session asks (after true (asks_mode m) w)
  session ((true, asks_order msb) ∷ asks) w = session asks (after true (asks_order msb) w)

  -- The board is ready, and its device is in step and is to run in `c`.
  record Holds (c : SpiConfig) (w : Firmware (Devices b)) : Type 0 where
    spi : Spi b.spi
    found : get_elem? w.state.spi idx ≡ some spi
    synced : IsSynced b.spi p spi
    same : spi.config0 ≡ c
    ready : IsReady b.metadata.target (AreSound b) w
