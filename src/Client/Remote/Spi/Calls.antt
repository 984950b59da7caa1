-- ===== src/Client/Remote/Spi/Calls.antt =====
-- The requests that a client's calls to an SPI device send.
use jabi.Prelude.{
  ◌<◌, Bool, ℕ, ◌%◌, ◌^◌, ◌≤◌, ◌<◌, ◌≡◌, ap, ◌∙◌, arith, Bool, List, [], ◌∷◌, ltb-false, length,
}
use jabi.Bytes.{le_bytes32}
use jabi.Serve.Answer.{KeepsOrder}
use jabi.Board.{Board, Devices}
use jabi.Board.Fit.{IsBoard}
use jabi.Client.{Endian, IfaceDynamicResp, put32-le}
use jabi.Client.Interface.{Result, request}
use jabi.Client.Can.{byte_of}
use jabi.Client.Link.{Firmware}
use jabi.Client.Remote.{finish}
use jabi.Client.Remote.Spi.{on_usb}
use jabi.Client.Remote.Spi.Ask.{
  Ask, asks_freq, asks_mode, asks_order, asks_exchange, finish-world, finish_size-world,
}
use jabi.Client.Spi as HostSpi

module _ (b : Board) (is_board : IsBoard b) (keeps_order : KeepsOrder b.metadata.target)
    (e : Endian) (packet_size : ℕ) (positive : 0 < packet_size) (req_max resp_max idx : ℕ)
    (taken : Bool) where
  -- The world after a call of the client.
  unfoldable pub after : Ask → Firmware (Devices b) → Firmware (Devices b)
  after (asks_freq f) w =
      (HostSpi.spi_set_freq
        (on_usb b is_board keeps_order e packet_size positive req_max resp_max taken) f idx w).1
  after (asks_mode m) w =
      (HostSpi.spi_set_mode
        (on_usb b is_board keeps_order e packet_size positive req_max resp_max taken) m idx w).1
  after (asks_order msb) w =
      (HostSpi.spi_set_bitorder
        (on_usb b is_board keeps_order e packet_size positive req_max resp_max taken) msb idx w).1
  after (asks_exchange bytes) w =
      (HostSpi.spi_transceive
        (on_usb b is_board keeps_order e packet_size positive req_max resp_max taken) bytes idx w).1

  -- What comes of a request to the device.
  abbrev pub sent :
      ℕ → List ℕ → Firmware (Devices b) → Result IfaceDynamicResp × Firmware (Devices b)
  sent fn payload w =
      (on_usb b is_board keeps_order e packet_size positive req_max resp_max taken).send_request
        (request 7 idx fn payload) w

  pub after-freq :
      (f : ℕ) (w : Firmware (Devices b))
      → f < 2 ^ 32
      → after (asks_freq f) w ≡ (sent 0 (le_bytes32 f) w).1
  unfolding after HostSpi.spi_set_freq
  after-freq f w fits =
      ap (λ bytes. (finish (sent 0 bytes w).0 (sent 0 bytes w).1).1) (put32-le e f fits)
      ∙ finish-world (sent 0 (le_bytes32 f) w).0 (sent 0 (le_bytes32 f) w).1

  pub after-mode :
      (m : ℕ) (w : Firmware (Devices b)) → m ≤ 3 → after (asks_mode m) w ≡ (sent 1 (m ∷ []) w).1
  unfolding after HostSpi.spi_set_mode
  after-mode m w fits =
      let same : m % 2 ^ 8 ≡ m = omega (arith, fits) in
      ap (λ (n : ℕ). (finish (sent 1 (n ∷ []) w).0 (sent 1 (n ∷ []) w).1).1) same
      ∙ finish-world (sent 1 (m ∷ []) w).0 (sent 1 (m ∷ []) w).1

  pub after-order :
      (msb : Bool) (w : Firmware (Devices b))
      → after (asks_order msb) w ≡ (sent 2 (byte_of msb ∷ []) w).1
  unfolding after HostSpi.spi_set_bitorder
  after-order msb w = finish-world (sent 2 (byte_of msb ∷ []) w).0 (sent 2 (byte_of msb ∷ []) w).1

  pub after-exchange :
      (bytes : List ℕ) (w : Firmware (Devices b))
      → length bytes ≤ req_max
      → after (asks_exchange bytes) w ≡ (sent 5 bytes w).1
  unfolding after HostSpi.spi_transceive
  after-exchange bytes w fits =
      rw (ltb-false req_max (length bytes) fits, after)
        (finish_size-world (length bytes) (sent 5 bytes w).0 (sent 5 bytes w).1)
