-- ===== src/Client/Remote/I2c.antt =====
-- i2c_transceive of the client on an I2C bus of the board.
use jabi.Prelude.{
  true, false, Bool, if◌then◌else◌, ℕ, ◌+◌, ◌^◌, ◌≤◌, ◌<◌, ◌≡◌, refl, ap, ◌∙◌, arith, Bool, false,
  some, List, ◌++◌, ltb, ltb-false, if◌then◌else◌, length, get_elem?, set, All,
}
use jabi.Bytes.{IsByte, le_bytes16}
use jabi.Packet.{Target}
use jabi.Periph.{Handler, on_device, fail, invalid_args_err}
use jabi.Serve.Answer.{KeepsOrder}
use jabi.Board.{Board, Devices, on_part, peripherals}
use jabi.Board.Fit.{IsBoard, AreSound}
use jabi.I2c.{I2cEnv, i2c_transceive, i2c_periph_api}
use jabi.I2c.Decode.{i2c_transceive_lem}
use jabi.Client.{Endian, put16-le}
use jabi.Client.Interface.{Interface, request}
use jabi.Client.Link.{Firmware, IsReady}
use jabi.Client.Routed.{reply_result}
use jabi.Client.Routed.{refused}
use jabi.Client.Remote.{
  Fits, request-Refused, device, request-Done, on_device-short, answer_for, finish_size, data_reply,
  finish_size-data_reply,
}
use jabi.Client.I2c as HostI2c

module _ (e : I2cEnv) where
  -- No answer is longer than the response array.
  i2c_transceive-short :
      (bus : e.Bus) (req : List ℕ) (n : ℕ) → (i2c_transceive e bus req n).1.resp_len ≤ e.resp_max
  unfolding i2c_transceive
  i2c_transceive-short bus req n = ground arith

-- The payload of a request to write `bytes` and read `n`.
abbrev transfer : ℕ → ℕ → List ℕ → List ℕ
transfer addr n bytes = le_bytes16 addr ++ (le_bytes16 n ++ bytes)

transfer-bytes :
    (addr n : ℕ) (bytes : List ℕ) → All IsByte bytes → All IsByte (transfer addr n bytes)
transfer-bytes addr n bytes h = (omega arith, (omega arith, (omega arith, (omega arith, h))))

module _ (e : I2cEnv) where
  -- The firmware's side of the call.
  i2c_transceive-transfer :
      (bus : e.Bus) (addr n : ℕ) (bytes rest : List ℕ)
      → addr < 2 ^ 16
      → n < 2 ^ 16
      → n ≤ e.resp_max
      → i2c_transceive e bus (transfer addr n bytes ++ rest) (length (transfer addr n bytes)) ≡ (
        (e.write_read bus addr bytes n).2,
        data_reply (e.write_read bus addr bytes n).0 (e.write_read bus addr bytes n).1 n,
      )
  i2c_transceive-transfer bus addr n bytes rest addr_fits n_fits room =
      let fits : ltb e.resp_max n ≡ false = ltb-false e.resp_max n room in
      let out = e.write_read bus addr bytes n in
      let size : length (transfer addr n bytes) ≡ 4 + length bytes = omega arith in
      ap (i2c_transceive e bus (transfer addr n bytes ++ rest)) size
      ∙ i2c_transceive_lem e bus addr addr_fits n bytes rest n_fits
      ∙ ap
          (λ (big : Bool).
            if big then (bus, fail invalid_args_err) else (out.2, data_reply out.0 out.1 n))
          fits

module _ (b : Board) (is_board : IsBoard b) (keeps_order : KeepsOrder b.metadata.target)
    (e : Endian) (packet_size : ℕ) (positive : 0 < packet_size) (req_max resp_max : ℕ) where
  abbrev on_usb : Bool → Interface (Firmware (Devices b))
  on_usb = device b is_board keeps_order e packet_size positive req_max resp_max

  abbrev on_i2c : Handler (Devices b)
  on_i2c = on_part (λ d. d.i2c) (λ s d. record d { i2c = s }) (on_device (i2c_transceive b.i2c))

  transfer-Fits :
      (idx addr n : ℕ) (bytes : List ℕ)
      → idx < b.i2c_num
      → idx < 2 ^ 16
      → b.metadata.resp_max ≤ resp_max
      → 4 + length bytes ≤ req_max
      → 4 + length bytes ≤ b.metadata.req_max
      → All IsByte bytes
      → Fits b is_board keeps_order e packet_size positive req_max resp_max 2 idx 3
          (transfer addr n bytes)
          on_i2c
  unfolding peripherals i2c_periph_api
  transfer-Fits idx addr n bytes exists small all_fit room room' are_bytes =
      let same_max : b.i2c.resp_max ≡ b.metadata.resp_max =
        ap (λ (t : Target). t.resp_max) is_board.i2c in
      record {
        reaches = record {
          api = _;
          known = omega arith;
          listed = refl;
          instance_exists = exists;
          offered = refl;
        };
        id_fits = omega arith;
        idx_fits = small;
        fn_fits = omega arith;
        sent = omega (arith, room);
        received = omega (arith, room');
        bytes = transfer-bytes addr n bytes are_bytes;
        short = λ d array. omega (
          arith,
          on_device-short (i2c_transceive b.i2c) b.i2c.resp_max (i2c_transceive-short b.i2c) d.i2c
              idx array (length (transfer addr n bytes)),
          same_max,
          all_fit,
        );
      }

  -- On a little-endian board, one build with its whole table of peripherals, whose arrays have
  -- their sizes, whose devices are in order, which exchanges packets of a positive size with
  -- the host and has only empty transfers pending and none begun, i2c_transceive of the client
  -- does one transfer on the bus that its index names: it writes the caller's bytes to the
  -- caller's 16-bit address and reads the number of bytes asked for. It returns what the driver
  -- read, or throws the code of a peripheral error if the driver fails, and nothing else of the
  -- board changes. The request fits both ends and the answer the board's responses, which the
  -- client takes at any length. All this holds if the lock of the device is taken in time;
  -- otherwise the call throws the code of JABI_BUSY_ERR, and the board's peripherals stay as
  -- they are.
  pub i2c_transceive-write_read :
      (taken : Bool) (w : Firmware (Devices b)) (idx : ℕ) (bus : b.i2c.Bus) (addr n : ℕ)
      (bytes : List ℕ)
      → IsReady b.metadata.target (AreSound b) w
      → idx < b.i2c_num
      → idx < 2 ^ 16
      → get_elem? w.state.i2c idx ≡ some bus
      → addr < 2 ^ 16
      → n ≤ b.metadata.resp_max
      → b.metadata.resp_max ≤ resp_max
      → 4 + length bytes ≤ req_max
      → 4 + length bytes ≤ b.metadata.req_max
      → All IsByte bytes
      → let ran = b.i2c.write_read bus addr bytes n in
        let out = HostI2c.i2c_transceive (on_usb taken) addr bytes n idx w in
        (out.0 ≡ (if taken then answer_for ran.0 ran.1 else refused))
        × (out.1.state
            ≡ (if taken then record w.state { i2c = set w.state.i2c idx ran.2 } else w.state))
  unfolding HostI2c.i2c_transceive
  i2c_transceive-write_read true w idx bus addr n bytes ready exists small found addr_fits n_fits
        all_fit room room' are_bytes =
      let payload = transfer addr n bytes in
      let same_max : b.i2c.resp_max ≡ b.metadata.resp_max =
        ap (λ (t : Target). t.resp_max) is_board.i2c in
      let n_small : n < 2 ^ 16 = omega (arith, n_fits, b.metadata.target.resp_max-lt) in
      let d =
        request-Done b is_board keeps_order e packet_size positive req_max resp_max w 2 idx 3
          payload on_i2c ready
          (transfer-Fits idx addr n bytes exists small all_fit room room' are_bytes) in
      let ran = b.i2c.write_read bus addr bytes n in
      let ran_there =
        i2c_transceive-transfer b.i2c bus addr n bytes d.rest addr_fits n_small
          (omega (arith, same_max, n_fits)) in
      let side : on_i2c w.state idx (payload ++ d.rest) (length payload)
          ≡ (record w.state { i2c = set w.state.i2c idx ran.2 }, data_reply ran.0 ran.1 n) =
        rw (found, on_device, ran_there) refl in
      let after = (on_usb true).send_request (request 2 idx 3 payload) w in
      let ends =
        ap (λ q. finish_size n q after.1) (d.result ∙ ap (λ p. reply_result p.1) side)
        ∙ finish_size-data_reply ran.0 ran.1 n after.1 (b.i2c.length-write_read bus addr bytes n) in
      let guard : ltb req_max (4 + length bytes) ≡ false =
        ltb-false req_max (4 + length bytes) room in
      rw (guard, put16-le e addr addr_fits, put16-le e n n_small)
        (ap (λ p. p.0) ends, ap (λ p. p.1.state) ends ∙ d.state ∙ ap (λ p. p.0) side)
  i2c_transceive-write_read false w idx bus addr n bytes ready exists small found addr_fits n_fits
        all_fit room room' are_bytes =
      let payload = transfer addr n bytes in
      let n_small : n < 2 ^ 16 = omega (arith, n_fits, b.metadata.target.resp_max-lt) in
      let d =
        request-Refused b is_board keeps_order e packet_size positive req_max resp_max w 2 idx 3
          payload on_i2c ready
          (transfer-Fits idx addr n bytes exists small all_fit room room' are_bytes) in
      let after = (on_usb false).send_request (request 2 idx 3 payload) w in
      let ends = ap (λ q. finish_size n q after.1) d.result in
      let guard : ltb req_max (4 + length bytes) ≡ false =
        ltb-false req_max (4 + length bytes) room in
      rw (guard, put16-le e addr addr_fits, put16-le e n n_small)
        (ap (λ p. p.0) ends, ap (λ p. p.1.state) ends ∙ d.state)
