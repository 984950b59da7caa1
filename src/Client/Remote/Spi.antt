-- ===== src/Client/Remote/Spi.antt =====
-- spi_transceive of the client on an SPI device of the board.
pub mod Ask
pub mod Calls
pub mod Session
use jabi.Prelude.{
  Bool, true, zero, suc, [], ◌∷◌, sym, if◌then◌else◌, ℕ, ◌^◌, ◌≤◌, ◌<◌, ◌≡◌, refl, ap, ◌∙◌, arith,
  false, some, List, ◌++◌, ltb, ltb-false, length, get_elem?, set, take-append_self, All,
}
use jabi.Bytes.{IsByte}
use jabi.Packet.{Target}
use jabi.Periph.{fail, busy_err, Reply, Handler, on_device}
use jabi.Serve.Answer.{KeepsOrder}
use jabi.Board.{Board, Devices, on_part, api_of, peripherals}
use jabi.Board.Fit.{IsBoard, AreSound}
use jabi.Spi.Driver.{SpiEnv, exchanges}
use jabi.Spi.Device.{
  Spi, current, spi_update_config, run_transfer, spi_transceive_j, spi_periph_api,
}
use jabi.Client.{Endian, IfaceDynamicResp}
use jabi.Client.Interface.{Result, Interface, request}
use jabi.Client.Link.{Firmware, IsReady}
use jabi.Client.Routed.{reply_result, refused}
use jabi.Client.Remote.{
  Fits, request-Refused, device, request-Done, on_device-short, answer_for, finish_size, data_reply,
  finish_size-data_reply,
}
use jabi.Client.Spi as HostSpi

set_found : {A : Type 0} (xs : List A) (i : ℕ) (x : A) → get_elem? xs i ≡ some x → set xs i x ≡ xs
set_found [] i x h = refl
set_found (y ∷ xs) zero x h = let same : y ≡ x = cc in ap (λ z. z ∷ xs) (sym same)
set_found (y ∷ xs) (suc i) x h = ap (◌∷◌ y) (set_found xs i x h)

module _ (e : SpiEnv) where
  -- No answer is longer than the response array.
  pub spi_transceive_j-short :
      (spi : Spi e) (req : List ℕ) (n : ℕ) → (spi_transceive_j e spi req n).1.resp_len ≤ e.resp_max
  unfolding spi_transceive_j
  spi_transceive_j-short spi req n = ground arith

  -- The firmware's side of the call.
  pub spi_transceive_j-exchanges :
      (spi : Spi e) (bytes rest : List ℕ)
      → length bytes ≤ e.resp_max
      → let ran = run_transfer e spi (exchanges bytes) in
        spi_transceive_j e spi (bytes ++ rest) (length bytes)
        ≡ (ran.2, data_reply ran.0 ran.1 (length bytes))
  unfolding spi_transceive_j
  spi_transceive_j-exchanges spi bytes rest room =
      rw (take-append_self bytes rest, ltb-false e.resp_max (length bytes) room) (ground arith)

  -- A transfer fills the receive buffer.
  length-run_transfer :
      (spi : Spi e) (bytes : List ℕ)
      → length (run_transfer e spi (exchanges bytes)).1 ≡ length bytes
  unfolding run_transfer
  length-run_transfer spi bytes =
      let spi' = spi_update_config e spi in
      e.rx-length spi'.bus (exchanges bytes) spi'.curr_cfg (current e spi')

module _ (b : Board) (is_board : IsBoard b) (keeps_order : KeepsOrder b.metadata.target)
    (e : Endian) (packet_size : ℕ) (positive : 0 < packet_size) (req_max resp_max : ℕ) where
  abbrev pub on_usb : Bool → Interface (Firmware (Devices b))
  on_usb = device b is_board keeps_order e packet_size positive req_max resp_max

  -- A call of a function of spi.c on the device `spi`, with this payload.
  pub record Called (idx : ℕ) (spi : Spi b.spi) (g : Spi b.spi → List ℕ → ℕ → Spi b.spi × Reply)
      (payload : List ℕ) (w : Firmware (Devices b))
      (out : Result IfaceDynamicResp × Firmware (Devices b)) : Type 0 where
    pub rest : List ℕ
    pub result : out.0 ≡ reply_result (g spi (payload ++ rest) (length payload)).1
    pub state :
        out.1.state
        ≡ record w.state { spi = set w.state.spi idx (g spi (payload ++ rest) (length payload)).0 }
    pub ready : IsReady b.metadata.target (AreSound b) out.1

  abbrev pub on_spis : (Spi b.spi → List ℕ → ℕ → Spi b.spi × Reply) → Handler (Devices b)
  on_spis g = on_part (λ d. d.spi) (λ s d. record d { spi = s }) (on_device g)

  abbrev pub spi_fns : List (Handler (Devices b))
  spi_fns = (api_of (λ d. d.spi) (λ s d. record d { spi = s }) (spi_periph_api b.spi b.spi_num)).fns

  on_spis-Fits :
      (idx : ℕ) (g : Spi b.spi → List ℕ → ℕ → Spi b.spi × Reply) (fn : ℕ) (payload : List ℕ)
      → idx < b.spi_num
      → idx < 2 ^ 16
      → get_elem? spi_fns fn ≡ some (on_spis g)
      → fn < 2 ^ 16
      → length payload ≤ req_max
      → length payload ≤ b.metadata.req_max
      → All IsByte payload
      → ((spi : Spi b.spi) (req : List ℕ) (n : ℕ) → (g spi req n).1.resp_len ≤ resp_max)
      → Fits b is_board keeps_order e packet_size positive req_max resp_max 7 idx fn payload
          (on_spis g)
  unfolding peripherals spi_periph_api
  on_spis-Fits idx g fn payload exists small offered fn_fits room room' are_bytes short = record {
    reaches = record {
      api = _;
      known = omega arith;
      listed = refl;
      instance_exists = exists;
      offered = offered;
    };
    id_fits = omega arith;
    idx_fits = small;
    fn_fits = fn_fits;
    sent = room;
    received = room';
    bytes = are_bytes;
    short = λ d array. on_device-short g resp_max short d.spi idx array (length payload);
  }

  -- A function under the lock of its device.
  abbrev pub locked :
      Bool
      → (Spi b.spi → List ℕ → ℕ → Spi b.spi × Reply)
      → Spi b.spi
      → List ℕ
      → ℕ
      → Spi b.spi × Reply
  locked true g = g
  locked false g = λ spi req n. (spi, fail busy_err)

  pub call-Called :
      (taken : Bool) (w : Firmware (Devices b)) (idx : ℕ) (spi : Spi b.spi)
      (g : Spi b.spi → List ℕ → ℕ → Spi b.spi × Reply) (fn : ℕ) (payload : List ℕ)
      → IsReady b.metadata.target (AreSound b) w
      → idx < b.spi_num
      → idx < 2 ^ 16
      → get_elem? w.state.spi idx ≡ some spi
      → get_elem? spi_fns fn ≡ some (on_spis g)
      → fn < 2 ^ 16
      → length payload ≤ req_max
      → length payload ≤ b.metadata.req_max
      → All IsByte payload
      → ((spi : Spi b.spi) (req : List ℕ) (n : ℕ) → (g spi req n).1.resp_len ≤ resp_max)
      → Called idx spi
          (locked taken g)
          payload
          w
          ((on_usb taken).send_request (request 7 idx fn payload) w)
  call-Called true w idx spi g fn payload ready exists small found offered fn_fits room room'
        are_bytes short =
      let d =
        request-Done b is_board keeps_order e packet_size positive req_max resp_max w 7 idx fn
          payload (on_spis g) ready
          (on_spis-Fits idx g fn payload exists small offered fn_fits room room' are_bytes short) in
      let ran = g spi (payload ++ d.rest) (length payload) in
      let side : on_spis g w.state idx (payload ++ d.rest) (length payload)
          ≡ (record w.state { spi = set w.state.spi idx ran.0 }, ran.1) =
        rw (found, on_device) refl in
      record {
        rest = d.rest;
        result = d.result ∙ ap (λ p. reply_result p.1) side;
        state = d.state ∙ ap (λ p. p.0) side;
        ready = d.ready;
      }
  call-Called false w idx spi g fn payload ready exists small found offered fn_fits room room'
        are_bytes short =
      let d =
        request-Refused b is_board keeps_order e packet_size positive req_max resp_max w 7 idx fn
          payload (on_spis g) ready
          (on_spis-Fits idx g fn payload exists small offered fn_fits room room' are_bytes short) in
      record {
        rest = [];
        result = d.result;
        state =
            d.state
            ∙ ap (λ xs. record w.state { spi = xs }) (sym (set_found w.state.spi idx spi found));
        ready = d.ready;
      }

  -- On a little-endian board, one build with its whole table of peripherals, whose arrays have
  -- their sizes, whose devices are in order, which exchanges packets of a positive size with
  -- the host and has only empty transfers pending and none begun, spi_transceive of the client
  -- does to the device that its index names one exchange of the caller's bytes, in the
  -- configuration that the device then has, and nothing to the rest of the board. It returns
  -- the bytes that came back, or throws the code of a peripheral error if the driver fails. The
  -- bytes fit the requests of both ends and the board's responses, which the client takes at
  -- any length. All this holds if the lock of the device is taken in time; otherwise the call
  -- throws the code of JABI_BUSY_ERR, and the board's peripherals stay as they are.
  pub spi_transceive-run_transfer :
      (taken : Bool) (w : Firmware (Devices b)) (idx : ℕ) (spi : Spi b.spi) (bytes : List ℕ)
      → IsReady b.metadata.target (AreSound b) w
      → idx < b.spi_num
      → idx < 2 ^ 16
      → get_elem? w.state.spi idx ≡ some spi
      → b.metadata.resp_max ≤ resp_max
      → length bytes ≤ req_max
      → length bytes ≤ b.metadata.req_max
      → length bytes ≤ b.metadata.resp_max
      → All IsByte bytes
      → let ran = run_transfer b.spi spi (exchanges bytes) in
        let out = HostSpi.spi_transceive (on_usb taken) bytes idx w in
        (out.0 ≡ (if taken then answer_for ran.0 ran.1 else refused))
        × (out.1.state
            ≡ (if taken then record w.state { spi = set w.state.spi idx ran.2 } else w.state))
  unfolding spi_periph_api HostSpi.spi_transceive
  spi_transceive-run_transfer true w idx spi bytes ready exists small found all_fit room room' fits
        are_bytes =
      let same_max : b.spi.resp_max ≡ b.metadata.resp_max =
        ap (λ (t : Target). t.resp_max) is_board.spi in
      let d =
        call-Called true w idx spi (spi_transceive_j b.spi) 5 bytes ready exists small found refl
          (omega arith) room room' are_bytes
          (λ spi req n. omega (arith, spi_transceive_j-short b.spi spi req n, same_max, all_fit)) in
      let ran = run_transfer b.spi spi (exchanges bytes) in
      let there =
        spi_transceive_j-exchanges b.spi spi bytes d.rest (omega (arith, same_max, fits)) in
      let after = (on_usb true).send_request (request 7 idx 5 bytes) w in
      let ends =
        ap (λ q. finish_size (length bytes) q after.1) (d.result ∙ ap (λ p. reply_result p.1) there)
        ∙ finish_size-data_reply ran.0 ran.1 (length bytes) after.1
            (length-run_transfer b.spi spi bytes) in
      let guard : ltb req_max (length bytes) ≡ false = ltb-false req_max (length bytes) room in
      rw guard (
        ap (λ p. p.0) ends,
        ap (λ p. p.1.state) ends
            ∙ d.state
            ∙ ap (λ p. record w.state { spi = set w.state.spi idx p.0 }) there,
      )
  spi_transceive-run_transfer false w idx spi bytes ready exists small found all_fit room room' fits
        are_bytes =
      let same_max : b.spi.resp_max ≡ b.metadata.resp_max =
        ap (λ (t : Target). t.resp_max) is_board.spi in
      let d =
        request-Refused b is_board keeps_order e packet_size positive req_max resp_max w 7 idx 5
          bytes (on_spis (spi_transceive_j b.spi)) ready
          (on_spis-Fits idx (spi_transceive_j b.spi) 5 bytes exists small refl (omega arith) room
            room' are_bytes
            (λ spi req n.
              omega (arith, spi_transceive_j-short b.spi spi req n, same_max, all_fit))) in
      let after = (on_usb false).send_request (request 7 idx 5 bytes) w in
      let ends = ap (λ q. finish_size (length bytes) q after.1) d.result in
      let guard : ltb req_max (length bytes) ≡ false = ltb-false req_max (length bytes) room in
      rw guard (ap (λ p. p.0) ends, ap (λ p. p.1.state) ends ∙ d.state)
