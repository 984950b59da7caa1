-- ===== src/I2c.antt =====
-- firmware/src/peripherals/i2c.c. Zephyr's I2C driver is a parameter.
pub mod Fit
pub mod Decode
use jabi.Prelude.{
  ℕ, ◌-◌, Bool, not, Option, none, some, List, [], ◌∷◌, ltb, ◌==◌, if◌then◌else◌, length, get_or,
  take, drop, ◌≡◌,
}
use jabi.Packet.{Target, le16_at}
use jabi.Periph.{
  Reply, Api, on_device, fail, done, no_err, invalid_args_format_err, invalid_args_err,
  peripheral_err,
}

-- I2C_SPEED_STANDARD and so on
pub data Speed : Type 0 where
  standard fast fast_plus high ultra : Speed

-- The driver's calls. A Boolean is true for success; a read fills the buffer that it is given.
pub record I2cEnv : Type 1 where
  pub target : Target
  pub open target use *
  pub Bus : Type 0
  pub configure : Bus → Speed → Bool × Bus
  pub write : Bus → List ℕ → ℕ → Bool × Bus
  pub read : Bus → ℕ → ℕ → Bool × List ℕ × Bus
  pub write_read : Bus → ℕ → List ℕ → ℕ → Bool × List ℕ × Bus
  pub length-read : (b : Bus) (n addr : ℕ) → length (read b n addr).1 ≡ n
  pub length-write_read :
      (b : Bus) (addr : ℕ) (tx : List ℕ) (n : ℕ) → length (write_read b addr tx n).1 ≡ n

abbrev pub speed_of : ℕ → Option Speed
speed_of preset =
    if preset == 0
    then some standard
    else if preset == 1
    then some fast
    else if preset == 2
    then some fast_plus
    else if preset == 3
    then some high
    else if preset == 4
    then some ultra
    else none

module _ (e : I2cEnv) where
  unfoldable pub i2c_set_freq : e.Bus → List ℕ → ℕ → e.Bus × Reply
  i2c_set_freq bus req req_len =
      if not (req_len == 1)
      then (bus, fail invalid_args_format_err)
      else elim (speed_of (get_or req 0 0)) [
        | none ↦ (bus, fail invalid_args_err)
        | some speed ↦
            let (ok, bus') = e.configure bus speed in
            (bus', if ok then done else fail peripheral_err)
      ]

  unfoldable pub i2c_write_j : e.Bus → List ℕ → ℕ → e.Bus × Reply
  i2c_write_j bus req req_len =
      let addr = le16_at e.target req 0 in
      let data_len = req_len - 2 in
      let (ok, bus') = e.write bus (take data_len (drop 2 req)) addr in
      if ltb req_len 2
      then (bus, fail invalid_args_format_err)
      else (bus', if ok then done else fail peripheral_err)

  unfoldable pub i2c_read_j : e.Bus → List ℕ → ℕ → e.Bus × Reply
  i2c_read_j bus req req_len =
      let addr = le16_at e.target req 0 in
      let data_len = le16_at e.target req 2 in
      let (ok, rx, bus') = e.read bus data_len addr in
      if not (req_len == 4)
      then (bus, fail invalid_args_format_err)
      else if ltb e.resp_max data_len
      then (bus, fail invalid_args_err)
      else (
        bus',
        if ok
            then record { retcode = no_err; resp = rx; resp_len = data_len }
            else fail peripheral_err,
      )

  unfoldable pub i2c_transceive : e.Bus → List ℕ → ℕ → e.Bus × Reply
  i2c_transceive bus req req_len =
      let addr = le16_at e.target req 0 in
      let data_len = le16_at e.target req 2 in
      let tx_len = req_len - 4 in
      let (ok, rx, bus') = e.write_read bus addr (take tx_len (drop 4 req)) data_len in
      if ltb req_len 4
      then (bus, fail invalid_args_format_err)
      else if ltb e.resp_max data_len
      then (bus, fail invalid_args_err)
      else (
        bus',
        if ok
            then record { retcode = no_err; resp = rx; resp_len = data_len }
            else fail peripheral_err,
      )

  -- i2c_periph_fns and i2c_periph_api; i2c_init does nothing.
  unfoldable pub i2c_periph_api : ℕ → Api (List e.Bus)
  i2c_periph_api num = record {
    num_idx = num;
    fns =
        on_device i2c_set_freq
        ∷ on_device i2c_write_j
        ∷ on_device i2c_read_j
        ∷ on_device i2c_transceive
        ∷ [];
  }
