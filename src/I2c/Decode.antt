-- ===== src/I2c/Decode.antt =====
-- What the bus is asked to do, for the requests that i2c.h describes.
use jabi.Prelude.{
  ℕ, ◌+◌, ◌-◌, ◌/◌, ◌%◌, ◌^◌, ◌<◌, ◌≡◌, arith, false, List, ◌++◌, length, if◌then◌else◌, ltb,
  take-append_self, ltb-false,
}
use jabi.Bytes.{le16_value, le_bytes16}
use jabi.Periph.{done, fail, no_err, peripheral_err, invalid_args_err}
use jabi.I2c.{I2cEnv, i2c_write_j, i2c_transceive}

module _ (e : I2cEnv) (bus : e.Bus) (addr : ℕ) (addr_fits : addr < 2 ^ 16) where
  -- i2c_write_j sends exactly the data of its request to the address of its request, whatever
  -- the request buffer holds behind them.
  i2c_write_j_lem :
      (payload rest : List ℕ)
      → i2c_write_j e bus (le_bytes16 addr ++ payload ++ rest) (2 + length payload) ≡ (
        (e.write bus payload addr).1,
        if (e.write bus payload addr).0 then done else fail peripheral_err,
      )
  unfolding i2c_write_j
  i2c_write_j_lem payload rest =
      let len : 2 + length payload - 2 ≡ length payload = omega arith in
      let long : ltb (2 + length payload) 2 ≡ false = ltb-false _ _ (omega arith) in
      rw (
        e.le16_to_cpu-load16 (addr % 256) (addr / 256 % 256) (omega arith) (omega arith),
        le16_value addr addr_fits,
        len,
        take-append_self payload rest,
        long,
      )

  -- i2c_transceive writes exactly the data of its request and reads the number of bytes asked
  -- for, at its address, whatever the request buffer holds behind them; a read that does not
  -- fit the response is refused and leaves the bus alone.
  pub i2c_transceive_lem :
      (n : ℕ) (payload rest : List ℕ)
      → n < 2 ^ 16
      → i2c_transceive e bus
          (le_bytes16 addr ++ (le_bytes16 n ++ (payload ++ rest)))
          (4 + length payload)
        ≡ (let out = e.write_read bus addr payload n in
            if ltb e.resp_max n then (bus, fail invalid_args_err) else (
              out.2,
              if out.0
                  then record { retcode = no_err; resp = out.1; resp_len = n }
                  else fail peripheral_err,
            ))
  unfolding i2c_transceive
  i2c_transceive_lem n payload rest small =
      let len : 4 + length payload - 4 ≡ length payload = omega arith in
      let long : ltb (4 + length payload) 4 ≡ false = ltb-false _ _ (omega arith) in
      rw (
        e.le16_to_cpu-load16 (addr % 256) (addr / 256 % 256) (omega arith) (omega arith),
        e.le16_to_cpu-load16 (n % 256) (n / 256 % 256) (omega arith) (omega arith),
        le16_value addr addr_fits,
        le16_value n small,
        len,
        take-append_self payload rest,
        long,
      )
