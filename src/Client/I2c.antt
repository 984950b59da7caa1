-- ===== src/Client/I2c.antt =====
-- clients/cpp/libjabi/peripherals/i2c.cpp
use jabi.Prelude.{ℕ, ◌+◌, List, [], ◌∷◌, ◌++◌, ltb, length}
use jabi.Client.{put16}
use jabi.Client.Interface.{
  Action, Interface, ◌>>=◌, ◌>>◌, throw_if, request, expect_size, expect_empty, data_too_long,
}

-- enum class I2CFreq
pub data I2cFreq : Type 0 where
  standard fast fast_plus high ultra : I2cFreq

abbrev pub i2c_freq_code : I2cFreq → ℕ
i2c_freq_code standard = 0
i2c_freq_code fast = 1
i2c_freq_code fast_plus = 2
i2c_freq_code high = 3
i2c_freq_code ultra = 4

module _ {W : Type 0} (i : Interface W) where
  unfoldable pub i2c_set_freq : I2cFreq → ℕ → Action W (Unit {0})
  i2c_set_freq preset idx = do
    resp ← i.send_request (request 2 idx 0 (i2c_freq_code preset ∷ []))
    expect_empty resp

  unfoldable pub i2c_write : ℕ → List ℕ → ℕ → Action W (Unit {0})
  i2c_write addr bytes idx = do
    throw_if (ltb i.req_max_size (2 + length bytes)) data_too_long
    resp ← i.send_request (request 2 idx 1 (put16 i.endian addr ++ bytes))
    expect_empty resp

  unfoldable pub i2c_read : ℕ → ℕ → ℕ → Action W (List ℕ)
  i2c_read addr len idx = do
    resp ← i.send_request (request 2 idx 2 (put16 i.endian addr ++ put16 i.endian len))
    expect_size len resp

  unfoldable pub i2c_transceive : ℕ → List ℕ → ℕ → ℕ → Action W (List ℕ)
  i2c_transceive addr bytes read_len idx = do
    throw_if (ltb i.req_max_size (4 + length bytes)) data_too_long
    resp ←
        i.send_request (request 2 idx 3 (put16 i.endian addr ++ put16 i.endian read_len ++ bytes))
    expect_size read_len resp
