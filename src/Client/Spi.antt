-- ===== src/Client/Spi.antt =====
-- clients/cpp/libjabi/peripherals/spi.cpp
use jabi.Prelude.{ℕ, ◌%◌, ◌^◌, Bool, List, [], ◌∷◌, ltb, length}
use jabi.Client.{put16, put32}
use jabi.Client.Interface.{
  Action, Interface, ◌>>=◌, ◌>>◌, throw_if, request, expect_size, expect_empty, data_too_long,
}
use jabi.Client.Can.{byte_of}

module _ {W : Type 0} (i : Interface W) where
  unfoldable pub spi_set_freq : ℕ → ℕ → Action W (Unit {0})
  spi_set_freq freq idx = do
    resp ← i.send_request (request 7 idx 0 (put32 i.endian freq))
    expect_empty resp

  unfoldable pub spi_set_mode : ℕ → ℕ → Action W (Unit {0})
  spi_set_mode mode idx = do
    resp ← i.send_request (request 7 idx 1 (mode % 2 ^ 8 ∷ []))
    expect_empty resp

  unfoldable pub spi_set_bitorder : Bool → ℕ → Action W (Unit {0})
  spi_set_bitorder msb idx = do
    resp ← i.send_request (request 7 idx 2 (byte_of msb ∷ []))
    expect_empty resp

  unfoldable pub spi_write : List ℕ → ℕ → Action W (Unit {0})
  spi_write bytes idx = do
    throw_if (ltb i.req_max_size (length bytes)) data_too_long
    resp ← i.send_request (request 7 idx 3 bytes)
    expect_empty resp

  unfoldable pub spi_read : ℕ → ℕ → Action W (List ℕ)
  spi_read len idx = do
    resp ← i.send_request (request 7 idx 4 (put16 i.endian len))
    expect_size len resp

  unfoldable pub spi_transceive : List ℕ → ℕ → Action W (List ℕ)
  spi_transceive bytes idx = do
    throw_if (ltb i.req_max_size (length bytes)) data_too_long
    resp ← i.send_request (request 7 idx 5 bytes)
    expect_size (length bytes) resp
