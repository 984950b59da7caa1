-- ===== src/Client/Uart.antt =====
-- clients/cpp/libjabi/peripherals/uart.cpp
use jabi.Prelude.{ℕ, ◌%◌, ◌^◌, List, [], ◌∷◌, ◌++◌, ltb, length}
use jabi.Client.{put16, put32}
use jabi.Client.Interface.{
  Action, Interface, pure, ◌>>=◌, ◌>>◌, throw_if, request, expect_empty, data_too_long,
  unexpected_payload_length,
}

-- enum class UARTParity; `no_parity` is NONE.
pub data UartParity : Type 0 where
  no_parity odd even mark space : UartParity

-- enum class UARTStop
pub data UartStop : Type 0 where
  b0_5 b1 b1_5 b2 : UartStop

abbrev pub uart_parity_code : UartParity → ℕ
uart_parity_code no_parity = 0
uart_parity_code odd = 1
uart_parity_code even = 2
uart_parity_code mark = 3
uart_parity_code space = 4

abbrev pub uart_stop_code : UartStop → ℕ
uart_stop_code b0_5 = 0
uart_stop_code b1 = 1
uart_stop_code b1_5 = 2
uart_stop_code b2 = 3

module _ {W : Type 0} (i : Interface W) where
  unfoldable pub uart_set_config : ℕ → ℕ → UartParity → UartStop → ℕ → Action W (Unit {0})
  uart_set_config baud data_bits parity stop idx = do
    let bytes = data_bits % 2 ^ 8 ∷ uart_parity_code parity ∷ uart_stop_code stop ∷ []
    resp ← i.send_request (request 8 idx 0 (put32 i.endian baud ++ bytes))
    expect_empty resp

  unfoldable pub uart_write : List ℕ → ℕ → Action W (Unit {0})
  uart_write bytes idx = do
    throw_if (ltb i.req_max_size (length bytes)) data_too_long
    resp ← i.send_request (request 8 idx 1 bytes)
    expect_empty resp

  unfoldable pub uart_read : ℕ → ℕ → Action W (List ℕ)
  uart_read len idx = do
    resp ← i.send_request (request 8 idx 2 (put16 i.endian len))
    throw_if (ltb len (length resp.payload)) unexpected_payload_length
    pure resp.payload
