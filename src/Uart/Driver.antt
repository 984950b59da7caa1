-- ===== src/Uart/Driver.antt =====
-- What uart.c uses of Zephyr's UART driver.
use jabi.Prelude.{ℕ, Bool, Option, List}
use jabi.Packet.{Target}
use jabi.Kernel.{SemApi, MsgqApi}

-- enum uart_config_data_bits and its kin
pub data DataBits : Type 0 where
  bits5 bits6 bits7 bits8 bits9 : DataBits

pub data Parity : Type 0 where
  parity_none parity_odd parity_even parity_mark parity_space : Parity

pub data StopBits : Type 0 where
  stop_0_5 stop_1 stop_1_5 stop_2 : StopBits

-- struct uart_config, with UART_CFG_FLOW_CTRL_NONE.
pub record UartConfig : Type 0 where
  pub baudrate : ℕ
  pub data_bits : DataBits
  pub parity : Parity
  pub stop_bits : StopBits

-- What one turn of the handler's loop finds: whether the transmitter is ready, how many bytes
-- uart_fifo_fill would accept, whether bytes have arrived, and those that uart_fifo_read gives.
-- `none` is an error.
pub record IsrTurn : Type 0 where
  pub tx_ready : Bool
  pub filled : Option ℕ
  pub rx_ready : Bool
  pub received : Option (List ℕ)

pub record UartEnv : Type 1 where
  pub target : Target
  pub open target use *
  pub sems : SemApi
  pub open sems use *
  pub rx : MsgqApi ℕ
  pub open rx use *
  pub Port : Type 0
  -- uart_configure; true is success.
  pub uart_configure : Port → UartConfig → Bool × Port
  -- The turns of the handler while a function waits at most TX_TIMEOUT or RX_TIMEOUT.
  pub wait_tx : Port → List IsrTurn × Port
  pub wait_rx : Port → List IsrTurn × Port
