-- ===== src/Tests.antt =====
-- Concrete targets, devices and histories on which the theorems are applied.
mod Protocol
mod Boot
mod CanBus
mod SpiBus
mod Pins
mod UartLine
mod LinBus
mod WholeBoard
mod Host
mod SerialLine
mod UsbBus
mod SpiSession
use jabi.Prelude.{ℕ, ◌≤◌, ◌<◌, arith, List, [], ◌∷◌, replicate, length, All}
use jabi.Bytes.Orders.{little_endian}
use jabi.Packet.{Target, Req, Call, IsCall}
use jabi.Serve.Echo.{echo_call}
use jabi.Metadata.{Build}

-- A little-endian target with the smallest arrays.
abbrev small : Target
small = record {
  order = little_endian;
  req_max = 128;
  resp_max = 128;
  req_max-ge = omega arith;
  resp_max-ge = omega arith;
  req_max-lt = omega arith;
  resp_max-lt = omega arith;
}

abbrev zeros : List ℕ
zeros = replicate 128 0

abbrev blank : Req
blank = record { periph_id = 0; periph_idx = 0; periph_fn = 0; payload_len = 0; payload = zeros }

abbrev build : Build
build = record { target = small; serial_bytes = 74 ∷ 49 ∷ []; num_idxs = 1 ∷ 0 ∷ [] }

abbrev hello : Call
hello = echo_call (7 ∷ 8 ∷ 9 ∷ [])

hello-IsCall : IsCall small hello
hello-IsCall = record {
  id_fits = omega arith;
  idx_fits = omega arith;
  fn_fits = omega arith;
  args_fit = omega arith;
  args_bytes = (omega arith, (omega arith, (omega arith, tt)));
}
