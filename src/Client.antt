-- ===== src/Client.antt =====
-- clients/cpp/libjabi: byteorder.h, and the request and response of interfaces/interface.h. A C++
-- int is its 32-bit pattern, so a cast to a smaller type is a remainder.
pub mod Interface
pub mod Usb
pub mod Link
pub mod Serial
pub mod Cable
pub mod Search
pub mod Wire
pub mod Served
pub mod Routed
pub mod Connect
pub mod Remote
pub mod Lin
pub mod Uart
pub mod Spi
pub mod Analog
pub mod Gpio
pub mod I2c
pub mod Can
pub mod Metadata
use jabi.Prelude.{
  ℕ, ◌+◌, ◌*◌, ◌%◌, ◌^◌, ◌<◌, ◌≡◌, refl, List, ◌++◌, Bool, true, false, Option, none, some, get_or,
  arith,
}
use jabi.Bytes.{ByteOrder, IsByte, le_bytes16, le_bytes32}
use jabi.Bytes.Orders.{
  little_endian, big_endian, swap16, swap32, be_bytes16-swap16, be_bytes32-swap32, swap16-be,
  swap32-be,
}

-- __BYTE_ORDER__ of the host
pub data Endian : Type 0 where
  little big : Endian

-- How the host lays out a number in memory.
abbrev pub order_of : Endian → ByteOrder
order_of little = little_endian
order_of big = big_endian

abbrev pub htole16 : Endian → ℕ → ℕ
htole16 little x = x
htole16 big x = swap16 x

abbrev pub htole32 : Endian → ℕ → ℕ
htole32 little x = x
htole32 big x = swap32 x

abbrev pub letoh16 : Endian → ℕ → ℕ
letoh16 little x = x
letoh16 big x = htole16 big x

abbrev pub letoh32 : Endian → ℕ → ℕ
letoh32 little x = x
letoh32 big x = htole32 big x

-- A field of a packed struct over a byte array: `args->field = htole<T>(x)`, and `letoh<T>` of
-- the field at offset `i`.
abbrev pub put16 : Endian → ℕ → List ℕ
put16 e x = (order_of e).store16 (htole16 e (x % 2 ^ 16))

abbrev pub put32 : Endian → ℕ → List ℕ
put32 e x = (order_of e).store32 (htole32 e (x % 2 ^ 32))

abbrev pub at16 : Endian → List ℕ → ℕ → ℕ
at16 e mem i = letoh16 e ((order_of e).load16 (get_or mem i 0) (get_or mem (i + 1) 0))

abbrev pub at32 : Endian → List ℕ → ℕ → ℕ
at32 e mem i = letoh32 e (
    (order_of e).load32 (get_or mem i 0) (get_or mem (i + 1) 0) (get_or mem (i + 2) 0)
      (get_or mem (i + 3) 0))

-- iface_dynamic_req_t: the header fields of `msg`, and the payload.
pub record IfaceDynamicReq : Type 0 where
  pub periph_id : ℕ
  pub periph_idx : ℕ
  pub periph_fn : ℕ
  pub payload_len : ℕ
  pub payload : List ℕ

-- iface_dynamic_resp_t
pub record IfaceDynamicResp : Type 0 where
  pub retcode : ℕ
  pub payload_len : ℕ
  pub payload : List ℕ

-- The header of a request in memory after iface_req_htole.
abbrev pub iface_req_htole : Endian → IfaceDynamicReq → List ℕ
iface_req_htole e req =
    put16 e req.periph_id
    ++ put16 e req.periph_idx
    ++ put16 e req.periph_fn
    ++ put16 e req.payload_len

-- iface_resp_letoh: the two header fields, read from the bytes of the response.
abbrev pub iface_resp_letoh : Endian → List ℕ → ℕ × ℕ
iface_resp_letoh e mem = (at16 e mem 0, at16 e mem 2)

-- Both byte orders put the bytes of a number on the wire with the least significant one first.
pub put16-le : (e : Endian) (n : ℕ) → n < 2 ^ 16 → put16 e n ≡ le_bytes16 n
put16-le little n h = let same : n % 2 ^ 16 ≡ n = omega arith in rw same
put16-le big n h = let same : n % 2 ^ 16 ≡ n = omega arith in rw same (be_bytes16-swap16 n h)

pub put32-le : (e : Endian) (n : ℕ) → n < 2 ^ 32 → put32 e n ≡ le_bytes32 n
put32-le little n h = let same : n % 2 ^ 32 ≡ n = omega arith in rw same
put32-le big n h = let same : n % 2 ^ 32 ≡ n = omega arith in rw same (be_bytes32-swap32 n h)

pub load16-le :
    (e : Endian) (a b : ℕ) → IsByte a → IsByte b → letoh16 e ((order_of e).load16 a b) ≡ a + 256 * b
load16-le little a b ha hb = refl
load16-le big a b ha hb = swap16-be a b ha hb

pub load32-le :
    (e : Endian) (a b c d : ℕ)
    → IsByte a
    → IsByte b
    → IsByte c
    → IsByte d
    → letoh32 e ((order_of e).load32 a b c d) ≡ a + 256 * b + 65536 * c + 16777216 * d
load32-le little a b c d ha hb hc hd = refl
load32-le big a b c d ha hb hc hd = swap32-be a b c d ha hb hc hd
