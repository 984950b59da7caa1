-- ===== src/Packet.antt =====
-- include/jabi/interfaces.h and firmware/src/interfaces/common.c: the request and response
-- packets, their header sizes and the byte-order conversion of their headers.
use jabi.Prelude.{ℕ, ◌+◌, ◌^◌, ◌≤◌, ◌<◌, List, ◌++◌, length, get_or, take, drop, All}
use jabi.Bytes.{ByteOrder, IsByte, le_bytes16}

-- What a build fixes: the CPU's byte order and CONFIG_JABI_REQ_PAYLOAD_MAX_SIZE and
-- CONFIG_JABI_RESP_PAYLOAD_MAX_SIZE. 128 is the "safe minimum" of interfaces.h, and the sizes are
-- reported as uint16_t.
pub record Target : Type 0 where
  pub order : ByteOrder
  pub open order use *
  pub req_max : ℕ
  pub resp_max : ℕ
  pub req_max-ge : 128 ≤ req_max
  pub resp_max-ge : 128 ≤ resp_max
  pub req_max-lt : req_max < 2 ^ 16
  pub resp_max-lt : resp_max < 2 ^ 16

-- IFACE_REQ_HDR_SIZE and IFACE_RESP_HDR_SIZE
abbrev pub req_hdr_size : ℕ
req_hdr_size = 8

abbrev pub resp_hdr_size : ℕ
resp_hdr_size = 4

-- iface_req_t; `payload` is the whole array, of which a packet fills the first `payload_len`.
pub record Req : Type 0 where
  pub periph_id : ℕ
  pub periph_idx : ℕ
  pub periph_fn : ℕ
  pub payload_len : ℕ
  pub payload : List ℕ

-- iface_resp_t; retcode is the bit pattern of an int16_t.
pub record Resp : Type 0 where
  pub retcode : ℕ
  pub payload_len : ℕ
  pub payload : List ℕ

module _ (t : Target) where
  open t use {load16, store16, le16_to_cpu, cpu_to_le16}

  -- sys_le16_to_cpu of the uint16_t at offset `i`
  abbrev pub le16_at : List ℕ → ℕ → ℕ
  le16_at mem i = le16_to_cpu (load16 (get_or mem i 0) (get_or mem (i + 1) 0))

  -- sys_le32_to_cpu of the uint32_t at offset `i`
  abbrev pub le32_at : List ℕ → ℕ → ℕ
  le32_at mem i = t.le32_to_cpu (
      t.load32 (get_or mem i 0) (get_or mem (i + 1) 0) (get_or mem (i + 2) 0)
        (get_or mem (i + 3) 0))

  -- The bytes that the struct occupies.
  abbrev pub raw_req : Req → List ℕ
  raw_req r =
      store16 r.periph_id
      ++ store16 r.periph_idx
      ++ store16 r.periph_fn
      ++ store16 r.payload_len
      ++ r.payload

  -- iface_req_to_le, on the bytes of the struct
  abbrev pub iface_req_to_le : List ℕ → Req
  iface_req_to_le mem = record {
    periph_id = le16_at mem 0;
    periph_idx = le16_at mem 2;
    periph_fn = le16_at mem 4;
    payload_len = le16_at mem 6;
    payload = drop req_hdr_size mem;
  }

  -- iface_resp_to_le
  abbrev pub iface_resp_to_le : Resp → Resp
  iface_resp_to_le r = record r {
    retcode = cpu_to_le16 r.retcode;
    payload_len = cpu_to_le16 r.payload_len;
  }

  abbrev pub raw_resp : Resp → List ℕ
  raw_resp r = store16 r.retcode ++ store16 r.payload_len ++ r.payload

-- The packets as the protocol describes them: little-endian headers, then `payload_len` bytes.
pub record Call : Type 0 where
  pub periph_id : ℕ
  pub periph_idx : ℕ
  pub periph_fn : ℕ
  pub args : List ℕ

abbrev pub call_of : Req → Call
call_of r = record {
  periph_id = r.periph_id;
  periph_idx = r.periph_idx;
  periph_fn = r.periph_fn;
  args = take r.payload_len r.payload;
}

abbrev pub encode_call : Call → List ℕ
encode_call c =
    le_bytes16 c.periph_id
    ++ le_bytes16 c.periph_idx
    ++ le_bytes16 c.periph_fn
    ++ le_bytes16 (length c.args)
    ++ c.args

abbrev pub encode_resp : Resp → List ℕ
encode_resp r = le_bytes16 r.retcode ++ le_bytes16 r.payload_len ++ take r.payload_len r.payload

-- A call that fits the device: 16-bit ids and a payload that the request buffer holds.
pub record IsCall (t : Target) (c : Call) : Type 0 where
  pub id_fits : c.periph_id < 2 ^ 16
  pub idx_fits : c.periph_idx < 2 ^ 16
  pub fn_fits : c.periph_fn < 2 ^ 16
  pub args_fit : length c.args ≤ t.req_max
  pub args_bytes : All IsByte c.args
