-- ===== src/Can/Frames.antt =====
-- From the request of can_write to the frame, and from a frame to the response of can_read.
use jabi.Prelude.{
  ℕ, ◌+◌, ◌-◌, ◌/◌, ◌%◌, ◌^◌, ◌≤◌, ◌<◌, ◌≡◌, arith, false, List, [], ◌∷◌, ◌++◌, length, take,
  replicate, take-append_self, take-append_ge, take-replicate, replicate-append,
}
use mathlib.Core.List.{append_assoc}
use jabi.Bytes.{le32_value, le_bytes16, le_bytes32}
use jabi.Periph.{no_err}
use jabi.Can.Driver.{CanEnv}
use jabi.Can.State.{nonzero}
use jabi.Can.Transfer.{frame_of, read_resp, bit_of}
use jabi.Can.Fit.{read_resp-le}

-- The arguments of can_write for a data frame, as can.h lays them out.
pub record Message : Type 0 where
  pub id : ℕ
  pub id_type : ℕ
  pub fd : ℕ
  pub brs : ℕ
  pub payload : List ℕ

abbrev pub encode_message : Message → List ℕ
encode_message m =
    le_bytes32 m.id ++ (m.id_type ∷ m.fd ∷ m.brs ∷ 0 ∷ length m.payload ∷ []) ++ m.payload

module _ (e : CanEnv) where
  pub record IsMessage (m : Message) : Type 0 where
    pub id_fits : m.id < 2 ^ 32
    pub payload_fits : length m.payload ≤ e.max_dlen

  -- The room that the length code gives the message.
  abbrev pub size_of : Message → ℕ
  size_of m = e.dlc_to_bytes (e.bytes_to_dlc (length m.payload))

  pub padded :
      (m : Message) (rest : List ℕ)
      → IsMessage m
      → take (size_of m) (
            take (length m.payload) (m.payload ++ rest)
            ++ replicate (size_of m - length m.payload) 0)
          ++ replicate (e.max_dlen - size_of m) 0
        ≡ m.payload ++ replicate (e.max_dlen - length m.payload) 0
  padded m rest h =
      let n = length m.payload in
      let size = size_of m in
      let room = e.dlc_room n h.payload_fits in
      let fits = e.dlc_size n h.payload_fits in
      rw (
        take-append_self m.payload rest,
        take-append_ge size m.payload (replicate (size - n) 0) room,
        take-replicate {A = ℕ} (size - n) (size - n) 0 (omega arith),
        append_assoc m.payload (replicate (size - n) 0) (replicate (e.max_dlen - size) 0),
        replicate-append {A = ℕ} (size - n) (e.max_dlen - size) (e.max_dlen - n) 0 (omega arith),
      )

  -- The frame of a data request holds its message, followed by zeros, whatever the buffer holds
  -- behind the request.
  pub frame_of-encode_message :
      (m : Message) (rest : List ℕ)
      → IsMessage m
      → frame_of e (encode_message m ++ rest) ≡ record {
        id = m.id;
        dlc = e.bytes_to_dlc (length m.payload);
        ide = nonzero m.id_type;
        rtr = false;
        fdf = nonzero m.fd;
        brs = nonzero m.brs;
        bytes = m.payload ++ replicate (e.max_dlen - length m.payload) 0;
      }
  unfolding frame_of
  frame_of-encode_message m rest h = rw (
    e.le32_to_cpu-load32 (m.id % 256) (m.id / 256 % 256) (m.id / 65536 % 256)
        (m.id / 16777216 % 256) (omega arith) (omega arith) (omega arith) (omega arith),
    le32_value m.id h.id_fits,
    padded m rest h,
  )

  -- If a frame that can_write builds for a data message of at most CAN_MAX_DLEN bytes comes
  -- back, as in loopback mode, can_read answers its id, its flag bits and its bytes, padded
  -- with zeros up to the size of the length code, whatever stood in the request array behind
  -- the message.
  pub read_resp-frame_of :
      (m : Message) (rest : List ℕ) (left : ℕ)
      → IsMessage m
      → read_resp e left (frame_of e (encode_message m ++ rest)) ≡ record {
        retcode = no_err;
        resp =
            le_bytes16 (left % 2 ^ 16)
            ++ (le_bytes32 m.id
                ++ (bit_of e (nonzero m.id_type) e.ide_bit
                    ∷ bit_of e (nonzero m.fd) e.fdf_bit
                    ∷ bit_of e (nonzero m.brs) e.brs_bit
                    ∷ 0
                    ∷ size_of m
                    ∷ []))
            ++ (m.payload ++ replicate (size_of m - length m.payload) 0);
        resp_len = 11 + size_of m;
      }
  read_resp-frame_of m rest left h =
      let n = length m.payload in
      let id_fits : m.id % 2 ^ 32 ≡ m.id = omega (arith, h.id_fits) in
      rw (
        frame_of-encode_message m rest h,
        read_resp-le,
        id_fits,
        take-append_ge (size_of m) m.payload (replicate (e.max_dlen - n) 0)
            (e.dlc_room n h.payload_fits),
        take-replicate {A = ℕ} (size_of m - n) (e.max_dlen - n) 0
            (omega (arith, e.dlc_size n h.payload_fits)),
      )
