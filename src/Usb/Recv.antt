-- ===== src/Usb/Recv.antt =====
-- usb_get_req against the protocol's reading of the transfers.
use jabi.Prelude.{
  ℕ, ◌+◌, ◌*◌, ◌≤◌, ◌<◌, ◌≡◌, refl, ap, arith, List, [], ◌∷◌, ◌++◌, Option, none, some, ltb, ◌==◌,
  ◌||◌, not, if◌then◌else◌, length, All, take-append_self, ltb-false, ==_refl,
}
use jabi.Bytes.{le16_value, IsByte}
use jabi.Packet.{Target, Req, Call, IsCall, call_of, encode_call}
use jabi.Usb.{Transfer, Turn, accept, retry, check_transfer, usb_turn, usb_get_req}

-- The protocol's reading of one transfer, on its bytes alone.
abbrev pub parse_packet : ℕ → List ℕ → Option Call
parse_packet limit (i0 ∷ i1 ∷ x0 ∷ x1 ∷ f0 ∷ f1 ∷ l0 ∷ l1 ∷ args) =
    if ltb limit (l0 + 256 * l1) || not (length args == l0 + 256 * l1)
    then none
    else some (record {
      periph_id = i0 + 256 * i1;
      periph_idx = x0 + 256 * x1;
      periph_fn = f0 + 256 * f1;
      args = args;
    })
parse_packet limit _ = none

-- The first packet that the protocol allows; the transfers before it are dropped.
abbrev pub first_packet : ℕ → List Transfer → Option (Call × List Transfer)
first_packet limit [] = none
first_packet limit (none ∷ xs) = first_packet limit xs
first_packet limit (some bytes ∷ xs) = elim (parse_packet limit bytes) [
  | none ↦ first_packet limit xs
  | some c ↦ some (c, xs)
]

module _ (t : Target) where
  abbrev TurnMatches : Turn t → Option Call → Type 0
  TurnMatches (accept r) (some c) = (call_of r ≡ c) × (r.payload_len ≤ t.req_max)
  TurnMatches (retry r) none = Unit {0}
  TurnMatches _ _ = ⊥

  -- A transfer shorter than a header is never accepted.
  check_transfer-short :
      (req : Req) (len : ℕ) → len < 8 → TurnMatches (check_transfer t req len) none
  unfolding check_transfer
  check_transfer-short req len h = ground arith

  -- A header read from the transfer is the one that the protocol reads.
  check_transfer-long :
      (c : Call) (n len : ℕ) (tail : List ℕ)
      → len ≡ 8 + length c.args
      → TurnMatches
          (check_transfer t
            (record {
              periph_id = c.periph_id;
              periph_idx = c.periph_idx;
              periph_fn = c.periph_fn;
              payload_len = n;
              payload = c.args ++ tail;
            })
            len)
          (if ltb t.req_max n || not (length c.args == n) then none else some c)
  unfolding check_transfer
  check_transfer-long c n len tail e = ground (arith, take-append_self c.args tail)

  usb_turn-Matches :
      (req : Req) (bytes : List ℕ)
      → All IsByte bytes
      → TurnMatches (usb_turn t req (some bytes)) (parse_packet t.req_max bytes)
  unfolding usb_turn
  usb_turn-Matches req [] h = check_transfer-short _ 0 (omega arith)
  usb_turn-Matches req (a ∷ []) h = check_transfer-short _ 1 (omega arith)
  usb_turn-Matches req (a ∷ b ∷ []) h = check_transfer-short _ 2 (omega arith)
  usb_turn-Matches req (a ∷ b ∷ c ∷ []) h = check_transfer-short _ 3 (omega arith)
  usb_turn-Matches req (a ∷ b ∷ c ∷ d ∷ []) h = check_transfer-short _ 4 (omega arith)
  usb_turn-Matches req (a ∷ b ∷ c ∷ d ∷ e ∷ []) h = check_transfer-short _ 5 (omega arith)
  usb_turn-Matches req (a ∷ b ∷ c ∷ d ∷ e ∷ f ∷ []) h = check_transfer-short _ 6 (omega arith)
  usb_turn-Matches req (a ∷ b ∷ c ∷ d ∷ e ∷ f ∷ g ∷ []) h = check_transfer-short _ 7 (omega arith)
  usb_turn-Matches req (i0 ∷ i1 ∷ x0 ∷ x1 ∷ f0 ∷ f1 ∷ l0 ∷ l1 ∷ args) h =
      rw
        (
          t.le16_to_cpu-load16 i0 i1 h.0 h.1.0,
          t.le16_to_cpu-load16 x0 x1 h.1.1.0 h.1.1.1.0,
          t.le16_to_cpu-load16 f0 f1 h.1.1.1.1.0 h.1.1.1.1.1.0,
          t.le16_to_cpu-load16 l0 l1 h.1.1.1.1.1.1.0 h.1.1.1.1.1.1.1.0,
        )
        (check_transfer-long
          (record {
            periph_id = i0 + 256 * i1;
            periph_idx = x0 + 256 * x1;
            periph_fn = f0 + 256 * f1;
            args = args;
          })
          (l0 + 256 * l1) _ _ (omega arith))

  abbrev pub IsTransfer : Transfer → Type 0
  IsTransfer none = Unit {0}
  IsTransfer (some bytes) = All IsByte bytes

  -- What the caller of usb_get_req makes of its result.
  abbrev pub calls : Option (Req × List Transfer) → Option (Call × List Transfer)
  calls none = none
  calls (some (r, rest)) = some (call_of r, rest)

  usb_turn-none-Matches : (req : Req) → TurnMatches (usb_turn t req none) none
  unfolding usb_turn
  usb_turn-none-Matches req = tt

  resume-Matches :
      (u : Turn t) (p : Option Call) (xs : List Transfer)
      → ((r : Req) → calls (usb_get_req t r xs) ≡ first_packet t.req_max xs)
      → TurnMatches u p
      → calls (elim u [ accept r ↦ some (r, xs) | retry r ↦ usb_get_req t r xs ])
        ≡ (elim p [ none ↦ first_packet t.req_max xs | some c ↦ some (c, xs) ])
  resume-Matches (accept r) (some c) xs ih m = ap (λ k. some (k, xs)) m.0
  resume-Matches (accept r) none xs ih m = elim m [ ]
  resume-Matches (retry r) none xs ih m = ih r
  resume-Matches (retry r) (some c) xs ih m = elim m [ ]

  -- Whatever the request buffer holds from earlier packets and whatever transfers fail or are
  -- malformed, usb_get_req returns the first packet that the protocol allows and leaves the
  -- transfers behind it, and it waits on when there is none.
  pub usb_get_req-first_packet :
      (req : Req) (xs : List Transfer)
      → All IsTransfer xs
      → calls (usb_get_req t req xs) ≡ first_packet t.req_max xs
  unfolding usb_get_req
  usb_get_req-first_packet req [] h = refl
  usb_get_req-first_packet req (none ∷ xs) h =
      resume-Matches (usb_turn t req none) none xs (λ r. usb_get_req-first_packet r xs h.1)
        (usb_turn-none-Matches req)
  usb_get_req-first_packet req (some bytes ∷ xs) h =
      resume-Matches (usb_turn t req (some bytes)) (parse_packet t.req_max bytes) xs
        (λ r. usb_get_req-first_packet r xs h.1) (usb_turn-Matches req bytes h.0)

-- The packet of a call is read back as that call.
pub parse_packet-encode_call :
    (t : Target) (c : Call) → IsCall t c → parse_packet t.req_max (encode_call c) ≡ some c
parse_packet-encode_call t c h = rw (
  le16_value c.periph_id h.id_fits,
  le16_value c.periph_idx h.idx_fits,
  le16_value c.periph_fn h.fn_fits,
  le16_value (length c.args) (omega (arith, t.req_max-lt, h.args_fit)),
  ltb-false t.req_max (length c.args) h.args_fit,
  ==_refl (length c.args),
)

pub first_packet-encode_call :
    (t : Target) (c : Call) (xs : List Transfer)
    → IsCall t c
    → first_packet t.req_max (some (encode_call c) ∷ xs) ≡ some (c, xs)
first_packet-encode_call t c xs h = rw (parse_packet-encode_call t c h, first_packet)

pub encode_call-bytes : (t : Target) (c : Call) → IsCall t c → All IsByte (encode_call c)
encode_call-bytes t c h =
    let bytes = h.args_bytes in
    (
      omega arith,
      (
        omega arith,
        (
          omega arith,
          (omega arith, (omega arith, (omega arith, (omega arith, (omega arith, bytes))))),
        ),
      ),
    )
