-- ===== src/Usb/Buffer.antt =====
-- usb_get_req and the request array.
use jabi.Prelude.{
  ℕ, ◌+◌, ◌≤◌, ◌≡◌, arith, List, [], ◌∷◌, ◌++◌, Option, none, some, length, drop, overwrite, All,
  length-append, length-drop,
}
use jabi.Packet.{Target, Req, raw_req, req_hdr_size}
use jabi.Usb.{Transfer, Turn, accept, retry, check_transfer, usb_turn, usb_get_req}

-- A request as get_req leaves it.
pub record IsReq (t : Target) (r : Req) : Type 0 where
  pub len_fits : r.payload_len ≤ t.req_max
  pub buffer : length r.payload ≡ t.req_max

length-fields :
    (a b c d payload : List ℕ)
    → length a ≡ 2
    → length b ≡ 2
    → length c ≡ 2
    → length d ≡ 2
    → length (a ++ b ++ c ++ d ++ payload) ≡ 8 + length payload
length-fields a b c d payload ea eb ec ed = omega (
  arith,
  length-append a b,
  length-append (a ++ b) c,
  length-append (a ++ b ++ c) d,
  length-append (a ++ b ++ c ++ d) payload,
)

module _ (t : Target) where
  -- A transfer of at most sizeof(iface_req_t) bytes, the size that usb_transfer_sync is given.
  abbrev pub IsSized : Transfer → Type 0
  IsSized none = Unit {0}
  IsSized (some bytes) = length bytes ≤ req_hdr_size + t.req_max

  abbrev HasBuffer : Turn t → Type 0
  HasBuffer (accept r) = IsReq t r
  HasBuffer (retry r) = length r.payload ≡ t.req_max

  pub length-raw_req : (r : Req) → length (raw_req t r) ≡ 8 + length r.payload
  length-raw_req r =
      length-fields (t.store16 r.periph_id) (t.store16 r.periph_idx) (t.store16 r.periph_fn)
        (t.store16 r.payload_len) r.payload (t.length-store16 r.periph_id)
        (t.length-store16 r.periph_idx) (t.length-store16 r.periph_fn)
        (t.length-store16 r.payload_len)

  length-received :
      (r : Req) (bytes : List ℕ)
      → length r.payload ≡ t.req_max
      → length bytes ≤ 8 + t.req_max
      → length (drop 8 (overwrite bytes (raw_req t r))) ≡ t.req_max
  length-received r bytes h small = omega (
    arith,
    length-drop 8 (overwrite bytes (raw_req t r)),
    length-append bytes (drop (length bytes) (raw_req t r)),
    length-drop (length bytes) (raw_req t r),
    length-raw_req r,
  )

  check_transfer-HasBuffer :
      (r : Req) (len : ℕ) → length r.payload ≡ t.req_max → HasBuffer (check_transfer t r len)
  unfolding check_transfer
  check_transfer-HasBuffer r len h = ground arith

  usb_turn-HasBuffer :
      (req : Req) (x : Transfer)
      → length req.payload ≡ t.req_max
      → IsSized x
      → HasBuffer (usb_turn t req x)
  unfolding usb_turn
  usb_turn-HasBuffer req none h sized = h
  usb_turn-HasBuffer req (some bytes) h sized =
      check_transfer-HasBuffer _ (length bytes)
        (length-received (record req { payload_len = 0 }) bytes h sized)

  resume-IsReq :
      (u : Turn t) (xs : List Transfer) (r : Req) (rest : List Transfer)
      → HasBuffer u
      → ((r' : Req)
          → length r'.payload ≡ t.req_max
          → usb_get_req t r' xs ≡ some (r, rest)
          → IsReq t r)
      → ◌≡◌ {A = Option (Req × List Transfer)}
          (elim u [ accept r' ↦ some (r', xs) | retry r' ↦ usb_get_req t r' xs ])
          (some (r, rest))
      → IsReq t r
  resume-IsReq (accept r') xs r rest b ih e = let same : r' ≡ r = cc in rw (← same) b
  resume-IsReq (retry r') xs r rest b ih e = ih r' b e

  -- A request that usb_get_req returns has a payload within CONFIG_JABI_REQ_PAYLOAD_MAX_SIZE,
  -- and its array has kept that size, however many transfers failed before, if no transfer is
  -- larger than the request structure.
  pub usb_get_req-IsReq :
      (req : Req) (xs : List Transfer) (r : Req) (rest : List Transfer)
      → length req.payload ≡ t.req_max
      → All IsSized xs
      → usb_get_req t req xs ≡ some (r, rest)
      → IsReq t r
  unfolding usb_get_req
  usb_get_req-IsReq req [] r rest h sized e = cc
  usb_get_req-IsReq req (x ∷ xs) r rest h sized e =
      resume-IsReq (usb_turn t req x) xs r rest (usb_turn-HasBuffer req x h sized.0)
        (λ r' b q. usb_get_req-IsReq r' xs r rest b sized.1 q) e
