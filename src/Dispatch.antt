-- ===== src/Dispatch.antt =====
-- firmware/src/main.c, process_interface: from a request to its response.
pub mod Bounds
use jabi.Prelude.{
  ℕ, List, Option, none, some, Bool, true, false, leb, ◌==◌, if◌then◌else◌, length, get_elem?,
  overwrite,
}
use jabi.Packet.{Req, Resp}
use jabi.Periph.{JabiErr, not_supported_err, busy_err, code, Reply, Handler, Api, num_peripherals}

-- The jump to `send_resp` with `payload_len` still 0; the response array is left as it is.
abbrev pub refuse : JabiErr → List ℕ → Resp
refuse e buffer = record { retcode = code e; payload_len = 0; payload = buffer }

-- The response of a function; `if (resp.retcode) payload_len = 0`.
abbrev pub respond : Reply → List ℕ → Resp
respond r buffer = record {
  retcode = code r.retcode;
  payload_len = if code r.retcode == 0 then r.resp_len else 0;
  payload = overwrite r.resp buffer;
}

-- From k_sem_take on: the call of the function under its lock.
unfoldable pub run_fn : {S : Type 0} → Handler S → Bool → Req → List ℕ → S → S × Resp
run_fn fn true req buffer s =
    let (s', reply) = fn s req.periph_idx req.payload req.payload_len in (s', respond reply buffer)
run_fn fn false req buffer s = (s, refuse busy_err buffer)

module _ {S : Type 0} (apis : List (Api S)) where
  -- The three range checks, and api->fns[req.periph_fn].
  unfoldable pub find_fn : Req → Option (Handler S)
  find_fn req =
      if leb num_peripherals req.periph_id then none else elim (get_elem? apis req.periph_id) [
        | none ↦ none
        | some api ↦
            if leb api.num_idx req.periph_idx
            then none
            else if leb (length api.fns) req.periph_fn
            then none
            else get_elem? api.fns req.periph_fn
      ]

  -- One turn of the loop between get_req and send_resp. `taken` is what k_sem_take says of the
  -- device's lock; `buffer` is the response array with what earlier turns left in it.
  unfoldable pub process_request : Bool → Req → List ℕ → S → S × Resp
  process_request taken req buffer s = elim (find_fn req) [
    | none ↦ (s, refuse not_supported_err buffer)
    | some fn ↦ run_fn fn taken req buffer s
  ]
