-- ===== src/Dispatch/Bounds.antt =====
-- What process_request hands to send_resp.
use jabi.Prelude.{
  ℕ, ◌≤◌, ◌<◌, ◌^◌, ◌≡◌, ◌≢◌, refl, arith, List, some, Bool, true, false, length, get_elem?, take,
  drop, overwrite, length-append, length-drop, get_elem?-some-lt, All-get_elem?, take-append_le,
  All, Option-cases, inl, inr,
}
use jabi.Packet.{Target, Req, Resp}
use jabi.Periph.{
  JabiErr, no_err, not_supported_err, busy_err, code, Reply, Handler, Api, num_peripherals, IsFit,
  FitsHandler,
}
use jabi.Dispatch.{find_fn, run_fn, process_request, refuse, respond}
use jabi.Usb.Send.{IsResp}
use jabi.Usb.Buffer.{IsReq}

-- Every function of every table fits.
abbrev pub FitsApis : Target → {S : Type 0} → (S → Type 0) → List (Api S) → Type 0
FitsApis t Inv apis = All (λ api. All (FitsHandler t Inv) api.fns) apis

length-overwrite :
    {A : Type 0} (new old : List A)
    → length new ≤ length old
    → length (overwrite new old) ≡ length old
length-overwrite new old h =
    omega (arith, length-append new (drop (length new) old), length-drop (length new) old)

code-lt : (e : JabiErr) → code e < 2 ^ 16
code-lt e = ground arith

-- The protocol's own account of which function a request names.
pub record Routes {S : Type 0} (apis : List (Api S)) (req : Req) (fn : Handler S) : Type 0 where
  pub api : Api S
  pub known : req.periph_id < num_peripherals
  pub listed : get_elem? apis req.periph_id ≡ some api
  pub instance_exists : req.periph_idx < api.num_idx
  pub offered : get_elem? api.fns req.periph_fn ≡ some fn

module _ {S : Type 0} (apis : List (Api S)) (req : Req) (fn : Handler S) where
  pub find_fn-Routes : find_fn apis req ≡ some fn → Routes apis req fn
  unfolding find_fn
  find_fn-Routes e = elim (Option-cases (get_elem? apis req.periph_id)) [
    | inl missing ↦ absurd (ground arith)
    | inr (api, found) ↦ record {
      api = api;
      known = ground arith;
      listed = found;
      instance_exists = ground arith;
      offered = ground arith;
    }
  ]

  pub Routes-find_fn : Routes apis req fn → find_fn apis req ≡ some fn
  unfolding find_fn
  Routes-find_fn r = ground (arith, get_elem?-some-lt r.api.fns req.periph_fn r.offered)

-- What stands behind a response with data.
pub record Ran {S : Type 0} (apis : List (Api S)) (taken : Bool) (req : Req) (s : S)
    (out : S × Resp) : Type 0 where
  pub fn : Handler S
  pub routes : Routes apis req fn
  pub locked : taken ≡ true
  pub no_error : (fn s req.periph_idx req.payload req.payload_len).1.retcode ≡ no_err
  pub state : out.0 ≡ (fn s req.periph_idx req.payload req.payload_len).0
  pub size : out.1.payload_len ≡ (fn s req.periph_idx req.payload req.payload_len).1.resp_len
  pub bytes :
      take out.1.payload_len out.1.payload
      ≡ take out.1.payload_len (fn s req.periph_idx req.payload req.payload_len).1.resp

module _ (t : Target) where
  refuse-IsResp :
      (e : JabiErr) (buffer : List ℕ) → length buffer ≡ t.resp_max → IsResp t (refuse e buffer)
  refuse-IsResp e buffer h = record { retcode_fits = code-lt e; len_fits = omega arith; buffer = h }

  respond-IsResp :
      (r : Reply) (buffer : List ℕ)
      → IsFit t r
      → length buffer ≡ t.resp_max
      → IsResp t (respond r buffer)
  respond-IsResp r buffer f h = record {
    retcode_fits = code-lt r.retcode;
    len_fits = ground (arith);
    buffer = omega (arith, length-overwrite r.resp buffer, f.written);
  }

  run-IsResp :
      {S : Type 0} (Inv : S → Type 0) (taken : Bool) (fn : Handler S) (req : Req) (buffer : List ℕ)
      (s : S)
      → IsReq t req
      → length buffer ≡ t.resp_max
      → Inv s
      → FitsHandler t Inv fn
      → IsResp t (run_fn fn taken req buffer s).1 × Inv (run_fn fn taken req buffer s).0
  unfolding run_fn
  run-IsResp Inv true fn req buffer s h b inv fit =
      let both = fit s req.periph_idx req.payload req.payload_len inv h.buffer h.len_fits in
      (respond-IsResp _ buffer both.0 b, both.1)
  run-IsResp Inv false fn req buffer s h b inv fit = (refuse-IsResp busy_err buffer b, inv)

  respond-data :
      (r : Reply) (buffer : List ℕ)
      → IsFit t r
      → (respond r buffer).payload_len ≢ 0
      → (r.retcode ≡ no_err)
        × ((respond r buffer).payload_len ≡ r.resp_len)
        × (take (respond r buffer).payload_len (respond r buffer).payload
            ≡ take (respond r buffer).payload_len r.resp)
  respond-data r buffer f ne = (
    ground arith,
    ground arith,
    take-append_le (respond r buffer).payload_len r.resp (drop (length r.resp) buffer)
        (ground arith),
  )

  run_fn-Ran :
      {S : Type 0} (apis : List (Api S)) (fn : Handler S) (taken : Bool) (req : Req)
      (buffer : List ℕ) (s : S)
      → Routes apis req fn
      → IsFit t (fn s req.periph_idx req.payload req.payload_len).1
      → IsReq t req
      → (run_fn fn taken req buffer s).1.payload_len ≢ 0
      → Ran apis taken req s (run_fn fn taken req buffer s)
  unfolding run_fn
  run_fn-Ran apis fn true req buffer s r fit h ne =
      let reply = (fn s req.periph_idx req.payload req.payload_len).1 in
      let facts = respond-data reply buffer fit ne in
      record {
        fn = fn;
        routes = r;
        locked = refl;
        no_error = facts.0;
        state = refl;
        size = facts.1;
        bytes = facts.2;
      }
  run_fn-Ran apis fn false req buffer s r fit h ne = absurd (ne refl)

  module _ {S : Type 0} (Inv : S → Type 0) (apis : List (Api S)) (fits : FitsApis t Inv apis) where
    pub fits_of : (req : Req) {fn : Handler S} → Routes apis req fn → FitsHandler t Inv fn
    fits_of req r =
        All-get_elem? (FitsHandler t Inv) r.api.fns req.periph_fn
          (All-get_elem? (λ api. All (FitsHandler t Inv) api.fns) apis req.periph_id fits r.listed)
          r.offered

    -- If every function stays inside its buffers and the two arrays have their sizes, the
    -- response of process_request can be encoded: its code is a 16-bit number, its length is
    -- within CONFIG_JABI_RESP_PAYLOAD_MAX_SIZE and its array keeps its size. The invariant of
    -- the peripherals is kept.
    pub process_request-IsResp :
        (taken : Bool) (req : Req) (buffer : List ℕ) (s : S)
        → IsReq t req
        → length buffer ≡ t.resp_max
        → Inv s
        → IsResp t (process_request apis taken req buffer s).1
          × Inv (process_request apis taken req buffer s).0
    unfolding process_request
    process_request-IsResp taken req buffer s h b inv = elim (Option-cases (find_fn apis req)) [
      | inl e ↦ rw (e, process_request) (refuse-IsResp not_supported_err buffer b, inv)
      | inr (fn, e) ↦
          let r = find_fn-Routes apis req fn e in
          rw (e, process_request) (run-IsResp Inv taken fn req buffer s h b inv (fits_of req r))
    ]

    -- If every function stays inside its buffers, a response that carries data comes from the
    -- function that the request names, run under the device's lock and without error; its
    -- data are the bytes that the function announced, none of them left over from an earlier
    -- response, and the state is the one that the function leaves.
    pub process_request-Ran :
        (taken : Bool) (req : Req) (buffer : List ℕ) (s : S)
        → IsReq t req
        → Inv s
        → (process_request apis taken req buffer s).1.payload_len ≢ 0
        → Ran apis taken req s (process_request apis taken req buffer s)
    unfolding process_request
    process_request-Ran taken req buffer s h inv ne = elim (Option-cases (find_fn apis req)) [
      | inl e ↦ absurd (ne (rw (e, process_request)))
      | inr (fn, e) ↦
          let r = find_fn-Routes apis req fn e in
          rw (e, process_request)
            (run_fn-Ran apis fn taken req buffer s r
              (fits_of req r s req.periph_idx req.payload req.payload_len inv h.buffer h.len_fits).0
              h (rw (e, process_request) at ne))
    ]
