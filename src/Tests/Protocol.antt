-- ===== src/Tests/Protocol.antt =====
-- The protocol's theorems, on an echo over USB after a failed and a short transfer.
use jabi.Prelude.{ℕ, ◌≡◌, ◌≢◌, ◌↔◌, refl, arith, true, List, [], ◌∷◌, none, some, replicate, All}
use jabi.Packet.{Req, Resp, encode_call, encode_resp}
use jabi.Periph.{Api}
use jabi.Usb.{Transfer, check_transfer, usb_turn, usb_get_req, usb_send_resp}
use jabi.Usb.Recv.{
  calls, first_packet, IsTransfer, usb_get_req-first_packet, encode_call-bytes,
  first_packet-encode_call,
}
use jabi.Usb.Buffer.{IsReq}
use jabi.Usb.Send.{IsResp, usb_send_resp-encode_resp_iff}
use jabi.Dispatch.{process_request, find_fn, run_fn}
use jabi.Dispatch.Bounds.{Ran, process_request-Ran, FitsApis}
use jabi.Metadata.{metadata_periph_api, echo}
use jabi.Metadata.Fit.{IsBuild, metadata_periph_api-Fits}
use jabi.Serve.{serve_usb}
use jabi.Serve.Answer.{Answered, serve_usb-Answered}
use jabi.Serve.Echo.{echo_resp, serve_usb-echo}
use jabi.Tests.{small, zeros, blank, build, hello, hello-IsCall}

abbrev received : List Transfer
received = none ∷ some (1 ∷ 2 ∷ []) ∷ some (encode_call hello) ∷ []

received-IsTransfer : All (IsTransfer small) received
received-IsTransfer =
    (tt, ((omega arith, (omega arith, tt)), (encode_call-bytes small hello hello-IsCall, tt)))

usb_get_req-first_packet_example :
    calls small (usb_get_req small blank received) ≡ first_packet 128 received
usb_get_req-first_packet_example = usb_get_req-first_packet small blank received received-IsTransfer

abbrev asked : Req
asked = record blank { periph_fn = 2; payload_len = 3; payload = 7 ∷ 8 ∷ 9 ∷ replicate 125 0 }

received-asked : usb_get_req small blank received ≡ some (asked, [])
unfolding usb_get_req usb_turn check_transfer
received-asked = refl

abbrev answer : Resp
answer = record { retcode = 0; payload_len = 3; payload = 7 ∷ 8 ∷ 9 ∷ replicate 125 0 }

answer-IsResp : IsResp small answer
answer-IsResp = record { retcode_fits = omega arith; len_fits = omega arith; buffer = refl }

usb_send_resp-encode_resp_iff_example :
    (usb_send_resp small answer ≡ encode_resp answer) ↔ (◌≡◌ {A = ℕ} 3 3)
usb_send_resp-encode_resp_iff_example =
    usb_send_resp-encode_resp_iff small answer answer-IsResp (omega arith)

-- A build with the metadata functions alone.
abbrev Inv : Unit {0} → Type 0
Inv s = Unit {0}

abbrev apis : List (Api (Unit {0}))
apis = metadata_periph_api build ∷ []

build-IsBuild : IsBuild build
build-IsBuild = record { serial_fits = omega arith }

apis-Fits : FitsApis small Inv apis
apis-Fits = (metadata_periph_api-Fits build build-IsBuild Inv, tt)

asked-IsReq : IsReq small asked
asked-IsReq = record { len_fits = omega arith; buffer = refl }

three_bytes : (process_request apis true asked zeros tt).1.payload_len ≡ 3
unfolding process_request find_fn run_fn metadata_periph_api echo
three_bytes = refl

some_bytes : (process_request apis true asked zeros tt).1.payload_len ≢ 0
some_bytes e = omega (arith, three_bytes, e)

process_request-Ran_example : Ran apis true asked tt (process_request apis true asked zeros tt)
process_request-Ran_example =
    process_request-Ran small Inv apis apis-Fits true asked zeros tt asked-IsReq tt some_bytes

serve_usb-Answered_example :
    Answered small Inv apis true hello zeros tt []
      (serve_usb small apis true blank zeros tt (some (encode_call hello) ∷ []))
serve_usb-Answered_example =
    serve_usb-Answered small Inv apis apis-Fits (λ n. refl) true blank zeros tt
      (some (encode_call hello) ∷ []) hello [] refl refl tt
      (encode_call-bytes small hello hello-IsCall, tt) (omega arith, tt)
      (first_packet-encode_call small hello [] hello-IsCall)

serve_usb-echo_example :
    serve_usb small apis true blank zeros tt (some (encode_call hello) ∷ [])
    ≡ some (encode_resp (echo_resp (7 ∷ 8 ∷ 9 ∷ [])), tt, [])
serve_usb-echo_example =
    serve_usb-echo build Inv apis apis-Fits refl (λ n. refl) true blank zeros tt (7 ∷ 8 ∷ 9 ∷ []) []
      refl refl tt hello-IsCall (omega arith) tt tt
