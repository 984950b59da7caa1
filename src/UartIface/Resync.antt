-- ===== src/UartIface/Resync.antt =====
-- uart_get_req after a packet that was cut short.
use jabi.Prelude.{
  ℕ, zero, suc, ◌+◌, ◌%◌, ◌≤◌, ◌<◌, ◌≡◌, refl, ap, sym, ◌∙◌, arith, true, false, List, [], ◌∷◌,
  ◌++◌, length, dec_lt, ltb-false, drop, overwrite, All, length-append, length-drop, cut_twice,
}
use mathlib.Core.Path.{subst}
use jabi.Packet.{Req, Call, IsCall, encode_call, raw_req}
use jabi.Usb.Buffer.{length-raw_req}
use jabi.UartIface.{
  IfaceEnv, Event, irq, go, elapse, UartIface, isr_turn, Got, late, get_byte, Read, short, stored,
  read, Received, check_header, get_req_loop, uart_get_req,
}
use jabi.UartIface.Bytewise.{
  coming, late_goes, InTime, AtRest, Ready, irq-Ready, get_byte-Next, read-Whole,
}
use jabi.UartIface.Recv.{Asks, header_of, req_of, header-req, get_req_loop-Asks}

front_nil : (xs ys : List ℕ) → xs ++ ys ≡ [] → xs ≡ []
front_nil [] ys h = refl
front_nil (x ∷ xs) ys h = cc

module _ (e : IfaceEnv) (line : List ℕ) (most : ℕ) where
  -- An interface whose queue is empty.
  pub record Empty (u : UartIface e) : Type 0 where
    pub rest : AtRest e line most u
    pub none_queued : e.contents u.rx ≡ []

  record Late (es : List Event) (out : Got e) : Type 0 where
    after : UartIface e
    same : out ≡ late after es
    empty : Empty after

  -- Silence.
  get_byte-Late :
      (u : UartIface e) (front es : List Event)
      → Ready e line most [] u front
      → Late es (get_byte e false u (front ++ (elapse ∷ es)))
  unfolding get_byte
  get_byte-Late u [] es h =
      let none_queued = front_nil (e.contents u.rx) [] h.bytes_left in
      rw (e.get-empty u.rx none_queued) (record {
        after = u;
        same = refl;
        empty = record { rest = h.rest; none_queued = none_queued };
      })
  get_byte-Late u (elapse ∷ front) es h = elim h.in_time.0 [ ]
  get_byte-Late u (irq i ∷ front) es h =
      get_byte-Late (isr_turn e u i) front es (irq-Ready e line most [] u i front h)
  get_byte-Late u (go ∷ front) es h =
      rw (e.get-empty u.rx (front_nil (e.contents u.rx) (coming front) h.bytes_left)) (
        get_byte-Late u front es (record {
          rest = h.rest;
          in_time = h.in_time.1;
          bytes_left = h.bytes_left;
          room = h.room;
        }))

  record Short (bytes : List ℕ) (es : List Event) (out : Read e) : Type 0 where
    after : UartIface e
    same : out ≡ short bytes after es
    empty : Empty after

  read-Short :
      (n : ℕ) (bytes : List ℕ) (u : UartIface e) (front es : List Event)
      → Ready e line most bytes u front
      → length bytes < n
      → length bytes ≤ late_goes front
      → Short bytes es (read e n false u (front ++ (elapse ∷ es)))
  unfolding read
  read-Short zero bytes u front es h few soon = absurd (omega arith)
  read-Short (suc n) [] u front es h few soon =
      let silent = get_byte-Late u front es h in
      rw (silent.same, read) (record { after = silent.after; same = refl; empty = silent.empty })
  read-Short (suc n) (b ∷ bytes) u front es h few soon =
      let next = get_byte-Next e line most false b bytes u front (elapse ∷ es) h (omega arith) in
      let more =
        read-Short n bytes next.after next.left es next.ready (omega arith)
          (omega (arith, next.goes)) in
      record {
        after = more.after;
        same = rw (next.same, read) (ap (stored e b) more.same);
        empty = more.empty;
      }

  -- The loop starts over at the events `es`.
  record Restarted (fuel : ℕ) (es : List Event) (out : Received e) : Type 0 where
    mem : List ℕ
    after : UartIface e
    same : out ≡ get_req_loop e fuel mem after es
    size : length mem ≡ 8 + e.req_max
    empty : Empty after

  -- A header that was cut short.
  short_header :
      (fuel x : ℕ) (bytes mem : List ℕ) (u : UartIface e) (noise es : List Event)
      → length mem ≡ 8 + e.req_max
      → Ready e line most (x ∷ bytes) u noise
      → length (x ∷ bytes) < 8
      → length (x ∷ bytes) ≤ late_goes noise
      → Restarted fuel es (get_req_loop e (suc fuel) mem u (noise ++ (elapse ∷ es)))
  unfolding get_req_loop
  short_header fuel x bytes mem u noise es size h few soon =
      let one = read-Whole e line most true (x ∷ []) bytes u noise (elapse ∷ es) h (omega arith) in
      let cut =
        read-Short 7 bytes one.after one.left es one.ready (omega arith)
          (omega (arith, one.goes)) in
      record {
        mem = overwrite (x ∷ bytes) mem;
        after = cut.after;
        same = rw (one.same, get_req_loop) (rw cut.same refl);
        size = omega (
          arith,
          length-append (x ∷ bytes) (drop (length (x ∷ bytes)) mem),
          length-drop (length (x ∷ bytes)) mem,
          size,
        );
        empty = cut.empty;
      }

  -- A payload that was cut short.
  short_payload :
      (fuel : ℕ) (c : Call) (args mem : List ℕ) (u : UartIface e) (noise es : List Event)
      → IsCall e.target c
      → length mem ≡ 8 + e.req_max
      → Ready e line most (header_of c ++ args) u noise
      → length args < length c.args
      → 8 + length args ≤ late_goes noise
      → Restarted fuel es (get_req_loop e (suc fuel) mem u (noise ++ (elapse ∷ es)))
  unfolding get_req_loop
  short_payload fuel c args mem u noise es call size h few soon =
      let first = c.periph_id % 256 ∷ [] in
      let head = drop 1 (header_of c) in
      let one =
        read-Whole e line most true first (head ++ args) u noise (elapse ∷ es) h (omega arith) in
      let seven =
        read-Whole e line most false head args one.after one.left (elapse ∷ es) one.ready
          (omega (arith, one.goes)) in
      let cut =
        read-Short (length c.args) args seven.after seven.left es seven.ready few
          (omega (arith, one.goes, seven.goes)) in
      let partial = overwrite args (drop 8 mem) in
      record {
        mem = raw_req e.target (req_of c partial);
        after = cut.after;
        same =
            rw (one.same, get_req_loop)
              (rw seven.same (
                ap
                  (λ r.
                    check_header e (get_req_loop e fuel) r seven.after
                      (seven.left ++ (elapse ∷ es)))
                  (header-req e.target c mem call)
                ∙ rw (ltb-false e.req_max (length c.args) call.args_fit, cut.same) refl));
        size = omega (
          arith,
          length-raw_req e.target (req_of c partial),
          length-append args (drop (length args) (drop 8 mem)),
          length-drop (length args) (drop 8 mem),
          length-drop 8 mem,
          size,
          call.args_fit,
        );
        empty = cut.empty;
      }

  -- Whatever part of a packet has come, the pause starts the loop over.
  cut_short :
      (fuel : ℕ) (c : Call) (xs ys mem : List ℕ) (u : UartIface e) (noise es : List Event)
      → IsCall e.target c
      → length mem ≡ 8 + e.req_max
      → Ready e line most xs u noise
      → xs ++ ys ≡ encode_call c
      → 0 < length xs
      → 0 < length ys
      → length xs ≤ late_goes noise
      → Restarted fuel es (get_req_loop e (suc fuel) mem u (noise ++ (elapse ∷ es)))
  cut_short fuel c [] ys mem u noise es call size h eq begun missing soon = absurd (omega arith)
  cut_short fuel c (x ∷ xs) ys mem u noise es call size h eq begun missing soon =
      elim (dec_lt (length (x ∷ xs)) 8) [
        | yes few ↦ short_header fuel x xs mem u noise es size h few soon
        | no many ↦
            let args = drop 8 (x ∷ xs) in
            let (same, left) =
              cut_twice (header_of c) c.args (x ∷ xs) ys (sym eq) (omega (arith, many)) in
            let sizes = ap length left in
            short_payload fuel c args mem u noise es call size
              (subst (λ l. Ready e line most l u noise) (sym same) h)
              (omega (arith, sizes, length-append args ys))
              (omega (arith, soon, length-drop 8 (x ∷ xs), many))
      ]

  -- After a packet that was cut short, at any of its bytes behind the first, and a pause of
  -- TIMEOUT, uart_get_req returns the call whose packet arrives next, and keeps the bytes
  -- behind it: nothing of the cut packet is left in it, whatever stood in the request
  -- structure. The bytes before the pause have to be read before it, with a turn of the thread
  -- for each of them after the last has arrived, the next bytes fit the queue and TIMEOUT does
  -- not run out among them.
  pub uart_get_req_resyncs :
      (cut c : Call) (xs ys : List ℕ) (r : Req) (rest : List ℕ) (u : UartIface e)
      (noise front back : List Event)
      → IsCall e.target cut
      → IsCall e.target c
      → length r.payload ≡ e.req_max
      → Ready e line most xs u noise
      → xs ++ ys ≡ encode_call cut
      → 0 < length xs
      → 0 < length ys
      → length xs ≤ late_goes noise
      → All InTime front
      → coming front ≡ encode_call c ++ rest
      → length (encode_call c ++ rest) ≤ most
      → length (encode_call c) ≤ late_goes front
      → Asks e line most c rest back
          (late_goes front)
          (uart_get_req e r u (noise ++ (elapse ∷ (front ++ back))))
  unfolding uart_get_req
  uart_get_req_resyncs cut c xs ys r rest u noise front back cut_call call size h eq begun missing
        soon in_time next room soon' =
      let es = noise ++ (elapse ∷ (front ++ back)) in
      let fuel = length noise + length (front ++ back) in
      let turns : length es ≡ suc fuel =
        omega (arith, length-append noise (elapse ∷ (front ++ back))) in
      let again =
        cut_short (suc fuel) cut xs ys (raw_req e.target r) u noise (front ++ back) cut_call
          (omega (arith, length-raw_req e.target r, size)) h eq begun missing soon in
      let found =
        get_req_loop-Asks e line most fuel c again.mem rest again.after front back call again.size
          (record {
            rest = again.empty.rest;
            in_time = in_time;
            bytes_left = ap (λ l. l ++ coming front) again.empty.none_queued ∙ next;
            room = room;
          })
          soon' in
      rw (turns, again.same) found
