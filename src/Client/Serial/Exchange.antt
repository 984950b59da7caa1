-- ===== src/Client/Serial/Exchange.antt =====
-- send_request on a serial port that takes and delivers the bytes in pieces.
use jabi.Prelude.{
  cut_twice, ℕ, zero, suc, ◌+◌, ◌-◌, ◌≤◌, ◌<◌, ◌≡◌, ◌≢◌, refl, sym, ap, ◌∙◌, arith, false, Option,
  some, List, [], ◌∷◌, ◌++◌, ltb, ltb-false, ◌==◌, ==_refl, Bool-cases, inl, inr, length, take,
  drop, length-drop, length-append, take-append-drop,
}
use mathlib.Core.List.{append_assoc, append-nil}
use jabi.Bytes.{le_bytes16}
use jabi.Packet.{Target, Call, IsCall, Resp, encode_call, encode_resp}
use jabi.Usb.Send.{IsResp}
use jabi.Client.{iface_req_htole}
use jabi.Client.Interface.{Result, ok}
use jabi.Client.Link.{dynamic_req, client_result}
use jabi.Client.Wire.{request-encode_call, load_le16, length-data}
use jabi.Client.Serial.{
  Port, UartInterface, uart_timeout_ms, Loop, ◌>>=◌, write_all, read_all, receive,
  uart_send_request,
}

-- A line over which each call moves at least one byte: `line` is what has been written to it,
-- `heard` what has been read from it, and `stream` what is still to be read. The clock never runs
-- past the timeout.
pub record Moves {W : Type 0} (p : Port W) (line heard stream : W → List ℕ) : Type 0 where
  pub accepted : List ℕ → W → ℕ
  pub accepted-pos : (x : ℕ) (xs : List ℕ) (w : W) → 0 < accepted (x ∷ xs) w
  pub writes : (x : ℕ) (xs : List ℕ) (w : W) → (p.write (x ∷ xs) w).0 ≡ some (accepted (x ∷ xs) w)
  pub written :
      (x : ℕ) (xs : List ℕ) (w : W)
      → line (p.write (x ∷ xs) w).1 ≡ line w ++ take (accepted (x ∷ xs) w) (x ∷ xs)
  pub unheard : (x : ℕ) (xs : List ℕ) (w : W) → heard (p.write (x ∷ xs) w).1 ≡ heard w
  pub came : ℕ → W → List ℕ
  pub reads : (n : ℕ) (w : W) → stream w ≢ [] → (p.read (suc n) w).0 ≡ some (came n w)
  pub came-pos : (n : ℕ) (w : W) → stream w ≢ [] → 0 < length (came n w)
  pub came-le : (n : ℕ) (w : W) → stream w ≢ [] → length (came n w) ≤ suc n
  pub consumed :
      (n : ℕ) (w : W) → stream w ≢ [] → stream w ≡ came n w ++ stream (p.read (suc n) w).1
  pub in_time : (v w : W) → p.now w ≤ p.now v + 2000

loop-ok :
    {W A B : Type 0} (m : Loop W A) (f : A → Loop W B) (a : A) (w w' : W)
    → m w ≡ some (ok a, w')
    → (m >>= f) w ≡ f a w'
loop-ok {W = W} {A = A} {B = B} m f a w w' e =
    ap (λ (p : Option (Result A × W)). ◌>>=◌ {W = W} {A = A} {B = B} (λ _. p) f w) e

module _ {W : Type 0} (u : UartInterface W) (line heard stream : W → List ℕ)
    (moves : Moves u.port line heard stream) where
  -- All the bytes have been written, in order.
  pub record Sent (bytes : List ℕ) (w : W) (out : Option (Result (Unit {0}) × W)) : Type 0 where
    pub after : W
    pub ends : out ≡ some (ok tt, after)
    pub all_written : line after ≡ line w ++ bytes
    pub nothing_heard : heard after ≡ heard w

  write_all-step :
      (fuel x : ℕ) (xs : List ℕ) (n : ℕ) (w : W)
      → (u.port.write (x ∷ xs) w).0 ≡ some n
      → write_all u (suc fuel) (x ∷ xs) w
        ≡ write_all u fuel (drop n (x ∷ xs)) (u.port.write (x ∷ xs) w).1
  unfolding write_all
  write_all-step fuel x xs n w e = rw (e, write_all)

  pub write_all-Sent :
      (fuel : ℕ) (bytes : List ℕ) (w : W)
      → length bytes ≤ fuel
      → Sent bytes w (write_all u fuel bytes w)
  unfolding write_all
  write_all-Sent fuel [] w enough = record {
    after = w;
    ends = refl;
    all_written = sym (append-nil (line w));
    nothing_heard = refl;
  }
  write_all-Sent zero (x ∷ xs) w enough = absurd (omega arith)
  write_all-Sent (suc fuel) (x ∷ xs) w enough =
      let n = moves.accepted (x ∷ xs) w in
      let w' = (u.port.write (x ∷ xs) w).1 in
      let rest =
        write_all-Sent fuel (drop n (x ∷ xs)) w'
          (omega (arith, length-drop n (x ∷ xs), moves.accepted-pos x xs w)) in
      record {
        after = rest.after;
        ends = write_all-step fuel x xs n w (moves.writes x xs w) ∙ rest.ends;
        all_written =
            rest.all_written
            ∙ ap (λ l. l ++ drop n (x ∷ xs)) (moves.written x xs w)
            ∙ append_assoc (line w) (take n (x ∷ xs)) (drop n (x ∷ xs))
            ∙ ap (λ l. line w ++ l) (take-append-drop n (x ∷ xs));
        nothing_heard = rest.nothing_heard ∙ moves.unheard x xs w;
      }

  -- The bytes read are the next ones of the stream.
  pub record Read (bytes rest : List ℕ) (out : Option (Result (List ℕ) × W)) : Type 0 where
    pub after : W
    pub ends : out ≡ some (ok bytes, after)
    pub left : stream after ≡ rest

  read_all-step :
      (fuel start len : ℕ) (front bytes : List ℕ) (w after : W)
      → ltb (start + uart_timeout_ms) (u.port.now w) ≡ false
      → (u.port.read (suc len) w).0 ≡ some front
      → read_all u fuel start (suc len - length front) (u.port.read (suc len) w).1
        ≡ some (ok bytes, after)
      → read_all u (suc fuel) start (suc len) w ≡ some (ok (front ++ bytes), after)
  unfolding read_all
  read_all-step fuel start len front bytes w after early got more =
      rw (early, got, read_all, more) refl

  pub read_all-Read :
      (fuel : ℕ) (v : W) (len : ℕ) (bytes rest : List ℕ) (w : W)
      → len ≤ fuel
      → length bytes ≡ len
      → stream w ≡ bytes ++ rest
      → Read bytes rest (read_all u fuel (u.port.now v) len w)
  unfolding read_all
  read_all-Read fuel v zero [] rest w enough size eq = record { after = w; ends = refl; left = eq }
  read_all-Read fuel v zero (x ∷ xs) rest w enough size eq = absurd (omega (arith, size))
  read_all-Read zero v (suc len) bytes rest w enough size eq = absurd (omega arith)
  read_all-Read (suc fuel) v (suc len) bytes rest w enough size eq =
      let some_left : stream w ≢ [] = λ none_left.
        omega (arith, ap length (sym eq ∙ none_left), length-append bytes rest, size) in
      let front = moves.came len w in
      let w' = (u.port.read (suc len) w).1 in
      let (same, left) =
        cut_twice front (stream w') bytes rest (sym (moves.consumed len w some_left) ∙ eq)
          (omega (arith, moves.came-le len w some_left, size)) in
      let early = ltb-false (u.port.now v + uart_timeout_ms) (u.port.now w) (moves.in_time v w) in
      let more =
        read_all-Read fuel v (suc len - length front) (drop (length front) bytes) rest w'
          (omega (arith, moves.came-pos len w some_left))
          (omega (arith, length-drop (length front) bytes, size)) left in
      record {
        after = more.after;
        ends =
            read_all-step fuel (u.port.now v) len front (drop (length front) bytes) w more.after
              early (moves.reads len w some_left) more.ends
            ∙ rw same;
        left = more.left;
      }

  -- The response after its header.
  receive-result :
      (t : Target) (fuel : ℕ) (r : Resp) (v w : W)
      → IsResp t r
      → t.resp_max ≤ u.resp_max_size
      → t.resp_max + 4 ≤ fuel
      → stream w ≡ encode_resp r
      → (after : W) × (receive u fuel (u.port.now v) w ≡ some (client_result r, after))
  unfolding receive
  receive-result t fuel r v w h room enough answer =
      let head : List ℕ = le_bytes16 r.retcode ++ le_bytes16 r.payload_len in
      let payload = take r.payload_len r.payload in
      let size = length-data t r h in
      let first = read_all-Read fuel v 4 head payload w (omega arith) refl answer in
      let second =
        read_all-Read fuel v r.payload_len payload [] first.after (omega (arith, h.len_fits)) size
          (first.left ∙ sym (append-nil payload)) in
      let code = load_le16 u.endian r.retcode h.retcode_fits in
      let len = load_le16 u.endian r.payload_len (omega (arith, h.len_fits, t.resp_max-lt)) in
      let fits = ltb-false u.resp_max_size r.payload_len (omega (arith, h.len_fits)) in
      elim (Bool-cases (r.retcode == 0)) [
        | inl fine ↦ (
          second.after,
          loop-ok (read_all u fuel (u.port.now v) 4) _ head w first.after first.ends
              ∙ rw (code, len, fine, fits)
                  (loop-ok (read_all u fuel (u.port.now v) r.payload_len) _ payload first.after
                    second.after second.ends),
        )
        | inr bad ↦ (
          first.after,
          loop-ok (read_all u fuel (u.port.now v) 4) _ head w first.after first.ends
              ∙ rw (code, len, bad) refl,
        )
      ]

  -- On a serial port that takes at least one byte of every write, brings at least one byte of
  -- every read while some are to come, in order and in time, and whose stream is the response
  -- once the bytes written are the call and none has been read, send_request ends: with as many
  -- turns of each loop as the two largest payloads have bytes, and 8 more, it returns the
  -- response's data or throws its error code.
  pub uart_send_request-answer :
      (t : Target) (fuel : ℕ) (c : Call) (r : Resp) (w : W)
      → IsCall t c
      → IsResp t r
      → length c.args ≤ u.req_max_size
      → t.resp_max ≤ u.resp_max_size
      → t.req_max + t.resp_max + 8 ≤ fuel
      → line w ≡ []
      → heard w ≡ []
      → ((v : W) → line v ≡ encode_call c → heard v ≡ [] → stream v ≡ encode_resp r)
      → (after : W) × (uart_send_request u fuel (dynamic_req c) w ≡ some (client_result r, after))
  unfolding uart_send_request receive
  uart_send_request-answer t fuel c r w call resp small room enough fresh silent answers =
      let header = iface_req_htole u.endian (dynamic_req c) in
      let wire = request-encode_call t u.endian c call in
      let header_size : length header ≤ 8 =
        omega (arith, ap length wire, length-append header c.args) in
      let first = write_all-Sent fuel header w (omega arith) in
      let second = write_all-Sent fuel c.args first.after (omega (arith, call.args_fit)) in
      let sent : line second.after ≡ encode_call c =
        second.all_written
        ∙ ap (λ l. l ++ c.args) (first.all_written ∙ ap (λ l. l ++ header) fresh)
        ∙ wire in
      let unread : heard second.after ≡ [] = second.nothing_heard ∙ first.nothing_heard ∙ silent in
      let answer = answers second.after sent unread in
      let (after, ends) =
        receive-result t fuel r second.after second.after resp room (omega arith) answer in
      (
        after,
        rw (ltb-false u.req_max_size (length c.args) small, ==_refl (length c.args))
            (loop-ok (write_all u fuel header) _ tt w first.after first.ends
              ∙ loop-ok (write_all u fuel c.args) _ tt first.after second.after second.ends
              ∙ ends),
      )
