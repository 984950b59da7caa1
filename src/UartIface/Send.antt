-- ===== src/UartIface/Send.antt =====
-- uart_send_resp and the bytes on the line.
use Prim.Native.Nat.{min}
use jabi.Prelude.{
  ℕ, ◌+◌, ◌-◌, ◌≤◌, ◌<◌, ◌≡◌, ◌⊎◌, inl, inr, refl, ap, sym, ◌∙◌, arith, Bool, true, false, not,
  ◌&&◌, Option, none, some, List, [], ◌∷◌, ◌++◌, ltb, ◌==◌, if◌then◌else◌, length, take, drop,
  take-take-drop, ltb-false, Bool-cases, Option-cases,
}
use mathlib.Core.List.{append_assoc, append-nil}
use jabi.Packet.{Resp, encode_resp, raw_resp, iface_resp_to_le}
use jabi.Usb.Send.{IsResp, raw_resp-le, take-header}
use jabi.UartIface.{
  IsrTurn, IfaceEnv, Event, irq, go, elapse, UartIface, transmit, tx_turn, isr_turn, wait_sent,
  uart_send_resp, store_bytes,
}
use jabi.UartIface.Bytewise.{pending, AtRest, irq-pending, isr_turn-off}

-- Whether a turn of the handler gets as far as the transmitter and can hand a byte to it.
abbrev pub serves : IsrTurn → Bool
serves i =
    not (i.rx_ready && (elim i.received [ none ↦ true | some bytes ↦ false ]))
    && (i.tx_ready && ltb 0 i.filled)

abbrev pub tx_turns : List Event → ℕ
tx_turns [] = 0
tx_turns (irq i ∷ es) = (if serves i then 1 else 0) + tx_turns es
tx_turns (go ∷ es) = tx_turns es
tx_turns (elapse ∷ es) = tx_turns es

module _ (e : IfaceEnv) (goal : List ℕ) where
  -- Under way: with the bytes still to send, the line makes up `goal`.
  pub record Sending (u : UartIface e) : Type 0 where
    pub on : u.irq_tx ≡ true
    pub taken : e.count u.tx_lock ≡ 0
    pub one : e.limit u.tx_lock ≡ 1
    pub whole : u.line ++ take u.tx_len u.tx_buf ≡ goal

  pub record Over (u : UartIface e) : Type 0 where
    pub off : u.irq_tx ≡ false
    pub given : e.count u.tx_lock ≡ 1
    pub one : e.limit u.tx_lock ≡ 1
    pub said : u.line ≡ goal

  abbrev pub Stage : ℕ → UartIface e → Type 0
  Stage k u = (Sending u × (u.tx_len < k)) ⊎ Over u

  Over-turn : (u : UartIface e) (i : IsrTurn) → Over u → Over (isr_turn e u i)
  Over-turn u i h =
      let (off, lock, said) = isr_turn-off e u i h.off in
      record {
        off = off;
        given = ap e.count lock ∙ h.given;
        one = ap e.limit lock ∙ h.one;
        said = said ∙ h.said;
      }

  Sending-rx : (u : UartIface e) (q : e.Msgq) → Sending u → Sending (record u { rx = q })
  Sending-rx u q h = record { on = h.on; taken = h.taken; one = h.one; whole = h.whole }

  transmit-Stage :
      (k : ℕ) (u : UartIface e) (i : IsrTurn)
      → Sending u
      → u.tx_len < k
      → Stage (k - (if ltb 0 i.filled then 1 else 0)) (transmit e u i)
  transmit-Stage k u i h less = elim (Bool-cases (u.tx_len == 0)) [
    | inl empty ↦
        let none_left : u.tx_len ≡ 0 = ground (arith, empty) in
        rw empty (
          inr (record {
            off = refl;
            given = e.count-give u.tx_lock ∙ ground (arith, h.taken, h.one);
            one = e.limit-give u.tx_lock ∙ h.one;
            said =
                sym (append-nil u.line)
                ∙ ap (λ n. u.line ++ take n u.tx_buf) (sym none_left)
                ∙ h.whole;
          }))
    | inr more ↦
        let n = min i.filled u.tx_len in
        rw more (
          inl (
            record {
              on = h.on;
              taken = h.taken;
              one = h.one;
              whole =
                  append_assoc u.line (take n u.tx_buf) (take (u.tx_len - n) (drop n u.tx_buf))
                  ∙ ap (λ l. u.line ++ l) (take-take-drop n u.tx_len u.tx_buf (omega arith))
                  ∙ h.whole;
            },
            ground (arith, more, less),
          ))
  ]

  tx_turn-Stage :
      (k : ℕ) (u : UartIface e) (i : IsrTurn)
      → Sending u
      → u.tx_len < k
      → Stage (k - (if i.tx_ready && ltb 0 i.filled then 1 else 0)) (tx_turn e u i)
  tx_turn-Stage k u i h less = elim (Bool-cases i.tx_ready) [
    | inl ready ↦
        let turn : (i.tx_ready && u.irq_tx) ≡ true = ground (arith, ready, h.on) in
        rw (turn, ready) (transmit-Stage k u i h less)
    | inr idle ↦ rw idle (inl (h, omega (arith, less)))
  ]

  turn-Stage :
      (k : ℕ) (u : UartIface e) (i : IsrTurn)
      → Stage k u
      → Stage (k - (if serves i then 1 else 0)) (isr_turn e u i)
  unfolding isr_turn
  turn-Stage k u i (inr over) = inr (Over-turn u i over)
  turn-Stage k u i (inl (h, less)) = elim (Bool-cases i.rx_ready) [
    | inr quiet ↦ rw quiet (tx_turn-Stage k u i h less)
    | inl ready ↦ elim (Option-cases i.received) [
      | inl failed ↦ rw (ready, failed) (inl (h, omega (arith, less)))
      | inr (bytes, found) ↦
          rw (ready, found)
            (tx_turn-Stage k (record u { rx = store_bytes e u.rx bytes }) i (Sending-rx u _ h) less)
    ]
  ]

  -- The send is over, with `goal` on the line and the bytes `bytes` still to be read.
  pub record Sent (most : ℕ) (bytes : List ℕ) (out : Option (UartIface e × List Event))
      : Type 0 where
    pub after : UartIface e
    pub left : List Event
    pub same : out ≡ some (after, left)
    pub rest : AtRest e goal most after
    pub bytes_left : pending e after left ≡ bytes

  -- The semaphore has been given.
  take-Sent :
      (most : ℕ) (bytes : List ℕ) (u : UartIface e) (left : List Event)
      → Over u
      → e.max_msgs u.rx ≡ most
      → pending e u left ≡ bytes
      → Sent most bytes (wait_sent e u (go ∷ left))
  unfolding wait_sent
  take-Sent most bytes u left over size eq =
      let (lock, took, less, same) = e.take_now-some u.tx_lock (omega (arith, over.given)) in
      rw (took, wait_sent)
        (record {
          after = record u { tx_lock = lock };
          left = left;
          same = refl;
          rest = record {
            off = over.off;
            taken = omega (arith, less, over.given);
            one = same ∙ over.one;
            said = over.said;
            size = size;
          };
          bytes_left = eq;
        })

  wait_sent-Sent :
      (most k : ℕ) (bytes : List ℕ) (u : UartIface e) (busy back : List Event)
      → Stage k u
      → k ≤ tx_turns busy
      → e.max_msgs u.rx ≡ most
      → pending e u (busy ++ (go ∷ back)) ≡ bytes
      → length bytes ≤ most
      → Sent most bytes (wait_sent e u (busy ++ (go ∷ back)))
  unfolding wait_sent
  wait_sent-Sent most k bytes u [] back (inl (h, less)) enough size eq room = absurd (omega arith)
  wait_sent-Sent most k bytes u [] back (inr over) enough size eq room =
      take-Sent most bytes u back over size eq
  wait_sent-Sent most k bytes u (irq i ∷ es) back stage enough size eq room =
      let (eq', size') = irq-pending e [] most bytes u i (es ++ (go ∷ back)) size eq room in
      wait_sent-Sent most (k - (if serves i then 1 else 0)) bytes (isr_turn e u i) es back
        (turn-Stage k u i stage) (omega arith) size' eq' room
  wait_sent-Sent most k bytes u (elapse ∷ es) back stage enough size eq room =
      wait_sent-Sent most k bytes u es back stage enough size eq room
  wait_sent-Sent most k bytes u (go ∷ es) back (inl (h, less)) enough size eq room =
      rw (e.take_now-none u.tx_lock h.taken)
        (wait_sent-Sent most k bytes u es back (inl (h, less)) enough size eq room)
  wait_sent-Sent most k bytes u (go ∷ es) back (inr over) enough size eq room =
      take-Sent most bytes u (es ++ (go ∷ back)) over size eq

module _ (e : IfaceEnv) where
  -- The whole packet of the response goes out, and then uart_send_resp returns.
  pub uart_send_resp-Sent :
      (line : List ℕ) (most : ℕ) (r : Resp) (bytes : List ℕ) (u : UartIface e)
      (busy back : List Event)
      → IsResp e.target r
      → AtRest e line most u
      → pending e u (busy ++ (go ∷ back)) ≡ bytes
      → length bytes ≤ most
      → 4 + r.payload_len < tx_turns busy
      → Sent e (line ++ encode_resp r) most bytes (uart_send_resp e r u (busy ++ (go ∷ back)))
  unfolding uart_send_resp
  uart_send_resp-Sent line most r bytes u busy back h rest eq room enough =
      let wire = raw_resp-le e.target r h in
      let packet : take (4 + r.payload_len) (raw_resp e.target (iface_resp_to_le e.target r))
          ≡ encode_resp r =
        ap (take (4 + r.payload_len)) wire ∙ take-header r.payload_len _ _ _ _ r.payload in
      rw (ltb-false e.resp_max r.payload_len h.len_fits) (
        wait_sent-Sent e (line ++ encode_resp r) most (tx_turns busy) bytes _ busy back
          (inl (
            record {
              on = refl;
              taken = rest.taken;
              one = rest.one;
              whole = ap (λ l. u.line ++ l) packet ∙ ap (λ l. l ++ encode_resp r) rest.said;
            },
            enough,
          ))
          (omega arith) rest.size eq room)
